-- ===== src/Client/Commands/Base64.antt =====
-- The signed commands of the executor come through the relay and CommandsLog.jsx: a payload in
-- base64url, which writes the digits 62 and 63 of base64 as - and _ and has no padding.

use Prim.Native.Char.{code, Char}
use casuya_live.Common.{
  ℕ, zero, suc, ◌-◌, ◌%◌, ◌≤◌, String, Bool, true, false, ◌&&◌, ◌||◌, Option, none, some, List, [],
  ◌∷◌, ◌≡◌, ◌≢◌, refl, ap, ◌∙◌, ◌==◌, ◌<>◌, arith, leb, length, is_empty, has_char, split_on,
  split_on-append, append-eq-glue, append-not-empty, if◌then◌else◌,
}
use casuya_live.Js.{Float, Runtime, Value, member?, or_else, truthy}
use casuya_live.Relay.Bus.{payload_of}
use casuya_live.Client.Commands.{
  base64_of, count, repeat_equals, pad, decode_json, decode_payload, decode_envelope, first_piece,
}

-- A to Z, a to z, and 0 to 9.
abbrev is_letter : ℕ → Bool
is_letter n = (leb b'A' n && leb n b'Z') || (leb b'a' n && leb n b'z') || (leb b'0' n && leb n b'9')

-- A digit of base64: one of the 62 that both alphabets write the same, or the last two.
pub data Digit : Type 0 where
  letter : (c : Char) → is_letter (code c) ≡ true → Digit
  plus slash : Digit

-- A payload in base64url.
abbrev pub url_text : List Digit → String
url_text [] = ""
url_text (letter c h ∷ ds) = String.◌∷◌ c (url_text ds)
url_text (plus ∷ ds) = String.◌∷◌ "-" (url_text ds)
url_text (slash ∷ ds) = String.◌∷◌ "_" (url_text ds)

abbrev pub digits_text : List Digit → String
digits_text [] = ""
digits_text (letter c h ∷ ds) = String.◌∷◌ c (digits_text ds)
digits_text (plus ∷ ds) = String.◌∷◌ "+" (digits_text ds)
digits_text (slash ∷ ds) = String.◌∷◌ "/" (digits_text ds)

-- What base64 adds to fill a group of four digits, by the digits that are in the last one.
abbrev pub padding : ℕ → String
padding n = if n == 2 then "==" else if n == 3 then "=" else ""

-- The same payload in base64.
abbrev pub standard_text : List Digit → String
standard_text ds = digits_text ds <> padding (length ds % 4)

letter_apart : (n : ℕ) → is_letter n ≡ true → (n ≢ b'-') × (n ≢ b'_') × (n ≢ b'.')
letter_apart n h =
    ((λ e. absurd (ground arith)), (λ e. absurd (ground arith)), (λ e. absurd (ground arith)))

==-false : (m n : ℕ) → m ≢ n → (m == n) ≡ false
==-false m n h = ground arith

base64_of-url_text : (ds : List Digit) → base64_of (url_text ds) ≡ digits_text ds
unfolding base64_of
base64_of-url_text [] = refl
base64_of-url_text (letter c h ∷ ds) =
    let (dash, line, stop) = letter_apart (code c) h in
    rw (==-false _ _ dash, ==-false _ _ line, base64_of-url_text ds) refl
base64_of-url_text (plus ∷ ds) =
    append-eq-glue "+" (base64_of (url_text ds)) ∙ ap (String.◌∷◌ "+") (base64_of-url_text ds)
base64_of-url_text (slash ∷ ds) =
    append-eq-glue "/" (base64_of (url_text ds)) ∙ ap (String.◌∷◌ "/") (base64_of-url_text ds)

count-digits_text : (ds : List Digit) → count (digits_text ds) ≡ length ds
count-digits_text [] = refl
count-digits_text (letter c h ∷ ds) = ap suc (count-digits_text ds)
count-digits_text (plus ∷ ds) = ap suc (count-digits_text ds)
count-digits_text (slash ∷ ds) = ap suc (count-digits_text ds)

padding-repeat : (m : ℕ) → m ≤ 3 → m ≢ 1 → repeat_equals ((4 - m) % 4) ≡ padding m
padding-repeat zero h k = refl
padding-repeat (suc zero) h k = absurd (k refl)
padding-repeat (suc (suc zero)) h k = refl
padding-repeat (suc (suc (suc zero))) h k = refl
padding-repeat (suc (suc (suc (suc m)))) h k = absurd (omega arith)

has_char-url_text : (ds : List Digit) → has_char b'.' (url_text ds) ≡ false
has_char-url_text [] = refl
has_char-url_text (letter c h ∷ ds) =
    let (dash, line, stop) = letter_apart (code c) h in
    rw (==-false _ _ stop, has_char-url_text ds) refl
has_char-url_text (plus ∷ ds) = has_char-url_text ds
has_char-url_text (slash ∷ ds) = has_char-url_text ds

-- The decoder's text is the payload in base64.
pad-standard_text :
    (ds : List Digit) → length ds % 4 ≢ 1 → pad (base64_of (url_text ds)) ≡ standard_text ds
unfolding pad
pad-standard_text ds h =
    rw (base64_of-url_text ds, count-digits_text ds)
      (ap (λ t. digits_text ds <> t) (padding-repeat (length ds % 4) (omega arith) h))

not_empty_url : (ds : List Digit) → ds ≢ [] → is_empty (url_text ds) ≡ false
not_empty_url [] h = absurd (h refl)
not_empty_url (letter c k ∷ ds) h = refl
not_empty_url (plus ∷ ds) h = refl
not_empty_url (slash ∷ ds) h = refl

split_envelope :
    (p sig : String) → has_char b'.' p ≡ false → first_piece (split_on b'.' (p <> ("." <> sig))) ≡ p
split_envelope p sig free =
    rw (append-eq-glue "." sig, split_on-append b'.' p sig "." free refl) refl

not_empty_envelope : (p sig : String) → is_empty (p <> ("." <> sig)) ≡ false
not_empty_envelope p sig = rw (append-eq-glue "." sig) (append-not-empty p sig ".")

module _ (F : Float) (R : Runtime F) (atob : String → Option String) where
  open F use {N}
  open R use {parse}

  -- A payload of at least one digit, of a length that base64 has, is sent in base64url with its
  -- signature behind a full stop, in a text that is no JSON. It comes through the relay and is decoded
  -- to the body whose JSON atob finds in the same payload in base64, with its padding.
  pub decode_envelope-payload_of :
      (ds : List Digit) (sig json : String) (body : Value N)
      → ds ≢ []
      → length ds % 4 ≢ 1
      → parse (url_text ds <> ("." <> sig)) ≡ none
      → atob (standard_text ds) ≡ some json
      → parse json ≡ some body
      → decode_envelope F R atob (payload_of F R (url_text ds <> ("." <> sig))) ≡ body
  unfolding decode_envelope decode_payload decode_json member? or_else truthy
  decode_envelope-payload_of ds sig json body some_ds len no_json decoded parsed =
      rw
        (
          payload_of,
          no_json,
          not_empty_envelope (url_text ds) sig,
          split_envelope (url_text ds) sig (has_char-url_text ds),
          not_empty_url ds some_ds,
          pad-standard_text ds len,
          decode_json,
          decoded,
          parsed,
        )
        refl
