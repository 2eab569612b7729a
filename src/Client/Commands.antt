-- ===== src/Client/Commands.antt =====
-- `decodePayload` and `decodeEnvelope` of web-interface-js/frontend/src/components/CommandsLog.jsx. The
-- length of a text is in characters, which it is for the ones of base64.
pub mod Base64
use Prim.Native.Char.{code}
use casuya_live.Common.{
  ℕ, zero, suc, ◌-◌, ◌%◌, String, false, Option, none, some, List, [], ◌∷◌, ◌≡◌, refl, ◌==◌, ◌<>◌,
  is_empty, has_char, split_on, split_on-append, append-eq-glue, append-not-empty, if◌then◌else◌,
}
use casuya_live.Js.{Float, Runtime, Value, null, str, member?, or_else, truthy}
use casuya_live.Relay.Bus.{payload_of}

-- `-` to `+` and `_` to `/`.
unfoldable pub base64_of : String → String
base64_of String.[] = String.[]
base64_of (String.◌∷◌ c s) =
    let rest = base64_of s in
    if code c == b'-'
    then "+" <> rest
    else if code c == b'_'
    then "/" <> rest
    else String.◌∷◌ c rest

abbrev pub count : String → ℕ
count String.[] = 0
count (String.◌∷◌ c s) = suc (count s)

-- `"=".repeat(n)`
abbrev pub repeat_equals : ℕ → String
repeat_equals zero = ""
repeat_equals (suc n) = String.◌∷◌ "=" (repeat_equals n)

-- `padded + "=".repeat((4 - (padded.length % 4)) % 4)`
unfoldable pub pad : String → String
pad s = s <> repeat_equals ((4 - count s % 4) % 4)

-- `const [first] = pieces`
abbrev pub first_piece : List String → String
first_piece [] = ""
first_piece (p ∷ _) = p

-- `atob` is the platform's; `none` is an exception.
module _ (F : Float) (R : Runtime F) (atob : String → Option String) where
  open F use {N}
  open R use {parse}

  -- `JSON.parse(atob(text))`, and null after an exception.
  unfoldable pub decode_json : String → Value N
  decode_json text = elim (atob text) [
    | none ↦ null
    | some json ↦ elim (parse json) [ none ↦ null | some body ↦ body ]
  ]

  abbrev decode_piece : String → Value N
  decode_piece p = if is_empty p then null else decode_json (pad (base64_of p))

  -- `decodePayload`
  unfoldable pub decode_payload : Value N → Value N
  unfolding decode_json split_on pad base64_of
  decode_payload (str envelope) = decode_piece (first_piece (split_on b'.' envelope))
  decode_payload _ = null

  abbrev pub source_of : Value N → Value N
  source_of (str s) = str s
  source_of cmd = or_else F (or_else F (member? cmd "payload") (member? cmd "raw")) cmd

  -- `decodeEnvelope`
  unfoldable pub decode_envelope : Value N → Value N
  unfolding decode_payload
  decode_envelope cmd = decode_payload (source_of cmd)
