-- ===== src/Examples/Toy.antt =====
-- A platform for examples: whole numbers with a NaN, a few texts of JSON, and a digest that is the
-- key beside the text.
use Prim.Native.Char.{code}
use casuya_live.Common.{
  ℕ, zero, suc, ◌+◌, ◌-◌, ◌*◌, ◌/◌, String, Bool, true, false, ◌||◌, Option, none, some, [], ◌∷◌,
  ◌≡◌, refl, arith, ◌==◌, ◌===◌, ◌<>◌, ltb, if◌then◌else◌, has_char, has_space, decimal, inl, inr,
  Bool-cases,
}
use casuya_live.Js.{
  Float, Runtime, SafeIntegers, EqLaws, Value, null, num, str, obj, field, end, object, array,
  find_field, Fields, is_present, LtLaws,
}
use casuya_live.Relay.Token.Authentic.{TokenLaws}
use casuya_live.Relay.Http.Access.{HeaderLaws}
use casuya_live.Vendor.Book.{Buffers}
use casuya_live.Client.Session.Keeping.{SessionLaws}
use casuya_live.Client.Urls.{UrlClass, PathLaws}

abbrev less : Option ℕ → Option ℕ → Bool
less (some m) (some n) = ltb m n
less _ _ = false

abbrev same : Option ℕ → Option ℕ → Bool
same (some m) (some n) = m == n
same _ _ = false

abbrev is_number : Option ℕ → Bool
is_number none = false
is_number (some n) = true

abbrev lift : (ℕ → ℕ → ℕ) → Option ℕ → Option ℕ → Option ℕ
lift f (some m) (some n) = some (f m n)
lift f _ _ = none

abbrev show_number : Option ℕ → String
show_number none = "NaN"
show_number (some n) = decimal n

abbrev pub numbers : Float
numbers = record {
  N = Option ℕ;
  of_ℕ = some;
  hundredths = λ n. some (n / 100);
  thousandths = λ n. some (n / 1000);
  nan = none;
  add = lift (λ m n. m + n);
  sub = lift (λ m n. m - n);
  mul = lift (λ m n. m * n);
  div = lift (λ m n. m / n);
  floor_div = lift (λ m n. m / n);
  round = λ n. n;
  abs = λ n. n;
  max_of = lift (λ m n. if ltb m n then n else m);
  lt = less;
  eq = same;
  is_finite = is_number;
  is_integer = is_number;
  of_text = λ s. if s === "7" then some 7 else none;
  show = show_number;
  to_fixed = λ k n. show_number n;
}

pub numbers-SafeIntegers : SafeIntegers numbers
numbers-SafeIntegers = record { finite = λ n h. refl; lt_of_ℕ = λ m n h k. refl }

same_sym : (m n : Option ℕ) → same m n ≡ true → same n m ≡ true
same_sym none n h = absurd (cc)
same_sym (some m) none h = absurd (cc)
same_sym (some m) (some n) h = ground arith

same_trans : (l m n : Option ℕ) → same l m ≡ true → same m n ≡ true → same l n ≡ true
same_trans none m n h k = absurd (cc)
same_trans (some l) none n h k = absurd (cc)
same_trans (some l) (some m) none h k = absurd (cc)
same_trans (some l) (some m) (some n) h k = ground arith

pub numbers-EqLaws : EqLaws numbers
numbers-EqLaws = record { eq_sym = same_sym; eq_trans = same_trans }

-- The JSON of claims is their `iat` in strokes, and one more.
abbrev strokes : ℕ → String
strokes zero = ""
strokes (suc n) = String.◌∷◌ "i" (strokes n)

abbrev count_chars : String → ℕ
count_chars String.[] = 0
count_chars (String.◌∷◌ c s) = suc (count_chars s)

count_chars-strokes : (n : ℕ) → count_chars (strokes n) ≡ n
count_chars-strokes zero = refl
count_chars-strokes (suc n) = rw (count_chars-strokes n) refl

abbrev claims : ℕ → Value (Option ℕ)
claims n = obj (
    field "sub" (str "admin")
      (field "iat" (num (some n)) (field "exp" (num (some (n + 28800))) end)))

abbrev pub won_order : Value (Option ℕ)
won_order = object (("order_id", str "M1") ∷ ("pnl", num (some 5)) ∷ ("result", str "won") ∷ [])

abbrev pub lost_order : Value (Option ℕ)
lost_order = object (("order_id", str "M2") ∷ ("pnl", num (some 3)) ∷ ("result", str "lost") ∷ [])

abbrev pub settlement_message : Value (Option ℕ)
settlement_message = object (("settled", array (won_order ∷ lost_order ∷ [])) ∷ [])

abbrev pub live_payload : ℕ → Value (Option ℕ)
live_payload n = object (("match_id", str "epl") ∷ ("shots", num (some n)) ∷ [])

abbrev pub signal : String → ℕ → Value (Option ℕ)
signal id odds =
    object (("type", str "signal") ∷ ("order_id", str id) ∷ ("odds", num (some odds)) ∷ [])

abbrev pub saved_session : Value (Option ℕ)
saved_session = object (
    ("token", str "iiiiii.keyiiiiii")
    ∷ ("expires_at", num (some 28805))
    ∷ ("saved_at", num (some 5000))
    ∷ [])

abbrev framed : String → Value (Option ℕ) → Value (Option ℕ)
framed type payload = object (("type", str type) ∷ ("data", payload) ∷ [])

abbrev parsed_text : String → Option (Value (Option ℕ))
parsed_text s =
    if s === "session"
    then some saved_session
    else if s === "signal"
    then some (signal "M1" 2)
    else if s === "newer signal"
    then some (signal "M1" 3)
    else if s === "other signal"
    then some (signal "M2" 4)
    else if s === "null"
    then some null
    else if s === "settled"
    then some settlement_message
    else if s === "fill"
    then some (object (("type", str "bet") ∷ ("market", str "1H_1X2") ∷ []))
    else if s === "order"
    then some (object (("body", str "fill") ∷ ("sig", str "keyfill") ∷ []))
    else if s === "junk order"
    then some (object (("body", str "junk") ∷ []))
    else if s === "secret"
    then some (object (("secret", str "key") ∷ []))
    else if s === "live"
    then some (framed "matches:live" (live_payload 1))
    else if s === "later"
    then some (framed "matches:live" (live_payload 2))
    else if s === "pnl"
    then some (framed "execution:pnl" settlement_message)
    else if s === "bet"
    then some (framed "execution:commands" (object (("order_id", str "M1") ∷ [])))
    else none

abbrev parsed : String → Option (Value (Option ℕ))
parsed String.[] = none
parsed (String.◌∷◌ c s) =
    if code c == b'i' then some (claims (count_chars s)) else parsed_text (String.◌∷◌ c s)

abbrev other_json : Fields (Option ℕ) → String
other_json fs = if is_present (find_field "expires_at" fs) then "session" else "frame"

abbrev object_json : Value (Option ℕ) → Fields (Option ℕ) → String
object_json (num (some n)) fs = strokes (suc n)
object_json _ fs = other_json fs

abbrev json_of : Value (Option ℕ) → String
json_of (obj fs) = object_json (find_field "iat" fs) fs
json_of _ = "value"

-- A text with a full stop or white space in it is lost.
abbrev clean : String → String
clean s = if has_char b'.' s || has_space s then "" else s

-- `query` finds the token that the secret "key" signs at the start of the clock.
abbrev pub platform : Runtime numbers
platform = record {
  parse = parsed;
  stringify = json_of;
  hmac = λ key s. clean (key <> s);
  encode = clean;
  decode = λ s. s;
  query = λ url name. some (if url === "/ws?token=i.keyi" then some "i.keyi" else none);
  parse_date = λ s. none;
  iso_date = λ n. "1970-01-01";
}

clean_no_dot : (s : String) → has_char b'.' (clean s) ≡ false
clean_no_dot s = elim (Bool-cases (has_char b'.' s)) [
  | inl e ↦ rw e refl
  | inr e ↦ elim (Bool-cases (has_space s)) [ inl k ↦ rw (e, k) refl | inr k ↦ rw (e, k) e ]
]

clean_no_space : (s : String) → has_space (clean s) ≡ false
clean_no_space s = elim (Bool-cases (has_char b'.' s)) [
  | inl e ↦ rw e refl
  | inr e ↦ elim (Bool-cases (has_space s)) [ inl k ↦ rw (e, k) refl | inr k ↦ rw (e, k) k ]
]

parsed-strokes : (n : ℕ) → parsed (strokes (suc n)) ≡ some (claims n)
parsed-strokes n = rw (count_chars-strokes n) refl

strokes_no_dot : (n : ℕ) → has_char b'.' (strokes n) ≡ false
strokes_no_dot zero = refl
strokes_no_dot (suc n) = strokes_no_dot n

strokes_no_space : (n : ℕ) → has_space (strokes n) ≡ false
strokes_no_space zero = refl
strokes_no_space (suc n) = strokes_no_space n

pub platform-TokenLaws : TokenLaws numbers platform
platform-TokenLaws = record {
  safe = numbers-SafeIntegers;
  parse-stringify = parsed-strokes;
  decode-encode = λ now. rw (strokes_no_dot (suc now), strokes_no_space (suc now)) refl;
  encode_no_dot = clean_no_dot;
  hmac_no_dot = λ key s. clean_no_dot (key <> s);
}

pub platform-HeaderLaws : HeaderLaws numbers platform
platform-HeaderLaws = record {
  encode_no_space = clean_no_space;
  hmac_no_space = λ key s. clean_no_space (key <> s);
}

abbrev text_bytes : Value (Option ℕ) → Option String
text_bytes (str s) = some s
text_bytes _ = none

abbrev pub buffers : Buffers numbers
buffers = record {
  Bytes = String;
  size = count_chars;
  from_base64 = text_bytes;
  from_base64url = text_bytes;
  from_text = λ s. s;
  to_text = λ s. s;
  to_base64 = λ s. s;
  to_base64url = λ s. s;
  hmac_sha256 = λ key s. key <> s;
  timing_safe_equal = λ s t. s === t;
}

less_irrefl : (m : Option ℕ) → less m m ≡ false
less_irrefl none = refl
less_irrefl (some m) = ground arith

less_trans : (l m n : Option ℕ) → less l m ≡ true → less m n ≡ true → less l n ≡ true
less_trans none m n h k = absurd (cc)
less_trans (some l) none n h k = absurd (cc)
less_trans (some l) (some m) none h k = absurd (cc)
less_trans (some l) (some m) (some n) h k = ground arith

pub numbers-LtLaws : LtLaws numbers
numbers-LtLaws = record { lt_irrefl = less_irrefl; lt_trans = less_trans }

pub platform-SessionLaws : SessionLaws numbers platform
platform-SessionLaws = record {
  safe = numbers-SafeIntegers;
  eq_of_ℕ = λ m n h k. refl;
  mul_of_ℕ = λ m n h. refl;
  parse_empty = refl;
}

-- A URL is its path and its query.
abbrev pub urls : UrlClass
urls = record {
  Url = String × String;
  new_url = λ text. if text === "" then none else some ("/", "");
  protocol = λ u. "wss:";
  pathname = λ u. u.0;
  set_protocol = λ p u. u;
  set_pathname = λ p u. (p, u.1);
  set_search = λ q u. (u.0, q);
  set_hash = λ h u. u;
  set_param = λ name v u. (u.0, name <> ("=" <> v));
  href = λ u. "wss://relay" <> (u.0 <> u.1);
}

pub urls-PathLaws : PathLaws numbers urls
urls-PathLaws = record { set_pathname-get = λ u. refl }
