-- ===== src/Common/Text.antt =====
-- Text by its characters, for the code that takes a text apart.
use Prim.Native.Nat.{ℕ, zero, suc}
use Prim.Native.Char.{Char, code}
use Prim.Native.String.{String, [], ◌∷◌, ◌++◌}
use mathlib.Core.Path.{◌≡◌, refl, sym, ap, ◌∙◌}
use mathlib.Core.Logic.{inl, inr, ◌↔◌}
use mathlib.Core.Bool.{Bool, true, false, ◌||◌, ◌&&◌}
use native.Mathlib.Omega.{arith}
use text.Mathlib.TextLemmas.{nil-append, cons-append}
use mathlib.Core.List.{List}
use casuya_live.Common.Tests.{
  ||-false_left, ||-false_right, ||-assoc, ◌==◌, leb, Bool-cases, if◌then◌else◌,
}

infixr 65 ◌<>◌
-- `a + b` and `${a}${b}` of texts.
abbrev pub ◌<>◌ : String → String → String
s <> t = s ++ t

-- `s === ""`.
abbrev pub is_empty : String → Bool
is_empty [] = true
is_empty (c ∷ s) = false

-- `s.slice(n)`.
unfoldable pub drop_chars : ℕ → String → String
drop_chars zero s = s
drop_chars (suc n) [] = []
drop_chars (suc n) (c ∷ s) = drop_chars n s

-- Whether the character with this number occurs in the text.
abbrev pub has_char : ℕ → String → Bool
has_char n [] = false
has_char n (c ∷ s) = code c == n || has_char n s

pub has_char-append : (n : ℕ) (s t : String) → has_char n (s ++ t) ≡ (has_char n s || has_char n t)
has_char-append n [] t = rw (nil-append t)
has_char-append n (c ∷ s) t = rw (cons-append c s t) (ground (arith, has_char-append n s t))

-- `s.split(c)` for a separator of one character: never empty.
abbrev prepend : Char → List String → List String
prepend c List.[] = List.◌∷◌ (c ∷ []) List.[]
prepend c (List.◌∷◌ p ps) = List.◌∷◌ (c ∷ p) ps

unfoldable pub split_on : ℕ → String → List String
split_on n [] = List.◌∷◌ "" List.[]
split_on n (c ∷ s) =
    let rest = split_on n s in if code c == n then List.◌∷◌ "" rest else prepend c rest

-- A text without the separator is one piece.
pub split_on_free : (n : ℕ) (s : String) → has_char n s ≡ false → split_on n s ≡ List.◌∷◌ s List.[]
unfolding split_on
split_on_free n [] h = refl
split_on_free n (c ∷ s) h = ground (arith, split_on_free n s)

-- The first separator ends the first piece.
pub split_on-append :
    (n : ℕ) (s t : String) (c : Char)
    → has_char n s ≡ false
    → code c ≡ n
    → split_on n (s ++ (c ∷ t)) ≡ List.◌∷◌ s (split_on n t)
unfolding split_on
split_on-append n [] t c h e = rw (nil-append (c ∷ t)) (ground arith)
split_on-append n (d ∷ s) t c h e =
    rw (cons-append d s (c ∷ t)) (ground (arith, split_on-append n s t c))

split_on-ne-nil :
    (n : ℕ) (s : String) → (p : String) × (ps : List String) × (split_on n s ≡ List.◌∷◌ p ps)
unfolding split_on
split_on-ne-nil n [] = ("", List.[], refl)
split_on-ne-nil n (c ∷ s) = elim (Bool-cases (code c == n)) [
  | inl e ↦ ("", split_on n s, rw e refl)
  | inr e ↦ let (p, ps, h) = split_on-ne-nil n s in (c ∷ p, ps, rw e (rw h refl))
]

-- One piece: the text itself, which holds no separator.
split_on_one :
    (n : ℕ) (s p : String) → split_on n s ≡ List.◌∷◌ p List.[] → (s ≡ p) × (has_char n p ≡ false)
unfolding split_on
split_on_one n [] p h = let e : p ≡ "" = cc in (sym e, rw e refl)
split_on_one n (c ∷ s) p h =
    let (q, qs, e) = split_on-ne-nil n s in ground (arith, e, split_on_one n s q)

-- Exactly two pieces: the text is the pieces round one separator, and neither holds another.
pub split_on_two :
    (n : ℕ) (s p q : String)
    → split_on n s ≡ List.◌∷◌ p (List.◌∷◌ q List.[])
    → (c : Char) × (code c ≡ n)
      × (s ≡ p ++ (c ∷ q))
      × (has_char n p ≡ false)
      × (has_char n q ≡ false)
unfolding split_on
split_on_two n [] p q h = absurd (cc)
split_on_two n (c ∷ s) p q h = elim (Bool-cases (code c == n)) [
  | inl e ↦
      let (same, free) = split_on_one n s q (ground arith) in
      let empty : p ≡ "" = ground arith in
      (c, ground arith, rw (empty, nil-append (c ∷ q), same) refl, rw empty refl, free)
  | inr e ↦
      let (r, rs, k) = split_on-ne-nil n s in
      let more : p ≡ c ∷ r = ground (arith, k) in
      let (d, at, same, free_r, free_q) = split_on_two n s r q (ground (arith, k)) in
      (d, at, rw (more, cons-append c r (d ∷ q)) (ap (◌∷◌ c) same), rw (more, e) free_r, free_q)
]

pub is_empty_iff : (s : String) → (is_empty s ≡ true) ↔ (s ≡ "")
is_empty_iff [] = (λ h. refl, λ e. refl)
is_empty_iff (c ∷ s) = (λ h. absurd (cc), λ e. absurd (cc))

-- An append that computes at a literal on its left.
abbrev pub glue : String → String → String
glue [] t = t
glue (c ∷ s) t = c ∷ glue s t

pub append-eq-glue : (s t : String) → s ++ t ≡ glue s t
append-eq-glue [] t = nil-append t
append-eq-glue (c ∷ s) t = cons-append c s t ∙ ap (◌∷◌ c) (append-eq-glue s t)

-- One character and the rest, as an append of a one-character text.
pub cons-eq-append : (c : Char) (t s : String) → s ≡ c ∷ [] → c ∷ t ≡ s ++ t
cons-eq-append c t s e = rw (e, cons-append c [] t, nil-append t) refl

-- A text with a character in it is not empty.
pub append-not-empty : (s t : String) (c : Char) → is_empty (s ++ (c ∷ t)) ≡ false
append-not-empty [] t c = rw (nil-append (c ∷ t)) refl
append-not-empty (d ∷ s) t c = rw (cons-append d s (c ∷ t)) refl

-- `s.trim()` and `\s`: white space and line ends.
abbrev pub is_space : Char → Bool
is_space c =
    (leb 9 (code c) && leb (code c) 13)
    || code c == 32
    || code c == 160
    || code c == 5760
    || (leb 8192 (code c) && leb (code c) 8202)
    || code c == 8232
    || code c == 8233
    || code c == 8239
    || code c == 8287
    || code c == 12288
    || code c == 65279

unfoldable pub trim_start : String → String
trim_start [] = []
trim_start (c ∷ s) = let rest = trim_start s in if is_space c then rest else c ∷ s

unfoldable pub trim_end : String → String
trim_end [] = []
trim_end (c ∷ s) = let rest = trim_end s in if is_empty rest && is_space c then [] else c ∷ rest

unfoldable pub trim : String → String
unfolding trim_start trim_end
trim s = trim_end (trim_start s)

-- White space somewhere in the text.
abbrev pub has_space : String → Bool
has_space [] = false
has_space (c ∷ s) = is_space c || has_space s

trim_start_free : (s : String) → has_space s ≡ false → trim_start s ≡ s
unfolding trim_start
trim_start_free [] h = refl
trim_start_free (c ∷ s) h =
    let e : is_space c ≡ false = ||-false_left (is_space c) (has_space s) h in rw e refl

trim_end_free : (s : String) → has_space s ≡ false → trim_end s ≡ s
unfolding trim_end
trim_end_free [] h = refl
trim_end_free (c ∷ s) h =
    let e : is_space c ≡ false = ||-false_left (is_space c) (has_space s) h in
    let ih : trim_end s ≡ s = trim_end_free s (||-false_right (is_space c) (has_space s) h) in
    rw (ih, e) (ground arith)

-- A text without white space is its own trimming.
pub trim_free : (s : String) → has_space s ≡ false → trim s ≡ s
unfolding trim
trim_free s h = rw (trim_start_free s h) (trim_end_free s h)

pub has_space-append : (s t : String) → has_space (s ++ t) ≡ (has_space s || has_space t)
has_space-append [] t = rw (nil-append t)
has_space-append (c ∷ s) t =
    rw (cons-append c s t, has_space-append s t) (||-assoc (is_space c) (has_space s) (has_space t))
