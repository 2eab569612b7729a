-- ===== src/Common/Decimal.antt =====
-- `String(n)` of a whole number: decimal digits, and that they determine the number.
use Prim.Native.Nat.{ℕ, zero, suc, ◌+◌, ◌-◌, ◌*◌, ◌/◌, ◌%◌, ◌<◌}
use Prim.Native.Char.{code}
use Prim.Native.String.{String, [], ◌∷◌, ◌++◌}
use mathlib.Core.Path.{◌≡◌, refl, sym, ap, ◌∙◌}
use mathlib.Core.Logic.{inl, inr}
use mathlib.Core.Bool.{true, false}
use native.Mathlib.Omega.{arith}
use casuya_live.Common.Tests.{◌==◌, if◌then◌else◌, Bool-cases}
use casuya_live.Common.Text.{append-eq-glue, is_empty}

digit : ℕ → String
digit zero = "0"
digit (suc zero) = "1"
digit (suc (suc zero)) = "2"
digit (suc (suc (suc zero))) = "3"
digit (suc (suc (suc (suc zero)))) = "4"
digit (suc (suc (suc (suc (suc zero))))) = "5"
digit (suc (suc (suc (suc (suc (suc zero)))))) = "6"
digit (suc (suc (suc (suc (suc (suc (suc zero))))))) = "7"
digit (suc (suc (suc (suc (suc (suc (suc (suc zero)))))))) = "8"
digit (suc (suc (suc (suc (suc (suc (suc (suc (suc n))))))))) = "9"

-- The fuel is above the number, which falls at each digit.
digits_from : ℕ → ℕ → String → String
digits_from zero n done = done
digits_from (suc f) n done =
    let more = digits_from f (n / 10) (digit (n % 10) ++ done) in
    if n / 10 == 0 then digit (n % 10) ++ done else more

unfoldable pub decimal : ℕ → String
unfolding digit digits_from
decimal n = digits_from (suc n) n ""

read_from : ℕ → String → ℕ
read_from v [] = v
read_from v (c ∷ s) = read_from (v * 10 + (code c - 48)) s

read_from-digit :
    (d v : ℕ) (s : String) → d < 10 → read_from v (digit d ++ s) ≡ read_from (v * 10 + d) s
unfolding read_from digit
read_from-digit zero v s h = rw (append-eq-glue "0" s) refl
read_from-digit (suc zero) v s h = rw (append-eq-glue "1" s) refl
read_from-digit (suc (suc zero)) v s h = rw (append-eq-glue "2" s) refl
read_from-digit (suc (suc (suc zero))) v s h = rw (append-eq-glue "3" s) refl
read_from-digit (suc (suc (suc (suc zero)))) v s h = rw (append-eq-glue "4" s) refl
read_from-digit (suc (suc (suc (suc (suc zero))))) v s h = rw (append-eq-glue "5" s) refl
read_from-digit (suc (suc (suc (suc (suc (suc zero)))))) v s h = rw (append-eq-glue "6" s) refl
read_from-digit (suc (suc (suc (suc (suc (suc (suc zero))))))) v s h =
    rw (append-eq-glue "7" s) refl
read_from-digit (suc (suc (suc (suc (suc (suc (suc (suc zero)))))))) v s h =
    rw (append-eq-glue "8" s) refl
read_from-digit (suc (suc (suc (suc (suc (suc (suc (suc (suc n))))))))) v s h =
    let e : n ≡ 0 = omega arith in rw (e, append-eq-glue "9" s) refl

read_from-digits_from :
    (f n : ℕ) (done : String) → n < f → read_from 0 (digits_from f n done) ≡ read_from n done
unfolding digits_from
read_from-digits_from zero n done h = elim h [ ]
read_from-digits_from (suc f) n done h = elim (Bool-cases (n / 10 == 0)) [
  | inl e ↦
      rw (digits_from, e)
        (read_from-digit (n % 10) 0 done (omega arith) ∙ ap (λ k. read_from k done) (ground arith))
  | inr e ↦
      rw (digits_from, e)
        (read_from-digits_from f (n / 10) (digit (n % 10) ++ done) (ground arith)
          ∙ read_from-digit (n % 10) (n / 10) done (omega arith)
          ∙ ap (λ k. read_from k done) (omega arith))
]

-- Two numbers with one decimal text are equal.
pub decimal_injective : (m n : ℕ) → decimal m ≡ decimal n → m ≡ n
unfolding decimal read_from
decimal_injective m n h =
    sym (read_from-digits_from (suc m) m "" (omega arith))
    ∙ ap (read_from 0) h
    ∙ read_from-digits_from (suc n) n "" (omega arith)

pub decimal_not_empty : (n : ℕ) → is_empty (decimal n) ≡ false
unfolding decimal read_from
decimal_not_empty zero = refl
decimal_not_empty (suc n) = elim (Bool-cases (is_empty (decimal (suc n)))) [
  | inr e ↦ e
  | inl e ↦
      let none : decimal (suc n) ≡ "" = empty_text (decimal (suc n)) e in
      let read = read_from-digits_from (suc (suc n)) (suc n) "" (omega arith) in
      absurd (let same = sym read ∙ ap (read_from 0) none in omega (arith, same))
]
  where
    empty_text : (s : String) → is_empty s ≡ true → s ≡ ""
    empty_text [] h = refl
    empty_text (c ∷ s) h = absurd (cc)
