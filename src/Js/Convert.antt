-- ===== src/Js/Convert.antt =====
-- Truth, `String(v)` and `Number(v)` of dynamic values.
use casuya_live.Common.{
  refl, sym, eq_iff, ◌===◌, ℕ, String, Bool, true, false, ◌<>◌, is_empty, not, if◌then◌else◌, ◌&&◌,
  ltb, ◌≡◌, ◌^◌, ◌<◌,
}
use casuya_live.Js.Values.{
  Float, Value, undefined, null, bool, num, str, arr, obj, Items, nil, cons, is_present,
}

module _ (F : Float) where
  open F use {N, of_ℕ, nan, lt, eq, is_finite, of_text, show}

  -- A value in a condition. Zero and NaN are the false numbers.
  unfoldable pub truthy : Value N → Bool
  truthy undefined = false
  truthy null = false
  truthy (bool b) = b
  truthy (num n) = eq n n && not (eq n (of_ℕ 0))
  truthy (str s) = not (is_empty s)
  truthy (arr vs) = true
  truthy (obj fs) = true

  -- `a || b`
  unfoldable pub or_else : Value N → Value N → Value N
  unfolding truthy
  or_else a b = if truthy a then a else b

  mutual
    string_of_value : Value N → String
    string_of_value undefined = "undefined"
    string_of_value null = "null"
    string_of_value (bool true) = "true"
    string_of_value (bool false) = "false"
    string_of_value (num n) = show n
    string_of_value (str s) = s
    string_of_value (arr vs) = joined vs
    string_of_value (obj fs) = "[object Object]"

    -- `vs.join(",")`, where `undefined` and `null` are empty.
    joined : Items N → String
    joined nil = ""
    joined (cons v vs) = (if is_present v then string_of_value v else "") <> joined_rest vs

    joined_rest : Items N → String
    joined_rest nil = ""
    joined_rest (cons v vs) =
        "," <> ((if is_present v then string_of_value v else "") <> joined_rest vs)

  -- `String(v)`
  unfoldable pub string_of : Value N → String
  unfolding string_of_value joined joined_rest
  string_of v = string_of_value v

  -- `Number(v)`
  unfoldable pub number_of : Value N → N
  unfolding string_of
  number_of undefined = nan
  number_of null = of_ℕ 0
  number_of (bool true) = of_ℕ 1
  number_of (bool false) = of_ℕ 0
  number_of (num n) = n
  number_of (str s) = of_text s
  number_of (arr vs) = of_text (string_of (arr vs))
  number_of (obj fs) = of_text "[object Object]"

  -- Whole numbers up to 2^53 are doubles, and compare as the numbers that they are.
  pub record SafeIntegers : Type 0 where
    pub finite : (n : ℕ) → n < 2 ^ 53 → is_finite (of_ℕ n) ≡ true
    pub lt_of_ℕ : (m n : ℕ) → m < 2 ^ 53 → n < 2 ^ 53 → lt (of_ℕ m) (of_ℕ n) ≡ ltb m n

  -- `a === b`. Objects and arrays are one only by identity, and two parsed messages share none.
  unfoldable pub strict_eq : Value N → Value N → Bool
  strict_eq undefined undefined = true
  strict_eq null null = true
  strict_eq (bool true) (bool b) = b
  strict_eq (bool false) (bool b) = not b
  strict_eq (num m) (num n) = eq m n
  strict_eq (str s) (str t) = s === t
  strict_eq _ _ = false

  -- Equality of numbers, which NaN fails with itself.
  pub record EqLaws : Type 0 where
    pub eq_sym : (m n : N) → eq m n ≡ true → eq n m ≡ true
    pub eq_trans : (l m n : N) → eq l m ≡ true → eq m n ≡ true → eq l n ≡ true

  -- The order of numbers, in which NaN stands nowhere.
  pub record LtLaws : Type 0 where
    pub lt_irrefl : (m : N) → lt m m ≡ false
    pub lt_trans : (l m n : N) → lt l m ≡ true → lt m n ≡ true → lt l n ≡ true

  module _ (laws : EqLaws) where
    pub strict_eq_sym : (a b : Value N) → strict_eq a b ≡ true → strict_eq b a ≡ true
    unfolding strict_eq
    strict_eq_sym undefined undefined h = refl
    strict_eq_sym null null h = refl
    strict_eq_sym (bool true) (bool true) h = refl
    strict_eq_sym (bool true) (bool false) h = absurd (cc)
    strict_eq_sym (bool false) (bool true) h = absurd (cc)
    strict_eq_sym (bool false) (bool false) h = refl
    strict_eq_sym (num m) (num n) h = laws.eq_sym m n h
    strict_eq_sym (str s) (str t) h = (eq_iff t s).1 (sym ((eq_iff s t).0 h))
    strict_eq_sym _ _ h = absurd (cc)

    pub strict_eq_trans :
        (a b c : Value N) → strict_eq a b ≡ true → strict_eq b c ≡ true → strict_eq a c ≡ true
    unfolding strict_eq
    strict_eq_trans undefined undefined c h k = k
    strict_eq_trans null null c h k = k
    strict_eq_trans (bool true) (bool true) c h k = k
    strict_eq_trans (bool false) (bool false) c h k = k
    strict_eq_trans (num l) (num m) (num n) h k = laws.eq_trans l m n h k
    strict_eq_trans (str s) (str t) c h k = rw ((eq_iff s t).0 h) k
    strict_eq_trans _ _ _ h k = absurd (cc)
