-- ===== src/Js/Values.antt =====
-- The dynamic values of the language, over an abstract type of numbers.
use casuya_live.Common.{
  refl, ◌≡◌, ◌≢◌, eq_iff, arith, ℕ, String, Bool, true, false, Option, none, some, List, [], ◌∷◌,
  ◌===◌, if◌then◌else◌,
}

-- Numbers: `Number(text)`, `String(n)`, `n.toFixed(k)`, arithmetic and comparison. `hundredths n`
-- is the literal n / 100, and `thousandths n` is n / 1000.
pub record Float : Type 1 where
  pub N : Type 0
  pub of_ℕ : ℕ → N
  pub hundredths : ℕ → N
  pub thousandths : ℕ → N
  pub nan : N
  pub add : N → N → N
  pub sub : N → N → N
  pub mul : N → N → N
  pub div : N → N → N
  pub floor_div : N → N → N
  pub round : N → N
  pub abs : N → N
  pub max_of : N → N → N
  pub lt : N → N → Bool
  pub eq : N → N → Bool
  pub is_finite : N → Bool
  pub is_integer : N → Bool
  pub of_text : String → N
  pub show : N → String
  pub to_fixed : ℕ → N → String

mutual
  pub data Value (N : Type 0) : Type 0 where
    undefined : Value N
    null : Value N
    bool : Bool → Value N
    num : N → Value N
    str : String → Value N
    arr : Items N → Value N
    obj : Fields N → Value N

  pub data Items (N : Type 0) : Type 0 where
    nil : Items N
    cons : Value N → Items N → Items N

  pub data Fields (N : Type 0) : Type 0 where
    end : Fields N
    field : String → Value N → Fields N → Fields N

module _ {N : Type 0} where
  abbrev pub items : Items N → List (Value N)
  items nil = []
  items (cons v vs) = v ∷ items vs

  abbrev pub items_of : List (Value N) → Items N
  items_of [] = nil
  items_of (v ∷ vs) = cons v (items_of vs)

  -- The value of a key in an object literal or a parsed object, which holds each key once.
  abbrev pub find_field : String → Fields N → Value N
  find_field k end = undefined
  find_field k (field j v fs) = if j === k then v else find_field k fs

  -- `v.k` for a key that is no method of the value's prototype; `none` is the TypeError that
  -- `undefined` and `null` raise.
  unfoldable pub member : Value N → String → Option (Value N)
  member undefined k = none
  member null k = none
  member (obj fs) k = some (find_field k fs)
  member _ k = some undefined

  -- `v?.k`
  unfoldable pub member? : Value N → String → Value N
  member? (obj fs) k = find_field k fs
  member? _ k = undefined

  pub member?-eq : (v : Value N) (k : String) {x : Value N} → member v k ≡ some x → member? v k ≡ x
  unfolding member member?
  member?-eq (obj fs) k h = cc
  member?-eq v k h = ground arith

  -- Where `v.k` throws, `v?.k` is `undefined`.
  pub member?_of_throws : (v : Value N) (k : String) → member v k ≡ none → member? v k ≡ undefined
  unfolding member member?
  member?_of_throws (obj fs) k h = absurd (cc)
  member?_of_throws v k h = refl

  -- `v != null`
  abbrev pub is_present : Value N → Bool
  is_present undefined = false
  is_present null = false
  is_present _ = true

  -- `v === "text"`
  abbrev pub is_text : Value N → String → Bool
  is_text (str s) t = s === t
  is_text _ t = false

  pub is_text_apart :
      (v : Value N) (s t : String) → is_text v s ≡ true → s ≢ t → is_text v t ≡ false
  is_text_apart (str r) s t h e = ground (arith, eq_iff r s, eq_iff r t)
  is_text_apart v s t h e = absurd (cc)

  -- `Array.isArray(v) ? v : []`
  abbrev pub array_or_empty : Value N → List (Value N)
  array_or_empty (arr vs) = items vs
  array_or_empty _ = []

  -- An object literal, and an array of values.
  abbrev pub object : List (String × Value N) → Value N
  object kvs = obj (go kvs)
    where
      go : List (String × Value N) → Fields N
      go [] = end
      go ((k, v) ∷ rest) = field k v (go rest)

  abbrev pub array : List (Value N) → Value N
  array vs = arr (items_of vs)

  -- `o[k] = v`: a key that is there keeps its place.
  unfoldable pub set_field : String → Value N → Fields N → Fields N
  set_field k v end = field k v end
  set_field k v (field j w fs) = if j === k then field j v fs else field j w (set_field k v fs)

  pub find_field-set_field :
      (j k : String) (v : Value N) (fs : Fields N)
      → find_field j (set_field k v fs) ≡ (if k === j then v else find_field j fs)
  unfolding set_field
  find_field-set_field j k v end = refl
  find_field-set_field j k v (field i w fs) =
      ground (arith, eq_iff i j, eq_iff i k, eq_iff k j, find_field-set_field j k v fs)
