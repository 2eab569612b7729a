-- ===== src/Client/Recent.antt =====
-- The bounded queue of the hooks, newest first: `[x, ...prev.filter(p => p.key !== x.key)].slice(0, n)`,
-- and its specification without a bound. `same` is `===` of the keys.
use casuya_live.Common.{
  ℕ, zero, suc, ◌+◌, ◌≤◌, Bool, true, false, not, Option, none, some, List, [], ◌∷◌, ◌≡◌, refl, ap,
  arith, take, keep, All, All-keep, All-take, if◌then◌else◌, Bool-cases, inl, inr,
}

module _ {ℓ} {A : Type ℓ} where
  -- How many items a filter drops.
  abbrev pub dropped : (A → Bool) → List A → ℕ
  dropped p [] = 0
  dropped p (x ∷ xs) = if p x then dropped p xs else suc (dropped p xs)

  keep_all : (p : A → Bool) (xs : List A) → dropped p xs ≤ 0 → keep p xs ≡ xs
  keep_all p [] h = refl
  keep_all p (x ∷ xs) h = ground (arith, keep_all p xs)

  dropped-take-le : (p : A → Bool) (n : ℕ) (xs : List A) → dropped p (take n xs) ≤ dropped p xs
  dropped-take-le p zero xs = omega arith
  dropped-take-le p (suc n) [] = omega arith
  dropped-take-le p (suc n) (x ∷ xs) = ground (arith, dropped-take-le p n xs)

  -- A filter that drops at most k items needs only k more of the list.
  take-keep-take :
      (p : A → Bool) (n m : ℕ) (xs : List A)
      → dropped p xs + n ≤ m
      → take n (keep p (take m xs)) ≡ take n (keep p xs)
  take-keep-take p zero m xs h = refl
  take-keep-take p (suc n) zero [] h = refl
  take-keep-take p (suc n) (suc m) [] h = refl
  take-keep-take p (suc n) zero (x ∷ xs) h = absurd (omega arith)
  take-keep-take p (suc n) (suc m) (x ∷ xs) h = elim (Bool-cases (p x)) [
    | inl e ↦ rw e (ap (◌∷◌ x) (take-keep-take p n m xs (ground arith)))
    | inr e ↦ rw e (take-keep-take p (suc n) m xs (ground arith))
  ]

  take-take-suc : (n : ℕ) (xs : List A) → take n (take (suc n) xs) ≡ take n xs
  take-take-suc zero xs = refl
  take-take-suc (suc n) [] = refl
  take-take-suc (suc n) (x ∷ xs) = ap (◌∷◌ x) (take-take-suc n xs)

  -- A log that is cut at n items after each new one is the front of the whole log.
  pub take-cons-take : (n : ℕ) (x : A) (xs : List A) → take n (x ∷ take n xs) ≡ take n (x ∷ xs)
  take-cons-take zero x xs = refl
  take-cons-take (suc n) x xs = ap (◌∷◌ x) (take-take-suc n xs)

module _ {ℓ} {A : Type ℓ} (same : A → A → Bool) where
  -- `[x, ...prev.filter(p => p.key !== x.key)].slice(0, n)`
  unfoldable pub push : ℕ → A → List A → List A
  push n x xs = take n (x ∷ keep (λ y. not (same y x)) xs)

  -- The queue after a history, its newest item first.
  unfoldable pub pushes : ℕ → List A → List A
  unfolding push
  pushes n [] = []
  pushes n (x ∷ hs) = push n x (pushes n hs)

  -- The last item of each key, newest first, with no bound.
  unfoldable pub latest : List A → List A
  latest [] = []
  latest (x ∷ hs) = x ∷ keep (λ y. not (same y x)) (latest hs)

  -- The first item with a key.
  abbrev pub find_first : A → List A → Option A
  find_first k [] = none
  find_first k (x ∷ xs) = if same x k then some x else find_first k xs

  -- No two items have one key.
  abbrev pub Apart : List A → Type 0
  Apart [] = Unit
  Apart (x ∷ xs) = All (λ y. same y x ≡ false) xs × Apart xs

-- `===` of keys is symmetric and transitive, and not reflexive: NaN is not itself.
module _ {ℓ} {A : Type ℓ} (same : A → A → Bool)
    (same_sym : (x y : A) → same x y ≡ true → same y x ≡ true)
    (same_trans : (x y z : A) → same x y ≡ true → same y z ≡ true → same x z ≡ true) where
  -- Of items with different keys at most one has the key of x.
  none_dropped :
      (x y : A) (ys : List A)
      → same y x ≡ true
      → All (λ z. same z y ≡ false) ys
      → dropped (λ z. not (same z x)) ys ≡ 0
  none_dropped x y [] e h = refl
  none_dropped x y (z ∷ ys) e h =
      ground (arith, same_sym y x, same_trans z x y, h.0, none_dropped x y ys e h.1)

  dropped-le-one : (x : A) (ys : List A) → Apart same ys → dropped (λ z. not (same z x)) ys ≤ 1
  dropped-le-one x [] h = omega arith
  dropped-le-one x (y ∷ ys) h = ground (arith, dropped-le-one x ys h.1, none_dropped x y ys)

  All-kept : (x : A) (ys : List A) → All (λ y. same y x ≡ false) (keep (λ y. not (same y x)) ys)
  All-kept x [] = tt
  All-kept x (y ∷ ys) = ground (arith, All-kept x ys)

  Apart-keep : (p : A → Bool) (ys : List A) → Apart same ys → Apart same (keep p ys)
  Apart-keep p [] h = tt
  Apart-keep p (y ∷ ys) h =
      ground (arith, All-keep (λ z. same z y ≡ false) p ys h.0, Apart-keep p ys h.1)

  pub latest-Apart : (hs : List A) → Apart same (latest same hs)
  unfolding latest
  latest-Apart [] = tt
  latest-Apart (x ∷ hs) = (
    All-kept x (latest same hs),
    Apart-keep (λ y. not (same y x)) (latest same hs) (latest-Apart hs),
  )

  Apart-take : (n : ℕ) (ys : List A) → Apart same ys → Apart same (take n ys)
  Apart-take zero ys h = tt
  Apart-take (suc n) [] h = tt
  Apart-take (suc n) (y ∷ ys) h = (All-take (λ z. same z y ≡ false) n ys h.0, Apart-take n ys h.1)

  -- The bounded queue is the front of the unbounded one: what the bound has cut off is never missed,
  -- since a new item takes at most one other out.
  pub pushes-latest : (n : ℕ) (hs : List A) → pushes same (suc n) hs ≡ take (suc n) (latest same hs)
  unfolding pushes push latest
  pushes-latest n [] = refl
  pushes-latest n (x ∷ hs) =
      let p = λ (y : A). not (same y x) in
      rw (pushes-latest n hs) (
        ap (◌∷◌ x) (
          take-keep-take p n (suc n) (latest same hs)
            (omega (arith, dropped-le-one x (latest same hs) (latest-Apart hs)))))

  find_first_kept :
      (k x : A) (ys : List A)
      → same x k ≡ false
      → find_first same k (keep (λ y. not (same y x)) ys) ≡ find_first same k ys
  find_first_kept k x [] h = refl
  find_first_kept k x (y ∷ ys) h =
      ground (arith, find_first_kept k x ys h, same_sym y x, same_trans x y k)

  -- The unbounded queue holds, for each key, the newest item of the history with that key.
  pub find_first-latest :
      (k : A) (hs : List A) → find_first same k (latest same hs) ≡ find_first same k hs
  unfolding latest
  find_first-latest k [] = refl
  find_first-latest k (x ∷ hs) =
      ground (arith, find_first_kept k x (latest same hs), find_first-latest k hs)

  pub pushes-Apart : (n : ℕ) (hs : List A) → Apart same (pushes same (suc n) hs)
  pushes-Apart n hs =
      rw (pushes-latest n hs) (Apart-take (suc n) (latest same hs) (latest-Apart hs))
