-- ===== src/Client/Panels/Favourite.antt =====
-- That the favourite of a match is the side with the lowest price.
use casuya_live.Common.{
  String, Bool, true, false, ◌&&◌, Option, none, some, List, [], ◌∷◌, ◌≡◌, refl, subst, ◌⊎◌, inl,
  inr, arith, All, Bool-cases,
}
use casuya_live.Js.{Float, LtLaws, Value, member, or_else}
use casuya_live.Client.Panels.{
  is_better, best_of, side_or_none, prices_of, markets_of, no_object, favourite_in, favourite_of,
}

module _ (F : Float) where
  open F use {N, of_ℕ, lt, is_finite}

  -- Finite and above zero.
  abbrev pub is_price : N → Bool
  is_price price = is_finite price && lt (of_ℕ 0) price

  -- No price beats the best.
  abbrev pub IsBest : Option (String × N) → N → Type 0
  IsBest none price = is_price price ≡ false
  IsBest (some (side, best)) price = (is_price price ≡ false) ⊎ (lt price best ≡ false)

  abbrev pub Offers : List (String × N) → String × N → Type 0
  Offers [] e = ⊥
  Offers (d ∷ rest) e = (d ≡ e) ⊎ Offers rest e

  -- The best is none, or a price on offer.
  abbrev pub IsOffered : List (String × N) → Option (String × N) → Type 0
  IsOffered offers none = Unit
  IsOffered offers (some e) = Offers offers e × (is_price e.1 ≡ true)

  stays-IsBest :
      LtLaws F
      → (best : Option (String × N)) (side : String) (price p : N) → is_better F price best ≡ true
      → IsBest best p
      → IsBest (some (side, price)) p
  stays-IsBest laws none side price p h k = inl k
  stays-IsBest laws (some (s, b)) side price p h (inl k) = inl k
  stays-IsBest laws (some (s, b)) side price p h (inr k) = elim (Bool-cases (lt p price)) [
    | inl e ↦ absurd (ground (arith, laws.lt_trans p price b e))
    | inr e ↦ inr e
  ]

  not_better :
      (best : Option (String × N)) (price : N) → is_better F price best ≡ false → IsBest best price
  not_better none price h = h
  not_better (some (s, b)) price h = ground arith

  best_of-keeps :
      LtLaws F
      → (best : Option (String × N)) (rest : List (String × N)) (p : N) → IsBest best p
      → IsBest (best_of F best rest) p
  unfolding best_of
  best_of-keeps laws best [] p h = h
  best_of-keeps laws best ((side, price) ∷ rest) p h = elim (Bool-cases (is_better F price best)) [
    | inl e ↦
        rw (best_of, e)
          (best_of-keeps laws (some (side, price)) rest p (stays-IsBest laws best side price p e h))
    | inr e ↦ rw (best_of, e) (best_of-keeps laws best rest p h)
  ]

  best_of-IsBest :
      LtLaws F
      → (best : Option (String × N)) (offers : List (String × N))
      → All (λ e. IsBest (best_of F best offers) e.1) offers
  unfolding best_of
  best_of-IsBest laws best [] = tt
  best_of-IsBest laws best ((side, price) ∷ rest) =
      let offers = (side, price) ∷ rest in
      elim (Bool-cases (is_better F price best)) [
        | inl e ↦
            let moved : best_of F (some (side, price)) rest ≡ best_of F best offers =
              rw (best_of, e) refl in
            subst (λ b. All (λ o. IsBest b o.1) offers) moved
              (
                best_of-keeps laws (some (side, price)) rest price (inr (laws.lt_irrefl price)),
                best_of-IsBest laws (some (side, price)) rest,
              )
        | inr e ↦
            let moved : best_of F best rest ≡ best_of F best offers = rw (best_of, e) refl in
            subst (λ b. All (λ o. IsBest b o.1) offers) moved
              (
                best_of-keeps laws best rest price (not_better best price e),
                best_of-IsBest laws best rest,
              )
      ]

  is_price_of :
      (best : Option (String × N)) (price : N)
      → is_better F price best ≡ true
      → is_price price ≡ true
  is_price_of none price h = h
  is_price_of (some (s, b)) price h = ground arith

  Offers-IsOffered :
      (d : String × N) (rest : List (String × N)) (best : Option (String × N))
      → IsOffered rest best
      → IsOffered (d ∷ rest) best
  Offers-IsOffered d rest none h = tt
  Offers-IsOffered d rest (some e) h = (inr h.0, h.1)

  best_of-IsOffered :
      (best : Option (String × N)) (offers : List (String × N))
      → (best_of F best offers ≡ best) ⊎ IsOffered offers (best_of F best offers)
  unfolding best_of
  best_of-IsOffered best [] = inl refl
  best_of-IsOffered best ((side, price) ∷ rest) = elim (Bool-cases (is_better F price best)) [
    | inl e ↦
        rw (best_of, e)
          (elim (best_of-IsOffered (some (side, price)) rest) [
            | inl same ↦ inr (rw same (inl refl, is_price_of best price e))
            | inr offered ↦ inr (Offers-IsOffered (side, price) rest _ offered)
          ])
    | inr e ↦
        rw (best_of, e)
          (elim (best_of-IsOffered best rest) [
            | inl same ↦ inl same
            | inr offered ↦ inr (Offers-IsOffered (side, price) rest _ offered)
          ])
  ]

  some-IsOffered :
      (offers : List (String × N)) (best : Option (String × N))
      → (best ≡ none) ⊎ IsOffered offers best
      → IsOffered offers best
  some-IsOffered offers best (inl e) = rw e tt
  some-IsOffered offers best (inr h) = h

  -- The favourite of a match whose first market is no null is, by the odds of that market, a side
  -- whose price is finite and above zero, and none of the three sides has a lower such price; it is
  -- the empty text where no side has one.
  pub favourite_of-IsBest :
      LtLaws F
      → (m market odds : Value N) (rest : List (Value N)) → markets_of F m ≡ market ∷ rest
      → member market "odds" ≡ some odds
      → let offers = prices_of F (or_else F odds (no_object F)) in
        (best : Option (String × N)) × (favourite_of F m ≡ some (side_or_none F best))
        × IsOffered offers best
        × All (λ e. IsBest best e.1) offers
  unfolding favourite_of favourite_in
  favourite_of-IsBest laws m market odds rest e k =
      let offers = prices_of F (or_else F odds (no_object F)) in
      (
        best_of F none offers,
        rw (favourite_of, e, favourite_in, k) refl,
        some-IsOffered offers (best_of F none offers) (best_of-IsOffered none offers),
        best_of-IsBest laws none offers,
      )
