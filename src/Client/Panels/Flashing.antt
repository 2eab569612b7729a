-- ===== src/Client/Panels/Flashing.antt =====
-- What the flash of an odds cell compares a price with.
use casuya_live.Common.{
  true, Option, some, List, [], ◌∷◌, ◌≡◌, refl, sym, ap, ◌∙◌, ◌⊎◌, inl, inr, arith, if◌then◌else◌,
  Bool-cases,
}
use casuya_live.Js.{Float, EqLaws}
use casuya_live.Client.Panels.{
  price_up, price_down, Chip, chip_effect, chip_timer, ChipEvent, prices, elapses, chip_after,
}

module _ (F : Float) where
  open F use {N, lt, eq}

  -- The reference holds the first price, or one that is equal to it.
  abbrev Holds : N → Option N → Type 0
  Holds first prev = (p : N) × (prev ≡ some p) × ((p ≡ first) ⊎ (eq p first ≡ true))

  effect-Holds :
      EqLaws F
      → (first : N) (c : Chip F) (v : N) → Holds first c.prev
      → Holds first (chip_effect F c (some v)).prev
  unfolding chip_effect
  effect-Holds laws first c v (p, e, near) = elim (Bool-cases (eq p v)) [
    | inl same ↦ rw (chip_effect, e, same) (v, refl, inr (near_first near same))
    | inr other ↦ rw (chip_effect, e, other) (p, refl, near)
  ]
    where
      near_first : {p : N} → (p ≡ first) ⊎ (eq p first ≡ true) → eq p v ≡ true → eq v first ≡ true
      near_first {p} (inl k) same = laws.eq_sym first v (ap (λ x. eq x v) (sym k) ∙ same)
      near_first {p} (inr k) same = laws.eq_trans v p first (laws.eq_sym p v same) k

  chip_after-Holds :
      EqLaws F → (first : N) (es : List (ChipEvent F)) → Holds first (chip_after F first es).prev
  unfolding chip_after chip_timer
  chip_after-Holds laws first [] = (first, refl, inl refl)
  chip_after-Holds laws first (prices v ∷ es) =
      effect-Holds laws first (chip_after F first es) v (chip_after-Holds laws first es)
  chip_after-Holds laws first (elapses ∷ es) =
      let kept : (chip_timer F (chip_after F first es)).prev ≡ (chip_after F first es).prev =
        ground arith in
      rw kept (chip_after-Holds laws first es)

  -- In a cell that was mounted with a price, whatever prices came in between, a new price is equal
  -- to the first price (or to one equal to that), or it flashes by how it stands to that price, and
  -- not to the price before it.
  pub chip_after-first :
      EqLaws F
      → (first v : N) (es : List (ChipEvent F))
      → (p : N) × ((p ≡ first) ⊎ (eq p first ≡ true))
        × ((eq p v ≡ true)
            ⊎ ((chip_after F first (prices v ∷ es)).flash
                ≡ some (if lt p v then price_up else price_down)))
  unfolding chip_after chip_effect
  chip_after-first laws first v es =
      let (p, e, near) = chip_after-Holds laws first es in
      (
        p,
        near,
        elim (Bool-cases (eq p v)) [
          | inl same ↦ inl same
          | inr other ↦ inr (rw (chip_effect, e, other) refl)
        ],
      )
