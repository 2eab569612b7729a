-- ===== src/Client/Drawdown.antt =====
-- `maxDrawdown` of web-interface-js/frontend/src/components/PnLTracker.jsx. The loop goes from the oldest
-- entry, which is the last, to the newest.
use casuya_live.Common.{
  ap, false, Option, none, some, List, [], ◌∷◌, ◌≡◌, refl, sym, subst, ◌∙◌, ◌⊎◌, inl, inr, arith,
  All, All-imp, if◌then◌else◌, Bool-cases,
}
use casuya_live.Js.{Float, LtLaws, Value, num, member, truthy, number_of}

module _ (F : Float) where
  open F use {N, of_ℕ, add, sub, lt}

  pub record Walk : Type 0 where
    pub peak : N
    pub curve : N
    pub dd : N

  -- `Number(v) || 0`
  abbrev pub amount_of : Value N → N
  amount_of v = if truthy F (num (number_of F v)) then number_of F v else of_ℕ 0

  -- The larger of two numbers, as the two ifs of the loop keep it.
  abbrev pub raised : N → N → N
  raised old new = if lt old new then new else old

  -- The body of the loop.
  abbrev pub walked : Walk → N → Walk
  walked w amount =
      let curve = add w.curve amount in
      let peak = raised w.peak curve in
      record { peak = peak; curve = curve; dd = raised w.dd (sub peak curve) }

  abbrev pub level : Walk
  level = record { peak = of_ℕ 0; curve = of_ℕ 0; dd = of_ℕ 0 }

  -- The walk over amounts, newest first.
  unfoldable pub walk : List N → Walk
  walk [] = level
  walk (a ∷ older) = walked (walk older) a

  -- The amounts of the entries; `none` is the TypeError of an entry that is null.
  unfoldable pub amounts : List (Value N) → Option (List N)
  amounts [] = some []
  amounts (e ∷ es) =
      let older = amounts es in
      elim (member e "pnl") [
        | none ↦ none
        | some pnl ↦ elim older [ none ↦ none | some rest ↦ some (amount_of pnl ∷ rest) ]
      ]

  unfoldable pub max_drawdown : List (Value N) → Option N
  unfolding amounts walk
  max_drawdown entries = elim (amounts entries) [ none ↦ none | some paid ↦ some (walk paid).dd ]

  -- The equity after a list of amounts, newest first: their sum from the oldest on.
  abbrev pub equity : List N → N
  equity [] = of_ℕ 0
  equity (a ∷ older) = add (equity older) a

  -- The equity curve, newest first, which starts from zero.
  abbrev pub curves : List N → List N
  curves [] = of_ℕ 0 ∷ []
  curves (a ∷ older) = equity (a ∷ older) ∷ curves older

  -- The highest of a list, and zero if there is none above it.
  abbrev pub highest : List N → N
  highest [] = of_ℕ 0
  highest (x ∷ xs) = if lt (highest xs) x then x else highest xs

  -- How far the curve stands below its highest so far, at each entry, newest first.
  abbrev pub drops : List N → List N
  drops [] = []
  drops (a ∷ older) = sub (highest (curves (a ∷ older))) (equity (a ∷ older)) ∷ drops older

  abbrev pub Occurs : N → List N → Type 0
  Occurs x [] = ⊥
  Occurs x (y ∷ ys) = (x ≡ y) ⊎ Occurs x ys

  -- Nothing of the list is above the number.
  abbrev pub IsTop : N → List N → Type 0
  IsTop top = All (λ x. lt top x ≡ false)

  module _ (laws : LtLaws F) where
    raised-old : (old new x : N) → lt old x ≡ false → lt (raised old new) x ≡ false
    raised-old old new x h = elim (Bool-cases (lt old new)) [
      | inr e ↦ rw e h
      | inl e ↦ elim (Bool-cases (lt new x)) [
        | inr k ↦ rw e k
        | inl k ↦ absurd (ground (arith, laws.lt_trans old new x e k))
      ]
    ]

    raised-new : (old new : N) → lt (raised old new) new ≡ false
    raised-new old new = elim (Bool-cases (lt old new)) [
      | inl e ↦ rw e (laws.lt_irrefl new)
      | inr e ↦ rw e e
    ]

    raised-IsTop : (old new : N) (xs : List N) → IsTop old xs → IsTop (raised old new) (new ∷ xs)
    raised-IsTop old new xs h =
        (raised-new old new, All-imp _ _ xs h (λ x k. raised-old old new x k))

    raised-Occurs :
        (old new zero : N) (xs : List N)
        → (old ≡ zero) ⊎ Occurs old xs
        → (raised old new ≡ zero) ⊎ Occurs (raised old new) (new ∷ xs)
    raised-Occurs old new zero xs h = elim (Bool-cases (lt old new)) [
      | inl e ↦ rw e (inr (inl refl))
      | inr e ↦
          let same : old ≡ raised old new = rw e refl in
          elim h [
            | inl z ↦ inl (sym same ∙ z)
            | inr o ↦ inr (inr (subst (λ x. Occurs x xs) same o))
          ]
    ]

    walk-curve : (paid : List N) → (walk paid).curve ≡ equity paid
    unfolding walk
    walk-curve [] = refl
    walk-curve (a ∷ older) = ap (λ c. add c a) (walk-curve older)

    walk-peak : (paid : List N) → (walk paid).peak ≡ highest (curves paid)
    unfolding walk
    walk-peak [] = rw (laws.lt_irrefl (of_ℕ 0)) refl
    walk-peak (a ∷ older) = rw (walk-curve older, walk-peak older) refl

    highest-IsTop : (paid : List N) → IsTop (highest (curves paid)) (curves paid)
    highest-IsTop [] = (raised-new (of_ℕ 0) (of_ℕ 0), tt)
    highest-IsTop (a ∷ older) =
        raised-IsTop (highest (curves older)) (equity (a ∷ older)) (curves older)
          (highest-IsTop older)

    highest-Occurs : (paid : List N) → Occurs (highest (curves paid)) (curves paid)
    highest-Occurs [] = inl (rw (laws.lt_irrefl (of_ℕ 0)) refl)
    highest-Occurs (a ∷ older) =
        elim (Bool-cases (lt (highest (curves older)) (equity (a ∷ older)))) [
          | inl e ↦ inl (rw e refl)
          | inr e ↦
              let kept : highest (curves older) ≡ highest (curves (a ∷ older)) = rw e refl in
              inr (subst (λ x. Occurs x (curves older)) kept (highest-Occurs older))
        ]

    walk-drops :
        (paid : List N)
        → IsTop (walk paid).dd (drops paid)
          × (((walk paid).dd ≡ of_ℕ 0) ⊎ Occurs (walk paid).dd (drops paid))
    unfolding walk
    walk-drops [] = (tt, inl refl)
    walk-drops (a ∷ older) =
        let (bound, from) = walk-drops older in
        let w = walk older in
        let drop = sub (highest (curves (a ∷ older))) (equity (a ∷ older)) in
        let same : raised w.dd drop ≡ (walk (a ∷ older)).dd =
          rw (walk-curve older, walk-peak older) refl in
        subst (λ dd. IsTop dd (drops (a ∷ older)) × ((dd ≡ of_ℕ 0) ⊎ Occurs dd (drops (a ∷ older))))
          same
          (
            raised-IsTop w.dd drop (drops older) bound,
            raised-Occurs w.dd drop (of_ℕ 0) (drops older) from,
          )

    -- Where no entry is null, the drawdown of a list of entries is zero or the drop at some entry of
    -- the equity curve below its highest so far, and no drop at any entry is larger. The curve is the
    -- sum of the amounts up to each entry, from zero at the start, and its highest is one of its
    -- points, and below none.
    pub max_drawdown-IsTop :
        (entries : List (Value N)) (paid : List N)
        → amounts entries ≡ some paid
        → (dd : N) × (max_drawdown entries ≡ some dd)
          × ((dd ≡ of_ℕ 0) ⊎ Occurs dd (drops paid))
          × IsTop dd (drops paid)
          × Occurs (highest (curves paid)) (curves paid)
          × IsTop (highest (curves paid)) (curves paid)
    unfolding max_drawdown
    max_drawdown-IsTop entries paid e =
        let (bound, from) = walk-drops paid in
        (
          (walk paid).dd,
          rw (max_drawdown, e) refl,
          from,
          bound,
          highest-Occurs paid,
          highest-IsTop paid,
        )
