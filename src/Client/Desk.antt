-- ===== src/Client/Desk.antt =====
-- The page web-interface-js/frontend/src/app/signals/page.jsx: `load`, `pending` and `handlePlace`. What
-- the engine answers is an argument.
use casuya_live.Common.{
  ℕ, String, Bool, true, false, not, ◌&&◌, Option, none, some, List, [], ◌∷◌, ◌≡◌, refl, ap, ◌∙◌,
  inl, inr, arith, keep, any, is_empty, ◌===◌, if◌then◌else◌, Option-cases,
}
use casuya_live.Js.{
  Float, Runtime, Value, undefined, num, str, arr, obj, Fields, end, items, object, array, Items,
  nil, cons, find_field, set_field, find_field-set_field, member, member?, member?-eq, truthy,
  or_else, string_of, number_of, strict_eq,
}

-- The answers of the four requests of `load`, or the message of the first that fails.
pub data Answers (N : Type 0) : Type 0 where
  failed : String → Answers N
  loaded : Value N → Value N → Value N → Value N → Answers N

-- `placements` is an object by order identifiers.
pub record Desk (N : Type 0) : Type 0 where
  pub pnl : Value N
  pub ledger : Value N
  pub placements : Fields N
  pub loading : Bool
  pub error : Option String

module _ (F : Float) (R : Runtime F) where
  open F use {N, of_ℕ}

  -- `x.entries || []`; `none` is the TypeError of an x that is null.
  abbrev pub entries_of : Value N → Option (Value N)
  entries_of x = elim (member x "entries") [
    | none ↦ none
    | some es ↦ some (or_else F es (array []))
  ]

  -- `pm[e.order_id] = e` for each entry.
  unfoldable pub placed_by : Fields N → List (Value N) → Option (Fields N)
  unfolding set_field
  placed_by pm [] = some pm
  placed_by pm (e ∷ es) = elim (member e "order_id") [
    | none ↦ none
    | some id ↦ placed_by (set_field (string_of F id) e pm) es
  ]

  -- Only an array has `forEach`.
  abbrev pub placements_of : Value N → Option (Fields N)
  placements_of (arr es) = placed_by end (items es)
  placements_of _ = none

  -- `x?.length` in a condition.
  abbrev pub has_length : Value N → Bool
  has_length (arr nil) = false
  has_length (arr (cons v es)) = true
  has_length (str s) = not (is_empty s)
  has_length (obj fs) = truthy F (find_field "length" fs)
  has_length _ = false

  -- The desk after the `try`, and the list that `seedSignals` is called with. `thrown` is the message
  -- of a TypeError.
  unfoldable pub loaded_desk :
      String → Bool → Desk N → Value N → Value N → Value N → Value N → Desk N × Option (Value N)
  unfolding placed_by
  loaded_desk thrown connected d pnl active led placed =
      let d1 = record d { pnl = pnl } in
      elim (entries_of led) [
        | none ↦ (record d1 { error = some thrown }, none)
        | some ledger ↦
            let d2 = record d1 { ledger = ledger; error = none } in
            elim (entries_of placed) [
              | none ↦ (record d2 { error = some thrown }, none)
              | some entries ↦ elim (placements_of entries) [
                | none ↦ (record d2 { error = some thrown }, none)
                | some pm ↦ (
                  record d2 { placements = pm },
                  if not connected && has_length (member? active "signals")
                      then some (member? active "signals")
                      else none,
                )
              ]
            ]
      ]

  abbrev pub settled : Desk N × Option (Value N) → Desk N × Option (Value N)
  settled (d, seeds) = (record d { loading = false }, seeds)

  -- `load`, when its requests have been answered.
  unfoldable pub load : String → Bool → Bool → Desk N → Answers N → Desk N × Option (Value N)
  unfolding loaded_desk
  load thrown disposed connected d (failed message) =
      if disposed then (d, none) else settled (record d { error = some message }, none)
  load thrown disposed connected d (loaded pnl active led placed) =
      if disposed then (d, none) else settled (loaded_desk thrown connected d pnl active led placed)

  -- `signals.filter((s) => !ledger.some((e) => e.order_id === s.order_id))`
  unfoldable pub pending : List (Value N) → List (Value N) → List (Value N)
  pending ledger signals =
      keep (λ s. not (any (λ e. strict_eq F (member? e "order_id") (member? s "order_id")) ledger))
        signals

  -- `Number(v) || 0`
  abbrev number_or_zero : Value N → Value N
  number_or_zero v = or_else F (num (number_of F v)) (num (of_ℕ 0))

  abbrev placement : Value N → List (String × Value N) → Value N
  placement s more = object (
      ("order_id", member? s "order_id")
      ∷ ("match_id", member? s "match_id")
      ∷ ("market", member? s "market")
      ∷ ("side", member? s "side")
      ∷ ("odds", number_or_zero (member? s "odds"))
      ∷ ("stake", number_or_zero (member? s "stake"))
      ∷ ("book", str "helabet")
      ∷ ("status", str "placed")
      ∷ more)

  -- The body that `handlePlace` posts.
  abbrev pub placement_body : Value N → Value N
  placement_body s = placement s []

  -- `{ ...payload, placed_at: Date.now() }`
  abbrev pub placed_at : Value N → ℕ → Value N
  placed_at s now_ms = placement s (("placed_at", num (of_ℕ now_ms)) ∷ [])

  -- `handlePlace`, when the engine has answered: `none`, or the message of the failure.
  unfoldable pub handle_place : Desk N → Value N → Option String → ℕ → Desk N
  unfolding set_field
  handle_place d s none now_ms = record d {
    placements = set_field (string_of F (member? s "order_id")) (placed_at s now_ms) d.placements;
  }
  handle_place d s (some message) now_ms = record d { error = some message }

  -- The last entry whose identifier reads as the key; `undefined` without one.
  abbrev pub last_with : String → Value N → List (Value N) → Value N
  last_with k before [] = before
  last_with k before (e ∷ es) =
      last_with k (if string_of F (member? e "order_id") === k then e else before) es

  find_field-placed_by :
      (k : String) (pm done : Fields N) (es : List (Value N))
      → placed_by pm es ≡ some done
      → find_field k done ≡ last_with k (find_field k pm) es
  unfolding placed_by
  find_field-placed_by k pm done [] h = cc
  find_field-placed_by k pm done (e ∷ es) h = elim (Option-cases (member e "order_id")) [
    | inl m ↦ absurd (ground (arith, m))
    | inr (id, m) ↦
        find_field-placed_by k (set_field (string_of F id) e pm) done es (ground (arith, m))
        ∙ rw (member?-eq e "order_id" m)
            (ap (λ b. last_with k b es) (find_field-set_field k (string_of F id) e pm))
  ]

  -- Where the requests succeed, the page is there, and the ledger's answer and the placements' have
  -- entries, those of the placements an array of no nulls: the desk stops loading, shows no error,
  -- has that ledger, and has for each order the last of the placements with its identifier.
  pub load-last_with :
      (thrown : String) (connected : Bool) (d : Desk N) (pnl active led placed ledger : Value N)
      (es : Items N) (done : Fields N)
      → entries_of led ≡ some ledger
      → entries_of placed ≡ some (arr es)
      → placed_by end (items es) ≡ some done
      → let d' = (load thrown false connected d (loaded pnl active led placed)).0 in
        (d'.loading ≡ false)
        × (d'.error ≡ none)
        × (d'.ledger ≡ ledger)
        × ((k : String) → find_field k d'.placements ≡ last_with k undefined (items es))
  unfolding load loaded_desk
  load-last_with thrown connected d pnl active led placed ledger es done h k p =
      rw (loaded_desk, h, k, p)
        (refl, refl, refl, λ key. find_field-placed_by key end done (items es) p)
