-- ===== src/Client/Views/Accuracy/Plain.antt =====
-- The parts of ModelAccuracyPanel.jsx that show no age of a stream.
use casuya_live.Common.{
  String, Bool, true, false, ◌&&◌, ◌||◌, Option, none, some, List, [], ◌∷◌, map, ◌≡◌, refl, inl,
  inr, arith, All, if◌then◌else◌, Bool-cases, ◌===◌,
}
use casuya_live.Js.{
  Float, Value, undefined, null, bool, num, str, arr, obj, nil, cons, items, member, member?,
  or_else, truthy, is_present, is_text,
}
use casuya_live.Js.Html.{
  View, words, node, class, shown, has_class, Attributes, is_plain, IsFree, node-IsFree,
  words-Shows, shown-Shows, free_rules, if-IsFree,
}
use casuya_live.Client.Views.Fit.{metric, metrics, hint_line, weight_row, weights}
use casuya_live.Client.Views.Accuracy.{
  status_badge, outcomes_card, bankroll_card, accuracy_foot, accuracy_head,
}

abbrev pub has_style : String → Attributes → Bool
has_style c [] = false
has_style c ((name, v) ∷ rest) = (name === "style" && v === c) || has_style c rest

-- The age of a stream that is fresh.
abbrev pub green_age : String → Attributes → Bool
green_age tag attributes =
    tag === "span" && (has_class "mono" attributes && has_style "color: var(--go)" attributes)

module _ (F : Float) (date_text : Value F.N → String) where
  open F use {N, of_ℕ, lt}

  abbrev pub Free : View → Type 0
  Free = IsFree green_age

  value-IsFree : (v : Value N) → is_plain v ≡ true → Free (shown F v)
  value-IsFree v h = shown-Shows green_age F v h

  -- The weights that a fit lists can be shown.
  pub record IsWeight (e : Value N) : Type 0 where
    pub weight : Value N
    pub present : member e "weight" ≡ some weight
    pub name : is_plain (member? e "name") ≡ true

  abbrev pub listed : Value N → List (Value N)
  listed (arr es) = items es
  listed v = []

  -- What is shown as it is of a fit, and of the statistics.
  pub record IsShownFit (model : Value N) : Type 0 where
    pub rate : Value N
    pub present : member model "train_accuracy" ≡ some rate
    pub status : is_plain (member? model "status") ≡ true
    pub weighed : All IsWeight (listed (member? model "weight_names"))

  pub record IsShownStats (stats : Value N) : Type 0 where
    pub there : truthy F stats ≡ true
    pub fit : IsShownFit (member? stats "model")
    pub wins : is_plain (member? (member? stats "outcomes") "won") ≡ true
    pub losses : is_plain (member? (member? stats "outcomes") "lost") ≡ true
    pub cycle : is_plain (member? (member? stats "pnl") "updated_cycle") ≡ true

  or_else-IsFree :
      (v d : Value N) → is_plain v ≡ true → is_plain d ≡ true → Free (shown F (or_else F v d))
  unfolding or_else
  or_else-IsFree v d h k = elim (Bool-cases (truthy F v)) [
    | inl e ↦ rw (or_else, e) (value-IsFree v h)
    | inr e ↦ rw (or_else, e) (value-IsFree d k)
  ]

  weight_row-IsFree : (e : Value N) → IsWeight e → Free (weight_row F e)
  unfolding weight_row
  weight_row-IsFree e c =
      let name = value-IsFree (member? e "name") c.name in
      rw (weight_row, c.present) (search (free_rules, name) depth 14)

  weight_rows-IsFree : (es : List (Value N)) → All IsWeight es → All Free (map (weight_row F) es)
  weight_rows-IsFree [] h = tt
  weight_rows-IsFree (e ∷ es) h = (weight_row-IsFree e h.0, weight_rows-IsFree es h.1)

  pub weights-IsFree : (v : Value N) → All IsWeight (listed v) → Free (weights F v)
  weights-IsFree (arr nil) h = search free_rules
  weights-IsFree (arr (cons e es)) h =
      let rows : All Free (map (weight_row F) (e ∷ items es)) =
        weight_rows-IsFree (e ∷ items es) h in
      search (free_rules, rows) depth 10
  weights-IsFree undefined h = search free_rules
  weights-IsFree null h = search free_rules
  weights-IsFree (bool b) h = search free_rules
  weights-IsFree (num n) h = search free_rules
  weights-IsFree (str s) h = search free_rules
  weights-IsFree (obj fs) h = search free_rules

  hint-IsFree : (hint : Option String) → Free (hint_line F hint)
  hint-IsFree none = search free_rules
  hint-IsFree (some hint) = search free_rules depth 8

  metric-IsFree :
      (label value : String) (accent hint : Option String) → Free (metric F label value accent hint)
  metric-IsFree label value accent hint =
      let line = hint-IsFree hint in search (free_rules, line) depth 12

  pub metrics-IsFree : (model : Value N) → Free (metrics F model)
  metrics-IsFree model = search (metric-IsFree, node-IsFree) depth 10

  pub outcomes-IsFree :
      (v : Value N)
      → is_plain (member? v "won") ≡ true
      → is_plain (member? v "lost") ≡ true
      → Free (outcomes_card F date_text v)
  outcomes-IsFree v h k =
      let won = or_else-IsFree (member? v "won") (num (of_ℕ 0)) h refl in
      let lost = or_else-IsFree (member? v "lost") (num (of_ℕ 0)) k refl in
      search (free_rules, won, lost) depth 16

  pub bankroll-IsFree :
      (v : Value N)
      → is_plain (member? v "updated_cycle") ≡ true
      → Free (bankroll_card F date_text v)
  bankroll-IsFree v h =
      let c = member? v "updated_cycle" in
      let cycle : Free (shown F (if is_present c then c else str "—")) =
        value-IsFree (if is_present c then c else str "—") (ground arith) in
      search (free_rules, cycle) depth 16

  pub foot-IsFree : (v : Value N) → Free (accuracy_foot F date_text v)
  foot-IsFree v = search free_rules depth 12

  status-IsFree : (v : Value N) → is_plain v ≡ true → Free (status_badge F date_text v)
  status-IsFree v h =
      let other = or_else-IsFree v (str "NO FIT") h refl in
      let told : (c label : String)
          → has_class "mono" (class c) ≡ false
          → Free (node "span" (class c) (words label ∷ [])) =
        λ c label e.
          node-IsFree green_age "span" (class c) (words label ∷ []) (ground arith)
            (words-Shows green_age label, tt) in
      let unfitted : Free
          (node "span" (class "badge badge--warn") (shown F (or_else F v (str "NO FIT")) ∷ [])) =
        search (free_rules, other) depth 8 in
      if-IsFree green_age (is_text v "adopted") _ _ (told "badge badge--ok" "ADOPTED" refl) (
        if-IsFree green_age (is_text v "refused") _ _ (told "badge badge--warn" "REFUSED" refl) (
          if-IsFree green_age (is_text v "insufficient") _ _
            (told "badge badge--danger" "INSUFFICIENT" refl) unfitted))

  pub head-IsFree : (stats : Value N) → IsShownStats stats → Free (accuracy_head F date_text stats)
  head-IsFree stats c =
      let status = status-IsFree (member? (member? stats "model") "status") c.fit.status in
      rw c.there (search (free_rules, status) depth 16)
