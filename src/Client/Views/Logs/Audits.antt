-- ===== src/Client/Views/Logs/Audits.antt =====
-- The badges of DiagnosticsLog.jsx.
use casuya_live.Common.{
  ℕ, suc, ◌+◌, String, Bool, true, ◌&&◌, some, List, [], ◌∷◌, map, ◌≡◌, refl, inl, inr, arith,
  length, decimal, ◌==◌, All, if◌then◌else◌, Bool-cases,
}
use casuya_live.Js.{Float, Value, arr, Items, nil, cons, items, member, member?, number_of}
use casuya_live.Js.Html.{
  View, words, fragment, node, class, by_class, Attributes, is_plain, Shows, IsFree, cons-Shows,
  nil-Shows, node-Shows, Shows-eq, node-AllShow, node-IsFree, words-Shows, shown-Shows, free_rules,
}
use casuya_live.Relay.Bus.Ledger.{by_if}
use casuya_live.Client.Formats.{at_least, severity_label}
use casuya_live.Client.Views.Logs.{
  audit_card, audit_title, audit_badge, audit_facts, recommendation, recommendations, audits_head,
  audits_body, diagnostics_log,
}

abbrev pub danger_badge : String → Attributes → Bool
danger_badge = by_class "badge badge--danger"

module _ (F : Float) where
  open F use {N, hundredths, is_finite}

  abbrev Free : View → Type 0
  Free = IsFree danger_badge

  -- A drift of at least 0.3.
  abbrev is_high : Value N → Bool
  is_high drift = is_finite (number_of F drift) && at_least F (number_of F drift) (hundredths 30)

  abbrev pub high_drifts : List (Value N) → ℕ
  high_drifts [] = 0
  high_drifts (e ∷ es) = by_if (is_high (member? e "drift_score")) 1 + high_drifts es

  -- An audit that can be shown, with the recommendations that it lists.
  pub record IsAudit (e : Value N) : Type 0 where
    pub drift : Value N
    pub present : member e "drift_score" ≡ some drift
    pub match_id : is_plain (member? e "match_id") ≡ true
    pub home : is_plain (member? e "final_home") ≡ true
    pub away : is_plain (member? e "final_away") ≡ true
    pub predicted : is_plain (member? e "predicted_side") ≡ true
    pub listed : Items N
    pub found : member? e "recommendations" ≡ arr listed
    pub shown_listed : All (λ r. is_plain r ≡ true) (items listed)

  audit_badge-Shows :
      (e : Value N)
      → Shows danger_badge (audit_badge F e) (by_if (is_high (member? e "drift_score")) 1)
  unfolding severity_label
  audit_badge-Shows e =
      let v = number_of F (member? e "drift_score") in
      elim (Bool-cases (is_finite v)) [
        | inr p ↦ rw (severity_label, p) (search free_rules depth 8)
        | inl p ↦ elim (Bool-cases (at_least F v (hundredths 30))) [
          | inl q ↦
              rw (severity_label, p, q)
                (node-AllShow danger_badge "span" _ (words "HIGH DRIFT" ∷ []) (0 ∷ [])
                  (words-Shows danger_badge "HIGH DRIFT", tt) (omega arith))
          | inr q ↦ elim (Bool-cases (at_least F v (hundredths 15))) [
            | inl r ↦ rw (severity_label, p, q, r) (search free_rules depth 8)
            | inr r ↦ rw (severity_label, p, q, r) (search free_rules depth 8)
          ]
        ]
      ]

  recommendations-IsFree :
      (rs : Items N) → All (λ r. is_plain r ≡ true) (items rs) → Free (recommendations F (arr rs))
  recommendations-IsFree nil h = search free_rules
  recommendations-IsFree (cons r rs) h =
      node-IsFree danger_badge "ul" (class "rec-list") (map (recommendation F) (items (cons r rs)))
        refl (lines-IsFree (items (cons r rs)) h)
    where
      lines-IsFree :
          (rs : List (Value N))
          → All (λ r. is_plain r ≡ true) rs
          → All Free (map (recommendation F) rs)
      lines-IsFree [] h = tt
      lines-IsFree (r ∷ rs) h =
          let value = shown-Shows danger_badge F r h.0 in
          (search (free_rules, value) depth 8, lines-IsFree rs h.1)

  audit_title-IsFree : (e : Value N) → IsAudit e → Free (audit_title F e)
  audit_title-IsFree e c =
      let id = shown-Shows danger_badge F (member? e "match_id") c.match_id in
      let home = shown-Shows danger_badge F (member? e "final_home") c.home in
      let away = shown-Shows danger_badge F (member? e "final_away") c.away in
      search (free_rules, id, home, away) depth 14

  audit_facts-IsFree : (e : Value N) → IsAudit e → Free (audit_facts F e)
  audit_facts-IsFree e c =
      let side = shown-Shows danger_badge F (member? e "predicted_side") c.predicted in
      search (free_rules, side) depth 14

  audit_card-Shows :
      (e : Value N)
      → IsAudit e
      → Shows danger_badge (audit_card F e) (by_if (is_high (member? e "drift_score")) 1)
  unfolding audit_card
  audit_card-Shows e c =
      let n = by_if (is_high (member? e "drift_score")) 1 in
      let top = audit_title F e ∷ audit_badge F e ∷ [] in
      let head : Shows danger_badge (node "div" [] top) n =
        node-AllShow danger_badge "div" [] top (0 ∷ n ∷ [])
          (audit_title-IsFree e c, (audit_badge-Shows e, tt)) (omega arith) in
      let recs : Free (recommendations F (member? e "recommendations")) =
        rw c.found (recommendations-IsFree c.listed c.shown_listed) in
      rw (audit_card, c.present)
        (node-AllShow danger_badge "article" (class "card card--lift")
          (node "div" [] top
            ∷ audit_facts F e
            ∷ recommendations F (member? e "recommendations")
            ∷ [])
          (n ∷ 0 ∷ 0 ∷ []) (head, (audit_facts-IsFree e c, (recs, tt))) (omega arith))

  audit_cards-Shows :
      (es : List (Value N))
      → All IsAudit es
      → Shows danger_badge (fragment (map (audit_card F) es)) (high_drifts es)
  audit_cards-Shows [] h = nil-Shows danger_badge
  audit_cards-Shows (e ∷ es) h =
      cons-Shows danger_badge (audit_card F e) (map (audit_card F) es) (audit_card-Shows e h.0)
        (audit_cards-Shows es h.1)

  audits_body-Shows :
      (es : List (Value N))
      → All IsAudit es
      → Shows danger_badge (audits_body F (map (audit_card F) es)) (high_drifts es)
  audits_body-Shows [] h = search free_rules depth 8
  audits_body-Shows (e ∷ es) h = Shows-eq danger_badge (omega arith) (
      node-Shows danger_badge "div" (class "diag-grid") (map (audit_card F) (e ∷ es))
        (audit_cards-Shows (e ∷ es) h))

  audits_head-Shows : (n : ℕ) → Shows danger_badge (audits_head F n) 1
  audits_head-Shows n =
      let title =
        node "span" (class "badge badge--danger") (words "ai" ∷ [])
        ∷ node "h2" [] (words "DIAGNOSTICS — AI SELF-CORRECTION" ∷ [])
        ∷ node "span" (class "section-rule") []
        ∷ [] in
      let chip =
        node "span" (class "chip")
          (words (decimal n) ∷ words " audit" ∷ words (if n == 1 then "" else "s") ∷ []) in
      let mark : Shows danger_badge (node "span" (class "badge badge--danger") (words "ai" ∷ []))
          1 =
        node-AllShow danger_badge "span" _ (words "ai" ∷ []) (0 ∷ [])
          (words-Shows danger_badge "ai", tt) (omega arith) in
      let titled : Shows danger_badge (node "div" (class "section-title") title) 1 =
        node-AllShow danger_badge "div" (class "section-title") title (1 ∷ 0 ∷ 0 ∷ [])
          (mark, (search free_rules depth 8, (search free_rules depth 8, tt))) (omega arith) in
      node-AllShow danger_badge "div" (class "section-head")
        (node "div" (class "section-title") title ∷ chip ∷ []) (1 ∷ 0 ∷ [])
        (titled, (search free_rules depth 8, tt)) (omega arith)

  -- The log of audits that can be shown is rendered, with a red badge for each audit whose drift is
  -- at least 0.3 and one more in its title.
  pub diagnostics_log-Shows :
      (es : List (Value N))
      → All IsAudit es
      → Shows danger_badge (diagnostics_log F es) (suc (high_drifts es))
  unfolding diagnostics_log
  diagnostics_log-Shows es h =
      node-AllShow danger_badge "section" (class "card")
        (audits_head F (length es) ∷ audits_body F (map (audit_card F) es) ∷ [])
        (1 ∷ high_drifts es ∷ []) (audits_head-Shows (length es), (audits_body-Shows es h, tt))
        (omega arith)
