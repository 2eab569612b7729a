-- ===== src/Client/Views/Logs.antt =====
-- What DiagnosticsLog.jsx and CommandsLog.jsx of web-interface-js/frontend/src/components render.
pub mod Audits
use casuya_live.Common.{
  ℕ, String, Bool, true, false, not, ◌&&◌, Option, none, some, List, [], ◌∷◌, ◌++◌, map, ◌<>◌, ◌==◌,
  is_empty, decimal, length, if◌then◌else◌,
}
use casuya_live.Js.{
  Float, Runtime, Value, num, str, arr, obj, Items, nil, cons, items, find_field, member, member?,
  or_else, truthy, number_of, is_present,
}
use casuya_live.Js.Html.{View, nothing, words, fragment, node, class, view_if, shown, Attributes}
use casuya_live.Client.Formats.{Severity, ok, warn, danger, severity_class, severity_label}
use casuya_live.Client.Commands.{decode_envelope}

module _ (F : Float) where
  open F use {N, of_ℕ, mul, lt, to_fixed}

  abbrev severity_name : Severity F → String
  severity_name ok = "ok"
  severity_name warn = "warn"
  severity_name danger = "danger"

  abbrev border_style : Severity F → String
  border_style ok = "border-left: 3px solid var(--go)"
  border_style warn = "border-left: 3px solid var(--warn)"
  border_style danger = "border-left: 3px solid var(--danger)"

  abbrev badge_style : Severity F → String
  badge_style ok =
      "border-color: rgba(52,211,153,0.35); color: var(--go); background: rgba(52,211,153,0.12)"
  badge_style warn =
      "border-color: rgba(251,191,36,0.35); color: var(--warn); background: rgba(251,191,36,0.12)"
  badge_style danger =
      "border-color: rgba(248,113,113,0.35); color: var(--danger); background: rgba(248,113,113,0.12)"

  abbrev recommendation : Value N → View
  recommendation r = node "li" [] (shown F r ∷ [])

  -- `rs && rs.length > 0 && <ul>…</ul>`: a false number is shown itself, and what has a length above
  -- zero and no `map` throws.
  abbrev pub recommendations : Value N → View
  recommendations (arr nil) = nothing
  recommendations (arr (cons r rs)) =
      node "ul" (class "rec-list") (map recommendation (r ∷ items rs))
  recommendations (str s) = if is_empty s then nothing else none
  recommendations (num n) = if truthy F (num n) then nothing else shown F (num n)
  recommendations (obj fs) =
      if lt (of_ℕ 0) (number_of F (find_field "length" fs)) then none else nothing
  recommendations v = nothing

  abbrev pub audit_title : Value N → View
  audit_title e =
      node "div"
        (("class", "audit audit--danger")
          ∷ ("style", border_style (severity_class F (member? e "drift_score")))
          ∷ [])
        (node "span" (class "eyebrow") (shown F (member? e "match_id") ∷ [])
          ∷ node "strong" []
              (shown F (member? e "final_home") ∷ words "–" ∷ shown F (member? e "final_away") ∷ [])
          ∷ [])

  abbrev pub audit_badge : Value N → View
  audit_badge e =
      let info = severity_label F (member? e "drift_score") in
      node "span"
        (("class", "badge badge--" <> severity_name info.cls)
          ∷ ("style", badge_style info.cls)
          ∷ [])
        (words info.label ∷ [])

  abbrev pub audit_facts : Value N → View
  audit_facts e = node "div" (class "nav-meta") (
      node "span" (class "chip")
        (words "drift " ∷ words (to_fixed 4 (number_of F (member? e "drift_score"))) ∷ [])
      ∷ node "span" (class "chip") (words "predicted " ∷ shown F (member? e "predicted_side") ∷ [])
      ∷ [])

  -- One audit; an entry that is null throws.
  unfoldable pub audit_card : Value N → View
  unfolding node severity_class severity_label
  audit_card e = elim (member e "drift_score") [
    | none ↦ none
    | some drift ↦ node "article" (class "card card--lift") (
        node "div" [] (audit_title e ∷ audit_badge e ∷ [])
        ∷ audit_facts e
        ∷ recommendations (member? e "recommendations")
        ∷ [])
  ]

  abbrev pub audits_head : ℕ → View
  audits_head n = node "div" (class "section-head") (
      node "div" (class "section-title") (
        node "span" (class "badge badge--danger") (words "ai" ∷ [])
        ∷ node "h2" [] (words "DIAGNOSTICS — AI SELF-CORRECTION" ∷ [])
        ∷ node "span" (class "section-rule") []
        ∷ [])
      ∷ node "span" (class "chip")
          (words (decimal n) ∷ words " audit" ∷ words (if n == 1 then "" else "s") ∷ [])
      ∷ [])

  abbrev pub audits_body : List View → View
  audits_body [] =
      node "div" (class "empty") (words "No LOST-bet drift audits in this session." ∷ [])
  audits_body (card ∷ cards) = node "div" (class "diag-grid") (card ∷ cards)

  -- `DiagnosticsLog`
  unfoldable pub diagnostics_log : List (Value N) → View
  unfolding node audit_card
  diagnostics_log entries =
      node "section" (class "card")
        (audits_head (length entries) ∷ audits_body (map audit_card entries) ∷ [])

  -- `(v * 100)?.toFixed?.(1) ?? "—"`: a product is always a number.
  abbrev pub percent_text : Value N → String
  percent_text v = to_fixed 1 (mul (number_of F v) (of_ℕ 100))

  -- `v?.toFixed?.(2) ?? d`
  abbrev pub fixed_or : Value N → View → View
  fixed_or (num n) d = words (to_fixed 2 n)
  fixed_or v d = d

  module _ (R : Runtime F) (atob : String → Option String) (time_text : Value N → String) where
    -- `payload?.k || cmd?.k`
    abbrev pub either_field : Value N → Value N → String → Value N
    either_field payload cmd k = or_else F (member? payload k) (member? cmd k)

    abbrev pub command_lines : Value N → Value N → List View
    command_lines payload cmd =
        node "div" [] (
          node "span" (class "eyebrow")
            (shown F (or_else F (either_field payload cmd "match_id") (str "—")) ∷ [])
          ∷ node "span" (class "chip mono") (
              words
                (if truthy F (member? payload "ts") then time_text (member? payload "ts") else "—")
              ∷ [])
          ∷ [])
        ∷ node "div" [] (
            node "span" (class "badge badge--ok") (shown F (either_field payload cmd "side") ∷ [])
            ∷ node "span" (class "eyebrow") (shown F (either_field payload cmd "market_id") ∷ [])
            ∷ node "span" (class "mono")
                (words "@" ∷ fixed_or (member? payload "odds") (shown F (member? cmd "odds")) ∷ [])
            ∷ [])
        ∷ node "div" [] (
            node "span" [] (words "stake " ∷ fixed_or (member? payload "amount") (words "—") ∷ [])
            ∷ node "span" [] (words "·" ∷ [])
            ∷ node "span" [] (
                words "true " ∷ words (percent_text (member? payload "true_prob")) ∷ words "%" ∷ [])
            ∷ node "span" [] (
                words "implied "
                ∷ words (percent_text (member? payload "implied_prob"))
                ∷ words "%"
                ∷ [])
            ∷ [])
        ∷ []

    abbrev pub command_card : Value N → View
    command_card cmd =
        node "div" (class "card card--lift") (command_lines (decode_envelope F R atob cmd) cmd)

    abbrev pub commands_title : View
    commands_title = node "div" (class "section-title") (
        node "span" (class "badge badge--warn") (words "cmd" ∷ [])
        ∷ node "h2" [] (words "EXECUTION COMMANDS" ∷ [])
        ∷ node "span" (class "section-rule") []
        ∷ [])

    -- `CommandsLog`
    unfoldable pub commands_log : List (Value N) → View
    unfolding node decode_envelope
    commands_log [] = node "section" (class "card") (
        node "div" (class "section-head") (commands_title ∷ [])
        ∷ node "div" (class "empty") (words "No command payloads observed in this session." ∷ [])
        ∷ [])
    commands_log (cmd ∷ cmds) = node "section" (class "card") (
        node "div" (class "section-head") (
          commands_title
          ∷ node "span" (class "chip")
              (words (decimal (length (cmd ∷ cmds))) ∷ words " emitted" ∷ [])
          ∷ [])
        ∷ node "div" (class "card-grid") (map command_card (cmd ∷ cmds))
        ∷ [])
