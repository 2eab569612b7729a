-- ===== src/Client/Formats.antt =====
-- How the panels of web-interface-js/frontend/src/components show numbers and times: `signed`,
-- `scoreOrDash` and `timeAgo` of PnLTracker.jsx, `timeAgo` and `copyPayload` of SignalGrid.jsx,
-- `severityClass` and `severityLabel` of DiagnosticsLog.jsx, `pct` of ModelAccuracyPanel.jsx.
use casuya_live.Common.{
  ℕ, ◌/◌, ◌<◌, ◌^◌, String, Bool, true, false, not, ◌&&◌, ◌||◌, ◌<>◌, ◌≡◌, refl, inl, inr, arith,
  ltb, if◌then◌else◌, Bool-cases,
}
use casuya_live.Js.{
  Float, SafeIntegers, Value, num, str, member?, truthy, or_else, number_of, string_of, is_present,
}

module _ (F : Float) where
  open F use {
    N, of_ℕ, hundredths, sub, mul, floor_div, max_of, lt, eq, is_finite, is_integer, show, to_fixed,
  }

  -- `a >= b`
  abbrev pub at_least : N → N → Bool
  at_least a b = lt b a || eq b a

  -- `signed`
  unfoldable pub signed : Value N → ℕ → String
  signed val decimals =
      let n = number_of F val in
      if not (is_finite n) then "—" else (if lt (of_ℕ 0) n then "+" else "") <> to_fixed decimals n

  -- `scoreOrDash`
  unfoldable pub score_or_dash : Value N → Value N
  score_or_dash val =
      let n = number_of F val in if is_integer n && at_least n (of_ℕ 0) then num n else str "–"

  -- `pct`
  unfoldable pub pct : Value N → String
  pct value =
      let n = number_of F value in if is_finite n then to_fixed 1 (mul n (of_ℕ 100)) <> "%" else "—"

  -- `Math.max(0, Math.floor((Date.now() - ms) / 1000))`
  abbrev pub seconds_since : ℕ → N → N
  seconds_since now_ms ms = max_of (of_ℕ 0) (floor_div (sub (of_ℕ now_ms) ms) (of_ℕ 1000))

  abbrev ago_text : N → String
  ago_text sec =
      if lt sec (of_ℕ 60)
      then show sec <> "s ago"
      else if lt sec (of_ℕ 3600)
      then show (floor_div sec (of_ℕ 60)) <> "m ago"
      else show (floor_div sec (of_ℕ 3600)) <> "h ago"

  -- `timeAgo` of PnLTracker.jsx
  unfoldable pub time_ago : Value N → ℕ → String
  time_ago ms now_ms =
      let n = number_of F ms in
      if not (is_finite n) || lt n (of_ℕ 0) || eq n (of_ℕ 0)
      then "—"
      else ago_text (seconds_since now_ms n)

  abbrev grid_text : N → String
  grid_text s =
      let m = floor_div s (of_ℕ 60) in
      if lt s (of_ℕ 60)
      then show s <> "s ago"
      else if lt m (of_ℕ 60)
      then show m <> "m ago"
      else show (floor_div m (of_ℕ 60)) <> "h ago"

  -- `timeAgo` of SignalGrid.jsx, which is given a number.
  unfoldable pub grid_time_ago : N → ℕ → String
  grid_time_ago ms now_ms =
      if not (truthy F (num ms)) then "" else grid_text (seconds_since now_ms ms)

  pub data Severity : Type 0 where
    ok warn danger : Severity

  pub record Label : Type 0 where
    pub label : String
    pub cls : Severity

  -- `severityClass`
  unfoldable pub severity_class : Value N → Severity
  severity_class drift =
      let v = number_of F drift in
      if not (is_finite v)
      then ok
      else if at_least v (hundredths 30)
      then danger
      else if at_least v (hundredths 15)
      then warn
      else ok

  -- `severityLabel`
  unfoldable pub severity_label : Value N → Label
  severity_label drift =
      let v = number_of F drift in
      if not (is_finite v)
      then record { label = "OK"; cls = ok }
      else if at_least v (hundredths 30)
      then record { label = "HIGH DRIFT"; cls = danger }
      else if at_least v (hundredths 15)
      then record { label = "MODERATE"; cls = warn }
      else record { label = "LOW"; cls = ok }

  -- `[a, b].filter(Boolean).join(" vs ")`
  abbrev pub versus : Value N → Value N → String
  versus a b =
      if truthy F a
      then (if truthy F b then string_of F a <> (" vs " <> string_of F b) else string_of F a)
      else if truthy F b
      then string_of F b
      else ""

  -- An element of an array that is joined.
  abbrev joined_text : Value N → String
  joined_text v = if is_present v then string_of F v else ""

  -- `copyPayload` of a signal that is an object; a label that is undefined reads so in its template.
  unfoldable pub copy_payload : Value N → String
  copy_payload s =
      let fixture =
        or_else F (str (versus (member? s "home_team") (member? s "away_team")))
          (member? s "match_id") in
      let label =
        or_else F (member? s "market_label")
          (str (string_of F (member? s "market") <> (" " <> string_of F (member? s "side")))) in
      joined_text fixture
      <> (" — "
          <> (joined_text label
              <> (" — "
                  <> (("@" <> to_fixed 2 (number_of F (member? s "odds")))
                      <> (" — " <> ("stake " <> to_fixed 2 (number_of F (member? s "stake"))))))))

  -- The badge of an audit is of the class that colours its border, whatever the drift.
  severity_label-severity_class :
      (drift : Value N) → (severity_label drift).cls ≡ severity_class drift
  unfolding severity_label severity_class
  severity_label-severity_class drift = ground arith

  -- Whole numbers below 2^53 are divided exactly.
  pub record TimeLaws : Type 0 where
    pub safe : SafeIntegers F
    pub floor_div_of_ℕ : (m n : ℕ) → m < 2 ^ 53 → 0 < n → floor_div (of_ℕ m) (of_ℕ n) ≡ of_ℕ (m / n)

  text-text : TimeLaws → (s : ℕ) → s < 2 ^ 53 → ago_text (of_ℕ s) ≡ grid_text (of_ℕ s)
  text-text laws s h =
      rw
        (
          laws.floor_div_of_ℕ s 60 h (omega arith),
          laws.floor_div_of_ℕ s 3600 h (omega arith),
          laws.floor_div_of_ℕ (s / 60) 60 (omega arith) (omega arith),
          laws.safe.lt_of_ℕ s 60 h (omega arith),
          laws.safe.lt_of_ℕ s 3600 h (omega arith),
          laws.safe.lt_of_ℕ (s / 60) 60 (omega arith) (omega arith),
        )
        (elim (Bool-cases (ltb s 3600)) [
          | inl e ↦ let same : ltb (s / 60) 60 ≡ true = ground arith in rw (e, same) refl
          | inr e ↦
              let same : ltb (s / 60) 60 ≡ false = ground arith in
              let hours : s / 60 / 60 ≡ s / 3600 = omega arith in rw (e, same, hours) refl
        ])

  -- Of a time that is a finite number above zero and lies a whole number of seconds below 2^53
  -- back, or ahead, the two panels show one text.
  time_ago-grid_time_ago :
      TimeLaws
      → (ms : N) (now_ms s : ℕ) → is_finite ms ≡ true
      → (lt ms (of_ℕ 0) || eq ms (of_ℕ 0)) ≡ false
      → truthy F (num ms) ≡ true
      → seconds_since now_ms ms ≡ of_ℕ s
      → s < 2 ^ 53
      → time_ago (num ms) now_ms ≡ grid_time_ago ms now_ms
  unfolding time_ago grid_time_ago number_of
  time_ago-grid_time_ago laws ms now_ms s f p t e h = rw (f, p, t, e) (text-text laws s h)
