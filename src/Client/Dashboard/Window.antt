-- ===== src/Client/Dashboard/Window.antt =====
-- What the hooks show after any history of messages: bounded windows on the history.
use casuya_live.Common.{
  String, Bool, true, false, ◌&&◌, Option, none, some, List, [], ◌∷◌, ◌≡◌, refl, sym, ap, ◌∙◌, inl,
  inr, arith, take, if◌then◌else◌, Option-cases, ne_of_===-false,
}
use casuya_live.Js.{
  Float, Runtime, EqLaws, strict_eq_sym, strict_eq_trans, Value, is_text, is_text_apart, member,
  member?, member?-eq, member?_of_throws, truthy,
}
use casuya_live.Client.Recent.{push, pushes, latest, pushes-latest, take-cons-take}
use casuya_live.Client.Dashboard.{
  Pnl, Dashboard, Console, pnl_after, log_after, same_match, has_match, show_frame, receive_frame,
  receive, log_frame, log_received, receive_admin, dashboard_after, console_after,
}

module _ (F : Float) (R : Runtime F) where
  open F use {N}
  open R use {parse}

  -- The payload that a text brings to a channel, if the code takes it: the text is JSON, its `type` is
  -- the channel's name, and `accepts` holds of its `data`.
  abbrev pub payload_if : String → (Value N → Bool) → Option (Value N) → Option (Value N)
  payload_if ch accepts none = none
  payload_if ch accepts (some frame) =
      if is_text (member? frame "type") ch && accepts (member? frame "data")
      then some (member? frame "data")
      else none

  abbrev pub add_to : Option (Value N) → List (Value N) → List (Value N)
  add_to none vs = vs
  add_to (some v) vs = v ∷ vs

  -- The payloads of a history for one channel, newest first.
  unfoldable pub payloads : String → (Value N → Bool) → List String → List (Value N)
  payloads ch accepts [] = []
  payloads ch accepts (text ∷ older) =
      add_to (payload_if ch accepts (parse text)) (payloads ch accepts older)

  -- What a text does to a part of the state, by the payload that it brings to the part's channel.
  abbrev then_with {ℓ} : {A : Type ℓ} → Option (Value N) → (Value N → A → A) → A → A
  then_with none f a = a
  then_with (some v) f a = f v a

  show_frame_parts :
      (d : Dashboard N) (t p : Value N)
      → let d' = show_frame F R d t p in
        (d'.matches ≡ (
          if is_text t "matches:live" && has_match F R p
          then push (same_match F R) 40 p d.matches
          else d.matches))
        × (d'.diagnostics ≡ (
            if is_text t "diagnostics:events" && has_match F R p
            then log_after d.diagnostics p
            else d.diagnostics))
        × (d'.pnl
            ≡ (if is_text t "execution:pnl" && truthy F p then some (pnl_after d.pnl p) else d.pnl))
  unfolding show_frame
  show_frame_parts d t p =
      let live = is_text_apart t "matches:live" "diagnostics:events" in
      let live' = is_text_apart t "matches:live" "execution:pnl" in
      let diag = is_text_apart t "diagnostics:events" "execution:pnl" in
      ground (
        arith,
        λ (h : is_text t "matches:live" ≡ true). live h (ne_of_===-false _ _ refl),
        λ (h : is_text t "matches:live" ≡ true). live' h (ne_of_===-false _ _ refl),
        λ (h : is_text t "diagnostics:events" ≡ true). diag h (ne_of_===-false _ _ refl),
      )

  log_frame_parts :
      (c : Console N) (t p : Value N)
      → let c' = log_frame F R c t p in
        (c'.pnl
          ≡ (if is_text t "execution:pnl" && truthy F p then some (pnl_after c.pnl p) else c.pnl))
        × (c'.diagnostics ≡ (
            if is_text t "diagnostics:events" && has_match F R p
            then log_after c.diagnostics p
            else c.diagnostics))
        × (c'.commands ≡ (
            if is_text t "execution:commands" && truthy F p
            then log_after c.commands p
            else c.commands))
  unfolding log_frame
  log_frame_parts c t p =
      let pnl = is_text_apart t "execution:pnl" "diagnostics:events" in
      let pnl' = is_text_apart t "execution:pnl" "execution:commands" in
      let diag = is_text_apart t "diagnostics:events" "execution:commands" in
      ground (
        arith,
        λ (h : is_text t "execution:pnl" ≡ true). pnl h (ne_of_===-false _ _ refl),
        λ (h : is_text t "execution:pnl" ≡ true). pnl' h (ne_of_===-false _ _ refl),
        λ (h : is_text t "diagnostics:events" ≡ true). diag h (ne_of_===-false _ _ refl),
      )

  then_with-if :
      {A : Type 0} (b : Bool) (v : Value N) (f : Value N → A → A) (a : A)
      → then_with (if b then some v else none) f a ≡ (if b then f v a else a)
  then_with-if true v f a = refl
  then_with-if false v f a = refl

  abbrev live_payload : Option (Value N) → Option (Value N)
  live_payload = payload_if "matches:live" (has_match F R)

  abbrev diag_payload : Option (Value N) → Option (Value N)
  diag_payload = payload_if "diagnostics:events" (has_match F R)

  abbrev pnl_payload : Option (Value N) → Option (Value N)
  pnl_payload = payload_if "execution:pnl" (truthy F)

  abbrev command_payload : Option (Value N) → Option (Value N)
  command_payload = payload_if "execution:commands" (truthy F)

  abbrev pnl_with : Value N → Option (Pnl N) → Option (Pnl N)
  pnl_with v p = some (pnl_after p v)

  abbrev log_with : Value N → List (Value N) → List (Value N)
  log_with v vs = log_after vs v

  abbrev DashboardParts : Dashboard N → Dashboard N → Option (Value N) → Type 0
  DashboardParts d d' o =
      (d'.matches ≡ then_with (live_payload o) (push (same_match F R) 40) d.matches)
      × (d'.diagnostics ≡ then_with (diag_payload o) log_with d.diagnostics)
      × (d'.pnl ≡ then_with (pnl_payload o) pnl_with d.pnl)

  receive_frame_parts :
      (d : Dashboard N) (frame : Value N)
      → DashboardParts d (receive_frame F R d frame) (some frame)
  unfolding receive_frame
  receive_frame_parts d frame = elim (Option-cases (member frame "type")) [
    | inl e ↦ rw (receive_frame, e, member?_of_throws frame "type" e) (refl, refl, refl)
    | inr (t, e) ↦
        let p = member? frame "data" in
        let (live, diag, pnl) = show_frame_parts (record d { last_event = frame }) t p in
        rw (receive_frame, e, member?-eq frame "type" e)
          (
            live ∙ sym (then_with-if _ p (push (same_match F R) 40) d.matches),
            diag ∙ sym (then_with-if _ p log_with d.diagnostics),
            pnl ∙ sym (then_with-if _ p pnl_with d.pnl),
          )
  ]

  receive_parts :
      (d : Dashboard N) (text : String) → DashboardParts d (receive F R d text) (parse text)
  unfolding receive
  receive_parts d text = elim (Option-cases (parse text)) [
    | inl e ↦ rw (receive, e) (refl, refl, refl)
    | inr (frame, e) ↦ rw (receive, e) (receive_frame_parts d frame)
  ]

  abbrev ConsoleParts : Console N → Console N → Option (Value N) → Type 0
  ConsoleParts c c' o =
      (c'.pnl ≡ then_with (pnl_payload o) pnl_with c.pnl)
      × (c'.diagnostics ≡ then_with (diag_payload o) log_with c.diagnostics)
      × (c'.commands ≡ then_with (command_payload o) log_with c.commands)

  log_received_parts :
      (c : Console N) (frame : Value N) → ConsoleParts c (log_received F R c frame) (some frame)
  unfolding log_received
  log_received_parts c frame = elim (Option-cases (member frame "type")) [
    | inl e ↦ rw (log_received, e, member?_of_throws frame "type" e) (refl, refl, refl)
    | inr (t, e) ↦
        let p = member? frame "data" in
        let (pnl, diag, commands) = log_frame_parts (record c { last_event = frame }) t p in
        rw (log_received, e, member?-eq frame "type" e)
          (
            pnl ∙ sym (then_with-if _ p pnl_with c.pnl),
            diag ∙ sym (then_with-if _ p log_with c.diagnostics),
            commands ∙ sym (then_with-if _ p log_with c.commands),
          )
  ]

  receive_admin_parts :
      (c : Console N) (text : String) → ConsoleParts c (receive_admin F R c text) (parse text)
  unfolding receive_admin
  receive_admin_parts c text = elim (Option-cases (parse text)) [
    | inl e ↦ rw (receive_admin, e) (refl, refl, refl)
    | inr (frame, e) ↦ rw (receive_admin, e) (log_received_parts c frame)
  ]

  -- The profit panel after a list of payloads, newest first.
  abbrev pub pnl_of : List (Value N) → Option (Pnl N)
  pnl_of [] = none
  pnl_of (v ∷ vs) = some (record { last = v; history = take 40 (v ∷ vs) })

  pnl_with-pnl_of : (v : Value N) (vs : List (Value N)) → pnl_with v (pnl_of vs) ≡ pnl_of (v ∷ vs)
  pnl_with-pnl_of v [] = refl
  pnl_with-pnl_of v (w ∷ vs) =
      ap (λ h. some (record { last = v; history = h })) (take-cons-take 40 v (w ∷ vs))

  pnl_step :
      (o : Option (Value N)) (vs : List (Value N))
      → then_with o pnl_with (pnl_of vs) ≡ pnl_of (add_to o vs)
  pnl_step none vs = refl
  pnl_step (some v) vs = pnl_with-pnl_of v vs

  log_step :
      (o : Option (Value N)) (vs : List (Value N))
      → then_with o log_with (take 60 vs) ≡ take 60 (add_to o vs)
  log_step none vs = refl
  log_step (some v) vs = take-cons-take 60 v vs

  match_step :
      (o : Option (Value N)) (vs : List (Value N))
      → then_with o (push (same_match F R) 40) (pushes (same_match F R) 40 vs)
        ≡ pushes (same_match F R) 40 (add_to o vs)
  unfolding pushes
  match_step none vs = refl
  match_step (some v) vs = refl

  dashboard_after-pushes :
      (texts : List String)
      → let d = dashboard_after F R texts in
        (d.matches ≡ pushes (same_match F R) 40 (payloads "matches:live" (has_match F R) texts))
        × (d.diagnostics ≡ take 60 (payloads "diagnostics:events" (has_match F R) texts))
        × (d.pnl ≡ pnl_of (payloads "execution:pnl" (truthy F) texts))
  unfolding dashboard_after payloads pushes
  dashboard_after-pushes [] = (refl, refl, refl)
  dashboard_after-pushes (text ∷ older) =
      let (live, diag, pnl) = dashboard_after-pushes older in
      let (live', diag', pnl') = receive_parts (dashboard_after F R older) text in
      (
        live' ∙ ap (then_with _ (push (same_match F R) 40)) live ∙ match_step _ _,
        diag' ∙ ap (then_with _ log_with) diag ∙ log_step _ _,
        pnl' ∙ ap (then_with _ pnl_with) pnl ∙ pnl_step _ _,
      )

  -- The dashboard after any history of messages, newest first: the matches are the first 40 of the
  -- newest payload for each match identifier, the diagnostics are the newest 60 payloads, and the profit
  -- panel has the newest payload and the newest 40 of them, or is empty where there was none. A
  -- text that is not JSON, has another type or no usable data adds nothing.
  pub dashboard_after-windows :
      (laws : EqLaws F) (texts : List String)
      → let d = dashboard_after F R texts in
        (d.matches
          ≡ take 40 (latest (same_match F R) (payloads "matches:live" (has_match F R) texts)))
        × (d.diagnostics ≡ take 60 (payloads "diagnostics:events" (has_match F R) texts))
        × (d.pnl ≡ pnl_of (payloads "execution:pnl" (truthy F) texts))
  dashboard_after-windows laws texts =
      let id = λ (v : Value N). member? v "match_id" in
      let bounded =
        pushes-latest (same_match F R) (λ v w. strict_eq_sym F laws (id v) (id w))
          (λ u v w. strict_eq_trans F laws (id u) (id v) (id w)) 39 in
      let (live, diag, pnl) = dashboard_after-pushes texts in (live ∙ bounded _, diag, pnl)

  -- The operator's console after any history of messages, newest first: the diagnostics and the
  -- commands are the newest 60 payloads of their channels, and the profit panel has the newest payload
  -- and the newest 40 of them, or is empty where there was none.
  pub console_after-windows :
      (texts : List String)
      → let c = console_after F R texts in
        (c.pnl ≡ pnl_of (payloads "execution:pnl" (truthy F) texts))
        × (c.diagnostics ≡ take 60 (payloads "diagnostics:events" (has_match F R) texts))
        × (c.commands ≡ take 60 (payloads "execution:commands" (truthy F) texts))
  unfolding console_after payloads
  console_after-windows [] = (refl, refl, refl)
  console_after-windows (text ∷ older) =
      let (pnl, diag, commands) = console_after-windows older in
      let (pnl', diag', commands') = receive_admin_parts (console_after F R older) text in
      (
        pnl' ∙ ap (then_with _ pnl_with) pnl ∙ pnl_step _ _,
        diag' ∙ ap (then_with _ log_with) diag ∙ log_step _ _,
        commands' ∙ ap (then_with _ log_with) commands ∙ log_step _ _,
      )
