-- ===== src/Client/Views/Accuracy/Served.antt =====
-- What ModelAccuracyPanel.jsx shows of the relay's statistics.
use casuya_live.Common.{
  ℕ, ◌+◌, String, Bool, true, false, Option, none, some, List, [], ◌∷◌, ◌≡◌, refl, ap, All, not,
  ◌&&◌, ◌===◌, Bool-cases, inl, inr, arith, subst, sym,
}
use casuya_live.Js.{
  Float, Runtime, Value, null, num, Fields, end, field, set_field, number_of, or_else, items,
  items_of, array, member, member?, truthy,
}
use casuya_live.Js.Html.{is_plain, Shows, Shows-eq}
use casuya_live.Relay.Http.Stats.{
  Replies, model_value, pnl_value, outcomes_value, stats_value, channels_info, named_weights,
  count_of, text_or_null, number_if_any, channel_info, number_or_zero, age, Hash,
}
use casuya_live.Client.Views.Matches.{field_entries, object_entries}
use casuya_live.Client.Views.Accuracy.{accuracy_panel, channels_in, is_hot}
use casuya_live.Relay.Bus.Ledger.{by_if}
use casuya_live.Client.Views.Accuracy.Plain.{green_age, IsWeight, IsShownStats}
use casuya_live.Client.Views.Accuracy.Fresh.{fresh_channels, accuracy_panel-Shows}

module _ (F : Float) (R : Runtime F) (date_text : Value F.N → String) where
  open F use {N, of_ℕ, lt, eq}

  listed_items : (vs : List (Value N)) → items (items_of vs) ≡ vs
  listed_items [] = refl
  listed_items (v ∷ vs) = ap (◌∷◌ v) (listed_items vs)

  named_weights-IsWeight :
      (names : List (Value N)) (ws : List N)
      → All (λ n. is_plain n ≡ true) names
      → All (IsWeight F date_text) (named_weights F R names ws)
  unfolding named_weights member member?
  named_weights-IsWeight [] ws h = tt
  named_weights-IsWeight (n ∷ names) [] h =
      (record { weight = null; present = refl; name = h.0 }, named_weights-IsWeight names [] h.1)
  named_weights-IsWeight (n ∷ names) (w ∷ ws) h =
      (record { weight = num w; present = refl; name = h.0 }, named_weights-IsWeight names ws h.1)

  count-plain : (o : Option String) → is_plain (count_of F R o) ≡ true
  count-plain none = refl
  count-plain (some s) = refl

  text-plain : (o : Option String) → is_plain (text_or_null F R o) ≡ true
  text-plain none = refl
  text-plain (some s) = ground arith

  number-plain : (o : Option String) → is_plain (number_if_any F R o) ≡ true
  number-plain none = refl
  number-plain (some s) = ground arith

  -- The names of the channels differ from each other.
  abbrev pub Apart : List String → Type 0
  Apart [] = Unit
  Apart (ch ∷ chs) = All (λ c. (ch === c) ≡ false) chs × Apart chs

  abbrev Absent : Fields N → String → Type 0
  Absent end k = Unit
  Absent (field j v fs) k = ((j === k) ≡ false) × Absent fs k

  -- A channel that was heard, less than a minute ago.
  abbrev is_recent : ℕ → Option String → Bool
  is_recent now_ms seen =
      let t = number_or_zero F R seen in not (eq t (of_ℕ 0)) && lt (age F R now_ms t) (of_ℕ 60)

  abbrev pub recent_channels : ℕ → Hash → List String → ℕ
  recent_channels now_ms staleness [] = 0
  recent_channels now_ms staleness (ch ∷ chs) =
      by_if (is_recent now_ms (staleness ch)) 1 + recent_channels now_ms staleness chs

  abbrev fresh_fields : Fields N → ℕ
  fresh_fields fs = fresh_channels F date_text (field_entries fs)

  channel_info-hot :
      (now_ms : ℕ) (seen : Option String)
      → is_hot F date_text (member? (channel_info F R now_ms seen) "age_seconds")
        ≡ is_recent now_ms seen
  unfolding channel_info member member? number_of
  channel_info-hot now_ms seen = elim (Bool-cases (eq (number_or_zero F R seen) (of_ℕ 0))) [
    | inl e ↦ rw (channel_info, e) refl
    | inr e ↦ rw (channel_info, e) refl
  ]

  set_field-fresh :
      (k : String) (v : Value N) (fs : Fields N)
      → Absent fs k
      → fresh_fields (set_field k v fs)
        ≡ fresh_fields fs + by_if (is_hot F date_text (member? v "age_seconds")) 1
  unfolding set_field field_entries
  set_field-fresh k v end h = omega arith
  set_field-fresh k v (field j w fs) h =
      rw (set_field, h.0) (omega (arith, set_field-fresh k v fs h.1))

  set_field-Absent :
      (k : String) (v : Value N) (fs : Fields N) (c : String)
      → (k === c) ≡ false
      → Absent fs c
      → Absent (set_field k v fs) c
  unfolding set_field
  set_field-Absent k v end c e h = (e, tt)
  set_field-Absent k v (field j w fs) c e h = elim (Bool-cases (j === k)) [
    | inl p ↦ rw (set_field, p) h
    | inr p ↦ rw (set_field, p) (h.0, set_field-Absent k v fs c e h.1)
  ]

  all-Absent :
      (k : String) (v : Value N) (fs : Fields N) (cs : List String)
      → All (λ c. (k === c) ≡ false) cs
      → All (Absent fs) cs
      → All (Absent (set_field k v fs)) cs
  all-Absent k v fs [] e h = tt
  all-Absent k v fs (c ∷ cs) e h = (set_field-Absent k v fs c e.0 h.0, all-Absent k v fs cs e.1 h.1)

  channels_info-fresh :
      (now_ms : ℕ) (staleness : Hash) (chs : List String) (done : Fields N)
      → Apart chs
      → All (Absent done) chs
      → fresh_fields (channels_info F R now_ms staleness done chs)
        ≡ fresh_fields done + recent_channels now_ms staleness chs
  unfolding channels_info
  channels_info-fresh now_ms staleness [] done a h = omega arith
  channels_info-fresh now_ms staleness (ch ∷ chs) done a h =
      let info = channel_info F R now_ms (staleness ch) in
      let rest =
        channels_info-fresh now_ms staleness chs (set_field ch info done) a.1
          (all-Absent ch info done chs a.0 h.1) in
      let one = set_field-fresh ch info done h.0 in
      let hot = ap (λ b. by_if b 1) (channel_info-hot now_ms (staleness ch)) in
      omega (arith, rest, one, hot)

  abbrev pub served : List String → Replies → ℕ → List (Value N) → List N → Value N
  served channels r now_ms names ws =
      stats_value F R channels r now_ms (array names) ws (named_weights F R names ws)

  served-IsShownStats :
      (channels : List String) (r : Replies) (now_ms : ℕ) (names : List (Value N)) (ws : List N)
      → All (λ n. is_plain n ≡ true) names
      → IsShownStats F date_text (served channels r now_ms names ws)
  unfolding stats_value model_value pnl_value outcomes_value truthy member member?
  served-IsShownStats channels r now_ms names ws h = record {
    there = refl;
    fit = record {
      rate = _;
      present = refl;
      status = text-plain (r.model "status");
      weighed =
          subst (All (IsWeight F date_text)) (sym (listed_items (named_weights F R names ws)))
            (named_weights-IsWeight names ws h);
    };
    wins = count-plain (r.outcomes "won");
    losses = count-plain (r.outcomes "lost");
    cycle = number-plain (r.pnl "updated_cycle");
  }

  served-channels :
      (channels : List String) (r : Replies) (now_ms : ℕ) (names : List (Value N)) (ws : List N)
      → channels_in F date_text (served channels r now_ms names ws)
        ≡ field_entries (channels_info F R now_ms r.staleness end channels)
  unfolding stats_value truthy or_else object_entries member member?
  served-channels channels r now_ms names ws = refl

  -- Whatever Redis holds, the statistics that the relay answers are rendered, where the names of the
  -- features are texts or numbers; as many ages are green as channels were heard less than a minute
  -- before, where the channels differ.
  pub accuracy_panel-served :
      (channels : List String) (r : Replies) (now_ms : ℕ) (names : List (Value N)) (ws : List N)
      (error : Option String)
      → Apart channels
      → All (λ n. is_plain n ≡ true) names
      → Shows green_age
          (accuracy_panel F date_text
            (record { stats = some (served channels r now_ms names ws); error = error }))
          (recent_channels now_ms r.staleness channels)
  unfolding field_entries
  accuracy_panel-served channels r now_ms names ws error a h =
      let stats = served channels r now_ms names ws in
      let count = ap (fresh_channels F date_text) (served-channels channels r now_ms names ws) in
      let fresh = channels_info-fresh now_ms r.staleness channels end a (none_there channels) in
      Shows-eq green_age (omega (arith, count, fresh)) (
        accuracy_panel-Shows F date_text stats error
          (served-IsShownStats channels r now_ms names ws h))
    where
      none_there : (cs : List String) → All (Absent end) cs
      none_there [] = tt
      none_there (c ∷ cs) = (tt, none_there cs)
