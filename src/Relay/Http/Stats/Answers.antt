-- ===== src/Relay/Http/Stats/Answers.antt =====
-- What the statistics answer holds, and when it is an error.

use casuya_live.Common.{
  ℕ, zero, suc, String, true, Option, none, some, List, [], ◌∷◌, ◌≡◌, refl, ap, ◌∙◌, ◌⊎◌, inl, inr,
  ◌≢◌, arith, get_elem?, eq_iff, ◌===◌, Option-cases, any, Bool-cases,
}
use casuya_live.Js.{
  Float, Runtime, Value, null, num, arr, items, Items, Fields, find_field, set_field,
  find_field-set_field, object,
}
use casuya_live.Relay.Http.{Response, send_json}
use casuya_live.Relay.Http.Stats.{
  Hash, Replies, Reads, failed, replied, features_of, weight_names_of, weights_of, named_weights,
  channel_info, channels_info, stats_value, handle_stats,
}

module _ (F : Float) (R : Runtime F) where
  open F use {N}

  -- `weights[i] ?? null`
  abbrev pub weight_or_null : Option N → Value N
  weight_or_null none = null
  weight_or_null (some w) = num w

  abbrev pub named : Option (Value N) → Value N → Option (Value N)
  named none w = none
  named (some name) w = some (object (("name", name) ∷ ("weight", w) ∷ []))

  -- Entry i of `weight_names` pairs the i-th feature with the i-th weight, or with null where there
  -- is no such weight; there are as many entries as features.
  get_elem?-named_weights :
      (names : List (Value N)) (ws : List N) (i : ℕ)
      → get_elem? (named_weights F R names ws) i
        ≡ named (get_elem? names i) (weight_or_null (get_elem? ws i))
  unfolding named_weights
  get_elem?-named_weights [] ws i = refl
  get_elem?-named_weights (name ∷ names) [] zero = refl
  get_elem?-named_weights (name ∷ names) [] (suc i) = get_elem?-named_weights names [] i
  get_elem?-named_weights (name ∷ names) (w ∷ ws) zero = refl
  get_elem?-named_weights (name ∷ names) (w ∷ ws) (suc i) = get_elem?-named_weights names ws i

  channels_info_done :
      (now_ms : ℕ) (staleness : Hash) (done : Fields N) (chs : List String) (ch : String)
      → find_field ch done ≡ channel_info F R now_ms (staleness ch)
      → find_field ch (channels_info F R now_ms staleness done chs)
        ≡ channel_info F R now_ms (staleness ch)
  unfolding channels_info
  channels_info_done now_ms staleness done [] ch h = h
  channels_info_done now_ms staleness done (c ∷ chs) ch h =
      channels_info_done now_ms staleness (set_field c (channel_info F R now_ms (staleness c)) done)
        chs ch
        (ground (
          arith,
          eq_iff c ch,
          find_field-set_field ch c (channel_info F R now_ms (staleness c)) done,
        ))

  -- Every channel of the list is reported, by the time at which its last message was noted.
  pub find_field-channels_info :
      (now_ms : ℕ) (staleness : Hash) (done : Fields N) (chs : List String) (ch : String)
      → any (λ c. c === ch) chs ≡ true
      → find_field ch (channels_info F R now_ms staleness done chs)
        ≡ channel_info F R now_ms (staleness ch)
  unfolding channels_info
  find_field-channels_info now_ms staleness done [] ch h = absurd (cc)
  find_field-channels_info now_ms staleness done (c ∷ chs) ch h = elim (Bool-cases (c === ch)) [
    | inl e ↦
        channels_info_done now_ms staleness
          (set_field c (channel_info F R now_ms (staleness c)) done) chs ch
          (ground (
            arith,
            eq_iff c ch,
            find_field-set_field ch c (channel_info F R now_ms (staleness c)) done,
          ))
    | inr e ↦
        find_field-channels_info now_ms staleness
          (set_field c (channel_info F R now_ms (staleness c)) done) chs ch (ground arith)
  ]

  -- Redis replied, and the features of the model are absent or an array of JSON.
  abbrev pub Reportable : Reads → Type 0
  Reportable reads =
      (r : Replies) × (names : Items N) × (reads ≡ replied r)
      × (features_of F R (r.model "features") ≡ some (arr names))

  abbrev features_in : Reads → Option (Value N)
  features_in (failed message) = none
  features_in (replied r) = features_of F R (r.model "features")

  reported_features :
      (r : Replies) (p : Reportable (replied r))
      → features_of F R (r.model "features") ≡ some (arr p.1)
  reported_features r p = ap features_in p.2 ∙ p.3

  weight_names_of_cases :
      (v : Value N) (ws : List N)
      → ((names : Items N) × (v ≡ arr names)
          × (weight_names_of F R v ws ≡ some (named_weights F R (items names) ws)))
        ⊎ (((names : Items N) → v ≢ arr names) × (weight_names_of F R v ws ≡ none))
  unfolding weight_names_of
  weight_names_of_cases (arr names) ws = inl (names, refl, refl)
  weight_names_of_cases v ws = inr (λ names e. cc, refl)

  abbrev pub report : List String → Replies → ℕ → Items N → Response
  report channels r now_ms names =
      let weights = weights_of F R (r.model "weights") in
      send_json F R 200 (
        stats_value F R channels r now_ms (arr names) weights
          (named_weights F R (items names) weights))

  -- The answer is the report, with each feature beside its weight, exactly when Redis replied and the
  -- features are an array; otherwise it is a 500.
  pub handle_stats_cases :
      (error_of : Option String → String) (channels : List String) (reads : Reads) (now_ms : ℕ)
      → ((p : Reportable reads) × (handle_stats F R error_of channels reads now_ms
            ≡ report channels p.0 now_ms p.1))
        ⊎ ((¬ Reportable reads) × ((handle_stats F R error_of channels reads now_ms).status ≡ 500))
  unfolding handle_stats
  handle_stats_cases error_of channels (failed message) now_ms = inr (λ p. let e = p.2 in cc, refl)
  handle_stats_cases error_of channels (replied r) now_ms =
      elim (Option-cases (features_of F R (r.model "features"))) [
        | inl e ↦ inr (λ p. let same = reported_features r p in cc, rw (handle_stats, e) refl)
        | inr (v, e) ↦ elim (weight_names_of_cases v (weights_of F R (r.model "weights"))) [
          | inl (names, is_array, k) ↦
              inl
                ((r, names, refl, e ∙ ap some is_array), rw (handle_stats, e, k) (rw is_array refl))
          | inr (other, k) ↦ inr (
            λ p. let same = reported_features r p in other p.1 (cc),
            rw (handle_stats, e, k) refl,
          )
        ]
      ]
