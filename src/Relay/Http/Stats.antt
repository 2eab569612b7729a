-- ===== src/Relay/Http/Stats.antt =====
-- `handleStats` of web-interface-js/backend/server.js: the answer of GET /api/stats, from what the
-- command client of Redis replies.
pub mod Answers
use Prim.Native.Char.{Char, code}
use Prim.Native.String
use casuya_live.Common.{
  ℕ, ◌==◌, String, Bool, true, false, Option, none, some, List, [], ◌∷◌, map, keep, not, is_empty,
  split_on, if◌then◌else◌, ◌===◌,
}
use casuya_live.Js.{
  Float, Runtime, Value, null, num, str, arr, obj, field, end, items, Items, Fields, object, array,
  set_field,
}
use casuya_live.Relay.Http.{Response, send_json, send_error}

-- A hash of Redis, as `hGetAll` gives it: a key that is missing is `undefined`.
abbrev pub Hash : Type 0
Hash = String → Option String

pub record Replies : Type 0 where
  pub model : Hash
  pub heartbeat : Option String
  pub pnl : Hash
  pub outcomes : Hash
  pub staleness : Hash

-- A rejected promise carries its message.
pub data Reads : Type 0 where
  failed : String → Reads
  replied : Replies → Reads

-- `.replace(/^\[|\]$/g, "")`
strip_first : String → String
strip_first String.[] = String.[]
strip_first (String.◌∷◌ c s) = if code c == b'[' then s else String.◌∷◌ c s

strip_last : String → String
strip_last String.[] = String.[]
strip_last (String.◌∷◌ c String.[]) = if code c == b']' then "" else String.◌∷◌ c String.[]
strip_last (String.◌∷◌ c (String.◌∷◌ d s)) = String.◌∷◌ c (strip_last (String.◌∷◌ d s))

module _ (F : Float) (R : Runtime F) where
  open F use {N, of_ℕ, sub, floor_div, max_of, eq, of_text}
  open R use {parse, parse_date, iso_date}

  -- `Math.max(0, Math.floor((now - t) / 1000))`
  abbrev pub age : ℕ → N → N
  age now_ms t = max_of (of_ℕ 0) (floor_div (sub (of_ℕ now_ms) t) (of_ℕ 1000))

  -- `ageOf`; NaN is the number that differs from itself.
  unfoldable pub age_of : ℕ → Option String → Value N
  age_of now_ms none = null
  age_of now_ms (some iso) =
      if is_empty iso
      then null
      else let t = parse_date iso in if eq t t then num (age now_ms t) else null

  -- `Number(text) || 0`
  abbrev pub number_or_zero : Option String → N
  number_or_zero none = of_ℕ 0
  number_or_zero (some s) = let n = of_text s in if eq n n then n else of_ℕ 0

  unfoldable pub channel_info : ℕ → Option String → Value N
  channel_info now_ms seen =
      let last_ts = number_or_zero seen in
      if eq last_ts (of_ℕ 0)
      then object (("last_seen_ms", null) ∷ ("age_seconds", null) ∷ [])
      else object (("last_seen_ms", num last_ts) ∷ ("age_seconds", num (age now_ms last_ts)) ∷ [])

  -- The loop over `WS_CHANNELS`.
  unfoldable pub channels_info : ℕ → Hash → Fields N → List String → Fields N
  unfolding channel_info set_field
  channels_info now_ms staleness done [] = done
  channels_info now_ms staleness done (ch ∷ chs) =
      channels_info now_ms staleness (set_field ch (channel_info now_ms (staleness ch)) done) chs

  unfoldable pub weights_of : Option String → List N
  unfolding strip_first strip_last split_on
  weights_of none = []
  weights_of (some s) =
      if is_empty s
      then []
      else map of_text (keep (λ w. not (is_empty w)) (split_on b',' (strip_last (strip_first s))))

  -- `model.features ? JSON.parse(model.features) : []`
  unfoldable pub features_of : Option String → Option (Value N)
  features_of none = some (array [])
  features_of (some s) = if is_empty s then some (array []) else parse s

  abbrev weight_name : Value N → Value N → Value N
  weight_name name weight = object (("name", name) ∷ ("weight", weight) ∷ [])

  -- `.map((name, i) => ({ name, weight: weights[i] ?? null }))`
  unfoldable pub named_weights : List (Value N) → List N → List (Value N)
  named_weights [] ws = []
  named_weights (name ∷ names) [] = weight_name name null ∷ named_weights names []
  named_weights (name ∷ names) (w ∷ ws) = weight_name name (num w) ∷ named_weights names ws

  -- Only an array has `map`; `none` is the TypeError.
  unfoldable pub weight_names_of : Value N → List N → Option (List (Value N))
  weight_names_of (arr names) ws = some (named_weights (items names) ws)
  weight_names_of _ ws = none

  -- `v || null`
  abbrev pub text_or_null : Option String → Value N
  text_or_null none = null
  text_or_null (some s) = if is_empty s then null else str s

  -- `v ? Number(v) : null`
  abbrev pub number_if_any : Option String → Value N
  number_if_any none = null
  number_if_any (some s) = if is_empty s then null else num (of_text s)

  -- `v !== undefined ? Number(v) : d`
  abbrev pub number_if_defined : Option String → Value N → Value N
  number_if_defined none d = d
  number_if_defined (some s) d = num (of_text s)

  -- `Number(v || 0)`
  abbrev pub count_of : Option String → Value N
  count_of none = num (of_ℕ 0)
  count_of (some s) = num (if is_empty s then of_ℕ 0 else of_text s)

  unfoldable pub model_value : ℕ → Replies → Value N → List N → List (Value N) → Value N
  unfolding age_of
  model_value now_ms r features weights weight_names = object (
      ("status", text_or_null (r.model "status"))
      ∷ ("generated_at", text_or_null (r.model "generated_at"))
      ∷ ("heartbeat", text_or_null r.heartbeat)
      ∷ ("status_age_seconds", age_of now_ms (r.model "generated_at"))
      ∷ ("rows", number_if_any (r.model "rows"))
      ∷ ("train_rows", number_if_any (r.model "train_rows"))
      ∷ ("val_rows", number_if_any (r.model "val_rows"))
      ∷ ("features", features)
      ∷ ("bias", number_if_defined (r.model "bias") null)
      ∷ ("l2", number_if_defined (r.model "l2") null)
      ∷ ("train_accuracy", number_if_defined (r.model "train_accuracy") null)
      ∷ ("train_brier", number_if_defined (r.model "train_brier") null)
      ∷ ("val_accuracy", number_if_defined (r.model "val_accuracy") null)
      ∷ ("val_brier", number_if_defined (r.model "val_brier") null)
      ∷ ("val_auc", number_if_defined (r.model "val_auc") null)
      ∷ ("baseline_logloss", number_if_defined (r.model "baseline_logloss") null)
      ∷ ("model_logloss", number_if_defined (r.model "model_logloss") null)
      ∷ ("weights", array (map num weights))
      ∷ ("weight_names", array weight_names)
      ∷ [])

  unfoldable pub pnl_value : Replies → Value N
  pnl_value r = object (
      ("net", number_if_defined (r.pnl "net") (num (of_ℕ 0)))
      ∷ ("won", count_of (r.pnl "won"))
      ∷ ("lost", count_of (r.pnl "lost"))
      ∷ ("voids", count_of (r.pnl "voids"))
      ∷ ("updated_cycle", number_if_any (r.pnl "updated_cycle"))
      ∷ [])

  unfoldable pub outcomes_value : Replies → Value N
  outcomes_value r = object (
      ("net", number_if_defined (r.outcomes "net") (num (of_ℕ 0)))
      ∷ ("won", count_of (r.outcomes "won"))
      ∷ ("lost", count_of (r.outcomes "lost"))
      ∷ [])

  unfoldable pub stats_value :
      List String → Replies → ℕ → Value N → List N → List (Value N) → Value N
  unfolding model_value pnl_value outcomes_value channels_info
  stats_value channels r now_ms features weights weight_names = object (
      ("service", str "casuya-live-web-relay")
      ∷ ("generated_at", str (iso_date (of_ℕ now_ms)))
      ∷ ("model", model_value now_ms r features weights weight_names)
      ∷ ("pnl", pnl_value r)
      ∷ ("outcomes", outcomes_value r)
      ∷ ("channels", obj (channels_info now_ms r.staleness end channels))
      ∷ [])

  -- `error_of` is the message of the exception that a `features` text raises.
  unfoldable pub handle_stats : (Option String → String) → List String → Reads → ℕ → Response
  unfolding stats_value features_of weight_names_of weights_of
  handle_stats error_of channels (failed message) now_ms = send_error F R 500 message
  handle_stats error_of channels (replied r) now_ms =
      let weights = weights_of (r.model "weights") in
      let error = send_error F R 500 (error_of (r.model "features")) in
      elim (features_of (r.model "features")) [
        | none ↦ error
        | some features ↦ elim (weight_names_of features weights) [
          | none ↦ error
          | some names ↦ send_json F R 200 (stats_value channels r now_ms features weights names)
        ]
      ]
