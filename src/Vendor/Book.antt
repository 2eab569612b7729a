-- ===== src/Vendor/Book.antt =====
-- The settlement book and the trade server of mock-vendor/server.js: `publishSettlement`, `sign`,
-- `verifySig`, `fmt`, `cycleAt` and the `message` listener of `tradeServer`. The book and the order
-- counter are global there, shared by all connections: they are the state here.
pub mod Conserve
pub mod Answers
use Prim.Native.String
use casuya_live.Common.{
  ℕ, zero, suc, ◌+◌, ◌-◌, ◌*◌, ◌/◌, String, Bool, true, false, not, ◌&&◌, Option, none, some, List,
  [], ◌∷◌, ◌++◌, map, ◌==◌, ◌===◌, ◌<>◌, if◌then◌else◌, decimal,
}
use casuya_live.Js.{
  Float, Runtime, Value, num, str, object, array, member, member?, or_else, string_of, is_present,
}

-- `Buffer` and HMAC over bytes, of the platform. `none` is an exception.
pub record Buffers (F : Float) : Type 1 where
  pub Bytes : Type 0
  pub size : Bytes → ℕ
  pub from_base64 : Value F.N → Option Bytes
  pub from_base64url : Value F.N → Option Bytes
  pub from_text : String → Bytes
  pub to_text : Bytes → String
  pub to_base64 : Bytes → String
  pub to_base64url : Bytes → String
  pub hmac_sha256 : String → Bytes → Bytes
  pub timing_safe_equal : Bytes → Bytes → Bool

pub record Order (N : Type 0) : Type 0 where
  pub order_id : String
  pub market : Value N
  pub side : Value N
  pub odds : Value N
  pub stake : Value N
  pub cycle : ℕ
  pub fill_ts : ℕ

-- A `Map` in its order of insertion.
abbrev pub Entries : Type 0 → Type 0
Entries N = List (String × Order N)

module _ {N : Type 0} where
  -- `book.set(k, o)`: a key that is there keeps its place.
  unfoldable pub book_set : String → Order N → Entries N → Entries N
  book_set k o [] = (k, o) ∷ []
  book_set k o ((j, p) ∷ rest) = if j === k then (k, o) ∷ rest else (j, p) ∷ book_set k o rest

  -- `book.delete(k)`
  unfoldable pub book_delete : String → Entries N → Entries N
  book_delete k [] = []
  book_delete k ((j, p) ∷ rest) = if j === k then rest else (j, p) ∷ book_delete k rest

  -- `for (const [, o] of book) orders.push(o)`
  abbrev pub orders_of : Entries N → List (Order N)
  orders_of = map (λ e. e.1)

  abbrev pub ids_of : List (Order N) → List String
  ids_of = map (λ o. o.order_id)

  -- `for (const o of orders) book.delete(o.order_id)`
  unfoldable pub delete_all : List (Order N) → Entries N → Entries N
  unfolding book_delete
  delete_all [] book = book
  delete_all (o ∷ os) book = delete_all os (book_delete o.order_id book)

pub record Vendor (N : Type 0) : Type 0 where
  pub book : Entries N
  pub order_seq : ℕ

-- What a listener leaves behind, when it returns or when an exception leaves it.
pub record Done (N : Type 0) : Type 0 where
  pub after : Vendor N
  pub sent : List String
  pub threw : Bool

abbrev pub cycle_ms : ℕ
cycle_ms = 40000

-- `M${n}`
abbrev pub order_name : ℕ → String
order_name n = "M" <> decimal n

-- `Math.floor(boot / 1000) - 31 * 60` and `cycleAt`, which reads the clock and not its argument. A
-- clock stands past 31 minutes, and past its start.
abbrev pub boot_epoch : ℕ → ℕ
boot_epoch boot_ms = boot_ms / 1000 - 31 * 60

abbrev pub cycle_at : ℕ → ℕ → ℕ
cycle_at boot_ms now_ms = 1 + (now_ms - boot_epoch boot_ms * 1000) / cycle_ms

module _ (F : Float) (R : Runtime F) (B : Buffers F) where
  open F use {N, of_ℕ, of_text, to_fixed}
  open R use {parse, stringify}
  open B use {
    Bytes, size, from_base64, from_base64url, from_text, to_text, to_base64, to_base64url,
    hmac_sha256, timing_safe_equal,
  }

  -- A number to two decimals; any other value as it is.
  unfoldable pub fmt : Value N → Value N
  fmt (num n) = num (of_text (to_fixed 2 n))
  fmt v = v

  abbrev pub settled_order : Order N → Value N
  settled_order o = object (
      ("order_id", str o.order_id)
      ∷ ("market", o.market)
      ∷ ("side", o.side)
      ∷ ("odds", fmt o.odds)
      ∷ ("stake", fmt o.stake)
      ∷ [])

  abbrev pub settlement_frame : ℕ → Value N → List (Order N) → Value N
  settlement_frame cycle final_score orders = object (
      ("type", str "settlement")
      ∷ ("cycle", num (of_ℕ cycle))
      ∷ ("match_id", str "epl-2026-0042")
      ∷ ("final_score", final_score)
      ∷ ("orders", array (map settled_order orders))
      ∷ [])

  abbrev pub settlement : ℕ → Value N → List (Order N) → String
  settlement cycle final_score orders = stringify (settlement_frame cycle final_score orders)

  unfoldable pub publish_orders :
      Bool → Vendor N → ℕ → Value N → List (Order N) → Vendor N × Option String
  unfolding delete_all
  publish_orders redis_ready v cycle final_score [] = (v, none)
  publish_orders redis_ready v cycle final_score (o ∷ os) = (
    record v { book = delete_all (o ∷ os) v.book },
    if redis_ready then some (settlement cycle final_score (o ∷ os)) else none,
  )

  -- The state after, and what is published on the settlement channel.
  unfoldable pub publish_settlement : Bool → Vendor N → ℕ → Value N → Vendor N × Option String
  unfolding publish_orders
  publish_settlement redis_ready v cycle final_score =
      publish_orders redis_ready v cycle final_score (orders_of v.book)

  abbrev pub sign : Bytes → String → String
  sign body secret = to_base64url (hmac_sha256 secret body)

  unfoldable pub verify_sig : Value N → Bytes → String → Bool
  verify_sig sig body secret = elim (from_base64url sig) [
    | none ↦ false
    | some supplied ↦
        (size supplied == size (hmac_sha256 secret body))
        && timing_safe_equal supplied (hmac_sha256 secret body)
  ]

  abbrev pub status_reply : String → String → String
  status_reply status body = stringify (object (("status", str status) ∷ ("body", str body) ∷ []))

  abbrev pub stays : Vendor N → String → Done N
  stays v text = record { after = v; sent = text ∷ []; threw = false }

  abbrev pub throws : Vendor N → Done N
  throws v = record { after = v; sent = []; threw = true }

  -- `{ ts: body.toString("utf8") }` where the body is no JSON.
  abbrev pub parsed_auth : Bytes → Value N
  parsed_auth body = elim (parse (to_text body)) [
    | none ↦ object (("ts", str (to_text body)) ∷ [])
    | some v ↦ v
  ]

  -- `parsed.ts || parsed.key || "ok"`, in a template
  abbrev pub ack_text : Value N → Value N → String
  ack_text ts key = "ack " <> string_of F (or_else F (or_else F ts key) (str "ok"))

  abbrev pub ack_reply : String → Bytes → String
  ack_reply secret ack = stringify (
      object (
        ("status", str "ok") ∷ ("body", str (to_base64 ack)) ∷ ("sig", str (sign ack secret)) ∷ []))

  acknowledge : String → Vendor N → Value N → Done N
  acknowledge secret v parsed = elim (member parsed "ts") [
    | none ↦ throws v
    | some ts ↦ stays v (ack_reply secret (from_text (ack_text ts (member? parsed "key"))))
  ]

  unfoldable pub handle_auth : String → Vendor N → Value N → Value N → Done N
  unfolding acknowledge verify_sig
  handle_auth secret v auth sig = elim (from_base64 auth) [
    | none ↦ throws v
    | some body ↦
        if not (verify_sig sig body secret)
        then stays v (status_reply "error" "bad auth sig")
        else acknowledge secret v (parsed_auth body)
  ]

  abbrev pub fill : String → Value N → ℕ → ℕ → Order N
  fill id order boot_ms now_ms = record {
    order_id = id;
    market = member? order "market";
    side = member? order "side";
    odds = member? order "odds";
    stake = member? order "stake";
    cycle = cycle_at boot_ms now_ms;
    fill_ts = now_ms;
  }

  abbrev pub filled_reply : Order N → String
  filled_reply o = stringify (
      object (
        ("status", str "filled")
        ∷ ("order_id", str o.order_id)
        ∷ ("market", o.market)
        ∷ ("side", o.side)
        ∷ ("odds", o.odds)
        ∷ ("stake", o.stake)
        ∷ ("fill_ts", num (of_ℕ o.fill_ts))
        ∷ []))

  -- The first line that reads a field of the order logs it, and throws on null.
  unfoldable pub place : Vendor N → Value N → ℕ → ℕ → Done N
  unfolding book_set
  place v order boot_ms now_ms = elim (member order "type") [
    | none ↦ throws v
    | some _ ↦
        let id = order_name (suc v.order_seq) in
        let o = fill id order boot_ms now_ms in
        record {
          after = record { book = book_set id o v.book; order_seq = suc v.order_seq };
          sent = filled_reply o ∷ [];
          threw = false;
        }
  ]

  -- The body is parsed before its signature is looked at.
  unfoldable pub handle_order : String → Vendor N → Value N → Value N → ℕ → ℕ → Done N
  unfolding place verify_sig
  handle_order secret v body_value sig boot_ms now_ms = elim (from_base64 body_value) [
    | none ↦ throws v
    | some body ↦ elim (parse (to_text body)) [
      | none ↦ throws v
      | some order ↦
          if not (verify_sig sig body secret)
          then stays v (status_reply "rejected" "bad order sig")
          else place v order boot_ms now_ms
    ]
  ]

  unfoldable pub handle_frame : String → Vendor N → Value N → Value N → Value N → ℕ → ℕ → Done N
  unfolding handle_auth handle_order
  handle_frame secret v auth body sig boot_ms now_ms =
      if is_present auth
      then handle_auth secret v auth sig
      else if is_present body
      then handle_order secret v body sig boot_ms now_ms
      else stays v (status_reply "error" "unknown frame")

  -- The `message` listener.
  unfoldable pub trade_message : String → Vendor N → String → ℕ → ℕ → Done N
  unfolding handle_frame
  trade_message secret v raw boot_ms now_ms = elim (parse raw) [
    | none ↦ stays v (status_reply "error" "bad frame")
    | some msg ↦ elim (member msg "auth") [
      | none ↦ throws v
      | some auth ↦
          handle_frame secret v auth (member? msg "body") (member? msg "sig") boot_ms now_ms
    ]
  ]
