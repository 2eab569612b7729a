-- ===== src/Vendor/Book/Answers.antt =====
-- What the trade server of mock-vendor/server.js accepts and refuses, and what a settlement publishes.
use casuya_live.Common.{
  ℕ, String, Bool, true, false, none, some, [], ◌∷◌, ◌≡◌, refl, ◌≢◌, ◌⊎◌, inl, inr, arith,
  Option-cases, Bool-cases,
}
use casuya_live.Js.{Float, Runtime, Value, member, member?, is_present}
use casuya_live.Vendor.Book.Conserve.{IsKeyed, publish_orders-after}
use casuya_live.Vendor.Book.{
  Buffers, Entries, orders_of, Vendor, settlement, publish_orders, publish_settlement, verify_sig,
  handle_auth, handle_order, handle_frame, trade_message,
}

module _ (F : Float) (R : Runtime F) (B : Buffers F) (secret : String) (boot_ms : ℕ) where
  open F use {N}
  open R use {parse}
  open B use {Bytes, from_base64, to_text}

  -- The frame has a `body` whose bytes carry a valid signature.
  abbrev pub IsSigned : String → Type 0
  IsSigned raw =
      (msg : Value N) × (bytes : Bytes) × (parse raw ≡ some msg)
      × (from_base64 (member? msg "body") ≡ some bytes)
      × (verify_sig F R B (member? msg "sig") bytes secret ≡ true)

  handle_order-signed :
      (v : Vendor N) (body sig : Value N) (now_ms : ℕ)
      → ((handle_order F R B secret v body sig boot_ms now_ms).after ≡ v)
        ⊎ ((bytes : Bytes) × (from_base64 body ≡ some bytes)
            × (verify_sig F R B sig bytes secret ≡ true))
  unfolding handle_order
  handle_order-signed v body sig now_ms = elim (Option-cases (from_base64 body)) [
    | inl e ↦ rw (handle_order, e) (inl refl)
    | inr (bytes, e) ↦ elim (Bool-cases (verify_sig F R B sig bytes secret)) [
      | inl ok ↦ inr (bytes, e, ok)
      | inr bad ↦ inl (ground (arith, e, bad))
    ]
  ]

  handle_auth-after :
      (v : Vendor N) (auth sig : Value N) → (handle_auth F R B secret v auth sig).after ≡ v
  unfolding handle_auth
  handle_auth-after v auth sig = ground arith

  handle_frame-signed :
      (v : Vendor N) (auth body sig : Value N) (now_ms : ℕ)
      → ((handle_frame F R B secret v auth body sig boot_ms now_ms).after ≡ v)
        ⊎ ((bytes : Bytes) × (from_base64 body ≡ some bytes)
            × (verify_sig F R B sig bytes secret ≡ true))
  unfolding handle_frame
  handle_frame-signed v auth body sig now_ms = elim (Bool-cases (is_present auth)) [
    | inl a ↦ rw (handle_frame, a) (inl (handle_auth-after v auth sig))
    | inr a ↦ elim (Bool-cases (is_present body)) [
      | inl b ↦ rw (handle_frame, a, b) (handle_order-signed v body sig now_ms)
      | inr b ↦ rw (handle_frame, a, b) (inl refl)
    ]
  ]

  -- Only a frame with a validly signed body changes the book or the counter.
  pub trade_message-IsSigned :
      (v : Vendor N) (raw : String) (now_ms : ℕ)
      → ((trade_message F R B secret v raw boot_ms now_ms).after ≡ v) ⊎ IsSigned raw
  unfolding trade_message handle_frame
  trade_message-IsSigned v raw now_ms = elim (Option-cases (parse raw)) [
    | inl e ↦ rw (trade_message, e) (inl refl)
    | inr (msg, e) ↦ elim (Option-cases (member msg "auth")) [
      | inl k ↦ rw (trade_message, e, k) (inl refl)
      | inr (auth, k) ↦
          elim (handle_frame-signed v auth (member? msg "body") (member? msg "sig") now_ms) [
            | inl same ↦ rw (trade_message, e, k) (inl same)
            | inr (bytes, from, ok) ↦ inr (msg, bytes, e, from, ok)
          ]
    ]
  ]

  publish_orders_cases :
      (redis_ready : Bool) (v : Vendor N) (cycle : ℕ) (score : Value N) (book : Entries N)
      → v.book ≡ book
      → let answer = publish_orders F R B redis_ready v cycle score (orders_of book) in
        ((v.book ≡ []) × (answer.1 ≡ none))
        ⊎ ((v.book ≢ [])
            × (redis_ready ≡ true)
            × (answer.1 ≡ some (settlement F R B cycle score (orders_of book))))
        ⊎ ((v.book ≢ []) × (redis_ready ≡ false) × (answer.1 ≡ none))
  unfolding publish_orders
  publish_orders_cases redis_ready v cycle score [] e = inl (e, refl)
  publish_orders_cases true v cycle score (o ∷ os) e = inr (inl (λ k. cc, refl, refl))
  publish_orders_cases false v cycle score (o ∷ os) e = inr (inr (λ k. cc, refl, refl))

  -- Of a book whose orders stand under their own names: with no order in it a settlement does
  -- nothing; otherwise it publishes the frame of all the orders if Redis is ready, and nothing if
  -- it is not; and in every case the book is empty after it and the counter as it was.
  pub publish_settlement_cases :
      (redis_ready : Bool) (v : Vendor N) (cycle : ℕ) (score : Value N)
      → IsKeyed v.book
      → let answer = publish_settlement F R B redis_ready v cycle score in
        (answer.0 ≡ record { book = []; order_seq = v.order_seq })
        × (((v.book ≡ []) × (answer.1 ≡ none))
            ⊎ ((v.book ≢ [])
                × (redis_ready ≡ true)
                × (answer.1 ≡ some (settlement F R B cycle score (orders_of v.book))))
            ⊎ ((v.book ≢ []) × (redis_ready ≡ false) × (answer.1 ≡ none)))
  unfolding publish_settlement
  publish_settlement_cases redis_ready v cycle score h = (
    publish_orders-after F R B secret boot_ms redis_ready v cycle score v.book refl h,
    publish_orders_cases redis_ready v cycle score v.book refl,
  )
