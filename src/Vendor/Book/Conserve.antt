-- ===== src/Vendor/Book/Conserve.antt =====
-- Every order of mock-vendor/server.js is settled or in the book, and settled at most once, whatever
-- the order of messages and settlements, and no two orders have one name.

use text.Mathlib.TextLemmas.{append_cancel_left}
use casuya_live.Common.{
  ℕ, zero, suc, ◌<◌, String, Bool, List, [], ◌∷◌, ◌++◌, map, ◌≡◌, refl, sym, ap, subst, ◌∙◌, ◌≢◌,
  ◌⊎◌, inl, inr, arith, eq_iff, All, All-append, append_assoc, append-nil, Option-cases, Bool-cases,
  decimal_injective, ===-false_of_ne,
}
use casuya_live.Js.{Float, Runtime, Value, member, member?, is_present}
use casuya_live.Vendor.Book.{
  Buffers, Order, Entries, book_set, book_delete, orders_of, ids_of, delete_all, Vendor, order_name,
  cycle_at, publish_orders, publish_settlement, verify_sig, handle_auth, fill, place, handle_order,
  handle_frame, trade_message,
}

pub order_name_injective : (m n : ℕ) → order_name m ≡ order_name n → m ≡ n
order_name_injective m n h = decimal_injective m n (append_cancel_left "M" _ _ h)

-- The names of the first n orders, oldest first.
unfoldable pub issued : ℕ → List String
issued zero = []
issued (suc n) = issued n ++ order_name (suc n) ∷ []

issued-below : (n k : ℕ) → n < k → All (λ s. s ≢ order_name k) (issued n)
unfolding issued
issued-below zero k h = tt
issued-below (suc n) k h =
    All-append _ (issued n) _ (issued-below n k (omega arith))
      ((λ e. absurd (omega (arith, order_name_injective (suc n) k e))), tt)

-- No text of the list occurs in it again.
abbrev pub AreDistinct : List String → Type 0
AreDistinct [] = Unit
AreDistinct (s ∷ ss) = All (λ t. t ≢ s) ss × AreDistinct ss

AreDistinct-concat :
    (ss : List String) (t : String)
    → AreDistinct ss
    → All (λ s. s ≢ t) ss
    → AreDistinct (ss ++ t ∷ [])
AreDistinct-concat [] t d h = (tt, tt)
AreDistinct-concat (s ∷ ss) t d h =
    (All-append _ ss _ d.0 ((λ e. h.0 (sym e)), tt), AreDistinct-concat ss t d.1 h.1)

pub issued-AreDistinct : (n : ℕ) → AreDistinct (issued n)
unfolding issued
issued-AreDistinct zero = tt
issued-AreDistinct (suc n) =
    AreDistinct-concat (issued n) _ (issued-AreDistinct n) (issued-below n (suc n) (omega arith))

All-suffix : (P : String → Type 0) (xs ys : List String) → All P (xs ++ ys) → All P ys
All-suffix P [] ys h = h
All-suffix P (x ∷ xs) ys h = All-suffix P xs ys h.1

module _ {N : Type 0} where
  abbrev pub keys_of : Entries N → List String
  keys_of = map (λ e. e.0)

  -- Each entry stands under its order's own name.
  abbrev pub IsKeyed : Entries N → Type 0
  IsKeyed = All (λ e. e.0 ≡ e.1.order_id)

  book_set_fresh :
      (k : String) (o : Order N) (book : Entries N)
      → All (λ s. s ≢ k) (keys_of book)
      → book_set k o book ≡ book ++ (k, o) ∷ []
  unfolding book_set
  book_set_fresh k o [] h = refl
  book_set_fresh k o ((j, p) ∷ rest) h =
      rw (===-false_of_ne j k h.0) (ap (◌∷◌ (j, p)) (book_set_fresh k o rest h.1))

  delete_all_keyed : (book : Entries N) → IsKeyed book → delete_all (orders_of book) book ≡ []
  unfolding delete_all book_delete
  delete_all_keyed [] h = refl
  delete_all_keyed ((j, p) ∷ rest) h =
      rw (delete_all, (eq_iff j p.order_id).1 h.0) (delete_all_keyed rest h.1)

  pub ids_of-orders_of : (book : Entries N) → IsKeyed book → ids_of (orders_of book) ≡ keys_of book
  ids_of-orders_of [] h = refl
  ids_of-orders_of ((j, p) ∷ rest) h = ground (arith, h.0, ids_of-orders_of rest h.1)

  keys_of-append : (xs ys : Entries N) → keys_of (xs ++ ys) ≡ keys_of xs ++ keys_of ys
  keys_of-append [] ys = refl
  keys_of-append (x ∷ xs) ys = ap (◌∷◌ x.0) (keys_of-append xs ys)

  -- The books are balanced: the orders settled so far and the book make up the orders issued.
  pub record IsBalanced (settled : List String) (v : Vendor N) : Type 0 where
    pub keyed : IsKeyed v.book
    pub total : settled ++ keys_of v.book ≡ issued v.order_seq

module _ (F : Float) (R : Runtime F) (B : Buffers F) (secret : String) (boot_ms : ℕ) where
  open F use {N}
  open R use {parse}
  open B use {from_base64, to_text}

  -- A listener's call leaves the state alone or places one order.
  abbrev pub Places : Vendor N → Vendor N → Type 0
  Places v w =
      (w ≡ v)
      ⊎ ((order : Value N) × (now_ms : ℕ) × (w ≡ record {
        book =
            book_set (order_name (suc v.order_seq))
              (fill F R B (order_name (suc v.order_seq)) order boot_ms now_ms) v.book;
        order_seq = suc v.order_seq;
      }))

  place-Places :
      (v : Vendor N) (order : Value N) (now_ms : ℕ)
      → Places v (place F R B v order boot_ms now_ms).after
  unfolding place
  place-Places v order now_ms = elim (Option-cases (member order "type")) [
    | inl e ↦ rw (place, e) (inl refl)
    | inr (t, e) ↦ rw (place, e) (inr (order, now_ms, refl))
  ]

  handle_order-Places :
      (v : Vendor N) (body sig : Value N) (now_ms : ℕ)
      → Places v (handle_order F R B secret v body sig boot_ms now_ms).after
  unfolding handle_order
  handle_order-Places v body sig now_ms = elim (Option-cases (from_base64 body)) [
    | inl e ↦ rw (handle_order, e) (inl refl)
    | inr (bytes, e) ↦ elim (Option-cases (parse (to_text bytes))) [
      | inl k ↦ rw (handle_order, e, k) (inl refl)
      | inr (order, k) ↦ elim (Bool-cases (verify_sig F R B sig bytes secret)) [
        | inl ok ↦ rw (handle_order, e, k, ok) (place-Places v order now_ms)
        | inr bad ↦ rw (handle_order, e, k, bad) (inl refl)
      ]
    ]
  ]

  handle_auth-after :
      (v : Vendor N) (auth sig : Value N) → (handle_auth F R B secret v auth sig).after ≡ v
  unfolding handle_auth
  handle_auth-after v auth sig = ground arith

  handle_frame-Places :
      (v : Vendor N) (auth body sig : Value N) (now_ms : ℕ)
      → Places v (handle_frame F R B secret v auth body sig boot_ms now_ms).after
  unfolding handle_frame
  handle_frame-Places v auth body sig now_ms = elim (Bool-cases (is_present auth)) [
    | inl a ↦ rw (handle_frame, a) (inl (handle_auth-after v auth sig))
    | inr a ↦ elim (Bool-cases (is_present body)) [
      | inl b ↦ rw (handle_frame, a, b) (handle_order-Places v body sig now_ms)
      | inr b ↦ rw (handle_frame, a, b) (inl refl)
    ]
  ]

  pub trade_message-Places :
      (v : Vendor N) (raw : String) (now_ms : ℕ)
      → Places v (trade_message F R B secret v raw boot_ms now_ms).after
  unfolding trade_message
  trade_message-Places v raw now_ms = elim (Option-cases (parse raw)) [
    | inl e ↦ rw (trade_message, e) (inl refl)
    | inr (msg, e) ↦ elim (Option-cases (member msg "auth")) [
      | inl k ↦ rw (trade_message, e, k) (inl refl)
      | inr (auth, k) ↦
          rw (trade_message, e, k)
            (handle_frame-Places v auth (member? msg "body") (member? msg "sig") now_ms)
    ]
  ]

  pub Places-IsBalanced :
      (settled : List String) (v w : Vendor N)
      → Places v w
      → IsBalanced settled v
      → IsBalanced settled w
  unfolding issued
  Places-IsBalanced settled v w (inl e) b = rw e b
  Places-IsBalanced settled v w (inr (order, now_ms, e)) b =
      let name = order_name (suc v.order_seq) in
      let o = fill F R B name order boot_ms now_ms in
      let below = issued-below v.order_seq (suc v.order_seq) (omega arith) in
      let fresh : All (λ s. s ≢ name) (keys_of v.book) =
        All-suffix _ settled (keys_of v.book) (subst (All (λ s. s ≢ name)) (sym b.total) below) in
      rw (e, book_set_fresh name o v.book fresh)
        (record {
          keyed = All-append _ v.book _ b.keyed (refl, tt);
          total =
              ap (◌++◌ settled) (keys_of-append v.book ((name, o) ∷ []))
              ∙ sym (append_assoc settled (keys_of v.book) (name ∷ []))
              ∙ ap (λ xs. xs ++ name ∷ []) b.total;
        })

  pub publish_orders-after :
      (redis_ready : Bool) (v : Vendor N) (cycle : ℕ) (score : Value N) (book : Entries N)
      → v.book ≡ book
      → IsKeyed book
      → (publish_orders F R B redis_ready v cycle score (orders_of book)).0
        ≡ record { book = []; order_seq = v.order_seq }
  unfolding publish_orders
  publish_orders-after redis_ready v cycle score [] e h = ground arith
  publish_orders-after redis_ready v cycle score ((k, o) ∷ rest) e h =
      let gone : delete_all (orders_of ((k, o) ∷ rest)) v.book ≡ [] =
        ap (delete_all (orders_of ((k, o) ∷ rest))) e ∙ delete_all_keyed ((k, o) ∷ rest) h in
      λ i. record { book = gone i; order_seq = v.order_seq }

  pub publish_settlement-IsBalanced :
      (settled : List String) (redis_ready : Bool) (v : Vendor N) (cycle : ℕ) (score : Value N)
      → IsBalanced settled v
      → IsBalanced
          (settled ++ ids_of (orders_of v.book))
          (publish_settlement F R B redis_ready v cycle score).0
  unfolding publish_settlement
  publish_settlement-IsBalanced settled redis_ready v cycle score b =
      rw
        (
          publish_orders-after redis_ready v cycle score v.book refl b.keyed,
          ids_of-orders_of v.book b.keyed,
        )
        (record { keyed = tt; total = append-nil _ ∙ b.total })

  -- A history of the simulator: trade messages and settlements, in any order.
  pub data Event : Type 0 where
    trades : String → ℕ → Event
    settles : Bool → Value N → ℕ → Event

  -- The names of the orders in the settlements so far, and the state.
  abbrev pub Ledger : Type 0
  Ledger = List String × Vendor N

  unfoldable pub step : Ledger → Event → Ledger
  unfolding trade_message publish_settlement
  step (settled, v) (trades raw now_ms) =
      (settled, (trade_message F R B secret v raw boot_ms now_ms).after)
  step (settled, v) (settles redis_ready score now_ms) = (
    settled ++ ids_of (orders_of v.book),
    (publish_settlement F R B redis_ready v (cycle_at boot_ms now_ms) score).0,
  )

  unfoldable pub run : Ledger → List Event → Ledger
  unfolding step
  run l [] = l
  run l (e ∷ es) = run (step l e) es

  step-IsBalanced :
      (l : Ledger) (e : Event) → IsBalanced l.0 l.1 → IsBalanced (step l e).0 (step l e).1
  unfolding step
  step-IsBalanced (settled, v) (trades raw now_ms) b =
      Places-IsBalanced settled v _ (trade_message-Places v raw now_ms) b
  step-IsBalanced (settled, v) (settles redis_ready score now_ms) b =
      publish_settlement-IsBalanced settled redis_ready v (cycle_at boot_ms now_ms) score b

  run-IsBalanced :
      (l : Ledger) (es : List Event) → IsBalanced l.0 l.1 → IsBalanced (run l es).0 (run l es).1
  unfolding run
  run-IsBalanced l [] b = b
  run-IsBalanced l (e ∷ es) b = run-IsBalanced (step l e) es (step-IsBalanced l e b)

  abbrev pub opening : Ledger
  opening = ([], record { book = []; order_seq = 0 })

  -- From the start of the simulator, after any trade messages and settlements in any order: the
  -- names of the orders that settlements have taken from the book, published or not, followed by
  -- those still in the book, are the names M1, M2, … of all the orders placed, in order; and no
  -- name occurs twice.
  run-issued :
      (es : List Event)
      → let (settled, v) = run opening es in
        (settled ++ keys_of v.book ≡ issued v.order_seq) × AreDistinct (settled ++ keys_of v.book)
  unfolding issued
  run-issued es =
      let balanced = run-IsBalanced opening es (record { keyed = tt; total = refl }) in
      (
        balanced.total,
        subst AreDistinct (sym balanced.total) (issued-AreDistinct (run opening es).1.order_seq),
      )
