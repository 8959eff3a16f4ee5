-- ===== src/Server/Session/Answer.antt =====
-- A request for the open orders, from the engine's responses (src/server/engine.rs) to the session's
-- reply (src/server/events.rs).
use cixrs.Base.{
  ℕ, zero, suc, ◌≤◌, ◌<◌, ◌≡◌, refl, ap, ◌∙◌, ◌⊎◌, inl, inr, ◌==◌, ==_iff, Bool, true, false, some,
  List, [], ◌∷◌, length, take, arith, Bool-cases, ltb, Ordering,
}
use cixrs.Run.{ok, panic, Returns, returns}
use cixrs.TradeTypes.ExecutionId.{ExecutionId}
use cixrs.TradeTypes.Orders.{Order}
use cixrs.Server.Messages.{SessionMessage, OpenOrders, OpenOrdersSequence, open_orders_response}
use cixrs.Server.Messages as Messages
use cixrs.Server.OpenOrders.{fill}
use cixrs.Server.Batches.{take-overwrite, length-take, take_all}
use cixrs.Server.Table.{IsSame, find, insert, find-insert}
use cixrs.Server.Events.{
  ready, seq_eq, poll_open_orders, recv, finish, new_context, OpenOrdersContext,
}
use cixrs.Server.Session.{ServerContext}
use cixrs.Server.Session.Publisher.{handle_message, handle_orders, received}

seq_eq-IsSame : IsSame seq_eq
seq_eq-IsSame a b = elim (Bool-cases (a.user == b.user)) [
  | inl h ↦
      (let u : a.user ≡ b.user = (==_iff a.user b.user).0 h in
        rw h (
          (λ k. (let q : a.seq ≡ b.seq = (==_iff a.seq b.seq).0 k in both u q)),
          (λ e. (==_iff a.seq b.seq).1 (ap (λ (z : OpenOrdersSequence). z.seq) e)),
        ))
  | inr h ↦
      rw h
        ((λ k. absurd (cc)), (λ e. absurd (differ h (ap (λ (z : OpenOrdersSequence). z.user) e))))
]
  where
    both : a.user ≡ b.user → a.seq ≡ b.seq → a ≡ b
    both u q = cc

    differ : {x y : ℕ} → (x == y) ≡ false → x ≡ y → ⊥
    differ h e = ground arith

length-take_min : {A : Type 0} (n : ℕ) (xs : List A) → n ≤ length xs → length (take n xs) ≡ n
length-take_min zero xs h = refl
length-take_min (suc n) [] h = absurd (omega (arith, h))
length-take_min (suc n) (x ∷ xs) h = ap suc (length-take_min n xs (omega (arith, h)))

module _ {Time : Type 0} (time_cmp : Time → Time → Ordering) (clock : ExecutionId → Time)
    (accepts : SessionMessage Time → Bool) where
  recv-small :
      (d : Order Time) (seq : OpenOrdersSequence) (orders : List (Order Time))
      → length orders < 10
      → recv (fill time_cmp clock accepts d seq orders) (new_context 1)
        ≡ ok tt (record { in_flight = 0; orders = orders })
  unfolding recv finish fill new_context Messages.new
  recv-small d seq orders h =
      let all : take 10 orders ≡ orders = take_all 10 orders (omega (arith, h)) in
      let held = take-overwrite d 10 (take 10 orders) (length-take 10 orders) in
      let short : ltb (length (take 10 orders)) 10 ≡ true = test_holds (ap length all) h in
      let last : ltb (length orders) 10 ≡ true = test_holds refl h in
      rw (short, held, last, all) refl
    where
      test_holds : {m n : ℕ} → m ≡ n → n < 10 → ltb m 10 ≡ true
      test_holds e h = ground arith

  recv-full :
      (d : Order Time) (seq : OpenOrdersSequence) (orders : List (Order Time))
      → 10 ≤ length orders
      → recv (fill time_cmp clock accepts d seq orders) (new_context 1) ≡ panic
  unfolding recv fill Messages.new
  recv-full d seq orders h =
      let full : ltb (length (take 10 orders)) 10 ≡ false =
        test_fails (length-take_min 10 orders h) in
      rw full refl
    where
      test_fails : {m : ℕ} → m ≡ 10 → ltb m 10 ≡ false
      test_fails e = ground arith

  handle_message-received :
      (msg : OpenOrders Time) (c : ServerContext Time) (waiter : OpenOrdersContext Time)
      → find seq_eq msg.seq c.pending_open_orders ≡ some waiter
      → handle_message (open_orders_response msg) c ≡ received msg c (recv msg waiter)
  unfolding handle_message handle_orders
  handle_message-received msg c waiter h = rw (handle_orders, h) refl

  answered-small :
      (d : Order Time) (seq : OpenOrdersSequence) (orders : List (Order Time))
      (c : ServerContext Time)
      → find seq_eq seq c.pending_open_orders ≡ some (new_context 1)
      → length orders < 10
      → handle_message (open_orders_response (fill time_cmp clock accepts d seq orders)) c
        ≡ ok tt (record c {
          pending_open_orders =
              insert seq_eq seq (record { in_flight = 0; orders = orders }) c.pending_open_orders;
        })
  unfolding fill Messages.new
  answered-small d seq orders c waits h =
      handle_message-received (fill time_cmp clock accepts d seq orders) c (new_context 1) waits
      ∙ ap (received (fill time_cmp clock accepts d seq orders) c) (recv-small d seq orders h)

  answered-full :
      (d : Order Time) (seq : OpenOrdersSequence) (orders : List (Order Time))
      (c : ServerContext Time)
      → find seq_eq seq c.pending_open_orders ≡ some (new_context 1)
      → 10 ≤ length orders
      → handle_message (open_orders_response (fill time_cmp clock accepts d seq orders)) c ≡ panic
  unfolding fill Messages.new
  answered-full d seq orders c waits h =
      handle_message-received (fill time_cmp clock accepts d seq orders) c (new_context 1) waits
      ∙ ap (received (fill time_cmp clock accepts d seq orders) c) (recv-full d seq orders h)

  -- A session waits for the answer of the one engine. Of fewer than ten orders the engine's response
  -- makes the session's poll ready with exactly these orders in their order. Of ten and more, the
  -- engine's first response holds ten, and handling it panics.
  pub fill-answered :
      (d : Order Time) (seq : OpenOrdersSequence) (orders : List (Order Time))
      (c : ServerContext Time)
      → find seq_eq seq c.pending_open_orders ≡ some (new_context 1)
      → ((length orders < 10)
          × Returns
              (λ _ c'. poll_open_orders seq c'.pending_open_orders ≡ ready orders)
              (handle_message (open_orders_response (fill time_cmp clock accepts d seq orders)) c))
        ⊎ ((10 ≤ length orders)
            × (handle_message (open_orders_response (fill time_cmp clock accepts d seq orders)) c
                ≡ panic))
  unfolding poll_open_orders
  fill-answered d seq orders c waits = elim (Bool-cases (ltb (length orders) 10)) [
    | inl h ↦ inl (
      small h,
      rw (answered-small d seq orders c waits (small h)) (
          returns (
            rw
              (
                poll_open_orders,
                find-insert seq_eq seq_eq-IsSame seq (record { in_flight = 0; orders = orders })
                    c.pending_open_orders,
              )
              refl)),
    )
    | inr h ↦ inr (large h, answered-full d seq orders c waits (large h))
  ]
    where
      small : {n : ℕ} → ltb n 10 ≡ true → n < 10
      small h = ground arith

      large : {n : ℕ} → ltb n 10 ≡ false → 10 ≤ n
      large h = ground arith
