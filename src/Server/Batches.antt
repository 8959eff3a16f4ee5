-- ===== src/Server/Batches.antt =====
-- The responses of get_open_orders in src/server/engine.rs.
use cixrs.Base.{
  ℕ, zero, suc, ◌-◌, ◌≤◌, ◌<◌, ◌≡◌, refl, sym, ap, ◌∙◌, Bool, true, false, inl, inr, List, [], ◌∷◌,
  ◌++◌, length, take, replicate, Ordering, arith, Bool-cases, ltb, success,
}
use cixrs.Run.{Returns, returns, Returns-mono}
use cixrs.TradeTypes.ExecutionId.{ExecutionId}
use cixrs.TradeTypes.Orders.{Order}
use cixrs.TradeTypes.Symbol.{overwrite}
use cixrs.Server.Messages.{
  SessionMessage, new_order_ack, execution, serialization_response, open_orders_response,
  OpenOrdersSequence, OpenOrders,
}
use cixrs.Server.Messages as Messages
use cixrs.Server.Engine.{OrderEngine, send}
use cixrs.Server.OpenOrders.{drop, fill, send_batches}

module _ {A : Type 0} where
  append-nil : (xs : List A) → xs ++ [] ≡ xs
  append-nil [] = refl
  append-nil (x ∷ xs) = ap (◌∷◌ x) (append-nil xs)

  append_regroup : (xs ys zs : List A) → (xs ++ ys) ++ zs ≡ xs ++ (ys ++ zs)
  append_regroup [] ys zs = refl
  append_regroup (x ∷ xs) ys zs = ap (◌∷◌ x) (append_regroup xs ys zs)

  pub take-overwrite :
      (d : A) (n : ℕ) (xs : List A)
      → length xs ≤ n
      → take (length xs) (overwrite (replicate n d) xs) ≡ xs
  take-overwrite d n [] h = refl
  take-overwrite d zero (x ∷ xs) h = absurd (omega arith)
  take-overwrite d (suc n) (x ∷ xs) h = ap (◌∷◌ x) (take-overwrite d n xs (omega arith))

  take-drop : (n : ℕ) (xs : List A) → take n xs ++ drop n xs ≡ xs
  take-drop zero xs = refl
  take-drop (suc n) [] = refl
  take-drop (suc n) (x ∷ xs) = ap (◌∷◌ x) (take-drop n xs)

  pub length-take : (n : ℕ) (xs : List A) → length (take n xs) ≤ n
  length-take zero xs = omega arith
  length-take (suc n) [] = omega arith
  length-take (suc n) (x ∷ xs) = omega (arith, length-take n xs)

  length-drop : (n : ℕ) (xs : List A) → length (drop n xs) ≡ length xs - n
  length-drop zero xs = omega arith
  length-drop (suc n) [] = omega arith
  length-drop (suc n) (x ∷ xs) = omega (arith, length-drop n xs)

  pub take_all : (n : ℕ) (xs : List A) → length xs ≤ n → take n xs ≡ xs
  take_all zero [] h = refl
  take_all zero (x ∷ xs) h = absurd (omega arith)
  take_all (suc n) [] h = refl
  take_all (suc n) (x ∷ xs) h = ap (◌∷◌ x) (take_all n xs (omega arith))

-- The orders that a session reads from the responses.
abbrev pub opened : {Time : Type 0} → List (SessionMessage Time) → List (Order Time)
opened [] = []
opened (new_order_ack id code ∷ ms) = opened ms
opened (execution e ∷ ms) = opened ms
opened (serialization_response n ∷ ms) = opened ms
opened (open_orders_response r ∷ ms) = take r.n_order r.orders ++ opened ms

module _ {Time : Type 0} where
  opened-append : (ms ns : List (SessionMessage Time)) → opened (ms ++ ns) ≡ opened ms ++ opened ns
  opened-append [] ns = refl
  opened-append (new_order_ack id code ∷ ms) ns = opened-append ms ns
  opened-append (execution e ∷ ms) ns = opened-append ms ns
  opened-append (serialization_response n ∷ ms) ns = opened-append ms ns
  opened-append (open_orders_response r ∷ ms) ns =
      ap (λ z. take r.n_order r.orders ++ z) (opened-append ms ns)
      ∙ sym (append_regroup (take r.n_order r.orders) (opened ms) (opened ns))

module _ {Time : Type 0} (time_cmp : Time → Time → Ordering) (clock : ExecutionId → Time)
    (accepts : SessionMessage Time → Bool) where
  opened-sent :
      (ms : List (SessionMessage Time)) (r : OpenOrders Time) (batch : List (Order Time))
      → take r.n_order r.orders ≡ batch
      → opened (ms ++ (open_orders_response r ∷ [])) ≡ opened ms ++ batch
  opened-sent ms r batch h =
      opened-append ms (open_orders_response r ∷ []) ∙ ap (λ z. opened ms ++ z) (append-nil _ ∙ h)

  -- Where the responder takes every message, the loop of get_open_orders succeeds within as many
  -- turns as there are orders and one, and the responses it sends hold these orders, each once and
  -- in their order, after what was sent before.
  pub send_batches-opened :
      (d : Order Time) (seq : OpenOrdersSequence) (k : ℕ) (orders : List (Order Time))
      (engine : OrderEngine Time)
      → ((msg : SessionMessage Time) → accepts msg ≡ true)
      → length orders < k
      → Returns
          (λ r after.
            (r ≡ success tt) × (opened after.responses ≡ opened engine.responses ++ orders))
          (send_batches time_cmp clock accepts d seq k orders engine)
  unfolding send_batches send fill Messages.new
  send_batches-opened d seq zero orders engine all h = absurd (omega arith)
  send_batches-opened d seq (suc k) orders engine all h =
      let msg : SessionMessage Time =
        open_orders_response (fill time_cmp clock accepts d seq orders) in
      let held = take-overwrite d 10 (take 10 orders) (length-take 10 orders) in
      elim (Bool-cases (ltb (length orders) 10)) [
        | inl e ↦
            rw (all msg, e)
              (returns (
                refl,
                opened-sent engine.responses _ _ held
                    ∙ ap (λ z. opened engine.responses ++ z) (take_all 10 orders (below e)),
              ))
        | inr e ↦
            rw (all msg, e)
              (Returns-mono
                (send_batches-opened d seq k (drop 10 orders) _ all
                  (omega (arith, length-drop 10 orders, above e)))
                (λ r after p. (
                  p.0,
                  p.1
                      ∙ ap (λ z. z ++ drop 10 orders) (opened-sent engine.responses _ _ held)
                      ∙ append_regroup (opened engine.responses) (take 10 orders) (drop 10 orders)
                      ∙ ap (λ z. opened engine.responses ++ z) (take-drop 10 orders),
                )))
      ]
    where
      below : {n : ℕ} → ltb n 10 ≡ true → n ≤ 10
      below e = ground arith

      above : {n : ℕ} → ltb n 10 ≡ false → 10 ≤ n
      above e = ground arith
