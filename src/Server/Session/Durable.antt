-- ===== src/Server/Session/Durable.antt =====
-- The log is ahead of the engine: new_order and cancel_order of src/server/session.rs write a message before
-- they route it.
use mathlib.Core.Path.{subst}
use cixrs.Base.{
  ℕ, ◌≡◌, refl, sym, ap, ◌∙◌, inl, inr, Bool, true, false, Option, List, [], ◌∷◌, ◌++◌, Bool-cases,
  Result, success, failure,
}
use cixrs.Run.{ok, Returns, returns, Returns-inv}
use cixrs.Server.Messages.{
  EngineMessage, null_message, new_order, cancel_order, serialization_message,
  get_open_orders_message,
}
use cixrs.Server.Wal.{Codec, WalError, Wal, Disk, is_null_message, write_entry}
use cixrs.Server.Wal.File.{IsCodec, IsReadable}
use cixrs.Server.Wal.Write.{IsLog, EndsWell}
use cixrs.Server.Wal.Rotate.{write_entry-IsLog}
use cixrs.Server.Router.{broadcast_message, route_order}
use cixrs.Server.Session.{ServerContext, log_entry, log_and_route}

-- Some of the messages, in their order.
pub data Sublist : List EngineMessage → List EngineMessage → Type 0 where
  done : Sublist [] []
  keep :
      (m : EngineMessage) (xs ys : List EngineMessage) → Sublist xs ys → Sublist (m ∷ xs) (m ∷ ys)
  skip : (m : EngineMessage) (xs ys : List EngineMessage) → Sublist xs ys → Sublist xs (m ∷ ys)

Sublist-both :
    (m : EngineMessage) (xs ys : List EngineMessage)
    → Sublist xs ys
    → Sublist (xs ++ (m ∷ [])) (ys ++ (m ∷ []))
Sublist-both m _ _ done = keep m [] [] done
Sublist-both m _ _ (keep k xs ys s) = keep k _ _ (Sublist-both m xs ys s)
Sublist-both m _ _ (skip k xs ys s) = skip k _ _ (Sublist-both m xs ys s)

Sublist-right :
    (m : EngineMessage) (xs ys : List EngineMessage) → Sublist xs ys → Sublist xs (ys ++ (m ∷ []))
Sublist-right m _ _ done = skip m [] [] done
Sublist-right m _ _ (keep k xs ys s) = keep k _ _ (Sublist-right m xs ys s)
Sublist-right m _ _ (skip k xs ys s) = skip k _ _ (Sublist-right m xs ys s)

-- The messages that change the books.
abbrev pub IsOrder : EngineMessage → Type 0
IsOrder (new_order m) = Unit {0}
IsOrder (cancel_order m) = Unit {0}
IsOrder _ = ⊥

abbrev pub orders_of : List EngineMessage → List EngineMessage
orders_of [] = []
orders_of (new_order m ∷ ms) = new_order m ∷ orders_of ms
orders_of (cancel_order m ∷ ms) = cancel_order m ∷ orders_of ms
orders_of (_ ∷ ms) = orders_of ms

orders_of-snoc :
    (ms : List EngineMessage) (m : EngineMessage)
    → IsOrder m
    → orders_of (ms ++ (m ∷ [])) ≡ orders_of ms ++ (m ∷ [])
orders_of-snoc [] (new_order m) h = refl
orders_of-snoc [] (cancel_order m) h = refl
orders_of-snoc [] null_message h = absurd h
orders_of-snoc [] (serialization_message n) h = absurd h
orders_of-snoc [] (get_open_orders_message s) h = absurd h
orders_of-snoc (new_order k ∷ ms) m h = ap (◌∷◌ (new_order k)) (orders_of-snoc ms m h)
orders_of-snoc (cancel_order k ∷ ms) m h = ap (◌∷◌ (cancel_order k)) (orders_of-snoc ms m h)
orders_of-snoc (null_message ∷ ms) m h = orders_of-snoc ms m h
orders_of-snoc (serialization_message n ∷ ms) m h = orders_of-snoc ms m h
orders_of-snoc (get_open_orders_message s ∷ ms) m h = orders_of-snoc ms m h

order_not_null : (m : EngineMessage) → IsOrder m → is_null_message m ≡ false
order_not_null (new_order m) h = refl
order_not_null (cancel_order m) h = refl
order_not_null null_message h = absurd h
order_not_null (serialization_message n) h = refl
order_not_null (get_open_orders_message s) h = refl

module _ {Time : Type 0} {codec : Codec} (c : IsCodec codec) (fault : ℕ → Option WalError)
    (takes : EngineMessage → Bool) where
  -- The log is open at its end, and every order that the engine was sent is in it, in this order.
  pub record IsDurable (s : ServerContext Time) (log : List EngineMessage) : Type 0 where
    pub log_ok : IsLog c fault s.disk s.wal log
    pub sent : Sublist (orders_of s.router.sent) log

  log_entry-run :
      (s : ServerContext Time) (m : EngineMessage) (w : Wal) (r : Result WalError (Unit {0}))
      (d : Disk)
      → write_entry codec fault s.wal m s.disk ≡ ok (w, r) d
      → log_entry codec fault takes m s ≡ ok r (record s { disk = d; wal = w })
  unfolding log_entry
  log_entry-run s m w r d h = rw h refl

  -- How logging and routing a message ends.
  pub data Routed (s : ServerContext Time) (log : List EngineMessage) (m : EngineMessage)
      : Bool → ServerContext Time → Type 0 where
    both :
        {s' : ServerContext Time}
        → IsDurable s' (log ++ (m ∷ []))
        → s'.router.sent ≡ s.router.sent ++ (m ∷ [])
        → Routed s log m true s'
    only_logged :
        {s' : ServerContext Time}
        → IsDurable s' (log ++ (m ∷ []))
        → s'.router.sent ≡ s.router.sent
        → Routed s log m false s'
    neither :
        {s' : ServerContext Time}
        → IsDurable s' log
        → s'.router.sent ≡ s.router.sent
        → Routed s log m false s'

  routed :
      (s : ServerContext Time) (log : List EngineMessage) (m : EngineMessage) (w : Wal) (d : Disk)
      → IsOrder m
      → IsDurable s log
      → IsLog c fault d w (log ++ (m ∷ []))
      → write_entry codec fault s.wal m s.disk ≡ ok (w, success tt) d
      → Returns (Routed s log m) (log_and_route codec fault takes m s)
  unfolding log_and_route route_order broadcast_message
  routed s log m w d order h l run = elim (Bool-cases (takes m)) [
    | inl t ↦
        rw (log_entry-run s m w (success tt) d run, broadcast_message, t)
          (returns (
            both
              (record {
                log_ok = l;
                sent =
                    subst (λ z. Sublist z (log ++ (m ∷ [])))
                      (sym (orders_of-snoc s.router.sent m order)) (Sublist-both m _ _ h.sent);
              })
              refl))
    | inr t ↦
        rw (log_entry-run s m w (success tt) d run, broadcast_message, t)
          (returns (only_logged (record { log_ok = l; sent = Sublist-right m _ _ h.sent }) refl))
  ]

  -- Where the log is open at its end with every order that the engine was sent in it, in this order,
  -- logging and routing an order or a cancellation returns and keeps this so. The message is in the
  -- log and sent; or, where the engine's channel does not take it, only in the log; or, where the log
  -- refuses it, neither. The conditions are that the message, if it fits, leaves no bytes of the open
  -- file and of a new file or at least four (EndsWell), and that a new file has no bytes or at least
  -- four.
  pub log_and_route-IsDurable :
      (s : ServerContext Time) (log : List EngineMessage) (m : EngineMessage)
      → IsOrder m
      → (h : IsDurable s log) → EndsWell c fault h.log_ok.current.tail m
      → EndsWell c fault s.wal.file_size m
      → IsReadable s.wal.file_size
      → Returns (Routed s log m) (log_and_route codec fault takes m s)
  unfolding log_and_route
  log_and_route-IsDurable s log m order h here there readable =
      let ((w, r), d, run, k) = Returns-inv (
        write_entry-IsLog c fault s.disk s.wal log m h.log_ok (order_not_null m order) here there
          readable) in
      elim k [
        | inl (e, l) ↦ routed s log m w d order h l (run ∙ ap (λ z. ok (w, z) d) e)
        | inr (err, e, l, _, _) ↦
            rw (log_entry-run s m w (failure err) d (run ∙ ap (λ z. ok (w, z) d) e))
              (returns (neither (record { log_ok = l; sent = h.sent }) refl))
      ]
