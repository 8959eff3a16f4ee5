-- ===== src/Server/Session/Sync.antt =====
-- The serialization points of src/server/session.rs, events.rs and server.rs: a session's request gets a
-- ticket, the engine answers the tickets in the order in which it got them.
use mathlib.Core.Path.{subst}
use cixrs.Base.{
  ℕ, ◌+◌, ◌≤◌, ◌<◌, ◌≡◌, refl, sym, ap, ◌∙◌, ◌⊎◌, inl, inr, ◌==◌, ==_iff, Bool, true, false, Option,
  some, List, [], ◌∷◌, ◌++◌, map, arith, leb, Bool-cases, if◌then◌else◌,
}
use cixrs.Run.{Run, ok, panic, Returns, returns, Returns-mono}
use cixrs.Server.Messages.{EngineMessage, serialization_message, serialization_response}
use cixrs.Server.Table.{find, insert, remove, find-insert, find-insert_other, find-remove_other}
use cixrs.Server.Wal.{Codec, WalError, Wal, Disk}
use cixrs.Server.Router.{SingleRouter, broadcast_message}
use cixrs.Server.Events.{SerializationPoint, Poll, ready, not_ready, poll_point, new_event}
use cixrs.Server.Session.{ServerContext, SyncMap, SyncWaitRecord, new_server, serialization_point}
use cixrs.Server.Session.Publisher.{
  notify_serializations, notify_waiter, count_down, handle_executions, handle_message,
}

-- `queue` counts on from `gen` to `ticket`.
abbrev pub CountsOn : ℕ → List ℕ → ℕ → Type 0
CountsOn gen [] ticket = gen ≡ ticket
CountsOn gen (x ∷ xs) ticket = (x ≡ gen + 1) × CountsOn (gen + 1) xs ticket

abbrev one_engine : SyncWaitRecord
one_engine = record { event = new_event; pending_count = 1 }

-- Each ticket of the queue has a record that waits for one engine.
abbrev pub AllWaiting : SyncMap → List ℕ → Type 0
AllWaiting syncs [] = Unit {0}
AllWaiting syncs (x ∷ xs) = (find ◌==◌ x syncs ≡ some one_engine) × AllWaiting syncs xs

CountsOn-le : (gen : ℕ) (queue : List ℕ) (ticket : ℕ) → CountsOn gen queue ticket → gen ≤ ticket
CountsOn-le gen [] ticket h = omega (arith, h)
CountsOn-le gen (x ∷ xs) ticket h = omega (arith, CountsOn-le (gen + 1) xs ticket h.1)

CountsOn-snoc :
    (gen : ℕ) (queue : List ℕ) (ticket : ℕ)
    → CountsOn gen queue ticket
    → CountsOn gen (queue ++ ((ticket + 1) ∷ [])) (ticket + 1)
CountsOn-snoc gen [] ticket h = (omega (arith, h), omega (arith, h))
CountsOn-snoc gen (x ∷ xs) ticket h = (h.0, CountsOn-snoc (gen + 1) xs ticket h.1)

apart : (a b : ℕ) → a < b → (a == b) ≡ false
apart a b h = ground arith

apart_up : (a b : ℕ) → a < b → (b == a) ≡ false
apart_up a b h = ground arith

AllWaiting-insert :
    (gen : ℕ) (queue : List ℕ) (ticket : ℕ) (syncs : SyncMap)
    → CountsOn gen queue ticket
    → AllWaiting syncs queue
    → AllWaiting (insert ◌==◌ (ticket + 1) one_engine syncs) (queue ++ ((ticket + 1) ∷ []))
AllWaiting-insert gen [] ticket syncs h w =
    (find-insert ◌==◌ ==_iff (ticket + 1) one_engine syncs, tt)
AllWaiting-insert gen (x ∷ xs) ticket syncs h w = (
  find-insert_other ◌==◌ ==_iff x (ticket + 1) one_engine syncs
        (apart x (ticket + 1) (omega (arith, h.0, CountsOn-le (gen + 1) xs ticket h.1)))
      ∙ w.0,
  AllWaiting-insert (gen + 1) xs ticket syncs h.1 w.1,
)

AllWaiting-remove :
    (gone gen : ℕ) (queue : List ℕ) (ticket : ℕ) (syncs : SyncMap)
    → gone ≤ gen
    → CountsOn gen queue ticket
    → AllWaiting syncs queue
    → AllWaiting (remove ◌==◌ gone syncs) queue
AllWaiting-remove gone gen [] ticket syncs le h w = tt
AllWaiting-remove gone gen (x ∷ xs) ticket syncs le h w = (
  find-remove_other ◌==◌ ==_iff x gone syncs (apart_up gone x (omega (arith, le, h.0))) ∙ w.0,
  AllWaiting-remove gone (gen + 1) xs ticket syncs (omega (arith, le)) h.1 w.1,
)

-- The ticket stands in the queue.
abbrev pub InQueue : ℕ → List ℕ → Type 0
InQueue x [] = ⊥
InQueue x (y ∷ ys) = (x ≡ y) ⊎ InQueue x ys

CountsOn-InQueue :
    (gen : ℕ) (queue : List ℕ) (ticket x : ℕ)
    → CountsOn gen queue ticket
    → InQueue x queue
    → gen < x
CountsOn-InQueue gen [] ticket x h q = absurd q
CountsOn-InQueue gen (y ∷ ys) ticket x h (inl e) = omega (arith, e, h.0)
CountsOn-InQueue gen (y ∷ ys) ticket x h (inr q) =
    omega (arith, CountsOn-InQueue (gen + 1) ys ticket x h.1 q)

module _ {Time : Type 0} where
  -- The tickets that the engine has not answered, oldest first, are the ones after the generation that
  -- is reached, and each has a record.
  pub record IsSync (c : ServerContext Time) (queue : List ℕ) : Type 0 where
    pub tickets : CountsOn c.sync_gen queue c.sync_ticket
    pub waiting : AllWaiting c.pending_syncs queue

  -- An answer to the oldest ticket.
  notify-IsSync :
      (c : ServerContext Time) (x : ℕ) (queue : List ℕ)
      → IsSync c (x ∷ queue)
      → (c' : ServerContext Time) × (notify_serializations x c ≡ ok tt c')
        × IsSync c' queue
        × (c'.sync_ticket ≡ c.sync_ticket)
  unfolding notify_serializations notify_waiter count_down
  notify-IsSync c x queue h =
      let next : (x == c.sync_gen + 1) ≡ true = (==_iff x (c.sync_gen + 1)).1 h.tickets.0 in
      (
        record c { sync_gen = x; pending_syncs = remove ◌==◌ x c.pending_syncs },
        rw (notify_serializations, h.waiting.0, next) refl,
        record {
          tickets = subst (λ z. CountsOn z queue c.sync_ticket) (sym h.tickets.0) h.tickets.1;
          waiting =
              AllWaiting-remove x (c.sync_gen + 1) queue c.sync_ticket c.pending_syncs
                (omega (arith, h.tickets.0)) h.tickets.1 h.waiting.1;
        },
        refl,
      )

  -- A point whose ticket the engine has not answered is not ready.
  unanswered_not_ready :
      (c : ServerContext Time) (queue : List ℕ) (p : SerializationPoint)
      → IsSync c queue
      → InQueue p.target queue
      → poll_point c.sync_gen p ≡ not_ready
  unfolding poll_point
  unanswered_not_ready c queue p h q =
      late p.target c.sync_gen
        (CountsOn-InQueue c.sync_gen queue c.sync_ticket p.target h.tickets q)
    where
      late :
          (t g : ℕ)
          → g < t
          → ◌≡◌ {A = Poll (Unit {0})} (if leb t g then ready tt else not_ready) not_ready
      late t g h = ground arith

  -- When the engine answers all tickets that it got, in their order, no assertion fails, and every point
  -- that was made is ready; before its answer a point is not.
  pub handle_executions-synced :
      (c : ServerContext Time) (queue : List ℕ)
      → IsSync c queue
      → Returns
          (λ _ c'.
            IsSync c' []
            × ((p : SerializationPoint)
                → p.target ≤ c.sync_ticket
                → poll_point c'.sync_gen p ≡ ready tt)
            × ((p : SerializationPoint)
                → InQueue p.target queue
                → poll_point c.sync_gen p ≡ not_ready))
          (handle_executions (map serialization_response queue) c)
  unfolding handle_executions handle_message poll_point
  handle_executions-synced c [] h =
      returns
        (h, (λ p le. reached p.target c.sync_gen (omega (arith, le, h.tickets))), (λ p q. absurd q))
    where
      reached :
          (t g : ℕ)
          → t ≤ g
          → ◌≡◌ {A = Poll (Unit {0})} (if leb t g then ready tt else not_ready) (ready tt)
      reached t g h = ground arith
  handle_executions-synced c (x ∷ queue) h =
      let (c', run, h', same) = notify-IsSync c x queue h in
      rw run (
        Returns-mono (handle_executions-synced c' queue h') (λ _ c'' k. (
          k.0,
          (λ p le. k.1 p (omega (arith, le, same))),
          (λ p q. unanswered_not_ready c (x ∷ queue) p h q),
        )))

module _ {Time : Type 0} (codec : Codec) (fault : ℕ → Option WalError)
    (takes : EngineMessage → Bool) where
  -- The contexts that the server gets to, with the tickets that the engine has not answered: a point is
  -- requested, the engine answers its oldest ticket, or something else happens that leaves the
  -- tickets alone.
  pub data Reached : ServerContext Time → List ℕ → Type 0 where
    started :
        (router : SingleRouter) (wal : Wal) (disk : Disk) → Reached (new_server router wal disk) []
    requested :
        (c c' : ServerContext Time) (queue : List ℕ) (p : SerializationPoint)
        → Reached c queue
        → serialization_point codec fault takes c ≡ ok p c'
        → Reached c' (queue ++ (p.target ∷ []))
    answered :
        (c c' : ServerContext Time) (x : ℕ) (queue : List ℕ)
        → Reached c (x ∷ queue)
        → notify_serializations x c ≡ ok tt c'
        → Reached c' queue
    other :
        (c c' : ServerContext Time) (queue : List ℕ)
        → Reached c queue
        → c'.sync_gen ≡ c.sync_gen
        → c'.sync_ticket ≡ c.sync_ticket
        → c'.pending_syncs ≡ c.pending_syncs
        → Reached c' queue

  abbrev after_request : ServerContext Time → ServerContext Time
  after_request c = record c {
    router = record c.router {
      sent = c.router.sent ++ (serialization_message (c.sync_ticket + 1) ∷ []);
    };
    sync_ticket = c.sync_ticket + 1;
    pending_syncs = insert ◌==◌ (c.sync_ticket + 1) one_engine c.pending_syncs;
  }

  request-cases :
      (c : ServerContext Time)
      → (serialization_point codec fault takes c ≡ panic)
        ⊎ (serialization_point codec fault takes c
            ≡ ok (record { target = c.sync_ticket + 1 }) (after_request c))
  unfolding serialization_point broadcast_message
  request-cases c = elim (Bool-cases (takes (serialization_message (c.sync_ticket + 1)))) [
    | inl h ↦ inr (rw (broadcast_message, h) refl)
    | inr h ↦ inl (rw (broadcast_message, h) refl)
  ]

  -- In every context that is reached the unanswered tickets are the ones after the generation, in their
  -- order, up to the last that was given out, and each has a record that waits for the engine.
  pub Reached-IsSync : (c : ServerContext Time) (queue : List ℕ) → Reached c queue → IsSync c queue
  unfolding new_server
  Reached-IsSync _ _ (started router wal disk) = record { tickets = refl; waiting = tt }
  Reached-IsSync _ _ (requested c c' queue p r e) =
      let h = Reached-IsSync c queue r in
      elim (request-cases c) [
        | inl f ↦ absurd (panic≢ok (sym f ∙ e))
        | inr f ↦
            (let (same_p, same_c) = ok-inj (sym f ∙ e) in
              let target : c.sync_ticket + 1 ≡ p.target =
                ap (λ (z : SerializationPoint). z.target) same_p in
              subst (λ z. IsSync z (queue ++ (p.target ∷ []))) same_c
                (subst (λ z. IsSync (after_request c) (queue ++ (z ∷ []))) target
                  (record {
                    tickets = CountsOn-snoc c.sync_gen queue c.sync_ticket h.tickets;
                    waiting =
                        AllWaiting-insert c.sync_gen queue c.sync_ticket c.pending_syncs h.tickets
                          h.waiting;
                  })))
      ]
    where
      panic≢ok : {A S : Type 0} {a : A} {s : S} → ◌≡◌ {A = Run S A} panic (ok a s) → ⊥
      panic≢ok k = cc

      ok-inj :
          {A S : Type 0} {a b : A} {s t : S}
          → ◌≡◌ {A = Run S A} (ok a s) (ok b t)
          → (a ≡ b) × (s ≡ t)
      ok-inj k = ((cc), (cc))
  Reached-IsSync _ _ (answered c c' x queue r e) =
      let (c'', f, h, _) = notify-IsSync c x queue (Reached-IsSync c (x ∷ queue) r) in
      subst (λ z. IsSync z queue) (state_inj (sym f ∙ e)) h
    where
      state_inj : {A S : Type 0} {a b : A} {s t : S} → ◌≡◌ {A = Run S A} (ok a s) (ok b t) → s ≡ t
      state_inj k = cc
  Reached-IsSync _ _ (other c c' queue r gen ticket syncs) =
      let h = Reached-IsSync c queue r in
      record {
        tickets =
            subst (λ g. CountsOn g queue c'.sync_ticket) (sym gen)
              (subst (CountsOn c.sync_gen queue) (sym ticket) h.tickets);
        waiting = subst (λ z. AllWaiting z queue) (sym syncs) h.waiting;
      }
