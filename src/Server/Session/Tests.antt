-- ===== src/Server/Session/Tests.antt =====
-- Examples of src/server/session.rs and the ExecutionPublisher of src/server/server.rs.
use cixrs.Base.{
  ℕ, ◌≡◌, ◌≤◌, ◌<◌, refl, ◌⊎◌, inl, inr, ◌==◌, Bool, true, none, some, [], ◌∷◌, map, arith, compare,
}
use cixrs.Run.{Run, ok, panic, out_of_fuel, Returns}
use cixrs.TradeTypes.Orders.{Order}
use cixrs.TradeTypes.OrderId.{buy}
use cixrs.Server.Messages.{
  EngineMessage, OpenOrdersSequence, open_orders_response, serialization_response,
}
use cixrs.Server.OpenOrders.{fill}
use cixrs.Server.Table.{find}
use cixrs.Server.Wal.Cells.{
  cell_codec, is_cell_codec, no_fault, one, twelve, at_one, one-IsLog, two,
}
use cixrs.Server.Router.{SingleRouter, broadcast_message}
use cixrs.Server.Events.{
  SerializationPoint, ready, not_ready, poll_point, poll_open_orders, new_context,
}
use cixrs.Server.Session.{
  ServerContext, new_server, code, subscribed, already_subscribed, drop_subscription,
  serialization_point, log_and_route,
}
use cixrs.Server.Session.Requests.{subscribe_user}
use cixrs.Server.Session.Publisher.{handle_message, handle_executions}
use cixrs.Server.Session.Auth.{subscribe_user-once}
use cixrs.Server.Session.Sync.{
  IsSync, InQueue, handle_executions-synced, Reached, started, requested, Reached-IsSync,
}
use cixrs.Server.Session.Answer.{fill-answered}
use cixrs.Server.Session.Durable.{IsDurable, Routed, done, skip, log_and_route-IsDurable}

abbrev bid : Order ℕ
bid = record {
  id = record { id = record { val = 0x20000000001 } };
  user = 7;
  symbol = record { s = [] };
  side = buy;
  price = record { bits = 0x4024000000000000 };
  quantity = 30;
  update = 5;
}

abbrev any : EngineMessage → Bool
any m = true

abbrev router : SingleRouter
router = record { symbols = record { symbols = []; lookup = [] }; sent = []; seq_list = [] }

unfoldable context : ServerContext ℕ
unfolding new_server
context = new_server router at_one twelve

subscribe_user-once_example :
    (c' : ServerContext ℕ) × (subscribe_user cell_codec no_fault any 7 (some 2) context
      ≡ ok (subscribed 7) c')
    × (find ◌==◌ 7 c'.sub_map ≡ some 2)
    × (subscribe_user cell_codec no_fault any 7 (some 3) c' ≡ ok (code already_subscribed) c')
    × ((c'' : ServerContext ℕ) × (drop_subscription 7 c' ≡ ok tt c'')
        × (find ◌==◌ 7 c''.sub_map ≡ none))
unfolding context new_server find
subscribe_user-once_example = subscribe_user-once cell_codec no_fault any context 7 2 (some 3) refl

-- the context after the request of a serialization point
abbrev reached : Run (ServerContext ℕ) SerializationPoint → ServerContext ℕ → ServerContext ℕ
reached (ok p c) d = c
reached panic d = d
reached out_of_fuel d = d

unfoldable asked : ServerContext ℕ
unfolding context serialization_point new_server
asked = reached (serialization_point cell_codec no_fault any context) context

asked-Reached : Reached cell_codec no_fault any asked (1 ∷ [])
unfolding asked context serialization_point broadcast_message new_server
asked-Reached =
    requested context asked [] (record { target = 1 }) (started router at_one twelve) refl

Reached-IsSync_example : IsSync asked (1 ∷ [])
Reached-IsSync_example = Reached-IsSync cell_codec no_fault any asked (1 ∷ []) asked-Reached

asked-IsSync : IsSync asked (1 ∷ [])
asked-IsSync = Reached-IsSync cell_codec no_fault any asked (1 ∷ []) asked-Reached

handle_executions-synced_example :
    Returns
      (λ _ c'.
        IsSync c' []
        × ((p : SerializationPoint)
            → p.target ≤ asked.sync_ticket
            → poll_point c'.sync_gen p ≡ ready tt)
        × ((p : SerializationPoint)
            → InQueue p.target (1 ∷ [])
            → poll_point asked.sync_gen p ≡ not_ready))
      (handle_executions (map serialization_response (1 ∷ [])) asked)
handle_executions-synced_example = handle_executions-synced asked (1 ∷ []) asked-IsSync

abbrev request : OpenOrdersSequence
request = record { user = 7; seq = 0 }

unfoldable waiting : ServerContext ℕ
unfolding context new_context
waiting = record context { pending_open_orders = (request, new_context 1) ∷ [] }

fill-answered_example :
    ((1 < 10)
      × Returns
          (λ _ c'. poll_open_orders request c'.pending_open_orders ≡ ready (bid ∷ []))
          (handle_message
            (open_orders_response (fill compare (λ _. 0) (λ _. true) bid request (bid ∷ [])))
            waiting))
    ⊎ ((10 ≤ 1)
        × (handle_message
              (open_orders_response (fill compare (λ _. 0) (λ _. true) bid request (bid ∷ [])))
              waiting
            ≡ panic))
unfolding waiting find
fill-answered_example =
    fill-answered compare (λ _. 0) (λ _. true) bid request (bid ∷ []) waiting refl

unfoldable context-IsDurable : IsDurable is_cell_codec no_fault any context (one ∷ [])
unfolding context new_server one-IsLog
context-IsDurable = record { log_ok = one-IsLog; sent = skip one [] [] done }

log_and_route-IsDurable_example :
    Returns
      (Routed is_cell_codec no_fault any context (one ∷ []) two)
      (log_and_route cell_codec no_fault any two context)
unfolding context-IsDurable one-IsLog context new_server
log_and_route-IsDurable_example =
    log_and_route-IsDurable is_cell_codec no_fault any context (one ∷ []) two tt context-IsDurable
      (λ h. absurd (omega (arith, h))) (λ _. inl refl) (inr (omega arith))
