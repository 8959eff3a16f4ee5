-- ===== src/Server/Session/Requests.antt =====
-- The requests of a Session of src/server/session.rs.
use cixrs.Base.{ℕ, ◌+◌, ◌==◌, not, Bool, true, Option, none, some, success, failure, if◌then◌else◌}
use cixrs.Run.{Cmd, ok, pure, get_state, put_state, ◌>>=◌, ◌>>◌}
use cixrs.TradeTypes.OrderId.{OrderId, OrderSide}
use cixrs.TradeTypes.OrderId as OrderId
use cixrs.TradeTypes.Orders.{id_eq}
use cixrs.Server.Messages.{
  EngineMessage, NewOrderMessage, CancelOrderMessage, OpenOrdersSequence, serialization_message,
  get_open_orders_message,
}
use cixrs.Server.Messages as Messages
use cixrs.Server.Table.{find, insert}
use cixrs.Server.Wal.{Codec, WalError}
use cixrs.Server.Router.{create_order_id, broadcast_message, n_engine}
use cixrs.Server.Events.{new_event, new_context, seq_eq}
use cixrs.Server.Session.{
  ServerContext, Served, Reply, NewOrderParams, on_router, on_context, log_and_route, code_ok,
  not_authenticated, invalid_args, already_subscribed, code, waits_for_ack, waits_for_orders,
  subscribed, call_failed,
}

module _ {Time : Type 0} (codec : Codec) (fault : ℕ → Option WalError)
    (takes : EngineMessage → Bool) where
  -- Session::authenticate
  unfoldable pub authenticate : ℕ → Cmd (Served Time) Reply
  authenticate user s =
      ok (code code_ok)
        (record s { session = record s.session { user = user; authenticated = true } })

  -- Session::new_order, for an authenticated user and parameters that were read
  unfoldable pub submit_order : ℕ → NewOrderParams → Cmd (ServerContext Time) Reply
  unfolding create_order_id log_and_route insert
  submit_order user p = do
    made ← on_router codec fault takes (create_order_id p.symbol p.side)
    elim made [
      | failure e ↦ pure call_failed
      | success order_id ↦ (do
        routed ← log_and_route codec fault takes (
            Messages.new_order (record {
              user = user;
              order_id = order_id;
              symbol = p.symbol;
              side = p.side;
              price = p.price;
              quantity = p.quantity;
            }))
        c ← get_state
        if routed
            then (put_state
                  (record c { pending_orders = insert id_eq order_id new_event c.pending_orders })
                >> pure (waits_for_ack order_id))
            else pure call_failed)
    ]

  unfoldable pub new_order : Option NewOrderParams → Cmd (Served Time) Reply
  unfolding submit_order
  new_order params = do
    s ← get_state
    if not s.session.authenticated then pure (code not_authenticated) else (elim params [
      | none ↦ pure call_failed
      | some p ↦ on_context codec fault takes (submit_order s.session.user p)
    ])

  -- Session::cancel_order, for an authenticated user and a raw id that was read
  unfoldable pub submit_cancel : ℕ → ℕ → Cmd (ServerContext Time) Reply
  unfolding OrderId.from_raw log_and_route
  submit_cancel user raw_order_id = elim (OrderId.from_raw raw_order_id) [
    | failure e ↦ pure (code invalid_args)
    | success order_id ↦ (do
      routed ←
          log_and_route codec fault takes
            (Messages.cancel_order (record { user = user; order_id = order_id }))
      if routed then pure (code code_ok) else pure call_failed)
  ]

  unfoldable pub cancel_order : Option ℕ → Cmd (Served Time) Reply
  unfolding submit_cancel
  cancel_order params = do
    s ← get_state
    if not s.session.authenticated then pure (code not_authenticated) else (elim params [
      | none ↦ pure call_failed
      | some raw ↦ on_context codec fault takes (submit_cancel s.session.user raw)
    ])

  -- Session::get_open_orders, for the sequence of the request
  unfoldable pub request_orders : OpenOrdersSequence → Cmd (ServerContext Time) Reply
  unfolding broadcast_message insert new_context
  request_orders seq = do
    sent ← on_router codec fault takes (broadcast_message takes (get_open_orders_message seq))
    elim sent [
      | failure e ↦ pure call_failed
      | success _ ↦ (do
        c ← get_state
        put_state (record c {
          pending_open_orders = insert seq_eq seq (new_context n_engine) c.pending_open_orders;
        })
        pure (waits_for_orders seq))
    ]

  unfoldable pub get_open_orders : Cmd (Served Time) Reply
  unfolding request_orders
  get_open_orders = do
    s ← get_state
    if not s.session.authenticated then pure (code not_authenticated) else (do
      put_state (record s {
        session = record s.session { open_order_seq = s.session.open_order_seq + 1 };
      })
      on_context codec fault takes
          (request_orders (record { user = s.session.user; seq = s.session.open_order_seq })))

  -- Session::execution_subscribe
  unfoldable pub subscribe_user : ℕ → Option ℕ → Cmd (ServerContext Time) Reply
  unfolding find insert
  subscribe_user user feed c = elim (find ◌==◌ user c.sub_map) [
    | some _ ↦ ok (code already_subscribed) c
    | none ↦ elim feed [
      | none ↦ ok call_failed c
      | some client ↦
          ok (subscribed user) (record c { sub_map = insert ◌==◌ user client c.sub_map })
    ]
  ]

  unfoldable pub execution_subscribe : Option ℕ → Cmd (Served Time) Reply
  unfolding subscribe_user
  execution_subscribe feed = do
    s ← get_state
    if not s.session.authenticated
        then pure (code not_authenticated)
        else on_context codec fault takes (subscribe_user s.session.user feed)
