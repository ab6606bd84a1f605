-- ===== src/Gateway/Execute.antt =====
-- execute_command of src/tcp_server.cpp, which the matching thread calls for each message, with the
-- messages of include/ingress_message.hpp. `std::to_string` is a parameter. The push of the response,
-- which is repeated until it succeeds, is the caller's.
use lloms.Base.{ℕ, Bool, Option, none, some, List, [], ◌∷◌, ltb, if◌then◌else◌, is_nil}
use lloms.Base.Text.{Text, bytes}
use lloms.Types.{Order, Trade, is_limit}
use lloms.Protocol.{
  new, cancel, flush, unknown, ParsedCommand, format_ack, format_trade, format_canceled,
  format_reject, format_info,
}
use lloms.Pool.{Book}
use lloms.Pool.Orders.{submit_order, cancel_order, clear}
use lloms.Pool.Query.{get_order}

pub record IngressMessage : Type 0 where
  pub sequence : ℕ
  pub client_fd : ℕ
  pub ingress_timestamp : ℕ
  pub command : ParsedCommand

pub record ResponseMessage : Type 0 where
  pub client_fd : ℕ
  pub sequence : ℕ
  pub payload : Text

module _ (to_string : ℕ → Text) where
  -- `for (const auto& tr : trades) format_trade(tr, payload)`
  unfoldable pub format_trades : List Trade → Text → Text
  format_trades [] payload = payload
  format_trades (tr ∷ trades) payload = format_trades trades (format_trade to_string tr payload)

  -- What an accepted order is answered after its trades; `resting` is what get_order gives.
  unfoldable pub answer_rest : Order → Bool → Option Order → Text → Text
  answer_rest order no_trades resting payload =
      let otherwise =
        if no_trades
        then (if is_limit order.type
            then payload
            else format_reject to_string order.order_id (bytes "NO_LIQUIDITY_FOR_MARKET_ORDER")
                payload)
        else payload in
      elim resting [
        | none ↦ otherwise
        | some o ↦
            if ltb 0 o.remaining_quantity
            then format_ack to_string order.order_id o.remaining_quantity payload
            else otherwise
      ]

  unfoldable pub execute_new : Book → Order → Book × Text
  unfolding format_trades answer_rest
  execute_new b order =
      let r = submit_order b order [] in
      if r.accepted
      then (
        r.book,
        answer_rest order (is_nil r.trades) (get_order r.book order.order_id)
            (format_trades r.trades []),
      )
      else (r.book, format_reject to_string order.order_id (bytes "DUPLICATE_OR_INVALID_ORDER") [])

  unfoldable pub execute_cancel : Book → ℕ → Book × Text
  execute_cancel b id =
      let (ok, b') = cancel_order b id in
      (
        b',
        if ok
            then format_canceled to_string id []
            else format_reject to_string id (bytes "ORDER_NOT_FOUND") [],
      )

  unfoldable pub execute_payload : Book → ParsedCommand → Book × Text
  unfolding execute_new execute_cancel
  execute_payload b c = elim c.type [
    | flush ↦ (clear b, format_info (bytes "BOOK_FLUSHED") [])
    | cancel ↦ execute_cancel b c.cancel_id
    | new ↦ execute_new b c.order
    | unknown ↦ (b, [])
  ]

  -- The book after the command, and the response that is pushed, if any.
  unfoldable pub execute_command : Book → IngressMessage → Book × Option ResponseMessage
  unfolding execute_payload
  execute_command b msg =
      let (b', payload) = execute_payload b msg.command in
      (
        b',
        if is_nil payload
            then none
            else some
                (record { client_fd = msg.client_fd; sequence = msg.sequence; payload = payload }),
      )
