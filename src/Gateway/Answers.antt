-- ===== src/Gateway/Answers.antt =====
-- Which commands execute_command of src/tcp_server.cpp answers.
use lloms.Base.{
  ℕ, ◌≡◌, ◌≢◌, ◌⊎◌, inl, inr, refl, Bool, true, false, Option, none, some, List, [], ◌∷◌, ◌++◌,
  arith, ltb, is_nil, Bool-cases,
}
use lloms.Base.Text.{Text, bytes}
use lloms.Types.{Order, Trade, is_limit}
use lloms.Protocol.{
  CommandType, new, cancel, flush, unknown, ParsedCommand, format_ack, format_trade,
  format_canceled, format_reject, format_info,
}
use lloms.Pool.{Book}
use lloms.Pool.Orders.{submit_order}
use lloms.Pool.Query.{get_order}
use lloms.Gateway.Execute.{
  IngressMessage, ResponseMessage, format_trades, answer_rest, execute_new, execute_cancel,
  execute_payload, execute_command,
}

is_nil-append : (s t : Text) → is_nil t ≡ false → is_nil (s ++ t) ≡ false
is_nil-append [] t h = h
is_nil-append (c ∷ s) t h = refl

is_nil-append_left : (s t : Text) → is_nil s ≡ false → is_nil (s ++ t) ≡ false
is_nil-append_left [] t h = absurd (cc h)
is_nil-append_left (c ∷ s) t h = refl

-- The test of get_order's result: there is an order with something left.
abbrev pub is_open : Option Order → Bool
is_open none = false
is_open (some o) = ltb 0 o.remaining_quantity

-- What an order is when execute_command has nothing to say of it.
pub record IsSilent (b : Book) (o : Order) : Type 0 where
  pub accepted : (submit_order b o []).accepted ≡ true
  pub no_trades : is_nil (submit_order b o []).trades ≡ true
  pub limited : is_limit o.type ≡ true
  pub gone : is_open (get_order (submit_order b o []).book o.order_id) ≡ false

module _ (to_string : ℕ → Text) where
  is_nil-format_ack : (id n : ℕ) (out : Text) → is_nil (format_ack to_string id n out) ≡ false
  unfolding format_ack
  is_nil-format_ack id n out = is_nil-append _ (bytes "\n") refl

  is_nil-format_reject :
      (id : ℕ) (reason out : Text) → is_nil (format_reject to_string id reason out) ≡ false
  unfolding format_reject
  is_nil-format_reject id reason out = is_nil-append _ (bytes "\n") refl

  is_nil-format_canceled : (id : ℕ) (out : Text) → is_nil (format_canceled to_string id out) ≡ false
  unfolding format_canceled
  is_nil-format_canceled id out = is_nil-append _ (bytes "\n") refl

  is_nil-format_trade : (t : Trade) (out : Text) → is_nil (format_trade to_string t out) ≡ false
  unfolding format_trade
  is_nil-format_trade t out = is_nil-append _ (bytes "\n") refl

  is_nil-format_trades :
      (ts : List Trade) (out : Text)
      → is_nil ts ≡ false ⊎ is_nil out ≡ false
      → is_nil (format_trades to_string ts out) ≡ false
  unfolding format_trades
  is_nil-format_trades [] out (inl h) = absurd (cc h)
  is_nil-format_trades [] out (inr h) = h
  is_nil-format_trades (t ∷ ts) out h =
      is_nil-format_trades ts (format_trade to_string t out) (inr (is_nil-format_trade t out))

  -- The answer is empty only if the payload was, the order is a limit order, and nothing of it rests.
  answer_rest-empty :
      (o : Order) (no_trades : Bool) (resting : Option Order) (payload : Text)
      → is_nil (answer_rest to_string o no_trades resting payload) ≡ true
      → (is_nil payload ≡ true)
        × ((no_trades ≡ false) ⊎ (is_limit o.type ≡ true))
        × (is_open resting ≡ false)
  unfolding answer_rest
  answer_rest-empty o no_trades none payload h =
      ground
        (arith, h, is_nil-format_reject o.order_id (bytes "NO_LIQUIDITY_FOR_MARKET_ORDER") payload)
  answer_rest-empty o no_trades (some r) payload h = ground (
    arith,
    h,
    is_nil-format_ack o.order_id r.remaining_quantity payload,
    is_nil-format_reject o.order_id (bytes "NO_LIQUIDITY_FOR_MARKET_ORDER") payload,
  )

  execute_new-IsSilent :
      (b : Book) (o : Order) → is_nil (execute_new to_string b o).1 ≡ true → IsSilent b o
  unfolding execute_new
  execute_new-IsSilent b o h =
      let s = submit_order b o [] in
      let resting = get_order s.book o.order_id in
      elim (Bool-cases s.accepted) [
        | inr e ↦ absurd (
            cc (rw e at h, is_nil-format_reject o.order_id (bytes "DUPLICATE_OR_INVALID_ORDER") []))
        | inl e ↦
            let r =
              answer_rest-empty o (is_nil s.trades) resting (format_trades to_string s.trades [])
                (rw e at h) in
            elim (Bool-cases (is_nil s.trades)) [
              | inr some_trades ↦
                  absurd (cc (r.0, is_nil-format_trades s.trades [] (inl some_trades)))
              | inl none_made ↦ record {
                accepted = e;
                no_trades = none_made;
                limited = ground (arith, r.1, none_made);
                gone = r.2;
              }
            ]
      ]

  is_nil-execute_cancel : (b : Book) (id : ℕ) → is_nil (execute_cancel to_string b id).1 ≡ false
  unfolding execute_cancel
  is_nil-execute_cancel b id =
      ground
        (arith, is_nil-format_canceled id [], is_nil-format_reject id (bytes "ORDER_NOT_FOUND") [])

  payload-IsSilent :
      (b : Book) (c : ParsedCommand) (t : CommandType)
      → c.type ≡ t
      → is_nil (execute_payload to_string b c).1 ≡ true
      → (t ≡ unknown) ⊎ ((t ≡ new) × IsSilent b c.order)
  unfolding execute_payload format_info
  payload-IsSilent b c unknown e h = inl refl
  payload-IsSilent b c new e h =
      inr (refl, execute_new-IsSilent b c.order (rw (e, execute_payload) at h))
  payload-IsSilent b c cancel e h =
      absurd (cc (rw (e, execute_payload) at h, is_nil-execute_cancel b c.cancel_id))
  payload-IsSilent b c flush e h = absurd (cc (rw (e, execute_payload) at h))

  -- A command of a known type gets a response to its client, with its sequence number and a payload that
  -- is not empty, unless it is an accepted limit order that has no trades and of which nothing rests.
  pub execute_command-answers :
      (b : Book) (msg : IngressMessage)
      → msg.command.type ≢ unknown
      → ((resp : ResponseMessage) × ((execute_command to_string b msg).1 ≡ some resp)
          × (resp.client_fd ≡ msg.client_fd)
          × (resp.sequence ≡ msg.sequence)
          × (is_nil resp.payload ≡ false))
        ⊎ ((msg.command.type ≡ new) × IsSilent b msg.command.order)
  unfolding execute_command
  execute_command-answers b msg known =
      let payload = (execute_payload to_string b msg.command).1 in
      elim (Bool-cases (is_nil payload)) [
        | inl e ↦ elim (payload-IsSilent b msg.command msg.command.type refl e) [
          | inl u ↦ absurd (known u)
          | inr r ↦ inr r
        ]
        | inr e ↦ inl (
          record { client_fd = msg.client_fd; sequence = msg.sequence; payload = payload },
          rw e refl,
          refl,
          refl,
          e,
        )
      ]
