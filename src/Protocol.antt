-- ===== src/Protocol.antt =====
-- include/protocol.hpp and src/protocol.cpp: a line of a client is split into tokens and read as a
-- command, and the answers are printed. `std::from_chars`, `std::to_string` and the clock are
-- parameters: `from_chars bits text` gives the number at the start of the text and how many characters it
-- has, or `none` where there is none or it does not fit.
pub mod Tokens
pub mod Commands
pub mod Roundtrip
use Prim.Native.String.{String}
use lloms.Base.{
  ℕ, zero, suc, Bool, true, false, ◌&&◌, ◌||◌, Option, none, some, List, [], ◌∷◌, ◌++◌, ltb, leb,
  ◌==◌, if◌then◌else◌, is_nil, get_or, length,
}
use lloms.Base.Text.{Text, bytes, same}
use lloms.Types.{Side, buy, sell, OrderType, limit, market, Order, Trade}

pub data CommandType : Type 0 where
  new cancel flush unknown : CommandType

pub record ParsedCommand : Type 0 where
  pub type : CommandType
  pub order : Order
  pub cancel_id : ℕ
  pub error_msg : Text

-- `Order{}`
abbrev pub no_order : Order
no_order = record {
  order_id = 0;
  price = 0;
  initial_quantity = 0;
  remaining_quantity = 0;
  timestamp = 0;
  side = buy;
  type = limit;
}

-- A space, a tab or a carriage return.
abbrev pub is_blank : ℕ → Bool
is_blank c = (c == 32) || (c == 9) || (c == 13)

-- The first inner loop: what begins at `start` after it.
unfoldable pub skip_blanks : Text → Text
skip_blanks [] = []
skip_blanks (c ∷ s) = if is_blank c then skip_blanks s else c ∷ s

-- The second inner loop: `line.substr(start, end - start)`, and what begins at `end`.
unfoldable pub next_token : Text → Text × Text
next_token [] = ([], [])
next_token (c ∷ s) = let (w, r) = next_token s in if is_blank c then ([], c ∷ s) else (c ∷ w, r)

-- The outer loop, on fuel: each round takes a character, so the length of the text is enough.
unfoldable pub split_loop : ℕ → Text → List Text
unfolding skip_blanks next_token
split_loop zero s = []
split_loop (suc fuel) s =
    let t = skip_blanks s in
    let (w, r) = next_token t in let rest = split_loop fuel r in if is_nil t then [] else w ∷ rest

unfoldable pub split_tokens : Text → List Text
unfolding split_loop
split_tokens line = split_loop (length line) line

abbrev pub refuse : String → ParsedCommand
refuse msg = record { type = unknown; order = no_order; cancel_id = 0; error_msg = bytes msg }

-- An early return with the message where a value is missing.
abbrev pub need : {A : Type 0} → Option A → String → (A → ParsedCommand) → ParsedCommand
need none msg k = refuse msg
need (some a) msg k = k a

unfoldable pub parse_side : Text → Option Side
parse_side t =
    if same t (bytes "BUY") || same t (bytes "B")
    then some buy
    else if same t (bytes "SELL") || same t (bytes "S")
    then some sell
    else none

-- A sixth token that is neither of the two types leaves the default.
unfoldable pub parse_type : List Text → OrderType
parse_type tokens =
    let t = get_or tokens 5 [] in
    if leb 6 (length tokens)
    then (if same t (bytes "MARKET") || same t (bytes "M") then market else limit)
    else limit

module _ (from_chars : ℕ → Text → Option (ℕ × ℕ)) where
  -- The number takes the whole token.
  unfoldable pub parse_num : ℕ → Text → Option ℕ
  parse_num bits sv = elim (from_chars bits sv) [
    | none ↦ none
    | some (n, used) ↦ if used == length sv then some n else none
  ]

  -- `parse_num(…) && n != 0`
  unfoldable pub parse_positive : ℕ → Text → Option ℕ
  unfolding parse_num
  parse_positive bits sv = elim (parse_num bits sv) [
    | none ↦ none
    | some n ↦ if n == 0 then none else some n
  ]

  unfoldable pub parse_new : ℕ → List Text → ParsedCommand
  unfolding parse_side parse_num parse_positive parse_type
  parse_new now tokens =
      if ltb (length tokens) 5
      then refuse "INVALID_NEW_FORMAT: Expected 'NEW <BUY|SELL> <ID> <PRICE> <QTY> [TYPE]'"
      else need (parse_side (get_or tokens 1 [])) "INVALID_SIDE: Expected BUY or SELL" λ side.
        need (parse_positive 64 (get_or tokens 2 [])) "INVALID_ORDER_ID" λ oid.
          need (parse_num 64 (get_or tokens 3 [])) "INVALID_PRICE" λ price.
            need (parse_positive 32 (get_or tokens 4 [])) "INVALID_QUANTITY" λ qty. record {
              type = new;
              order = record {
                order_id = oid;
                price = price;
                initial_quantity = qty;
                remaining_quantity = qty;
                timestamp = now;
                side = side;
                type = parse_type tokens;
              };
              cancel_id = 0;
              error_msg = [];
            }

  unfoldable pub parse_cancel : List Text → ParsedCommand
  unfolding parse_positive
  parse_cancel tokens =
      if ltb (length tokens) 2
      then refuse "INVALID_CANCEL_FORMAT: Expected 'CANCEL <ORDER_ID>'"
      else need (parse_positive 64 (get_or tokens 1 [])) "INVALID_ORDER_ID"
          λ oid. record { type = cancel; order = no_order; cancel_id = oid; error_msg = [] }

  unfoldable pub parse_tokens : ℕ → List Text → ParsedCommand
  unfolding parse_new parse_cancel
  parse_tokens now [] = refuse "EMPTY_COMMAND"
  parse_tokens now (verb ∷ args) =
      if same verb (bytes "NEW")
      then parse_new now (verb ∷ args)
      else if same verb (bytes "CANCEL")
      then parse_cancel (verb ∷ args)
      else if same verb (bytes "FLUSH")
      then record { type = flush; order = no_order; cancel_id = 0; error_msg = [] }
      else refuse "UNKNOWN_COMMAND"

  -- `now` is what the clock gives, if it is read.
  unfoldable pub parse_line : ℕ → Text → ParsedCommand
  unfolding parse_tokens split_tokens
  parse_line now line = parse_tokens now (split_tokens line)

unfoldable pub side_to_string : Side → Text
side_to_string buy = bytes "BUY"
side_to_string sell = bytes "SELL"

unfoldable pub order_type_to_string : OrderType → Text
order_type_to_string limit = bytes "LIMIT"
order_type_to_string market = bytes "MARKET"

-- The output is appended to `out`.
module _ (to_string : ℕ → Text) where
  unfoldable pub format_ack : ℕ → ℕ → Text → Text
  format_ack id remaining_qty out =
      out ++ bytes "ACK " ++ to_string id ++ bytes " " ++ to_string remaining_qty ++ bytes "\n"

  unfoldable pub format_trade : Trade → Text → Text
  unfolding side_to_string
  format_trade trade out =
      out
      ++ bytes "TRADE "
      ++ to_string trade.maker_order_id
      ++ bytes " "
      ++ to_string trade.taker_order_id
      ++ bytes " "
      ++ to_string trade.price
      ++ bytes " "
      ++ to_string trade.quantity
      ++ bytes " "
      ++ side_to_string trade.aggressor_side
      ++ bytes "\n"

  unfoldable pub format_canceled : ℕ → Text → Text
  format_canceled id out = out ++ bytes "CANCELED " ++ to_string id ++ bytes "\n"

  unfoldable pub format_reject : ℕ → Text → Text → Text
  format_reject id reason out =
      out ++ bytes "REJECT " ++ to_string id ++ bytes " " ++ reason ++ bytes "\n"

unfoldable pub format_info : Text → Text → Text
format_info message out = out ++ bytes "INFO " ++ message ++ bytes "\n"
