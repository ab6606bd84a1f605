-- ===== src/Protocol/Roundtrip.antt =====
-- parse_line of src/protocol.cpp reads what a client prints.
use lloms.Base.{
  ℕ, ◌<◌, ◌≡◌, refl, ◌⊎◌, Bool, true, Option, none, some, List, [], ◌∷◌, arith, length,
}
use lloms.Base.Text.{Text, bytes}
use lloms.Types.{Side, buy, sell, OrderType, limit, market, Order, is_limit}
use lloms.Matching.{admit}
use lloms.Protocol.{
  new, cancel, no_order, parse_side, parse_type, parse_num, parse_positive, parse_new, parse_cancel,
  parse_tokens, parse_line, side_to_string, order_type_to_string,
}
use lloms.Protocol.Tokens.{spaced, IsLine, IsGap, split_tokens-spaced}
use lloms.Protocol.Commands.{IsCommand, parse_line-IsCommand}

-- The order that a line with these numbers stands for.
abbrev pub order_of : ℕ → Side → OrderType → ℕ → ℕ → ℕ → Order
order_of now side type id price qty = record {
  order_id = id;
  price = price;
  initial_quantity = qty;
  remaining_quantity = qty;
  timestamp = now;
  side = side;
  type = type;
}

-- How a line writes its numbers, and the blanks before each of the six words and after the last.
pub record Spelling : Type 0 where
  pub id_text : Text
  pub price_text : Text
  pub qty_text : Text
  pub gap0 : Text
  pub gap1 : Text
  pub gap2 : Text
  pub gap3 : Text
  pub gap4 : Text
  pub gap5 : Text
  pub trail : Text

abbrev pub new_words : Side → OrderType → Spelling → List (Text × Text)
new_words side type t =
    (t.gap0, bytes "NEW")
    ∷ (t.gap1, side_to_string side)
    ∷ (t.gap2, t.id_text)
    ∷ (t.gap3, t.price_text)
    ∷ (t.gap4, t.qty_text)
    ∷ (t.gap5, order_type_to_string type)
    ∷ []

parse_side-side_to_string : (side : Side) → parse_side (side_to_string side) ≡ some side
unfolding parse_side side_to_string
parse_side-side_to_string buy = refl
parse_side-side_to_string sell = refl

parse_type-order_type_to_string :
    (a b c d e : Text) (type : OrderType)
    → parse_type (a ∷ b ∷ c ∷ d ∷ e ∷ order_type_to_string type ∷ []) ≡ type
unfolding parse_type order_type_to_string
parse_type-order_type_to_string a b c d e limit = refl
parse_type-order_type_to_string a b c d e market = refl

module _ (from_chars : ℕ → Text → Option (ℕ × ℕ)) (now : ℕ) where
  parse_num-some :
      (bits : ℕ) (t : Text) (n : ℕ)
      → from_chars bits t ≡ some (n, length t)
      → parse_num from_chars bits t ≡ some n
  unfolding parse_num
  parse_num-some bits t n e = rw (e, parse_num) (ground arith)

  parse_positive-some :
      (bits : ℕ) (t : Text) (n : ℕ)
      → from_chars bits t ≡ some (n, length t)
      → 0 < n
      → parse_positive from_chars bits t ≡ some n
  unfolding parse_positive
  parse_positive-some bits t n e pos = rw (parse_num-some bits t n e, parse_positive) (ground arith)

  -- A line of NEW, a side, three texts that `from_chars` reads to their ends as an id and a quantity other
  -- than 0 and a price, and an order type, with any blanks between them, is read as that order.
  pub parse_line-new :
      (side : Side) (type : OrderType) (t : Spelling) (id price qty : ℕ)
      → from_chars 64 t.id_text ≡ some (id, length t.id_text)
      → from_chars 64 t.price_text ≡ some (price, length t.price_text)
      → from_chars 32 t.qty_text ≡ some (qty, length t.qty_text)
      → 0 < id
      → 0 < qty
      → IsLine (new_words side type t)
      → IsGap t.trail
      → parse_line from_chars now (spaced (new_words side type t) t.trail) ≡ record {
        type = new;
        order = order_of now side type id price qty;
        cancel_id = 0;
        error_msg = [];
      }
  unfolding parse_line parse_tokens parse_new
  parse_line-new side type t id price qty read_id read_price read_qty id_pos qty_pos line tail =
      rw (
        split_tokens-spaced (new_words side type t) t.trail line tail,
        parse_side-side_to_string side,
        parse_positive-some 64 t.id_text id read_id id_pos,
        parse_num-some 64 t.price_text price read_price,
        parse_positive-some 32 t.qty_text qty read_qty qty_pos,
        parse_type-order_type_to_string,
      )

  -- A line of CANCEL and a text that `from_chars` reads to its end as an id other than 0, with any blanks
  -- between them, is read as the cancellation of that id.
  pub parse_line-cancel :
      (id_text : Text) (id : ℕ) (gap0 gap1 trail : Text)
      → from_chars 64 id_text ≡ some (id, length id_text)
      → 0 < id
      → IsLine ((gap0, bytes "CANCEL") ∷ (gap1, id_text) ∷ [])
      → IsGap trail
      → parse_line from_chars now (spaced ((gap0, bytes "CANCEL") ∷ (gap1, id_text) ∷ []) trail)
        ≡ record { type = cancel; order = no_order; cancel_id = id; error_msg = [] }
  unfolding parse_line parse_tokens parse_cancel
  parse_line-cancel id_text id gap0 gap1 trail read_id id_pos line tail = rw (
    split_tokens-spaced ((gap0, bytes "CANCEL") ∷ (gap1, id_text) ∷ []) trail line tail,
    parse_positive-some 64 id_text id read_id id_pos,
  )

  -- The guards of submit_order refuse an order that was read from a line only if its id is in the
  -- book or it is a limit order at price 0.
  pub parse_line-admit :
      (line : Text) (known : Bool)
      → (parse_line from_chars now line).type ≡ new
      → admit known (parse_line from_chars now line).order ≡ none
      → (known ≡ true)
        ⊎ ((is_limit (parse_line from_chars now line).order.type ≡ true)
            × ((parse_line from_chars now line).order.price ≡ 0))
  unfolding admit IsCommand
  parse_line-admit line known is_new refused =
      ground (arith, is_new, refused, parse_line-IsCommand from_chars now line)
