-- ===== src/Tests/Lines.antt =====
-- src/protocol.cpp with a reading of decimal numbers, and lines of src/tcp_server.cpp.
use lloms.Base.{
  List, ℕ, ◌+◌, ◌-◌, ◌*◌, ◌^◌, ◌≡◌, ◌⊎◌, refl, Bool, true, ◌&&◌, Option, none, some, [], ◌∷◌, arith,
  ltb, leb, ◌==◌, if◌then◌else◌,
}
use lloms.Base.Text.{Text, bytes}
use lloms.Types.{sell, limit, is_limit}
use lloms.Matching.{admit}
use lloms.Protocol.{
  new, skip_blanks, next_token, split_loop, split_tokens, parse_side, parse_type, parse_num,
  parse_positive, parse_new, parse_tokens, parse_line, side_to_string, order_type_to_string,
}
use lloms.Protocol.Tokens.{IsLine, spaced, split_tokens-spaced}
use lloms.Protocol.Commands.{IsCommand, parse_line-IsCommand}
use lloms.Protocol.Roundtrip.{Spelling, new_words, order_of, parse_line-new, parse_line-admit}
use lloms.Gateway.{
  find_newline, strip_cr, take_lines, take_input, handle_client_read, would_block, reads,
}
use lloms.Gateway.Framing.{concat, reads-concat}

abbrev is_digit : ℕ → Bool
is_digit c = leb 48 c && leb c 57

-- The number of the digits that a text starts with, after `n` with `used` digits.
abbrev digits : ℕ → ℕ → Text → ℕ × ℕ
digits n used [] = (n, used)
digits n used (c ∷ s) =
    let rest = digits (n * 10 + (c - 48)) (used + 1) s in if is_digit c then rest else (n, used)

abbrev decimal : ℕ → Text → Option (ℕ × ℕ)
decimal bits t =
    let (n, used) = digits 0 0 t in
    if used == 0 then none else if ltb n (2 ^ bits) then some (n, used) else none

abbrev line : Text
line = bytes "NEW SELL 17  250 40 LIMIT"

tokens_of_line :
    split_tokens line
    ≡ bytes "NEW" ∷ bytes "SELL" ∷ bytes "17" ∷ bytes "250" ∷ bytes "40" ∷ bytes "LIMIT" ∷ []
unfolding split_tokens split_loop skip_blanks next_token
tokens_of_line = refl

-- An unknown sixth token is read as LIMIT.
odd_type :
    parse_type (bytes "NEW" ∷ bytes "BUY" ∷ bytes "1" ∷ bytes "2" ∷ bytes "3" ∷ bytes "FOO" ∷ [])
    ≡ limit
unfolding parse_type
odd_type = refl

abbrev spelling : Spelling
spelling = record {
  id_text = bytes "17";
  price_text = bytes "250";
  qty_text = bytes "40";
  gap0 = [];
  gap1 = bytes " ";
  gap2 = bytes " ";
  gap3 = bytes "  ";
  gap4 = bytes " ";
  gap5 = bytes " ";
  trail = bytes " ";
}

spelling-IsLine : IsLine (new_words sell limit spelling)
unfolding side_to_string order_type_to_string
spelling-IsLine = ground arith

split_tokens-spaced_example :
    split_tokens (spaced (([], bytes "FLUSH") ∷ []) (bytes " ")) ≡ bytes "FLUSH" ∷ []
split_tokens-spaced_example =
    split_tokens-spaced (([], bytes "FLUSH") ∷ []) (bytes " ") (ground arith) (ground arith)

parse_line-IsCommand_example : IsCommand 7 (parse_line decimal 7 line)
parse_line-IsCommand_example = parse_line-IsCommand decimal 7 line

parse_line-new_example :
    parse_line decimal 7 (spaced (new_words sell limit spelling) (bytes " "))
    ≡ record { type = new; order = order_of 7 sell limit 17 250 40; cancel_id = 0; error_msg = [] }
parse_line-new_example =
    parse_line-new decimal 7 sell limit spelling 17 250 40 refl refl refl (omega arith)
      (omega arith) spelling-IsLine (ground arith)

is_new : (parse_line decimal 7 line).type ≡ new
unfolding parse_line parse_tokens parse_new parse_side parse_positive parse_num split_tokens
    split_loop skip_blanks next_token
is_new = refl

refused : admit true (parse_line decimal 7 line).order ≡ none
unfolding admit parse_line parse_tokens parse_new parse_side parse_positive parse_num parse_type
    split_tokens split_loop skip_blanks next_token
refused = refl

parse_line-admit_example :
    (true ≡ true)
    ⊎ ((is_limit (parse_line decimal 7 line).order.type ≡ true)
        × ((parse_line decimal 7 line).order.price ≡ 0))
parse_line-admit_example = parse_line-admit decimal 7 line true is_new refused

abbrev cut : List Text
cut = bytes "CANC" ∷ bytes "EL 17\r" ∷ bytes "\nFLUSH\nNE" ∷ []

framed : reads [] cut ≡ some (bytes "CANCEL 17" ∷ bytes "FLUSH" ∷ [], bytes "NE")
unfolding reads handle_client_read take_input take_lines find_newline strip_cr
framed = refl

reads-concat_example : reads [] cut ≡ handle_client_read [] (concat cut) would_block
reads-concat_example = reads-concat cut [] tt
