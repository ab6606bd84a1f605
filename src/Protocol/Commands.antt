-- ===== src/Protocol/Commands.antt =====
-- What parse_line of src/protocol.cpp accepts, and what it makes of a printed command.
use lloms.Base.{
  ℕ, ◌<◌, ◌≡◌, refl, inl, inr, false, Option, some, List, [], ◌∷◌, arith, is_nil, length, ltb,
  get_or, Option-cases, Bool-cases,
}
use lloms.Base.Text.{Text, bytes, same}
use lloms.Protocol.{
  new, cancel, flush, unknown, ParsedCommand, parse_side, parse_num, parse_positive, parse_new,
  parse_cancel, parse_tokens, parse_line, split_tokens,
}

-- What holds of a command of each type.
unfoldable pub IsCommand : ℕ → ParsedCommand → Type 0
IsCommand now c = elim c.type [
  | new ↦
      (0 < c.order.order_id)
      × (0 < c.order.initial_quantity)
      × (c.order.remaining_quantity ≡ c.order.initial_quantity)
      × (c.order.timestamp ≡ now)
  | cancel ↦ 0 < c.cancel_id
  | flush ↦ Unit {0}
  | unknown ↦ is_nil c.error_msg ≡ false
]

module _ (from_chars : ℕ → Text → Option (ℕ × ℕ)) (now : ℕ) where
  parse_positive-pos :
      (bits : ℕ) (t : Text) {n : ℕ} → parse_positive from_chars bits t ≡ some n → 0 < n
  unfolding parse_positive
  parse_positive-pos bits t {n} e = ground (arith, e)

  parse_new-IsCommand : (tokens : List Text) → IsCommand now (parse_new from_chars now tokens)
  unfolding parse_new IsCommand
  parse_new-IsCommand tokens = elim (Bool-cases (ltb (length tokens) 5)) [
    | inl e ↦ rw e refl
    | inr e ↦ elim (Option-cases (parse_side (get_or tokens 1 []))) [
      | inl e1 ↦ rw (e, e1) refl
      | inr (side, e1) ↦ elim (Option-cases (parse_positive from_chars 64 (get_or tokens 2 []))) [
        | inl e2 ↦ rw (e, e1, e2) refl
        | inr (oid, e2) ↦ elim (Option-cases (parse_num from_chars 64 (get_or tokens 3 []))) [
          | inl e3 ↦ rw (e, e1, e2, e3) refl
          | inr (price, e3) ↦
              elim (Option-cases (parse_positive from_chars 32 (get_or tokens 4 []))) [
                | inl e4 ↦ rw (e, e1, e2, e3, e4) refl
                | inr (qty, e4) ↦
                    rw (e, e1, e2, e3, e4)
                      (
                        parse_positive-pos 64 (get_or tokens 2 []) e2,
                        parse_positive-pos 32 (get_or tokens 4 []) e4,
                        refl,
                        refl,
                      )
              ]
        ]
      ]
    ]
  ]

  parse_cancel-IsCommand : (tokens : List Text) → IsCommand now (parse_cancel from_chars tokens)
  unfolding parse_cancel IsCommand
  parse_cancel-IsCommand tokens = elim (Bool-cases (ltb (length tokens) 2)) [
    | inl e ↦ rw e refl
    | inr e ↦ elim (Option-cases (parse_positive from_chars 64 (get_or tokens 1 []))) [
      | inl e1 ↦ rw (e, e1) refl
      | inr (oid, e1) ↦ rw (e, e1) (parse_positive-pos 64 (get_or tokens 1 []) e1)
    ]
  ]

  parse_tokens-IsCommand : (tokens : List Text) → IsCommand now (parse_tokens from_chars now tokens)
  unfolding parse_tokens
  parse_tokens-IsCommand [] = unfold IsCommand in refl
  parse_tokens-IsCommand (verb ∷ args) = elim (Bool-cases (same verb (bytes "NEW"))) [
    | inl e ↦ rw e (parse_new-IsCommand (verb ∷ args))
    | inr e ↦ elim (Bool-cases (same verb (bytes "CANCEL"))) [
      | inl e1 ↦ rw (e, e1) (parse_cancel-IsCommand (verb ∷ args))
      | inr e1 ↦ elim (Bool-cases (same verb (bytes "FLUSH"))) [
        | inl e2 ↦ rw (e, e1, e2) (unfold IsCommand in tt)
        | inr e2 ↦ rw (e, e1, e2) (unfold IsCommand in refl)
      ]
    ]
  ]

  -- Whatever the line: a new order has an id and a quantity that are not 0, all of the quantity remains,
  -- and its time is that of the clock; a cancellation names an id that is not 0; and a refusal has a
  -- message.
  pub parse_line-IsCommand : (line : Text) → IsCommand now (parse_line from_chars now line)
  unfolding parse_line
  parse_line-IsCommand line = parse_tokens-IsCommand (split_tokens line)
