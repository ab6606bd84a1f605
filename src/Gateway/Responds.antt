-- ===== src/Gateway/Responds.antt =====
-- execute_command of src/tcp_server.cpp has an answer for every command: where submit_order accepts a limit
-- order and makes no trade, get_order finds the order.
use lloms.Base.{
  ℕ, ◌<◌, ◌≡◌, ◌≢◌, refl, sym, ap, ◌∙◌, inl, inr, Bool, true, false, none, some, List, [], ◌∷◌,
  ◌++◌, arith, is_nil, Option-cases,
}
use lloms.Base.SortedMap
use lloms.Base.Text.{Text}
use lloms.Types.{Side, buy, sell, Order, is_limit}
use lloms.Matching.{admit, rests}
use lloms.Spec
use lloms.Spec.Valid
use lloms.Spec.Valid.{IsSide}
use lloms.Protocol.{unknown}
use lloms.Pool.{Book}
use lloms.Pool.Orders.{submit_order}
use lloms.Pool.Allot.{HasRoom}
use lloms.Pool.Represent.{Represents, count_orders, submit_order-Follows}
use lloms.Pool.Queries.{find_in, find_level, find_order, get_order-Represents}
use lloms.Gateway.Execute.{IngressMessage, ResponseMessage, execute_command}
use lloms.Gateway.Answers.{is_open, IsSilent, execute_command-answers}

-- A taker with something left that makes no trade changes nothing.
sweep_quiet :
    (taker side : Side) (ls : Spec.Levels) (o : Order)
    → IsSide side ls
    → 0 < o.remaining_quantity
    → is_nil (Spec.sweep taker ls o).trades ≡ true
    → Spec.sweep taker ls o ≡ record { levels = ls; incoming = o; trades = [] }
unfolding Spec.sweep Spec.fill
sweep_quiet taker side [] o v pos h = refl
sweep_quiet taker side ((p, []) ∷ ls) o v pos h = absurd (cc v.0.filled)
sweep_quiet taker side ((p, m ∷ q) ∷ ls) o v pos h = ground (arith, pos, h)

find_in-append :
    (o : Order) (q : List Order)
    → Spec.contains o.order_id q ≡ false
    → find_in o.order_id (q ++ o ∷ []) ≡ some o
unfolding Spec.contains
find_in-append o [] h = ground arith
find_in-append o (m ∷ q) h = ground (arith, h, find_in-append o q)

find_in-none : (id : ℕ) (q : List Order) → Spec.contains id q ≡ false → find_in id q ≡ none
unfolding Spec.contains
find_in-none id [] h = refl
find_in-none id (m ∷ q) h = ground (arith, h, find_in-none id q)

find_level-none :
    (id : ℕ) (ls : Spec.Levels) → Spec.contains_level id ls ≡ false → find_level id ls ≡ none
unfolding Spec.contains_level
find_level-none id [] h = refl
find_level-none id ((p, q) ∷ ls) h = ground (arith, h, find_in-none id q, find_level-none id ls)

find_level-enqueue :
    (side : Side) (o : Order) (ls : Spec.Levels)
    → Spec.contains_level o.order_id ls ≡ false
    → find_level o.order_id (Spec.enqueue side o ls) ≡ some o
unfolding Spec.contains_level SortedMap.update
find_level-enqueue side o [] h = ground arith
find_level-enqueue side o ((p, q) ∷ ls) h =
    ground (arith, h, find_in-append o q, find_in-none o.order_id q, find_level-enqueue side o ls)

record Admitted (known : Bool) (o o' : Order) : Type 0 where
  new : known ≡ false
  some_left : 0 < o'.remaining_quantity
  same_type : o'.type ≡ o.type
  same_id : o'.order_id ≡ o.order_id

admit-Admitted : (known : Bool) (o o' : Order) → admit known o ≡ some o' → Admitted known o o'
unfolding admit
admit-Admitted known o o' e = record {
  new = ground (arith, e);
  some_left = ground (arith, e);
  same_type = ground (arith, e);
  same_id = ground (arith, e);
}

-- In the abstract book after a submission of a limit order that makes no trade, the order is found.
module _ (v : Spec.Book) (o : Order) (sound : Valid.IsValid v) where
  rested-is_open :
      (side : Side) (o' : Order)
      → Spec.has_order o.order_id v ≡ false
      → o'.order_id ≡ o.order_id
      → 0 < o'.remaining_quantity
      → is_limit o'.type ≡ true
      → is_nil (Spec.submit_admitted side v o').trades ≡ true
      → is_open (find_order o.order_id (Spec.submit_admitted side v o').book) ≡ true
  unfolding Spec.submit_admitted Spec.rest_order Spec.has_order
  rested-is_open buy o' new id pos lim quiet =
      let same = sweep_quiet buy sell v.asks o' sound.asks pos quiet in
      let stays : rests o' ≡ true = ground (arith, pos, lim) in
      let found = find_level-enqueue buy o' v.bids (rw id (ground (arith, new))) in
      rw (same, stays, ← id, found) (ground (arith, pos))
  rested-is_open sell o' new id pos lim quiet =
      let same = sweep_quiet sell buy v.bids o' sound.bids pos quiet in
      let stays : rests o' ≡ true = ground (arith, pos, lim) in
      let found = find_level-enqueue sell o' v.asks (rw id (ground (arith, new))) in
      let absent = find_level-none o'.order_id v.bids (rw id (ground (arith, new))) in
      rw (same, stays, ← id, absent, found) (ground (arith, pos))

  submit-is_open :
      (Spec.submit v o).accepted ≡ true
      → is_nil (Spec.submit v o).trades ≡ true
      → is_limit o.type ≡ true
      → is_open (find_order o.order_id (Spec.submit v o).book) ≡ true
  unfolding Spec.submit
  submit-is_open accepted quiet lim = elim (Option-cases (admit (Spec.has_order o.order_id v) o)) [
    | inl e ↦ absurd (cc (rw (e, Spec.submit) at accepted))
    | inr (o', e) ↦
        let a = admit-Admitted (Spec.has_order o.order_id v) o o' e in
        rw (e, Spec.submit)
          (rested-is_open o.side o' a.new a.same_id a.some_left (ap is_limit a.same_type ∙ lim)
            (rw (e, Spec.submit) at quiet))
  ]

not_silent :
    (b : Book) (v : Spec.Book) (o : Order)
    → Represents b v
    → HasRoom (count_orders v)
    → IsSilent b o
    → true ≡ false
not_silent b v o r room silent =
    let f = submit_order-Follows b v o [] r room in
    let found =
      (get_order-Represents (submit_order b o []).book (Spec.submit v o).book o.order_id
        f.book).1 in
    let open_there =
      submit-is_open v o r.sound (sym f.accepted ∙ silent.accepted)
        (ap is_nil (sym f.trades) ∙ silent.no_trades) silent.limited in
    sym open_there ∙ ap is_open (sym found) ∙ silent.gone

-- On a pool book that stands for an abstract book with room to double, every command of a known type gets a
-- response, to its client, with its sequence number and a payload that is not empty.
pub execute_command-responds :
    (to_string : ℕ → Text) (b : Book) (v : Spec.Book) (msg : IngressMessage)
    → Represents b v
    → HasRoom (count_orders v)
    → msg.command.type ≢ unknown
    → (resp : ResponseMessage) × ((execute_command to_string b msg).1 ≡ some resp)
      × (resp.client_fd ≡ msg.client_fd)
      × (resp.sequence ≡ msg.sequence)
      × (is_nil resp.payload ≡ false)
execute_command-responds to_string b v msg r room known =
    elim (execute_command-answers to_string b msg known) [
      | inl answered ↦ answered
      | inr (_, silent) ↦ absurd (cc (not_silent b v msg.command.order r room silent))
    ]
