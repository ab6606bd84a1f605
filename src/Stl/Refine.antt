-- ===== src/Stl/Refine.antt =====
-- submit_order of src/stl_order_book.cpp is `Spec.submit` on the abstract book, and keeps the
-- invariant.
use lloms.Base.{
  ◌+◌, ◌≡◌, refl, sym, ap, ◌∙◌, inl, inr, Bool, none, some, List, ◌++◌, arith, length, Option-cases,
  append-nil,
}
use lloms.Base.Dict.{lookup}
use lloms.Base.Keys.{Indexed-swap}
use lloms.Types.{Side, buy, sell, Order, Trade}
use lloms.Matching.{admit}
use lloms.Spec
use lloms.Spec.Keeps
use lloms.Spec.Valid.{sweep-SameButRest}
use lloms.Stl.{Book, Submitted, known, match_buy, match_sell, submit_admitted, submit_order}
use lloms.Stl.Loops.{view_levels, match_levels-sweep, Sweeps}
use lloms.Stl.Index.{
  places, homes, Addressed-swap, match_levels-Indexed, match_levels-Addressed, match_levels-absent,
}
use lloms.Stl.Valid.{view, IsValid, known-has_order}
use lloms.Stl.PushBack.{IsTidy, rest_order-view, rest_order-IsTidy}

-- A submission does to the book what the abstract one does, and appends the same trades.
pub record Refines (out : List Trade) (r : Submitted) (s : Spec.Submitted) : Type 0 where
  pub accepted : r.accepted ≡ s.accepted
  pub book : view r.book ≡ s.book
  pub trades : r.trades ≡ out ++ s.trades

module _ (b : Book) (o : Order) (out : List Trade) where
  buy-Sweeps : Sweeps out (match_buy b o out) (Spec.sweep buy (view_levels b.asks) o)
  unfolding match_buy
  buy-Sweeps = match_levels-sweep buy (length b.asks + 2) b.asks o b.order_index out (omega arith)

  submit_buy-Refines :
      Refines out (submit_admitted buy b o out) (Spec.submit_admitted buy (view b) o)
  unfolding submit_admitted Spec.submit_admitted
  submit_buy-Refines =
      let m = match_buy b o out in
      record {
        accepted = refl;
        book =
            rest_order-view buy m.incoming (record b { asks = m.levels; order_index = m.index })
            ∙ rw (buy-Sweeps.incoming, buy-Sweeps.levels);
        trades = buy-Sweeps.trades;
      }

  submit_buy-IsTidy :
      lookup o.order_id b.order_index ≡ none → IsTidy b → IsTidy (submit_admitted buy b o out).book
  unfolding submit_admitted
  submit_buy-IsTidy new t =
      let m = match_buy b o out in
      rest_order-IsTidy buy m.incoming (record b { asks = m.levels; order_index = m.index })
        (unfold match_buy in
          rw
            (ap (λ (o : Order). o.order_id)
              (buy-Sweeps.incoming ∙ sweep-SameButRest buy (view_levels b.asks) o))
            (match_levels-absent buy o.order_id (length b.asks + 2) b.asks o b.order_index out new))
        (record {
          indexed =
              unfold match_buy in
              Indexed-swap (places sell m.levels) (places buy b.bids) (
                match_levels-Indexed buy sell (length b.asks + 2) b.asks o b.order_index
                  (places buy b.bids) out
                  (Indexed-swap (places buy b.bids) (places sell b.asks) t.indexed));
          addressed =
              unfold match_buy in
              Addressed-swap b.next_node (homes m.levels) (homes b.bids) (
                match_levels-Addressed buy b.next_node (length b.asks + 2) b.asks o b.order_index
                  (homes b.bids) out
                  (Addressed-swap b.next_node (homes b.bids) (homes b.asks) t.addressed));
        })

  sell-Sweeps : Sweeps out (match_sell b o out) (Spec.sweep sell (view_levels b.bids) o)
  unfolding match_sell
  sell-Sweeps = match_levels-sweep sell (length b.bids + 2) b.bids o b.order_index out (omega arith)

  submit_sell-Refines :
      Refines out (submit_admitted sell b o out) (Spec.submit_admitted sell (view b) o)
  unfolding submit_admitted Spec.submit_admitted
  submit_sell-Refines =
      let m = match_sell b o out in
      record {
        accepted = refl;
        book =
            rest_order-view sell m.incoming (record b { bids = m.levels; order_index = m.index })
            ∙ rw (sell-Sweeps.incoming, sell-Sweeps.levels);
        trades = sell-Sweeps.trades;
      }

  submit_sell-IsTidy :
      lookup o.order_id b.order_index ≡ none → IsTidy b → IsTidy (submit_admitted sell b o out).book
  unfolding submit_admitted
  submit_sell-IsTidy new t =
      let m = match_sell b o out in
      rest_order-IsTidy sell m.incoming (record b { bids = m.levels; order_index = m.index })
        (unfold match_sell in
          rw
            (ap (λ (o : Order). o.order_id)
              (sell-Sweeps.incoming ∙ sweep-SameButRest sell (view_levels b.bids) o))
            (match_levels-absent sell o.order_id (length b.bids + 2) b.bids o b.order_index out
              new))
        (record {
          indexed =
              unfold match_sell in
              match_levels-Indexed sell buy (length b.bids + 2) b.bids o b.order_index
                (places sell b.asks) out t.indexed;
          addressed =
              unfold match_sell in
              match_levels-Addressed sell b.next_node (length b.bids + 2) b.bids o b.order_index
                (homes b.asks) out t.addressed;
        })

-- What `admit` lets through has a new id, and keeps its id and side.
pub admit-some :
    (b : Book) (o o' : Order)
    → admit (known b o.order_id) o ≡ some o'
    → (lookup o'.order_id b.order_index ≡ none) × (o'.side ≡ o.side)
unfolding admit
admit-some b o o' e = ground (arith, e)

pub submit_admitted-Refines :
    (side : Side) (b : Book) (o : Order) (out : List Trade)
    → Refines out (submit_admitted side b o out) (Spec.submit_admitted side (view b) o)
submit_admitted-Refines buy = submit_buy-Refines
submit_admitted-Refines sell = submit_sell-Refines

submit_admitted-IsTidy :
    (side : Side) (b : Book) (o : Order) (out : List Trade)
    → lookup o.order_id b.order_index ≡ none
    → IsTidy b
    → IsTidy (submit_admitted side b o out).book
submit_admitted-IsTidy buy = submit_buy-IsTidy
submit_admitted-IsTidy sell = submit_sell-IsTidy

-- On a valid book submit_order accepts what the abstract book accepts, leaves the book that it
-- leaves, and appends the trades that it makes.
pub submit_order-Refines :
    (b : Book) (o : Order) (out : List Trade)
    → IsValid b
    → Refines out (submit_order b o out) (Spec.submit (view b) o)
unfolding submit_order Spec.submit
submit_order-Refines b o out v =
    let same = ap (λ (k : Bool). admit k o) (sym (known-has_order b o.order_id v)) in
    elim (Option-cases (admit (known b o.order_id) o)) [
      | inl e ↦
          rw (e, submit_order, same ∙ e, Spec.submit)
            (record { accepted = refl; book = refl; trades = rw append-nil })
      | inr (o', e) ↦
          rw (e, submit_order, same ∙ e, Spec.submit) (submit_admitted-Refines o.side b o' out)
    ]

submit_order-IsTidy :
    (b : Book) (o : Order) (out : List Trade) → IsTidy b → IsTidy (submit_order b o out).book
unfolding submit_order
submit_order-IsTidy b o out t = elim (Option-cases (admit (known b o.order_id) o)) [
  | inl e ↦ rw (e, submit_order) t
  | inr (o', e) ↦
      rw (e, submit_order) (submit_admitted-IsTidy o.side b o' out (admit-some b o o' e).0 t)
]

-- submit_order keeps the invariant of a book: on a valid book its result is valid, on every branch.
pub submit_order-IsValid :
    (b : Book) (o : Order) (out : List Trade) → IsValid b → IsValid (submit_order b o out).book
submit_order-IsValid b o out v =
    let t = submit_order-IsTidy b o out (record { indexed = v.indexed; addressed = v.addressed }) in
    record {
      indexed = t.indexed;
      addressed = t.addressed;
      sound = rw (submit_order-Refines b o out v).book (Keeps.submit-IsValid (view b) o v.sound);
    }
