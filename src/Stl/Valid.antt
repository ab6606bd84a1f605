-- ===== src/Stl/Valid.antt =====
-- The invariant of StlOrderBook (src/stl_order_book.cpp): the index gives each order's place, and no
-- other id; the nodes of the lists have distinct addresses; and the book without both is a valid one.
use lloms.Base.{◌++◌, ◌≡◌, ℕ}
use lloms.Base.Keys.{Indexed, lookup-append, is_some-or_else}
use lloms.Types.{buy, sell}
use lloms.Spec
use lloms.Spec.Valid
use lloms.Stl.{Book, known}
use lloms.Stl.Loops.{view_levels}
use lloms.Stl.Index.{places, homes, Addressed, is_some-places}

-- The abstract book that it stands for.
abbrev pub view : Book → Spec.Book
view b = record { bids = view_levels b.bids; asks = view_levels b.asks }

pub record IsValid (b : Book) : Type 0 where
  pub indexed : Indexed b.order_index (places buy b.bids ++ places sell b.asks)
  pub addressed : Addressed b.next_node (homes b.bids ++ homes b.asks)
  pub sound : Valid.IsValid (view b)

-- The index knows the ids of the orders in the book, and only these.
pub Indexed-has_order :
    (b : Book) (id : ℕ)
    → Indexed b.order_index (places buy b.bids ++ places sell b.asks)
    → known b id ≡ Spec.has_order id (view b)
unfolding Spec.has_order
Indexed-has_order b id h = rw (
  h.agree id,
  lookup-append id (places buy b.bids) (places sell b.asks),
  is_some-or_else,
  is_some-places buy id b.bids,
  is_some-places sell id b.asks,
)

pub known-has_order : (b : Book) (id : ℕ) → IsValid b → known b id ≡ Spec.has_order id (view b)
known-has_order b id v = Indexed-has_order b id v.indexed
