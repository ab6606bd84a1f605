-- ===== src/Types.antt =====
-- include/types.hpp: sides, orders and trades. The integers are native numbers: an id, a price or a
-- time is below 2 ^ 64 and a quantity below 2 ^ 32, and each sum of the code that can leave its width
-- is written with its wrap-around.
use lloms.Base.{ℕ, ◌^◌, Bool, ◌==◌}

abbrev pub u32_mod : ℕ
u32_mod = 2 ^ 32

abbrev pub u64_mod : ℕ
u64_mod = 2 ^ 64

pub data Side : Type 0 where
  buy sell : Side

pub data OrderType : Type 0 where
  limit market : OrderType

pub record Order : Type 0 where
  pub order_id : ℕ
  pub price : ℕ
  pub initial_quantity : ℕ
  pub remaining_quantity : ℕ
  pub timestamp : ℕ
  pub side : Side
  pub type : OrderType

pub record Trade : Type 0 where
  pub maker_order_id : ℕ
  pub taker_order_id : ℕ
  pub price : ℕ
  pub quantity : ℕ
  pub timestamp : ℕ
  pub aggressor_side : Side

abbrev pub is_filled : Order → Bool
is_filled o = o.remaining_quantity == 0

abbrev pub is_limit : OrderType → Bool
is_limit limit = Bool.true
is_limit market = Bool.false
