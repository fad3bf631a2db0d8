-- ===== src/Worker/Bridge.antt =====
-- backend/app/matching/_bridge.py: from the queue's item to the matcher's order, and back. Python's
-- conversions between integers, decimals and doubles are an interface.
use uvipystock.Prelude.{
  ℕ, ◌==◌, ◌≤◌, ◌<◌, ◌≡◌, Bool, true, false, not, ◌&&◌, ◌||◌, if◌then◌else◌, Option, none, some,
}
use mathlib.Core.Option
use uvipystock.Enums.{OrderType}
use uvipystock.Redis.{OrderActionPayload}
use uvipystock.Exec.{Result, ok, err, value_error}
use uvipystock.Orders.Place.{or_none}
use uvipystock.Engine.Match.{CType, Outcome, Taker, fok_rejected, post_only_cross, no_liquidity}
use uvipystock.Engine.Double.{fadd}
use uvipystock.Engine.Match
use uvipystock.Trade.Fills.{MatchTrade}
use uvipystock.Orders.Validate.{MakerOrder}

-- `float(d)` of a decimal, `Decimal(str(x))` of a double at the scale of the columns, the conversion
-- of an integer, and `math.isclose` with rel_tol=1e-9 and abs_tol=1e-12. A conversion to the nearest
-- double keeps zero, the sign and the order.
pub record Floats : Type 0 where
  pub to_double : ℕ → ℕ
  pub decimal_to_double : ℕ → ℕ
  pub double_to_decimal : ℕ → ℕ
  pub is_close : ℕ → ℕ → Bool
  pub double-zero : decimal_to_double 0 ≡ 0
  pub double-pos : (d : ℕ) → 0 < d → 0 < decimal_to_double d
  pub double-le : (c d : ℕ) → c ≤ d → decimal_to_double c ≤ decimal_to_double d

-- `to_c_type`
unfoldable pub to_c_type : OrderType → CType
to_c_type OrderType.market = CType.market
to_c_type OrderType.limit = CType.limit
to_c_type OrderType.ioc = CType.ioc
to_c_type OrderType.fok = CType.fok
to_c_type OrderType.post_only = CType.post_only
to_c_type OrderType.iceberg = CType.limit
to_c_type OrderType.stop_market = CType.market
to_c_type OrderType.stop_limit = CType.limit
to_c_type OrderType.trailing_stop = CType.market

-- A part that is missing is NaN, which fails the comparison with the quantity.
unfoldable pub good_parts : Floats → Option ℕ → Option ℕ → ℕ → Bool
good_parts F none hidden quantity = false
good_parts F (some visible) none quantity = false
good_parts F (some visible) (some hidden) quantity =
    let v = F.decimal_to_double visible in
    let total = fadd v (F.decimal_to_double hidden) in
    not (v == 0) && (total == quantity || F.is_close total quantity)

-- `build_corder`; ValueError for a quantity of zero and for an iceberg whose parts do not fit.
unfoldable pub build_corder : Floats → OrderActionPayload → Result Taker
unfolding to_c_type good_parts
build_corder F p =
    let quantity = F.decimal_to_double p.quantity in
    if quantity == 0
    then err value_error
    else if p.is_iceberg && not (good_parts F p.visible_qty p.hidden_qty quantity)
    then err value_error
    else ok (record {
      order_id = p.order_id;
      side = p.side;
      type = to_c_type p.type;
      price = Option.map F.decimal_to_double p.price;
      quantity = quantity;
    })

-- What the worker reads of a maker are doubles: `float` of the fields of its HASH, and the price of
-- its score.
abbrev pub as_doubles : Floats → MakerOrder → MakerOrder
as_doubles F m = record m {
  price = F.decimal_to_double m.price;
  quantity = F.decimal_to_double m.quantity;
  visible_quantity = F.decimal_to_double m.visible_quantity;
  hidden_quantity = F.decimal_to_double m.hidden_quantity;
}

-- `is_outcome_reject`
abbrev pub is_outcome_reject : Outcome → Bool
is_outcome_reject Outcome.ok = false
is_outcome_reject fok_rejected = true
is_outcome_reject post_only_cross = true
is_outcome_reject no_liquidity = true

-- `trade_dict_to_domain`, with the maker's user that the worker adds. The symbol and the side are
-- those of the batch.
unfoldable pub trade_dict_to_domain : Floats → (ℕ → ℕ) → Match.Fill → MatchTrade
trade_dict_to_domain F maker_user f = record {
  maker_order_id = f.maker_order_id;
  price = F.double_to_decimal f.price;
  quantity = F.double_to_decimal f.quantity;
  maker_user_id = maker_user f.maker_order_id;
}

-- `OrderActionPayload.from_dict`: outside the price a zero is read as a missing value.
unfoldable pub from_dict : OrderActionPayload → OrderActionPayload
from_dict d = record d {
  stop_price = or_none d.stop_price;
  visible_qty = or_none d.visible_qty;
  hidden_qty = or_none d.hidden_qty;
  parent_order_id = or_none d.parent_order_id;
  replaces_id = or_none d.replaces_id;
}
