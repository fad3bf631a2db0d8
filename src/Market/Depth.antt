-- ===== src/Market/Depth.antt =====
-- backend/app/redis_client/orderbook.py: the best prices, the spread, and the levels of the book that
-- the front end shows. The members are those that ZRANGE or ZREVRANGE returned.
use uvipystock.Prelude.{
  ℕ, ◌+◌, ◌==◌, ltb, Bool, true, false, if◌then◌else◌, List, [], ◌∷◌, Option, none, some,
}
use uvipystock.Prelude.Int.{ℤ, pos, ◌-ℤ◌}
use uvipystock.Redis.Score.{decode_score}
use uvipystock.Worker.Book.{Member, Fields, or_default}

-- `get_best_bid` and `get_best_ask`: the price and the order of the first member.
unfoldable pub get_best : List Member → Option (ℕ × ℕ)
unfolding decode_score
get_best [] = none
get_best (r ∷ rs) = some ((decode_score r.score).0, r.order_id)

abbrev price_of : Option (ℕ × ℕ) → Option ℕ
price_of none = none
price_of (some best) = some best.0

abbrev spread_of : Option ℕ → Option ℕ → Option ℤ
spread_of none ask = none
spread_of (some bid) none = none
spread_of (some bid) (some ask) = some (pos ask -ℤ pos bid)

-- `get_spread`
unfoldable pub get_spread : List Member → List Member → Option ℕ × Option ℕ × Option ℤ
unfolding get_best
get_spread bids asks =
    let bid = price_of (get_best bids) in
    let ask = price_of (get_best asks) in (bid, ask, spread_of bid ask)

pub record Level : Type 0 where
  pub price : ℕ
  pub volume : ℕ

-- `levels[price] = levels.get(price, 0.0) + qty`
unfoldable pub add_level : ℕ → ℕ → List Level → List Level
add_level price qty [] = record { price = price; volume = qty } ∷ []
add_level price qty (l ∷ ls) =
    if l.price == price
    then record l { volume = l.volume + qty } ∷ ls
    else l ∷ add_level price qty ls

-- What an order shows: its visible quantity where that is written, its quantity otherwise.
abbrev pub shown : Fields → ℕ
shown h = or_default h.visible_quantity (or_default h.quantity 0)

abbrev pub add_member : Member → Option Fields → List Level → List Level
add_member r none ls = ls
add_member r (some h) ls = add_level (decode_score r.score).0 (shown h) ls

-- The loop of `_aggregate`.
unfoldable pub add_members : (ℕ → Option Fields) → List Member → List Level → List Level
unfolding add_level decode_score
add_members hashes [] ls = ls
add_members hashes (r ∷ rs) ls = add_members hashes rs (add_member r (hashes r.order_id) ls)

-- `sorted`, by the price; `descending` is its `reverse`.
abbrev pub comes_first : Bool → ℕ → ℕ → Bool
comes_first true a b = ltb b a
comes_first false a b = ltb a b

unfoldable pub insert_level : Bool → Level → List Level → List Level
insert_level descending l [] = l ∷ []
insert_level descending l (m ∷ ms) =
    if comes_first descending l.price m.price then l ∷ m ∷ ms else m ∷ insert_level descending l ms

unfoldable pub sort_levels : Bool → List Level → List Level
unfolding insert_level
sort_levels descending [] = []
sort_levels descending (l ∷ ls) = insert_level descending l (sort_levels descending ls)

-- One side of `get_book_snapshot`.
unfoldable pub aggregate_side : (ℕ → Option Fields) → Bool → List Member → List Level
unfolding add_members sort_levels
aggregate_side hashes descending raw = sort_levels descending (add_members hashes raw [])
