-- ===== src/Stops/Queue.antt =====
-- backend/app/redis_client/stops.py: the range queries. A sorted set of Redis is an interface: what
-- it holds and ZRANGEBYSCORE, with the law that Redis documents.
use uvipystock.Prelude.{
  ℕ, ◌*◌, ◌≡◌, Bool, false, ◌&&◌, if◌then◌else◌, List, [], ◌∷◌, ◌++◌, Option, none, some, contains,
}
use uvipystock.Prelude.Int.{ℤ, pos, leb_ℤ}
use uvipystock.Redis.{score_multiplier}

-- The score lies in a closed range; no upper bound is `+inf`.
abbrev pub in_range : ℤ → Option ℤ → Option ℤ → Bool
in_range low high none = false
in_range low none (some s) = leb_ℤ low s
in_range low (some high) (some s) = leb_ℤ low s && leb_ℤ s high

pub record SortedSet : Type 1 where
  pub Members : Type 0
  pub score : Members → ℕ → Option ℤ
  pub range_by_score : Members → ℤ → Option ℤ → List ℕ
  pub range-contains :
      (z : Members) (low : ℤ) (high : Option ℤ) (m : ℕ)
      → contains m (range_by_score z low high) ≡ in_range low high (score z m)

abbrev pub price_score : ℕ → ℤ
price_score price = pos (price * score_multiplier)

-- The loop with the set `seen`: the first of each id, in order.
unfoldable pub dedup : List ℕ → List ℕ → List ℕ
dedup seen [] = []
dedup seen (m ∷ ms) =
    let again = dedup seen ms in
    let fresh = m ∷ dedup (m ∷ seen) ms in if contains m seen then again else fresh

module _ (S : SortedSet) where
  unfoldable pub get_triggered_sell_stops : S.Members → ℕ → List ℕ
  get_triggered_sell_stops z price = S.range_by_score z (price_score price) none

  unfoldable pub get_triggered_buy_stops : S.Members → ℕ → List ℕ
  get_triggered_buy_stops z price = S.range_by_score z (pos 0) (some (price_score price))

  -- `get_all_triggered_stops`, and `get_triggered_trailing_stops` on the other set.
  unfoldable pub get_all_triggered_stops : S.Members → ℕ → List ℕ
  unfolding dedup
  get_all_triggered_stops z price = dedup [] (
      S.range_by_score z (pos 0) (some (price_score price))
      ++ S.range_by_score z (price_score price) none)
