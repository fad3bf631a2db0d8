-- ===== src/Worker/Effects.antt =====
-- backend/app/matching/worker.py: the refund of what a market buy has left over.
use uvipystock.Prelude.{ltb, ◌≡◌, refl, arith, if◌then◌else◌, some, Bool-cases, inl, inr}
use uvipystock.Prelude.Int.{pos}
use uvipystock.Model.{World, pair_by_symbol}
use uvipystock.Model.Rows.{Balance, TradingPair}
use uvipystock.Redis.{OrderActionPayload}
use uvipystock.Exec.{ok, transaction}
use uvipystock.Balance.Repo.{get_by_user_asset, put, unlock_row, unlock_pessimistic}
use uvipystock.Balance.Pessimistic.{unlock_row_pessimistic}
use uvipystock.Balance.Service.{publish_balance_update}
use uvipystock.Balance.Laws.{IsBalanced}
use uvipystock.Worker.Place.{refund_market_buy_leftover}

unlock_all-ok :
    (b : Balance)
    → IsBalanced b
    → unlock_pessimistic b (pos b.locked_balance) ≡ ok (unlock_row b.locked_balance b)
unfolding unlock_pessimistic
unlock_all-ok b h = ground arith

-- The quote row that a refund finds, of a user whose row is balanced, has nothing locked after the
-- refund: what other open orders of the user have locked is released too.
pub refund_unlocks_all :
    (p : OrderActionPayload) (pair : TradingPair) (b : Balance) (w : World)
    → pair_by_symbol w.pairs p.symbol ≡ some pair
    → get_by_user_asset w.balances p.user_id pair.quote_asset ≡ some b
    → IsBalanced b
    → ((refund_market_buy_leftover p w).0 ≡ ok tt)
      × ((refund_market_buy_leftover p w).1.balances ≡ (
          if ltb 0 b.locked_balance
          then put (unlock_row b.locked_balance b) w.balances
          else w.balances))
unfolding refund_market_buy_leftover transaction unlock_row_pessimistic publish_balance_update
refund_unlocks_all p pair b w hp hb bal = elim (Bool-cases (ltb 0 b.locked_balance)) [
  | inl e ↦ rw (hp, hb, e) (rw (unlock_all-ok b bal) (refl, refl))
  | inr e ↦ rw (hp, hb, e) (refl, refl)
]
