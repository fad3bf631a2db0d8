-- ===== src/Tests/Balances.antt =====
-- The balance service on two users' rows.
use uvipystock.Prelude.{◌≡◌, refl, [], ◌∷◌, none, some}
use uvipystock.Prelude.Int.{pos}
use uvipystock.Model.{World}
use uvipystock.Model.Rows.{Balance}
use uvipystock.Redis.{order_placed}
use uvipystock.Exec.{ok}
use uvipystock.Balance.Repo.{get_by_user_asset, get_or_create, optimistic_lock}
use uvipystock.Balance.Service.{
  quiet, publish_balance_update, lock_optimistic, unlock_optimistic, settle_optimistic,
  credit_optimistic,
}
use uvipystock.Balance.Laws.{IsSound}
use uvipystock.Balance.Invariant.{optimistic-IsSound}
use uvipystock.Balance.Effects.{Took, lock_optimistic-Took}

abbrev pub taker_row : Balance
taker_row = record {
  user_id = 1;
  asset = 7;
  total_balance = pos 100;
  locked_balance = 40;
  available_balance = 60;
  version = 3;
}

abbrev pub maker_row : Balance
maker_row = record {
  user_id = 2;
  asset = 7;
  total_balance = pos 10;
  locked_balance = 0;
  available_balance = 10;
  version = 1;
}

abbrev pub two_rows : World
two_rows = record {
  balances = taker_row ∷ maker_row ∷ [];
  orders = [];
  pairs = [];
  trades = [];
  next_order_id = 1;
  commands = [];
}

optimistic-IsSound_example :
    IsSound (lock_optimistic quiet 1 7 (pos 50) order_placed none two_rows).1.balances
    × IsSound (unlock_optimistic quiet 1 7 (pos 50) order_placed none two_rows).1.balances
    × IsSound (settle_optimistic quiet 1 7 (pos 50) order_placed none two_rows).1.balances
    × IsSound (credit_optimistic quiet 1 7 (pos 50) order_placed none two_rows).1.balances
optimistic-IsSound_example =
    optimistic-IsSound quiet (λ n bs h. h) 1 7 (pos 50) order_placed none two_rows
      (refl, (refl, tt))

lock_returns : (lock_optimistic quiet 1 7 (pos 50) order_placed none two_rows).0 ≡ ok tt
unfolding lock_optimistic get_or_create get_by_user_asset optimistic_lock publish_balance_update
lock_returns = refl

lock_optimistic-Took_example :
    Took quiet 1 7 50 (lock_optimistic quiet 1 7 (pos 50) order_placed none two_rows).1.balances
lock_optimistic-Took_example =
    lock_optimistic-Took quiet 1 7 49 order_placed none two_rows lock_returns

row_found : get_by_user_asset two_rows.balances 1 7 ≡ some taker_row
unfolding get_by_user_asset
row_found = refl

maker_found : get_by_user_asset two_rows.balances 2 7 ≡ some maker_row
unfolding get_by_user_asset
maker_found = refl
