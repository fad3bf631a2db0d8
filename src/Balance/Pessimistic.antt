-- ===== src/Balance/Pessimistic.antt =====
-- backend/app/services/balance_service.py: the operations on a row that the caller has locked,
-- and the adjustment by an administrator (with admin_service.py's `credit_user` and `debit_user`).
use uvipystock.Prelude.{ℕ, zero, suc, ◌+◌, ◌-◌, ltb, if◌then◌else◌, Option, none, some}
use uvipystock.Prelude.Int.{ℤ, pos, negsuc, ◌+ℤ◌, ◌-ℤ◌}
use uvipystock.Model.Rows.{Balance}
use uvipystock.Redis.{Reason, trade_settled, trade_received, deposit}
use uvipystock.Exec.{Result, ok, err, Exec, raise, ◌>>◌, value_error, insufficient_balance}
use uvipystock.Balance.Repo.{
  put, get_or_create, check_invariant, lock_pessimistic, unlock_pessimistic, settle_pessimistic,
  credit_pessimistic,
}
use uvipystock.Balance.Service.{publish_balance_update, set_balances}

-- The row is changed and checked by the repository, written back, and then published.
abbrev pub apply_row : Result Balance → ℤ → Reason → Option ℕ → Exec (Unit {0})
apply_row (err e) change reason order_id w = (err e, w)
apply_row (ok b) change reason order_id w =
    publish_balance_update b.user_id b.asset change reason order_id
      (set_balances w (put b w.balances))

unfoldable pub lock_row_pessimistic : Balance → ℤ → Reason → Option ℕ → Exec (Unit {0})
lock_row_pessimistic b amount reason order_id =
    apply_row (lock_pessimistic b amount) (pos 0 -ℤ amount) reason order_id

unfoldable pub unlock_row_pessimistic : Balance → ℤ → Reason → Option ℕ → Exec (Unit {0})
unlock_row_pessimistic b amount reason order_id =
    apply_row (unlock_pessimistic b amount) amount reason order_id

unfoldable pub settle_row_pessimistic : Balance → ℤ → Reason → Option ℕ → Exec (Unit {0})
settle_row_pessimistic b amount reason order_id =
    apply_row (settle_pessimistic b amount) (pos 0) reason order_id

unfoldable pub credit_row_pessimistic : Balance → ℤ → Reason → Option ℕ → Exec (Unit {0})
credit_row_pessimistic b amount reason order_id =
    apply_row (credit_pessimistic b amount) amount reason order_id

-- `settle_trade_pessimistic`: both rows change before either event is sent.
unfoldable pub settle_trade_pessimistic : Balance → Balance → ℤ → ℕ → ℕ → Exec (Unit {0})
settle_trade_pessimistic taker maker amount taker_order_id maker_order_id w =
    elim (settle_pessimistic taker amount) [
      | err e ↦ (err e, w)
      | ok taker' ↦ elim (credit_pessimistic maker amount) [
        | err e ↦ (err e, w)
        | ok maker' ↦
            (publish_balance_update taker'.user_id taker'.asset (pos 0) trade_settled
                  (some taker_order_id)
                >> publish_balance_update maker'.user_id maker'.asset amount trade_received
                    (some maker_order_id))
              (set_balances w (put maker' (put taker' w.balances)))
      ]
    ]

abbrev pub adjust_row : ℤ → Balance → Result Balance
adjust_row (pos d) b = check_invariant (record b {
  total_balance = b.total_balance +ℤ pos d;
  available_balance = b.available_balance + d;
  version = b.version + 1;
})
adjust_row (negsuc d) b =
    if ltb b.available_balance (suc d)
    then err insufficient_balance
    else check_invariant (record b {
      total_balance = b.total_balance -ℤ pos (suc d);
      available_balance = b.available_balance - suc d;
      version = b.version + 1;
    })

-- The row is created if it is missing, as `get_or_create` does.
unfoldable pub admin_adjust : ℕ → ℕ → ℤ → Reason → Exec (Unit {0})
admin_adjust user_id asset delta reason w =
    let (b, bs) = get_or_create w.balances user_id asset in
    apply_row (adjust_row delta b) delta reason none (set_balances w bs)

-- `AdminService.credit_user` and `debit_user`. `admin_adjust` publishes any reason but
-- "admin_adjustment" as a deposit.
unfoldable pub credit_user : ℕ → ℕ → ℤ → Exec (Unit {0})
credit_user user_id asset (negsuc _) = raise value_error
credit_user user_id asset (pos zero) = raise value_error
credit_user user_id asset (pos (suc a)) = admin_adjust user_id asset (pos (suc a)) deposit

unfoldable pub debit_user : ℕ → ℕ → ℤ → Exec (Unit {0})
debit_user user_id asset (negsuc _) = raise value_error
debit_user user_id asset (pos zero) = raise value_error
debit_user user_id asset (pos (suc a)) = admin_adjust user_id asset (negsuc a) deposit
