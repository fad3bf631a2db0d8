-- ===== src/Balance/Service.antt =====
-- backend/app/services/balance_service.py. Between the read and the `UPDATE` of an optimistic
-- attempt, other transactions may commit: `others n` is what they do to the table in the attempt
-- that has `n` attempts after it.
use uvipystock.Prelude.{
  ℕ, zero, suc, ltb, Bool, true, false, if◌then◌else◌, List, [], ◌∷◌, Option, none, some,
}
use uvipystock.Prelude.Int.{ℤ, pos, negsuc, ◌-ℤ◌}
use uvipystock.Model.{World}
use uvipystock.Model.Rows.{Balance}
use uvipystock.Redis.{publish, balance_update, Reason}
use uvipystock.Exec.{err, Exec, raise, send, value_error, insufficient_balance, version_conflict}
use uvipystock.Balance.Repo.{
  get_by_user_asset, get_or_create, optimistic_lock, optimistic_unlock, optimistic_settle,
  optimistic_credit,
}

-- `MAX_OPTIMISTIC_RETRIES`
abbrev pub max_optimistic_retries : ℕ
max_optimistic_retries = 3

abbrev pub Others : Type 0
Others = ℕ → List Balance → List Balance

-- No other transaction commits in between.
abbrev pub quiet : Others
quiet n bs = bs

abbrev pub set_balances : World → List Balance → World
set_balances w bs = record w { balances = bs }

-- `_publish_balance_update`, which never fails the operation.
unfoldable pub publish_balance_update : ℕ → ℕ → ℤ → Reason → Option ℕ → Exec (Unit {0})
publish_balance_update user_id asset change reason order_id =
    send (publish (balance_update user_id asset change reason order_id) ∷ [])

abbrev neg : ℕ → ℤ
neg a = pos 0 -ℤ pos a

module _ (others : Others) (user_id asset : ℕ) where
  -- What follows one `UPDATE`: the event if it took, and the next attempt if not.
  abbrev pub after_update :
      Bool × List Balance → ℤ → Reason → Option ℕ → Exec (Unit {0}) → Exec (Unit {0})
  after_update (true, bs) change reason order_id retry w =
      publish_balance_update user_id asset change reason order_id (set_balances w bs)
  after_update (false, bs) change reason order_id retry w = retry (set_balances w bs)

  unfoldable pub lock_attempts : ℕ → ℕ → Reason → Option ℕ → Exec (Unit {0})
  lock_attempts zero amount reason order_id w = (err version_conflict, w)
  lock_attempts (suc n) amount reason order_id w =
      let (b, bs) = get_or_create w.balances user_id asset in
      let retry = lock_attempts n amount reason order_id in
      if ltb b.available_balance amount
      then (err insufficient_balance, set_balances w bs)
      else after_update (optimistic_lock (others n bs) user_id asset amount b.version) (neg amount)
          reason order_id retry (set_balances w bs)

  unfoldable pub lock_optimistic : ℤ → Reason → Option ℕ → Exec (Unit {0})
  unfolding lock_attempts
  lock_optimistic (negsuc _) reason order_id = raise value_error
  lock_optimistic (pos zero) reason order_id = raise value_error
  lock_optimistic (pos (suc a)) reason order_id =
      lock_attempts max_optimistic_retries (suc a) reason order_id

  unfoldable pub unlock_attempts : ℕ → ℕ → Reason → Option ℕ → Exec (Unit {0})
  unlock_attempts zero amount reason order_id w = (err version_conflict, w)
  unlock_attempts (suc n) amount reason order_id w =
      let retry = unlock_attempts n amount reason order_id in
      elim (get_by_user_asset w.balances user_id asset) [
        | none ↦ (err value_error, w)
        | some b ↦
            after_update (optimistic_unlock (others n w.balances) user_id asset amount b.version)
              (pos amount) reason order_id retry w
      ]

  unfoldable pub unlock_optimistic : ℤ → Reason → Option ℕ → Exec (Unit {0})
  unfolding unlock_attempts
  unlock_optimistic (negsuc _) reason order_id = raise value_error
  unlock_optimistic (pos zero) reason order_id = raise value_error
  unlock_optimistic (pos (suc a)) reason order_id =
      unlock_attempts max_optimistic_retries (suc a) reason order_id

  unfoldable pub settle_attempts : ℕ → ℕ → Reason → Option ℕ → Exec (Unit {0})
  settle_attempts zero amount reason order_id w = (err version_conflict, w)
  settle_attempts (suc n) amount reason order_id w =
      let retry = settle_attempts n amount reason order_id in
      elim (get_by_user_asset w.balances user_id asset) [
        | none ↦ (err value_error, w)
        | some b ↦
            after_update (optimistic_settle (others n w.balances) user_id asset amount b.version)
              (pos 0) reason order_id retry w
      ]

  unfoldable pub settle_optimistic : ℤ → Reason → Option ℕ → Exec (Unit {0})
  unfolding settle_attempts
  settle_optimistic (negsuc _) reason order_id = raise value_error
  settle_optimistic (pos zero) reason order_id = raise value_error
  settle_optimistic (pos (suc a)) reason order_id =
      settle_attempts max_optimistic_retries (suc a) reason order_id

  -- A missing row is created, and the attempt is spent on that.
  unfoldable pub credit_attempts : ℕ → ℕ → Reason → Option ℕ → Exec (Unit {0})
  credit_attempts zero amount reason order_id w = (err version_conflict, w)
  credit_attempts (suc n) amount reason order_id w =
      let retry = credit_attempts n amount reason order_id in
      elim (get_by_user_asset w.balances user_id asset) [
        | none ↦ retry (set_balances w (get_or_create w.balances user_id asset).1)
        | some b ↦
            after_update (optimistic_credit (others n w.balances) user_id asset amount b.version)
              (pos amount) reason order_id retry w
      ]

  unfoldable pub credit_optimistic : ℤ → Reason → Option ℕ → Exec (Unit {0})
  unfolding credit_attempts
  credit_optimistic (negsuc _) reason order_id = raise value_error
  credit_optimistic (pos zero) reason order_id = raise value_error
  credit_optimistic (pos (suc a)) reason order_id =
      credit_attempts max_optimistic_retries (suc a) reason order_id
