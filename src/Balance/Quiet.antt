-- ===== src/Balance/Quiet.antt =====
-- The optimistic operations where no other transaction commits in between.
use uvipystock.Prelude.{
  ℕ, zero, suc, ◌≤◌, ◌<◌, ◌∙◌, ltb, ◌≡◌, refl, arith, true, false, if◌then◌else◌, List, [], ◌∷◌,
  ◌++◌, Option, some, Bool-cases, inl, inr,
}
use uvipystock.Prelude.Int.{pos, ◌-ℤ◌}
use uvipystock.Model.{World}
use uvipystock.Model.Rows.{Balance}
use uvipystock.Redis.{Reason, publish, balance_update}
use uvipystock.Exec.{ok, err, insufficient_balance}
use uvipystock.Balance.Repo.{
  get_by_user_asset, put, get_or_create, update_where, lock_row, unlock_row, optimistic_lock,
  optimistic_unlock,
}
use uvipystock.Balance.Service.{
  quiet, publish_balance_update, lock_attempts, lock_optimistic, unlock_attempts, unlock_optimistic,
}

pub get_or_create_found :
    (bs : List Balance) (u a : ℕ) (b : Balance)
    → get_by_user_asset bs u a ≡ some b
    → get_or_create bs u a ≡ (b, bs)
unfolding get_or_create
get_or_create_found bs u a b e = rw (e, get_or_create)

optimistic_lock_hit :
    (bs : List Balance) (u a n : ℕ) (b : Balance)
    → get_by_user_asset bs u a ≡ some b
    → n ≤ b.available_balance
    → optimistic_lock bs u a n b.version ≡ (true, put (lock_row n b) bs)
unfolding optimistic_lock
optimistic_lock_hit bs u a n b e h = rw (e, update_where) (ground arith)

-- With no other transaction in between, the first attempt decides: the amount is locked in the
-- row and one event is sent, or the call raises InsufficientBalanceError and changes nothing.
pub lock_quiet :
    (u a n : ℕ) (reason : Reason) (oid : Option ℕ) (w : World) (b : Balance)
    → get_by_user_asset w.balances u a ≡ some b
    → lock_optimistic quiet u a (pos (suc n)) reason oid w ≡ (
        if ltb b.available_balance (suc n) then (err insufficient_balance, w) else (
          ok tt,
          record w {
            balances = put (lock_row (suc n) b) w.balances;
            commands =
                w.commands ++ publish (balance_update u a (pos 0 -ℤ pos (suc n)) reason oid) ∷ [];
          },
        ))
unfolding lock_optimistic lock_attempts publish_balance_update
lock_quiet u a n reason oid w b e =
    rw (get_or_create_found w.balances u a b e)
      (elim (Bool-cases (ltb b.available_balance (suc n))) [
        | inl short ↦ rw short
        | inr enough ↦
            rw enough (rw (optimistic_lock_hit w.balances u a (suc n) b e (ground arith)))
      ])

optimistic_unlock_hit :
    (bs : List Balance) (u a n : ℕ) (b : Balance)
    → get_by_user_asset bs u a ≡ some b
    → n ≤ b.locked_balance
    → optimistic_unlock bs u a n b.version ≡ (true, put (unlock_row n b) bs)
unfolding optimistic_unlock
optimistic_unlock_hit bs u a n b e h = rw (e, update_where) (ground arith)

unlock_attempts_hit :
    (k u a n : ℕ) (reason : Reason) (oid : Option ℕ) (w : World) (b : Balance)
    → get_by_user_asset w.balances u a ≡ some b
    → n ≤ b.locked_balance
    → unlock_attempts quiet u a (suc k) n reason oid w ≡ (
      ok tt,
      record w {
        balances = put (unlock_row n b) w.balances;
        commands = w.commands ++ publish (balance_update u a (pos n) reason oid) ∷ [];
      },
    )
unfolding unlock_attempts publish_balance_update
unlock_attempts_hit k u a n reason oid w b e h =
    rw (e, unlock_attempts) (rw (optimistic_unlock_hit w.balances u a n b e h) refl)

-- With no other transaction in between, an amount that is locked is unlocked, with one event.
pub unlock_quiet :
    (u a n : ℕ) (reason : Reason) (oid : Option ℕ) (w : World) (b : Balance)
    → get_by_user_asset w.balances u a ≡ some b
    → suc n ≤ b.locked_balance
    → unlock_optimistic quiet u a (pos (suc n)) reason oid w ≡ (
      ok tt,
      record w {
        balances = put (unlock_row (suc n) b) w.balances;
        commands = w.commands ++ publish (balance_update u a (pos (suc n)) reason oid) ∷ [];
      },
    )
unfolding unlock_optimistic
unlock_quiet u a n reason oid w b e h = unlock_attempts_hit 2 u a (suc n) reason oid w b e h

-- Two writes of one row are the second.
pub put-put :
    (b c : Balance) (bs : List Balance)
    → b.user_id ≡ c.user_id
    → b.asset ≡ c.asset
    → put c (put b bs) ≡ put c bs
unfolding put
put-put b c [] h k = ground arith
put-put b c (d ∷ ds) h k = ground (arith, put-put b c ds h k)

pub unlock_positive :
    (u a n : ℕ) (reason : Reason) (oid : Option ℕ) (w : World) (b : Balance)
    → get_by_user_asset w.balances u a ≡ some b
    → 0 < n
    → n ≤ b.locked_balance
    → unlock_optimistic quiet u a (pos n) reason oid w ≡ (
      ok tt,
      record w {
        balances = put (unlock_row n b) w.balances;
        commands = w.commands ++ publish (balance_update u a (pos n) reason oid) ∷ [];
      },
    )
unlock_positive u a zero reason oid w b e h g = absurd (omega (arith, h))
unlock_positive u a (suc n) reason oid w b e h g = unlock_quiet u a n reason oid w b e g

le→ltb_false : (a n : ℕ) → n ≤ a → ltb a n ≡ false
le→ltb_false a n h = ground arith

pub lock_positive :
    (u a n : ℕ) (reason : Reason) (oid : Option ℕ) (w : World) (b : Balance)
    → get_by_user_asset w.balances u a ≡ some b
    → 0 < n
    → n ≤ b.available_balance
    → lock_optimistic quiet u a (pos n) reason oid w ≡ (
      ok tt,
      record w {
        balances = put (lock_row n b) w.balances;
        commands = w.commands ++ publish (balance_update u a (pos 0 -ℤ pos n) reason oid) ∷ [];
      },
    )
lock_positive u a zero reason oid w b e h g = absurd (omega (arith, h))
lock_positive u a (suc n) reason oid w b e h g =
    lock_quiet u a n reason oid w b e ∙ rw (le→ltb_false b.available_balance (suc n) g) refl
