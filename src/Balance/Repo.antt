-- ===== src/Balance/Repo.antt =====
-- backend/app/repositories/balance_repo.py over the rows of `balances`, and `check_invariant` of
-- backend/app/models/balance.py. The pair (user_id, asset) is unique, so that at most one row
-- matches; an `UPDATE` reports whether its WHERE clause matched.
use uvipystock.Prelude.{
  ℕ, ◌+◌, ◌-◌, ◌==◌, leb, ltb, Bool, true, false, ◌&&◌, if◌then◌else◌, List, [], ◌∷◌, Option, none,
  some,
}
use uvipystock.Prelude.Int.{ℤ, pos, negsuc, ◌+ℤ◌, ◌-ℤ◌, eqb_ℤ}
use uvipystock.Model.Rows.{Balance}
use uvipystock.Exec.{Result, ok, err, value_error, runtime_error}

abbrev pub has_key : ℕ → ℕ → Balance → Bool
has_key user_id asset b = b.user_id == user_id && b.asset == asset

-- `get_by_user_asset` and `get_for_update`: the lock has no effect in one transaction.
unfoldable pub get_by_user_asset : List Balance → ℕ → ℕ → Option Balance
get_by_user_asset [] user_id asset = none
get_by_user_asset (b ∷ bs) user_id asset =
    if has_key user_id asset b then some b else get_by_user_asset bs user_id asset

-- Writes a row back; a row that is not there is inserted.
unfoldable pub put : Balance → List Balance → List Balance
put b [] = b ∷ []
put b (c ∷ cs) = if has_key b.user_id b.asset c then b ∷ cs else c ∷ put b cs

abbrev pub zero_balance : ℕ → ℕ → Balance
zero_balance user_id asset = record {
  user_id = user_id;
  asset = asset;
  total_balance = pos 0;
  locked_balance = 0;
  available_balance = 0;
  version = 1;
}

-- `get_or_create`: the row, and the table with it.
unfoldable pub get_or_create : List Balance → ℕ → ℕ → Balance × List Balance
get_or_create bs user_id asset = elim (get_by_user_asset bs user_id asset) [
  | some b ↦ (b, bs)
  | none ↦ (zero_balance user_id asset, put (zero_balance user_id asset) bs)
]

abbrev pub update_row :
    (Balance → Bool) → (Balance → Balance) → List Balance → Balance → ℕ → Bool × List Balance
update_row guard set bs b expected_version =
    if b.version == expected_version && guard b then (true, put (set b) bs) else (false, bs)

-- The body that the optimistic updates share: one `UPDATE … WHERE user_id, asset, version, guard`.
abbrev pub update_where :
    (Balance → Bool) → (Balance → Balance) → List Balance → ℕ → ℕ → ℕ → Bool × List Balance
update_where guard set bs user_id asset expected_version =
    elim (get_by_user_asset bs user_id asset) [
      | none ↦ (false, bs)
      | some b ↦ update_row guard set bs b expected_version
    ]

abbrev pub lock_row : ℕ → Balance → Balance
lock_row amount b = record b {
  locked_balance = b.locked_balance + amount;
  available_balance = b.available_balance - amount;
  version = b.version + 1;
}

abbrev pub unlock_row : ℕ → Balance → Balance
unlock_row amount b = record b {
  locked_balance = b.locked_balance - amount;
  available_balance = b.available_balance + amount;
  version = b.version + 1;
}

abbrev pub settle_row : ℕ → Balance → Balance
settle_row amount b = record b {
  locked_balance = b.locked_balance - amount;
  total_balance = b.total_balance -ℤ pos amount;
  version = b.version + 1;
}

abbrev pub credit_row : ℕ → Balance → Balance
credit_row amount b = record b {
  total_balance = b.total_balance +ℤ pos amount;
  available_balance = b.available_balance + amount;
  version = b.version + 1;
}

unfoldable pub optimistic_lock : List Balance → ℕ → ℕ → ℕ → ℕ → Bool × List Balance
optimistic_lock bs user_id asset amount version =
    update_where (λ b. leb amount b.available_balance) (lock_row amount) bs user_id asset version

unfoldable pub optimistic_unlock : List Balance → ℕ → ℕ → ℕ → ℕ → Bool × List Balance
optimistic_unlock bs user_id asset amount version =
    update_where (λ b. leb amount b.locked_balance) (unlock_row amount) bs user_id asset version

unfoldable pub optimistic_settle : List Balance → ℕ → ℕ → ℕ → ℕ → Bool × List Balance
optimistic_settle bs user_id asset amount version =
    update_where (λ b. leb amount b.locked_balance) (settle_row amount) bs user_id asset version

unfoldable pub optimistic_credit : List Balance → ℕ → ℕ → ℕ → ℕ → Bool × List Balance
optimistic_credit bs user_id asset amount version =
    update_where (λ b. true) (credit_row amount) bs user_id asset version

-- `check_invariant`
unfoldable pub check_invariant : Balance → Result Balance
check_invariant b =
    if eqb_ℤ b.total_balance (pos (b.locked_balance + b.available_balance))
    then ok b
    else err runtime_error

-- The pessimistic helpers, on a row that the caller has locked. A negative amount is refused.
unfoldable pub lock_pessimistic : Balance → ℤ → Result Balance
unfolding check_invariant
lock_pessimistic b (negsuc _) = err value_error
lock_pessimistic b (pos amount) =
    if ltb b.available_balance amount then err value_error else check_invariant (lock_row amount b)

unfoldable pub unlock_pessimistic : Balance → ℤ → Result Balance
unfolding check_invariant
unlock_pessimistic b (negsuc _) = err value_error
unlock_pessimistic b (pos amount) =
    if ltb b.locked_balance amount then err value_error else check_invariant (unlock_row amount b)

unfoldable pub settle_pessimistic : Balance → ℤ → Result Balance
unfolding check_invariant
settle_pessimistic b (negsuc _) = err value_error
settle_pessimistic b (pos amount) =
    if ltb b.locked_balance amount then err value_error else check_invariant (settle_row amount b)

unfoldable pub credit_pessimistic : Balance → ℤ → Result Balance
unfolding check_invariant
credit_pessimistic b (negsuc _) = err value_error
credit_pessimistic b (pos amount) = check_invariant (credit_row amount b)
