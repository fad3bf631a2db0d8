-- ===== src/Orders/Cancels.antt =====
-- What a cancellation releases and what it leaves.
use uvipystock.Prelude.{
  ℕ, ltb, min, ◌≡◌, refl, ◌∙◌, arith, Bool, true, false, not, ◌&&◌, if◌then◌else◌, List, [], ◌∷◌,
  Option, none, some, Bool-cases, inl, inr, ◌⊎◌,
}
use uvipystock.Prelude.Int.{pos}
use uvipystock.Enums.{OrderStatus, is_active, is_stop_type}
use uvipystock.Model.{World, pair_by_symbol}
use uvipystock.Model.Rows.{Order, TradingPair, Balance}
use uvipystock.Exec.{Error, ok, err, order_not_found, order_not_cancelable}
use uvipystock.Balance.Repo.{
  get_by_user_asset, put, unlock_row, unlock_pessimistic, check_invariant,
}
use uvipystock.Balance.Pessimistic.{unlock_row_pessimistic}
use uvipystock.Balance.Service.{publish_balance_update}
use uvipystock.Balance.Laws.{IsBalanced}
use uvipystock.Orders.Repo.{get_order, get_by_user, update_status, cancel_children}
use uvipystock.Orders.Cancel.{
  cancel_order, unlock_if, unlock_amount, unlock_asset, release_remaining,
}

-- The order is in the table.
abbrev is_there : Option Order → Bool
is_there none = false
is_there (some _) = true

there-get_by_user :
    (os : List Order) (id u : ℕ) (o : Order)
    → get_by_user os id u ≡ some o
    → (is_there (get_order os o.id) ≡ true) × (o.id ≡ id)
unfolding get_order get_by_user
there-get_by_user [] id u o h = cc
there-get_by_user (p ∷ ps) id u o h = ground (arith, there-get_by_user ps id u o)

there-update_status :
    (os : List Order) (id k : ℕ) (s : OrderStatus)
    → is_there (get_order (update_status k s os) id) ≡ is_there (get_order os id)
unfolding get_order update_status
there-update_status [] id k s = refl
there-update_status (p ∷ ps) id k s = ground (arith, there-update_status ps id k s)

there-cancel_children :
    (os : List Order) (id k : ℕ)
    → is_there (get_order (cancel_children k os) id) ≡ is_there (get_order os id)
unfolding get_order cancel_children
there-cancel_children [] id k = refl
there-cancel_children (p ∷ ps) id k = ground (arith, there-cancel_children ps id k)

unlock_capped-ok :
    (b : Balance) (n : ℕ)
    → IsBalanced b
    → unlock_pessimistic b (pos (min n b.locked_balance))
      ≡ ok (unlock_row (min n b.locked_balance) b)
unfolding unlock_pessimistic check_invariant
unlock_capped-ok b n h = ground arith

-- The balances after the release: never more than what is locked.
abbrev pub released : Order → Balance → List Balance → List Balance
released o b bs =
    if not (is_stop_type o.type) && ltb 0 (unlock_amount o)
    then if ltb 0 (min (unlock_amount o) b.locked_balance)
      then put (unlock_row (min (unlock_amount o) b.locked_balance) b) bs
      else bs
    else bs

module _ (u : ℕ) (pair : TradingPair) (o : Order) (b : Balance) (w : World)
    (row : get_by_user_asset w.balances u (unlock_asset pair o.side) ≡ some b)
    (bal : IsBalanced b) where
  release_lem :
      let r = release_remaining u pair o w in
      (r.0 ≡ ok tt) × (r.1.balances ≡ released o b w.balances) × (r.1.orders ≡ w.orders)
  unfolding release_remaining unlock_if unlock_row_pessimistic publish_balance_update
  release_lem = elim (Bool-cases (not (is_stop_type o.type) && ltb 0 (unlock_amount o))) [
    | inr idle ↦ rw idle (refl, refl, refl)
    | inl due ↦ elim (Bool-cases (ltb 0 (min (unlock_amount o) b.locked_balance))) [
      | inl some_left ↦
          rw (due, row)
            (rw some_left (rw (unlock_capped-ok b (unlock_amount o) bal) (refl, refl, refl)))
      | inr nothing ↦ rw (due, row) (rw nothing (refl, refl, refl))
    ]
  ]

there-some : (o : Option Order) → is_there o ≡ true → (x : Order) × (o ≡ some x)
there-some none h = absurd cc
there-some (some x) h = (x, refl)

final_order :
    (os : List Order) (id u : ℕ) (o : Order)
    → get_by_user os id u ≡ some o
    → (x : Order) × (get_order
          (cancel_children o.id (update_status o.id OrderStatus.canceled os))
          o.id
        ≡ some x)
final_order os id u o h = there-some _ (
    there-cancel_children (update_status o.id OrderStatus.canceled os) o.id o.id
    ∙ there-update_status os o.id o.id OrderStatus.canceled
    ∙ (there-get_by_user os id u o h).0)

-- Cancelling an active order of the user, with its pair and a balanced row of what it locks: the
-- call returns, the row is unlocked by the remaining amount, capped by what it holds, and the order
-- and its active children are cancelled; nothing else of the tables changes.
pub cancel_order_lem :
    (u id : ℕ) (pair : TradingPair) (o : Order) (b : Balance) (w : World)
    → get_by_user w.orders id u ≡ some o
    → is_active o.status ≡ true
    → pair_by_symbol w.pairs o.symbol ≡ some pair
    → get_by_user_asset w.balances u (unlock_asset pair o.side) ≡ some b
    → IsBalanced b
    → let r = cancel_order u id w in
      ((done : Order) × (r.0 ≡ ok done))
      × (r.1.balances ≡ released o b w.balances)
      × (r.1.orders ≡ cancel_children o.id (update_status o.id OrderStatus.canceled w.orders))
unfolding cancel_order
cancel_order_lem u id pair o b w found active pair_found row bal =
    let l = release_lem u pair o b w row bal in
    let f = final_order w.orders id u o found in
    rw (found, active, pair_found) (rw (l.0) (rw (l.2) (rw (f.1) ((f.0, refl), l.1, refl))))

-- An order that is not the user's, or no longer active, is refused, and nothing changes.
pub cancel_refused :
    (u id : ℕ) (w : World)
    → (get_by_user w.orders id u ≡ none)
      ⊎ ((o : Order) × (get_by_user w.orders id u ≡ some o) × (is_active o.status ≡ false))
    → ((e : Error) × (cancel_order u id w ≡ (err e, w)))
unfolding cancel_order
cancel_refused u id w (inl none_found) = rw none_found (order_not_found, refl)
cancel_refused u id w (inr (o, found, idle)) = rw (found, idle) (order_not_cancelable, refl)
