-- ===== src/Orders/StopOrders.antt =====
-- A stop order reserves nothing when it is placed.
use uvipystock.Prelude.{
  ℕ, ◌≡◌, refl, ap, sym, subst, ◌∙◌, true, List, ◌++◌, Option, none, some, [], ◌∷◌, ◌+◌,
}
use uvipystock.Enums.{is_stop_type}
use uvipystock.Model.{World}
use uvipystock.Model.Rows.{Order, TradingPair}
use uvipystock.Exec.{Exec, Result, ok, err, bind_result}
use uvipystock.Orders.Place.{
  place_order, insert_with_children, insert_order, link_sl, link_tp, create_sltp_child, new_order,
}
use uvipystock.Orders.Validate.{
  OrderCreate, SltpConfig, MakerOrder, Lock, validate_and_get_pair, validate_params, lock_for,
  no_lock,
}
use uvipystock.Orders.Refusals.{validate_pair-Reads, validate_params-Reads}

abbrev Idle : {A : Type 0} → Exec A → Type 0
Idle m = (w : World) → (m w).1.balances ≡ w.balances

Idle-result :
    {A B : Type 0} (r : Result A) (w w₁ : World) (f : A → Exec B)
    → w₁.balances ≡ w.balances
    → ((a : A) → Idle (f a))
    → (bind_result r w₁ f).1.balances ≡ w.balances
Idle-result (ok a) w w₁ f e h = h a w₁ ∙ e
Idle-result (err z) w w₁ f e h = e

Idle-known :
    {A B : Type 0} (r : Result A) (a : A) (w w₁ : World) (f : A → Exec B)
    → r ≡ ok a
    → w₁ ≡ w
    → Idle (f a)
    → (bind_result r w₁ f).1.balances ≡ w.balances
Idle-known r a w w₁ f e b h =
    subst (λ q. (bind_result q w₁ f).1.balances ≡ w.balances) (sym e)
      (h w₁ ∙ ap (λ (v : World). v.balances) b)

lock_for_stop :
    (asks : ℕ → List MakerOrder) (dto : OrderCreate) (pair : TradingPair) (w : World)
    → is_stop_type dto.type ≡ true
    → lock_for asks dto pair w ≡ (ok no_lock, w)
unfolding lock_for
lock_for_stop asks dto pair w stop = rw stop refl

link_sl-Idle : (u : ℕ) (s : Option SltpConfig) (o : Order) → Idle (link_sl u s o)
unfolding link_sl create_sltp_child insert_order
link_sl-Idle u none o w = refl
link_sl-Idle u (some c) o w = refl

link_tp-Idle : (u : ℕ) (s : Option SltpConfig) (o : Order) → Idle (link_tp u s o)
unfolding link_tp create_sltp_child insert_order
link_tp-Idle u none o w = refl
link_tp-Idle u (some c) o w = refl

insert-Idle : (u : ℕ) (dto : OrderCreate) → Idle (insert_with_children u dto)
unfolding insert_with_children insert_order
insert-Idle u dto w =
    let o = record (new_order u dto) { id = w.next_order_id } in
    let w₁ : World = record w {
      orders = w.orders ++ o ∷ [];
      next_order_id = w.next_order_id + 1;
    } in
    Idle-result (link_sl u dto.sl o w₁).0 w (link_sl u dto.sl o w₁).1 _ (link_sl-Idle u dto.sl o w₁)
      (link_tp-Idle u dto.tp)

-- Placing an order of a stop type changes no balance, whether it is accepted or refused.
pub stop_locks_nothing :
    (asks : ℕ → List MakerOrder) (u : ℕ) (dto : OrderCreate) (w : World)
    → is_stop_type dto.type ≡ true
    → (place_order asks u dto w).1.balances ≡ w.balances
unfolding place_order
stop_locks_nothing asks u dto w stop =
    Idle-result (validate_and_get_pair dto.symbol w).0 w (validate_and_get_pair dto.symbol w).1 _
      (ap (λ (v : World). v.balances) (validate_pair-Reads dto.symbol w))
      (λ pair v.
        Idle-result (validate_params dto pair v).0 v (validate_params dto pair v).1 _
          (ap (λ (x : World). x.balances) (validate_params-Reads dto pair v))
          (λ z x.
            let k = lock_for_stop asks dto pair x stop in
            Idle-known (lock_for asks dto pair x).0 no_lock x (lock_for asks dto pair x).1 _
              (ap (λ (q : Result Lock × World). q.0) k) (ap (λ (q : Result Lock × World). q.1) k)
              (λ y.
                Idle-result (insert_with_children u dto y).0 y (insert_with_children u dto y).1 _
                  (insert-Idle u dto y) (λ o v'. refl))))
