-- ===== src/Trade/Idle.antt =====
-- backend/app/services/trade_service.py: the parts of a batch that leave the balances alone.
use uvipystock.Prelude.{◌≡◌, refl, ◌∙◌, Bool, true, false, List, [], ◌∷◌, inl, inr, Bool-cases}
use uvipystock.Enums.{is_pending}
use uvipystock.Model.{World}
use uvipystock.Model.Rows.{Order}
use uvipystock.Exec.{Exec, Result, ok, err, when, bind_result}
use uvipystock.Orders.Repo.{list_children_by_parent}
use uvipystock.Trade.Service.{activate_child, activate_children, activate_sltp_children}

-- A method that leaves the balances alone.
abbrev pub Idle : {A : Type 0} → Exec A → Type 0
Idle m = (w : World) → (m w).1.balances ≡ w.balances

activate_child-Idle : (p c : Order) → Idle (activate_child p c)
unfolding activate_child
activate_child-Idle p c w = elim (Bool-cases (is_pending c.status)) [
  | inl e ↦ rw e refl
  | inr e ↦ rw e refl
]

Idle-result :
    {A B : Type 0} (r : Result A) (w : World) (f : A → Exec B)
    → ((a : A) → Idle (f a))
    → (bind_result r w f).1.balances ≡ w.balances
Idle-result (ok a) w f h = h a w
Idle-result (err e) w f h = refl

activate_children-Idle : (p : Order) (cs : List Order) → Idle (activate_children p cs)
unfolding activate_children
activate_children-Idle p [] w = refl
activate_children-Idle p (c ∷ cs) w =
    Idle-result (activate_child p c w).0 (activate_child p c w).1 _
      (λ z. activate_children-Idle p cs)
    ∙ activate_child-Idle p c w

pub activate-Idle : (t : Bool) (p : Order) → Idle (when t (activate_sltp_children p))
unfolding activate_sltp_children
activate-Idle true p w = activate_children-Idle p (list_children_by_parent p.id w.orders) w
activate-Idle false p w = refl
