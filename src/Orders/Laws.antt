-- ===== src/Orders/Laws.antt =====
-- The table of orders: what a read finds.
use uvipystock.Prelude.{ℕ, ◌≡◌, arith, List, [], ◌∷◌, ◌++◌, some}
use uvipystock.Model.Rows.{Order}
use uvipystock.Orders.Repo.{get_order, put_order}

pub get_order-id : (os : List Order) (id : ℕ) (o : Order) → get_order os id ≡ some o → o.id ≡ id
unfolding get_order
get_order-id [] id o h = cc
get_order-id (q ∷ qs) id o h = ground (arith, get_order-id qs id o)

pub get-put_order :
    (o p : Order) (os : List Order)
    → get_order os o.id ≡ some p
    → get_order (put_order o os) o.id ≡ some o
unfolding get_order put_order
get-put_order o p [] h = cc
get-put_order o p (q ∷ qs) h = ground (arith, get-put_order o p qs)

pub get-append :
    (os ps : List Order) (id : ℕ) (o : Order)
    → get_order os id ≡ some o
    → get_order (os ++ ps) id ≡ some o
unfolding get_order
get-append [] ps id o h = cc
get-append (q ∷ qs) ps id o h = ground (arith, get-append qs ps id o)
