-- ===== src/Orders/Refusals.antt =====
-- An order that is refused leaves nothing behind.
use uvipystock.Prelude.{
  ℕ, zero, suc, ◌+◌, ltb, ◌≡◌, refl, ap, ◌∙◌, Bool, true, false, ◌&&◌, List, [], ◌∷◌, ◌++◌, Option,
  none, some, Bool-cases, inl, inr, not,
}
use uvipystock.Prelude.Int.{ℤ, pos, negsuc}
use uvipystock.Enums.{is_stop_type, is_market, is_buy}
use uvipystock.Model.{World, pair_by_symbol}
use uvipystock.Model.Rows.{Order, Balance, TradingPair}
use uvipystock.Redis.{Reason}
use uvipystock.Exec.{
  Exec, Error, Result, ok, err, pure, raise_if, or_raise, when, ◌>>=◌, bind_result,
  order_validation,
}
use uvipystock.Balance.Repo.{get_or_create}
use uvipystock.Balance.Service.{
  quiet, lock_attempts, lock_optimistic, after_update, publish_balance_update,
}
use uvipystock.Orders.Place.{
  place_order, new_order, take_lock, take_some, lock_reason, insert_with_children, insert_order,
  link_sl, link_tp, create_sltp_child,
}
use uvipystock.Orders.Validate.{
  OrderCreate, SltpConfig, MakerOrder, validate_and_get_pair, validate_params, lock_for,
  market_buy_lock, market_buy_cost, checks, raise_any,
}

-- A method that changes nothing, whether it returns or raises.
abbrev Reads : {A : Type 0} → Exec A → Type 0
Reads m = (w : World) → (m w).1 ≡ w

-- A method that sends nothing where it raises.
abbrev Silent : {A : Type 0} → Exec A → Type 0
Silent m = (w : World) (e : Error) → (m w).0 ≡ err e → (m w).1.commands ≡ w.commands

-- A method that does not raise.
abbrev Returns : {A : Type 0} → Exec A → Type 0
Returns {A} m = (w : World) → (a : A) × ((m w).0 ≡ ok a)

Reads-result :
    {A B : Type 0} (r : Result A) (w w₁ : World) (f : A → Exec B)
    → w₁ ≡ w
    → ((a : A) → Reads (f a))
    → (bind_result r w₁ f).1 ≡ w
Reads-result (ok a) w w₁ f e h = h a w₁ ∙ e
Reads-result (err z) w w₁ f e h = e

Reads-bind :
    {A B : Type 0} (m : Exec A) (f : A → Exec B)
    → Reads m
    → ((a : A) → Reads (f a))
    → Reads (m >>= f)
Reads-bind m f h k w = Reads-result (m w).0 w (m w).1 f (h w) k

Reads-raise_if : (t : Bool) (e : Error) → Reads (raise_if t e)
Reads-raise_if true e w = refl
Reads-raise_if false e w = refl

Reads-or_raise : {A : Type 0} (o : Option A) (e : Error) → Reads (or_raise o e)
Reads-or_raise none e w = refl
Reads-or_raise (some a) e w = refl

raise_any-Reads : (ts : List Bool) → Reads (raise_any ts)
unfolding raise_any
raise_any-Reads [] w = refl
raise_any-Reads (t ∷ ts) w =
    Reads-result (raise_if t order_validation w).0 w (raise_if t order_validation w).1
      (λ z. raise_any ts) (Reads-raise_if t order_validation w) (λ z. raise_any-Reads ts)

pub validate_params-Reads :
    (dto : OrderCreate) (pair : TradingPair) → Reads (validate_params dto pair)
unfolding validate_params
validate_params-Reads dto pair = raise_any-Reads (checks dto pair)

pub validate_pair-Reads : (symbol : ℕ) → Reads (validate_and_get_pair symbol)
unfolding validate_and_get_pair
validate_pair-Reads symbol w =
    Reads-result (or_raise (pair_by_symbol w.pairs symbol) order_validation w).0 w
      (or_raise (pair_by_symbol w.pairs symbol) order_validation w).1 _
      (Reads-or_raise (pair_by_symbol w.pairs symbol) order_validation w)
      (λ pair v.
        Reads-result (raise_if (not pair.is_active) order_validation v).0 v
          (raise_if (not pair.is_active) order_validation v).1 (λ z. pure pair)
          (Reads-raise_if (not pair.is_active) order_validation v) (λ z u. refl))

lock_for-Reads :
    (asks : ℕ → List MakerOrder) (dto : OrderCreate) (pair : TradingPair)
    → Reads (lock_for asks dto pair)
unfolding lock_for market_buy_lock
lock_for-Reads asks dto pair w = elim (Bool-cases (is_stop_type dto.type)) [
  | inl s ↦ rw s refl
  | inr s ↦ elim (Bool-cases (is_market dto.type && is_buy dto.side)) [
    | inl m ↦ rw s (
        rw m (
          Reads-result
            (or_raise (market_buy_cost (asks dto.symbol) dto.quantity) order_validation w).0 w
            (or_raise (market_buy_cost (asks dto.symbol) dto.quantity) order_validation w).1 _
            (Reads-or_raise (market_buy_cost (asks dto.symbol) dto.quantity) order_validation w)
            (λ amount u. refl)))
    | inr m ↦ rw s (rw m refl)
  ]
]

Silent-result :
    {A B : Type 0} (r : Result A) (w w₁ : World) (f : A → Exec B) (e : Error)
    → w₁ ≡ w
    → ((a : A) → Silent (f a))
    → (bind_result r w₁ f).0 ≡ err e
    → (bind_result r w₁ f).1.commands ≡ w.commands
Silent-result (ok a) w w₁ f e q h k = h a w₁ e k ∙ ap (λ (v : World). v.commands) q
Silent-result (err z) w w₁ f e q h k = ap (λ (v : World). v.commands) q

-- After the last step that can raise.
Silent-end :
    {A B : Type 0} (r : Result A) (w w₁ : World) (f : A → Exec B) (e : Error)
    → ((z : Error) → r ≡ err z → w₁.commands ≡ w.commands)
    → ((a : A) → Returns (f a))
    → (bind_result r w₁ f).0 ≡ err e
    → (bind_result r w₁ f).1.commands ≡ w.commands
Silent-end (ok a) w w₁ f e q h k = let p = (h a w₁).1 in cc
Silent-end (err z) w w₁ f e q h k = q z refl

after-Silent :
    (u a : ℕ) (r : Bool × List Balance) (change : ℤ) (reason : Reason) (oid : Option ℕ)
    (retry : Exec (Unit {0}))
    → Silent retry
    → Silent (after_update quiet u a r change reason oid retry)
unfolding publish_balance_update
after-Silent u a (true, bs) change reason oid retry h w e k = cc
after-Silent u a (false, bs) change reason oid retry h w e k = h _ e k

attempts-Silent :
    (u a n amount : ℕ) (reason : Reason) (oid : Option ℕ)
    → Silent (lock_attempts quiet u a n amount reason oid)
unfolding lock_attempts
attempts-Silent u a zero amount reason oid w e k = refl
attempts-Silent u a (suc n) amount reason oid w e k =
    elim (Bool-cases (ltb (get_or_create w.balances u a).0.available_balance amount)) [
      | inl short ↦ rw short refl
      | inr enough ↦ rw enough (
          after-Silent u a _ _ reason oid (lock_attempts quiet u a n amount reason oid)
            (attempts-Silent u a n amount reason oid) _ e (rw enough at k))
    ]

lock-Silent :
    (u a : ℕ) (amount : ℤ) (reason : Reason) (oid : Option ℕ)
    → Silent (lock_optimistic quiet u a amount reason oid)
unfolding lock_optimistic
lock-Silent u a (negsuc n) reason oid w e k = refl
lock-Silent u a (pos zero) reason oid w e k = refl
lock-Silent u a (pos (suc n)) reason oid w e k = attempts-Silent u a 3 (suc n) reason oid w e k

when-Silent : (t : Bool) (m : Exec (Unit {0})) → Silent m → Silent (when t m)
when-Silent true m h w e k = h w e k
when-Silent false m h w e k = refl

take_some-Silent :
    (u : ℕ) (asset : Option ℕ) (amount : ℕ) (reason : Reason)
    → Silent (take_some u asset amount reason)
take_some-Silent u none amount reason w e k = refl
take_some-Silent u (some a) amount reason w e k =
    when-Silent (ltb 0 amount) (lock_optimistic quiet u a (pos amount) reason none)
      (lock-Silent u a (pos amount) reason none) w e k

link_sl-Returns : (u : ℕ) (s : Option SltpConfig) (o : Order) → Returns (link_sl u s o)
unfolding link_sl create_sltp_child insert_order
link_sl-Returns u none o w = (_, refl)
link_sl-Returns u (some c) o w = (_, refl)

link_tp-Returns : (u : ℕ) (s : Option SltpConfig) (o : Order) → Returns (link_tp u s o)
unfolding link_tp create_sltp_child insert_order
link_tp-Returns u none o w = (_, refl)
link_tp-Returns u (some c) o w = (_, refl)

Returns-result :
    {A B : Type 0} (r : Result A) (a : A) (w : World) (f : A → Exec B)
    → r ≡ ok a
    → ((x : A) → Returns (f x))
    → (b : B) × ((bind_result r w f).0 ≡ ok b)
Returns-result (ok x) a w f e h = h x w
Returns-result (err z) a w f e h = absurd cc

insert-Returns : (u : ℕ) (dto : OrderCreate) → Returns (insert_with_children u dto)
unfolding insert_with_children insert_order
insert-Returns u dto w =
    let o = record (new_order u dto) { id = w.next_order_id } in
    let w₁ : World = record w {
      orders = w.orders ++ o ∷ [];
      next_order_id = w.next_order_id + 1;
    } in
    let l = link_sl-Returns u dto.sl o w₁ in
    Returns-result (link_sl u dto.sl o w₁).0 l.0 (link_sl u dto.sl o w₁).1 _ l.1
      (link_tp-Returns u dto.tp)

-- `place_order` raises before it sends anything, or not at all: a refused order leaves nothing in
-- Redis.
pub place_order-Silent :
    (asks : ℕ → List MakerOrder) (u : ℕ) (dto : OrderCreate) (w : World) (e : Error)
    → (place_order asks u dto w).0 ≡ err e
    → (place_order asks u dto w).1.commands ≡ w.commands
unfolding place_order
place_order-Silent asks u dto w e k =
    Silent-result (validate_and_get_pair dto.symbol w).0 w (validate_and_get_pair dto.symbol w).1 _
      e (validate_pair-Reads dto.symbol w)
      (λ pair v y l.
        Silent-result (validate_params dto pair v).0 v (validate_params dto pair v).1 _ y
          (validate_params-Reads dto pair v)
          (λ z v' y' l'.
            Silent-result (lock_for asks dto pair v').0 v' (lock_for asks dto pair v').1 _ y'
              (lock_for-Reads asks dto pair v')
              (λ lock v'' y'' l''.
                Silent-end (take_lock u lock (lock_reason dto) v'').0 v''
                  (take_lock u lock (lock_reason dto) v'').1 _ y''
                  (take_some-Silent u lock.asset lock.amount (lock_reason dto) v'')
                  (λ z' x.
                    Returns-result (insert_with_children u dto x).0 (insert-Returns u dto x).0
                      (insert_with_children u dto x).1 _ (insert-Returns u dto x).1
                      (λ o x'. (o, refl)))
                  l'')
              l')
          l)
      k
