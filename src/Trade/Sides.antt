-- ===== src/Trade/Sides.antt =====
-- The two sides of a trade: what one order pays and receives, and the rows that are kept.
use uvipystock.Prelude.{ℕ, ◌+◌, ◌≡◌, refl, sym, subst, Bool, true, false, List, some, contains}
use uvipystock.Prelude.Int.{pos, ◌+ℤ◌}
use uvipystock.Enums.{OrderSide, buy, sell}
use uvipystock.Model.{World}
use uvipystock.Model.Rows.{Order}
use uvipystock.Exec.{Exec}
use uvipystock.Balance.Repo.{get_by_user_asset}
use uvipystock.Balance.Laws.{supply}
use uvipystock.Orders.Repo.{get_order}
use uvipystock.Trade.Service.{
  pay_and_receive, settle_trade_balances, settle_if, settle_side, save_order,
}
use uvipystock.Trade.Fills.{Batch}
use uvipystock.Trade.Flow.{flow, Ready, Flows, Flows-result, has_row, user_of-put}
use uvipystock.Trade.Conserve.{settle_if-Step, credit_if-Step}

module _ (b : Batch) where
  -- What a side of the trade pays and what it receives, of the asset `x`.
  abbrev pub pays : ℕ → OrderSide → Bool → ℕ → ℕ → ℕ
  pays x buy true qty quote = flow x b.quote_asset quote
  pays x sell true qty quote = flow x b.base_asset qty
  pays x buy false qty quote = flow x b.base_asset qty
  pays x sell false qty quote = flow x b.quote_asset quote

  abbrev pub receives : ℕ → OrderSide → Bool → ℕ → ℕ → ℕ
  receives x buy t qty quote = pays x sell t qty quote
  receives x sell t qty quote = pays x buy t qty quote

module _ (b : Batch) (users : ℕ → ℕ) (ids : List ℕ) where
  abbrev pub Moves : {A : Type 0} → ℕ → ℕ → ℕ → Exec A → Type 0
  Moves x out into m = Flows b.base_asset b.quote_asset users ids x out into m

  abbrev pub R : World → Type 0
  R = Ready b.base_asset b.quote_asset users ids

  -- The user has both rows whenever the invariant holds.
  abbrev Covered : ℕ → ℕ → Type 0
  Covered u a = (w : World) → R w → has_row w.balances u a ≡ true

  pay_and_receive-Moves :
      (x u paid p received r oid : ℕ)
      → Covered u paid
      → Covered u received
      → Moves x
          (flow x paid p + 0)
          (0 + flow x received r)
          (pay_and_receive u paid p received r oid)
  unfolding pay_and_receive
  pay_and_receive-Moves x u paid p received r oid hp hr w a ready e =
      Flows-result b.base_asset b.quote_asset users ids x (flow x paid p) 0 0 (flow x received r)
        (settle_if (get_by_user_asset w.balances u paid) p oid w).0 w
        (settle_if (get_by_user_asset w.balances u paid) p oid w).1 _ a
        (λ z q.
          settle_if-Step b.base_asset b.quote_asset users ids x u paid p oid w (hp w ready) z ready
            q)
        (λ z w' a' r' e'.
          credit_if-Step b.base_asset b.quote_asset users ids x u received r oid w' (hr w' r') a' r'
            e')
        e

  settle_side-Moves :
      (x : ℕ) (side : OrderSide) (t : Bool) (o : Order) (qty quote : ℕ)
      → Covered o.user_id b.base_asset
      → Covered o.user_id b.quote_asset
      → Moves x
          (pays b x side t qty quote + 0)
          (0 + receives b x side t qty quote)
          (settle_side b side t o qty quote)
  unfolding settle_side
  settle_side-Moves x buy true o qty quote hb hq =
      pay_and_receive-Moves x o.user_id b.quote_asset quote b.base_asset qty o.id hq hb
  settle_side-Moves x sell true o qty quote hb hq =
      pay_and_receive-Moves x o.user_id b.base_asset qty b.quote_asset quote o.id hb hq
  settle_side-Moves x buy false o qty quote hb hq =
      pay_and_receive-Moves x o.user_id b.base_asset qty b.quote_asset quote o.id hb hq
  settle_side-Moves x sell false o qty quote hb hq =
      pay_and_receive-Moves x o.user_id b.quote_asset quote b.base_asset qty o.id hq hb

  pub settle-Moves :
      (x id : ℕ) (t : Bool) (o : Order) (qty quote : ℕ)
      → contains id ids ≡ true
      → o.user_id ≡ users id
      → Moves x
          (pays b x b.taker_side t qty quote + 0)
          (0 + receives b x b.taker_side t qty quote)
          (settle_trade_balances b t o qty quote)
  unfolding settle_trade_balances
  settle-Moves x id t o qty quote h e =
      settle_side-Moves x b.taker_side t o qty quote
        (λ w r. subst (λ u. has_row w.balances u b.base_asset ≡ true) (sym e) (r.base_row id h))
        (λ w r. subst (λ u. has_row w.balances u b.quote_asset ≡ true) (sym e) (r.quote_row id h))

  -- Writing an order back that keeps its user keeps the invariant.
  pub save-Step :
      (x : ℕ) (o p : Order) (w : World)
      → get_order w.orders o.id ≡ some p
      → p.user_id ≡ o.user_id
      → R w
      → R (save_order o w).1
        × (supply x (save_order o w).1.balances +ℤ pos 0 ≡ supply x w.balances +ℤ pos 0)
  save-Step x o p w found same r = (
    record {
      owner = λ id h. rw (user_of-put o p w.orders id found same) (r.owner id h);
      base_row = r.base_row;
      quote_row = r.quote_row;
    },
    refl,
  )
