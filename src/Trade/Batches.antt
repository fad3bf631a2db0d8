-- ===== src/Trade/Batches.antt =====
-- A batch of trades creates and destroys nothing.
use uvipystock.Prelude.{
  ℕ, ◌+◌, ◌≡◌, refl, sym, subst, arith, true, false, List, [], ◌∷◌, some, contains, Option-cases,
  inl, inr, Bool-cases, All,
}
use uvipystock.Prelude.Int.{pos, ◌+ℤ◌}
use uvipystock.Enums.{is_filled}
use uvipystock.Model.{World}
use uvipystock.Model.Rows.{Order, Trade}
use uvipystock.Exec.{Exec, Result, ok, err, ◌>>◌, bind_result, transaction, commit}
use uvipystock.Balance.Laws.{supply}
use uvipystock.Orders.Repo.{get_order}
use uvipystock.Orders.Laws.{get_order-id}
use uvipystock.Trade.Service.{
  settle_trade_balances, save_order, maker_after, taker_after, update_redis_maker, update_maker,
  update_makers, update_taker, persist_trade_batch,
}
use uvipystock.Trade.Fills.{MatchTrade, Batch, Fill, Totals, no_totals, collect}
use uvipystock.Trade.Totals.{collect-All}
use uvipystock.Trade.Flow.{Ready, Flows-pure, Flows-send, Flows-bind}
use uvipystock.Trade.Sides.{Moves, pays, receives, settle-Moves, save-Step}
use uvipystock.Trade.Idle.{Idle, activate-Idle}
use uvipystock.Trade.Crossing.{all_pay, all_receive, cross_sum, balance_out}

in_transaction :
    {A : Type 0} (x : ℕ) (r : Result A) (w w' : World)
    → ((a : A) → r ≡ ok a → supply x w'.balances ≡ supply x w.balances)
    → supply x (commit r w w').1.balances ≡ supply x w.balances
in_transaction x (ok a) w w' h = h a refl
in_transaction x (err e) w w' h = refl

module _ (b : Batch) (users : ℕ → ℕ) (ids : List ℕ) where
  abbrev Inv : World → Type 0
  Inv = Ready b.base_asset b.quote_asset users ids

  redis-Moves : (x : ℕ) (o : Order) → Moves b users ids x 0 0 (update_redis_maker o)
  unfolding update_redis_maker
  redis-Moves x o = elim (Bool-cases (is_filled o.status)) [
    | inl e ↦ rw e (Flows-send b.base_asset b.quote_asset users ids x _)
    | inr e ↦ rw e (Flows-send b.base_asset b.quote_asset users ids x _)
  ]

  tidy :
      {A : Type 0} (x out into : ℕ) (m : Exec A)
      → Moves b users ids x (out + 0 + 0) (0 + into + 0) m
      → Moves b users ids x out into m
  tidy x out into m h =
      let e : out + 0 + 0 ≡ out = omega arith in
      let k : 0 + into + 0 ≡ into = omega arith in
      subst (λ i. Moves b users ids x out i m) k
        (subst (λ o. Moves b users ids x o (0 + into + 0) m) e h)

  after_save :
      (x id : ℕ) (o : Order) (qty quote : ℕ)
      → contains id ids ≡ true
      → o.user_id ≡ users id
      → Moves b users ids x
          (pays b x b.taker_side false qty quote)
          (receives b x b.taker_side false qty quote)
          (settle_trade_balances b false o qty quote >> update_redis_maker o)
  after_save x id o qty quote h u =
      tidy x _ _ (settle_trade_balances b false o qty quote >> update_redis_maker o) (
        Flows-bind b.base_asset b.quote_asset users ids x _ _ 0 0
          (settle_trade_balances b false o qty quote) (λ z. update_redis_maker o)
          (settle-Moves b users ids x id false o qty quote h u) (λ z. redis-Moves x o))

  -- The user of an order that is found.
  owner_of :
      (w : World) (id : ℕ) (o : Order)
      → Inv w
      → contains id ids ≡ true
      → get_order w.orders id ≡ some o
      → o.user_id ≡ users id
  owner_of w id o r h q = ground (arith, r.owner id h)

  found_here :
      (w : World) (id : ℕ) (o : Order)
      → get_order w.orders id ≡ some o
      → get_order w.orders o.id ≡ some o
  found_here w id o q =
      subst (λ i. get_order w.orders i ≡ some o) (sym (get_order-id w.orders id o q)) q

  update_maker-Moves :
      (x : ℕ) (f : Fill)
      → contains f.order_id ids ≡ true
      → Moves b users ids x
          (pays b x b.taker_side false f.qty f.quote_qty)
          (receives b x b.taker_side false f.qty f.quote_qty)
          (update_maker b f)
  unfolding update_maker maker_after
  update_maker-Moves x f h w a r e = elim (Option-cases (get_order w.orders f.order_id)) [
    | inl q ↦ absurd (ground (arith, r.owner f.order_id h))
    | inr (o, q) ↦
        let s =
          save-Step b users ids x (maker_after f.qty f.quote_qty o) o w
            (found_here w f.order_id o q) refl r in
        rw (q, update_maker)
          (after_save x f.order_id (maker_after f.qty f.quote_qty o) f.qty f.quote_qty h
            (owner_of w f.order_id o r h q) _ a s.0 (rw (q, update_maker) at e))
  ]

  update_makers-Moves :
      (x : ℕ) (fs : List Fill)
      → All (λ (f : Fill). contains f.order_id ids ≡ true) fs
      → Moves b users ids x (all_pay b x fs) (all_receive b x fs) (update_makers b fs)
  unfolding update_makers
  update_makers-Moves x [] all = Flows-pure b.base_asset b.quote_asset users ids x tt
  update_makers-Moves x (f ∷ fs) all =
      Flows-bind b.base_asset b.quote_asset users ids x _ _ (all_pay b x fs) (all_receive b x fs)
        (update_maker b f) (λ z. update_makers b fs) (update_maker-Moves x f all.0)
        (λ z. update_makers-Moves x fs all.1)

  -- The last step of a method: what follows it leaves the balances alone.
  last :
      {A B : Type 0} (x out into : ℕ) (r : Result A) (w w₁ : World) (f : A → Exec B) (z : B)
      → ((a : A) → r ≡ ok a → supply x w₁.balances +ℤ pos out ≡ supply x w.balances +ℤ pos into)
      → ((a : A) → Idle (f a))
      → (bind_result r w₁ f).0 ≡ ok z
      → supply x (bind_result r w₁ f).1.balances +ℤ pos out ≡ supply x w.balances +ℤ pos into
  last x out into (ok a) w w₁ f z h k e = rw (k a w₁) (h a refl)
  last x out into (err y) w w₁ f z h k e = cc

  update_taker-supply :
      (x : ℕ) (acc : Totals) (w : World) (a : Unit {0})
      → contains b.taker_order_id ids ≡ true
      → Inv w
      → (update_taker b acc w).0 ≡ ok a
      → supply x (update_taker b acc w).1.balances
          +ℤ pos (pays b x b.taker_side true acc.taker_total_qty acc.taker_total_quote + 0)
        ≡ supply x w.balances
          +ℤ pos (0 + receives b x b.taker_side true acc.taker_total_qty acc.taker_total_quote)
  unfolding update_taker taker_after
  update_taker-supply x acc w a h r e = elim (Option-cases (get_order w.orders b.taker_order_id)) [
    | inl q ↦ absurd (ground (arith, r.owner b.taker_order_id h))
    | inr (o, q) ↦
        let o' = taker_after acc.taker_total_qty acc.taker_total_quote o in
        let s = save-Step b users ids x o' o w (found_here w b.taker_order_id o q) refl r in
        let w' = (save_order o' w).1 in
        rw (q, update_taker)
          (last x _ _
            (settle_trade_balances b true o' acc.taker_total_qty acc.taker_total_quote w').0 w'
            (settle_trade_balances b true o' acc.taker_total_qty acc.taker_total_quote w').1 _ a
            (λ z k.
              (settle-Moves b users ids x b.taker_order_id true o' acc.taker_total_qty
                acc.taker_total_quote h (owner_of w b.taker_order_id o r h q) w' z s.0 k).1)
            (λ z. activate-Idle (is_filled o'.status) o') (rw (q, update_taker) at e))
  ]

  -- A step that keeps the invariant, and then the last.
  two_steps :
      {A B : Type 0} (x o₁ i₁ o₂ i₂ : ℕ) (r : Result A) (w w₁ : World) (f : A → Exec B) (z : B)
      → ((a : A)
          → r ≡ ok a
          → Inv w₁ × (supply x w₁.balances +ℤ pos o₁ ≡ supply x w.balances +ℤ pos i₁))
      → ((a : A) (v : World)
          → Inv v
          → (f a v).0 ≡ ok z
          → supply x (f a v).1.balances +ℤ pos o₂ ≡ supply x v.balances +ℤ pos i₂)
      → o₁ ≡ i₂
      → i₁ ≡ o₂
      → (bind_result r w₁ f).0 ≡ ok z
      → supply x (bind_result r w₁ f).1.balances ≡ supply x w.balances
  two_steps x o₁ i₁ o₂ i₂ (ok a) w w₁ f z h k p q e =
      let s = h a refl in
      balance_out (supply x w.balances) (supply x w₁.balances) (supply x (f a w₁).1.balances) o₁ i₁
        o₂ i₂ s.1 (k a w₁ s.0 e) p q
  two_steps x o₁ i₁ o₂ i₂ (err y) w w₁ f z h k p q e = cc

  persist_supply :
      (x : ℕ) (ts : List MatchTrade) (w : World) (z : List Trade)
      → contains b.taker_order_id ids ≡ true
      → All (λ (t : MatchTrade). contains t.maker_order_id ids ≡ true) ts
      → Inv w
      → (persist_trade_batch b ts w).0 ≡ ok z
      → supply x (persist_trade_batch b ts w).1.balances ≡ supply x w.balances
  unfolding persist_trade_batch
  persist_supply x [] w z h all r e = refl
  persist_supply x (t ∷ ts) w z h all r e =
      let acc = collect b (t ∷ ts) no_totals in
      let c = cross_sum b x (t ∷ ts) in
      two_steps x (all_pay b x acc.fills) (all_receive b x acc.fills) _ _
        (update_makers b acc.fills w).0 w (update_makers b acc.fills w).1 _ z
        (λ a k.
          update_makers-Moves x acc.fills (collect-All ids b (t ∷ ts) no_totals all tt) w a r k)
        (λ a v i k.
          last x _ _ (update_taker b acc v).0 v (update_taker b acc v).1 _ z
            (λ y l. update_taker-supply x acc v y h i l) (λ y u. refl) k)
        c.0 c.1 e

  -- The batch in its transaction, where the orders are there and their users have a row in both
  -- assets: of every asset there is as much after as before, whether it succeeds or is rolled back.
  pub batch_conserves :
      (x : ℕ) (ts : List MatchTrade) (w : World)
      → contains b.taker_order_id ids ≡ true
      → All (λ (t : MatchTrade). contains t.maker_order_id ids ≡ true) ts
      → Inv w
      → supply x (transaction (persist_trade_batch b ts) w).1.balances ≡ supply x w.balances
  unfolding transaction
  batch_conserves x ts w h all r =
      in_transaction x (persist_trade_batch b ts w).0 w (persist_trade_batch b ts w).1
        (λ z e. persist_supply x ts w z h all r e)
