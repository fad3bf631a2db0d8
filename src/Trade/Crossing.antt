-- ===== src/Trade/Crossing.antt =====
-- backend/app/services/trade_service.py: what one side of a batch pays, the other receives.
use uvipystock.Prelude.{ℕ, ◌+◌, ◌≡◌, refl, ap, arith, true, false, List, [], ◌∷◌, sum_by}
use uvipystock.Prelude.Int.{ℤ, pos, ◌+ℤ◌, pos_part, neg_part, int_laws}
use uvipystock.Enums.{OrderSide, buy, sell}
use uvipystock.Trade.Fills.{MatchTrade, Batch, Fill, no_totals, collect}
use uvipystock.Trade.Totals.{fills_qty, fills_quote, collect_totals}
use uvipystock.Trade.Sides.{pays, receives}

pub balance_out :
    (s₀ s₁ s₂ : ℤ) (o₁ i₁ o₂ i₂ : ℕ)
    → s₁ +ℤ pos o₁ ≡ s₀ +ℤ pos i₁
    → s₂ +ℤ pos o₂ ≡ s₁ +ℤ pos i₂
    → o₁ ≡ i₂
    → i₁ ≡ o₂
    → s₂ ≡ s₀
balance_out s₀ s₁ s₂ o₁ i₁ o₂ i₂ h k p q =
    omega (int_laws, ap pos_part h, ap neg_part h, ap pos_part k, ap neg_part k)

module _ (b : Batch) where
  abbrev pub all_pay : ℕ → List Fill → ℕ
  all_pay x fs = sum_by (λ (f : Fill). pays b x b.taker_side false f.qty f.quote_qty) fs

  abbrev pub all_receive : ℕ → List Fill → ℕ
  all_receive x fs = sum_by (λ (f : Fill). receives b x b.taker_side false f.qty f.quote_qty) fs

  pays_sum :
      (x : ℕ) (side : OrderSide) (fs : List Fill)
      → sum_by (λ (f : Fill). pays b x side false f.qty f.quote_qty) fs
        ≡ pays b x side false (fills_qty fs) (fills_quote fs)
  pays_sum x buy [] = ground arith
  pays_sum x sell [] = ground arith
  pays_sum x buy (f ∷ fs) = ground (arith, pays_sum x buy fs)
  pays_sum x sell (f ∷ fs) = ground (arith, pays_sum x sell fs)

  receives_sum :
      (x : ℕ) (side : OrderSide) (fs : List Fill)
      → sum_by (λ (f : Fill). receives b x side false f.qty f.quote_qty) fs
        ≡ receives b x side false (fills_qty fs) (fills_quote fs)
  receives_sum x buy fs = pays_sum x sell fs
  receives_sum x sell fs = pays_sum x buy fs

  crossed :
      (x : ℕ) (side : OrderSide) (q v : ℕ)
      → (pays b x side true q v ≡ receives b x side false q v)
        × (receives b x side true q v ≡ pays b x side false q v)
  crossed x buy q v = (refl, refl)
  crossed x sell q v = (refl, refl)

  pub cross_sum :
      (x : ℕ) (ts : List MatchTrade)
      → let acc = collect b ts no_totals in
        (all_pay x acc.fills
          ≡ 0 + receives b x b.taker_side true acc.taker_total_qty acc.taker_total_quote)
        × (all_receive x acc.fills
            ≡ pays b x b.taker_side true acc.taker_total_qty acc.taker_total_quote + 0)
  cross_sum x ts =
      let acc = collect b ts no_totals in
      let t = collect_totals b ts in
      let p = pays_sum x b.taker_side acc.fills in
      let r = receives_sum x b.taker_side acc.fills in
      let c = crossed x b.taker_side (fills_qty acc.fills) (fills_quote acc.fills) in
      (rw (← t.2, ← t.3) (omega (arith, p, c.1)), rw (← t.2, ← t.3) (omega (arith, r, c.0)))
