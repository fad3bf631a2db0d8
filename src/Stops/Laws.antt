-- ===== src/Stops/Laws.antt =====
-- backend/app/redis_client/stops.py: what the stop queues return.
use uvipystock.Prelude.{
  ℕ, ◌≡◌, refl, ◌∙◌, arith, Bool, false, ◌||◌, List, [], ◌∷◌, ◌++◌, Option, none, some, contains,
}
use uvipystock.Prelude.Int.{ℤ, pos, leb_ℤ}
use uvipystock.Stops.Queue.{SortedSet, in_range, price_score, dedup, get_all_triggered_stops}

contains-append :
    (m : ℕ) (xs ys : List ℕ) → contains m (xs ++ ys) ≡ (contains m xs || contains m ys)
contains-append m [] ys = refl
contains-append m (x ∷ xs) ys = ground (arith, contains-append m xs ys)

contains-dedup :
    (m : ℕ) (seen xs : List ℕ)
    → (contains m seen || contains m (dedup seen xs)) ≡ (contains m seen || contains m xs)
unfolding dedup
contains-dedup m seen [] = refl
contains-dedup m seen (x ∷ xs) =
    ground (arith, contains-dedup m seen xs, contains-dedup m (x ∷ seen) xs)

abbrev non_negative : Option ℤ → Bool
non_negative none = false
non_negative (some s) = leb_ℤ (pos 0) s

cover :
    (p : ℕ) (s : Option ℤ)
    → (in_range (pos 0) (some (pos p)) s || in_range (pos p) none s) ≡ non_negative s
cover p none = refl
cover p (some s) = ground arith

module _ (S : SortedSet) where
  -- At any price, the candidates are all stops of the set whose score is not negative: the price
  -- does not narrow them.
  pub all_stops_returned :
      (z : S.Members) (price m : ℕ)
      → contains m (get_all_triggered_stops S z price) ≡ non_negative (S.score z m)
  unfolding get_all_triggered_stops
  all_stops_returned z price m =
      let low = S.range_by_score z (pos 0) (some (price_score price)) in
      let high = S.range_by_score z (price_score price) none in
      contains-dedup m [] (low ++ high)
      ∙ contains-append m low high
      ∙ rw
          (
            S.range-contains z (pos 0) (some (price_score price)) m,
            S.range-contains z (price_score price) none m,
          )
          (cover _ (S.score z m))
