-- ===== src/Tests/Stopping.antt =====
-- The stop orders, the scores, and what the worker does to a row.
use uvipystock.Prelude.{
  ℕ, suc, ◌+◌, ◌*◌, ◌==◌, ◌≡◌, ◌≤◌, ◌<◌, ◌||◌, ◌&&◌, refl, inl, inr, arith, Bool, true, false, List,
  [], ◌∷◌, ◌++◌, Option, none, some, contains, Bool-cases, ==→eq, sym, ◌∙◌, if◌then◌else◌,
}
use uvipystock.Prelude.Int.{ℤ, pos, negsuc, leb_ℤ}
use uvipystock.Enums.{sell}
use uvipystock.Redis.Score.{
  IsExact, encode_score, price_step, map_decode, decode-encode, encode-order,
}
use uvipystock.Stops.Queue.{SortedSet, in_range, get_all_triggered_stops}
use uvipystock.Stops.Trailing.{Trailing, abs, update_trailing}
use uvipystock.Stops.Laws.{all_stops_returned}

-- A sorted set as the list of its members with their scores.
abbrev score_of : List (ℕ × ℤ) → ℕ → Option ℤ
score_of [] m = none
score_of ((k, s) ∷ ks) m = if m == k then some s else score_of ks m

abbrev keep : (ℕ → Bool) → List (ℕ × ℤ) → List ℕ
keep f [] = []
keep f ((k, s) ∷ ks) = let rest = keep f ks in if f k then k ∷ rest else rest

abbrev is_member : ℕ → List (ℕ × ℤ) → Bool
is_member m [] = false
is_member m ((k, s) ∷ ks) = m == k || is_member m ks

contains-keep :
    (f : ℕ → Bool) (z : List (ℕ × ℤ)) (m : ℕ) → contains m (keep f z) ≡ (is_member m z && f m)
contains-keep f [] m = refl
contains-keep f ((k, s) ∷ ks) m = elim (Bool-cases (m == k)) [
  | inl e ↦
      let same : k ≡ m = sym (==→eq _ _ e) in
      let ih = contains-keep f ks m in rw same (ground (arith, ih))
  | inr e ↦ let ih = contains-keep f ks m in ground (arith, ih)
]

no_score : (z : List (ℕ × ℤ)) (m : ℕ) → is_member m z ≡ false → score_of z m ≡ none
no_score [] m h = refl
no_score ((k, s) ∷ ks) m h = ground (arith, no_score ks m)

law :
    (z : List (ℕ × ℤ)) (low : ℤ) (high : Option ℤ) (m : ℕ)
    → contains m (keep (λ k. in_range low high (score_of z k)) z) ≡ in_range low high (score_of z m)
law z low high m =
    contains-keep (λ k. in_range low high (score_of z k)) z m
    ∙ elim (Bool-cases (is_member m z)) [ inl e ↦ rw e refl | inr e ↦ rw (e, no_score z m e) refl ]

abbrev listed : SortedSet
listed = record {
  Members = List (ℕ × ℤ);
  score = score_of;
  range_by_score = λ z low high. keep (λ m. in_range low high (score_of z m)) z;
  range-contains = λ z low high m. law z low high m;
}

all_stops_returned_example :
    contains 12 (get_all_triggered_stops listed ((11, pos 5) ∷ (12, pos 9_000_000) ∷ []) 1) ≡ true
all_stops_returned_example = all_stops_returned listed ((11, pos 5) ∷ (12, pos 9_000_000) ∷ []) 1 12

identity : IsExact (λ n. n)
identity n h = refl

decode-encode_example :
    map_decode (encode_score (λ n. n) (250 * price_step) 17) ≡ some (250 * price_step, 17)
decode-encode_example = decode-encode (λ n. n) 250 17 identity (omega arith) (omega arith)

first_score : encode_score (λ n. n) (250 * price_step) 17 ≡ some 250_000_017
unfolding encode_score
first_score = refl

second_score : encode_score (λ n. n) (250 * price_step) 18 ≡ some 250_000_018
unfolding encode_score
second_score = refl

encode-order_example : 250_000_017 < 250_000_018
encode-order_example =
    encode-order (λ n. n) 250 250 17 18 250_000_017 250_000_018 identity (omega arith) (omega arith)
      first_score second_score (inr (refl, omega arith))

abbrev trailing : Trailing
trailing = record { side = sell; delta_type = abs; delta_value = 5; current_extreme = 100 }

moved : update_trailing trailing (some 108) none ≡ some (108, pos 103)
unfolding update_trailing uvipystock.Prelude.Int.◌-ℤ◌
moved = refl
