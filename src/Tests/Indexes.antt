-- ===== src/Tests/Indexes.antt =====
-- The open-order indexes over a list of entries.
use uvipystock.Prelude.{
  ℕ, ◌==◌, ◌≡◌, refl, ap, ◌∙◌, arith, Bool, true, false, not, ◌&&◌, ◌||◌, if◌then◌else◌, List, [],
  ◌∷◌, none, some, contains, Bool-cases, inl, inr, ==→eq,
}
use uvipystock.Redis.Index.{
  IndexKey, user_key, user_symbol_key, symbol_key, same_key, SetStore, cancel_all_user_orders,
}
use uvipystock.Redis.Indexed.{Represents}
use uvipystock.Redis.Drained.{covers, cancel_all_lem}

record Row : Type 0 where
  key : IndexKey
  id : ℕ

same_key-eq : (k j : IndexKey) → same_key k j ≡ true → k ≡ j
same_key-eq (user_key u) (user_key v) h = ap user_key (==→eq u v h)
same_key-eq (symbol_key s) (symbol_key t) h = ap symbol_key (==→eq s t h)
same_key-eq (user_symbol_key u s) (user_symbol_key v t) h =
    ap (λ (x : ℕ). user_symbol_key x s) (==→eq u v (ground (arith, h)))
    ∙ ap (user_symbol_key v) (==→eq s t (ground (arith, h)))
same_key-eq (user_key u) (user_symbol_key v t) h = absurd (cc)
same_key-eq (user_key u) (symbol_key t) h = absurd (cc)
same_key-eq (user_symbol_key u s) (user_key v) h = absurd (cc)
same_key-eq (user_symbol_key u s) (symbol_key t) h = absurd (cc)
same_key-eq (symbol_key s) (user_key v) h = absurd (cc)
same_key-eq (symbol_key s) (user_symbol_key v t) h = absurd (cc)

abbrev has : List Row → IndexKey → ℕ → Bool
has [] k x = false
has (r ∷ rs) k x = (same_key r.key k && x == r.id) || has rs k x

abbrev members : List Row → IndexKey → List ℕ
members [] k = []
members (r ∷ rs) k = if same_key r.key k then r.id ∷ members rs k else members rs k

abbrev remove : IndexKey → ℕ → List Row → List Row
remove k x [] = []
remove k x (r ∷ rs) = if same_key k r.key && x == r.id then remove k x rs else r ∷ remove k x rs

abbrev remove_key : IndexKey → List Row → List Row
remove_key k [] = []
remove_key k (r ∷ rs) = if same_key k r.key then remove_key k rs else r ∷ remove_key k rs

contains-members : (z : List Row) (k : IndexKey) (x : ℕ) → contains x (members z k) ≡ has z k x
contains-members [] k x = refl
contains-members (r ∷ rs) k x = elim (Bool-cases (same_key r.key k)) [
  | inl e ↦ rw e (ground (arith, contains-members rs k x))
  | inr e ↦ rw e (contains-members rs k x)
]

has-remove :
    (k : IndexKey) (x : ℕ) (z : List Row) (j : IndexKey) (y : ℕ)
    → has (remove k x z) j y ≡ not (same_key k j && x == y) && has z j y
has-remove k x [] j y = ground arith
has-remove k x (r ∷ rs) j y =
    let ih = has-remove k x rs j y in
    elim (Bool-cases (same_key r.key j)) [
      | inl e ↦
          let same : same_key k r.key ≡ same_key k j = ap (same_key k) (same_key-eq r.key j e) in
          elim (Bool-cases (same_key k r.key && x == r.id)) [
            | inl g ↦ ground (arith, ih, e, same, g)
            | inr g ↦ ground (arith, ih, e, same, g)
          ]
      | inr e ↦ elim (Bool-cases (same_key k r.key && x == r.id)) [
        | inl g ↦ ground (arith, ih, e, g)
        | inr g ↦ ground (arith, ih, e, g)
      ]
    ]

has-remove_key :
    (k : IndexKey) (z : List Row) (j : IndexKey) (y : ℕ)
    → has (remove_key k z) j y ≡ not (same_key k j) && has z j y
has-remove_key k [] j y = ground arith
has-remove_key k (r ∷ rs) j y =
    let ih = has-remove_key k rs j y in
    elim (Bool-cases (same_key r.key j)) [
      | inl e ↦
          let same : same_key k r.key ≡ same_key k j = ap (same_key k) (same_key-eq r.key j e) in
          ground (arith, ih, e, same)
      | inr e ↦ ground (arith, ih, e)
    ]

has-more :
    (k : IndexKey) (x : ℕ) (z : List Row) (j : IndexKey) (y : ℕ)
    → has (record { key = k; id = x } ∷ z) j y ≡ (same_key k j && x == y) || has z j y
has-more k x z j y = ground arith

abbrev rows : SetStore
rows = record {
  Store = List Row;
  sismember = has;
  smembers = members;
  sadd = λ k x z. record { key = k; id = x } ∷ z;
  srem = remove;
  delete = remove_key;
  contains-smembers = contains-members;
  sismember-sadd = has-more;
  sismember-srem = has-remove;
  sismember-delete = has-remove_key;
}

-- Order 7 of user 1 on symbol 3, and nothing else.
abbrev owner : ℕ → ℕ
owner id = 1

abbrev symbol_of : ℕ → ℕ
symbol_of id = 3

abbrev open_seven : ℕ → Bool
open_seven x = x == 7

abbrev one_open : List Row
one_open =
    record { key = user_key 1; id = 7 }
    ∷ record { key = user_symbol_key 1 3; id = 7 }
    ∷ record { key = symbol_key 3; id = 7 }
    ∷ []

one_open-Represents : Represents rows owner symbol_of open_seven one_open
one_open-Represents = record {
  by_user = λ u x. ground arith;
  by_both = λ u s x. ground arith;
  by_symbol = λ s x. ground arith;
}

cancel_all_lem_example :
    let (ids, z') = cancel_all_user_orders rows (λ x. some 3) 1 none one_open in
    ((x : ℕ) → contains x ids ≡ covers owner symbol_of 1 none x && open_seven x)
    × Represents rows owner symbol_of
        (λ x. not (covers owner symbol_of 1 none x) && open_seven x)
        z'
cancel_all_lem_example =
    cancel_all_lem rows owner symbol_of (λ x. some 3) open_seven 1 none one_open (λ x o. refl)
      one_open-Represents
