-- ===== src/Redis/Drained.antt =====
-- backend/app/redis_client/orders_index.py: what `cancel_all_user_orders` returns and leaves.
use uvipystock.Prelude.{
  ℕ, ◌==◌, ◌≡◌, refl, sym, subst, ◌∙◌, arith, Bool, true, not, ◌&&◌, List, [], ◌∷◌, Option, none,
  some, contains, All, ==_self,
}
use uvipystock.Redis.Index.{
  user_key, user_symbol_key, symbol_key, SetStore, drop_symbol, drop_each, drop_on_symbol,
  cancel_all_user_orders,
}
use uvipystock.Redis.Indexed.{
  less, Indexes, Represents, same-Indexes, srem_user, srem_both, srem_symbol, delete_user,
  delete_both,
}

-- Whether a cancellation of all is about the order.
abbrev pub covers : (ℕ → ℕ) → (ℕ → ℕ) → ℕ → Option ℕ → ℕ → Bool
covers owner symbol_of u none x = u == owner x
covers owner symbol_of u (some s) x = (u == owner x) && (s == symbol_of x)

abbrev without : List ℕ → (ℕ → Bool) → ℕ → Bool
without ids a x = not (contains x ids) && a x

All-contains : (Q : ℕ → Type 0) (ids : List ℕ) → ((x : ℕ) → contains x ids ≡ true → Q x) → All Q ids
All-contains Q [] h = tt
All-contains Q (id ∷ ids) h =
    (h id (ground (arith, ==_self id)), All-contains Q ids (λ x c. h x (ground (arith, c))))

without-less :
    (ids : List ℕ) (id : ℕ) (a : ℕ → Bool) (x : ℕ)
    → without ids (less id a) x ≡ without (id ∷ ids) a x
without-less ids id a x = ground arith

module _ (S : SetStore) (owner symbol_of : ℕ → ℕ) (u : ℕ) where
  drop_symbol-Indexes :
      (a b c : ℕ → Bool) (z : S.Store) (id : ℕ) (o : Option ℕ)
      → owner id ≡ u
      → o ≡ some (symbol_of id)
      → Indexes S owner symbol_of a b c z
      → Indexes S owner symbol_of a (less id b) (less id c) (drop_symbol S u id o z)
  drop_symbol-Indexes a b c z id o p e r =
      subst
        (λ (v : ℕ). Indexes S owner symbol_of a (less id b) (less id c) (drop_symbol S v id o z)) p
        (subst
          (λ (q : Option ℕ).
            Indexes S owner symbol_of a (less id b) (less id c) (drop_symbol S (owner id) id q z))
          (sym e)
          (srem_symbol S owner symbol_of _ _ _ _ (srem_both S owner symbol_of _ _ _ _ r id) id))

  drop_each-Indexes :
      (symbol_in_hash : ℕ → Option ℕ) (a b c : ℕ → Bool) (ids : List ℕ) (z : S.Store)
      → All (λ (id : ℕ). (owner id ≡ u) × (symbol_in_hash id ≡ some (symbol_of id))) ids
      → Indexes S owner symbol_of a b c z
      → Indexes S owner symbol_of a
          (without ids b)
          (without ids c)
          (drop_each S symbol_in_hash u ids z)
  unfolding drop_each
  drop_each-Indexes h a b c [] z k r = r
  drop_each-Indexes h a b c (id ∷ ids) z k r =
      same-Indexes S owner symbol_of _ _ _ _ _ _ _ (λ x. refl) (without-less ids id b)
        (without-less ids id c)
        (drop_each-Indexes h a (less id b) (less id c) ids _ k.1
          (drop_symbol-Indexes a b c z id (h id) k.0.0 k.0.1 r))

  drop_on_symbol-Indexes :
      (t : ℕ) (a b c : ℕ → Bool) (ids : List ℕ) (z : S.Store)
      → All (λ (id : ℕ). (owner id ≡ u) × (symbol_of id ≡ t)) ids
      → Indexes S owner symbol_of a b c z
      → Indexes S owner symbol_of (without ids a) b (without ids c) (drop_on_symbol S u t ids z)
  unfolding drop_on_symbol
  drop_on_symbol-Indexes t a b c [] z k r = r
  drop_on_symbol-Indexes t a b c (id ∷ ids) z k r =
      let step : Indexes S owner symbol_of (less id a) b (less id c)
          (S.srem (symbol_key t) id (S.srem (user_key u) id z)) =
        subst
          (λ (v : ℕ).
            Indexes S owner symbol_of (less id a) b (less id c)
              (S.srem (symbol_key t) id (S.srem (user_key v) id z)))
          (k.0.0)
          (subst
            (λ (v : ℕ).
              Indexes S owner symbol_of (less id a) b (less id c)
                (S.srem (symbol_key v) id (S.srem (user_key (owner id)) id z)))
            (k.0.1)
            (srem_symbol S owner symbol_of _ _ _ _ (srem_user S owner symbol_of _ _ _ _ r id)
              id)) in
      same-Indexes S owner symbol_of _ _ _ _ _ _ _ (without-less ids id a) (λ x. refl)
        (without-less ids id c) (drop_on_symbol-Indexes t (less id a) b (less id c) ids _ k.1 step)

-- Where the three sets stand for one set of open orders, and the HASH of each open order has its
-- symbol: cancelling all of a user's orders, or all on a symbol, returns exactly the user's open
-- orders, or those on the symbol, and afterwards the three sets stand for the other open orders.
pub cancel_all_lem :
    (S : SetStore) (owner symbol_of : ℕ → ℕ) (symbol_in_hash : ℕ → Option ℕ) (is_open : ℕ → Bool)
    (u : ℕ) (symbol : Option ℕ) (z : S.Store)
    → ((x : ℕ) → is_open x ≡ true → symbol_in_hash x ≡ some (symbol_of x))
    → Represents S owner symbol_of is_open z
    → let (ids, z') = cancel_all_user_orders S symbol_in_hash u symbol z in
      ((x : ℕ) → contains x ids ≡ covers owner symbol_of u symbol x && is_open x)
      × Represents S owner symbol_of (λ x. not (covers owner symbol_of u symbol x) && is_open x) z'
unfolding cancel_all_user_orders
cancel_all_lem S owner symbol_of h o u none z known r =
    let ids = S.smembers z (user_key u) in
    let found : (x : ℕ) → contains x ids ≡ (u == owner x) && o x =
      λ x. S.contains-smembers z (user_key u) x ∙ r.by_user u x in
    let gone : (x : ℕ) → without ids o x ≡ not (u == owner x) && o x =
      λ x. ground (arith, found x) in
    let theirs : All (λ (id : ℕ). (owner id ≡ u) × (h id ≡ some (symbol_of id))) ids =
      All-contains (λ (id : ℕ). (owner id ≡ u) × (h id ≡ some (symbol_of id))) ids
        (λ x c. (ground (arith, found x, c), known x (ground (arith, found x, c)))) in
    (
      found,
      same-Indexes S owner symbol_of _ _ _ _ _ _ _ (λ x. refl) gone gone
          (drop_each-Indexes S owner symbol_of u h _ o o ids _ theirs
            (delete_user S owner symbol_of o o o z r u)),
    )
cancel_all_lem S owner symbol_of h o u (some t) z known r =
    let ids = S.smembers z (user_symbol_key u t) in
    let found : (x : ℕ) → contains x ids ≡ ((u == owner x) && (t == symbol_of x)) && o x =
      λ x. ground (arith, S.contains-smembers z (user_symbol_key u t) x, r.by_both u t x) in
    let gone : (x : ℕ) → without ids o x ≡ not ((u == owner x) && (t == symbol_of x)) && o x =
      λ x. ground (arith, found x) in
    let theirs : All (λ (id : ℕ). (owner id ≡ u) × (symbol_of id ≡ t)) ids =
      All-contains (λ (id : ℕ). (owner id ≡ u) × (symbol_of id ≡ t)) ids
        (λ x c. (ground (arith, found x, c), ground (arith, found x, c))) in
    (
      found,
      same-Indexes S owner symbol_of _ _ _ _ _ _ _ gone (λ x. refl) gone
          (drop_on_symbol-Indexes S owner symbol_of u t o _ o ids _ theirs
            (delete_both S owner symbol_of o o o z r u t)),
    )
