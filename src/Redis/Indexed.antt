-- ===== src/Redis/Indexed.antt =====
-- backend/app/redis_client/orders_index.py: the three sets stand for one set of open orders.
use uvipystock.Prelude.{
  ℕ, ◌==◌, ◌≡◌, ap, ◌∙◌, arith, Bool, not, ◌&&◌, ◌||◌, Bool-cases, inl, inr, ==→eq,
}
use uvipystock.Redis.Index.{
  user_key, user_symbol_key, symbol_key, SetStore, index_order, unindex_order,
}

-- One order more, or less.
abbrev pub more : ℕ → (ℕ → Bool) → ℕ → Bool
more id a x = (id == x) || a x

abbrev pub less : ℕ → (ℕ → Bool) → ℕ → Bool
less id a x = not (id == x) && a x

-- Every order has a user and a symbol.
module _ (S : SetStore) (owner symbol_of : ℕ → ℕ) where
  -- The set by user, that by user and symbol, and that by symbol, each of the orders of a predicate.
  pub record Indexes (a b c : ℕ → Bool) (z : S.Store) : Type 0 where
    pub by_user : (u x : ℕ) → S.sismember z (user_key u) x ≡ (u == owner x) && a x
    pub by_both :
        (u s x : ℕ)
        → S.sismember z (user_symbol_key u s) x ≡ (u == owner x) && ((s == symbol_of x) && b x)
    pub by_symbol : (s x : ℕ) → S.sismember z (symbol_key s) x ≡ (s == symbol_of x) && c x

  module _ (a b c : ℕ → Bool) (z : S.Store) (r : Indexes a b c z) where
    pub sadd_user : (id : ℕ) → Indexes (more id a) b c (S.sadd (user_key (owner id)) id z)
    sadd_user id = record {
      by_user = λ u x. elim (Bool-cases (id == x)) [
        | inl e ↦ ground (
          arith,
          S.sismember-sadd (user_key (owner id)) id z (user_key u) x,
          r.by_user u x,
          ap owner (==→eq id x e),
          e,
        )
        | inr e ↦
            ground
              (arith, S.sismember-sadd (user_key (owner id)) id z (user_key u) x, r.by_user u x, e)
      ];
      by_both = λ u s x.
          S.sismember-sadd (user_key (owner id)) id z (user_symbol_key u s) x ∙ r.by_both u s x;
      by_symbol =
          λ s x. S.sismember-sadd (user_key (owner id)) id z (symbol_key s) x ∙ r.by_symbol s x;
    }

    pub sadd_both :
        (id : ℕ) → Indexes a (more id b) c (S.sadd (user_symbol_key (owner id) (symbol_of id)) id z)
    sadd_both id = record {
      by_user = λ u x.
          S.sismember-sadd (user_symbol_key (owner id) (symbol_of id)) id z (user_key u) x
          ∙ r.by_user u x;
      by_both = λ u s x. elim (Bool-cases (id == x)) [
        | inl e ↦ ground (
          arith,
          S.sismember-sadd (user_symbol_key (owner id) (symbol_of id)) id z (user_symbol_key u s) x,
          r.by_both u s x,
          ap owner (==→eq id x e),
          ap symbol_of (==→eq id x e),
          e,
        )
        | inr e ↦ ground (
          arith,
          S.sismember-sadd (user_symbol_key (owner id) (symbol_of id)) id z (user_symbol_key u s) x,
          r.by_both u s x,
          e,
        )
      ];
      by_symbol = λ s x.
          S.sismember-sadd (user_symbol_key (owner id) (symbol_of id)) id z (symbol_key s) x
          ∙ r.by_symbol s x;
    }

    pub sadd_symbol : (id : ℕ) → Indexes a b (more id c) (S.sadd (symbol_key (symbol_of id)) id z)
    sadd_symbol id = record {
      by_user =
          λ u x. S.sismember-sadd (symbol_key (symbol_of id)) id z (user_key u) x ∙ r.by_user u x;
      by_both = λ u s x.
          S.sismember-sadd (symbol_key (symbol_of id)) id z (user_symbol_key u s) x
          ∙ r.by_both u s x;
      by_symbol = λ s x. elim (Bool-cases (id == x)) [
        | inl e ↦ ground (
          arith,
          S.sismember-sadd (symbol_key (symbol_of id)) id z (symbol_key s) x,
          r.by_symbol s x,
          ap symbol_of (==→eq id x e),
          e,
        )
        | inr e ↦ ground (
          arith,
          S.sismember-sadd (symbol_key (symbol_of id)) id z (symbol_key s) x,
          r.by_symbol s x,
          e,
        )
      ];
    }

    pub srem_user : (id : ℕ) → Indexes (less id a) b c (S.srem (user_key (owner id)) id z)
    srem_user id = record {
      by_user = λ u x. elim (Bool-cases (id == x)) [
        | inl e ↦ ground (
          arith,
          S.sismember-srem (user_key (owner id)) id z (user_key u) x,
          r.by_user u x,
          ap owner (==→eq id x e),
          e,
        )
        | inr e ↦
            ground
              (arith, S.sismember-srem (user_key (owner id)) id z (user_key u) x, r.by_user u x, e)
      ];
      by_both = λ u s x.
          S.sismember-srem (user_key (owner id)) id z (user_symbol_key u s) x ∙ r.by_both u s x;
      by_symbol =
          λ s x. S.sismember-srem (user_key (owner id)) id z (symbol_key s) x ∙ r.by_symbol s x;
    }

    pub srem_both :
        (id : ℕ) → Indexes a (less id b) c (S.srem (user_symbol_key (owner id) (symbol_of id)) id z)
    srem_both id = record {
      by_user = λ u x.
          S.sismember-srem (user_symbol_key (owner id) (symbol_of id)) id z (user_key u) x
          ∙ r.by_user u x;
      by_both = λ u s x. elim (Bool-cases (id == x)) [
        | inl e ↦ ground (
          arith,
          S.sismember-srem (user_symbol_key (owner id) (symbol_of id)) id z (user_symbol_key u s) x,
          r.by_both u s x,
          ap owner (==→eq id x e),
          ap symbol_of (==→eq id x e),
          e,
        )
        | inr e ↦ ground (
          arith,
          S.sismember-srem (user_symbol_key (owner id) (symbol_of id)) id z (user_symbol_key u s) x,
          r.by_both u s x,
          e,
        )
      ];
      by_symbol = λ s x.
          S.sismember-srem (user_symbol_key (owner id) (symbol_of id)) id z (symbol_key s) x
          ∙ r.by_symbol s x;
    }

    pub srem_symbol : (id : ℕ) → Indexes a b (less id c) (S.srem (symbol_key (symbol_of id)) id z)
    srem_symbol id = record {
      by_user =
          λ u x. S.sismember-srem (symbol_key (symbol_of id)) id z (user_key u) x ∙ r.by_user u x;
      by_both = λ u s x.
          S.sismember-srem (symbol_key (symbol_of id)) id z (user_symbol_key u s) x
          ∙ r.by_both u s x;
      by_symbol = λ s x. elim (Bool-cases (id == x)) [
        | inl e ↦ ground (
          arith,
          S.sismember-srem (symbol_key (symbol_of id)) id z (symbol_key s) x,
          r.by_symbol s x,
          ap symbol_of (==→eq id x e),
          e,
        )
        | inr e ↦ ground (
          arith,
          S.sismember-srem (symbol_key (symbol_of id)) id z (symbol_key s) x,
          r.by_symbol s x,
          e,
        )
      ];
    }

    pub delete_user :
        (v : ℕ) → Indexes (λ x. not (v == owner x) && a x) b c (S.delete (user_key v) z)
    delete_user v = record {
      by_user =
          λ u x. ground (arith, S.sismember-delete (user_key v) z (user_key u) x, r.by_user u x);
      by_both =
          λ u s x. S.sismember-delete (user_key v) z (user_symbol_key u s) x ∙ r.by_both u s x;
      by_symbol = λ s x. S.sismember-delete (user_key v) z (symbol_key s) x ∙ r.by_symbol s x;
    }

    pub delete_both :
        (v t : ℕ)
        → Indexes a
            (λ x. not ((v == owner x) && (t == symbol_of x)) && b x)
            c
            (S.delete (user_symbol_key v t) z)
    delete_both v t = record {
      by_user = λ u x. S.sismember-delete (user_symbol_key v t) z (user_key u) x ∙ r.by_user u x;
      by_both = λ u s x. ground (
        arith,
        S.sismember-delete (user_symbol_key v t) z (user_symbol_key u s) x,
        r.by_both u s x,
      );
      by_symbol =
          λ s x. S.sismember-delete (user_symbol_key v t) z (symbol_key s) x ∙ r.by_symbol s x;
    }

  -- All three are of the open orders.
  abbrev pub Represents : (ℕ → Bool) → S.Store → Type 0
  Represents is_open z = Indexes is_open is_open is_open z

  -- Placing an order opens it in all three sets, and what removes an order closes it in all three.
  pub index-Represents :
      (is_open : ℕ → Bool) (id : ℕ) (z : S.Store)
      → Represents is_open z
      → Represents (more id is_open) (index_order S (owner id) (symbol_of id) id z)
        × Represents (less id is_open) (unindex_order S (owner id) (symbol_of id) id z)
  unfolding index_order unindex_order
  index-Represents o id z r = (
    sadd_symbol _ _ _ _ (sadd_both _ _ _ _ (sadd_user _ _ _ _ r id) id) id,
    srem_symbol _ _ _ _ (srem_both _ _ _ _ (srem_user _ _ _ _ r id) id) id,
  )

  -- One predicate for another that is equal to it.
  pub same-Indexes :
      (a b c a' b' c' : ℕ → Bool) (z : S.Store)
      → ((x : ℕ) → a x ≡ a' x)
      → ((x : ℕ) → b x ≡ b' x)
      → ((x : ℕ) → c x ≡ c' x)
      → Indexes a b c z
      → Indexes a' b' c' z
  same-Indexes a b c a' b' c' z p q s r = record {
    by_user = λ u x. r.by_user u x ∙ ap (λ (t : Bool). (u == owner x) && t) (p x);
    by_both = λ u v x.
        r.by_both u v x ∙ ap (λ (t : Bool). (u == owner x) && ((v == symbol_of x) && t)) (q x);
    by_symbol = λ v x. r.by_symbol v x ∙ ap (λ (t : Bool). (v == symbol_of x) && t) (s x);
  }
