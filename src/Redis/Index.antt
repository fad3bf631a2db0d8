-- ===== src/Redis/Index.antt =====
-- backend/app/redis_client/orders_index.py: the open orders of a user, of a user on a symbol, and of a
-- symbol. The sets of Redis are an interface, with what Redis documents of SISMEMBER, SMEMBERS, SADD,
-- SREM and DEL. `symbol_in_hash` is what HGET returns of an order's HASH.
use uvipystock.Prelude.{
  ℕ, ◌==◌, ◌≡◌, Bool, false, not, ◌&&◌, ◌||◌, List, [], ◌∷◌, Option, none, some, contains,
}

-- The keys of the three sets.
pub data IndexKey : Type 0 where
  user_key : ℕ → IndexKey
  user_symbol_key : ℕ → ℕ → IndexKey
  symbol_key : ℕ → IndexKey

abbrev pub same_key : IndexKey → IndexKey → Bool
same_key (user_key u) (user_key v) = u == v
same_key (user_symbol_key u s) (user_symbol_key v t) = u == v && s == t
same_key (symbol_key s) (symbol_key t) = s == t
same_key _ _ = false

pub record SetStore : Type 1 where
  pub Store : Type 0
  pub sismember : Store → IndexKey → ℕ → Bool
  pub smembers : Store → IndexKey → List ℕ
  pub sadd : IndexKey → ℕ → Store → Store
  pub srem : IndexKey → ℕ → Store → Store
  pub delete : IndexKey → Store → Store
  pub contains-smembers :
      (z : Store) (k : IndexKey) (id : ℕ) → contains id (smembers z k) ≡ sismember z k id
  pub sismember-sadd :
      (k : IndexKey) (id : ℕ) (z : Store) (j : IndexKey) (x : ℕ)
      → sismember (sadd k id z) j x ≡ (same_key k j && id == x) || sismember z j x
  pub sismember-srem :
      (k : IndexKey) (id : ℕ) (z : Store) (j : IndexKey) (x : ℕ)
      → sismember (srem k id z) j x ≡ not (same_key k j && id == x) && sismember z j x
  pub sismember-delete :
      (k : IndexKey) (z : Store) (j : IndexKey) (x : ℕ)
      → sismember (delete k z) j x ≡ not (same_key k j) && sismember z j x

module _ (S : SetStore) where
  -- `add_open_order`
  unfoldable pub index_order : ℕ → ℕ → ℕ → S.Store → S.Store
  index_order user_id symbol id z =
      S.sadd (symbol_key symbol) id
        (S.sadd (user_symbol_key user_id symbol) id (S.sadd (user_key user_id) id z))

  -- `remove_open_order`
  unfoldable pub unindex_order : ℕ → ℕ → ℕ → S.Store → S.Store
  unindex_order user_id symbol id z =
      S.srem (symbol_key symbol) id
        (S.srem (user_symbol_key user_id symbol) id (S.srem (user_key user_id) id z))

  -- `is_order_open`
  unfoldable pub is_order_open : ℕ → ℕ → S.Store → Bool
  is_order_open user_id id z = S.sismember z (user_key user_id) id

  abbrev pub drop_symbol : ℕ → ℕ → Option ℕ → S.Store → S.Store
  drop_symbol user_id id none z = z
  drop_symbol user_id id (some symbol) z =
      S.srem (symbol_key symbol) id (S.srem (user_symbol_key user_id symbol) id z)

  -- The second pipeline of `cancel_all_user_orders`.
  unfoldable pub drop_each : (ℕ → Option ℕ) → ℕ → List ℕ → S.Store → S.Store
  drop_each symbol_in_hash user_id [] z = z
  drop_each symbol_in_hash user_id (id ∷ ids) z =
      drop_each symbol_in_hash user_id ids (drop_symbol user_id id (symbol_in_hash id) z)

  -- The pipeline for one symbol.
  unfoldable pub drop_on_symbol : ℕ → ℕ → List ℕ → S.Store → S.Store
  drop_on_symbol user_id symbol [] z = z
  drop_on_symbol user_id symbol (id ∷ ids) z =
      drop_on_symbol user_id symbol ids
        (S.srem (symbol_key symbol) id (S.srem (user_key user_id) id z))

  -- `cancel_all_user_orders`, with or without a symbol; the ids are those of the set, unsorted.
  unfoldable pub cancel_all_user_orders : (ℕ → Option ℕ) → ℕ → Option ℕ → S.Store → List ℕ × S.Store
  unfolding drop_each drop_on_symbol
  cancel_all_user_orders symbol_in_hash user_id none z =
      let ids = S.smembers z (user_key user_id) in
      (ids, drop_each symbol_in_hash user_id ids (S.delete (user_key user_id) z))
  cancel_all_user_orders symbol_in_hash user_id (some symbol) z =
      let ids = S.smembers z (user_symbol_key user_id symbol) in
      (ids, drop_on_symbol user_id symbol ids (S.delete (user_symbol_key user_id symbol) z))
