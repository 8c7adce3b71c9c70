-- ===== src/Synchronization/Laws.antt =====
-- What a round relies on in its store: a pool has some keys, and the operations change them.
use aether_agent.Prelude.{ℕ, Bool, false, ◌&&◌, ◌||◌, not, List, [], ◌∷◌, ◌==◌, ◌≡◌}
use aether_agent.Synchronization.{Store}

-- Whether some item of the list has the key.
unfoldable pub has_key : {A : Type 0} → (A → ℕ) → ℕ → List A → Bool
has_key key k [] = false
has_key key k (a ∷ as_) = key a == k || has_key key k as_

-- A pool's item stands for a source's item if they have the same key.
pub record IsStore {S P Pool : Type 0} (store : Store S P Pool) : Type 0 where
  pub source_key : S → ℕ
  pub pool_key : P → ℕ
  pub is_in : ℕ → Pool → Bool
  pub exists_lem : (s : S) (p : Pool) → store.pool_exists s p ≡ is_in (source_key s) p
  pub source_lem :
      (ss : List S) (j : P) → store.source_exists ss j ≡ has_key source_key (pool_key j) ss
  pub list_lem : (k : ℕ) (p : Pool) → has_key pool_key k (store.pool_list p) ≡ is_in k p
  pub insert_lem :
      (k : ℕ) (s : S) (p : Pool)
      → is_in k (store.pool_insert s p) ≡ (source_key s == k || is_in k p)
  pub update_lem : (k : ℕ) (j : P) (p : Pool) → is_in k (store.pool_update j p) ≡ is_in k p
  pub remove_lem :
      (k : ℕ) (j : P) (p : Pool)
      → is_in k (store.pool_remove j p) ≡ (not (pool_key j == k) && is_in k p)
