-- ===== src/Synchronization.antt =====
-- packages/shared/pkg/synchronization/synchronization.go: a round that brings a pool in line with a
-- source. The store is an interface: its operations are parameters, with the laws that the round
-- relies on. Each item has a goroutine; their steps run in the order of a schedule of positions,
-- and the wait group then sees those that are not done to their end.
pub mod Laws
mod Schedules
pub mod Rounds
mod Examples
use aether_agent.Prelude.{
  ℕ, zero, suc, Bool, true, false, List, [], ◌∷◌, if◌then◌else◌, map, Result, ok, err,
}

-- The interface `Store`, on the pool's state.
pub record Store (SourceItem PoolItem Pool : Type 0) : Type 0 where
  pub source_exists : List SourceItem → PoolItem → Bool
  pub pool_list : Pool → List PoolItem
  pub pool_exists : SourceItem → Pool → Bool
  pub pool_insert : SourceItem → Pool → Pool
  pub pool_update : PoolItem → Pool → Pool
  pub pool_remove : PoolItem → Pool → Pool

-- A goroutine of `syncDiscovered`: before it asks the pool, before it inserts, and done.
pub data Discovery (SourceItem : Type 0) : Type 0 where
  checking : SourceItem → Discovery SourceItem
  inserting : SourceItem → Discovery SourceItem
  discovered : SourceItem → Discovery SourceItem

-- A goroutine of `syncOutdated`.
pub data Treatment (PoolItem : Type 0) : Type 0 where
  treating : PoolItem → Treatment PoolItem
  treated : PoolItem → Treatment PoolItem

-- Goroutines that share the pool.
module _ {W Pool : Type 0} (advance : W → Pool → W × Pool) where
  unfoldable pub step_at : ℕ → List W → Pool → List W × Pool
  step_at i [] p = ([], p)
  step_at zero (w ∷ ws) p = let (w', p') = advance w p in (w' ∷ ws, p')
  step_at (suc i) (w ∷ ws) p = let (ws', p') = step_at i ws p in (w ∷ ws', p')

  unfoldable pub run_schedule : List ℕ → List W → Pool → List W × Pool
  unfolding step_at
  run_schedule [] ws p = (ws, p)
  run_schedule (i ∷ is) ws p = let (ws', p') = step_at i ws p in run_schedule is ws' p'

  -- Two steps end every goroutine.
  unfoldable pub wait_all : List W → Pool → Pool
  wait_all [] p = p
  wait_all (w ∷ ws) p =
      let (w', p') = advance w p in let (w'', p'') = advance w' p' in wait_all ws p''

  unfoldable pub run_all : List ℕ → List W → Pool → Pool
  unfolding run_schedule wait_all
  run_all schedule ws p = let (ws', p') = run_schedule schedule ws p in wait_all ws' p'

module _ {S P Pool : Type 0} (store : Store S P Pool) where
  unfoldable pub discover : Discovery S → Pool → Discovery S × Pool
  discover (checking item) p =
      if store.pool_exists item p then (discovered item, p) else (inserting item, p)
  discover (inserting item) p = (discovered item, store.pool_insert item p)
  discover (discovered item) p = (discovered item, p)

  unfoldable pub sync_discovered : List ℕ → List S → Pool → Pool
  unfolding run_all discover
  sync_discovered schedule source_items p = run_all discover schedule (map checking source_items) p

  unfoldable pub treat : List S → Treatment P → Pool → Treatment P × Pool
  treat source_items (treating item) p =
      if store.source_exists source_items item
      then (treated item, store.pool_update item p)
      else (treated item, store.pool_remove item p)
  treat source_items (treated item) p = (treated item, p)

  unfoldable pub sync_outdated : List ℕ → List S → Pool → Pool
  unfolding run_all treat
  sync_outdated schedule source_items p =
      run_all (treat source_items) schedule (map treating (store.pool_list p)) p

  -- `sync`, with what `SourceList` returns and the schedules of the two phases.
  unfoldable pub sync {ℓ} :
      {E : Type ℓ} → List ℕ → List ℕ → Result E (List S) → Pool → Result E Pool
  unfolding sync_discovered sync_outdated
  sync first second (err e) p = err e
  sync first second (ok source_items) p =
      ok (sync_outdated second source_items (sync_discovered first source_items p))
