-- ===== src/Synchronization/Rounds.antt =====
-- A round of synchronization, in any schedule.
use aether_agent.Prelude.{
  ℕ, Bool, true, false, ◌&&◌, ◌||◌, not, List, [], ◌∷◌, ◌==◌, ==_iff, ◌≡◌, refl, ap, sym, ◌∙◌, inl,
  inr, Bool-cases, map, ok,
}
use aether_agent.Synchronization.{
  Store, Discovery, checking, inserting, discovered, Treatment, treating, treated, discover,
  sync_discovered, treat, sync_outdated, sync,
}
use aether_agent.Synchronization.Laws.{has_key, IsStore}
use aether_agent.Synchronization.Schedules.{any, or_swap, or_false, run_all_keeps}

stays_in : (x a rest : Bool) → (a && not rest) ≡ (a && not ((x && false) || rest))
stays_in true a rest = refl
stays_in false a rest = refl

goes_out : (x a rest : Bool) → ((not x && a) && not rest) ≡ (a && not ((x && true) || rest))
goes_out true true rest = refl
goes_out true false rest = refl
goes_out false a rest = refl

and_true : (a : Bool) → (a && true) ≡ a
and_true true = refl
and_true false = refl

absorbed : (a b : Bool) → (a || (b && a)) ≡ a
absorbed true b = refl
absorbed false true = refl
absorbed false false = refl

-- What is in after both phases, from what was in and what is in the source.
in_source : (b h : Bool) → ((b || h) && not ((b || h) && not h)) ≡ h
in_source true true = refl
in_source true false = refl
in_source false true = refl
in_source false false = refl

module _ {S P Pool : Type 0} (store : Store S P Pool) (laws : IsStore store) where
  -- The goroutine may still insert the key.
  abbrev to_insert : ℕ → Discovery S → Bool
  to_insert k (checking s) = laws.source_key s == k
  to_insert k (inserting s) = laws.source_key s == k
  to_insert k (discovered s) = false

  -- The goroutine will remove the key.
  abbrev to_remove : ℕ → List S → Treatment P → Bool
  to_remove k ss (treating j) = laws.pool_key j == k && not (store.source_exists ss j)
  to_remove k ss (treated j) = false

  discover_keeps :
      (k : ℕ) (w : Discovery S) (p : Pool) (rest : Bool)
      → (laws.is_in k (discover store w p).1 || (to_insert k (discover store w p).0 || rest))
        ≡ (laws.is_in k p || (to_insert k w || rest))
  unfolding discover
  discover_keeps k (checking s) p rest = elim (Bool-cases (store.pool_exists s p)) [
    | inl e ↦ elim (Bool-cases (laws.source_key s == k)) [
      | inl f ↦
          let q : laws.source_key s ≡ k = (==_iff (laws.source_key s) k).0 f in
          let i : laws.is_in k p ≡ true =
            ap (λ x. laws.is_in x p) (sym q) ∙ sym (laws.exists_lem s p) ∙ e in
          rw (e, i) refl
      | inr f ↦ rw (e, f) refl
    ]
    | inr e ↦ rw e refl
  ]
  discover_keeps k (inserting s) p rest =
      rw (laws.insert_lem k s p) (or_swap (laws.source_key s == k) (laws.is_in k p) rest)
  discover_keeps k (discovered s) p rest = refl

  discover_ends :
      (k : ℕ) (w : Discovery S) (p : Pool)
      → to_insert k (discover store (discover store w p).0 (discover store w p).1).0 ≡ false
  unfolding discover
  discover_ends k (checking s) p = elim (Bool-cases (store.pool_exists s p)) [
    | inl e ↦ rw e refl
    | inr e ↦ rw e refl
  ]
  discover_ends k (inserting s) p = refl
  discover_ends k (discovered s) p = refl

  treat_keeps :
      (k : ℕ) (ss : List S) (w : Treatment P) (p : Pool) (rest : Bool)
      → (laws.is_in k (treat store ss w p).1 && not (to_remove k ss (treat store ss w p).0 || rest))
        ≡ (laws.is_in k p && not (to_remove k ss w || rest))
  unfolding treat
  treat_keeps k ss (treating j) p rest = elim (Bool-cases (store.source_exists ss j)) [
    | inl e ↦ rw (e, laws.update_lem k j p) (stays_in (laws.pool_key j == k) (laws.is_in k p) rest)
    | inr e ↦ rw (e, laws.remove_lem k j p) (goes_out (laws.pool_key j == k) (laws.is_in k p) rest)
  ]
  treat_keeps k ss (treated j) p rest = refl

  treat_ends :
      (k : ℕ) (ss : List S) (w : Treatment P) (p : Pool)
      → to_remove k ss (treat store ss (treat store ss w p).0 (treat store ss w p).1).0 ≡ false
  unfolding treat
  treat_ends k ss (treating j) p = elim (Bool-cases (store.source_exists ss j)) [
    | inl e ↦ rw e refl
    | inr e ↦ rw e refl
  ]
  treat_ends k ss (treated j) p = refl

  any_checking :
      (k : ℕ) (ss : List S) → any (to_insert k) (map checking ss) ≡ has_key laws.source_key k ss
  unfolding has_key
  any_checking k [] = refl
  any_checking k (s ∷ ss) = ap (λ b. laws.source_key s == k || b) (any_checking k ss)

  any_treating :
      (k : ℕ) (ss : List S) (js : List P)
      → any (to_remove k ss) (map treating js)
        ≡ (has_key laws.pool_key k js && not (has_key laws.source_key k ss))
  any_treating k ss [] = unfold has_key in refl
  any_treating k ss (j ∷ js) =
      let ih = any_treating k ss js in
      elim (Bool-cases (laws.pool_key j == k)) [
        | inl e ↦
            let q : laws.pool_key j ≡ k = (==_iff (laws.pool_key j) k).0 e in
            let f : store.source_exists ss j ≡ has_key laws.source_key k ss =
              laws.source_lem ss j ∙ ap (λ x. has_key laws.source_key x ss) q in
            let g : has_key laws.pool_key k (j ∷ js) ≡ true = unfold has_key in rw e refl in
            rw (e, f, g, ih)
              (absorbed (not (has_key laws.source_key k ss)) (has_key laws.pool_key k js))
        | inr e ↦
            let g : has_key laws.pool_key k (j ∷ js) ≡ has_key laws.pool_key k js =
              unfold has_key in rw e refl in
            rw (e, g) ih
      ]

  discovered_in :
      (k : ℕ) (first : List ℕ) (ss : List S) (p : Pool)
      → laws.is_in k (sync_discovered store first ss p)
        ≡ (laws.is_in k p || has_key laws.source_key k ss)
  unfolding sync_discovered
  discovered_in k first ss p =
      sym (or_false _)
      ∙ run_all_keeps (discover store) (to_insert k) (laws.is_in k) (λ a b. a || b)
          (discover_keeps k) (discover_ends k) first (map checking ss) p
      ∙ ap (λ b. laws.is_in k p || b) (any_checking k ss)

  outdated_out :
      (k : ℕ) (second : List ℕ) (ss : List S) (p : Pool)
      → laws.is_in k (sync_outdated store second ss p)
        ≡ (laws.is_in k p && not (laws.is_in k p && not (has_key laws.source_key k ss)))
  unfolding sync_outdated
  outdated_out k second ss p =
      sym (and_true _)
      ∙ run_all_keeps (treat store ss) (to_remove k ss) (laws.is_in k) (λ a b. a && not b)
          (treat_keeps k ss) (treat_ends k ss) second (map treating (store.pool_list p)) p
      ∙ ap (λ b. laws.is_in k p && not b)
          (any_treating k ss (store.pool_list p)
            ∙ ap (λ b. b && not (has_key laws.source_key k ss)) (laws.list_lem k p))

  -- For every store with the laws, every pool and every source that could be listed: a round ends
  -- with a pool, and in it is exactly what is in the source, whatever the schedules of the two
  -- phases are.
  pub sync_lem :
      {E : Type 0} (first second : List ℕ) (ss : List S) (p : Pool)
      → (p' : Pool) × (sync store {E = E} first second (ok ss) p ≡ ok p')
        × ((k : ℕ) → laws.is_in k p' ≡ has_key laws.source_key k ss)
  unfolding sync
  sync_lem first second ss p =
      let p1 = sync_discovered store first ss p in
      (
        sync_outdated store second ss p1,
        refl,
        λ k.
            outdated_out k second ss p1
            ∙ ap (λ b. b && not (b && not (has_key laws.source_key k ss)))
                (discovered_in k first ss p)
            ∙ in_source (laws.is_in k p) (has_key laws.source_key k ss),
      )
