-- ===== src/Synchronization/Examples.antt =====
-- A round over a pool that is a list of keys.
use aether_agent.Prelude.{
  ℕ, false, ◌&&◌, not, List, [], ◌∷◌, ◌==◌, ==_iff, ◌≡◌, refl, arith, inl, inr, Bool-cases, ok,
  if◌then◌else◌,
}
use aether_agent.Synchronization.{
  Store, sync, sync_discovered, run_all, run_schedule, wait_all, step_at, discover,
}
use aether_agent.Synchronization.Laws.{has_key, IsStore}
use aether_agent.Synchronization.Rounds.{sync_lem}

abbrev key : ℕ → ℕ
key n = n

abbrev without : ℕ → List ℕ → List ℕ
without j [] = []
without j (n ∷ ns) = if n == j then without j ns else n ∷ without j ns

abbrev keys : Store ℕ ℕ (List ℕ)
keys = record {
  source_exists = λ ss j. has_key key j ss;
  pool_list = λ p. p;
  pool_exists = λ s p. has_key key s p;
  pool_insert = λ s p. s ∷ p;
  pool_update = λ j p. p;
  pool_remove = without;
}

has_key-without :
    (k j : ℕ) (p : List ℕ) → has_key key k (without j p) ≡ (not (j == k) && has_key key k p)
unfolding has_key
has_key-without k j [] = elim (Bool-cases (j == k)) [ inl e ↦ rw e refl | inr e ↦ rw e refl ]
has_key-without k j (n ∷ ns) = elim (Bool-cases (n == j)) [
  | inl e ↦
      let q : n ≡ j = (==_iff n j).0 e in
      rw (e, q, has_key-without k j ns)
        (elim (Bool-cases (j == k)) [ inl f ↦ rw f refl | inr f ↦ rw f refl ])
  | inr e ↦ elim (Bool-cases (n == k)) [
    | inl f ↦
        let q : n ≡ k = (==_iff n k).0 f in
        let g : (j == k) ≡ false = ground arith in rw (e, f, g) refl
    | inr f ↦ rw (e, f) (has_key-without k j ns)
  ]
]

keys-IsStore : IsStore keys
unfolding has_key
keys-IsStore = record {
  source_key = key;
  pool_key = key;
  is_in = has_key key;
  exists_lem = λ s p. refl;
  source_lem = λ ss j. refl;
  list_lem = λ k p. refl;
  insert_lem = λ k s p. refl;
  update_lem = λ k j p. refl;
  remove_lem = has_key-without;
}

sync_lem_example :
    (p' : List ℕ) × (sync keys {E = ℕ} (1 ∷ 0 ∷ 1 ∷ []) (2 ∷ 0 ∷ []) (ok (3 ∷ 4 ∷ [])) (2 ∷ 4 ∷ [])
      ≡ ok p')
    × ((k : ℕ) → keys-IsStore.is_in k p' ≡ has_key keys-IsStore.source_key k (3 ∷ 4 ∷ []))
sync_lem_example =
    sync_lem keys keys-IsStore (1 ∷ 0 ∷ 1 ∷ []) (2 ∷ 0 ∷ []) (3 ∷ 4 ∷ []) (2 ∷ 4 ∷ [])

-- Two goroutines for one key that both ask before either inserts put it into the pool twice.
inserted_twice : sync_discovered keys (0 ∷ 1 ∷ 0 ∷ 1 ∷ []) (3 ∷ 3 ∷ []) [] ≡ 3 ∷ 3 ∷ []
unfolding sync_discovered run_all run_schedule wait_all step_at discover has_key
inserted_twice = refl
