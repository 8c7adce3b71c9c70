-- ===== src/Header/Create/Loop.antt =====
-- The loop of `CreateMapping`: what its mappings say of each block, from any run of blocks on.
use mathlib.Core.Option
use native.Mathlib.Nat.{mul-le-mul_right, mul-le-mul_left, le_of_lt, add-mul, dvd-mul_left}
use aether_agent.Prelude.{
  ℕ, zero, suc, ◌+◌, ◌-◌, ◌*◌, ◌≤◌, ◌<◌, ◌≡◌, refl, ap, sym, ◌∙◌, ◌&&◌, Option, none, some, List,
  [], ◌∷◌, ◌++◌, arith, ltb, leb, if◌then◌else◌, add64, mul64, add64_small, mul64_small, i64_max,
  inl, inr, lt_cases, ==_ne, ==_iff, lt→ltb, All, Bool-cases,
}
use aether_agent.Header.Mapping.{BuildMap, locate, IsOrdered, IsOrdered-weaken}
use aether_agent.Header.Cover.{Fits, Joined, IsJoinable}
use aether_agent.Header.Create.{next_run, create_loop}
use aether_agent.Header.Create.Bits.{place, Rising}
use aether_agent.Header.Create.Runs.{run_of, run_map, flush_lem, locate-run_map}

-- Where the data file holds block `q`, counted in blocks: in the run, or among the bits behind it.
abbrev slot : ℕ → ℕ → ℕ → List ℕ → ℕ → Option ℕ
slot s n i ks q = if leb s q && ltb q (s + n) then some (i + (q - s)) else place ks (i + n) q

slot_cons : (k : ℕ) (ks : List ℕ) (j q : ℕ) → slot k 1 j ks q ≡ place (k ∷ ks) j q
slot_cons k ks j q = ground arith

slot_continue :
    (s n i : ℕ) (ks : List ℕ) (q : ℕ) → slot s (n + 1) i ks q ≡ slot s n i ((s + n) ∷ ks) q
slot_continue s n i ks q = let e : i + (n + 1) ≡ i + n + 1 = omega arith in rw e (ground arith)

slot_skip : (s i k : ℕ) (ks : List ℕ) (q : ℕ) → slot k 1 (i + 0) ks q ≡ slot s 0 i (k ∷ ks) q
slot_skip s i k ks q = ground arith

slot_end : (s i q : ℕ) → none ≡ slot s 0 i [] q
slot_end s i q = ground arith

-- The first mapping is stored at `o`.
abbrev StoredFrom : ℕ → List BuildMap → Type 0
StoredFrom o [] = Unit {0}
StoredFrom o (m ∷ ms) = m.build_storage_offset ≡ o

StoredFrom-eq : {o p : ℕ} (ms : List BuildMap) → StoredFrom o ms → o ≡ p → StoredFrom p ms
StoredFrom-eq [] f e = tt
StoredFrom-eq (m ∷ ms) f e = f ∙ e

Joined-cons :
    (m : BuildMap) (o : ℕ) (ms : List BuildMap)
    → StoredFrom o ms
    → o ≡ add64 m.build_storage_offset m.length
    → IsJoinable ms
    → Joined m ms
Joined-cons m o [] f e j = tt
Joined-cons m o (n ∷ ns) f e j = ((λ _. inr (f ∙ e)), j)

module _ (build_id bs hi : ℕ) (small : hi * bs < i64_max) (positive : 0 < bs) where
  abbrev loop : ℕ → ℕ → ℕ → List ℕ → List BuildMap
  loop s n i ks = create_loop build_id bs (run_of bs s n i) ks

  -- Byte `r` of the block that the data file holds at `j`.
  abbrev at_slot : ℕ → ℕ → ℕ × ℕ
  at_slot r j = (build_id, j * bs + r)

  hi_small : hi < i64_max
  hi_small = omega (arith, mul-le-mul_left hi positive)

  below : (n : ℕ) → n ≤ hi → n * bs < i64_max
  below n h = omega (arith, mul-le-mul_right bs h)

  continue_lem :
      (s n i : ℕ) (ks : List ℕ) → s + n < hi → loop s n i ((s + n) ∷ ks) ≡ loop s (n + 1) i ks
  unfolding create_loop
  continue_lem s n i ks h = rw (
    add64_small s n (omega (arith, hi_small)),
    (==_iff (s + n) (s + n)).1 refl,
    add64_small n 1 (omega (arith, hi_small)),
  )

  stored_lem :
      (n i : ℕ)
      → i + n ≤ hi
      → (if ltb 0 n then add64 (i * bs) (mul64 n bs) else i * bs) ≡ (i + n) * bs
  stored_lem zero i h = ap (λ (m : ℕ). m * bs) (omega arith)
  stored_lem (suc n) i h =
      let e : (i + suc n) * bs ≡ i * bs + suc n * bs = add-mul i (suc n) bs in
      rw
        (
          lt→ltb 0 (suc n) (omega arith),
          mul64_small (suc n) bs (omega (arith, below (suc n) (omega arith))),
        )
        (add64_small (i * bs) (suc n * bs) (omega (arith, e, below (i + suc n) h)) ∙ sym e)

  stored_behind : (n i : ℕ) → i + n ≤ hi → (i + n) * bs ≡ add64 (i * bs) (n * bs)
  stored_behind n i h =
      let e : (i + n) * bs ≡ i * bs + n * bs = add-mul i n bs in
      e ∙ sym (add64_small (i * bs) (n * bs) (omega (arith, e, below (i + n) h)))

  next_run_lem :
      (s n i k : ℕ) → s + n ≤ hi → i ≤ s → next_run bs k (run_of bs s n i) ≡ run_of bs k 1 (i + n)
  unfolding next_run
  next_run_lem s n i k h l =
      ap (λ (o : ℕ). record { start_block = k; block_length = 1; build_storage_offset = o })
        (stored_lem n i (omega arith))

  restart_lem :
      (s n i k : ℕ) (ks : List ℕ)
      → s + n < k
      → k < hi
      → i ≤ s
      → loop s n i (k ∷ ks)
        ≡ (if ltb 0 n then run_map build_id bs s n i ∷ [] else []) ++ loop k 1 (i + n) ks
  unfolding create_loop
  restart_lem s n i k ks h l m = rw (
    add64_small s n (omega (arith, hi_small)),
    ==_ne (s + n) k (λ e. omega arith),
    flush_lem build_id bs hi small s n i (omega arith),
    next_run_lem s n i k (omega arith) m,
  )

  -- What the mappings are that come of a run and of the bits behind it.
  pub record Created (s n i : ℕ) (ks : List ℕ) (ms : List BuildMap) : Type 0 where
    pub ordered : IsOrdered (s * bs) ms
    pub fit : All (Fits (hi * bs) bs) ms
    pub one_build : All (λ m. m.build_id ≡ build_id) ms
    pub first : StoredFrom (i * bs) ms
    pub joined : IsJoinable ms
    pub located :
        (q r : ℕ) → r < bs → locate ms (q * bs + r) ≡ Option.map (at_slot r) (slot s n i ks q)

  -- A run in front of what comes of a later run.
  Created-cons :
      (s n i k : ℕ) (ks : List ℕ) (ms : List BuildMap)
      → 0 < n
      → s + n < k
      → s + n ≤ hi
      → i ≤ s
      → Created k 1 (i + n) ks ms
      → Created s n i (k ∷ ks) (run_map build_id bs s n i ∷ ms)
  Created-cons s n i k ks ms pos h l m c = record {
    ordered = (
      omega arith,
      omega (arith, top, below (s + n) l),
      IsOrdered-weaken _ (k * bs) ms (omega (arith, top, mul-le-mul_right bs (le_of_lt h)))
          c.ordered,
    );
    fit = (
      (
        omega (arith, top, mul-le-mul_right bs l),
        dvd-mul_left bs s,
        dvd-mul_left bs n,
        omega (arith, mul-le-mul_right bs pos),
      ),
      c.fit,
    );
    one_build = (refl, c.one_build);
    first = refl;
    joined =
        Joined-cons (run_map build_id bs s n i) ((i + n) * bs) ms c.first
          (stored_behind n i (omega arith)) c.joined;
    located = λ q r a.
        locate-run_map build_id bs hi small s n i q r ms l m a
        ∙ rw (c.located q r a) (elim (Bool-cases (leb s q && ltb q (s + n))) [
          | inl e ↦ rw e
          | inr e ↦ rw e (ap (Option.map (at_slot r)) (slot_cons k ks (i + n) q))
        ]);
  }
    where
      top : (s + n) * bs ≡ s * bs + n * bs
      top = add-mul s n bs

  Created-continue :
      (s n i : ℕ) (ks : List ℕ) (ms : List BuildMap)
      → Created s (n + 1) i ks ms
      → Created s n i ((s + n) ∷ ks) ms
  Created-continue s n i ks ms c = record {
    ordered = c.ordered;
    fit = c.fit;
    one_build = c.one_build;
    first = c.first;
    joined = c.joined;
    located = λ q r a. c.located q r a ∙ ap (Option.map (at_slot r)) (slot_continue s n i ks q);
  }

  Created-skip :
      (s i k : ℕ) (ks : List ℕ) (ms : List BuildMap)
      → s ≤ k
      → Created k 1 (i + 0) ks ms
      → Created s 0 i (k ∷ ks) ms
  Created-skip s i k ks ms h c = record {
    ordered = IsOrdered-weaken (s * bs) (k * bs) ms (mul-le-mul_right bs h) c.ordered;
    fit = c.fit;
    one_build = c.one_build;
    first = StoredFrom-eq ms c.first (ap (λ (j : ℕ). j * bs) (omega arith));
    joined = c.joined;
    located = λ q r a. c.located q r a ∙ ap (Option.map (at_slot r)) (slot_skip s i k ks q);
  }

  Created-end : (s n i : ℕ) → s + n ≤ hi → i ≤ s → Created s n i [] (loop s n i [])
  unfolding create_loop locate
  Created-end s zero i h m = rw (flush_lem build_id bs hi small s 0 i h) (record {
    ordered = tt;
    fit = tt;
    one_build = tt;
    first = tt;
    joined = tt;
    located = λ q r a. ap (Option.map (at_slot r)) (slot_end s i q);
  })
  Created-end s (suc n) i h m =
      let top : (s + suc n) * bs ≡ s * bs + suc n * bs = add-mul s (suc n) bs in
      rw (flush_lem build_id bs hi small s (suc n) i h, lt→ltb 0 (suc n) (omega arith))
        (record {
          ordered = (omega arith, omega (arith, top, below (s + suc n) h), tt);
          fit = (
            (
              omega (arith, top, mul-le-mul_right bs h),
              dvd-mul_left bs s,
              dvd-mul_left bs (suc n),
              omega (arith, mul-le-mul_right {m = 1} {n = suc n} bs (omega arith)),
            ),
            tt,
          );
          one_build = (refl, tt);
          first = refl;
          joined = tt;
          located = λ q r a.
              locate-run_map build_id bs hi small s (suc n) i q r [] h m a
              ∙ elim (Bool-cases (leb s q && ltb q (s + suc n))) [ inl e ↦ rw e | inr e ↦ rw e ];
        })

  Created-restart :
      (s n i k : ℕ) (ks : List ℕ)
      → s + n < k
      → k < hi
      → i ≤ s
      → Created k 1 (i + n) ks (loop k 1 (i + n) ks)
      → Created s n i (k ∷ ks) (loop s n i (k ∷ ks))
  Created-restart s zero i k ks h l m c =
      rw (restart_lem s 0 i k ks h l m) (Created-skip s i k ks _ (omega arith) c)
  Created-restart s (suc n) i k ks h l m c =
      rw (restart_lem s (suc n) i k ks h l m, lt→ltb 0 (suc n) (omega arith))
        (Created-cons s (suc n) i k ks _ (omega arith) h (omega arith) m c)

  pub loop-Created :
      (s n i : ℕ) (ks : List ℕ)
      → s + n ≤ hi
      → i ≤ s
      → Rising (s + n) hi ks
      → Created s n i ks (loop s n i ks)
  loop-Created s n i [] h m u = Created-end s n i h m
  loop-Created s n i (k ∷ ks) h m u = elim (lt_cases (s + n) k) [
    | inl a ↦
        Created-restart s n i k ks a u.1 m
          (loop-Created k 1 (i + n) ks (omega arith) (omega arith) u.2)
    | inr (inl a) ↦ rw (← a) (
        rw (continue_lem s n i ks (omega arith)) (
          Created-continue s n i ks _ (
            loop-Created s (n + 1) i ks (omega arith) m
              (let e : s + (n + 1) ≡ k + 1 = omega arith in rw e u.2))))
    | inr (inr a) ↦ absurd (omega arith)
  ]
