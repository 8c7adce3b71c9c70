-- ===== src/Header/Create/Bits.antt =====
-- The loop over the set bits goes through each of them once, in order, and ends.
use aether_agent.Prelude.{
  ℕ, zero, suc, ◌+◌, ◌-◌, ◌≤◌, ◌<◌, ◌≡◌, refl, ap, ◌∙◌, Bool, true, false, ◌&&◌, Option, none, some,
  List, [], ◌∷◌, arith, leb, ◌==◌, if◌then◌else◌, add64_small, u64_mod,
}
use aether_agent.Header.Bitset.{Bitset, IsNext, at, clear}
use aether_agent.Header.Create.{bits_from}

-- How many bits are set below `q`.
unfoldable pub rank : (ℕ → Bool) → ℕ → ℕ
rank test zero = 0
rank test (suc q) = (if test q then 1 else 0) + rank test q

-- Where `q` stands in the list, counted from `i`.
abbrev pub place : List ℕ → ℕ → ℕ → Option ℕ
place [] i q = none
place (k ∷ ks) i q = if q == k then some i else place ks (i + 1) q

-- Rising, from `lo` on and below `hi`.
abbrev pub Rising : ℕ → ℕ → List ℕ → Type 0
Rising lo hi [] = Unit {0}
Rising lo hi (k ∷ ks) = (lo ≤ k) × (k < hi) × Rising (k + 1) hi ks

pub rank_zero : (test : ℕ → Bool) → rank test 0 ≡ 0
unfolding rank
rank_zero test = refl

rank_clear : (test : ℕ → Bool) (q : ℕ) → test q ≡ false → rank test (suc q) ≡ rank test q
unfolding rank
rank_clear test q h = ground arith

rank_set : (test : ℕ → Bool) (q : ℕ) → test q ≡ true → rank test (q + 1) ≡ rank test q + 1
rank_set test q h = let e : q + 1 ≡ suc q = omega arith in rw e (unfold rank in ground arith)

rank_skip :
    (test : ℕ → Bool) (i n : ℕ)
    → ((j : ℕ) → i ≤ j → j < i + n → test j ≡ false)
    → rank test (i + n) ≡ rank test i
rank_skip test i zero c = ap (rank test) (omega arith)
rank_skip test i (suc n) c =
    let e : i + suc n ≡ suc (i + n) = omega arith in
    rw e (
      rank_clear test (i + n) (c (i + n) (omega arith) (omega arith))
      ∙ rank_skip test i n (λ j a b. c j a (omega arith)))

module _ (B : Bitset) (dirty : B.Bits) (small : B.len dirty < u64_mod) where
  -- What is known of the rest of the loop from `i` on.
  pub record Listed (i : ℕ) (ks : List ℕ) : Type 0 where
    pub rising : Rising i (B.len dirty) ks
    pub placed :
        (q : ℕ)
        → place ks (rank (B.test dirty) i) q
          ≡ (if leb i q && B.test dirty q then some (rank (B.test dirty) q) else none)

  Listed-nil : (i : ℕ) → ((j : ℕ) → i ≤ j → B.test dirty j ≡ false) → Listed i []
  Listed-nil i c = record { rising = tt; placed = λ q. ground (arith, c q) }

  Listed-cons :
      (i k : ℕ) (ks : List ℕ)
      → i ≤ k
      → B.test dirty k ≡ true
      → ((j : ℕ) → i ≤ j → j < k → B.test dirty j ≡ false)
      → Listed (k + 1) ks
      → Listed i (k ∷ ks)
  Listed-cons i k ks h t c r = record {
    rising = (h, B.test_len dirty k t, r.rising);
    placed = λ q. ground (arith, c q, r.placed q, same, rank_set (B.test dirty) k t);
  }
    where
      same : rank (B.test dirty) k ≡ rank (B.test dirty) i
      same =
          let e : i + (k - i) ≡ k = omega arith in
          rw e at (rank_skip (B.test dirty) i (k - i) (λ j a b. c j a (omega arith)))

  bits_step :
      (fuel i : ℕ) (o : Option ℕ)
      → B.next_set dirty i ≡ o
      → IsNext (B.test dirty) i o
      → B.len dirty < fuel + i + 1
      → ((k : ℕ)
          → i ≤ k
          → k < B.len dirty
          → (ks : List ℕ) × (bits_from B dirty fuel (k + 1) ≡ some ks) × Listed (k + 1) ks)
      → (ks : List ℕ) × (bits_from B dirty (suc fuel) i ≡ some ks) × Listed i ks
  unfolding bits_from
  bits_step fuel i none e (clear c) f rest = ([], rw (e, bits_from), Listed-nil i c)
  bits_step fuel i (some k) e (at _ h t c) f rest =
      let l : k < B.len dirty = B.test_len dirty k t in
      let (ks, p, r) = rest k h l in
      (
        k ∷ ks,
        rw (e, bits_from) (rw (add64_small k 1 (omega arith), p)),
        Listed-cons i k ks h t c r,
      )

  -- The loop ends with fuel for one round more than there are bits left, and goes through exactly
  -- the set bits, rising.
  pub bits_from_lem :
      (fuel i : ℕ)
      → i ≤ B.len dirty
      → B.len dirty < fuel + i
      → (ks : List ℕ) × (bits_from B dirty fuel i ≡ some ks) × Listed i ks
  bits_from_lem zero i l f = absurd (omega arith)
  bits_from_lem (suc fuel) i l f =
      bits_step fuel i (B.next_set dirty i) refl (B.next_set-IsNext dirty i) (omega arith)
        (λ k h m. bits_from_lem fuel (k + 1) (omega arith) (omega arith))
