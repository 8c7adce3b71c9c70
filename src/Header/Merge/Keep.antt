-- ===== src/Header/Merge/Keep.antt =====
-- A property of single mappings that both parts of a split mapping inherit holds of all that
-- `MergeMappings` returns.
use aether_agent.Prelude.{
  ℕ, zero, suc, ◌+◌, ◌≤◌, ◌<◌, ◌≡◌, some, List, [], ◌∷◌, ◌++◌, arith, All, Bool-cases, ltb→lt, ltb,
  All-append, inl, inr, Option-cases, add64_small,
}
use aether_agent.Header.Mapping.{BuildMap, IsOrdered}
use aether_agent.Header.Merge.{
  Step, left_base, right_base, merge_step, overlap_step, merge_loop, merge_mappings,
}
use aether_agent.Header.Merge.Round.{
  upto, from, left_base_lem, right_base_lem, progress, base-IsOrdered, diff-IsOrdered,
}

module _ (P : BuildMap → Type 0)
    (P-upto : (m d : BuildMap)
      → P m
      → P d
      → m.offset < d.offset
      → d.offset ≤ m.offset + m.length
      → P (upto m d.offset))
    (P-from : (m d : BuildMap)
      → P m
      → P d
      → m.offset ≤ d.offset + d.length
      → d.offset + d.length < m.offset + m.length
      → P (from m (d.offset + d.length))) where
  module _ (lo : ℕ) (base diff : BuildMap) (bases diffs : List BuildMap)
      (b : IsOrdered lo (base ∷ bases)) (d : IsOrdered lo (diff ∷ diffs)) (pb : P base)
      (pbs : All P bases) (pd : P diff) (pds : All P diffs) where
    left_base-All :
        base.offset ≤ diff.offset
        → diff.offset ≤ base.offset + base.length
        → All P (left_base base diff)
    left_base-All h k =
        rw (left_base_lem base diff h (omega (arith, d.1)))
          (elim (Bool-cases (ltb base.offset diff.offset)) [
            | inl e ↦ rw e (P-upto base diff pb pd (ltb→lt _ _ e) k, tt)
            | inr e ↦ rw e tt
          ])

    pub right_base-All :
        base.offset < diff.offset + diff.length
        → diff.offset + diff.length ≤ base.offset + base.length
        → All P (right_base base diff bases)
    right_base-All h k =
        rw (right_base_lem base diff bases h b.1 d.1)
          (elim (Bool-cases (ltb (diff.offset + diff.length) (base.offset + base.length))) [
            | inl e ↦ rw e (P-from base diff pb pd (omega arith) (ltb→lt _ _ e), pbs)
            | inr e ↦ rw e pbs
          ])

    merge_step-All :
        let s = merge_step base bases diff diffs in All P s.out × All P s.base × All P s.diff
    unfolding merge_step overlap_step
    merge_step-All = ground (
      arith,
      add64_small base.offset base.length,
      add64_small diff.offset diff.length,
      left_base-All,
      right_base-All,
      All-append P (left_base base diff) (diff ∷ []),
    )

  merge_loop-All :
      (fuel lo : ℕ) (base diff r : List BuildMap)
      → IsOrdered lo base
      → IsOrdered lo diff
      → All P base
      → All P diff
      → merge_loop fuel base diff ≡ some r
      → All P r
  unfolding merge_loop
  merge_loop-All fuel lo [] diff r b d pb pd e = let q : diff ≡ r = cc in rw (← q) pd
  merge_loop-All fuel lo (base ∷ bases) [] r b d pb pd e =
      let q : base ∷ bases ≡ r = cc in rw (← q) pb
  merge_loop-All zero lo (base ∷ bases) (diff ∷ diffs) r b d pb pd e = cc
  merge_loop-All (suc fuel) lo (base ∷ bases) (diff ∷ diffs) r b d pb pd e =
      let s : Step = merge_step base bases diff diffs in
      let (po, ps, pt) = merge_step-All lo base diff bases diffs b d pb.0 pb.1 pd.0 pd.1 in
      elim (Option-cases (merge_loop fuel s.base s.diff)) [
        | inl p ↦ cc (rw p at e)
        | inr (rest, p) ↦
            let q : s.out ++ rest ≡ r = cc (rw p at e) in
            rw (← q) (
              All-append P s.out rest po (
                merge_loop-All fuel (progress lo base diff) s.base s.diff rest
                  (base-IsOrdered lo base diff bases diffs b d)
                  (diff-IsOrdered lo base diff bases diffs b d) ps pt p))
      ]

  pub merge_mappings-All :
      (lo : ℕ) (base diff r : List BuildMap)
      → IsOrdered lo base
      → IsOrdered lo diff
      → All P base
      → All P diff
      → merge_mappings base diff ≡ some r
      → All P r
  unfolding merge_mappings
  merge_mappings-All lo base [] r b d pb pd e = let q : base ≡ r = cc in rw (← q) pb
  merge_mappings-All lo base (diff ∷ diffs) r b d pb pd e =
      merge_loop-All _ lo base (diff ∷ diffs) r b d pb pd e
