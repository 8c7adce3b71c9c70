-- ===== src/Header/Merge/Join.antt =====
-- `MergeMappings` keeps neighbours of one build neighbours in the data file.
use aether_agent.Prelude.{
  ℕ, zero, suc, ◌+◌, ◌≤◌, ◌<◌, ◌≡◌, refl, inl, inr, some, List, [], ◌∷◌, ◌++◌, arith, All,
  Option-cases, Bool-cases, ltb, ltb→lt, lt→ltb, add64_small,
}
use aether_agent.Header.Mapping.{BuildMap, IsOrdered}
use aether_agent.Header.Cover.{Joins, Joined, IsJoinable}
use aether_agent.Header.Merge.{
  Step, left_base, right_base, merge_step, overlap_step, merge_loop, merge_mappings,
}
use aether_agent.Header.Merge.Round.{
  upto, from, left_base_lem, right_base_lem, progress, base-IsOrdered, diff-IsOrdered,
}
use aether_agent.Header.Merge.Ready.{
  Ready, ToBase, Joined-IsJoinable, ToDiff-chain, ToBase-chain, ToBase-blocked, from-Joined,
  base-Joins-diff, ToBase-apart,
}

last_of : BuildMap → List BuildMap → BuildMap
last_of m [] = m
last_of m (n ∷ ns) = last_of n ns

Joined-append :
    (m : BuildMap) (ms ns : List BuildMap)
    → Joined m ms
    → Joined (last_of m ms) ns
    → Joined m (ms ++ ns)
unfolding last_of
Joined-append m [] ns j k = k
Joined-append m (n ∷ ms) ns j k = (j.0, Joined-append n ms ns j.1 k)

-- A mapping of the nil build, which any mapping may follow.
abbrev nothing : BuildMap
nothing = record { offset = 0; length = 0; build_id = 0; build_storage_offset = 0 }

ToBase-nothing : (bs ds : List BuildMap) → ToBase nothing bs ds
ToBase-nothing [] ds = tt
ToBase-nothing (b ∷ bs) [] = λ q. inl refl
ToBase-nothing (b ∷ bs) (d ∷ ds) = inl (λ q. inl refl)

-- What is appended joins, and the rest is ready to follow it.
abbrev Done : BuildMap → List BuildMap → List BuildMap → List BuildMap → Type 0
Done prev out base diff = Joined prev out × Ready (last_of prev out) base diff

module _ (Pb Pd : ℕ → Type 0) (apart : (m n : ℕ) → Pb m → Pd n → m ≡ n → m ≡ 0) where
  abbrev Base : BuildMap → Type 0
  Base m = (0 < m.length) × Pb m.build_id

  abbrev Diff : BuildMap → Type 0
  Diff m = (0 < m.length) × Pd m.build_id

  builds : (bs : List BuildMap) → All Base bs → All (λ b. Pb b.build_id) bs
  builds [] p = tt
  builds (b ∷ bs) p = (p.0.1, builds bs p.1)

  module _ (lo : ℕ) (prev b d : BuildMap) (bs ds : List BuildMap) (ob : IsOrdered lo (b ∷ bs))
      (od : IsOrdered lo (d ∷ ds)) (pb : All Base (b ∷ bs)) (pd : All Diff (d ∷ ds))
      (r : Ready prev (b ∷ bs) (d ∷ ds)) where
    Joins-base : b.offset < d.offset → Joins prev b
    Joins-base h = elim r.to_base [ inl j ↦ j | inr k ↦ absurd (omega arith) ]

    -- Once `d` is appended, whatever is left of the bases may follow.
    after_diff :
        (rest : List BuildMap) → IsJoinable rest → All (λ m. Pb m.build_id) rest → Ready d rest ds
    after_diff rest j p = record {
      chain_base = j;
      chain_diff = Joined-IsJoinable d ds r.chain_diff;
      to_diff = ToDiff-chain d ds r.chain_diff;
      to_base = ToBase-apart Pb Pd apart d rest ds pd.0.1 p;
    }

    emit_base : b.offset + b.length ≤ d.offset → Done prev (b ∷ []) bs (d ∷ ds)
    unfolding last_of
    emit_base h = (
      (Joins-base (omega (arith, pb.0.0)), tt),
      record {
        chain_base = Joined-IsJoinable b bs r.chain_base;
        chain_diff = r.chain_diff;
        to_diff = base-Joins-diff Pb Pd apart b d pb.0.1 pd.0.1;
        to_base = ToBase-chain b bs (d ∷ ds) r.chain_base;
      },
    )

    emit_diff : Done prev (d ∷ []) (b ∷ bs) ds
    unfolding last_of
    emit_diff = ((r.to_diff, tt), after_diff (b ∷ bs) r.chain_base (builds (b ∷ bs) pb))

    drop_base : d.offset ≤ b.offset → Done prev [] bs (d ∷ ds)
    unfolding last_of
    drop_base h = (
      tt,
      record {
        chain_base = Joined-IsJoinable b bs r.chain_base;
        chain_diff = r.chain_diff;
        to_diff = r.to_diff;
        to_base = ToBase-blocked prev (b.offset + b.length) bs d ds ob.2 (omega arith);
      },
    )

    right_base-Ready :
        b.offset < d.offset + d.length
        → d.offset + d.length ≤ b.offset + b.length
        → Ready d (right_base b d bs) ds
    right_base-Ready h k =
        rw (right_base_lem b d bs h ob.1 od.1)
          (elim (Bool-cases (ltb (d.offset + d.length) (b.offset + b.length))) [
            | inl e ↦ rw e (
                after_diff (from b (d.offset + d.length) ∷ bs)
                  (from-Joined b (d.offset + d.length) bs (omega arith) k r.chain_base)
                  (pb.0.1, builds bs pb.1))
            | inr e ↦ rw e (after_diff bs (Joined-IsJoinable b bs r.chain_base) (builds bs pb.1))
          ])

    emit_right :
        b.offset < d.offset + d.length
        → d.offset + d.length ≤ b.offset + b.length
        → Done prev (d ∷ []) (right_base b d bs) ds
    unfolding last_of
    emit_right h k = ((r.to_diff, tt), right_base-Ready h k)

    emit_split :
        b.offset ≤ d.offset
        → b.offset < d.offset + d.length
        → d.offset + d.length ≤ b.offset + b.length
        → Done prev (left_base b d ++ d ∷ []) (right_base b d bs) ds
    unfolding last_of
    emit_split l h k =
        rw (left_base_lem b d l (omega (arith, od.1))) (elim (Bool-cases (ltb b.offset d.offset)) [
          | inl e ↦ rw e (
            (
              Joins-base (ltb→lt _ _ e),
              (base-Joins-diff Pb Pd apart (upto b d.offset) d pb.0.1 pd.0.1, tt),
            ),
            right_base-Ready h k,
          )
          | inr e ↦ rw e ((r.to_diff, tt), right_base-Ready h k)
        ])

    emit_left :
        b.offset < d.offset → d.offset ≤ b.offset + b.length → Done prev (left_base b d) bs (d ∷ ds)
    unfolding last_of
    emit_left l h =
        rw (left_base_lem b d (omega arith) (omega (arith, od.1)), lt→ltb b.offset d.offset l)
          (
            (Joins-base l, tt),
            record {
              chain_base = Joined-IsJoinable b bs r.chain_base;
              chain_diff = r.chain_diff;
              to_diff = base-Joins-diff Pb Pd apart (upto b d.offset) d pb.0.1 pd.0.1;
              to_base =
                  ToBase-blocked (upto b d.offset) (b.offset + b.length) bs d ds ob.2 (omega arith);
            },
          )

    merge_step-Diff : All Diff (merge_step b bs d ds).diff
    unfolding merge_step overlap_step
    merge_step-Diff = ground arith

    right_base-Base :
        b.offset < d.offset + d.length
        → d.offset + d.length ≤ b.offset + b.length
        → All Base (right_base b d bs)
    right_base-Base h k =
        rw (right_base_lem b d bs h ob.1 od.1)
          (elim (Bool-cases (ltb (d.offset + d.length) (b.offset + b.length))) [
            | inl e ↦ rw e ((omega (arith, ltb→lt _ _ e), pb.0.1), pb.1)
            | inr e ↦ rw e pb.1
          ])

    merge_step-Base : All Base (merge_step b bs d ds).base
    unfolding merge_step overlap_step
    merge_step-Base =
        ground
          (arith, add64_small b.offset b.length, add64_small d.offset d.length, right_base-Base)

    merge_step-Done : let s = merge_step b bs d ds in Done prev s.out s.base s.diff
    unfolding merge_step overlap_step
    merge_step-Done = ground (
      arith,
      add64_small b.offset b.length,
      add64_small d.offset d.length,
      emit_base,
      emit_diff,
      drop_base,
      emit_right,
      emit_split,
      emit_left,
    )

  merge_loop-Joined :
      (fuel lo : ℕ) (prev : BuildMap) (base diff r : List BuildMap)
      → IsOrdered lo base
      → IsOrdered lo diff
      → All Base base
      → All Diff diff
      → Ready prev base diff
      → merge_loop fuel base diff ≡ some r
      → Joined prev r
  unfolding merge_loop
  merge_loop-Joined fuel lo prev [] [] r ob od pb pd w e = let q : [] ≡ r = cc in rw (← q) tt
  merge_loop-Joined fuel lo prev [] (d ∷ ds) r ob od pb pd w e =
      let q : d ∷ ds ≡ r = cc in rw (← q) (w.to_diff, w.chain_diff)
  merge_loop-Joined fuel lo prev (b ∷ bs) [] r ob od pb pd w e =
      let q : b ∷ bs ≡ r = cc in rw (← q) (w.to_base, w.chain_base)
  merge_loop-Joined zero lo prev (b ∷ bs) (d ∷ ds) r ob od pb pd w e = cc
  merge_loop-Joined (suc fuel) lo prev (b ∷ bs) (d ∷ ds) r ob od pb pd w e =
      let s : Step = merge_step b bs d ds in
      let (j, w') = merge_step-Done lo prev b d bs ds ob od pb pd w in
      elim (Option-cases (merge_loop fuel s.base s.diff)) [
        | inl p ↦ cc (rw p at e)
        | inr (rest, p) ↦
            let q : s.out ++ rest ≡ r = cc (rw p at e) in
            rw (← q) (
              Joined-append prev s.out rest j (
                merge_loop-Joined fuel (progress lo b d) (last_of prev s.out) s.base s.diff rest
                  (base-IsOrdered lo b d bs ds ob od) (diff-IsOrdered lo b d bs ds ob od)
                  (merge_step-Base lo prev b d bs ds ob od pb pd w)
                  (merge_step-Diff lo prev b d bs ds ob od pb pd w) w' p))
      ]

  -- On ordered lists of mappings that are not empty, if a build of the base and one of the diff
  -- are never the same but for the nil build, and neighbours of one build are neighbours in its
  -- data file too in both lists, then they are in what `MergeMappings` returns.
  pub merge_mappings-IsJoinable :
      (lo : ℕ) (base diff r : List BuildMap)
      → IsOrdered lo base
      → IsOrdered lo diff
      → All Base base
      → All Diff diff
      → IsJoinable base
      → IsJoinable diff
      → merge_mappings base diff ≡ some r
      → IsJoinable r
  unfolding merge_mappings
  merge_mappings-IsJoinable lo base [] r ob od pb pd jb jd e = let q : base ≡ r = cc in rw (← q) jb
  merge_mappings-IsJoinable lo base (d ∷ ds) r ob od pb pd jb jd e = Joined-IsJoinable nothing r (
      merge_loop-Joined _ lo nothing base (d ∷ ds) r ob od pb pd
        (record {
          chain_base = jb;
          chain_diff = jd;
          to_diff = λ q. inl refl;
          to_base = ToBase-nothing base (d ∷ ds);
        })
        e)
