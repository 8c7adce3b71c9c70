-- ===== src/Header/Merge/Cases.antt =====
-- What each branch of one round of `MergeMappings` keeps: the diff laid over the base, byte by byte.
use aether_agent.Prelude.{
  ℕ, ◌+◌, ◌-◌, ◌≤◌, ◌<◌, ◌≡◌, refl, ◌&&◌, some, none, List, [], ◌∷◌, ◌++◌, arith, ltb, leb,
  if◌then◌else◌, add64, i64_max, or_else, or_else_assoc, Bool-cases, inl, inr, add64_assoc,
  add64_small,
}
use aether_agent.Header.Mapping.{BuildMap, IsOrdered, locate, locate-append, locate_below}
use aether_agent.Header.Merge.{left_base, right_base, overlap_step, merge_step}
use aether_agent.Header.Merge.Round.{left_base_lem, right_base_lem, from, right_base-IsOrdered}

locate-left_base :
    (base diff : BuildMap) (x : ℕ)
    → base.offset ≤ diff.offset
    → diff.offset < i64_max
    → locate (left_base base diff) x ≡ (
        if leb base.offset x && ltb x diff.offset
        then some (base.build_id, add64 base.build_storage_offset (x - base.offset))
        else none)
unfolding locate
locate-left_base base diff x h k = rw (left_base_lem base diff h k) (ground arith)

locate-from :
    (m : BuildMap) (ms : List BuildMap) (lo x : ℕ)
    → m.offset ≤ lo
    → lo ≤ x
    → locate (from m lo ∷ ms) x ≡ locate (m ∷ ms) x
unfolding locate
locate-from m ms lo x h k =
    ground (arith, add64_assoc m.build_storage_offset (lo - m.offset) (x - lo))

locate-right_base :
    (base diff : BuildMap) (bases : List BuildMap) (x : ℕ)
    → base.offset < diff.offset + diff.length
    → base.offset + base.length < i64_max
    → diff.offset + diff.length < i64_max
    → diff.offset + diff.length ≤ x
    → locate (right_base base diff bases) x ≡ locate (base ∷ bases) x
locate-right_base base diff bases x h k l m =
    rw (right_base_lem base diff bases h k l)
      (elim (Bool-cases (ltb (diff.offset + diff.length) (base.offset + base.length))) [
        | inl e ↦ rw e (locate-from base bases (diff.offset + diff.length) x (omega arith) m)
        | inr e ↦ rw e (unfold locate in ground arith)
      ])

locate_nil : (x : ℕ) → locate [] x ≡ none
unfolding locate
locate_nil x = refl

module _ (lo : ℕ) (base diff : BuildMap) (bases diffs : List BuildMap)
    (b : IsOrdered lo (base ∷ bases)) (d : IsOrdered lo (diff ∷ diffs)) where
  overlay_covered :
      (x : ℕ)
      → diff.offset ≤ base.offset
      → base.offset + base.length ≤ diff.offset + diff.length
      → or_else (locate (diff ∷ diffs) x) (locate bases x)
        ≡ or_else (locate (diff ∷ diffs) x) (locate (base ∷ bases) x)
  unfolding locate
  overlay_covered x h k = ground arith

  overlay_right :
      (x : ℕ)
      → diff.offset < base.offset
      → base.offset < diff.offset + diff.length
      → diff.offset + diff.length ≤ base.offset + base.length
      → or_else
          (locate (diff ∷ []) x)
          (or_else (locate diffs x) (locate (right_base base diff bases) x))
        ≡ or_else (locate (diff ∷ diffs) x) (locate (base ∷ bases) x)
  unfolding locate
  overlay_right x h k l = ground (
    arith,
    locate-right_base base diff bases x k b.1 d.1,
    locate_below (diff.offset + diff.length) (right_base base diff bases) x
        (right_base-IsOrdered lo base diff bases diffs b d k l),
    locate_below (base.offset + base.length) bases x b.2,
  )

  overlay_left :
      (x : ℕ)
      → base.offset < diff.offset
      → diff.offset ≤ base.offset + base.length
      → base.offset + base.length ≤ diff.offset + diff.length
      → or_else
          (locate (left_base base diff) x)
          (or_else (locate (diff ∷ diffs) x) (locate bases x))
        ≡ or_else (locate (diff ∷ diffs) x) (locate (base ∷ bases) x)
  unfolding locate
  overlay_left x h k l =
      rw (locate-left_base base diff x (omega arith) (omega (arith, d.1)))
        (ground (arith, locate_below (diff.offset + diff.length) diffs x d.2))

  overlay_split :
      (x : ℕ)
      → base.offset ≤ diff.offset
      → base.offset < diff.offset + diff.length
      → diff.offset + diff.length ≤ base.offset + base.length
      → or_else
          (locate (left_base base diff ++ diff ∷ []) x)
          (or_else (locate diffs x) (locate (right_base base diff bases) x))
        ≡ or_else (locate (diff ∷ diffs) x) (locate (base ∷ bases) x)
  unfolding locate
  overlay_split x h k l =
      rw
        (
          locate-append (left_base base diff) (diff ∷ []) x,
          locate-left_base base diff x h (omega (arith, d.1)),
          or_else_assoc,
        )
        (ground (
          arith,
          locate-right_base base diff bases x k b.1 d.1,
          locate_below (diff.offset + diff.length) (right_base base diff bases) x
              (right_base-IsOrdered lo base diff bases diffs b d k l),
          locate_below (diff.offset + diff.length) diffs x d.2,
          locate_below (base.offset + base.length) bases x b.2,
        ))

  overlap_step_overlay :
      (x : ℕ)
      → base.offset < diff.offset + diff.length
      → diff.offset < base.offset + base.length
      → let s = overlap_step base bases diff diffs in
        or_else (locate s.out x) (or_else (locate s.diff x) (locate s.base x))
        ≡ or_else (locate (diff ∷ diffs) x) (locate (base ∷ bases) x)
  unfolding overlap_step
  overlap_step_overlay x h k = ground (
    arith,
    add64_small base.offset base.length,
    add64_small diff.offset diff.length,
    overlay_covered x,
    overlay_split x,
    overlay_right x,
    overlay_left x,
    locate_nil x,
  )

  -- One round, over the split of both lists, keeps what they say of each byte.
  pub merge_step_overlay :
      (x : ℕ)
      → let s = merge_step base bases diff diffs in
        or_else (locate s.out x) (or_else (locate s.diff x) (locate s.base x))
        ≡ or_else (locate (diff ∷ diffs) x) (locate (base ∷ bases) x)
  unfolding merge_step locate
  merge_step_overlay x = ground (
    arith,
    add64_small base.offset base.length,
    add64_small diff.offset diff.length,
    overlap_step_overlay x,
    locate_below (diff.offset + diff.length) diffs x d.2,
  )
