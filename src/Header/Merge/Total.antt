-- ===== src/Header/Merge/Total.antt =====
-- `MergeMappings` ends: each round of its loop reads a mapping off one of the two lists, so the
-- "invalid case" that would leave both indices alone is never reached.
use mathlib.Core.Option
use aether_agent.Prelude.{
  ℕ, zero, suc, ◌+◌, ◌≤◌, ◌<◌, ◌≡◌, refl, ap, some, List, [], ◌∷◌, ◌++◌, arith, length,
}
use aether_agent.Header.Mapping.{BuildMap}
use aether_agent.Header.Merge.{
  Step, right_base, overlap_step, merge_step, merge_loop, merge_mappings,
}

length-right_base :
    (base diff : BuildMap) (bases : List BuildMap)
    → length (right_base base diff bases) ≤ suc (length bases)
unfolding right_base
length-right_base base diff bases = ground arith

overlap_step_shorter :
    (base diff : BuildMap) (bases diffs : List BuildMap)
    → let s = overlap_step base bases diff diffs in
      length s.base + length s.diff < suc (length bases) + suc (length diffs)
unfolding overlap_step
overlap_step_shorter base diff bases diffs = ground (arith, length-right_base base diff bases)

pub merge_step_shorter :
    (base diff : BuildMap) (bases diffs : List BuildMap)
    → let s = merge_step base bases diff diffs in
      length s.base + length s.diff < suc (length bases) + suc (length diffs)
unfolding merge_step
merge_step_shorter base diff bases diffs =
    ground (arith, overlap_step_shorter base diff bases diffs)

merge_loop_total :
    (fuel : ℕ) (base diff : List BuildMap)
    → length base + length diff ≤ fuel
    → (r : List BuildMap) × (merge_loop fuel base diff ≡ some r)
unfolding merge_loop
merge_loop_total fuel [] diff h = (diff, refl)
merge_loop_total fuel (base ∷ bases) [] h = (base ∷ bases, refl)
merge_loop_total zero (base ∷ bases) (diff ∷ diffs) h = absurd (omega arith)
merge_loop_total (suc fuel) (base ∷ bases) (diff ∷ diffs) h =
    let s : Step = merge_step base bases diff diffs in
    let (r, e) =
      merge_loop_total fuel s.base s.diff
        (omega (arith, merge_step_shorter base diff bases diffs)) in
    (s.out ++ r, ap (Option.map (λ rest. s.out ++ rest)) e)

-- `MergeMappings` ends on any two lists, also on unordered ones and ones whose ends wrap, after at
-- most one round for every mapping of the two.
pub merge_mappings_total :
    (base diff : List BuildMap) → (r : List BuildMap) × (merge_mappings base diff ≡ some r)
unfolding merge_mappings
merge_mappings_total base [] = (base, refl)
merge_mappings_total base (diff ∷ diffs) = merge_loop_total _ base (diff ∷ diffs) (omega arith)
