-- ===== src/Header/Merge/Round.antt =====
-- What one round of `MergeMappings` does to ordered lists: the parts of a split mapping in plain
-- arithmetic, and how far the output has got after the round.
use aether_agent.Prelude.{
  ℕ, ◌+◌, ◌-◌, ◌≤◌, ◌<◌, ◌≡◌, ◌&&◌, List, [], ◌∷◌, ◌++◌, arith, ltb, leb, ◌==◌, if◌then◌else◌,
  add64, sub64, is_positive64, i64_max, Bool-cases, ltb→lt, inl, inr,
}
use aether_agent.Header.Mapping.{BuildMap, IsOrdered, IsOrdered-weaken, end_of}
use aether_agent.Header.Merge.{left_base, right_base, overlap_step, merge_step}

abbrev pub upto : BuildMap → ℕ → BuildMap
upto m hi = record m { length = hi - m.offset }

abbrev pub from : BuildMap → ℕ → BuildMap
from m lo = record {
  offset = lo;
  length = m.offset + m.length - lo;
  build_id = m.build_id;
  build_storage_offset = add64 m.build_storage_offset (lo - m.offset);
}

pub left_base_lem :
    (base diff : BuildMap)
    → base.offset ≤ diff.offset
    → diff.offset < i64_max
    → left_base base diff ≡ (if ltb base.offset diff.offset then upto base diff.offset ∷ [] else [])
unfolding left_base is_positive64 sub64
left_base_lem base diff h k = ground arith

pub right_base_lem :
    (base diff : BuildMap) (bases : List BuildMap)
    → base.offset < diff.offset + diff.length
    → base.offset + base.length < i64_max
    → diff.offset + diff.length < i64_max
    → right_base base diff bases ≡ (
        if ltb (diff.offset + diff.length) (base.offset + base.length)
        then from base (diff.offset + diff.length) ∷ bases
        else bases)
unfolding right_base is_positive64 sub64 add64
right_base_lem base diff bases h k l = ground arith

-- Every byte below `progress` is settled after the round.
pub progress : ℕ → BuildMap → BuildMap → ℕ
progress lo base diff =
    if base.length == 0
    then lo
    else if diff.length == 0
    then lo
    else if leb (end_of base) diff.offset
    then base.offset + base.length
    else if leb (end_of diff) base.offset
    then diff.offset + diff.length
    else if leb diff.offset base.offset && leb (end_of base) (end_of diff)
    then lo
    else if leb base.offset diff.offset && leb (end_of diff) (end_of base)
    then diff.offset + diff.length
    else if ltb diff.offset base.offset
    then diff.offset + diff.length
    else diff.offset

module _ (lo : ℕ) (base diff : BuildMap) (bases diffs : List BuildMap)
    (b : IsOrdered lo (base ∷ bases)) (d : IsOrdered lo (diff ∷ diffs)) where
  pub right_base-IsOrdered :
      base.offset < diff.offset + diff.length
      → diff.offset + diff.length ≤ base.offset + base.length
      → IsOrdered (diff.offset + diff.length) (right_base base diff bases)
  right_base-IsOrdered h k =
      rw (right_base_lem base diff bases h b.1 d.1)
        (elim (Bool-cases (ltb (diff.offset + diff.length) (base.offset + base.length))) [
          | inl e ↦ rw e (
            omega arith,
            omega (arith, b.1, ltb→lt _ _ e),
            IsOrdered-weaken _ (base.offset + base.length) bases (omega (arith, ltb→lt _ _ e)) b.2,
          )
          | inr e ↦ rw e (
              IsOrdered-weaken (diff.offset + diff.length) (base.offset + base.length) bases
                (ground arith) b.2)
        ])

  pub base-IsOrdered : IsOrdered (progress lo base diff) (merge_step base bases diff diffs).base
  unfolding merge_step overlap_step progress add64
  base-IsOrdered = ground (
    arith,
    right_base-IsOrdered,
    IsOrdered-weaken (diff.offset + diff.length) (base.offset + base.length) bases,
    IsOrdered-weaken lo (base.offset + base.length) bases,
    IsOrdered-weaken diff.offset (base.offset + base.length) bases,
  )

  pub diff-IsOrdered : IsOrdered (progress lo base diff) (merge_step base bases diff diffs).diff
  unfolding merge_step overlap_step progress add64
  diff-IsOrdered = ground (
    arith,
    IsOrdered-weaken lo (diff.offset + diff.length) diffs,
    IsOrdered-weaken (base.offset + base.length) diff.offset (diff ∷ diffs),
  )

  pub out-IsOrdered :
      (rest : List BuildMap)
      → IsOrdered (progress lo base diff) rest
      → IsOrdered lo ((merge_step base bases diff diffs).out ++ rest)
  unfolding merge_step overlap_step progress add64
  out-IsOrdered rest r = ground (arith, left_base_lem base diff)
