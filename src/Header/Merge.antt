-- ===== src/Header/Merge.antt =====
-- `MergeMappings` of packages/shared/pkg/storage/header/mapping.go. The two slices are lists of
-- what is still to be read; `baseMapping[baseIdx] = rightBase` puts a new head on the first.
use aether_agent.Prelude.{
  ℕ, zero, suc, ◌+◌, ◌&&◌, Option, none, some, List, [], ◌∷◌, ◌++◌, ltb, leb, ◌==◌, if◌then◌else◌,
  length, add64, sub64, is_positive64,
}
pub mod Total
pub mod Round
pub mod Cases
pub mod Overlay
pub mod Keep
pub mod Cover
pub mod Ready
pub mod Join
use mathlib.Core.Option
use aether_agent.Header.Mapping.{BuildMap, end_of}

-- One round of the loop: what is appended, and what is left of the two lists.
pub record Step : Type 0 where
  pub out : List BuildMap
  pub base : List BuildMap
  pub diff : List BuildMap

-- The part of `base` before `diff`, if `leftBaseLength > 0`.
unfoldable pub left_base : BuildMap → BuildMap → List BuildMap
left_base base diff =
    if is_positive64 left_base_length
    then record {
      offset = base.offset;
      length = left_base_length;
      build_id = base.build_id;
      build_storage_offset = base.build_storage_offset;
    }
      ∷ []
    else []
  where
    left_base_length : ℕ
    left_base_length = sub64 diff.offset base.offset

-- The base mappings left once `diff` is written: the part of `base` after it, if there is one.
unfoldable pub right_base : BuildMap → BuildMap → List BuildMap → List BuildMap
right_base base diff bases =
    if is_positive64 right_base_length
    then record {
      offset = add64 base.offset right_base_shift;
      length = right_base_length;
      build_id = base.build_id;
      build_storage_offset = add64 base.build_storage_offset right_base_shift;
    }
      ∷ bases
    else bases
  where
    right_base_shift : ℕ
    right_base_shift = sub64 (add64 diff.offset diff.length) base.offset

    right_base_length : ℕ
    right_base_length = sub64 base.length right_base_shift

unfoldable pub overlap_step : BuildMap → List BuildMap → BuildMap → List BuildMap → Step
overlap_step base bases diff diffs =
    if leb diff.offset base.offset && leb (end_of base) (end_of diff)
    then record { out = []; base = bases; diff = diff ∷ diffs }
    else if leb base.offset diff.offset && leb (end_of diff) (end_of base)
    then record {
      out = left_base base diff ++ diff ∷ [];
      base = right_base base diff bases;
      diff = diffs;
    }
    else if ltb diff.offset base.offset
    then record { out = diff ∷ []; base = right_base base diff bases; diff = diffs }
    else if ltb base.offset diff.offset
    then record { out = left_base base diff; base = bases; diff = diff ∷ diffs }
    else record { out = []; base = base ∷ bases; diff = diff ∷ diffs }

unfoldable pub merge_step : BuildMap → List BuildMap → BuildMap → List BuildMap → Step
merge_step base bases diff diffs =
    if base.length == 0
    then record { out = []; base = bases; diff = diff ∷ diffs }
    else if diff.length == 0
    then record { out = []; base = base ∷ bases; diff = diffs }
    else if leb (end_of base) diff.offset
    then record { out = base ∷ []; base = bases; diff = diff ∷ diffs }
    else if leb (end_of diff) base.offset
    then record { out = diff ∷ []; base = base ∷ bases; diff = diffs }
    else overlap_step base bases diff diffs

-- `none` means that the fuel ran out.
unfoldable pub merge_loop : ℕ → List BuildMap → List BuildMap → Option (List BuildMap)
merge_loop fuel [] diffs = some diffs
merge_loop fuel (base ∷ bases) [] = some (base ∷ bases)
merge_loop zero (base ∷ bases) (diff ∷ diffs) = none
merge_loop (suc fuel) (base ∷ bases) (diff ∷ diffs) =
    let s = merge_step base bases diff diffs in
    Option.map (λ rest. s.out ++ rest) (merge_loop fuel s.base s.diff)

unfoldable pub merge_mappings : List BuildMap → List BuildMap → Option (List BuildMap)
unfolding merge_loop
merge_mappings base [] = some base
merge_mappings base (diff ∷ diffs) =
    merge_loop (length base + length (diff ∷ diffs)) base (diff ∷ diffs)
