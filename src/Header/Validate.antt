-- ===== src/Header/Validate.antt =====
-- `ValidateMappings` and `Equal` of packages/shared/pkg/storage/header/inspect.go. An
-- error keeps the mapping that it is about in place of the message that is formatted from it;
-- `index_panic` is the read of the last of no mappings, and `division_panic` the division by a block
-- size of 0: the test of the first mapping's length divides by it, and so does the message of a wrong
-- offset.
pub mod Sound
use aether_agent.Prelude.{
  ℕ, ◌%◌, Bool, true, false, ◌&&◌, not, List, [], ◌∷◌, ltb, ◌==◌, if◌then◌else◌, add64,
}
use aether_agent.Header.Mapping.{BuildMap}

pub data Validation : Type 0 where
  valid : Validation
  bad_offset : BuildMap → ℕ → Validation
  bad_length : BuildMap → Validation
  beyond_size : BuildMap → ℕ → Validation
  short_cover : ℕ → Validation
  index_panic : Validation
  division_panic : Validation

-- The loop from `currentOffset` on, and the test behind it.
unfoldable pub validate_from : ℕ → List BuildMap → ℕ → ℕ → Validation
validate_from current_offset [] size block_size =
    if current_offset == size then valid else short_cover current_offset
validate_from current_offset (m ∷ ms) size block_size =
    if block_size == 0
    then division_panic
    else if not (current_offset == m.offset)
    then bad_offset m current_offset
    else if not (m.length % block_size == 0)
    then bad_length m
    else if ltb size (add64 current_offset m.length)
    then beyond_size m current_offset
    else validate_from (add64 current_offset m.length) ms size block_size

unfoldable pub validate_mappings : List BuildMap → ℕ → ℕ → Validation
unfolding validate_from
validate_mappings [] size block_size = if 0 == size then valid else index_panic
validate_mappings (m ∷ ms) size block_size = validate_from 0 (m ∷ ms) size block_size

unfoldable pub mapping_equal : BuildMap → BuildMap → Bool
mapping_equal a b = a.offset == b.offset && a.length == b.length && a.build_id == b.build_id

unfoldable pub equal : List BuildMap → List BuildMap → Bool
unfolding mapping_equal
equal [] [] = true
equal [] (b ∷ bs) = false
equal (a ∷ as_) [] = false
equal (a ∷ as_) (b ∷ bs) = mapping_equal a b && equal as_ bs
