-- ===== src/Header/Validate/Sound.antt =====
-- `ValidateMappings` against the mappings that cover the file without a gap.
use aether_agent.Prelude.{
  ◌↔◌, ℕ, ◌+◌, ◌-◌, ◌≤◌, ◌<◌, ◌≡◌, List, [], ◌∷◌, arith, All, u64_mod, add64_small, add64,
}
use aether_agent.Header.Mapping.{BuildMap}
use aether_agent.Header.Cover.{Tiles, HasLength, Tiles-le}
use aether_agent.Header.Validate.{valid, validate_from, validate_mappings}

abbrev NoWrap : BuildMap → Type 0
NoWrap m = m.offset + m.length < u64_mod

validate_from-Tiles :
    (lo size block_size : ℕ) (ms : List BuildMap)
    → All NoWrap ms
    → validate_from lo ms size block_size ≡ valid
    → Tiles lo size ms × All (HasLength block_size) ms
unfolding validate_from
validate_from-Tiles lo size bs [] w v = ground arith
validate_from-Tiles lo size bs (m ∷ ms) w v =
    ground (arith, add64_small lo m.length, validate_from-Tiles (lo + m.length) size bs ms w.1)

-- On mappings whose ends a uint64 holds, `ValidateMappings` accepts only a cover of the whole size
-- without gap or overlap, in lengths that are multiples of the block size.
validate_mappings-Tiles :
    (size block_size : ℕ) (ms : List BuildMap)
    → All NoWrap ms
    → validate_mappings ms size block_size ≡ valid
    → Tiles 0 size ms × All (HasLength block_size) ms
unfolding validate_mappings
validate_mappings-Tiles size bs [] w v = ground arith
validate_mappings-Tiles size bs (m ∷ ms) w v = validate_from-Tiles 0 size bs (m ∷ ms) w v

validate_from_complete :
    (lo size block_size : ℕ) (ms : List BuildMap)
    → size < u64_mod
    → 0 < block_size
    → Tiles lo size ms
    → All (HasLength block_size) ms
    → validate_from lo ms size block_size ≡ valid
unfolding validate_from
validate_from_complete lo size bs [] h b t w = ground arith
validate_from_complete lo size bs (m ∷ ms) h b t w = ground (
  arith,
  Tiles-le (lo + m.length) size ms t.1,
  add64_small lo m.length,
  validate_from_complete (lo + m.length) size bs ms h b t.1 w.1,
)

-- For a positive block size `ValidateMappings` accepts every cover of a size that a uint64 holds
-- without gap or overlap, in lengths that are multiples of the block size.
pub validate_mappings_complete :
    (size block_size : ℕ) (ms : List BuildMap)
    → size < u64_mod
    → 0 < block_size
    → Tiles 0 size ms
    → All (HasLength block_size) ms
    → validate_mappings ms size block_size ≡ valid
unfolding validate_mappings
validate_mappings_complete size bs [] h b t w = ground arith
validate_mappings_complete size bs (m ∷ ms) h b t w =
    validate_from_complete 0 size bs (m ∷ ms) h b t w

-- For every size that a uint64 holds, and a positive block size, `ValidateMappings` accepts three mappings that are no cover:
-- one of a positive length up to the size, one behind it of 2 ^ 64 minus that length, and one of
-- the whole size at offset 0, if their lengths are multiples of the block size.
validate_mappings_wraps :
    (size block_size : ℕ) (first second third : BuildMap)
    → size < u64_mod
    → 0 < block_size
    → 0 < first.length
    → first.length ≤ size
    → first.offset ≡ 0
    → second.offset ≡ first.length
    → second.length ≡ u64_mod - first.length
    → third.offset ≡ 0
    → third.length ≡ size
    → All (HasLength block_size) (first ∷ second ∷ third ∷ [])
    → (validate_mappings (first ∷ second ∷ third ∷ []) size block_size ≡ valid)
      × ¬ Tiles 0 size (first ∷ second ∷ third ∷ [])
unfolding validate_mappings validate_from add64
validate_mappings_wraps size bs a b c h z p q ea eb ec ed ee w = (ground arith, λ t. omega arith)

-- On mappings whose ends a uint64 holds, a size that it holds, and a positive block size,
-- `ValidateMappings` accepts exactly the covers of the whole size without gap or overlap, in
-- lengths that are multiples of the block size.
pub validate_mappings-valid :
    (size block_size : ℕ) (ms : List BuildMap)
    → All NoWrap ms
    → size < u64_mod
    → 0 < block_size
    → (validate_mappings ms size block_size ≡ valid)
      ↔ (Tiles 0 size ms × All (HasLength block_size) ms)
validate_mappings-valid size block_size ms w h b = (
  validate_mappings-Tiles size block_size ms w,
  λ t. validate_mappings_complete size block_size ms h b t.0 t.1,
)
