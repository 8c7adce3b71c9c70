-- ===== src/Header/Diff.antt =====
-- packages/shared/pkg/storage/header/metadata.go and diff.go: the blocks that a snapshot changed,
-- their collection block by block, and the header of the next generation. Telemetry and logs are
-- left out; `out` is the writer that a block is given to, with what it answers.
pub mod Blocks
pub mod Snapshot
use mathlib.Core.Option
use aether_agent.Prelude.{
  ℕ, ◌+◌, ◌^◌, Bool, true, false, not, ◌&&◌, Option, none, some, List, [], ◌∷◌, ◌==◌, if◌then◌else◌,
  Result, ok, err, ◌>>=◌, length, add64, mul64,
}
use aether_agent.Header.Bitset.{Bitset}
use aether_agent.Header.Block.{total_blocks, block_idx}
use aether_agent.Header.Mapping.{BuildMap}
use aether_agent.Header.Create.{create_mapping}
use aether_agent.Header.Merge.{merge_mappings}
use aether_agent.Header.Normalize.{normalize_mappings}
use aether_agent.Header.Validate.{Validation, valid, validate_mappings}
use aether_agent.Header.Lookup.{
  Metadata, Header, HeaderError, new_header, next_generation, is_normalize_fix_applied,
}

-- 2 << 20 and 2 << 11.
abbrev pub hugepage_size : ℕ
hugepage_size = 2 ^ 21

abbrev pub rootfs_block_size : ℕ
rootfs_block_size = 2 ^ 12

abbrev pub ignore_build_id : ℕ
ignore_build_id = 0

pub data DiffError : Type 0 where
  in_header : HeaderError → DiffError
  invalid_mappings : Validation → DiffError
  block_size_not_supported : ℕ → DiffError
  write_failed : DiffError
  short_write : ℕ → DiffError
  -- The fuel of a loop ran out.
  stuck : DiffError

unfoldable pub all_zero : List ℕ → Bool
all_zero [] = true
all_zero (b ∷ bs) = b == 0 && all_zero bs

-- `bytes.Equal(block, emptyBuf)`, with `emptyBuf` as many zero bytes as the block size says.
unfoldable pub is_empty_block : List ℕ → ℕ → Result DiffError Bool
unfolding all_zero
is_empty_block block block_size =
    if block_size == hugepage_size
    then ok (length block == hugepage_size && all_zero block)
    else if block_size == rootfs_block_size
    then ok (length block == rootfs_block_size && all_zero block)
    else err (block_size_not_supported block_size)

abbrev pub or_stuck {ℓ} : {A : Type ℓ} → Option A → Result DiffError A
or_stuck none = err stuck
or_stuck (some a) = ok a

abbrev pub lift {ℓ} : {A : Type ℓ} → Result HeaderError A → Result DiffError A
lift (ok a) = ok a
lift (err e) = err (in_header e)

module _ (B : Bitset) where
  pub record DiffMetadata : Type 0 where
    pub dirty : B.Bits
    pub empty : B.Bits
    pub block_size : ℕ

  unfoldable pub to_diff_mapping : DiffMetadata → ℕ → Result DiffError (List BuildMap)
  to_diff_mapping d build_id = do
    dirty_mappings ← or_stuck (create_mapping B build_id d.dirty d.block_size)
    empty_mappings ← or_stuck (create_mapping B ignore_build_id d.empty d.block_size)
    or_stuck (merge_mappings dirty_mappings empty_mappings)

  -- An error of the validation counts only where the normalize fix is applied.
  abbrev pub check_validation : Header B → Validation → Result DiffError (Header B)
  check_validation header valid = ok header
  check_validation header other =
      if is_normalize_fix_applied B header then err (invalid_mappings other) else ok header

  unfoldable pub to_diff_header : DiffMetadata → Header B → ℕ → Result DiffError (Header B)
  to_diff_header d original build_id = do
    diff_mapping ← to_diff_mapping d build_id
    m ← or_stuck (merge_mappings original.mapping diff_mapping)
    header ← lift (new_header B (next_generation original.metadata build_id) (normalize_mappings m))
    check_validation header
        (validate_mappings header.mapping header.metadata.size header.metadata.block_size)

  -- `NewDiffMetadataBuilder`; a builder and the metadata that `Build` makes of it have one shape.
  unfoldable pub new_diff_metadata_builder : ℕ → ℕ → DiffMetadata
  new_diff_metadata_builder size block_size = record {
    dirty = B.new (total_blocks size block_size);
    empty = B.new 0;
    block_size = block_size;
  }

  -- What `Process` leaves: the builder, the block handed to the writer, and its error.
  pub record Processed : Type 0 where
    pub builder : DiffMetadata
    pub written : Option (List ℕ)
    pub error : Option DiffError

  -- `none` is an error of the writer, `some n` the number of bytes that it took.
  abbrev pub write_result : ℕ → Option ℕ → Option DiffError
  write_result block_size none = some write_failed
  write_result block_size (some n) = if n == block_size then none else some (short_write n)

  unfoldable pub process : DiffMetadata → List ℕ → (List ℕ → Option ℕ) → ℕ → Processed
  process b block out offset =
      let block_index = block_idx offset b.block_size in
      elim (is_empty_block block b.block_size) [
        | err e ↦ record { builder = b; written = none; error = some e }
        | ok true ↦ record {
          builder = record b { empty = B.set b.empty block_index };
          written = none;
          error = none;
        }
        | ok false ↦ record {
          builder = record b { dirty = B.set b.dirty block_index };
          written = some block;
          error = write_result b.block_size (out block);
        }
      ]

  unfoldable pub build : DiffMetadata → DiffMetadata
  build b = record { dirty = b.dirty; empty = b.empty; block_size = b.block_size }
