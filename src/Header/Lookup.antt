-- ===== src/Header/Lookup.antt =====
-- packages/shared/pkg/storage/header/header.go: the header with its index of mapping starts, and
-- the lookup of an offset. `startMap` is a function from block numbers. The warnings that are
-- logged for headers before version 3 change nothing and are left out.
pub mod Starts
pub mod Reads
use aether_agent.Prelude.{
  ℕ, ◌+◌, Bool, true, false, ◌&&◌, ◌||◌, not, Option, none, some, List, [], ◌∷◌, leb, ltb, ◌==◌,
  if◌then◌else◌, add64, sub64, mul64, lt64, rem64, i64_max, Result, ok, err, ◌>>=◌,
}
use aether_agent.Header.Bitset.{Bitset}
use aether_agent.Header.Block.{total_blocks, block_idx}
use aether_agent.Header.Mapping.{BuildMap}

pub record Metadata : Type 0 where
  pub version : ℕ
  pub block_size : ℕ
  pub size : ℕ
  pub generation : ℕ
  pub build_id : ℕ
  pub base_build_id : ℕ

abbrev pub normalize_fix_version : ℕ
normalize_fix_version = 3

abbrev pub metadata_version : ℕ
metadata_version = 3

unfoldable pub new_template_metadata : ℕ → ℕ → ℕ → Metadata
new_template_metadata build_id block_size size = record {
  version = metadata_version;
  generation = 0;
  block_size = block_size;
  size = size;
  build_id = build_id;
  base_build_id = build_id;
}

unfoldable pub next_generation : Metadata → ℕ → Metadata
next_generation m build_id = record {
  version = m.version;
  generation = add64 m.generation 1;
  block_size = m.block_size;
  size = m.size;
  build_id = build_id;
  base_build_id = m.base_build_id;
}

pub data HeaderError : Type 0 where
  zero_block_size out_of_bounds unaligned no_source no_mapping : HeaderError
  beyond_mapping negative_length : HeaderError

-- What `GetShiftedMapping` returns: where to read, how much follows there, and of which build.
pub record Shifted : Type 0 where
  pub mapped_offset : ℕ
  pub mapped_length : ℕ
  pub build_id : ℕ

-- The mappings of a header that is given none: one of the whole file.
unfoldable pub default_mapping : Metadata → List BuildMap → List BuildMap
default_mapping metadata [] =
    record {
      offset = 0;
      length = metadata.size;
      build_id = metadata.build_id;
      build_storage_offset = 0;
    }
    ∷ []
default_mapping metadata (m ∷ ms) = m ∷ ms

-- A failed check is an error only where the fix is applied.
abbrev pub check : Bool → Bool → HeaderError → Result HeaderError (Unit {0})
check failed fixed e = if failed && fixed then err e else ok tt

abbrev pub or_fail {ℓ} : {A : Type ℓ} → Option A → HeaderError → Result HeaderError A
or_fail none e = err e
or_fail (some a) e = ok a

module _ (B : Bitset) where
  pub record Index : Type 0 where
    pub starts : B.Bits
    pub start_map : ℕ → Option BuildMap

  pub record Header : Type 0 where
    pub metadata : Metadata
    pub block_starts : B.Bits
    pub start_map : ℕ → Option BuildMap
    pub mapping : List BuildMap

  -- One round of the loop of `NewHeader`.
  unfoldable pub index_mapping : ℕ → BuildMap → Index → Index
  index_mapping block_size m index =
      let block = block_idx m.offset block_size in
      record {
        starts = B.set index.starts block;
        start_map = λ k. if block == k then some m else index.start_map k;
      }

  unfoldable pub index_mappings : ℕ → List BuildMap → Index → Index
  index_mappings block_size [] index = index
  index_mappings block_size (m ∷ ms) index =
      index_mappings block_size ms (index_mapping block_size m index)

  unfoldable pub new_header : Metadata → List BuildMap → Result HeaderError Header
  new_header metadata given =
      let mapping = default_mapping metadata given in
      let index = index_mappings metadata.block_size mapping (record {
        starts = B.new (total_blocks metadata.size metadata.block_size);
        start_map = λ k. none;
      }) in
      if metadata.block_size == 0
      then err zero_block_size
      else ok (record {
        metadata = metadata;
        block_starts = index.starts;
        start_map = index.start_map;
        mapping = mapping;
      })

  unfoldable pub is_normalize_fix_applied : Header → Bool
  is_normalize_fix_applied h = leb normalize_fix_version h.metadata.version

  unfoldable pub get_mapping : Header → ℕ → Result HeaderError (BuildMap × ℕ)
  unfolding is_normalize_fix_applied
  get_mapping h offset = do
    let fixed = is_normalize_fix_applied h
    let block_size = h.metadata.block_size
    let block = block_idx offset block_size
    _ ← check (lt64 offset 0 || not (lt64 offset h.metadata.size)) fixed out_of_bounds
    _ ← check (not (rem64 offset block_size == 0)) fixed unaligned
    start ← or_fail (B.previous_set h.block_starts block) no_source
    mapping ← or_fail (h.start_map start) no_mapping
    let shift = mul64 (sub64 block start) block_size
    _ ← check (not (lt64 shift mapping.length)) fixed beyond_mapping
    ok (mapping, shift)

  unfoldable pub get_shifted_mapping : Header → ℕ → Result HeaderError Shifted
  get_shifted_mapping h offset = do
    (mapping, shift) ← get_mapping h offset
    let mapped_length = sub64 mapping.length shift
    _ ← check (lt64 mapped_length 0) (is_normalize_fix_applied h) negative_length
    ok (record {
      mapped_offset = add64 mapping.build_storage_offset shift;
      mapped_length = mapped_length;
      build_id = mapping.build_id;
    })
