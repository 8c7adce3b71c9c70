-- ===== src/Header/Examples.antt =====
-- Concrete headers, diffs and runs of the storage header's code.
use native.Mathlib.Nat.{dvd_of_mod-eq-zero}
use aether_agent.Prelude.{
  ◌↔◌, ℕ, ◌≡◌, ◌≢◌, ◌+◌, ◌-◌, refl, inr, some, List, [], ◌∷◌, ◌<◌, add64, sub64, mul64, lt64, rem64,
  quot64, is_positive64, arith, All, true, false, ok, u64_mod,
}
use aether_agent.Header.BoolBits.{bool_bits}
use aether_agent.Header.Mapping.{BuildMap, IsOrdered, locate}
use aether_agent.Header.Cover.{Tiles, Fits, IsJoinable, HasLength}
use aether_agent.Header.Merge.{merge_mappings, merge_step, overlap_step, left_base, right_base}
use aether_agent.Header.Merge.Overlay.{Merged, merge_mappings_overlay}
use aether_agent.Header.Merge.Cover.{merge_mappings_cover}
use aether_agent.Header.Merge.Total.{merge_mappings_total}
use aether_agent.Header.Merge.Join.{merge_mappings-IsJoinable}
use aether_agent.Header.Normalize.{normalize_mappings}
use aether_agent.Header.Normalize.Meaning.{Alternates, stored_at, normalize_mappings_lem}
use aether_agent.Header.Validate.{valid, validate_mappings}
use aether_agent.Header.Validate.Sound.{validate_mappings-valid}
use aether_agent.Header.Create.{create_mapping}
use aether_agent.Header.Create.Packed.{Packed, create_mapping-Packed}
use aether_agent.Header.Lookup.{
  Metadata, Header, Shifted, get_shifted_mapping, get_mapping, index_mappings, index_mapping,
}
use aether_agent.Header.Block.{total_blocks, block_idx}
use aether_agent.Header.Lookup.Reads.{IsFile, header_of, get_shifted_mapping_reads}
use aether_agent.Header.Diff.{DiffMetadata, to_diff_header}
use aether_agent.Header.Diff.Snapshot.{IsImage, IsChange, Snapshot, to_diff_header-Snapshot}

abbrev mapping : ℕ → ℕ → ℕ → ℕ → BuildMap
mapping offset length build_id storage = record {
  offset = offset;
  length = length;
  build_id = build_id;
  build_storage_offset = storage;
}

-- A file of four blocks of two bytes, in two builds.
abbrev two_builds : List BuildMap
two_builds = mapping 0 4 7 0 ∷ mapping 4 4 8 2 ∷ []

abbrev one_block : List BuildMap
one_block = mapping 2 4 9 0 ∷ []

abbrev two_meta : Metadata
two_meta = record {
  version = 3;
  block_size = 2;
  size = 8;
  generation = 5;
  build_id = 8;
  base_build_id = 7;
}

two_builds-IsOrdered : IsOrdered 0 two_builds
two_builds-IsOrdered = (omega arith, omega arith, (omega arith, omega arith, tt))

one_block-IsOrdered : IsOrdered 0 one_block
one_block-IsOrdered = (omega arith, omega arith, tt)

two_builds-Tiles : Tiles 0 8 two_builds
two_builds-Tiles = (refl, (refl, refl))

two_builds-Fits : All (Fits 8 2) two_builds
two_builds-Fits = (
  (omega arith, dvd_of_mod-eq-zero 2 refl, dvd_of_mod-eq-zero 2 refl, omega arith),
  ((omega arith, dvd_of_mod-eq-zero 2 refl, dvd_of_mod-eq-zero 2 refl, omega arith), tt),
)

one_block-Fits : All (Fits 8 2) one_block
one_block-Fits =
    ((omega arith, dvd_of_mod-eq-zero 2 refl, dvd_of_mod-eq-zero 2 refl, omega arith), tt)

two_builds-IsJoinable : IsJoinable two_builds
two_builds-IsJoinable = ((λ e. absurd (omega arith)), tt)

two_builds-IsFile : IsFile two_meta two_builds
two_builds-IsFile = record {
  room = omega arith;
  non_empty = omega arith;
  positive_block = omega arith;
  cover = two_builds-Tiles;
  fit = two_builds-Fits;
}

merge_mappings_total_example : (r : List BuildMap) × (merge_mappings two_builds one_block ≡ some r)
merge_mappings_total_example = merge_mappings_total two_builds one_block

merge_mappings_overlay_example :
    (r : List BuildMap) × (merge_mappings two_builds one_block ≡ some r)
    × Merged 0 two_builds one_block r
merge_mappings_overlay_example =
    merge_mappings_overlay 0 two_builds one_block two_builds-IsOrdered one_block-IsOrdered

merge_mappings_cover_example :
    (r : List BuildMap) × (merge_mappings two_builds one_block ≡ some r)
    × Tiles 0 8 r
    × All (Fits 8 2) r
    × Merged 0 two_builds one_block r
merge_mappings_cover_example =
    merge_mappings_cover 8 2 two_builds one_block (omega arith) two_builds-Tiles one_block-IsOrdered
      two_builds-Fits one_block-Fits

-- The runs of `MergeMappings` and `NormalizeMappings` on them.
abbrev merged : List BuildMap
merged = mapping 0 2 7 0 ∷ mapping 2 4 9 0 ∷ mapping 6 2 8 4 ∷ []

two_builds-merged : merge_mappings two_builds one_block ≡ some merged
unfolding merge_mappings merge_step overlap_step left_base right_base add64 sub64 is_positive64
two_builds-merged = refl

merge_mappings-IsJoinable_example : IsJoinable merged
merge_mappings-IsJoinable_example =
    merge_mappings-IsJoinable (λ n. n ≢ 9) (λ n. n ≡ 9) (λ m n f e p. absurd (f (cc))) 0 two_builds
      one_block merged two_builds-IsOrdered one_block-IsOrdered
      ((omega arith, λ e. omega arith), ((omega arith, λ e. omega arith), tt))
      ((omega arith, refl), tt) two_builds-IsJoinable tt two_builds-merged

-- A list with two neighbours of one build.
abbrev split_build : List BuildMap
split_build = mapping 0 2 7 0 ∷ mapping 2 2 7 2 ∷ mapping 4 4 8 2 ∷ []

normalize_mappings_lem_example :
    Tiles 0 8 (normalize_mappings split_build)
    × All (Fits 8 2) (normalize_mappings split_build)
    × Alternates (normalize_mappings split_build)
    × ((x : ℕ) → stored_at (normalize_mappings split_build) x ≡ stored_at split_build x)
normalize_mappings_lem_example =
    normalize_mappings_lem 8 2 split_build (omega arith) (refl, (refl, (refl, refl)))
      (
        (omega arith, dvd_of_mod-eq-zero 2 refl, dvd_of_mod-eq-zero 2 refl, omega arith),
        (
          (omega arith, dvd_of_mod-eq-zero 2 refl, dvd_of_mod-eq-zero 2 refl, omega arith),
          ((omega arith, dvd_of_mod-eq-zero 2 refl, dvd_of_mod-eq-zero 2 refl, omega arith), tt),
        ),
      )
      ((λ e. inr (unfold add64 in refl)), ((λ e. absurd (omega arith)), tt))

two_builds_normalized : normalize_mappings split_build ≡ mapping 0 4 7 0 ∷ mapping 4 4 8 2 ∷ []
unfolding normalize_mappings add64
two_builds_normalized = refl

two_builds_valid : validate_mappings two_builds 8 2 ≡ valid
unfolding validate_mappings add64
two_builds_valid = refl

validate_mappings-valid_example :
    (validate_mappings two_builds 8 2 ≡ valid)
    ↔ (Tiles 0 8 two_builds × All (HasLength 2) two_builds)
validate_mappings-valid_example =
    validate_mappings-valid 8 2 two_builds (omega arith, (omega arith, tt)) (omega arith)
      (omega arith)

-- Lengths that add up to 2 ^ 64 + 8.
abbrev wrapping : List BuildMap
wrapping = mapping 0 2 7 0 ∷ mapping 2 (u64_mod - 2) 7 2 ∷ mapping 0 8 8 0 ∷ []

-- Blocks 1 and 2 are changed, and block 0 is now empty.
abbrev change : DiffMetadata bool_bits
change = record { dirty = false ∷ true ∷ true ∷ []; empty = true ∷ []; block_size = 2 }

create_mapping-Packed_example :
    (ms : List BuildMap) × (create_mapping bool_bits 9 change.dirty 2 ≡ some ms)
    × Packed bool_bits 9 change.dirty 2 ms
create_mapping-Packed_example =
    create_mapping-Packed bool_bits 9 change.dirty 2 (omega arith) (omega arith)

get_shifted_mapping_reads_example :
    (s : Shifted) × (get_shifted_mapping bool_bits (header_of bool_bits two_meta two_builds) 6
      ≡ ok s)
    × (0 < s.mapped_length)
    × ((y : ℕ)
        → y < s.mapped_length
        → locate two_builds (6 + y) ≡ some (s.build_id, add64 s.mapped_offset y))
get_shifted_mapping_reads_example =
    get_shifted_mapping_reads bool_bits two_meta two_builds 6 two_builds-IsFile (omega arith)
      (dvd_of_mod-eq-zero 2 refl)

two_builds_read :
    get_shifted_mapping bool_bits (header_of bool_bits two_meta two_builds) 6
    ≡ ok (record { mapped_offset = 4; mapped_length = 2; build_id = 8 })
unfolding get_shifted_mapping header_of get_mapping lt64 rem64 index_mappings index_mapping
    total_blocks quot64 sub64 add64 block_idx mul64
two_builds_read = refl

abbrev image : Header bool_bits
image = header_of bool_bits two_meta two_builds

image-IsImage : IsImage bool_bits image
unfolding header_of
image-IsImage = record { file = two_builds-IsFile; joined = two_builds-IsJoinable }

change-IsChange : IsChange bool_bits image change 9
unfolding header_of
change-IsChange = record {
  same_blocks = refl;
  dirty_in = omega arith;
  empty_in = omega arith;
  real = λ e. omega arith;
  fresh = ((λ e. omega arith), ((λ e. omega arith), tt));
}

to_diff_header-Snapshot_example :
    (new : Header bool_bits) × (to_diff_header bool_bits change image 9 ≡ ok new)
    × Snapshot bool_bits image change 9 new
to_diff_header-Snapshot_example =
    to_diff_header-Snapshot bool_bits image change 9 image-IsImage change-IsChange
