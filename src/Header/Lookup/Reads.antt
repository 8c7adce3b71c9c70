-- ===== src/Header/Lookup/Reads.antt =====
-- `GetShiftedMapping` on headers that `NewHeader` built from a cover of the file.
use Prim.Native.Nat.{◌∣◌}
use native.Mathlib.Nat.{
  div-mul_cancel, mul-le-mul_right, mod-eq-zero_of_dvd, le_of_mul-le-mul_right, le-div_iff_mul-le,
  mul-sub, div-le_self,
}
use aether_agent.Prelude.{
  ℕ, ◌+◌, ◌-◌, ◌*◌, ◌/◌, ◌≤◌, ◌<◌, ◌≡◌, refl, ap, sym, ◌∙◌, Bool, true, false, Option, none, some,
  List, [], ◌∷◌, arith, All, i64_max, inl, inr, add64, sub64, mul64, quot64_small, rem64_small,
  lt64_small, sub64_small, mul64_small, add64_small, add64_assoc, lt64, le→ltb, lt→ltb, ok,
  lt_cases, ==_ne,
}
use aether_agent.Header.Bitset.{Bitset, IsPrevious, at, clear}
use aether_agent.Header.Block.{block_idx, total_blocks}
use aether_agent.Header.Mapping.{BuildMap, locate}
use aether_agent.Header.Cover.{Tiles, Fits}
use aether_agent.Header.Lookup.{
  Index, Metadata, Header, Shifted, index_mappings, default_mapping, new_header, get_mapping,
  get_shifted_mapping,
}
use aether_agent.Header.Lookup.Starts.{Found, index-Found, len-index, start_of_lem}

-- The bit that is set, with none behind it, is the one that is found.
previous-eq :
    (test : ℕ → Bool) (i s : ℕ) (o : Option ℕ)
    → IsPrevious test i o
    → s ≤ i
    → test s ≡ true
    → ((k : ℕ) → s < k → k ≤ i → test k ≡ false)
    → o ≡ some s
previous-eq test i s (some k) (at _ h e later) l t none_later = elim (lt_cases k s) [
  | inl a ↦ cc (t, later s a l)
  | inr (inl a) ↦ ap some a
  | inr (inr a) ↦ cc (e, none_later k a h)
]
previous-eq test i s none (clear c) l t none_later = cc (t, c s l)

-- A header for a file: its mappings cover the file in whole blocks.
pub record IsFile (metadata : Metadata) (ms : List BuildMap) : Type 0 where
  pub room : metadata.size + metadata.block_size ≤ i64_max
  pub non_empty : 0 < metadata.size
  pub positive_block : 0 < metadata.block_size
  pub cover : Tiles 0 metadata.size ms
  pub fit : All (Fits metadata.size metadata.block_size) ms

module _ (B : Bitset) (metadata : Metadata) (ms : List BuildMap) where
  abbrev start_index : Index B
  start_index = record {
    starts = B.new (total_blocks metadata.size metadata.block_size);
    start_map = λ k. none;
  }

  abbrev indexed : Index B
  indexed = index_mappings B metadata.block_size ms start_index

  unfoldable pub header_of : Header B
  header_of = record {
    metadata = metadata;
    block_starts = indexed.starts;
    start_map = indexed.start_map;
    mapping = ms;
  }

  default_mapping_lem :
      (ns : List BuildMap)
      → 0 < metadata.size
      → Tiles 0 metadata.size ns
      → default_mapping metadata ns ≡ ns
  unfolding default_mapping
  default_mapping_lem [] n t = absurd (omega arith)
  default_mapping_lem (m ∷ ns) n t = refl

  -- `NewHeader` keeps the mappings of a file and indexes them.
  pub new_header_lem : IsFile metadata ms → new_header B metadata ms ≡ ok header_of
  unfolding new_header header_of
  new_header_lem w = rw (
    default_mapping_lem ms w.non_empty w.cover,
    ==_ne metadata.block_size 0 (λ e. omega (arith, w.positive_block)),
  )

  module _ (w : IsFile metadata ms) where
    total :
        total_blocks metadata.size metadata.block_size
        ≡ (metadata.size + metadata.block_size - 1) / metadata.block_size
    unfolding total_blocks
    total =
        rw
          (
            add64_small metadata.size metadata.block_size (omega arith),
            sub64_small (metadata.size + metadata.block_size) 1 (omega arith) (omega arith),
          )
          (quot64_small _ _ (omega arith) (omega arith))

    block_lem :
        (x : ℕ) → x < metadata.size → block_idx x metadata.block_size ≡ x / metadata.block_size
    unfolding block_idx
    block_lem x l = quot64_small x metadata.block_size (omega arith) (omega arith)

    block_in_range :
        (x : ℕ)
        → x < metadata.size
        → metadata.block_size ∣ x
        → x / metadata.block_size < total_blocks metadata.size metadata.block_size
    block_in_range x l d = rw total (
        (le-div_iff_mul-le w.positive_block).1
          (omega (arith, div-mul_cancel metadata.block_size d)))

    small : metadata.size < i64_max
    small = omega (arith, w.room, w.positive_block)

    bs_small : metadata.block_size < i64_max
    bs_small = omega (arith, w.room, w.non_empty)

    abbrev FoundAt : ℕ → Type 0
    FoundAt = Found B metadata.size metadata.block_size small bs_small ms 0 start_index

    found : (x : ℕ) → x < metadata.size → FoundAt x
    found x l =
        index-Found B metadata.size metadata.block_size small bs_small ms 0 x start_index w.cover
          w.fit (omega arith) l (λ k _. B.test-new _ k)

    module _ (x : ℕ) (l : x < metadata.size) (d : metadata.block_size ∣ x) (r : FoundAt x) where
      abbrev s : ℕ
      s = block_idx r.holder.offset metadata.block_size

      q_lem : x / metadata.block_size * metadata.block_size ≡ x
      q_lem = div-mul_cancel metadata.block_size d

      s_lem : s * metadata.block_size ≡ r.holder.offset
      s_lem = start_of_lem B metadata.size metadata.block_size small bs_small r.holder r.fits

      s-le : s ≤ x / metadata.block_size
      s-le =
          le_of_mul-le-mul_right {k = metadata.block_size}
            (omega (arith, q_lem, s_lem, r.starts_before)) w.positive_block

      previous : B.previous_set indexed.starts (x / metadata.block_size) ≡ some s
      previous =
          previous-eq (B.test indexed.starts) (x / metadata.block_size) s _
            (B.previous_set-IsPrevious indexed.starts (x / metadata.block_size) (
              omega (
                arith,
                block_in_range x l d,
                B.len-new (total_blocks metadata.size metadata.block_size),
                len-index B metadata.size metadata.block_size small bs_small ms start_index,
              )))
            s-le r.start_set
            (λ k a b. r.nearest k a (omega (arith, q_lem, mul-le-mul_right metadata.block_size b)))

      shift_lem :
          mul64 (sub64 (x / metadata.block_size) s) metadata.block_size ≡ x - r.holder.offset
      shift_lem =
          let product : (x / metadata.block_size - s) * metadata.block_size ≡ x - r.holder.offset =
            omega (arith, mul-sub metadata.block_size (x / metadata.block_size) s, q_lem, s_lem) in
          rw
            (sub64_small (x / metadata.block_size) s s-le
              (omega (arith, div-le_self x metadata.block_size)))
            (mul64_small (x / metadata.block_size - s) metadata.block_size (omega (arith, product))
              ∙ product)

      in_holder : lt64 (x - r.holder.offset) r.holder.length ≡ true
      in_holder =
          lt64_small (x - r.holder.offset) r.holder.length (omega arith) (omega (arith, r.fits.0))
          ∙ lt→ltb _ _ (omega (arith, r.ends_behind, r.starts_before))

      get_mapping_lem : get_mapping B header_of x ≡ ok (r.holder, x - r.holder.offset)
      unfolding get_mapping header_of
      get_mapping_lem = rw (
        lt64_small x 0 (omega arith) (omega arith),
        lt64_small x metadata.size (omega arith) small,
        le→ltb x 0 (omega arith),
        lt→ltb x metadata.size l,
        rem64_small x metadata.block_size (omega arith) bs_small,
        mod-eq-zero_of_dvd metadata.block_size d,
        block_lem x l,
        previous,
        r.start_known,
        shift_lem,
        in_holder,
      )

      -- The result of `GetShiftedMapping`, from the mapping that holds the byte.
      shifted_of : Shifted
      shifted_of = record {
        mapped_offset = add64 r.holder.build_storage_offset (x - r.holder.offset);
        mapped_length = r.holder.length - (x - r.holder.offset);
        build_id = r.holder.build_id;
      }

      get_shifted_mapping_lem : get_shifted_mapping B header_of x ≡ ok shifted_of
      unfolding get_shifted_mapping shifted_of
      get_shifted_mapping_lem = rw (
        get_mapping_lem,
        sub64_small r.holder.length (x - r.holder.offset)
            (omega (arith, r.ends_behind, r.starts_before)) (omega (arith, r.fits.0, small)),
        lt64_small (r.holder.length - (x - r.holder.offset)) 0 (omega (arith, r.fits.0, small))
            (omega arith),
        le→ltb (r.holder.length - (x - r.holder.offset)) 0 (omega arith),
      )

      -- The bytes that follow in the same mapping.
      shifted_run :
          (y : ℕ)
          → y < r.holder.length - (x - r.holder.offset)
          → locate ms (x + y)
            ≡ some (
              r.holder.build_id,
              add64 (add64 r.holder.build_storage_offset (x - r.holder.offset)) y,
            )
      shifted_run y k =
          r.holds (x + y) (omega (arith, r.starts_before))
            (omega (arith, r.starts_before, r.ends_behind))
          ∙ ap (λ (n : ℕ). some (r.holder.build_id, n))
              (ap (add64 r.holder.build_storage_offset) (omega (arith, r.starts_before))
                ∙ sym (add64_assoc r.holder.build_storage_offset (x - r.holder.offset) y))

  -- On the header that `NewHeader` builds for a file, from mappings that cover it in whole blocks,
  -- `GetShiftedMapping` at the start of any block of the file returns a build, a position in its
  -- data file and a positive length, and all bytes of that length from the offset on are stored
  -- there one behind the other.
  pub get_shifted_mapping_reads :
      (x : ℕ)
      → IsFile metadata ms
      → x < metadata.size
      → metadata.block_size ∣ x
      → (s : Shifted) × (get_shifted_mapping B header_of x ≡ ok s)
        × (0 < s.mapped_length)
        × ((y : ℕ)
            → y < s.mapped_length
            → locate ms (x + y) ≡ some (s.build_id, add64 s.mapped_offset y))
  unfolding shifted_of
  get_shifted_mapping_reads x w l d =
      let r = found w x l in
      (
        shifted_of w x l d r,
        get_shifted_mapping_lem w x l d r,
        omega (arith, r.ends_behind, r.starts_before),
        shifted_run w x l d r,
      )
