-- ===== src/Header/Lookup/Starts.antt =====
-- What the index of a header's mapping starts holds: each mapping under the block that it starts at.
use native.Mathlib.Nat.{div-mul_cancel, mul-le-mul_right, le_of_lt}
use aether_agent.Prelude.{
  ℕ, ◌+◌, ◌-◌, ◌*◌, ◌≤◌, ◌<◌, ◌≡◌, refl, ap, ◌∙◌, ◌≢◌, true, false, some, List, [], ◌∷◌, arith, All,
  i64_max, inl, inr, le_or_lt, add64, quot64_small,
}
use aether_agent.Header.Bitset.{Bitset}
use aether_agent.Header.Block.{block_idx}
use aether_agent.Header.Mapping.{BuildMap, locate}
use aether_agent.Header.Cover.{Tiles, Fits, located-later}
use aether_agent.Header.Lookup.{Index, index_mapping, index_mappings}

module _ (B : Bitset) (size block_size : ℕ) (small : size < i64_max)
    (bs_small : block_size < i64_max) where
  abbrev pub index : List BuildMap → Index B → Index B
  index = index_mappings B block_size

  abbrev pub start_of : BuildMap → ℕ
  start_of m = block_idx m.offset block_size

  pub start_of_lem : (m : BuildMap) → Fits size block_size m → start_of m * block_size ≡ m.offset
  unfolding block_idx
  start_of_lem m f =
      rw (quot64_small m.offset block_size (omega (arith, f.0)) bs_small)
        (div-mul_cancel block_size f.1)

  pub len-index : (ms : List BuildMap) (i : Index B) → B.len i.starts ≤ B.len (index ms i).starts
  unfolding index_mappings index_mapping
  len-index [] i = omega arith
  len-index (m ∷ ms) i =
      omega (arith, len-index ms (index_mapping B block_size m i), B.len-set i.starts (start_of m))

  index_mapping_other :
      (m : BuildMap) (i : Index B) (k : ℕ)
      → start_of m ≢ k
      → (B.test (index_mapping B block_size m i).starts k ≡ B.test i.starts k)
        × ((index_mapping B block_size m i).start_map k ≡ i.start_map k)
  unfolding index_mapping
  index_mapping_other m i k h = (ground (arith, B.test-set i.starts (start_of m) k), ground arith)

  index_mapping_self :
      (m : BuildMap) (i : Index B)
      → (B.test (index_mapping B block_size m i).starts (start_of m) ≡ true)
        × ((index_mapping B block_size m i).start_map (start_of m) ≡ some m)
  unfolding index_mapping
  index_mapping_self m i =
      (ground (arith, B.test-set i.starts (start_of m) (start_of m)), ground arith)

  -- Mappings from `lo` on touch no block before `lo`.
  pub index_before :
      (ms : List BuildMap) (lo k : ℕ) (i : Index B)
      → Tiles lo size ms
      → All (Fits size block_size) ms
      → k * block_size < lo
      → (B.test (index ms i).starts k ≡ B.test i.starts k)
        × ((index ms i).start_map k ≡ i.start_map k)
  unfolding index_mappings
  index_before [] lo k i t f h = (refl, refl)
  index_before (m ∷ ms) lo k i t f h =
      let (a, b) =
        index_before ms (lo + m.length) k (index_mapping B block_size m i) t.1 f.1 (omega arith) in
      let (c, d) =
        index_mapping_other m i k
          (λ e. omega (arith, start_of_lem m f.0, t.0, ap (λ (n : ℕ). n * block_size) e)) in
      (a ∙ c, b ∙ d)

  -- The mapping that holds byte `x`, and what the index says of the blocks up to `x`.
  pub record Found (ms : List BuildMap) (lo : ℕ) (i : Index B) (x : ℕ) : Type 0 where
    pub holder : BuildMap
    pub fits : Fits size block_size holder
    pub from_lo : lo ≤ holder.offset
    pub starts_before : holder.offset ≤ x
    pub ends_behind : x < holder.offset + holder.length
    pub holds :
        (y : ℕ)
        → holder.offset ≤ y
        → y < holder.offset + holder.length
        → locate ms y
          ≡ some (holder.build_id, add64 holder.build_storage_offset (y - holder.offset))
    pub start_set : B.test (index ms i).starts (start_of holder) ≡ true
    pub start_known : (index ms i).start_map (start_of holder) ≡ some holder
    pub nearest :
        (k : ℕ) → start_of holder < k → k * block_size ≤ x → B.test (index ms i).starts k ≡ false

  locate-head :
      (m : BuildMap) (ms : List BuildMap) (y : ℕ)
      → m.offset ≤ y
      → y < m.offset + m.length
      → locate (m ∷ ms) y ≡ some (m.build_id, add64 m.build_storage_offset (y - m.offset))
  unfolding locate
  locate-head m ms y h k = ground arith

  module _ (m : BuildMap) (ms : List BuildMap) (lo x : ℕ) (i : Index B) (t : Tiles lo size (m ∷ ms))
      (f : All (Fits size block_size) (m ∷ ms))
      (fresh : (k : ℕ) → lo ≤ k * block_size → B.test i.starts k ≡ false) where
    Found-head : lo ≤ x → x < lo + m.length → Found (m ∷ ms) lo i x
    unfolding index_mappings
    Found-head h l = record {
      holder = m;
      fits = f.0;
      from_lo = omega (arith, t.0);
      starts_before = omega (arith, t.0);
      ends_behind = omega (arith, t.0);
      holds = locate-head m ms;
      start_set = at_start.0 ∙ (index_mapping_self m i).0;
      start_known = at_start.1 ∙ (index_mapping_self m i).1;
      nearest = λ k a b.
          (index_before ms (lo + m.length) k i' t.1 f.1 (omega arith)).0
          ∙ (index_mapping_other m i k (λ e. omega (arith, e))).0
          ∙ fresh k (omega (arith, s, t.0, mul-le-mul_right block_size (le_of_lt a)));
    }
      where
        i' : Index B
        i' = index_mapping B block_size m i

        s : start_of m * block_size ≡ m.offset
        s = start_of_lem m f.0

        at_start :
            (B.test (index ms i').starts (start_of m) ≡ B.test i'.starts (start_of m))
            × ((index ms i').start_map (start_of m) ≡ i'.start_map (start_of m))
        at_start =
            index_before ms (lo + m.length) (start_of m) i' t.1 f.1 (omega (arith, s, t.0, f.0.3))

    fresh_later :
        (k : ℕ)
        → lo + m.length ≤ k * block_size
        → B.test (index_mapping B block_size m i).starts k ≡ false
    fresh_later k h =
        (index_mapping_other m i k
          (λ e. omega (arith, f.0.3, t.0, start_of_lem m f.0, ap (λ (n : ℕ). n * block_size) e))).0
        ∙ fresh k (omega arith)

    Found-tail : Found ms (lo + m.length) (index_mapping B block_size m i) x → Found (m ∷ ms) lo i x
    unfolding index_mappings
    Found-tail r = record {
      holder = r.holder;
      fits = r.fits;
      from_lo = omega (arith, r.from_lo);
      starts_before = r.starts_before;
      ends_behind = r.ends_behind;
      holds = λ y a b. located-later m ms y (omega (arith, r.from_lo, t.0)) ∙ r.holds y a b;
      start_set = r.start_set;
      start_known = r.start_known;
      nearest = r.nearest;
    }

  pub index-Found :
      (ms : List BuildMap) (lo x : ℕ) (i : Index B)
      → Tiles lo size ms
      → All (Fits size block_size) ms
      → lo ≤ x
      → x < size
      → ((k : ℕ) → lo ≤ k * block_size → B.test i.starts k ≡ false)
      → Found ms lo i x
  index-Found [] lo x i t f h l fresh = absurd (omega arith)
  index-Found (m ∷ ms) lo x i t f h l fresh = elim (le_or_lt (lo + m.length) x) [
    | inl a ↦ Found-tail m ms lo x i t f fresh (
        index-Found ms (lo + m.length) x (index_mapping B block_size m i) t.1 f.1 a l
          (fresh_later m ms lo x i t f fresh))
    | inr a ↦ Found-head m ms lo x i t f fresh h a
  ]
