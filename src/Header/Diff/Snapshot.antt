-- ===== src/Header/Diff/Snapshot.antt =====
-- The header of a snapshot: what each byte of the file is read from after `ToDiffHeader`.
use mathlib.Core.Option
use native.Mathlib.Nat.{mod-eq-zero_of_dvd}
use aether_agent.Prelude.{
  ℕ, ◌+◌, ◌*◌, ◌≤◌, ◌<◌, ◌≡◌, refl, ap, sym, ◌∙◌, ◌≢◌, inl, inr, Option, some, List, [], ◌∷◌, arith,
  All, if◌then◌else◌, i64_max, or_else, ok,
}
use aether_agent.Header.Bitset.{Bitset}
use aether_agent.Header.Mapping.{BuildMap, locate}
use aether_agent.Header.Cover.{Tiles, Fits, IsJoinable, HasLength, Tiles-IsOrdered, Joined}
use aether_agent.Header.Create.Bits.{rank}
use aether_agent.Header.Merge.{merge_mappings}
use aether_agent.Header.Merge.Overlay.{Merged}
use aether_agent.Header.Merge.Cover.{merge_mappings_cover}
use aether_agent.Header.Merge.Join.{merge_mappings-IsJoinable}
use aether_agent.Header.Normalize.{normalize_mappings}
use aether_agent.Header.Normalize.Meaning.{
  stored, stored_at, Alternates, AlternatesFrom, normalize_mappings_lem,
}
use aether_agent.Header.Validate.Sound.{validate_mappings_complete}
use aether_agent.Header.Lookup.{Metadata, Header, next_generation}
use aether_agent.Header.Lookup.Reads.{IsFile, header_of, new_header_lem}
use aether_agent.Header.Diff.{DiffMetadata, to_diff_mapping, to_diff_header, ignore_build_id}
use aether_agent.Header.Diff.Blocks.{DiffMapping, to_diff_mapping_lem, diff_at, OfDiff, with_kind}

HasLength-of_Fits :
    (size block_size : ℕ) (ms : List BuildMap)
    → All (Fits size block_size) ms
    → All (HasLength block_size) ms
HasLength-of_Fits size bs [] f = tt
HasLength-of_Fits size bs (m ∷ ms) f =
    (mod-eq-zero_of_dvd bs f.0.2, HasLength-of_Fits size bs ms f.1)

Joined-of_Alternates :
    (m : BuildMap) (ms : List BuildMap) → AlternatesFrom m.build_id ms → Joined m ms
Joined-of_Alternates m [] a = tt
Joined-of_Alternates m (n ∷ ns) a = ((λ e. absurd (a.0 (sym e))), Joined-of_Alternates n ns a.1)

IsJoinable-of_Alternates : (ms : List BuildMap) → Alternates ms → IsJoinable ms
IsJoinable-of_Alternates [] a = tt
IsJoinable-of_Alternates (m ∷ ms) a = Joined-of_Alternates m ms a

-- A header of a file, in which neighbours of one build are neighbours in its data file.
pub record IsImage (B : Bitset) (h : Header B) : Type 0 where
  pub file : IsFile h.metadata h.mapping
  pub joined : IsJoinable h.mapping

-- A diff that fits the header, for a build that the header does not use yet.
pub record IsChange (B : Bitset) (h : Header B) (d : DiffMetadata B) (build_id : ℕ) : Type 0 where
  pub same_blocks : d.block_size ≡ h.metadata.block_size
  pub dirty_in : B.len d.dirty * d.block_size ≤ h.metadata.size
  pub empty_in : B.len d.empty * d.block_size ≤ h.metadata.size
  pub real : build_id ≢ ignore_build_id
  pub fresh : All (λ m. m.build_id ≢ build_id) h.mapping

-- Where a byte is stored after the change: a byte of a block that is now empty nowhere, one of a
-- changed block behind the changed blocks before it, and any other where it was.
abbrev pub changed_at : (B : Bitset) → Header B → DiffMetadata B → ℕ → ℕ → ℕ → Option (ℕ × ℕ)
changed_at B h d build_id q r =
    if B.test d.empty q
    then some (0, 0)
    else if B.test d.dirty q
    then some (build_id, rank (B.test d.dirty) q * d.block_size + r)
    else stored_at h.mapping (q * d.block_size + r)

pub record Snapshot (B : Bitset) (h : Header B) (d : DiffMetadata B) (build_id : ℕ) (new : Header B)
    : Type 0 where
  pub image : IsImage B new
  pub next : new.metadata ≡ next_generation h.metadata build_id
  pub alternates : Alternates new.mapping
  pub read_at :
      (q r : ℕ)
      → r < d.block_size
      → stored_at new.mapping (q * d.block_size + r) ≡ changed_at B h d build_id q r

module _ (B : Bitset) (h : Header B) (d : DiffMetadata B) (build_id : ℕ) (w : IsImage B h)
    (c : IsChange B h d build_id) where
  abbrev size : ℕ
  size = h.metadata.size

  abbrev next_metadata : Metadata
  next_metadata = next_generation h.metadata build_id

  small : size < i64_max
  small = omega (arith, w.file.room, w.file.positive_block)

  positive : 0 < d.block_size
  positive = omega (arith, w.file.positive_block, c.same_blocks)

  cross : (m n : ℕ) → m ≢ build_id → OfDiff build_id n → m ≡ n → m ≡ 0
  cross m n f (inl a) e = absurd (f (e ∙ a))
  cross m n f (inr a) e = e ∙ a

  laid_over :
      (q r : ℕ)
      → Option.map stored
          (or_else (diff_at B build_id d q r) (locate h.mapping (q * d.block_size + r)))
        ≡ changed_at B h d build_id q r
  laid_over q r = ground (arith, c.real)

  -- The merged mappings, normalized.
  normalized_lem :
      (diff m : List BuildMap)
      → DiffMapping B d build_id size positive small c.dirty_in c.empty_in c.real diff
      → merge_mappings h.mapping diff ≡ some m
      → Tiles 0 size m
      → All (Fits size d.block_size) m
      → Merged 0 h.mapping diff m
      → Tiles 0 size (normalize_mappings m)
        × All (Fits size d.block_size) (normalize_mappings m)
        × Alternates (normalize_mappings m)
        × ((q r : ℕ)
            → r < d.block_size
            → stored_at (normalize_mappings m) (q * d.block_size + r)
              ≡ changed_at B h d build_id q r)
  normalized_lem diff m p e t f o =
      let j : IsJoinable m =
        merge_mappings-IsJoinable (λ n. n ≢ build_id) (OfDiff build_id) cross 0 h.mapping diff m
          (Tiles-IsOrdered 0 size h.mapping small w.file.cover) p.ordered
          (with_kind (λ n. n ≢ build_id) (λ n. n ≢ build_id) size h.metadata.block_size h.mapping
            (λ n g. g) w.file.fit c.fresh)
          (with_kind (OfDiff build_id) (OfDiff build_id) size d.block_size diff (λ n g. g) p.fit
            p.builds)
          w.joined p.joined e in
      let (a, b, g, s) = normalize_mappings_lem size d.block_size m (omega (arith, small)) t f j in
      (
        a,
        b,
        g,
        λ q r l.
            s (q * d.block_size + r)
            ∙ ap (Option.map stored) (o.1 (q * d.block_size + r))
            ∙ rw (p.located q r l) (laid_over q r),
      )

  header_ok :
      (ms : List BuildMap)
      → Tiles 0 size ms
      → All (Fits size d.block_size) ms
      → IsFile next_metadata ms
  unfolding next_generation
  header_ok ms t f = record {
    room = w.file.room;
    non_empty = w.file.non_empty;
    positive_block = w.file.positive_block;
    cover = t;
    fit = rw c.same_blocks at f;
  }

  Snapshot-of :
      (diff m : List BuildMap)
      → DiffMapping B d build_id size positive small c.dirty_in c.empty_in c.real diff
      → to_diff_mapping B d build_id ≡ ok diff
      → merge_mappings h.mapping diff ≡ some m
      → Tiles 0 size m
      → All (Fits size d.block_size) m
      → Merged 0 h.mapping diff m
      → (new : Header B) × (to_diff_header B d h build_id ≡ ok new) × Snapshot B h d build_id new
  unfolding to_diff_header header_of next_generation
  Snapshot-of diff m p g e t f o =
      let (a, b, u, s) = normalized_lem diff m p e t f o in
      let i : IsFile next_metadata (normalize_mappings m) = header_ok (normalize_mappings m) a b in
      (
        header_of B next_metadata (normalize_mappings m),
        rw
            (
              g,
              e,
              new_header_lem B next_metadata (normalize_mappings m) i,
              validate_mappings_complete size h.metadata.block_size (normalize_mappings m)
                  (omega (arith, small)) w.file.positive_block a
                  (HasLength-of_Fits size h.metadata.block_size _ i.fit),
            )
            refl,
        record {
          image = record { file = i; joined = IsJoinable-of_Alternates _ u };
          next = refl;
          alternates = u;
          read_at = s;
        },
      )

  -- On the header of an image (mappings that cover the file in whole blocks, neighbours of one
  -- build also neighbours in its data file) and a change inside the file, in the same block size
  -- and for a build that is not the nil build and that the header does not use, `ToDiffHeader`
  -- succeeds. The new header is again one of an image, with the metadata of the next generation,
  -- no two neighbouring mappings are of one build, and each byte is stored where the change says:
  -- nowhere for a block that is now empty, behind the changed blocks before it for a changed
  -- block, and where it was for any other.
  pub to_diff_header-Snapshot :
      (new : Header B) × (to_diff_header B d h build_id ≡ ok new) × Snapshot B h d build_id new
  to_diff_header-Snapshot =
      let (diff, g, p) =
        to_diff_mapping_lem B d build_id size positive small c.dirty_in c.empty_in c.real in
      let (m, e, t, f, o) =
        merge_mappings_cover size d.block_size h.mapping diff small w.file.cover p.ordered
          (rw (sym c.same_blocks) at w.file.fit) p.fit in
      Snapshot-of diff m p g e t f o
