-- ===== src/Header/Diff/Blocks.antt =====
-- The mappings of a snapshot's changed blocks: what `toDiffMapping` returns.
use aether_agent.Prelude.{
  ℕ, ◌+◌, ◌*◌, ◌≤◌, ◌<◌, ◌≡◌, ◌∙◌, ◌≢◌, ◌⊎◌, inl, inr, Option, none, some, List, [], ◌∷◌, arith,
  All, if◌then◌else◌, i64_max, ok,
}
use aether_agent.Header.Bitset.{Bitset}
use aether_agent.Header.Mapping.{BuildMap, locate, IsOrdered}
use aether_agent.Header.Cover.{Fits, IsJoinable}
use aether_agent.Header.Create.{create_mapping}
use aether_agent.Header.Create.Bits.{rank}
use aether_agent.Header.Create.Packed.{Packed, create_mapping-Packed}
use aether_agent.Header.Merge.Overlay.{merge_mappings_overlay}
use aether_agent.Header.Merge.Keep.{merge_mappings-All}
use aether_agent.Header.Merge.Cover.{Fits-upto, Fits-from}
use aether_agent.Header.Merge.Join.{merge_mappings-IsJoinable}
use aether_agent.Header.Diff.{DiffMetadata, to_diff_mapping, ignore_build_id}

Fits-wider :
    (lo hi block_size : ℕ) (ms : List BuildMap)
    → lo ≤ hi
    → All (Fits lo block_size) ms
    → All (Fits hi block_size) ms
Fits-wider lo hi bs [] h f = tt
Fits-wider lo hi bs (m ∷ ms) h ((a, b, c, d), fs) =
    ((omega arith, b, c, d), Fits-wider lo hi bs ms h fs)

-- The builds of a diff: that of the snapshot, and the nil build.
abbrev pub OfDiff : ℕ → ℕ → Type 0
OfDiff build_id n = (n ≡ build_id) ⊎ (n ≡ ignore_build_id)

-- Positive mappings whose builds are of a kind.
pub with_kind :
    (P Q : ℕ → Type 0) (size block_size : ℕ) (ms : List BuildMap)
    → ((n : ℕ) → P n → Q n)
    → All (Fits size block_size) ms
    → All (λ m. P m.build_id) ms
    → All (λ m. (0 < m.length) × Q m.build_id) ms
with_kind P Q size bs [] h f p = tt
with_kind P Q size bs (m ∷ ms) h f p =
    ((f.0.3, h m.build_id p.0), with_kind P Q size bs ms h f.1 p.1)

kind-map :
    (P Q : ℕ → Type 0) (ms : List BuildMap)
    → ((n : ℕ) → P n → Q n)
    → All (λ m. P m.build_id) ms
    → All (λ m. Q m.build_id) ms
kind-map P Q [] h p = tt
kind-map P Q (m ∷ ms) h p = (h m.build_id p.0, kind-map P Q ms h p.1)

-- What the mappings of a diff say of byte `r` of block `q`.
abbrev pub diff_at : (B : Bitset) → ℕ → DiffMetadata B → ℕ → ℕ → Option (ℕ × ℕ)
diff_at B build_id d q r =
    if B.test d.empty q
    then some (ignore_build_id, rank (B.test d.empty) q * d.block_size + r)
    else if B.test d.dirty q
    then some (build_id, rank (B.test d.dirty) q * d.block_size + r)
    else none

module _ (B : Bitset) (d : DiffMetadata B) (build_id size : ℕ) (positive : 0 < d.block_size)
    (small : size < i64_max) (dirty_in : B.len d.dirty * d.block_size ≤ size)
    (empty_in : B.len d.empty * d.block_size ≤ size) (real : build_id ≢ ignore_build_id) where
  pub record DiffMapping (ms : List BuildMap) : Type 0 where
    pub ordered : IsOrdered 0 ms
    pub fit : All (Fits size d.block_size) ms
    pub builds : All (λ m. OfDiff build_id m.build_id) ms
    pub joined : IsJoinable ms
    pub located :
        (q r : ℕ) → r < d.block_size → locate ms (q * d.block_size + r) ≡ diff_at B build_id d q r

  to_diff_mapping_of :
      (dm em : List BuildMap)
      → create_mapping B build_id d.dirty d.block_size ≡ some dm
      → Packed B build_id d.dirty d.block_size dm
      → create_mapping B ignore_build_id d.empty d.block_size ≡ some em
      → Packed B ignore_build_id d.empty d.block_size em
      → (ms : List BuildMap) × (to_diff_mapping B d build_id ≡ ok ms) × DiffMapping ms
  unfolding to_diff_mapping
  to_diff_mapping_of dm em e p f q =
      let (r, g, m) = merge_mappings_overlay 0 dm em p.ordered q.ordered in
      let fd = Fits-wider _ size d.block_size dm dirty_in p.fit in
      let fe = Fits-wider _ size d.block_size em empty_in q.fit in
      (
        r,
        rw (e, f, g),
        record {
          ordered = m.0;
          fit =
              merge_mappings-All (Fits size d.block_size) (Fits-upto size d.block_size)
                (Fits-from size d.block_size) 0 dm em r p.ordered q.ordered fd fe g;
          builds =
              merge_mappings-All (λ m. OfDiff build_id m.build_id) (λ m _ h _ _ _. h)
                (λ m _ h _ _ _. h) 0 dm em r p.ordered q.ordered
                (kind-map (λ n. n ≡ build_id) (OfDiff build_id) dm (λ n. inl) p.one_build)
                (kind-map (λ n. n ≡ ignore_build_id) (OfDiff build_id) em (λ n. inr) q.one_build) g;
          joined =
              merge_mappings-IsJoinable (λ n. n ≡ build_id) (λ n. n ≡ ignore_build_id)
                (λ m n a b c. c ∙ b) 0 dm em r p.ordered q.ordered
                (with_kind (λ n. n ≡ build_id) (λ n. n ≡ build_id) size d.block_size dm (λ n h. h)
                  fd p.one_build)
                (with_kind (λ n. n ≡ ignore_build_id) (λ n. n ≡ ignore_build_id) size d.block_size
                  em (λ n h. h) fe q.one_build)
                p.joined q.joined g;
          located = λ b k l.
              m.1 (b * d.block_size + k) ∙ rw (q.located b k l, p.located b k l) (ground arith);
        },
      )

  pub to_diff_mapping_lem :
      (ms : List BuildMap) × (to_diff_mapping B d build_id ≡ ok ms) × DiffMapping ms
  to_diff_mapping_lem =
      let (dm, e, p) =
        create_mapping-Packed B build_id d.dirty d.block_size positive (omega arith) in
      let (em, f, q) =
        create_mapping-Packed B ignore_build_id d.empty d.block_size positive (omega arith) in
      to_diff_mapping_of dm em e p f q
