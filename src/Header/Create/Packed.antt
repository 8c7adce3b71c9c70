-- ===== src/Header/Create/Packed.antt =====
-- What `CreateMapping` returns: the set blocks, packed one behind the other in the data file.
use aether_agent.Prelude.{
  ℕ, ◌+◌, ◌*◌, ◌<◌, ◌≡◌, ap, ◌∙◌, none, some, List, arith, All, if◌then◌else◌, i64_max, u64_mod,
}
use native.Mathlib.Nat.{mul-le-mul_left}
use aether_agent.Header.Bitset.{Bitset}
use aether_agent.Header.Mapping.{BuildMap, locate, IsOrdered, IsOrdered-weaken}
use aether_agent.Header.Cover.{Fits, IsJoinable}
use aether_agent.Header.Create.{create_mapping, create_loop}
use aether_agent.Header.Create.Bits.{rank, rank_zero, bits_from_lem, Listed}
use aether_agent.Header.Create.Runs.{run_of}
use aether_agent.Header.Create.Loop.{loop-Created, Created}

-- Mappings of one build for the set blocks: ordered, in whole blocks, none of them empty. The data
-- file holds the set blocks in order, also across neighbouring mappings: block `q` at its rank, that is behind the set blocks before it.
pub record Packed (B : Bitset) (build_id : ℕ) (dirty : B.Bits) (block_size : ℕ) (ms : List BuildMap)
    : Type 0 where
  pub ordered : IsOrdered 0 ms
  pub fit : All (Fits (B.len dirty * block_size) block_size) ms
  pub one_build : All (λ m. m.build_id ≡ build_id) ms
  pub joined : IsJoinable ms
  pub located :
      (q r : ℕ)
      → r < block_size
      → locate ms (q * block_size + r)
        ≡ (if B.test dirty q then some (build_id, rank (B.test dirty) q * block_size + r) else none)

module _ (B : Bitset) (build_id : ℕ) (dirty : B.Bits) (block_size : ℕ) (positive : 0 < block_size)
    (small : B.len dirty * block_size < i64_max) where
  len_small : B.len dirty < u64_mod
  len_small = omega (arith, mul-le-mul_left (B.len dirty) positive)

  zero_run :
      run_of block_size 0 0 0
      ≡ record { start_block = 0; block_length = 0; build_storage_offset = 0 }
  zero_run =
      ap (λ (o : ℕ). record { start_block = 0; block_length = 0; build_storage_offset = o })
        (omega arith)

  -- The mappings of the listed bits, from the loop's first state on.
  Packed-of :
      (ks : List ℕ)
      → Listed B dirty len_small 0 ks
      → Packed B build_id dirty block_size
          (create_loop build_id block_size (run_of block_size 0 0 0) ks)
  Packed-of ks l = record {
    ordered = IsOrdered-weaken 0 (0 * block_size) _ (omega arith) c.ordered;
    fit = c.fit;
    one_build = c.one_build;
    joined = c.joined;
    located = λ q r a. c.located q r a ∙ ground (arith, l.placed q, rank_zero (B.test dirty));
  }
    where
      c :
          Created build_id block_size
            (B.len dirty)
            small
            positive
            0
            0
            0
            ks
            (create_loop build_id block_size (run_of block_size 0 0 0) ks)
      c =
          loop-Created build_id block_size (B.len dirty) small positive 0 0 0 ks (omega arith)
            (omega arith) l.rising

  -- For a positive block size, and a bitset whose length times the block size is below 2 ^ 63,
  -- `CreateMapping` ends. Its mappings are ordered, in whole blocks, all of the given build, and
  -- each byte of a set block is stored behind those of the set blocks before it; a block that is
  -- not set is in none.
  pub create_mapping-Packed :
      (ms : List BuildMap) × (create_mapping B build_id dirty block_size ≡ some ms)
      × Packed B build_id dirty block_size ms
  unfolding create_mapping
  create_mapping-Packed =
      let (ks, e, l) =
        bits_from_lem B dirty len_small (B.len dirty + 1) 0 (omega arith) (omega arith) in
      (
        create_loop build_id block_size (run_of block_size 0 0 0) ks,
        rw (e, zero_run),
        Packed-of ks l,
      )
