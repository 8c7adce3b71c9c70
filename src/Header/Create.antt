-- ===== src/Header/Create.antt =====
-- `CreateMapping` of packages/shared/pkg/storage/header/mapping.go.
pub mod Bits
pub mod Runs
pub mod Loop
pub mod Packed
use mathlib.Core.Option
use aether_agent.Prelude.{
  ℕ, zero, suc, ◌+◌, Option, none, some, List, [], ◌∷◌, ◌++◌, ltb, ◌==◌, if◌then◌else◌, add64,
  mul64,
}
use aether_agent.Header.Bitset.{Bitset}
use aether_agent.Header.Mapping.{BuildMap}

-- The indices that `for blockIdx, e := dirty.NextSet(0); e; blockIdx, e = dirty.NextSet(blockIdx + 1)`
-- goes through from `i` on; `none` means that the fuel ran out.
unfoldable pub bits_from : (B : Bitset) → B.Bits → ℕ → ℕ → Option (List ℕ)
bits_from B dirty zero i = none
bits_from B dirty (suc fuel) i = elim (B.next_set dirty i) [
  | none ↦ some []
  | some k ↦ Option.map (λ ks. k ∷ ks) (bits_from B dirty fuel (add64 k 1))
]

-- The variables of the loop.
pub record Run : Type 0 where
  pub start_block : ℕ
  pub block_length : ℕ
  pub build_storage_offset : ℕ

-- The mapping of the run, if `blockLength > 0`.
unfoldable pub flush : ℕ → ℕ → Run → List BuildMap
flush build_id block_size run =
    if ltb 0 run.block_length
    then record {
      offset = mul64 run.start_block block_size;
      length = mul64 run.block_length block_size;
      build_id = build_id;
      build_storage_offset = run.build_storage_offset;
    }
      ∷ []
    else []

-- The run after a block that does not continue it.
unfoldable pub next_run : ℕ → ℕ → Run → Run
next_run block_size k run = record {
  start_block = k;
  block_length = 1;
  build_storage_offset =
      if ltb 0 run.block_length
      then add64 run.build_storage_offset (mul64 run.block_length block_size)
      else run.build_storage_offset;
}

unfoldable pub create_loop : ℕ → ℕ → Run → List ℕ → List BuildMap
create_loop build_id block_size run [] = flush build_id block_size run
create_loop build_id block_size run (k ∷ ks) =
    let continued =
      create_loop build_id block_size (record run { block_length = add64 run.block_length 1 }) ks in
    let restarted =
      flush build_id block_size run
      ++ create_loop build_id block_size (next_run block_size k run) ks in
    if add64 run.start_block run.block_length == k then continued else restarted

unfoldable pub create_mapping : (B : Bitset) → ℕ → B.Bits → ℕ → Option (List BuildMap)
unfolding bits_from create_loop flush next_run
create_mapping B build_id dirty block_size =
    Option.map
      (create_loop build_id block_size
        (record { start_block = 0; block_length = 0; build_storage_offset = 0 }))
      (bits_from B dirty (B.len dirty + 1) 0)
