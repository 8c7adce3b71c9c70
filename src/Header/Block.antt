-- ===== src/Header/Block.antt =====
-- packages/shared/pkg/storage/header/block.go, over int64 patterns, and the metadata of a header.
use aether_agent.Prelude.{ℕ, zero, suc, List, [], ◌∷◌, add64, sub64, mul64, quot64, ◌+◌}

unfoldable pub total_blocks : ℕ → ℕ → ℕ
total_blocks size block_size = quot64 (sub64 (add64 size block_size) 1) block_size

unfoldable pub block_idx : ℕ → ℕ → ℕ
block_idx off block_size = quot64 off block_size

unfoldable pub block_offset : ℕ → ℕ → ℕ
block_offset idx block_size = mul64 idx block_size

-- The loop of `BlocksOffsets` over the indices from `i` on.
unfoldable pub offsets_from : ℕ → ℕ → ℕ → List ℕ
offsets_from i zero block_size = []
offsets_from i (suc n) block_size = block_offset i block_size ∷ offsets_from (i + 1) n block_size

unfoldable pub blocks_offsets : ℕ → ℕ → List ℕ
unfolding offsets_from
blocks_offsets size block_size = offsets_from 0 (total_blocks size block_size) block_size
