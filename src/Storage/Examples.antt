-- ===== src/Storage/Examples.antt =====
-- Runs of the cache with chunks of two bytes, and of the cache of whole objects.
use mathlib.Core.Path.{◌≡◌, refl}
use aether_agent.Prelude.{
  zero, suc, Any, ◌<◌, ℕ, ◌+◌, ◌*◌, ◌≤◌, inl, inr, Bool, true, false, Option, none, some, List, [],
  ◌∷◌, Bytes, arith, All, ok, add64, lt64, quot64,
}
use aether_agent.Storage.Cache.{
  Disk, eof, size, lock_denied, link_tried, Copying, copied, create_cache_blocks_from_file,
  create_blocks_from, write_chunk_from_file, set_file, store_file, run_task, make_chunk_filename,
  chunk_file, removal_failed,
}
use aether_agent.Storage.Cache.Contract.{Holds}
use aether_agent.Storage.Cache.Reads.{Answers}
use aether_agent.Storage.Cache.Blocks.{Present, create_cache_blocks-Holds}
use aether_agent.Storage.Cache.Moves.{
  Move, read_move, close_move, size_move, store_move, task_move, step, run, empty,
}
use aether_agent.Storage.Blob
use aether_agent.Storage.Blob.{Blob, Written, write_to}
use aether_agent.Storage.Blob.Runs.{Appends, write_to-Appends}
use aether_agent.Storage.Upload.{
  Part, num_parts, to_float64, ceil_quotient, float64_scale, round_half_even,
  upload_file_in_parallel,
}
use aether_agent.Storage.Upload.Assembly.{
  assembled, Answers as ServerAnswers, upload_file-assembled,
}

abbrev five : Bytes
five = 1 ∷ 2 ∷ 3 ∷ 4 ∷ 5 ∷ []

abbrev all_copied : ℕ → Copying
all_copied offset = copied

-- A read of the second chunk that is written back, the size, a write that the lock refuses, a read of
-- the last chunk, and the file's blocks.
abbrev moves : List Move
moves =
    read_move true false 2 2 (record { bytes = 3 ∷ 4 ∷ []; err = none })
    ∷ size_move true false (some 5)
    ∷ task_move 1 lock_denied all_copied
    ∷ task_move 0 link_tried all_copied
    ∷ read_move true false 2 4 (record { bytes = 5 ∷ []; err = some eof })
    ∷ close_move 0 2 (1 ∷ [])
    ∷ store_move true five
    ∷ task_move 1 link_tried all_copied
    ∷ []

-- Where the copy of a block fails after a byte, and its removal too, the byte is read as the chunk.
abbrev broken_store : List Move
broken_store = store_move true five ∷ task_move 0 link_tried (λ i. removal_failed 1) ∷ []

truncated : (run 2 broken_store empty).files (chunk_file 0 2) ≡ some (1 ∷ [])
unfolding run step store_file run_task create_cache_blocks_from_file create_blocks_from
    write_chunk_from_file set_file make_chunk_filename add64 lt64 quot64
truncated = refl

nothing_held : Holds 2 five (λ f. none)
nothing_held = (λ i c e. cc e, λ c e. cc e)

create_cache_blocks-Holds_example :
    (new : Disk) × (bad : Bool) × (create_cache_blocks_from_file 2 all_copied five (λ f. none)
      ≡ some (new, bad))
    × Holds 2 five new
    × (bad ≡ false → Present 2 five 0 new)
create_cache_blocks-Holds_example =
    create_cache_blocks-Holds 2 five (omega arith) (omega arith) all_copied (λ f. none) (λ i. refl)
      nothing_held

abbrev blob_moves : List Blob.Runs.Move
blob_moves =
    Blob.Runs.write_to_move true none false (some five) []
    ∷ Blob.Runs.put_move true five
    ∷ Blob.Runs.task_move 1 Blob.committed
    ∷ []

abbrev broken : Written × Blob
broken = write_to true (some 2) true (some five) (9 ∷ []) (Blob.Runs.run blob_moves Blob.Runs.empty)

broken-true : broken.0.1 ≡ true
unfolding write_to Blob.copy_full_file_from_cache aether_agent.Storage.Blob.Runs.run
    aether_agent.Storage.Blob.Runs.step Blob.put_data Blob.write_file_to_cache Blob.commit
broken-true = refl

write_to-Appends_example : Appends five (9 ∷ []) (some 2) broken.0.0
write_to-Appends_example =
    write_to-Appends five blob_moves true (some 2) true (some five) (9 ∷ [])
      (inr refl, (refl, (refl, tt))) (inr refl) broken-true

-- A server whose tag for a part is a byte and the part.
abbrev tagged : ℕ → Bytes → Option Bytes
tagged k data_ = some (7 ∷ data_)

abbrev stored : ℕ → Bytes → Bytes
stored k [] = []
stored k (t ∷ data_) = data_

tagged-stored : (k : ℕ) (d e : Bytes) → tagged k d ≡ some e → stored k e ≡ d
tagged-stored k d e h = let q : 7 ∷ d ≡ e = cc h in rw (← q)

abbrev accepts : List Part → Bool
accepts ps = true

abbrev order : List ℕ
order = 2 ∷ 3 ∷ 1 ∷ []

three_parts : num_parts 2 five 5 ≡ 3
unfolding num_parts to_float64 ceil_quotient float64_scale round_half_even
three_parts = refl

-- Beyond 2 ^ 53 bytes a last part of one byte is lost in float64.
last_part_lost : num_parts 52428800 [] (52428800 * 171798692 + 1) ≡ 171798692
unfolding num_parts to_float64 ceil_quotient float64_scale round_half_even
last_part_lost = refl

order-bounds : All (λ k. (1 ≤ k) × (k ≤ num_parts 2 five 5)) order
order-bounds =
    rw three_parts
      ((omega arith, omega arith), ((omega arith, omega arith), ((omega arith, omega arith), tt)))

order_complete : (i : ℕ) → i < num_parts 2 five 5 → Any (λ k. k ≡ suc i) order
order_complete i l = named i (rw three_parts at l)
  where
    named : (i : ℕ) → i < 3 → Any (λ k. k ≡ suc i) order
    named zero l = inr (inr (inl refl))
    named (suc zero) l = inl refl
    named (suc (suc zero)) l = inr (inl refl)
    named (suc (suc (suc i))) l = absurd (omega (arith, l))

upload_file-assembled_example :
    ((initiated : Bool) (size : ℕ) (sent : List Part)
      → upload_file_in_parallel 2 five tagged initiated accepts 4 order ≡ ok (size, sent)
      → (size ≡ 5) × (assembled stored sent ≡ five) × (accepts sent ≡ true))
    × (0 < 4
        → ServerAnswers tagged
        → ((ps : List Part) → accepts ps ≡ true)
        → (sent : List Part) × (upload_file_in_parallel 2 five tagged true accepts 4 order
            ≡ ok (5, sent)))
upload_file-assembled_example =
    upload_file-assembled 2 five tagged (omega arith) (omega arith) stored tagged-stored accepts 4
      order order-bounds order_complete
