-- ===== src/Storage/Cache/Moves.antt =====
-- The calls of a cached object and the tasks that they leave, as moves.
use mathlib.Core.Path.{◌≡◌}
use aether_agent.Prelude.{
  ℕ, zero, suc, ◌<◌, ◌⊎◌, inl, inr, Bool, true, Option, none, some, List, [], ◌∷◌, ◌++◌, take, drop,
  get_elem?, length, i64_max, Bytes, parse_int-itoa, All, Bool-cases, Option-cases,
}
use aether_agent.Storage.Cache.{
  size_file, Disk, Read, Task, Cache, read_at, close_range_reader, Writing, Copying, store_file,
  read_local_size, size, run_task, delete_cached,
}
use aether_agent.Storage.Cache.Blocks.{is_whole}
use aether_agent.Storage.Cache.Contract.{part, IsRead, Fills, Holds, IsAligned, IsTask}

-- A call, a task by its place in the list, or the deletion of the directory.
pub data Move : Type 0 where
  read_move : Bool → Bool → ℕ → ℕ → Read → Move
  close_move : ℕ → ℕ → Bytes → Move
  size_move : Bool → Bool → Option ℕ → Move
  store_move : Bool → Bytes → Move
  task_move : ℕ → Writing → (ℕ → Copying) → Move
  delete_move : Move

abbrev pub empty : Cache
empty = record { files = λ f. none; tasks = [] }

module _ (chunk_size : ℕ) where
  unfoldable pub step : Move → Cache → Cache
  step (read_move opens skip n offset inner) s = (read_at chunk_size opens skip n offset inner s).1
  step (close_move offset expected buf) s = close_range_reader chunk_size offset expected buf s
  step (size_move opens skip inner) s = (size chunk_size opens skip inner s).1
  step (store_move write_through input) s = store_file chunk_size write_through input s
  step (task_move k w copying) s = elim (get_elem? s.tasks k) [
    | none ↦ s
    | some t ↦ record {
      files = run_task chunk_size w copying t s.files;
      tasks = take k s.tasks ++ drop (suc k) s.tasks;
    }
  ]
  step delete_move s = delete_cached chunk_size s

  unfoldable pub run : List Move → Cache → Cache
  run [] s = s
  run (m ∷ ms) s = run ms (step m s)

  module _ (content : Bytes) where
    -- The object answers from its content, which the stored file has too, a buffer holds the rest of
    -- its chunk, and a copy of a block leaves a whole block or none.
    abbrev pub IsHonest : Move → Type 0
    IsHonest (read_move opens skip n offset inner) =
        (n < i64_max)
        × (offset < i64_max)
        × Fills chunk_size content n offset
        × IsRead content n offset inner
    IsHonest (close_move offset expected buf) =
        IsAligned chunk_size content offset
        × Fills chunk_size content expected offset
        × (buf ≡ part content offset (length buf))
    IsHonest (size_move opens skip inner) = (inner ≡ none) ⊎ (inner ≡ some (length content))
    IsHonest (store_move write_through input) = input ≡ content
    IsHonest (task_move k w copying) = (i : ℕ) → is_whole chunk_size content (copying i) ≡ true
    IsHonest delete_move = Unit

    pub All-take :
        (k : ℕ) (ts : List Task)
        → All (IsTask chunk_size content) ts
        → All (IsTask chunk_size content) (take k ts ++ drop (suc k) ts)
    All-take zero [] p = tt
    All-take zero (t ∷ ts) (p, ps) = ps
    All-take (suc k) [] p = tt
    All-take (suc k) (t ∷ ts) (p, ps) = (p, All-take k ts ps)

    pub All-get :
        (k : ℕ) (ts : List Task) (t : Task)
        → All (IsTask chunk_size content) ts
        → get_elem? ts k ≡ some t
        → IsTask chunk_size content t
    All-get k [] t p e = cc e
    All-get zero (u ∷ ts) t (p, ps) e = let q : u ≡ t = cc in rw (← q) p
    All-get (suc k) (u ∷ ts) t (p, ps) e = All-get k ts t ps e

    pub size-Holds :
        (disk : Disk) (opens : Bool)
        → length content < i64_max
        → Holds chunk_size content disk
        → (read_local_size chunk_size opens disk ≡ none)
          ⊎ (read_local_size chunk_size opens disk ≡ some (length content))
    unfolding read_local_size
    size-Holds disk opens l (h, k) = elim (Option-cases (disk size_file)) [
      | inl e ↦ inl (rw (read_local_size, e))
      | inr (c, e) ↦ elim (Bool-cases opens) [
        | inl o ↦ inr (rw (read_local_size, e, o, k c e) (parse_int-itoa (length content) l))
        | inr o ↦ inl (rw (read_local_size, e, o))
      ]
    ]
