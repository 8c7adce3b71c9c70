-- ===== src/Storage/Cache.antt =====
-- storage_cache_seekable.go, isCompleteRead of storage_cache.go, and utils/move.go. A file of the
-- cache's directory is named by the numbers that its name prints. What is left to the background is a
-- task of the state, which runs when a move says so. What the disk, the lock file and the inner object
-- do in a call is an argument of it.
pub mod Contract
pub mod Reads
pub mod Blocks
pub mod Moves
pub mod Runs
pub mod Short
use aether_agent.Prelude.{
  ℕ, zero, suc, Bool, true, false, not, ◌&&◌, ◌||◌, Option, none, some, List, [], ◌∷◌, ◌++◌, take,
  drop, length, ltb, ◌==◌, if◌then◌else◌, add64, lt64, quot64, rem64, Bytes, itoa, parse_int,
}

-- A chunk, by its place in the object and the size of the cache's chunks, or the size of the object.
pub data File : Type 0 where
  chunk_file : ℕ → ℕ → File
  size_file : File

abbrev pub same_file : File → File → Bool
same_file (chunk_file i n) (chunk_file j m) = i == j && n == m
same_file (chunk_file i n) size_file = false
same_file size_file (chunk_file j m) = false
same_file size_file size_file = true

abbrev pub Disk : Type 0
Disk = File → Option Bytes

unfoldable pub set_file : File → Option Bytes → Disk → Disk
set_file f content disk g = if same_file f g then content else disk g

pub data ReadError : Type 0 where
  eof : ReadError
  buffer_too_small : ReadError
  buffer_too_large : ReadError
  offset_unaligned : ReadError
  multiple_chunks : ReadError
  failed : ReadError

-- The bytes that a read puts at the start of the buffer, and its error.
pub record Read : Type 0 where
  pub bytes : Bytes
  pub err : Option ReadError

-- The writes that are left to the background.
pub data Task : Type 0 where
  write_chunk : ℕ → Bytes → Task
  write_size : ℕ → Task
  store_blocks : Bytes → Task

pub record Cache : Type 0 where
  pub files : Disk
  pub tasks : List Task

abbrev pub later : Task → Cache → Cache
later t s = record s { tasks = s.tasks ++ (t ∷ []) }

unfoldable pub is_complete_read : ℕ → ℕ → Option ReadError → Bool
is_complete_read n expected (some eof) = n == expected || ltb 0 n
is_complete_read n expected e = n == expected

-- `ReadAt` of an open file at offset 0.
unfoldable pub pread : Bytes → ℕ → Read
pread content n = record {
  bytes = take n content;
  err = if ltb (length content) n then some eof else none;
}

abbrev pub is_failure : Option ReadError → Bool
is_failure none = false
is_failure (some eof) = false
is_failure (some e) = true

-- What the disk and the lock file do in a write.
pub data Writing : Type 0 where
  lock_denied : Writing
  temp_failed : Writing
  link_failed : Writing
  link_tried : Writing

-- `RenameOrDeleteFile` of a file with this content: a link does not replace a file.
unfoldable pub rename_or_delete_file : File → Bytes → Disk → Disk
unfolding set_file
rename_or_delete_file new_path content disk = elim (disk new_path) [
  | none ↦ set_file new_path (some content) disk
  | some old ↦ disk
]

unfoldable pub write_file : Writing → File → Bytes → Disk → Disk
write_file lock_denied path content disk = disk
write_file temp_failed path content disk = disk
write_file link_failed path content disk = disk
write_file link_tried path content disk = rename_or_delete_file path content disk

-- What the disk does when a block of a stored file is copied: the file is not opened; the copy
-- fails, and the file is removed, or keeps some of the bytes where its removal fails; the block is
-- copied; or the `Close` fails, which is only logged, and the file has some of the bytes.
pub data Copying : Type 0 where
  open_failed : Copying
  copy_failed : Copying
  removal_failed : ℕ → Copying
  copied : Copying
  close_failed : ℕ → Copying

module _ (chunk_size : ℕ) where
  unfoldable pub make_chunk_filename : ℕ → File
  make_chunk_filename offset = chunk_file (quot64 offset chunk_size) chunk_size

  unfoldable pub validate_read_at_params : ℕ → ℕ → Option ReadError
  validate_read_at_params buff_size offset =
      if buff_size == 0
      then some buffer_too_small
      else if lt64 chunk_size buff_size
      then some buffer_too_large
      else if not (rem64 offset chunk_size == 0)
      then some offset_unaligned
      else if lt64 chunk_size (add64 (rem64 offset chunk_size) buff_size)
      then some multiple_chunks
      else none

  -- `opens` is false where the file is there and cannot be opened or read.
  unfoldable pub read_at_from_cache : Bool → Disk → File → ℕ → Read
  unfolding pread
  read_at_from_cache opens disk chunk_path n = elim (disk chunk_path) [
    | none ↦ record { bytes = []; err = some failed }
    | some content ↦ if opens then pread content n else record { bytes = []; err = some failed }
  ]

  -- What the object returns goes back, and where it is complete also into the cache, unless the
  -- context has the flag `skip`.
  unfoldable pub read_uncached : Bool → ℕ → ℕ → Read → Cache → Read × Cache
  unfolding is_complete_read
  read_uncached skip n offset inner s =
      if is_failure inner.err
      then (record inner { err = some failed }, s)
      else if not skip && is_complete_read (length inner.bytes) n inner.err
      then (inner, later (write_chunk offset inner.bytes) s)
      else (inner, s)

  -- A read of `n` bytes at the offset, where the object would return `inner`.
  unfoldable pub read_at : Bool → Bool → ℕ → ℕ → Read → Cache → Read × Cache
  read_at opens skip n offset inner s = elim (validate_read_at_params n offset) [
    | some e ↦ (record { bytes = []; err = some e }, s)
    | none ↦
        let cached = read_at_from_cache opens s.files (make_chunk_filename offset) n in
        if is_failure cached.err then read_uncached skip n offset inner s else (cached, s)
  ]

  -- The bytes that a range reader gives, and whether they are those of the section of a cached file,
  -- or the object's; `none` is an error.
  unfoldable pub open_range_reader : Bool → ℕ → ℕ → Option Bytes → Cache → Option Bytes × Bool
  open_range_reader opens offset n inner s = elim (s.files (make_chunk_filename offset)) [
    | none ↦ (inner, false)
    | some content ↦ if opens then (some (take n content), true) else (inner, false)
  ]

  -- `Close` of the reader that writes through, which a call without the flag `skip` gets, after the
  -- bytes have been read of it.
  unfoldable pub close_range_reader : ℕ → ℕ → Bytes → Cache → Cache
  close_range_reader offset expected buf s =
      if ltb 0 (length buf) && length buf == expected then later (write_chunk offset buf) s else s

  -- One block, of what stands from the offset on, and whether that failed; a file that is there is
  -- replaced.
  unfoldable pub write_chunk_from_file : Copying → ℕ → Bytes → Disk → Disk × Bool
  unfolding set_file
  write_chunk_from_file open_failed offset input disk = (disk, true)
  write_chunk_from_file copy_failed offset input disk =
      (set_file (make_chunk_filename offset) none disk, true)
  write_chunk_from_file (removal_failed n) offset input disk = (
    set_file (make_chunk_filename offset) (some (take n (take chunk_size (drop offset input))))
        disk,
    true,
  )
  write_chunk_from_file copied offset input disk = (
    set_file (make_chunk_filename offset) (some (take chunk_size (drop offset input))) disk,
    false,
  )
  write_chunk_from_file (close_failed n) offset input disk = (
    set_file (make_chunk_filename offset) (some (take n (take chunk_size (drop offset input))))
        disk,
    false,
  )

  -- The blocks from an offset on, each with what the disk does, and whether one failed; `none` is out
  -- of fuel.
  unfoldable pub create_blocks_from :
      ℕ → (ℕ → Copying) → ℕ → Bytes → Disk × Bool → Option (Disk × Bool)
  create_blocks_from zero copying offset input (disk, bad) =
      if lt64 offset (length input) then none else some (disk, bad)
  create_blocks_from (suc fuel) copying offset input (disk, bad) =
      let (written, bad_here) = write_chunk_from_file (copying offset) offset input disk in
      let rest =
        create_blocks_from fuel copying (add64 offset chunk_size) input
          (written, bad || bad_here) in
      if lt64 offset (length input) then rest else some (disk, bad)

  unfoldable pub create_cache_blocks_from_file : (ℕ → Copying) → Bytes → Disk → Option (Disk × Bool)
  create_cache_blocks_from_file copying input disk =
      create_blocks_from (length input) copying 0 input (disk, false)

  -- The background part of `StoreFile` where write-through is enabled.
  unfoldable pub store_file : Bool → Bytes → Cache → Cache
  store_file write_through input s = if write_through then later (store_blocks input) s else s

  unfoldable pub read_local_size : Bool → Disk → Option ℕ
  read_local_size opens disk = elim (disk size_file) [
    | none ↦ none
    | some content ↦ if opens then parse_int content else none
  ]

  unfoldable pub write_local_size : Writing → ℕ → Disk → Disk
  write_local_size w n disk = write_file w size_file (itoa n) disk

  -- `Size`, with what the object answers; `none` is its error.
  unfoldable pub size : Bool → Bool → Option ℕ → Cache → Option ℕ × Cache
  size opens skip inner s = elim (read_local_size opens s.files) [
    | some n ↦ (some n, s)
    | none ↦ elim inner [
      | none ↦ (none, s)
      | some n ↦ (some n, if skip then s else later (write_size n) s)
    ]
  ]

  -- A task runs. The size of a stored file is written once each of its blocks is.
  unfoldable pub run_task : Writing → (ℕ → Copying) → Task → Disk → Disk
  run_task w copying (write_chunk offset content) disk =
      write_file w (make_chunk_filename offset) content disk
  run_task w copying (write_size n) disk = write_local_size w n disk
  run_task w copying (store_blocks input) disk =
      elim (create_cache_blocks_from_file copying input disk) [
        | none ↦ disk
        | some (written, bad) ↦ if bad then written else write_local_size w (length input) written
      ]

  -- `deleteCachedObjectsWithPrefix` of the object's directory.
  unfoldable pub delete_cached : Cache → Cache
  delete_cached s = record s { files = λ f. none }
