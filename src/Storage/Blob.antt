-- ===== src/Storage/Blob.antt =====
-- storage_cache_blob.go: a whole object in one cached file, which is written by way of
-- storage/lock/atomic_file.go. The writes left to the background are a list of contents; what the disk,
-- the lock file and the inner object do in a call is an argument of it.
pub mod Runs
use aether_agent.Prelude.{
  ℕ, zero, suc, Bool, true, false, Option, none, some, List, [], ◌∷◌, ◌++◌, take, drop, get_elem?,
  length, if◌then◌else◌, Bytes,
}

pub record Blob : Type 0 where
  pub file : Option Bytes
  pub tasks : List Bytes

-- What a call has written to its destination, and whether it returns no error.
abbrev pub Written : Type 0
Written = Bytes × Bool

-- `copyFullFileFromCache`: `breaks` is the number of bytes after which the copy fails, if it does.
unfoldable pub copy_full_file_from_cache : Bool → Option ℕ → Option Bytes → Bytes → Written
copy_full_file_from_cache opens breaks none dst = (dst, false)
copy_full_file_from_cache opens none (some content) dst =
    if opens then (dst ++ content, true) else (dst, false)
copy_full_file_from_cache opens (some k) (some content) dst =
    if opens then (dst ++ take k content, false) else (dst, false)

abbrev pub write_later : Bytes → Blob → Blob
write_later content b = record b { tasks = b.tasks ++ (content ∷ []) }

-- `inner` is what the object would write, or none for an error.
unfoldable pub write_to : Bool → Option ℕ → Bool → Option Bytes → Bytes → Blob → Written × Blob
write_to opens breaks skip inner dst b =
    let (copied, ok) = copy_full_file_from_cache opens breaks b.file dst in
    if ok then ((copied, true), b) else elim inner [
      | none ↦ ((copied, false), b)
      | some data_ ↦ ((copied ++ data_, true), if skip then b else write_later data_ b)
    ]

-- The background part of `Put`.
unfoldable pub put_data : Bool → Bytes → Blob → Blob
put_data write_through content b = if write_through then write_later content b else b

-- What happens to a file that is to appear at once: it is not opened; the copy fails, or the link
-- with another error than that the file exists; it is committed; or the `Close` of the temporary file
-- fails, which has then so many bytes, and it is committed all the same.
pub data Writing : Type 0 where
  open_failed : Writing
  copy_failed : Writing
  committed : Writing
  close_failed : ℕ → Writing

-- `Commit` links the finished file, which does not replace one that is there.
unfoldable pub commit : Bytes → Option Bytes → Option Bytes
commit content none = some content
commit content (some old) = some old

unfoldable pub write_file_to_cache : Writing → Bytes → Option Bytes → Option Bytes
write_file_to_cache open_failed content file = file
write_file_to_cache copy_failed content file = file
write_file_to_cache committed content file = commit content file
write_file_to_cache (close_failed n) content file = commit (take n content) file
