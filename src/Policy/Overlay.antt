-- ===== src/Policy/Overlay.antt =====
-- internal/fuse/fuse.go: the overlay on the real file system. What the real file system holds, and
-- `filepath.Match`, are parameters; the virtual files are a list of names, of which `put` keeps one
-- entry each. A lookup gives the file that a name stands for in place of a kernel inode. The mount
-- and its attributes are left out.
pub mod Visible
pub mod Files
pub mod Names
pub mod Listing
use aether_agent.Prelude.{
  ℕ, ◌+◌, ◌-◌, Bool, true, false, not, ◌&&◌, ◌||◌, Option, none, some, List, [], ◌∷◌, ◌++◌, take,
  drop, length, if◌then◌else◌, add64, lt64, Bytes, codes, same, has_prefix,
}
use aether_agent.Policy.Manifest.{FilesystemEntry, Manifest, Store, has_manifest, is_path_allowed}

pub record VirtualFile : Type 0 where
  pub content : Option Bytes
  pub size : ℕ
  pub mode : ℕ

pub record Overlay : Type 0 where
  pub virtuals : List (Bytes × VirtualFile)
  pub store : Option Store

unfoldable pub new_overlay : Overlay
new_overlay = record { virtuals = []; store = none }

unfoldable pub set_store : Store → Overlay → Overlay
set_store s o = record o { store = some s }

-- The map of the virtual files.
unfoldable pub find : Bytes → List (Bytes × VirtualFile) → Option VirtualFile
find name [] = none
find name ((key, vf) ∷ m) = if same key name then some vf else find name m

unfoldable pub delete : Bytes → List (Bytes × VirtualFile) → List (Bytes × VirtualFile)
delete name [] = []
delete name ((key, vf) ∷ m) =
    let rest = delete name m in if same key name then rest else (key, vf) ∷ rest

abbrev pub store_at : Bytes → VirtualFile → List (Bytes × VirtualFile) → List (Bytes × VirtualFile)
store_at name vf m = (name, vf) ∷ delete name m

-- `len(content)`; a nil slice is `none`.
abbrev pub content_length : Option Bytes → ℕ
content_length none = 0
content_length (some data_) = length data_

unfoldable pub put : Bytes → Option Bytes → ℕ → Overlay → Overlay
put name content mode o = record o {
  virtuals =
      store_at name (record { content = content; size = content_length content; mode = mode })
        o.virtuals;
}

unfoldable pub put_lazy : Bytes → ℕ → ℕ → Overlay → Overlay
put_lazy name size mode o = record o {
  virtuals = store_at name (record { content = none; size = size; mode = mode }) o.virtuals;
}

unfoldable pub fill : Bytes → Option Bytes → Overlay → Overlay
fill name content o = elim (find name o.virtuals) [
  | none ↦ o
  | some vf ↦ record o {
    virtuals =
        store_at name (record vf { content = content; size = content_length content }) o.virtuals;
  }
]

unfoldable pub remove_virtual : Bytes → Overlay → Overlay
remove_virtual name o = record o { virtuals = delete name o.virtuals }

-- A read of a virtual file; `none` is EIO.
unfoldable pub read_slice : Bytes → ℕ → ℕ → Bytes
read_slice data_ n off =
    let end = add64 off n in
    let stop = if lt64 (length data_) end then length data_ else end in
    if not (lt64 off (length data_)) then [] else take (stop - off) (drop off data_)

unfoldable pub read_virtual : VirtualFile → ℕ → ℕ → Option Bytes
read_virtual vf n off = elim vf.content [ none ↦ none | some data_ ↦ some (read_slice data_ n off) ]

-- What a name stands for: a virtual file, nothing (ENOENT), or the real file at a path, which is
-- wrapped when it is a directory.
pub data Found : Type 0 where
  virtual_node : VirtualFile → Found
  no_entry : Found
  real_file : Bytes → Found
  overlay_dir : Bytes → Found

abbrev slash : ℕ
slash = 47

abbrev pub child_path : Bytes → Bytes → Bytes
child_path dir name = dir ++ (slash ∷ name)

abbrev pub is_name : Bytes → List Bytes → Bool
is_name name [] = false
is_name name (n ∷ ns) = same n name || is_name name ns

unfoldable pub missing_virtuals : List Bytes → List (Bytes × VirtualFile) → List Bytes
missing_virtuals names [] = []
missing_virtuals names ((key, vf) ∷ m) =
    let rest = missing_virtuals names m in if is_name key names then rest else key ∷ rest

module _ (file_match : Bytes → Bytes → Bool) where
  -- A pattern that starts with the path.
  unfoldable pub starts_below : Bytes → List FilesystemEntry → Bool
  starts_below path [] = false
  starts_below path (e ∷ es) =
      let rest = starts_below path es in
      if has_prefix e.path (path ++ codes "/") || has_prefix e.path (path ++ codes "/**")
      then true
      else rest

  unfoldable pub is_path_or_prefix_allowed : Store → Bytes → Bool
  is_path_or_prefix_allowed s path =
      if (is_path_allowed file_match path s).0
      then true
      else elim s.current [ none ↦ true | some m ↦ starts_below path m.filesystem ]

  -- The check that `Lookup` and `Readdir` of both kinds of directory make of a path.
  unfoldable pub is_hidden : Option Store → Bytes → Bool
  is_hidden none path = false
  is_hidden (some s) path = has_manifest s && not (is_path_or_prefix_allowed s path)

  -- What the real file system has at a path: whether it is a directory, if it exists.
  module _ (real : Bytes → Option Bool) where
    unfoldable pub real_lookup : Bytes → Found
    real_lookup path = elim (real path) [
      | none ↦ no_entry
      | some true ↦ overlay_dir path
      | some false ↦ real_file path
    ]

    -- `overlayDir.Lookup`.
    unfoldable pub dir_lookup : Option Store → Bytes → Bytes → Found
    dir_lookup store dir name =
        let path = child_path dir name in
        if is_hidden store path then no_entry else real_lookup path

    -- `Overlay.Lookup`, at the root.
    unfoldable pub lookup : Overlay → Bytes → Found
    unfolding dir_lookup
    lookup o name = elim (find name o.virtuals) [
      | some vf ↦ virtual_node vf
      | none ↦ dir_lookup o.store [] name
    ]

  -- The entries of a directory that `Readdir` keeps.
  unfoldable pub filter_entries : Option Store → Bytes → List Bytes → List Bytes
  filter_entries store dir [] = []
  filter_entries store dir (name ∷ names) =
      let rest = filter_entries store dir names in
      if is_hidden store (child_path dir name) then rest else name ∷ rest

  -- `Overlay.Readdir` of the names that the real root has.
  unfoldable pub readdir : Overlay → List Bytes → List Bytes
  unfolding filter_entries missing_virtuals
  readdir o names =
      let entries = filter_entries o.store [] names in
      entries ++ missing_virtuals entries o.virtuals
