-- ===== src/Policy/Manifest.antt =====
-- internal/manifest/manifest.go. A string is its bytes. A callback is a number, and `update` gives
-- the calls that it makes, in order. `filepath.Match`, with its error as a mismatch, is a parameter.
pub mod Decisions
use aether_agent.Prelude.{
  zero, ℕ, suc, ◌+◌, ◌-◌, ◌/◌, ◌%◌, Bool, true, false, not, ◌||◌, Option, none, some, List, [], ◌∷◌,
  ◌++◌, map, drop, length, ltb, if◌then◌else◌, u64_mod, i64_max, Bytes, itoa, codes, same,
  has_prefix, has_suffix, trim_suffix, contains_byte,
}

pub record NetworkEntry : Type 0 where
  pub ability_id : Bytes
  pub pattern_ : Bytes
  pub protocol : Bytes
  pub direction : Bytes
  pub credential_key : Bytes
  pub inspect : Bool

pub record FilesystemEntry : Type 0 where
  pub ability_id : Bytes
  pub path : Bytes
  pub direction : Bytes
  pub mode : Bytes
  pub source : Bytes
  pub persist : Bool

pub record Manifest : Type 0 where
  pub version : ℕ
  pub workspace_id : Bytes
  pub network : List NetworkEntry
  pub filesystem : List FilesystemEntry
  pub credentials : List (Bytes × Bytes)

pub record CompiledGlob : Type 0 where
  pub pattern_ : Bytes
  pub entry : FilesystemEntry

pub record Store : Type 0 where
  pub current : Option Manifest
  pub callbacks : List ℕ
  pub net_index : Bytes → Bool
  pub fs_globs : List CompiledGlob

unfoldable pub new_store : Store
new_store = record { current = none; callbacks = []; net_index = λ key. false; fs_globs = [] }

-- The loop that fills the map.
unfoldable pub index_network : List NetworkEntry → (Bytes → Bool) → Bytes → Bool
index_network [] index = index
index_network (e ∷ es) index =
    index_network es (λ key. if same e.pattern_ key then true else index key)

abbrev pub compile : FilesystemEntry → CompiledGlob
compile e = record { pattern_ = e.path; entry = e }

unfoldable pub rebuild_index : Option Manifest → Store → Store
rebuild_index none s = s
rebuild_index (some m) s = record s {
  net_index = index_network m.network (λ key. false);
  fs_globs = map compile m.filesystem;
}

-- The store afterwards, and the callbacks called with the manifest.
unfoldable pub update : Option Manifest → Store → Store × List (ℕ × Option Manifest)
update m s = (rebuild_index m (record s { current = m }), map (λ fn. (fn, m)) s.callbacks)

unfoldable pub has_manifest : Store → Bool
has_manifest s = elim s.current [ none ↦ false | some m ↦ true ]

unfoldable pub on_update : ℕ → Store → Store
on_update fn s = record s { callbacks = s.callbacks ++ (fn ∷ []) }

unfoldable pub is_network_allowed : Bytes → ℕ → Store → Bool
is_network_allowed host port s = elim s.current [
  | none ↦ false
  | some m ↦ s.net_index (host ++ (58 ∷ itoa port))
]

abbrev pub tree_suffix : Bytes
tree_suffix = codes "/**"

abbrev pub children_suffix : Bytes
children_suffix = codes "/*"

module _ (file_match : Bytes → Bytes → Bool) where
  unfoldable pub match_glob : Bytes → Bytes → Bool
  match_glob pattern_ path =
      if same pattern_ path
      then true
      else if has_suffix pattern_ tree_suffix
      then match_tree (trim_suffix pattern_ tree_suffix)
      else if has_suffix pattern_ children_suffix
      then match_children (trim_suffix pattern_ children_suffix)
      else file_match pattern_ path
    where
      match_tree : Bytes → Bool
      match_tree prefix = same path prefix || has_prefix path (prefix ++ (47 ∷ []))

      match_children : Bytes → Bool
      match_children prefix =
          if not (has_prefix path (prefix ++ (47 ∷ [])))
          then false
          else not (contains_byte (drop (length prefix + 1) path) 47)

  unfoldable pub first_match : Bytes → List CompiledGlob → Bool × Option FilesystemEntry
  first_match path [] = (false, none)
  first_match path (g ∷ gs) =
      let rest = first_match path gs in
      if match_glob g.pattern_ path then (true, some g.entry) else rest

  unfoldable pub is_path_allowed : Bytes → Store → Bool × Option FilesystemEntry
  is_path_allowed path s = elim s.current [
    | none ↦ (true, none)
    | some m ↦ first_match path s.fs_globs
  ]
