-- ===== src/Policy/Examples.antt =====
-- Runs of the policy: a manifest, the overlay under it, and the firewall on a small kernel.
use mathlib.Core.Path.{◌≡◌, refl}
use aether_agent.Prelude.{
  ℕ, ◌⊎◌, ◌↔◌, inl, inr, ◌≢◌, Bool, true, false, Option, none, some, List, [], ◌∷◌, ◌++◌, All, Any,
  Bool-cases, if◌then◌else◌, Bytes, itoa, codes, same,
}
use aether_agent.Policy.Manifest.{
  NetworkEntry, FilesystemEntry, Manifest, Store, new_store, is_network_allowed, is_path_allowed,
  match_glob, tree_suffix, children_suffix, update,
}
use aether_agent.Policy.Manifest.Decisions.{
  Operation, update_with, add_callback, run, run-decisions, Answers,
}
use aether_agent.Policy.Overlay.{
  Overlay, find, lookup, readdir, is_name, child_path, is_path_or_prefix_allowed, dir_lookup,
  no_entry, VirtualFile, overlay_dir,
}
use aether_agent.Policy.Overlay.Visible.{in_tree, ancestors_lem, Shown, lookup-Shown}
use aether_agent.Policy.Overlay.Files.{
  FileOperation, put_op, put_lazy_op, fill_op, remove_op, replay, file_of, find-replay,
}
use aether_agent.Policy.Overlay.Listing.{readdir-lookup}
use aether_agent.Policy.Overlay.Names.{Distinct, is_some, is_found}

-- `filepath.Match`, of which no pattern here has a wildcard left.
abbrev no_match : Bytes → Bytes → Bool
no_match pattern_ path = false

abbrev file_at : Bytes → FilesystemEntry
file_at path = record {
  ability_id = [];
  path = path;
  direction = [];
  mode = [];
  source = [];
  persist = false;
}

abbrev dest : Bytes → NetworkEntry
dest pattern_ = record {
  ability_id = [];
  pattern_ = pattern_;
  protocol = [];
  direction = [];
  credential_key = [];
  inspect = false;
}

abbrev home : Manifest
home = record {
  version = 1;
  workspace_id = [];
  network = dest (codes "db:80") ∷ [];
  filesystem = file_at (codes "/a/b/**") ∷ file_at (codes "/c") ∷ [];
  credentials = [];
}

abbrev calls : List Operation
calls = add_callback 0 ∷ update_with none ∷ update_with (some home) ∷ []

calls-current : (run calls new_store).current ≡ some home
unfolding run new_store update aether_agent.Policy.Manifest.on_update
    aether_agent.Policy.Manifest.rebuild_index
calls-current = refl

run-decisions_example :
    ((is_network_allowed (codes "db") 80 (run calls new_store) ≡ true)
      ↔ Any (λ e. e.pattern_ ≡ codes "db" ++ (58 ∷ itoa 80)) home.network)
    × Answers no_match
        (codes "/a/b/x")
        home.filesystem
        (is_path_allowed no_match (codes "/a/b/x") (run calls new_store))
run-decisions_example =
    run-decisions no_match calls home (codes "db") (codes "/a/b/x") 80 calls-current

ancestors_lem_example : is_path_or_prefix_allowed no_match (run calls new_store) (codes "/a") ≡ true
ancestors_lem_example =
    ancestors_lem no_match calls home (codes "/a") (codes "b/x") calls-current
      (inl (in_tree (codes "/a/b") refl (inr (codes "x", refl))))

abbrev dirs : Bytes → Option Bool
dirs path = some true

shown :
    dir_lookup no_match dirs (some (run calls new_store)) [] (codes "a") ≡ overlay_dir (codes "/a")
unfolding dir_lookup aether_agent.Policy.Overlay.is_hidden aether_agent.Policy.Manifest.has_manifest
    run new_store update aether_agent.Policy.Manifest.on_update is_path_or_prefix_allowed
    aether_agent.Policy.Overlay.starts_below aether_agent.Policy.Overlay.real_lookup is_path_allowed
    aether_agent.Policy.Manifest.first_match match_glob aether_agent.Policy.Manifest.rebuild_index
    aether_agent.Prelude.has_prefix aether_agent.Prelude.has_suffix aether_agent.Prelude.trim_suffix
    same
shown = refl

lookup-Shown_example : Any (Shown no_match (child_path [] (codes "a"))) home.filesystem
lookup-Shown_example =
    lookup-Shown no_match calls home dirs [] (codes "a") calls-current (λ e. elim_dir (shown_ne e))
  where
    shown_ne :
        dir_lookup no_match dirs (some (run calls new_store)) [] (codes "a") ≡ no_entry
        → overlay_dir (codes "/a") ≡ no_entry
    shown_ne e = cc (e, shown)

    elim_dir : overlay_dir (codes "/a") ≡ no_entry → ⊥
    elim_dir e = cc

-- A file is put, another is declared, filled and put again, and a third is removed.
abbrev edits : List FileOperation
edits =
    remove_op (codes "c")
    ∷ fill_op (codes "b") (some (codes "xyz"))
    ∷ put_lazy_op (codes "b") 9 420
    ∷ put_op (codes "c") none 420
    ∷ put_op (codes "a") (some (codes "hi")) 420
    ∷ []

find-replay_example : find (codes "b") (replay edits).virtuals ≡ file_of (codes "b") edits
find-replay_example = find-replay edits (codes "b")

abbrev real_names : List Bytes
real_names = codes "a" ∷ codes "d" ∷ []

abbrev real_root : Bytes → Option Bool
real_root path = if is_name (tail path) real_names then some false else none
  where
    tail : Bytes → Bytes
    tail [] = []
    tail (b ∷ bs) = bs

names_real : (n : Bytes) → is_name n real_names ≡ is_some (real_root (child_path [] n))
names_real n = elim (Bool-cases (is_name n real_names)) [ inl e ↦ rw e | inr e ↦ rw e ]

real_names-Distinct : Distinct real_names
unfolding same
real_names-Distinct = (refl, (refl, tt))

readdir-lookup_example :
    Distinct (readdir no_match (replay edits) real_names)
    × ((n : Bytes)
        → is_name n (readdir no_match (replay edits) real_names)
          ≡ is_found (lookup no_match real_root (replay edits) n))
readdir-lookup_example =
    readdir-lookup no_match edits real_root real_names real_names-Distinct names_real
