-- ===== src/Policy/Overlay/Visible.antt =====
-- Which paths the overlay shows under a manifest.
use mathlib.Core.Path.{◌≡◌, refl, sym, ◌∙◌}
use aether_agent.Prelude.{
  ℕ, ◌⊎◌, inl, inr, Bool, true, false, ◌||◌, Option, none, some, List, [], ◌∷◌, ◌++◌, map, Any,
  Bool-cases, ◌==◌, ==_iff, if◌then◌else◌, append_assoc, Bytes, codes, has_prefix, contains_byte,
  has_prefix_split, ◌≢◌,
}
use aether_agent.Policy.Manifest.{
  FilesystemEntry, Manifest, Store, compile, match_glob, tree_suffix, children_suffix,
  is_path_allowed, first_match, has_manifest,
}
use aether_agent.Policy.Glob.{Under, ChildOf, prefix-Under, prefix_below, match_glob_tree}
use aether_agent.Policy.Manifest.{new_store}
use aether_agent.Policy.Manifest.Decisions.{Operation, run, run-IsIndexed, new_store-IsIndexed}
use aether_agent.Policy.Overlay.{
  starts_below, is_path_or_prefix_allowed, is_hidden, dir_lookup, no_entry, child_path,
}

-- Of two directories on the way to one path, one is the other or stands below it.
compare_dirs :
    (a b x y : Bytes)
    → a ++ (47 ∷ x) ≡ b ++ (47 ∷ y)
    → (a ≡ b)
      ⊎ (((t : Bytes) × (b ≡ a ++ (47 ∷ t)))
          ⊎ ((t : Bytes) × (a ≡ b ++ (47 ∷ t)) × (y ≡ t ++ (47 ∷ x))))
compare_dirs [] [] x y h = inl refl
compare_dirs [] (c ∷ b) x y h = let e : 47 ≡ c = cc in inr (inl (b, cc (sym e)))
compare_dirs (c ∷ a) [] x y h =
    let e : c ≡ 47 = cc in let f : a ++ (47 ∷ x) ≡ y = cc in inr (inr (a, cc e, sym f))
compare_dirs (c ∷ a) (d ∷ b) x y h =
    let e : c ≡ d = cc in
    let f : a ++ (47 ∷ x) ≡ b ++ (47 ∷ y) = cc in
    elim (compare_dirs a b x y f) [
      | inl g ↦ inl (cc (e, g))
      | inr (inl (t, g)) ↦ inr (inl (t, cc (e, g)))
      | inr (inr (t, g, k)) ↦ inr (inr (t, cc (e, g), k))
    ]

contains_byte-middle : (s t : Bytes) (c : ℕ) → contains_byte (s ++ (c ∷ t)) c ≡ true
unfolding contains_byte
contains_byte-middle [] t c = rw ((==_iff c c).1 refl)
contains_byte-middle (b ∷ s) t c = rw (contains_byte-middle s t c) (or_true (b == c))
  where
    or_true : (b : Bool) → (b || true) ≡ true
    or_true true = refl
    or_true false = refl

if_same : (b : Bool) → (if b then true else true) ≡ true
if_same true = refl
if_same false = refl

-- A pattern without a wildcard, or with one of the two trailing ones, and a path that it allows.
pub data Allows (pattern_ path : Bytes) : Type 0 where
  exactly : pattern_ ≡ path → Allows pattern_ path
  in_tree : (dir : Bytes) → pattern_ ≡ dir ++ tree_suffix → Under dir path → Allows pattern_ path
  child :
      (dir : Bytes) → pattern_ ≡ dir ++ children_suffix → ChildOf dir path → Allows pattern_ path

module _ (file_match : Bytes → Bytes → Bool) where
  abbrev StartsOrMatches : Bytes → Bytes → Type 0
  StartsOrMatches pattern_ dir =
      (has_prefix pattern_ (dir ++ codes "/") ≡ true) ⊎ (match_glob file_match pattern_ dir ≡ true)

  starts :
      (pattern_ dir rest : Bytes) → pattern_ ≡ dir ++ (47 ∷ rest) → StartsOrMatches pattern_ dir
  starts pattern_ dir rest e = inl (rw e (prefix-Under dir rest))

  -- Each directory on the way to a path that is allowed starts the pattern or is allowed too.
  Allows-StartsOrMatches :
      (pattern_ dir rest : Bytes)
      → Allows pattern_ (dir ++ (47 ∷ rest))
      → StartsOrMatches pattern_ dir
  Allows-StartsOrMatches p dir rest (exactly e) = starts p dir rest e
  Allows-StartsOrMatches p dir rest (in_tree base e (inl f)) =
      starts p dir (rest ++ tree_suffix) (e ∙ rw (sym f) (append_assoc dir (47 ∷ rest) tree_suffix))
  Allows-StartsOrMatches p dir rest (in_tree base e (inr (r, f))) =
      elim (compare_dirs dir base rest r f) [
        | inl g ↦ inr (rw e ((match_glob_tree file_match base dir).1 (inl g)))
        | inr (inl (t, g)) ↦
            starts p dir (t ++ tree_suffix) (e ∙ rw g (append_assoc dir (47 ∷ t) tree_suffix))
        | inr (inr (t, g, k)) ↦ inr (rw e ((match_glob_tree file_match base dir).1 (inr (t, g))))
      ]
  Allows-StartsOrMatches p dir rest (child base e (name, f, c)) =
      elim (compare_dirs dir base rest name f) [
        | inl g ↦ starts p dir (codes "*") (e ∙ rw g)
        | inr (inl (t, g)) ↦
            starts p dir (t ++ children_suffix)
              (e ∙ rw g (append_assoc dir (47 ∷ t) children_suffix))
        | inr (inr (t, g, k)) ↦ cc (contains_byte-middle t rest 47, rw k at c)
      ]

  Any-or-visible :
      (dir rest : Bytes) (es : List FilesystemEntry)
      → Any (λ e. Allows e.path (dir ++ (47 ∷ rest))) es
      → ((first_match file_match dir (map compile es)).0 ≡ true)
        ⊎ (starts_below file_match dir es ≡ true)
  unfolding first_match starts_below
  Any-or-visible dir rest [] u = absurd u
  Any-or-visible dir rest (e ∷ es) (inl a) = elim (Allows-StartsOrMatches e.path dir rest a) [
    | inl h ↦ inr (rw h)
    | inr h ↦ inl (rw h)
  ]
  Any-or-visible dir rest (e ∷ es) (inr u) = elim (Any-or-visible dir rest es u) [
    | inl h ↦ inl (if_first (match_glob file_match e.path dir) h)
    | inr h ↦
        inr (
          if_true (has_prefix e.path (dir ++ codes "/") || has_prefix e.path (dir ++ codes "/**"))
            h)
  ]
    where
      if_first :
          (b : Bool)
          → (first_match file_match dir (map compile es)).0 ≡ true
          → (if b then (true, some e) else first_match file_match dir (map compile es)).0 ≡ true
      if_first true h = refl
      if_first false h = h

      if_true :
          (b : Bool)
          → starts_below file_match dir es ≡ true
          → (if b then true else starts_below file_match dir es) ≡ true
      if_true true h = refl
      if_true false h = h

  below_of :
      (s : Store) (m : Manifest) (dir : Bytes)
      → s.current ≡ some m
      → starts_below file_match dir m.filesystem ≡ true
      → elim s.current as (λ c. Bool) [
        | none ↦ true
        | some m ↦ starts_below file_match dir m.filesystem
      ]
        ≡ true
  below_of s m dir e h = rw e h

  ancestors_of :
      (s : Store) (m : Manifest) (dir rest : Bytes)
      → s.current ≡ some m
      → s.fs_globs ≡ map compile m.filesystem
      → Any (λ e. Allows e.path (dir ++ (47 ∷ rest))) m.filesystem
      → is_path_or_prefix_allowed file_match s dir ≡ true
  unfolding is_path_or_prefix_allowed is_path_allowed
  ancestors_of s m dir rest e f u = elim (Any-or-visible dir rest m.filesystem u) [
    | inl h ↦ rw (e, is_path_allowed, f, h)
    | inr h ↦ elim (Bool-cases (is_path_allowed file_match dir s).0) [
      | inl g ↦ rw g
      | inr g ↦ rw g (below_of s m dir e h)
    ]
  ]

  -- The path is matched by an entry, or leads to where the pattern of one begins.
  abbrev pub Shown : Bytes → FilesystemEntry → Type 0
  Shown path e =
      (match_glob file_match e.path path ≡ true) ⊎ ((rest : Bytes) × (e.path ≡ path ++ (47 ∷ rest)))

  starts_below-Shown :
      (path : Bytes) (es : List FilesystemEntry)
      → starts_below file_match path es ≡ true
      → Any (Shown path) es
  unfolding starts_below
  starts_below-Shown path [] h = cc
  starts_below-Shown path (e ∷ es) h = elim (Bool-cases (has_prefix e.path (path ++ codes "/"))) [
    | inl f ↦ inl (inr (prefix_below path e.path f))
    | inr f ↦ elim (Bool-cases (has_prefix e.path (path ++ codes "/**"))) [
      | inl g ↦
          let (rest, q) = has_prefix_split e.path (path ++ codes "/**") g in
          inl (inr (codes "**" ++ rest, q ∙ append_assoc path (codes "/**") rest))
      | inr g ↦ inr (starts_below-Shown path es (rw (f, g) at h))
    ]
  ]

  first_match-Shown :
      (path : Bytes) (es : List FilesystemEntry)
      → (first_match file_match path (map compile es)).0 ≡ true
      → Any (Shown path) es
  unfolding first_match
  first_match-Shown path [] h = cc
  first_match-Shown path (e ∷ es) h = elim (Bool-cases (match_glob file_match e.path path)) [
    | inl f ↦ inl (inl f)
    | inr f ↦ inr (first_match-Shown path es (rw f at h))
  ]

  Shown-of :
      (s : Store) (m : Manifest) (path : Bytes)
      → s.current ≡ some m
      → s.fs_globs ≡ map compile m.filesystem
      → is_path_or_prefix_allowed file_match s path ≡ true
      → Any (Shown path) m.filesystem
  unfolding is_path_or_prefix_allowed is_path_allowed
  Shown-of s m path e f h =
      elim (Bool-cases (first_match file_match path (map compile m.filesystem)).0) [
        | inl g ↦ first_match-Shown path m.filesystem g
        | inr g ↦ starts_below-Shown path m.filesystem (rw (e, is_path_allowed, f, g) at h)
      ]

  -- After any calls that leave a manifest, if an entry allows a path by its name, by a directory
  -- with `/**` or by a directory with `/*`, every directory on the way to the path may be
  -- traversed.
  pub ancestors_lem :
      (ops : List Operation) (m : Manifest) (dir rest : Bytes)
      → (run ops new_store).current ≡ some m
      → Any (λ e. Allows e.path (dir ++ (47 ∷ rest))) m.filesystem
      → is_path_or_prefix_allowed file_match (run ops new_store) dir ≡ true
  ancestors_lem ops m dir rest e u =
      ancestors_of (run ops new_store) m dir rest e
        (run-IsIndexed ops new_store new_store-IsIndexed m e).1 u

  has_manifest_of : (s : Store) (m : Manifest) → s.current ≡ some m → has_manifest s ≡ true
  unfolding has_manifest
  has_manifest_of s m e = rw e

  -- After any calls of `Update` and `OnUpdate` that leave a manifest, a lookup through a directory
  -- below the root, on a node that has this store, that does not answer ENOENT asks for a path
  -- that some file system entry matches, or that is a directory in which the pattern of one
  -- begins.
  pub lookup-Shown :
      (ops : List Operation) (m : Manifest) (real : Bytes → Option Bool) (dir name : Bytes)
      → (run ops new_store).current ≡ some m
      → dir_lookup file_match real (some (run ops new_store)) dir name ≢ no_entry
      → Any (Shown (child_path dir name)) m.filesystem
  unfolding dir_lookup is_hidden
  lookup-Shown ops m real dir name e h =
      elim (Bool-cases
        (is_path_or_prefix_allowed file_match (run ops new_store) (child_path dir name))) [
          | inl f ↦
              Shown-of (run ops new_store) m (child_path dir name) e
                (run-IsIndexed ops new_store new_store-IsIndexed m e).1 f
          | inr f ↦ absurd (h (rw (has_manifest_of (run ops new_store) m e, f)))
        ]
