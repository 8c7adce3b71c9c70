-- ===== src/Policy/Manifest/Decisions.antt =====
-- What the store decides once a manifest has arrived, whatever was called before.
use aether_agent.Prelude.{
  ℕ, ◌≡◌, refl, ap, ◌⊎◌, ◌↔◌, inl, inr, Bool, true, false, Option, none, some, List, [], ◌∷◌, ◌++◌,
  map, All, Any, Bool-cases, if◌then◌else◌, Bytes, itoa, same, same_iff,
}
use aether_agent.Policy.Manifest.{
  NetworkEntry, FilesystemEntry, Manifest, Store, new_store, index_network, compile, rebuild_index,
  update, on_update, is_network_allowed, match_glob, first_match, is_path_allowed,
}

pub data Operation : Type 0 where
  update_with : Option Manifest → Operation
  add_callback : ℕ → Operation

unfoldable pub run : List Operation → Store → Store
run [] s = s
run (update_with m ∷ ops) s = run ops (update m s).0
run (add_callback fn ∷ ops) s = run ops (on_update fn s)

-- The indexes are those of the current manifest.
abbrev pub IsIndexed : Store → Type 0
IsIndexed s =
    (m : Manifest)
    → s.current ≡ some m
    → (s.net_index ≡ index_network m.network (λ key. false))
      × (s.fs_globs ≡ map compile m.filesystem)

update-IsIndexed : (m : Option Manifest) (s : Store) → IsIndexed (update m s).0
unfolding update rebuild_index
update-IsIndexed none s = λ m e. cc
update-IsIndexed (some n) s = λ m e. let q : n ≡ m = cc in rw (← q) (refl, refl)

pub run-IsIndexed : (ops : List Operation) (s : Store) → IsIndexed s → IsIndexed (run ops s)
unfolding run on_update
run-IsIndexed [] s w = w
run-IsIndexed (update_with m ∷ ops) s w = run-IsIndexed ops (update m s).0 (update-IsIndexed m s)
run-IsIndexed (add_callback fn ∷ ops) s w = run-IsIndexed ops (on_update fn s) w

pub new_store-IsIndexed : IsIndexed new_store
unfolding new_store
new_store-IsIndexed m e = cc

abbrev Indexed : List NetworkEntry → (Bytes → Bool) → Bytes → Type 0
Indexed es index key = Any (λ e. e.pattern_ ≡ key) es ⊎ (index key ≡ true)

abbrev put_in : (Bytes → Bool) → Bytes → Bytes → Bool
put_in index pattern_ key = if same pattern_ key then true else index key

put_in-cases :
    (index : Bytes → Bool) (pattern_ key : Bytes)
    → (put_in index pattern_ key ≡ true) ↔ ((pattern_ ≡ key) ⊎ (index key ≡ true))
put_in-cases index pattern_ key = elim (Bool-cases (same pattern_ key)) [
  | inl e ↦ (λ h. inl ((same_iff pattern_ key).0 e), λ h. rw e)
  | inr e ↦ (
    λ h. inr (rw e at h),
    λ u. elim u [ inl q ↦ cc ((same_iff pattern_ key).1 q) | inr k ↦ rw e k ],
  )
]

index_network_lem :
    (es : List NetworkEntry) (index : Bytes → Bool) (key : Bytes)
    → (index_network es index key ≡ true) ↔ Indexed es index key
unfolding index_network
index_network_lem [] index key = (λ h. inr h, λ u. elim u [ inl a ↦ absurd a | inr h ↦ h ])
index_network_lem (e ∷ es) index key =
    let (p, q) = index_network_lem es (put_in index e.pattern_) key in
    let (r, s) = put_in-cases index e.pattern_ key in
    (
      λ h. elim (p h) [
        | inl a ↦ inl (inr a)
        | inr k ↦ elim (r k) [ inl b ↦ inl (inl b) | inr c ↦ inr c ]
      ],
      λ u. elim u [
        | inl (inl b) ↦ q (inr (s (inl b)))
        | inl (inr a) ↦ q (inl a)
        | inr c ↦ q (inr (s (inr c)))
      ],
    )

module _ (file_match : Bytes → Bytes → Bool) where
  abbrev pub MatchedBy : Bytes → FilesystemEntry → Type 0
  MatchedBy path e = match_glob file_match e.path path ≡ true

  abbrev pub NotMatchedBy : Bytes → FilesystemEntry → Type 0
  NotMatchedBy path e = match_glob file_match e.path path ≡ false

  -- The entry that allows a path is the first of the list that matches it.
  abbrev pub IsFirst : Bytes → List FilesystemEntry → FilesystemEntry → Type 0
  IsFirst path entries e =
      (before after : List FilesystemEntry) × (entries ≡ before ++ (e ∷ after))
      × All (NotMatchedBy path) before
      × MatchedBy path e

  -- Allowed by the first entry that matches, or by none.
  abbrev pub Answers : Bytes → List FilesystemEntry → Bool × Option FilesystemEntry → Type 0
  Answers path entries r =
      ((e : FilesystemEntry) × (r ≡ (true, some e)) × IsFirst path entries e)
      ⊎ ((r ≡ (false, none)) × All (NotMatchedBy path) entries)

  first_match_lem :
      (path : Bytes) (es : List FilesystemEntry)
      → Answers path es (first_match file_match path (map compile es))
  unfolding first_match
  first_match_lem path [] = inr (refl, tt)
  first_match_lem path (e ∷ es) = elim (Bool-cases (match_glob file_match e.path path)) [
    | inl h ↦ rw h (inl (e, refl, ([], es, refl, tt, h)))
    | inr h ↦ rw h (elim (first_match_lem path es) [
      | inl (f, r, (before, after, s, n, m)) ↦
          inl (f, r, (e ∷ before, after, ap (λ xs. e ∷ xs) s, (h, n), m))
      | inr (r, n) ↦ inr (r, (refl, n))
    ])
  ]

  decisions_of :
      (s : Store) (m : Manifest) (host path : Bytes) (port : ℕ)
      → s.current ≡ some m
      → s.net_index ≡ index_network m.network (λ key. false)
      → s.fs_globs ≡ map compile m.filesystem
      → ((is_network_allowed host port s ≡ true)
          ↔ Any (λ e. e.pattern_ ≡ host ++ (58 ∷ itoa port)) m.network)
        × Answers path m.filesystem (is_path_allowed file_match path s)
  unfolding is_network_allowed is_path_allowed
  decisions_of s m host path port e n f =
      let (p, q) = index_network_lem m.network (λ key. false) (host ++ (58 ∷ itoa port)) in
      (
        rw (e, n, is_network_allowed) (λ h. elim (p h) [ inl a ↦ a | inr c ↦ cc ], λ a. q (inl a)),
        rw (e, f, is_path_allowed) (first_match_lem path m.filesystem),
      )

  -- After any calls of `Update` and `OnUpdate` that leave a manifest, `IsNetworkAllowed` says yes
  -- just where an entry has the pattern host:port, and `IsPathAllowed` gives the first file system
  -- entry whose pattern matches the path, or no if none does: the indexes never lag behind the
  -- manifest.
  pub run-decisions :
      (ops : List Operation) (m : Manifest) (host path : Bytes) (port : ℕ)
      → (run ops new_store).current ≡ some m
      → ((is_network_allowed host port (run ops new_store) ≡ true)
          ↔ Any (λ e. e.pattern_ ≡ host ++ (58 ∷ itoa port)) m.network)
        × Answers path m.filesystem (is_path_allowed file_match path (run ops new_store))
  run-decisions ops m host path port e =
      let (n, f) = run-IsIndexed ops new_store new_store-IsIndexed m e in
      decisions_of (run ops new_store) m host path port e n f
