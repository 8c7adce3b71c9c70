-- ===== src/Policy/Overlay/Listing.antt =====
-- What the root directory lists, beside what a lookup in it finds.
use mathlib.Core.Path.{◌≡◌, refl, ◌∙◌}
use aether_agent.Prelude.{
  inl, inr, Bool, true, false, not, ◌&&◌, ◌||◌, Option, none, some, List, [], ◌∷◌, Bool-cases,
  Bytes, same, same_iff,
}
use aether_agent.Policy.Manifest.{Store}
use aether_agent.Policy.Overlay.{
  VirtualFile, Overlay, find, is_name, is_hidden, filter_entries, missing_virtuals, readdir, lookup,
  child_path, dir_lookup, real_lookup,
}
use aether_agent.Policy.Overlay.Files.{FileOperation, replay}
use aether_agent.Policy.Overlay.Names.{
  is_some, is_found, Distinct, keys, and_false, is_name-append, find-is_name, missing-is_name,
  missing-Distinct, Distinct-append, replay-Distinct,
}

module _ (file_match : Bytes → Bytes → Bool) where
  filter-is_name :
      (n dir : Bytes) (store : Option Store) (names : List Bytes)
      → is_name n (filter_entries file_match store dir names)
        ≡ (is_name n names && not (is_hidden file_match store (child_path dir n)))
  unfolding filter_entries
  filter-is_name n dir store [] = refl
  filter-is_name n dir store (m ∷ names) = elim (Bool-cases (same m n)) [
    | inl e ↦
        let q : m ≡ n = (same_iff m n).0 e in
        elim (Bool-cases (is_hidden file_match store (child_path dir n))) [
          | inl f ↦
              rw (e, q, f) (filter-is_name n dir store names ∙ rw f (and_false (is_name n names)))
          | inr f ↦ rw (e, q, f, (same_iff n n).1 refl)
        ]
    | inr e ↦ elim (Bool-cases (is_hidden file_match store (child_path dir m))) [
      | inl f ↦ rw (e, f) (filter-is_name n dir store names)
      | inr f ↦ rw (e, f, e) (filter-is_name n dir store names)
    ]
  ]

  filter-Distinct :
      (dir : Bytes) (store : Option Store) (names : List Bytes)
      → Distinct names
      → Distinct (filter_entries file_match store dir names)
  unfolding filter_entries
  filter-Distinct dir store [] d = tt
  filter-Distinct dir store (m ∷ names) (d, ds) =
      elim (Bool-cases (is_hidden file_match store (child_path dir m))) [
        | inl f ↦ rw f (filter-Distinct dir store names ds)
        | inr f ↦ rw f (filter-is_name m dir store names ∙ rw d, filter-Distinct dir store names ds)
      ]

  listed :
      (o : Overlay) (names : List Bytes) (n : Bytes)
      → is_name n (readdir file_match o names) ≡ (
          is_some (find n o.virtuals)
          || (is_name n names && not (is_hidden file_match o.store (child_path [] n))))
  unfolding readdir
  listed o names n =
      let entries = filter_entries file_match o.store [] names in
      is_name-append n entries (missing_virtuals entries o.virtuals)
      ∙ rw
          (
            missing-is_name n entries o.virtuals,
            filter-is_name n [] o.store names,
            find-is_name n o.virtuals,
          )
          (merge (is_name n names && not (is_hidden file_match o.store (child_path [] n)))
            (is_name n (keys o.virtuals)))
    where
      merge : (a b : Bool) → (a || (b && not a)) ≡ (b || a)
      merge true true = refl
      merge true false = refl
      merge false true = refl
      merge false false = refl

  looked_up :
      (o : Overlay) (real : Bytes → Option Bool) (n : Bytes)
      → (is_some (find n o.virtuals)
          || (is_some (real (child_path [] n))
              && not (is_hidden file_match o.store (child_path [] n))))
        ≡ is_found (lookup file_match real o n)
  unfolding lookup dir_lookup real_lookup
  looked_up o real n = at_name (find n o.virtuals) refl (real (child_path [] n)) refl
    where
      at_name :
          (vf : Option VirtualFile)
          → find n o.virtuals ≡ vf
          → (r : Option Bool) → real (child_path [] n) ≡ r
          → (is_some vf || (is_some r && not (is_hidden file_match o.store (child_path [] n))))
            ≡ is_found (lookup file_match real o n)
      at_name (some vf) e r f = rw (lookup, e)
      at_name none e r f = elim (Bool-cases (is_hidden file_match o.store (child_path [] n))) [
        | inl g ↦ rw (lookup, e, dir_lookup, g) (and_false (is_some r))
        | inr g ↦ rw (lookup, e, dir_lookup, g) (at_real r f)
      ]
        where
          at_real :
              (r : Option Bool)
              → real (child_path [] n) ≡ r
              → (is_some r && true) ≡ is_found (real_lookup file_match real (child_path [] n))
          at_real none f = rw (f, real_lookup)
          at_real (some true) f = rw (f, real_lookup)
          at_real (some false) f = rw (f, real_lookup)

  -- For an overlay that any calls of its methods lead to, and a real root that holds each name
  -- once, the listing of the root has no name twice, and has a name just if a lookup of it finds
  -- something.
  pub readdir-lookup :
      (ops : List FileOperation) (real : Bytes → Option Bool) (names : List Bytes)
      → Distinct names
      → ((n : Bytes) → is_name n names ≡ is_some (real (child_path [] n)))
      → Distinct (readdir file_match (replay ops) names)
        × ((n : Bytes)
            → is_name n (readdir file_match (replay ops) names)
              ≡ is_found (lookup file_match real (replay ops) n))
  unfolding readdir
  readdir-lookup ops real names d h =
      let o = replay ops in
      let entries = filter_entries file_match o.store [] names in
      (
        Distinct-append entries (missing_virtuals entries o.virtuals)
            (filter-Distinct [] o.store names d)
            (missing-Distinct entries o.virtuals (replay-Distinct ops))
            (λ n e.
              missing-is_name n entries o.virtuals
              ∙ rw e (and_false (is_name n (keys o.virtuals)))),
        λ n. listed o names n ∙ rw (h n) (looked_up o real n),
      )
