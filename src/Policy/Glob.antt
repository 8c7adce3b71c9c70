-- ===== src/Policy/Glob.antt =====
-- What the two trailing wildcards of `matchGlob` match.
use mathlib.Core.Path.{◌≡◌, refl, sym, ◌∙◌}
use aether_agent.Prelude.{
  ℕ, suc, ◌+◌, ◌⊎◌, ◌↔◌, inl, inr, Bool, true, false, not, ◌||◌, [], ◌∷◌, ◌++◌, drop, length, arith,
  Bool-cases, Bytes, codes, same, same_iff, has_prefix, has_prefix-append, has_prefix_split,
  has_suffix, has_suffix-append, has_suffix_split, trim_suffix, trim_suffix-append, contains_byte,
  append_assoc,
}
use aether_agent.Policy.Manifest.{match_glob, tree_suffix, children_suffix}

-- The text is the directory, or stands below it.
abbrev pub Under : Bytes → Bytes → Type 0
Under dir path = (path ≡ dir) ⊎ ((rest : Bytes) × (path ≡ dir ++ (47 ∷ rest)))

-- The text stands directly below the directory.
abbrev pub ChildOf : Bytes → Bytes → Type 0
ChildOf dir path = (name : Bytes) × (path ≡ dir ++ (47 ∷ name)) × (contains_byte name 47 ≡ false)

same_refl : (s : Bytes) → same s s ≡ true
same_refl s = (same_iff s s).1 refl

or_true : (b : Bool) → (b || true) ≡ true
or_true true = refl
or_true false = refl

not-true : (b : Bool) → not b ≡ true → b ≡ false
not-true true h = cc
not-true false h = refl

-- Two texts that end in one byte each.
pub snoc_inj : (s t : Bytes) (a b : ℕ) → s ++ (a ∷ []) ≡ t ++ (b ∷ []) → (s ≡ t) × (a ≡ b)
snoc_inj [] [] a b h = (refl, cc)
snoc_inj [] (y ∷ []) a b h = cc
snoc_inj [] (y ∷ z ∷ t) a b h = cc
snoc_inj (x ∷ []) [] a b h = cc
snoc_inj (x ∷ z ∷ s) [] a b h = cc
snoc_inj (x ∷ s) (y ∷ t) a b h =
    let p : s ++ (a ∷ []) ≡ t ++ (b ∷ []) = cc in
    let e : x ≡ y = cc in let (q, r) = snoc_inj s t a b p in (cc (e, q), r)

-- `/*` is not the end of a text that ends in `/**`.
not-tree : (dir : Bytes) → has_suffix (dir ++ children_suffix) tree_suffix ≡ false
not-tree dir = elim (Bool-cases (has_suffix (dir ++ children_suffix) tree_suffix)) [
  | inl h ↦
      let e = has_suffix_split (dir ++ children_suffix) tree_suffix h in
      let (p, q) =
        snoc_inj (dir ++ (47 ∷ []))
          (trim_suffix (dir ++ children_suffix) tree_suffix ++ (47 ∷ 42 ∷ [])) 42 42
          (append_assoc dir (47 ∷ []) (42 ∷ [])
            ∙ e
            ∙ sym (append_assoc _ (47 ∷ 42 ∷ []) (42 ∷ []))) in
      let (r, s) =
        snoc_inj dir (trim_suffix (dir ++ children_suffix) tree_suffix ++ (47 ∷ [])) 47 42
          (p ∙ sym (append_assoc _ (47 ∷ []) (42 ∷ []))) in
      absurd (omega (arith, s))
  | inr h ↦ h
]

drop-append_suc : (s t : Bytes) (c : ℕ) → drop (length s + 1) (s ++ (c ∷ t)) ≡ t
drop-append_suc [] t c = refl
drop-append_suc (b ∷ s) t c =
    let e : suc (length s) + 1 ≡ suc (length s + 1) = omega arith in rw e (drop-append_suc s t c)

-- `dir/` is a prefix of what stands below `dir`.
pub prefix-Under : (dir rest : Bytes) → has_prefix (dir ++ (47 ∷ rest)) (dir ++ (47 ∷ [])) ≡ true
prefix-Under dir rest =
    rw (sym (append_assoc dir (47 ∷ []) rest)) (has_prefix-append (dir ++ (47 ∷ [])) rest)

pub prefix_below :
    (dir path : Bytes)
    → has_prefix path (dir ++ (47 ∷ [])) ≡ true
    → (rest : Bytes) × (path ≡ dir ++ (47 ∷ rest))
prefix_below dir path h =
    let (rest, e) = has_prefix_split path (dir ++ (47 ∷ [])) h in
    (rest, e ∙ append_assoc dir (47 ∷ []) rest)

module _ (file_match : Bytes → Bytes → Bool) (dir path : Bytes) where
  match_tree-Under : match_glob file_match (dir ++ tree_suffix) path ≡ true → Under dir path
  unfolding match_glob
  match_tree-Under h = elim (Bool-cases (same (dir ++ tree_suffix) path)) [
    | inl e ↦ inr (codes "**", sym ((same_iff (dir ++ tree_suffix) path).0 e))
    | inr e ↦
        let k : same path dir || has_prefix path (dir ++ (47 ∷ [])) ≡ true =
          rw (e, has_suffix-append dir tree_suffix, trim_suffix-append dir tree_suffix) at h in
        elim (Bool-cases (same path dir)) [
          | inl f ↦ inl ((same_iff path dir).0 f)
          | inr f ↦ inr (prefix_below dir path (rw f at k))
        ]
  ]

  Under-match_tree : Under dir path → match_glob file_match (dir ++ tree_suffix) path ≡ true
  unfolding match_glob
  Under-match_tree u = elim (Bool-cases (same (dir ++ tree_suffix) path)) [
    | inl e ↦ rw e
    | inr e ↦
        rw (e, has_suffix-append dir tree_suffix, trim_suffix-append dir tree_suffix)
          (elim u [
            | inl f ↦ rw (f, same_refl dir)
            | inr (rest, f) ↦
                rw (f, prefix-Under dir rest) (or_true (same (dir ++ (47 ∷ rest)) dir))
          ])
  ]

  pub match_glob_tree : (match_glob file_match (dir ++ tree_suffix) path ≡ true) ↔ Under dir path
  match_glob_tree = (match_tree-Under, Under-match_tree)

  match_children-ChildOf :
      match_glob file_match (dir ++ children_suffix) path ≡ true → ChildOf dir path
  unfolding match_glob
  match_children-ChildOf h = elim (Bool-cases (same (dir ++ children_suffix) path)) [
    | inl e ↦ (
      codes "*",
      sym ((same_iff (dir ++ children_suffix) path).0 e),
      unfold contains_byte in refl,
    )
    | inr e ↦ elim (Bool-cases (has_prefix path (dir ++ (47 ∷ [])))) [
      | inl f ↦
          let (rest, g) = prefix_below dir path f in
          let k : not (contains_byte (drop (length dir + 1) path) 47) ≡ true =
            rw
              (
                e,
                not-tree dir,
                has_suffix-append dir children_suffix,
                trim_suffix-append dir children_suffix,
                f,
              )
              at h in
          let l : not (contains_byte rest 47) ≡ true = rw (g, drop-append_suc dir rest 47) at k in
          (rest, g, not-true (contains_byte rest 47) l)
      | inr f ↦ cc (
          rw
            (
              e,
              not-tree dir,
              has_suffix-append dir children_suffix,
              trim_suffix-append dir children_suffix,
              f,
            )
            at h)
    ]
  ]

  ChildOf-match_children :
      ChildOf dir path → match_glob file_match (dir ++ children_suffix) path ≡ true
  unfolding match_glob
  ChildOf-match_children (name, f, c) = elim (Bool-cases (same (dir ++ children_suffix) path)) [
    | inl e ↦ rw e
    | inr e ↦
        rw
          (
            e,
            not-tree dir,
            has_suffix-append dir children_suffix,
            trim_suffix-append dir children_suffix,
          )
          (rw (f, prefix-Under dir name, drop-append_suc dir name 47, c))
  ]

  match_glob_children :
      (match_glob file_match (dir ++ children_suffix) path ≡ true) ↔ ChildOf dir path
  match_glob_children = (match_children-ChildOf, ChildOf-match_children)

  -- For every directory and path, a pattern of the directory and `/**` matches just the directory
  -- and what stands below it, at any depth, and one with `/*` just what stands directly in the
  -- directory.
  match_glob_wildcards :
      ((match_glob file_match (dir ++ tree_suffix) path ≡ true) ↔ Under dir path)
      × ((match_glob file_match (dir ++ children_suffix) path ≡ true) ↔ ChildOf dir path)
  match_glob_wildcards = (match_glob_tree, match_glob_children)
