-- ===== src/Policy/Overlay/Names.antt =====
-- The names of a listing and those of the virtual files, none twice.
use mathlib.Core.Path.{◌≡◌, refl, ◌∙◌}
use aether_agent.Prelude.{
  inl, inr, Bool, true, false, not, ◌&&◌, ◌||◌, Option, none, some, List, [], ◌∷◌, ◌++◌, Bool-cases,
  Bytes, same, same_iff,
}
use aether_agent.Policy.Overlay.{
  VirtualFile, Overlay, new_overlay, find, delete, put, put_lazy, fill, remove_virtual, is_name,
  missing_virtuals, Found, virtual_node, no_entry, real_file, overlay_dir, set_store,
}
use aether_agent.Policy.Overlay.Files.{
  FileOperation, set_store_op, put_op, put_lazy_op, fill_op, remove_op, apply_operation, replay,
}

abbrev pub is_some : {A : Type 0} → Option A → Bool
is_some none = false
is_some (some a) = true

abbrev pub is_found : Found → Bool
is_found (virtual_node vf) = true
is_found no_entry = false
is_found (real_file path) = true
is_found (overlay_dir path) = true

-- No name twice.
abbrev pub Distinct : List Bytes → Type 0
Distinct [] = Unit
Distinct (n ∷ ns) = (is_name n ns ≡ false) × Distinct ns

abbrev pub keys : List (Bytes × VirtualFile) → List Bytes
keys [] = []
keys ((key, vf) ∷ m) = key ∷ keys m

pub and_false : (b : Bool) → (b && false) ≡ false
and_false true = refl
and_false false = refl

pub is_name-append :
    (n : Bytes) (xs ys : List Bytes) → is_name n (xs ++ ys) ≡ (is_name n xs || is_name n ys)
is_name-append n [] ys = refl
is_name-append n (x ∷ xs) ys =
    rw (is_name-append n xs ys) (or_assoc (same x n) (is_name n xs) (is_name n ys))
  where
    or_assoc : (a b c : Bool) → (a || (b || c)) ≡ ((a || b) || c)
    or_assoc true b c = refl
    or_assoc false b c = refl

pub find-is_name :
    (n : Bytes) (m : List (Bytes × VirtualFile)) → is_some (find n m) ≡ is_name n (keys m)
unfolding find
find-is_name n [] = refl
find-is_name n ((key, vf) ∷ m) = elim (Bool-cases (same key n)) [
  | inl e ↦ rw e
  | inr e ↦ rw e (find-is_name n m)
]

pub missing-is_name :
    (n : Bytes) (names : List Bytes) (m : List (Bytes × VirtualFile))
    → is_name n (missing_virtuals names m) ≡ (is_name n (keys m) && not (is_name n names))
unfolding missing_virtuals
missing-is_name n names [] = refl
missing-is_name n names ((key, vf) ∷ m) = elim (Bool-cases (same key n)) [
  | inl e ↦
      let q : key ≡ n = (same_iff key n).0 e in
      elim (Bool-cases (is_name n names)) [
        | inl f ↦ rw (e, q, f) (missing-is_name n names m ∙ rw f (and_false (is_name n (keys m))))
        | inr f ↦ rw (e, q, f, (same_iff n n).1 refl)
      ]
  | inr e ↦ elim (Bool-cases (is_name key names)) [
    | inl f ↦ rw (e, f) (missing-is_name n names m)
    | inr f ↦ rw (e, f, e) (missing-is_name n names m)
  ]
]

pub missing-Distinct :
    (names : List Bytes) (m : List (Bytes × VirtualFile))
    → Distinct (keys m)
    → Distinct (missing_virtuals names m)
unfolding missing_virtuals
missing-Distinct names [] d = tt
missing-Distinct names ((key, vf) ∷ m) (d, ds) = elim (Bool-cases (is_name key names)) [
  | inl e ↦ rw e (missing-Distinct names m ds)
  | inr e ↦ rw e (missing-is_name key names m ∙ rw d, missing-Distinct names m ds)
]

pub Distinct-append :
    (xs ys : List Bytes)
    → Distinct xs
    → Distinct ys
    → ((n : Bytes) → is_name n xs ≡ true → is_name n ys ≡ false)
    → Distinct (xs ++ ys)
Distinct-append [] ys dx dy h = dy
Distinct-append (x ∷ xs) ys (d, dx) dy h = (
  is_name-append x xs ys ∙ rw (d, h x (rw ((same_iff x x).1 refl))),
  Distinct-append xs ys dx dy (λ n e. h n (rw e (or_true (same x n)))),
)
  where
    or_true : (b : Bool) → (b || true) ≡ true
    or_true true = refl
    or_true false = refl

delete-is_name :
    (n key : Bytes) (m : List (Bytes × VirtualFile))
    → is_name n (keys m) ≡ false
    → is_name n (keys (delete key m)) ≡ false
unfolding delete
delete-is_name n key [] h = refl
delete-is_name n key ((k, vf) ∷ m) h = elim (Bool-cases (same k n)) [
  | inl f ↦ cc (rw f at h)
  | inr f ↦ elim (Bool-cases (same k key)) [
    | inl e ↦ rw e (delete-is_name n key m (rw f at h))
    | inr e ↦ rw (e, f) (delete-is_name n key m (rw f at h))
  ]
]

deleted : (key : Bytes) (m : List (Bytes × VirtualFile)) → is_name key (keys (delete key m)) ≡ false
unfolding delete
deleted key [] = refl
deleted key ((k, vf) ∷ m) = elim (Bool-cases (same k key)) [
  | inl e ↦ rw e (deleted key m)
  | inr e ↦ rw (e, e) (deleted key m)
]

delete-Distinct :
    (key : Bytes) (m : List (Bytes × VirtualFile))
    → Distinct (keys m)
    → Distinct (keys (delete key m))
unfolding delete
delete-Distinct key [] d = tt
delete-Distinct key ((k, vf) ∷ m) (d, ds) = elim (Bool-cases (same k key)) [
  | inl e ↦ rw e (delete-Distinct key m ds)
  | inr e ↦ rw e (delete-is_name k key m d, delete-Distinct key m ds)
]

store_at-Distinct :
    (key : Bytes) (m : List (Bytes × VirtualFile))
    → Distinct (keys m)
    → Distinct (key ∷ keys (delete key m))
store_at-Distinct key m d = (deleted key m, delete-Distinct key m d)

fill-Distinct :
    (key : Bytes) (content : Option Bytes) (o : Overlay)
    → Distinct (keys o.virtuals)
    → Distinct (keys (fill key content o).virtuals)
unfolding fill
fill-Distinct key content o d = go (find key o.virtuals) refl
  where
    go :
        (vf : Option VirtualFile)
        → find key o.virtuals ≡ vf
        → Distinct (keys (fill key content o).virtuals)
    go none e = rw (e, fill) d
    go (some vf) e = rw (e, fill) (store_at-Distinct key o.virtuals d)

pub replay-Distinct : (ops : List FileOperation) → Distinct (keys (replay ops).virtuals)
unfolding replay apply_operation new_overlay set_store put put_lazy remove_virtual
replay-Distinct [] = tt
replay-Distinct (set_store_op s ∷ ops) = replay-Distinct ops
replay-Distinct (put_op key content mode ∷ ops) =
    store_at-Distinct key (replay ops).virtuals (replay-Distinct ops)
replay-Distinct (put_lazy_op key size mode ∷ ops) =
    store_at-Distinct key (replay ops).virtuals (replay-Distinct ops)
replay-Distinct (fill_op key content ∷ ops) =
    fill-Distinct key content (replay ops) (replay-Distinct ops)
replay-Distinct (remove_op key ∷ ops) =
    delete-Distinct key (replay ops).virtuals (replay-Distinct ops)
