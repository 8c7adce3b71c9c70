-- ===== src/Policy/Overlay/Files.antt =====
-- The virtual files as a map from names to files, and what the root lists.
use mathlib.Core.Path.{◌≡◌, refl, ap, sym, ◌∙◌}
use aether_agent.Prelude.{
  ℕ, inl, inr, true, false, Option, none, some, List, [], ◌∷◌, Bool-cases, if◌then◌else◌, Bytes,
  same, same_iff,
}
use aether_agent.Policy.Manifest.{Store}
use aether_agent.Policy.Overlay.{
  VirtualFile, Overlay, new_overlay, find, delete, store_at, content_length, put, put_lazy, fill,
  remove_virtual, set_store,
}

-- The calls that change an overlay.
pub data FileOperation : Type 0 where
  set_store_op : Store → FileOperation
  put_op : Bytes → Option Bytes → ℕ → FileOperation
  put_lazy_op : Bytes → ℕ → ℕ → FileOperation
  fill_op : Bytes → Option Bytes → FileOperation
  remove_op : Bytes → FileOperation

unfoldable pub apply_operation : FileOperation → Overlay → Overlay
apply_operation (set_store_op s) o = set_store s o
apply_operation (put_op name content mode) o = put name content mode o
apply_operation (put_lazy_op name size mode) o = put_lazy name size mode o
apply_operation (fill_op name content) o = fill name content o
apply_operation (remove_op name) o = remove_virtual name o

-- The overlay after the calls, the last one first.
unfoldable pub replay : List FileOperation → Overlay
replay [] = new_overlay
replay (op ∷ ops) = apply_operation op (replay ops)

-- What one call makes of the file that one name has.
unfoldable pub changed : Bytes → FileOperation → Option VirtualFile → Option VirtualFile
changed name (set_store_op s) vf = vf
changed name (put_op key content mode) vf =
    if same key name
    then some (record { content = content; size = content_length content; mode = mode })
    else vf
changed name (put_lazy_op key size mode) vf =
    if same key name then some (record { content = none; size = size; mode = mode }) else vf
changed name (fill_op key content) none = none
changed name (fill_op key content) (some vf) =
    if same key name
    then some (record { content = content; size = content_length content; mode = vf.mode })
    else some vf
changed name (remove_op key) vf = if same key name then none else vf

-- The file that the calls leave under one name.
unfoldable pub file_of : Bytes → List FileOperation → Option VirtualFile
file_of name [] = none
file_of name (op ∷ ops) = changed name op (file_of name ops)

find-delete :
    (name key : Bytes) (m : List (Bytes × VirtualFile))
    → find name (delete key m) ≡ (if same key name then none else find name m)
unfolding find delete
find-delete name key [] = elim (Bool-cases (same key name)) [ inl e ↦ rw e | inr e ↦ rw e ]
find-delete name key ((k, vf) ∷ m) = elim (Bool-cases (same k key)) [
  | inl e ↦
      let q : k ≡ key = (same_iff k key).0 e in
      elim (Bool-cases (same key name)) [
        | inl f ↦ rw (e, f) (find-delete name key m ∙ rw f)
        | inr f ↦ rw (e, f) (find-delete name key m ∙ rw (f, q, f))
      ]
  | inr e ↦ elim (Bool-cases (same k name)) [
    | inl f ↦ elim (Bool-cases (same key name)) [
      | inl g ↦
          let q : k ≡ key = (same_iff k name).0 f ∙ sym ((same_iff key name).0 g) in
          let r : same k key ≡ true = (same_iff k key).1 q in cc
      | inr g ↦ rw (e, f, g)
    ]
    | inr f ↦ rw (e, f) (find-delete name key m)
  ]
]

find-store_at :
    (name key : Bytes) (vf : VirtualFile) (m : List (Bytes × VirtualFile))
    → find name (store_at key vf m) ≡ (if same key name then some vf else find name m)
unfolding find
find-store_at name key vf m = elim (Bool-cases (same key name)) [
  | inl e ↦ rw e
  | inr e ↦ rw e (find-delete name key m ∙ rw e)
]

same_eq : (s t : Bytes) → same s t ≡ true → t ≡ s
same_eq s t e = sym ((same_iff s t).0 e)

-- A name that no file has is left alone by a fill.
find-fill :
    (name key : Bytes) (content : Option Bytes) (o : Overlay)
    → find name (fill key content o).virtuals
      ≡ changed name (fill_op key content) (find name o.virtuals)
unfolding fill changed
find-fill name key content o = elim (Bool-cases (same key name)) [
  | inl e ↦ rw (same_eq key name e) (at_key (find key o.virtuals) refl)
  | inr e ↦ other (find key o.virtuals) refl (find name o.virtuals) refl e
]
  where
    at_key :
        (vf : Option VirtualFile)
        → find key o.virtuals ≡ vf
        → find key (fill key content o).virtuals ≡ changed key (fill_op key content) vf
    at_key none f = rw (f, fill) f
    at_key (some vf) f =
        rw (f, fill, (same_iff key key).1 refl)
          (find-store_at key key (record vf { content = content; size = content_length content })
              o.virtuals
            ∙ rw ((same_iff key key).1 refl))

    other :
        (vf : Option VirtualFile)
        → find key o.virtuals ≡ vf
        → (w : Option VirtualFile) → find name o.virtuals ≡ w
        → same key name ≡ false
        → find name (fill key content o).virtuals ≡ changed name (fill_op key content) w
    other none f none g e = rw (f, fill) g
    other none f (some w) g e = rw (f, fill, e) g
    other (some vf) f none g e = rw (f, fill) (find-store_at name key _ o.virtuals ∙ rw e g)
    other (some vf) f (some w) g e = rw (f, fill, e) (find-store_at name key _ o.virtuals ∙ rw e g)

find-apply_operation :
    (name : Bytes) (op : FileOperation) (o : Overlay)
    → find name (apply_operation op o).virtuals ≡ changed name op (find name o.virtuals)
unfolding apply_operation changed set_store put put_lazy remove_virtual
find-apply_operation name (set_store_op s) o = refl
find-apply_operation name (put_op key content mode) o = find-store_at name key _ o.virtuals
find-apply_operation name (put_lazy_op key size mode) o = find-store_at name key _ o.virtuals
find-apply_operation name (fill_op key content) o = find-fill name key content o
find-apply_operation name (remove_op key) o = find-delete name key o.virtuals

-- After any calls of `SetStore`, `Put`, `PutLazy`, `Fill` and `Remove` the virtual file under a
-- name is what the calls with that name made of it: the map is a function from names to files.
pub find-replay :
    (ops : List FileOperation) (name : Bytes) → find name (replay ops).virtuals ≡ file_of name ops
unfolding replay file_of new_overlay find
find-replay [] name = refl
find-replay (op ∷ ops) name =
    find-apply_operation name op (replay ops) ∙ ap (changed name op) (find-replay ops name)
