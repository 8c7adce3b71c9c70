-- ===== src/Storage/Cache/Contract.antt =====
-- A cached object keeps the contract of the object behind it.
use mathlib.Core.Path.{◌≡◌, refl, ap, sym, ◌∙◌}
use Prim.Native.Nat.{min}
use native.Mathlib.Nat.{div-add-mod'}
use aether_agent.Prelude.{
  take-take, take-short, take_self, ℕ, ◌+◌, ◌-◌, ◌*◌, ◌/◌, ◌%◌, ◌≤◌, ◌<◌, ◌⊎◌, inl, inr, true,
  Option, none, some, take, drop, length, length-take, length-drop, ltb, ◌==◌, ==_iff, lt64_small,
  quot64_small, rem64_small, i64_max, Bytes, itoa, arith, All, Bool-cases, Option-cases,
}
use aether_agent.Storage.Cache.{
  File, chunk_file, size_file, same_file, Disk, set_file, eof, Read, Task, write_chunk, write_size,
  store_blocks, Cache, pread, is_failure, make_chunk_filename, validate_read_at_params, Writing,
  lock_denied, temp_failed, link_failed, link_tried, rename_or_delete_file, write_file,
}

-- The bytes from an offset on, at most so many.
abbrev pub part : Bytes → ℕ → ℕ → Bytes
part content offset n = take n (drop offset content)

-- What a read of `n` bytes at an offset may give of an object with this content: an error, or bytes
-- from the offset on, with EOF at the end only.
abbrev pub IsRead : Bytes → ℕ → ℕ → Read → Type 0
IsRead content n offset r =
    (is_failure r.err ≡ true)
    ⊎ ((length r.bytes ≤ n)
        × (r.bytes ≡ part content offset (length r.bytes))
        × ((r.err ≡ none) ⊎ ((r.err ≡ some eof) × (length content ≤ offset + length r.bytes))))

-- The buffer holds the rest of a chunk: the whole of it, or up to the end of the object.
abbrev pub Fills : ℕ → Bytes → ℕ → ℕ → Type 0
Fills chunk_size content n offset =
    (n ≡ chunk_size) ⊎ ((n ≤ chunk_size) × (length content ≤ offset + n))

-- Bytes that fill a chunk are the chunk.
pub Fills-part :
    (chunk_size : ℕ) (content : Bytes) (n offset : ℕ)
    → Fills chunk_size content n offset
    → part content offset n ≡ part content offset chunk_size
Fills-part chunk_size content n offset (inl e) = rw e
Fills-part chunk_size content n offset (inr (h, k)) =
    take-short n chunk_size (drop offset content) (omega (arith, length-drop offset content)) h

module _ (chunk_size : ℕ) (content : Bytes) where
  -- A file of the directory holds what its name says.
  abbrev pub Holds : Disk → Type 0
  Holds disk =
      ((i : ℕ) (c : Bytes)
        → disk (chunk_file i chunk_size) ≡ some c
        → c ≡ part content (i * chunk_size) chunk_size)
      × ((c : Bytes) → disk size_file ≡ some c → c ≡ itoa (length content))

  abbrev pub IsAligned : ℕ → Type 0
  IsAligned offset = (offset < i64_max) × (offset % chunk_size ≡ 0)

  abbrev pub IsTask : Task → Type 0
  IsTask (write_chunk offset c) = IsAligned offset × (c ≡ part content offset chunk_size)
  IsTask (write_size n) = n ≡ length content
  IsTask (store_blocks input) = input ≡ content

  abbrev pub IsSound : Cache → Type 0
  IsSound s = Holds s.files × All IsTask s.tasks

  abbrev pub Right : File → Option Bytes → Type 0
  Right f new =
      ((i : ℕ) (c : Bytes)
        → f ≡ chunk_file i chunk_size
        → new ≡ some c
        → c ≡ part content (i * chunk_size) chunk_size)
      × ((c : Bytes) → f ≡ size_file → new ≡ some c → c ≡ itoa (length content))

  pub same_file_eq : (f g : File) → same_file f g ≡ true → f ≡ g
  same_file_eq (chunk_file i n) (chunk_file j m) e = elim (Bool-cases (i == j)) [
    | inl h ↦
        let p : i ≡ j = (==_iff i j).0 h in let q : n ≡ m = (==_iff n m).0 (rw h at e) in cc (p, q)
    | inr h ↦ cc (rw h at e)
  ]
  same_file_eq (chunk_file i n) size_file e = cc
  same_file_eq size_file (chunk_file j m) e = cc
  same_file_eq size_file size_file e = refl

  pub set_file-Holds :
      (f : File) (new : Option Bytes) (disk : Disk)
      → Right f new
      → Holds disk
      → Holds (set_file f new disk)
  unfolding set_file
  set_file-Holds f new disk (r, q) (h, k) = (
    λ i c e. elim (Bool-cases (same_file f (chunk_file i chunk_size))) [
      | inl t ↦ r i c (same_file_eq f (chunk_file i chunk_size) t) (rw t at e)
      | inr t ↦ h i c (rw t at e)
    ],
    λ c e. elim (Bool-cases (same_file f size_file)) [
      | inl t ↦ q c (same_file_eq f size_file t) (rw t at e)
      | inr t ↦ k c (rw t at e)
    ],
  )

  rename-Holds :
      (f : File) (c : Bytes) (disk : Disk)
      → Right f (some c)
      → Holds disk
      → Holds (rename_or_delete_file f c disk)
  unfolding rename_or_delete_file itoa
  rename-Holds f c disk r h = elim (Option-cases (disk f)) [
    | inl e ↦ rw (rename_or_delete_file, e) (set_file-Holds f (some c) disk r h)
    | inr (old, e) ↦ rw (rename_or_delete_file, e) h
  ]

  pub write_file-Holds :
      (w : Writing) (f : File) (c : Bytes) (disk : Disk)
      → Right f (some c)
      → Holds disk
      → Holds (write_file w f c disk)
  unfolding write_file
  write_file-Holds lock_denied f c disk r h = h
  write_file-Holds temp_failed f c disk r h = h
  write_file-Holds link_failed f c disk r h = h
  write_file-Holds link_tried f c disk r h = rename-Holds f c disk r h

  pub size-Right : (n : ℕ) → n ≡ length content → Right size_file (some (itoa n))
  size-Right n e = (λ i c f g. cc f, λ c f g. let q : itoa n ≡ c = cc in rw (← q, e))

  module _ (positive : 0 < chunk_size) (small : chunk_size < i64_max) where
    -- The name of an aligned offset's chunk.
    pub chunk_at :
        (offset : ℕ)
        → IsAligned offset
        → (make_chunk_filename chunk_size offset ≡ chunk_file (offset / chunk_size) chunk_size)
          × (offset / chunk_size * chunk_size ≡ offset)
    unfolding make_chunk_filename
    chunk_at offset (l, a) = (
      rw (quot64_small offset chunk_size l small),
      omega (arith, div-add-mod' offset chunk_size, a),
    )

    pub chunk-Right :
        (offset : ℕ) (new : Option Bytes)
        → IsAligned offset
        → ((c : Bytes) → new ≡ some c → c ≡ part content offset chunk_size)
        → Right (make_chunk_filename chunk_size offset) new
    chunk-Right offset new a h =
        let (p, q) = chunk_at offset a in
        (
          λ i c f g.
              let r : chunk_file (offset / chunk_size) chunk_size ≡ chunk_file i chunk_size =
                sym p ∙ f in
              let t : offset / chunk_size ≡ i = cc r in rw (← t, q) (h c g),
          λ c f g.
              let r : chunk_file (offset / chunk_size) chunk_size ≡ size_file = sym p ∙ f in cc r,
        )

    pub validate_ok :
        (n offset : ℕ)
        → n < i64_max
        → offset < i64_max
        → validate_read_at_params chunk_size n offset ≡ none
        → (n ≤ chunk_size) × (offset % chunk_size ≡ 0)
    unfolding validate_read_at_params
    validate_ok n offset l k e = elim (Bool-cases (n == 0)) [
      | inl f ↦ cc (rw f at e)
      | inr f ↦ elim (Bool-cases (ltb chunk_size n)) [
        | inl g ↦ cc (rw (f, lt64_small chunk_size n small l, g) at e)
        | inr g ↦ elim (Bool-cases (offset % chunk_size == 0)) [
          | inl t ↦ (ground (arith, g), (==_iff _ _).0 t)
          | inr t ↦ cc (
              rw (f, lt64_small chunk_size n small l, g, rem64_small offset chunk_size k small, t)
                at e)
        ]
      ]
    ]

    -- A cached chunk is read like the object.
    pub pread-IsRead :
        (n offset : ℕ)
        → n ≤ chunk_size
        → IsRead content n offset (pread (part content offset chunk_size) n)
          × (((pread (part content offset chunk_size) n).err ≡ none)
              → length (pread (part content offset chunk_size) n).bytes ≡ n)
    unfolding pread
    pread-IsRead n offset h =
        let c : Bytes = part content offset chunk_size in
        let lc : length c ≡ min chunk_size (length content - offset) =
          length-take chunk_size (drop offset content) ∙ rw (length-drop offset content) in
        let lt : length (take n c) ≡ min n (length c) = length-take n c in
        let same_ : take n c ≡ part content offset n =
          take-take n chunk_size (drop offset content) h in
        let self : part content offset n ≡ part content offset (length (take n c)) =
          take_self n (drop offset content)
          ∙ ap (λ k. part content offset k) (ap length (sym same_)) in
        elim (Bool-cases (ltb (length c) n)) [
          | inl e ↦ rw e (
            inr (omega (arith, lt), same_ ∙ self, inr (refl, ground (arith, lc, lt, e))),
            λ z. cc z,
          )
          | inr e ↦
              rw e (inr (omega (arith, lt), same_ ∙ self, inl refl), λ z. ground (arith, lt, e))
        ]
