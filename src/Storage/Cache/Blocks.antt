-- ===== src/Storage/Cache/Blocks.antt =====
-- The blocks of a stored file.
use mathlib.Core.Path.{◌≡◌, refl, sym, ◌∙◌}
use native.Mathlib.Nat.{
  add-mod_right, zero-mod, mul-div_cancel, le_of_mul-le-mul_right, lt_of_mul-lt-mul_right,
}
use aether_agent.Prelude.{
  ℕ, zero, suc, ◌+◌, ◌*◌, ◌/◌, ◌%◌, ◌≤◌, ◌<◌, inl, inr, Bool, true, false, ◌||◌, Option, none, some,
  length, ltb, ◌==◌, ==_iff, ltb→lt, le→ltb, add64, add64_small, lt64, lt64_small, i64_max, Bytes,
  arith, Bool-cases,
}
use aether_agent.Storage.Cache.{
  chunk_file, Disk, set_file, Copying, open_failed, copy_failed, removal_failed, copied,
  close_failed, make_chunk_filename, write_chunk_from_file, create_blocks_from,
  create_cache_blocks_from_file,
}
use aether_agent.Storage.Cache.Contract.{
  part, Holds, IsAligned, set_file-Holds, chunk_at, chunk-Right,
}

module _ (chunk_size : ℕ) (content : Bytes) where
  -- Whether a copy leaves a whole block or none: it is not one whose removal or `Close` fails.
  abbrev pub is_whole : Copying → Bool
  is_whole (removal_failed n) = false
  is_whole (close_failed n) = false
  is_whole other = true

  -- Each block from an offset on is there.
  abbrev pub Present : ℕ → Disk → Type 0
  Present from disk =
      (i : ℕ)
      → from ≤ i * chunk_size
      → i * chunk_size < length content
      → disk (chunk_file i chunk_size) ≡ some (part content (i * chunk_size) chunk_size)

  -- The blocks before an offset are as they were.
  abbrev Before : ℕ → Disk → Disk → Type 0
  Before to old new =
      (i : ℕ) → i * chunk_size < to → new (chunk_file i chunk_size) ≡ old (chunk_file i chunk_size)

  module _ (positive : 0 < chunk_size) (small : length content + chunk_size < i64_max) where
    same_chunk :
        (i j : ℕ)
        → j * chunk_size ≤ i * chunk_size
        → i * chunk_size < j * chunk_size + chunk_size
        → i ≡ j
    same_chunk i j h k =
        let l : j ≤ i = le_of_mul-le-mul_right h positive in
        let r : i * chunk_size < suc j * chunk_size = omega (arith, k) in
        omega (arith, l, lt_of_mul-lt-mul_right chunk_size {m = i} {n = suc j} r)

    written-Holds :
        (c : Copying) (offset : ℕ) (disk : Disk)
        → is_whole c ≡ true
        → IsAligned chunk_size content offset
        → Holds chunk_size content disk
        → Holds chunk_size content (write_chunk_from_file chunk_size c offset content disk).0
    unfolding write_chunk_from_file
    written-Holds open_failed offset disk o a h = h
    written-Holds copy_failed offset disk o a h =
        set_file-Holds chunk_size content (make_chunk_filename chunk_size offset) none disk
          (chunk-Right chunk_size content positive (omega (arith, small)) offset none a
            (λ c e. cc e))
          h
    written-Holds (removal_failed n) offset disk o a h = cc o
    written-Holds (close_failed n) offset disk o a h = cc o
    written-Holds copied offset disk o a h =
        set_file-Holds chunk_size content (make_chunk_filename chunk_size offset)
          (some (part content offset chunk_size)) disk
          (chunk-Right chunk_size content positive (omega (arith, small)) offset
            (some (part content offset chunk_size)) a (λ c e. cc (sym e)))
          h

    other_block :
        (offset i : ℕ) (new : Option Bytes) (disk : Disk)
        → IsAligned chunk_size content offset
        → i * chunk_size < offset
        → set_file (make_chunk_filename chunk_size offset) new disk (chunk_file i chunk_size)
          ≡ disk (chunk_file i chunk_size)
    unfolding set_file
    other_block offset i new disk a l =
        let (p, q) = chunk_at chunk_size content positive (omega (arith, small)) offset a in
        let e : (offset / chunk_size == i) ≡ false =
          differs (offset / chunk_size) i
            (λ z. let k : i * chunk_size ≡ offset = rw z at q in omega (arith, l, k)) in
        rw (p, e)
      where
        differs : (a b : ℕ) → (a ≡ b → ⊥) → (a == b) ≡ false
        differs a b h = elim (Bool-cases (a == b)) [
          | inl e ↦ absurd (h ((==_iff a b).0 e))
          | inr e ↦ e
        ]

    written-Before :
        (c : Copying) (offset : ℕ) (disk : Disk)
        → is_whole c ≡ true
        → IsAligned chunk_size content offset
        → Before offset disk (write_chunk_from_file chunk_size c offset content disk).0
    unfolding write_chunk_from_file
    written-Before open_failed offset disk o a = λ i l. refl
    written-Before copy_failed offset disk o a = λ i l. other_block offset i none disk a l
    written-Before (removal_failed n) offset disk o a = cc o
    written-Before (close_failed n) offset disk o a = cc o
    written-Before copied offset disk o a =
        λ i l. other_block offset i (some (part content offset chunk_size)) disk a l

    -- A block that is copied is there.
    written_block :
        (c : Copying) (offset i : ℕ) (disk : Disk)
        → is_whole c ≡ true
        → IsAligned chunk_size content offset
        → offset ≡ i * chunk_size
        → (write_chunk_from_file chunk_size c offset content disk).1 ≡ false
        → (write_chunk_from_file chunk_size c offset content disk).0 (chunk_file i chunk_size)
          ≡ some (part content (i * chunk_size) chunk_size)
    unfolding write_chunk_from_file set_file
    written_block open_failed offset i disk o a e f = cc f
    written_block copy_failed offset i disk o a e f = cc f
    written_block (removal_failed n) offset i disk o a e f = cc o
    written_block (close_failed n) offset i disk o a e f = cc o
    written_block copied offset i disk o a e f =
        let (p, q) = chunk_at chunk_size content positive (omega (arith, small)) offset a in
        let d : offset / chunk_size ≡ i = rw e (mul-div_cancel i positive) in
        let s : (offset / chunk_size == i) ≡ true = (==_iff _ _).1 d in
        let t : (chunk_size == chunk_size) ≡ true = (==_iff _ _).1 refl in rw (p, s, t, e)

    -- What the loop makes from an offset on.
    abbrev Made : ℕ → Disk → Bool → Option (Disk × Bool) → Type 0
    Made offset disk bad r =
        (new : Disk) × (bad' : Bool) × (r ≡ some (new, bad'))
        × Holds chunk_size content new
        × Before offset disk new
        × (bad' ≡ false → (bad ≡ false) × Present offset new)

    blocks-Made :
        (fuel : ℕ) (copying : ℕ → Copying) (offset : ℕ) (disk : Disk) (bad : Bool)
        → ((i : ℕ) → is_whole (copying i) ≡ true)
        → IsAligned chunk_size content offset
        → length content ≤ offset + fuel
        → Holds chunk_size content disk
        → Made offset disk bad
            (create_blocks_from chunk_size fuel copying offset content (disk, bad))
    unfolding create_blocks_from
    blocks-Made zero copying offset disk bad o (l, a) f h =
        let e : lt64 offset (length content) ≡ false =
          rw (lt64_small offset (length content) l (omega (arith, small)))
            (le→ltb offset (length content) (omega (arith, f))) in
        rw e (disk, bad, refl, h, λ i k. refl, λ b. (b, λ i k m. absurd (omega (arith, f, k, m))))
    blocks-Made (suc fuel) copying offset disk bad o (l, a) f h =
        elim (Bool-cases (ltb offset (length content))) [
          | inr g ↦
              let e : lt64 offset (length content) ≡ false =
                rw (lt64_small offset (length content) l (omega (arith, small))) g in
              let k : length content ≤ offset = ground (arith, g) in
              rw e (
                disk,
                bad,
                refl,
                h,
                λ i k. refl,
                λ b. (b, λ i m n. absurd (omega (arith, k, m, n))),
              )
          | inl g ↦
              let e : lt64 offset (length content) ≡ true =
                rw (lt64_small offset (length content) l (omega (arith, small))) g in
              let k : offset < length content = ltb→lt offset (length content) g in
              let s : add64 offset chunk_size ≡ offset + chunk_size =
                add64_small offset chunk_size (omega (arith, k, small)) in
              let written = write_chunk_from_file chunk_size (copying offset) offset content disk in
              let next : IsAligned chunk_size content (offset + chunk_size) =
                (omega (arith, k, small), add-mod_right offset chunk_size ∙ a) in
              let (new, bad', r, hold, before, present) =
                blocks-Made fuel copying (offset + chunk_size) written.0 (bad || written.1) o next
                  (omega (arith, f, positive))
                  (written-Holds (copying offset) offset disk (o offset) (l, a) h) in
              rw (e, s)
                (
                  new,
                  bad',
                  r,
                  hold,
                  λ i m.
                      before i (omega (arith, m))
                      ∙ written-Before (copying offset) offset disk (o offset) (l, a) i m,
                  λ b.
                      let (b0, p) = present b in
                      let (b1, b2) = both_false bad written.1 b0 in
                      (b1, λ i m n. at_block i m n new before p b2),
                )
        ]
      where
        both_false : (a b : Bool) → (a || b) ≡ false → (a ≡ false) × (b ≡ false)
        both_false true b e = cc e
        both_false false b e = (refl, e)

        at_block :
            (i : ℕ)
            → offset ≤ i * chunk_size
            → i * chunk_size < length content
            → (new : Disk)
            → Before
                (offset + chunk_size)
                (write_chunk_from_file chunk_size (copying offset) offset content disk).0
                new
            → Present (offset + chunk_size) new
            → (write_chunk_from_file chunk_size (copying offset) offset content disk).1 ≡ false
            → new (chunk_file i chunk_size) ≡ some (part content (i * chunk_size) chunk_size)
        at_block i m n new before p b =
            elim (Bool-cases (ltb (i * chunk_size) (offset + chunk_size))) [
              | inr u ↦ p i (ground (arith, u)) n
              | inl u ↦
                  let v : i * chunk_size < offset + chunk_size =
                    ltb→lt (i * chunk_size) (offset + chunk_size) u in
                  let (x, q) =
                    chunk_at chunk_size content positive (omega (arith, small)) offset (l, a) in
                  let t : i ≡ offset / chunk_size =
                    same_chunk i (offset / chunk_size) (omega (arith, q, m))
                      (omega (arith, q, v)) in
                  let y : offset ≡ i * chunk_size = rw t (sym q) in
                  before i v ∙ written_block (copying offset) offset i disk (o offset) (l, a) y b
            ]

    -- For chunks of a positive size and a file whose length and a chunk fit an int64, where
    -- neither a `Close` of a block's file fails, nor its removal after a copy that failed, the
    -- loop over the blocks of a stored file ends; if the directory was right before, each file of
    -- it still holds what its name says; and where no error was collected every chunk of the file
    -- is there.
    pub create_cache_blocks-Holds :
        (copying : ℕ → Copying) (disk : Disk)
        → ((i : ℕ) → is_whole (copying i) ≡ true)
        → Holds chunk_size content disk
        → (new : Disk) × (bad : Bool) × (create_cache_blocks_from_file chunk_size copying content
              disk
            ≡ some (new, bad))
          × Holds chunk_size content new
          × (bad ≡ false → Present 0 new)
    unfolding create_cache_blocks_from_file
    create_cache_blocks-Holds copying disk o h =
        let (new, bad, r, hold, before, present) =
          blocks-Made (length content) copying 0 disk false o (omega (arith, small), zero_aligned)
            (omega arith) h in
        (new, bad, r, hold, λ b. (present b).1)
      where
        zero_aligned : 0 % chunk_size ≡ 0
        zero_aligned = zero-mod chunk_size
