-- ===== src/Storage/Cache/Reads.antt =====
-- Each call of a cached object keeps the cache sound, and answers as the object might.
use mathlib.Core.Path.{◌≡◌, refl, ◌∙◌}
use aether_agent.Prelude.{
  take-short, ℕ, ◌/◌, ◌≤◌, ◌<◌, ◌⊎◌, inl, inr, Bool, true, false, not, ◌&&◌, Option, none, some, [],
  ◌∷◌, drop, length, length-drop, ltb, ◌==◌, ==_iff, if◌then◌else◌, add64, lt64, rem64, i64_max,
  Bytes, arith, All-append, Bool-cases, Option-cases,
}
use aether_agent.Storage.Cache.{
  ReadError, failed, Read, Task, write_chunk, Cache, later, is_complete_read, pread, is_failure,
  make_chunk_filename, validate_read_at_params, read_at_from_cache, read_uncached, read_at,
}
use aether_agent.Storage.Cache.Contract.{
  part, IsRead, Fills, Fills-part, IsAligned, IsTask, IsSound, chunk_at, validate_ok, pread-IsRead,
}

module _ (chunk_size : ℕ) (content : Bytes) where
  pub later-IsSound :
      (t : Task) (s : Cache)
      → IsTask chunk_size content t
      → IsSound chunk_size content s
      → IsSound chunk_size content (later t s)
  later-IsSound t s p (h, q) =
      (h, All-append (IsTask chunk_size content) s.tasks (t ∷ []) q (p, tt))

  -- A complete answer is the chunk.
  complete-part :
      (n offset : ℕ) (r : Read)
      → Fills chunk_size content n offset
      → IsRead content n offset r
      → is_failure r.err ≡ false
      → is_complete_read (length r.bytes) n r.err ≡ true
      → r.bytes ≡ part content offset chunk_size
  unfolding is_complete_read
  complete-part n offset r f (inl e) g c = cc (e, g)
  complete-part n offset r f (inr (l, b, inl e)) g c =
      let q : length r.bytes ≡ n = (==_iff _ _).0 (rw (e, is_complete_read) at c) in
      b ∙ rw q (Fills-part chunk_size content n offset f)
  complete-part n offset r f (inr (l, b, inr (e, k))) g c =
      let m : n ≤ chunk_size = at_most n f in
      b
      ∙ take-short (length r.bytes) chunk_size (drop offset content)
          (omega (arith, length-drop offset content, k)) (omega (arith, l, m))
    where
      at_most : (n : ℕ) → Fills chunk_size content n offset → n ≤ chunk_size
      at_most n (inl e) = omega (arith, e)
      at_most n (inr (h, k)) = h

  -- Nothing is made up, and an answer without an error is as long as asked or the object's own.
  abbrev pub Answers : ℕ → ℕ → Read → Read → Type 0
  Answers n offset inner r =
      IsRead content n offset r × (r.err ≡ none → (length r.bytes ≡ n) ⊎ (r ≡ inner))

  read_uncached-Answers :
      (skip : Bool) (n offset : ℕ) (inner : Read) (s : Cache)
      → Fills chunk_size content n offset
      → IsAligned chunk_size content offset
      → IsRead content n offset inner
      → IsSound chunk_size content s
      → Answers n offset inner (read_uncached chunk_size skip n offset inner s).0
        × IsSound chunk_size content (read_uncached chunk_size skip n offset inner s).1
  unfolding read_uncached
  read_uncached-Answers skip n offset inner s f a h w = elim (Bool-cases (is_failure inner.err)) [
    | inl e ↦
        let q : read_uncached chunk_size skip n offset inner s
            ≡ (record inner { err = some failed }, s) =
          rw (read_uncached, e) in
        rw q ((inl refl, λ z. cc z), w)
    | inr e ↦ elim (Bool-cases (not skip && is_complete_read (length inner.bytes) n inner.err)) [
      | inl g ↦
          let q : read_uncached chunk_size skip n offset inner s
              ≡ (inner, later (write_chunk offset inner.bytes) s) =
            rw (read_uncached, e, g) in
          rw q (
            (h, λ z. inr refl),
            later-IsSound (write_chunk offset inner.bytes) s
                (a, complete-part n offset inner f h e (and_right (not skip) g)) w,
          )
      | inr g ↦
          let q : read_uncached chunk_size skip n offset inner s ≡ (inner, s) =
            rw (read_uncached, e, g) in
          rw q ((h, λ z. inr refl), w)
    ]
  ]
    where
      and_right : (b : Bool) {c : Bool} → (b && c) ≡ true → c ≡ true
      and_right true h = h
      and_right false h = cc h

  pick_fails :
      (b : Bool) (a : ReadError) (rest : Option ReadError)
      → is_failure (some a) ≡ true
      → ((e : ReadError) → rest ≡ some e → is_failure (some e) ≡ true)
      → (e : ReadError) → (if b then some a else rest) ≡ some e
      → is_failure (some e) ≡ true
  pick_fails true a rest p q e h = let k : a ≡ e = cc in rw (← k) p
  pick_fails false a rest p q e h = q e h

  module _ (positive : 0 < chunk_size) (small : chunk_size < i64_max) where
    validate_fails :
        (n offset : ℕ) (e : ReadError)
        → validate_read_at_params chunk_size n offset ≡ some e
        → is_failure (some e) ≡ true
    unfolding validate_read_at_params
    validate_fails n offset e h =
        pick_fails (n == 0) _ _ refl
          (pick_fails (lt64 chunk_size n) _ _ refl (
            pick_fails (not (rem64 offset chunk_size == 0)) _ _ refl (
              pick_fails (lt64 chunk_size (add64 (rem64 offset chunk_size) n)) _ _ refl
                (λ e h. cc h))))
          e h

    pub read_at-Answers :
        (opens skip : Bool) (n offset : ℕ) (inner : Read) (s : Cache)
        → n < i64_max
        → offset < i64_max
        → Fills chunk_size content n offset
        → IsRead content n offset inner
        → IsSound chunk_size content s
        → Answers n offset inner (read_at chunk_size opens skip n offset inner s).0
          × IsSound chunk_size content (read_at chunk_size opens skip n offset inner s).1
    unfolding read_at read_at_from_cache
    read_at-Answers opens skip n offset inner s l k f h w =
        elim (Option-cases (validate_read_at_params chunk_size n offset)) [
          | inr (e, v) ↦
              let q : read_at chunk_size opens skip n offset inner s
                  ≡ (record { bytes = []; err = some e }, s) =
                rw (read_at, v) in
              rw q ((inl (validate_fails n offset e v), λ z. cc z), w)
          | inl v ↦
              let (m, a) = validate_ok chunk_size content positive small n offset l k v in
              let (name, at_) = chunk_at chunk_size content positive small offset (k, a) in
              let missed = read_uncached-Answers skip n offset inner s f (k, a) h w in
              elim (Option-cases (s.files (make_chunk_filename chunk_size offset))) [
                | inl e ↦
                    let q : read_at chunk_size opens skip n offset inner s
                        ≡ read_uncached chunk_size skip n offset inner s =
                      rw (read_at, v, read_at_from_cache, e) in
                    rw q missed
                | inr (c, e) ↦
                    let held : c ≡ part content offset chunk_size =
                      w.0.0 (offset / chunk_size) c (rw name at e) ∙ rw at_ in
                    elim (Bool-cases opens) [
                      | inl o ↦
                          let (x, y) = pread-IsRead chunk_size content positive small n offset m in
                          let q : read_at chunk_size opens skip n offset inner s ≡ (pread c n, s) =
                            rw (read_at, v, read_at_from_cache, e, o) (given c n) in
                          rw (q, held) ((x, λ z. inl (y z)), w)
                      | inr o ↦
                          let q : read_at chunk_size opens skip n offset inner s
                              ≡ read_uncached chunk_size skip n offset inner s =
                            rw (read_at, v, read_at_from_cache, e, o) in
                          rw q missed
                    ]
              ]
        ]
      where
        given :
            (c : Bytes) (n : ℕ)
            → (if is_failure (pread c n).err
                then read_uncached chunk_size skip n offset inner s
                else (pread c n, s))
              ≡ (pread c n, s)
        given c n = elim (Bool-cases (ltb (length c) n)) [
          | inl e ↦ rw (pread, e)
          | inr e ↦ rw (pread, e)
        ]
