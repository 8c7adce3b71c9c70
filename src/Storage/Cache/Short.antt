-- ===== src/Storage/Cache/Short.antt =====
-- A read with a buffer that is shorter than a chunk.
use mathlib.Core.Path.{◌≡◌, refl, ◌∙◌}
use aether_agent.Prelude.{
  take_all, ℕ, ◌+◌, ◌≤◌, ◌<◌, Bool, true, false, none, some, [], ◌∷◌, drop, length, length-take,
  length-drop, ◌==◌, ==_iff, lt→ltb, le→ltb, add64, add64_small, lt64, lt64_small, rem64,
  rem64_small, i64_max, Bytes, arith,
}
use aether_agent.Storage.Cache.{
  File, chunk_file, size_file, same_file, set_file, eof, Read, write_chunk, Cache, is_complete_read,
  pread, make_chunk_filename, validate_read_at_params, read_at_from_cache, read_uncached, read_at,
  link_tried, write_file, rename_or_delete_file, Copying, run_task,
}
use aether_agent.Storage.Cache.Contract.{part, IsAligned}
use aether_agent.Storage.Cache.Moves.{read_move, task_move, step, run, empty}

module _ (chunk_size : ℕ) (content : Bytes) (small : chunk_size < i64_max) where
  validate_accepts :
      (n offset : ℕ)
      → 0 < n
      → n ≤ chunk_size
      → IsAligned chunk_size content offset
      → validate_read_at_params chunk_size n offset ≡ none
  unfolding validate_read_at_params
  validate_accepts n offset p l (k, a) =
      let m : rem64 offset chunk_size ≡ 0 = rem64_small offset chunk_size k small ∙ a in
      let z : (n == 0) ≡ false = ground arith in
      let g : lt64 chunk_size n ≡ false =
        lt64_small chunk_size n small (omega arith) ∙ le→ltb chunk_size n l in
      let t : add64 0 n ≡ n = omega (arith, add64_small 0 n (omega (arith, small))) in
      rw (z, g, m, t, g)

  same_file_refl : (f : File) → same_file f f ≡ true
  same_file_refl (chunk_file i n) = rw ((==_iff i i).1 refl) ((==_iff n n).1 refl)
  same_file_refl size_file = refl

  -- The short read leaves the write of its bytes.
  first :
      (n offset : ℕ) (c : Bytes)
      → validate_read_at_params chunk_size n offset ≡ none
      → length c ≡ n
      → step chunk_size (read_move true false n offset (record { bytes = c; err = none })) empty
        ≡ record { files = λ f. none; tasks = write_chunk offset c ∷ [] }
  unfolding step read_at read_at_from_cache read_uncached is_complete_read
  first n offset c v lc = rw (
    step,
    read_at,
    v,
    read_at_from_cache,
    read_uncached,
    is_complete_read,
    lc,
    (==_iff n n).1 refl,
  )

  -- What was written is taken for the chunk.
  second :
      (n offset : ℕ) (c : Bytes) (inner : Read) (skip : Bool)
      → validate_read_at_params chunk_size chunk_size offset ≡ none
      → length c ≡ n
      → n < chunk_size
      → (read_at chunk_size true skip chunk_size offset inner (record {
        files = set_file (make_chunk_filename chunk_size offset) (some c) (λ f. none);
        tasks = [];
      })).0
        ≡ record { bytes = c; err = some eof }
  unfolding read_at read_at_from_cache set_file pread
  second n offset c inner skip w lc l = rw (
    read_at,
    w,
    read_at_from_cache,
    set_file,
    same_file_refl (make_chunk_filename chunk_size offset),
    pread,
    lc,
    lt→ltb n chunk_size l,
    take_all chunk_size c (omega (arith, lc, l)),
  )

  -- If a read at a chunk's start has a buffer shorter than the chunk, which the object fills, and
  -- its bytes are written back, a later read of the whole chunk gives the bytes of the first and
  -- EOF, whatever the object holds behind them.
  read_at_truncates :
      (n offset : ℕ) (skip : Bool) (copying : ℕ → Copying) (inner : Read)
      → 0 < n
      → n < chunk_size
      → IsAligned chunk_size content offset
      → offset + n ≤ length content
      → (read_at chunk_size true skip chunk_size offset inner (
          run chunk_size
            (read_move true false n offset (record { bytes = part content offset n; err = none })
              ∷ task_move 0 link_tried copying
              ∷ [])
            empty)).0
        ≡ record { bytes = part content offset n; err = some eof }
  unfolding run
  read_at_truncates n offset skip copying inner p l a h =
      let c : Bytes = part content offset n in
      let answer : Read = record { bytes = c; err = none } in
      let lc : length c ≡ n =
        length-take n (drop offset content) ∙ rw (length-drop offset content) (omega (arith, h)) in
      let v : validate_read_at_params chunk_size n offset ≡ none =
        validate_accepts n offset p (omega (arith, l)) a in
      let w : validate_read_at_params chunk_size chunk_size offset ≡ none =
        validate_accepts chunk_size offset (omega (arith, l)) (omega arith) a in
      let s1 : Cache = record { files = λ f. none; tasks = write_chunk offset c ∷ [] } in
      let f : File = make_chunk_filename chunk_size offset in
      let s2 : Cache = record { files = set_file f (some c) (λ f. none); tasks = [] } in
      let q1 : step chunk_size (read_move true false n offset answer) empty ≡ s1 =
        first n offset c v lc in
      let q2 : step chunk_size (task_move 0 link_tried copying) s1 ≡ s2 =
        unfold step run_task write_file rename_or_delete_file in refl in
      rw (q1, q2) (second n offset c inner skip w lc l)
