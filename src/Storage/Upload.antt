-- ===== src/Storage/Upload.antt =====
-- gcp_multipart.go: the upload of a file in parts. The server is a parameter: what it answers to the
-- start, to a part and to the completion. The parts are uploaded in any order, which is a list of part
-- numbers. The number of parts is computed in float64. The size of a part, 50 MiB in the code, is
-- a parameter.
pub mod Rounding
pub mod Chunks
pub mod Places
pub mod Assembly
use aether_agent.Prelude.{
  ℕ, zero, suc, ◌+◌, ◌-◌, ◌*◌, ◌/◌, ◌%◌, ◌^◌, Bool, true, false, Option, none, some, List, [], ◌∷◌,
  take, drop, replicate, length, ltb, ◌==◌, Result, ok, err, if◌then◌else◌, add64, sub64, mul64,
  lt64, Bytes, same,
}

pub record Part : Type 0 where
  pub part_number : ℕ
  pub e_tag : Bytes

abbrev pub zero_part : Part
zero_part = record { part_number = 0; e_tag = [] }

-- Why an upload gives no size: an error, or it blocks for ever.
pub data Stop : Type 0 where
  failed blocks : Stop

-- `parts[i] = p`.
unfoldable pub set_part : ℕ → Part → List Part → List Part
set_part i p [] = []
set_part zero p (q ∷ qs) = p ∷ qs
set_part (suc i) p (q ∷ qs) = q ∷ set_part i p qs

-- `sort.Slice` by the part number.
unfoldable pub insert_part : Part → List Part → List Part
insert_part p [] = p ∷ []
insert_part p (q ∷ qs) =
    let rest = insert_part p qs in if ltb q.part_number p.part_number then q ∷ rest else p ∷ q ∷ qs

unfoldable pub sort_parts : List Part → List Part
unfolding insert_part
sort_parts [] = []
sort_parts (p ∷ ps) = insert_part p (sort_parts ps)

-- The quotient rounded to the nearest number, and to the even one of two.
unfoldable pub round_half_even : ℕ → ℕ → ℕ
round_half_even a b =
    if ltb (2 * (a % b)) b
    then a / b
    else if ltb b (2 * (a % b))
    then suc (a / b)
    else if a / b % 2 == 0
    then a / b
    else suc (a / b)

-- `float64(n)`: a number that 53 bits do not hold is rounded to a multiple of a power of 2.
unfoldable pub to_float64 : ℕ → ℕ → ℕ → ℕ
unfolding round_half_even
to_float64 zero unit n = n
to_float64 (suc fuel) unit n =
    let rest = to_float64 fuel (2 * unit) n in
    if ltb n (2 ^ 53 * unit) then round_half_even n unit * unit else rest

-- The largest power of 2, up to the fuel, by which the quotient stays below 2 ^ 53.
unfoldable pub float64_scale : ℕ → ℕ → ℕ → ℕ
float64_scale zero a b = 1
float64_scale (suc fuel) a b =
    let rest = float64_scale fuel (2 * a) b in if ltb (2 * a) (2 ^ 53 * b) then 2 * rest else 1

-- `int(math.Ceil(a / b))` of two float64s, for a quotient that is 0 or from 2 ^ -75 to 2 ^ 53: it has
-- 53 bits, so a fraction of `scale`.
unfoldable pub ceil_quotient : ℕ → ℕ → ℕ
unfolding float64_scale round_half_even
ceil_quotient a b =
    let scale = float64_scale 128 a b in (round_half_even (a * scale) b + (scale - 1)) / scale

module _ (chunk_size : ℕ) (file : Bytes) where
  -- `int(math.Ceil(float64(size) / float64(chunk)))`, and at least 1.
  unfoldable pub num_parts : ℕ → ℕ
  unfolding ceil_quotient to_float64
  num_parts file_size =
      let n = ceil_quotient (to_float64 11 1 file_size) (to_float64 11 1 chunk_size) in
      if n == 0 then 1 else n

  unfoldable pub part_offset : ℕ → ℕ
  part_offset part_number = mul64 (sub64 part_number 1) chunk_size

  unfoldable pub part_size : ℕ → ℕ → ℕ
  part_size file_size offset =
      if lt64 file_size (add64 offset chunk_size) then sub64 file_size offset else chunk_size

  -- `ReadAt` into a buffer of the part's size; a short read is an error.
  unfoldable pub read_chunk : ℕ → ℕ → Option Bytes
  unfolding part_offset part_size
  read_chunk file_size part_number =
      let offset = part_offset part_number in
      let size = part_size file_size offset in
      let chunk = take size (drop offset file) in if length chunk == size then some chunk else none

  -- `put` is the ETag header of the answer to a part, if the answer is no error.
  module _ (put : ℕ → Bytes → Option Bytes) where
    unfoldable pub upload_part : ℕ → Bytes → Option Bytes
    upload_part part_number chunk = elim (put part_number chunk) [
      | none ↦ none
      | some etag ↦ if same etag [] then none else some etag
    ]

    -- The part that the goroutine of a number stores.
    unfoldable pub upload_one : ℕ → ℕ → Option Part
    upload_one file_size part_number = elim (read_chunk file_size part_number) [
      | none ↦ none
      | some chunk ↦ elim (upload_part part_number chunk) [
        | none ↦ none
        | some etag ↦ some (record { part_number = part_number; e_tag = etag })
      ]
    ]

    -- The goroutines in the order in which they store their parts.
    unfoldable pub upload_loop : ℕ → List ℕ → List Part → Option (List Part)
    upload_loop file_size [] parts = some parts
    upload_loop file_size (k ∷ order) parts = elim (upload_one file_size k) [
      | none ↦ none
      | some p ↦ upload_loop file_size order (set_part (k - 1) p parts)
    ]

    abbrev pub or_failed : Option (List Part) → Result Stop (List Part)
    or_failed none = err failed
    or_failed (some parts) = ok parts

    -- With a limit of 0 `errgroup` lets no goroutine start, and `Go` blocks; a negative one is none.
    unfoldable pub upload_parts : ℕ → ℕ → List ℕ → Result Stop (List Part)
    upload_parts max_concurrency file_size order =
        if max_concurrency == 0
        then err blocks
        else or_failed (upload_loop file_size order (replicate (num_parts file_size) zero_part))

    unfoldable pub complete_upload :
        (List Part → Bool) → Result Stop (List Part) → Result Stop (ℕ × List Part)
    complete_upload completes (err s) = err s
    complete_upload completes (ok parts) =
        if completes (sort_parts parts) then ok (length file, sort_parts parts) else err failed

    -- The size and the parts that the completion names, for a server that starts uploads and
    -- completes these parts, or not.
    unfoldable pub upload_file_in_parallel :
        Bool → (List Part → Bool) → ℕ → List ℕ → Result Stop (ℕ × List Part)
    unfolding complete_upload
    upload_file_in_parallel initiated completes max_concurrency order =
        if initiated
        then complete_upload completes (upload_parts max_concurrency (length file) order)
        else err failed
