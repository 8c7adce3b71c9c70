-- ===== src/Storage/Upload/Assembly.antt =====
-- The parts that the completion names, put together, are the file.
use mathlib.Core.Path.{◌≡◌, refl, ap, sym, ◌∙◌}
use aether_agent.Prelude.{
  take_all, length-replicate, take-add, drop-add, take-add, drop-add, length-replicate, take_all, ℕ,
  zero, suc, ◌+◌, ◌-◌, ◌*◌, ◌^◌, ◌==◌, Result, ok, ◌≤◌, ◌<◌, inl, inr, Bool, true, false, Option,
  some, List, [], ◌∷◌, ◌++◌, take, drop, replicate, length, All, Any, ltb, le→ltb, i64_max, Bytes,
  same, arith, Bool-cases, Option-cases,
}
use aether_agent.Storage.Upload.{
  Part, zero_part, set_part, insert_part, sort_parts, num_parts, upload_part, upload_one,
  upload_loop, upload_parts, complete_upload, Stop, upload_file_in_parallel,
}
use aether_agent.Storage.Upload.Chunks.{part_of, read_chunk_lem, num_parts_lem}
use aether_agent.Storage.Upload.Places.{one, upload_loop-places, Made, places-Made}

-- What the server makes of the parts of a completion, where it keeps some bytes under each number and
-- tag.
abbrev pub assembled : (ℕ → Bytes → Bytes) → List Part → Bytes
assembled stored [] = []
assembled stored (q ∷ qs) = stored q.part_number q.e_tag ++ assembled stored qs

-- The server answers every part with a tag.
abbrev pub Answers : (ℕ → Bytes → Option Bytes) → Type 0
Answers put = (k : ℕ) (d : Bytes) → (e : Bytes) × (put k d ≡ some e) × (same e [] ≡ false)

module _ (chunk_size : ℕ) (file : Bytes) (put : ℕ → Bytes → Option Bytes) where
  module _ (positive : 0 < chunk_size) (exact : length file + chunk_size < 2 ^ 53) where
    small : length file + chunk_size < i64_max
    small = omega (arith, exact)

    one_lem :
        (s : ℕ) (q : Part)
        → s * chunk_size ≤ length file
        → one chunk_size file put (suc s) ≡ some q
        → (q.part_number ≡ suc s) × (put (suc s) (part_of chunk_size file s) ≡ some q.e_tag)
    unfolding upload_one upload_part
    one_lem s q l h =
        let e = read_chunk_lem chunk_size file positive small s l in
        elim (Option-cases (put (suc s) (part_of chunk_size file s))) [
          | inl f ↦ cc (rw (upload_one, e, upload_part, f) at h)
          | inr (etag, f) ↦ elim (Bool-cases (same etag [])) [
            | inl g ↦ cc (rw (upload_one, e, upload_part, f, g) at h)
            | inr g ↦
                let k : some (record { part_number = suc s; e_tag = etag }) ≡ some q =
                  rw (upload_one, e, upload_part, f, g) at h in
                let m : ◌≡◌ {A = Part} (record { part_number = suc s; e_tag = etag }) q = cc k in
                (sym (ap (λ r. r.part_number) m), f ∙ ap (λ r. some r.e_tag) m)
          ]
        ]

    module _ (stored : ℕ → Bytes → Bytes)
        (kept : (k : ℕ) (d e : Bytes) → put k d ≡ some e → stored k e ≡ d) where
      Made-assembled :
          (s : ℕ) (qs : List Part)
          → ((i : ℕ) → i < length qs → (s + i) * chunk_size ≤ length file)
          → Made chunk_size file put s qs
          → assembled stored qs ≡ take (length qs * chunk_size) (drop (s * chunk_size) file)
      Made-assembled s [] b m = let e : 0 * chunk_size ≡ 0 = omega arith in rw e
      Made-assembled s (q ∷ qs) b (m, ms) =
          let z : s + 0 ≡ s = omega arith in
          let b0 : (s + 0) * chunk_size ≤ length file = b 0 (omega arith) in
          let l : s * chunk_size ≤ length file = rw z at b0 in
          let (n, p) = one_lem s q l m in
          let k : stored q.part_number q.e_tag ≡ part_of chunk_size file s =
            rw n (kept (suc s) (part_of chunk_size file s) q.e_tag p) in
          let rest : assembled stored qs
              ≡ take (length qs * chunk_size) (drop (suc s * chunk_size) file) =
            Made-assembled (suc s) qs
              (λ i j.
                let e : suc s + i ≡ s + suc i = omega arith in rw e (b (suc i) (omega (arith, j))))
              ms in
          let u : suc s * chunk_size ≡ s * chunk_size + chunk_size = omega arith in
          let v : suc (length qs) * chunk_size ≡ chunk_size + length qs * chunk_size =
            omega arith in
          rw (k, rest, u, v, sym (drop-add (s * chunk_size) chunk_size file))
            (take-add chunk_size (length qs * chunk_size) (drop (s * chunk_size) file))

    insert-Made :
        (s : ℕ) (q : Part) (qs : List Part)
        → ((i : ℕ) → i < length qs → (suc s + i) * chunk_size ≤ length file)
        → q.part_number ≡ suc s
        → Made chunk_size file put (suc s) qs
        → insert_part q qs ≡ q ∷ qs
    unfolding insert_part
    insert-Made s q [] b e m = refl
    insert-Made s q (r ∷ rs) b e (m, ms) =
        let z : suc s + 0 ≡ suc s = omega arith in
        let b0 : (suc s + 0) * chunk_size ≤ length file = b 0 (omega arith) in
        let (n, p) = one_lem (suc s) r (rw z at b0) m in
        let k : ltb r.part_number q.part_number ≡ false =
          rw (n, e) (le→ltb (suc (suc s)) (suc s) (omega arith)) in
        rw k

    Made-sorted :
        (s : ℕ) (qs : List Part)
        → ((i : ℕ) → i < length qs → (s + i) * chunk_size ≤ length file)
        → Made chunk_size file put s qs
        → sort_parts qs ≡ qs
    unfolding sort_parts
    Made-sorted s [] b m = refl
    Made-sorted s (q ∷ qs) b (m, ms) =
        let z : s + 0 ≡ s = omega arith in
        let b0 : (s + 0) * chunk_size ≤ length file = b 0 (omega arith) in
        let (n, p) = one_lem s q (rw z at b0) m in
        let b1 : (i : ℕ) → i < length qs → (suc s + i) * chunk_size ≤ length file = λ i j.
          let e : suc s + i ≡ s + suc i = omega arith in rw e (b (suc i) (omega (arith, j))) in
        rw (Made-sorted (suc s) qs b1 ms) (insert-Made s q qs b1 n ms)

    -- Every part has stored its part once the order names each number.
    all_placed :
        (order : List ℕ) (qs : List Part)
        → All (λ k. (1 ≤ k) × (k ≤ num_parts chunk_size file (length file))) order
        → ((i : ℕ) → i < num_parts chunk_size file (length file) → Any (λ k. k ≡ suc i) order)
        → upload_loop chunk_size file put
            (length file)
            order
            (replicate (num_parts chunk_size file (length file)) zero_part)
          ≡ some qs
        → (length qs ≡ num_parts chunk_size file (length file)) × Made chunk_size file put 0 qs
    all_placed order qs r c e =
        let n : ℕ = num_parts chunk_size file (length file) in
        let l : length (replicate n zero_part) ≡ n = length-replicate n zero_part in
        let (m, places) =
          upload_loop-places chunk_size file put order (replicate n zero_part) qs (rw l r) e in
        let lq : length qs ≡ n = m ∙ l in
        (
          lq,
          places-Made chunk_size file put 0 qs (λ i k.
              let z : 0 + i ≡ i = omega arith in
              rw z elim (places i) [ inl g ↦ g | inr (g, t) ↦ absurd (g (c i (rw lq at k))) ]),
        )

    one_made :
        (k : ℕ)
        → 1 ≤ k
        → k ≤ num_parts chunk_size file (length file)
        → Answers put
        → (q : Part) × (one chunk_size file put k ≡ some q)
    unfolding upload_one upload_part
    one_made zero l m a = absurd (omega (arith, l))
    one_made (suc s) l m a =
        let e =
          read_chunk_lem chunk_size file positive small s
            ((num_parts_lem chunk_size file positive small exact).1 s (omega (arith, m))) in
        let (etag, f, g) = a (suc s) (part_of chunk_size file s) in
        (record { part_number = suc s; e_tag = etag }, rw (upload_one, e, upload_part, f, g))

    loop_made :
        (order : List ℕ) (ps : List Part)
        → All (λ k. (1 ≤ k) × (k ≤ num_parts chunk_size file (length file))) order
        → Answers put
        → (qs : List Part) × (upload_loop chunk_size file put (length file) order ps ≡ some qs)
    unfolding upload_loop
    loop_made [] ps r a = (ps, refl)
    loop_made (k ∷ order) ps ((l, m), r) a =
        let (q, e) = one_made k l m a in
        let (qs, f) = loop_made order (set_part (k - 1) q ps) r a in (qs, rw (upload_loop, e) f)

    module _ (stored : ℕ → Bytes → Bytes)
        (kept : (k : ℕ) (d e : Bytes) → put k d ≡ some e → stored k e ≡ d) where
      -- What a completed upload returns.
      sent_of :
          (completes : List Part → Bool) (qs : List Part)
          → sort_parts qs ≡ qs
          → assembled stored qs ≡ file
          → (size : ℕ) (sent : List Part)
          → complete_upload chunk_size file put completes (ok qs) ≡ ok (size, sent)
          → (size ≡ length file) × (assembled stored sent ≡ file) × (completes sent ≡ true)
      unfolding complete_upload
      sent_of completes qs s a size sent e = elim (Bool-cases (completes qs)) [
        | inr g ↦ cc (rw (complete_upload, s, g) at e)
        | inl g ↦
            let h : ◌≡◌ {A = Result Stop (ℕ × List Part)} (ok (length file, qs)) (ok (size, sent)) =
              rw (complete_upload, s, g) at e in
            let k : ◌≡◌ {A = ℕ × List Part} (length file, qs) (size, sent) = cc h in
            (sym (ap (λ p. p.0) k), rw (sym (ap (λ p. p.1) k)) a, rw (sym (ap (λ p. p.1) k)) g)
      ]

      sent_parts :
          (initiated : Bool) (completes : List Part → Bool) (limit : ℕ) (order : List ℕ) (size : ℕ)
          (sent : List Part)
          → All (λ k. (1 ≤ k) × (k ≤ num_parts chunk_size file (length file))) order
          → ((i : ℕ) → i < num_parts chunk_size file (length file) → Any (λ k. k ≡ suc i) order)
          → upload_file_in_parallel chunk_size file put initiated completes limit order
            ≡ ok (size, sent)
          → (size ≡ length file) × (assembled stored sent ≡ file) × (completes sent ≡ true)
      unfolding upload_file_in_parallel complete_upload upload_parts
      sent_parts false completes limit order size sent r c e = cc e
      sent_parts true completes limit order size sent r c e = elim (Bool-cases (limit == 0)) [
        | inl z ↦ cc (rw (upload_file_in_parallel, upload_parts, z, complete_upload) at e)
        | inr z ↦
            let n : ℕ = num_parts chunk_size file (length file) in
            elim (Option-cases
              (upload_loop chunk_size file put (length file) order (replicate n zero_part))) [
                | inl f ↦
                    cc (rw (upload_file_in_parallel, upload_parts, z, f, complete_upload) at e)
                | inr (qs, f) ↦
                    let (l, m) = all_placed order qs r c f in
                    let (b, d) = num_parts_lem chunk_size file positive small exact in
                    let bound : (i : ℕ) → i < length qs → (0 + i) * chunk_size ≤ length file =
                      λ i k. let z : 0 + i ≡ i = omega arith in rw z (d i (rw l at k)) in
                    let s : sort_parts qs ≡ qs = Made-sorted 0 qs bound m in
                    let a : assembled stored qs ≡ file =
                      Made-assembled stored kept 0 qs bound m ∙ whole_file (length qs) (rw l b) in
                    sent_of completes qs s a size sent
                      (rw (upload_file_in_parallel, upload_parts, z, f) at e)
              ]
      ]
        where
          whole_file :
              (n : ℕ)
              → length file ≤ n * chunk_size
              → take (n * chunk_size) (drop (0 * chunk_size) file) ≡ file
          whole_file n h =
              let z : 0 * chunk_size ≡ 0 = omega arith in rw z (take_all (n * chunk_size) file h)

      -- If the server keeps the bytes of each part under its number and the tag that it answers
      -- with, for parts of a positive size and a file whose length and a part are together below 2
      -- ^ 53, and whatever the order in which the parts are stored, an upload that returns no
      -- error gives the length of the file, the server has completed it, and the parts that the
      -- completion names are, one behind the other, the file; and it does return no error where
      -- the limit on goroutines is positive and the server answers each part with a tag, and
      -- starts and completes the upload.
      pub upload_file-assembled :
          (completes : List Part → Bool) (max_concurrency : ℕ) (order : List ℕ)
          → All (λ k. (1 ≤ k) × (k ≤ num_parts chunk_size file (length file))) order
          → ((i : ℕ) → i < num_parts chunk_size file (length file) → Any (λ k. k ≡ suc i) order)
          → ((initiated : Bool) (size : ℕ) (sent : List Part)
              → upload_file_in_parallel chunk_size file put initiated completes max_concurrency
                  order
                ≡ ok (size, sent)
              → (size ≡ length file) × (assembled stored sent ≡ file) × (completes sent ≡ true))
            × (0 < max_concurrency
                → Answers put
                → ((ps : List Part) → completes ps ≡ true)
                → (sent : List Part) × (upload_file_in_parallel chunk_size file put true completes
                      max_concurrency order
                    ≡ ok (length file, sent)))
      unfolding upload_file_in_parallel complete_upload upload_parts
      upload_file-assembled completes limit order r c = (
        λ initiated size sent e. sent_parts initiated completes limit order size sent r c e,
        λ p a y.
            let (qs, f) =
              loop_made order (replicate (num_parts chunk_size file (length file)) zero_part) r a in
            let z : (limit == 0) ≡ false = ground (arith, p) in
            (
              sort_parts qs,
              rw (upload_file_in_parallel, upload_parts, z, f, complete_upload, y (sort_parts qs)),
            ),
      )
