-- ===== src/Storage/Upload/Chunks.antt =====
-- The bytes that each part reads, and how many parts there are.
use mathlib.Core.Path.{◌≡◌, ap, ◌∙◌}
use native.Mathlib.Nat.{div-add-mod', mod-lt, le-mul_of_pos_right, mul-le-mul_right}
use aether_agent.Prelude.{
  take-short, take-short, ℕ, suc, ◌+◌, ◌-◌, ◌*◌, ◌^◌, ◌/◌, ◌%◌, ◌≤◌, ◌<◌, inl, inr, none, some,
  take, drop, length, length-take, length-drop, ltb, ◌==◌, ==_iff, ltb→lt, if◌then◌else◌, add64,
  add64_small, sub64, sub64_small, mul64, mul64_small, lt64, lt64_small, i64_max, Bytes, arith,
  Bool-cases,
}
use aether_agent.Storage.Upload.{
  num_parts, part_offset, part_size, read_chunk, to_float64, ceil_quotient,
}
use aether_agent.Storage.Upload.Rounding.{to_float64_exact, ceil_quotient_lem}

module _ (chunk_size : ℕ) (file : Bytes) where
  -- The bytes of a part.
  abbrev pub part_of : ℕ → Bytes
  part_of s = take chunk_size (drop (s * chunk_size) file)

  module _ (positive : 0 < chunk_size) (small : length file + chunk_size < i64_max) where
    -- The file has the bytes of each part, and the part reads them.
    pub read_chunk_lem :
        (s : ℕ)
        → s * chunk_size ≤ length file
        → read_chunk chunk_size file (length file) (suc s) ≡ some (part_of s)
    unfolding read_chunk part_offset part_size
    read_chunk_lem s l =
        let m : s ≤ s * chunk_size = le-mul_of_pos_right s positive in
        let a : sub64 (suc s) 1 ≡ s =
          sub64_small (suc s) 1 (omega arith) (omega (arith, m, l, small)) ∙ omega arith in
        let b : mul64 s chunk_size ≡ s * chunk_size =
          mul64_small s chunk_size (omega (arith, l, small)) in
        let c : add64 (s * chunk_size) chunk_size ≡ s * chunk_size + chunk_size =
          add64_small (s * chunk_size) chunk_size (omega (arith, l, small)) in
        let d : lt64 (length file) (s * chunk_size + chunk_size)
            ≡ ltb (length file) (s * chunk_size + chunk_size) =
          lt64_small (length file) (s * chunk_size + chunk_size) (omega (arith, small))
            (omega (arith, l, small)) in
        let e : part_offset chunk_size file (suc s) ≡ s * chunk_size = rw (part_offset, a, b) in
        elim (Bool-cases (ltb (length file) (s * chunk_size + chunk_size))) [
          | inl g ↦
              let k : part_size chunk_size file (length file) (s * chunk_size)
                  ≡ length file - s * chunk_size =
                rw (part_size, c, d, g)
                  (sub64_small (length file) (s * chunk_size) l (omega (arith, small))) in
              let t : take (length file - s * chunk_size) (drop (s * chunk_size) file) ≡ part_of s =
                take-short (length file - s * chunk_size) chunk_size (drop (s * chunk_size) file)
                  (omega (arith, length-drop (s * chunk_size) file))
                  (ground (arith, ltb→lt (length file) (s * chunk_size + chunk_size) g)) in
              rw (read_chunk, e, k) (full (length file - s * chunk_size) (omega arith)) ∙ ap some t
          | inr g ↦
              let k : part_size chunk_size file (length file) (s * chunk_size) ≡ chunk_size =
                rw (part_size, c, d, g) in
              rw (read_chunk, e, k) (full chunk_size (ground (arith, g)))
        ]
      where
        full :
            (size : ℕ)
            → size ≤ length file - s * chunk_size
            → (if length (take size (drop (s * chunk_size) file)) == size
                then some (take size (drop (s * chunk_size) file))
                else none)
              ≡ some (take size (drop (s * chunk_size) file))
        full size h =
            let n : length (take size (drop (s * chunk_size) file)) ≡ size =
              length-take size (drop (s * chunk_size) file)
              ∙ omega (arith, length-drop (s * chunk_size) file, h) in
            rw ((==_iff _ _).1 n)

    pub num_parts_lem :
        (exact : length file + chunk_size < 2 ^ 53)
        → (length file ≤ num_parts chunk_size file (length file) * chunk_size)
          × ((i : ℕ) → i < num_parts chunk_size file (length file) → i * chunk_size ≤ length file)
    unfolding num_parts
    num_parts_lem exact =
        let d = div-add-mod' (length file + (chunk_size - 1)) chunk_size in
        let r = mod-lt (length file + (chunk_size - 1)) positive in
        let e1 : to_float64 11 1 (length file) ≡ length file =
          to_float64_exact 11 (length file) (omega (arith, exact)) in
        let e2 : to_float64 11 1 chunk_size ≡ chunk_size =
          to_float64_exact 11 chunk_size (omega (arith, exact)) in
        let e3 : ceil_quotient (length file) chunk_size
            ≡ (length file + (chunk_size - 1)) / chunk_size =
          ceil_quotient_lem (length file) chunk_size positive (omega (arith, exact))
            (omega (arith, exact)) in
        elim (Bool-cases ((length file + (chunk_size - 1)) / chunk_size == 0)) [
          | inl e ↦
              let z : (length file + (chunk_size - 1)) / chunk_size ≡ 0 = (==_iff _ _).0 e in
              rw (e1, e2, e3, e) (nothing (rw z at d) r)
          | inr e ↦
              rw (e1, e2, e3, e)
                (
                  omega (arith, d, r, positive),
                  λ i l.
                      let k : suc i * chunk_size
                          ≤ (length file + (chunk_size - 1)) / chunk_size * chunk_size =
                        mul-le-mul_right chunk_size l in
                      omega (arith, k, d, r, positive),
                )
        ]
      where
        nothing :
            0 * chunk_size + (length file + (chunk_size - 1)) % chunk_size
              ≡ length file + (chunk_size - 1)
            → (length file + (chunk_size - 1)) % chunk_size < chunk_size
            → (length file ≤ 1 * chunk_size) × ((i : ℕ) → i < 1 → i * chunk_size ≤ length file)
        nothing d r =
            (omega (arith, d, r), λ i l. let z : i ≡ 0 = omega (arith, l) in rw z (omega arith))
