-- ===== src/Header/Create/Runs.antt =====
-- The mapping of one run of set blocks, byte by byte: byte `q * block_size + r` stands in block `q`.
use native.Mathlib.Nat.{mul-le-mul_right, add-mul}
use aether_agent.Prelude.{
  ℕ, ◌+◌, ◌-◌, ◌*◌, ◌≤◌, ◌<◌, ◌≡◌, ap, sym, ◌∙◌, false, ◌&&◌, some, List, [], ◌∷◌, arith, ltb, leb,
  if◌then◌else◌, add64, add64_small, mul64_small, u64_mod, i64_max, inl, inr, le_or_lt, le→leb,
  lt→ltb, le→ltb, Bool-cases,
}
use aether_agent.Header.Mapping.{BuildMap, locate}
use aether_agent.Header.Create.{Run, flush}

lt→leb : (a b : ℕ) → b < a → leb a b ≡ false
lt→leb a b h = ground arith

-- A byte lies before the start of block `e` exactly if its block is before `e`.
pub ltb-block : (bs q r e : ℕ) → r < bs → ltb (q * bs + r) (e * bs) ≡ ltb q e
ltb-block bs q r e h = elim (le_or_lt e q) [
  | inl k ↦ le→ltb (q * bs + r) (e * bs) (omega (arith, mul-le-mul_right bs k)) ∙ sym (le→ltb q e k)
  | inr k ↦ lt→ltb (q * bs + r) (e * bs) (omega (arith, mul-le-mul_right bs k)) ∙ sym (lt→ltb q e k)
]

pub leb-block : (bs s q r : ℕ) → r < bs → leb (s * bs) (q * bs + r) ≡ leb s q
leb-block bs s q r h = elim (le_or_lt s q) [
  | inl k ↦ le→leb (s * bs) (q * bs + r) (omega (arith, mul-le-mul_right bs k)) ∙ sym (le→leb s q k)
  | inr k ↦ lt→leb (s * bs) (q * bs + r) (omega (arith, mul-le-mul_right bs k)) ∙ sym (lt→leb s q k)
]

-- The loop's variables in a run of `n` blocks from `s` on, with `i` blocks stored before it.
abbrev pub run_of : ℕ → ℕ → ℕ → ℕ → Run
run_of bs s n i = record { start_block = s; block_length = n; build_storage_offset = i * bs }

abbrev pub run_map : ℕ → ℕ → ℕ → ℕ → ℕ → BuildMap
run_map build_id bs s n i = record {
  offset = s * bs;
  length = n * bs;
  build_id = build_id;
  build_storage_offset = i * bs;
}

module _ (build_id bs hi : ℕ) (small : hi * bs < i64_max) where
  below_hi : (n : ℕ) → n ≤ hi → n * bs < i64_max
  below_hi n h = omega (arith, mul-le-mul_right bs h)

  pub flush_lem :
      (s n i : ℕ)
      → s + n ≤ hi
      → flush build_id bs (run_of bs s n i)
        ≡ (if ltb 0 n then run_map build_id bs s n i ∷ [] else [])
  unfolding flush
  flush_lem s n i h = rw (
    mul64_small s bs (omega (arith, below_hi s (omega arith))),
    mul64_small n bs (omega (arith, below_hi n (omega arith))),
  )

  address :
      (s i q r : ℕ)
      → i ≤ s
      → s ≤ q
      → q < hi
      → r < bs
      → add64 (i * bs) (q * bs + r - s * bs) ≡ (i + (q - s)) * bs + r
  address s i q r h k l m =
      let d : (q - s) * bs + s * bs ≡ q * bs =
        sym (add-mul (q - s) s bs) ∙ ap (λ (n : ℕ). n * bs) (omega arith) in
      let e : (i + (q - s)) * bs ≡ i * bs + (q - s) * bs = add-mul i (q - s) bs in
      let top : i * bs + (q * bs + r - s * bs) < u64_mod =
        omega (arith, d, mul-le-mul_right bs h, mul-le-mul_right bs l) in
      add64_small (i * bs) (q * bs + r - s * bs) top ∙ omega (arith, d, e)

  pub locate-run_map :
      (s n i q r : ℕ) (ms : List BuildMap)
      → s + n ≤ hi
      → i ≤ s
      → r < bs
      → locate (run_map build_id bs s n i ∷ ms) (q * bs + r) ≡ (
          if leb s q && ltb q (s + n)
          then some (build_id, (i + (q - s)) * bs + r)
          else locate ms (q * bs + r))
  unfolding locate
  locate-run_map s n i q r ms h k l =
      rw (leb-block bs s q r l, ← add-mul s n bs, ltb-block bs q r (s + n) l)
        (elim (Bool-cases (leb s q && ltb q (s + n))) [
          | inl e ↦ rw (e, address s i q r k (ground arith) (ground arith) l)
          | inr e ↦ rw e
        ])
