-- ===== src/Header/Normalize/Meaning.antt =====
-- What `NormalizeMappings` keeps: the cover, the block alignment and where each byte is stored.
use mathlib.Core.Option
use native.Mathlib.Nat.{dvd-add}
use aether_agent.Prelude.{
  ℕ, ◌+◌, ◌-◌, ◌≤◌, ◌<◌, ◌≡◌, refl, ◌≢◌, inl, inr, Option, List, [], ◌∷◌, arith, All, u64_mod,
  add64, add64_small, add64_assoc, ◌==◌, if◌then◌else◌, Bool-cases, true, false, suc, ==_iff, ◌∙◌,
  sym, ap,
}
use aether_agent.Header.Mapping.{BuildMap, locate}
use aether_agent.Header.Cover.{Tiles, Tiles-le, Fits, Joins, Joined, IsJoinable}
use aether_agent.Header.Normalize.{normalize_loop, normalize_mappings}

-- The position of a byte of the nil build is not read.
abbrev pub stored : ℕ × ℕ → ℕ × ℕ
stored (build_id, position) = if build_id == 0 then (0, 0) else (build_id, position)

abbrev pub stored_at : List BuildMap → ℕ → Option (ℕ × ℕ)
stored_at ms x = Option.map stored (locate ms x)

-- No two neighbours are of one build, and the first is not of build `b`.
abbrev pub AlternatesFrom : ℕ → List BuildMap → Type 0
AlternatesFrom b [] = Unit {0}
AlternatesFrom b (m ∷ ms) = (b ≢ m.build_id) × AlternatesFrom m.build_id ms

abbrev pub Alternates : List BuildMap → Type 0
Alternates [] = Unit {0}
Alternates (m ∷ ms) = AlternatesFrom m.build_id ms

abbrev grow : BuildMap → BuildMap → BuildMap
grow m n = record m { length = add64 m.length n.length }

stored_at-cons :
    (m : BuildMap) (ms ns : List BuildMap) (x : ℕ)
    → stored_at ms x ≡ stored_at ns x
    → stored_at (m ∷ ms) x ≡ stored_at (m ∷ ns) x
unfolding locate
stored_at-cons m ms ns x h = ground arith

-- Adding the length of a neighbour of the same build changes nothing that is read.
module _ (m n : BuildMap) (ns : List BuildMap) (e : n.build_id ≡ m.build_id)
    (small : m.offset + m.length + n.length < u64_mod) (j : Joins m n) where
  grow-Joined : Joined n ns → Joined (grow m n) ns
  grow-Joined k = go ns k
    where
      go : (ks : List BuildMap) → Joined n ks → Joined (grow m n) ks
      go [] k = tt
      go (k ∷ ks) (l, r) = (
        λ q. elim (j e) [
          | inl z ↦ inl z
          | inr s ↦ elim (l (q ∙ sym e)) [
            | inl z ↦ inl (sym e ∙ z)
            | inr t ↦ inr (t ∙ ap (λ u. add64 u n.length) s ∙ unfold add64 in omega arith)
          ]
        ],
        r,
      )

  stored_at-grow :
      (x : ℕ)
      → n.offset ≡ m.offset + m.length
      → stored_at (grow m n ∷ ns) x ≡ stored_at (m ∷ n ∷ ns) x
  unfolding locate
  stored_at-grow x o = ground (
    arith,
    j e,
    add64_small m.length n.length,
    add64_assoc m.build_storage_offset m.length (x - n.offset),
  )

-- The two branches of one round of the loop.
normalize_loop_same :
    (c n : BuildMap) (ns : List BuildMap)
    → (n.build_id == c.build_id) ≡ true
    → normalize_loop c (n ∷ ns) ≡ normalize_loop (grow c n) ns
unfolding normalize_loop
normalize_loop_same c n ns e = rw e

normalize_loop_new :
    (c n : BuildMap) (ns : List BuildMap)
    → (n.build_id == c.build_id) ≡ false
    → normalize_loop c (n ∷ ns) ≡ c ∷ normalize_loop n ns
unfolding normalize_loop
normalize_loop_new c n ns e = rw e

normalize_loop-AlternatesFrom :
    (b : ℕ) (c : BuildMap) (ms : List BuildMap)
    → b ≢ c.build_id
    → AlternatesFrom b (normalize_loop c ms)
normalize_loop-AlternatesFrom b c [] h = unfold normalize_loop in (h, tt)
normalize_loop-AlternatesFrom b c (n ∷ ns) h = elim (Bool-cases (n.build_id == c.build_id)) [
  | inl e ↦ rw (normalize_loop_same c n ns e) (normalize_loop-AlternatesFrom b (grow c n) ns h)
  | inr e ↦
      rw (normalize_loop_new c n ns e)
        (h, normalize_loop-AlternatesFrom c.build_id n ns (ground arith))
]

Alternates-of_from : (b : ℕ) (ms : List BuildMap) → AlternatesFrom b ms → Alternates ms
Alternates-of_from b [] h = tt
Alternates-of_from b (m ∷ ms) h = h.1

module _ (hi : ℕ) (small : hi < u64_mod) where
  grow-Tiles :
      (lo : ℕ) (c n : BuildMap) (ns : List BuildMap)
      → Tiles lo hi (c ∷ n ∷ ns)
      → (c.offset + c.length + n.length < u64_mod) × Tiles lo hi (grow c n ∷ ns)
  grow-Tiles lo c n ns (o, (p, t)) =
      let w : lo + c.length + n.length ≤ hi = Tiles-le (lo + c.length + n.length) hi ns t in
      let l : lo + add64 c.length n.length ≡ lo + c.length + n.length =
        omega (arith, add64_small c.length n.length (omega arith)) in
      (omega arith, (o, rw l t))

  normalize_loop-Tiles :
      (lo : ℕ) (c : BuildMap) (ms : List BuildMap)
      → Tiles lo hi (c ∷ ms)
      → Tiles lo hi (normalize_loop c ms)
  normalize_loop-Tiles lo c [] t = unfold normalize_loop in t
  normalize_loop-Tiles lo c (n ∷ ns) t = elim (Bool-cases (n.build_id == c.build_id)) [
    | inl e ↦
        rw (normalize_loop_same c n ns e)
          (normalize_loop-Tiles lo (grow c n) ns (grow-Tiles lo c n ns t).1)
    | inr e ↦ rw (normalize_loop_new c n ns e) (t.0, normalize_loop-Tiles (lo + c.length) n ns t.1)
  ]

  normalize_loop-Fits :
      (lo block_size : ℕ) (c : BuildMap) (ms : List BuildMap)
      → Tiles lo hi (c ∷ ms)
      → All (Fits hi block_size) (c ∷ ms)
      → All (Fits hi block_size) (normalize_loop c ms)
  normalize_loop-Fits lo bs c [] t f = unfold normalize_loop in f
  normalize_loop-Fits lo bs c (n ∷ ns) t (f, (g, fs)) =
      let l : add64 c.length n.length ≡ c.length + n.length =
        add64_small c.length n.length (omega (arith, (grow-Tiles lo c n ns t).0)) in
      elim (Bool-cases (n.build_id == c.build_id)) [
        | inl e ↦ rw (normalize_loop_same c n ns e) (
            normalize_loop-Fits lo bs (grow c n) ns (grow-Tiles lo c n ns t).1 (
              (
                omega (arith, l, t.0, t.1.0, g.0),
                f.1,
                rw l (dvd-add bs f.2 g.2),
                omega (arith, l, f.3),
              ),
              fs,
            ))
        | inr e ↦
            rw (normalize_loop_new c n ns e)
              (f, normalize_loop-Fits (lo + c.length) bs n ns t.1 (g, fs))
      ]

  normalize_loop-stored_at :
      (lo : ℕ) (c : BuildMap) (ms : List BuildMap) (x : ℕ)
      → Tiles lo hi (c ∷ ms)
      → Joined c ms
      → stored_at (normalize_loop c ms) x ≡ stored_at (c ∷ ms) x
  normalize_loop-stored_at lo c [] x t j = unfold normalize_loop in refl
  normalize_loop-stored_at lo c (n ∷ ns) x t j = elim (Bool-cases (n.build_id == c.build_id)) [
    | inl e ↦
        let b : n.build_id ≡ c.build_id = (==_iff n.build_id c.build_id).0 e in
        let g = grow-Tiles lo c n ns t in
        rw (normalize_loop_same c n ns e) (
          normalize_loop-stored_at lo (grow c n) ns x g.1 (grow-Joined c n ns b g.0 j.0 j.1)
          ∙ stored_at-grow c n ns b g.0 j.0 x (omega (arith, t.0, t.1.0)))
    | inr e ↦ rw (normalize_loop_new c n ns e) (
        stored_at-cons c (normalize_loop n ns) (n ∷ ns) x
          (normalize_loop-stored_at (lo + c.length) n ns x t.1 j.1))
  ]

-- On a cover of a file below 2 ^ 64 bytes in whole blocks, in which neighbours of one build are
-- neighbours in its data file too (the nil build has none), `NormalizeMappings` returns a cover in
-- whole blocks, with no two neighbours of one build, that stores every byte where it was.
pub normalize_mappings_lem :
    (size block_size : ℕ) (ms : List BuildMap)
    → size < u64_mod
    → Tiles 0 size ms
    → All (Fits size block_size) ms
    → IsJoinable ms
    → Tiles 0 size (normalize_mappings ms)
      × All (Fits size block_size) (normalize_mappings ms)
      × Alternates (normalize_mappings ms)
      × ((x : ℕ) → stored_at (normalize_mappings ms) x ≡ stored_at ms x)
normalize_mappings_lem size bs [] h t f j = unfold normalize_mappings in (t, tt, tt, λ x. refl)
normalize_mappings_lem size bs (m ∷ ms) h t f j =
    unfold normalize_mappings in
    (
      normalize_loop-Tiles size h 0 m ms t,
      normalize_loop-Fits size h 0 bs m ms t f,
      Alternates-of_from (suc m.build_id) _
          (normalize_loop-AlternatesFrom (suc m.build_id) m ms (λ e. omega arith)),
      λ x. normalize_loop-stored_at size h 0 m ms x t j,
    )
