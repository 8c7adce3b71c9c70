-- ===== src/Header/Merge/Cover.antt =====
-- `MergeMappings` keeps a cover of the file, in whole blocks.
use native.Mathlib.Nat.{dvd-add, dvd-sub}
use aether_agent.Prelude.{
  ℕ, ◌+◌, ◌≤◌, ◌<◌, ◌≡◌, sym, ◌≢◌, ◌∙◌, Option, none, some, List, [], ◌∷◌, arith, All, i64_max,
  or_else,
}
use aether_agent.Header.Mapping.{BuildMap, IsOrdered, locate}
use aether_agent.Header.Cover.{Fits, Tiles, EndsBy, Tiles-IsOrdered, Tiles-located, located-Tiles}
use aether_agent.Header.Merge.{merge_mappings}
use aether_agent.Header.Merge.Round.{upto, from}
use aether_agent.Header.Merge.Overlay.{merge_mappings_overlay, Merged}
use aether_agent.Header.Merge.Keep.{merge_mappings-All}

pub Fits-upto :
    (size block_size : ℕ) (m d : BuildMap)
    → Fits size block_size m
    → Fits size block_size d
    → m.offset < d.offset
    → d.offset ≤ m.offset + m.length
    → Fits size block_size (upto m d.offset)
Fits-upto size bs m d f g h k = (omega (arith, f.0), f.1, dvd-sub bs g.1 f.1, omega arith)

pub Fits-from :
    (size block_size : ℕ) (m d : BuildMap)
    → Fits size block_size m
    → Fits size block_size d
    → m.offset ≤ d.offset + d.length
    → d.offset + d.length < m.offset + m.length
    → Fits size block_size (from m (d.offset + d.length))
Fits-from size bs m d f g h k = (
  omega (arith, f.0, g.0),
  dvd-add bs g.1 g.2,
  dvd-sub bs (dvd-add bs f.1 f.2) (dvd-add bs g.1 g.2),
  omega arith,
)

or_else-ne-none {ℓ} : {A : Type ℓ} (o p : Option A) → p ≢ none → or_else o p ≢ none
or_else-ne-none none p h = h
or_else-ne-none (some a) p h = λ e. cc

EndsBy-of_Fits :
    (size block_size : ℕ) (ms : List BuildMap)
    → All (Fits size block_size) ms
    → All (EndsBy size) ms
EndsBy-of_Fits size bs [] f = tt
EndsBy-of_Fits size bs (m ∷ ms) f = (f.0.0, EndsBy-of_Fits size bs ms f.1)

-- For a file below 2 ^ 63 bytes, a base that covers it without a gap and an ordered diff inside
-- it, both in whole blocks and without empty mappings, `MergeMappings` returns a cover of the file
-- without a gap, again in whole blocks, which is the diff laid over the base.
pub merge_mappings_cover :
    (size block_size : ℕ) (base diff : List BuildMap)
    → size < i64_max
    → Tiles 0 size base
    → IsOrdered 0 diff
    → All (Fits size block_size) base
    → All (Fits size block_size) diff
    → (r : List BuildMap) × (merge_mappings base diff ≡ some r)
      × Tiles 0 size r
      × All (Fits size block_size) r
      × Merged 0 base diff r
merge_mappings_cover size bs base diff h t o fb fd =
    let b : IsOrdered 0 base = Tiles-IsOrdered 0 size base h t in
    let (r, e, m) = merge_mappings_overlay 0 base diff b o in
    let f : All (Fits size bs) r =
      merge_mappings-All (Fits size bs) (Fits-upto size bs) (Fits-from size bs) 0 base diff r b o fb
        fd e in
    (
      r,
      e,
      located-Tiles 0 size r m.0 (EndsBy-of_Fits size bs r f) (omega arith) (λ x p q z.
          or_else-ne-none (locate diff x) (locate base x) (Tiles-located 0 size base x t p q)
            (sym (m.1 x) ∙ z)),
      f,
      m,
    )
