-- ===== src/Header/Merge/Overlay.antt =====
-- What `MergeMappings` computes on ordered lists: the diff laid over the base.
use aether_agent.Prelude.{
  ℕ, zero, suc, ◌≡◌, refl, ap, sym, ◌∙◌, some, List, [], ◌∷◌, ◌++◌, or_else, or_else-none, inl, inr,
  Option-cases,
}
use aether_agent.Header.Mapping.{BuildMap, IsOrdered, locate, locate-append}
use aether_agent.Header.Merge.{Step, merge_step, merge_loop, merge_mappings}
use aether_agent.Header.Merge.Round.{progress, base-IsOrdered, diff-IsOrdered, out-IsOrdered}
use aether_agent.Header.Merge.Cases.{merge_step_overlay}
use aether_agent.Header.Merge.Total.{merge_mappings_total}

-- `r` is ordered, and each byte stands where `diff` has it, and else where `base` has it.
abbrev pub Merged : ℕ → List BuildMap → List BuildMap → List BuildMap → Type 0
Merged lo base diff r =
    IsOrdered lo r × ((x : ℕ) → locate r x ≡ or_else (locate diff x) (locate base x))

merge_loop_overlay :
    (fuel lo : ℕ) (base diff r : List BuildMap)
    → IsOrdered lo base
    → IsOrdered lo diff
    → merge_loop fuel base diff ≡ some r
    → Merged lo base diff r
unfolding merge_loop locate
merge_loop_overlay fuel lo [] diff r b d e =
    let q : diff ≡ r = cc in rw (← q) (d, λ x. sym (or_else-none (locate diff x)))
merge_loop_overlay fuel lo (base ∷ bases) [] r b d e =
    let q : base ∷ bases ≡ r = cc in rw (← q) (b, λ x. refl)
merge_loop_overlay zero lo (base ∷ bases) (diff ∷ diffs) r b d e = cc
merge_loop_overlay (suc fuel) lo (base ∷ bases) (diff ∷ diffs) r b d e =
    let s : Step = merge_step base bases diff diffs in
    elim (Option-cases (merge_loop fuel s.base s.diff)) [
      | inl p ↦ cc (rw p at e)
      | inr (rest, p) ↦
          let q : s.out ++ rest ≡ r = cc (rw p at e) in
          let (o, l) =
            merge_loop_overlay fuel (progress lo base diff) s.base s.diff rest
              (base-IsOrdered lo base diff bases diffs b d)
              (diff-IsOrdered lo base diff bases diffs b d) p in
          rw (← q) (
            out-IsOrdered lo base diff bases diffs b d rest o,
            λ x.
                locate-append s.out rest x
                ∙ ap (or_else (locate s.out x)) (l x)
                ∙ merge_step_overlay lo base diff bases diffs b d x,
          )
    ]

-- On two ordered lists of disjoint mappings whose ends an int64 holds `MergeMappings` returns an
-- ordered list, in which every byte is stored where the diff says, and where the diff says
-- nothing, where the base says.
pub merge_mappings_overlay :
    (lo : ℕ) (base diff : List BuildMap)
    → IsOrdered lo base
    → IsOrdered lo diff
    → (r : List BuildMap) × (merge_mappings base diff ≡ some r) × Merged lo base diff r
unfolding merge_mappings
merge_mappings_overlay lo base [] b d = (base, refl, (b, λ x. unfold locate in refl))
merge_mappings_overlay lo base (diff ∷ diffs) b d =
    let (r, e) = merge_mappings_total base (diff ∷ diffs) in
    (r, e, merge_loop_overlay _ lo base (diff ∷ diffs) r b d e)
