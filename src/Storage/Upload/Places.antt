-- ===== src/Storage/Upload/Places.antt =====
-- Where the parts stand after the upload.
use mathlib.Core.Path.{◌≡◌, refl, ap, sym, ◌∙◌}
use aether_agent.Prelude.{
  ℕ, zero, suc, ◌+◌, ◌-◌, ◌≤◌, ◌<◌, ◌⊎◌, inl, inr, ◌≢◌, Option, some, List, [], ◌∷◌, get_elem?,
  length, All, Any, ◌==◌, ==_iff, Bytes, arith, Bool-cases, Option-cases,
}
use aether_agent.Storage.Upload.{Part, set_part, upload_one, upload_loop}

length-set_part : (i : ℕ) (p : Part) (ps : List Part) → length (set_part i p ps) ≡ length ps
unfolding set_part
length-set_part i p [] = refl
length-set_part zero p (q ∷ qs) = refl
length-set_part (suc i) p (q ∷ qs) = ap suc (length-set_part i p qs)

set_part-same :
    (i : ℕ) (p : Part) (ps : List Part) → i < length ps → get_elem? (set_part i p ps) i ≡ some p
unfolding set_part
set_part-same i p [] h = absurd (omega (arith, h))
set_part-same zero p (q ∷ qs) h = refl
set_part-same (suc i) p (q ∷ qs) h = set_part-same i p qs (omega (arith, h))

set_part-other :
    (i j : ℕ) (p : Part) (ps : List Part) → i ≢ j → get_elem? (set_part i p ps) j ≡ get_elem? ps j
unfolding set_part
set_part-other i j p [] h = refl
set_part-other zero zero p (q ∷ qs) h = absurd (h refl)
set_part-other zero (suc j) p (q ∷ qs) h = refl
set_part-other (suc i) zero p (q ∷ qs) h = refl
set_part-other (suc i) (suc j) p (q ∷ qs) h = set_part-other i j p qs (λ e. h (ap suc e))

module _ (chunk_size : ℕ) (file : Bytes) (put : ℕ → Bytes → Option Bytes) where
  -- What the part of a number stores.
  abbrev pub one : ℕ → Option Part
  one k = upload_one chunk_size file put (length file) k

  -- Each number that has stored its part has it in its place.
  pub upload_loop-places :
      (order : List ℕ) (ps qs : List Part)
      → All (λ k. (1 ≤ k) × (k ≤ length ps)) order
      → upload_loop chunk_size file put (length file) order ps ≡ some qs
      → (length qs ≡ length ps)
        × ((i : ℕ)
            → (get_elem? qs i ≡ one (suc i))
              ⊎ ((Any (λ k. k ≡ suc i) order → ⊥) × (get_elem? qs i ≡ get_elem? ps i)))
  unfolding upload_loop
  upload_loop-places [] ps qs h e = let q : ps ≡ qs = cc in rw (← q) (refl, λ i. inr (λ u. u, refl))
  upload_loop-places (k ∷ order) ps qs ((l, m), h) e = elim (Option-cases (one k)) [
    | inl f ↦ cc (rw (upload_loop, f) at e)
    | inr (p, f) ↦
        let len : length (set_part (k - 1) p ps) ≡ length ps = length-set_part (k - 1) p ps in
        let (n, places) =
          upload_loop-places order (set_part (k - 1) p ps) qs (rw len h)
            (rw (upload_loop, f) at e) in
        (
          n ∙ len,
          λ i. elim (places i) [
            | inl g ↦ inl g
            | inr (g, t) ↦ elim (Bool-cases (k == suc i)) [
              | inl u ↦
                  let v : k ≡ suc i = (==_iff k (suc i)).0 u in
                  let w : k - 1 ≡ i = omega (arith, v) in
                  inl (t ∙ rw w (set_part-same i p ps (omega (arith, v, m))) ∙ sym f ∙ ap one v)
              | inr u ↦ inr (
                λ a. elim a [ inl v ↦ cc ((==_iff k (suc i)).1 v, u) | inr v ↦ g v ],
                t
                    ∙ set_part-other (k - 1) i p ps
                        (λ v. cc ((==_iff k (suc i)).1 (omega (arith, l, v)), u)),
              )
            ]
          ],
        )
  ]

  -- The parts are those of the numbers behind `s`, in order.
  abbrev pub Made : ℕ → List Part → Type 0
  Made s [] = Unit
  Made s (q ∷ qs) = (one (suc s) ≡ some q) × Made (suc s) qs

  pub places-Made :
      (s : ℕ) (qs : List Part)
      → ((i : ℕ) → i < length qs → get_elem? qs i ≡ one (suc (s + i)))
      → Made s qs
  places-Made s [] h = tt
  places-Made s (q ∷ qs) h =
      let z : s + 0 ≡ s = omega arith in
      (
        sym (h 0 (omega arith) ∙ ap (λ t. one (suc t)) z),
        places-Made (suc s) qs (λ i l.
            let e : s + suc i ≡ suc s + i = omega arith in
            rw (sym e) (h (suc i) (omega (arith, l)))),
      )
