-- ===== src/Process/Handler/Select.antt =====
-- How a tag selects a process.
use aether_agent.Prelude.{
  Bool, true, false, Option, none, some, List, [], ◌∷◌, ◌≡◌, ◌≢◌, refl, ap, sym, subst, ◌∙◌, ◌⊎◌,
  inl, inr, Bool-cases, Option-cases, Bytes, same, same_iff, ok, err, if◌then◌else◌,
}
use aether_agent.Process.Handler.{
  Process, not_found, by_tag, visit, range_tag, or_not_found, get_process,
}

visit-none :
    (tag : Bytes) (p : Process) (proc : Option Process)
    → p.tag ≡ none
    → visit tag p proc ≡ (proc, true)
unfolding visit
visit-none tag p proc h = rw h refl

visit-same :
    (tag : Bytes) (p : Process) (proc : Option Process)
    → p.tag ≡ some tag
    → visit tag p proc ≡ (some p, true)
unfolding visit
visit-same tag p proc h = rw (h, (same_iff tag tag).1 refl) refl

visit-other :
    (tag t : Bytes) (p : Process) (proc : Option Process)
    → p.tag ≡ some t
    → t ≢ tag
    → visit tag p proc ≡ (proc, false)
unfolding visit
visit-other tag t p proc h n = elim (Bool-cases (same t tag)) [
  | inl e ↦ absurd (n ((same_iff t tag).0 e))
  | inr e ↦ rw (h, e) refl
]

tag_cases :
    (tag : Bytes) (p : Process)
    → (p.tag ≡ none) ⊎ ((p.tag ≡ some tag) ⊎ ((t : Bytes) × (p.tag ≡ some t) × (t ≢ tag)))
tag_cases tag p = elim (Option-cases p.tag) [
  | inl e ↦ inl e
  | inr (t, e) ↦ elim (Bool-cases (same t tag)) [
    | inl f ↦ inr (inl (e ∙ ap some ((same_iff t tag).0 f)))
    | inr f ↦ inr (inr (t, e, λ q. let k : same t tag ≡ true = (same_iff t tag).1 q in cc (k, f)))
  ]
]

range_tag-visit :
    (tag : Bytes) (q : Process) (ps : List Process) (proc next : Option Process) (goes_on : Bool)
    → visit tag q proc ≡ (next, goes_on)
    → range_tag tag (q ∷ ps) proc ≡ (if goes_on then range_tag tag ps next else next)
unfolding range_tag
range_tag-visit tag q ps proc next goes_on e = rw (ap (λ c. c.0) e, ap (λ c. c.1) e) refl

-- A range that meets no process with the tag, up to the end or to one with another tag.
pub data Missed (tag : Bytes) : List Process → Type 0 where
  nobody : Missed tag []
  stopped :
      (q : Process) (ps : List Process) (t : Bytes) → q.tag ≡ some t → t ≢ tag → Missed tag (q ∷ ps)
  passed : (q : Process) (ps : List Process) → q.tag ≡ none → Missed tag ps → Missed tag (q ∷ ps)

-- The process is the last with the tag before the end of the range, or before one with another tag.
pub data Found (tag : Bytes) (p : Process) : List Process → Type 0 where
  here : (ps : List Process) → p.tag ≡ some tag → Missed tag ps → Found tag p (p ∷ ps)
  after :
      (q : Process) (ps : List Process)
      → (q.tag ≡ none) ⊎ (q.tag ≡ some tag)
      → Found tag p ps
      → Found tag p (q ∷ ps)

range_tag_found :
    (tag : Bytes) (ps : List Process) (proc : Option Process) (p : Process)
    → range_tag tag ps proc ≡ some p
    → ((proc ≡ some p) × Missed tag ps) ⊎ Found tag p ps
range_tag_found tag [] proc p h = inl (unfold range_tag in h, nobody)
range_tag_found tag (q ∷ ps) proc p h = elim (tag_cases tag q) [
  | inl e ↦
      let r = range_tag-visit tag q ps proc proc true (visit-none tag q proc e) in
      elim (range_tag_found tag ps proc p (sym r ∙ h)) [
        | inl k ↦ inl (k.0, passed q ps e k.1)
        | inr k ↦ inr (after q ps (inl e) k)
      ]
  | inr c ↦ elim c [
    | inl e ↦
        let r = range_tag-visit tag q ps proc (some q) true (visit-same tag q proc e) in
        elim (range_tag_found tag ps (some q) p (sym r ∙ h)) [
          | inl k ↦
              let found : ◌≡◌ {A = Option Process} (some q) (some p) = k.0 in
              let same_one : q ≡ p = cc found in
              inr (subst (λ x. Found tag x (q ∷ ps)) same_one (here ps e k.1))
          | inr k ↦ inr (after q ps (inr e) k)
        ]
    | inr d ↦
        let (t, e, n) = d in
        let r = range_tag-visit tag q ps proc proc false (visit-other tag t q proc e n) in
        inl (sym r ∙ h, stopped q ps t e n)
  ]
]

range_tag-some :
    (tag : Bytes) (ps : List Process) (p : Process)
    → (q : Process) × (range_tag tag ps (some p) ≡ some q)
range_tag-some tag [] p = (p, unfold range_tag in refl)
range_tag-some tag (q ∷ ps) p = elim (tag_cases tag q) [
  | inl e ↦
      let (r, k) = range_tag-some tag ps p in
      (r, range_tag-visit tag q ps (some p) (some p) true (visit-none tag q (some p) e) ∙ k)
  | inr c ↦ elim c [
    | inl e ↦
        let (r, k) = range_tag-some tag ps q in
        (r, range_tag-visit tag q ps (some p) (some q) true (visit-same tag q (some p) e) ∙ k)
    | inr d ↦
        let (t, e, n) = d in
        (p, range_tag-visit tag q ps (some p) (some p) false (visit-other tag t q (some p) e n))
  ]
]

range_tag-Missed : (tag : Bytes) (ps : List Process) → range_tag tag ps none ≡ none → Missed tag ps
range_tag-Missed tag [] h = nobody
range_tag-Missed tag (q ∷ ps) h = elim (tag_cases tag q) [
  | inl e ↦
      let r = range_tag-visit tag q ps none none true (visit-none tag q none e) in
      passed q ps e (range_tag-Missed tag ps (sym r ∙ h))
  | inr c ↦ elim c [
    | inl e ↦
        let r = range_tag-visit tag q ps none (some q) true (visit-same tag q none e) in
        let (x, k) = range_tag-some tag ps q in cc (sym k ∙ sym r ∙ h)
    | inr d ↦ let (t, e, n) = d in stopped q ps t e n
  ]
]

-- A selector by tag gives the last process with that tag among those that are visited before one
-- with another tag, or fails if none of those has it: a process with another tag ends the range,
-- one without a tag does not.
pub get_process_tag_lem :
    (tag : Bytes) (ps : List Process)
    → ((p : Process) × (get_process (by_tag tag) ps ≡ ok p) × Found tag p ps)
      ⊎ ((get_process (by_tag tag) ps ≡ err not_found) × Missed tag ps)
unfolding get_process
get_process_tag_lem tag ps = elim (Option-cases (range_tag tag ps none)) [
  | inl e ↦ inr (ap or_not_found e, range_tag-Missed tag ps e)
  | inr (p, e) ↦ elim (range_tag_found tag ps none p e) [
    | inl k ↦ let n : ◌≡◌ {A = Option Process} none (some p) = k.0 in cc
    | inr k ↦ inl (p, ap or_not_found e, k)
  ]
]
