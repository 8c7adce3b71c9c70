-- ===== src/Storage/Blob/Runs.antt =====
-- Any order of calls of a cached blob and of the writes that they leave to the background.
use mathlib.Core.Path.{◌≡◌, refl, ap, sym, ◌∙◌}
use aether_agent.Prelude.{
  ℕ, zero, suc, ◌⊎◌, inl, inr, Bool, true, false, Option, none, some, List, [], ◌∷◌, ◌++◌, take,
  drop, get_elem?, if◌then◌else◌, Bytes, All, All-append,
}
use aether_agent.Storage.Blob.{
  Blob, Written, copy_full_file_from_cache, write_later, write_to, put_data, Writing, open_failed,
  copy_failed, committed, close_failed, commit, write_file_to_cache,
}

pub data Move : Type 0 where
  write_to_move : Bool → Option ℕ → Bool → Option Bytes → Bytes → Move
  put_move : Bool → Bytes → Move
  task_move : ℕ → Writing → Move
  delete_move : Move

abbrev pub empty : Blob
empty = record { file = none; tasks = [] }

abbrev run_task : ℕ → Writing → Option Bytes → Blob → Blob
run_task k w none b = b
run_task k w (some content) b = record {
  file = write_file_to_cache w content b.file;
  tasks = take k b.tasks ++ drop (suc k) b.tasks;
}

unfoldable pub step : Move → Blob → Blob
step (write_to_move opens breaks skip inner dst) b = (write_to opens breaks skip inner dst b).1
step (put_move write_through content) b = put_data write_through content b
step (task_move k w) b = run_task k w (get_elem? b.tasks k) b
step delete_move b = record b { file = none }

unfoldable pub run : List Move → Blob → Blob
run [] b = b
run (m ∷ ms) b = run ms (step m b)

module _ (content : Bytes) where
  -- Whether the temporary file is closed without an error, where it is closed.
  abbrev pub is_closed : Writing → Bool
  is_closed (close_failed n) = false
  is_closed other = true

  -- The object gives its content or an error, no other content is put, and no `Close` of a temporary
  -- file fails.
  abbrev pub IsHonest : Move → Type 0
  IsHonest (write_to_move opens breaks skip inner dst) = (inner ≡ none) ⊎ (inner ≡ some content)
  IsHonest (put_move write_through new) = new ≡ content
  IsHonest (task_move k w) = is_closed w ≡ true
  IsHonest delete_move = Unit

  abbrev IsOwn : Option Bytes → Type 0
  IsOwn file = (file ≡ none) ⊎ (file ≡ some content)

  abbrev IsSound : Blob → Type 0
  IsSound b = IsOwn b.file × All (λ c. c ≡ content) b.tasks

  write_later-IsSound : (b : Blob) → IsSound b → IsSound (write_later content b)
  write_later-IsSound b (f, p) =
      (f, All-append (λ c. c ≡ content) b.tasks (content ∷ []) p (refl, tt))

  -- The call appends the content, or what the cached file gave before it broke off, and then the
  -- content.
  abbrev pub Appends : Bytes → Option ℕ → Bytes → Type 0
  Appends dst breaks out =
      (out ≡ dst ++ content)
      ⊎ ((k : ℕ) × (breaks ≡ some k) × (out ≡ (dst ++ take k content) ++ content))

  abbrev Outcome : Bytes → Option ℕ → Written × Blob → Type 0
  Outcome dst breaks r = IsSound r.1 × (r.0.1 ≡ true → Appends dst breaks r.0.0)

  -- What the cached file did not give comes from the object.
  missed :
      (opens : Bool) (breaks : Option ℕ) (skip : Bool) (inner : Option Bytes) (dst pre : Bytes)
      (b : Blob)
      → (inner ≡ none) ⊎ (inner ≡ some content)
      → IsSound b
      → copy_full_file_from_cache opens breaks b.file dst ≡ (pre, false)
      → Appends dst breaks (pre ++ content)
      → Outcome dst breaks (write_to opens breaks skip inner dst b)
  unfolding write_to
  missed opens breaks skip inner dst pre b (inl e) w q a =
      let r : write_to opens breaks skip inner dst b ≡ ((pre, false), b) =
        rw (write_to, ap (λ c. c.1) q, e, ap (λ c. c.0) q) in
      rw r (w, λ z. cc z)
  missed opens breaks skip inner dst pre b (inr e) w q a =
      let r : write_to opens breaks skip inner dst b
          ≡ ((pre ++ content, true), if skip then b else write_later content b) =
        rw (write_to, ap (λ c. c.1) q, e, ap (λ c. c.0) q) in
      rw r (either skip, λ z. a)
    where
      either : (s : Bool) → IsSound (if s then b else write_later content b)
      either true = w
      either false = write_later-IsSound b w

  write_to_lem :
      (opens : Bool) (breaks : Option ℕ) (skip : Bool) (inner : Option Bytes) (dst : Bytes)
      (b : Blob)
      → (inner ≡ none) ⊎ (inner ≡ some content)
      → IsSound b
      → Outcome dst breaks (write_to opens breaks skip inner dst b)
  unfolding copy_full_file_from_cache write_to
  write_to_lem opens breaks skip inner dst b h (inl e, p) =
      missed opens breaks skip inner dst dst b h (inl e, p) (rw (e, copy_full_file_from_cache))
        (inl refl)
  write_to_lem false none skip inner dst b h (inr e, p) =
      missed false none skip inner dst dst b h (inr e, p) (rw (e, copy_full_file_from_cache))
        (inl refl)
  write_to_lem false (some k) skip inner dst b h (inr e, p) =
      missed false (some k) skip inner dst dst b h (inr e, p) (rw (e, copy_full_file_from_cache))
        (inl refl)
  write_to_lem true (some k) skip inner dst b h (inr e, p) =
      missed true (some k) skip inner dst (dst ++ take k content) b h (inr e, p)
        (rw (e, copy_full_file_from_cache)) (inr (k, refl, refl))
  write_to_lem true none skip inner dst b h (inr e, p) =
      let q : copy_full_file_from_cache true none b.file dst ≡ (dst ++ content, true) =
        rw (e, copy_full_file_from_cache) in
      let r : write_to true none skip inner dst b ≡ ((dst ++ content, true), b) =
        rw (write_to, ap (λ c. c.1) q, ap (λ c. c.0) q) in
      rw r ((inr e, p), λ z. inl refl)

  All-without :
      (k : ℕ) (ts : List Bytes)
      → All (λ c. c ≡ content) ts
      → All (λ c. c ≡ content) (take k ts ++ drop (suc k) ts)
  All-without zero [] p = tt
  All-without zero (t ∷ ts) (p, ps) = ps
  All-without (suc k) [] p = tt
  All-without (suc k) (t ∷ ts) (p, ps) = (p, All-without k ts ps)

  All-get :
      (k : ℕ) (ts : List Bytes) (t : Bytes)
      → All (λ c. c ≡ content) ts
      → get_elem? ts k ≡ some t
      → t ≡ content
  All-get k [] t p e = cc e
  All-get zero (u ∷ ts) t (p, ps) e = let q : u ≡ t = cc in sym q ∙ p
  All-get (suc k) (u ∷ ts) t (p, ps) e = All-get k ts t ps e

  commit-IsOwn : (file : Option Bytes) → IsOwn file → IsOwn (commit content file)
  unfolding commit
  commit-IsOwn none w = inr refl
  commit-IsOwn (some old) w = w

  write_file-IsOwn :
      (w : Writing) (new : Bytes) (file : Option Bytes)
      → is_closed w ≡ true
      → new ≡ content
      → IsOwn file
      → IsOwn (write_file_to_cache w new file)
  unfolding write_file_to_cache
  write_file-IsOwn open_failed new file c e o = o
  write_file-IsOwn copy_failed new file c e o = o
  write_file-IsOwn committed new file c e o = rw e (commit-IsOwn file o)
  write_file-IsOwn (close_failed n) new file c e o = cc c

  task-IsSound :
      (k : ℕ) (w : Writing) (t : Option Bytes) (b : Blob)
      → is_closed w ≡ true
      → get_elem? b.tasks k ≡ t
      → IsSound b
      → IsSound (run_task k w t b)
  task-IsSound k w none b c e s = s
  task-IsSound k w (some new) b c e (o, p) =
      (write_file-IsOwn w new b.file c (All-get k b.tasks new p e) o, All-without k b.tasks p)

  step-IsSound : (m : Move) (b : Blob) → IsHonest m → IsSound b → IsSound (step m b)
  unfolding step put_data
  step-IsSound (write_to_move opens breaks skip inner dst) b h w =
      (write_to_lem opens breaks skip inner dst b h w).0
  step-IsSound (put_move true new) b h w = rw h (write_later-IsSound b w)
  step-IsSound (put_move false new) b h w = w
  step-IsSound (task_move k writing) b h w = task-IsSound k writing (get_elem? b.tasks k) b h refl w
  step-IsSound delete_move b h w = (inl refl, w.1)

  run-IsSound : (ms : List Move) (b : Blob) → All IsHonest ms → IsSound b → IsSound (run ms b)
  unfolding run
  run-IsSound [] b h w = w
  run-IsSound (m ∷ ms) b (h, hs) w = run-IsSound ms (step m b) hs (step-IsSound m b h w)

  -- If the object gives one content or an error, and only that content is put, then after any
  -- order of calls, background writes that may fail (but not at the `Close` of a temporary file
  -- that is then linked), and deletions, a `WriteTo` that returns no error has appended the
  -- content to its destination; or, where the copy of the cached file broke off after some bytes,
  -- those bytes and then the content.
  pub write_to-Appends :
      (ms : List Move) (opens : Bool) (breaks : Option ℕ) (skip : Bool) (inner : Option Bytes)
      (dst : Bytes)
      → All IsHonest ms
      → (inner ≡ none) ⊎ (inner ≡ some content)
      → (write_to opens breaks skip inner dst (run ms empty)).0.1 ≡ true
      → Appends dst breaks (write_to opens breaks skip inner dst (run ms empty)).0.0
  write_to-Appends ms opens breaks skip inner dst h i =
      (write_to_lem opens breaks skip inner dst (run ms empty) i
        (run-IsSound ms empty h (inl refl, tt))).1
