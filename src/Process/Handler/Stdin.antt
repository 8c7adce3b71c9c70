-- ===== src/Process/Handler/Stdin.antt =====
-- The stdin of a process: what reaches its pipe.
use aether_agent.Prelude.{
  ℕ, suc, Bool, true, false, Option, none, some, List, [], ◌∷◌, ◌++◌, ◌≡◌, refl, ap, sym, ◌∙◌, ◌==◌,
  ==_iff, Bytes, append_nil, append_assoc, map, if◌then◌else◌, ok,
}
use aether_agent.Process.Handler.{
  Failure, stdin_not_enabled, Write, all_written, Handler, bytes_of, error_of, write_stdin,
  close_stdin, failure_of, close_failed, stdin, handle_input, Selector, Process, get_process,
  Message, start, data_event, Ending, responded, failed, unknown, Handlers, store_at, stream_data,
  with_process, stream_input,
}

-- A call on the stdin, with how it ends.
pub data StdinCall : Type 0 where
  write : Write → Bytes → StdinCall
  close : Option ℕ → StdinCall

unfoldable pub stdin_call : StdinCall → Handler → Option Failure × Handler
unfolding write_stdin close_stdin
stdin_call (write w d) h = write_stdin w d h
stdin_call (close e) h = close_stdin e h

-- Calls under the lock, one after the other, in any order: what each returned, and the handler.
unfoldable pub run_calls : List StdinCall → Handler → List (Option Failure) × Handler
unfolding stdin_call
run_calls [] h = ([], h)
run_calls (c ∷ cs) h =
    let (e, h') = stdin_call c h in let (es, h'') = run_calls cs h' in (e ∷ es, h'')

-- A list of writes.
abbrev pub writes : List (Write × Bytes) → List StdinCall
writes [] = []
writes (w ∷ ws) = write w.0 w.1 ∷ writes ws

abbrev pub written_by : List (Write × Bytes) → Bytes
written_by [] = []
written_by (w ∷ ws) = bytes_of w.0 w.1 ++ written_by ws

abbrev pub errors_by : List (Write × Bytes) → List (Option Failure)
errors_by [] = []
errors_by (w ∷ ws) = error_of w.0 ∷ errors_by ws

-- What a call returns once the stdin is closed.
abbrev pub closed_error : StdinCall → Option Failure
closed_error (write w d) = some stdin_not_enabled
closed_error (close e) = none

abbrev IsPiped : Handler → Type 0
IsPiped h = (h.has_tty ≡ false) × (h.has_stdin ≡ true)

run_calls-cons :
    (c : StdinCall) (cs : List StdinCall) (h h' h'' : Handler) (e : Option Failure)
    (es : List (Option Failure))
    → stdin_call c h ≡ (e, h')
    → run_calls cs h' ≡ (es, h'')
    → run_calls (c ∷ cs) h ≡ (e ∷ es, h'')
unfolding run_calls
run_calls-cons c cs h h' h'' e es q r =
    rw (ap (λ x. x.0) q, ap (λ x. x.1) q, ap (λ x. x.0) r, ap (λ x. x.1) r) refl

run_closed :
    (cs : List StdinCall) (h : Handler)
    → h.has_tty ≡ false
    → h.has_stdin ≡ false
    → run_calls cs h ≡ (map closed_error cs, h)
run_closed [] h t s = unfold run_calls in refl
run_closed (write w d ∷ cs) h t s =
    run_calls-cons (write w d) cs h h h _ _ (unfold stdin_call write_stdin in rw (t, s) refl)
      (run_closed cs h t s)
run_closed (close e ∷ cs) h t s =
    run_calls-cons (close e) cs h h h _ _ (unfold stdin_call close_stdin in rw (t, s) refl)
      (run_closed cs h t s)

-- The handler with more bytes in its pipe.
abbrev pub more_written : Bytes → Handler → Handler
more_written d h = record h { pipe = record h.pipe { written = h.pipe.written ++ d } }

abbrev pub closed : Handler → Handler
closed h = record h { has_stdin = false; pipe = record h.pipe { closes = suc h.pipe.closes } }

stdin_call-write :
    (w : Write) (d : Bytes) (h : Handler)
    → IsPiped h
    → write_stdin w d h ≡ (error_of w, more_written (bytes_of w d) h)
unfolding write_stdin
stdin_call-write w d h p = rw (p.0, p.1) refl

-- For a process with a stdin and no tty, any writes, then a close, then any writes and closes: the
-- pipe gets the bytes of the writes before the close in order, a write that breaks off those
-- before the break, and nothing later; it is closed once, also if closing fails; every later write
-- is refused, and every later close does nothing.
run_calls_lem :
    (ws : List (Write × Bytes)) (e : Option ℕ) (cs : List StdinCall) (h : Handler)
    → (h.has_tty ≡ false) × (h.has_stdin ≡ true)
    → run_calls (writes ws ++ (close e ∷ cs)) h ≡ (
      errors_by ws ++ (failure_of close_failed e ∷ map closed_error cs),
      closed (more_written (written_by ws) h),
    )
run_calls_lem [] e cs h p =
    let q : stdin_call (close e) h ≡ (failure_of close_failed e, closed (more_written [] h)) =
      unfold stdin_call close_stdin in rw (p.0, p.1, append_nil h.pipe.written) refl in
    run_calls-cons (close e) cs h (closed (more_written [] h)) _ _ _ q
      (run_closed cs (closed (more_written [] h)) p.0 refl)
run_calls_lem (w ∷ ws) e cs h p =
    let ih = run_calls_lem ws e cs (more_written (bytes_of w.0 w.1) h) p in
    let q : stdin_call (write w.0 w.1) h ≡ (error_of w.0, more_written (bytes_of w.0 w.1) h) =
      unfold stdin_call in stdin_call-write w.0 w.1 h p in
    run_calls-cons (write w.0 w.1) (writes ws ++ (close e ∷ cs)) h
      (more_written (bytes_of w.0 w.1) h) _ _ _ q
      (rw (sym (append_assoc h.pipe.written (bytes_of w.0 w.1) (written_by ws))) ih)

-- The data events of a client that streams to a process's stdin.
abbrev pub data_events : List Bytes → List Message
data_events [] = []
data_events (d ∷ ds) = data_event all_written (stdin d) ∷ data_events ds

abbrev pub joined : List Bytes → Bytes
joined [] = []
joined (d ∷ ds) = d ++ joined ds

abbrev ending : Bool → Ending
ending breaks = if breaks then failed unknown else responded

stream_one :
    (breaks : Bool) (d : Bytes) (ms : List Message) (a : ℕ) (f : Handlers)
    → IsPiped (f a)
    → stream_input breaks (data_event all_written (stdin d) ∷ ms) (some a) f
      ≡ stream_input breaks ms (some a) (store_at f a (more_written d (f a)))
unfolding stream_input stream_data handle_input write_stdin
stream_one breaks d ms a f p = rw (p.0, p.1) refl

stream_events :
    (breaks : Bool) (ds : List Bytes) (a : ℕ) (f : Handlers)
    → IsPiped (f a)
    → ((stream_input breaks (data_events ds) (some a) f).0 ≡ ending breaks)
      × ((stream_input breaks (data_events ds) (some a) f).1 a ≡ more_written (joined ds) (f a))
      × ((b : ℕ) → (a == b) ≡ false → (stream_input breaks (data_events ds) (some a) f).1 b ≡ f b)
stream_events breaks [] a f p = unfold stream_input in (refl, rw append_nil, λ b n. refl)
stream_events breaks (d ∷ ds) a f p =
    let g = store_at f a (more_written d (f a)) in
    let here : g a ≡ more_written d (f a) = rw ((==_iff a a).1 refl) refl in
    let k : IsPiped (g a) = rw here p in
    let (e, w, o) = stream_events breaks ds a g k in
    rw (stream_one breaks d (data_events ds) a f p) (
      e,
      w
          ∙ ap (more_written (joined ds)) here
          ∙ rw (append_assoc (f a).pipe.written d (joined ds)) refl,
      λ b n. o b n ∙ rw n refl,
    )

-- A stream that starts with a selector that finds a process with a stdin and no tty, and whose
-- inputs are all written: the process's pipe gets all the data in order, another process's handler
-- stays as it was, and the response is a failure exactly if the stream broke off.
pub stream_input_lem :
    (breaks : Bool) (selector : Selector) (ps : List Process) (p : Process) (ds : List Bytes)
    (f : Handlers) (other : ℕ)
    → get_process selector ps ≡ ok p
    → ((f p.address).has_tty ≡ false) × ((f p.address).has_stdin ≡ true)
    → (p.address == other) ≡ false
    → ((stream_input breaks (start selector ps ∷ data_events ds) none f).0
        ≡ (if breaks then failed unknown else responded))
      × ((stream_input breaks (start selector ps ∷ data_events ds) none f).1 p.address
          ≡ more_written (joined ds) (f p.address))
      × ((stream_input breaks (start selector ps ∷ data_events ds) none f).1 other ≡ f other)
stream_input_lem breaks selector ps p ds f other e h n =
    let q : stream_input breaks (start selector ps ∷ data_events ds) none f
        ≡ stream_input breaks (data_events ds) (some p.address) f =
      unfold stream_input in
      ap (λ r. with_process r (λ x. stream_input breaks (data_events ds) (some x.address) f) f) e in
    let (a, b, c) = stream_events breaks ds p.address f h in rw q (a, b, c other n)
