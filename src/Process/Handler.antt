-- ===== src/Process/Handler.antt =====
-- internal/services/process/handler/handler.go, service.go, input.go and signal.go: a process that
-- the agent runs, how a request selects one, and what is written to it. Handlers are shared, so
-- they stand in a store under their addresses. The entries of the map of processes are in the order
-- in which `Range` visits them; how a write, a close or a signal ends is an argument of the call.
pub mod Stdin
pub mod Select
mod Examples
use aether_agent.Prelude.{
  ℕ, suc, Bool, true, false, Option, none, some, List, [], ◌∷◌, ◌++◌, ◌==◌, ◌||◌, if◌then◌else◌,
  take, Bytes, same, Result, ok, err,
}

pub data Failure : Type 0 where
  tty_assigned tty_not_assigned stdin_not_enabled process_not_started : Failure
  write_failed close_failed signal_failed : ℕ → Failure

-- How a write ends: with all the bytes, or with an error after some of them.
pub data Write : Type 0 where
  all_written : Write
  breaks_off : ℕ → ℕ → Write

-- The pipe to a process's stdin: what was written, and how often it was closed.
pub record Pipe : Type 0 where
  pub written : Bytes
  pub closes : ℕ

-- `has_stdin` says that the field `stdin` is not nil; the pipe itself outlives the field.
pub record Handler : Type 0 where
  pub is_started : Bool
  pub has_tty : Bool
  pub tty_written : Bytes
  pub has_stdin : Bool
  pub pipe : Pipe
  pub out_is_cancelled : Bool

-- What reaches the file, and the error.
abbrev pub bytes_of : Write → Bytes → Bytes
bytes_of all_written data_ = data_
bytes_of (breaks_off n e) data_ = take n data_

abbrev pub error_of : Write → Option Failure
error_of all_written = none
error_of (breaks_off n e) = some (write_failed e)

-- A nil error is `none`.
unfoldable pub write_stdin : Write → Bytes → Handler → Option Failure × Handler
write_stdin w data_ h =
    if h.has_tty
    then (some tty_assigned, h)
    else if h.has_stdin
    then (
      error_of w,
      record h { pipe = record h.pipe { written = h.pipe.written ++ bytes_of w data_ } },
    )
    else (some stdin_not_enabled, h)

abbrev pub failure_of : (ℕ → Failure) → Option ℕ → Option Failure
failure_of f none = none
failure_of f (some e) = some (f e)

unfoldable pub close_stdin : Option ℕ → Handler → Option Failure × Handler
close_stdin fails h =
    if h.has_tty
    then (some tty_assigned, h)
    else if h.has_stdin
    then (
      failure_of close_failed fails,
      record h { has_stdin = false; pipe = record h.pipe { closes = suc h.pipe.closes } },
    )
    else (none, h)

unfoldable pub write_tty : Write → Bytes → Handler → Option Failure × Handler
write_tty w data_ h =
    if h.has_tty
    then (error_of w, record h { tty_written = h.tty_written ++ bytes_of w data_ })
    else (some tty_not_assigned, h)

abbrev sigkill : ℕ
sigkill = 9

abbrev sigterm : ℕ
sigterm = 15

-- The signal itself goes to the kernel.
unfoldable pub send_signal : Option ℕ → ℕ → Handler → Option Failure × Handler
send_signal fails signal h =
    if h.is_started
    then (
      failure_of signal_failed fails,
      if signal == sigkill || signal == sigterm then record h { out_is_cancelled = true } else h,
    )
    else (some process_not_started, h)

pub data Input : Type 0 where
  pty stdin : Bytes → Input
  invalid_input : Input

pub data Code : Type 0 where
  internal : Failure → Code
  unimplemented not_found unknown : Code

abbrev pub with_internal : Option Failure × Handler → Option Code × Handler
with_internal r = (elim r.0 [ some f ↦ some (internal f) | none ↦ none ], r.1)

unfoldable pub handle_input : Write → Input → Handler → Option Code × Handler
unfolding write_tty write_stdin
handle_input w (pty data_) h = with_internal (write_tty w data_ h)
handle_input w (stdin data_) h = with_internal (write_stdin w data_ h)
handle_input w invalid_input h = (some unimplemented, h)

pub data Selector : Type 0 where
  by_pid : ℕ → Selector
  by_tag : Bytes → Selector
  no_selector : Selector

-- An entry of the map: the key, the handler's tag, and its address.
pub record Process : Type 0 where
  pub pid : ℕ
  pub tag : Option Bytes
  pub address : ℕ

unfoldable pub load : ℕ → List Process → Option Process
load pid [] = none
load pid (p ∷ ps) = if p.pid == pid then some p else load pid ps

-- The function given to `Range`: what it sets `proc` to, and whether the range goes on.
unfoldable pub visit : Bytes → Process → Option Process → Option Process × Bool
unfolding same
visit tag value proc = elim value.tag [
  | none ↦ (proc, true)
  | some t ↦ if same t tag then (some value, true) else (proc, false)
]

unfoldable pub range_tag : Bytes → List Process → Option Process → Option Process
unfolding visit
range_tag tag [] proc = proc
range_tag tag (p ∷ ps) proc =
    let (next, goes_on) = visit tag p proc in
    let rest = range_tag tag ps next in if goes_on then rest else next

abbrev pub or_not_found : Option Process → Result Code Process
or_not_found (some p) = ok p
or_not_found none = err not_found

unfoldable pub get_process : Selector → List Process → Result Code Process
unfolding load range_tag
get_process (by_pid pid) ps = or_not_found (load pid ps)
get_process (by_tag tag) ps = or_not_found (range_tag tag ps none)
get_process no_selector ps = err unimplemented

-- A message of the stream, with the processes that run when it comes.
pub data Message : Type 0 where
  start : Selector → List Process → Message
  data_event : Write → Input → Message
  keepalive invalid_event : Message

pub data Ending : Type 0 where
  responded : Ending
  failed : Code → Ending
  panicked : Ending

abbrev pub Handlers : Type 0
Handlers = ℕ → Handler

abbrev pub store_at : Handlers → ℕ → Handler → Handlers
store_at f a h b = if a == b then h else f b

-- One data event. Without a process the pointer is nil, and its first use panics.
unfoldable pub stream_data : Write → Input → Option ℕ → Handlers → Option Ending × Handlers
unfolding handle_input
stream_data w i (some a) f =
    let (code, h) = handle_input w i (f a) in
    (elim code [ some c ↦ some (failed c) | none ↦ none ], store_at f a h)
stream_data w (pty data_) none f = (some panicked, f)
stream_data w (stdin data_) none f = (some panicked, f)
stream_data w invalid_input none f = (some (failed unimplemented), f)

abbrev pub or_else : Option Ending × Handlers → Ending × Handlers → Ending × Handlers
or_else r rest = elim r.0 [ some e ↦ (e, r.1) | none ↦ rest ]

abbrev pub with_process :
    Result Code Process → (Process → Ending × Handlers) → Handlers → Ending × Handlers
with_process (ok p) next f = next p
with_process (err c) next f = (failed c, f)

-- `streamInputHandler`; the stream ends with or without an error.
unfoldable pub stream_input : Bool → List Message → Option ℕ → Handlers → Ending × Handlers
unfolding get_process stream_data
stream_input breaks [] proc f = (if breaks then failed unknown else responded, f)
stream_input breaks (start selector ps ∷ ms) proc f =
    with_process (get_process selector ps) (λ p. stream_input breaks ms (some p.address) f) f
stream_input breaks (data_event w i ∷ ms) proc f =
    let r = stream_data w i proc f in or_else r (stream_input breaks ms proc r.1)
stream_input breaks (keepalive ∷ ms) proc f = stream_input breaks ms proc f
stream_input breaks (invalid_event ∷ ms) proc f = (failed unimplemented, f)
