-- ===== src/Process/Handler/Examples.antt =====
-- Runs of a process's handler.
use aether_agent.Prelude.{
  ℕ, true, false, Option, none, some, List, [], ◌∷◌, ◌≡◌, ◌⊎◌, refl, Bytes, codes, ok, err,
  if◌then◌else◌,
}
use aether_agent.Process.Handler.{
  Handler, Process, by_tag, by_pid, not_found, get_process, load, range_tag, visit, failed,
  responded, unknown, panicked, start, stream_input, stream_data, Handlers,
}
use aether_agent.Process.Handler.Stdin.{more_written, data_events, joined, stream_input_lem}
use aether_agent.Process.Handler.Select.{get_process_tag_lem, Missed, Found}

abbrev cat : Handler
cat = record {
  is_started = true;
  has_tty = false;
  tty_written = [];
  has_stdin = true;
  pipe = record { written = []; closes = 0 };
  out_is_cancelled = false;
}

abbrev entry : ℕ → Option Bytes → Process
entry n t = record { pid = n; tag = t; address = n }

abbrev processes : List Process
processes = entry 3 none ∷ entry 4 (some (codes "build")) ∷ entry 5 (some (codes "test")) ∷ []

get_process_tag_lem_example :
    ((p : Process) × (get_process (by_tag (codes "build")) processes ≡ ok p)
      × Found (codes "build") p processes)
    ⊎ ((get_process (by_tag (codes "build")) processes ≡ err not_found)
        × Missed (codes "build") processes)
get_process_tag_lem_example = get_process_tag_lem (codes "build") processes

-- The process with the tag "test" is not found, since "build" is visited first.
test_missed : get_process (by_tag (codes "test")) processes ≡ err not_found
unfolding get_process range_tag visit
test_missed = refl

abbrev store : Handlers
store a = cat

by_pid_found : get_process (by_pid 4) processes ≡ ok (entry 4 (some (codes "build")))
unfolding get_process load
by_pid_found = refl

abbrev chunks : List Bytes
chunks = codes "ab" ∷ codes "c" ∷ []

stream_input_lem_example :
    ((stream_input false (start (by_pid 4) processes ∷ data_events chunks) none store).0
      ≡ (if false then failed unknown else responded))
    × ((stream_input false (start (by_pid 4) processes ∷ data_events chunks) none store).1 4
        ≡ more_written (joined chunks) (store 4))
    × ((stream_input false (start (by_pid 4) processes ∷ data_events chunks) none store).1 5
        ≡ store 5)
stream_input_lem_example =
    stream_input_lem false (by_pid 4) processes (entry 4 (some (codes "build"))) chunks store 5
      by_pid_found (refl, refl) refl

-- Data before a start event is written through a nil handler.
data_first_panics : (stream_input false (data_events ((codes "ab") ∷ [])) none store).0 ≡ panicked
unfolding stream_input stream_data
data_first_panics = refl
