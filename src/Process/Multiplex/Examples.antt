-- ===== src/Process/Multiplex/Examples.antt =====
-- Runs of a multiplexed channel.
use aether_agent.Prelude.{
  ℕ, true, false, List, [], ◌∷◌, ◌++◌, ◌≡◌, refl, All, replicate, length, ◌+◌,
}
use aether_agent.Process.Multiplex.{
  advance, fork, cancel, append_call, append_channel, leave_array, remove_call, remove,
  remove_first, is_read_locked, deliver, receive, close_next, close_channel, sending, stored,
  panicked, finished, Move, send_source, close_source, go_on, call_fork, lock_and_append,
  call_remove, lock_and_remove, MultiplexedChannel, new_multiplexed_channel, step, run, is_member,
}
use aether_agent.Process.Multiplex.Views.{events, view}
use aether_agent.Process.Multiplex.Whole.{run-hears, ledger, offers, IsStaying}
use aether_agent.Process.Multiplex.Stall.{run-IsStalled, IsStalled}
use aether_agent.Process.Multiplex.Exit.{run-AreClosed, AreClosed}

abbrev join : ℕ → List (Move ℕ)
join t = call_fork t ∷ lock_and_append t true ∷ []

abbrev two_join : List (Move ℕ)
two_join = join 0 ++ join 1

-- Two values for two consumers; the second consumer leaves between them.
abbrev values : List (Move ℕ)
values =
    send_source 7
    ∷ send_source 8
    ∷ go_on
    ∷ go_on
    ∷ go_on
    ∷ go_on
    ∷ go_on
    ∷ call_remove 1
    ∷ lock_and_remove 1
    ∷ go_on
    ∷ go_on
    ∷ go_on
    ∷ []

abbrev after_join : MultiplexedChannel ℕ
after_join = run two_join new_multiplexed_channel

abbrev after_values : MultiplexedChannel ℕ
after_values = run values after_join

first_hears_both : (after_values.consumers 0).received ≡ 7 ∷ 8 ∷ []
unfolding new_multiplexed_channel run step advance fork cancel append_call append_channel
    leave_array remove_call remove remove_first is_member is_read_locked deliver receive
first_hears_both = refl

second_hears_one : (after_values.consumers 1).received ≡ 7 ∷ []
unfolding new_multiplexed_channel run step advance fork cancel append_call append_channel
    leave_array remove_call remove remove_first is_member is_read_locked deliver receive
second_hears_one = refl

first_is_member : is_member 0 after_join.channels ≡ true
unfolding new_multiplexed_channel run step advance fork cancel append_call append_channel
    leave_array remove_call remove remove_first is_member is_read_locked deliver receive
first_is_member = refl

first_stays : All (IsStaying 0) (events values after_join)
unfolding new_multiplexed_channel run step advance fork cancel append_call append_channel
    leave_array remove_call remove remove_first is_member is_read_locked deliver receive
first_stays = (tt, (tt, (tt, (tt, (tt, (tt, (tt, (tt, (refl, (tt, (tt, (tt, tt))))))))))))

run-hears_example :
    ledger (view 0 (run values (run two_join new_multiplexed_channel)))
    ≡ ledger (view 0 (run two_join new_multiplexed_channel))
      ++ offers (events values (run two_join new_multiplexed_channel))
run-hears_example = run-hears 0 two_join values first_is_member first_stays

-- The goroutine has sent a value to the first consumer, and the second does not take it.
abbrev stuck : MultiplexedChannel ℕ
stuck = run (two_join ++ (send_source 7 ∷ go_on ∷ go_on ∷ go_on ∷ [])) new_multiplexed_channel

stuck_sends : stuck.fan_out ≡ sending 7 (1 ∷ [])
unfolding new_multiplexed_channel run step advance fork cancel append_call append_channel
    leave_array remove_call remove remove_first is_member is_read_locked deliver receive
stuck_sends = refl

run-IsStalled_example :
    IsStalled stuck (run (call_remove 1 ∷ lock_and_remove 1 ∷ lock_and_remove 1 ∷ []) stuck)
run-IsStalled_example =
    run-IsStalled (call_remove 1 ∷ lock_and_remove 1 ∷ lock_and_remove 1 ∷ []) stuck 7 1 []
      stuck_sends (tt, (tt, (tt, tt)))

abbrev ends : List (Move ℕ)
ends = two_join ++ (close_source ∷ go_on ∷ go_on ∷ [])

end_is_stored : (run ends new_multiplexed_channel).fan_out ≡ stored
unfolding new_multiplexed_channel run step advance fork cancel append_call append_channel
    leave_array remove_call remove remove_first is_member is_read_locked deliver receive
end_is_stored = refl

run-AreClosed_example :
    ((run
        (replicate (length (run ends new_multiplexed_channel).channels + 2) go_on)
        (run ends new_multiplexed_channel)).fan_out
      ≡ finished)
    × AreClosed (run ends new_multiplexed_channel).channels (
        run
          (replicate (length (run ends new_multiplexed_channel).channels + 2) go_on)
          (run ends new_multiplexed_channel))
run-AreClosed_example = run-AreClosed ends end_is_stored

-- The first of three consumers sees its channel closed and removes it while the loop that closes
-- goes on: the third channel moves to the second slot, and is closed there and in its old slot.
abbrev race : List (Move ℕ)
race =
    join 0
    ++ join 1
    ++ join 2
    ++ (close_source
        ∷ go_on
        ∷ go_on
        ∷ go_on
        ∷ go_on
        ∷ call_remove 0
        ∷ lock_and_remove 0
        ∷ go_on
        ∷ go_on
        ∷ [])

race_panics : (run race new_multiplexed_channel).fan_out ≡ panicked
unfolding new_multiplexed_channel run step advance fork cancel append_call append_channel
    leave_array remove_call remove remove_first is_member is_read_locked deliver receive close_next
    close_channel
race_panics = refl

race_leaves_open : ((run race new_multiplexed_channel).consumers 1).is_closed ≡ false
unfolding new_multiplexed_channel run step advance fork cancel append_call append_channel
    leave_array remove_call remove remove_first is_member is_read_locked deliver receive close_next
    close_channel
race_leaves_open = refl

-- A `Fork` that tests `exited` before it is set and appends after the loop: nobody closes its channel.
abbrev late : List (Move ℕ)
late =
    call_fork 0 ∷ close_source ∷ go_on ∷ go_on ∷ go_on ∷ go_on ∷ lock_and_append 0 true ∷ go_on ∷ []

late_finished : (run late new_multiplexed_channel).fan_out ≡ finished
unfolding new_multiplexed_channel run step advance fork cancel append_call append_channel
    leave_array remove_call remove remove_first is_member is_read_locked deliver receive close_next
    close_channel
late_finished = refl

late_is_open : ((run late new_multiplexed_channel).consumers 0).is_closed ≡ false
unfolding new_multiplexed_channel run step advance fork cancel append_call append_channel
    leave_array remove_call remove remove_first is_member is_read_locked deliver receive close_next
    close_channel
late_is_open = refl
