-- ===== src/Base/Reactor/Tests.antt =====
-- Runs of the reactor.
use dark_os_svc_kit.Common.{map, filter, ℕ, ◌<◌, ◌≡◌, refl, true, false, some, [], ◌∷◌, All, arith}
use dark_os_svc_kit.Base.Reactor.{
  Loop, Timer, wait_timeout_ms, post, run, run_tasks, perform_all, collect_due,
}
use dark_os_svc_kit.Base.Reactor.Timeouts.{Waits, wait_timeout_ms-Waits}
use dark_os_svc_kit.Base.Reactor.Timers.{is_due, stays, moved, collect_due-All}

abbrev two_timers : Loop ℕ
two_timers = record {
  valid = true;
  wake_fd = 4;
  quitting = false;
  next_timer_id = 3;
  watched = [];
  tasks = [];
  timers =
      record { id = 1; deadline_ns = 9000000; interval_ns = 0; task = 10 }
      ∷ record { id = 2; deadline_ns = 5000001; interval_ns = 4; task = 20 }
      ∷ [];
}

wait_timeout_ms-Waits_example : Waits 2000000 two_timers (wait_timeout_ms 2000000 two_timers)
wait_timeout_ms-Waits_example = wait_timeout_ms-Waits 2000000 two_timers

collect_due-All_example :
    All (λ (t : Timer ℕ). 6000000 < t.deadline_ns) (collect_due 6000000 two_timers.timers).0
    × ((collect_due 6000000 two_timers.timers).0
        ≡ map (moved 6000000) (filter (stays 6000000) two_timers.timers))
    × ((collect_due 6000000 two_timers.timers).1
        ≡ map (λ t. (t.id, t.task)) (filter (is_due 6000000) two_timers.timers))
collect_due-All_example = collect_due-All 6000000 two_timers.timers (omega arith)

-- A task that quits and posts the task 7.
abbrev leaving : ℕ → Loop ℕ → Loop ℕ
leaving t l = (post (some 7) true (record l { quitting = true })).0

-- What the last tasks post is left in the queue.
left_over : (run leaving [] (record two_timers { tasks = 5 ∷ []; quitting = true })).tasks ≡ 7 ∷ []
unfolding run run_tasks perform_all post
left_over = refl
