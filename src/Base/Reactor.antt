-- ===== src/Base/Reactor.antt =====
-- SvcKit/base/runtime/src/EventLoop.cpp: tasks, timers and watched descriptors of the reactor. A task is a value,
-- and what running it does to the loop is an argument, which covers a task that throws. The kernel's answers and
-- the clock are arguments too; epoll and eventfd themselves are the system's.
use dark_os_svc_kit.Common.{
  ℕ, zero, suc, ◌+◌, ◌-◌, ◌*◌, ◌/◌, ◌%◌, min, Bool, true, false, not, ◌&&◌, ◌||◌, Option, none,
  some, is_none, List, [], ◌∷◌, ◌++◌, ltb, leb, ◌==◌, if◌then◌else◌,
}
use dark_os_svc_kit.Common.Words.{u64}
use dark_os_svc_kit.Common.Int.{ℤ, pos, negsuc, is_negative}
pub mod Timeouts
pub mod Timers
pub mod Tests

pub record Timer {ℓ} (Task : Type ℓ) : Type ℓ where
  pub id : ℕ
  pub deadline_ns : ℕ
  pub interval_ns : ℕ
  pub task : Task

-- EpollEventLoop; `watched` has the descriptors with their callbacks.
pub record Loop {ℓ} (Task : Type ℓ) : Type ℓ where
  pub valid : Bool
  pub wake_fd : ℕ
  pub quitting : Bool
  pub next_timer_id : ℕ
  pub watched : List (ℕ × Task)
  pub tasks : List Task
  pub timers : List (Timer Task)

unfoldable pub saturating_add : ℕ → ℕ → ℕ
saturating_add left right =
    if ltb (18446744073709551615 - left) right then 18446744073709551615 else u64 (left + right)

module _ {ℓ} {Task : Type ℓ} where
  pub post : Option Task → Bool → Loop Task → Loop Task × Bool
  post none memory l = (l, false)
  post (some t) memory l =
      if not l.valid || not memory
      then (l, false)
      else (record l { tasks = l.tasks ++ t ∷ [] }, true)

  pub has_timer : ℕ → List (Timer Task) → Bool
  has_timer id [] = false
  has_timer id (t ∷ ts) = t.id == id || has_timer id ts

  -- scheduleEvery; emplace keeps a timer that is there under the id. The result is the id, 0 on a failure.
  pub schedule_every : ℕ → ℕ → ℕ → Option Task → Bool → Loop Task → Loop Task × ℕ
  unfolding has_timer
  schedule_every now initial_delay_ns interval_ns none memory l = (l, 0)
  schedule_every now initial_delay_ns interval_ns (some task) memory l =
      let id = l.next_timer_id in
      let timer : Timer Task = record {
        id = id;
        deadline_ns = saturating_add now initial_delay_ns;
        interval_ns = interval_ns;
        task = task;
      } in
      let counted = record l { next_timer_id = u64 (id + 1) } in
      if not l.valid
      then (l, 0)
      else if not memory
      then (counted, 0)
      else if has_timer id l.timers
      then (counted, id)
      else (record counted { timers = timer ∷ l.timers }, id)

  pub erase_timer : ℕ → List (Timer Task) → List (Timer Task)
  erase_timer id [] = []
  erase_timer id (t ∷ ts) = let rest = erase_timer id ts in if t.id == id then rest else t ∷ rest

  pub cancel : ℕ → Loop Task → Loop Task × Bool
  unfolding has_timer erase_timer
  cancel id l =
      if id == 0
      then (l, false)
      else (record l { timers = erase_timer id l.timers }, has_timer id l.timers)

  pub quit : Loop Task → Loop Task
  quit l = record l { quitting = true }

  -- The loop of runDueTimers under the lock: the timers that stay, and the ids and tasks that are ready.
  pub collect_due : ℕ → List (Timer Task) → List (Timer Task) × List (ℕ × Task)
  collect_due now [] = ([], [])
  collect_due now (t ∷ ts) =
      let (kept, ready) = collect_due now ts in
      if ltb now t.deadline_ns
      then (t ∷ kept, ready)
      else if t.interval_ns == 0
      then (kept, (t.id, t.task) ∷ ready)
      else (
        record t { deadline_ns = saturating_add now t.interval_ns } ∷ kept,
        (t.id, t.task) ∷ ready,
      )

  pub earliest : ℕ → List (Timer Task) → ℕ
  earliest e [] = e
  earliest e (t ∷ ts) = earliest (min e t.deadline_ns) ts

  abbrev pub no_tasks : List Task → Bool
  no_tasks [] = true
  no_tasks (t ∷ ts) = false

  -- The milliseconds of epoll_wait.
  pub wait_timeout_ms : ℕ → Loop Task → ℤ
  unfolding earliest
  wait_timeout_ms now l =
      let first = earliest 18446744073709551615 l.timers in
      let rounded_ms = u64 (first - now + 999999) / 1000000 in
      if not (no_tasks l.tasks) then pos 0 else elim (l.timers) [
        | [] ↦ negsuc 0
        | t ∷ ts ↦ if leb first now then pos 0 else pos (min rounded_ms 2147483647)
      ]

  pub find_callback : ℕ → List (ℕ × Task) → Option Task
  find_callback fd [] = none
  find_callback fd ((n, c) ∷ w) = if n == fd then some c else find_callback fd w

  pub erase_callback : ℕ → List (ℕ × Task) → List (ℕ × Task)
  erase_callback fd [] = []
  erase_callback fd ((n, c) ∷ w) =
      let rest = erase_callback fd w in if n == fd then rest else (n, c) ∷ rest

  -- watchFd, with the answer of epoll_ctl; `none` is a descriptor below 0.
  pub watch_fd : Option ℕ → Option Task → Bool → Loop Task → Loop Task × Bool
  unfolding erase_callback
  watch_fd none callback added l = (l, false)
  watch_fd (some fd) none added l = (l, false)
  watch_fd (some fd) (some callback) added l =
      if not l.valid || fd == l.wake_fd || not added
      then (l, false)
      else (record l { watched = (fd, callback) ∷ erase_callback fd l.watched }, true)

  pub unwatch_fd : Option ℕ → Loop Task → Loop Task
  unfolding erase_callback
  unwatch_fd none l = l
  unwatch_fd (some fd) l = if l.valid then record l { watched = erase_callback fd l.watched } else l

  module _ (perform : Task → Loop Task → Loop Task) where
    pub perform_all : List Task → Loop Task → Loop Task
    perform_all [] l = l
    perform_all (t ∷ ts) l = perform_all ts (perform t l)

    -- runTasks: what is posted meanwhile waits for the next time.
    pub run_tasks : Loop Task → Loop Task
    unfolding perform_all
    run_tasks l = perform_all l.tasks (record l { tasks = [] })

    pub perform_ready : List (ℕ × Task) → Loop Task → Loop Task
    perform_ready [] l = l
    perform_ready ((id, t) ∷ ts) l = perform_ready ts (perform t l)

    pub run_due_timers : ℕ → Loop Task → Loop Task
    unfolding perform_ready collect_due
    run_due_timers now l =
        let (kept, ready) = collect_due now l.timers in
        perform_ready ready (record l { timers = kept })

    -- The loop of run over the events of one wait: `none` is the wake descriptor's.
    pub dispatch : List (Option ℕ) → Loop Task → Loop Task
    unfolding find_callback erase_callback
    dispatch [] l = l
    dispatch (none ∷ es) l = dispatch es l
    dispatch (some fd ∷ es) l =
        let found = find_callback fd l.watched in
        let unwatched = record l { watched = erase_callback fd l.watched } in
        dispatch es (elim found [ none ↦ l | some c ↦ perform c unwatched ])

    -- One turn of run: the time at which the timers are looked at, and what epoll_wait gives, `none` for an error
    -- that is not an interruption, which is an empty list. The result says whether the loop goes on.
    pub turn : ℕ → Option (List (Option ℕ)) → Loop Task → Loop Task × Bool
    unfolding run_tasks run_due_timers dispatch
    turn now answer l =
        let l' = run_due_timers now (run_tasks l) in
        if l'.quitting
        then (l', false)
        else elim answer [ none ↦ (l', false) | some es ↦ (dispatch es l', true) ]

    -- run, over the answers of epoll_wait, as far as they go; the tasks that are left run at its end.
    pub run : List (ℕ × Option (List (Option ℕ))) → Loop Task → Loop Task
    unfolding turn run_tasks
    run [] l = if l.valid && l.quitting then run_tasks l else l
    run ((now, answer) ∷ ws) l =
        let (l', goes_on) = turn now answer l in
        let rest = run ws l' in
        let stopped = run_tasks l' in
        if not l.valid
        then l
        else if l.quitting
        then run_tasks l
        else if goes_on
        then rest
        else stopped
