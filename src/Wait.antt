-- ===== src/Wait.antt =====
-- include/wait.h: the structure that calls sleep on, and the threads that sleep and wake.
-- The mutex makes each part between two waits on the condition one step. What POSIX says of the
-- condition: a signal lets one blocked thread go on if there is one, a broadcast lets all go on, and
-- a blocked thread may go on without either.

mod Tests
pub mod Wakeup
use tapip.Base.{ℕ, ◌<◌, ◌≡◌, ◌≢◌, Bool, true, false, ◌==◌, if◌then◌else◌}

-- struct tapip_wait
pub record Wait : Type 0 where
  pub notified : Bool
  pub dead : Bool
  pub sleep : Bool

unfoldable pub wait_init : Wait
wait_init = record { notified = false; dead = false; sleep = false }

-- wake_up, and whether it signals the condition. Its result is -1 when the structure is dead.
unfoldable pub wake_up : Wait → Wait × Bool
wake_up w =
    if w.dead
    then (w, false)
    else if w.notified
    then (w, false)
    else (record w { notified = true }, w.sleep)

-- wait_exit, and whether it broadcasts
unfoldable pub wait_exit : Wait → Wait × Bool
wait_exit w = if w.dead then (w, false) else (record w { dead = true }, w.sleep)

-- Where a thread stands: outside, with the result 0 of its last sleep_on as `true` and -1 as
-- `false`; in pthread_cond_wait; or let go by the condition and about to run on.
pub data Thread : Type 0 where
  outside : Bool → Thread
  blocked : Thread
  released : Thread

-- sleep_on behind pthread_cond_wait
unfoldable pub sleep_end : Wait → Wait × Thread
sleep_end w =
    (record w { notified = false; sleep = false }, outside (if w.dead then false else true))

-- sleep_on up to pthread_cond_wait, or to its end
unfoldable pub sleep_on : Wait → Wait × Thread
unfolding sleep_end
sleep_on w =
    if w.dead
    then (w, outside false)
    else if w.notified
    then sleep_end (record w { sleep = true })
    else (record w { sleep = true }, blocked)

-- One wait structure and the threads that may sleep on it. `called` records, beside what the code
-- keeps, whether wake_up has been called since a sleep_on last returned, or since the start.
pub record System : Type 0 where
  pub wait : Wait
  pub threads : ℕ → Thread
  pub called : Bool

abbrev pub put_thread : (ℕ → Thread) → ℕ → Thread → ℕ → Thread
put_thread f i t j = if j == i then t else f j

abbrev pub let_go : Thread → Thread
let_go blocked = released
let_go (outside b) = outside b
let_go released = released

-- a return of sleep_on forgets the calls of wake_up before it
abbrev pub forget : Thread → Bool → Bool
forget (outside r) b = false
forget blocked b = b
forget released b = b

-- a thread runs a part of sleep_on
abbrev pub run_thread : System → ℕ → Wait × Thread → System
run_thread s i (w, t) = record {
  wait = w;
  threads = put_thread s.threads i t;
  called = forget t s.called;
}

-- A thread calls wake_up; `k` is the thread that a signal lets go.
abbrev pub call_wake_up : System → ℕ → System
call_wake_up s k = record {
  wait = (wake_up s.wait).0;
  threads = if (wake_up s.wait).1 then put_thread s.threads k (let_go (s.threads k)) else s.threads;
  called = true;
}

abbrev pub call_wait_exit : System → System
call_wait_exit s = record {
  wait = (wait_exit s.wait).0;
  threads = if (wait_exit s.wait).1 then (λ j. let_go (s.threads j)) else s.threads;
  called = s.called;
}

-- The threads below n sleep; any thread may call wake_up and wait_exit, at any time.
pub data Step (n : ℕ) (s : System) : System → Type 0 where
  sleeps :
      (i : ℕ) (b : Bool)
      → i < n
      → s.threads i ≡ outside b
      → Step n s (run_thread s i (sleep_on s.wait))
  resumes : (i : ℕ) → i < n → s.threads i ≡ released → Step n s (run_thread s i (sleep_end s.wait))
  spurious : (i : ℕ) → i < n → s.threads i ≡ blocked → Step n s (run_thread s i (sleep_end s.wait))
  signals : (k : ℕ) → k < n → s.threads k ≡ blocked → Step n s (call_wake_up s k)
  wakes_nobody : (k : ℕ) → ((j : ℕ) → s.threads j ≢ blocked) → Step n s (call_wake_up s k)
  exits : Step n s (call_wait_exit s)

abbrev pub start_system : System
start_system = record { wait = wait_init; threads = λ j. outside true; called = false }

pub data Reach (n : ℕ) : System → Type 0 where
  start : Reach n start_system
  later : {s t : System} → Reach n s → Step n s t → Reach n t
