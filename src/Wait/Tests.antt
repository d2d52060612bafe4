-- ===== src/Wait/Tests.antt =====
-- Sleeping and waking at small examples.
use tapip.Base.{◌≡◌, refl, true, false, arith}
use tapip.Wait.{
  wait_init, wake_up, wait_exit, outside, sleep_end, sleep_on, System, start_system, run_thread,
  call_wait_exit, Step, sleeps, exits, Reach, start, later,
}
use tapip.Wait.Wakeup.{no_lost_wakeup, StaysDead, wait_exit_final}

abbrev asleep : System
asleep = run_thread start_system 0 (sleep_on wait_init)

asleep-Reach : Reach 1 asleep
asleep-Reach = later start (sleeps 0 true (omega arith) refl)

-- a wake-up in front of sleep_on
early : (sleep_on (wake_up wait_init).0).1 ≡ outside true
unfolding sleep_on wake_up wait_init
early = refl

no_lost_wakeup_example :
    (asleep.called ≡ false) × (asleep.wait.notified ≡ false) × (asleep.wait.dead ≡ false)
unfolding sleep_on wait_init
no_lost_wakeup_example = no_lost_wakeup asleep-Reach 0 refl

wait_exit_final_example :
    StaysDead
      (call_wait_exit asleep)
      (run_thread (call_wait_exit asleep) 0 (sleep_end (call_wait_exit asleep).wait))
unfolding sleep_on wait_init wait_exit
wait_exit_final_example =
    wait_exit_final (later asleep-Reach exits) refl (Step.resumes 0 (omega arith) refl)
