-- ===== src/Wait/Wakeup.antt =====
-- include/wait.h: no wake-up is lost while one thread sleeps.
use tapip.Base.{ℕ, zero, suc, ◌<◌, ◌≤◌, ◌≡◌, ◌≢◌, refl, true, false, arith}
use tapip.Wait.{
  wait_init, wake_up, wait_exit, outside, blocked, sleep_end, sleep_on, System, Step, sleeps,
  resumes, spurious, signals, wakes_nobody, exits, Reach, start, later, start_system,
}

-- A call of wake_up that no sleep_on has seen is in the flag, or the structure is dead. The first
-- thread is blocked only while nobody has woken it and the structure lives, and then the flag says that
-- one sleeps. Nobody else sleeps.
pub record IsQuiet (s : System) : Type 0 where
  pub kept : s.called ≡ true → s.wait.dead ≡ false → s.wait.notified ≡ true
  pub pending : s.threads 0 ≡ blocked → s.wait.notified ≡ false
  pub alive : s.threads 0 ≡ blocked → s.wait.dead ≡ false
  pub flagged : s.threads 0 ≡ blocked → s.wait.sleep ≡ true
  pub others : (j : ℕ) → 0 < j → s.threads j ≢ blocked

Step-IsQuiet : {s t : System} → Step 1 s t → IsQuiet s → IsQuiet t
unfolding sleep_on sleep_end wake_up wait_exit
Step-IsQuiet (sleeps i b h e) q = record {
  kept = λ c d. ground arith;
  pending = λ p. ground arith;
  alive = λ p. ground arith;
  flagged = λ p. ground arith;
  others = λ j l p. ground (arith, q.others j l);
}
Step-IsQuiet (resumes i h e) q = record {
  kept = λ c d. ground arith;
  pending = λ p. ground arith;
  alive = λ p. ground arith;
  flagged = λ p. ground arith;
  others = λ j l p. ground (arith, q.others j l);
}
Step-IsQuiet (spurious i h e) q = record {
  kept = λ c d. ground arith;
  pending = λ p. ground arith;
  alive = λ p. ground arith;
  flagged = λ p. ground arith;
  others = λ j l p. ground (arith, q.others j l);
}
Step-IsQuiet (signals k h e) q = record {
  kept = λ c d. ground arith;
  pending = λ p. ground arith;
  alive = λ p. ground arith;
  flagged = λ p. ground arith;
  others = λ j l p. ground (arith, q.others j l);
}
Step-IsQuiet (wakes_nobody k h) q = record {
  kept = λ c d. ground arith;
  pending = λ p. ground (arith, h 0);
  alive = λ p. ground (arith, h 0);
  flagged = λ p. ground (arith, h 0);
  others = λ j l p. ground (arith, q.others j l, h j);
}
Step-IsQuiet exits q = record {
  kept = λ c d. ground arith;
  pending = λ p. ground arith;
  alive = λ p. ground arith;
  flagged = λ p. ground arith;
  others = λ j l p. ground (arith, q.others j l);
}

start-IsQuiet : IsQuiet start_system
start-IsQuiet = record {
  kept = λ c d. cc;
  pending = λ p. cc;
  alive = λ p. cc;
  flagged = λ p. cc;
  others = λ j l p. cc;
}

Reach-IsQuiet : {s : System} → Reach 1 s → IsQuiet s
Reach-IsQuiet start = start-IsQuiet
Reach-IsQuiet (later r st) = Step-IsQuiet st (Reach-IsQuiet r)

-- While one thread sleeps and any threads wake it, in any order: whenever a thread is blocked in
-- sleep_on, nobody has called wake_up since a sleep_on last returned (or since the start), neither
-- before this sleep_on nor in it, and wait_exit has not been called.
pub no_lost_wakeup :
    {s : System}
    → Reach 1 s
    → (j : ℕ) → s.threads j ≡ blocked
    → (s.called ≡ false) × (s.wait.notified ≡ false) × (s.wait.dead ≡ false)
no_lost_wakeup {s} r zero e =
    let q = Reach-IsQuiet r in
    (ground (arith, q.kept, q.pending e, q.alive e), q.pending e, q.alive e)
no_lost_wakeup r (suc j) e = absurd ((Reach-IsQuiet r).others (suc j) (omega arith) e)

-- what a step leaves of a structure that is dead
pub record StaysDead (s t : System) : Type 0 where
  pub dead : t.wait.dead ≡ true
  pub unblocked : (j : ℕ) → t.threads j ≢ blocked
  pub refused : (j : ℕ) → t.threads j ≡ outside true → s.threads j ≡ outside true

Step-StaysDead :
    {n : ℕ} {s t : System}
    → Step n s t
    → s.wait.dead ≡ true
    → ((j : ℕ) → s.threads j ≢ blocked)
    → StaysDead s t
unfolding sleep_on sleep_end wake_up wait_exit
Step-StaysDead (sleeps i b h e) d q = record {
  dead = ground arith;
  unblocked = λ j p. ground (arith, q j);
  refused = λ j p. ground (arith, q j);
}
Step-StaysDead (resumes i h e) d q = record {
  dead = ground arith;
  unblocked = λ j p. ground (arith, q j);
  refused = λ j p. ground (arith, q j);
}
Step-StaysDead (spurious i h e) d q = absurd (q i e)
Step-StaysDead (signals k h e) d q = absurd (q k e)
Step-StaysDead (wakes_nobody k h) d q = record {
  dead = ground arith;
  unblocked = λ j p. ground (arith, q j);
  refused = λ j p. ground (arith, q j);
}
Step-StaysDead exits d q = record {
  dead = ground arith;
  unblocked = λ j p. ground (arith, q j);
  refused = λ j p. ground (arith, q j);
}

-- Once wait_exit has been called, with one thread that sleeps: whatever happens next, the structure
-- stays dead, nobody is blocked, and no sleep_on that ends then returns 0.
pub wait_exit_final : {s t : System} → Reach 1 s → s.wait.dead ≡ true → Step 1 s t → StaysDead s t
wait_exit_final r d st = Step-StaysDead st d (λ j p. cc (d, (no_lost_wakeup r j p).2))

-- With two threads or more that sleep, wait_exit can leave one of them blocked: the first that goes on
-- clears the flag which tells wait_exit that somebody sleeps.
wait_exit_lost :
    (n : ℕ) → 2 ≤ n → (s : System) × Reach n s × (s.wait.dead ≡ true) × (s.threads 1 ≡ blocked)
unfolding sleep_on sleep_end wake_up wait_exit wait_init
wait_exit_lost n h =
    let both : Reach n _ =
      later (later start (sleeps 0 true (omega arith) refl)) (sleeps 1 true (omega arith) refl) in
    (
      _,
      later (later (later both (signals 0 (omega arith) refl)) (resumes 0 (omega arith) refl))
          exits,
      refl,
      refl,
    )
