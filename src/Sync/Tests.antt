-- ===== src/Sync/Tests.antt =====
-- Runs of two threads on a mutex and on a semaphore of src/pthread.c and src/semaphore.c.
use neoos_libneoos.Base.{ℕ, ◌+◌, ◌≤◌, ◌<◌, ◌≡◌, ◌≢◌, refl, false, arith, ℕ_discrete, [], ◌∷◌}
use neoos_libneoos.Base.Int.{pos}
use neoos_libneoos.Base.Census.{put, census}
use neoos_libneoos.Sync.Mutex
use neoos_libneoos.Sync.Mutex.Safety.{holds, Rescuer, mutual_exclusion, no_lost_wakeup}
use neoos_libneoos.Sync.Semaphore
use neoos_libneoos.Sync.Semaphore.Safety.{
  total, acquires, posts, adds, pursues, units_conserved, post_reaches_sleeper,
}

-- Thread 0 locks; thread 1 finds the mutex taken, marks it and sleeps.
abbrev mutex_state : Mutex.System
mutex_state = record {
  word = 2;
  pc =
      put (put (put (put (λ _. Mutex.outside) 0 Mutex.holding) 1 Mutex.swapping) 1 Mutex.waiting) 1
        Mutex.asleep;
}

mutex_state-Reach : Mutex.Reach 2 mutex_state
unfolding ℕ_discrete
mutex_state-Reach =
    Mutex.later
      (Mutex.later
        (Mutex.later
          (Mutex.later Mutex.start (Mutex.move 0 (omega arith) (Mutex.Move.lock_free refl)))
          (Mutex.move 1 (omega arith) (Mutex.Move.lock_taken (omega arith) (omega arith))))
        (Mutex.move 1 (omega arith) (Mutex.Move.swap_taken (omega arith))))
      (Mutex.move 1 (omega arith) (Mutex.Move.sleep refl))

mutual_exclusion_example : (holds (mutex_state.pc 1) ≡ 0) × (mutex_state.word ≢ 0)
unfolding ℕ_discrete
mutual_exclusion_example =
    mutual_exclusion mutex_state-Reach 0 1 (omega arith) (omega arith) (omega arith) refl

no_lost_wakeup_example : (i : ℕ) × (i < 2) × Rescuer mutex_state.word (mutex_state.pc i)
unfolding ℕ_discrete
no_lost_wakeup_example = no_lost_wakeup mutex_state-Reach 1 (omega arith) refl

-- Thread 1 sleeps on a count of zero, and thread 0 posts.
abbrev sem_state : Semaphore.System
sem_state = record {
  count = record { value = 1 };
  pc =
      put
        (put
          (put (put (λ _. Semaphore.outside) 1 (Semaphore.looking false)) 1
            (Semaphore.loaded false 0))
          1 (Semaphore.asleep false))
        0 Semaphore.posting;
  log = [];
}

sem_state-Reach : Semaphore.Reach 2 0 sem_state
unfolding ℕ_discrete
sem_state-Reach =
    Semaphore.later
      (Semaphore.later
        (Semaphore.later
          (Semaphore.later (Semaphore.start (omega arith))
            (Semaphore.move 1 (omega arith) (Semaphore.Move.call_wait false)))
          (Semaphore.move 1 (omega arith) Semaphore.Move.load))
        (Semaphore.move 1 (omega arith) (Semaphore.Move.sleep refl refl)))
      (Semaphore.move 0 (omega arith) (Semaphore.Move.post (omega arith)))

-- Then thread 0 takes the unit with `sem_trywait`, after its post has found a sleeper.
abbrev sem_taken : Semaphore.System
sem_taken = record {
  count = record { value = 0 };
  pc =
      put
        (put (put (put sem_state.pc 0 Semaphore.outside) 1 (Semaphore.looking false)) 0
          (Semaphore.trying 1))
        0 Semaphore.outside;
  log =
      Semaphore.returned Semaphore.trywait (pos 0)
      ∷ Semaphore.returned Semaphore.sem_post (pos 0)
      ∷ [];
}

sem_taken-Reach : Semaphore.Reach 2 0 sem_taken
unfolding ℕ_discrete
sem_taken-Reach =
    Semaphore.later
      (Semaphore.later
        (Semaphore.later sem_state-Reach
          (Semaphore.wake_one 0 1 (omega arith) (omega arith) refl refl))
        (Semaphore.move 0 (omega arith) Semaphore.Move.try_load))
      (Semaphore.move 0 (omega arith) (Semaphore.Move.try_take (omega arith) refl))

units_conserved_example :
    sem_taken.count.value + total acquires sem_taken.log
    ≡ 0 + total posts sem_taken.log + census adds 2 sem_taken.pc
units_conserved_example = units_conserved sem_taken-Reach

post_reaches_sleeper_example :
    (sem_state.count.value ≤ census pursues 2 sem_state.pc)
    × (0 < sem_state.count.value → (i : ℕ) × (i < 2) × (pursues (sem_state.pc i) ≡ 1))
unfolding ℕ_discrete
post_reaches_sleeper_example = post_reaches_sleeper sem_state-Reach 1 false (omega arith) refl
