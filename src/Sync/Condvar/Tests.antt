-- ===== src/Sync/Condvar/Tests.antt =====
-- Thread 1 broadcasts, and then thread 0 waits, for src/pthread.c.
use neoos_libneoos.Base.{ℕ, ◌≤◌, refl, arith, true, false, some, ℕ_discrete}
use neoos_libneoos.Base.Census.{put}
use neoos_libneoos.Sync.Condvar.{
  Pc, outside, holding, loaded, released, asleep, signalling, Cond, bump, free, Move, System, wake,
  move, wake_all, init, Reach, start, later,
}
use neoos_libneoos.Sync.Condvar.Safety.{no_lost_broadcast}

abbrev go : System → ℕ → Cond → Pc → System
go s i c p = record { cond = c; pc = put s.pc i p }

abbrev rung : Cond
rung = bump init.cond

abbrev quiet : Cond
quiet = record rung { served = 1 }

abbrev over : System
over = record {
  cond = quiet;
  pc = put (λ j. wake (put init.pc 1 (signalling false true 1) j)) 1 outside;
}

over-Reach : Reach 2 over
unfolding ℕ_discrete
over-Reach =
    later (later start (move 1 (omega arith) (Move.signal_outside true)))
      (wake_all 1 (omega arith) (omega arith) refl)

-- Thread 0 gives the mutex up after one addition.
abbrev let_go : Cond
let_go = free 0 (record quiet { owner = some 0 })

abbrev sleeping : System
sleeping =
    go
      (go
        (go (go over 0 (record quiet { owner = some 0 }) holding) 0
          (record quiet { owner = some 0 }) (loaded false 1 1))
        0 let_go (released false 1 1))
      0 let_go (asleep false 1 1)

sleeping-Reach : Reach 2 sleeping
unfolding ℕ_discrete
sleeping-Reach =
    later
      (later
        (later (later over-Reach (move 0 (omega arith) (Move.lock refl)))
          (move 0 (omega arith) (Move.load false)))
        (move 0 (omega arith) Move.release))
      (move 0 (omega arith) (Move.sleep refl))

no_lost_broadcast_example : (1 ≤ 1) × (1 ≤ let_go.freed 0)
unfolding ℕ_discrete
no_lost_broadcast_example =
    no_lost_broadcast sleeping-Reach (omega arith) 0 false 1 1 (omega arith) refl
