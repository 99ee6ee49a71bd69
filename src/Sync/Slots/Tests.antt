-- ===== src/Sync/Slots/Tests.antt =====
-- A run in which thread 0 starts thread 1, for src/thread.c.
use neoos_libneoos.Base.{ℕ, ◌≡◌, refl, arith, true, false, ℕ_discrete}
use neoos_libneoos.Base.Census.{put}
use neoos_libneoos.Sync.Slots.{
  Pc, outside, scanning, claimed, written, starting, leaving, released, running, Table, Move,
  System, move, create, init, Reach, start, later,
}
use neoos_libneoos.Sync.Slots.Safety.{owns, slots_exclusive, runs_what_was_passed}

abbrev go : System → ℕ → Table → Pc → System
go s i t p = record { table = t; pc = put s.pc i p }

-- Thread 0 has claimed slot 0 and written 7 into it.
abbrev table : Table
table = record { in_use = put (λ _. false) 0 true; entry = put (λ _. 0) 0 7 }

abbrev ready : System
ready =
    go
      (go (go init 0 init.table (scanning 7 0)) 0
        (record init.table { in_use = put (λ _. false) 0 true }) (claimed 7 0))
      0 table (written 7 0)

ready-Reach : Reach 2 ready
unfolding ℕ_discrete
ready-Reach =
    later
      (later (later start (move 0 (omega arith) (Move.call 7)))
        (move 0 (omega arith) (Move.win refl)))
      (move 0 (omega arith) Move.write)

-- Thread 1 has read the slot, released it, and set up its storage.
abbrev free : Table
free = record table { in_use = put table.in_use 0 false }

abbrev done : System
done =
    go
      (go (go (go (go ready 0 table outside) 1 table (starting 7 0)) 1 table (leaving 7 7 0)) 1 free
        (released 7 7))
      1 free (running 7 7)

done-Reach : Reach 2 done
unfolding ℕ_discrete
done-Reach =
    later
      (later
        (later (later ready-Reach (create 0 1 (omega arith) (omega arith) refl refl))
          (move 1 (omega arith) Move.read))
        (move 1 (omega arith) Move.release))
      (move 1 (omega arith) Move.set_up)

slots_exclusive_example : owns 0 (ready.pc 1) ≡ 0
unfolding ℕ_discrete
slots_exclusive_example =
    slots_exclusive ready-Reach 0 1 0 (omega arith) (omega arith) (omega arith) refl

runs_what_was_passed_example : ◌≡◌ {A = ℕ} 7 7
unfolding ℕ_discrete
runs_what_was_passed_example = runs_what_was_passed done-Reach 1 7 7 (omega arith) refl
