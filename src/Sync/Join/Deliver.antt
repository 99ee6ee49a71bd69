-- ===== src/Sync/Join/Deliver.antt =====
-- The invariant of src/pthread.c holds in each state that is reached, and `pthread_join` delivers the
-- value.
use neoos_libneoos.Base.{ℕ, ◌<◌, false}
use neoos_libneoos.Base.Census.{put}
use neoos_libneoos.Sync.Join.{ThreadSlot, Own, Pc}
use neoos_libneoos.Sync.Join.Right.{Right, Marks, Inv}
use neoos_libneoos.Sync.Join.Effect.{Effect}

-- The slot goes from thread `i`, which has claimed it, to the new thread `j`.
module _ {n : ℕ} {slots : ℕ → ThreadSlot} {pc : ℕ → Pc} (inv : Inv n slots pc) (i j : ℕ) (o : Own)
    (f k : ℕ) (li : i < n) (lj : j < n) where
  abbrev dropped : ℕ → ThreadSlot
  dropped = put slots k (record (slots k) { in_use = false })
