-- ===== src/Sync/Join/Tests.antt =====
-- A run in which thread 1 creates thread 2 and joins it, for src/pthread.c.
use neoos_libneoos.Base.{ℕ, ◌≡◌, refl, true, some, ℕ_discrete}
use neoos_libneoos.Base.Census.{put}
use neoos_libneoos.Sync.Join.{
  ThreadSlot, foreign, bound, routine, creating, fetching, returned, recorded, leaving, Pc,
  entering, tagged, active, ended, reaped, fresh_slot, first_slot, slot_for_tid, collected, System,
  init,
}

abbrev go : System → ℕ → (ℕ → ThreadSlot) → Pc → System
go s j t p = record { slots = t; pc = put s.pc j p }

-- ThreadSlot 0 as it stands in turn: claimed, with the tid, with the value 9, and finished.
abbrev with_slot : ThreadSlot → ℕ → ThreadSlot
with_slot x = put init.slots 0 x

abbrev claimed : System
claimed = go init 1 (with_slot (fresh_slot 7)) (active foreign (creating 7 0))

abbrev created : System
created = record {
  slots = claimed.slots;
  pc = put (put claimed.pc 1 (active foreign routine)) 2 (entering 7 0);
}

abbrev slots₁ : ℕ → ThreadSlot
slots₁ = put created.slots 0 (record (created.slots 0) { tid = 2 })

abbrev begun : System
begun = go (go created 2 slots₁ (tagged 7 0)) 2 slots₁ (active (bound 0) routine)

abbrev slots₂ : ℕ → ThreadSlot
slots₂ = put slots₁ 0 (record (slots₁ 0) { retval = 9 })

abbrev kept : System
kept =
    go (go begun 2 slots₁ (active (bound 0) (returned 9))) 2 slots₂ (active (bound 0) (recorded 9))

abbrev slots₃ : ℕ → ThreadSlot
slots₃ = put slots₂ 0 (record (slots₂ 0) { finished = true })

abbrev over : System
over = go (go kept 2 slots₃ (active (bound 0) (leaving 9))) 2 slots₃ (ended (bound 0) 9)

abbrev joined : System
joined = record {
  slots = slots₃;
  pc = put (put over.pc 2 (reaped (bound 0) 9 (some 1))) 1 (active foreign (fetching 2));
}

-- Thread 1 gets the 9.
gets_9 : (collected 2 joined.slots).0 ≡ 9
unfolding ℕ_discrete collected slot_for_tid first_slot
gets_9 = refl
