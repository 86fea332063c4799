-- ===== src/Lunix/Tests/Sharing.antt =====
-- Readers that share an open file of a character device (Lunix_Device_Driver/lunix-chrdev.c), at
-- concrete inputs.
use operating_systems_lab_nt.Prelude.{
  ℕ, ◌+◌, ◌≤◌, ◌≡◌, ◌≢◌, refl, true, false, [], ◌∷◌, some, arith, get_elem?,
}
use operating_systems_lab_nt.Lunix.Chrdev.{
  ChrdevState, state_update, failed, faulted, erestartsys, chrdev_read, after_down,
}
use operating_systems_lab_nt.Lunix.Chrdev.Format.{text, digits}
use operating_systems_lab_nt.Lunix.Chrdev.Shared.{
  Pc, outside, wanting, checking, asleep, leaving, returned, call, again, enter, rest, signalled,
  leave, OpenFile, moves, Reach, here, next, opened_by, holds, holders,
}
use operating_systems_lab_nt.Lunix.Chrdev.Shared.Alone.{alone, pc_of, chrdev_read-Reach}
use operating_systems_lab_nt.Lunix.Chrdev.Shared.Exclusion.{Reach-lock, Reach-exclusive_readers}
use operating_systems_lab_nt.Lunix.Chrdev.Shared.Progress.{blocked-enters, behind}
use operating_systems_lab_nt.Lunix.Kernel.{ok}
use operating_systems_lab_nt.Lunix.Tests.{ready, ready-IsReady}
use operating_systems_lab_nt.Lunix.Tests.Readers.{plainly, node, calm}

abbrev held : ChrdevState
held = after_down ok node

abbrev given_twice : ChrdevState
given_twice = record node { lock = 2 }

abbrev two : ChrdevState → Pc → Pc → OpenFile
two st p q = record { state = st; readers = p ∷ q ∷ [] }

abbrev stopped : Pc
stopped = returned (failed erestartsys) 0

first_waits : Reach plainly (opened_by 2 node) (two node (wanting 0 4) outside) 0
first_waits = next here (moves 0 refl (call 0 4))

first_in : Reach plainly (opened_by 2 node) (two held (checking 0 4) outside) 0
first_in = next first_waits (moves 0 refl (enter (omega arith)))

second_waits : Reach plainly (opened_by 2 node) (two held (checking 0 4) (wanting 0 8)) 0
second_waits = next first_in (moves 1 refl (call 0 8))

stale : state_update plainly held ready ready ≡ some (false, held)
unfolding state_update
stale = refl

first_asleep : Reach plainly (opened_by 2 node) (two node (asleep 4) outside) 0
first_asleep = next first_in (moves 0 refl (rest ready ready held stale))

first_signalled : Reach plainly (opened_by 2 node) (two node (leaving 0) outside) 1
first_signalled = next first_asleep (moves 0 refl signalled)

first_out : Reach plainly (opened_by 2 node) (two given_twice stopped outside) 1
first_out = next first_signalled (moves 0 refl leave)

both_wait : Reach plainly (opened_by 2 node) (two given_twice (wanting 0 4) (wanting 0 8)) 1
both_wait = next (next first_out (moves 0 refl (again 0 4))) (moves 1 refl (call 0 8))

one_in : Reach plainly (opened_by 2 node) (two node (checking 0 4) (wanting 0 8)) 1
one_in = next both_wait (moves 0 refl (enter (omega arith)))

-- After one signal both readers are behind the semaphore.
both_in : Reach plainly (opened_by 2 node) (two held (checking 0 4) (checking 0 8)) 1
both_in = next one_in (moves 1 refl (enter (omega arith)))

Reach-lock_example : 0 + holders (checking 0 4 ∷ checking 0 8 ∷ []) ≡ 1 + 1
Reach-lock_example = Reach-lock plainly 2 refl both_in

Reach-exclusive_readers_example : holds (checking 0 4) + holds (wanting 0 8) ≤ 1
Reach-exclusive_readers_example =
    Reach-exclusive_readers plainly 2 0 1 (checking 0 4) (wanting 0 8) refl second_waits
      (omega arith) refl refl

blocked-enters_example :
    (q : OpenFile) × Reach plainly (two held (checking 0 4) (wanting 0 8)) q 0
    × (get_elem? q.readers 1 ≡ some (behind (wanting 0 8)))
blocked-enters_example =
    blocked-enters plainly 2 ready 1 (wanting 0 8) ready-IsReady refl refl second_waits refl tt

works : (chrdev_read plainly ok true node ready ready (calm ∷ []) 0 4).0 ≢ faulted
unfolding chrdev_read text digits
works e = cc

chrdev_read-Reach_example :
    let (r, st', f_pos') = chrdev_read plainly ok true node ready ready (calm ∷ []) 0 4 in
    (k : ℕ) × Reach plainly (alone node (wanting 0 4)) (alone st' (pc_of r f_pos' 4)) k
chrdev_read-Reach_example =
    chrdev_read-Reach plainly ok true node ready ready (calm ∷ []) 0 4 (omega arith) works
