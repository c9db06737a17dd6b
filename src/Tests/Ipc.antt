-- ===== src/Tests/Ipc.antt =====
-- Semaphores and shared memory in the small kernel.
use atomicles.Base.{ℕ, ◌+◌, ◌≤◌, ◌≡◌, refl, true, false, some, none, arith, [], ◌∷◌}
use atomicles.Base.Int.{pos, minus_one}
use atomicles.Sys.Run.{Returns, returns, ◌>>◌}
use atomicles.Sys.View.{put_words, attach_at}
use atomicles.Sys.Laws.{Answers, Leaves}
use atomicles.Sys.Sim.{sim, key_of, later}
use atomicles.Sys.Sim.Lawful.{sim-Laws}
use atomicles.Semaphore as Sem
use atomicles.Semaphore.{lock_op}
use atomicles.Semaphore.Life.{object, Created, new-add_set, new-oversized}
use atomicles.Semaphore.Locking.{unlock-lock}
use atomicles.Semaphore.Race.{IsFree, in_turn, looks_first, unlock_race}
use atomicles.Semaphore.Timed.{lock-timeout}
use atomicles.SharedMemory as Shm
use atomicles.SharedMemory.{guard_key}
use atomicles.SharedMemory.Access.{read_uint-write_uint}
use atomicles.SharedMemory.Reopen.{new-reopen}
use atomicles.SharedMemory.Life.{
  mapped, with_segment, without_segment, new-with_segment, delete-without_segment,
}
use atomicles.Lock.Counter.{user_set, settings, mutex}
use atomicles.Tests.Worlds.{
  empty, in_use, busy, busy_set, pair, pair_object, set_id, segment_id, guard_id, address,
}

unlock-lock_example : Returns (Answers (λ w. w.v) in_use (pos 0)) (
    (Sem.lock ⦃k = sim⦄ pair_object 0 true minus_one >> Sem.unlock ⦃k = sim⦄ pair_object 0 true)
      in_use)
unfolding sim-Laws key_of
unlock-lock_example =
    unlock-lock ⦃k = sim⦄ sim-Laws {this = pair_object} {i = 0} {w = in_use} {s = user_set pair}
      {v = 0} true minus_one tt (record { exists = refl; value = refl }) (omega arith) (omega arith)

lock-timeout_example :
    Returns
      (λ e w'. (e ≡ pos 1) × (w'.v.sems set_id ≡ some busy_set) × (busy.v.clock + 3 ≤ w'.v.clock))
      (Sem.lock ⦃k = sim⦄ pair_object 0 true (pos 3) busy)
unfolding sim-Laws key_of
lock-timeout_example =
    lock-timeout ⦃k = sim⦄ sim-Laws pair_object 0 true busy_set 2 busy
      (λ w h. returns {w = later w 1} h) refl refl

new-add_set_example :
    Returns (Created ⦃k = sim⦄ sim-Laws empty.v 5 1 2) (Sem.new ⦃k = sim⦄ 5 1 2 false empty)
unfolding sim-Laws key_of
new-add_set_example =
    new-add_set ⦃k = sim⦄ sim-Laws {w = empty} {key = 5} 1 2 false refl (omega arith) (omega arith)
      (omega arith) (omega arith)

new-oversized_example :
    Returns
      (λ r w'. (id : ℕ) × (r ≡ none) × (w'.v.sem_ids (Sem.sem_key sim 5) ≡ some id))
      (Sem.new ⦃k = sim⦄ 5 1 40000 false empty)
unfolding sim-Laws key_of
new-oversized_example =
    new-oversized ⦃k = sim⦄ sim-Laws {w = empty} {key = 5} 1 40000 false refl (omega arith)
      (omega arith) (omega arith) (omega arith) (omega arith)

read_uint-write_uint_example :
    Returns
      (λ a w'. (a ≡ 7) × (w'.v ≡ put_words in_use.v segment_id (2 ∷ 1 ∷ 7 ∷ 0 ∷ [])))
      ((Shm.write_uint ⦃k = sim⦄ (mapped 5 segment_id 8 address guard_id) 2 7
          >> Shm.read_uint ⦃k = sim⦄ (mapped 5 segment_id 8 address guard_id) 2)
        in_use)
unfolding sim-Laws key_of
read_uint-write_uint_example =
    read_uint-write_uint ⦃k = sim⦄ sim-Laws {this = mapped 5 segment_id 8 address guard_id}
      {g = object (guard_key 5) guard_id 1 1} {addr = address} {s = mutex 90} {seg = settings pair}
      {w = in_use} 2 2 7 {m = 60}
      (record {
        guarded = refl;
        binary = refl;
        exists = refl;
        free = refl;
        mapped = refl;
        points = refl;
        holds = refl;
      })
      (omega arith) (omega arith) (omega arith) (omega arith) refl

new-with_segment_example :
    Returns
      (λ r w'.
        (id : ℕ) × (addr : ℕ) × (g : ℕ) × (r ≡ some (mapped 5 id 16 addr g))
        × (empty.v.shms id ≡ none)
        × (empty.v.sems g ≡ none)
        × (w'.v ≡ with_segment ⦃k = sim⦄ sim-Laws empty.v 5 4 id addr g))
      (Shm.new ⦃k = sim⦄ 5 16 false empty)
unfolding sim-Laws key_of
new-with_segment_example =
    new-with_segment ⦃k = sim⦄ sim-Laws {w = empty} {key = 5} 4 false refl refl (omega arith)
      (omega arith)

delete-without_segment_example :
    Returns
      (Leaves
        (λ w. w.v)
        (without_segment ⦃k = sim⦄ sim-Laws in_use.v segment_id address guard_id)
        tt)
      (Shm.delete ⦃k = sim⦄ (mapped 5 segment_id 8 address guard_id) true in_use)
unfolding sim-Laws key_of
delete-without_segment_example =
    delete-without_segment ⦃k = sim⦄ sim-Laws {w = in_use} 5 segment_id 8 address guard_id
      {seg = settings pair} {s = mutex 90} refl refl refl (omega arith)

new-reopen_example :
    Returns
      (λ r w'.
        (addr : ℕ) × (r ≡ some (mapped 5 segment_id 99 addr guard_id))
        × (w'.v ≡ attach_at in_use.v addr segment_id))
      (Shm.new ⦃k = sim⦄ 5 99 true in_use)
unfolding sim-Laws key_of
new-reopen_example =
    new-reopen ⦃k = sim⦄ sim-Laws {w = in_use} {key = 5} {id = segment_id} {guard_id = guard_id} 99
      {seg = settings pair} refl refl refl

-- Of two units one is free.
unlock_race_example :
    Returns
      (λ r w'. (r ≡ (pos 0, minus_one)) × IsFree ⦃k = sim⦄ sim-Laws pair_object 0 2 w')
      (in_turn ⦃k = sim⦄ pair_object 0 true in_use)
    × Returns
        (λ r w'. (r ≡ (pos 0, pos 0)) × IsFree ⦃k = sim⦄ sim-Laws pair_object 0 3 w')
        (looks_first ⦃k = sim⦄ pair_object 0 true in_use)
unfolding sim-Laws key_of
unlock_race_example =
    unlock_race ⦃k = sim⦄ sim-Laws {this = pair_object} {i = 0} {w = in_use} {s = user_set pair}
      {v = 1} true (record { exists = refl; value = refl }) (omega arith) (omega arith)
