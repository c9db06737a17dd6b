-- ===== src/Lock/Init.antt =====
-- `init` of src/lock.c: the settings of a counter are read off its segment.
use atomicles.Base.{◌<◌, ◌^◌, ℕ, ◌≡◌, refl, ◌∙◌, some, arith, ◌==◌, Bool-cases, inl, inr, get_elem?}
use atomicles.Sys.{Kernel}
use atomicles.Sys.Run
use atomicles.Sys.Run.{Returns, returns}
use atomicles.Sys.View.{View, SemSet, attach_at}
use atomicles.Sys.Tables.{update_self}
use atomicles.Sys.Laws.{Laws, Answers, Leaves}
use atomicles.Semaphore as Sem
use atomicles.Semaphore.{Semaphore, u16}
use atomicles.Semaphore.Life.{object}
use atomicles.SharedMemory as Shm
use atomicles.SharedMemory.{SharedMemory, guard_key, read_uint}
use atomicles.SharedMemory.Access.{IsReady, read_uint_lem}
use atomicles.SharedMemory.Life.{mapped, attach-attach_at}
use atomicles.Lock.{globals, init, read_settings}
use atomicles.Lock.Counter.{
  Counter, Ids, IsCounter, globals_of, user_set, settings, mutex, IsCounter-attach_at,
}

module _ {W : Type 0} ⦃k : Kernel W⦄ (laws : Laws k) where
  open laws use {view}

  ctime_lem :
      {w : W} (this : Semaphore) {s : SemSet}
      → (view w).sems this.id ≡ some s
      → Returns (Answers view w s.ctime) (Sem.ctime this w)
  unfolding Sem.ctime
  ctime_lem {w} this {s} there =
      Run.bind (laws.stat_ok w {s = s} there) λ r w' (e, same). rw e (returns (refl, same))

  module _ {key : ℕ} {c : Counter} {i : Ids} {v : View} (r : IsCounter k key c i v) (junk addr : ℕ)
      (at : v.maps addr ≡ some i.segment) where
    -- What `attach` returned for the counter's segment.
    abbrev shmem : SharedMemory
    shmem = mapped key i.segment junk addr i.guard

    ready :
        IsReady shmem (object (guard_key key) i.guard 1 1) addr (mutex i.guard_since) (settings c) v
    ready = record {
      guarded = refl;
      binary = refl;
      exists = r.guard_there;
      free = refl;
      mapped = refl;
      points = at;
      holds = r.segment_there;
    }

    read_setting :
        {w : W}
        → view w ≡ v
        → (j : ℕ) {n : ℕ} → j < 2 ^ 16
        → get_elem? (settings c).words j ≡ some n
        → Returns (Leaves view v n) (read_uint shmem j w)
    read_setting {w} same j short there =
        Run.mono
          (read_uint_lem laws {this = shmem} {g = object (guard_key key) i.guard 1 1} {addr = addr}
            {s = mutex i.guard_since} {seg = settings c} {w = w} (rw same ready) j short there)
          λ a w' (e, same'). (e, same' ∙ same)

    size_kept : u16 c.size ≡ c.size
    size_kept = omega (arith, r.sized)

    read_settings_lem :
        {w : W}
        → view w ≡ v
        → Returns
            (Leaves view v (globals_of c v.clock, object key i.set 1 c.size))
            (read_settings globals (object key i.set 1 1) shmem w)
    unfolding read_settings Shm.delete Sem.set_size
    read_settings_lem {w} same =
        Run.bind (read_setting same 0 (omega arith) refl) λ n w1 (e1, same1).
          rw (e1, size_kept)
            (Run.bind (read_setting same1 1 (omega arith) refl) λ f w2 (e2, same2).
              rw e2 (elim (Bool-cases (c.lifetime == 0)) [
                | inl never ↦ rw never (returns (refl, same2))
                | inr expires ↦ rw expires (
                    Run.bind (laws.time_ok w2) λ now w3 (e3, same3).
                      Run.bind
                        (ctime_lem (object key i.set 1 c.size) {s = user_set c}
                          (rw (same3, same2) r.set_there))
                        λ t w4 (e4, same4).
                          Run.bind (read_setting (same4 ∙ same3 ∙ same2) 2 (omega arith) refl)
                            λ x w5 (e5, same5). rw (e5, e4, e3, same2) (returns (refl, same5)))
              ]))

  -- `init` finds the size, the expiry flag and the time left; the one trace in the tables is the
  -- mapping of the segment, which it does not undo.
  pub init_lem :
      {w : W} {key : ℕ} {c : Counter} {i : Ids}
      → IsCounter k key c i (view w)
      → Returns
          (λ a w'.
            (addr : ℕ) × (a ≡ (globals_of c (view w).clock, object key i.set 1 c.size))
            × (view w' ≡ attach_at (view w) addr i.segment))
          (init globals (object key i.set 1 1) w)
  unfolding init
  init_lem {w} {key} {c} {i} r =
      Run.bind
        (attach-attach_at laws {key = key} {id = i.segment} {guard_id = i.guard} {seg = settings c}
          {s = mutex i.guard_since} r.segment_bound r.segment_there r.guard_bound r.guard_there
          refl)
        λ m w1 (junk, addr, e, at). rw e (
          Run.mono
            (read_settings_lem (IsCounter-attach_at r addr i.segment) junk addr
              (update_self (view w).maps addr (some i.segment)) at)
            λ a w2 (e2, same2). (addr, e2, same2))

  -- On a counter, `init` with the globals of a fresh process finds the size, whether there is a
  -- lifetime, and the time left, and leaves the counter as it is.
  pub init-IsCounter :
      {w : W} {key : ℕ} {c : Counter} {i : Ids}
      → IsCounter k key c i (view w)
      → Returns
          (λ a w'.
            (a ≡ (globals_of c (view w).clock, object key i.set 1 c.size))
            × IsCounter k key c i (view w'))
          (init globals (object key i.set 1 1) w)
  init-IsCounter {i} r =
      Run.mono (init_lem r) λ a w' (addr, e, at). (e, rw at (IsCounter-attach_at r addr i.segment))
