-- ===== src/SharedMemory/Reopen.antt =====
-- SharedMemory$new on a key that is in use, with leave to attach.
use atomicles.Base.{ℕ, ◌≡◌, refl, ◌∙◌, ap, true, Option, some, arith}
use atomicles.Sys.{Kernel}
use atomicles.Sys.Run
use atomicles.Sys.Run.{Returns, returns}
use atomicles.Sys.View.{View, Segment, attach_at}
use atomicles.Sys.Laws.{Laws}
use atomicles.Semaphore.{sem_key}
use atomicles.Semaphore.Life.{new-reattach}
use atomicles.SharedMemory.{guard_key, shm_key, reopen_segment, open_segment, guard_segment, new}
use atomicles.SharedMemory.Life.{mapped, map_segment_lem, lock_memory_lem}

module _ {W : Type 0} ⦃k : Kernel W⦄ (laws : Laws k) where
  open laws use {view}

  -- The segment under a key, mapped once more.
  abbrev Mapped : View → (id : ℕ) → Option (ℕ × ℕ) → W → Type 0
  Mapped v id r w' = (addr : ℕ) × (r ≡ some (id, addr)) × (view w' ≡ attach_at v addr id)

  open_existing :
      {w : W} {key id : ℕ} (size : ℕ) {seg : Segment}
      → (view w).shm_ids (shm_key k key) ≡ some id
      → (view w).shms id ≡ some seg
      → Returns (Mapped (view w) id) (open_segment key size true w)
  unfolding open_segment reopen_segment
  open_existing {w} {key} {id} size {seg} bound there =
      Run.bind (laws.shmget_exists w {key = shm_key k key} {id = id} size bound) λ r w1 (e, same).
        rw e (
          Run.bind (laws.shmget_found w1 {key = shm_key k key} {id = id} (rw same bound))
            λ r' w2 (e', same'). rw e' (
              Run.mono (map_segment_lem laws {id = id} {seg = seg} (rw (same', same) there))
                λ m w3 (addr, made, at).
                  (addr, made, at ∙ ap (λ v. attach_at v addr id) (same' ∙ same))))

  guard_existing :
      {w : W} {key guard_id : ℕ} (id size addr : ℕ) {v : View}
      → view w ≡ v
      → v.sem_ids (sem_key k (guard_key key)) ≡ some guard_id
      → Returns
          (λ r w'. (r ≡ some (mapped key id size addr guard_id)) × (view w' ≡ v))
          (guard_segment key id size addr true w)
  unfolding guard_segment
  guard_existing {w} {key} {guard_id} id size addr same guarded =
      Run.bind
        (new-reattach laws {key = guard_key key} {id = guard_id} 1 1 (rw same guarded) (omega arith)
          (omega arith))
        λ o w1 (e1, s1). rw e1 (
          Run.bind (lock_memory_lem laws w1 addr size)
            λ b w2 (e2, s2). rw e2 (returns (refl, s2 ∙ s1 ∙ same)))

  -- With a segment under the key and its guard's set there, SharedMemory$new with leave to attach
  -- maps the segment as it is and finds the guard; the size of the object is the one asked for,
  -- whatever that of the segment.
  pub new-reopen :
      {w : W} {key id guard_id : ℕ} (size : ℕ) {seg : Segment}
      → (view w).shm_ids (shm_key k key) ≡ some id
      → (view w).shms id ≡ some seg
      → (view w).sem_ids (sem_key k (guard_key key)) ≡ some guard_id
      → Returns
          (λ r w'.
            (addr : ℕ) × (r ≡ some (mapped key id size addr guard_id))
            × (view w' ≡ attach_at (view w) addr id))
          (new key size true w)
  unfolding new
  new-reopen {w} {key} {id} {guard_id} size {seg} bound there guarded =
      Run.bind (laws.malloc_ok w) λ b w1 (junk, e1, s1). rw e1 (
        Run.bind (open_existing {key = key} {id = id} size {seg = seg} (rw s1 bound) (rw s1 there))
          λ m w2 (addr, e2, at). rw e2 (
            Run.mono
              (guard_existing {key = key} {guard_id = guard_id} id size addr
                (at ∙ ap (λ v. attach_at v addr id) s1) guarded)
              λ r w3 (e3, s3). (addr, e3, s3)))
