-- ===== src/SharedMemory/Life.antt =====
-- SharedMemory$new, SharedMemory$attach and SharedMemory$delete.
use atomicles.Base.{
  ℕ, ◌*◌, ◌≤◌, ◌<◌, ◌≡◌, refl, ◌∙◌, ap, sym, Bool, true, none, some, arith, length, replicate,
}
use atomicles.Sys.{Kernel}
use atomicles.Sys.Run
use atomicles.Sys.Run.{Run, fault, Returns, returns}
use atomicles.Sys.View.{
  View, SemSet, Segment, add_set, add_segment, attach_at, remove_set, remove_segment, put_words,
  detach_at,
}
use atomicles.Sys.Tables.{update_self, remove_segment-put_words}
use atomicles.Sys.Laws.{Laws, Answers, Leaves}
use atomicles.Semaphore.{sem_key}
use atomicles.Semaphore.Life.{object, fresh_set, new-add_set, attach-found, delete-remove_set}
use atomicles.SharedMemory.{
  SharedMemory, guard, guard_key, shm_key, map_segment, open_segment, lock_memory, guard_segment,
  new, attach, delete_guard, delete,
}

-- An object with its guard, as SharedMemory$new and SharedMemory$attach return it.
abbrev pub mapped : (key id size addr guard_id : ℕ) → SharedMemory
mapped key id size addr guard_id = record {
  key = key;
  id = id;
  size = size;
  addr = some addr;
  shsem = guard (object (guard_key key) guard_id 1 1);
}

module _ {W : Type 0} ⦃k : Kernel W⦄ (laws : Laws k) where
  open laws use {view}

  -- With the segment and its guard there, attaching maps the segment and finds the guard; `size`
  -- is any number, what the block happened to hold.
  pub attach-attach_at :
      {w : W} {key id guard_id : ℕ} {seg : Segment} {s : SemSet}
      → (view w).shm_ids (shm_key k key) ≡ some id
      → (view w).shms id ≡ some seg
      → (view w).sem_ids (sem_key k (guard_key key)) ≡ some guard_id
      → (view w).sems guard_id ≡ some s
      → length s.values ≡ 1
      → Returns
          (λ r w'.
            (junk : ℕ) × (addr : ℕ) × (r ≡ some (mapped key id junk addr guard_id))
            × (view w' ≡ attach_at (view w) addr id))
          (attach key w)
  unfolding attach
  attach-attach_at {w} {key} {id} {guard_id} {seg} {s} bound there guarded kept one =
      Run.bind (laws.shmget_found w {key = shm_key k key} {id = id} bound) λ r w1 (e1, same1).
        rw e1 (
          Run.bind (laws.malloc_ok w1) λ b w2 (junk, e2, same2). rw e2 (
            Run.bind (laws.shmat_ok w2 {id = id} {s = seg} (rw (same2, same1) there))
              λ a w3 (addr, e3, _, at). rw e3 (
                Run.bind
                  (attach-found laws {key = guard_key key} {id = guard_id} {s = s}
                    (rw (at, same2, same1) guarded) (rw (at, same2, same1) kept)
                    (rw one (omega arith)))
                  λ o w4 (e4, same4).
                    rw (e4, one)
                      (returns (
                        junk,
                        addr,
                        refl,
                        same4 ∙ at ∙ ap (λ v. attach_at v addr id) (same2 ∙ same1),
                      )))))

  pub attach-missing :
      {w : W} {key : ℕ}
      → (view w).shm_ids (shm_key k key) ≡ none
      → Returns (Answers view w none) (attach key w)
  unfolding attach
  attach-missing {w} {key} unbound =
      Run.bind (laws.shmget_missing w {key = shm_key k key} unbound)
        λ r w1 (e1, same1). rw e1 (returns (refl, same1))

  pub map_segment_lem :
      {w : W} {id : ℕ} {seg : Segment}
      → (view w).shms id ≡ some seg
      → Returns
          (λ r w'. (addr : ℕ) × (r ≡ some (id, addr)) × (view w' ≡ attach_at (view w) addr id))
          (map_segment id w)
  unfolding map_segment
  map_segment_lem {w} {id} {seg} there =
      Run.bind (laws.shmat_ok w {id = id} {s = seg} there)
        λ r w' (addr, e, _, at). rw e (returns (addr, refl, at))

  open_segment_lem :
      {w : W} {key : ℕ} (n : ℕ) (may_attach : Bool)
      → (view w).shm_ids (shm_key k key) ≡ none
      → 0 < n
      → 4 * n ≤ laws.shmmax
      → Returns
          (λ r w'.
            (id : ℕ) × (addr : ℕ) × (r ≡ some (id, addr))
            × ((view w).shms id ≡ none)
            × (view w'
                ≡ attach_at (add_segment (view w) (shm_key k key) id (replicate n 0)) addr id))
          (open_segment key (4 * n) may_attach w)
  unfolding open_segment
  open_segment_lem {w} {key} n may_attach unbound positive few =
      Run.bind (laws.shmget_creates w {key = shm_key k key} n unbound positive few)
        λ r w1 (id, e, out, made). rw e (
          Run.mono
            (map_segment_lem {id = id} {seg = record { words = replicate n 0 }}
              (rw made (update_self (view w).shms id (some (record { words = replicate n 0 })))))
            λ m w2 (addr, e', at). (id, addr, e', out, at ∙ ap (λ v. attach_at v addr id) made))

  pub lock_memory_lem :
      (w : W) (addr size : ℕ) → Returns (Answers view w true) (lock_memory addr size w)
  unfolding lock_memory
  lock_memory_lem w addr size =
      Run.bind (laws.mlockall_ok w) λ r w' (e, same). rw e (returns (refl, same))

  guard_segment_lem :
      {w : W} {key : ℕ} (id size addr : ℕ) (may_attach : Bool)
      → (view w).sem_ids (sem_key k (guard_key key)) ≡ none
      → Returns
          (λ r w'.
            (guard_id : ℕ) × (r ≡ some (mapped key id size addr guard_id))
            × ((view w).sems guard_id ≡ none)
            × (view w'
                ≡ add_set
                    (view w)
                    (sem_key k (guard_key key))
                    guard_id
                    (fresh_set 1 1 (view w).clock)))
          (guard_segment key id size addr may_attach w)
  unfolding guard_segment
  guard_segment_lem {w} {key} id size addr may_attach unguarded =
      Run.bind
        (new-add_set laws {key = guard_key key} 1 1 may_attach unguarded (omega arith)
          (omega (arith, laws.semmsl_enough)) (omega arith) (omega arith))
        λ o w1 (guard_id, e, out, made). rw e (
          Run.bind (lock_memory_lem w1 addr size)
            λ b w2 (e2, same). rw e2 (returns (guard_id, refl, out, same ∙ made)))

  -- The kernel's tables after SharedMemory$new made `n` words under a key that was free.
  abbrev pub with_segment : View → (key n id addr guard_id : ℕ) → View
  with_segment v key n id addr guard_id =
      add_set (attach_at (add_segment v (shm_key k key) id (replicate n 0)) addr id)
        (sem_key k (guard_key key)) guard_id (fresh_set 1 1 v.clock)

  -- With neither the segment nor its guard there, SharedMemory$new for one word or more, within
  -- SHMMAX, makes both: zeroed words, mapped, and a free mutex.
  pub new-with_segment :
      {w : W} {key : ℕ} (n : ℕ) (may_attach : Bool)
      → (view w).shm_ids (shm_key k key) ≡ none
      → (view w).sem_ids (sem_key k (guard_key key)) ≡ none
      → 0 < n
      → 4 * n ≤ laws.shmmax
      → Returns
          (λ r w'.
            (id : ℕ) × (addr : ℕ) × (guard_id : ℕ) × (r
              ≡ some (mapped key id (4 * n) addr guard_id))
            × ((view w).shms id ≡ none)
            × ((view w).sems guard_id ≡ none)
            × (view w' ≡ with_segment (view w) key n id addr guard_id))
          (new key (4 * n) may_attach w)
  unfolding new
  new-with_segment {w} {key} n may_attach unbound unguarded positive few =
      Run.bind (laws.malloc_ok w) λ b w1 (junk, e1, same1). rw e1 (
        Run.bind (open_segment_lem {key = key} n may_attach (rw same1 unbound) positive few)
          λ m w2 (id, addr, e2, out, opened). rw e2 (
            Run.mono
              (guard_segment_lem {key = key} id (4 * n) addr may_attach
                (rw (opened, same1) unguarded))
              λ r w3 (guard_id, e3, fresh, guarded_). (
                id,
                addr,
                guard_id,
                e3,
                ap (λ (v : View). v.shms id) (sym same1) ∙ out,
                ap (λ (v : View). v.sems guard_id)
                      (sym (
                        opened
                        ∙ ap
                            (λ v.
                              attach_at (add_segment v (shm_key k key) id (replicate n 0)) addr id)
                            same1))
                    ∙ fresh,
                guarded_
                    ∙ ap
                        (λ v.
                          add_set v (sem_key k (guard_key key)) guard_id (fresh_set 1 1 v.clock))
                        (opened
                          ∙ ap
                              (λ v.
                                attach_at (add_segment v (shm_key k key) id (replicate n 0)) addr
                                  id)
                              same1),
              )))

  -- The tables after a deletion with removal.
  abbrev pub without_segment : View → (id addr guard_id : ℕ) → View
  without_segment v id addr guard_id = remove_segment (detach_at (remove_set v guard_id) addr) id

  -- With the segment mapped, its guard there and a `size` within the segment, a deletion with
  -- removal takes away the guard, the mapping and the segment.
  pub delete-without_segment :
      {w : W} (key id size addr guard_id : ℕ) {seg : Segment} {s : SemSet}
      → (view w).sems guard_id ≡ some s
      → (view w).shms id ≡ some seg
      → (view w).maps addr ≡ some id
      → size ≤ 4 * length seg.words
      → Returns
          (Leaves view (without_segment (view w) id addr guard_id) tt)
          (delete (mapped key id size addr guard_id) true w)
  unfolding delete delete_guard
  delete-without_segment {w} key id size addr guard_id {seg} {s} kept there at fits =
      Run.bind (delete-remove_set laws (object (guard_key key) guard_id 1 1) {s = s} kept)
        λ _ w1 (_, gone).
          Run.bind (laws.memset_ok w1 {id = id} {s = seg} size (rw gone at) (rw gone there) fits)
            λ _ w2 (ws, cleared). Run.bind (laws.munlockall_ok w2) λ _ w3 (_, same3).
              Run.bind (laws.shmdt_ok w3 {id = id} (rw (same3, cleared, gone) at)) λ _ w4 (_, off).
                Run.bind
                  (laws.shm_rmid_ok w4 {s = record { words = ws }} (
                    rw (off, same3, cleared)
                      (update_self (view w1).shms id (some (record { words = ws })))))
                  λ _ w5 (_, removed). returns (
                    refl,
                    removed
                        ∙ ap (λ v. remove_segment v id) off
                        ∙ ap (λ v. remove_segment (detach_at v addr) id)
                            (same3 ∙ cleared ∙ ap (λ v. put_words v id ws) gone)
                        ∙ ap (λ v. detach_at v addr)
                            (remove_segment-put_words (remove_set (view w) guard_id) id ws),
                  )
