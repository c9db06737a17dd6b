-- ===== src/Semaphore/Life.antt =====
-- Semaphore$new, Semaphore$attach, Semaphore_exists and Semaphore$delete: how a set comes into the
-- kernel, is found again, and is removed.
use atomicles.Base.{
  ℕ, ◌^◌, ◌≤◌, ◌<◌, ◌≡◌, ◌≢◌, refl, ◌∙◌, ap, Bool, true, false, Option, none, some, arith, ◌==◌,
  length, replicate,
}
use atomicles.Sys.{Kernel, no_key, dev_null}
use atomicles.Sys.Run
use atomicles.Sys.Run.{Returns, returns, ◌>>◌}
use atomicles.Sys.View.{View, SemSet, add_set, remove_set, put_set}
use atomicles.Sys.Tables.{update_self, put_set-add_set, unbind_self}
use atomicles.Sys.Laws.{Laws, max_value, Answers, Leaves}
use atomicles.Semaphore.{
  Semaphore, no_id, sem_key, u16, init, delete, new_object, new, exists, extract_count, attach,
}

abbrev pub object : (key id count size : ℕ) → Semaphore
object key id count size = record { key = key; id = id; count = count; size = size }

-- What Semaphore$new puts into the kernel: `count` semaphores, all of them free.
abbrev pub fresh_set : (count size clock : ℕ) → SemSet
fresh_set count size clock = record { values = replicate count size; ctime = clock }

module _ {W : Type 0} ⦃k : Kernel W⦄ (laws : Laws k) where
  open laws use {view}

  key_ok : (key : ℕ) → (sem_key k key == no_key) ≡ false
  key_ok key = ground (arith, laws.ftok_ok dev_null key)

  -- SETALL stores `size` in each of the semaphores of the set.
  init_lem :
      {w : W} (this : Semaphore) {s : SemSet} (size : ℕ)
      → (view w).sems this.id ≡ some s
      → length s.values ≡ this.count
      → size ≤ max_value
      → Returns
          (Leaves view (put_set (view w) this.id (fresh_set this.count size (view w).clock)) true)
          (init this size w)
  unfolding init
  init_lem {w} this {s} size there len small =
      Run.bind (laws.setall_ok w {s = s} this.count size there len small)
        λ r w' (e, same). rw e (returns (refl, same))

  -- The outcome of a creation: the object, and its fresh set in the kernel.
  abbrev pub Created : View → (key count size : ℕ) → Option Semaphore → W → Type 0
  Created v key count size r w' =
      (id : ℕ) × (r ≡ some (object key id count size))
      × (v.sems id ≡ none)
      × (view w' ≡ add_set v (sem_key k key) id (fresh_set count size v.clock))

  new_object-add_set :
      {w : W} {key : ℕ} (count size : ℕ) (may_attach : Bool)
      → (view w).sem_ids (sem_key k key) ≡ none
      → 0 < count
      → count ≤ laws.semmsl
      → size ≤ max_value
      → Returns
          (Created (view w) key count size)
          (new_object (object key no_id count size) may_attach w)
  unfolding new_object
  new_object-add_set {w} {key} count size may_attach unbound positive few small = rw (key_ok key) (
      Run.bind (laws.semget_creates w {key = sem_key k key} count unbound positive few)
        λ r w1 (id, s, e, len, out, created). rw e (
          Run.bind
            (init_lem (object key id count size) {s = s} size
              (rw created (update_self (view w).sems id (some s))) len small)
            λ r w2 (e', set_all). rw e' (
              returns (
                id,
                refl,
                out,
                set_all
                    ∙ ap (λ v. put_set v id (fresh_set count size v.clock)) created
                    ∙ put_set-add_set (view w) id (sem_key k key) s
                        (fresh_set count size (view w).clock),
              ))))

  u16_fits : {n : ℕ} → n < 2 ^ 16 → u16 n ≡ n
  u16_fits h = omega arith

  -- With no set under the key, for a count of 1 to 65535 and of at most SEMMSL, and a size of at
  -- most SEMVMX, Semaphore$new makes a set of `count` semaphores of value `size` under the key,
  -- and returns its object.
  pub new-add_set :
      {w : W} {key : ℕ} (count size : ℕ) (may_attach : Bool)
      → (view w).sem_ids (sem_key k key) ≡ none
      → 0 < count
      → count ≤ laws.semmsl
      → count < 2 ^ 16
      → size ≤ max_value
      → Returns (Created (view w) key count size) (new key count size may_attach w)
  unfolding new
  new-add_set {w} {key} count size may_attach unbound positive few short small =
      Run.bind (laws.malloc_ok w) λ r w1 (j, e, same).
        rw (e, u16_fits {n = count} short, u16_fits {n = size} (omega arith), ← same)
          (new_object-add_set count size may_attach (rw same unbound) positive few small)

  -- With a set under the key and no leave to attach, NULL, and the tables are as they were.
  pub new-exists :
      {w : W} {key id : ℕ} (count size : ℕ)
      → (view w).sem_ids (sem_key k key) ≡ some id
      → Returns (Answers view w none) (new key count size false w)
  unfolding new new_object
  new-exists {w} {key} {id} count size bound = Run.bind (laws.malloc_ok w) λ r w1 (j, e, same).
      rw (e, key_ok key)
        (Run.bind (laws.semget_exists w1 {key = sem_key k key} {id = id} _ (rw same bound))
          λ r w2 (e2, same2). rw e2 (returns (refl, same2 ∙ same)))

  -- With a set under the key, for a count and a size below 2^16, Semaphore$new with leave to
  -- attach returns an object of that set and changes nothing: the values of the set are not
  -- reset.
  pub new-reattach :
      {w : W} {key id : ℕ} (count size : ℕ)
      → (view w).sem_ids (sem_key k key) ≡ some id
      → count < 2 ^ 16
      → size < 2 ^ 16
      → Returns (Answers view w (some (object key id count size))) (new key count size true w)
  unfolding new new_object
  new-reattach {w} {key} {id} count size bound short small =
      Run.bind (laws.malloc_ok w) λ r w1 (j, e, same).
        rw (e, key_ok key)
          (Run.bind (laws.semget_exists w1 {key = sem_key k key} {id = id} _ (rw same bound))
            λ r w2 (e2, same2). rw e2 (
              Run.bind
                (laws.semget_found w2 {key = sem_key k key} {id = id} (rw (same2, same) bound))
                λ r w3 (e3, same3).
                  rw (e3, u16_fits {n = count} short, u16_fits {n = size} small)
                    (returns (refl, same3 ∙ same2 ∙ same))))

  init_range :
      {w : W} (this : Semaphore) {s : SemSet} (size : ℕ)
      → (view w).sems this.id ≡ some s
      → length s.values ≡ this.count
      → 0 < this.count
      → max_value < size
      → Returns (Answers view w false) (init this size w)
  unfolding init
  init_range {w} this {s} size there len positive large =
      Run.bind (laws.setall_range w {s = s} this.count size there len positive large)
        λ r w' (e, same). rw e (returns (refl, same))

  new_object-oversized :
      {w : W} {key : ℕ} (count size : ℕ) (may_attach : Bool)
      → (view w).sem_ids (sem_key k key) ≡ none
      → 0 < count
      → count ≤ laws.semmsl
      → max_value < size
      → Returns
          (λ r w'. (id : ℕ) × (r ≡ none) × ((view w').sem_ids (sem_key k key) ≡ some id))
          (new_object (object key no_id count size) may_attach w)
  unfolding new_object
  new_object-oversized {w} {key} count size may_attach unbound positive few large =
      rw (key_ok key) (
        Run.bind (laws.semget_creates w {key = sem_key k key} count unbound positive few)
          λ r w1 (id, s, e, len, out, created). rw e (
            Run.bind
              (init_range (object key id count size) {s = s} size
                (rw created (update_self (view w).sems id (some s))) len positive large)
              λ b w2 (e2, same). rw e2 (
                returns (
                  id,
                  refl,
                  rw (same, created) (update_self (view w).sem_ids (sem_key k key) (some id)),
                ))))

  -- With no set under the key, a count of 1 to 65535 and of at most SEMMSL, and a size above SEMVMX
  -- and below 2^16, Semaphore$new returns NULL, and the set that it made stays behind under the key.
  pub new-oversized :
      {w : W} {key : ℕ} (count size : ℕ) (may_attach : Bool)
      → (view w).sem_ids (sem_key k key) ≡ none
      → 0 < count
      → count ≤ laws.semmsl
      → count < 2 ^ 16
      → max_value < size
      → size < 2 ^ 16
      → Returns
          (λ r w'. (id : ℕ) × (r ≡ none) × ((view w').sem_ids (sem_key k key) ≡ some id))
          (new key count size may_attach w)
  unfolding new
  new-oversized {w} {key} count size may_attach unbound positive few short large fits =
      Run.bind (laws.malloc_ok w) λ r w1 (j, e, same).
        rw (e, u16_fits {n = count} short, u16_fits {n = size} fits)
          (new_object-oversized count size may_attach (rw same unbound) positive few large)

  extract_count_lem :
      {w : W} {id : ℕ} {s : SemSet}
      → (view w).sems id ≡ some s
      → id ≢ no_id
      → Returns (Answers view w (length s.values)) (extract_count id w)
  unfolding extract_count
  extract_count_lem {w} {id} {s} there real =
      let proper : (id == no_id) ≡ false = ground arith in
      rw proper
        (Run.bind (laws.stat_ok w {s = s} there) λ r w' (e, same). rw e (returns (refl, same)))

  -- With a set of fewer than 2^16 semaphores under the key, attaching returns an object of that
  -- set with its number of semaphores and the size 1, and changes nothing.
  pub attach-found :
      {w : W} {key id : ℕ} {s : SemSet}
      → (view w).sem_ids (sem_key k key) ≡ some id
      → (view w).sems id ≡ some s
      → length s.values < 2 ^ 16
      → Returns (Answers view w (some (object key id (length s.values) 1))) (attach key w)
  unfolding attach
  attach-found {w} {key} {id} {s} bound there short =
      Run.bind (laws.semget_found w {key = sem_key k key} {id = id} bound) λ r w1 (e1, same1).
        rw e1 (
          Run.bind (laws.malloc_ok w1) λ r w2 (j, e2, same2). rw e2 (
            Run.bind
              (extract_count_lem {s = s} (rw (same2, same1) there)
                (laws.semid_ok w {key = sem_key k key} bound))
              λ n w3 (e3, same3). rw (e3, u16_fits short) (returns (refl, same3 ∙ same2 ∙ same1))))

  pub attach-missing :
      {w : W} {key : ℕ}
      → (view w).sem_ids (sem_key k key) ≡ none
      → Returns (Answers view w none) (attach key w)
  unfolding attach
  attach-missing {w} {key} unbound =
      Run.bind (laws.semget_missing w {key = sem_key k key} unbound)
        λ r w1 (e1, same1). rw e1 (returns (refl, same1))

  pub exists-bound :
      {w : W} {key id : ℕ}
      → (view w).sem_ids (sem_key k key) ≡ some id
      → Returns (Answers view w true) (exists key w)
  unfolding exists
  exists-bound {w} {key} {id} bound =
      Run.bind (laws.semget_found w {key = sem_key k key} {id = id} bound)
        λ r w1 (e1, same1). rw e1 (returns (refl, same1))

  pub exists-unbound :
      {w : W} {key : ℕ}
      → (view w).sem_ids (sem_key k key) ≡ none
      → Returns (Answers view w false) (exists key w)
  unfolding exists
  exists-unbound {w} {key} unbound =
      Run.bind (laws.semget_missing w {key = sem_key k key} unbound)
        λ r w1 (e1, same1). rw e1 (returns (refl, same1))

  pub delete-remove_set :
      {w : W} (this : Semaphore) {s : SemSet}
      → (view w).sems this.id ≡ some s
      → Returns (Leaves view (remove_set (view w) this.id) tt) (delete this true w)
  unfolding delete
  delete-remove_set {w} this {s} there =
      Run.bind (laws.rmid_ok w {s = s} there) λ r w' (e, gone). returns (refl, gone)

  -- After a deletion with removal, by the object of a set that is under its key,
  -- Semaphore_exists answers 0 for the key, and the set is gone.
  pub exists-delete :
      {w : W} (this : Semaphore) {s : SemSet}
      → (view w).sem_ids (sem_key k this.key) ≡ some this.id
      → (view w).sems this.id ≡ some s
      → Returns
          (λ r w'. (r ≡ false) × (view w' ≡ remove_set (view w) this.id))
          ((delete this true >> exists this.key) w)
  exists-delete {w} this {s} bound there =
      Run.bind (delete-remove_set this {s = s} there) λ _ w1 (_, gone).
        Run.mono
          (exists-unbound {key = this.key}
            (rw gone (unbind_self (view w) this.id (sem_key k this.key) bound)))
          λ r w2 (none_left, same). (none_left, same ∙ gone)
