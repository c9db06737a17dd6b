-- ===== src/Semaphore.antt =====
-- src/Semaphore.c and src/Semaphore.h: a set of System V semaphores, each counting down from `size`.
-- Heap objects are values: a function that updates one returns it, `free` leaves nothing to model,
-- and NULL is `none`. What `perror` prints is left out. The timed
-- case of Semaphore$lock is the one without `Linux`, which the Makefile does not define.
pub mod Locking
pub mod Life
pub mod Timed
pub mod Race
pub mod Places
pub mod Users
use atomicles.Base.{
  ℕ, zero, suc, ◌%◌, ◌+◌, ◌^◌, Bool, true, false, not, Option, none, some, ◌==◌, if◌then◌else◌,
  replicate,
}
use atomicles.Base.Int.{ℤ, pos, negsuc, minus_one, sub_ℕ, ltb_ℤ}
use atomicles.Sys.{
  Kernel, Reply, got, failed, Errno, eagain, eexist, eidrm, dev_null, no_key, Sembuf,
}
use atomicles.Sys.Run.{Cmd, fault, pure, ◌>>=◌, ◌>>◌, assert}

-- `struct _Semaphore`
pub record Semaphore : Type 0 where
  pub key : ℕ
  pub id : ℕ
  pub count : ℕ
  pub size : ℕ

-- The conversion to `unsigned short`.
abbrev pub u16 : ℕ → ℕ
u16 n = n % 2 ^ 16

-- An id of -1.
abbrev pub no_id : ℕ
no_id = no_key

abbrev pub is_got : {A : Type 0} → Reply A → Bool
is_got (got _) = true
is_got (failed _) = false

-- A call through NULL, or a value read before it was written.
abbrev pub crash : {W A : Type 0} → Cmd W A
crash w = fault

-- What Semaphore$desc prints.
pub record Description : Type 0 where
  pub id : ℕ
  pub key : ℕ
  pub used : ℤ
  pub size : ℕ
  pub number : ℕ
  pub count : ℕ
  pub last_changed : ℕ

-- SEMKEY of common.h
abbrev pub sem_key : {W : Type 0} → Kernel W → ℕ → ℕ
sem_key k key = k.ftok dev_null key

-- `op.sem_op = -1`
unfoldable pub lock_op : ℕ → Bool → Bool → Sembuf
lock_op index persist nowait = record {
  sem_num = index;
  sem_op = minus_one;
  undo = not persist;
  nowait = nowait;
}

-- What a failed `semop` makes of the result, in the blocking and in the non-blocking case.
unfoldable pub blocking_error : Errno → ℤ
blocking_error eidrm = pos 0
blocking_error _ = minus_one

unfoldable pub nonblocking_error : Errno → ℤ
nonblocking_error eagain = pos 1
nonblocking_error eidrm = pos 0
nonblocking_error _ = minus_one

-- `op.sem_op = +1`
unfoldable pub unlock_op : ℕ → Bool → Sembuf
unlock_op index persist = record {
  sem_num = index;
  sem_op = pos 1;
  undo = not persist;
  nowait = false;
}

module _ {W : Type 0} ⦃k : Kernel W⦄ where
  -- EXIT_SUCCESS is `true`.
  unfoldable pub init : Semaphore → ℕ → Cmd W Bool
  init this size = do r ← k.semctl_setall this.id (replicate this.count size); pure (is_got r)

  unfoldable pub delete : Semaphore → Bool → Cmd W (Unit {0})
  delete this remove_sem_too =
      if remove_sem_too then (do _ ← k.semctl_rmid this.id; pure tt) else pure tt

  -- The end of Semaphore$new: the object, or NULL after a failure.
  unfoldable pub finish : Semaphore → Bool → Cmd W (Option Semaphore)
  unfolding delete
  finish this true = pure (some this)
  finish this false = do delete this false; pure none

  -- `semget` failed to create the set: with leave to attach, look for the one that is there.
  unfoldable pub reattach : Semaphore → Errno → Bool → Cmd W (Option Semaphore)
  unfolding finish
  reattach this eexist true = do
    r ← k.semget (sem_key k this.key) 0 false
    elim r [ got id ↦ finish (record this { id = id }) true | failed _ ↦ finish this false ]
  reattach this _ _ = finish this false

  -- Semaphore$new behind the check of `malloc`.
  unfoldable pub new_object : Semaphore → Bool → Cmd W (Option Semaphore)
  unfolding init finish reattach
  new_object this attach = do
    assert (not (sem_key k this.key == no_key))
    r ← k.semget (sem_key k this.key) this.count true
    elim r [
      | got id ↦ do
        success ← init (record this { id = id }) this.size
        finish (record this { id = id }) success
      | failed e ↦ reattach this e attach
    ]

  unfoldable pub new : (key count size : ℕ) → Bool → Cmd W (Option Semaphore)
  new key count size attach = do
    block ← k.malloc
    elim block [
      | none ↦ pure none
      | some _ ↦
          new_object (record { key = key; id = no_id; count = u16 count; size = u16 size }) attach
    ]

  unfoldable pub exists : ℕ → Cmd W Bool
  exists key = do r ← k.semget (sem_key k key) 0 false; pure (is_got r)

  unfoldable pub extract_count : ℕ → Cmd W ℕ
  extract_count id = do
    assert (not (id == no_id))
    r ← k.semctl_stat id
    elim r [ got ds ↦ pure ds.sem_nsems | failed _ ↦ crash ]

  -- Semaphore$attach does not check `malloc`.
  unfoldable pub attach : ℕ → Cmd W (Option Semaphore)
  unfolding extract_count
  attach key = do
    r ← k.semget (sem_key k key) 0 false
    elim r [
      | got id ↦ do
        block ← k.malloc
        elim block [
          | none ↦ crash
          | some _ ↦ do
            n ← extract_count id
            pure (some (record { key = key; id = id; count = u16 n; size = 1 }))
        ]
      | failed _ ↦ pure none
    ]

  -- `semctl` answers -1 when it fails, and -1 is subtracted.
  unfoldable pub used : Semaphore → ℕ → Cmd W ℤ
  used this index = do
    r ← k.semctl_getval this.id index
    elim r [ got v ↦ pure (sub_ℕ this.size v) | failed _ ↦ pure (pos (this.size + 1)) ]

  unfoldable pub ctime : Semaphore → Cmd W ℕ
  ctime this = do
    r ← k.semctl_stat this.id
    elim r [ got ds ↦ pure ds.sem_ctime | failed _ ↦ crash ]

  unfoldable pub desc : Semaphore → ℕ → Cmd W Description
  unfolding used ctime
  desc this index = do
    changed ← ctime this
    u ← used this index
    pure (record {
      id = this.id;
      key = this.key;
      used = u;
      size = this.size;
      number = index + 1;
      count = this.count;
      last_changed = changed;
    })

  -- The loop of the timed case, with the rounds that are left. EIDRM goes straight on.
  unfoldable pub lock_rounds : ℕ → ℕ → Sembuf → Cmd W ℤ
  lock_rounds zero id op = pure (pos 1)
  lock_rounds (suc n) id op = do
    r ← k.semop id op
    elim r [
      | got _ ↦ pure (pos 0)
      | failed e ↦ elim e [
        | eagain ↦ do k.sleep 1; lock_rounds n id op
        | eidrm ↦ lock_rounds n id op
        | _ ↦ pure minus_one
      ]
    ]

  unfoldable pub lock : Semaphore → ℕ → Bool → ℤ → Cmd W ℤ
  unfolding lock_op blocking_error nonblocking_error lock_rounds
  lock this index persist (pos zero) = do
    r ← k.semop this.id (lock_op index persist false)
    elim r [ got _ ↦ pure (pos 0) | failed e ↦ pure (blocking_error e) ]
  lock this index persist (negsuc zero) = do
    r ← k.semop this.id (lock_op index persist true)
    elim r [ got _ ↦ pure (pos 0) | failed e ↦ pure (nonblocking_error e) ]
  lock this index persist (pos (suc n)) = lock_rounds (suc n) this.id (lock_op index persist true)
  lock this index persist (negsuc (suc n)) = pure (pos 1)

  unfoldable pub give : Semaphore → ℕ → Bool → Cmd W ℤ
  unfolding unlock_op
  give this index persist = do
    r ← k.semop this.id (unlock_op index persist)
    elim r [ got _ ↦ pure (pos 0) | failed _ ↦ pure minus_one ]

  -- What Semaphore$unlock does with the number of used units that it saw.
  unfoldable pub release : Semaphore → ℕ → Bool → (seen : ℤ) → Cmd W ℤ
  unfolding give
  release this index persist seen =
      if ltb_ℤ (pos 0) seen then give this index persist else pure minus_one

  unfoldable pub unlock : Semaphore → ℕ → Bool → Cmd W ℤ
  unfolding used release
  unlock this index persist = do u ← used this index; release this index persist u

-- Semaphore$size, Semaphore$count and Semaphore$set_size
unfoldable pub size : Semaphore → ℕ
size this = this.size

unfoldable pub count : Semaphore → ℕ
count this = this.count

unfoldable pub set_size : Semaphore → ℕ → Semaphore
set_size this n = record this { size = u16 n }
