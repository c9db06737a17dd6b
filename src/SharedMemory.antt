-- ===== src/SharedMemory.antt =====
-- src/SharedMemory.c and src/SharedMemory.h: a System V segment with a semaphore set of its own that
-- guards each access. SharedMemory$dump only prints and is left out.
pub mod Access
pub mod Life
pub mod Reopen
pub mod Text
use atomicles.Base.{ℕ, ◌+◌, ◌%◌, ◌^◌, Bool, true, false, Option, none, some, if◌then◌else◌}
use atomicles.Base.Int.{ℤ, pos, is_zero_ℤ}
use atomicles.Sys.{Kernel, Reply, got, failed, eexist, dev_zero}
use atomicles.Sys.Run.{Cmd, pure, ◌>>=◌, ◌>>◌, assert}
use atomicles.Semaphore as Sem
use atomicles.Semaphore.{Semaphore, crash, is_got}

-- The field `shsem`: NULL, an object, or not yet written.
pub data Guard : Type 0 where
  null : Guard
  guard : Semaphore → Guard
  unset : Guard

-- `struct _SharedMemory`. An `addr` of `none` is the (void *)-1 of a failed `shmat`.
pub record SharedMemory : Type 0 where
  pub key : ℕ
  pub id : ℕ
  pub size : ℕ
  pub addr : Option ℕ
  pub shsem : Guard

abbrev pub to_guard : Option Semaphore → Guard
to_guard none = null
to_guard (some s) = guard s

-- `key + 128`, the number of the guard's key.
abbrev pub guard_key : ℕ → ℕ
guard_key key = (key + 128) % 2 ^ 32

-- SHMKEY of common.h
abbrev pub shm_key : {W : Type 0} → Kernel W → ℕ → ℕ
shm_key k key = k.ftok dev_zero key

-- A call through the pointers `shsem` and `addr`.
abbrev pub through_guard : {W A : Type 0} → Guard → (Semaphore → Cmd W A) → Cmd W A
through_guard (guard s) f = f s
through_guard null f = crash
through_guard unset f = crash

abbrev pub through : {W A : Type 0} → Option ℕ → (ℕ → Cmd W A) → Cmd W A
through (some a) f = f a
through none f = crash

module _ {W : Type 0} ⦃k : Kernel W⦄ where
  -- `shmat` behind a `shmget` that answered `id`.
  unfoldable pub map_segment : ℕ → Cmd W (Option (ℕ × ℕ))
  map_segment id = do
    r ← k.shmat id
    elim r [ got addr ↦ pure (some (id, addr)) | failed _ ↦ pure none ]

  -- The case EEXIST with leave to attach.
  unfoldable pub reopen_segment : (key : ℕ) → Bool → Cmd W (Option (ℕ × ℕ))
  unfolding map_segment
  reopen_segment key false = pure none
  reopen_segment key true = do
    r ← k.shmget (shm_key k key) 0 false
    elim r [ got id ↦ map_segment id | failed _ ↦ pure none ]

  -- The segment of SharedMemory$new, or `none` where `success` is not EXIT_SUCCESS. Apart from
  -- EEXIST the cases of the `switch` only print.
  unfoldable pub open_segment : (key size : ℕ) → Bool → Cmd W (Option (ℕ × ℕ))
  unfolding map_segment reopen_segment
  open_segment key size may_attach = do
    r ← k.shmget (shm_key k key) size true
    elim r [
      | got id ↦ map_segment id
      | failed e ↦ elim e [ eexist ↦ reopen_segment key may_attach | _ ↦ pure none ]
    ]

  unfoldable pub lock_memory : (addr size : ℕ) → Cmd W Bool
  lock_memory addr size = do
    r ← k.mlockall
    elim r [ got _ ↦ pure true | failed _ ↦ do r' ← k.mlock addr size; pure (is_got r') ]

  -- The guard of a new object, and the end of SharedMemory$new.
  unfoldable pub guard_segment : (key id size addr : ℕ) → Bool → Cmd W (Option SharedMemory)
  unfolding lock_memory
  guard_segment key id size addr may_attach = do
    s ← Sem.new (guard_key key) 1 1 may_attach
    elim s [
      | none ↦ pure none
      | some g ↦ do
        locked ← lock_memory addr size
        if locked
            then pure (
                some
                  (record { key = key; id = id; size = size; addr = some addr; shsem = guard g }))
            else Sem.delete g false >> pure none
    ]

  unfoldable pub new : (key size : ℕ) → Bool → Cmd W (Option SharedMemory)
  unfolding open_segment guard_segment
  new key size may_attach = do
    block ← k.malloc
    elim block [
      | none ↦ pure none
      | some _ ↦ do
        segment ← open_segment key size may_attach
        elim segment [
          | none ↦ pure none
          | some (id, addr) ↦ guard_segment key id size addr may_attach
        ]
    ]

  -- The guard in SharedMemory$delete, where NULL is passed over.
  unfoldable pub delete_guard : Guard → Bool → Cmd W (Unit {0})
  unfolding Sem.delete
  delete_guard null remove = pure tt
  delete_guard (guard s) remove = Sem.delete s remove
  delete_guard unset remove = crash

  unfoldable pub delete : SharedMemory → Bool → Cmd W (Unit {0})
  unfolding delete_guard
  delete this true = do
    delete_guard this.shsem true
    through this.addr λ addr. k.memset addr this.size
    _ ← k.munlockall
    _ ← through this.addr λ addr. k.shmdt addr
    _ ← k.shmctl_rmid this.id
    pure tt
  delete this false = delete_guard this.shsem false

  -- SharedMemory$attach writes neither `size` nor, when `shmat` fails, `shsem`.
  unfoldable pub attach : ℕ → Cmd W (Option SharedMemory)
  attach key = do
    r ← k.shmget (shm_key k key) 0 false
    elim r [
      | failed _ ↦ pure none
      | got id ↦ do
        block ← k.malloc
        elim block [
          | none ↦ crash
          | some junk ↦ do
            a ← k.shmat id
            elim a [
              | failed _ ↦
                  pure
                    (some (record { key = key; id = id; size = junk; addr = none; shsem = unset }))
              | got addr ↦ do
                s ← Sem.attach (guard_key key)
                pure (
                    some (record {
                      key = key;
                      id = id;
                      size = junk;
                      addr = some addr;
                      shsem = to_guard s;
                    }))
            ]
        ]
    ]

  -- `Semaphore$lock(this->shsem, 0, 0, 0)` and `Semaphore$unlock(this->shsem, 0, 0)`, each with the
  -- `assert` behind it.
  unfoldable pub enter : SharedMemory → Cmd W (Unit {0})
  enter this = do e ← through_guard this.shsem λ s. Sem.lock s 0 false (pos 0); assert (is_zero_ℤ e)

  unfoldable pub leave : SharedMemory → Cmd W (Unit {0})
  leave this = do e ← through_guard this.shsem λ s. Sem.unlock s 0 false; assert (is_zero_ℤ e)

  -- Offsets are `unsigned short`, values 32 bits wide.
  unfoldable pub write_uint : SharedMemory → ℕ → ℕ → Cmd W (Unit {0})
  unfolding enter leave
  write_uint this offset n = do
    enter this
    through this.addr λ addr. k.poke addr (offset % 2 ^ 16) (n % 2 ^ 32)
    leave this

  -- The word is read behind the unlock.
  unfoldable pub read_uint : SharedMemory → ℕ → Cmd W ℕ
  unfolding enter leave
  read_uint this offset = do
    enter this
    leave this
    through this.addr λ addr. k.peek addr (offset % 2 ^ 16)

  unfoldable pub write_uint32 : SharedMemory → ℕ → ℕ → Cmd W (Unit {0})
  unfolding enter leave
  write_uint32 this offset n = do
    enter this
    through this.addr λ addr. k.poke addr (offset % 2 ^ 16) (n % 2 ^ 32)
    leave this

  unfoldable pub read_uint32 : SharedMemory → ℕ → Cmd W ℕ
  unfolding enter leave
  read_uint32 this offset = do
    enter this
    leave this
    through this.addr λ addr. k.peek addr (offset % 2 ^ 16)

unfoldable pub get_size : SharedMemory → ℕ
get_size this = this.size
