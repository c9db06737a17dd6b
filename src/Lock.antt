-- ===== src/Lock.antt =====
-- src/lock.c and src/lock.h: the command `lock`, a counting semaphore with a size and an optional
-- expiry, kept in a semaphore set and a segment of four words under one key. The globals `expiry`
-- and `delta` are a value that each function passes on. Messages are left out, except the numbers
-- that `status` and `summary` print.
pub mod Counter
pub mod Init
pub mod Spec
pub mod Acquire
pub mod Report
pub mod Create
pub mod Session
pub mod Main
use atomicles.Base.{
  ℕ, zero, suc, ◌+◌, ◌*◌, ◌%◌, ◌^◌, Bool, true, false, not, ◌&&◌, Option, none, some, List, [], ◌∷◌,
  ◌==◌, if◌then◌else◌,
}
use atomicles.Base.Int.{
  ℤ, pos, negsuc, pos_part, neg_part, minus_one, sub_ℕ, ltb_ℤ, min_ℤ, is_zero_ℤ, to_u32, to_int,
}
use atomicles.Sys.{Kernel}
use atomicles.Sys.Run.{Cmd, pure, ◌>>=◌, ◌>>◌}
use atomicles.Semaphore as Sem
use atomicles.Semaphore.{Semaphore, Description, crash}
use atomicles.SharedMemory as Shm
use atomicles.SharedMemory.{SharedMemory, Guard, null, guard, unset}

-- SHSEM_COUNT and SHSEM_INDEX
abbrev pub shsem_count : ℕ
shsem_count = 1

abbrev pub shsem_index : ℕ
shsem_index = 0

-- The static variables `expiry` and `delta`, as `main` sets them before anything else.
pub record Globals : Type 0 where
  pub expiry : Bool
  pub delta : ℤ

abbrev pub globals : Globals
globals = record { expiry = false; delta = pos 0 }

-- A time_t from `ctime + expire - now`.
abbrev pub delta_of : (ctime expire now : ℕ) → ℤ
delta_of ctime expire now = sub_ℕ (ctime + expire) now

-- What `status` prints.
pub record Status : Type 0 where
  pub u : ℤ
  pub s : ℤ
  pub d : ℤ

-- What `summary` prints: the description of the semaphore, and the time that is left or `none`
-- when it has expired.
pub data Expires : Type 0 where
  never : Expires
  expired : Expires
  expires_in : ℤ → Expires

-- `int t = timeout==0 ? delta : min(delta, timeout)`
abbrev pub wait_time : (delta timeout : ℤ) → ℤ
wait_time delta timeout = to_int (if is_zero_ℤ timeout then delta else min_ℤ delta timeout)

module _ {W : Type 0} ⦃k : Kernel W⦄ where
  -- The part of `init` for a segment whose guard is there.
  unfoldable pub read_settings : Globals → Semaphore → SharedMemory → Cmd W (Globals × Semaphore)
  read_settings gl shsem shmem = do
    size ← Shm.read_uint shmem 0
    let shsem' = Sem.set_size shsem size
    flag ← Shm.read_uint shmem 1
    if flag == 0 then Shm.delete shmem false >> pure (record gl { expiry = false }, shsem') else do
      now ← k.time
      changed ← Sem.ctime shsem'
      expire ← Shm.read_uint shmem 2
      Shm.delete shmem false
      pure (record { expiry = true; delta = delta_of changed expire now }, shsem')

  -- `init`: every caller drops its result, so the globals and the object are all that is returned.
  unfoldable pub init : Globals → Semaphore → Cmd W (Globals × Semaphore)
  init gl shsem = do
    m ← Shm.attach shsem.key
    elim m [
      | none ↦ pure (gl, shsem)
      | some shmem ↦ elim shmem.shsem [
        | null ↦ pure (gl, shsem)
        | guard _ ↦ read_settings gl shsem shmem
        | unset ↦ crash
      ]
    ]

  -- The segment of `create`, with its four words.
  unfoldable pub write_settings : SharedMemory → (semaphores : ℕ) → (expire : ℤ) → Cmd W (Unit {0})
  write_settings shmem semaphores expire = do
    Shm.write_uint shmem 0 semaphores
    Shm.write_uint shmem 1 (if is_zero_ℤ expire then 0 else 1)
    Shm.write_uint shmem 2 (to_u32 expire)
    Shm.write_uint shmem 3 0

  unfoldable pub create : (key semaphores : ℕ) → (expire : ℤ) → Cmd W ℤ
  create key semaphores expire = do
    s ← Sem.new key shsem_count semaphores false
    elim s [
      | none ↦ pure minus_one
      | some shsem ↦ do
        m ← Shm.new key (4 * 4) false
        elim m [
          | none ↦ Sem.delete shsem false >> pure minus_one
          | some shmem ↦ do
            write_settings shmem semaphores expire
            Shm.delete shmem false
            Sem.delete shsem false
            pure (pos 0)
        ]
    ]

  -- The two halves of `delete`, each adding one to the result when there is nothing to delete.
  unfoldable pub delete_semaphore : ℕ → Cmd W ℕ
  delete_semaphore key = do
    s ← Sem.attach key
    elim s [ none ↦ pure 1 | some shsem ↦ Sem.delete shsem true >> pure 0 ]

  unfoldable pub delete_segment : ℕ → Cmd W ℕ
  delete_segment key = do
    m ← Shm.attach key
    elim m [ none ↦ pure 1 | some shmem ↦ Shm.delete shmem true >> pure 0 ]

  unfoldable pub delete : ℕ → Cmd W ℤ
  delete key = do a ← delete_semaphore key; b ← delete_segment key; pure (pos (a + b))

  -- `status` past the attach, once `init` has run.
  unfoldable pub report : Globals → Semaphore → Cmd W (ℤ × Status)
  report gl shsem =
      if gl.expiry && not (ltb_ℤ (pos 0) gl.delta)
      then pure (minus_one, record { u = minus_one; s = minus_one; d = minus_one })
      else do
        u ← Sem.used shsem shsem_index
        pure (
          pos 0,
          record {
            u = u;
            s = pos (Sem.size shsem);
            d = if gl.expiry then to_int gl.delta else minus_one;
          },
        )

  unfoldable pub status : Globals → ℕ → Cmd W (ℤ × Status)
  status gl key = do
    s ← Sem.attach key
    elim s [
      | none ↦ pure (minus_one, record { u = minus_one; s = minus_one; d = minus_one })
      | some shsem ↦ do (gl', shsem') ← init gl shsem; report gl' shsem'
    ]

  unfoldable pub summary : Globals → ℕ → Cmd W (ℤ × Option (Description × Expires))
  summary gl key = do
    s ← Sem.attach key
    elim s [
      | none ↦ pure (minus_one, none)
      | some shsem ↦ do
        (gl', shsem') ← init gl shsem
        d ← Sem.desc shsem' shsem_index
        Sem.delete shsem' false
        pure (
          pos 0,
          some (
            d,
            if gl'.expiry
                then (if ltb_ℤ (pos 0) gl'.delta then expires_in gl'.delta else expired)
                else never,
          ),
        )
    ]

  -- `lock` past `init`: the attempt, or the deletion of an expired set.
  unfoldable pub attempt : Globals → Semaphore → (key : ℕ) → (timeout : ℤ) → Cmd W ℤ
  attempt gl shsem key timeout =
      if gl.expiry
      then (if ltb_ℤ (pos 0) gl.delta
          then Sem.lock shsem shsem_index true (wait_time gl.delta timeout)
          else delete key >> pure minus_one)
      else Sem.lock shsem shsem_index true timeout

  -- `lock` past the check that the set exists.
  unfoldable pub lock_existing : Globals → (key : ℕ) → (timeout : ℤ) → Cmd W ℤ
  lock_existing gl key timeout = do
    s ← Sem.attach key
    elim s [
      | none ↦ pure minus_one
      | some shsem ↦ do
        (gl', shsem') ← init gl shsem
        e ← attempt gl' shsem' key timeout
        Sem.delete shsem' false
        pure e
    ]

  unfoldable pub lock : Globals → (key : ℕ) → (timeout : ℤ) → Cmd W ℤ
  lock gl key timeout = do
    there ← Sem.exists key
    if there then lock_existing gl key timeout else pure minus_one

  unfoldable pub unlock : Globals → ℕ → Cmd W ℤ
  unlock gl key = do
    s ← Sem.attach key
    elim s [
      | none ↦ pure minus_one
      | some shsem ↦ do
        (gl', shsem') ← init gl shsem
        e ← Sem.unlock shsem' shsem_index true
        Sem.delete shsem' false
        pure e
    ]
