-- ===== src/Sys.antt =====
-- The operating system as a parameter: the system calls and the C library functions that
-- src/Semaphore.c, src/SharedMemory.c and src/lock.c call. None of them is defined here: the
-- program's functions take a value of `Kernel`, and the theorems take what the manual pages say of
-- it as a value of `Laws` (Sys/Laws.antt).
pub mod Run
pub mod Frame
pub mod View
pub mod Tables
pub mod Laws
pub mod Sim
pub mod Processes
use atomicles.Base.{ℕ, ◌^◌, ◌-◌, Bool, List, Option}
use atomicles.Base.Int.{ℤ}
use Run.{Cmd}

-- The values of `errno` that the program tells apart.
pub data Errno : Type 0 where
  eacces eagain eexist eidrm einval enfile enoent enomem enospc eperm erange : Errno
  other : ℕ → Errno

-- A call's result: its value, or -1 with `errno`.
pub data Reply (A : Type 0) : Type 0 where
  got : A → Reply A
  failed : Errno → Reply A

-- SHMKEYPATH and SEMKEYPATH of common.h
pub data KeyFile : Type 0 where
  dev_zero dev_null : KeyFile

-- `struct sembuf`: `undo` and `nowait` are the bits SEM_UNDO and IPC_NOWAIT of `sem_flg`.
pub record Sembuf : Type 0 where
  pub sem_num : ℕ
  pub sem_op : ℤ
  pub undo : Bool
  pub nowait : Bool

-- The fields of `struct semid_ds` that the program reads.
pub record SemidDs : Type 0 where
  pub sem_nsems : ℕ
  pub sem_ctime : ℕ

-- A key_t is its bit pattern, so (key_t)-1 is this number.
abbrev pub no_key : ℕ
no_key = 2 ^ 32 - 1

-- `W` is everything outside the process and its memory. `malloc` answers `none` for NULL, and for
-- a block the number that its uninitialised `size_t` field happens to hold. The flag of `semget`
-- and `shmget` is set for IPC_CREAT|IPC_EXCL and clear for IPC_EXCL alone. `peek` and `poke` are an
-- array access through the pointer that `shmat` returned.
pub record Kernel (W : Type 0) : Type 0 where
  pub malloc : Cmd W (Option ℕ)
  pub ftok : KeyFile → ℕ → ℕ
  pub semget : ℕ → ℕ → Bool → Cmd W (Reply ℕ)
  pub semctl_rmid : ℕ → Cmd W (Reply (Unit {0}))
  pub semctl_setall : ℕ → List ℕ → Cmd W (Reply (Unit {0}))
  pub semctl_getval : ℕ → ℕ → Cmd W (Reply ℕ)
  pub semctl_stat : ℕ → Cmd W (Reply SemidDs)
  pub semop : ℕ → Sembuf → Cmd W (Reply (Unit {0}))
  pub shmget : ℕ → ℕ → Bool → Cmd W (Reply ℕ)
  pub shmat : ℕ → Cmd W (Reply ℕ)
  pub shmdt : ℕ → Cmd W (Reply (Unit {0}))
  pub shmctl_rmid : ℕ → Cmd W (Reply (Unit {0}))
  pub peek : ℕ → ℕ → Cmd W ℕ
  pub poke : ℕ → ℕ → ℕ → Cmd W (Unit {0})
  pub memset : ℕ → ℕ → Cmd W (Unit {0})
  pub mlockall : Cmd W (Reply (Unit {0}))
  pub mlock : ℕ → ℕ → Cmd W (Reply (Unit {0}))
  pub munlockall : Cmd W (Reply (Unit {0}))
  pub sleep : ℕ → Cmd W (Unit {0})
  pub time : Cmd W ℕ
