-- ===== src/Daemonize.antt =====
-- src/daemonize.h and the helpers of src/daemonize.c: the four words that a daemon shares with the
-- command, and how they are given up. What syslog and printf write is left out, except where it is
-- all that a function computes. A pid_t is its bit pattern.
pub mod Service
pub mod Command
pub mod Main
pub mod Words
pub mod Report
pub mod Channel
pub mod Stop
pub mod Start
pub mod Release
pub mod Others
pub mod Rounds
pub mod Serve
use atomicles.Base.{ℕ, zero, suc, ◌+◌, ◌%◌, ◌^◌, Bool, true, false, Option, none, some}
use atomicles.Sys.{Kernel}
use atomicles.Sys.Processes.{Processes, probe}
use atomicles.Sys.Run.{Cmd, pure, ◌>>=◌, ◌>>◌}
use atomicles.Semaphore.{crash}
use atomicles.SharedMemory as Shm
use atomicles.SharedMemory.{SharedMemory, write_uint, read_uint}

abbrev pub offset_active : ℕ
offset_active = 0

abbrev pub offset_pid : ℕ
offset_pid = 1

abbrev pub offset_cpid : ℕ
offset_cpid = 2

abbrev pub offset_count : ℕ
offset_count = 3

-- SHMEM_SIZE, in bytes.
abbrev pub shmem_size : ℕ
shmem_size = 16

-- How a process leaves `daemonize`: by a return, by `_exit`, by becoming the command, or not yet.
pub data Ending : Type 0 where
  returned left replaced serving : Ending

-- What `daemonstr` writes: P or p and C or c tell whether the processes are there.
pub record Line : Type 0 where
  pub key : ℕ
  pub pid_there : Bool
  pub pid : ℕ
  pub cpid_there : Bool
  pub cpid : ℕ
  pub count : ℕ

-- A C condition on an integer.
abbrev pub nonzero : ℕ → Bool
nonzero zero = false
nonzero (suc n) = true

module _ {W : Type 0} ⦃k : Kernel W⦄ where
  unfoldable pub activate : SharedMemory → Cmd W (Unit {0})
  activate shmem = write_uint shmem offset_active 1

  unfoldable pub deactivate : SharedMemory → Cmd W (Unit {0})
  deactivate shmem = write_uint shmem offset_active 0

  unfoldable pub active : SharedMemory → Cmd W ℕ
  active shmem = read_uint shmem offset_active

  unfoldable pub set_pid : SharedMemory → ℕ → Cmd W (Unit {0})
  set_pid shmem pid = write_uint shmem offset_pid pid

  unfoldable pub set_cpid : SharedMemory → ℕ → Cmd W (Unit {0})
  set_cpid shmem cpid = write_uint shmem offset_cpid cpid

  -- The getters answer 0 for NULL.
  unfoldable pub get_pid : Option SharedMemory → Cmd W ℕ
  get_pid none = pure 0
  get_pid (some shmem) = read_uint shmem offset_pid

  unfoldable pub get_cpid : Option SharedMemory → Cmd W ℕ
  get_cpid none = pure 0
  get_cpid (some shmem) = read_uint shmem offset_cpid

  unfoldable pub get_count : Option SharedMemory → Cmd W ℕ
  get_count none = pure 0
  get_count (some shmem) = read_uint shmem offset_count

  unfoldable pub inc_count : SharedMemory → Cmd W (Unit {0})
  unfolding get_count
  inc_count shmem = do n ← get_count (some shmem); write_uint shmem offset_count (n + 1)

  -- `cleanup` frees the object; the caller's pointer to it stays as it is.
  unfoldable pub cleanup : SharedMemory → Cmd W (Unit {0})
  unfolding set_pid set_cpid
  cleanup shmem = do set_pid shmem 0; set_cpid shmem 0; Shm.delete shmem true

  -- The words are written before NULL is tested for.
  unfoldable pub die : Option SharedMemory → Cmd W Ending
  unfolding set_pid set_cpid deactivate
  die none = crash
  die (some shmem) = do
    set_pid shmem 0
    set_cpid shmem 0
    deactivate shmem
    Shm.delete shmem true
    pure left

  unfoldable pub daemonstr : ⦃p : Processes W⦄ → (key pid cpid count : ℕ) → Cmd W Line
  daemonstr ⦃p⦄ key pid cpid count = do
    here ← p.kill pid probe
    there ← p.kill cpid probe
    pure (record {
      key = key;
      pid_there = here;
      pid = pid;
      cpid_there = there;
      cpid = cpid;
      count = count;
    })
