-- ===== src/Daemonize/Command.antt =====
-- `start`, `stop` and `status` of src/daemonize.c. `argv` is the command and its arguments.
use Prim.Native.String.{String}
use atomicles.Base.{ℕ, zero, suc, Option, some, List, ◌&&◌, if◌then◌else◌}
use atomicles.Base.Int.{ℤ, pos, minus_one}
use atomicles.Sys.{Kernel}
use atomicles.Sys.Processes.{Processes, probe, usr1}
use atomicles.Sys.Run.{Cmd, pure, ◌>>=◌, ◌>>◌}
use atomicles.SharedMemory.{SharedMemory}
use atomicles.Daemonize.{
  Ending, returned, Line, nonzero, get_pid, get_cpid, get_count, cleanup, daemonstr,
}
use atomicles.Daemonize.Service.{daemonize}

-- What `status` prints behind the line.
pub data Verdict : Type 0 where
  missing dead recovering alive : Verdict

-- A process that ran `start` comes back with its result, or leaves in `daemonize`.
pub data Started : Type 0 where
  code : ℤ → Started
  gone : Ending → Started

module _ {W : Type 0} ⦃k : Kernel W⦄ ⦃p : Processes W⦄ where
  -- The loop behind `daemonize`, with so many rounds left; it answers the last pid and cpid.
  unfoldable pub await_daemon : ℕ → SharedMemory → (pid cpid : ℕ) → Cmd W (ℕ × ℕ)
  unfolding get_pid get_cpid
  await_daemon zero shmem pid cpid = pure (pid, cpid)
  await_daemon (suc c) shmem _ _ = do
    pid ← get_pid (some shmem)
    cpid ← get_cpid (some shmem)
    if nonzero pid && nonzero cpid
        then pure (pid, cpid)
        else (k.sleep 1 >> await_daemon c shmem pid cpid)

  -- `daemonize`, and the wait of a process that comes back from it.
  unfoldable pub launch :
      (rounds : ℕ) → List String → SharedMemory → (pid cpid count : ℕ) → Cmd W Started
  unfolding daemonize await_daemon daemonstr
  launch rounds argv shmem pid cpid count = do
    e ← daemonize rounds shmem argv
    elim e [
      | returned ↦ do
        ids ← await_daemon 5 shmem pid cpid
        _ ← daemonstr shmem.key ids.0 ids.1 count
        pure (code (pos 0))
      | other ↦ pure (gone other)
    ]

  -- `rounds` is for how many rounds the daemon is observed.
  unfoldable pub start : (rounds : ℕ) → List String → SharedMemory → Cmd W Started
  unfolding get_pid get_cpid get_count daemonstr launch
  start rounds argv shmem = do
    pid ← get_pid (some shmem)
    cpid ← get_cpid (some shmem)
    count ← get_count (some shmem)
    if nonzero cpid && nonzero pid
        then (daemonstr shmem.key pid cpid count >> pure (code minus_one))
        else launch rounds argv shmem pid cpid count

  -- The signals of `stop`, to the child first.
  unfoldable pub kill_both : SharedMemory → (pid cpid : ℕ) → Cmd W ℤ
  unfolding cleanup
  kill_both shmem pid cpid = do
    child_told ← p.kill cpid usr1
    if child_told
        then (p.kill pid usr1 >>= λ told.
            if told then cleanup shmem >> pure (pos 0) else pure (pos 3))
        else pure (pos 2)

  unfoldable pub stop : SharedMemory → Cmd W ℤ
  unfolding get_pid get_cpid get_count daemonstr kill_both
  stop shmem = do
    pid ← get_pid (some shmem)
    cpid ← get_cpid (some shmem)
    count ← get_count (some shmem)
    _ ← daemonstr shmem.key pid cpid count
    if nonzero pid && nonzero cpid then kill_both shmem pid cpid else pure (pos 1)

  -- Which of the processes are there.
  unfoldable pub judge : (pid cpid : ℕ) → Cmd W Verdict
  judge pid cpid = do
    here ← p.kill pid probe
    if here
        then (p.kill cpid probe >>= λ there. pure (if there then alive else recovering))
        else pure dead

  -- The result is 0; the verdict and the line are printed.
  unfoldable pub status : Option SharedMemory → (key : ℕ) → Cmd W (ℤ × Verdict × Line)
  unfolding get_pid get_cpid get_count daemonstr judge
  status shmem key = do
    pid ← get_pid shmem
    cpid ← get_cpid shmem
    count ← get_count shmem
    line ← daemonstr key pid cpid count
    verdict ← if nonzero pid && nonzero cpid then judge pid cpid else pure missing
    pure (pos 0, verdict, line)
