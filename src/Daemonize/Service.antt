-- ===== src/Daemonize/Service.antt =====
-- `daemonize` of src/daemonize.c: the two forks, and the rounds in which the daemon runs the command
-- again and again. A `longjmp` from a waiting call is a round that starts with the signal; the
-- local variables keep their values over it.
use Prim.Native.String.{String}
use atomicles.Base.{
  ℕ, zero, suc, ◌+◌, ◌-◌, ◌%◌, ◌^◌, Bool, true, false, Option, none, some, List, [], ◌∷◌,
  if◌then◌else◌,
}
use atomicles.Base.Int.{pos, sub_ℕ, ltb_ℤ}
use atomicles.Sys.{Kernel}
use atomicles.Sys.Processes.{
  Processes, Signal, term, usr1, usr2, int, hup, chld, alrm, Fork, failed, child, parent,
  unreadable, unlimited, limit, Wait, exited, signaled, stopped, continued, no_child, caught,
}
use atomicles.Sys.Run.{Cmd, pure, ◌>>=◌, ◌>>◌}
use atomicles.Semaphore.{crash}
use atomicles.SharedMemory.{SharedMemory}
use atomicles.Daemonize.{
  Ending, returned, left, replaced, serving, nonzero, activate, active, set_pid, set_cpid, get_cpid,
  get_count, inc_count, cleanup, die,
}

-- The local variables of the loop.
pub record Locals : Type 0 where
  pub timer : ℕ
  pub failure_time : ℕ
  pub exec_time : ℕ

abbrev pub at_first : Locals
at_first = record { timer = 0; failure_time = 0; exec_time = 0 }

-- What follows a round: another, which starts with `setjmp` answering 0 (`none`) or a signal, or the
-- end of the function.
pub data Next : Type 0 where
  again : Locals → Option Signal → Next
  ended : Ending → Next

-- The signals that the daemon catches, in the order of the calls of `sigaction`.
abbrev pub handled : List Signal
handled = term ∷ usr1 ∷ usr2 ∷ int ∷ hup ∷ chld ∷ alrm ∷ []

-- More than five seconds between start and failure of the last run start the timer anew.
unfoldable pub reset_timer : Locals → Locals
reset_timer l =
    if ltb_ℤ (pos 5) (sub_ℕ l.failure_time l.exec_time) then record l { timer = 0 } else l

module _ {W : Type 0} ⦃k : Kernel W⦄ ⦃p : Processes W⦄ where
  unfoldable pub close_from : (i rounds : ℕ) → Cmd W (Unit {0})
  close_from i zero = pure tt
  close_from i (suc n) = p.close i >> close_from (i + 1) n

  -- `some` where `die` ended the process.
  unfoldable pub close_file_descriptors : Cmd W (Option Ending)
  unfolding close_from die
  close_file_descriptors = do
    l ← p.file_limit
    elim l [
      | unreadable ↦ do e ← die none; pure (some e)
      | unlimited ↦ close_from 0 1024 >> pure none
      | limit n ↦ close_from 0 n >> pure none
    ]

  -- The loop looks at the same status again: it ends at once, or only a signal ends it. A failed
  -- `waitpid` does not write the status: whether what is there is that of a child that is over is up
  -- to what the stack held.
  unfoldable pub inspect_status : Wait → Cmd W (Option Signal)
  inspect_status exited = pure none
  inspect_status signaled = pure none
  inspect_status stopped = do sig ← p.spin; pure (some sig)
  inspect_status continued = do sig ← p.spin; pure (some sig)
  inspect_status (no_child looks_ended) =
      if looks_ended then pure none else (p.spin >>= λ sig. pure (some sig))
  inspect_status (caught sig) = pure (some sig)

  unfoldable pub wait_for_signal : ℕ → Cmd W (Option Signal)
  unfolding inspect_status
  wait_for_signal cpid = do s ← p.waitpid cpid; inspect_status s

  -- Whether all the handlers could be set; the first failure ends the row.
  unfoldable pub install : List Signal → Cmd W Bool
  install [] = pure true
  install (s ∷ ss) = do ok ← p.sigaction s; if ok then install ss else pure false

  -- The condition of the loop behind `sleep`, unless a signal ended that.
  unfoldable pub loop_again : SharedMemory → Locals → Option Signal → Cmd W Next
  unfolding active
  loop_again shmem l (some sig) = pure (again l (some sig))
  loop_again shmem l none = do
    a ← active shmem
    pure (if nonzero a then again l none else ended returned)

  -- The end of a round. After `cleanup` the condition of the loop reads the freed object.
  unfoldable pub finish_round : SharedMemory → Locals → Cmd W Next
  unfolding active cleanup loop_again
  finish_round shmem l = do
    _ ← active shmem
    a ← active shmem
    if nonzero a
        then (p.doze (p.seconds l.timer)
            >>= loop_again shmem (record l { timer = (l.timer + 1) % 2 ^ 32 }))
        else (cleanup shmem >> crash)

  -- The child of the third fork.
  unfoldable pub become_command : SharedMemory → List String → Cmd W Next
  unfolding inc_count get_count die
  become_command shmem argv = do
    inc_count shmem
    _ ← get_count (some shmem)
    became ← p.execvp argv
    if became then pure (ended replaced) else (die (some shmem) >>= λ e. pure (ended e))

  -- Behind `wait_for_signal`, unless a signal jumped out of it.
  unfoldable pub note_failure : SharedMemory → Locals → Option Signal → Cmd W Next
  unfolding finish_round
  note_failure shmem l (some sig) = pure (again l (some sig))
  note_failure shmem l none = do now ← k.time; finish_round shmem (record l { failure_time = now })

  -- The daemon behind the third fork: it notes the child's id and waits.
  unfoldable pub watch_child : SharedMemory → ℕ → Locals → Cmd W Next
  unfolding set_cpid activate wait_for_signal note_failure
  watch_child shmem cpid l = do
    set_cpid shmem cpid
    activate shmem
    o ← wait_for_signal cpid
    note_failure shmem l o

  -- A failed fork has the id -1, and is taken for the parent's side.
  unfoldable pub take_side : SharedMemory → List String → Locals → Fork → Cmd W Next
  unfolding become_command watch_child
  take_side shmem argv l child = become_command shmem argv
  take_side shmem argv l failed = watch_child shmem (2 ^ 32 - 1) l
  take_side shmem argv l (parent cpid) = watch_child shmem cpid l

  unfoldable pub run_command : SharedMemory → List String → Locals → Cmd W Next
  unfolding take_side
  run_command shmem argv l = do f ← p.fork; take_side shmem argv l f

  unfoldable pub normal_round : SharedMemory → List String → Locals → Cmd W Next
  unfolding reset_timer install run_command die
  normal_round shmem argv l = do
    ok ← install handled
    if ok
        then (k.time >>= λ now. run_command shmem argv (record (reset_timer l) { exec_time = now }))
        else (die (some shmem) >>= λ e. pure (ended e))

  -- A round that a signal started.
  unfoldable pub signal_round : SharedMemory → Locals → Signal → Cmd W Next
  unfolding get_cpid die finish_round
  signal_round shmem l usr1 = do
    cpid ← get_cpid (some shmem)
    _ ← p.kill cpid usr1
    e ← die (some shmem)
    pure (ended e)
  signal_round shmem l usr2 = do e ← die (some shmem); pure (ended e)
  signal_round shmem l sig = do
    cpid ← get_cpid (some shmem)
    _ ← p.kill cpid sig
    finish_round shmem l

  unfoldable pub round : SharedMemory → List String → Locals → Option Signal → Cmd W Next
  unfolding normal_round signal_round
  round shmem argv l none = normal_round shmem argv l
  round shmem argv l (some sig) = signal_round shmem l sig

  -- What is done behind a round, when `rest` is the loop from the next round on.
  unfoldable pub follow : (Locals → Option Signal → Cmd W Ending) → Next → Cmd W Ending
  follow rest (again l o) = rest l o
  follow rest (ended e) = pure e

  -- The loop for so many rounds.
  unfoldable pub serve : ℕ → SharedMemory → List String → Locals → Option Signal → Cmd W Ending
  unfolding round follow
  serve zero shmem argv l o = pure serving
  serve (suc n) shmem argv l o = round shmem argv l o >>= follow (λ l' o'. serve n shmem argv l' o')

  -- From the change of the directory on.
  unfoldable pub run_daemon : ℕ → SharedMemory → List String → Cmd W Ending
  unfolding close_file_descriptors serve
  run_daemon rounds shmem argv = do
    _ ← p.chdir_root
    stop ← close_file_descriptors
    elim stop [ some e ↦ pure e | none ↦ serve rounds shmem argv at_first none ]

  -- A failed fork is reported, and the process goes on as if it were the child.
  unfoldable pub daemonize : ℕ → SharedMemory → List String → Cmd W Ending
  unfolding set_pid run_daemon
  daemonize rounds shmem argv = do
    _ ← p.umask 0
    f ← p.fork
    elim f [
      | parent _ ↦ pure returned
      | _ ↦ do
        p.setsid
        g ← p.fork
        elim g [ parent pid ↦ set_pid shmem pid >> pure left | _ ↦ run_daemon rounds shmem argv ]
    ]
