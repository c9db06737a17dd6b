-- ===== src/Sys/Processes.antt =====
-- Processes and signals as a parameter: the system calls of src/daemonize.c. A signal that the
-- program catches ends in a `longjmp`; it is taken to arrive in a call that waits, whose answer then
-- names the signal.
use Prim.Native.String.{String}
use atomicles.Base.{ℕ, ◌≡◌, Bool, List, Option}
use atomicles.Sys.Run.{Cmd, Returns}
use atomicles.Sys.View.{View}

-- `probe` is the signal 0 of `kill`.
pub data Signal : Type 0 where
  probe term usr1 usr2 int hup chld alrm : Signal

-- `fork` answers -1, 0 in the child, or the child's id.
pub data Fork : Type 0 where
  failed child : Fork
  parent : ℕ → Fork

-- RLIMIT_NOFILE
pub data FileLimit : Type 0 where
  unreadable unlimited : FileLimit
  limit : ℕ → FileLimit

-- `waitpid`: the child ended, or only stopped or went on, or there is none to wait for, nor to be
-- waited for any more (-1), with a status that was not written and looks like that of an ended child or
-- not; or a signal arrived.
pub data Wait : Type 0 where
  exited signaled stopped continued : Wait
  no_child : Bool → Wait
  caught : Signal → Wait

-- A Boolean answer is true for success. `spin` is a loop that goes round until a signal arrives,
-- `doze` is a `sleep` that a signal can end, `execvp` answers true where the process becomes another
-- program. `seconds n` is `exp(n) - 1` as the argument of `sleep`.
pub record Processes (W : Type 0) : Type 0 where
  pub kill : ℕ → Signal → Cmd W Bool
  pub fork : Cmd W Fork
  pub umask : ℕ → Cmd W (Unit {0})
  pub setsid : Cmd W (Unit {0})
  pub chdir_root : Cmd W Bool
  pub file_limit : Cmd W FileLimit
  pub close : ℕ → Cmd W (Unit {0})
  pub sigaction : Signal → Cmd W Bool
  pub waitpid : ℕ → Cmd W Wait
  pub spin : Cmd W Signal
  pub doze : ℕ → Cmd W (Option Signal)
  pub execvp : List String → Cmd W Bool
  pub seconds : ℕ → ℕ

-- The manual pages: `kill` answers whether there is such a process to be signalled, which takes no
-- notice before the caller waits; the calls below `kill` touch no table.
pub record SignalLaws {W : Type 0} (p : Processes W) (view : W → View) : Type 0 where
  pub kill_ok :
      (w : W) (pid : ℕ) (s : Signal)
      → Returns (λ r w'. (r ≡ (view w).procs pid) × (view w' ≡ view w)) (p.kill pid s w)
  pub umask_ok : (w : W) (mask : ℕ) → Returns (λ _ w'. view w' ≡ view w) (p.umask mask w)
  pub setsid_ok : (w : W) → Returns (λ _ w'. view w' ≡ view w) (p.setsid w)
  pub sigaction_ok : (w : W) (s : Signal) → Returns (λ _ w'. view w' ≡ view w) (p.sigaction s w)
