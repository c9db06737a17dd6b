-- ===== src/Syschk/Checks.antt =====
-- The checks of src/syschk.c as a whole: chk_open, chk_fork and chk_calloc with the messages they
-- leave.
use atomicles.Base.{
  ℕ, ◌*◌, ◌/◌, ◌%◌, ◌^◌, Bool, true, false, Option, none, some, List, [], ◌∷◌, if◌then◌else◌,
}
use atomicles.Base.Int.{pos}
use atomicles.Sys.{Kernel}
use atomicles.Sys.Run.{Cmd, aborted, blocked, pure, ◌>>=◌, ◌>>◌}
use atomicles.Semaphore.{crash}
use atomicles.SharedMemory.{SharedMemory}
use atomicles.SharedMemory as Shm
use atomicles.Syschk.{Host, Clock}
use atomicles.Syschk.Open.{Checked, chk_open}
use atomicles.Syschk.Calloc.{mega, chk_calloc}
use atomicles.Syschk.Fork.{Forks, Forked, reported, left_child, unfinished, do_fork}
use atomicles.Syschk.Messages.{Timeb, Chain, add_message}
use atomicles.Syschk.Prepare.{nofile, nproc, address_space, Control}

-- `ftime`; `sigaction` for SIGCHLD, which says whether it succeeded; and the `calloc` of a message in
-- Msg$addMessage, which says whether there was memory.
pub record Start (W : Type 0) : Type 0 where
  pub ftime : Cmd W Timeb
  pub new_message : Cmd W Bool
  pub sigaction : Cmd W Bool

-- How many rounds the loops are followed for.
pub record Rounds : Type 0 where
  pub opens : ℕ
  pub passes : ℕ
  pub forks : ℕ
  pub reads : ℕ
  pub lines : ℕ
  pub blocks : ℕ

-- What a check returns, the messages, and the static variables of `performance`.
pub record Progress : Type 0 where
  pub code : ℕ
  pub msg : Chain
  pub clock : Clock

abbrev pub open_name : List ℕ
open_name = b'O' ∷ b'P' ∷ b'E' ∷ b'N' ∷ []

abbrev pub fork_name : List ℕ
fork_name = b'P' ∷ b'R' ∷ b'O' ∷ b'C' ∷ []

abbrev pub calloc_name : List ℕ
calloc_name = b'C' ∷ b'A' ∷ b'L' ∷ b'L' ∷ b'O' ∷ b'C' ∷ []

-- The thresholds where IMPACT_LO is not set, and CALLOC_SIZE.
abbrev pub open_threshold : ℕ
open_threshold = 7000

abbrev pub fork_threshold : ℕ
fork_threshold = 500

abbrev pub calloc_threshold : ℕ
calloc_threshold = 100

abbrev pub calloc_size : ℕ
calloc_size = 32768

module _ {W : Type 0} ⦃h : Host W⦄ ⦃c : Control W⦄ ⦃s : Start W⦄ where
  -- The message at the end of a check, which started at `t`. A check whose rounds did not suffice has
  -- no end.
  unfoldable pub note :
      (code : ℕ) (name : List ℕ) → Timeb → (limit : ℕ) → Chain → Option Checked → Cmd W Progress
  unfolding add_message
  note code name t limit msg none = λ w. blocked
  note code name t limit msg (some r) = do
    granted ← s.new_message
    if granted
        then (s.ftime >>= λ now. pure (record {
          code = code;
          msg = add_message msg name t now limit r.reach r.reason;
          clock = r.clock;
        }))
        else crash

  -- chk_open as a whole; `e` is EXIT_FAILURE from the start.
  unfoldable pub check_open : (rounds : ℕ) → Chain → Clock → Cmd W Progress
  unfolding note chk_open
  check_open rounds msg clock = do
    t ← s.ftime
    l ← c.getrlimit nofile
    r ← chk_open (pos open_threshold) l.rlim_cur rounds clock
    note 1 open_name t l.rlim_cur msg r

  -- chk_calloc as a whole.
  unfoldable pub check_calloc : (rounds : ℕ) → Chain → Clock → Cmd W Progress
  unfolding note chk_calloc
  check_calloc rounds msg clock = do
    t ← s.ftime
    l ← c.getrlimit address_space
    r ← chk_calloc calloc_size (pos calloc_threshold) rounds clock
    note 0 calloc_name t (l.rlim_cur / mega) msg r

module _ {W : Type 0} ⦃k : Kernel W⦄ ⦃h : Host W⦄ ⦃f : Forks W⦄ ⦃c : Control W⦄ ⦃s : Start W⦄ where
  -- Behind do_fork, whose cleanup has set `forked` to 0, so that the `while` on it is passed over.
  unfoldable pub note_forks :
      SharedMemory → Timeb → (limit : ℕ) → Chain → Forked → Cmd W (Option Progress)
  unfolding add_message Shm.delete
  note_forks children t limit msg unfinished = λ w. blocked
  note_forks children t limit msg left_child = pure none
  note_forks children t limit msg (reported reach reason clock) = do
    granted ← s.new_message
    if granted
        then (s.ftime >>= λ now.
            Shm.delete children true
            >> pure (
                some (record {
                  code = 0;
                  msg = add_message msg fork_name t now limit reach reason;
                  clock = clock;
                })))
        else crash

  -- `assert(children != NULL)`
  unfoldable pub with_children :
      Rounds → Timeb → (limit : ℕ) → Chain → Clock → Option SharedMemory → Cmd W (Option Progress)
  unfolding note_forks do_fork
  with_children n t limit msg clock none = λ w. aborted
  with_children n t limit msg clock (some children) = do
    r ← do_fork children (pos fork_threshold) limit n.passes n.forks clock
    note_forks children t limit msg r

  -- The second attempt, where the first made no object.
  unfoldable pub or_new : (size : ℕ) → Option SharedMemory → Cmd W (Option SharedMemory)
  unfolding Shm.new
  or_new size none = Shm.new 0 size false
  or_new size (some children) = pure (some children)

  -- SHMEM_KEY is IPC_PRIVATE, 0.
  unfoldable pub chk_fork : Rounds → Chain → Clock → Cmd W (Option Progress)
  unfolding or_new with_children Shm.new
  chk_fork n msg clock = do
    t ← s.ftime
    ok ← s.sigaction
    if ok
        then (c.getrlimit nproc >>= λ l. Shm.new 0 (l.rlim_cur * 4 % 2 ^ 64) true >>= λ first.
            or_new (l.rlim_cur * 4 % 2 ^ 64) first >>= λ children.
            with_children n t l.rlim_cur msg clock children)
        else pure (some (record { code = 1; msg = msg; clock = clock }))
