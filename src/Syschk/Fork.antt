-- ===== src/Syschk/Fork.antt =====
-- `do_fork` and `chk_fork_cleanup` of src/syschk.c: processes are forked until that fails or gets slow,
-- and their ids are noted in shared memory.
use atomicles.Base.{ℕ, zero, suc, ◌+◌, Bool, true, false, ltb, if◌then◌else◌}
use atomicles.Base.Int.{ℤ, ltb_ℤ}
use atomicles.Sys.{Kernel}
use atomicles.Sys.Run.{Cmd, pure, ◌>>=◌, ◌>>◌, assert}
use atomicles.SharedMemory.{SharedMemory, write_uint, read_uint}
use atomicles.Syschk.{
  Host, Clock, Reason, no_memory, no_processes, threshold, unknown, Refusal, enomem, eagain, Answer,
  got, refused, performance,
}
use atomicles.Syschk.Open.{is_unknown}

-- The system calls about processes: `fork` answers 0 in the child, and `kill_group` is SIGCHLD for
-- the own process group.
pub record Forks (W : Type 0) : Type 0 where
  pub fork : Cmd W Answer
  pub pause : Cmd W (Unit {0})
  pub kill_group : Cmd W Bool

-- How a process leaves `do_fork`: with a report, through `_exit` as a child, or not yet.
pub data Forked : Type 0 where
  reported : (reach : ℕ) → Reason → Clock → Forked
  left_child unfinished : Forked

-- The `switch` on `errno`; `reason` is STR_UNKNWN before.
unfoldable pub fork_reason : Refusal → Reason
fork_reason eagain = no_processes
fork_reason enomem = no_memory
fork_reason _ = unknown

abbrev pub is_pid : ℕ → Bool
is_pid zero = false
is_pid (suc n) = true

module _ {W : Type 0} ⦃k : Kernel W⦄ ⦃h : Host W⦄ ⦃f : Forks W⦄ (children : SharedMemory) where
  -- Whether the words from `i` on, so many, hold process ids; the first one that does not ends it.
  unfoldable pub scan : (words i : ℕ) → Cmd W Bool
  scan zero i = pure true
  scan (suc n) i = do pid ← read_uint children i; if is_pid pid then scan n (i + 1) else pure false

  -- The passes of the loop, and whether one found all ids within so many.
  unfoldable pub verify : (passes forked_max : ℕ) → Cmd W Bool
  unfolding scan
  verify zero forked_max = pure false
  verify (suc n) forked_max = do
    all ← scan forked_max 0
    k.sleep 1
    if all then pure true else verify n forked_max

  -- The end of chk_fork_cleanup, which sets `forked` to 0, and of do_fork behind it.
  unfoldable pub finish_forks : (forked : ℕ) → Reason → Clock → Bool → Cmd W Forked
  finish_forks forked reason c false = pure unfinished
  finish_forks forked reason c true = do
    killed ← f.kill_group
    assert killed
    pure (reported forked reason c)

  unfoldable pub clean_forks : (passes forked : ℕ) → Reason → Clock → Cmd W Forked
  unfolding verify finish_forks
  clean_forks passes forked reason c = do
    all ← verify passes forked
    finish_forks forked reason c all

  module _ (limit : ℤ) (lim passes : ℕ) where
    -- The parent's side, when `rest` is the loop from there on.
    unfoldable pub note_child : (ℕ → Clock → Cmd W Forked) → (forked : ℕ) → Clock → ℕ → Cmd W Forked
    unfolding clean_forks
    note_child rest forked c pid =
        if ltb forked lim
        then (write_uint children forked pid >>= λ _. performance c forked 1 >>= λ r.
            if is_unknown r.0
            then rest (forked + 1) r.1
            else if ltb_ℤ r.0 limit
            then clean_forks passes forked threshold r.1
            else rest forked r.1)
        else clean_forks passes forked unknown c

    unfoldable pub fork_next :
        (ℕ → Clock → Cmd W Forked) → (forked : ℕ) → Clock → Answer → Cmd W Forked
    unfolding note_child fork_reason clean_forks
    fork_next rest forked c (refused e) = clean_forks passes forked (fork_reason e) c
    fork_next rest forked c (got zero) = f.pause >> pure left_child
    fork_next rest forked c (got (suc n)) = note_child rest forked c (suc n)

    -- The loop, for so many forks.
    unfoldable pub fork_rounds : ℕ → (forked : ℕ) → Clock → Cmd W Forked
    unfolding fork_next
    fork_rounds zero forked c = pure unfinished
    fork_rounds (suc n) forked c = do a ← f.fork; fork_next (fork_rounds n) forked c a

-- `limit` is the threshold, `lim` the limit that `getrlimit` answers; `forked` is 0 at first.
unfoldable pub do_fork :
    {W : Type 0} ⦃k : Kernel W⦄ ⦃h : Host W⦄ ⦃f : Forks W⦄ (children : SharedMemory) (limit : ℤ)
    (lim passes rounds : ℕ)
    → Clock
    → Cmd W Forked
unfolding fork_rounds
do_fork children limit lim passes rounds c = fork_rounds children limit lim passes rounds 0 c
