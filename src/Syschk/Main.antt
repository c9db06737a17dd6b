-- ===== src/Syschk/Main.antt =====
-- `main` of src/syschk.c: the checks, each behind its preparation, and the table of their messages.
use atomicles.Base.{ℕ, ◌==◌, Option, none, some, List, if◌then◌else◌}
use atomicles.Sys.{Kernel}
use atomicles.Sys.Run.{Cmd, pure, ◌>>=◌}
use atomicles.Syschk.{Host, Clock}
use atomicles.Syschk.Fork.{Forks}
use atomicles.Syschk.Messages.{Chain, null}
use atomicles.Syschk.Proc.{Files, closed}
use atomicles.Syschk.Prepare.{Control, chk_open_prepare, chk_fork_prepare, chk_calloc_prepare}
use atomicles.Syschk.Dump.{Floats, Row, dump}
use atomicles.Syschk.Checks.{Start, Rounds, Progress, check_open, check_calloc, chk_fork}

-- `main` ends with an exit status and the table that it printed, or as a child that do_fork left by
-- `_exit`.
pub data Exit (F : Type 0) : Type 0 where
  exits : (code : ℕ) → List (Row F) → Exit F
  exits_child : Exit F

abbrev pub skipped : (code : ℕ) → Chain → Clock → Progress
skipped code msg clock = record { code = code; msg = msg; clock = clock }

module _ {W F : Type 0} ⦃k : Kernel W⦄ ⦃h : Host W⦄ ⦃f : Forks W⦄ ⦃p : Files W⦄ ⦃c : Control W⦄
    ⦃s : Start W⦄ ⦃fl : Floats F⦄ (n : Rounds) where
  -- The check of memory, and the end.
  unfoldable pub calloc_part : Progress → Cmd W (Exit F)
  unfolding chk_calloc_prepare check_calloc dump
  calloc_part before = do
    e ← chk_calloc_prepare n.reads n.lines closed
    r ←
        if e.0 == 0
        then check_calloc n.blocks before.msg before.clock
        else pure (skipped e.0 before.msg before.clock)
    pure (exits r.code (dump r.msg))

  unfoldable pub behind_fork : Option Progress → Cmd W (Exit F)
  unfolding calloc_part
  behind_fork none = pure exits_child
  behind_fork (some before) = calloc_part before

  unfoldable pub fork_part : Progress → Cmd W (Exit F)
  unfolding chk_fork_prepare chk_fork behind_fork
  fork_part before = do
    e ← chk_fork_prepare
    r ←
        if e == 0
        then chk_fork n before.msg before.clock
        else pure (some (skipped e before.msg before.clock))
    behind_fork r

  -- The static variables are 0 at the start.
  unfoldable pub main : Cmd W (Exit F)
  unfolding chk_open_prepare check_open fork_part
  main = do
    e ← chk_open_prepare
    r ←
        if e == 0
        then check_open n.opens null (record { t_last = 0; counter_last = 0 })
        else pure (skipped e null (record { t_last = 0; counter_last = 0 }))
    fork_part r
