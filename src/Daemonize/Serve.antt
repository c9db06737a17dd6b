-- ===== src/Daemonize/Serve.antt =====
-- The daemon of src/daemonize.c over any number of rounds.
use Prim.Native.String.{String}
use atomicles.Base.{ℕ, zero, suc, ◌≤◌, Option, none, some, List}
use atomicles.Sys.{Kernel}
use atomicles.Sys.Processes.{Processes, SignalLaws, Signal}
use atomicles.Sys.Run
use atomicles.Sys.Run.{Cmd, Returns, returns}
use atomicles.Sys.View.{SemSet}
use atomicles.Sys.Laws.{Laws}
use atomicles.SharedMemory.{SharedMemory}
use atomicles.SharedMemory.Life.{mapped}
use atomicles.Daemonize.{Ending}
use atomicles.Daemonize.Service.{Locals, Next, again, ended, round, follow, serve}
use atomicles.Daemonize.Others.{IsNoted, IsActive, Over, After, Others}
use atomicles.Daemonize.Rounds.{normal_lem, signal_lem}

module _ {W : Type 0} ⦃k : Kernel W⦄ (laws : Laws k) (key id size addr guard_id : ℕ) (s : SemSet)
    (pid : ℕ) where
  -- What a round starts from: the words as the second fork left them, or an active daemon that a
  -- signal reached.
  abbrev pub IsReadyFor : Option Signal → W → Type 0
  IsReadyFor none w = IsNoted laws key id size addr guard_id s pid w
  IsReadyFor (some sig) w = IsActive laws key id size addr guard_id s pid w

module _ {W : Type 0} ⦃k : Kernel W⦄ ⦃p : Processes W⦄ (laws : Laws k)
    (signals : SignalLaws p laws.view) (key id size addr guard_id : ℕ) (s : SemSet) (pid : ℕ)
    (fits : size ≤ 16) (others : Others p laws key id size addr guard_id s) where
  abbrev shmem : SharedMemory
  shmem = mapped key id size addr guard_id

  abbrev Ready : Option Signal → W → Type 0
  Ready = IsReadyFor laws key id size addr guard_id s pid

  IsActive-Ready :
      {w : W} (o : Option Signal) → IsActive laws key id size addr guard_id s pid w → Ready o w
  IsActive-Ready none (cpid, words) = (1, cpid, words)
  IsActive-Ready (some sig) active = active

  round_lem :
      (w : W) (argv : List String) (l : Locals) (o : Option Signal)
      → Ready o w
      → Returns (After laws key id size addr guard_id s pid) (round shmem argv l o w)
  unfolding round
  round_lem w argv l none ready =
      normal_lem laws signals key id size addr guard_id s pid fits others argv l ready
  round_lem w argv l (some sig) ready =
      signal_lem laws signals key id size addr guard_id s pid fits others l sig ready

  follow_lem :
      {w : W} (rest : Locals → Option Signal → Cmd W Ending) (next : Next)
      → ((l : Locals) (o : Option Signal)
          → IsActive laws key id size addr guard_id s pid w
          → Returns (Over laws key id size addr guard_id s pid) (rest l o w))
      → After laws key id size addr guard_id s pid next w
      → Returns (Over laws key id size addr guard_id s pid) (follow rest next w)
  unfolding follow
  follow_lem rest (again l o) further active = further l o active
  follow_lem rest (ended e) further over = returns over

  go_on :
      (w : W) (n : ℕ) (argv : List String) (l : Locals) (o : Option Signal)
      → IsActive laws key id size addr guard_id s pid w
      → Returns (Over laws key id size addr guard_id s pid) (serve n shmem argv l o w)
  unfolding serve
  go_on w zero argv l o active = returns active
  go_on w (suc n) argv l o active =
      Run.bind (round_lem w argv l o (IsActive-Ready {w = w} o active))
        λ next w1 after. follow_lem (serve n shmem argv) next (go_on w1 n argv) after

  -- With the size within the segment, and while other processes, whenever the daemon forks, waits,
  -- sleeps or calls execvp, change no word but the count and leave the guard free (behind an
  -- execvp only when it failed): over any positive number of rounds, from a start or from a signal that
  -- reached the active daemon, the daemon neither faults nor returns. It goes on as active, noted
  -- under its pid; or the process became the command; or it exited and the
  -- segment, its mapping and its guard are gone.
  pub serve-Over :
      (w : W) (rounds : ℕ) (argv : List String) (l : Locals) (o : Option Signal)
      → IsReadyFor laws key id size addr guard_id s pid o w
      → Returns
          (Over laws key id size addr guard_id s pid)
          (serve (suc rounds) (mapped key id size addr guard_id) argv l o w)
  unfolding serve
  serve-Over w rounds argv l o ready =
      Run.bind (round_lem w argv l o ready)
        λ next w1 after. follow_lem (serve rounds shmem argv) next (go_on w1 rounds argv) after
