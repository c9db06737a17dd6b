-- ===== src/Daemonize/Rounds.antt =====
-- One round of the daemon's loop, src/daemonize.c: what it makes of the shared words.
use Prim.Native.String.{String}
use atomicles.Base.{
  ℕ, ◌+◌, ◌-◌, ◌%◌, ◌^◌, ◌≤◌, ◌≡◌, refl, ◌∙◌, true, false, Bool-cases, inl, inr, Option, none, some,
  List, [], ◌∷◌,
}
use atomicles.Sys.{Kernel}
use atomicles.Sys.Processes.{
  Processes, SignalLaws, Signal, probe, term, usr1, usr2, int, hup, chld, alrm, Fork, failed, child,
  parent, Wait, exited, signaled, stopped, continued, no_child, caught,
}
use atomicles.Sys.Run
use atomicles.Sys.Run.{Cmd, Returns, returns, ◌>>=◌, ◌>>◌}
use atomicles.Sys.View.{SemSet}
use atomicles.Sys.Laws.{Laws}
use atomicles.SharedMemory.{SharedMemory}
use atomicles.SharedMemory.Life.{mapped}
use atomicles.Daemonize.{get_cpid}
use atomicles.Daemonize.Service.{
  Locals, Next, handled, reset_timer, inspect_status, wait_for_signal, install, loop_again,
  finish_round, become_command, note_failure, watch_child, take_side, run_command, normal_round,
  signal_round,
}
use atomicles.Daemonize.Release.{die_round}
use atomicles.Daemonize.Others.{Counts, IsNoted, IsActive, After, Others}
use atomicles.Daemonize.Words.{
  Shared, active_lem, get_cpid_lem, get_count_lem, set_active_lem, set_cpid_lem, inc_count_lem,
}

module _ {W : Type 0} ⦃k : Kernel W⦄ ⦃p : Processes W⦄ (laws : Laws k)
    (signals : SignalLaws p laws.view) (key id size addr guard_id : ℕ) (s : SemSet) (pid : ℕ)
    (fits : size ≤ 16) (others : Others p laws key id size addr guard_id s) where
  open laws use {view}

  abbrev shmem : SharedMemory
  shmem = mapped key id size addr guard_id

  abbrev Words : Shared → W → Type 0
  Words = Counts laws key id size addr guard_id s

  abbrev Active : W → Type 0
  Active = IsActive laws key id size addr guard_id s pid

  abbrev Done : Next → W → Type 0
  Done = After laws key id size addr guard_id s pid

  abbrev noted_as : (a cpid : ℕ) → Shared
  noted_as a cpid = record { active = a; pid = pid; cpid = cpid; count = 0 }

  install_lem : {w : W} (ss : List Signal) → Returns (λ _ w'. view w' ≡ view w) (install ss w)
  unfolding install
  install_lem {w} [] = returns refl
  install_lem {w} (sig ∷ ss) = Run.bind (signals.sigaction_ok w sig) λ ok w1 same.
      elim (Bool-cases ok) [
        | inl set_up ↦ rw set_up (Run.mono (install_lem {w = w1} ss) λ _ w2 same2. same2 ∙ same)
        | inr refused ↦ rw refused (returns same)
      ]

  loop_again_lem :
      {w : W} (cpid : ℕ) (l : Locals) (o : Option Signal)
      → Words (noted_as 1 cpid) w
      → Returns Done (loop_again shmem l o w)
  unfolding loop_again
  loop_again_lem cpid l (some sig) words = returns (cpid, words)
  loop_again_lem cpid l none (n, ready) =
      Run.bind (active_lem laws key id size addr guard_id ready)
        λ a w1 (e, same). rw e (returns (cpid, (n, rw same ready)))

  finish_lem :
      {w : W} (cpid : ℕ) (l : Locals)
      → Words (noted_as 1 cpid) w
      → Returns Done (finish_round shmem l w)
  unfolding finish_round
  finish_lem {w} cpid l (n, ready) =
      Run.bind (active_lem laws key id size addr guard_id ready) λ a w1 (_, s1).
        Run.bind
          (active_lem laws key id size addr guard_id {s = s}
            {x = record (noted_as 1 cpid) { count = n }} (rw s1 ready))
          λ b w2 (e2, s2). rw e2 (
            Run.bind (others.dozes (noted_as 1 cpid) (p.seconds l.timer) w2 (n, rw (s2, s1) ready))
              λ o w3 slept.
                loop_again_lem cpid (record l { timer = (l.timer + 1) % 2 ^ 32 }) o slept)

  inspect_lem :
      {w : W} (cpid : ℕ) (a : Wait)
      → Words (noted_as 1 cpid) w
      → Returns (λ _ w'. Words (noted_as 1 cpid) w') (inspect_status a w)
  unfolding inspect_status
  inspect_lem cpid exited words = returns words
  inspect_lem cpid signaled words = returns words
  inspect_lem {w} cpid stopped words =
      Run.bind (others.spins (noted_as 1 cpid) w words) λ _ w1 spun. returns spun
  inspect_lem {w} cpid continued words =
      Run.bind (others.spins (noted_as 1 cpid) w words) λ _ w1 spun. returns spun
  inspect_lem cpid (no_child true) words = returns words
  inspect_lem {w} cpid (no_child false) words =
      Run.bind (others.spins (noted_as 1 cpid) w words) λ _ w1 spun. returns spun
  inspect_lem cpid (caught sig) words = returns words

  note_failure_lem :
      {w : W} (cpid : ℕ) (l : Locals) (o : Option Signal)
      → Words (noted_as 1 cpid) w
      → Returns Done (note_failure shmem l o w)
  unfolding note_failure
  note_failure_lem cpid l (some sig) words = returns (cpid, words)
  note_failure_lem {w} cpid l none (n, ready) =
      Run.bind (laws.time_ok w)
        λ now w1 (_, same). finish_lem cpid (record l { failure_time = now }) (n, rw same ready)

  watch_lem :
      {w : W} (a c cpid : ℕ) (l : Locals)
      → Words (noted_as a c) w
      → Returns Done (watch_child shmem cpid l w)
  unfolding watch_child wait_for_signal
  watch_lem {w} a c cpid l (n, ready) =
      Run.bind (set_cpid_lem laws key id size addr guard_id ready cpid) λ _ w1 (r1, _).
        Run.bind (set_active_lem laws key id size addr guard_id r1) λ _ w2 (r2, _).
          Run.bind {P = λ _ w'. Words (noted_as 1 (cpid % 2 ^ 32)) w'}
            (Run.bind (others.waits (noted_as 1 (cpid % 2 ^ 32)) cpid w2 (n, r2))
              λ st w3 waited. inspect_lem (cpid % 2 ^ 32) st waited)
            λ o w4 words. note_failure_lem (cpid % 2 ^ 32) l o words

  become_lem :
      {w : W} (a c : ℕ) (argv : List String)
      → Words (noted_as a c) w
      → Returns Done (become_command shmem argv w)
  unfolding become_command
  become_lem {w} a c argv (n, ready) =
      Run.bind (inc_count_lem laws key id size addr guard_id ready) λ _ w1 r1.
        Run.bind (get_count_lem laws key id size addr guard_id r1) λ _ w2 (_, same).
          Run.bind (others.execs (noted_as a c) argv w2 ((n + 1) % 2 ^ 32, rw same r1))
            λ became w3 words. elim (Bool-cases became) [
              | inl ran ↦ rw ran (returns tt)
              | inr failed_to ↦ rw failed_to (
                  Run.bind
                    (die_round laws key id size addr guard_id fits (noted_as a c) {s = s}
                      (words failed_to))
                    λ e w4 (at_end, over). rw at_end (returns over))
            ]

  take_side_lem :
      {w : W} (a c : ℕ) (argv : List String) (l : Locals) (f : Fork)
      → Words (noted_as a c) w
      → Returns Done (take_side shmem argv l f w)
  unfolding take_side
  take_side_lem a c argv l child words = become_lem a c argv words
  take_side_lem a c argv l failed words = watch_lem a c (2 ^ 32 - 1) l words
  take_side_lem a c argv l (parent cpid) words = watch_lem a c cpid l words

  pub normal_lem :
      {w : W} (argv : List String) (l : Locals)
      → IsNoted laws key id size addr guard_id s pid w
      → Returns Done (normal_round shmem argv l w)
  unfolding normal_round run_command
  normal_lem {w} argv l (a, c, (n, ready)) = Run.bind (install_lem {w = w} handled) λ ok w1 same.
      elim (Bool-cases ok) [
        | inl set_up ↦ rw set_up (
            Run.bind (laws.time_ok w1) λ now w2 (_, same2).
              Run.bind (others.forks (noted_as a c) w2 (n, rw (same2, same) ready)) λ f w3 words.
                take_side_lem a c argv (record (reset_timer l) { exec_time = now }) f words)
        | inr refused ↦ rw refused (
            Run.bind
              (die_round laws key id size addr guard_id fits (noted_as a c) {s = s}
                (n, rw same ready))
              λ e w2 (at_end, over). rw at_end (returns over))
      ]

  -- A signal that is passed on.
  pass_on :
      {w : W} (l : Locals) (sig : Signal)
      → Active w
      → Returns Done ((get_cpid (some shmem) >>= λ cpid. p.kill cpid sig >> finish_round shmem l) w)
  pass_on {w} l sig (c, (n, ready)) =
      Run.bind (get_cpid_lem laws key id size addr guard_id ready) λ cpid w1 (_, same).
        Run.bind (signals.kill_ok w1 cpid sig)
          λ _ w2 (_, same2). finish_lem c l (n, rw (same2, same) ready)

  pub signal_lem :
      {w : W} (l : Locals) (sig : Signal) → Active w → Returns Done (signal_round shmem l sig w)
  unfolding signal_round
  signal_lem {w} l usr1 (c, (n, ready)) =
      Run.bind (get_cpid_lem laws key id size addr guard_id ready) λ cpid w1 (_, same).
        Run.bind (signals.kill_ok w1 cpid usr1) λ _ w2 (_, same2).
          Run.bind
            (die_round laws key id size addr guard_id fits (noted_as 1 c) {s = s}
              (n, rw (same2, same) ready))
            λ e w3 (at_end, over). rw at_end (returns over)
  signal_lem l usr2 (c, words) =
      Run.bind (die_round laws key id size addr guard_id fits (noted_as 1 c) {s = s} words)
        λ e w1 (at_end, over). rw at_end (returns over)
  signal_lem l probe active = pass_on l probe active
  signal_lem l term active = pass_on l term active
  signal_lem l int active = pass_on l int active
  signal_lem l hup active = pass_on l hup active
  signal_lem l chld active = pass_on l chld active
  signal_lem l alrm active = pass_on l alrm active
