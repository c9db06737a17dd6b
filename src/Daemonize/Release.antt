-- ===== src/Daemonize/Release.antt =====
-- The end of the daemon, src/daemonize.c: `die` gives everything up, and the signals that lead to it.
use Prim.Native.String.{String}
use atomicles.Base.{ℕ, suc, ◌≤◌, ◌≡◌, refl, none, some, List}
use atomicles.Sys.{Kernel}
use atomicles.Sys.Processes.{Processes, SignalLaws, Signal, usr1, usr2}
use atomicles.Sys.Run
use atomicles.Sys.Run.{Returns, returns}
use atomicles.Sys.View.{View, SemSet}
use atomicles.Sys.Tables.{update_self}
use atomicles.Sys.Laws.{Laws}
use atomicles.SharedMemory.Life.{mapped}
use atomicles.Daemonize.{left, die}
use atomicles.Daemonize.Service.{Locals, ended, round, signal_round, follow, serve}
use atomicles.Daemonize.Words.{Shared, IsShared, get_cpid_lem, die_lem}

-- The segment, its mapping and its guard are there no more.
pub record IsReleased (id addr guard_id : ℕ) (v : View) : Type 0 where
  pub no_guard : v.sems guard_id ≡ none
  pub no_segment : v.shms id ≡ none
  pub no_map : v.maps addr ≡ none

-- The signals that end the daemon.
pub data IsDeadly : Signal → Type 0 where
  kill_all : IsDeadly usr1
  kill_daemon : IsDeadly usr2

module _ {W : Type 0} ⦃k : Kernel W⦄ (laws : Laws k) (key id size addr guard_id : ℕ)
    (fits : size ≤ 16) where
  open laws use {view}

  pub die_round :
      {w : W} (x : Shared) {s : SemSet}
      → (n : ℕ) × IsShared key id size addr guard_id s (record x { count = n }) (view w)
      → Returns
          (λ e w'. (e ≡ left) × IsReleased id addr guard_id (view w'))
          (die (some (mapped key id size addr guard_id)) w)
  die_round {w} x (n, ready) =
      let v = view w in
      Run.mono (die_lem laws key id size addr guard_id fits ready) λ e w' (e1, s1). (
        e1,
        rw s1 (record {
          no_guard = update_self v.sems guard_id none;
          no_segment = update_self v.shms id none;
          no_map = update_self v.maps addr none;
        }),
      )

module _ {W : Type 0} ⦃k : Kernel W⦄ ⦃p : Processes W⦄ (laws : Laws k)
    (signals : SignalLaws p laws.view) (key id size addr guard_id : ℕ) {s : SemSet}
    {x : Shared} where
  open laws use {view}

  signal_ends :
      {w : W} (argv : List String) (l : Locals) {sig : Signal}
      → size ≤ 16
      → IsDeadly sig
      → IsShared key id size addr guard_id s x (view w)
      → Returns
          (λ next w'. (next ≡ ended left) × IsReleased id addr guard_id (view w'))
          (round (mapped key id size addr guard_id) argv l (some sig) w)
  unfolding round signal_round
  signal_ends {w} argv l fits kill_all ready =
      Run.bind (get_cpid_lem laws key id size addr guard_id ready) λ cpid w1 (_, same).
        Run.bind (signals.kill_ok w1 cpid usr1) λ _ w2 (_, same2).
          Run.bind
            (die_round laws key id size addr guard_id fits x {s = s}
              (x.count, rw (same2, same) ready))
            λ e w3 (at_end, over). rw at_end (returns (refl, over))
  signal_ends {w} argv l fits kill_daemon ready =
      Run.bind (die_round laws key id size addr guard_id fits x {s = s} (x.count, ready))
        λ e w1 (at_end, over). rw at_end (returns (refl, over))

  -- With the words mapped, their guard free and the size within the segment, SIGUSR1 or SIGUSR2
  -- ends the daemon in the round that it starts, however many rounds are left: it exits, and the
  -- segment, its mapping and its guard are gone.
  pub serve-IsDeadly :
      {w : W} (rounds : ℕ) (argv : List String) (l : Locals) {sig : Signal}
      → size ≤ 16
      → IsDeadly sig
      → IsShared key id size addr guard_id s x (view w)
      → Returns
          (λ e w'. (e ≡ left) × IsReleased id addr guard_id (view w'))
          (serve (suc rounds) (mapped key id size addr guard_id) argv l (some sig) w)
  unfolding serve follow
  serve-IsDeadly rounds argv l fits deadly ready =
      Run.bind (signal_ends argv l fits deadly ready)
        λ next w1 (at_end, over). rw at_end (returns (refl, over))
