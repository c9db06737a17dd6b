-- ===== src/Daemonize/Start.antt =====
-- `start` of src/daemonize.c, as the process that called it sees it.
use Prim.Native.String.{String}
use atomicles.Base.{
  ℕ, zero, suc, ◌≡◌, refl, ◌∙◌, Bool, Bool-cases, inl, inr, true, false, List, ◌&&◌,
}
use atomicles.Base.Int.{pos, minus_one}
use atomicles.Sys.{Kernel}
use atomicles.Sys.Processes.{Processes, SignalLaws, parent}
use atomicles.Sys.Run
use atomicles.Sys.Run.{Returns, returns, pure}
use atomicles.Sys.View.{SemSet}
use atomicles.Sys.Laws.{Laws, Answers}
use atomicles.SharedMemory.Life.{mapped}
use atomicles.Daemonize.{returned, nonzero}
use atomicles.Daemonize.Service.{daemonize}
use atomicles.Daemonize.Command.{code, await_daemon, launch, start}
use atomicles.Daemonize.Words.{Shared, IsShared, get_pid_lem, get_cpid_lem, get_count_lem}
use atomicles.Daemonize.Report.{daemonstr_lem}

-- The order in which `start` looks at the two ids.
abbrev pub is_running : Shared → Bool
is_running x = nonzero x.cpid && nonzero x.pid

module _ {W : Type 0} ⦃k : Kernel W⦄ ⦃p : Processes W⦄ (laws : Laws k)
    (signals : SignalLaws p laws.view) (key id size addr guard_id : ℕ) where
  open laws use {view}

  -- The words can be read, whatever they are.
  abbrev pub IsReadable : SemSet → W → Type 0
  IsReadable s w = (x : Shared) × IsShared key id size addr guard_id s x (view w)

  -- With the words mapped, their guard free and both ids other than 0, `start` answers -1 for every
  -- command, and no table changes.
  pub start-running :
      {s : SemSet} {x : Shared} {w : W} (rounds : ℕ) (argv : List String)
      → IsShared key id size addr guard_id s x (view w)
      → is_running x ≡ true
      → Returns
          (Answers view w (code minus_one))
          (start rounds argv (mapped key id size addr guard_id) w)
  unfolding start
  start-running {s} {x} {w} rounds argv ready running =
      Run.bind (get_pid_lem laws key id size addr guard_id ready) λ _ w1 (e1, s1).
        Run.bind (get_cpid_lem laws key id size addr guard_id {s = s} {x = x} (rw s1 ready))
          λ _ w2 (e2, s2).
            Run.bind
              (get_count_lem laws key id size addr guard_id {s = s} {x = x} (rw (s2, s1) ready))
              λ _ w3 (e3, s3).
                rw (e1, e2, e3, running)
                  (Run.bind (daemonstr_lem laws signals {v = view w} key x (s3 ∙ s2 ∙ s1))
                    λ l w4 (_, s4). returns (refl, s4))

  module _ {s : SemSet}
      (others : (w : W) → IsReadable s w → Returns (λ _ w'. IsReadable s w') (k.sleep 1 w)) where
    await_daemon_lem :
        {w : W} (c pid cpid : ℕ)
        → IsReadable s w
        → Returns
            (λ _ w'. IsReadable s w')
            (await_daemon c (mapped key id size addr guard_id) pid cpid w)
    unfolding await_daemon
    await_daemon_lem {w} zero pid cpid readable = returns readable
    await_daemon_lem {w} (suc c) _ _ (x, ready) =
        Run.bind (get_pid_lem laws key id size addr guard_id ready) λ _ w1 (e1, s1).
          Run.bind (get_cpid_lem laws key id size addr guard_id {s = s} {x = x} (rw s1 ready))
            λ _ w2 (e2, s2).
              rw (e1, e2)
                (elim (Bool-cases (nonzero x.pid && nonzero x.cpid)) [
                  | inl noted ↦ rw noted (returns (x, rw (s2, s1) ready))
                  | inr unnoted ↦ rw unnoted (
                      Run.bind (others w2 (x, rw (s2, s1) ready))
                        λ _ w3 readable. await_daemon_lem {w = w3} c x.pid x.cpid readable)
                ])

    -- The caller's part of `daemonize`: its first fork gives it a child.
    daemonize_lem :
        {w : W} (rounds : ℕ) (argv : List String)
        → ((u : W)
            → view u ≡ view w
            → Returns
                (λ f u'. ((child_id : ℕ) × (f ≡ parent child_id)) × IsReadable s u')
                (p.fork u))
        → Returns
            (λ e w'. (e ≡ returned) × IsReadable s w')
            (daemonize rounds (mapped key id size addr guard_id) argv w)
    unfolding daemonize
    daemonize_lem {w} rounds argv forks = Run.bind (signals.umask_ok w 0) λ _ w1 s1.
        Run.bind (forks w1 s1) λ f w2 ((child_id, e2), there). rw e2 (returns (refl, there))

    launch_lem :
        {w : W} (rounds : ℕ) (argv : List String) (pid cpid count : ℕ)
        → ((u : W)
            → view u ≡ view w
            → Returns
                (λ f u'. ((child_id : ℕ) × (f ≡ parent child_id)) × IsReadable s u')
                (p.fork u))
        → Returns
            (λ r w'. (r ≡ code (pos 0)) × IsReadable s w')
            (launch rounds argv (mapped key id size addr guard_id) pid cpid count w)
    unfolding launch
    launch_lem {w} rounds argv pid cpid count forks =
        Run.bind (daemonize_lem rounds argv forks) λ e w3 (e3, there). rw e3 (
          Run.bind (await_daemon_lem 5 pid cpid there) λ ids w4 (y, ready).
            Run.bind
              (daemonstr_lem laws signals {v = view w4} key
                (record { active = 0; pid = ids.0; cpid = ids.1; count = count }) refl)
              λ l w5 (_, s5). returns (refl, (y, rw s5 ready)))

  -- With the words mapped, their guard free and an id of 0 among them, when the first fork gives
  -- the caller a child and other processes, acting then and while the caller sleeps, leave the
  -- words mapped and their guard free, `start` returns 0 to its caller, whatever they write.
  pub start_returns :
      {s : SemSet} {x : Shared} {w : W} (rounds : ℕ) (argv : List String)
      → IsShared key id size addr guard_id s x (view w)
      → is_running x ≡ false
      → ((u : W)
          → view u ≡ view w
          → Returns (λ f u'. ((child_id : ℕ) × (f ≡ parent child_id)) × IsReadable s u') (p.fork u))
      → ((u : W) → IsReadable s u → Returns (λ _ u'. IsReadable s u') (k.sleep 1 u))
      → Returns
          (λ r w'. (r ≡ code (pos 0)) × IsReadable s w')
          (start rounds argv (mapped key id size addr guard_id) w)
  unfolding start
  start_returns {s} {x} {w} rounds argv ready idle forks others =
      Run.bind (get_pid_lem laws key id size addr guard_id ready) λ a w1 (e1, s1).
        Run.bind (get_cpid_lem laws key id size addr guard_id {s = s} {x = x} (rw s1 ready))
          λ b w2 (e2, s2).
            Run.bind
              (get_count_lem laws key id size addr guard_id {s = s} {x = x} (rw (s2, s1) ready))
              λ n w3 (e3, s3).
                rw (e1, e2, e3, idle)
                  (launch_lem others rounds argv a b n λ u same. forks u (same ∙ s3 ∙ s2 ∙ s1))
