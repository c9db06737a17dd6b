-- ===== src/Tests/Daemons.antt =====
-- The daemon in the small kernel. The processes are those up to the number 20; a fork gives the
-- child 9, a wait ends with the child, and no signal arrives.
use atomicles.Base.{ℕ, ◌-◌, ◌^◌, ◌≡◌, refl, sym, subst, true, some, none, arith, [], ◌∷◌, leb}
use atomicles.Base.Int.{pos, minus_one}
use atomicles.Sys.Processes.{Processes, SignalLaws, parent, unlimited, exited, usr1}
use atomicles.Sys.Run.{done, Returns, returns}
use atomicles.Sys.Laws.{Answers}
use atomicles.Sys.Sim.{World, sim, key_of, later, with_words}
use atomicles.Sys.Sim.Lawful.{sim-Laws}
use atomicles.Lock.Counter.{mutex}
use atomicles.SharedMemory.Life.{mapped}
use atomicles.Daemonize.{left}
use atomicles.Daemonize.Service.{at_first, serve}
use atomicles.Daemonize.Command.{alive, code, start, stop, status}
use atomicles.Daemonize.Words.{Shared, IsShared, words_of}
use atomicles.Daemonize.Report.{line_of, status-verdict_of}
use atomicles.Daemonize.Main.{status_on, main}
use atomicles.Daemonize.Channel.{main-attach_at}
use atomicles.Sys.View.{attach_at}
use atomicles.Daemonize.Stop.{after_stop, stop-stop_code}
use atomicles.Daemonize.Start.{start-running, start_returns}
use atomicles.Daemonize.Release.{IsReleased, kill_all, serve-IsDeadly}
use atomicles.Daemonize.Others.{Others, Over}
use atomicles.Daemonize.Serve.{serve-Over}
use atomicles.Tests.Worlds.{in_use, segment_id, guard_id, address}

abbrev simple : Processes World
simple = record {
  kill = λ pid s w. done (w.v.procs pid) w;
  fork = λ w. done (parent 9) w;
  umask = λ mask w. done tt w;
  setsid = λ w. done tt w;
  chdir_root = λ w. done true w;
  file_limit = λ w. done unlimited w;
  close = λ i w. done tt w;
  sigaction = λ s w. done true w;
  waitpid = λ cpid w. done exited w;
  spin = λ w. done usr1 w;
  doze = λ n w. done none w;
  execvp = λ argv w. done true w;
  seconds = λ n. 3 ^ n - 1;
}

simple-SignalLaws : SignalLaws simple (sim-Laws.view)
unfolding sim-Laws
simple-SignalLaws = record {
  kill_ok = λ w pid s. returns (refl, refl);
  umask_ok = λ w mask. returns refl;
  setsid_ok = λ w. returns refl;
  sigaction_ok = λ w s. returns refl;
}

-- The daemon 8 with the child 9, in its first run.
abbrev running : Shared
running = record { active = 1; pid = 8; cpid = 9; count = 1 }

-- The second fork was made, and no more.
abbrev born : Shared
born = record { active = 0; pid = 8; cpid = 0; count = 0 }

abbrev with_shared : Shared → World
with_shared x = with_words in_use segment_id (words_of x)

abbrev IsThere : ℕ → Shared → Type 0
IsThere size x = IsShared 5 segment_id size address guard_id (mutex 90) x (with_shared x).v

running-IsThere : (size : ℕ) → IsThere size running
running-IsThere size = record {
  guarded = refl;
  binary = refl;
  exists = refl;
  free = refl;
  mapped = refl;
  points = refl;
  holds = refl;
}

born-IsThere : IsThere 16 born
born-IsThere = record {
  guarded = refl;
  binary = refl;
  exists = refl;
  free = refl;
  mapped = refl;
  points = refl;
  holds = refl;
}

status-verdict_of_example :
    Returns
      (Answers
        (λ w. w.v)
        (with_shared running)
        (pos 0, alive, line_of 5 (λ pid. leb pid 20) running))
      (status ⦃k = sim⦄ ⦃p = simple⦄
        (some (mapped 5 segment_id 77 address guard_id))
        5
        (with_shared running))
unfolding sim-Laws
status-verdict_of_example =
    status-verdict_of ⦃k = sim⦄ ⦃p = simple⦄ sim-Laws simple-SignalLaws 5 segment_id 77 address
      guard_id 5 {s = mutex 90} {x = running} {w = with_shared running} (running-IsThere 77)

stop-stop_code_example :
    Returns
      (λ e w'.
        (e ≡ pos 0)
        × (w'.v
            ≡ after_stop ⦃k = sim⦄ ⦃p = simple⦄ sim-Laws simple-SignalLaws 5 segment_id 16 address
                guard_id
                (with_shared running).v
                e))
      (stop ⦃k = sim⦄ ⦃p = simple⦄ (mapped 5 segment_id 16 address guard_id) (with_shared running))
unfolding sim-Laws
stop-stop_code_example =
    stop-stop_code ⦃k = sim⦄ ⦃p = simple⦄ sim-Laws simple-SignalLaws 5 segment_id 16 address
      guard_id {s = mutex 90} {x = running} {w = with_shared running} (omega arith)
      (running-IsThere 16)

start-running_example : Returns (Answers (λ w. w.v) (with_shared running) (code minus_one)) (
    start ⦃k = sim⦄ ⦃p = simple⦄ 3
      ("cmd" ∷ [])
      (mapped 5 segment_id 16 address guard_id)
      (with_shared running))
unfolding sim-Laws
start-running_example =
    start-running ⦃k = sim⦄ ⦃p = simple⦄ sim-Laws simple-SignalLaws 5 segment_id 16 address guard_id
      {s = mutex 90} {x = running} {w = with_shared running} 3 ("cmd" ∷ []) (running-IsThere 16)
      refl

same_words :
    (x : Shared) (u : World)
    → IsShared 5 segment_id 16 address guard_id (mutex 90) x u.v
    → IsShared 5 segment_id 16 address guard_id (mutex 90) x (later u 1).v
same_words x u ready = record {
  guarded = ready.guarded;
  binary = ready.binary;
  exists = ready.exists;
  free = ready.free;
  mapped = ready.mapped;
  points = ready.points;
  holds = ready.holds;
}

start_returns_example :
    Returns
      (λ r w'.
        (r ≡ code (pos 0))
        × ((x : Shared) × IsShared 5 segment_id 16 address guard_id (mutex 90) x w'.v))
      (start ⦃k = sim⦄ ⦃p = simple⦄ 3
        ("cmd" ∷ [])
        (mapped 5 segment_id 16 address guard_id)
        (with_shared born))
unfolding sim-Laws
start_returns_example =
    start_returns ⦃k = sim⦄ ⦃p = simple⦄ sim-Laws simple-SignalLaws 5 segment_id 16 address guard_id
      {s = mutex 90} {x = born} {w = with_shared born} 3 ("cmd" ∷ []) born-IsThere refl
      (λ u same. returns (
        (9, refl),
        (
          born,
          subst (λ v. IsShared 5 segment_id 16 address guard_id (mutex 90) born v) (sym same)
              born-IsThere,
        ),
      ))
      (λ u (x, ready). returns {w = later u 1} (x, same_words x u ready))

serve-IsDeadly_example :
    Returns
      (λ e w'. (e ≡ left) × IsReleased segment_id address guard_id w'.v)
      (serve ⦃k = sim⦄ ⦃p = simple⦄ 3
        (mapped 5 segment_id 16 address guard_id)
        ("cmd" ∷ [])
        at_first
        (some usr1)
        (with_shared running))
unfolding sim-Laws
serve-IsDeadly_example =
    serve-IsDeadly ⦃k = sim⦄ ⦃p = simple⦄ sim-Laws simple-SignalLaws 5 segment_id 16 address
      guard_id {s = mutex 90} {x = running} {w = with_shared running} 2 ("cmd" ∷ []) at_first
      {sig = usr1} (omega arith) kill_all (running-IsThere 16)

nothing_else : Others ⦃k = sim⦄ simple sim-Laws 5 segment_id 16 address guard_id (mutex 90)
unfolding sim-Laws
nothing_else = record {
  forks = λ x w words. returns words;
  waits = λ x cpid w words. returns words;
  spins = λ x w words. returns words;
  dozes = λ x n w words. returns words;
  execs = λ x argv w words. returns λ became. words;
}

serve-Over_example :
    Returns (Over ⦃k = sim⦄ sim-Laws 5 segment_id 16 address guard_id (mutex 90) 8) (
      serve ⦃k = sim⦄ ⦃p = simple⦄ 3
        (mapped 5 segment_id 16 address guard_id)
        ("cmd" ∷ [])
        at_first
        none
        (with_shared born))
unfolding sim-Laws
serve-Over_example =
    serve-Over ⦃k = sim⦄ ⦃p = simple⦄ sim-Laws simple-SignalLaws 5 segment_id 16 address guard_id
      (mutex 90) 8 (omega arith) nothing_else (with_shared born) 2 ("cmd" ∷ []) at_first none
      (0, 0, (0, born-IsThere))

main-attach_at_example :
    Returns
      (λ r w'.
        (r ≡ code (pos 0))
        × ((addr : ℕ) × (w'.v ≡ attach_at (with_shared running).v addr segment_id)))
      (main ⦃k = sim⦄ ⦃p = simple⦄ 1 3 (status_on (pos 5) ∷ []) [] (with_shared running))
unfolding sim-Laws key_of
main-attach_at_example =
    main-attach_at ⦃k = sim⦄ ⦃p = simple⦄ sim-Laws simple-SignalLaws 1 3 5 (omega arith)
      (omega arith) (with_shared running) segment_id guard_id (mutex 90) running refl refl refl refl
      refl refl
