-- ===== src/Tests/Forks.antt =====
-- The check by forks of src/syschk.c in the small kernel, where one more process, 21, can be forked.
use atomicles.Base.{
  ℕ, refl, Bool, Bool-cases, inl, inr, true, [], ◌∷◌, arith, ◌==◌, ◌||◌, if◌then◌else◌,
}
use atomicles.Sys.Run.{Cmd, done, Returns, returns}
use atomicles.Sys.Sim.{World, with_words}
use atomicles.Sys.Sim.Lawful.{sim-Laws}
use atomicles.Syschk.{Host, Answer, got, refused, eagain, emfile}
use atomicles.Syschk.Fork.{Forks}
use atomicles.Syschk.Scanning.{Splits, ForkLaws}
use atomicles.Tests.Worlds.{in_use, segment_id}

abbrev idle_host : Host World
idle_host = record {
  time = λ w. done w.v.clock w;
  open_tmp = λ w. done (refused emfile) w;
  unlink_tmp = λ w. done tt w;
  close = λ fh w. done tt w;
  allocate = λ zeroed size w. done (got 1) w;
  free = λ block w. done tt w;
  allocate_table = λ count size w. done (got 0) w;
  free_table = λ table w. done tt w;
  on_stack = λ bytes w. done true w;
}

abbrev pub left : (ℕ → Bool) → ℕ
left procs = if procs 21 then 0 else 1

abbrev pub with_child : World → World
with_child w = record w { v = record w.v { procs = λ pid. pid == 21 || w.v.procs pid } }

abbrev pub fork_one : Cmd World Answer
fork_one w = if w.v.procs 21 then done (refused eagain) w else done (got 21) (with_child w)

abbrev pub one_more : Forks World
one_more = record { fork = fork_one; pause = λ w. done tt w; kill_group = λ w. done true w }

pub fork_one_lem : (w : World) → Returns (λ a w'. Splits left a w.v w'.v) (fork_one w)
fork_one_lem w = elim (Bool-cases (w.v.procs 21)) [
  | inl there ↦ rw there (returns refl)
  | inr not_there ↦ rw not_there (
      returns
        (omega arith, omega arith, (λ pid. pid == 21 || w.v.procs pid), refl, rw not_there refl))
]

one_more-ForkLaws : ForkLaws idle_host one_more sim-Laws.view left
unfolding sim-Laws
one_more-ForkLaws = record {
  time_ok = λ w. returns refl;
  fork_ok = fork_one_lem;
  kill_ok = λ w. returns refl;
}

abbrev three_words : World
three_words = with_words in_use segment_id (0 ∷ 0 ∷ 0 ∷ [])
