-- ===== src/Daemonize/Report.antt =====
-- `status` of src/daemonize.c, and the line that `start`, `stop` and `status` print.
use atomicles.Base.{ℕ, ◌≡◌, refl, ◌∙◌, Bool, Bool-cases, inl, inr, some, ◌&&◌, if◌then◌else◌}
use atomicles.Base.Int.{pos}
use atomicles.Sys.{Kernel}
use atomicles.Sys.Processes.{Processes, SignalLaws, probe}
use atomicles.Sys.Run
use atomicles.Sys.Run.{Returns, returns, pure}
use atomicles.Sys.View.{View, SemSet}
use atomicles.Sys.Laws.{Laws, Answers, Leaves}
use atomicles.SharedMemory.Life.{mapped}
use atomicles.Daemonize.{Line, nonzero, daemonstr}
use atomicles.Daemonize.Command.{Verdict, missing, dead, recovering, alive, judge, status}
use atomicles.Daemonize.Words.{Shared, IsShared, get_pid_lem, get_cpid_lem, get_count_lem}

-- The line for given words, when `procs` tells which processes there are.
abbrev pub line_of : (key : ℕ) → (ℕ → Bool) → Shared → Line
line_of key procs x = record {
  key = key;
  pid_there = procs x.pid;
  pid = x.pid;
  cpid_there = procs x.cpid;
  cpid = x.cpid;
  count = x.count;
}

-- Both ids are noted.
abbrev pub is_noted : Shared → Bool
is_noted x = nonzero x.pid && nonzero x.cpid

abbrev pub verdict_of : (ℕ → Bool) → Shared → Verdict
verdict_of procs x =
    if is_noted x
    then (if procs x.pid then (if procs x.cpid then alive else recovering) else dead)
    else missing

module _ {W : Type 0} ⦃k : Kernel W⦄ ⦃p : Processes W⦄ (laws : Laws k)
    (signals : SignalLaws p laws.view) where
  open laws use {view}

  pub daemonstr_lem :
      {w : W} {v : View} (key : ℕ) (x : Shared)
      → view w ≡ v
      → Returns (Leaves view v (line_of key v.procs x)) (daemonstr key x.pid x.cpid x.count w)
  unfolding daemonstr
  daemonstr_lem {w} {v} key x same = Run.bind (signals.kill_ok w x.pid probe) λ a w1 (e1, same1).
      Run.bind (signals.kill_ok w1 x.cpid probe)
        λ b w2 (e2, same2). rw (e1, e2, same1, same) (returns (refl, same2 ∙ same1 ∙ same))

  judge_lem :
      {w : W} {v : View} (x : Shared)
      → view w ≡ v
      → Returns
          (Leaves view v
            (if v.procs x.pid then (if v.procs x.cpid then alive else recovering) else dead))
          (judge x.pid x.cpid w)
  unfolding judge
  judge_lem {w} {v} x same = Run.bind (signals.kill_ok w x.pid probe) λ a w1 (e1, same1).
      rw (e1, same)
        (elim (Bool-cases (v.procs x.pid)) [
          | inl there ↦ rw there (
              Run.bind (signals.kill_ok w1 x.cpid probe)
                λ b w2 (e2, same2). rw (e2, same1, same) (returns (refl, same2 ∙ same1 ∙ same)))
          | inr not_there ↦ rw not_there (returns (refl, same1 ∙ same))
        ])

  -- With the words mapped and their guard free, `status` returns 0, prints Missing where an id is 0,
  -- and else Dead, Recovering or Alive as the daemon or its child cannot be signalled or both can;
  -- the line shows the words and which processes are there, and no table changes.
  pub status-verdict_of :
      (key id size addr guard_id key_given : ℕ) {s : SemSet} {x : Shared} {w : W}
      → IsShared key id size addr guard_id s x (view w)
      → Returns
          (Answers view w (pos 0, verdict_of (view w).procs x, line_of key_given (view w).procs x))
          (status (some (mapped key id size addr guard_id)) key_given w)
  unfolding status
  status-verdict_of key id size addr guard_id key_given {s} {x} {w} ready =
      let v = view w in
      Run.bind (get_pid_lem laws key id size addr guard_id ready) λ _ w1 (e1, s1).
        Run.bind (get_cpid_lem laws key id size addr guard_id {s = s} {x = x} (rw s1 ready))
          λ _ w2 (e2, s2).
            Run.bind
              (get_count_lem laws key id size addr guard_id {s = s} {x = x} (rw (s2, s1) ready))
              λ _ w3 (e3, s3).
                rw (e1, e2, e3)
                  (Run.bind (daemonstr_lem {v = v} key_given x (s3 ∙ s2 ∙ s1)) λ l w4 (e4, s4).
                    rw e4 (elim (Bool-cases (is_noted x)) [
                      | inl noted ↦ rw noted (
                          Run.bind (judge_lem {v = v} x s4)
                            λ verdict w5 (e5, s5). rw e5 (returns (refl, s5)))
                      | inr unnoted ↦ rw unnoted (returns (refl, s4))
                    ]))
