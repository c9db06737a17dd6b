-- ===== src/Lock/Report.antt =====
-- The command `status` on a counter that is there.
use atomicles.Base.{ℕ, ◌≡◌, refl, not, ◌&&◌, arith, ◌==◌, if◌then◌else◌, Bool-cases, inl, inr}
use atomicles.Base.Int.{pos, minus_one, ltb_ℤ, to_int}
use atomicles.Sys.{Kernel}
use atomicles.Sys.Run
use atomicles.Sys.Run.{Returns, returns}
use atomicles.Sys.Laws.{Laws, Answers}
use atomicles.Semaphore as Sem
use atomicles.Semaphore.{Semaphore}
use atomicles.Semaphore.Life.{object}
use atomicles.Semaphore.Locking.{used_lem}
use atomicles.Lock
use atomicles.Lock.{globals, report, delta_of}
use atomicles.Lock.Counter.{Counter, Ids, IsCounter, globals_of, user_set}
use atomicles.Lock.Init.{init-IsCounter}
use atomicles.Lock.Acquire.{attach_lem}
use atomicles.Lock.Spec.{expired, report_of}

-- The test of `status` is the end of the lifetime.
expired_lem :
    (c : Counter) (now : ℕ)
    → ((globals_of c now).expiry && not (ltb_ℤ (pos 0) (globals_of c now).delta)) ≡ expired c now
expired_lem c now = ground arith

-- The time left, in the words of the code.
time_left :
    (c : Counter) (now : ℕ)
    → (if (globals_of c now).expiry then to_int (globals_of c now).delta else minus_one)
      ≡ (if c.lifetime == 0 then minus_one else to_int (delta_of c.since c.lifetime now))
time_left c now = elim (Bool-cases (c.lifetime == 0)) [
  | inl never ↦ rw never refl
  | inr expires ↦ rw expires refl
]

module _ {W : Type 0} ⦃k : Kernel W⦄ (laws : Laws k) where
  open laws use {view}

  module _ {key : ℕ} {c : Counter} {i : Ids} where
    report_lem :
        {w : W} (now : ℕ)
        → IsCounter k key c i (view w)
        → Returns
            (Answers view w (report_of c now))
            (report (globals_of c now) (object key i.set 1 c.size) w)
    unfolding report Sem.size
    report_lem {w} now r = elim (Bool-cases (expired c now)) [
      | inl over ↦ rw (expired_lem c now, over) (returns (refl, refl))
      | inr alive ↦
          rw (expired_lem c now, alive)
            (Run.bind
              (used_lem laws {this = object key i.set 1 c.size} {s = user_set c} {v = c.free}
                (record { exists = r.set_there; value = refl }))
              λ u w' (e, same). rw e (returns (rw (time_left c now) refl, same)))
    ]

    -- On a counter, `status` returns the units that are out, the size and the time left (-1
    -- without a lifetime), or -1 and three times -1 when the counter has expired, and leaves the
    -- counter as it is.
    pub status-report_of :
        {w : W}
        → IsCounter k key c i (view w)
        → Returns
            (λ a w'. (a ≡ report_of c (view w).clock) × IsCounter k key c i (view w'))
            (Lock.status globals key w)
    unfolding Lock.status
    status-report_of {w} r = Run.bind (attach_lem laws r) λ o w1 (e1, same1). rw e1 (
        Run.bind (init-IsCounter laws {w = w1} {key = key} {c = c} {i = i} (rw same1 r))
          λ p w2 (e2, r2).
            rw (e2, same1)
              (Run.mono (report_lem (view w).clock r2) λ a w3 (e3, same3). (e3, rw same3 r2)))
