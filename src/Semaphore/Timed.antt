-- ===== src/Semaphore/Timed.antt =====
-- The waiting of Semaphore$lock: its timed loop on a busy semaphore, and a set that is removed
-- while the call waits for it.
use atomicles.Base.{ℕ, zero, suc, ◌+◌, ◌≤◌, ◌≡◌, refl, ap, Bool, true, some, arith, get_elem?}
use atomicles.Base.Int.{pos, minus_one}
use atomicles.Sys.{Kernel, failed, eidrm}
use atomicles.Sys.Run
use atomicles.Sys.Run.{Run, done, Returns, returns}
use atomicles.Sys.View.{View, SemSet}
use atomicles.Sys.Laws.{Laws}
use atomicles.Semaphore.{Semaphore, lock_op, lock_rounds, lock}

module _ {W : Type 0} ⦃k : Kernel W⦄ (laws : Laws k) where
  open laws use {view}

  -- Nobody touches the set `id` while the process sleeps for a second.
  abbrev pub Undisturbed : ℕ → SemSet → Type 0
  Undisturbed id s =
      (w : W)
      → (view w).sems id ≡ some s
      → Returns (λ _ w'. (view w').sems id ≡ some s) (k.sleep 1 w)

  module _ (this : Semaphore) (i : ℕ) (persist : Bool) (s : SemSet) where
    lock_rounds-busy :
        (n : ℕ) (w : W)
        → Undisturbed this.id s
        → get_elem? s.values i ≡ some 0
        → (view w).sems this.id ≡ some s
        → Returns
            (λ e w'.
              (e ≡ pos 1)
              × ((view w').sems this.id ≡ some s)
              × ((view w).clock + n ≤ (view w').clock))
            (lock_rounds n this.id (lock_op i persist true) w)
    unfolding lock_rounds lock_op
    lock_rounds-busy zero w quiet busy h = returns (refl, h, omega arith)
    lock_rounds-busy (suc n) w quiet busy h =
        Run.bind (laws.semop_again w {s = s} i _ h busy) λ r w1 (e, same). rw e (
          Run.bind (Run.both (laws.sleep_ok w1 1) (quiet w1 (rw same h))) λ _ w2 (later, kept).
            Run.mono (lock_rounds-busy n w2 quiet busy kept)
              λ e' w3 (one, last, end). (one, last, omega (arith, ap (λ (v : View). v.clock) same)))

    -- With a timeout of n + 1 seconds on a semaphore of value 0 that nobody touches while the
    -- process sleeps, the lock returns 1, the set is as it was, and n + 1 seconds at least have
    -- gone by.
    pub lock-timeout :
        (n : ℕ) (w : W)
        → Undisturbed this.id s
        → get_elem? s.values i ≡ some 0
        → (view w).sems this.id ≡ some s
        → Returns
            (λ e w'.
              (e ≡ pos 1)
              × ((view w').sems this.id ≡ some s)
              × ((view w).clock + suc n ≤ (view w').clock))
            (lock this i persist (pos (suc n)) w)
    unfolding lock
    lock-timeout n w quiet busy h = lock_rounds-busy (suc n) w quiet busy h

module _ {W : Type 0} ⦃k : Kernel W⦄ (this : Semaphore) (i : ℕ) (persist : Bool) where
  -- When the set is removed while the call waits on it (EIDRM), a lock without a time limit
  -- (timeouts 0 and -1) answers 0, as if it had been taken.
  pub lock-removed :
      (w w' : W)
      → ((nowait : Bool) → k.semop this.id (lock_op i persist nowait) w ≡ done (failed eidrm) w')
      → (lock this i persist (pos 0) w ≡ done (pos 0) w')
        × (lock this i persist minus_one w ≡ done (pos 0) w')
  unfolding lock
  lock-removed w w' removed = (rw removed, rw removed)
