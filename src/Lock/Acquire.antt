-- ===== src/Lock/Acquire.antt =====
-- The commands `on`, `off` and `status` on a counter that is there: they do what Lock/Spec.antt says.
use atomicles.Base.{
  ℕ, suc, ◌-◌, ◌≤◌, ◌≡◌, refl, ◌∙◌, ap, true, false, some, arith, ◌==◌, ltb, subst, sym, Bool-cases,
  inl, inr,
}
use atomicles.Base.Int.{ℤ, pos, negsuc, minus_one, to_int, ltb_ℤ}
use atomicles.Sys.{Kernel}
use atomicles.Sys.Run
use atomicles.Sys.Run.{Returns, returns}
use atomicles.Sys.View.{put_set, set_value}
use atomicles.Sys.Laws.{Laws, Answers}
use atomicles.Semaphore as Sem
use atomicles.Semaphore.{Semaphore}
use atomicles.Semaphore.Life.{object, attach-found, exists-bound}
use atomicles.Semaphore.Locking.{Holds, lock-take, lock-again, unlock-give, unlock-full}
use atomicles.Lock
use atomicles.Lock.{
  delta_of, Globals, globals, init, attempt, lock_existing, report, wait_time, shsem_index,
}
use atomicles.Lock.Counter.{Counter, Ids, IsCounter, globals_of, user_set, IsCounter-put_set}
use atomicles.Lock.Init.{init-IsCounter}
use atomicles.Lock.Spec.{expired, acquire, release}

module _ {W : Type 0} ⦃k : Kernel W⦄ (laws : Laws k) where
  open laws use {view}

  wait_time-now : (delta : ℤ) → ltb_ℤ (pos 0) delta ≡ true → wait_time delta minus_one ≡ minus_one
  unfolding to_int
  wait_time-now (pos n) h = ground arith
  wait_time-now (negsuc n) h = ground arith

  attempt_live :
      (delta timeout : ℤ) (this : Semaphore) (key : ℕ) (w : W)
      → ltb_ℤ (pos 0) delta ≡ true
      → attempt (record { expiry = true; delta = delta }) this key timeout w
        ≡ Sem.lock this shsem_index true (wait_time delta timeout) w
  unfolding attempt
  attempt_live delta timeout this key w h = rw h

  delta-positive :
      (c : Counter) (now : ℕ)
      → (c.lifetime == 0) ≡ false
      → expired c now ≡ false
      → ltb_ℤ (pos 0) (delta_of c.since c.lifetime now) ≡ true
  delta-positive c now expires alive = ground arith

  -- Before the lifetime is over, the timeout -1 is handed on.
  attempt_now :
      (c : Counter) (now : ℕ) (this : Semaphore) (key : ℕ) (w : W)
      → expired c now ≡ false
      → attempt (globals_of c now) this key minus_one w ≡ Sem.lock this shsem_index true minus_one w
  attempt_now c now this key w alive = elim (Bool-cases (c.lifetime == 0)) [
    | inl never ↦ rw never (unfold attempt in refl)
    | inr expires ↦
        let positive = delta-positive c now expires alive in
        let d : ℤ = delta_of c.since c.lifetime now in
        rw expires (
          attempt_live d minus_one this key w positive
          ∙ ap (λ t. Sem.lock this shsem_index true t w) (wait_time-now d positive))
  ]

  module _ {key : ℕ} {c : Counter} {i : Ids} where
    pub attach_lem :
        {w : W}
        → IsCounter k key c i (view w)
        → Returns (Answers view w (some (object key i.set 1 1))) (Sem.attach key w)
    attach_lem r =
        attach-found laws {key = key} {id = i.set} {s = user_set c} r.set_bound r.set_there
          (omega arith)

    holds :
        {w : W}
        → IsCounter k key c i (view w)
        → Holds laws (object key i.set 1 c.size) 0 w (user_set c) c.free
    holds r = record { exists = r.set_there; value = refl }

    -- The counter after the set's one value became `n`.
    stored :
        {w w' : W} (n : ℕ)
        → IsCounter k key c i (view w)
        → n ≤ c.size
        → view w' ≡ put_set (view w) i.set (set_value (user_set c) 0 n)
        → IsCounter k key (record c { free = n }) i (view w')
    stored n r fits after = rw after (IsCounter-put_set r n fits)

    -- On a counter, expired or not, `off` returns. With a unit out it gives one back and answers
    -- 0; with none out it answers -1. The tables describe the counter after that.
    pub unlock-release :
        {w : W}
        → IsCounter k key c i (view w)
        → Returns
            (λ e w'. (e ≡ (release c).1) × IsCounter k key (release c).0 i (view w'))
            (Lock.unlock globals key w)
    unfolding Lock.unlock Sem.delete
    unlock-release {w} r = Run.bind (attach_lem r) λ o w1 (e1, same1). rw e1 (
        Run.bind (init-IsCounter laws {w = w1} {key = key} {c = c} {i = i} (rw same1 r))
          λ p w2 (e2, r2). rw e2 (elim (Bool-cases (ltb c.free c.size)) [
            | inl below ↦ rw below (
                Run.bind (unlock-give laws true (holds r2) (ground arith) (ground (arith, r.sized)))
                  λ e w3 (e3, after). returns (e3, stored (suc c.free) r2 (ground arith) after))
            | inr full ↦ rw full (
                Run.bind (unlock-full laws true (holds r2) (ground arith))
                  λ e w3 (e3, after). returns (e3, rw after r2))
          ]))

    -- The non-blocking attempt itself.
    taken :
        {w : W}
        → IsCounter k key c i (view w)
        → Returns
            (λ e w'. (e ≡ (acquire c).1) × IsCounter k key (acquire c).0 i (view w'))
            (Sem.lock (object key i.set 1 c.size) shsem_index true minus_one w)
    taken r = elim (Bool-cases (c.free == 0)) [
      | inl empty ↦
          let none_left : c.free ≡ 0 = ground arith in
          rw empty (
            Run.mono
              (lock-again laws {s = user_set c} true
                (record { exists = r.set_there; value = ap some none_left }))
              λ e w' (e1, same). (e1, rw same r))
      | inr more ↦
          let one_more : c.free ≡ suc (c.free - 1) = ground arith in
          rw more (
            Run.mono
              (lock-take laws {s = user_set c} true minus_one tt
                (record { exists = r.set_there; value = ap some one_more }))
              λ e w' (e1, after). (e1, stored (c.free - 1) r (omega (arith, r.within)) after))
    ]

    -- On a counter that has not expired, `on` with the timeout -1 returns. With a unit free it
    -- takes one and answers 0; with none it answers 1. The tables describe the counter after
    -- that.
    pub lock-acquire :
        {w : W}
        → IsCounter k key c i (view w)
        → expired c (view w).clock ≡ false
        → Returns
            (λ e w'. (e ≡ (acquire c).1) × IsCounter k key (acquire c).0 i (view w'))
            (Lock.lock globals key minus_one w)
    unfolding Lock.lock lock_existing Sem.delete
    lock-acquire {w} r alive =
        Run.bind (exists-bound laws {key = key} {id = i.set} r.set_bound) λ b w0 (e0, same0).
          rw e0 (
            Run.bind (attach_lem (rw same0 r)) λ o w1 (e1, same1). rw e1 (
              Run.bind
                (init-IsCounter laws {w = w1} {key = key} {c = c} {i = i} (rw (same1, same0) r))
                λ p w2 (e2, r2).
                  rw (e2, same1, same0)
                    (Run.bind
                      (subst
                        (Returns
                          λ e w'. (e ≡ (acquire c).1) × IsCounter k key (acquire c).0 i (view w'))
                        (sym
                          (attempt_now c (view w).clock (object key i.set 1 c.size) key w2 alive))
                        (taken r2))
                      λ e w3 done_. returns done_)))
