-- ===== src/Semaphore/Race.antt =====
-- Two unlocks of src/Semaphore.c at the same time: Semaphore$unlock looks at the value and gives the
-- unit back in two system calls.
use atomicles.Base.{ℕ, suc, ◌<◌, ◌≡◌, refl, subst, Bool, arith}
use atomicles.Base.Int.{ℤ, pos, minus_one}
use atomicles.Sys.{Kernel}
use atomicles.Sys.Run
use atomicles.Sys.Run.{Cmd, Returns, returns, pure, ◌>>=◌}
use atomicles.Sys.View.{SemSet, set_value}
use atomicles.Sys.Laws.{Laws, max_value}
use atomicles.Semaphore.{Semaphore, used, release, unlock}
use atomicles.Semaphore.Locking.{
  Holds, used_lem, Holds-set_value, release-give, unlock-give, unlock-full,
}

module _ {W : Type 0} ⦃k : Kernel W⦄ where
  -- Two processes unlock: both look before either of them gives.
  abbrev pub looks_first : Semaphore → ℕ → Bool → Cmd W (ℤ × ℤ)
  looks_first this i persist = do
    a ← used this i
    b ← used this i
    x ← release this i persist a
    y ← release this i persist b
    pure (x, y)

  -- One after the other.
  abbrev pub in_turn : Semaphore → ℕ → Bool → Cmd W (ℤ × ℤ)
  in_turn this i persist = do x ← unlock this i persist; y ← unlock this i persist; pure (x, y)

module _ {W : Type 0} ⦃k : Kernel W⦄ (laws : Laws k) where
  open laws use {view}

  -- So much is free.
  abbrev pub IsFree : Semaphore → ℕ → ℕ → W → Type 0
  IsFree this i n w = (s : SemSet) × Holds laws this i w s n

  Holds-same :
      {this : Semaphore} {i : ℕ} {w w' : W} {s : SemSet} {v : ℕ}
      → view w' ≡ view w
      → Holds laws this i w s v
      → Holds laws this i w' s v
  Holds-same same h = record { exists = rw same h.exists; value = h.value }

  module _ {this : Semaphore} {i : ℕ} {w : W} {s : SemSet} {v : ℕ} where
    -- With one unit out, of a size below SEMVMX: of two unlocks in turn the second one answers -1,
    -- and `size` units are free; of two unlocks that both look before either gives, both answer 0,
    -- and `size` + 1 units are free.
    pub unlock_race :
        (persist : Bool)
        → Holds laws this i w s v
        → this.size ≡ suc v
        → this.size < max_value
        → Returns
            (λ r w'. (r ≡ (pos 0, minus_one)) × IsFree this i this.size w')
            (in_turn this i persist w)
          × Returns
              (λ r w'. (r ≡ (pos 0, pos 0)) × IsFree this i (suc this.size) w')
              (looks_first this i persist w)
    unlock_race persist h one room =
        let size_is : suc v ≡ this.size = omega (arith, one) in
        (
          Run.bind
              (unlock-give laws {this = this} {s = s} persist h (omega (arith, one))
                (omega (arith, one, room)))
              λ x w1 (first, at1).
                Run.bind
                  (unlock-full laws {this = this} {s = set_value s i (suc v)} persist
                    (Holds-set_value laws (suc v) h at1) (omega (arith, one)))
                  λ y w2 (second, same).
                    rw (first, second)
                      (returns (
                        refl,
                        (
                          set_value s i (suc v),
                          subst (λ n. Holds laws this i w2 (set_value s i (suc v)) n) size_is
                              (Holds-same same (Holds-set_value laws (suc v) h at1)),
                        ),
                      )),
          Run.bind (used_lem laws h) λ a w1 (e1, s1).
              Run.bind (used_lem laws (Holds-same s1 h)) λ b w2 (e2, s2).
                rw (e1, e2)
                  (let seen : Holds laws this i w2 s v = Holds-same s2 (Holds-same s1 h) in
                    Run.bind
                      (release-give laws {this = this} {s = s} persist v seen (omega (arith, one))
                        (omega (arith, one, room)))
                      λ x w3 (first, at3).
                        Run.bind
                          (release-give laws {this = this} {s = set_value s i (suc v)} persist v
                            (Holds-set_value laws (suc v) seen at3) (omega (arith, one))
                            (omega (arith, one, room)))
                          λ y w4 (second, at4).
                            rw (first, second)
                              (returns (
                                refl,
                                (
                                  set_value (set_value s i (suc v)) i (suc (suc v)),
                                  subst
                                      (λ n.
                                        Holds laws this i w4
                                          (set_value (set_value s i (suc v)) i (suc (suc v)))
                                          (suc n))
                                      size_is
                                      (Holds-set_value laws (suc (suc v))
                                        (Holds-set_value laws (suc v) seen at3) at4),
                                ),
                              ))),
        )
