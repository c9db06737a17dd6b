-- ===== src/Lock/Session.antt =====
-- Several calls of the command on one counter, one after the other.
use atomicles.Base.{
  ℕ, suc, ◌+◌, ◌-◌, ◌≤◌, ◌≡◌, ◌≢◌, refl, ◌∙◌, arith, false, List, [], ◌∷◌, ltb, ◌==◌, if◌then◌else◌,
  Bool-cases, inl, inr,
}
use atomicles.Base.Int.{ℤ, minus_one, is_zero_ℤ}
use atomicles.Sys.{Kernel}
use atomicles.Sys.Run
use atomicles.Sys.Run.{Cmd, pure, ◌>>=◌, Returns, returns}
use atomicles.Sys.Laws.{Laws}
use atomicles.Lock
use atomicles.Lock.{globals}
use atomicles.Lock.Counter.{Counter, Ids, IsCounter}
use atomicles.Lock.Spec.{expired, acquire, release}
use atomicles.Lock.Acquire.{lock-acquire, unlock-release}

-- `lock -t -1 KEY on` and `lock KEY off`
pub data Request : Type 0 where
  on off : Request

-- What the calls promise, on the abstract counter.
abbrev pub answer : Request → Counter → Counter × ℤ
answer on c = acquire c
answer off c = release c

abbrev pub answers : List Request → Counter → Counter × List ℤ
answers [] c = (c, [])
answers (r ∷ rs) c = let (c', a) = answer r c in let (c'', as_) = answers rs c' in (c'', a ∷ as_)

-- The units that were taken, and those that were given back, with success.
abbrev pub taken : List Request → List ℤ → ℕ
taken (on ∷ rs) (a ∷ others) = (if is_zero_ℤ a then 1 else 0) + taken rs others
taken (off ∷ rs) (a ∷ others) = taken rs others
taken _ _ = 0

abbrev pub given : List Request → List ℤ → ℕ
given (off ∷ rs) (a ∷ others) = (if is_zero_ℤ a then 1 else 0) + given rs others
given (on ∷ rs) (a ∷ others) = given rs others
given _ _ = 0

-- No unit is made or lost.
answers-balance :
    (rs : List Request) (c : Counter)
    → taken rs (answers rs c).1 + (answers rs c).0.free ≡ given rs (answers rs c).1 + c.free
answers-balance [] c = refl
answers-balance (on ∷ rs) c = elim (Bool-cases (c.free == 0)) [
  | inl e ↦ let rest = answers-balance rs c in rw e (omega (arith, rest))
  | inr e ↦
      let some_free : c.free ≢ 0 = ground (arith, e) in
      let rest = answers-balance rs (record c { free = c.free - 1 }) in
      rw e (omega (arith, rest, some_free))
]
answers-balance (off ∷ rs) c = elim (Bool-cases (ltb c.free c.size)) [
  | inl e ↦
      let rest = answers-balance rs (record c { free = suc c.free }) in rw e (omega (arith, rest))
  | inr e ↦ let rest = answers-balance rs c in rw e (omega (arith, rest))
]

answer-lifetime : (r : Request) (c : Counter) → (answer r c).0.lifetime ≡ c.lifetime
answer-lifetime on c = elim (Bool-cases (c.free == 0)) [ inl e ↦ rw e refl | inr e ↦ rw e refl ]
answer-lifetime off c = elim (Bool-cases (ltb c.free c.size)) [
  | inl e ↦ rw e refl
  | inr e ↦ rw e refl
]

never_expired : (c : Counter) (now : ℕ) → c.lifetime ≡ 0 → expired c now ≡ false
never_expired c now h = ground (arith, h)

module _ {W : Type 0} ⦃k : Kernel W⦄ where
  abbrev pub perform : (key : ℕ) → Request → Cmd W ℤ
  perform key on = Lock.lock globals key minus_one
  perform key off = Lock.unlock globals key

  abbrev pub session : (key : ℕ) → List Request → Cmd W (List ℤ)
  session key [] = pure []
  session key (r ∷ rs) = do a ← perform key r; others ← session key rs; pure (a ∷ others)

  module _ (laws : Laws k) where
    open laws use {view}

    perform-answer :
        {w : W} {key : ℕ} {c : Counter} {i : Ids} (r : Request)
        → c.lifetime ≡ 0
        → IsCounter k key c i (view w)
        → Returns
            (λ a w'. (a ≡ (answer r c).1) × IsCounter k key (answer r c).0 i (view w'))
            (perform key r w)
    perform-answer {w} {c = c} on lasting is =
        lock-acquire laws is (never_expired c (view w).clock lasting)
    perform-answer off lasting is = unlock-release laws is

    -- A session on a counter without a lifetime returns, answers call by call what the abstract
    -- counter answers, and leaves the abstract counter's state in the kernel. The units that it took
    -- are at most those it gave back and the `size` of the counter.
    pub session-answers :
        {w : W} {key : ℕ} {c : Counter} {i : Ids} (rs : List Request)
        → c.lifetime ≡ 0
        → IsCounter k key c i (view w)
        → Returns
            (λ as_ w'.
              (as_ ≡ (answers rs c).1)
              × IsCounter k key (answers rs c).0 i (view w')
              × (taken rs as_ ≤ given rs as_ + c.size))
            (session key rs w)
    session-answers {c} [] lasting is = returns (refl, is, omega arith)
    session-answers {w} {key} {c} {i} (r ∷ rs) lasting is =
        let total = answers-balance (r ∷ rs) c in
        Run.bind (perform-answer r lasting is) λ a w1 (e1, is1).
          Run.bind
            (session-answers {w = w1} {key = key} {c = (answer r c).0} {i = i} rs
              (answer-lifetime r c ∙ lasting) is1)
            λ others w2 (e2, is2, _).
              rw (e1, e2) (returns (refl, is2, omega (arith, total, is.within)))
