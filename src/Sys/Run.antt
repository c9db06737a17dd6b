-- ===== src/Sys/Run.antt =====
-- Commands: what a function of the program does to the world, and how a run of it can end.
use atomicles.Base.{◌≡◌, subst, Bool, true, false}

-- `aborted` is a failed `assert`, `fault` is undefined behaviour such as a read through NULL, and
-- `blocked` is a system call that never returns.
pub data Run (W A : Type 0) : Type 0 where
  done : A → W → Run W A
  aborted fault blocked : Run W A

abbrev pub Cmd : Type 0 → Type 0 → Type 0
Cmd W A = W → Run W A

abbrev pub pure : {W A : Type 0} → A → Cmd W A
pure = done

module _ {W A B : Type 0} where
  abbrev pub and_then : Run W A → (A → Cmd W B) → Run W B
  and_then (done a w) f = f a w
  and_then aborted f = aborted
  and_then fault f = fault
  and_then blocked f = blocked

  infixl 5 ◌>>=◌ ◌>>◌
  abbrev pub ◌>>=◌ : Cmd W A → (A → Cmd W B) → Cmd W B
  m >>= f = λ w. and_then (m w) f

  abbrev pub ◌>>◌ : Cmd W A → Cmd W B → Cmd W B
  m >> n = m >>= λ _. n

-- `assert(b)`
abbrev pub assert : {W : Type 0} → Bool → Cmd W (Unit {0})
assert true w = done tt w
assert false w = aborted

-- The run returns, and the postcondition holds of its result and of the world that it leaves.
pub data Returns {W A : Type 0} (P : A → W → Type 0) : Run W A → Type 0 where
  returns : {a : A} {w : W} → P a w → Returns P (done a w)

module _ {W A : Type 0} {P : A → W → Type 0} where
  -- Sequencing: the rest is run on whatever the first command returned.
  pub bind :
      {B : Type 0} {Q : B → W → Type 0} {r : Run W A} {f : A → Cmd W B}
      → Returns P r
      → ((a : A) (w : W) → P a w → Returns Q (f a w))
      → Returns Q (and_then r f)
  bind (returns p) rest = rest _ _ p

  -- The same where the command and what follows it are the first part of another sequence.
  pub bind_in :
      {B C : Type 0} {Q : C → W → Type 0} {r : Run W A} (f : A → Cmd W B) (g : B → Cmd W C)
      → Returns P r
      → ((a : A) (w : W) → P a w → Returns Q (and_then (f a w) g))
      → Returns Q (and_then (and_then r f) g)
  bind_in f g (returns p) rest = rest _ _ p

  pub bind_eq :
      {B : Type 0} {r : Run W A} {f : A → Cmd W B} {out : Run W B}
      → Returns P r
      → ((a : A) (w : W) → P a w → f a w ≡ out)
      → and_then r f ≡ out
  bind_eq (returns p) rest = rest _ _ p

  pub mono :
      {Q : A → W → Type 0} {r : Run W A}
      → Returns P r
      → ((a : A) (w : W) → P a w → Q a w)
      → Returns Q r
  mono (returns p) weaken = returns (weaken _ _ p)

  -- Two postconditions of one run hold together, and a run that ended in a known way ended so.
  pub both :
      {Q : A → W → Type 0} {r : Run W A}
      → Returns P r
      → Returns Q r
      → Returns (λ a w. P a w × Q a w) r
  both (returns p) (returns q) = returns (p, q)

  pub Returns-done : {a : A} {w : W} → Returns P (done a w) → P a w
  Returns-done (returns p) = p

  -- What is known of a run holds of the way in which it ended.
  pub Returns-at : {a : A} {w : W} {r : Run W A} → Returns P r → r ≡ done a w → P a w
  Returns-at p ended = Returns-done (subst (Returns P) ended p)
