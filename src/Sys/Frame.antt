-- ===== src/Sys/Frame.antt =====
-- Runs that leave a part of the world as it was, however they end.
use atomicles.Base.{◌≡◌, ◌∙◌}
use atomicles.Sys.Run
use atomicles.Sys.Run.{Run, Cmd, done, aborted, fault, blocked, Returns, returns}

module _ {W K : Type 0} (kept : W → K) where
  abbrev pub Stays : {A : Type 0} → W → Run W A → Type 0
  Stays w (done a w') = kept w' ≡ kept w
  Stays w aborted = Unit {0}
  Stays w fault = Unit {0}
  Stays w blocked = Unit {0}

  pub Stays-and_then :
      {A B : Type 0} (w : W) (r : Run W A) (f : A → Cmd W B)
      → Stays w r
      → ((a : A) (w' : W) → Stays w' (f a w'))
      → Stays w (Run.and_then r f)
  Stays-and_then w (done a w') f same rest = onwards (f a w') (rest a w')
    where
      onwards : {B : Type 0} (r : Run W B) → Stays w' r → Stays w r
      onwards (done b w'') more = more ∙ same
      onwards aborted more = tt
      onwards fault more = tt
      onwards blocked more = tt
  Stays-and_then w aborted f same rest = tt
  Stays-and_then w fault f same rest = tt
  Stays-and_then w blocked f same rest = tt

  pub Returns-Stays :
      {A : Type 0} {P : A → W → Type 0} (w : W) {r : Run W A}
      → Returns P r
      → Stays w r
      → Returns (λ a w'. P a w' × (kept w' ≡ kept w)) r
  Returns-Stays w (returns p) same = returns (p, same)
