-- ===== src/Syschk/Dump.antt =====
-- Msg$dump of src/syschk.c: the table of the messages. Floating-point arithmetic is a parameter; the
-- column with the time between start and end, and the nodes that are freed, are left out.
use atomicles.Base.{ℕ, List, [], ◌∷◌, Bool, if◌then◌else◌}
use atomicles.Syschk.Messages.{Msg, Chain, null, node}

-- `float`: the conversion of an `unsigned long`, product, quotient and order.
pub record Floats (F : Type 0) : Type 0 where
  pub of_ulong : ℕ → F
  pub times : F → F → F
  pub over : F → F → F
  pub above : F → F → Bool

-- Msg$$PASS, Msg$$WARN and Msg$$ERRR
pub data Level : Type 0 where
  pass warn error : Level

-- A row as it is printed, with the level that gives its colour.
pub record Row (F : Type 0) : Type 0 where
  pub level : Level
  pub score : F
  pub msg : Msg

module _ {F : Type 0} ⦃f : Floats F⦄ where
  abbrev pub score_of : Msg → F
  score_of m = f.over (f.times (f.of_ulong 100) (f.of_ulong m.reach)) (f.of_ulong m.limit)

  unfoldable pub level_of : F → Level
  level_of score =
      if f.above score (f.of_ulong 70)
      then pass
      else if f.above score (f.of_ulong 50)
      then warn
      else error

  unfoldable pub dump : Chain → List (Row F)
  unfolding level_of
  dump null = []
  dump (node m rest) =
      record { level = level_of (score_of m); score = score_of m; msg = m } ∷ dump rest
