-- ===== src/Lock/Main.antt =====
-- `main` of src/lock.c. What `getopt_long` and `atoi` make of the command line is an argument: the
-- options in order, with the numbers that `atoi` reads off their arguments, and the operands.
use text.Mathlib.Text.{◌==◌ as str_eq}
use Prim.Native.String.{String}
use atomicles.Base.{ℕ, Bool, true, false, List, [], ◌∷◌, ltb, if◌then◌else◌}
use atomicles.Base.Int.{ℤ, pos, negsuc, minus_one, to_u32, signed16}
use atomicles.Sys.{Kernel}
use atomicles.Sys.Run.{Cmd, pure, ◌>>=◌}
use atomicles.Semaphore.{u16, crash}
use atomicles.Lock
use atomicles.Lock.{globals}

pub data Flag : Type 0 where
  semaphores timeout expire : ℤ → Flag
  verbose unknown : Flag

-- The local variables of `main`, and the global `expiry`, which `-x` sets.
pub record Settings : Type 0 where
  pub semaphores : ℕ
  pub timeout : ℤ
  pub expire : ℤ
  pub expiry : Bool
  pub bad : Bool

abbrev pub defaults : Settings
defaults = record { semaphores = 1; timeout = pos 0; expire = pos 0; expiry = false; bad = false }

-- One round of the `getopt_long` loop.
unfoldable pub apply_flag : Settings → Flag → Settings
apply_flag s (Flag.semaphores n) = record s { semaphores = u16 (to_u32 n) }
apply_flag s (Flag.timeout n) = record s { timeout = signed16 (u16 (to_u32 n)) }
apply_flag s (Flag.expire n) = record s { expire = n; expiry = true }
apply_flag s verbose = s
apply_flag s unknown = record s { bad = true }

unfoldable pub apply_flags : Settings → List Flag → Settings
unfolding apply_flag
apply_flags s [] = s
apply_flags s (f ∷ fs) = apply_flags (apply_flag s f) fs

module _ {W : Type 0} ⦃k : Kernel W⦄ (atoi : String → ℤ) where
  -- The chain of `strncmp`; each compares the terminating NUL too. `usage` only prints.
  unfoldable pub dispatch : Settings → (key : ℕ) → (action : String) → Cmd W ℤ
  dispatch s key action =
      let gl = record globals { expiry = s.expiry } in
      if str_eq action "on"
      then Lock.lock gl key s.timeout
      else if str_eq action "off"
      then Lock.unlock gl key
      else if str_eq action "summary"
      then (Lock.summary gl key >>= λ r. pure r.0)
      else if str_eq action "status"
      then (Lock.status gl key >>= λ r. pure r.0)
      else if str_eq action "delete"
      then Lock.delete key
      else if str_eq action "create"
      then Lock.create key s.semaphores s.expire
      else if str_eq action "help"
      then pure (pos 0)
      else pure minus_one

  -- `argv[0]` and `argv[1]` behind the options. `delta` is 0 here, so the call of `unlock` in front
  -- is never made. A missing operand is read through NULL.
  unfoldable pub run_operands : Settings → List String → Cmd W ℤ
  run_operands s [] = crash
  run_operands s (key ∷ []) = crash
  run_operands s (key ∷ action ∷ rest) = dispatch s (to_u32 (atoi key)) action

  unfoldable pub main : (argc : ℕ) → List Flag → List String → Cmd W ℤ
  main argc flags operands =
      if ltb 2 argc
      then (let s = apply_flags defaults flags in
          if s.bad then pure (negsuc 1) else run_operands s operands)
      else pure (pos 0)
