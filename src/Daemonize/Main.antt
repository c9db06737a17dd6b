-- ===== src/Daemonize/Main.antt =====
-- `main` of src/daemonize.c. What `getopt_long` and `atoi` make of the command line is an argument:
-- the options in order with their numbers, and the operands behind them. `usage` only prints.
use Prim.Native.String.{String}
use atomicles.Base.{
  ℕ, suc, Bool, true, false, Option, none, some, List, [], ◌∷◌, ◌&&◌, ltb, if◌then◌else◌,
}
use atomicles.Base.Int.{ℤ, pos, negsuc, minus_one, ltb_ℤ, is_zero_ℤ, to_u32}
use atomicles.Sys.{Kernel}
use atomicles.Sys.Processes.{Processes}
use atomicles.Sys.Run.{Cmd, pure, ◌>>=◌}
use atomicles.SharedMemory as Shm
use atomicles.SharedMemory.{SharedMemory}
use atomicles.Daemonize.{shmem_size}
use atomicles.Daemonize.Command.{Started, code, start, stop, status}

pub data Switch : Type 0 where
  start_on stop_on status_on : ℤ → Switch
  help command unknown : Switch

-- The local variables of `main`: the bits of `options`, the key, `e`, and whether `--` was seen.
pub record Choice : Type 0 where
  pub start : Bool
  pub stop : Bool
  pub status : Bool
  pub help : Bool
  pub key : ℤ
  pub e : ℤ
  pub over : Bool

abbrev pub no_choice : Choice
no_choice = record {
  start = false;
  stop = false;
  status = false;
  help = false;
  key = pos 0;
  e = minus_one;
  over = false;
}

-- `key = atoi(optarg); if(key > 0) e = 0;`
unfoldable pub with_key : Choice → ℤ → Choice
with_key c n = record c { key = n; e = if ltb_ℤ (pos 0) n then pos 0 else c.e }

unfoldable pub apply_switch : Choice → Switch → Choice
unfolding with_key
apply_switch c (start_on n) = with_key (record c { start = true }) n
apply_switch c (stop_on n) = with_key (record c { stop = true }) n
apply_switch c (status_on n) = with_key (record c { status = true }) n
apply_switch c help = record c { help = true }
apply_switch c command = record c { over = true }
apply_switch c unknown = record c { e = pos 1 }

-- The `getopt_long` loop, which `--` ends.
unfoldable pub apply_switches : Choice → List Switch → Choice
unfolding apply_switch
apply_switches c [] = c
apply_switches c (o ∷ os) =
    let rest = apply_switches (apply_switch c o) os in if c.over then c else rest

-- `abs`, as the key that SharedMemory takes.
abbrev pub abs : ℤ → ℕ
abs (pos n) = n
abs (negsuc n) = suc n

abbrev pub is_empty : List String → Bool
is_empty [] = true
is_empty (x ∷ xs) = false

module _ {W : Type 0} ⦃k : Kernel W⦄ ⦃p : Processes W⦄ where
  unfoldable pub start_new : (rounds : ℕ) → List String → Option SharedMemory → Cmd W Started
  start_new rounds argv none = pure (code minus_one)
  start_new rounds argv (some shmem) = start rounds argv shmem

  unfoldable pub stop_attached : Option SharedMemory → Cmd W Started
  stop_attached none = pure (code minus_one)
  stop_attached (some shmem) = do e ← stop shmem; pure (code e)

  -- The chain behind the options, with `e` 0.
  unfoldable pub run_choice : (rounds : ℕ) → Choice → List String → Cmd W Started
  unfolding start_new stop_attached
  run_choice rounds c argv =
      if c.help
      then pure (code (pos 0))
      else if c.start && (if is_empty argv then false else true)
      then (Shm.new (abs c.key) shmem_size true >>= start_new rounds argv)
      else if c.stop && is_empty argv
      then (Shm.attach (abs c.key) >>= stop_attached)
      else if c.status && is_empty argv
      then (Shm.attach (abs c.key) >>= λ shmem.
          status shmem (to_u32 c.key) >>= λ r. pure (code r.0))
      else pure (code minus_one)

  -- `rounds` is for how many rounds a daemon is observed.
  unfoldable pub main : (rounds argc : ℕ) → List Switch → List String → Cmd W Started
  unfolding run_choice apply_switches
  main rounds argc switches argv =
      if ltb 2 argc
      then (let c = apply_switches no_choice switches in
          if is_zero_ℤ c.e then run_choice rounds c argv else pure (code minus_one))
      else pure (code (pos 0))
