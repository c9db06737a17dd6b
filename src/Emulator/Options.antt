-- ===== src/Emulator/Options.antt =====
-- `main` of src/ia32emu.c around the instruction: the options, the operands of the command line, and
-- the registers that are kept between two runs. What `getopt_long` makes of the command line is an
-- argument, and so is `strtoul`: the number that it reads off a text, and whether it read all of it.
use Prim.Native.Nat.{bit_or}
use atomicles.Base.{
  ℕ, ◌*◌, ◌%◌, ◌^◌, Bool, true, false, ◌&&◌, ◌==◌, leb, if◌then◌else◌, Option, none, some, List, [],
  ◌∷◌,
}
use atomicles.Base.Int.{ℤ, pos}
use atomicles.Sys.{Kernel}
use atomicles.Sys.Run.{Cmd, pure, ◌>>=◌, ◌>>◌}
use atomicles.Semaphore.{crash}
use atomicles.SharedMemory.{SharedMemory}
use atomicles.Bits.{u32, hctoc}
use atomicles.Registers as Regs
use atomicles.Registers.{
  Registers, Register, Pointer, to_eflags, to_eax, to_ebx, to_ecx, to_edx, register,
  register_by_name, same_text,
}
use atomicles.Emulator.{
  Opcode, sal, sar, shl, shr, Operand, to_register, to_immediate, Machine, assign, slot_size,
  Outcome, ran, refused, jumps, crashed, exec,
}
use atomicles.Emulator.Parse.{set_instruction}

-- OPERAND_DST and OPERAND_SRC
pub data Slot : Type 0 where
  to_dst to_src : Slot

-- The options, in the order of the command line.
pub data Argument : Type 0 where
  help destination source immediate unknown : Argument
  named valued : List ℕ → Argument

-- The globals and the local variables of `main`. `target` is OPERAND_DST at first; `pointed` tells
-- that `operand_ptr` is no longer NULL: it points at the operand of `target` then.
pub record Options : Type 0 where
  pub machine : Machine
  pub target : Slot
  pub pointed : Bool
  pub e : ℕ
  pub h_f : Bool

-- EFLAGS_RESET
abbrev pub eflags_reset : ℕ
eflags_reset = 32

abbrev pub reset_text : List ℕ
reset_text = 82 ∷ 83 ∷ 84 ∷ []

abbrev pub operand_at : Machine → Slot → Option Operand
operand_at m to_dst = m.dst
operand_at m to_src = m.src

abbrev pub register_at : Machine → Slot → Option Pointer
register_at m to_dst = m.dst_register
register_at m to_src = m.src_register

-- `*operand_ptr = &r->dword; registers[target] = r;`
abbrev pub point_at : Slot → Pointer → Machine → Machine
point_at to_dst p m = record m { dst = some (to_register p); dst_register = some p }
point_at to_src p m = record m { src = some (to_register p); src_register = some p }

-- The digits in front of the terminating NUL; the loop is left behind the last one.
unfoldable pub hex_from : (operand_val : ℕ) → List ℕ → ℕ
hex_from n [] = n
hex_from n (c ∷ []) = bit_or n (hctoc c)
hex_from n (c ∷ d ∷ rest) = hex_from (u32 (bit_or n (hctoc c) * 16)) (d ∷ rest)

abbrev pub complain : Options → Options
complain o = record o { e = 1 }

abbrev pub store_value : Options → Operand → ℕ → Options
store_value o op n = record o { machine = assign o.machine op n }

-- `case 'r'`, where `none` is a read in front of the name.
unfoldable pub name_register : Options → List ℕ → Option Options
name_register o name =
    if o.pointed
    then elim (register_by_name name o.machine.regs) [
      | none ↦ none
      | some (p, regs) ↦
          some (record o { machine = point_at o.target p (record o.machine { regs = regs }) })
    ]
    else some (complain o)

-- `operand_val` is not initialised: what it holds before a round writes it is a parameter.
module _ (strtoul : List ℕ → ℕ × Bool) (unwritten : Options → ℕ) where
  -- The value RST. For an operand that is not EFLAGS the value is not written before it is stored.
  unfoldable pub reset_operand : Options → Operand → Options
  reset_operand o (to_register to_eflags) = store_value o (to_register to_eflags) eflags_reset
  reset_operand o op = store_value o op (u32 (unwritten o))

  -- A value that is not RST, for a register of so many bits. A value that is too large is reported,
  -- and stored.
  unfoldable pub read_value : Options → Operand → List ℕ → (size : ℕ) → Options
  unfolding hex_from
  read_value o op text size =
      let n = u32 (strtoul text).0 in
      if leb n (2 ^ size)
      then store_value o op (if (strtoul text).1 then n else hex_from 0 text)
      else complain (store_value o op n)

  -- `registers[target]` may be NULL, which is a size of `none`.
  unfoldable pub read_sized : Options → Operand → List ℕ → (size : Option ℕ) → Option Options
  unfolding read_value
  read_sized o op text none = none
  read_sized o op text (some size) = some (read_value o op text size)

  -- `case 'v'`, on `*operand_ptr`.
  unfoldable pub give_value : Options → List ℕ → Option Operand → Option Options
  unfolding reset_operand read_sized
  give_value o text none = some (complain o)
  give_value o text (some op) =
      if same_text text reset_text
      then some (reset_operand o op)
      else read_sized o op text (slot_size o.machine (register_at o.machine o.target))

  -- One round of the `getopt_long` loop. `none` is an access through NULL.
  unfoldable pub apply_argument : Options → Argument → Option Options
  unfolding name_register give_value
  apply_argument o help = some (record o { h_f = true })
  apply_argument o destination = some (record o { target = to_dst; pointed = true })
  apply_argument o source = some (record o { target = to_src; pointed = true })
  apply_argument o immediate = elim o.target [
    | to_src ↦ some (record o { machine = record o.machine { src = some to_immediate } })
    | to_dst ↦ some (complain o)
  ]
  apply_argument o (named name) = name_register o name
  apply_argument o (valued text) =
      if o.pointed then give_value o text (operand_at o.machine o.target) else none
  apply_argument o unknown = some (complain o)

  unfoldable pub apply_arguments : Options → List Argument → Option Options
  unfolding apply_argument
  apply_arguments o [] = some o
  apply_arguments o (a ∷ rest) = elim (apply_argument o a) [
    | none ↦ none
    | some o' ↦ apply_arguments o' rest
  ]

  -- What the operands ask for: an opcode and the count of a shift. `none` is a failure.
  unfoldable pub read_count : Opcode → List (List ℕ) → Option (Opcode × ℕ)
  read_count opcode [] = some (opcode, 1)
  read_count opcode (text ∷ []) =
      if (strtoul text).1 then some (opcode, (strtoul text).0 % 2 ^ 8) else none
  read_count opcode (text ∷ more ∷ rest) = none

  -- No operand behind the opcode.
  unfoldable pub read_none : Opcode → List (List ℕ) → Option (Opcode × ℕ)
  read_none opcode [] = some (opcode, 1)
  read_none opcode (text ∷ rest) = none

  -- The switch behind set_instruction: the shifts have a count.
  unfoldable pub read_operands : Opcode → List (List ℕ) → Option (Opcode × ℕ)
  unfolding read_count read_none
  read_operands sar rest = read_count sar rest
  read_operands shr rest = read_count shr rest
  read_operands sal rest = read_count sal rest
  read_operands shl rest = read_count shl rest
  read_operands opcode rest = read_none opcode rest

  unfoldable pub read_instruction : List (List ℕ) → Option (Opcode × ℕ)
  unfolding set_instruction read_operands
  read_instruction [] = none
  read_instruction (name ∷ rest) = elim (set_instruction name) [
    | none ↦ none
    | some opcode ↦ read_operands opcode rest
  ]

-- The registers that an instruction leaves.
abbrev pub registers_after : Outcome → Option Registers
registers_after (ran m) = some m.regs
registers_after (refused m) = some m.regs
registers_after (jumps taken m) = some m.regs
registers_after crashed = none

-- Behind the options: the instruction is executed unless something was wrong, or help is asked for.
unfoldable pub run_instruction : Options → Option (Opcode × ℕ) → Option Registers
unfolding exec
run_instruction o none = some o.machine.regs
run_instruction o (some (opcode, count)) =
    if o.e == 0 && (if o.h_f then false else true)
    then registers_after (exec opcode count o.machine)
    else some o.machine.regs

abbrev pub at_start : Registers → Options
at_start rs = record {
  machine = record {
    regs = rs;
    buffer = 0;
    immediate = 0;
    dst = none;
    src = none;
    dst_register = none;
    src_register = none;
  };
  target = to_dst;
  pointed = false;
  e = 0;
  h_f = false;
}

-- What becomes of the registers; `none` is an access through NULL.
unfoldable pub run_arguments :
    (List ℕ → ℕ × Bool)
    → (Options → ℕ)
    → List Argument
    → List (List ℕ)
    → Registers
    → Option Registers
unfolding apply_arguments read_instruction run_instruction
run_arguments strtoul unwritten arguments operands rs =
    elim (apply_arguments strtoul unwritten (at_start rs) arguments) [
      | none ↦ none
      | some o ↦ run_instruction o (read_instruction strtoul unwritten operands)
    ]

module _ {W : Type 0} ⦃k : Kernel W⦄ where
  unfoldable pub keep_registers : SharedMemory → Option Registers → Cmd W ℤ
  keep_registers shmem none = crash
  keep_registers shmem (some rs) = Regs.delete shmem rs >> pure (pos 0)

  -- The result is 0 whatever happened.
  unfoldable pub main :
      (List ℕ → ℕ × Bool) → (Options → ℕ) → List Argument → (operands : List (List ℕ)) → Cmd W ℤ
  unfolding run_arguments keep_registers
  main strtoul unwritten arguments operands = do
    made ← Regs.init
    keep_registers made.0 (run_arguments strtoul unwritten arguments operands made.1)
