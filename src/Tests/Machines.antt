-- ===== src/Tests/Machines.antt =====
-- Machines of the emulator, and the words it computes with.
use atomicles.Base.{ℕ, List, Bool, true, false, ◌≡◌, refl, arith, some, none, [], ◌∷◌}
use atomicles.Sys.Run.{Returns, ◌>>◌}
use atomicles.Sys.Sim.{sim}
use atomicles.Sys.Sim.Lawful.{sim-Laws}
use atomicles.Semaphore.Life.{object}
use atomicles.SharedMemory.{guard_key}
use atomicles.SharedMemory.Life.{mapped}
use atomicles.Lock.Counter.{mutex}
use atomicles.Registers
use atomicles.Registers.Kept.{Found, read_registers-delete}
use atomicles.Tests.Worlds.{five_words, segment_id, address, guard_id}
use atomicles.Emulator.Options.{Options, to_dst, valued, apply_argument, store_value}
use atomicles.Bits.{msb}
use atomicles.Bits.Digits.{msb_lem}
use atomicles.Emulator.Values.{apply_argument-hex_text}
use atomicles.Registers.{to_eax, to_ebx, flag, cf_bit, register_by_name, size_of}
use atomicles.Registers.Names
use atomicles.Registers.Names.{found, extended, word, low, high, register_by_name-Letter}
use atomicles.Emulator.{
  Machine, ran, to_register, to_immediate, value, exec, shift, shl, shr, add, eflags_of, cmp,
  same_sizes,
}
use atomicles.Emulator.Parse.{set_instruction, text_of, set_instruction-text_of}
use atomicles.Emulator.Shift.{shift-shl, shift-shr}
use atomicles.Emulator.Exec.{exec-FromBuffer, from_add}

-- Two registers as operands, with a fresh buffer.
abbrev machine : Machine
machine = record {
  regs = record {
    eflags = record { id = 16; dword = 2 };
    eax = record { id = 260; dword = 12 };
    ebx = record { id = 276; dword = 30 };
    ecx = record { id = 292; dword = 0 };
    edx = record { id = 308; dword = 0 };
  };
  buffer = 0;
  immediate = 5;
  dst = some (to_register to_eax);
  src = some (to_register to_ebx);
  dst_register = some to_eax;
  src_register = some to_ebx;
}

abbrev with_immediate : Machine
with_immediate = record machine { src = some to_immediate; src_register = none }

-- `-d -r eax` was read.
abbrev chosen : Options
chosen = record { machine = machine; target = to_dst; pointed = true; e = 0; h_f = false }

-- A `strtoul` that stops at once, as it does at a letter.
abbrev nothing_read : List ℕ → ℕ × Bool
nothing_read text = (0, false)

-- The text is BAD.
apply_argument-hex_text_example :
    apply_argument nothing_read (λ _. 0) chosen (valued (66 ∷ 65 ∷ 68 ∷ []))
    ≡ some (store_value chosen (to_register to_eax) 2989)
unfolding size_of
apply_argument-hex_text_example =
    apply_argument-hex_text nothing_read (λ _. 0) chosen to_eax 11 (10 ∷ 13 ∷ []) refl refl refl
      (omega arith) refl (omega arith, (omega arith, (omega arith, tt)))

shift-shl_example :
    ((shift shl machine 3221225473 2).0 ≡ 4)
    × (flag cf_bit (eflags_of (shift shl machine 3221225473 2).1) ≡ 1)
shift-shl_example = shift-shl machine 3221225473 1 (omega arith) (omega arith)

shift-shr_example :
    ((shift shr machine 13 3).0 ≡ 1) × (flag cf_bit (eflags_of (shift shr machine 13 3).1) ≡ 1)
shift-shr_example = shift-shr machine 13 2 (omega arith) (omega arith)

exec-FromBuffer_example :
    (m' : Machine) × (exec add 1 machine ≡ ran m') × (value m' (to_register to_eax) ≡ 30)
unfolding same_sizes size_of
exec-FromBuffer_example =
    exec-FromBuffer add 1 machine {p = to_eax} {s = to_register to_ebx} from_add refl refl refl refl
      (omega arith)

set_instruction-text_of_example : set_instruction (text_of cmp) ≡ none
set_instruction-text_of_example = set_instruction-text_of cmp

register_by_name-Letter_example :
    (register_by_name (101 ∷ 98 ∷ 120 ∷ []) machine.regs ≡ found Names.b 260 machine.regs)
    × (register_by_name (98 ∷ 120 ∷ []) machine.regs ≡ found Names.b 258 machine.regs)
    × (register_by_name (98 ∷ 108 ∷ []) machine.regs ≡ found Names.b 257 machine.regs)
    × (register_by_name (98 ∷ 104 ∷ []) machine.regs ≡ found Names.b 257 machine.regs)
register_by_name-Letter_example = register_by_name-Letter Names.b machine.regs

read_registers-delete_example :
    Returns
      (λ rs' _. Found ⦃k = sim⦄ sim-Laws machine.regs rs')
      ((Registers.delete ⦃k = sim⦄ (mapped 5 segment_id 8 address guard_id) machine.regs
          >> Registers.read_registers ⦃k = sim⦄ (mapped 5 segment_id 8 address guard_id))
        five_words)
unfolding sim-Laws
read_registers-delete_example =
    read_registers-delete ⦃k = sim⦄ sim-Laws {this = mapped 5 segment_id 8 address guard_id}
      {g = object (guard_key 5) guard_id 1 1} {addr = address} {s = mutex 90} {w = five_words}
      machine.regs
      (record {
        guarded = refl;
        binary = refl;
        exists = refl;
        free = refl;
        mapped = refl;
        points = refl;
        holds = refl;
      })

msb_lem_example : msb 3000000000 ≡ 1
msb_lem_example = msb_lem 3000000000 (omega arith)
