-- ===== src/Emulator/Exec.antt =====
-- What the switch of `main` in src/ia32emu.c makes of the operands and of the flags.
use Prim.Native.Nat.{bit_or, bit_xor, bit_or-bitwise, bit_xor-bitwise}
use atomicles.Base.{
  ℕ, ◌+◌, ◌/◌, ◌%◌, ◌^◌, ◌<◌, ◌≡◌, refl, ◌∙◌, arith, true, Bool-cases, ◌⊎◌, ltb, inl, inr, none,
  some,
}
use atomicles.Bits.{u32, msb, bitwise_xnor32}
use atomicles.Bits.Digits.{msb_lem}
use atomicles.Registers.{
  to_eflags, to_eax, to_ebx, to_ecx, to_edx, Pointer, flag, set_flag, cf_bit, pf_bit, zf_bit,
  sf_bit, of_bit,
}
use atomicles.Emulator.{
  assign, commit, put_flag, Opcode, mov, add, sub, or, and, xor, test, cmp, Machine, Operand,
  to_register, to_immediate, Outcome, ran, crashed, exec, eflags_of, value, assign, commit,
  set_test_flags, set_eflags, is_zero, same_sizes, compute, compare_only, with_operands,
}

-- The opcodes that take a source and a destination.
pub data TakesTwo : Opcode → Type 0 where
  two_mov : TakesTwo mov
  two_add : TakesTwo add
  two_sub : TakesTwo sub
  two_or : TakesTwo or
  two_and : TakesTwo and
  two_xor : TakesTwo xor
  two_test : TakesTwo test
  two_cmp : TakesTwo cmp

with_operands-immediate :
    (m : Machine) {d s : Operand} (f : Operand → Operand → Outcome)
    → m.dst ≡ some d
    → m.src ≡ some s
    → m.src_register ≡ none
    → with_operands m f ≡ crashed
unfolding with_operands same_sizes
with_operands-immediate m f to from none_set = rw (to, from, none_set) refl

with_operands-both :
    (m : Machine) {d s : Operand} (f : Operand → Operand → Outcome)
    → m.dst ≡ some d
    → m.src ≡ some s
    → same_sizes m ≡ some true
    → with_operands m f ≡ f d s
unfolding with_operands
with_operands-both m f to from sizes = rw (to, from, sizes) refl

-- With a destination, a source that is the immediate, and no register given for the source
-- before, every instruction with two operands reads through NULL in check_operands.
pub exec-immediate :
    (o : Opcode) (count : ℕ) (m : Machine) {d : Operand}
    → TakesTwo o
    → m.dst ≡ some d
    → m.src ≡ some to_immediate
    → m.src_register ≡ none
    → exec o count m ≡ crashed
unfolding exec compute compare_only
exec-immediate o count m two_mov to from none_set = with_operands-immediate m _ to from none_set
exec-immediate o count m two_add to from none_set = with_operands-immediate m _ to from none_set
exec-immediate o count m two_sub to from none_set = with_operands-immediate m _ to from none_set
exec-immediate o count m two_or to from none_set = with_operands-immediate m _ to from none_set
exec-immediate o count m two_and to from none_set = with_operands-immediate m _ to from none_set
exec-immediate o count m two_xor to from none_set = with_operands-immediate m _ to from none_set
exec-immediate o count m two_test to from none_set = with_operands-immediate m _ to from none_set
exec-immediate o count m two_cmp to from none_set = with_operands-immediate m _ to from none_set

-- Bits of the flags after an assignment to another one.
cf_of : (n e : ℕ) → flag cf_bit (set_flag of_bit n e) ≡ flag cf_bit e
cf_of n e = omega arith

cf_sf : (n e : ℕ) → flag cf_bit (set_flag sf_bit n e) ≡ flag cf_bit e
cf_sf n e = omega arith

cf_zf : (n e : ℕ) → flag cf_bit (set_flag zf_bit n e) ≡ flag cf_bit e
cf_zf n e = omega arith

cf_pf : (n e : ℕ) → flag cf_bit (set_flag pf_bit n e) ≡ flag cf_bit e
cf_pf n e = omega arith

of_sf : (n e : ℕ) → flag of_bit (set_flag sf_bit n e) ≡ flag of_bit e
of_sf n e = omega arith

of_zf : (n e : ℕ) → flag of_bit (set_flag zf_bit n e) ≡ flag of_bit e
of_zf n e = omega arith

of_pf : (n e : ℕ) → flag of_bit (set_flag pf_bit n e) ≡ flag of_bit e
of_pf n e = omega arith

sf_zf : (n e : ℕ) → flag sf_bit (set_flag zf_bit n e) ≡ flag sf_bit e
sf_zf n e = omega arith

sf_pf : (n e : ℕ) → flag sf_bit (set_flag pf_bit n e) ≡ flag sf_bit e
sf_pf n e = omega arith

pf_zf : (n e : ℕ) → flag pf_bit (set_flag zf_bit n e) ≡ flag pf_bit e
pf_zf n e = omega arith

set_self_cf : (n e : ℕ) → flag cf_bit (set_flag cf_bit n e) ≡ n % 2
set_self_cf n e = omega arith

set_self_of : (n e : ℕ) → flag of_bit (set_flag of_bit n e) ≡ n % 2
set_self_of n e = omega arith

set_self_sf : (n e : ℕ) → flag sf_bit (set_flag sf_bit n e) ≡ n % 2
set_self_sf n e = omega arith

set_self_zf : (n e : ℕ) → flag zf_bit (set_flag zf_bit n e) ≡ n % 2
set_self_zf n e = omega arith

set_self_pf : (n e : ℕ) → flag pf_bit (set_flag pf_bit n e) ≡ n % 2
set_self_pf n e = omega arith

-- The flags of a result: no carry and no overflow, its sign, whether it is 0, and its even parity.
abbrev pub FlagsOf : (result e : ℕ) → Type 0
FlagsOf result e =
    (flag cf_bit e ≡ 0)
    × (flag of_bit e ≡ 0)
    × (flag sf_bit e ≡ result / 2 ^ 31)
    × (flag zf_bit e ≡ is_zero result)
    × (flag pf_bit e ≡ bitwise_xnor32 result % 2)

is_zero_bit : (n : ℕ) → is_zero n % 2 ≡ is_zero n
is_zero_bit n = ground arith

test_flags :
    (m : Machine)
    → m.buffer < 2 ^ 32
    → FlagsOf m.buffer (set_flag zf_bit (is_zero m.buffer) (eflags_of (set_test_flags m)))
unfolding set_test_flags
test_flags m h =
    let z = is_zero m.buffer in
    let p = bitwise_xnor32 m.buffer in
    let e0 = set_flag cf_bit 0 (eflags_of m) in
    let e1 = set_flag of_bit 0 e0 in
    let e2 = set_flag sf_bit (msb m.buffer) e1 in
    let e3 = set_flag zf_bit z e2 in
    let e4 = set_flag pf_bit p e3 in
    (
      cf_zf z e4
          ∙ cf_pf p e3
          ∙ cf_zf z e2
          ∙ cf_sf (msb m.buffer) e1
          ∙ cf_of 0 e0
          ∙ set_self_cf 0 (eflags_of m),
      of_zf z e4 ∙ of_pf p e3 ∙ of_zf z e2 ∙ of_sf (msb m.buffer) e1 ∙ set_self_of 0 e0,
      sf_zf z e4
          ∙ sf_pf p e3
          ∙ sf_zf z e2
          ∙ set_self_sf (msb m.buffer) e1
          ∙ rw (msb_lem m.buffer h) (omega (arith, h)),
      set_self_zf z e4 ∙ is_zero_bit m.buffer,
      pf_zf z e4 ∙ set_self_pf p e3,
    )

-- With a word in the buffer, setEFLAGS for TEST clears CF and OF, puts the sign and the zero
-- test of the buffer into SF and ZF, and its even parity into PF. For ADD it does the same, so
-- that CF is 0 after every ADD.
pub set_eflags-test :
    (m : Machine) (d s : Operand) (o : Opcode)
    → m.buffer < 2 ^ 32
    → (o ≡ test) ⊎ (o ≡ add)
    → FlagsOf m.buffer (eflags_of (set_eflags o d s m))
unfolding set_eflags
set_eflags-test m d s o h (inl is) = rw is (test_flags m h)
set_eflags-test m d s o h (inr is) = elim (Bool-cases (ltb m.buffer (value m d))) [
  | inl e ↦ rw (is, e) (test_flags (put_flag cf_bit 1 m) h)
  | inr e ↦ rw (is, e) (test_flags m h)
]

load-store :
    (m : Machine) (p : Pointer) (n : ℕ) → value (assign m (to_register p) n) (to_register p) ≡ n
load-store m to_eflags n = refl
load-store m to_eax n = refl
load-store m to_ebx n = refl
load-store m to_ecx n = refl
load-store m to_edx n = refl

-- The opcodes that write a result made of the buffer and the source.
pub data FromBuffer : Opcode → Type 0 where
  from_mov : FromBuffer mov
  from_add : FromBuffer add
  from_or : FromBuffer or
  from_xor : FromBuffer xor

buffer_kept :
    (o : Opcode) (d s : Operand) (m : Machine)
    → FromBuffer o
    → (set_eflags o d s m).buffer ≡ m.buffer
unfolding set_eflags
buffer_kept o d s m from_mov = refl
buffer_kept o d s m from_or = refl
buffer_kept o d s m from_xor = refl
buffer_kept o d s m from_add = elim (Bool-cases (ltb m.buffer (value m d))) [
  | inl e ↦ rw e refl
  | inr e ↦ rw e refl
]

compute-stores :
    (o : Opcode) (f : Machine → Operand → Operand → ℕ) (m : Machine) {p : Pointer} {s : Operand}
    → FromBuffer o
    → m.dst ≡ some (to_register p)
    → m.src ≡ some s
    → same_sizes m ≡ some true
    → (m' : Machine) × (compute o f m ≡ ran m') × (value m' (to_register p) ≡ f m (to_register p) s)
unfolding compute commit
compute-stores o f m {p} {s} kind to from sizes =
    let m1 = record m { buffer = f m (to_register p) s } in
    let m2 = set_eflags o (to_register p) s m1 in
    (
      commit (to_register p) m2,
      with_operands-both m _ to from sizes,
      load-store m2 p m2.buffer ∙ buffer_kept o (to_register p) s m1 kind,
    )

-- With 0 in the buffer, where every run of the program starts, a register as destination, a word
-- as source and both of one size, MOV, ADD, OR and XOR all succeed and leave the source in the
-- destination.
pub exec-FromBuffer :
    (o : Opcode) (count : ℕ) (m : Machine) {p : Pointer} {s : Operand}
    → FromBuffer o
    → m.buffer ≡ 0
    → m.dst ≡ some (to_register p)
    → m.src ≡ some s
    → same_sizes m ≡ some true
    → value m s < 2 ^ 32
    → (m' : Machine) × (exec o count m ≡ ran m') × (value m' (to_register p) ≡ value m s)
unfolding exec
exec-FromBuffer o count m from_mov fresh to from sizes word =
    compute-stores mov (λ m d s. value m s) m from_mov to from sizes
exec-FromBuffer o count m {p} {s} from_add fresh to from sizes word =
    let (m', is, v) =
      compute-stores add (λ m d s. u32 (m.buffer + value m s)) m from_add to from sizes in
    (m', is, v ∙ omega (arith, fresh, word))
exec-FromBuffer o count m {p} {s} from_or fresh to from sizes word =
    let (m', is, v) =
      compute-stores or (λ m d s. bit_or m.buffer (value m s)) m from_or to from sizes in
    (m', is, v ∙ rw (fresh, bit_or-bitwise) refl)
exec-FromBuffer o count m {p} {s} from_xor fresh to from sizes word =
    let (m', is, v) =
      compute-stores xor (λ m d s. bit_xor m.buffer (value m s)) m from_xor to from sizes in
    (m', is, v ∙ rw (fresh, bit_xor-bitwise) refl)
