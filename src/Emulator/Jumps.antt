-- ===== src/Emulator/Jumps.antt =====
-- The jumps of src/ia32emu.c come in pairs of a condition and its negation.
use atomicles.Base.{ℕ, ◌≡◌, arith, Bool, not, Option, some}
use atomicles.Emulator.{
  Opcode, condition, ja, jae, jb, jbe, jc, je, jg, jge, jl, jle, jna, jnae, jnb, jnbe, jnc, jne,
  jng, jnge, jnl, jnle, jno, jnp, jns, jnz, jo, jp, jpe, jpo, js, jz,
}

-- Jcc and JNcc, by the mnemonics.
pub data Negates : Opcode → Opcode → Type 0 where
  a_na : Negates ja jna
  ae_nae : Negates jae jnae
  b_nb : Negates jb jnb
  be_nbe : Negates jbe jnbe
  c_nc : Negates jc jnc
  e_ne : Negates je jne
  g_ng : Negates jg jng
  ge_nge : Negates jge jnge
  l_nl : Negates jl jnl
  le_nle : Negates jle jnle
  o_no : Negates jo jno
  p_np : Negates jp jnp
  pe_po : Negates jpe jpo
  s_ns : Negates js jns
  z_nz : Negates jz jnz

abbrev pub Opposite : Option Bool → Option Bool → Type 0
Opposite (some a) (some b) = a ≡ not b
Opposite _ _ = ⊥

-- Of a jump and its negation exactly one is taken, on every word of flags.
pub condition-Negates :
    (o o' : Opcode) → Negates o o' → (e : ℕ) → Opposite (condition o e) (condition o' e)
unfolding condition
condition-Negates o o' a_na e = ground arith
condition-Negates o o' ae_nae e = ground arith
condition-Negates o o' b_nb e = ground arith
condition-Negates o o' be_nbe e = ground arith
condition-Negates o o' c_nc e = ground arith
condition-Negates o o' e_ne e = ground arith
condition-Negates o o' g_ng e = ground arith
condition-Negates o o' ge_nge e = ground arith
condition-Negates o o' l_nl e = ground arith
condition-Negates o o' le_nle e = ground arith
condition-Negates o o' o_no e = ground arith
condition-Negates o o' p_np e = ground arith
condition-Negates o o' pe_po e = ground arith
condition-Negates o o' s_ns e = ground arith
condition-Negates o o' z_nz e = ground arith
