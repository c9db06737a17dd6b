-- ===== src/Registers/Kept.antt =====
-- The registers between two runs: what registers$delete writes is what registers$init reads.
use atomicles.Base.{
  ℕ, ◌+◌, ◌*◌, ◌/◌, ◌%◌, ◌^◌, List, [], ◌∷◌, ◌≡◌, refl, ◌∙◌, ◌<◌, some, arith, false, length,
  get_elem?, set,
}
use atomicles.Sys.{Kernel}
use atomicles.Sys.Run
use atomicles.Sys.Run.{Returns, returns, ◌>>◌}
use atomicles.Sys.View.{View, SemSet}
use atomicles.Sys.Laws.{Laws, Answers, Leaves}
use atomicles.Semaphore as Sem
use atomicles.Semaphore.{Semaphore}
use atomicles.SharedMemory as Shm
use atomicles.SharedMemory.{SharedMemory, write_uint, write_uint32, read_uint, read_uint32}
use atomicles.SharedMemory.Access.{IsReady, write_uint-IsReady, read_uint_lem}
use atomicles.Registers
use atomicles.Registers.{Register, Registers, reserve, set_flag, read_register, read_registers}

-- The registers as the next run finds them: each under its own id, the reserved flags set anew.
abbrev pub renewed : Registers → Registers
renewed rs = record {
  eflags = record { id = 16; dword = reserve rs.eflags.dword };
  eax = record { id = 260; dword = rs.eax.dword };
  ebx = record { id = 276; dword = rs.ebx.dword };
  ecx = record { id = 292; dword = rs.ecx.dword };
  edx = record { id = 308; dword = rs.edx.dword };
}

abbrev pub words_of : Registers → List ℕ
words_of rs = rs.eflags.dword ∷ rs.eax.dword ∷ rs.ebx.dword ∷ rs.ecx.dword ∷ rs.edx.dword ∷ []

-- What 32 bits hold of the registers.
abbrev cut : Registers → Registers
cut rs = record {
  eflags = record rs.eflags { dword = rs.eflags.dword % 2 ^ 32 };
  eax = record rs.eax { dword = rs.eax.dword % 2 ^ 32 };
  ebx = record rs.ebx { dword = rs.ebx.dword % 2 ^ 32 };
  ecx = record rs.ecx { dword = rs.ecx.dword % 2 ^ 32 };
  edx = record rs.edx { dword = rs.edx.dword % 2 ^ 32 };
}

-- The flags `new` are `old` with bit 1 set and bits 3, 5 and 15 cleared.
abbrev pub Reserved : (old new : ℕ) → Type 0
Reserved old new =
    new + (old / 2) % 2 * 2 + (old / 8) % 2 * 8 + (old / 32) % 2 * 32 + (old / 32768) % 2 * 32768
    ≡ old + 2

reserve_lem : (old : ℕ) → Reserved old (reserve old)
unfolding reserve
reserve_lem old =
    let one = set_flag 1 1 old in
    let three = set_flag 3 0 one in
    let five = set_flag 5 0 three in
    let b3 : (one / 8) % 2 ≡ (old / 8) % 2 = omega arith in
    let b5 : (three / 32) % 2 ≡ (old / 32) % 2 = omega arith in
    let b15 : (five / 32768) % 2 ≡ (old / 32768) % 2 = omega arith in omega (arith, b3, b5, b15)

module _ {W : Type 0} ⦃k : Kernel W⦄ (laws : Laws k) where
  open laws use {view}

  write_uint32-write_uint :
      (this : SharedMemory) (i n : ℕ) → write_uint32 ⦃k = k⦄ this i n ≡ write_uint ⦃k = k⦄ this i n
  unfolding write_uint32 write_uint
  write_uint32-write_uint this i n = refl

  read_uint32-read_uint :
      (this : SharedMemory) (i : ℕ) → read_uint32 ⦃k = k⦄ this i ≡ read_uint ⦃k = k⦄ this i
  unfolding read_uint32 read_uint
  read_uint32-read_uint this i = refl

  close_lem :
      (this : SharedMemory) {g : Semaphore} {P : Unit {0} → W → Type 0} (w : W)
      → this.shsem ≡ Shm.guard g
      → P tt w
      → Returns P (Shm.delete this false w)
  unfolding Shm.delete Shm.delete_guard Sem.delete
  close_lem this w guarded p = rw guarded (returns p)

  module _ {this : SharedMemory} {g : Semaphore} {addr : ℕ} {s : SemSet} where
    -- A write leaves the object ready, with the word in the segment.
    write_next :
        {w : W} (ws : List ℕ) (i n : ℕ)
        → IsReady this g addr s (record { words = ws }) (view w)
        → i < 2 ^ 16
        → i < length ws
        → Returns
            (λ _ w'. IsReady this g addr s (record { words = set ws i (n % 2 ^ 32) }) (view w'))
            (write_uint32 this i n w)
    write_next {w} ws i n ready short inside =
        rw (write_uint32-write_uint this i n)
          (Run.mono (write_uint-IsReady laws ws i n ready short inside) λ _ w' (after, _). after)

    read_register_lem :
        {w : W} (ws : List ℕ) (v : View) (i id : ℕ) {n : ℕ}
        → view w ≡ v
        → IsReady this g addr s (record { words = ws }) v
        → i < 2 ^ 16
        → get_elem? ws i ≡ some n
        → Returns (Leaves view v (record { id = id; dword = n })) (read_register this i id w)
    unfolding read_register
    read_register_lem {w} ws v i id same ready short there =
        Run.bind (laws.malloc_ok w) λ b w1 (junk, e1, same1).
          rw (e1, read_uint32-read_uint this i)
            (Run.bind
              (read_uint_lem laws {this = this} {g = g} {addr = addr} {s = s}
                {seg = record { words = ws }} {w = w1} (rw (same1, same) ready) i short there)
              λ n w2 (e2, same2). rw e2 (returns (refl, same2 ∙ same1 ∙ same)))

    pub read_registers_lem :
        {w : W} (rs : Registers)
        → IsReady this g addr s (record { words = words_of rs }) (view w)
        → Returns (Answers view w (renewed rs)) (read_registers this w)
    unfolding read_registers
    read_registers_lem {w} rs ready =
        let v = view w in
        let ws = words_of rs in
        Run.bind (read_register_lem {w = w} ws v 0 16 refl ready (omega arith) refl)
          λ r0 w1 (e0, s0).
            Run.bind (read_register_lem {w = w1} ws v 1 260 s0 ready (omega arith) refl)
              λ r1 w2 (e1, s1).
                Run.bind (read_register_lem {w = w2} ws v 2 276 s1 ready (omega arith) refl)
                  λ r2 w3 (e2, s2).
                    Run.bind (read_register_lem {w = w3} ws v 3 292 s2 ready (omega arith) refl)
                      λ r3 w4 (e3, s3).
                        Run.bind (read_register_lem {w = w4} ws v 4 308 s3 ready (omega arith) refl)
                          λ r4 w5 (e4, s4). rw (e0, e1, e2, e3, e4) (returns (refl, s4))

    pub delete_lem :
        {w : W} (rs : Registers) (a b c d e : ℕ)
        → IsReady this g addr s (record { words = a ∷ b ∷ c ∷ d ∷ e ∷ [] }) (view w)
        → Returns
            (λ _ w'. IsReady this g addr s (record { words = words_of (cut rs) }) (view w'))
            (Registers.delete this rs w)
    unfolding Registers.delete
    delete_lem {w} rs a b c d e ready =
        let v0 = rs.eflags.dword % 2 ^ 32 in
        let v1 = rs.eax.dword % 2 ^ 32 in
        let v2 = rs.ebx.dword % 2 ^ 32 in
        let v3 = rs.ecx.dword % 2 ^ 32 in
        Run.bind
          (write_next (a ∷ b ∷ c ∷ d ∷ e ∷ []) 0 rs.eflags.dword ready (omega arith) (omega arith))
          λ _ _ r1.
            Run.bind
              (write_next (v0 ∷ b ∷ c ∷ d ∷ e ∷ []) 1 rs.eax.dword r1 (omega arith) (omega arith))
              λ _ _ r2.
                Run.bind
                  (write_next (v0 ∷ v1 ∷ c ∷ d ∷ e ∷ []) 2 rs.ebx.dword r2 (omega arith)
                    (omega arith))
                  λ _ _ r3.
                    Run.bind
                      (write_next (v0 ∷ v1 ∷ v2 ∷ d ∷ e ∷ []) 3 rs.ecx.dword r3 (omega arith)
                        (omega arith))
                      λ _ _ r4.
                        Run.bind
                          (write_next (v0 ∷ v1 ∷ v2 ∷ v3 ∷ e ∷ []) 4 rs.edx.dword r4 (omega arith)
                            (omega arith))
                          λ _ w5 r5. close_lem this w5 ready.guarded r5

  -- What the next run finds, for registers of these words.
  abbrev pub Found : Registers → Registers → Type 0
  Found rs rs' =
      (flags : ℕ) × (rs' ≡ record {
        eflags = record { id = 16; dword = flags };
        eax = record { id = 260; dword = rs.eax.dword % 2 ^ 32 };
        ebx = record { id = 276; dword = rs.ebx.dword % 2 ^ 32 };
        ecx = record { id = 292; dword = rs.ecx.dword % 2 ^ 32 };
        edx = record { id = 308; dword = rs.edx.dword % 2 ^ 32 };
      })
      × Reserved (rs.eflags.dword % 2 ^ 32) flags

  -- With a segment of five words mapped and its guard free, registers$delete and then the reads of
  -- registers$init return, and give every register its own id and its word again, modulo 2^32; of
  -- the flags, bit 1 is set, bits 3, 5 and 15 are cleared, and the others are kept.
  pub read_registers-delete :
      {this : SharedMemory} {g : Semaphore} {addr : ℕ} {s : SemSet} {w : W} (rs : Registers)
      {a b c d e : ℕ}
      → IsReady this g addr s (record { words = a ∷ b ∷ c ∷ d ∷ e ∷ [] }) (view w)
      → Returns (λ rs' _. Found rs rs') ((Registers.delete this rs >> read_registers this) w)
  read_registers-delete {this} {g} {addr} {s} {w} rs {a} {b} {c} {d} {e} ready =
      Run.bind (delete_lem {this = this} {g = g} {addr = addr} {s = s} rs a b c d e ready)
        λ _ w1 ready1. Run.mono (read_registers_lem (cut rs) ready1) λ rs' _ (same, _).
          (reserve (rs.eflags.dword % 2 ^ 32), same, reserve_lem (rs.eflags.dword % 2 ^ 32))
