-- ===== src/Registers/Names.antt =====
-- `registers$register_by_name` of src/registers.c on the names of the registers.
use atomicles.Base.{ℕ, ◌+◌, ◌*◌, ◌≡◌, refl, Option, some, List, [], ◌∷◌}
use atomicles.Registers.{
  Registers, Pointer, to_eax, to_ebx, to_ecx, to_edx, load, store, register_by_name,
}

pub data Letter : Type 0 where
  a b c d : Letter

abbrev pub place : Letter → ℕ
place a = 0
place b = 1
place c = 2
place d = 3

abbrev pub pointer : Letter → Pointer
pointer a = to_eax
pointer b = to_ebx
pointer c = to_ecx
pointer d = to_edx

-- `e`, the letter and `x`; the letter and `x`, `l` or `h`.
abbrev pub extended : Letter → List ℕ
extended l = 101 ∷ (97 + place l) ∷ 120 ∷ []

abbrev pub word : Letter → List ℕ
word l = (97 + place l) ∷ 120 ∷ []

abbrev pub low : Letter → List ℕ
low l = (97 + place l) ∷ 108 ∷ []

abbrev pub high : Letter → List ℕ
high l = (97 + place l) ∷ 104 ∷ []

-- The register of a letter, marked with an id of its class.
abbrev pub found : Letter → (id : ℕ) → Registers → Option (Pointer × Registers)
found l id rs =
    some (pointer l, store rs (pointer l) (record (load rs (pointer l)) { id = id + 16 * place l }))

-- The names of 32, 16 and 8 bits find the register of their letter under the id of that size; the
-- name of a high byte finds it under the id of the low byte.
pub register_by_name-Letter :
    (l : Letter) (rs : Registers)
    → (register_by_name (extended l) rs ≡ found l 260 rs)
      × (register_by_name (word l) rs ≡ found l 258 rs)
      × (register_by_name (low l) rs ≡ found l 257 rs)
      × (register_by_name (high l) rs ≡ found l 257 rs)
unfolding register_by_name
register_by_name-Letter a rs = (refl, refl, refl, refl)
register_by_name-Letter b rs = (refl, refl, refl, refl)
register_by_name-Letter c rs = (refl, refl, refl, refl)
register_by_name-Letter d rs = (refl, refl, refl, refl)
