-- ===== src/Syschk/Noted.antt =====
-- The words that `do_fork` of src/syschk.c wrote process ids to.
use atomicles.Base.{
  ℕ, zero, suc, ◌+◌, ◌<◌, ◌≡◌, refl, ◌∙◌, Bool-cases, inl, inr, List, some, arith, ◌==◌, ==_iff,
  length, get_elem?, set, get_elem?-set, get_elem?-set_self, subst, [], ◌∷◌,
}

-- The first `n` words hold process ids.
abbrev pub AreNoted : List ℕ → ℕ → Type 0
AreNoted ws n = (i : ℕ) → i < n → (m : ℕ) × (get_elem? ws i ≡ some (suc m))

inside_there : (ws : List ℕ) (n : ℕ) → n < length ws → (u : ℕ) × (get_elem? ws n ≡ some u)
inside_there [] n inside = absurd (omega (arith, inside))
inside_there (w ∷ ws) zero inside = (w, refl)
inside_there (w ∷ ws) (suc n) inside = inside_there ws n (omega (arith, inside))

pub AreNoted-set :
    (ws : List ℕ) (n pid : ℕ)
    → n < length ws
    → AreNoted ws n
    → AreNoted (set ws n (suc pid)) (n + 1)
AreNoted-set ws n pid inside noted i below = elim (Bool-cases (n == i)) [
  | inl e ↦
      let same : n ≡ i = (==_iff n i).0 e in
      let (u, there) = inside_there ws n inside in
      (
        pid,
        subst (λ j. get_elem? (set ws n (suc pid)) j ≡ some (suc pid)) same
            (get_elem?-set_self ws n (suc pid) there),
      )
  | inr differs ↦
      let (m, there) = noted i (ground (arith, below, differs)) in
      (m, get_elem?-set ws n i (suc pid) there ∙ rw differs refl)
]
