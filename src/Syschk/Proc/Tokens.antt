-- ===== src/Syschk/Proc/Tokens.antt =====
-- `strtok_r` as read_file_lines of src/syschk.c uses it, on a text in memory, and the lines of a text.
use atomicles.Base.{
  ℕ, ◌≤◌, ◌<◌, ◌≡◌, refl, ap, inl, inr, Bool-cases, true, false, some, List, [], ◌∷◌, ◌++◌, arith,
  ◌==◌, length, if◌then◌else◌,
}
use atomicles.Syschk.Proc.{overlay, skip, split}

-- A text in pieces at its newlines: the first piece, and the others.
abbrev pub cut_at : ℕ → List ℕ × List (List ℕ) → List ℕ × List (List ℕ)
cut_at c (p, ps) = if c == 10 then ([], p ∷ ps) else (c ∷ p, ps)

abbrev pub cut : List ℕ → List ℕ × List (List ℕ)
cut [] = ([], [])
cut (c ∷ cs) = cut_at c (cut cs)

abbrev pub non_empty : List (List ℕ) → List (List ℕ)
non_empty [] = []
non_empty ([] ∷ ps) = non_empty ps
non_empty ((c ∷ p) ∷ ps) = (c ∷ p) ∷ non_empty ps

-- The lines of a text that are not empty.
abbrev pub lines : List ℕ → List (List ℕ)
lines text = non_empty ((cut text).0 ∷ (cut text).1)

abbrev pub fold_lines : {S : Type 0} → (S → List ℕ → S) → S → List (List ℕ) → S
fold_lines step s [] = s
fold_lines step s (line ∷ ls) = fold_lines step (step s line) ls

-- A text without NUL.
abbrev pub NoNul : List ℕ → Type 0
NoNul [] = Unit {0}
NoNul (c ∷ cs) = (0 < c) × NoNul cs

module _ (junk : List ℕ) where
  -- A text in memory, in front of its NUL and of what is behind that.
  abbrev pub before_nul : List ℕ → List ℕ
  before_nul text = text ++ (0 ∷ junk)

  -- What the newlines in front leave: nothing, or a text that starts with another character.
  abbrev pub Skipped : List ℕ → List ℕ → Type 0
  Skipped text [] = lines text ≡ []
  Skipped text (c ∷ cs) =
      (lines text ≡ lines (c ∷ cs))
      × ((c == 10) ≡ false)
      × (length cs < length text)
      × NoNul (c ∷ cs)

  pub skip_lem :
      (text : List ℕ)
      → NoNul text
      → (left : List ℕ) × (skip (before_nul text) ≡ some (before_nul left)) × Skipped text left
  unfolding skip
  skip_lem [] proper = ([], refl, refl)
  skip_lem (c ∷ cs) (positive, proper) = elim (Bool-cases (c == 10)) [
    | inl newline ↦
        let (left, found, skipped) = skip_lem cs proper in
        (left, rw newline found, further c cs left newline skipped)
    | inr other ↦ (c ∷ cs, rw other refl, (refl, other, omega arith, (positive, proper)))
  ]
    where
      further :
          (c : ℕ) (cs left : List ℕ) → (c == 10) ≡ true → Skipped cs left → Skipped (c ∷ cs) left
      further c cs [] newline all = rw newline all
      further c cs (d ∷ left) newline (same, other, shorter, proper) =
          (rw newline same, other, omega (arith, shorter), proper)

  -- The token is the first piece, and the rest has the lines of the other pieces.
  split_lem :
      (text : List ℕ)
      → NoNul text
      → (left : List ℕ) × (split (before_nul text) ≡ some ((cut text).0, before_nul left))
        × (lines left ≡ non_empty (cut text).1)
        × (length left ≤ length text)
        × NoNul left
  unfolding split
  split_lem [] proper = ([], refl, refl, omega arith, tt)
  split_lem (c ∷ cs) (positive, proper) =
      let not_nul : (c == 0) ≡ false = ground (arith, positive) in
      elim (Bool-cases (c == 10)) [
        | inl newline ↦ (cs, rw (not_nul, newline) refl, rw newline refl, omega arith, proper)
        | inr other ↦
            let (left, found, same, shorter, kept) = split_lem cs proper in
            (left, rw (not_nul, other, found) refl, rw other same, omega (arith, shorter), kept)
      ]

  pub split_token :
      (c : ℕ) (cs : List ℕ)
      → NoNul (c ∷ cs)
      → (c == 10) ≡ false
      → (left : List ℕ) × (split (before_nul (c ∷ cs)) ≡ some (c ∷ (cut cs).0, before_nul left))
        × (lines (c ∷ cs) ≡ (c ∷ (cut cs).0) ∷ lines left)
        × (length left ≤ length cs)
        × NoNul left
  unfolding split
  split_token c cs (positive, proper) other =
      let not_nul : (c == 0) ≡ false = ground (arith, positive) in
      let (left, found, same, shorter, kept) = split_lem cs proper in
      (left, rw (not_nul, other, found) refl, rw (other, same) refl, shorter, kept)

pub overlay_lem :
    (text front rest : List ℕ)
    → length front ≡ length text
    → overlay text (front ++ rest) ≡ text ++ rest
overlay_lem [] [] rest same = refl
overlay_lem [] (x ∷ front) rest same = absurd (omega (arith, same))
overlay_lem (c ∷ text) [] rest same = absurd (omega (arith, same))
overlay_lem (c ∷ text) (x ∷ front) rest same =
    ap (λ cs. c ∷ cs) (overlay_lem text front rest (omega (arith, same)))
