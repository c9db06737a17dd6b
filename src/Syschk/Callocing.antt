-- ===== src/Syschk/Callocing.antt =====
-- `chk_calloc` of src/syschk.c on a system with a limit of blocks.
use atomicles.Base.{
  ℕ, zero, suc, ◌+◌, ◌*◌, ◌/◌, ◌%◌, ◌^◌, ◌≤◌, ◌<◌, ◌≡◌, refl, ◌⊎◌, Bool, Bool-cases, inl, inr, true,
  Option, none, some, List, [], ◌∷◌, arith, ltb, length,
}
use atomicles.Base.Int.{ℤ, ltb_ℤ}
use atomicles.Sys.Run
use atomicles.Sys.Run.{Cmd, Returns, returns, ◌>>=◌}
use atomicles.Syschk.{Host, Clock, Answer, got, refused, Reason, threshold}
use atomicles.Syschk.Open.{Checked, is_unknown}
use atomicles.Syschk.Calloc.{
  mega, max_count, zeroed, calloc_reason, free_all, give_back, calloc_next, calloc_rounds,
  free_heaps, with_heaps, chk_calloc,
}
use atomicles.Syschk.Opening.{Opens, performance_lem}

-- The manual pages, on the number of blocks, of which there can be `cap`.
pub record BlockLaws {W : Type 0} (h : Host W) (blocks : W → ℕ) (cap : ℕ) : Type 0 where
  pub time_ok : (w : W) → Returns (λ _ w'. blocks w' ≡ blocks w) (h.time w)
  pub allocate_ok :
      (w : W) (zero : Bool) (size : ℕ)
      → Returns (λ a w'. Opens cap a (blocks w) (blocks w')) (h.allocate zero size w)
  pub free_ok :
      (w : W) (block : ℕ)
      → 0 < blocks w
      → Returns (λ _ w'. suc (blocks w') ≡ blocks w) (h.free block w)
  pub free_table_ok :
      (w : W) (table : ℕ) → Returns (λ _ w'. blocks w' ≡ blocks w) (h.free_table table w)

module _ {W : Type 0} ⦃h : Host W⦄ (blocks : W → ℕ) (cap : ℕ) (laws : BlockLaws h blocks cap)
    (size : ℕ) (limit : ℤ) where
  free_all_lem :
      (w : W) (heaps : List ℕ)
      → length heaps ≤ blocks w
      → Returns (λ _ w'. blocks w' + length heaps ≡ blocks w) (free_all size limit heaps w)
  unfolding free_all
  free_all_lem w [] fits = returns (omega arith)
  free_all_lem w (block ∷ heaps) fits =
      Run.bind (laws.free_ok w block (omega (arith, fits))) λ _ w1 freed.
        Run.mono (free_all_lem w1 heaps (omega (arith, fits, freed)))
          λ _ w2 e. omega (arith, e, freed)

  -- What the check leaves, when there were `base` blocks before it: it reports the megabytes of some
  -- `n` blocks, and one block is left over where the check got slow.
  abbrev pub Callocked : ℕ → Option Checked → W → Type 0
  Callocked base none w = ⊥
  Callocked base (some r) w =
      (n : ℕ) × (base + n ≤ cap)
      × (r.reach ≡ size * n % 2 ^ 64 / mega)
      × ((blocks w ≡ base) ⊎ ((blocks w ≡ suc base) × (r.reason ≡ threshold)))

  give_back_lem :
      (w : W) (base : ℕ) (heaps : List ℕ) (reason : Reason) (c : Clock)
      → base + length heaps ≤ cap
      → (base + length heaps ≡ blocks w)
        ⊎ ((suc (base + length heaps) ≡ blocks w) × (reason ≡ threshold))
      → Returns (Callocked base) (give_back size limit heaps reason c w)
  unfolding give_back
  give_back_lem w base heaps reason c fits (inl all) =
      Run.bind (free_all_lem w heaps (omega (arith, all)))
        λ _ w1 e. returns (length heaps, fits, refl, inl (omega (arith, e, all)))
  give_back_lem w base heaps reason c fits (inr (but_one, slow)) =
      Run.bind (free_all_lem w heaps (omega (arith, but_one)))
        λ _ w1 e. returns (length heaps, fits, refl, inr (omega (arith, e, but_one), slow))

  calloc_next_lem :
      (rest : List ℕ → Clock → Cmd W (Option Checked)) (w : W) (base : ℕ) (heaps : List ℕ)
      (c : Clock) (a : Answer)
      → ((w' : W) (block : ℕ) (c' : Clock)
          → base + length (block ∷ heaps) ≡ blocks w'
          → blocks w' ≤ cap
          → Returns (Callocked base) (rest (block ∷ heaps) c' w'))
      → base + length heaps ≤ cap
      → Opens cap a (base + length heaps) (blocks w)
      → Returns (Callocked base) (calloc_next size limit rest heaps c a w)
  unfolding calloc_next
  calloc_next_lem rest w base heaps c (refused e) further capped same =
      give_back_lem w base heaps (calloc_reason e) c capped (inl (omega (arith, same)))
  calloc_next_lem rest w base heaps c (got block) further capped (below, more) =
      Run.bind (performance_lem blocks laws.time_ok c (size * length heaps % 2 ^ 64) mega)
        λ (performed, c') w1 same.
          let next =
            further w1 block c' (omega (arith, same, more)) (omega (arith, same, more, below)) in
          elim (Bool-cases (is_unknown performed)) [
            | inl early ↦ rw early next
            | inr measured ↦ rw measured (elim (Bool-cases (ltb_ℤ performed limit)) [
              | inl slow ↦ rw slow (
                  give_back_lem w1 base heaps threshold c' capped
                    (inr (omega (arith, same, more), refl)))
              | inr fast ↦ rw fast next
            ])
          ]

  calloc_rounds_lem :
      (n : ℕ) (w : W) (base : ℕ) (heaps : List ℕ) (c : Clock)
      → base + length heaps ≡ blocks w
      → blocks w ≤ cap
      → cap < base + max_count
      → cap < blocks w + n
      → Returns (Callocked base) (calloc_rounds size limit n heaps c w)
  unfolding calloc_rounds
  calloc_rounds_lem zero w base heaps c all capped short enough =
      absurd (omega (arith, capped, enough))
  calloc_rounds_lem (suc n) w base heaps c all capped short enough =
      let inside : ltb (length heaps) max_count ≡ true = ground (arith, all, capped, short) in
      Run.bind (laws.allocate_ok w (zeroed (length heaps)) size) λ a w1 opens. rw inside (
        calloc_next_lem (calloc_rounds size limit n) w1 base heaps c a
          (λ w' block c' all' capped'.
            calloc_rounds_lem n w' base (block ∷ heaps) c' all' capped' short
              (omega (arith, all, all', enough)))
          (omega (arith, all, capped)) (rw all opens))

  -- The table of the blocks is there.
  abbrev pub GetsTable : W → Answer → W → Type 0
  GetsTable w a w' = (table : ℕ) × (a ≡ got table) × (blocks w' ≡ blocks w)

  free_heaps_lem :
      (w : W) (base table : ℕ) (r : Option Checked)
      → Callocked base r w
      → Returns (Callocked base) (free_heaps size limit table r w)
  unfolding free_heaps
  free_heaps_lem w base table none ended = elim ended [ ]
  free_heaps_lem w base table (some r) (n, fits, reach, left_) =
      Run.bind (laws.free_table_ok w table) λ _ w1 same. returns (n, fits, reach, rw same left_)

  pub chk_calloc_lem :
      (rounds : ℕ) (w : W) (c : Clock)
      → Returns (GetsTable w) (h.allocate_table max_count 8 w)
      → blocks w ≤ cap
      → cap < blocks w + max_count
      → cap < blocks w + rounds
      → Returns (Callocked (blocks w)) (chk_calloc size limit rounds c w)
  unfolding chk_calloc with_heaps
  chk_calloc_lem rounds w c granted capped short enough = Run.bind granted λ a w1 (table, e, same).
      rw e (
        Run.bind
          (calloc_rounds_lem rounds w1 (blocks w) [] c (omega (arith, same))
            (omega (arith, same, capped)) short (omega (arith, same, enough)))
          λ r w2 ended. free_heaps_lem w2 (blocks w) table r ended)
