-- ===== src/Syschk/Calloc.antt =====
-- `chk_calloc` of src/syschk.c: blocks are allocated until that fails or gets slow.
use atomicles.Base.{
  ℕ, zero, suc, ◌*◌, ◌/◌, ◌%◌, ◌^◌, ◌==◌, Bool, Option, none, some, List, [], ◌∷◌, ltb, length,
  if◌then◌else◌,
}
use atomicles.Base.Int.{ℤ, ltb_ℤ}
use atomicles.Sys.Run.{Cmd, pure, ◌>>=◌, ◌>>◌}
use atomicles.Semaphore.{crash}
use atomicles.Syschk.{
  Host, Clock, Reason, no_memory, threshold, unknown, Refusal, enomem, Answer, got, refused,
  performance,
}
use atomicles.Syschk.Open.{Checked, is_unknown}

-- MEGA
abbrev pub mega : ℕ
mega = 2 ^ 20

-- CALLOC_MAX_COUNT, the length of `heaps`.
abbrev pub max_count : ℕ
max_count = 2 ^ 20

-- Every ninth block is zeroed.
abbrev pub zeroed : ℕ → Bool
zeroed i = i % 9 == 0

unfoldable pub calloc_reason : Refusal → Reason
calloc_reason enomem = no_memory
calloc_reason _ = unknown

module _ {W : Type 0} ⦃h : Host W⦄ (size : ℕ) (limit : ℤ) where
  -- `while(i > 0) free(heaps[--i]);`
  unfoldable pub free_all : List ℕ → Cmd W (Unit {0})
  free_all [] = pure tt
  free_all (block ∷ heaps) = h.free block >> free_all heaps

  -- Behind the loop: `heaps` has the first `i` entries, the last one first.
  unfoldable pub give_back : List ℕ → Reason → Clock → Cmd W (Option Checked)
  unfolding free_all
  give_back heaps reason c =
      free_all heaps
      >> pure (
          some (record { reach = size * length heaps % 2 ^ 64 / mega; reason = reason; clock = c }))

  -- A round behind the allocation. The block behind a loop that got slow is not freed.
  unfoldable pub calloc_next :
      (List ℕ → Clock → Cmd W (Option Checked)) → List ℕ → Clock → Answer → Cmd W (Option Checked)
  unfolding give_back calloc_reason
  calloc_next rest heaps c (refused e) = give_back heaps (calloc_reason e) c
  calloc_next rest heaps c (got block) = do
    r ← performance c (size * length heaps % 2 ^ 64) mega
    if is_unknown r.0
        then rest (block ∷ heaps) r.1
        else if ltb_ℤ r.0 limit
        then give_back heaps threshold r.1
        else rest (block ∷ heaps) r.1

  -- The loop, for so many rounds. `heaps[i]` is written whatever `i` is.
  unfoldable pub calloc_rounds : ℕ → List ℕ → Clock → Cmd W (Option Checked)
  unfolding calloc_next
  calloc_rounds zero heaps c = pure none
  calloc_rounds (suc n) heaps c = do
    a ← h.allocate (zeroed (length heaps)) size
    if ltb (length heaps) max_count then calloc_next (calloc_rounds n) heaps c a else crash

  -- `free(heaps)`, behind the loops.
  unfoldable pub free_heaps : ℕ → Option Checked → Cmd W (Option Checked)
  free_heaps table none = pure none
  free_heaps table (some r) = h.free_table table >> pure (some r)

  -- The answer for `heaps` is not checked: without it the first block is stored through NULL.
  unfoldable pub with_heaps : (rounds : ℕ) → Clock → Answer → Cmd W (Option Checked)
  unfolding calloc_rounds free_heaps
  with_heaps rounds c (got table) = calloc_rounds rounds [] c >>= free_heaps table
  with_heaps rounds c (refused e) = h.allocate (zeroed 0) size >> crash

  -- An entry of `heaps` is a pointer of 8 bytes.
  unfoldable pub chk_calloc : (rounds : ℕ) → Clock → Cmd W (Option Checked)
  unfolding with_heaps
  chk_calloc rounds c = h.allocate_table max_count 8 >>= with_heaps rounds c
