-- ===== src/Syschk/Open.antt =====
-- `chk_open` of src/syschk.c: files are opened until that fails or gets slow.
use atomicles.Base.{
  ℕ, zero, suc, ◌+◌, ◌*◌, ◌&&◌, Bool, true, false, Option, none, some, List, [], ◌∷◌, ltb, length,
  if◌then◌else◌,
}
use atomicles.Base.Int.{ℤ, pos, negsuc, ltb_ℤ}
use atomicles.Sys.Run.{Cmd, pure, ◌>>=◌, ◌>>◌}
use atomicles.Semaphore.{crash}
use atomicles.Syschk.{
  Host, Clock, Reason, process_files, system_files, no_memory, threshold, unknown, Refusal, enomem,
  emfile, enfile, Answer, got, refused, performance,
}

-- What becomes of the check: `reach` and `reason`, and the static variables.
pub record Checked : Type 0 where
  pub reach : ℕ
  pub reason : Reason
  pub clock : Clock

-- `performed == -1`
abbrev pub is_unknown : ℤ → Bool
is_unknown (pos n) = false
is_unknown (negsuc zero) = true
is_unknown (negsuc (suc n)) = false

-- The `switch` on `errno`; `reason` is STR_UNKNWN before.
unfoldable pub open_reason : Refusal → Reason
open_reason enfile = system_files
open_reason emfile = process_files
open_reason enomem = no_memory
open_reason _ = unknown

module _ {W : Type 0} ⦃h : Host W⦄ (limit : ℤ) (lim : ℕ) where
  -- `while(i--) close(opened[i]);` the list has the last one first.
  unfoldable pub close_all : List ℕ → Cmd W (Unit {0})
  close_all [] = pure tt
  close_all (fh ∷ opened) = h.close fh >> close_all opened

  -- chk_open_cleanup
  unfoldable pub clean_up : List ℕ → Reason → Clock → Cmd W (Option Checked)
  unfolding close_all
  clean_up opened reason c =
      close_all opened
      >> pure (some (record { reach = length opened + 1; reason = reason; clock = c }))

  -- A round behind `open`, when `rest` is the loop from there on: a store past the array of `lim`
  -- entries is a fault, and a file that is opened fast enough is not stored.
  unfoldable pub open_next :
      (List ℕ → Clock → Cmd W (Option Checked)) → List ℕ → Clock → Answer → Cmd W (Option Checked)
  unfolding clean_up open_reason
  open_next rest opened c (refused e) = clean_up opened (open_reason e) c
  open_next rest opened c (got fh) = do
    r ← performance c (length opened) 1
    if is_unknown r.0
        then (if ltb (length opened) lim then h.unlink_tmp >> rest (fh ∷ opened) r.1 else crash)
        else if ltb_ℤ r.0 limit
        then clean_up opened threshold r.1
        else rest opened r.1

  -- The loop, for so many rounds; `none` when it goes on.
  unfoldable pub open_rounds : ℕ → List ℕ → Clock → Cmd W (Option Checked)
  unfolding open_next
  open_rounds zero opened c = pure none
  open_rounds (suc n) opened c = do a ← h.open_tmp; open_next (open_rounds n) opened c a

-- `limit` is the threshold, `lim` the limit that `getrlimit` answers. The array of `lim` entries is on
-- the stack, and `memset` clears its first entry, also where it has none.
unfoldable pub chk_open :
    {W : Type 0} ⦃h : Host W⦄ (limit : ℤ) (lim rounds : ℕ) → Clock → Cmd W (Option Checked)
unfolding open_rounds
chk_open ⦃h⦄ limit lim rounds c = do
  room ← h.on_stack (4 * lim)
  if room && ltb 0 lim then open_rounds limit lim rounds [] c else crash
