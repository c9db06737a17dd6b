-- ===== src/Syschk/Overcommit.antt =====
-- The limit of the address space behind chk_calloc_prepare of src/syschk.c, from the two lines of
-- meminfo that it looks for.
use atomicles.Base.{
  ℕ, ◌+◌, ◌-◌, ◌*◌, ◌/◌, ◌%◌, ◌^◌, ◌≤◌, ◌<◌, ◌≡◌, refl, sym, ◌∙◌, ap, subst, Bool, true, false,
  Bool-cases, inl, inr, Option, some, List, [], ◌∷◌, ◌++◌, arith, length,
}
use atomicles.Base.Int.{ℤ, pos}
use atomicles.Sys.Run
use atomicles.Sys.Run.{Returns}
use atomicles.Syschk.Limits.{Rlimit, setrlim, exceeds, lowered}
use atomicles.Syschk.Proc.{
  Files, Reader, closed, bufsiz, overcommit_memory, swappiness, overcommit_ratio, meminfo,
}
use atomicles.Syschk.Proc.Tokens.{NoNul, lines, fold_lines}
use atomicles.Syschk.Proc.Lines.{ProcLaws, SettingLaws}
use atomicles.Syschk.Prepare.{
  Resource, Resource, address_space, Control, Memory, is_two, is_prefix, contains, mem_word,
  swap_word, kilo, unread, commit_limit, note_line, chk_calloc_prepare,
}
use atomicles.Syschk.Prepared.{Limits, ControlLaws, is_same, both, Prepares, chk_calloc_prepare_lem}

-- A line with the word somewhere in it.
abbrev pub Has : (word line : List ℕ) → Type 0
Has word line = (before : List ℕ) × (after : List ℕ) × (line ≡ before ++ (word ++ after))

-- Lines with neither word.
abbrev pub AreOther : List (List ℕ) → Type 0
AreOther [] = Unit {0}
AreOther (line ∷ ls) = (¬ Has mem_word line) × (¬ Has swap_word line) × AreOther ls

is_prefix-Has :
    (word line : List ℕ) → is_prefix word line ≡ true → (after : List ℕ) × (line ≡ word ++ after)
is_prefix-Has [] line starts = (line, refl)
is_prefix-Has (p ∷ word) [] starts = absurd (ground (arith, starts))
is_prefix-Has (p ∷ word) (c ∷ line) starts =
    let same : p ≡ c = ground (arith, starts) in
    let (after, e) = is_prefix-Has word line (ground (arith, starts)) in (after, rw (same, e) refl)

contains-Has : (word line : List ℕ) → contains word line ≡ true → Has word line
contains-Has word [] there = let (after, e) = is_prefix-Has word [] there in ([], after, e)
contains-Has word (c ∷ line) there = elim (Bool-cases (is_prefix word (c ∷ line))) [
  | inl starts ↦ let (after, e) = is_prefix-Has word (c ∷ line) starts in ([], after, e)
  | inr later ↦
      let (before, after, e) = contains-Has word line (ground (arith, there, later)) in
      (c ∷ before, after, ap (λ l. c ∷ l) e)
]

not-contains : (word line : List ℕ) → ¬ Has word line → contains word line ≡ false
not-contains word line lacks = elim (Bool-cases (contains word line)) [
  | inl there ↦ absurd (lacks (contains-Has word line there))
  | inr absent ↦ absent
]

is_prefix-append : (word after : List ℕ) → is_prefix word (word ++ after) ≡ true
is_prefix-append [] after = refl
is_prefix-append (p ∷ word) after = ground (arith, is_prefix-append word after)

contains-append : (word before after : List ℕ) → contains word (before ++ (word ++ after)) ≡ true
contains-append [] [] [] = refl
contains-append [] [] (c ∷ after) = refl
contains-append (p ∷ word) [] after =
    let here : is_prefix (p ∷ word) (p ∷ (word ++ after)) ≡ true =
      is_prefix-append (p ∷ word) after in
    ground (arith, here)
contains-append word (b ∷ before) after =
    let later : contains word (before ++ (word ++ after)) ≡ true =
      contains-append word before after in
    ground (arith, later)

pub not-Has : (word line : List ℕ) → contains word line ≡ false → ¬ Has word line
not-Has word line absent (before, after, e) =
    let there : contains word line ≡ true = rw e (contains-append word before after) in
    absurd (ground (arith, absent, there))

module _ (scan : List ℕ → Option ℕ) where
  -- Of the lines of the text one starts with `MemTotal:` and a later one with `SwapTotal:`, with a
  -- number behind each, and no other has one of these words.
  pub record IsMeminfo (text : List ℕ) (mem swap : ℕ) : Type 0 where
    pub first : List (List ℕ)
    pub second : List (List ℕ)
    pub third : List (List ℕ)
    pub mem_text : List ℕ
    pub swap_text : List ℕ
    pub in_order :
        lines text
        ≡ first ++ ((mem_word ++ mem_text) ∷ (second ++ ((swap_word ++ swap_text) ∷ third)))
    pub first_other : AreOther first
    pub second_other : AreOther second
    pub third_other : AreOther third
    pub swap_only : ¬ Has mem_word (swap_word ++ swap_text)
    pub mem_read : scan mem_text ≡ some mem
    pub swap_read : scan swap_text ≡ some swap

  note-other :
      (m : Memory) (line : List ℕ)
      → ¬ Has mem_word line
      → ¬ Has swap_word line
      → note_line scan m line ≡ m
  unfolding note_line
  note-other m line no_mem no_swap =
      rw (not-contains mem_word line no_mem, not-contains swap_word line no_swap) refl

  -- The loop over lines.
  abbrev noted : Memory → List (List ℕ) → Memory
  noted m ls = fold_lines (note_line scan) m ls

  skip_other :
      (m : Memory) (ls rest : List (List ℕ)) → AreOther ls → noted m (ls ++ rest) ≡ noted m rest
  skip_other m [] rest other = refl
  skip_other m (line ∷ ls) rest (no_mem, no_swap, other) =
      ap (λ (s : Memory). noted s (ls ++ rest)) (note-other m line no_mem no_swap)
      ∙ skip_other m ls rest other

  skip_last : (m : Memory) (ls : List (List ℕ)) → AreOther ls → noted m ls ≡ m
  skip_last m [] other = refl
  skip_last m (line ∷ ls) (no_mem, no_swap, other) =
      ap (λ (s : Memory). noted s ls) (note-other m line no_mem no_swap) ∙ skip_last m ls other

  note-mem :
      (m : Memory) (x : List ℕ) {n : ℕ}
      → scan x ≡ some n
      → note_line scan m (mem_word ++ x) ≡ record m { mem_total = n * kilo % 2 ^ 64 }
  unfolding note_line
  note-mem m x read = rw read refl

  note-swap :
      (m : Memory) (y : List ℕ) {n : ℕ}
      → ¬ Has mem_word (swap_word ++ y)
      → scan y ≡ some n
      → note_line scan m (swap_word ++ y) ≡ record m { swap_total = n * kilo % 2 ^ 64 }
  unfolding note_line
  note-swap m y only read = rw (not-contains mem_word (swap_word ++ y) only, read) refl

  fold-IsMeminfo :
      (text : List ℕ) {mem swap : ℕ}
      → IsMeminfo text mem swap
      → fold_lines (note_line scan) unread (lines text)
        ≡ record { mem_total = mem * kilo % 2 ^ 64; swap_total = swap * kilo % 2 ^ 64 }
  fold-IsMeminfo text {mem} {swap} i =
      let swap_line : List ℕ = swap_word ++ i.swap_text in
      let m1 : Memory = record { mem_total = mem * kilo % 2 ^ 64; swap_total = 2 ^ 64 - 1 } in
      let m2 : Memory = record m1 { swap_total = swap * kilo % 2 ^ 64 } in
      ap (λ ls. noted unread ls) i.in_order
      ∙ skip_other unread i.first ((mem_word ++ i.mem_text) ∷ (i.second ++ (swap_line ∷ i.third)))
          i.first_other
      ∙ ap (λ (s : Memory). noted s (i.second ++ (swap_line ∷ i.third)))
          (note-mem unread i.mem_text i.mem_read)
      ∙ skip_other m1 i.second (swap_line ∷ i.third) i.second_other
      ∙ ap (λ (s : Memory). noted s i.third) (note-swap m1 i.swap_text i.swap_only i.swap_read)
      ∙ skip_last m2 i.third i.third_other

-- A limit is lowered to `n` where it is above, with its maximum, and kept otherwise.
abbrev pub IsLowered : (n : ℕ) (before after : Rlimit) → Type 0
IsLowered n before after =
    (before.rlim_cur ≤ n → after ≡ before)
    × (n < before.rlim_cur → after ≡ record { rlim_cur = n; rlim_max = n })

setrlim-IsLowered :
    (n : ℕ) (l : Rlimit) → 0 < n → l.rlim_cur ≤ l.rlim_max → IsLowered n l (setrlim n l)
unfolding setrlim exceeds lowered
setrlim-IsLowered n l positive ordered =
    ((λ within. ground (arith, within)), (λ above. ground (arith, above, ordered, positive)))

commit_limit_lem :
    (mem swap ratio : ℕ)
    → ratio < 2 ^ 31
    → mem * kilo * ratio < 2 ^ 64
    → mem * kilo < 2 ^ 64
    → swap * kilo + mem * kilo * ratio / 100 < 2 ^ 64
    → commit_limit
        (record { mem_total = mem * kilo % 2 ^ 64; swap_total = swap * kilo % 2 ^ 64 })
        (pos ratio)
      ≡ swap * kilo + mem * kilo * ratio / 100
unfolding commit_limit
commit_limit_lem mem swap ratio small product memory sum =
    let r : ratio % 2 ^ 64 ≡ ratio = omega (arith, small) in
    let a : mem * kilo % 2 ^ 64 ≡ mem * kilo = omega (arith, memory) in
    let b : swap * kilo % 2 ^ 64 ≡ swap * kilo = omega (arith, sum) in
    let c : mem * kilo * ratio % 2 ^ 64 ≡ mem * kilo * ratio = omega (arith, product) in
    let d : (swap * kilo + mem * kilo * ratio / 100) % 2 ^ 64
        ≡ swap * kilo + mem * kilo * ratio / 100 =
      omega (arith, sum) in
    rw (r, a, b, c, d) refl

module _ {W K : Type 0} ⦃f : Files W⦄ ⦃c : Control W⦄ (limits : W → Limits) (kept : W → K)
    (control : ControlLaws c limits kept) (reads rounds : ℕ) (text junk : List ℕ)
    (mem swap percent : ℕ) (mode stir : ℤ)
    (mode_laws : SettingLaws f (both limits kept) overcommit_memory mode)
    (stir_laws : SettingLaws f (both limits kept) swappiness stir)
    (ratio_laws : SettingLaws f (both limits kept) overcommit_ratio (pos percent))
    (text_laws : ProcLaws f (both limits kept) meminfo text junk)
    (stale_ok : (w : W)
      → Returns (λ _ w'. both limits kept w' ≡ both limits kept w) (f.stale_int w)) where
  -- The swap, and so many hundredths of the memory, in bytes.
  abbrev pub promised : ℕ
  promised = swap * 1024 + mem * 1024 * percent / 100

  -- What the preparation answers and makes of the limits.
  abbrev pub Outcome : Bool → W → ℕ × Reader → W → Type 0
  Outcome true w r w' =
      (r ≡ (0, closed))
      × IsLowered promised (limits w address_space) (limits w' address_space)
      × ((q : Resource) → is_same address_space q ≡ false → limits w' q ≡ limits w q)
      × (kept w' ≡ kept w)
  Outcome false w r w' = (r ≡ (1, closed)) × (limits w' ≡ limits w) × (kept w' ≡ kept w)

  of_Prepares :
      (w w' : W) (r : ℕ × Reader)
      → commit_limit (fold_lines (note_line f.scan_u64) unread (lines text)) (pos percent)
        ≡ promised
      → 0 < promised
      → (b : Bool)
      → Prepares limits kept control reads rounds text junk mode stir
          (pos percent)
          mode_laws
          stir_laws
          ratio_laws
          text_laws
          stale_ok
          b
          w
          r
          w'
      → Outcome b w r w'
  of_Prepares w w' r limit positive true (e, (now, others), held) = (
    e,
    subst (λ l. IsLowered promised (limits w address_space) l)
        (sym (now ∙ ap (λ n. setrlim n (limits w address_space)) limit))
        (setrlim-IsLowered promised (limits w address_space) positive
          (control.ordered w address_space)),
    others,
    held,
  )
  of_Prepares w w' r limit positive false same = same

  -- Where /proc gives `mode` for overcommit_memory, a swappiness, a ratio of so many hundredths,
  -- and for meminfo a text without NUL that fits the buffer, with a NUL behind it, and has one
  -- line that starts with `MemTotal:` and a later one that starts with `SwapTotal:`, each with a
  -- number of kilobytes, and no other line with these words; and where the results fit 64 bits and
  -- are positive: chk_calloc_prepare, given more rounds than the text has bytes, returns. With the
  -- mode 2 it answers 0, and a limit of the address space above the swap and so many hundredths of
  -- the memory, in bytes, is lowered to that, with its maximum, and kept otherwise; no other limit
  -- changes. With another mode it answers 1, and no limit changes.
  pub chk_calloc_prepare-IsMeminfo :
      (w : W)
      → NoNul text
      → length text + 1 + length junk ≡ bufsiz
      → length text < rounds
      → IsMeminfo f.scan_u64 text mem swap
      → percent < 2 ^ 31
      → mem * 1024 < 2 ^ 64
      → mem * 1024 * percent < 2 ^ 64
      → promised < 2 ^ 64
      → 0 < promised
      → Returns (Outcome (is_two mode) w) (chk_calloc_prepare reads rounds closed w)
  chk_calloc_prepare-IsMeminfo w proper fits enough lines_ small memory product sum positive =
      let limit =
        ap (λ (m : Memory). commit_limit m (pos percent)) (fold-IsMeminfo f.scan_u64 text lines_)
        ∙ commit_limit_lem mem swap percent small product memory sum in
      Run.mono
        (chk_calloc_prepare_lem limits kept control reads rounds text junk mode stir (pos percent)
          mode_laws stir_laws ratio_laws text_laws stale_ok w proper fits enough)
        λ r w' done. of_Prepares w w' r limit positive (is_two mode) done
