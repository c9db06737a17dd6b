-- ===== src/Syschk/Opening/Frame.antt =====
-- What `chk_open` of src/syschk.c leaves as it was.
use atomicles.Base.{
  ℕ, ◌*◌, ◌&&◌, zero, suc, refl, Bool-cases, inl, inr, Option, List, [], ◌∷◌, ltb, length,
}
use atomicles.Base.Int.{ℤ, ltb_ℤ}
use atomicles.Sys.Run.{Cmd}
use atomicles.Sys.Frame.{Stays, Stays-and_then}
use atomicles.Syschk.{Host, Clock, Reason, threshold, Answer, got, refused, restart, performance}
use atomicles.Syschk.Open.{
  Checked, is_unknown, open_reason, close_all, clean_up, open_next, open_rounds, chk_open,
}

-- A part of the world that has nothing to do with open files.
pub record IsApart {W K : Type 0} (h : Host W) (kept : W → K) : Type 0 where
  pub time_ok : (w : W) → Stays kept w (h.time w)
  pub open_ok : (w : W) → Stays kept w (h.open_tmp w)
  pub unlink_ok : (w : W) → Stays kept w (h.unlink_tmp w)
  pub close_ok : (w : W) (fh : ℕ) → Stays kept w (h.close fh w)
  pub on_stack_ok : (w : W) (bytes : ℕ) → Stays kept w (h.on_stack bytes w)

module _ {W K : Type 0} ⦃h : Host W⦄ (kept : W → K) (apart : IsApart h kept) where
  performance-Stays :
      (w : W) (c : Clock) (counter divider : ℕ) → Stays kept w (performance c counter divider w)
  unfolding performance
  performance-Stays w c counter divider = Stays-and_then kept w _ _ (apart.time_ok w) λ t w1.
      elim (Bool-cases (ltb 0 (restart c counter).t_last)) [
        | inl started ↦ rw started refl
        | inr idle ↦ rw idle (Stays-and_then kept w1 _ _ (apart.time_ok w1) λ t' w2. refl)
      ]

  module _ (limit : ℤ) (lim : ℕ) where
    close_all-Stays : (w : W) (opened : List ℕ) → Stays kept w (close_all limit lim opened w)
    unfolding close_all
    close_all-Stays w [] = refl
    close_all-Stays w (fh ∷ opened) =
        Stays-and_then kept w _ _ (apart.close_ok w fh) λ _ w1. close_all-Stays w1 opened

    clean_up-Stays :
        (w : W) (opened : List ℕ) (reason : Reason) (c : Clock)
        → Stays kept w (clean_up limit lim opened reason c w)
    unfolding clean_up
    clean_up-Stays w opened reason c =
        Stays-and_then kept w _ _ (close_all-Stays w opened) λ _ w1. refl

    open_next-Stays :
        (rest : List ℕ → Clock → Cmd W (Option Checked)) (w : W) (opened : List ℕ) (c : Clock)
        (a : Answer)
        → ((w' : W) (opened' : List ℕ) (c' : Clock) → Stays kept w' (rest opened' c' w'))
        → Stays kept w (open_next limit lim rest opened c a w)
    unfolding open_next
    open_next-Stays rest w opened c (refused e) further = clean_up-Stays w opened (open_reason e) c
    open_next-Stays rest w opened c (got fh) further =
        Stays-and_then kept w _ _ (performance-Stays w c (length opened) 1) λ (performed, c') w1.
          elim (Bool-cases (is_unknown performed)) [
            | inl early ↦ rw early (elim (Bool-cases (ltb (length opened) lim)) [
              | inl room ↦ rw room (
                  Stays-and_then kept w1 _ _ (apart.unlink_ok w1)
                    λ _ w2. further w2 (fh ∷ opened) c')
              | inr full ↦ rw full tt
            ])
            | inr measured ↦ rw measured (elim (Bool-cases (ltb_ℤ performed limit)) [
              | inl slow ↦ rw slow (clean_up-Stays w1 opened threshold c')
              | inr fast ↦ rw fast (further w1 opened c')
            ])
          ]

    open_rounds-Stays :
        (n : ℕ) (w : W) (opened : List ℕ) (c : Clock)
        → Stays kept w (open_rounds limit lim n opened c w)
    unfolding open_rounds
    open_rounds-Stays zero w opened c = refl
    open_rounds-Stays (suc n) w opened c = Stays-and_then kept w _ _ (apart.open_ok w) λ a w1.
        open_next-Stays (open_rounds limit lim n) w1 opened c a
          λ w' opened' c'. open_rounds-Stays n w' opened' c'

  -- What has nothing to do with open files, `chk_open` leaves as it was.
  pub chk_open-Stays :
      (limit : ℤ) (lim rounds : ℕ) (w : W) (c : Clock)
      → Stays kept w (chk_open limit lim rounds c w)
  unfolding chk_open
  chk_open-Stays limit lim rounds w c =
      Stays-and_then kept w _ _ (apart.on_stack_ok w (4 * lim)) λ r w1.
        elim (Bool-cases (r && ltb 0 lim)) [
          | inl room ↦ rw room (open_rounds-Stays limit lim rounds w1 [] c)
          | inr none_left ↦ rw none_left tt
        ]
