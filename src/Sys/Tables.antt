-- ===== src/Sys/Tables.antt =====
-- Equations between the tables of a `View`.
use mathlib.Core.Path.{fun_ext}
use atomicles.Base.{ℕ, List, ◌≡◌, ◌≢◌, ap, Option, none, some, arith}
use atomicles.Sys.View.{View, SemSet, update, unbind, put_set, add_set, put_words, remove_segment}

module _ {A : Type 0} (f : ℕ → Option A) (i : ℕ) where
  pub update_self : (a : Option A) → update f i a i ≡ a
  update_self a = ground arith

  pub update_ne : (a : Option A) (j : ℕ) → i ≢ j → update f i a j ≡ f j
  update_ne a j h = ground arith

  pub update-update : (a b : Option A) → update (update f i a) i b ≡ update f i b
  update-update a b = fun_ext λ j. ground arith

  pub update_same : {a : Option A} → f i ≡ a → update f i a ≡ f
  update_same h = fun_ext λ j. ground arith

module _ (v : View) (id : ℕ) where
  pub put_set-put_set : (s t : SemSet) → put_set (put_set v id s) id t ≡ put_set v id t
  put_set-put_set s t = ap (λ f. record v { sems = f }) (update-update v.sems id (some s) (some t))

  pub put_set_same : {s : SemSet} → v.sems id ≡ some s → put_set v id s ≡ v
  put_set_same h = ap (λ f. record v { sems = f }) (update_same v.sems id h)

  pub put_words-put_words : (a b : List ℕ) → put_words (put_words v id a) id b ≡ put_words v id b
  put_words-put_words a b = ap (λ f. record v { shms = f }) (update-update v.shms id _ _)

  -- A set that is put back as it was leaves a later change of the segments.
  pub put_set-back :
      {s : SemSet} (t : SemSet) → v.sems id ≡ some s → put_set (put_set v id t) id s ≡ v
  put_set-back t h = rw (put_set-put_set t _) (put_set_same h)

  pub put_set-add_set :
      (key : ℕ) (s t : SemSet) → put_set (add_set v key id s) id t ≡ add_set v key id t
  put_set-add_set key s t =
      ap (λ f. record v { sems = f; sem_ids = update v.sem_ids key (some id) })
        (update-update v.sems id (some s) (some t))

  pub unbind_self : (key : ℕ) → v.sem_ids key ≡ some id → unbind v.sem_ids id key ≡ none
  unbind_self key h = ground arith

  pub remove_segment-put_words :
      (ws : List ℕ) → remove_segment (put_words v id ws) id ≡ remove_segment v id
  remove_segment-put_words ws =
      ap (λ f. record v { shms = f; shm_ids = unbind v.shm_ids id })
        (update-update v.shms id (some (record { words = ws })) none)
