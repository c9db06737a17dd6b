-- ===== src/Lock/Create.antt =====
-- `create` of src/lock.c on a key that is free.
use atomicles.Base.{
  ℕ, ◌%◌, ◌^◌, ◌≤◌, ◌<◌, ◌≡◌, ◌≢◌, refl, sym, ◌∙◌, ap, false, Option, none, some, List, [], ◌∷◌,
  arith, if◌then◌else◌, length, set,
}
use atomicles.Base.Int.{pos, to_u32, is_zero_ℤ}
use atomicles.Sys.{Kernel, dev_null}
use atomicles.Sys.Run
use atomicles.Sys.Run.{Returns, returns}
use atomicles.Sys.View.{View, update, SemSet, put_words, add_set}
use atomicles.Sys.Tables.{update_self, update_ne, put_words-put_words}
use atomicles.Sys.Laws.{Laws, max_value}
use atomicles.Semaphore as Sem
use atomicles.Semaphore.{Semaphore, sem_key}
use atomicles.Semaphore.Life.{object, fresh_set, new-add_set}
use atomicles.SharedMemory as Shm
use atomicles.SharedMemory.{SharedMemory, guard_key, shm_key}
use atomicles.SharedMemory.Access.{IsReady, IsReady-put_words, written}
use atomicles.SharedMemory.Life.{mapped, with_segment, new-with_segment}
use atomicles.Lock.{create, write_settings}
use atomicles.Lock.Counter.{Ids, IsCounter, settings, flag_of, mutex}

bound_elsewhere :
    {A : Type 0} (f : ℕ → Option A) (id g : ℕ) (a : A) → update f id (some a) g ≡ none → g ≢ id
bound_elsewhere f id g a h = ground (arith, h)

module _ {W : Type 0} ⦃k : Kernel W⦄ (laws : Laws k) where
  open laws use {view}

  -- The set of a key and that of its guard have different keys.
  keys_apart : (key : ℕ) → sem_key k key ≢ sem_key k (guard_key key)
  keys_apart key same =
      let low : key % 256 ≡ guard_key key % 256 =
        laws.ftok_injective dev_null (key % 256) (guard_key key % 256) (omega arith) (omega arith)
          (sym (laws.ftok_low dev_null key) ∙ same ∙ laws.ftok_low dev_null (guard_key key)) in
      absurd (omega (arith, low))

  module _ {this : SharedMemory} {g : Semaphore} {addr : ℕ} {s : SemSet} where
    -- One more write, behind others.
    write_next :
        {w : W} (v : View) (ws : List ℕ)
        → view w ≡ put_words v this.id ws
        → IsReady this g addr s (record { words = ws }) (view w)
        → (i n : ℕ) → i < 2 ^ 16
        → n < 2 ^ 32
        → i < length ws
        → Returns
            (λ _ w'.
              (view w' ≡ put_words v this.id (set ws i n))
              × IsReady this g addr s (record { words = set ws i n }) (view w'))
            (Shm.write_uint this i n w)
    write_next {w} v ws before ready i n short small inside =
        Run.mono
          (written laws {this = this} {g = g} {addr = addr} {s = s} {seg = record { words = ws }}
            {w = w} ready i n short small inside)
          λ _ w' (_, after). (
            after
                ∙ ap (λ v. put_words v this.id (set ws i n)) before
                ∙ put_words-put_words v this.id ws (set ws i n),
            rw after (IsReady-put_words (set ws i n) ready),
          )

    -- The four words of a fresh segment.
    write_settings_lem :
        {w : W} (n e : ℕ)
        → IsReady this g addr s (record { words = 0 ∷ 0 ∷ 0 ∷ 0 ∷ [] }) (view w)
        → n ≤ max_value
        → e < 2 ^ 31
        → Returns
            (λ _ w'. view w' ≡ put_words (view w) this.id (n ∷ flag_of e ∷ e ∷ 0 ∷ []))
            (write_settings this n (pos e) w)
    unfolding write_settings
    write_settings_lem {w} n e ready fits small =
        let cut : to_u32 (pos e) ≡ e = omega (arith, small) in
        let zero_test : (if is_zero_ℤ (pos e) then 0 else 1) ≡ flag_of e = ground arith in
        let v = view w in
        rw (cut, zero_test)
          (Run.bind
            (written laws {this = this} {g = g} {addr = addr} {s = s}
              {seg = record { words = 0 ∷ 0 ∷ 0 ∷ 0 ∷ [] }} {w = w} ready 0 n (omega arith)
              (omega (arith, fits)) (omega arith))
            λ _ w1 (_, at1).
              Run.bind
                (write_next v (n ∷ 0 ∷ 0 ∷ 0 ∷ []) at1
                  (rw at1 (IsReady-put_words (n ∷ 0 ∷ 0 ∷ 0 ∷ []) ready)) 1 (flag_of e)
                  (omega arith) (ground arith) (omega arith))
                λ _ w2 (at2, ready2).
                  Run.bind
                    (write_next v (n ∷ flag_of e ∷ 0 ∷ 0 ∷ []) at2 ready2 2 e (omega arith)
                      (omega (arith, small)) (omega arith))
                    λ _ w3 (at3, ready3).
                      Run.mono
                        (write_next v (n ∷ flag_of e ∷ e ∷ 0 ∷ []) at3 ready3 3 0 (omega arith)
                          (omega arith) (omega arith))
                        λ _ w4 (at4, _). at4)

  -- What SharedMemory$new returns is ready for use.
  fresh-IsReady :
      (v : View) (key seg addr g : ℕ)
      → IsReady
          (mapped key seg 16 addr g)
          (object (guard_key key) g 1 1)
          addr
          (mutex v.clock)
          (record { words = 0 ∷ 0 ∷ 0 ∷ 0 ∷ [] })
          (with_segment laws v key 4 seg addr g)
  fresh-IsReady v key seg addr g = record {
    guarded = refl;
    binary = refl;
    exists = update_self v.sems g (some (mutex v.clock));
    free = refl;
    mapped = refl;
    points = update_self v.maps addr (some seg);
    holds = update_self v.shms seg (some (record { words = 0 ∷ 0 ∷ 0 ∷ 0 ∷ [] }));
  }

  -- The tables after `create`.
  abbrev made : View → (key n e id seg addr g : ℕ) → View
  made v key n e id seg addr g =
      put_words
        (with_segment laws (add_set v (sem_key k key) id (fresh_set 1 n v.clock)) key 4 seg addr g)
        seg (n ∷ flag_of e ∷ e ∷ 0 ∷ [])

  module _ (v : View) (key n e id seg addr g : ℕ) (fits : n ≤ max_value) (other : g ≢ id) where
    made-IsCounter :
        IsCounter k key
          (record { size = n; free = n; since = v.clock; lifetime = e })
          (record { set = id; segment = seg; guard = g; guard_since = v.clock })
          (made v key n e id seg addr g)
    made-IsCounter = record {
      within = omega arith;
      sized = fits;
      apart = other;
      set_bound = ground (arith, keys_apart key);
      set_there = ground (arith, other);
      segment_bound = update_self v.shm_ids (shm_key k key) (some seg);
      segment_there =
          update_self
            (with_segment laws (add_set v (sem_key k key) id (fresh_set 1 n v.clock)) key 4 seg addr
              g).shms
            seg (some (settings (record { size = n; free = n; since = v.clock; lifetime = e })));
      guard_bound =
          update_self (add_set v (sem_key k key) id (fresh_set 1 n v.clock)).sem_ids
            (sem_key k (guard_key key)) (some g);
      guard_there =
          update_self (add_set v (sem_key k key) id (fresh_set 1 n v.clock)).sems g
            (some (mutex v.clock));
    }

  -- On a key with no set, no segment and no guard, for a size of at most SEMVMX and a lifetime
  -- below 2^31, `create` answers 0 and leaves a counter with all of its units free, made now,
  -- for that lifetime.
  pub create-IsCounter :
      {w : W} (key n e : ℕ)
      → (view w).sem_ids (sem_key k key) ≡ none
      → (view w).shm_ids (shm_key k key) ≡ none
      → (view w).sem_ids (sem_key k (guard_key key)) ≡ none
      → n ≤ max_value
      → e < 2 ^ 31
      → Returns
          (λ r w'.
            (i : Ids) × (r ≡ pos 0)
            × IsCounter k key
                (record { size = n; free = n; since = (view w).clock; lifetime = e })
                i
                (view w'))
          (create key n (pos e) w)
  unfolding create Shm.delete Sem.delete
  create-IsCounter {w} key n e no_set no_segment no_guard fits small =
      let v = view w in
      Run.bind
        (new-add_set laws {key = key} 1 n false no_set (omega arith)
          (omega (arith, laws.semmsl_enough)) (omega arith) fits)
        λ s w1 (id, e1, out, made1). rw e1 (
          Run.bind
            (new-with_segment laws {w = w1} {key = key} 4 false (rw made1 no_segment)
              (rw made1 (
                update_ne v.sem_ids (sem_key k key) (some id) (sem_key k (guard_key key))
                  (keys_apart key)
                ∙ no_guard))
              (omega arith) (omega (arith, laws.shmmax_enough)))
            λ m w2 (seg, addr, g, e2, _, fresh, made2). rw e2 (
              Run.bind
                (write_settings_lem {this = mapped key seg 16 addr g}
                  {g = object (guard_key key) g 1 1} {addr = addr} {s = mutex v.clock} n e
                  (rw (made2, made1)
                    (fresh-IsReady (add_set v (sem_key k key) id (fresh_set 1 n v.clock)) key seg
                      addr g))
                  fits small)
                λ _ w3 written. returns (
                  record { set = id; segment = seg; guard = g; guard_since = v.clock },
                  refl,
                  rw (written, made2, made1)
                      (made-IsCounter v key n e id seg addr g fits (
                        bound_elsewhere v.sems id g (fresh_set 1 n v.clock)
                          (ap (λ (v : View). v.sems g) (sym made1) ∙ fresh))),
                )))
