-- ===== src/SharedMemory/Access.antt =====
-- SharedMemory$write_uint and SharedMemory$read_uint: a memory of words behind a guard.
use atomicles.Base.{
  ℕ, List, ◌%◌, ◌^◌, ◌<◌, ◌≡◌, refl, ◌∙◌, ap, subst, false, some, arith, ◌==◌, if◌then◌else◌,
  length, get_elem?, set, get_elem?-set_self, set-set, set-get_elem?, get_elem?-set,
}
use atomicles.Base.Int.{pos}
use atomicles.Sys.{Kernel}
use atomicles.Sys.Run
use atomicles.Sys.Run.{Returns, returns, ◌>>◌}
use atomicles.Sys.View.{View, SemSet, Segment, put_set, put_words, set_value}
use atomicles.Sys.Tables.{update_self, put_set-back}
use atomicles.Sys.Laws.{Laws, Answers, Leaves}
use atomicles.Semaphore.{Semaphore}
use atomicles.Semaphore.Locking.{lock-take, unlock-give}
use atomicles.SharedMemory.{SharedMemory, guard, enter, leave, write_uint, read_uint}

-- The object's segment is mapped, and its guard is a mutex that nobody holds.
pub record IsReady (this : SharedMemory) (g : Semaphore) (addr : ℕ) (s : SemSet) (seg : Segment)
    (v : View) : Type 0 where
  pub guarded : this.shsem ≡ guard g
  pub binary : g.size ≡ 1
  pub exists : v.sems g.id ≡ some s
  pub free : get_elem? s.values 0 ≡ some 1
  pub mapped : this.addr ≡ some addr
  pub points : v.maps addr ≡ some this.id
  pub holds : v.shms this.id ≡ some seg

-- New words in the segment leave the object ready.
pub IsReady-put_words :
    {this : SharedMemory} {g : Semaphore} {addr : ℕ} {s : SemSet} {seg : Segment} {v : View}
    (ws : List ℕ)
    → IsReady this g addr s seg v
    → IsReady this g addr s (record { words = ws }) (put_words v this.id ws)
IsReady-put_words {this} {v} ws r = record {
  guarded = r.guarded;
  binary = r.binary;
  exists = r.exists;
  free = r.free;
  mapped = r.mapped;
  points = r.points;
  holds = update_self v.shms this.id (some (record { words = ws }));
}

u16_of : {n : ℕ} → n < 2 ^ 16 → n % 2 ^ 16 ≡ n
u16_of h = omega (arith, h)

u32_of : {n : ℕ} → n < 2 ^ 32 → n % 2 ^ 32 ≡ n
u32_of h = omega (arith, h)

module _ {W : Type 0} ⦃k : Kernel W⦄ (laws : Laws k) where
  open laws use {view}

  module _ {this : SharedMemory} {g : Semaphore} {addr : ℕ} {s : SemSet} {seg : Segment} {w : W}
      (ready : IsReady this g addr s seg (view w)) where
    -- The guard's set while the process is inside.
    abbrev taken : SemSet
    taken = set_value s 0 0

    given_back : set_value taken 0 1 ≡ s
    given_back = rw (set-set, set-get_elem? s.values 0 ready.free)

    enter_lem : Returns (Leaves view (put_set (view w) g.id taken) tt) (enter this w)
    unfolding enter
    enter_lem = rw ready.guarded (
        Run.bind
          (lock-take laws false (pos 0) tt (record { exists = ready.exists; value = ready.free }))
          λ e w1 (zero_, after). rw zero_ (returns (refl, after)))

    leave_lem :
        {w' : W}
        → (view w').sems g.id ≡ some taken
        → Returns (Leaves view (put_set (view w') g.id s) tt) (leave this w')
    unfolding leave
    leave_lem {w'} there = rw ready.guarded (
        Run.bind
          (unlock-give laws {s = taken} false
            (record { exists = there; value = get_elem?-set_self s.values 0 0 ready.free })
            (omega (arith, ready.binary)) (omega arith))
          λ e w1 (zero_, after).
            rw zero_ (returns (refl, after ∙ ap (λ t. put_set (view w') g.id t) given_back)))

    -- A write stores the word, leaves the guard free, and changes nothing else.
    pub write_uint_lem :
        (i n : ℕ)
        → i < 2 ^ 16
        → i < length seg.words
        → Returns
            (Leaves view (put_words (view w) this.id (set seg.words i (n % 2 ^ 32))) tt)
            (write_uint this i n w)
    unfolding write_uint
    write_uint_lem i n short inside = rw (u16_of short) (
        Run.bind enter_lem λ _ w1 (_, in_). rw ready.mapped (
          Run.bind
            (laws.poke_ok w1 {id = this.id} {s = seg} i (n % 2 ^ 32) (rw in_ ready.points)
              (rw in_ ready.holds) inside)
            λ _ w2 (_, stored).
              Run.mono (leave_lem (rw (stored, in_) (update_self (view w).sems g.id (some taken))))
                λ _ w3 (_, out). (
                  refl,
                  out
                      ∙ ap (λ v. put_set v g.id s)
                          (stored
                            ∙ ap (λ v. put_words v this.id (set seg.words i (n % 2 ^ 32))) in_)
                      ∙ ap (λ v. put_words v this.id (set seg.words i (n % 2 ^ 32)))
                          (put_set-back (view w) g.id taken ready.exists),
                )))

    -- A read answers the word, leaves the guard free, and changes nothing.
    pub read_uint_lem :
        (i : ℕ) {n : ℕ}
        → i < 2 ^ 16
        → get_elem? seg.words i ≡ some n
        → Returns (Answers view w n) (read_uint this i w)
    unfolding read_uint
    read_uint_lem i short there = rw (u16_of short) (
        Run.bind enter_lem λ _ w1 (_, in_).
          Run.bind (leave_lem (rw in_ (update_self (view w).sems g.id (some taken))))
            λ _ w2 (_, out).
              let same : view w2 ≡ view w =
                out
                ∙ ap (λ v. put_set v g.id s) in_
                ∙ put_set-back (view w) g.id taken ready.exists in
              rw ready.mapped (
                Run.mono
                  (laws.peek_ok w2 {id = this.id} {s = seg} i (rw same ready.points)
                    (rw same ready.holds) there)
                  λ a w3 (e, last). (e, last ∙ same)))

  -- A write leaves the object ready, with the word in the segment.
  pub write_uint-IsReady :
      {this : SharedMemory} {g : Semaphore} {addr : ℕ} {s : SemSet} {w : W} (ws : List ℕ) (i n : ℕ)
      → IsReady this g addr s (record { words = ws }) (view w)
      → i < 2 ^ 16
      → i < length ws
      → Returns
          (λ _ w'.
            IsReady this g addr s (record { words = set ws i (n % 2 ^ 32) }) (view w')
            × (view w' ≡ put_words (view w) this.id (set ws i (n % 2 ^ 32))))
          (write_uint this i n w)
  write_uint-IsReady {this} {g} {addr} {s} {w} ws i n ready short inside =
      Run.mono
        (write_uint_lem {this = this} {g = g} {addr = addr} {s = s} {seg = record { words = ws }}
          {w = w} ready i n short inside)
        λ _ w' (_, after). (rw after (IsReady-put_words (set ws i (n % 2 ^ 32)) ready), after)

  -- A value of 32 bits is stored as it is.
  pub written :
      {this : SharedMemory} {g : Semaphore} {addr : ℕ} {s : SemSet} {seg : Segment} {w : W}
      → IsReady this g addr s seg (view w)
      → (i n : ℕ) → i < 2 ^ 16
      → n < 2 ^ 32
      → i < length seg.words
      → Returns
          (Leaves view (put_words (view w) this.id (set seg.words i n)) tt)
          (write_uint this i n w)
  written {this} {seg} {w} ready i n short small inside =
      subst
        (λ m.
          Returns (Leaves view (put_words (view w) this.id (set seg.words i m)) tt)
            (write_uint this i n w))
        (u32_of small) (write_uint_lem ready i n short inside)

  pub written-IsReady :
      {this : SharedMemory} {g : Semaphore} {addr : ℕ} {s : SemSet} {w : W} (ws : List ℕ) (i n : ℕ)
      → IsReady this g addr s (record { words = ws }) (view w)
      → i < 2 ^ 16
      → n < 2 ^ 32
      → i < length ws
      → Returns
          (λ _ w'.
            IsReady this g addr s (record { words = set ws i n }) (view w')
            × (view w' ≡ put_words (view w) this.id (set ws i n)))
          (write_uint this i n w)
  written-IsReady {this} {g} {addr} {s} {w} ws i n ready short small inside =
      Run.mono
        (written {this = this} {g = g} {addr = addr} {s = s} {seg = record { words = ws }} {w = w}
          ready i n short small inside)
        λ _ w' (_, after). (rw after (IsReady-put_words (set ws i n) ready), after)

  -- With the segment mapped, its guard free, both words inside it with offsets below 2^16, which an
  -- `unsigned short` holds, and a value below 2^32: what is written to a word
  -- is read back, another word reads as before, and after both calls the tables differ in that
  -- word alone.
  pub read_uint-write_uint :
      {this : SharedMemory} {g : Semaphore} {addr : ℕ} {s : SemSet} {seg : Segment} {w : W}
      (i j n : ℕ) {m : ℕ}
      → IsReady this g addr s seg (view w)
      → i < 2 ^ 16
      → j < 2 ^ 16
      → n < 2 ^ 32
      → i < length seg.words
      → get_elem? seg.words j ≡ some m
      → Returns
          (λ a w'.
            (a ≡ (if i == j then n else m))
            × (view w' ≡ put_words (view w) this.id (set seg.words i n)))
          ((write_uint this i n >> read_uint this j) w)
  read_uint-write_uint {this} {g} {addr} {s} {seg} i j n ready short close small inside there =
      Run.bind (written ready i n short small inside) λ _ w1 (_, stored).
        Run.mono
          (read_uint_lem {this = this} {g = g} {addr = addr} {s = s}
            {seg = record { words = set seg.words i n }}
            (rw stored (IsReady-put_words (set seg.words i n) ready)) j close
            (get_elem?-set seg.words i j n there))
          λ a w2 (e, same). (e, same ∙ stored)
