-- ===== src/Syschk/Messages.antt =====
-- The list of messages of src/syschk.c. Msg$dump scores by floating-point numbers and prints, and is
-- left out.
use atomicles.Base.{
  ℕ, zero, suc, List, [], ◌∷◌, ◌++◌, ◌≡◌, refl, ap, length, leb, arith, if◌then◌else◌,
}
use atomicles.Syschk.{Reason}

-- `struct timeb`, its two fields that are used.
pub record Timeb : Type 0 where
  pub time : ℕ
  pub millitm : ℕ

-- `struct _Msg` without `next`; the name as its characters, up to the terminating NUL.
pub record Msg : Type 0 where
  pub name : List ℕ
  pub limit : ℕ
  pub reach : ℕ
  pub reason : Reason
  pub stime : Timeb
  pub etime : Timeb

-- A pointer to a message: NULL, or a message and its `next`.
pub data Chain : Type 0 where
  null : Chain
  node : Msg → Chain → Chain

-- `strncpy` of at most so many characters, into zeroed memory.
unfoldable pub copy_name : ℕ → List ℕ → List ℕ
copy_name zero cs = []
copy_name (suc n) [] = []
copy_name (suc n) (c ∷ cs) = c ∷ copy_name n cs

-- `memcpy` with the size of a pointer copies the field `time` alone; `calloc` cleared the other.
unfoldable pub copy_time : Timeb → Timeb
copy_time t = record { time = t.time; millitm = 0 }

-- The message that is filled in behind the walk.
unfoldable pub message : (name : List ℕ) (stime now : Timeb) (limit reach : ℕ) → Reason → Msg
unfolding copy_name copy_time
message name stime now limit reach reason = record {
  name = copy_name 15 name;
  limit = limit;
  reach = reach;
  reason = reason;
  stime = copy_time stime;
  etime = now;
}

-- `while(msg->next != NULL) msg = msg->next;` and the new message behind the last.
unfoldable pub append_after : Msg → Chain → Msg → Chain
append_after last null new = node last (node new null)
append_after here (node next rest) new = node here (append_after next rest new)

-- Msg$addMessage, where `now` is what `ftime` gives and `calloc` finds memory. Its callers in
-- Checks.antt ask for the memory in front of it: without it the message is written through NULL.
unfoldable pub add_message :
    Chain → (name : List ℕ) (stime now : Timeb) (limit reach : ℕ) → Reason → Chain
unfolding append_after message
add_message null name stime now limit reach reason =
    node (message name stime now limit reach reason) null
add_message (node first rest) name stime now limit reach reason =
    append_after first rest (message name stime now limit reach reason)

-- The messages in the order of the pointers.
abbrev pub messages : Chain → List Msg
messages null = []
messages (node m rest) = m ∷ messages rest

append_after_lem :
    (m : Msg) (rest : Chain) (new : Msg)
    → messages (append_after m rest new) ≡ m ∷ (messages rest ++ (new ∷ []))
unfolding append_after
append_after_lem m null new = refl
append_after_lem m (node next rest) new = ap (λ ms. m ∷ ms) (append_after_lem next rest new)

copy_name_lem :
    (n : ℕ) (name : List ℕ)
    → (tail : List ℕ) × (name ≡ copy_name n name ++ tail)
      × (length (copy_name n name) ≡ (if leb (length name) n then length name else n))
unfolding copy_name
copy_name_lem zero [] = ([], refl, refl)
copy_name_lem zero (c ∷ cs) = (c ∷ cs, refl, ground arith)
copy_name_lem (suc n) [] = ([], refl, ground arith)
copy_name_lem (suc n) (c ∷ cs) =
    let (tail, e, long) = copy_name_lem n cs in (tail, ap (λ l. c ∷ l) e, ground (arith, long))

-- Msg$addMessage keeps the messages in their order and puts the new one behind them, with the limit,
-- the reach, the reason and the end that it was given, a start without its milliseconds, and of its
-- name the first 15 characters, or all of them where there are fewer.
pub messages-add_message :
    (chain : Chain) (name : List ℕ) (stime now : Timeb) (limit reach : ℕ) (reason : Reason)
    → (short : List ℕ) × (tail : List ℕ) × (name ≡ short ++ tail)
      × (length short ≡ (if leb (length name) 15 then length name else 15))
      × (messages (add_message chain name stime now limit reach reason)
          ≡ messages chain
            ++ (record {
              name = short;
              limit = limit;
              reach = reach;
              reason = reason;
              stime = record { time = stime.time; millitm = 0 };
              etime = now;
            }
                ∷ []))
unfolding add_message message copy_time
messages-add_message null name stime now limit reach reason =
    let (tail, e, long) = copy_name_lem 15 name in (copy_name 15 name, tail, e, long, refl)
messages-add_message (node first rest) name stime now limit reach reason =
    let (tail, e, long) = copy_name_lem 15 name in
    (
      copy_name 15 name,
      tail,
      e,
      long,
      append_after_lem first rest (message name stime now limit reach reason),
    )
