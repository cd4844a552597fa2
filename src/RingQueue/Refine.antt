-- ===== src/RingQueue/Refine.antt =====
-- A valid ring behaves as a bounded first-in first-out buffer of its contents.
use native.Mathlib.Decide.{dec_lt}
use Prim.Native.Nat.{min}
use tnsparser.Base.{
  ℕ, zero, suc, ◌≤◌, ◌<◌, ◌≡◌, refl, ◌⊎◌, inl, inr, Bool, true, false, not, ◌&&◌, List, [], ◌∷◌,
  ◌++◌, arith, length, set, get_or, length-set, if◌then◌else◌, leb,
}
use tnsparser.Base.Int.{pos}
use tnsparser.RingQueue.{
  RingQueue, Peek, waiting, null_slot, slot, ring_queue_init, ring_queue_peek_writable,
  ring_queue_peek_readable, ring_queue_push, ring_queue_pull,
}
use tnsparser.RingQueue.Walk.{
  walk, walk-suc, walk-lt, contents, contents-set, length-contents, next_index-lt,
}

-- The ring has `cap` slots in use, of which `n` are filled, from the read to the write index.
pub record Holds (q : RingQueue) (cap n : ℕ) : Type 0 where
  pub max_size : q.max_size ≡ pos cap
  pub size : q.size ≡ pos n
  pub room : cap ≤ length q.queue
  pub rindex : q.rindex < cap
  pub windex : q.windex ≡ walk cap q.rindex n
  pub filled : n ≤ cap

-- What the ring holds, oldest first.
abbrev pub items : RingQueue → ℕ → ℕ → List ℕ
items q cap n = contents q.queue cap q.rindex n

-- The writer's part: it asks for a slot, fills it and pushes it; nothing happens without a slot.
unfoldable pub produce : RingQueue → ℕ → Peek × RingQueue
produce q x = elim (ring_queue_peek_writable q) [
  | waiting ↦ (waiting, q)
  | null_slot ↦ (null_slot, q)
  | slot i ↦ (slot i, ring_queue_push (record q { queue = set q.queue i x }))
]

-- The reader's part: what it reads, and the ring behind the pull.
unfoldable pub consume : RingQueue → Peek × ℕ × RingQueue
consume q = elim (ring_queue_peek_readable q) [
  | waiting ↦ (waiting, 0, q)
  | null_slot ↦ (null_slot, 0, q)
  | slot i ↦ (slot i, get_or q.queue i 0, ring_queue_pull q)
]

module _ (q : RingQueue) (cap n : ℕ) (h : Holds q cap n) where
  writable : ring_queue_peek_writable q ≡ (
      if leb cap n && not q.abort_request
      then waiting
      else (if q.abort_request then null_slot else slot q.windex))
  unfolding ring_queue_peek_writable
  writable = rw (h.max_size, h.size)

  readable : ring_queue_peek_readable q ≡ (
      if leb n 0 && not q.abort_request
      then waiting
      else (if q.abort_request then null_slot else slot q.rindex))
  unfolding ring_queue_peek_readable
  readable = rw h.size

nothing : (q : RingQueue) (cap : ℕ) → items q cap 0 ≡ []
unfolding contents
nothing q cap = refl

pub pushed :
    (q : RingQueue) (cap n x : ℕ)
    → Holds q cap n
    → n < cap
    → items (ring_queue_push (record q { queue = set q.queue q.windex x })) cap (suc n)
      ≡ items q cap n ++ x ∷ []
unfolding ring_queue_push
pushed q cap n x h k = rw h.windex (contents-set q.queue cap q.rindex n x h.room h.rindex k)

pulled :
    (q : RingQueue) (cap n : ℕ)
    → Holds q cap (suc n)
    → items q cap (suc n) ≡ get_or q.queue q.rindex 0 ∷ items (ring_queue_pull q) cap n
unfolding ring_queue_pull contents
pulled q cap n h = rw h.max_size

-- What a writer sees of a bounded buffer: the abort, or a wait if the buffer is full, or a slot.
abbrev pub Produced : ℕ → Bool → List ℕ → ℕ → Peek → List ℕ → Type 0
Produced cap true l x r l' = (r ≡ null_slot) × (l' ≡ l)
Produced cap false l x r l' =
    ((length l ≡ cap) × (r ≡ waiting) × (l' ≡ l))
    ⊎ ((i : ℕ) × (length l < cap) × (r ≡ slot i) × (i < cap) × (l' ≡ l ++ x ∷ []))

abbrev pub Consumed : ℕ → Bool → List ℕ → Peek → ℕ → List ℕ → Type 0
Consumed cap true l r x l' = (r ≡ null_slot) × (l' ≡ l)
Consumed cap false l r x l' =
    ((l ≡ []) × (r ≡ waiting) × (l' ≡ l)) ⊎ ((i : ℕ) × (r ≡ slot i) × (i < cap) × (l ≡ x ∷ l'))

pub pushed-Holds :
    (q : RingQueue) (cap n x : ℕ)
    → Holds q cap n
    → n < cap
    → Holds (ring_queue_push (record q { queue = set q.queue q.windex x })) cap (suc n)
unfolding ring_queue_push
pushed-Holds q cap n x h k = record {
  max_size = h.max_size;
  size = rw h.size;
  room = rw (length-set q.queue q.windex x) h.room;
  rindex = h.rindex;
  windex = rw (h.max_size, h.windex) (walk-suc cap q.rindex n);
  filled = k;
}

pulled-Holds : (q : RingQueue) (cap n : ℕ) → Holds q cap (suc n) → Holds (ring_queue_pull q) cap n
unfolding ring_queue_pull walk
pulled-Holds q cap n h = record {
  max_size = h.max_size;
  size = rw h.size;
  room = h.room;
  rindex = rw h.max_size (next_index-lt cap q.rindex h.rindex);
  windex = rw h.max_size h.windex;
  filled = omega (arith, h.filled);
}

module _ (q : RingQueue) (cap n : ℕ) (h : Holds q cap n) where
  produce-aborted : (x : ℕ) → q.abort_request ≡ true → produce q x ≡ (null_slot, q)
  unfolding produce
  produce-aborted x e = ground (arith, writable q cap n h)

  produce-full : (x : ℕ) → q.abort_request ≡ false → cap ≤ n → produce q x ≡ (waiting, q)
  unfolding produce
  produce-full x e k = ground (arith, writable q cap n h)

  produce-room :
      (x : ℕ)
      → q.abort_request ≡ false
      → n < cap
      → produce q x ≡ (slot q.windex, ring_queue_push (record q { queue = set q.queue q.windex x }))
  unfolding produce
  produce-room x e k = ground (arith, writable q cap n h)

  consume-aborted : q.abort_request ≡ true → consume q ≡ (null_slot, 0, q)
  unfolding consume
  consume-aborted e = ground (arith, readable q cap n h)

  consume-empty : q.abort_request ≡ false → n ≡ 0 → consume q ≡ (waiting, 0, q)
  unfolding consume
  consume-empty e k = ground (arith, readable q cap n h)

  consume-some :
      q.abort_request ≡ false
      → 0 < n
      → consume q ≡ (slot q.rindex, get_or q.queue q.rindex 0, ring_queue_pull q)
  unfolding consume
  consume-some e k = ground (arith, readable q cap n h)

-- On a valid ring the writer's part does what it does on a bounded buffer of the ring's contents: on
-- an aborted ring it gets no slot; on a full one it waits; on any other its packet goes behind the
-- others, through a slot inside the ring. The ring stays valid.
pub produce-Produced :
    (q : RingQueue) (cap n x : ℕ)
    → Holds q cap n
    → (m : ℕ) × Holds (produce q x).1 cap m
      × Produced cap q.abort_request (items q cap n) x (produce q x).0 (items (produce q x).1 cap m)
produce-Produced q cap n x h = cases q.abort_request refl (dec_lt n cap)
  where
    cases :
        (b : Bool)
        → q.abort_request ≡ b
        → Dec (n < cap)
        → (m : ℕ) × Holds (produce q x).1 cap m
          × Produced cap b (items q cap n) x (produce q x).0 (items (produce q x).1 cap m)
    cases true e d = rw (produce-aborted q cap n h x e) (n, h, (refl, refl))
    cases false e (no full) =
        rw (produce-full q cap n h x e (omega arith))
          (n, h, inl (omega (arith, length-contents q.queue cap q.rindex n, h.filled), refl, refl))
    cases false e (yes room) = rw (produce-room q cap n h x e room) (
      suc n,
      pushed-Holds q cap n x h room,
      inr (
        q.windex,
        omega (arith, length-contents q.queue cap q.rindex n),
        refl,
        rw (h.windex) (walk-lt cap q.rindex n h.rindex),
        pushed q cap n x h room,
      ),
    )

-- On a valid ring the reader's part does what it does on a bounded buffer of the ring's contents: on
-- an aborted ring it gets no slot; on an empty one it waits; on any other it reads the oldest
-- packet, from a slot inside the ring, and leaves the others. The ring stays valid.
pub consume-Consumed :
    (q : RingQueue) (cap n : ℕ)
    → Holds q cap n
    → (m : ℕ) × Holds (consume q).2 cap m
      × Consumed cap q.abort_request
          (items q cap n)
          (consume q).0
          (consume q).1
          (items (consume q).2 cap m)
consume-Consumed q cap n h = cases q.abort_request refl n h
  where
    cases :
        (b : Bool)
        → q.abort_request ≡ b
        → (k : ℕ) → Holds q cap k
        → (m : ℕ) × Holds (consume q).2 cap m
          × Consumed cap b (items q cap k) (consume q).0 (consume q).1 (items (consume q).2 cap m)
    cases true e k g = rw (consume-aborted q cap k g e) (k, g, (refl, refl))
    cases false e zero g =
        rw (consume-empty q cap 0 g e refl) (0, g, inl (nothing q cap, refl, refl))
    cases false e (suc k) g =
        rw (consume-some q cap (suc k) g e (omega arith))
          (k, pulled-Holds q cap k g, inr (q.rindex, refl, g.rindex, pulled q cap k g))

-- A new ring is empty, with as many slots as it was asked for but no more than there are.
pub ring_queue_init-Holds :
    (m : ℕ)
    → 0 < m
    → Holds (ring_queue_init (pos m)) (min m 32) 0
      × ((ring_queue_init (pos m)).abort_request ≡ true)
unfolding ring_queue_init walk
ring_queue_init-Holds m h = (
  record {
    max_size = ground arith;
    size = refl;
    room = omega arith;
    rindex = omega arith;
    windex = refl;
    filled = omega arith;
  },
  refl,
)
