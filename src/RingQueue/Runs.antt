-- ===== src/RingQueue/Runs.antt =====
-- Sequences of calls on the ring, of writers, readers and ring_queue_signal in any order, against a
-- bounded first-in first-out buffer.
use tnsparser.Base.{
  ℕ, ◌≡◌, refl, ap, subst, ◌∙◌, inl, inr, Bool, true, false, List, [], ◌∷◌, ◌++◌, arith, length,
  if◌then◌else◌, ltb, lt→ltb,
}
use tnsparser.RingQueue.{
  RingQueue, Peek, waiting, null_slot, slot, ring_queue_push, ring_queue_pull, ring_queue_signal,
}
use tnsparser.RingQueue.Refine.{
  Holds, items, produce, consume, Produced, Consumed, produce-Produced, consume-Consumed,
}

-- A packet that is put, a packet that is got, and ring_queue_signal.
pub data Call : Type 0 where
  put : ℕ → Call
  get signal : Call

-- What the caller sees: that it has to wait, a null pointer, the end of the call, or a packet.
pub data Answer : Type 0 where
  waits refused done : Answer
  got : ℕ → Answer

unfoldable pub written : Peek → Answer
written waiting = waits
written null_slot = refused
written (slot i) = done

unfoldable pub read : Peek → ℕ → Answer
read waiting x = waits
read null_slot x = refused
read (slot i) x = got x

unfoldable pub call : Call → RingQueue → Answer × RingQueue
unfolding written read
call (put x) q = (written (produce q x).0, (produce q x).1)
call get q = (read (consume q).0 (consume q).1, (consume q).2)
call signal q = (done, ring_queue_signal q)

unfoldable pub answers : List Call → RingQueue → List Answer
unfolding call
answers [] q = []
answers (c ∷ cs) q = let (a, q') = call c q in a ∷ answers cs q'

-- The buffer of `cap` places; it refuses everything once it is aborted.
pub record Buffer : Type 0 where
  pub items : List ℕ
  pub aborted : Bool

unfoldable pub buffer_call : ℕ → Call → Buffer → Answer × Buffer
buffer_call cap (put x) b =
    if b.aborted
    then (refused, b)
    else (if ltb (length b.items) cap
        then (done, record b { items = b.items ++ x ∷ [] })
        else (waits, b))
buffer_call cap get b =
    if b.aborted
    then (refused, b)
    else elim b.items [ [] ↦ (waits, b) | x ∷ rest ↦ (got x, record b { items = rest }) ]
buffer_call cap signal b = (done, record b { aborted = true })

unfoldable pub buffer_answers : ℕ → List Call → Buffer → List Answer
unfolding buffer_call
buffer_answers cap [] b = []
buffer_answers cap (c ∷ cs) b = let (a, b') = buffer_call cap c b in a ∷ buffer_answers cap cs b'

-- The ring shows the buffer.
pub record Shows (cap : ℕ) (q : RingQueue) (b : Buffer) : Type 0 where
  pub filled : ℕ
  pub holds : Holds q cap filled
  pub same : items q cap filled ≡ b.items
  pub aborted : q.abort_request ≡ b.aborted

produce-abort_request : (q : RingQueue) (x : ℕ) → (produce q x).1.abort_request ≡ q.abort_request
unfolding produce ring_queue_push
produce-abort_request q x = ground arith

consume-abort_request : (q : RingQueue) → (consume q).2.abort_request ≡ q.abort_request
unfolding consume ring_queue_pull
consume-abort_request q = ground arith

put-Shows :
    (cap x : ℕ) (aborted : Bool) (l l' : List ℕ) (r : Peek) (q' : RingQueue) (m : ℕ)
    → Holds q' cap m
    → items q' cap m ≡ l'
    → q'.abort_request ≡ aborted
    → Produced cap aborted l x r l'
    → let b = buffer_call cap (put x) (record { items = l; aborted = aborted }) in
      (written r ≡ b.0) × Shows cap q' b.1
unfolding buffer_call written
put-Shows cap x true l l' r q' m h s a (e, f) =
    (ap written e, record { filled = m; holds = h; same = s ∙ f; aborted = a })
put-Shows cap x false l l' r q' m h s a (inl (full, e, f)) =
    let over : ltb (length l) cap ≡ false = ground arith in
    rw over (ap written e, record { filled = m; holds = h; same = s ∙ f; aborted = a })
put-Shows cap x false l l' r q' m h s a (inr (i, room, e, lt, f)) =
    rw (lt→ltb (length l) cap room)
      (ap written e, record { filled = m; holds = h; same = s ∙ f; aborted = a })

get-Shows :
    (cap x : ℕ) (aborted : Bool) (l l' : List ℕ) (r : Peek) (q' : RingQueue) (m : ℕ)
    → Holds q' cap m
    → items q' cap m ≡ l'
    → q'.abort_request ≡ aborted
    → Consumed cap aborted l r x l'
    → let b = buffer_call cap get (record { items = l; aborted = aborted }) in
      (read r x ≡ b.0) × Shows cap q' b.1
unfolding buffer_call read
get-Shows cap x true l l' r q' m h s a (e, f) =
    (ap (λ p. read p x) e, record { filled = m; holds = h; same = s ∙ f; aborted = a })
get-Shows cap x false [] l' r q' m h s a (inl (none_left, e, f)) =
    (ap (λ p. read p x) e, record { filled = m; holds = h; same = s ∙ f; aborted = a })
get-Shows cap x false (y ∷ l) l' r q' m h s a (inl (none_left, e, f)) = absurd (cc none_left)
get-Shows cap x false [] l' r q' m h s a (inr (i, e, lt, f)) = absurd (cc f)
get-Shows cap x false (y ∷ l) l' r q' m h s a (inr (i, e, lt, f)) =
    (ap (λ p. read p x) e ∙ cc f, record { filled = m; holds = h; same = cc (s, f); aborted = a })

pub signal-Holds : (q : RingQueue) (cap n : ℕ) → Holds q cap n → Holds (ring_queue_signal q) cap n
unfolding ring_queue_signal
signal-Holds q cap n h = record {
  max_size = h.max_size;
  size = h.size;
  room = h.room;
  rindex = h.rindex;
  windex = h.windex;
  filled = h.filled;
}

signal-Shows :
    (cap : ℕ) (q : RingQueue) (b : Buffer)
    → Shows cap q b
    → (done ≡ (buffer_call cap signal b).0)
      × Shows cap (ring_queue_signal q) (buffer_call cap signal b).1
unfolding buffer_call ring_queue_signal
signal-Shows cap q b h = (
  refl,
  record {
    filled = h.filled;
    holds = signal-Holds q cap h.filled h.holds;
    same = h.same;
    aborted = refl;
  },
)

call-Shows :
    (cap : ℕ) (c : Call) (q : RingQueue) (b : Buffer)
    → Shows cap q b
    → ((call c q).0 ≡ (buffer_call cap c b).0) × Shows cap (call c q).1 (buffer_call cap c b).1
unfolding call
call-Shows cap (put x) q b h =
    let (m, holds, p) = produce-Produced q cap h.filled x h.holds in
    put-Shows cap x b.aborted b.items (items (produce q x).1 cap m) (produce q x).0 (produce q x).1
      m holds refl (produce-abort_request q x ∙ h.aborted)
      (subst (λ a. Produced cap a b.items x (produce q x).0 (items (produce q x).1 cap m)) h.aborted
        (subst (λ l. Produced cap q.abort_request l x (produce q x).0 (items (produce q x).1 cap m))
          h.same p))
call-Shows cap get q b h =
    let (m, holds, p) = consume-Consumed q cap h.filled h.holds in
    get-Shows cap (consume q).1 b.aborted b.items (items (consume q).2 cap m) (consume q).0
      (consume q).2 m holds refl (consume-abort_request q ∙ h.aborted)
      (subst (λ a. Consumed cap a b.items (consume q).0 (consume q).1 (items (consume q).2 cap m))
        h.aborted
        (subst
          (λ l.
            Consumed cap q.abort_request l (consume q).0 (consume q).1 (items (consume q).2 cap m))
          h.same p))
call-Shows cap signal q b h = signal-Shows cap q b h

-- On a valid ring every sequence of puts, gets and signals gets the answers of a bounded buffer that
-- starts with what the ring holds: those that wait, those that are refused because of a signal, and
-- the packets, in the order in which they were put.
pub answers-buffer :
    (cap : ℕ) (cs : List Call) (q : RingQueue) (b : Buffer)
    → Shows cap q b
    → answers cs q ≡ buffer_answers cap cs b
unfolding answers buffer_answers
answers-buffer cap [] q b h = refl
answers-buffer cap (c ∷ cs) q b h =
    let (same, shows) = call-Shows cap c q b h in
    rw (same, answers-buffer cap cs (call c q).1 (buffer_call cap c b).1 shows) refl
