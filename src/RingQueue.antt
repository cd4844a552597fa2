-- ===== src/RingQueue.antt =====
-- The ring of packets: RingQueue of src/queue.c and src/queue.h. A slot's contents are a number;
-- the pointer that a peek returns is the index of the slot. Waking a waiter changes nothing that
-- the ring stores.
pub mod Walk
pub mod Refine
pub mod Runs
pub mod Seen
pub mod Views
mod Examples
use tnsparser.Base.{
  ℕ, suc, ◌+◌, Bool, true, false, not, ◌&&◌, List, [], ◌∷◌, if◌then◌else◌, replicate, get_elem?,
  set, Option, none, some,
}
use tnsparser.Base.Int.{ℤ, pos, incr, decr, leb_ℤ, eqb_ℤ, min_ℤ}

abbrev pub ring_queue_size : ℕ
ring_queue_size = 32

-- The indices start at 0 and are only counted up or reset.
pub record RingQueue : Type 0 where
  pub queue : List ℕ
  pub rindex : ℕ
  pub windex : ℕ
  pub size : ℤ
  pub max_size : ℤ
  pub abort_request : Bool

unfoldable pub ring_queue_init : ℤ → RingQueue
ring_queue_init max_size = record {
  queue = replicate ring_queue_size 0;
  rindex = 0;
  windex = 0;
  size = pos 0;
  max_size = min_ℤ max_size (pos ring_queue_size);
  abort_request = true;
}

unfoldable pub ring_queue_signal : RingQueue → RingQueue
ring_queue_signal q = record q { abort_request = true }

-- A peek waits, or returns a null pointer, or a slot.
pub data Peek : Type 0 where
  waiting null_slot : Peek
  slot : ℕ → Peek

-- One round of the loop that waits for space, and what follows the loop.
unfoldable pub ring_queue_peek_writable : RingQueue → Peek
ring_queue_peek_writable q =
    if leb_ℤ q.max_size q.size && not q.abort_request
    then waiting
    else (if q.abort_request then null_slot else slot q.windex)

unfoldable pub ring_queue_peek_readable : RingQueue → Peek
ring_queue_peek_readable q =
    if leb_ℤ q.size (pos 0) && not q.abort_request
    then waiting
    else (if q.abort_request then null_slot else slot q.rindex)

-- `if (++index == q->max_size) index = 0;`
unfoldable pub next_index : ℤ → ℕ → ℕ
next_index max_size i = if eqb_ℤ (pos (suc i)) max_size then 0 else suc i

unfoldable pub ring_queue_push : RingQueue → RingQueue
unfolding next_index
ring_queue_push q = record q { windex = next_index q.max_size q.windex; size = incr q.size }

unfoldable pub ring_queue_pull : RingQueue → RingQueue
unfolding next_index
ring_queue_pull q = record q { rindex = next_index q.max_size q.rindex; size = decr q.size }
