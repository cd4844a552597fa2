-- ===== src/ListQueue.antt =====
-- The packet queue between the two threads: ListQueue of src/queue.c and src/queue.h. Nodes lie on
-- an explicit heap, by address; a packet is known by the address of its struct Packet. Each call
-- holds the mutex from start to end but where it waits, so it is one step; waking a waiter changes
-- nothing that the queue stores. `none` is the use of a node that is not allocated.
pub mod Memory
pub mod Chain
pub mod Calls
pub mod Fifo
pub mod Fresh
mod Examples
use tnsparser.Base.{
  ℕ, zero, suc, ◌+◌, ◌-◌, Bool, true, false, Option, none, some, List, [], ◌∷◌, ◌>>=◌,
  if◌then◌else◌,
}
use Memory.{Heap, Node, lookup, update, free}

pub record ListQueue : Type 0 where
  pub first : Option ℕ
  pub last : Option ℕ
  pub num : ℕ
  pub abort_request : Bool

-- The queue with the heap that its nodes lie on.
pub record Store : Type 0 where
  pub heap : Heap
  pub q : ListQueue

-- What a call returns: 0, -1, 1 with a packet, 0 of list_queue_get, or no result yet, because the
-- call waits for the condition with the mutex given up.
pub data Reply : Type 0 where
  done failed empty waiting : Reply
  packet : ℕ → Reply

-- `q->last->next = ml`, where there is a last node, or `q->first = ml`.
unfoldable pub link_last : Store → ℕ → Option Store
link_last s ml = elim s.q.last [
  | none ↦ some (record s { q = record (s.q) { first = some ml } })
  | some l ↦
      (lookup s.heap l >>= λ node.
      some (record s { heap = update s.heap l (record node { next = some ml }) }))
]

-- With the node that malloc returned.
unfoldable pub append_node : Store → ℕ → ℕ → Option (Reply × Store)
append_node s pkt ml = do
  let fresh = record s { heap = update s.heap ml (record { pkt = pkt; next = none }) }
  linked ← link_last fresh ml
  some (done, record linked { q = record (linked.q) { last = some ml; num = linked.q.num + 1 } })

-- `malloc` is what the allocation returns, null or an address.
unfoldable pub list_queue_put : Store → ℕ → Option ℕ → Option (Reply × Store)
list_queue_put s pkt malloc =
    if s.q.abort_request
    then some (failed, s)
    else elim malloc [ none ↦ some (failed, s) | some ml ↦ append_node s pkt ml ]

unfoldable pub list_queue_init : ListQueue
list_queue_init = record { first = none; last = none; num = 0; abort_request = true }

-- The loop over the nodes, with a round for each; `none` as well if the rounds do not suffice.
unfoldable pub flush_loop : ℕ → Heap → Option ℕ → Option Heap
flush_loop rounds heap none = some heap
flush_loop zero heap (some p) = none
flush_loop (suc rounds) heap (some p) =
    lookup heap p >>= λ node. flush_loop rounds (free heap p) node.next

unfoldable pub list_queue_flush : ℕ → Store → Option Store
list_queue_flush rounds s = do
  heap ← flush_loop rounds s.heap s.q.first
  some (record { heap = heap; q = record (s.q) { first = none; last = none; num = 0 } })

-- Destroying the mutex and the condition leaves the flushed queue.
unfoldable pub list_queue_destroy : ℕ → Store → Option Store
unfolding list_queue_flush
list_queue_destroy rounds s = list_queue_flush rounds s

unfoldable pub list_queue_abort : Store → Store
list_queue_abort s = record s { q = record (s.q) { abort_request = true } }

-- `if (!q->first) q->last = NULL;`
unfoldable pub last_after : Option ℕ → Option ℕ → Option ℕ
last_after none last = none
last_after (some first) last = last

-- The first node leaves the queue and is freed.
unfoldable pub take_first : Store → ℕ → Option (Reply × Store)
take_first s pkt1 = do
  node ← lookup s.heap pkt1
  some (
    packet node.pkt,
    record {
      heap = free s.heap pkt1;
      q = record (s.q) {
        first = node.next;
        last = last_after node.next s.q.last;
        num = s.q.num - 1;
      };
    },
  )

-- One round of the loop of list_queue_get; at `waiting` the next round follows the wait.
unfoldable pub list_queue_get : Store → Bool → Option (Reply × Store)
list_queue_get s block = if s.q.abort_request then some (failed, s) else elim s.q.first [
  | none ↦ some (if block then waiting else empty, s)
  | some pkt1 ↦ take_first s pkt1
]
