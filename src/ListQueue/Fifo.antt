-- ===== src/ListQueue/Fifo.antt =====
-- The queue as a first-in first-out buffer of packets: every sequence of calls is one of it.
use tnsparser.Base.{ℕ, ◌≡◌, Bool, true, false, Option, none, some, List, [], ◌∷◌, ◌++◌, ◌>>=◌}
use tnsparser.ListQueue.{
  Store, Reply, done, failed, empty, waiting, packet, list_queue_put, list_queue_flush,
  list_queue_abort, list_queue_get,
}
use tnsparser.ListQueue.Memory.{Heap, lookup}
use tnsparser.ListQueue.Chain.{Nodes, pkts}
use tnsparser.ListQueue.Calls.{Holds}

-- The calls of the program: list_queue_put of a packet, list_queue_get with its `block`,
-- list_queue_flush and list_queue_abort.
pub data Call : Type 0 where
  put : ℕ → Call
  get : Bool → Call
  flush abort : Call

-- The abstract queue.
pub record Fifo : Type 0 where
  pub items : List ℕ
  pub aborted : Bool

-- What a call may answer, and what it leaves. A put may fail for want of memory.
pub data Step (f : Fifo) : Call → Reply → Fifo → Type 0 where
  put_done :
      (x : ℕ) → f.aborted ≡ false → Step f (put x) done (record f { items = f.items ++ x ∷ [] })
  put_failed : (x : ℕ) → Step f (put x) failed f
  get_failed : (b : Bool) → f.aborted ≡ true → Step f (get b) failed f
  get_packet :
      (b : Bool) (x : ℕ) (rest : List ℕ)
      → f.aborted ≡ false
      → f.items ≡ x ∷ rest
      → Step f (get b) (packet x) (record f { items = rest })
  get_empty : f.aborted ≡ false → f.items ≡ [] → Step f (get false) empty f
  get_waiting : f.aborted ≡ false → f.items ≡ [] → Step f (get true) waiting f
  flush_done : Step f flush done (record f { items = [] })
  abort_done : Step f abort done (record f { aborted = true })

-- A call of the code. `malloc` answers for the heap as it is; a flush takes a round for each node
-- that the queue counts.
unfoldable pub call : (Heap → Option ℕ) → Store → Call → Option (Reply × Store)
call malloc s (put x) = list_queue_put s x (malloc s.heap)
call malloc s (get block) = list_queue_get s block
call malloc s flush = list_queue_flush s.q.num s >>= λ s'. some (done, s')
call malloc s abort = some (done, list_queue_abort s)

-- The store holds the items of the abstract queue, in their order.
pub record Shows (s : Store) (f : Fifo) : Type 0 where
  pub nodes : Nodes
  pub holds : Holds s nodes
  pub items : f.items ≡ pkts nodes
  pub aborted : f.aborted ≡ s.q.abort_request

module _ (malloc : Heap → Option ℕ)
    (fresh : (h : Heap) (a : ℕ) → malloc h ≡ some a → lookup h a ≡ none) where
  -- A call answers, as the abstract queue may, and the store shows the queue that this leaves.
  Simulates : Store → Fifo → Call → Type 0
  Simulates s f c =
      (r : Reply) × (s' : Store) × (f' : Fifo) × (call malloc s c ≡ some (r, s'))
      × Step f c r f'
      × Shows s' f'

-- A sequence of calls, with the answers of the code.
unfoldable pub run : (Heap → Option ℕ) → Store → List Call → Option (List Reply × Store)
run malloc s [] = some ([], s)
run malloc s (c ∷ cs) = do
  (r, s') ← call malloc s c
  (rs, s'') ← run malloc s' cs
  some (r ∷ rs, s'')

-- The same of the abstract queue.
pub data Runs : Fifo → List Call → List Reply → Fifo → Type 0 where
  stop : {f : Fifo} → Runs f [] [] f
  step :
      {c : Call} {r : Reply} {f g h : Fifo} {cs : List Call} {rs : List Reply}
      → Step f c r g
      → Runs g cs rs h
      → Runs f (c ∷ cs) (r ∷ rs) h
