-- ===== src/Threads/Trace.antt =====
-- What happens in the turns from the start of the threads on: which packets are queued, which are
-- handled, at which time, and which nodes are lost because list_queue_put fails.
use tnsparser.Base.{ℕ, ◌≡◌, Bool, Option, none, some, List, [], ◌∷◌, ◌++◌}
use tnsparser.Tns.Handlers.{CJson}
use tnsparser.Network.{Packet}
use tnsparser.ListQueue.{Store, Reply, done, failed, empty, waiting, packet, list_queue_put}
use tnsparser.ListQueue.Memory.{Heap}
use tnsparser.Pool.{Links}
use tnsparser.Threads.{
  System, Receiver, getting, receiving, putting, Processor, taking, handling, returning, Turn, recv,
  proc, turn,
}

-- Of the reply of list_queue_put.
abbrev pub if_done {ℓ} : {A : Type ℓ} → A → Option (Reply × Store) → List A
if_done x none = []
if_done x (some (done, q)) = x ∷ []
if_done x (some (failed, q)) = []
if_done x (some (empty, q)) = []
if_done x (some (waiting, q)) = []
if_done x (some (packet n, q)) = []

abbrev pub if_failed {ℓ} : {A : Type ℓ} → A → Option (Reply × Store) → List A
if_failed x none = []
if_failed x (some (done, q)) = []
if_failed x (some (failed, q)) = x ∷ []
if_failed x (some (empty, q)) = []
if_failed x (some (waiting, q)) = []
if_failed x (some (packet n, q)) = []

module _ (links : Links) (json : CJson) (malloc : ℕ → Bool) (malloc_node : ℕ → Heap → Option ℕ)
    (ip port : ℕ) where
  abbrev pub queued_at : ℕ → System links → Receiver → List Packet
  queued_at moment s getting = []
  queued_at moment s (receiving n) = []
  queued_at moment s (putting n) =
      if_done (s.packets n) (list_queue_put s.lqr n (malloc_node moment s.lqr.heap))

  abbrev pub lost_at : ℕ → System links → Receiver → List ℕ
  lost_at moment s getting = []
  lost_at moment s (receiving n) = []
  lost_at moment s (putting n) =
      if_failed n (list_queue_put s.lqr n (malloc_node moment s.lqr.heap))

  abbrev pub handled_at : ℕ → System links → Processor → List (ℕ × Packet)
  handled_at now s (taking old) = []
  handled_at now s (handling n) = (now, s.packets n) ∷ []
  handled_at now s (returning n) = []

  abbrev pub queued_by : Turn → System links → List Packet
  queued_by (recv bytes moment) s = queued_at moment s s.receiver
  queued_by (proc now) s = []

  abbrev pub lost_by : Turn → System links → List ℕ
  lost_by (recv bytes moment) s = lost_at moment s s.receiver
  lost_by (proc now) s = []

  abbrev pub handled_by : Turn → System links → List (ℕ × Packet)
  handled_by (recv bytes moment) s = []
  handled_by (proc now) s = handled_at now s s.processor

  -- The turns from one state to another, with what they queue, handle and lose.
  pub data Reach (start : System links)
      : List Packet → List (ℕ × Packet) → List ℕ → System links → Type 0 where
    here : Reach start [] [] [] start
    next :
        {queued : List Packet} {handled : List (ℕ × Packet)} {lost : List ℕ} {s s' : System links}
        (t : Turn)
        → Reach start queued handled lost s
        → turn links json malloc malloc_node ip port t s ≡ some s'
        → Reach start (queued ++ queued_by t s) (handled ++ handled_by t s) (lost_by t s ++ lost) s'
