-- ===== src/Threads/Untouched.antt =====
-- What a turn of process_thread leaves as it is.
use tnsparser.Base.{ℕ, ◌≡◌, refl, Bool, true, Option, none, some, Ensures, Ensures->>=}
use tnsparser.Tns.Handlers.{CJson}
use tnsparser.ListQueue.{Reply, done, failed, empty, waiting, packet, list_queue_get}
use tnsparser.ListQueue.Memory.{Heap}
use tnsparser.Pool.{Links}
use tnsparser.Process.{process_packet}
use tnsparser.Threads.{System, Processor, taking, handling, returning, processor_turn, after_take}

module _ (links : Links) (json : CJson) (malloc : ℕ → Bool) (malloc_node : ℕ → Heap → Option ℕ)
    (ip port : ℕ) where
  -- What process_thread leaves to the other thread.
  unfoldable pub Untouched : System links → System links → Type 0
  Untouched s s' = (s'.receiver ≡ s.receiver) × (s'.packets ≡ s.packets)

  after_take-Untouched :
      (s : System links) (old : Option ℕ) (r : Reply)
      → Ensures (Untouched s) (after_take links json malloc malloc_node ip port s old r)
  unfolding after_take Untouched
  after_take-Untouched s old (packet n) = (refl, refl)
  after_take-Untouched s old waiting = (refl, refl)
  after_take-Untouched s none done = tt
  after_take-Untouched s none failed = tt
  after_take-Untouched s none empty = tt
  after_take-Untouched s (some n) done = (refl, refl)
  after_take-Untouched s (some n) failed = (refl, refl)
  after_take-Untouched s (some n) empty = (refl, refl)

  pub processor_turn-Untouched :
      (s : System links) (now : ℕ) (pc : Processor)
      → Ensures (Untouched s) (processor_turn links json malloc malloc_node ip port now s pc)
  unfolding processor_turn Untouched
  processor_turn-Untouched s now (taking old) =
      Ensures->>= (Untouched s) (list_queue_get s.lqr true) _
        λ (r, lqr). after_take-Untouched (record s { lqr = lqr }) old r
  processor_turn-Untouched s now (handling n) =
      Ensures->>= (Untouched s) (process_packet json malloc s.g_sess_arry (now, s.packets n)) _
        λ table. (refl, refl)
  processor_turn-Untouched s now (returning n) = (refl, refl)
