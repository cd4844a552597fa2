-- ===== src/Threads/Waits/Turns.antt =====
-- A turn of a running thread keeps the waits as they should be.
use tnsparser.Base.{
  ℕ, ◌≡◌, refl, subst, Bool, true, false, Option, none, some, List, [], ◌∷◌, >>=-some, Ensures,
}
use tnsparser.Tns.Handlers.{CJson}
use tnsparser.ListQueue.{waiting, list_queue_get}
use tnsparser.ListQueue.Memory.{Heap}
use tnsparser.Pool.{Links, Documented, mem_pool_get}
use tnsparser.Threads.{
  System, getting, taking, recv, proc, receiver_turn, processor_turn, turn, run,
}
use tnsparser.Threads.Waits.{
  Wait, Waits, Event, take, signal_if, wait_if, blocks_receiver, signals_queue, blocks_processor,
  signals_pool, run_receiver, run_processor, turns, awake,
}
use tnsparser.Threads.Waits.Steps.{
  PoolWait, QueueWait, PoolWait-same, PoolWait-signal, QueueWait-same, QueueWait-signal,
}
use tnsparser.Threads.Waits.Effects.{
  Receives, receiver_turn-Receives, Processes, processor_turn-Processes,
}

-- No wakeup is lost: a thread that is blocked would find nothing to take, and one that does not run
-- stands at the call that it waits in.
pub record Parked (links : Links) (w : Waits links) : Type 0 where
  pub pool : PoolWait links w.sys w.receiver_wait
  pub queue : QueueWait links w.sys w.processor_wait

pub awake-Parked : (links : Links) (s : System links) → Parked links (awake links s)
unfolding PoolWait QueueWait
awake-Parked links s = record { pool = tt; queue = tt }

module _ (links : Links) (doc : Documented links) (json : CJson) (malloc : ℕ → Bool)
    (malloc_node : ℕ → Heap → Option ℕ) (ip port : ℕ) where
  -- What an event comes to: its turn, if it has one, and waits in which no wakeup is lost.
  pub record Steps (e : Event) (w w' : Waits links) : Type 0 where
    pub same_run : run links json malloc malloc_node ip port (turns (e ∷ [])) w.sys ≡ some w'.sys
    pub parked : Parked links w'

  PoolWait-wait_if :
      (s : System links) (b : Bool)
      → (b ≡ true → (s.receiver ≡ getting) × ((mem_pool_get links s.pool).0 ≡ none))
      → PoolWait links s (wait_if b)
  unfolding wait_if PoolWait
  PoolWait-wait_if s true h = h refl
  PoolWait-wait_if s false h = tt

  QueueWait-wait_if :
      (s : System links) (b : Bool)
      → (b ≡ true
          → (old : Option ℕ) × (s.processor ≡ taking old)
            × (list_queue_get s.lqr true ≡ some (waiting, s.lqr)))
      → QueueWait links s (wait_if b)
  unfolding wait_if QueueWait
  QueueWait-wait_if s true h = h refl
  QueueWait-wait_if s false h = tt

  QueueWait-signal_if :
      (s s' : System links) (w : Wait) (b : Bool)
      → s'.processor ≡ s.processor
      → (b ≡ false → s'.lqr ≡ s.lqr)
      → QueueWait links s w
      → QueueWait links s' (signal_if b w)
  unfolding signal_if
  QueueWait-signal_if s s' w true e f h = QueueWait-signal links s' w
  QueueWait-signal_if s s' w false e f h = QueueWait-same links s s' w e (f refl) h

  PoolWait-signal_if :
      (s s' : System links) (w : Wait) (b : Bool)
      → s'.receiver ≡ s.receiver
      → (b ≡ false → s'.pool ≡ s.pool)
      → (b ≡ true → (n : ℕ) × ((mem_pool_get links s'.pool).0 ≡ some n))
      → PoolWait links s w
      → PoolWait links s' (signal_if b w)
  unfolding signal_if
  PoolWait-signal_if s s' w true e f g h =
      let (n, free) = g refl in PoolWait-signal links s s' w n e free h
  PoolWait-signal_if s s' w false e f g h = PoolWait-same links s s' w e (f refl) h

  pub run_receiver-Steps :
      (bytes : Option (List ℕ)) (moment : ℕ) (w w' : Waits links)
      → Parked links w
      → run_receiver links json malloc malloc_node ip port bytes moment w ≡ some w'
      → Steps (take (recv bytes moment)) w w'
  unfolding run_receiver run turn
  run_receiver-Steps bytes moment w w' h ran =
      let (s, e, f) =
        >>=-some
          (receiver_turn links json malloc malloc_node ip port bytes moment w.sys w.sys.receiver) _
          w' ran in
      let left =
        subst
          (Ensures (Receives links doc json malloc malloc_node ip port moment w.sys w.sys.receiver))
          e
          (receiver_turn-Receives links doc json malloc malloc_node ip port bytes moment w.sys
            w.sys.receiver refl) in
      subst (Steps (take (recv bytes moment)) w) f (record {
        same_run = rw e refl;
        parked = record {
          pool =
              PoolWait-wait_if s
                (blocks_receiver links json malloc malloc_node ip port w.sys w.sys.receiver)
                left.blocks;
          queue =
              QueueWait-signal_if w.sys s w.processor_wait
                (signals_queue links json malloc malloc_node ip port moment w.sys w.sys.receiver)
                left.processor left.silent h.queue;
        };
      })

  pub run_processor-Steps :
      (now : ℕ) (w w' : Waits links)
      → Parked links w
      → run_processor links json malloc malloc_node ip port now w ≡ some w'
      → Steps (take (proc now)) w w'
  unfolding run_processor run turn
  run_processor-Steps now w w' h ran =
      let (s, e, f) =
        >>=-some (processor_turn links json malloc malloc_node ip port now w.sys w.sys.processor) _
          w' ran in
      let left =
        subst (Ensures (Processes links doc json malloc malloc_node ip port w.sys w.sys.processor))
          e
          (processor_turn-Processes links doc json malloc malloc_node ip port now w.sys
            w.sys.processor) in
      subst (Steps (take (proc now)) w) f (record {
        same_run = rw e refl;
        parked = record {
          pool =
              PoolWait-signal_if w.sys s w.receiver_wait
                (signals_pool links json malloc malloc_node ip port w.sys w.sys.processor)
                left.receiver left.silent left.frees h.pool;
          queue =
              QueueWait-wait_if s
                (blocks_processor links json malloc malloc_node ip port w.sys w.sys.processor)
                left.blocks;
        };
      })
