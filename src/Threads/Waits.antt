-- ===== src/Threads/Waits.antt =====
-- The threads with what their condition variables do: a call that finds nothing blocks its thread in
-- pthread_cond_wait, pthread_cond_signal of the other thread lets it go on, and so may a wakeup
-- without a signal. list_queue_get tests again behind its wait, mem_pool_get does not. The mutex of a
-- call is held up to its wait or its end, so that what lies between is one step.
pub mod Calls
pub mod Steps
pub mod Effects
pub mod Turns
pub mod Runs
pub mod Faults
pub mod Wakeups
mod Examples
use tnsparser.Base.{ℕ, Bool, true, false, Option, none, some, List, [], ◌∷◌, ◌>>=◌}
use tnsparser.Tns.Handlers.{CJson}
use tnsparser.ListQueue.{
  Store, Reply, done, failed, empty, waiting, packet, list_queue_put, list_queue_get,
}
use tnsparser.ListQueue.Memory.{Heap}
use tnsparser.Pool.{Links, mem_pool_get, mem_pool_get_woken, put_signals}
use tnsparser.Threads.{
  System, Receiver, getting, receiving, putting, Processor, taking, handling, returning, Turn, recv,
  proc, receiver_turn, processor_turn,
}

-- Whether a thread runs, is blocked in its pthread_cond_wait, or goes on behind it: after a signal,
-- or without one.
pub data Wait : Type 0 where
  runs blocked signalled woken : Wait

pub record Waits (links : Links) : Type 0 where
  pub sys : System links
  pub receiver_wait : Wait
  pub processor_wait : Wait

-- A turn of a thread, which does nothing while the thread is blocked, or a wakeup without a signal.
pub data Event : Type 0 where
  take : Turn → Event
  wake_receiver wake_processor : Event

-- pthread_cond_signal has no effect unless the thread waits.
unfoldable pub signal : Wait → Wait
signal blocked = signalled
signal runs = runs
signal signalled = signalled
signal woken = woken

unfoldable pub wake : Wait → Wait
wake blocked = woken
wake runs = runs
wake signalled = signalled
wake woken = woken

unfoldable pub signal_if : Bool → Wait → Wait
unfolding signal
signal_if false w = w
signal_if true w = signal w

unfoldable pub wait_if : Bool → Wait
wait_if false = runs
wait_if true = blocked

unfoldable pub found_none {ℓ} : {A : Type ℓ} → Option A → Bool
found_none none = true
found_none (some a) = false

unfoldable pub is_done : Option (Reply × Store) → Bool
is_done none = false
is_done (some (done, q)) = true
is_done (some (failed, q)) = false
is_done (some (empty, q)) = false
is_done (some (waiting, q)) = false
is_done (some (packet n, q)) = false

unfoldable pub is_waiting : Option (Reply × Store) → Bool
is_waiting none = false
is_waiting (some (done, q)) = false
is_waiting (some (failed, q)) = false
is_waiting (some (empty, q)) = false
is_waiting (some (waiting, q)) = true
is_waiting (some (packet n, q)) = false

module _ (links : Links) (json : CJson) (malloc : ℕ → Bool) (malloc_node : ℕ → Heap → Option ℕ)
    (g_target_ip g_target_port : ℕ) where
  -- Whether netrecv_thread ends its turn in the wait of mem_pool_get.
  unfoldable pub blocks_receiver : System links → Receiver → Bool
  unfolding found_none
  blocks_receiver s getting = found_none (mem_pool_get links s.pool).0
  blocks_receiver s (receiving n) = false
  blocks_receiver s (putting n) = false

  -- Whether it comes to the pthread_cond_signal of list_queue_put.
  unfoldable pub signals_queue : ℕ → System links → Receiver → Bool
  unfolding is_done
  signals_queue moment s getting = false
  signals_queue moment s (receiving n) = false
  signals_queue moment s (putting n) =
      is_done (list_queue_put s.lqr n (malloc_node moment s.lqr.heap))

  -- Whether process_thread ends its turn in the wait of list_queue_get.
  unfoldable pub blocks_processor : System links → Processor → Bool
  unfolding is_waiting
  blocks_processor s (taking old) = is_waiting (list_queue_get s.lqr true)
  blocks_processor s (handling n) = false
  blocks_processor s (returning n) = false

  -- Whether it comes to the pthread_cond_signal of mem_pool_put.
  unfoldable pub signals_pool : System links → Processor → Bool
  signals_pool s (taking old) = false
  signals_pool s (handling n) = false
  signals_pool s (returning n) = put_signals links (some n) s.pool

  unfoldable pub run_receiver : Option (List ℕ) → ℕ → Waits links → Option (Waits links)
  unfolding blocks_receiver signals_queue wait_if signal_if
  run_receiver bytes moment w =
      receiver_turn links json malloc malloc_node g_target_ip g_target_port bytes moment w.sys
        w.sys.receiver
      >>= λ s. some (record {
        sys = s;
        receiver_wait = wait_if (blocks_receiver w.sys w.sys.receiver);
        processor_wait = signal_if (signals_queue moment w.sys w.sys.receiver) w.processor_wait;
      })

  -- The rest of mem_pool_get behind its wait.
  unfoldable pub after_wait : Waits links → ℕ × links.Mem → Waits links
  after_wait w (n, m) = record w {
    sys = record (w.sys) { pool = m; receiver = receiving n };
    receiver_wait = runs;
  }

  unfoldable pub receiver_step : Option (List ℕ) → ℕ → Waits links → Wait → Option (Waits links)
  unfolding run_receiver after_wait
  receiver_step bytes moment w runs = run_receiver bytes moment w
  receiver_step bytes moment w blocked = some w
  receiver_step bytes moment w signalled =
      mem_pool_get_woken links w.sys.pool >>= λ r. some (after_wait w r)
  receiver_step bytes moment w woken =
      mem_pool_get_woken links w.sys.pool >>= λ r. some (after_wait w r)

  unfoldable pub run_processor : ℕ → Waits links → Option (Waits links)
  unfolding blocks_processor signals_pool wait_if signal_if
  run_processor now w =
      processor_turn links json malloc malloc_node g_target_ip g_target_port now w.sys
        w.sys.processor
      >>= λ s. some (record {
        sys = s;
        receiver_wait = signal_if (signals_pool w.sys w.sys.processor) w.receiver_wait;
        processor_wait = wait_if (blocks_processor w.sys w.sys.processor);
      })

  -- Behind its wait list_queue_get goes round its loop again, as a call that has just come to it.
  unfoldable pub processor_step : ℕ → Waits links → Wait → Option (Waits links)
  unfolding run_processor
  processor_step now w blocked = some w
  processor_step now w runs = run_processor now w
  processor_step now w signalled = run_processor now w
  processor_step now w woken = run_processor now w

  unfoldable pub event : Event → Waits links → Option (Waits links)
  unfolding receiver_step processor_step wake
  event (take (recv bytes moment)) w = receiver_step bytes moment w w.receiver_wait
  event (take (proc now)) w = processor_step now w w.processor_wait
  event wake_receiver w = some (record w { receiver_wait = wake w.receiver_wait })
  event wake_processor w = some (record w { processor_wait = wake w.processor_wait })

  unfoldable pub events : List Event → Waits links → Option (Waits links)
  unfolding event
  events [] w = some w
  events (e ∷ es) w = event e w >>= λ w'. events es w'

-- As pthread_create starts the threads.
abbrev pub awake : (links : Links) → System links → Waits links
awake links s = record { sys = s; receiver_wait = runs; processor_wait = runs }

-- The turns among the events.
abbrev pub turns : List Event → List Turn
turns [] = []
turns (take t ∷ es) = t ∷ turns es
turns (wake_receiver ∷ es) = turns es
turns (wake_processor ∷ es) = turns es
