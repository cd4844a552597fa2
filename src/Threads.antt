-- ===== src/Threads.antt =====
-- The two threads of src/main.c over what they share: the packet pool, the packet queue, the packets
-- and the session table. A turn is what one thread does up to its next call that can wait or that
-- another thread can see; the turns interleave in any order. `none` is undefined behaviour.
pub mod Start
pub mod Trace
pub mod Invariant
pub mod Receives
pub mod Handles
pub mod Reached
pub mod Untouched
pub mod Target
pub mod Progress
pub mod Answers
pub mod Rank
pub mod Liveness
pub mod Waits
pub mod Schedule
pub mod Machine
mod Examples
use tnsparser.Base.{
  ℕ, ◌%◌, Bool, true, Option, none, some, List, [], ◌∷◌, ◌==◌, if◌then◌else◌, ◌>>=◌,
}
use tnsparser.Session.{TnsSession, sess_init}
use tnsparser.Tns.Handlers.{CJson}
use tnsparser.Sockets.{Os}
use tnsparser.Network.{Packet, eth_recv}
use tnsparser.Network.Ethernet.{Handler, Opened, opened, exits, get_network}
use tnsparser.ListQueue.{
  Store, Reply, done, failed, empty, waiting, packet, list_queue_put, list_queue_get,
  list_queue_init,
}
use tnsparser.ListQueue.Memory.{Heap}
use tnsparser.Pool.{Links, mem_pool_create, mem_pool_get, mem_pool_put}
use tnsparser.Process.{process_packet}

-- Where netrecv_thread stands: before mem_pool_get, before recv with the node that it has, or before
-- list_queue_put with it.
pub data Receiver : Type 0 where
  getting : Receiver
  receiving putting : ℕ → Receiver

-- Where process_thread stands: before list_queue_get with what `pkt` points to, before the test of
-- the packet, or before mem_pool_put.
pub data Processor : Type 0 where
  taking : Option ℕ → Processor
  handling returning : ℕ → Processor

-- A packet is known by the node of the pool that it lies in.
pub record System (links : Links) : Type 0 where
  pub pool : links.Mem
  pub lqr : Store
  pub packets : ℕ → Packet
  pub g_sess_arry : List TnsSession
  pub receiver : Receiver
  pub processor : Processor

-- A turn of netrecv_thread, with what recv_via_dev delivers and the moment of a malloc, or one of
-- process_thread, with the time.
pub data Turn : Type 0 where
  recv : Option (List ℕ) → ℕ → Turn
  proc : ℕ → Turn

abbrev pub max_pktpool_size : ℕ
max_pktpool_size = 32

abbrev pub write_packet : (ℕ → Packet) → ℕ → Packet → ℕ → Packet
write_packet packets n p k = if k == n then p else packets k

-- What the threads call but the program does not define: the lists of list.h, cJSON, malloc for the
-- JSON text, and malloc for a queue's node, at a moment and in a heap.
module _ (links : Links) (json : CJson) (malloc : ℕ → Bool) (malloc_node : ℕ → Heap → Option ℕ)
    (g_target_ip g_target_port : ℕ) where
  unfoldable pub after_get : System links → Option ℕ × links.Mem → System links
  after_get s (none, pool) = record s { pool = pool }
  after_get s (some n, pool) = record s { pool = pool; receiver = receiving n }

  unfoldable pub after_recv : System links → ℕ → ℕ × Packet → System links
  after_recv s n (ret, pkt) = record s {
    packets = write_packet s.packets n pkt;
    receiver = if ret == 0 then putting n else receiving n;
  }

  -- The result of list_queue_put is not looked at.
  unfoldable pub after_put : System links → Reply × Store → System links
  after_put s (r, lqr) = record s { lqr = lqr; receiver = getting }

  unfoldable pub receiver_turn :
      Option (List ℕ) → ℕ → System links → Receiver → Option (System links)
  unfolding after_get after_recv after_put
  receiver_turn bytes moment s getting = some (after_get s (mem_pool_get links s.pool))
  receiver_turn bytes moment s (receiving n) =
      eth_recv g_target_ip g_target_port bytes (s.packets n) >>= λ r. some (after_recv s n r)
  receiver_turn bytes moment s (putting n) =
      list_queue_put s.lqr n (malloc_node moment s.lqr.heap) >>= λ r. some (after_put s r)

  -- What list_queue_get leaves in `pkt`: the old pointer, if it returns no packet. The test that
  -- follows dereferences it.
  unfoldable pub after_take : System links → Option ℕ → Reply → Option (System links)
  after_take s old (packet n) = some (record s { processor = handling n })
  after_take s old waiting = some (record s { processor = taking old })
  after_take s none done = none
  after_take s none failed = none
  after_take s none empty = none
  after_take s (some n) done = some (record s { processor = handling n })
  after_take s (some n) failed = some (record s { processor = handling n })
  after_take s (some n) empty = some (record s { processor = handling n })

  unfoldable pub processor_turn : ℕ → System links → Processor → Option (System links)
  unfolding after_take
  processor_turn now s (taking old) =
      list_queue_get s.lqr true >>= λ (r, lqr). after_take (record s { lqr = lqr }) old r
  processor_turn now s (handling n) =
      process_packet json malloc s.g_sess_arry (now, s.packets n) >>= λ table.
      some (record s { g_sess_arry = table; processor = returning n })
  processor_turn now s (returning n) =
      some (record s { pool = (mem_pool_put links (some n) s.pool).1; processor = taking (some n) })

  unfoldable pub turn : Turn → System links → Option (System links)
  unfolding receiver_turn processor_turn
  turn (recv bytes moment) s = receiver_turn bytes moment s s.receiver
  turn (proc now) s = processor_turn now s s.processor

  unfoldable pub run : List Turn → System links → Option (System links)
  unfolding turn
  run [] s = some s
  run (t ∷ ts) s = turn t s >>= λ s'. run ts s'

-- What main comes to: the usage, an exit of the process while it opens the network, or the two threads
-- with the network's handler.
pub data Main (links : Links) (os : Os) : Type 0 where
  usage : Main links os
  exited : ℕ → Main links os
  threads : (g_target_ip g_target_port : ℕ) → Handler → System links → Main links os

-- Up to the two pthread_create: `mem` is the block that malloc returned for the pool, if it did, and
-- `packets` what lies in its nodes. Of 32 nodes mem_pool_create returns no null pointer.
unfoldable pub boot :
    (links : Links)
    → Option links.Mem
    → Heap
    → (ℕ → Packet)
    → List TnsSession
    → Option (System links)
boot links mem heap packets g_sess_arry = do
  made ← mem_pool_create links max_pktpool_size mem
  pool ← made
  some (record {
    pool = pool;
    lqr = record { heap = heap; q = record list_queue_init { abort_request = Bool.false } };
    packets = packets;
    g_sess_arry = sess_init g_sess_arry;
    receiver = getting;
    processor = taking none;
  })

-- With the results of inet_addr and of atoi, a 32-bit pattern, as functions of the arguments. What is
-- printed is left out.
module _ (links : Links) (os : Os) (inet_addr atoi : List ℕ → ℕ) where
  unfoldable pub after_open : ℕ → ℕ → System links → Opened os → Main links os
  after_open g_target_ip g_target_port s (opened handler r) =
      threads g_target_ip g_target_port handler s
  after_open g_target_ip g_target_port s (exits status r) = exited status

  -- `granted` says whether eth_open's malloc returns memory, and `w` is the system that it finds.
  unfoldable pub main :
      List (List ℕ)
      → Bool
      → os.World
      → Option links.Mem
      → Heap
      → (ℕ → Packet)
      → List TnsSession
      → Option (Main links os)
  unfolding boot after_open get_network
  main (name ∷ target_ip ∷ target_port ∷ rest) granted w mem heap packets g_sess_arry = do
    s ← boot links mem heap packets g_sess_arry
    let network = get_network os
    o ← network.open_handler granted 0 w
    some (after_open (inet_addr target_ip) (atoi target_port % 65536) s o)
  main [] granted w mem heap packets g_sess_arry = some usage
  main (name ∷ []) granted w mem heap packets g_sess_arry = some usage
  main (name ∷ target_ip ∷ []) granted w mem heap packets g_sess_arry = some usage
