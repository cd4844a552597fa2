-- ===== src/Threads/Machine.antt =====
-- A machine for the two threads: lists, allocators, frames and the state that main sets up.
use tnsparser.Base.{ℕ, ◌≡◌, Bool, true, Option, none, some, List, [], ◌∷◌, ◌++◌, replicate}
use tnsparser.Session.{request, zero_key, zero_session, sess_init}
use tnsparser.Tns.Handlers.{CJson}
use tnsparser.Network.{Packet, result_drop}
use tnsparser.ListQueue.{list_queue_init}
use tnsparser.ListQueue.Memory.{Heap, lookup}
use tnsparser.ListQueue.Fresh.{next_address, next_address-fresh}
use tnsparser.Pool.{add_loop}
use tnsparser.Pool.TwoLists.{two_lists}
use tnsparser.Threads.{System, getting, taking}

abbrev pub no_json : CJson
no_json = record {
  Item = Unit;
  parse = λ text. none;
  get_object_item = λ item name. none;
  value_string = λ item. none;
}

abbrev pub malloc : ℕ → Bool
malloc size = true

abbrev pub malloc_node : ℕ → Heap → Option ℕ
malloc_node moment heap = next_address heap

pub malloc_node-fresh :
    (moment : ℕ) (h : Heap) (a : ℕ) → malloc_node moment h ≡ some a → lookup h a ≡ none
malloc_node-fresh moment h a e = next_address-fresh h a e

abbrev pub no_malloc_node : ℕ → Heap → Option ℕ
no_malloc_node moment heap = none

pub no_malloc_node-fresh :
    (moment : ℕ) (h : Heap) (a : ℕ) → no_malloc_node moment h ≡ some a → lookup h a ≡ none
no_malloc_node-fresh moment h a e = cc

abbrev pub unused : ℕ → Packet
unused n = record {
  buf = replicate 1500 0;
  data_at = 0;
  len = 0;
  dir = request;
  action = result_drop;
  key = zero_key;
}

-- Two heads of 20 bytes behind the Ethernet head, and 4 bytes of data.
abbrev pub frame : List ℕ
frame =
    replicate 12 0
    ++ (8
        ∷ 0
        ∷ 0x45
        ∷ 0
        ∷ 0
        ∷ 44
        ∷ 0
        ∷ 0
        ∷ 0
        ∷ 0
        ∷ 64
        ∷ 6
        ∷ 0
        ∷ 0
        ∷ 127
        ∷ 0
        ∷ 0
        ∷ 1
        ∷ 127
        ∷ 0
        ∷ 0
        ∷ 2
        ∷ 0x30
        ∷ 0x39
        ∷ 5
        ∷ 241
        ∷ (replicate 8 0 ++ (0x50 ∷ (replicate 7 0 ++ (1 ∷ 2 ∷ 3 ∷ 4 ∷ [])))))

abbrev pub target_ip : ℕ
target_ip = 0x0200007f

abbrev pub start : System two_lists
start = record {
  pool = add_loop two_lists 32 0 ([], []);
  lqr = record { heap = []; q = record list_queue_init { abort_request = Bool.false } };
  packets = unused;
  g_sess_arry = sess_init (replicate 32 zero_session);
  receiver = getting;
  processor = taking none;
}
