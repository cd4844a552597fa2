-- ===== src/Threads/Waits/Examples.antt =====
-- The two threads and their waits, on frames of a client to the target 2.0.0.127, port 1521.
use tnsparser.Base.{
  ◌++◌, length, subst, arith, ℕ, ◌≡◌, ◌≢◌, ◌↔◌, ◌⊎◌, refl, Bool, true, Option, none, some, List, [],
  ◌∷◌, replicate, Returns,
}
use tnsparser.Session.{
  zero_session, sess_init, sess_must_find_node, sess_key, find_sess, same_key, found_or_taken,
  take_slot, init_loop,
}
use tnsparser.Wire.{load_ushort, load_ntohs, ntohs, pkt_len}
use tnsparser.Network.{
  eth_recv, recv_into, proc_incoming_pack, ip_recv, tcp_len, packet_key, match_target, ip_head,
  tcp_head, load_uint, pushed, recv_set_pack_info,
}
use tnsparser.ListQueue.{
  list_queue_init, list_queue_get, list_queue_put, append_node, link_last, take_first, last_after,
}
use tnsparser.ListQueue.Memory.{Heap, lookup, update, free}
use tnsparser.ListQueue.Fresh.{next_address, greatest}
use tnsparser.Pool.{
  count, add_loop, mem_pool_create, mem_pool_get, mem_pool_get_woken, behind_wait, taken, take_free,
  mem_pool_put, put_signals, without,
}
use tnsparser.Pool.TwoLists.{two_lists, two_lists-Documented}
use tnsparser.Process.{process_packet, mainprocess, is_pushed, sess_desc, inet_ntoa, decimal}
use tnsparser.Tns.Parse.{tns_protocol_parse}
use tnsparser.Threads.{
  recv, proc, boot, turn, run, receiver_turn, processor_turn, after_get, after_recv, after_put,
  after_take,
}
use tnsparser.Threads.Machine.{
  no_json, malloc, malloc_node, malloc_node-fresh, unused, frame, target_ip, start,
}
use tnsparser.Threads.Waits.{
  Waits, blocked, signalled, Event, take, wake_receiver, wake_processor, signal, wake, signal_if,
  wait_if, found_none, is_done, is_waiting, blocks_receiver, signals_queue, blocks_processor,
  signals_pool, run_receiver, after_wait, receiver_step, run_processor, processor_step, event,
  events, turns, awake,
}
use tnsparser.Threads.Waits.Steps.{PoolWait, QueueWait}
use tnsparser.Threads.Waits.Faults.{TakesNoNode, events-faults}
use tnsparser.Threads.Waits.Wakeups.{events-run, events-awake, events-live}
use tnsparser.Threads.Trace.{Reach}
use tnsparser.Threads.Schedule.{Execution, schedule, execute, take_turn, outcome}
use tnsparser.Network.{Packet}
use tnsparser.Threads.Invariant.{packets_of}

is_some : Option (Waits two_lists) → Bool
is_some none = Bool.false
is_some (some w) = true

result : Option (Waits two_lists) → Waits two_lists
result none = awake two_lists start
result (some w) = w

some-result : (m : Option (Waits two_lists)) → is_some m ≡ true → m ≡ some (result m)
unfolding is_some result
some-result none e = cc
some-result (some w) e = refl

abbrev after : List Event → Option (Waits two_lists)
after es = events two_lists no_json malloc malloc_node target_ip 1521 es (awake two_lists start)

-- process_thread finds nothing, sleeps, wakes up for nothing, sleeps again, and is signalled.
abbrev signalled_once : List Event
signalled_once =
    take (recv none 0)
    ∷ take (proc 1)
    ∷ wake_processor
    ∷ take (proc 2)
    ∷ take (recv (some frame) 3)
    ∷ take (recv none 4)
    ∷ []

abbrev fill : ℕ → List Event → List Event
fill ℕ.zero es = es
fill (ℕ.suc n) es = take (recv none 0) ∷ take (recv (some frame) 1) ∷ take (recv none 2) ∷ fill n es

-- Every node of the pool is queued, and netrecv_thread sleeps.
abbrev queue_full : List Event
queue_full = fill 32 (take (recv none 3) ∷ [])

abbrev woken_early : List Event
woken_early = fill 32 (take (recv none 3) ∷ wake_receiver ∷ [])

all_succeed :
    (is_some (after signalled_once) ≡ true)
    × (is_some (after queue_full) ≡ true)
    × (is_some (after woken_early) ≡ true)
    × ((result (after signalled_once)).processor_wait ≡ signalled)
    × ((result (after queue_full)).receiver_wait ≡ blocked)
    × (event two_lists no_json malloc malloc_node target_ip 1521
          (take (recv none 4))
          (result (after woken_early))
        ≡ none)
unfolding is_some result signal wake signal_if wait_if found_none is_done is_waiting blocks_receiver
    signals_queue blocks_processor signals_pool run_receiver after_wait receiver_step run_processor
    processor_step event events mem_pool_get_woken behind_wait put_signals turn receiver_turn
    processor_turn after_get after_recv after_put after_take mem_pool_get taken take_free add_loop
    mem_pool_put eth_recv recv_into proc_incoming_pack ip_recv tcp_len packet_key match_target
    ip_head tcp_head load_uint load_ushort load_ntohs ntohs pushed recv_set_pack_info list_queue_put
    append_node link_last list_queue_get take_first last_after list_queue_init lookup update free
    next_address greatest process_packet mainprocess is_pushed sess_must_find_node sess_key
    find_sess same_key found_or_taken take_slot sess_init init_loop tns_protocol_parse pkt_len run
    count without sess_desc inet_ntoa decimal
all_succeed = (refl, refl, refl, refl, refl, refl)

events-run_example :
    (run two_lists no_json malloc malloc_node target_ip 1521 (turns signalled_once) start
      ≡ some (result (after signalled_once)).sys)
    × PoolWait two_lists
        (result (after signalled_once)).sys
        (result (after signalled_once)).receiver_wait
    × QueueWait two_lists
        (result (after signalled_once)).sys
        (result (after signalled_once)).processor_wait
events-run_example =
    events-run two_lists two_lists-Documented no_json malloc malloc_node target_ip 1521 start
      signalled_once (result (after signalled_once))
      (some-result (after signalled_once) all_succeed.0)

allocates : (moment : ℕ) (h : Heap) → Returns (malloc_node moment h)
unfolding next_address
allocates moment h = (_, refl)

booted : boot two_lists (some ([], [])) [] unused (replicate 32 zero_session) ≡ some start
unfolding boot mem_pool_create
booted = refl

events-awake_example : (result (after queue_full)).processor_wait ≢ blocked
events-awake_example =
    events-awake two_lists two_lists-Documented no_json malloc malloc_node malloc_node-fresh
      allocates target_ip 1521 ([], []) [] unused (replicate 32 zero_session) start booted
      queue_full (result (after queue_full)) (some-result (after queue_full) all_succeed.1)
      all_succeed.4

events-faults_example :
    (event two_lists no_json malloc malloc_node target_ip 1521
        (take (recv none 4))
        (result (after woken_early))
      ≡ none)
    ↔ ((run two_lists no_json malloc malloc_node target_ip 1521
            (recv none 4 ∷ [])
            (result (after woken_early)).sys
          ≡ none)
        ⊎ TakesNoNode two_lists (take (recv none 4)) (result (after woken_early)))
events-faults_example =
    events-faults two_lists two_lists-Documented no_json malloc malloc_node target_ip 1521 start
      woken_early (result (after woken_early)) (take (recv none 4))
      (some-result (after woken_early) all_succeed.2)

-- The turns of signalled_once, with what they queue.
abbrev ran : Execution two_lists no_json malloc malloc_node target_ip 1521 start
ran = schedule two_lists no_json malloc malloc_node target_ip 1521 start (turns signalled_once)

abbrev three_more : List Event
three_more = take (proc 5) ∷ take (proc 6) ∷ take (proc 7) ∷ []

abbrev after_more : Option (Waits two_lists)
after_more =
    events two_lists no_json malloc malloc_node target_ip 1521 three_more
      (result (after signalled_once))

ran_along :
    (ran.last ≡ (result (after signalled_once)).sys)
    × (length ran.queued ≡ 1)
    × (length ran.handled ≡ 0)
    × (is_some after_more ≡ true)
unfolding is_some result signal wake signal_if wait_if found_none is_done is_waiting blocks_receiver
    signals_queue blocks_processor signals_pool run_receiver after_wait receiver_step run_processor
    processor_step event events mem_pool_get_woken behind_wait put_signals turn receiver_turn
    processor_turn after_get after_recv after_put after_take mem_pool_get taken take_free add_loop
    mem_pool_put eth_recv recv_into proc_incoming_pack ip_recv tcp_len packet_key match_target
    ip_head tcp_head load_uint load_ushort load_ntohs ntohs pushed recv_set_pack_info list_queue_put
    append_node link_last list_queue_get take_first last_after list_queue_init lookup update free
    next_address greatest process_packet mainprocess is_pushed sess_must_find_node sess_key
    find_sess same_key found_or_taken take_slot sess_init init_loop tns_protocol_parse pkt_len run
    count without sess_desc inet_ntoa decimal execute take_turn outcome schedule
ran_along = (refl, refl, refl, refl)

events-live_example :
    (qs : List Packet) × (hs : List (ℕ × Packet)) × (rest : List Packet) × (lost' : List ℕ) × Reach
      two_lists no_json malloc malloc_node target_ip 1521 start
      (ran.queued ++ qs)
      (ran.handled ++ hs)
      lost'
      (result after_more).sys
    × (packets_of (ran.handled ++ hs) ≡ ran.queued ++ rest)
events-live_example =
    events-live two_lists two_lists-Documented no_json malloc malloc_node malloc_node-fresh
      target_ip 1521 ([], []) [] unused (replicate 32 zero_session) start booted signalled_once
      three_more ran.queued ran.handled ran.lost (result (after signalled_once)) (result after_more)
      (some-result (after signalled_once) all_succeed.0)
      (subst
        (Reach two_lists no_json malloc malloc_node target_ip 1521 start ran.queued ran.handled
          ran.lost)
        ran_along.0 ran.reach)
      (some-result after_more ran_along.3) (omega (arith, ran_along.1, ran_along.2))
