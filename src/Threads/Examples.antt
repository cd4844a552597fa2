-- ===== src/Threads/Examples.antt =====
-- The two threads on a frame of a client to the target 2.0.0.127, port 1521.
use tnsparser.Base.{
  ℕ, ◌+◌, ◌≡◌, refl, true, none, some, List, [], ◌∷◌, ◌++◌, arith, replicate, All, Returns, ◌⊎◌,
}
use tnsparser.Session.{zero_session, sess_init}
use tnsparser.Sockets.Machine.{linux, net, machine}
use tnsparser.Network.{Packet}
use tnsparser.ListQueue.{list_queue_init, list_queue_get}
use tnsparser.ListQueue.Memory.{lookup}
use tnsparser.ListQueue.Fresh.{next_address}
use tnsparser.ListQueue.Chain.{Nodes, pkts}
use tnsparser.ListQueue.Calls.{Holds}
use tnsparser.Pool.{free_list, count, add_loop, mem_pool_create}
use tnsparser.Pool.Counts.{share}
use tnsparser.Pool.TwoLists.{two_lists, two_lists-Documented}
use tnsparser.Process.{process_all}
use tnsparser.Process.Keys.{keys}
use tnsparser.Threads.{handling, Turn, recv, proc, boot, turn, run, max_pktpool_size, usage, main}
use tnsparser.Threads.Start.{Starts, main-Starts}
use tnsparser.Threads.Invariant.{packets_of, at_receiver, at_processor}
use tnsparser.Threads.Reached.{Reach-sequential, Reach-conserved, Reach-waiting}
use tnsparser.Threads.Target.{Targeted, IsOurs, Reach-Targeted}
use tnsparser.Threads.Answers.{Reach-answers}
use tnsparser.Process.Answer.{Risky}
use tnsparser.Threads.Schedule.{Execution, schedule, execute}
use tnsparser.Wire.{load_ushort, load_ntohs, ntohs, pkt_len}
use tnsparser.Session.{
  sess_must_find_node, sess_key, find_sess, same_key, found_or_taken, take_slot, init_loop,
}
use tnsparser.Network.{
  eth_recv, recv_into, proc_incoming_pack, ip_recv, tcp_len, packet_key, match_target, ip_head,
  tcp_head, load_uint, pushed, recv_set_pack_info,
}
use tnsparser.ListQueue.{list_queue_put, append_node, link_last, take_first, last_after}
use tnsparser.ListQueue.Memory.{update, free}
use tnsparser.ListQueue.Fresh.{greatest}
use tnsparser.Pool.{mem_pool_get, taken, take_free, mem_pool_put, without}
use tnsparser.Process.{process_packet, mainprocess, is_pushed, sess_desc, inet_ntoa, decimal}
use tnsparser.Tns.Parse.{tns_protocol_parse}
use tnsparser.Threads.{receiver_turn, processor_turn, after_get, after_recv, after_put, after_take}
use tnsparser.Threads.Machine.{
  no_json, malloc, malloc_node, malloc_node-fresh, no_malloc_node, no_malloc_node-fresh, unused,
  frame, target_ip, start,
}
use tnsparser.Threads.Schedule.{take_turn, outcome}

booted : boot two_lists (some ([], [])) [] unused (replicate 32 zero_session) ≡ some start
unfolding boot mem_pool_create
booted = refl

no_arguments :
    main two_lists linux
      (λ text. 0)
      (λ text. 0)
      ((b'a' ∷ []) ∷ [])
      true
      machine
      (some ([], []))
      []
      unused
      []
    ≡ some usage
unfolding main
no_arguments = refl

abbrev arguments : List (List ℕ)
arguments = (b'a' ∷ []) ∷ (b'i' ∷ []) ∷ (b'p' ∷ []) ∷ []

main-Starts_example :
    Starts two_lists linux net machine target_ip 1521
      (boot two_lists (some ([], [])) [] unused (replicate 32 zero_session))
      (main two_lists linux
        (λ text. target_ip)
        (λ text. 1521)
        arguments
        true
        machine
        (some ([], []))
        []
        unused
        (replicate 32 zero_session))
main-Starts_example =
    main-Starts two_lists two_lists-Documented linux net (λ text. target_ip) (λ text. 1521) machine
      ([], []) [] unused (replicate 32 zero_session) (b'a' ∷ []) (b'i' ∷ []) (b'p' ∷ []) []

-- A frame is received and queued; then the next one is received while the first is handled.
abbrev turns : List Turn
turns =
    recv (some frame) 0
    ∷ recv (some frame) 1
    ∷ recv none 2
    ∷ proc 3
    ∷ recv none 4
    ∷ recv (some frame) 5
    ∷ proc 6
    ∷ proc 7
    ∷ []

abbrev ran : Execution two_lists no_json malloc malloc_node target_ip 1521 start
ran = schedule two_lists no_json malloc malloc_node target_ip 1521 start turns

Reach-sequential_example :
    (rest : List Packet) × (ran.queued ≡ packets_of ran.handled ++ rest)
    × (process_all no_json malloc (sess_init (replicate 32 zero_session)) ran.handled
        ≡ some ran.last.g_sess_arry)
Reach-sequential_example =
    Reach-sequential two_lists two_lists-Documented no_json malloc malloc_node malloc_node-fresh
      target_ip 1521 ([], []) [] unused (replicate 32 zero_session) start booted ran.queued
      ran.handled ran.lost ran.last ran.reach

Reach-conserved_example :
    (nodes : Nodes) × Holds ran.last.lqr nodes
    × ((n : ℕ)
        → count n (two_lists-Documented.items ran.last.pool free_list)
            + count n (pkts nodes)
            + at_receiver n ran.last.receiver
            + at_processor n ran.last.processor
            + count n ran.lost
          ≡ share max_pktpool_size n)
Reach-conserved_example =
    Reach-conserved two_lists two_lists-Documented no_json malloc malloc_node malloc_node-fresh
      target_ip 1521 ([], []) [] unused (replicate 32 zero_session) start booted ran.queued
      ran.handled ran.lost ran.last ran.reach

Reach-Targeted_example :
    All (Targeted target_ip 1521) ran.queued
    × All (λ r. Targeted target_ip 1521 r.1) ran.handled
    × All (IsOurs target_ip 1521) (keys ran.last.g_sess_arry)
Reach-Targeted_example =
    Reach-Targeted two_lists two_lists-Documented no_json malloc malloc_node malloc_node-fresh
      target_ip 1521 ([], []) [] unused (replicate 32 zero_session) start ran.queued ran.handled
      ran.lost ran.last booted refl ran.reach

Reach-answers_example :
    Returns
      (turn two_lists no_json malloc malloc_node target_ip 1521 (recv (some frame) 8) ran.last)
    ⊎ ((n : ℕ) × (ran.last.processor ≡ handling n) × Risky (ran.last.packets n))
Reach-answers_example =
    Reach-answers two_lists two_lists-Documented no_json malloc malloc_node malloc_node-fresh
      target_ip 1521 ([], []) [] unused (replicate 32 zero_session) start booted refl (λ n. refl)
      ran.queued ran.handled ran.lost ran.last (recv (some frame) 8) ran.reach (omega arith)

abbrev repeat : ℕ → List Turn
repeat ℕ.zero = []
repeat (ℕ.suc n) = recv none 0 ∷ recv (some frame) 1 ∷ recv none 2 ∷ repeat n

abbrev exhausted : Execution two_lists no_json malloc no_malloc_node target_ip 1521 start
exhausted = schedule two_lists no_json malloc no_malloc_node target_ip 1521 start (repeat 32)

Reach-waiting_example : count 7 exhausted.lost ≡ 1
unfolding turn receiver_turn processor_turn after_get after_recv after_put after_take mem_pool_get
    taken take_free add_loop mem_pool_put eth_recv recv_into proc_incoming_pack ip_recv tcp_len
    packet_key match_target ip_head tcp_head load_uint load_ushort load_ntohs ntohs pushed
    recv_set_pack_info list_queue_put append_node link_last list_queue_get take_first last_after
    list_queue_init lookup update free next_address greatest process_packet mainprocess is_pushed
    sess_must_find_node sess_key find_sess same_key found_or_taken take_slot sess_init init_loop
    tns_protocol_parse pkt_len run execute take_turn outcome schedule count without sess_desc
    inet_ntoa decimal
Reach-waiting_example =
    Reach-waiting two_lists two_lists-Documented no_json malloc no_malloc_node no_malloc_node-fresh
      target_ip 1521 ([], []) [] unused (replicate 32 zero_session) start booted exhausted.queued
      exhausted.handled exhausted.lost exhausted.last none exhausted.last.lqr 7 exhausted.reach refl
      refl refl refl (omega arith)
