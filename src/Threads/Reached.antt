-- ===== src/Threads/Reached.antt =====
-- What holds in every state that the two threads reach.
use tnsparser.Base.{
  ℕ, ◌+◌, ◌<◌, ◌≡◌, refl, sym, ap, subst, Bool, true, false, Option, none, some, List, [], ◌∷◌,
  ◌++◌, append-nil, map, arith, inl, inr, eq_of_some,
}
use tnsparser.Session.{TnsSession, sess_init}
use tnsparser.Tns.Handlers.{CJson}
use tnsparser.Network.{Packet}
use tnsparser.ListQueue.{Store, waiting, list_queue_get, list_queue_init}
use tnsparser.ListQueue.Memory.{Heap, lookup}
use tnsparser.ListQueue.Chain.{Nodes, pkts}
use tnsparser.ListQueue.Calls.{Holds, list_queue_get-Holds}
use tnsparser.Pool.{Links, Documented, free_list, count, mem_pool_get}
use tnsparser.Pool.Counts.{share}
use tnsparser.Pool.Owned.{mem_pool_create-Owned, mem_pool_get-cases}
use tnsparser.Process.{process_all}
use tnsparser.Threads.{System, getting, taking, Turn, recv, proc, max_pktpool_size, turn, boot}
use tnsparser.Threads.Trace.{Reach, here, next, queued_by, handled_by, lost_by}
use tnsparser.Threads.Invariant.{Inv, at_receiver, at_processor, packets_of, in_hand}
use tnsparser.Threads.Receives.{receiver_turn-Inv}
use tnsparser.Threads.Handles.{processor_turn-Inv}

module _ (links : Links) (doc : Documented links) (json : CJson) (malloc : ℕ → Bool)
    (malloc_node : ℕ → Heap → Option ℕ)
    (fresh : (moment : ℕ) (h : Heap) (a : ℕ) → malloc_node moment h ≡ some a → lookup h a ≡ none)
    (ip port : ℕ) (mem : links.Mem) (heap : Heap) (packets : ℕ → Packet) (table : List TnsSession)
    (start : System links) (booted : boot links (some mem) heap packets table ≡ some start) where
  boot-Inv : Inv links doc json malloc (sess_init table) [] [] [] start
  unfolding boot process_all count list_queue_init
  boot-Inv =
      let (pool, created, owned, none_used) =
        mem_pool_create-Owned links doc max_pktpool_size mem (omega arith) in
      subst (Inv links doc json malloc (sess_init table) [] [] [])
        (eq_of_some (rw created at booted))
        (record {
          owned = owned;
          nodes = [];
          holds = record { first = refl; last = refl; num = refl; chain = tt; distinct = tt };
          live = refl;
          used = λ n. ap (count n) none_used;
          flow = refl;
          table = refl;
        })

  turn-Inv :
      (queued : List Packet) (handled : List (ℕ × Packet)) (lost : List ℕ) (s s' : System links)
      (t : Turn)
      → Inv links doc json malloc (sess_init table) queued handled lost s
      → turn links json malloc malloc_node ip port t s ≡ some s'
      → Inv links doc json malloc
          (sess_init table)
          (queued ++ queued_by links json malloc malloc_node ip port t s)
          (handled ++ handled_by links json malloc malloc_node ip port t s)
          (lost_by links json malloc malloc_node ip port t s ++ lost)
          s'
  unfolding turn
  turn-Inv queued handled lost s s' (recv bytes moment) inv ran =
      subst
        (λ h.
          Inv links doc json malloc (sess_init table)
            (queued ++ queued_by links json malloc malloc_node ip port (recv bytes moment) s) h
            (lost_by links json malloc malloc_node ip port (recv bytes moment) s ++ lost) s')
        (sym (append-nil handled))
        (receiver_turn-Inv links doc json malloc (sess_init table) malloc_node fresh ip port queued
          handled lost s inv bytes moment s.receiver s' refl ran)
  turn-Inv queued handled lost s s' (proc now) inv ran =
      subst
        (λ q.
          Inv links doc json malloc (sess_init table) q
            (handled ++ handled_by links json malloc malloc_node ip port (proc now) s) lost s')
        (sym (append-nil queued))
        (processor_turn-Inv links doc json malloc (sess_init table) malloc_node ip port queued
          handled lost s inv now s.processor s' refl ran)

  pub Reach-Inv :
      {queued : List Packet} {handled : List (ℕ × Packet)} {lost : List ℕ} {s : System links}
      → Reach links json malloc malloc_node ip port start queued handled lost s
      → Inv links doc json malloc (sess_init table) queued handled lost s
  Reach-Inv here = boot-Inv
  Reach-Inv (next {queued} {handled} {lost} {s} {s'} t r ran) =
      turn-Inv queued handled lost s s' t (Reach-Inv r) ran

  -- However the turns of the two threads interleave, if malloc returns no allocated address and
  -- the list functions do what list.h documents: the packets that were handled are the first of
  -- those that were queued, in their order and with the contents that they had then, and the
  -- session table is what handling them one after the other, with no other thread, makes of the
  -- table of sess_init.
  pub Reach-sequential :
      (queued : List Packet) (handled : List (ℕ × Packet)) (lost : List ℕ) (s : System links)
      → Reach links json malloc malloc_node ip port start queued handled lost s
      → (rest : List Packet) × (queued ≡ packets_of handled ++ rest)
        × (process_all json malloc (sess_init table) handled ≡ some s.g_sess_arry)
  Reach-sequential queued handled lost s r =
      let inv = Reach-Inv r in
      (in_hand s.packets s.processor ++ map s.packets (pkts inv.nodes), inv.flow, inv.table)

  -- If malloc returns no allocated address and the list functions do what list.h documents: at all
  -- times each of the 32 nodes of the pool is in exactly one place, in the free list, in the
  -- packet queue, with one of the two threads, or lost by a list_queue_put that failed, and no
  -- other node is in any of them.
  pub Reach-conserved :
      (queued : List Packet) (handled : List (ℕ × Packet)) (lost : List ℕ) (s : System links)
      → Reach links json malloc malloc_node ip port start queued handled lost s
      → (nodes : Nodes) × Holds s.lqr nodes
        × ((n : ℕ)
            → count n (doc.items s.pool free_list)
                + count n (pkts nodes)
                + at_receiver n s.receiver
                + at_processor n s.processor
                + count n lost
              ≡ share max_pktpool_size n)
  Reach-conserved queued handled lost s r =
      let inv = Reach-Inv r in (inv.nodes, inv.holds, λ n. omega (arith, inv.owned n, inv.used n))

  -- If malloc returns no allocated address and the list functions do what list.h documents: both
  -- threads wait, netrecv_thread for a free node and process_thread for a packet, only when every
  -- node of the pool has been lost by a list_queue_put that failed.
  pub Reach-waiting :
      (queued : List Packet) (handled : List (ℕ × Packet)) (lost : List ℕ) (s : System links)
      (old : Option ℕ) (lqr : Store) (n : ℕ)
      → Reach links json malloc malloc_node ip port start queued handled lost s
      → s.receiver ≡ getting
      → (mem_pool_get links s.pool).0 ≡ none
      → s.processor ≡ taking old
      → list_queue_get s.lqr true ≡ some (waiting, lqr)
      → n < max_pktpool_size
      → count n lost ≡ 1
  unfolding count
  Reach-waiting queued handled lost s old lqr n r e f g h lt =
      let inv = Reach-Inv r in
      elim (mem_pool_get-cases links doc max_pktpool_size s.pool inv.owned) [
        | inl (no_free, waits) ↦
            let no_node = queue_empty inv.nodes inv.holds inv.live in
            lost_only (inv.owned n) (inv.used n) (ap (count n) no_free)
              (ap (λ l. count n (pkts l)) no_node) (ap (at_receiver n) e) (ap (at_processor n) g)
        | inr (k, m', got, own, once, unused, kept, used, counts) ↦ absurd (cc (ap (λ p. p.0) got))
      ]
    where
      queue_empty : (l : Nodes) → Holds s.lqr l → s.lqr.q.abort_request ≡ false → l ≡ []
      queue_empty [] holds live = refl
      queue_empty ((a, x) ∷ l) holds live =
          let (q, got, holds_after, still, freed) =
            list_queue_get-Holds s.lqr l a x true holds live in
          absurd (cc got)

      lost_only :
          {free used nodes receiver processor : ℕ}
          → free + used ≡ share max_pktpool_size n
          → used ≡ nodes + receiver + processor + count n lost
          → free ≡ 0
          → nodes ≡ 0
          → receiver ≡ 0
          → processor ≡ 0
          → count n lost ≡ 1
      lost_only a b c d i j = ground arith
