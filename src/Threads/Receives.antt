-- ===== src/Threads/Receives.antt =====
-- A turn of netrecv_thread keeps the invariant.
use tnsparser.Base.{
  ℕ, ◌≡◌, refl, ap, ◌∙◌, subst, Bool, true, false, Option, none, some, List, [], ◌∷◌, ◌++◌,
  append_assoc, append-nil, map, arith, ◌==◌, if◌then◌else◌, ◌>>=◌, inl, inr, eqb_self, eq_of_some,
  Option-cases,
}
use mathlib.Core.List.{map-append}
use tnsparser.Session.{TnsSession}
use tnsparser.Tns.Handlers.{CJson}
use tnsparser.Network.{Packet, eth_recv}
use tnsparser.ListQueue.{list_queue_put}
use tnsparser.ListQueue.Memory.{Heap, lookup}
use tnsparser.ListQueue.Chain.{Nodes, pkts}
use tnsparser.ListQueue.Calls.{list_queue_put-failed, list_queue_put-Holds}
use tnsparser.Pool.{Links, Documented, count, mem_pool_get}
use tnsparser.Pool.Counts.{one}
use tnsparser.Pool.Owned.{mem_pool_get-cases}
use tnsparser.Threads.{
  System, Receiver, getting, receiving, putting, receiver_turn, after_get, after_recv, after_put,
  max_pktpool_size,
}
use tnsparser.Threads.Trace.{if_done, if_failed, queued_at, lost_at}
use tnsparser.Threads.Invariant.{
  Inv, at_receiver, at_processor, in_hand, packets_of, count-append, map-write_packet,
  in_hand-write_packet, only_receiver,
}

pkts-snoc : (l : Nodes) (a n : ℕ) → pkts (l ++ (a, n) ∷ []) ≡ pkts l ++ n ∷ []
pkts-snoc l a n = map-append _ l ((a, n) ∷ [])

module _ (links : Links) (doc : Documented links) (json : CJson) (malloc : ℕ → Bool)
    (start : List TnsSession) (malloc_node : ℕ → Heap → Option ℕ)
    (fresh : (moment : ℕ) (h : Heap) (a : ℕ) → malloc_node moment h ≡ some a → lookup h a ≡ none)
    (ip port : ℕ) (queued : List Packet) (handled : List (ℕ × Packet)) (lost : List ℕ)
    (s : System links) (inv : Inv links doc json malloc start queued handled lost s) where
  got-Inv :
      s.receiver ≡ getting
      → Inv links doc json malloc start
          (queued ++ [])
          handled
          lost
          (after_get links json malloc malloc_node ip port s (mem_pool_get links s.pool))
  unfolding after_get
  got-Inv e = elim (mem_pool_get-cases links doc max_pktpool_size s.pool inv.owned) [
    | inl (empty, waits) ↦ rw waits (record {
      owned = inv.owned;
      nodes = inv.nodes;
      holds = inv.holds;
      live = inv.live;
      used = inv.used;
      flow = append-nil queued ∙ inv.flow;
      table = inv.table;
    })
    | inr (n, pool, got, own, once, unused, kept, used, counts) ↦ rw got (record {
      owned = kept;
      nodes = inv.nodes;
      holds = inv.holds;
      live = inv.live;
      used = λ x. omega (arith, counts x, inv.used x, ap (at_receiver x) e);
      flow = append-nil queued ∙ inv.flow;
      table = inv.table;
    })
  ]

  -- The packet that is written is in nobody else's hands.
  received-Inv :
      (n : ℕ) (r : ℕ × Packet)
      → s.receiver ≡ receiving n
      → Inv links doc json malloc start
          (queued ++ [])
          handled
          lost
          (after_recv links json malloc malloc_node ip port s n r)
  unfolding after_recv
  received-Inv n (ret, pkt) e = record {
    owned = inv.owned;
    nodes = inv.nodes;
    holds = inv.holds;
    live = inv.live;
    used = λ x. omega (arith, inv.used x, ap (at_receiver x) e, same_node x (ret == 0));
    flow =
        rw
          (
            map-write_packet s.packets n pkt (pkts inv.nodes) apart.0,
            in_hand-write_packet s.packets n pkt s.processor apart.1,
          )
          (append-nil queued ∙ inv.flow);
    table = inv.table;
  }
    where
      apart : (count n (pkts inv.nodes) ≡ 0) × (at_processor n s.processor ≡ 0) × (count n lost ≡ 0)
      apart =
          only_receiver links doc json malloc start queued handled lost s n inv
            (ap (at_receiver n) e ∙ rw (eqb_self n))

      same_node :
          (x : ℕ) (b : Bool) → at_receiver x (if b then putting n else receiving n) ≡ one x n
      same_node x true = refl
      same_node x false = refl

  put-Inv :
      (n moment : ℕ) (m : Option ℕ) (s' : System links)
      → s.receiver ≡ putting n
      → malloc_node moment s.lqr.heap ≡ m
      → (list_queue_put s.lqr n m >>= λ r.
          some (after_put links json malloc malloc_node ip port s r))
        ≡ some s'
      → Inv links doc json malloc start
          (queued ++ if_done (s.packets n) (list_queue_put s.lqr n m))
          handled
          (if_failed n (list_queue_put s.lqr n m) ++ lost)
          s'
  unfolding after_put count
  put-Inv n moment none s' e g ran =
      let fails = list_queue_put-failed s.lqr n none (inr refl) in
      rw fails (
        subst (Inv links doc json malloc start (queued ++ []) handled (n ∷ lost))
          (eq_of_some (rw fails at ran))
          (record {
            owned = inv.owned;
            nodes = inv.nodes;
            holds = inv.holds;
            live = inv.live;
            used = λ x. omega (arith, inv.used x, ap (at_receiver x) e);
            flow = append-nil queued ∙ inv.flow;
            table = inv.table;
          }))
  put-Inv n moment (some a) s' e g ran =
      let (q, called, holds, live) =
        list_queue_put-Holds s.lqr inv.nodes n a inv.holds inv.live (fresh moment s.lqr.heap a g) in
      rw called (
        subst (Inv links doc json malloc start (queued ++ s.packets n ∷ []) handled lost)
          (eq_of_some (rw called at ran))
          (record {
            owned = inv.owned;
            nodes = inv.nodes ++ (a, n) ∷ [];
            holds = holds;
            live = live;
            used = λ x.
                rw (pkts-snoc inv.nodes a n, count-append x (pkts inv.nodes) (n ∷ []))
                  (omega (arith, inv.used x, ap (at_receiver x) e));
            flow =
                rw
                  (
                    pkts-snoc inv.nodes a n,
                    map-append s.packets (pkts inv.nodes) (n ∷ []),
                    inv.flow,
                  )
                  (append_assoc (packets_of handled)
                      (in_hand s.packets s.processor ++ map s.packets (pkts inv.nodes))
                      (s.packets n ∷ [])
                    ∙ ap (λ l. packets_of handled ++ l)
                        (append_assoc (in_hand s.packets s.processor)
                          (map s.packets (pkts inv.nodes)) (s.packets n ∷ [])));
            table = inv.table;
          }))

  pub receiver_turn-Inv :
      (bytes : Option (List ℕ)) (moment : ℕ) (pc : Receiver) (s' : System links)
      → s.receiver ≡ pc
      → receiver_turn links json malloc malloc_node ip port bytes moment s pc ≡ some s'
      → Inv links doc json malloc start
          (queued ++ queued_at links json malloc malloc_node ip port moment s pc)
          handled
          (lost_at links json malloc malloc_node ip port moment s pc ++ lost)
          s'
  unfolding receiver_turn
  receiver_turn-Inv bytes moment getting s' e ran =
      subst (Inv links doc json malloc start (queued ++ []) handled lost) (eq_of_some ran)
        (got-Inv e)
  receiver_turn-Inv bytes moment (receiving n) s' e ran =
      elim (Option-cases (eth_recv ip port bytes (s.packets n))) [
        | inl f ↦ absurd (cc (rw f at ran))
        | inr (r, f) ↦
            subst (Inv links doc json malloc start (queued ++ []) handled lost)
              (eq_of_some (rw f at ran)) (received-Inv n r e)
      ]
  receiver_turn-Inv bytes moment (putting n) s' e ran =
      put-Inv n moment (malloc_node moment s.lqr.heap) s' e refl ran
