-- ===== src/Threads/Handles.antt =====
-- A turn of process_thread keeps the invariant.
use tnsparser.Base.{
  ℕ, ◌≡◌, refl, sym, ap, ◌∙◌, subst, Bool, true, Option, some, List, [], ◌∷◌, ◌++◌, append_assoc,
  append-nil, map, arith, ◌>>=◌, inl, inr, eqb_self, eq_of_some, Option-cases,
}
use mathlib.Core.List.{map-append}
use tnsparser.Session.{TnsSession}
use tnsparser.Tns.Handlers.{CJson}
use tnsparser.Network.{Packet}
use tnsparser.ListQueue.{list_queue_get}
use tnsparser.ListQueue.Memory.{Heap}
use tnsparser.ListQueue.Chain.{Nodes, pkts}
use tnsparser.ListQueue.Calls.{Holds, list_queue_get-empty, list_queue_get-Holds}
use tnsparser.Pool.{Links, Documented, use_list, count, mem_pool_put}
use tnsparser.Pool.Owned.{mem_pool_put-cases}
use tnsparser.Process.{process_packet}
use tnsparser.Threads.{
  System, Processor, taking, handling, returning, processor_turn, after_take, max_pktpool_size,
}
use tnsparser.Threads.Trace.{handled_at}
use tnsparser.Threads.Invariant.{
  Inv, at_processor, in_hand, packets_of, process_all-snoc, only_processor,
}

module _ (links : Links) (doc : Documented links) (json : CJson) (malloc : ℕ → Bool)
    (start : List TnsSession) (malloc_node : ℕ → Heap → Option ℕ) (ip port : ℕ)
    (queued : List Packet) (handled : List (ℕ × Packet)) (lost : List ℕ) (s : System links)
    (inv : Inv links doc json malloc start queued handled lost s) where
  idle_flow :
      (old : Option ℕ)
      → s.processor ≡ taking old
      → queued ≡ packets_of handled ++ map s.packets (pkts inv.nodes)
  idle_flow old e =
      inv.flow
      ∙ ap (λ pc. packets_of handled ++ (in_hand s.packets pc ++ map s.packets (pkts inv.nodes))) e

  taken-Inv :
      (l : Nodes) (old : Option ℕ) (s' : System links)
      → inv.nodes ≡ l
      → s.processor ≡ taking old
      → (list_queue_get s.lqr true >>= λ (r, lqr).
          after_take links json malloc malloc_node ip port (record s { lqr = lqr }) old r)
        ≡ some s'
      → Inv links doc json malloc start queued handled lost s'
  unfolding after_take count
  taken-Inv [] old s' n e ran =
      let waits = list_queue_get-empty s.lqr true (subst (Holds s.lqr) n inv.holds) inv.live in
      subst (Inv links doc json malloc start queued handled lost) (eq_of_some (rw waits at ran))
        (record {
          owned = inv.owned;
          nodes = inv.nodes;
          holds = inv.holds;
          live = inv.live;
          used = λ y. omega (arith, inv.used y, ap (at_processor y) e);
          flow = idle_flow old e;
          table = inv.table;
        })
  taken-Inv ((a, x) ∷ l) old s' n e ran =
      let (q, got, holds, live, freed) =
        list_queue_get-Holds s.lqr l a x true (subst (Holds s.lqr) n inv.holds) inv.live in
      subst (Inv links doc json malloc start queued handled lost) (eq_of_some (rw got at ran))
        (record {
          owned = inv.owned;
          nodes = l;
          holds = holds;
          live = live;
          used =
              λ y. omega (arith, inv.used y, ap (at_processor y) e, ap (λ m. count y (pkts m)) n);
          flow = idle_flow old e ∙ ap (λ m. packets_of handled ++ map s.packets (pkts m)) n;
          table = inv.table;
        })

  handled-Inv :
      (now n : ℕ) (table : List TnsSession)
      → s.processor ≡ handling n
      → process_packet json malloc s.g_sess_arry (now, s.packets n) ≡ some table
      → Inv links doc json malloc start queued
          (handled ++ (now, s.packets n) ∷ [])
          lost
          (record s { g_sess_arry = table; processor = returning n })
  handled-Inv now n table e f = record {
    owned = inv.owned;
    nodes = inv.nodes;
    holds = inv.holds;
    live = inv.live;
    used = λ x. omega (arith, inv.used x, ap (at_processor x) e);
    flow =
        inv.flow
        ∙ ap (λ pc. packets_of handled ++ (in_hand s.packets pc ++ map s.packets (pkts inv.nodes)))
            e
        ∙ sym
            (append_assoc (packets_of handled) (s.packets n ∷ []) (map s.packets (pkts inv.nodes)))
        ∙ ap (λ l. l ++ map s.packets (pkts inv.nodes))
            (sym (map-append _ handled ((now, s.packets n) ∷ [])));
    table =
        process_all-snoc json malloc start s.g_sess_arry handled (now, s.packets n) inv.table ∙ f;
  }

  returned-Inv :
      (n : ℕ)
      → s.processor ≡ returning n
      → Inv links doc json malloc start queued handled lost
          (record s { pool = (mem_pool_put links (some n) s.pool).1; processor = taking (some n) })
  returned-Inv n e =
      let (pool, put, kept, free, counts) =
        mem_pool_put-cases links doc max_pktpool_size n s.pool inv.owned in_use in
      rw put (record {
        owned = kept;
        nodes = inv.nodes;
        holds = inv.holds;
        live = inv.live;
        used = λ x. omega (arith, counts x, inv.used x, ap (at_processor x) e);
        flow =
            inv.flow
            ∙ ap
                (λ pc.
                  packets_of handled ++ (in_hand s.packets pc ++ map s.packets (pkts inv.nodes)))
                e;
        table = inv.table;
      })
    where
      in_use : count n (doc.items s.pool use_list) ≡ 1
      in_use =
          only_processor links doc json malloc start queued handled lost s n inv
            (ap (at_processor n) e ∙ rw (eqb_self n))

  nothing_handled :
      (s' : System links)
      → Inv links doc json malloc start queued handled lost s'
      → Inv links doc json malloc start queued (handled ++ []) lost s'
  nothing_handled s' =
      subst (λ h. Inv links doc json malloc start queued h lost s') (sym (append-nil handled))

  pub processor_turn-Inv :
      (now : ℕ) (pc : Processor) (s' : System links)
      → s.processor ≡ pc
      → processor_turn links json malloc malloc_node ip port now s pc ≡ some s'
      → Inv links doc json malloc start queued
          (handled ++ handled_at links json malloc malloc_node ip port now s pc)
          lost
          s'
  unfolding processor_turn
  processor_turn-Inv now (taking old) s' e ran =
      nothing_handled s' (taken-Inv inv.nodes old s' refl e ran)
  processor_turn-Inv now (handling n) s' e ran =
      elim (Option-cases (process_packet json malloc s.g_sess_arry (now, s.packets n))) [
        | inl f ↦ absurd (cc (rw f at ran))
        | inr (table, f) ↦
            subst (Inv links doc json malloc start queued (handled ++ (now, s.packets n) ∷ []) lost)
              (eq_of_some (rw f at ran)) (handled-Inv now n table e f)
      ]
  processor_turn-Inv now (returning n) s' e ran = nothing_handled s' (
      subst (Inv links doc json malloc start queued handled lost) (eq_of_some ran)
        (returned-Inv n e))
