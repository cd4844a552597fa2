-- ===== src/Threads/Rank.antt =====
-- How far the queued packets are from being handled, and what a turn changes of it.
use tnsparser.Base.{
  ℕ, ◌+◌, ◌-◌, ◌*◌, ◌≤◌, ◌≡◌, refl, sym, ap, subst, Bool, true, Option, none, some, List, [], ◌∷◌,
  ◌++◌, append-nil, map, arith, length, length-append, inl, inr, eq_of_some, Option-cases, leb,
  if◌then◌else◌, Ensures, Ensures->>=,
}
use tnsparser.Session.{TnsSession}
use tnsparser.Tns.Handlers.{CJson}
use tnsparser.Network.{Packet, eth_recv}
use tnsparser.ListQueue.{list_queue_put}
use tnsparser.ListQueue.Memory.{Heap}
use tnsparser.ListQueue.Chain.{Nodes, pkts}
use tnsparser.ListQueue.Calls.{Holds, list_queue_get-Holds}
use tnsparser.Pool.{Links, Documented, mem_pool_get}
use tnsparser.Process.{process_packet}
use tnsparser.Threads.{
  System, Receiver, getting, receiving, putting, Processor, taking, handling, returning, Turn, recv,
  proc, receiver_turn, processor_turn, after_get, after_recv, after_put, after_take,
}
use tnsparser.Threads.Trace.{handled_at}
use tnsparser.Threads.Invariant.{Inv, in_hand, packets_of}

abbrev pub procs : List Turn → ℕ
procs [] = 0
procs (recv bytes moment ∷ ts) = procs ts
procs (proc now ∷ ts) = procs ts + 1

-- How many turns of process_thread it takes until `n` packets are handled, if `h` are.
abbrev pub spent : Processor → ℕ
spent (taking old) = 1
spent (handling k) = 2
spent (returning k) = 0

pub rank : ℕ → ℕ → Processor → ℕ
rank n h pc = if leb n h then 0 else 3 * (n - h) - spent pc

length-map {ℓ κ} : {A : Type ℓ} {B : Type κ} (f : A → B) (l : List A) → length (map f l) ≡ length l
length-map f [] = refl
length-map f (x ∷ l) = ap (λ n. ℕ.suc n) (length-map f l)

module _ (links : Links) (doc : Documented links) (json : CJson) (malloc : ℕ → Bool)
    (malloc_node : ℕ → Heap → Option ℕ) (ip port : ℕ) (queued : List Packet)
    (handled : List (ℕ × Packet)) (lost : List ℕ) (start : List TnsSession) (s : System links)
    (inv : Inv links doc json malloc start queued handled lost s) where
  length-queued :
      length queued ≡ length handled + length (in_hand s.packets s.processor) + length inv.nodes
  length-queued = omega (
    arith,
    ap length inv.flow,
    length-append (packets_of handled)
        (in_hand s.packets s.processor ++ map s.packets (pkts inv.nodes)),
    length-append (in_hand s.packets s.processor) (map s.packets (pkts inv.nodes)),
    length-map (λ (r : ℕ × Packet). r.1) handled,
    length-map s.packets (pkts inv.nodes),
    length-map (λ (a : ℕ × ℕ). a.1) inv.nodes,
  )

  pub processor_turn-rank :
      (n now : ℕ) (pc : Processor) (s' : System links)
      → n ≤ length queued
      → s.processor ≡ pc
      → processor_turn links json malloc malloc_node ip port now s pc ≡ some s'
      → rank n
          (length (handled ++ handled_at links json malloc malloc_node ip port now s pc))
          s'.processor
        ≤ rank n (length handled) pc - 1
  unfolding processor_turn rank after_take
  processor_turn-rank n now (taking old) s' few e ran = taken inv.nodes refl
    where
      same_length : length (handled ++ []) ≡ length handled
      same_length = ap (λ l. length l) (append-nil handled)

      taken :
          (l : Nodes)
          → inv.nodes ≡ l
          → rank n (length (handled ++ [])) s'.processor ≤ rank n (length handled) (taking old) - 1
      taken [] f =
          let few_handled : n ≤ length handled = omega (
            arith,
            length-queued,
            few,
            ap (λ m. length m) f,
            ap (λ pc. length (in_hand s.packets pc)) e,
          ) in
          rw same_length (ground arith)
      taken ((a, x) ∷ l) f =
          let (q, got, after, live, freed) =
            list_queue_get-Holds s.lqr l a x true (subst (Holds s.lqr) f inv.holds) inv.live in
          let next_pc : s'.processor ≡ handling x =
            sym (ap (λ t. t.processor) (eq_of_some (rw got at ran))) in
          rw (next_pc, same_length) (ground arith)
  processor_turn-rank n now (handling k) s' few e ran =
      elim (Option-cases (process_packet json malloc s.g_sess_arry (now, s.packets k))) [
        | inl f ↦ absurd (cc (rw f at ran))
        | inr (table, f) ↦
            let after : s'.processor ≡ returning k =
              sym (ap (λ t. t.processor) (eq_of_some (rw f at ran))) in
            rw (after, length-append handled ((now, s.packets k) ∷ [])) (ground arith)
      ]
  processor_turn-rank n now (returning k) s' few e ran =
      let after : s'.processor ≡ taking (some k) = sym (ap (λ t. t.processor) (eq_of_some ran)) in
      rw (after, append-nil handled) (ground arith)

module _ (links : Links) (json : CJson) (malloc : ℕ → Bool) (malloc_node : ℕ → Heap → Option ℕ)
    (ip port : ℕ) where
  after_get-processor :
      (s : System links) (r : Option ℕ × links.Mem)
      → (after_get links json malloc malloc_node ip port s r).processor ≡ s.processor
  unfolding after_get
  after_get-processor s (none, pool) = refl
  after_get-processor s (some n, pool) = refl

  pub receiver_turn-processor :
      (s : System links) (bytes : Option (List ℕ)) (moment : ℕ) (pc : Receiver)
      → Ensures
          (λ (t : System links). t.processor ≡ s.processor)
          (receiver_turn links json malloc malloc_node ip port bytes moment s pc)
  unfolding receiver_turn after_recv after_put
  receiver_turn-processor s bytes moment getting = after_get-processor s (mem_pool_get links s.pool)
  receiver_turn-processor s bytes moment (receiving n) =
      Ensures->>= (λ (t : System links). t.processor ≡ s.processor)
        (eth_recv ip port bytes (s.packets n)) _ λ r. refl
  receiver_turn-processor s bytes moment (putting n) =
      Ensures->>= (λ (t : System links). t.processor ≡ s.processor)
        (list_queue_put s.lqr n (malloc_node moment s.lqr.heap)) _ λ r. refl

pub rank_end : (n h : ℕ) (pc : Processor) → rank n h pc ≤ 0 → n ≤ h
unfolding rank
rank_end n h (taking old) e = ground arith
rank_end n h (handling k) e = ground arith
rank_end n h (returning k) e = ground arith

pub rank_start : (n h : ℕ) (pc : Processor) → rank n h pc ≤ 3 * (n - h)
unfolding rank
rank_start n h pc = ground arith
