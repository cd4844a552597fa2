-- ===== src/Threads/Progress.antt =====
-- No turn of the two threads runs into undefined behaviour, but for the handling of a packet.
use tnsparser.Base.{
  ℕ, ◌≤◌, ◌≡◌, refl, sym, ap, ◌∙◌, subst, Bool, true, Option, none, some, List, [], ◌∷◌, arith,
  length, ◌>>=◌, inl, inr, Option-cases, Bool-cases, ◌==◌, ◌⊎◌, Ensures, Ensures->>=, Returns,
  Returns->>=, eqb→eq,
}
use tnsparser.Session.{TnsSession, sess_init}
use tnsparser.Tns.Handlers.{CJson}
use tnsparser.Network.{Packet, eth_recv}
use tnsparser.Network.Directed.{Received, handed, ignored, eth_recv-Received}
use tnsparser.Network.Total.{eth_recv-Returns}
use tnsparser.ListQueue.{list_queue_put}
use tnsparser.ListQueue.Memory.{Heap, lookup}
use tnsparser.ListQueue.Chain.{Nodes}
use tnsparser.ListQueue.Calls.{
  Holds, list_queue_put-failed, list_queue_put-Holds, list_queue_get-empty, list_queue_get-Holds,
}
use tnsparser.Pool.{Links, Documented, mem_pool_get}
use tnsparser.Process.{process_packet}
use tnsparser.Threads.{
  System, Receiver, getting, receiving, putting, Processor, taking, handling, returning, Turn, recv,
  proc, turn, boot, receiver_turn, processor_turn, after_get, after_recv, after_put, after_take,
}
use tnsparser.Threads.Trace.{Reach, here, next}
use tnsparser.Threads.Invariant.{Inv}
use tnsparser.Threads.Reached.{Reach-Inv}
use tnsparser.Threads.Untouched.{Untouched, processor_turn-Untouched}

module _ (links : Links) (json : CJson) (malloc : ℕ → Bool) (malloc_node : ℕ → Heap → Option ℕ)
    (ip port : ℕ) where
  -- The buffers keep their sizes.
  unfoldable pub SameSizes : System links → System links → Type 0
  SameSizes s s' = (n : ℕ) → length (s'.packets n).buf ≡ length (s.packets n).buf

  after_recv-sizes :
      (s : System links) (n : ℕ) (r : ℕ × Packet)
      → length r.1.buf ≡ length (s.packets n).buf
      → SameSizes s (after_recv links json malloc malloc_node ip port s n r)
  unfolding SameSizes after_recv
  after_recv-sizes s n (ret, pkt) e k = elim (Bool-cases (k == n)) [
    | inl same ↦ rw same (e ∙ ap (λ i. length (s.packets i).buf) (sym (eqb→eq k n same)))
    | inr other ↦ rw other
  ]

  Received-size :
      (pkt : Packet) (r : ℕ × Packet) → Received ip port pkt r → length r.1.buf ≡ length pkt.buf
  Received-size pkt r (handed z h) = h.same_size
  Received-size pkt r (ignored buf size same) = ap (λ x. length x.1.buf) same ∙ size

  after_get-sizes :
      (s : System links) (r : Option ℕ × links.Mem)
      → SameSizes s (after_get links json malloc malloc_node ip port s r)
  unfolding SameSizes after_get
  after_get-sizes s (none, pool) n = refl
  after_get-sizes s (some k, pool) n = refl

  receiver_turn-sizes :
      (s : System links) (bytes : Option (List ℕ)) (moment : ℕ) (pc : Receiver)
      → Ensures
          (SameSizes s)
          (receiver_turn links json malloc malloc_node ip port bytes moment s pc)
  unfolding receiver_turn SameSizes after_put
  receiver_turn-sizes s bytes moment getting = after_get-sizes s (mem_pool_get links s.pool)
  receiver_turn-sizes s bytes moment (receiving n) =
      received (eth_recv ip port bytes (s.packets n))
        (eth_recv-Received ip port bytes (s.packets n))
    where
      received :
          (m : Option (ℕ × Packet))
          → Ensures (Received ip port (s.packets n)) m
          → Ensures
              (SameSizes s)
              (m >>= λ r. some (after_recv links json malloc malloc_node ip port s n r))
      received none h = tt
      received (some r) h = after_recv-sizes s n r (Received-size (s.packets n) r h)
  receiver_turn-sizes s bytes moment (putting n) =
      Ensures->>= (SameSizes s) (list_queue_put s.lqr n (malloc_node moment s.lqr.heap)) _
        λ r k. refl

  turn-sizes :
      (s s' : System links) (t : Turn)
      → turn links json malloc malloc_node ip port t s ≡ some s'
      → SameSizes s s'
  unfolding turn SameSizes Untouched
  turn-sizes s s' (recv bytes moment) ran n =
      subst (Ensures (SameSizes s)) ran (receiver_turn-sizes s bytes moment s.receiver) n
  turn-sizes s s' (proc now) ran n =
      let (pc, same) =
        subst (Ensures (Untouched links json malloc malloc_node ip port s)) ran
          (processor_turn-Untouched links json malloc malloc_node ip port s now s.processor) in
      ap (λ f. length (f n).buf) same

  pub Reach-sizes :
      {start : System links} {queued : List Packet} {handled : List (ℕ × Packet)} {lost : List ℕ}
      {s : System links}
      → Reach links json malloc malloc_node ip port start queued handled lost s
      → SameSizes start s
  unfolding SameSizes
  Reach-sizes here n = refl
  Reach-sizes (next {queued} {handled} {lost} {s} {s'} t r ran) n =
      turn-sizes s s' t ran n ∙ Reach-sizes r n

-- What recvfrom delivers is no longer than the buffer.
abbrev pub Fits : Option (List ℕ) → ℕ → Type 0
Fits none size = Unit {0}
Fits (some bytes) size = length bytes ≤ size

module _ (links : Links) (doc : Documented links) (json : CJson) (malloc : ℕ → Bool)
    (malloc_node : ℕ → Heap → Option ℕ)
    (fresh : (moment : ℕ) (h : Heap) (a : ℕ) → malloc_node moment h ≡ some a → lookup h a ≡ none)
    (ip port : ℕ) (queued : List Packet) (handled : List (ℕ × Packet)) (lost : List ℕ)
    (start : List TnsSession) (s : System links)
    (inv : Inv links doc json malloc start queued handled lost s) where
  eth_recv-any :
      (bytes : Option (List ℕ)) (pkt : Packet)
      → 87 ≤ length pkt.buf
      → Fits bytes (length pkt.buf)
      → Returns (eth_recv ip port bytes pkt)
  unfolding eth_recv
  eth_recv-any none pkt room fits = (_, refl)
  eth_recv-any (some bytes) pkt room fits =
      let (r, e, h) = eth_recv-Returns ip port bytes pkt room fits in (r, e)

  put-Returns :
      (n moment : ℕ) (m : Option ℕ)
      → malloc_node moment s.lqr.heap ≡ m
      → Returns (list_queue_put s.lqr n m)
  put-Returns n moment none e = (_, list_queue_put-failed s.lqr n none (inr refl))
  put-Returns n moment (some a) e =
      let (q, called, after, live) =
        list_queue_put-Holds s.lqr inv.nodes n a inv.holds inv.live (fresh moment s.lqr.heap a e) in
      (_, called)

  receiver_turn-Returns :
      (bytes : Option (List ℕ)) (moment : ℕ) (pc : Receiver)
      → ((n : ℕ) → 87 ≤ length (s.packets n).buf)
      → ((n : ℕ) → Fits bytes (length (s.packets n).buf))
      → Returns (receiver_turn links json malloc malloc_node ip port bytes moment s pc)
  unfolding receiver_turn
  receiver_turn-Returns bytes moment getting room fits = (_, refl)
  receiver_turn-Returns bytes moment (receiving n) room fits =
      Returns->>= (eth_recv ip port bytes (s.packets n)) _
        (eth_recv-any bytes (s.packets n) (room n) (fits n)) λ r _. (_, refl)
  receiver_turn-Returns bytes moment (putting n) room fits =
      Returns->>= (list_queue_put s.lqr n (malloc_node moment s.lqr.heap)) _
        (put-Returns n moment (malloc_node moment s.lqr.heap) refl) λ r _. (_, refl)

  -- From the queue process_thread gets a packet, or it waits; never a failure.
  take-Returns :
      (old : Option ℕ) (l : Nodes)
      → Holds s.lqr l
      → Returns (processor_turn links json malloc malloc_node ip port 0 s (taking old))
  unfolding processor_turn after_take
  take-Returns old [] holds = rw (list_queue_get-empty s.lqr true holds inv.live) (_, refl)
  take-Returns old ((a, x) ∷ l) holds =
      let (q, got, after, live, freed) = list_queue_get-Holds s.lqr l a x true holds inv.live in
      rw got (_, refl)

  pub processor_turn-Returns :
      (now : ℕ) (pc : Processor)
      → Returns (processor_turn links json malloc malloc_node ip port now s pc)
        ⊎ ((n : ℕ) × (pc ≡ handling n)
            × (process_packet json malloc s.g_sess_arry (now, s.packets n) ≡ none))
  unfolding processor_turn
  processor_turn-Returns now (taking old) = inl (take-Returns old inv.nodes inv.holds)
  processor_turn-Returns now (handling n) =
      elim (Option-cases (process_packet json malloc s.g_sess_arry (now, s.packets n))) [
        | inl e ↦ inr (n, refl, e)
        | inr (table, e) ↦ rw e (inl (_, refl))
      ]
  processor_turn-Returns now (returning n) = inl (_, refl)

module _ (links : Links) (doc : Documented links) (json : CJson) (malloc : ℕ → Bool)
    (malloc_node : ℕ → Heap → Option ℕ)
    (fresh : (moment : ℕ) (h : Heap) (a : ℕ) → malloc_node moment h ≡ some a → lookup h a ≡ none)
    (ip port : ℕ) (mem : links.Mem) (heap : Heap) (packets : ℕ → Packet) (table : List TnsSession)
    (start : System links) (booted : boot links (some mem) heap packets table ≡ some start) where
  -- The only way in which a turn can fail: process_thread runs into undefined behaviour in the
  -- handling of the packet that it has.
  abbrev pub Faults : Turn → System links → Type 0
  Faults (recv bytes moment) s = ⊥
  Faults (proc now) s =
      (n : ℕ) × (s.processor ≡ handling n)
      × (process_packet json malloc s.g_sess_arry (now, s.packets n) ≡ none)

  abbrev pub Delivers : Turn → Type 0
  Delivers (recv bytes moment) = Fits bytes 1500
  Delivers (proc now) = Unit {0}

  -- In every state that is reached from main with buffers of 1500 bytes, if malloc returns no
  -- allocated address and the list functions do what list.h documents: a turn of netrecv_thread
  -- has a result, whatever it receives, if that is no longer than the buffer, and a turn of
  -- process_thread has one unless the handling of its packet runs into undefined behaviour.
  pub Reach-turn :
      (queued : List Packet) (handled : List (ℕ × Packet)) (lost : List ℕ) (s : System links)
      (t : Turn)
      → Reach links json malloc malloc_node ip port start queued handled lost s
      → ((n : ℕ) → length (start.packets n).buf ≡ 1500)
      → Delivers t
      → Returns (turn links json malloc malloc_node ip port t s) ⊎ Faults t s
  unfolding turn SameSizes
  Reach-turn queued handled lost s (recv bytes moment) r sizes fits =
      let inv =
        Reach-Inv links doc json malloc malloc_node fresh ip port mem heap packets table start
          booted r in
      inl (
        receiver_turn-Returns links doc json malloc malloc_node fresh ip port queued handled lost
          (sess_init table) s inv bytes moment s.receiver (λ n. omega (arith, size n))
          (λ n. subst (Fits bytes) (sym (size n)) fits))
    where
      size : (n : ℕ) → length (s.packets n).buf ≡ 1500
      size n = Reach-sizes links json malloc malloc_node ip port r n ∙ sizes n
  Reach-turn queued handled lost s (proc now) r sizes fits =
      processor_turn-Returns links doc json malloc malloc_node fresh ip port queued handled lost
        (sess_init table) s
        (Reach-Inv links doc json malloc malloc_node fresh ip port mem heap packets table start
          booted r)
        now s.processor
