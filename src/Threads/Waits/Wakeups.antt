-- ===== src/Threads/Waits/Wakeups.antt =====
-- No wakeup is lost: what the threads do with their waits is what their turns do, and they do not
-- both sleep for ever.
use tnsparser.Base.{
  ◌++◌, ◌*◌, ◌-◌, ◌≤◌, length, ℕ, ◌≡◌, ◌≢◌, refl, sym, ap, subst, ◌∙◌, Bool, Option, none, some,
  List, [], arith, Returns,
}
use tnsparser.Session.{TnsSession, sess_init}
use tnsparser.Tns.Handlers.{CJson}
use tnsparser.Network.{Packet}
use tnsparser.ListQueue.Memory.{Heap, lookup}
use tnsparser.ListQueue.Calls.{list_queue_put-Holds}
use tnsparser.Pool.{Links, Documented, count}
use tnsparser.Threads.{System, Receiver, getting, receiving, putting, Turn, recv, proc, boot, run}
use tnsparser.Threads.Trace.{Reach, here, next, lost_by, lost_at}
use tnsparser.Threads.Invariant.{Inv, packets_of}
use tnsparser.Threads.Reached.{Reach-Inv, Reach-waiting}
use tnsparser.Threads.Rank.{procs}
use tnsparser.Threads.Liveness.{Reach-live}
use tnsparser.Threads.Waits.{Waits, blocked, Event, events, turns, awake}
use tnsparser.Threads.Waits.Steps.{PoolWait, QueueWait}
use tnsparser.Threads.Waits.Turns.{awake-Parked}
use tnsparser.Threads.Waits.Runs.{events-Parked}

module _ (links : Links) (doc : Documented links) (json : CJson) (malloc : ℕ → Bool)
    (malloc_node : ℕ → Heap → Option ℕ) (ip port : ℕ) where
  -- If the list functions do what list.h documents: whatever events there are, signalled and
  -- unsignalled wakeups among them, when they have results, the state is the one that the turns among
  -- them have without any waits; a blocked netrecv_thread stands at its mem_pool_get and no node is
  -- free; one that has been signalled and has not gone on stands there and a node is free; a blocked
  -- process_thread stands at its list_queue_get, which would wait.
  pub events-run :
      (s : System links) (es : List Event) (w : Waits links)
      → events links json malloc malloc_node ip port es (awake links s) ≡ some w
      → (run links json malloc malloc_node ip port (turns es) s ≡ some w.sys)
        × PoolWait links w.sys w.receiver_wait
        × QueueWait links w.sys w.processor_wait
  events-run s es w ran =
      let (same, parked) =
        events-Parked links doc json malloc malloc_node ip port es (awake links s) w
          (awake-Parked links s) ran in
      (same, parked.pool, parked.queue)

module _ (links : Links) (doc : Documented links) (json : CJson) (malloc : ℕ → Bool)
    (malloc_node : ℕ → Heap → Option ℕ)
    (fresh : (moment : ℕ) (h : Heap) (a : ℕ) → malloc_node moment h ≡ some a → lookup h a ≡ none)
    (ip port : ℕ) (mem : links.Mem) (heap : Heap) (packets : ℕ → Packet) (table : List TnsSession)
    (start : System links) (booted : boot links (some mem) heap packets table ≡ some start) where
  -- If malloc returns no allocated address and the list functions do what list.h documents: after
  -- any events, with the packets queued and handled so far, when more events have results, three
  -- turns of process_thread among them, asleep or awake, for each packet that is queued and not yet
  -- handled are enough to handle all of these: the packets handled in the end go on from those
  -- handled before, and they begin with all that had been queued, in their order.
  pub events-live :
      (es more : List Event) (queued : List Packet) (handled : List (ℕ × Packet)) (lost : List ℕ)
      (w w' : Waits links)
      → events links json malloc malloc_node ip port es (awake links start) ≡ some w
      → Reach links json malloc malloc_node ip port start queued handled lost w.sys
      → events links json malloc malloc_node ip port more w ≡ some w'
      → 3 * (length queued - length handled) ≤ procs (turns more)
      → (qs : List Packet) × (hs : List (ℕ × Packet)) × (rest : List Packet) × (lost' : List ℕ)
        × Reach links json malloc malloc_node ip port start
            (queued ++ qs)
            (handled ++ hs)
            lost'
            w'.sys
        × (packets_of (handled ++ hs) ≡ queued ++ rest)
  events-live es more queued handled lost w w' ran r ran_on enough =
      let (same, parked) =
        events-Parked links doc json malloc malloc_node ip port es (awake links start) w
          (awake-Parked links start) ran in
      let (same_on, parked_on) =
        events-Parked links doc json malloc malloc_node ip port more w w' parked ran_on in
      Reach-live links doc json malloc malloc_node fresh ip port mem heap packets table start booted
        (turns more) queued handled lost w.sys w'.sys r same_on enough

module _ (links : Links) (doc : Documented links) (json : CJson) (malloc : ℕ → Bool)
    (malloc_node : ℕ → Heap → Option ℕ)
    (fresh : (moment : ℕ) (h : Heap) (a : ℕ) → malloc_node moment h ≡ some a → lookup h a ≡ none)
    (allocates : (moment : ℕ) (h : Heap) → Returns (malloc_node moment h)) (ip port : ℕ)
    (mem : links.Mem) (heap : Heap) (packets : ℕ → Packet) (table : List TnsSession)
    (start : System links) (booted : boot links (some mem) heap packets table ≡ some start) where
  lost_at-none :
      (queued : List Packet) (handled : List (ℕ × Packet)) (lost : List ℕ) (s : System links)
      (moment : ℕ) (pc : Receiver)
      → Inv links doc json malloc (sess_init table) queued handled lost s
      → lost_at links json malloc malloc_node ip port moment s pc ≡ []
  lost_at-none queued handled lost s moment getting inv = refl
  lost_at-none queued handled lost s moment (receiving n) inv = refl
  lost_at-none queued handled lost s moment (putting n) inv =
      let (a, e) = allocates moment s.lqr.heap in
      let (q, called, holds, live) =
        list_queue_put-Holds s.lqr inv.nodes n a inv.holds inv.live (fresh moment s.lqr.heap a e) in
      rw (e, called) refl

  lost_by-none :
      (queued : List Packet) (handled : List (ℕ × Packet)) (lost : List ℕ) (s : System links)
      (t : Turn)
      → Inv links doc json malloc (sess_init table) queued handled lost s
      → lost_by links json malloc malloc_node ip port t s ≡ []
  lost_by-none queued handled lost s (recv bytes moment) inv =
      lost_at-none queued handled lost s moment s.receiver inv
  lost_by-none queued handled lost s (proc now) inv = refl

  -- A malloc that has memory loses no node.
  Reach-lost :
      {queued : List Packet} {handled : List (ℕ × Packet)} {lost : List ℕ} {s : System links}
      → Reach links json malloc malloc_node ip port start queued handled lost s
      → lost ≡ []
  Reach-lost here = refl
  Reach-lost (next {queued} {handled} {lost} {s} {s'} t r ran) =
      rw
        (lost_by-none queued handled lost s t (
          Reach-Inv links doc json malloc malloc_node fresh ip port mem heap packets table start
            booted r))
        (Reach-lost r)

  -- If malloc always finds memory, and none that is allocated, and the list functions do what list.h
  -- documents: whatever events there are, the two threads are never both blocked.
  pub events-awake :
      (es : List Event) (w : Waits links)
      → events links json malloc malloc_node ip port es (awake links start) ≡ some w
      → w.receiver_wait ≡ blocked
      → w.processor_wait ≢ blocked
  unfolding PoolWait QueueWait count
  events-awake es w ran e f =
      let (same, pool, queue) =
        events-run links doc json malloc malloc_node ip port start es w ran in
      let (at, no_node) = subst (PoolWait links w.sys) e pool in
      let (old, stands, waits) = subst (QueueWait links w.sys) f queue in
      let (q, h, rest, l, r, all_handled) =
        Reach-live links doc json malloc malloc_node fresh ip port mem heap packets table start
          booted (turns es) [] [] [] start w.sys here same (omega arith) in
      let all_lost =
        Reach-waiting links doc json malloc malloc_node fresh ip port mem heap packets table start
          booted q h l w.sys old w.sys.lqr 0 r at no_node stands waits (omega arith) in
      absurd (cc (sym all_lost ∙ ap (count 0) (Reach-lost r)))
