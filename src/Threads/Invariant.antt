-- ===== src/Threads/Invariant.antt =====
-- What holds of the two threads' state at all times.
use tnsparser.Base.{
  ℕ, ◌+◌, ◌≤◌, ◌≡◌, refl, ap, ◌∙◌, Bool, false, Option, none, some, List, [], ◌∷◌, ◌++◌, map, arith,
  ◌>>=◌, inl, inr, eqb_self, Option-cases, ne→eqb, ◌≢◌,
}
use tnsparser.Session.{TnsSession}
use tnsparser.Tns.Handlers.{CJson}
use tnsparser.Network.{Packet}
use tnsparser.ListQueue.Chain.{Nodes, pkts}
use tnsparser.ListQueue.Calls.{Holds}
use tnsparser.Pool.{Links, Documented, use_list, count}
use tnsparser.Pool.Counts.{one, share}
use tnsparser.Pool.Owned.{Owned}
use tnsparser.Process.{process_packet, process_all}
use tnsparser.Threads.{
  System, Receiver, getting, receiving, putting, Processor, taking, handling, returning,
  max_pktpool_size, write_packet,
}

-- Whether a thread has the node.
abbrev pub at_receiver : ℕ → Receiver → ℕ
at_receiver n getting = 0
at_receiver n (receiving k) = one n k
at_receiver n (putting k) = one n k

abbrev pub at_processor : ℕ → Processor → ℕ
at_processor n (taking old) = 0
at_processor n (handling k) = one n k
at_processor n (returning k) = one n k

-- The packet that is taken and not yet handled.
abbrev pub in_hand : (ℕ → Packet) → Processor → List Packet
in_hand packets (taking old) = []
in_hand packets (handling n) = packets n ∷ []
in_hand packets (returning n) = []

abbrev pub packets_of : List (ℕ × Packet) → List Packet
packets_of handled = map (λ r. r.1) handled

pub count-append : (n : ℕ) (xs ys : List ℕ) → count n (xs ++ ys) ≡ count n xs + count n ys
unfolding count
count-append n [] ys = omega arith
count-append n (x ∷ xs) ys = omega (arith, count-append n xs ys)

not_first : (x : ℕ) (l : List ℕ) (n : ℕ) → count n (x ∷ l) ≡ 0 → x ≢ n
unfolding count
not_first x l n e same = omega (arith, rw (same, eqb_self n) at e)

-- A write to a node that is not in a list leaves the list's packets.
pub map-write_packet :
    (packets : ℕ → Packet) (n : ℕ) (p : Packet) (l : List ℕ)
    → count n l ≡ 0
    → map (write_packet packets n p) l ≡ map packets l
unfolding count
map-write_packet packets n p [] e = refl
map-write_packet packets n p (x ∷ l) e =
    rw (ne→eqb x n (not_first x l n e), map-write_packet packets n p l (omega (arith, e)))

>>=-some {ℓ} : {A : Type ℓ} (m : Option A) → (m >>= λ a. some a) ≡ m
>>=-some none = refl
>>=-some (some a) = refl

process_all-append :
    (json : CJson) (malloc : ℕ → Bool) (start : List TnsSession) (h : List (ℕ × Packet))
    (x : ℕ × Packet)
    → process_all json malloc start (h ++ x ∷ [])
      ≡ (process_all json malloc start h >>= λ table. process_packet json malloc table x)
unfolding process_all
process_all-append json malloc start [] x = >>=-some (process_packet json malloc start x)
process_all-append json malloc start (y ∷ h) x =
    elim (Option-cases (process_packet json malloc start y)) [
      | inl e ↦ rw e
      | inr (table, e) ↦ rw e (process_all-append json malloc table h x)
    ]

pub process_all-snoc :
    (json : CJson) (malloc : ℕ → Bool) (start table : List TnsSession) (h : List (ℕ × Packet))
    (x : ℕ × Packet)
    → process_all json malloc start h ≡ some table
    → process_all json malloc start (h ++ x ∷ []) ≡ process_packet json malloc table x
process_all-snoc json malloc start table h x e =
    process_all-append json malloc start h x ∙ ap (λ m. m >>= λ t. process_packet json malloc t x) e

share-le : (num n : ℕ) → share num n ≤ 1
share-le num n = ground arith

module _ (links : Links) (doc : Documented links) (json : CJson) (malloc : ℕ → Bool)
    (start : List TnsSession) where
  -- Every node of the pool that is in use is queued, with one of the threads or lost, and only once;
  -- the packets that were queued are, in their order, the handled ones, the one in hand and those in
  -- the queue, and the table is what handling the handled ones one after the other makes of it.
  pub record Inv (queued : List Packet) (handled : List (ℕ × Packet)) (lost : List ℕ)
      (s : System links) : Type 0 where
    pub owned : Owned links doc max_pktpool_size s.pool
    pub nodes : Nodes
    pub holds : Holds s.lqr nodes
    pub live : s.lqr.q.abort_request ≡ false
    pub used :
        (n : ℕ)
        → count n (doc.items s.pool use_list)
          ≡ count n (pkts nodes)
            + at_receiver n s.receiver
            + at_processor n s.processor
            + count n lost
    pub flow :
        queued ≡ packets_of handled ++ (in_hand s.packets s.processor ++ map s.packets (pkts nodes))
    pub table : process_all json malloc start handled ≡ some s.g_sess_arry

  -- A node that a thread has is nowhere else.
  pub only_receiver :
      (queued : List Packet) (handled : List (ℕ × Packet)) (lost : List ℕ) (s : System links)
      (n : ℕ) (inv : Inv queued handled lost s)
      → at_receiver n s.receiver ≡ 1
      → (count n (pkts inv.nodes) ≡ 0) × (at_processor n s.processor ≡ 0) × (count n lost ≡ 0)
  only_receiver queued handled lost s n inv e =
      omega (arith, inv.owned n, inv.used n, share-le max_pktpool_size n)

  pub only_processor :
      (queued : List Packet) (handled : List (ℕ × Packet)) (lost : List ℕ) (s : System links)
      (n : ℕ) (inv : Inv queued handled lost s)
      → at_processor n s.processor ≡ 1
      → count n (doc.items s.pool use_list) ≡ 1
  only_processor queued handled lost s n inv e =
      omega (arith, inv.owned n, inv.used n, share-le max_pktpool_size n)

pub in_hand-write_packet :
    (packets : ℕ → Packet) (n : ℕ) (p : Packet) (pc : Processor)
    → at_processor n pc ≡ 0
    → in_hand (write_packet packets n p) pc ≡ in_hand packets pc
in_hand-write_packet packets n p (taking old) e = refl
in_hand-write_packet packets n p (handling k) e =
    rw (ne→eqb k n (λ same. omega (arith, rw (same, eqb_self n) at e)))
in_hand-write_packet packets n p (returning k) e = refl
