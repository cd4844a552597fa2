-- ===== src/ListQueue/Calls.antt =====
-- What each call does to a queue whose nodes form a chain.
use tnsparser.Base.{
  ℕ, zero, suc, ◌≤◌, ◌≡◌, refl, eqb_self, sym, ◌∙◌, Bool, true, false, Option, none, some, All, ◌⊎◌,
  inl, inr, [], ◌∷◌, ◌++◌, arith, length, length-append, if◌then◌else◌,
}
use tnsparser.ListQueue.{
  Store, Reply, done, failed, empty, waiting, packet, link_last, append_node, list_queue_put,
  flush_loop, list_queue_flush, take_first, list_queue_get, last_after,
}
use tnsparser.ListQueue.Memory.{
  Heap, lookup, update, free, lookup-update_self, lookup-free, lookup-free_ne,
}
use tnsparser.ListQueue.Chain.{
  Nodes, link, last_link, Chain, Apart, Distinct, Chain-update, Chain-free, fresh-Apart,
  Distinct-snoc, Chain-snoc,
}

-- The queue holds the nodes, in order, and nothing else is between `first` and `last`.
pub record Holds (s : Store) (l : Nodes) : Type 0 where
  pub first : s.q.first ≡ link l
  pub last : s.q.last ≡ last_link l
  pub num : s.q.num ≡ length l
  pub chain : Chain s.heap l
  pub distinct : Distinct l

last_link-snoc : (l : Nodes) (a x : ℕ) → last_link (l ++ (a, x) ∷ []) ≡ some a
last_link-snoc [] a x = refl
last_link-snoc (n ∷ []) a x = refl
last_link-snoc (n ∷ m ∷ l) a x = last_link-snoc (m ∷ l) a x

last_link-cons : (n : ℕ × ℕ) (l : Nodes) → (z : ℕ) × (last_link (n ∷ l) ≡ some z)
last_link-cons n [] = (_, refl)
last_link-cons n (m ∷ l) = last_link-cons m l

-- Putting a packet with a fresh node appends it.
pub list_queue_put-Holds :
    (s : Store) (l : Nodes) (pkt ml : ℕ)
    → Holds s l
    → s.q.abort_request ≡ false
    → lookup s.heap ml ≡ none
    → (s' : Store) × (list_queue_put s pkt (some ml) ≡ some (done, s'))
      × Holds s' (l ++ (ml, pkt) ∷ [])
      × (s'.q.abort_request ≡ false)
unfolding list_queue_put append_node link_last
list_queue_put-Holds s [] pkt ml h live fresh =
    rw (live, h.last)
      (
        _,
        refl,
        record {
          first = refl;
          last = refl;
          num = omega (arith, h.num);
          chain = (lookup-update_self s.heap ml _, tt);
          distinct = (tt, tt);
        },
        live,
      )
list_queue_put-Holds s (n ∷ l) pkt ml h live fresh =
    let (z, e) = last_link-cons n l in
    let (y, at_last, chained) =
      Chain-snoc (update s.heap ml (record { pkt = pkt; next = none })) n l z ml pkt e
        (fresh-Apart s.heap ml (n ∷ l) fresh h.chain) h.distinct
        (Chain-update s.heap ml _ (n ∷ l) (fresh-Apart s.heap ml (n ∷ l) fresh h.chain) h.chain)
        (lookup-update_self s.heap ml _) in
    rw (live, h.last ∙ e, at_last)
      (
        _,
        refl,
        record {
          first = h.first;
          last = sym (last_link-snoc (n ∷ l) ml pkt);
          num = omega (arith, h.num, length-append {0} l ((ml, pkt) ∷ []));
          chain = chained;
          distinct =
              Distinct-snoc (n ∷ l) ml pkt (fresh-Apart s.heap ml (n ∷ l) fresh h.chain) h.distinct;
        },
        live,
      )

-- Taking a packet frees its node and leaves the others in order.
pub list_queue_get-Holds :
    (s : Store) (l : Nodes) (a x : ℕ) (block : Bool)
    → Holds s ((a, x) ∷ l)
    → s.q.abort_request ≡ false
    → (s' : Store) × (list_queue_get s block ≡ some (packet x, s'))
      × Holds s' l
      × (s'.q.abort_request ≡ false)
      × (lookup s'.heap a ≡ none)
unfolding list_queue_get take_first last_after
list_queue_get-Holds s l a x block h live =
    rw (live, h.first, h.chain.0)
      (
        _,
        refl,
        record {
          first = refl;
          last = last_after-link l h.last;
          num = omega (arith, h.num);
          chain = Chain-free s.heap a l h.distinct.0 h.chain.1;
          distinct = h.distinct.1;
        },
        live,
        rw (lookup-free s.heap a a, eqb_self a),
      )
  where
    last_after-link :
        (r : Nodes) → s.q.last ≡ last_link ((a, x) ∷ r) → last_after (link r) s.q.last ≡ last_link r
    last_after-link [] e = refl
    last_after-link (m ∷ r) e = e

-- A put on an aborted queue, or without memory, fails and changes nothing.
pub list_queue_put-failed :
    (s : Store) (pkt : ℕ) (malloc : Option ℕ)
    → (s.q.abort_request ≡ true) ⊎ (malloc ≡ none)
    → list_queue_put s pkt malloc ≡ some (failed, s)
unfolding list_queue_put
list_queue_put-failed s pkt malloc (inl e) = rw e
list_queue_put-failed s pkt malloc (inr e) = rw e (both_failed s.q.abort_request)
  where
    both_failed :
        (b : Bool)
        → ◌≡◌ {A = Option (Reply × Store)}
            (if b then some (failed, s) else some (failed, s))
            (some (failed, s))
    both_failed true = refl
    both_failed false = refl

pub list_queue_get-aborted :
    (s : Store) (block : Bool)
    → s.q.abort_request ≡ true
    → list_queue_get s block ≡ some (failed, s)
unfolding list_queue_get
list_queue_get-aborted s block e = rw e

pub list_queue_get-empty :
    (s : Store) (block : Bool)
    → Holds s []
    → s.q.abort_request ≡ false
    → list_queue_get s block ≡ some (if block then waiting else empty, s)
unfolding list_queue_get
list_queue_get-empty s block h live = ground (arith, h.first)

free_all : Heap → Nodes → Heap
free_all h [] = h
free_all h ((a, x) ∷ l) = free_all (free h a) l

-- The loop of the flush frees every node, with a round for each.
flush_loop-Chain :
    (rounds : ℕ) (h : Heap) (l : Nodes)
    → length l ≤ rounds
    → Chain h l
    → Distinct l
    → flush_loop rounds h (link l) ≡ some (free_all h l)
unfolding flush_loop free_all
flush_loop-Chain zero h [] room c d = refl
flush_loop-Chain (suc rounds) h [] room c d = refl
flush_loop-Chain zero h ((a, x) ∷ l) room c d = absurd (omega arith)
flush_loop-Chain (suc rounds) h ((a, x) ∷ l) room (here, c) (apart, d) =
    rw here (flush_loop-Chain rounds (free h a) l (omega arith) (Chain-free h a l apart c) d)

free_all-none : (h : Heap) (k : ℕ) (l : Nodes) → lookup h k ≡ none → lookup (free_all h l) k ≡ none
unfolding free_all
free_all-none h k [] e = e
free_all-none h k ((a, x) ∷ l) e = free_all-none (free h a) k l (ground (arith, lookup-free h a k))

free_all-nodes : (h : Heap) (l : Nodes) → All (λ n. lookup (free_all h l) n.0 ≡ none) l
unfolding free_all
free_all-nodes h [] = tt
free_all-nodes h ((a, x) ∷ l) =
    (free_all-none (free h a) a l (rw (lookup-free h a a, eqb_self a)), free_all-nodes (free h a) l)

free_all-Apart : (h : Heap) (k : ℕ) (l : Nodes) → Apart k l → lookup (free_all h l) k ≡ lookup h k
unfolding free_all
free_all-Apart h k [] apart = refl
free_all-Apart h k ((a, x) ∷ l) (ne, apart) =
    free_all-Apart (free h a) k l apart ∙ lookup-free_ne h a k (λ e. ne (sym e))

-- Flushing, with a round for each node, empties the queue, frees all of its nodes and no other, and
-- leaves the abort flag.
pub list_queue_flush-Holds :
    (rounds : ℕ) (s : Store) (l : Nodes)
    → Holds s l
    → length l ≤ rounds
    → (s' : Store) × (list_queue_flush rounds s ≡ some s')
      × Holds s' []
      × (s'.q.abort_request ≡ s.q.abort_request)
      × All (λ n. lookup s'.heap n.0 ≡ none) l
      × ((k : ℕ) → Apart k l → lookup s'.heap k ≡ lookup s.heap k)
unfolding list_queue_flush
list_queue_flush-Holds rounds s l h room =
    rw (h.first, flush_loop-Chain rounds s.heap l room h.chain h.distinct)
      (
        _,
        refl,
        record { first = refl; last = refl; num = refl; chain = tt; distinct = tt },
        refl,
        free_all-nodes s.heap l,
        λ k apart. free_all-Apart s.heap k l apart,
      )
