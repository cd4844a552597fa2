-- ===== src/Threads/Liveness.antt =====
-- Every packet that is queued is handled, if process_thread goes on taking turns.
use tnsparser.Base.{
  suc, drop, ap, sym, append_assoc, ℕ, ◌+◌, ◌-◌, ◌*◌, ◌≤◌, ◌≡◌, refl, subst, Bool, Option, none,
  some, List, [], ◌∷◌, ◌++◌, append-nil, arith, length, length-append, inl, inr, eq_of_some,
  Option-cases, Ensures,
}
use tnsparser.Session.{TnsSession, sess_init}
use tnsparser.Tns.Handlers.{CJson}
use tnsparser.Network.{Packet}
use tnsparser.ListQueue.Memory.{Heap, lookup}
use tnsparser.Pool.{Links, Documented}
use tnsparser.Threads.{System, Turn, recv, proc, turn, boot, run}
use tnsparser.Threads.Trace.{Reach, next, queued_by, handled_by, lost_by}
use tnsparser.Threads.Invariant.{packets_of}
use tnsparser.Threads.Reached.{Reach-Inv, Reach-sequential}
use tnsparser.Threads.Rank.{
  procs, rank, processor_turn-rank, receiver_turn-processor, rank_end, rank_start,
}

length-packets_of : (handled : List (ℕ × Packet)) → length (packets_of handled) ≡ length handled
length-packets_of [] = refl
length-packets_of (r ∷ handled) = ap suc (length-packets_of handled)

-- Of two beginnings of a list the longer one begins with the shorter one.
prefix-longer {ℓ} :
    {A : Type ℓ} (short more long rest : List A)
    → short ++ more ≡ long ++ rest
    → length short ≤ length long
    → (middle : List A) × (long ≡ short ++ middle)
prefix-longer [] more long rest e le = (long, refl)
prefix-longer (x ∷ short) more [] rest e le = absurd (omega (arith, le))
prefix-longer (x ∷ short) more (y ∷ long) rest e le =
    let (middle, f) = prefix-longer short more long rest (ap (drop 1) e) (omega (arith, le)) in
    (middle, cc (e, f))

module _ (links : Links) (doc : Documented links) (json : CJson) (malloc : ℕ → Bool)
    (malloc_node : ℕ → Heap → Option ℕ)
    (fresh : (moment : ℕ) (h : Heap) (a : ℕ) → malloc_node moment h ≡ some a → lookup h a ≡ none)
    (ip port : ℕ) (mem : links.Mem) (heap : Heap) (packets : ℕ → Packet) (table : List TnsSession)
    (start : System links) (booted : boot links (some mem) heap packets table ≡ some start) where
  turn-rank :
      (queued : List Packet) (handled : List (ℕ × Packet)) (lost : List ℕ) (s s' : System links)
      (n : ℕ) (t : Turn)
      → Reach links json malloc malloc_node ip port start queued handled lost s
      → n ≤ length queued
      → turn links json malloc malloc_node ip port t s ≡ some s'
      → rank n
          (length (handled ++ handled_by links json malloc malloc_node ip port t s))
          s'.processor
        ≤ rank n (length handled) s.processor - procs (t ∷ [])
  unfolding turn
  turn-rank queued handled lost s s' n (recv bytes moment) r few ran =
      let same =
        subst (Ensures λ (t : System links). t.processor ≡ s.processor) ran (
          receiver_turn-processor links json malloc malloc_node ip port s bytes moment
            s.receiver) in
      rw (append-nil handled, same) (omega arith)
  turn-rank queued handled lost s s' n (proc now) r few ran =
      processor_turn-rank links doc json malloc malloc_node ip port queued handled lost
        (sess_init table) s
        (Reach-Inv links doc json malloc malloc_node fresh ip port mem heap packets table start
          booted r)
        n now s.processor s' few refl ran

  -- The trace goes on through the turns, and each one of process_thread brings the end nearer.
  Reach-run :
      (ts : List Turn) (queued : List Packet) (handled : List (ℕ × Packet)) (lost : List ℕ)
      (s s' : System links) (n : ℕ)
      → Reach links json malloc malloc_node ip port start queued handled lost s
      → n ≤ length queued
      → run links json malloc malloc_node ip port ts s ≡ some s'
      → (qs : List Packet) × (hs : List (ℕ × Packet)) × (lost' : List ℕ) × Reach links json malloc
          malloc_node ip port start
          (queued ++ qs)
          (handled ++ hs)
          lost'
          s'
        × (rank n (length (handled ++ hs)) s'.processor
            ≤ rank n (length handled) s.processor - procs ts)
  unfolding run
  Reach-run [] queued handled lost s s' n r few ran =
      let same = eq_of_some ran in
      (
        [],
        [],
        lost,
        rw (append-nil queued, append-nil handled)
            (subst (Reach links json malloc malloc_node ip port start queued handled lost) same r),
        rw (append-nil handled, ← same) (omega arith),
      )
  Reach-run (t ∷ ts) queued handled lost s s' n r few ran =
      elim (Option-cases (turn links json malloc malloc_node ip port t s)) [
        | inl e ↦ absurd (cc (rw e at ran))
        | inr (s₁, e) ↦
            let (q, h, l, r', nearer) =
              Reach-run ts (queued ++ queued_by links json malloc malloc_node ip port t s)
                (handled ++ handled_by links json malloc malloc_node ip port t s)
                (lost_by links json malloc malloc_node ip port t s ++ lost) s₁ s' n (next t r e)
                (omega (
                  arith,
                  few,
                  length-append queued (queued_by links json malloc malloc_node ip port t s),
                ))
                (rw e at ran) in
            (
              queued_by links json malloc malloc_node ip port t s ++ q,
              handled_by links json malloc malloc_node ip port t s ++ h,
              l,
              rw
                  (
                    sym (
                        append_assoc queued (queued_by links json malloc malloc_node ip port t s)
                          q),
                    sym (
                        append_assoc handled (handled_by links json malloc malloc_node ip port t s)
                          h),
                  )
                  r',
              rw
                  (sym
                    (append_assoc handled (handled_by links json malloc malloc_node ip port t s) h))
                  (omega (
                    arith,
                    nearer,
                    turn-rank queued handled lost s s₁ n t r few e,
                    procs-cons t ts,
                  )),
            )
      ]
    where
      procs-cons : (t : Turn) (ts : List Turn) → procs (t ∷ ts) ≡ procs (t ∷ []) + procs ts
      procs-cons (recv bytes moment) ts = omega arith
      procs-cons (proc now) ts = omega arith

  -- If malloc returns no allocated address and the list functions do what list.h documents: when
  -- the turns have results, three turns of process_thread for each packet that is queued and not
  -- yet handled are enough to handle all of these, in their order, whatever turns of netrecv_thread
  -- lie between them.
  pub Reach-live :
      (ts : List Turn) (queued : List Packet) (handled : List (ℕ × Packet)) (lost : List ℕ)
      (s s' : System links)
      → Reach links json malloc malloc_node ip port start queued handled lost s
      → run links json malloc malloc_node ip port ts s ≡ some s'
      → 3 * (length queued - length handled) ≤ procs ts
      → (qs : List Packet) × (hs : List (ℕ × Packet)) × (rest : List Packet) × (lost' : List ℕ)
        × Reach links json malloc malloc_node ip port start (queued ++ qs) (handled ++ hs) lost' s'
        × (packets_of (handled ++ hs) ≡ queued ++ rest)
  Reach-live ts queued handled lost s s' r ran enough =
      let (q, h, l, r', nearer) =
        Reach-run ts queued handled lost s s' (length queued) r (omega arith) ran in
      let all_handled : length queued ≤ length (handled ++ h) =
        rank_end (length queued) (length (handled ++ h)) s'.processor (
          omega (arith, nearer, rank_start (length queued) (length handled) s.processor, enough)) in
      let (waiting, in_order, ended) =
        Reach-sequential links doc json malloc malloc_node fresh ip port mem heap packets table
          start booted (queued ++ q) (handled ++ h) l s' r' in
      let (rest, front) =
        prefix-longer queued q (packets_of (handled ++ h)) waiting in_order
          (rw (length-packets_of (handled ++ h)) all_handled) in
      (q, h, rest, l, r', front)
