-- ===== src/Threads/Answers.antt =====
-- Which packets a turn of the two threads can fail on.
use tnsparser.Base.{
  ℕ, ◌≤◌, ◌≡◌, refl, sym, ◌∙◌, subst, Bool, Option, none, some, List, [], ◌∷◌, ◌++◌, arith, length,
  length-drop, drop, All, ◌⊎◌, inl, inr, Returns, map,
}
use tnsparser.Session.{TnsSession, sess_init, max_sess_node}
use tnsparser.Session.Init.{sess_init-replicate}
use tnsparser.Tns.Handlers.{CJson}
use tnsparser.Network.{Packet}
use tnsparser.ListQueue.Memory.{Heap, lookup}
use tnsparser.ListQueue.Chain.{pkts}
use tnsparser.Pool.{Links, Documented}
use tnsparser.Process.Size.{length-process_all}
use tnsparser.Process.Answer.{Risky, process_packet-Returns}
use tnsparser.Threads.{System, handling, Turn, recv, proc, turn, boot}
use tnsparser.Threads.Trace.{Reach}
use tnsparser.Threads.Invariant.{packets_of, in_hand}
use tnsparser.Threads.Reached.{Reach-Inv}
use tnsparser.Threads.Target.{Reach-Inbound, boot-getting}
use tnsparser.Threads.Progress.{Faults, Delivers, Reach-sizes, Reach-turn, SameSizes}

-- The payload starts behind headers of at most 134 bytes.
Near : Packet → Type 0
Near p = p.data_at ≤ 134

All-middle {ℓ κ} :
    {A : Type ℓ} (P : A → Type κ) (xs : List A) (x : A) (ys : List A) → All P (xs ++ x ∷ ys) → P x
All-middle P [] x ys h = h.0
All-middle P (y ∷ xs) x ys (p, h) = All-middle P xs x ys h

module _ (links : Links) (doc : Documented links) (json : CJson) (malloc : ℕ → Bool)
    (malloc_node : ℕ → Heap → Option ℕ)
    (fresh : (moment : ℕ) (h : Heap) (a : ℕ) → malloc_node moment h ≡ some a → lookup h a ≡ none)
    (ip port : ℕ) (mem : links.Mem) (heap : Heap) (packets : ℕ → Packet) (table : List TnsSession)
    (start : System links) (booted : boot links (some mem) heap packets table ≡ some start)
    (slots : length table ≡ max_sess_node)
    (sizes : (n : ℕ) → length (start.packets n).buf ≡ 1500) where
  handled-Near :
      (queued : List Packet) (handled : List (ℕ × Packet)) (lost : List ℕ) (s : System links)
      (n : ℕ)
      → Reach links json malloc malloc_node ip port start queued handled lost s
      → s.processor ≡ handling n
      → (s.packets n).data_at ≤ 134
  unfolding Near
  handled-Near queued handled lost s n r e =
      let inv =
        Reach-Inv links doc json malloc malloc_node fresh ip port mem heap packets table start
          booted r in
      let h =
        Reach-Inbound links json malloc malloc_node ip port Near (λ pkt p got. got.data_near)
          (boot-getting links mem heap packets table start booted) r in
      let flow =
        subst
          (λ pc.
            queued ≡ packets_of handled ++ (in_hand s.packets pc ++ map s.packets (pkts inv.nodes)))
          e inv.flow in
      All-middle Near (packets_of handled) (s.packets n) (map s.packets (pkts inv.nodes))
        (subst (All Near) flow h.all)

  table-slots :
      (queued : List Packet) (handled : List (ℕ × Packet)) (lost : List ℕ) (s : System links)
      → Reach links json malloc malloc_node ip port start queued handled lost s
      → length s.g_sess_arry ≡ max_sess_node
  table-slots queued handled lost s r =
      let inv =
        Reach-Inv links doc json malloc malloc_node fresh ip port mem heap packets table start
          booted r in
      length-process_all json malloc (sess_init table) handled s.g_sess_arry inv.table
      ∙ (rw (sess_init-replicate table slots) refl)

  -- In every state that is reached from main with buffers of 1500 bytes and a table of 32 slots, if
  -- malloc returns no allocated address and the list functions do what list.h documents: a turn of
  -- netrecv_thread has a result, whatever it receives, if that is no longer than the buffer, and a
  -- turn of process_thread has one unless the packet that it handles is a connect packet, or a data
  -- packet with no two zero bytes in a row in the buffer that lie eight bytes or more behind the
  -- packet's end.
  pub Reach-answers :
      (queued : List Packet) (handled : List (ℕ × Packet)) (lost : List ℕ) (s : System links)
      (t : Turn)
      → Reach links json malloc malloc_node ip port start queued handled lost s
      → Delivers links doc json malloc malloc_node fresh ip port mem heap packets table start booted
          t
      → Returns (turn links json malloc malloc_node ip port t s)
        ⊎ ((n : ℕ) × (s.processor ≡ handling n) × Risky (s.packets n))
  unfolding SameSizes
  Reach-answers queued handled lost s t r fits = answers t (
      Reach-turn links doc json malloc malloc_node fresh ip port mem heap packets table start booted
        queued handled lost s t r sizes fits)
    where
      answers :
          (t : Turn)
          → Returns (turn links json malloc malloc_node ip port t s)
            ⊎ Faults links doc json malloc malloc_node fresh ip port mem heap packets table start
                booted t s
          → Returns (turn links json malloc malloc_node ip port t s)
            ⊎ ((n : ℕ) × (s.processor ≡ handling n) × Risky (s.packets n))
      answers t (inl runs) = inl runs
      answers (recv bytes moment) (inr fails) = absurd fails
      answers (proc now) (inr (n, e, fails)) =
          elim (process_packet-Returns json malloc s.g_sess_arry now (s.packets n)
            (omega (arith, table-slots queued handled lost s r)) (payload n e)) [
              | inl (table', ran) ↦ absurd (cc (sym ran ∙ fails))
              | inr risky ↦ inr (n, e, risky)
            ]
        where
          payload :
              (n : ℕ)
              → s.processor ≡ handling n
              → 40 ≤ length (drop (s.packets n).data_at (s.packets n).buf)
          payload n e = omega (
            arith,
            length-drop (s.packets n).data_at (s.packets n).buf,
            handled-Near queued handled lost s n r e,
            Reach-sizes links json malloc malloc_node ip port r n ∙ sizes n,
          )
