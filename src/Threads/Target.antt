-- ===== src/Threads/Target.antt =====
-- Which packets and sessions the threads ever see.
use tnsparser.Base.{
  ℕ, ◌≡◌, refl, sym, ap, ◌∙◌, subst, Bool, Option, none, some, List, [], ◌∷◌, ◌++◌, arith, length,
  replicate, inl, inr, eq_of_some, Option-cases, Bool-cases, eqb_self, ◌==◌, if◌then◌else◌, All,
  All-append, ◌⊎◌, Ensures, zero, suc, eqb→eq,
}
use tnsparser.Session.{
  TnsSession, SessKey, sess_key, sess_init, zero_key, zero_session, max_sess_node,
}
use tnsparser.Session.Init.{sess_init-replicate}
use tnsparser.Tns.Handlers.{CJson}
use tnsparser.Network.{Packet, result_push, eth_recv}
use tnsparser.Network.Directed.{IsTarget, Received, Handed, handed, ignored, eth_recv-Received}
use tnsparser.ListQueue.{Store, Reply, done, failed, empty, waiting, packet, list_queue_put}
use tnsparser.ListQueue.Memory.{Heap, lookup}
use tnsparser.Pool.{Links, Documented, mem_pool_get, mem_pool_create}
use tnsparser.Process.Keys.{keys, process_all-keys}
use tnsparser.Threads.{
  System, Receiver, getting, receiving, putting, Turn, recv, proc, turn, boot, receiver_turn,
  after_get, after_recv, after_put,
}
use tnsparser.Threads.Untouched.{Untouched, processor_turn-Untouched}
use tnsparser.Threads.Trace.{Reach, here, next, queued_by, queued_at, if_done}
use tnsparser.Threads.Invariant.{packets_of}
use tnsparser.Threads.Reached.{Reach-sequential}

-- Marked RESULT_PUSH, and of a connection with the target.
abbrev pub Targeted : ℕ → ℕ → Packet → Type 0
Targeted ip port p = (p.action ≡ result_push) × IsTarget ip port (sess_key p.key p.dir)

-- A session's key is as it was cleared, or names the target as the server.
abbrev pub IsOurs : ℕ → ℕ → SessKey → Type 0
IsOurs ip port k = (k ≡ zero_key) ⊎ IsTarget ip port k

All-if_done {ℓ κ} :
    {A : Type ℓ} (P : A → Type κ) (x : A) (m : Option (Reply × Store)) → P x → All P (if_done x m)
All-if_done P x none p = tt
All-if_done P x (some (done, q)) p = (p, tt)
All-if_done P x (some (failed, q)) p = tt
All-if_done P x (some (empty, q)) p = tt
All-if_done P x (some (waiting, q)) p = tt
All-if_done P x (some (packet n, q)) p = tt

All-front {ℓ κ} : {A : Type ℓ} (P : A → Type κ) (xs ys : List A) → All P (xs ++ ys) → All P xs
All-front P [] ys h = tt
All-front P (x ∷ xs) ys (p, h) = (p, All-front P xs ys h)

All-handled :
    (P : Packet → Type 0) (h : List (ℕ × Packet)) → All P (packets_of h) → All (λ r. P r.1) h
All-handled P [] a = tt
All-handled P (x ∷ h) (p, a) = (p, All-handled P h a)

zero_keys : (ip port n : ℕ) → All (IsOurs ip port) (keys (replicate n zero_session))
zero_keys ip port zero = tt
zero_keys ip port (suc n) = (inl refl, zero_keys ip port n)

put_next :
    (ret n k : ℕ) → (if ret == 0 then putting n else receiving n) ≡ putting k → (ret ≡ 0) × (k ≡ n)
put_next ret n k e = elim (Bool-cases (ret == 0)) [
  | inl zero_ret ↦ (eqb→eq ret 0 zero_ret, same_node (rw zero_ret at e))
  | inr other ↦ absurd (cc (rw other at e))
]
  where
    same_node : putting n ≡ putting k → k ≡ n
    same_node f = cc

module _ (links : Links) (json : CJson) (malloc : ℕ → Bool) (malloc_node : ℕ → Heap → Option ℕ)
    (ip port : ℕ) (P : Packet → Type 0)
    (given : (pkt p : Packet) → Handed ip port pkt p → P p) where
  -- What holds of every packet that eth_recv hands on holds of the queued ones.
  pub record Inbound (queued : List Packet) (s : System links) : Type 0 where
    pub all : All P queued
    pub next_put : (n : ℕ) → s.receiver ≡ putting n → P (s.packets n)

  after_get-Inbound :
      (queued : List Packet) (s : System links) (r : Option ℕ × links.Mem)
      → Inbound queued s
      → Inbound (queued ++ []) (after_get links json malloc malloc_node ip port s r)
  unfolding after_get
  after_get-Inbound queued s (none, pool) h = record {
    all = All-append P queued [] h.all tt;
    next_put = h.next_put;
  }
  after_get-Inbound queued s (some k, pool) h = record {
    all = All-append P queued [] h.all tt;
    next_put = λ n e. absurd (cc e);
  }

  after_recv-Inbound :
      (queued : List Packet) (s : System links) (n : ℕ) (r : ℕ × Packet)
      → Inbound queued s
      → Received ip port (s.packets n) r
      → Inbound (queued ++ []) (after_recv links json malloc malloc_node ip port s n r)
  unfolding after_recv
  after_recv-Inbound queued s n (ret, pkt) h (handed zero_ret got) = record {
    all = All-append P queued [] h.all tt;
    next_put = λ k e.
        let (z, same) = put_next ret n k e in rw (same, eqb_self n) (given (s.packets n) pkt got);
  }
  after_recv-Inbound queued s n (ret, pkt) h (ignored buf size same) = record {
    all = All-append P queued [] h.all tt;
    next_put = λ k e.
        let (z, same_node) = put_next ret n k e in absurd (omega (arith, z, ap (λ r. r.0) same));
  }

  receiver_turn-Inbound :
      (queued : List Packet) (s s' : System links) (bytes : Option (List ℕ)) (moment : ℕ)
      (pc : Receiver)
      → Inbound queued s
      → s.receiver ≡ pc
      → receiver_turn links json malloc malloc_node ip port bytes moment s pc ≡ some s'
      → Inbound (queued ++ queued_at links json malloc malloc_node ip port moment s pc) s'
  unfolding receiver_turn after_put
  receiver_turn-Inbound queued s s' bytes moment getting h e ran =
      subst (Inbound (queued ++ [])) (eq_of_some ran)
        (after_get-Inbound queued s (mem_pool_get links s.pool) h)
  receiver_turn-Inbound queued s s' bytes moment (receiving n) h e ran =
      elim (Option-cases (eth_recv ip port bytes (s.packets n))) [
        | inl f ↦ absurd (cc (rw f at ran))
        | inr (r, f) ↦ subst (Inbound (queued ++ [])) (eq_of_some (rw f at ran)) (
            after_recv-Inbound queued s n r h (
              subst (Ensures (Received ip port (s.packets n))) f
                (eth_recv-Received ip port bytes (s.packets n))))
      ]
  receiver_turn-Inbound queued s s' bytes moment (putting n) h e ran =
      elim (Option-cases (list_queue_put s.lqr n (malloc_node moment s.lqr.heap))) [
        | inl f ↦ absurd (cc (rw f at ran))
        | inr (r, f) ↦
            subst
              (Inbound (
                queued
                ++ if_done (s.packets n) (list_queue_put s.lqr n (malloc_node moment s.lqr.heap))))
              (eq_of_some (rw f at ran))
              (record {
                all =
                    All-append P queued
                      (if_done (s.packets n)
                        (list_queue_put s.lqr n (malloc_node moment s.lqr.heap)))
                      h.all
                      (All-if_done P (s.packets n)
                        (list_queue_put s.lqr n (malloc_node moment s.lqr.heap)) (h.next_put n e));
                next_put = λ k g. absurd (cc g);
              })
      ]

  turn-Inbound :
      (queued : List Packet) (s s' : System links) (t : Turn)
      → Inbound queued s
      → turn links json malloc malloc_node ip port t s ≡ some s'
      → Inbound (queued ++ queued_by links json malloc malloc_node ip port t s) s'
  unfolding turn Untouched
  turn-Inbound queued s s' (recv bytes moment) h ran =
      receiver_turn-Inbound queued s s' bytes moment s.receiver h refl ran
  turn-Inbound queued s s' (proc now) h ran =
      let (same_pc, same_packets) =
        subst (Ensures (Untouched links json malloc malloc_node ip port s)) ran
          (processor_turn-Untouched links json malloc malloc_node ip port s now s.processor) in
      record {
        all = All-append P queued [] h.all tt;
        next_put = λ n e. subst (λ f. P (f n)) (sym same_packets) (h.next_put n (sym same_pc ∙ e));
      }

  pub Reach-Inbound :
      {start : System links} {queued : List Packet} {handled : List (ℕ × Packet)} {lost : List ℕ}
      {s : System links}
      → start.receiver ≡ getting
      → Reach links json malloc malloc_node ip port start queued handled lost s
      → Inbound queued s
  Reach-Inbound e here = record { all = tt; next_put = λ n f. absurd (cc (sym e ∙ f)) }
  Reach-Inbound e (next {queued} {handled} {lost} {s} {s'} t r ran) =
      turn-Inbound queued s s' t (Reach-Inbound e r) ran

pub boot-getting :
    (links : Links) (mem : links.Mem) (heap : Heap) (packets : ℕ → Packet) (table : List TnsSession)
    (start : System links)
    → boot links (some mem) heap packets table ≡ some start
    → start.receiver ≡ getting
unfolding boot
boot-getting links mem heap packets table start booted =
    elim (Option-cases (mem_pool_create links 32 (some mem))) [
      | inl f ↦ absurd (cc (rw f at booted))
      | inr (made, f) ↦ elim (Option-cases made) [
        | inl g ↦ absurd (cc (rw (f, g) at booted))
        | inr (pool, g) ↦ ap (λ s. s.receiver) (sym (eq_of_some (rw (f, g) at booted)))
      ]
    ]

-- If malloc returns no allocated address and the list functions do what list.h documents: every
-- packet that was queued or handled is marked RESULT_PUSH and belongs to a connection with the
-- configured target; and the key of every session in the table of 32 slots is as it was cleared or
-- names the target as the server.
pub Reach-Targeted :
    (links : Links) (doc : Documented links) (json : CJson) (malloc : ℕ → Bool)
    (malloc_node : ℕ → Heap → Option ℕ)
    (fresh : (moment : ℕ) (h : Heap) (a : ℕ) → malloc_node moment h ≡ some a → lookup h a ≡ none)
    (ip port : ℕ) (mem : links.Mem) (heap : Heap) (packets : ℕ → Packet) (table : List TnsSession)
    (start : System links) (queued : List Packet) (handled : List (ℕ × Packet)) (lost : List ℕ)
    (s : System links)
    → boot links (some mem) heap packets table ≡ some start
    → length table ≡ max_sess_node
    → Reach links json malloc malloc_node ip port start queued handled lost s
    → All (Targeted ip port) queued
      × All (λ r. Targeted ip port r.1) handled
      × All (IsOurs ip port) (keys s.g_sess_arry)
Reach-Targeted links doc json malloc malloc_node fresh ip port mem heap packets table start queued
      handled lost s booted size r =
    let h =
      Reach-Inbound links json malloc malloc_node ip port (Targeted ip port)
        (λ pkt p got. (got.action, got.target))
        (boot-getting links mem heap packets table start booted) r in
    let (rest, flow, made) =
      Reach-sequential links doc json malloc malloc_node fresh ip port mem heap packets table start
        booted queued handled lost s r in
    let taken = All-handled (Targeted ip port) handled (
      All-front (Targeted ip port) (packets_of handled) rest
        (subst (All (Targeted ip port)) flow h.all)) in
    (
      h.all,
      taken,
      subst (Ensures λ (t : List TnsSession). All (IsOurs ip port) (keys t)) made (
          process_all-keys (IsOurs ip port) json malloc (sess_init table) handled
            (rw (sess_init-replicate table size) (zero_keys ip port max_sess_node))
            (ours handled taken)),
    )
  where
    ours :
        (l : List (ℕ × Packet))
        → All (λ r. Targeted ip port r.1) l
        → All (λ r. IsOurs ip port (sess_key r.1.key r.1.dir)) l
    ours [] a = tt
    ours (x ∷ l) ((action, target), a) = (inr target, ours l a)
