-- ===== src/Threads/Waits/Effects.antt =====
-- What the turns of the threads leave for the waits.
use tnsparser.Base.{
  ℕ, ◌≡◌, refl, sym, ap, ◌∙◌, Bool, true, false, Option, none, some, List, Ensures, Ensures->>=,
  Ensures-seq, Ensures->>=_eq,
}
use tnsparser.Tns.Handlers.{CJson}
use tnsparser.Network.{eth_recv}
use tnsparser.Process.{process_packet}
use tnsparser.ListQueue.{
  Store, Reply, done, failed, empty, waiting, packet, list_queue_put, list_queue_get,
}
use tnsparser.ListQueue.Memory.{Heap}
use tnsparser.Pool.{Links, Documented, mem_pool_get}
use tnsparser.Threads.{
  System, Receiver, getting, receiving, putting, Processor, taking, handling, returning,
  receiver_turn, processor_turn, after_get, after_recv, after_put, after_take,
}
use tnsparser.Threads.Waits.{
  is_done, is_waiting, blocks_receiver, signals_queue, blocks_processor, signals_pool,
}
use tnsparser.Threads.Waits.Calls.{
  list_queue_get-waiting, mem_pool_get-none, mem_pool_put-signals, mem_pool_put-silent,
  list_queue_put-silent,
}

module _ (links : Links) (doc : Documented links) (json : CJson) (malloc : ℕ → Bool)
    (malloc_node : ℕ → Heap → Option ℕ) (ip port : ℕ) where
  -- What a turn of netrecv_thread leaves for the waits.
  pub record Receives (moment : ℕ) (s : System links) (pc : Receiver) (s' : System links)
      : Type 0 where
    pub processor : s'.processor ≡ s.processor
    pub silent :
        signals_queue links json malloc malloc_node ip port moment s pc ≡ false → s'.lqr ≡ s.lqr
    pub blocks :
        blocks_receiver links json malloc malloc_node ip port s pc ≡ true
        → (s'.receiver ≡ getting) × ((mem_pool_get links s'.pool).0 ≡ none)

  pub receiver_turn-Receives :
      (bytes : Option (List ℕ)) (moment : ℕ) (s : System links) (pc : Receiver)
      → s.receiver ≡ pc
      → Ensures
          (Receives moment s pc)
          (receiver_turn links json malloc malloc_node ip port bytes moment s pc)
  unfolding receiver_turn signals_queue blocks_receiver after_recv after_put
  receiver_turn-Receives bytes moment s getting at = gets (mem_pool_get links s.pool) refl
    where
      gets :
          (r : Option ℕ × links.Mem)
          → mem_pool_get links s.pool ≡ r
          → Receives moment s getting (after_get links json malloc malloc_node ip port s r)
      gets (none, m) e = record {
        processor = refl;
        silent = λ f. refl;
        blocks = λ f. (
          at,
          ap (λ p. (mem_pool_get links p.1).0)
                (sym e ∙ mem_pool_get-none links s.pool (ap (λ p. p.0) e))
              ∙ ap (λ p. p.0) e,
        );
      }
      gets (some n, m) e = record {
        processor = refl;
        silent = λ f. refl;
        blocks = λ f. absurd (cc (rw e at f));
      }
  receiver_turn-Receives bytes moment s (receiving n) at =
      Ensures->>= (Receives moment s (receiving n)) (eth_recv ip port bytes (s.packets n)) _
        λ r. record { processor = refl; silent = λ e. refl; blocks = λ e. absurd (cc e) }
  receiver_turn-Receives bytes moment s (putting n) at =
      Ensures-seq (λ (r : Reply × Store). is_done (some r) ≡ false → r.1 ≡ s.lqr)
        (Receives moment s (putting n)) (list_queue_put s.lqr n (malloc_node moment s.lqr.heap)) _
        (list_queue_put-silent s.lqr n (malloc_node moment s.lqr.heap))
        λ (r, q) e h. record {
          processor = refl;
          silent = λ f. h (ap is_done (sym e) ∙ f);
          blocks = λ f. absurd (cc f);
        }

  -- What a turn of process_thread leaves for the waits.
  pub record Processes (s : System links) (pc : Processor) (s' : System links) : Type 0 where
    pub receiver : s'.receiver ≡ s.receiver
    pub silent : signals_pool links json malloc malloc_node ip port s pc ≡ false → s'.pool ≡ s.pool
    pub frees :
        signals_pool links json malloc malloc_node ip port s pc ≡ true
        → (n : ℕ) × ((mem_pool_get links s'.pool).0 ≡ some n)
    pub blocks :
        blocks_processor links json malloc malloc_node ip port s pc ≡ true
        → (old : Option ℕ) × (s'.processor ≡ taking old)
          × (list_queue_get s'.lqr true ≡ some (waiting, s'.lqr))

  pub processor_turn-Processes :
      (now : ℕ) (s : System links) (pc : Processor)
      → Ensures (Processes s pc) (processor_turn links json malloc malloc_node ip port now s pc)
  unfolding processor_turn signals_pool blocks_processor after_take
  processor_turn-Processes now s (taking old) =
      Ensures->>=_eq (Processes s (taking old)) (list_queue_get s.lqr true) _
        λ (r, q) e. takes old r q e
    where
      goes_on :
          (r : Reply) (q : Store) (pc : Processor)
          → list_queue_get s.lqr true ≡ some (r, q)
          → is_waiting (some (r, q)) ≡ false
          → Processes s (taking old) (record s { lqr = q; processor = pc })
      goes_on r q pc e f = record {
        receiver = refl;
        silent = λ g. refl;
        frees = λ g. absurd (cc g);
        blocks = λ g. absurd (cc (sym g ∙ (ap is_waiting e ∙ f)));
      }

      takes :
          (o : Option ℕ) (r : Reply) (q : Store)
          → list_queue_get s.lqr true ≡ some (r, q)
          → Ensures
              (Processes s (taking old))
              (after_take links json malloc malloc_node ip port (record s { lqr = q }) o r)
      takes o (packet n) q e = goes_on (packet n) q (handling n) e refl
      takes o waiting q e =
          let same = list_queue_get-waiting s.lqr q e in
          record {
            receiver = refl;
            silent = λ g. refl;
            frees = λ g. absurd (cc g);
            blocks = λ g. (o, refl, ap (λ l. list_queue_get l true) same ∙ e);
          }
      takes none done q e = tt
      takes none failed q e = tt
      takes none empty q e = tt
      takes (some n) done q e = goes_on done q (handling n) e refl
      takes (some n) failed q e = goes_on failed q (handling n) e refl
      takes (some n) empty q e = goes_on empty q (handling n) e refl
  processor_turn-Processes now s (handling n) =
      Ensures->>= (Processes s (handling n))
        (process_packet json malloc s.g_sess_arry (now, s.packets n)) _
        λ table. record {
          receiver = refl;
          silent = λ f. refl;
          frees = λ f. absurd (cc f);
          blocks = λ f. absurd (cc f);
        }
  processor_turn-Processes now s (returning n) = record {
    receiver = refl;
    silent = λ f. mem_pool_put-silent links n s.pool f;
    frees = λ f. mem_pool_put-signals links doc n s.pool f;
    blocks = λ f. absurd (cc f);
  }
