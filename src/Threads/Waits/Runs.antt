-- ===== src/Threads/Waits/Runs.antt =====
-- Runs of the threads with their waits, as runs of their turns.
use tnsparser.Base.{
  ℕ, ◌≡◌, refl, ap, subst, ◌∙◌, inl, inr, Bool, true, Option, none, some, List, [], ◌∷◌,
  Option-cases, eq_of_some, ◌>>=◌, >>=-some,
}
use tnsparser.Tns.Handlers.{CJson}
use tnsparser.ListQueue.{waiting, list_queue_get}
use tnsparser.ListQueue.Memory.{Heap}
use tnsparser.Pool.{Links, Documented, mem_pool_get, mem_pool_get_woken}
use tnsparser.Threads.{
  System, getting, receiving, taking, recv, proc, receiver_turn, processor_turn, after_get,
  after_take, turn, run,
}
use tnsparser.Threads.Waits.{
  Wait, runs, blocked, signalled, woken, Waits, Event, take, wake_receiver, wake_processor,
  after_wait, receiver_step, processor_step, event, events, turns,
}
use tnsparser.Threads.Waits.Calls.{mem_pool_get-none, mem_pool_get_woken-get}
use tnsparser.Threads.Waits.Steps.{
  PoolWait, QueueWait, PoolWait-wake, QueueWait-same, QueueWait-wake,
}
use tnsparser.Threads.Waits.Turns.{Parked, Steps, run_receiver-Steps, run_processor-Steps}

module _ (links : Links) (doc : Documented links) (json : CJson) (malloc : ℕ → Bool)
    (malloc_node : ℕ → Heap → Option ℕ) (ip port : ℕ) where
  -- A thread that is blocked would find nothing, and its turn would change nothing.
  blocked_receiver :
      (bytes : Option (List ℕ)) (moment : ℕ) (s : System links)
      → s.receiver ≡ getting
      → (mem_pool_get links s.pool).0 ≡ none
      → turn links json malloc malloc_node ip port (recv bytes moment) s ≡ some s
  unfolding turn receiver_turn after_get
  blocked_receiver bytes moment s at no_node = rw (at, mem_pool_get-none links s.pool no_node) refl

  pub blocked_processor :
      (now : ℕ) (s : System links) (old : Option ℕ)
      → s.processor ≡ taking old
      → list_queue_get s.lqr true ≡ some (waiting, s.lqr)
      → turn links json malloc malloc_node ip port (proc now) s ≡ some s
  unfolding turn processor_turn after_take
  blocked_processor now s old at waits = rw (at, waits) refl

  -- Behind its wait netrecv_thread does what it would do without one, where a node is free.
  woken_receiver :
      (bytes : Option (List ℕ)) (moment : ℕ) (w w' : Waits links)
      → w.sys.receiver ≡ getting
      → Parked links w
      → (mem_pool_get_woken links w.sys.pool >>= λ r.
          some (after_wait links json malloc malloc_node ip port w r))
        ≡ some w'
      → Steps links doc json malloc malloc_node ip port (take (recv bytes moment)) w w'
  unfolding run turn receiver_turn after_get after_wait PoolWait
  woken_receiver bytes moment w w' at h ran =
      let ((n, m), e, f) = >>=-some (mem_pool_get_woken links w.sys.pool) _ w' ran in
      let got = mem_pool_get_woken-get links w.sys.pool m n e in
      subst (Steps links doc json malloc malloc_node ip port (take (recv bytes moment)) w) f
        (record {
          same_run = rw (at, got) refl;
          parked = record {
            pool = tt;
            queue =
                QueueWait-same links w.sys (record (w.sys) { pool = m; receiver = receiving n })
                  w.processor_wait refl refl h.queue;
          };
        })

  recv-Steps :
      (bytes : Option (List ℕ)) (moment : ℕ) (w w' : Waits links) (wait : Wait)
      → w.receiver_wait ≡ wait
      → Parked links w
      → receiver_step links json malloc malloc_node ip port bytes moment w wait ≡ some w'
      → Steps links doc json malloc malloc_node ip port (take (recv bytes moment)) w w'
  unfolding receiver_step run PoolWait
  recv-Steps bytes moment w w' runs e h ran =
      run_receiver-Steps links doc json malloc malloc_node ip port bytes moment w w' h ran
  recv-Steps bytes moment w w' blocked e h ran =
      let (at, no_node) = subst (PoolWait links w.sys) e h.pool in
      subst (Steps links doc json malloc malloc_node ip port (take (recv bytes moment)) w)
        (eq_of_some ran)
        (record { same_run = rw (blocked_receiver bytes moment w.sys at no_node) refl; parked = h })
  recv-Steps bytes moment w w' signalled e h ran =
      let (at, n, there) = subst (PoolWait links w.sys) e h.pool in
      woken_receiver bytes moment w w' at h ran
  recv-Steps bytes moment w w' woken e h ran =
      woken_receiver bytes moment w w' (subst (PoolWait links w.sys) e h.pool) h ran

  proc-Steps :
      (now : ℕ) (w w' : Waits links) (wait : Wait)
      → w.processor_wait ≡ wait
      → Parked links w
      → processor_step links json malloc malloc_node ip port now w wait ≡ some w'
      → Steps links doc json malloc malloc_node ip port (take (proc now)) w w'
  unfolding processor_step run QueueWait
  proc-Steps now w w' runs e h ran =
      run_processor-Steps links doc json malloc malloc_node ip port now w w' h ran
  proc-Steps now w w' signalled e h ran =
      run_processor-Steps links doc json malloc malloc_node ip port now w w' h ran
  proc-Steps now w w' woken e h ran =
      run_processor-Steps links doc json malloc malloc_node ip port now w w' h ran
  proc-Steps now w w' blocked e h ran =
      let (old, at, waits) = subst (QueueWait links w.sys) e h.queue in
      subst (Steps links doc json malloc malloc_node ip port (take (proc now)) w) (eq_of_some ran)
        (record { same_run = rw (blocked_processor now w.sys old at waits) refl; parked = h })

  event-Steps :
      (e : Event) (w w' : Waits links)
      → Parked links w
      → event links json malloc malloc_node ip port e w ≡ some w'
      → Steps links doc json malloc malloc_node ip port e w w'
  unfolding event run
  event-Steps (take (recv bytes moment)) w w' h ran =
      recv-Steps bytes moment w w' w.receiver_wait refl h ran
  event-Steps (take (proc now)) w w' h ran = proc-Steps now w w' w.processor_wait refl h ran
  event-Steps wake_receiver w w' h ran =
      subst (Steps links doc json malloc malloc_node ip port wake_receiver w) (eq_of_some ran)
        (record {
          same_run = refl;
          parked = record {
            pool = PoolWait-wake links w.sys w.receiver_wait h.pool;
            queue = h.queue;
          };
        })
  event-Steps wake_processor w w' h ran =
      subst (Steps links doc json malloc malloc_node ip port wake_processor w) (eq_of_some ran)
        (record {
          same_run = refl;
          parked = record { pool = h.pool; queue = QueueWait-wake links w.sys w.processor_wait };
        })

  run-turns :
      (e : Event) (es : List Event) (s s' : System links)
      → run links json malloc malloc_node ip port (turns (e ∷ [])) s ≡ some s'
      → run links json malloc malloc_node ip port (turns (e ∷ es)) s
        ≡ run links json malloc malloc_node ip port (turns es) s'
  unfolding run
  run-turns (take t) es s s' e =
      let (s₁, f, g) = >>=-some (turn links json malloc malloc_node ip port t s) (λ x. x) s' e in
      rw (f, g) refl
  run-turns wake_receiver es s s' e = rw (eq_of_some e) refl
  run-turns wake_processor es s s' e = rw (eq_of_some e) refl

  pub events-Parked :
      (es : List Event) (w w' : Waits links)
      → Parked links w
      → events links json malloc malloc_node ip port es w ≡ some w'
      → (run links json malloc malloc_node ip port (turns es) w.sys ≡ some w'.sys) × Parked links w'
  unfolding events run
  events-Parked [] w w' h ran =
      (ap (λ x. some x.sys) (eq_of_some ran), subst (Parked links) (eq_of_some ran) h)
  events-Parked (e ∷ es) w w' h ran =
      elim (Option-cases (event links json malloc malloc_node ip port e w)) [
        | inl f ↦ absurd (cc (rw f at ran))
        | inr (w1, f) ↦
            let step = event-Steps e w w1 h f in
            let (runs_on, parked) = events-Parked es w1 w' step.parked (rw f at ran) in
            (run-turns e es w.sys w1.sys step.same_run ∙ runs_on, parked)
      ]
