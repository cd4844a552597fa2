-- ===== src/Threads/Waits/Faults.antt =====
-- The one fault that the waits add to those of the turns.
use tnsparser.Base.{
  ℕ, ◌≡◌, ◌↔◌, ◌⊎◌, Bool, refl, sym, subst, ◌∙◌, inl, inr, Option, none, some, List, [], ◌∷◌,
  Returns, ◌>>=◌,
}
use tnsparser.Tns.Handlers.{CJson}
use tnsparser.ListQueue.Memory.{Heap}
use tnsparser.Pool.{Links, Documented, mem_pool_get}
use tnsparser.Threads.{System, getting, recv, proc, receiver_turn, processor_turn, turn, run}
use tnsparser.Threads.Waits.{
  Wait, runs, blocked, signalled, woken, Waits, Event, take, wake_receiver, wake_processor,
  run_receiver, receiver_step, run_processor, processor_step, event, events, turns, awake,
}
use tnsparser.Threads.Waits.Calls.{mem_pool_get_woken-cases}
use tnsparser.Threads.Waits.Steps.{PoolWait, QueueWait}
use tnsparser.Threads.Waits.Turns.{Parked, awake-Parked}
use tnsparser.Threads.Waits.Runs.{blocked_processor, events-Parked}

bind-none {ℓ κ} :
    {A : Type ℓ} {B : Type κ} (m : Option A) (f : A → B) → (m >>= λ a. some (f a)) ≡ none → m ≡ none
bind-none none f e = refl
bind-none (some a) f e = absurd (cc e)

-- netrecv_thread goes on behind its wait without a signal, and no node is free.
abbrev pub TakesNoNode : (links : Links) → Event → Waits links → Type 0
TakesNoNode links (take (recv bytes moment)) w =
    (w.receiver_wait ≡ woken) × ((mem_pool_get links w.sys.pool).0 ≡ none)
TakesNoNode links (take (proc now)) w = ⊥
TakesNoNode links wake_receiver w = ⊥
TakesNoNode links wake_processor w = ⊥

module _ (links : Links) (doc : Documented links) (json : CJson) (malloc : ℕ → Bool)
    (malloc_node : ℕ → Heap → Option ℕ) (ip port : ℕ) where
  recv-faults :
      (bytes : Option (List ℕ)) (moment : ℕ) (w : Waits links) (wait : Wait)
      → w.receiver_wait ≡ wait
      → Parked links w
      → receiver_step links json malloc malloc_node ip port bytes moment w wait ≡ none
      → (run links json malloc malloc_node ip port (recv bytes moment ∷ []) w.sys ≡ none)
        ⊎ TakesNoNode links (take (recv bytes moment)) w
  unfolding receiver_step run_receiver run turn PoolWait
  recv-faults bytes moment w runs e h f = inl (
      rw
        (bind-none
          (receiver_turn links json malloc malloc_node ip port bytes moment w.sys w.sys.receiver) _
          f)
        refl)
  recv-faults bytes moment w blocked e h f = absurd (cc f)
  recv-faults bytes moment w signalled e h f =
      let (at, n, there) = subst (PoolWait links w.sys) e h.pool in
      elim (mem_pool_get_woken-cases links w.sys.pool) [
        | inl (no_node, g) ↦ absurd (cc (sym there ∙ no_node))
        | inr (k, got, (r, g)) ↦ absurd (cc (rw g at f))
      ]
  recv-faults bytes moment w woken e h f = elim (mem_pool_get_woken-cases links w.sys.pool) [
    | inl (no_node, g) ↦ inr (e, no_node)
    | inr (k, got, (r, g)) ↦ absurd (cc (rw g at f))
  ]

  turn-getting :
      (bytes : Option (List ℕ)) (moment : ℕ) (s : System links)
      → s.receiver ≡ getting
      → Returns (run links json malloc malloc_node ip port (recv bytes moment ∷ []) s)
  unfolding run turn receiver_turn
  turn-getting bytes moment s at = rw at (_, refl)

  recv-faults_back :
      (bytes : Option (List ℕ)) (moment : ℕ) (w : Waits links) (wait : Wait)
      → w.receiver_wait ≡ wait
      → Parked links w
      → (run links json malloc malloc_node ip port (recv bytes moment ∷ []) w.sys ≡ none)
        ⊎ TakesNoNode links (take (recv bytes moment)) w
      → receiver_step links json malloc malloc_node ip port bytes moment w wait ≡ none
  unfolding receiver_step run_receiver run turn PoolWait
  recv-faults_back bytes moment w runs e h (inl f) =
      rw
        (bind-none
          (receiver_turn links json malloc malloc_node ip port bytes moment w.sys w.sys.receiver)
          (λ x. x) f)
        refl
  recv-faults_back bytes moment w blocked e h (inl f) =
      let (at, no_node) = subst (PoolWait links w.sys) e h.pool in
      let (s, r) = turn-getting bytes moment w.sys at in absurd (cc (sym r ∙ f))
  recv-faults_back bytes moment w signalled e h (inl f) =
      let (at, n, there) = subst (PoolWait links w.sys) e h.pool in
      let (s, r) = turn-getting bytes moment w.sys at in absurd (cc (sym r ∙ f))
  recv-faults_back bytes moment w woken e h (inl f) =
      let (s, r) = turn-getting bytes moment w.sys (subst (PoolWait links w.sys) e h.pool) in
      absurd (cc (sym r ∙ f))
  recv-faults_back bytes moment w runs e h (inr (g, no_node)) = absurd (cc (sym e ∙ g))
  recv-faults_back bytes moment w blocked e h (inr (g, no_node)) = absurd (cc (sym e ∙ g))
  recv-faults_back bytes moment w signalled e h (inr (g, no_node)) = absurd (cc (sym e ∙ g))
  recv-faults_back bytes moment w woken e h (inr (g, no_node)) =
      elim (mem_pool_get_woken-cases links w.sys.pool) [
        | inl (empty, k) ↦ rw k refl
        | inr (k, got, r) ↦ absurd (cc (sym got ∙ no_node))
      ]

  proc-faults :
      (now : ℕ) (w : Waits links) (wait : Wait)
      → processor_step links json malloc malloc_node ip port now w wait ≡ none
      → run links json malloc malloc_node ip port (proc now ∷ []) w.sys ≡ none
  unfolding processor_step run_processor run turn
  proc-faults now w runs f =
      rw
        (bind-none (processor_turn links json malloc malloc_node ip port now w.sys w.sys.processor)
          _ f)
        refl
  proc-faults now w blocked f = absurd (cc f)
  proc-faults now w signalled f =
      rw
        (bind-none (processor_turn links json malloc malloc_node ip port now w.sys w.sys.processor)
          _ f)
        refl
  proc-faults now w woken f =
      rw
        (bind-none (processor_turn links json malloc malloc_node ip port now w.sys w.sys.processor)
          _ f)
        refl

  proc-faults_back :
      (now : ℕ) (w : Waits links) (wait : Wait)
      → w.processor_wait ≡ wait
      → Parked links w
      → run links json malloc malloc_node ip port (proc now ∷ []) w.sys ≡ none
      → processor_step links json malloc malloc_node ip port now w wait ≡ none
  unfolding processor_step run_processor run turn QueueWait
  proc-faults_back now w runs e h f =
      rw
        (bind-none (processor_turn links json malloc malloc_node ip port now w.sys w.sys.processor)
          (λ x. x) f)
        refl
  proc-faults_back now w signalled e h f =
      rw
        (bind-none (processor_turn links json malloc malloc_node ip port now w.sys w.sys.processor)
          (λ x. x) f)
        refl
  proc-faults_back now w woken e h f =
      rw
        (bind-none (processor_turn links json malloc malloc_node ip port now w.sys w.sys.processor)
          (λ x. x) f)
        refl
  proc-faults_back now w blocked e h f =
      let (old, at, waits) = subst (QueueWait links w.sys) e h.queue in
      absurd (
        cc (
          rw (blocked_processor links doc json malloc malloc_node ip port now w.sys old at waits) at
            f))

  event-faults :
      (e : Event) (w : Waits links)
      → Parked links w
      → (event links json malloc malloc_node ip port e w ≡ none) ↔ (
          (run links json malloc malloc_node ip port (turns (e ∷ [])) w.sys ≡ none)
          ⊎ TakesNoNode links e w)
  unfolding event run
  event-faults (take (recv bytes moment)) w h = (
    recv-faults bytes moment w w.receiver_wait refl h,
    recv-faults_back bytes moment w w.receiver_wait refl h,
  )
  event-faults (take (proc now)) w h = (
    λ f. inl (proc-faults now w w.processor_wait f),
    λ g. elim g [ inl f ↦ proc-faults_back now w w.processor_wait refl h f | inr p ↦ absurd p ],
  )
  event-faults wake_receiver w h =
      (λ f. absurd (cc f), λ g. elim g [ inl f ↦ absurd (cc f) | inr p ↦ absurd p ])
  event-faults wake_processor w h =
      (λ f. absurd (cc f), λ g. elim g [ inl f ↦ absurd (cc f) | inr p ↦ absurd p ])

  -- If the list functions do what list.h documents: after any events that have results, the next
  -- event has none exactly if its turn has none without any waits, or if it lets a netrecv_thread go
  -- on that woke up without a signal while no node is free.
  pub events-faults :
      (s : System links) (es : List Event) (w : Waits links) (e : Event)
      → events links json malloc malloc_node ip port es (awake links s) ≡ some w
      → (event links json malloc malloc_node ip port e w ≡ none) ↔ (
          (run links json malloc malloc_node ip port (turns (e ∷ [])) w.sys ≡ none)
          ⊎ TakesNoNode links e w)
  events-faults s es w e ran =
      event-faults e w
        (events-Parked links doc json malloc malloc_node ip port es (awake links s) w
          (awake-Parked links s) ran).1
