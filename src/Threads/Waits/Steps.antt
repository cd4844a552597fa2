-- ===== src/Threads/Waits/Steps.antt =====
-- What holds of a thread that waits, and what keeps it.
use tnsparser.Base.{ℕ, ◌≡◌, ap, ◌∙◌, true, Option, none, some}
use tnsparser.ListQueue.{waiting, list_queue_get}
use tnsparser.Pool.{Links, mem_pool_get}
use tnsparser.Threads.{System, getting, taking}
use tnsparser.Threads.Waits.{Wait, runs, blocked, signalled, woken, signal, wake}

-- A thread that is not running stands at the call that it waits in. A blocked one would find nothing
-- there; where netrecv_thread has been signalled, a node is free.
module _ (links : Links) where
  unfoldable pub PoolWait : System links → Wait → Type 0
  PoolWait s runs = Unit {0}
  PoolWait s blocked = (s.receiver ≡ getting) × ((mem_pool_get links s.pool).0 ≡ none)
  PoolWait s signalled = (s.receiver ≡ getting) × (n : ℕ) × ((mem_pool_get links s.pool).0 ≡ some n)
  PoolWait s woken = s.receiver ≡ getting

  unfoldable pub QueueWait : System links → Wait → Type 0
  QueueWait s runs = Unit {0}
  QueueWait s blocked =
      (old : Option ℕ) × (s.processor ≡ taking old)
      × (list_queue_get s.lqr true ≡ some (waiting, s.lqr))
  QueueWait s signalled = Unit {0}
  QueueWait s woken = Unit {0}

  pub PoolWait-same :
      (s s' : System links) (w : Wait)
      → s'.receiver ≡ s.receiver
      → s'.pool ≡ s.pool
      → PoolWait s w
      → PoolWait s' w
  unfolding PoolWait
  PoolWait-same s s' runs e f h = tt
  PoolWait-same s s' blocked e f (at, no_node) =
      (e ∙ at, ap (λ m. (mem_pool_get links m).0) f ∙ no_node)
  PoolWait-same s s' signalled e f (at, n, there) =
      (e ∙ at, n, ap (λ m. (mem_pool_get links m).0) f ∙ there)
  PoolWait-same s s' woken e f at = e ∙ at

  -- After a signal with a free node.
  pub PoolWait-signal :
      (s s' : System links) (w : Wait) (n : ℕ)
      → s'.receiver ≡ s.receiver
      → (mem_pool_get links s'.pool).0 ≡ some n
      → PoolWait s w
      → PoolWait s' (signal w)
  unfolding PoolWait signal
  PoolWait-signal s s' runs n e f h = tt
  PoolWait-signal s s' blocked n e f (at, no_node) = (e ∙ at, n, f)
  PoolWait-signal s s' signalled n e f (at, k, there) = (e ∙ at, n, f)
  PoolWait-signal s s' woken n e f at = e ∙ at

  pub PoolWait-wake : (s : System links) (w : Wait) → PoolWait s w → PoolWait s (wake w)
  unfolding PoolWait wake
  PoolWait-wake s runs h = tt
  PoolWait-wake s blocked (at, no_node) = at
  PoolWait-wake s signalled h = h
  PoolWait-wake s woken h = h

  pub QueueWait-same :
      (s s' : System links) (w : Wait)
      → s'.processor ≡ s.processor
      → s'.lqr ≡ s.lqr
      → QueueWait s w
      → QueueWait s' w
  unfolding QueueWait
  QueueWait-same s s' runs e f h = tt
  QueueWait-same s s' blocked e f (old, at, waits) = (old, e ∙ at, rw f waits)
  QueueWait-same s s' signalled e f h = tt
  QueueWait-same s s' woken e f h = tt

  pub QueueWait-signal : (s : System links) (w : Wait) → QueueWait s (signal w)
  unfolding QueueWait signal
  QueueWait-signal s runs = tt
  QueueWait-signal s blocked = tt
  QueueWait-signal s signalled = tt
  QueueWait-signal s woken = tt

  pub QueueWait-wake : (s : System links) (w : Wait) → QueueWait s (wake w)
  unfolding QueueWait wake
  QueueWait-wake s runs = tt
  QueueWait-wake s blocked = tt
  QueueWait-wake s signalled = tt
  QueueWait-wake s woken = tt
