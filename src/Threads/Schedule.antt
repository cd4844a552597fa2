-- ===== src/Threads/Schedule.antt =====
-- States that the threads reach when they take turns in a given order.
use tnsparser.Base.{ℕ, ◌≡◌, ◌⊎◌, refl, Bool, Option, none, some, List, [], ◌∷◌, inl, inr}
use tnsparser.Tns.Handlers.{CJson}
use tnsparser.Network.{Packet}
use tnsparser.ListQueue.Memory.{Heap}
use tnsparser.Pool.{Links}
use tnsparser.Threads.{System, Turn, turn}
use tnsparser.Threads.Trace.{Reach, here, next}

-- With the equation, and open to evaluation.
unfoldable pub outcome {ℓ} : {A : Type ℓ} (m : Option A) → (m ≡ none) ⊎ ((a : A) × (m ≡ some a))
outcome none = inl refl
outcome (some a) = inr (a, refl)

module _ (links : Links) (json : CJson) (malloc : ℕ → Bool) (malloc_node : ℕ → Heap → Option ℕ)
    (ip port : ℕ) (start : System links) where
  pub record Execution : Type 0 where
    pub queued : List Packet
    pub handled : List (ℕ × Packet)
    pub lost : List ℕ
    pub last : System links
    pub reach : Reach links json malloc malloc_node ip port start queued handled lost last

  -- A turn that fails is left out.
  unfoldable pub take_turn : Execution → Turn → Execution
  unfolding outcome
  take_turn x t = elim (outcome (turn links json malloc malloc_node ip port t x.last)) [
    | inl fails ↦ x
    | inr (s, ran) ↦ record {
      queued = _;
      handled = _;
      lost = _;
      last = s;
      reach = next t x.reach ran;
    }
  ]

  unfoldable pub execute : List Turn → Execution → Execution
  unfolding take_turn
  execute [] x = x
  execute (t ∷ ts) x = execute ts (take_turn x t)

  unfoldable pub schedule : List Turn → Execution
  unfolding execute
  schedule ts =
      execute ts (record { queued = []; handled = []; lost = []; last = start; reach = here })
