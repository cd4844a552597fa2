-- ===== src/RingQueue/Walk.antt =====
-- Walking round the ring by the step of the code.
use tnsparser.Base.{
  ℕ, zero, suc, ◌+◌, ◌≤◌, ◌<◌, ◌≡◌, refl, ap, ◌≢◌, ◌⊎◌, List, [], ◌∷◌, ◌++◌, arith, length, get_or,
  set, get_or-set_self, get_or-set_ne,
}
use tnsparser.Base.Int.{pos}
use tnsparser.RingQueue.{next_index}

-- The index `n` steps from `i`.
unfoldable pub walk : ℕ → ℕ → ℕ → ℕ
walk cap i zero = i
walk cap i (suc n) = walk cap (next_index (pos cap) i) n

-- The contents of `n` slots from index `i` on.
unfoldable pub contents : List ℕ → ℕ → ℕ → ℕ → List ℕ
contents queue cap i zero = []
contents queue cap i (suc n) = get_or queue i 0 ∷ contents queue cap (next_index (pos cap) i) n

pub next_index-lt : (cap i : ℕ) → i < cap → next_index (pos cap) i < cap
unfolding next_index
next_index-lt cap i h = ground arith

next_index-cases :
    (cap i : ℕ)
    → ((suc i ≡ cap) × (next_index (pos cap) i ≡ 0))
      ⊎ ((suc i ≢ cap) × (next_index (pos cap) i ≡ suc i))
unfolding next_index
next_index-cases cap i = ground arith

-- Where the walk ends, for no more steps than there are slots.
walk-closed :
    (cap i n : ℕ)
    → i < cap
    → n ≤ cap
    → ((i + n < cap) × (walk cap i n ≡ i + n)) ⊎ ((cap ≤ i + n) × (walk cap i n + cap ≡ i + n))
unfolding walk
walk-closed cap i zero h k = omega arith
walk-closed cap i (suc n) h k = omega (
  arith,
  walk-closed cap (next_index (pos cap) i) n (next_index-lt cap i h) (omega arith),
  next_index-cases cap i,
)

-- The walk does not come back to its start before it has seen every slot.
walk-ne : (cap i n : ℕ) → i < cap → suc n < cap → walk cap i (suc n) ≢ i
walk-ne cap i n h k = λ (e : walk cap i (suc n) ≡ i).
    absurd (omega (arith, e, walk-closed cap i (suc n) h (omega arith)))

pub walk-suc : (cap i n : ℕ) → next_index (pos cap) (walk cap i n) ≡ walk cap i (suc n)
unfolding walk
walk-suc cap i zero = refl
walk-suc cap i (suc n) = walk-suc cap (next_index (pos cap) i) n

-- A write at the end of the walk appends to the contents.
pub contents-set :
    (queue : List ℕ) (cap i n x : ℕ)
    → cap ≤ length queue
    → i < cap
    → n < cap
    → contents (set queue (walk cap i n) x) cap i (suc n) ≡ contents queue cap i n ++ x ∷ []
unfolding contents walk
contents-set queue cap i zero x room h k = rw (get_or-set_self queue i x 0 (omega arith))
contents-set queue cap i (suc n) x room h k = rw (
  get_or-set_ne queue (walk cap (next_index (pos cap) i) n) i x 0 (walk-ne cap i n h k),
  contents-set queue cap (next_index (pos cap) i) n x room (next_index-lt cap i h) (omega arith),
)

pub walk-lt : (cap i n : ℕ) → i < cap → walk cap i n < cap
unfolding walk
walk-lt cap i zero h = h
walk-lt cap i (suc n) h = walk-lt cap (next_index (pos cap) i) n (next_index-lt cap i h)

pub length-contents : (queue : List ℕ) (cap i n : ℕ) → length (contents queue cap i n) ≡ n
unfolding contents
length-contents queue cap i zero = refl
length-contents queue cap i (suc n) = ap suc (length-contents queue cap (next_index (pos cap) i) n)
