-- ===== src/ListQueue/Memory.antt =====
-- Allocated nodes by their address: the part of the C heap that holds struct MyList.
use tnsparser.Base.{
  ℕ, ◌≡◌, refl, ◌≢◌, Option, none, some, List, [], ◌∷◌, arith, ◌==◌, if◌then◌else◌,
}

-- struct MyList
pub record Node : Type 0 where
  pub pkt : ℕ
  pub next : Option ℕ

abbrev pub Heap : Type 0
Heap = List (ℕ × Node)

unfoldable pub lookup : Heap → ℕ → Option Node
lookup [] p = none
lookup ((a, n) ∷ h) p = if a == p then some n else lookup h p

-- A write to a node, or a new one.
unfoldable pub update : Heap → ℕ → Node → Heap
update h p n = (p, n) ∷ h

unfoldable pub free : Heap → ℕ → Heap
free [] p = []
free ((a, n) ∷ h) p = let rest = free h p in if a == p then rest else (a, n) ∷ rest

pub lookup-update :
    (h : Heap) (p a : ℕ) (n : Node)
    → lookup (update h p n) a ≡ (if p == a then some n else lookup h a)
unfolding lookup update
lookup-update h p a n = refl

pub lookup-update_self : (h : Heap) (p : ℕ) (n : Node) → lookup (update h p n) p ≡ some n
unfolding lookup update
lookup-update_self h p n = ground arith

pub lookup-update_ne :
    (h : Heap) (p a : ℕ) (n : Node) → p ≢ a → lookup (update h p n) a ≡ lookup h a
unfolding lookup update
lookup-update_ne h p a n ne = ground arith

pub lookup-free : (h : Heap) (p a : ℕ) → lookup (free h p) a ≡ (if p == a then none else lookup h a)
unfolding lookup free
lookup-free [] p a = ground arith
lookup-free ((b, n) ∷ h) p a = ground (arith, lookup-free h p a)

pub lookup-free_ne : (h : Heap) (p a : ℕ) → p ≢ a → lookup (free h p) a ≡ lookup h a
lookup-free_ne h p a ne = ground (arith, lookup-free h p a)
