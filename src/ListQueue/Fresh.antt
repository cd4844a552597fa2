-- ===== src/ListQueue/Fresh.antt =====
-- A malloc that returns the address behind the greatest one in use.
use Prim.Native.Nat.{max}
use tnsparser.Base.{ℕ, suc, ◌<◌, ◌≡◌, refl, Option, none, some, [], ◌∷◌, arith, eq_of_some, ne→eqb}
use tnsparser.ListQueue.Memory.{Heap, lookup}

unfoldable pub greatest : Heap → ℕ
greatest [] = 0
greatest ((a, n) ∷ h) = max a (greatest h)

pub behind_greatest : (h : Heap) (a : ℕ) → greatest h < a → lookup h a ≡ none
unfolding lookup greatest
behind_greatest [] a lt = refl
behind_greatest ((b, n) ∷ h) a lt =
    rw (ne→eqb b a (omega arith)) (behind_greatest h a (omega arith))

unfoldable pub next_address : Heap → Option ℕ
next_address h = some (suc (greatest h))

pub next_address-fresh : (h : Heap) (a : ℕ) → next_address h ≡ some a → lookup h a ≡ none
unfolding next_address
next_address-fresh h a e = behind_greatest h a (let f = eq_of_some e in omega (arith, f))
