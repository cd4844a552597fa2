-- ===== src/ListQueue/Chain.antt =====
-- A list of nodes in the heap, each with the address of the next one.
use tnsparser.Base.{
  ℕ, ◌≡◌, sym, eq_of_some, ◌∙◌, ◌≢◌, Option, none, some, List, [], ◌∷◌, ◌++◌, map, All,
}
use tnsparser.ListQueue.Memory.{
  Heap, Node, lookup, update, free, lookup-update_self, lookup-update_ne, lookup-free_ne,
}

-- Address and packet of each node, in order.
abbrev pub Nodes : Type 0
Nodes = List (ℕ × ℕ)

abbrev pub link : Nodes → Option ℕ
link [] = none
link ((a, x) ∷ l) = some a

abbrev pub last_link : Nodes → Option ℕ
last_link [] = none
last_link ((a, x) ∷ []) = some a
last_link (n ∷ (m ∷ l)) = last_link (m ∷ l)

abbrev pub pkts : Nodes → List ℕ
pkts l = map (λ n. n.1) l

-- The nodes hold their packets and lead from one to the next.
abbrev pub Chain : Heap → Nodes → Type 0
Chain h [] = Unit {0}
Chain h ((a, x) ∷ l) = (lookup h a ≡ some (record { pkt = x; next = link l })) × Chain h l

-- The address is not that of a node of the list.
abbrev pub Apart : ℕ → Nodes → Type 0
Apart a l = All (λ n. a ≢ n.0) l

abbrev pub Distinct : Nodes → Type 0
Distinct [] = Unit {0}
Distinct ((a, x) ∷ l) = Apart a l × Distinct l

pub Chain-update :
    (h : Heap) (p : ℕ) (n : Node) (l : Nodes) → Apart p l → Chain h l → Chain (update h p n) l
Chain-update h p n [] apart c = tt
Chain-update h p n ((a, x) ∷ l) (ne, apart) (here, c) =
    (lookup-update_ne h p a n ne ∙ here, Chain-update h p n l apart c)

pub Chain-free : (h : Heap) (p : ℕ) (l : Nodes) → Apart p l → Chain h l → Chain (free h p) l
Chain-free h p [] apart c = tt
Chain-free h p ((a, x) ∷ l) (ne, apart) (here, c) =
    (lookup-free_ne h p a ne ∙ here, Chain-free h p l apart c)

-- An address that is not allocated is that of no node.
pub fresh-Apart : (h : Heap) (a : ℕ) (l : Nodes) → lookup h a ≡ none → Chain h l → Apart a l
fresh-Apart h a [] e c = tt
fresh-Apart h a ((b, x) ∷ l) e (here, c) = (λ (same : a ≡ b). cc, fresh-Apart h a l e c)

pub Distinct-snoc : (l : Nodes) (a x : ℕ) → Apart a l → Distinct l → Distinct (l ++ (a, x) ∷ [])
Distinct-snoc [] a x apart d = (tt, tt)
Distinct-snoc ((b, y) ∷ l) a x (ne, apart) (other, d) =
    (Apart-snoc l other, Distinct-snoc l a x apart d)
  where
    Apart-snoc : (r : Nodes) → Apart b r → Apart b (r ++ (a, x) ∷ [])
    Apart-snoc [] p = (λ (same : b ≡ a). ne (sym same), tt)
    Apart-snoc (n ∷ r) (p, ps) = (p, Apart-snoc r ps)

last_link-ne :
    (b z : ℕ) (m : ℕ × ℕ) (l : Nodes) → last_link (m ∷ l) ≡ some z → Apart b (m ∷ l) → b ≢ z
last_link-ne b z m [] e apart = λ (same : b ≡ z). apart.0 (same ∙ sym (eq_of_some e))
last_link-ne b z m (n ∷ l) e apart = last_link-ne b z n l e apart.1

-- A node behind the last one: it is written, and the last one's link is set to it.
pub Chain-snoc :
    (h : Heap) (m : ℕ × ℕ) (l : Nodes) (z a x : ℕ)
    → last_link (m ∷ l) ≡ some z
    → Apart a (m ∷ l)
    → Distinct (m ∷ l)
    → Chain h (m ∷ l)
    → lookup h a ≡ some (record { pkt = x; next = none })
    → (y : ℕ) × (lookup h z ≡ some (record { pkt = y; next = none }))
      × Chain (update h z (record { pkt = y; next = some a })) ((m ∷ l) ++ (a, x) ∷ [])
Chain-snoc h (b, y) [] z a x e apart d (here, c) new =
    let same : b ≡ z = eq_of_some e in
    rw (← same) (
      y,
      here,
      (lookup-update_self h b _, (lookup-update_ne h b a _ (λ f. apart.0 (sym f)) ∙ new, tt)),
    )
Chain-snoc h (b, y) (m ∷ l) z a x e apart d (here, c) new =
    let (u, last, rest) = Chain-snoc h m l z a x e apart.1 d.1 c new in
    (u, last, (lookup-update_ne h z b _ (λ f. last_link-ne b z m l e d.0 (sym f)) ∙ here, rest))
