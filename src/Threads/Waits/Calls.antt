-- ===== src/Threads/Waits/Calls.antt =====
-- What the calls that wait and signal leave.
use tnsparser.Base.{
  ℕ, ◌≡◌, refl, sym, ap, ◌⊎◌, inl, inr, true, false, Option, none, some, Option-cases, Bool-cases,
  eq_of_some, Returns, Ensures, Ensures-if, Ensures->>=,
}
use tnsparser.ListQueue.{
  Store, Reply, waiting, list_queue_get, take_first, list_queue_put, append_node, link_last,
}
use tnsparser.ListQueue.Memory.{lookup, update}
use tnsparser.Threads.Waits.{is_done}
use tnsparser.Pool.{
  Links, Documented, free_list, mem_pool_get, taken, mem_pool_get_woken, behind_wait, mem_pool_put,
  put_signals,
}

-- A call that waits leaves the queue as it is.
pub list_queue_get-waiting : (s q : Store) → list_queue_get s true ≡ some (waiting, q) → q ≡ s
unfolding list_queue_get take_first
list_queue_get-waiting s q e = elim (Bool-cases s.q.abort_request) [
  | inl stop ↦ absurd (cc (rw stop at e))
  | inr live ↦ elim (Option-cases s.q.first) [
    | inl empty ↦ ap (λ r. r.1) (sym (eq_of_some (rw (live, empty) at e)))
    | inr (a, first) ↦ elim (Option-cases (lookup s.heap a)) [
      | inl missing ↦ absurd (cc (rw (live, first, missing) at e))
      | inr (node, there) ↦ absurd (cc (rw (live, first, there) at e))
    ]
  ]
]

-- A put that does not come to its signal leaves the queue as it is.
pub list_queue_put-silent :
    (s : Store) (pkt : ℕ) (malloc : Option ℕ)
    → Ensures
        (λ (r : Reply × Store). is_done (some r) ≡ false → r.1 ≡ s)
        (list_queue_put s pkt malloc)
unfolding list_queue_put append_node is_done
list_queue_put-silent s pkt none =
    Ensures-if (λ (r : Reply × Store). is_done (some r) ≡ false → r.1 ≡ s) s.q.abort_request _ _
      (λ e. refl) (λ e. refl)
list_queue_put-silent s pkt (some ml) =
    Ensures-if (λ (r : Reply × Store). is_done (some r) ≡ false → r.1 ≡ s) s.q.abort_request _ _
      (λ e. refl)
      (Ensures->>= (λ (r : Reply × Store). is_done (some r) ≡ false → r.1 ≡ s)
        (link_last (record s { heap = update s.heap ml (record { pkt = pkt; next = none }) }) ml) _
        λ linked e. absurd (cc e))

module _ (lib : Links) where
  open lib use {Mem, first}

  -- A call that waits leaves the pool as it is.
  pub mem_pool_get-none : (m : Mem) → (mem_pool_get lib m).0 ≡ none → mem_pool_get lib m ≡ (none, m)
  unfolding mem_pool_get taken
  mem_pool_get-none m e = elim (Option-cases (first free_list m)) [
    | inl empty ↦ rw empty refl
    | inr (n, there) ↦ absurd (cc (rw there at e))
  ]

  -- Behind the wait a node that is free is taken as without one, and an empty list is not noticed.
  pub mem_pool_get_woken-get :
      (m m' : Mem) (n : ℕ)
      → mem_pool_get_woken lib m ≡ some (n, m')
      → mem_pool_get lib m ≡ (some n, m')
  unfolding mem_pool_get mem_pool_get_woken behind_wait taken
  mem_pool_get_woken-get m m' n e = elim (Option-cases (first free_list m)) [
    | inl empty ↦ absurd (cc (rw empty at e))
    | inr (k, there) ↦ rw there (ap (λ r. (some r.0, r.1)) (eq_of_some (rw there at e)))
  ]

  pub mem_pool_get_woken-cases :
      (m : Mem)
      → (((mem_pool_get lib m).0 ≡ none) × (mem_pool_get_woken lib m ≡ none))
        ⊎ ((n : ℕ) × ((mem_pool_get lib m).0 ≡ some n) × Returns (mem_pool_get_woken lib m))
  unfolding mem_pool_get mem_pool_get_woken behind_wait taken
  mem_pool_get_woken-cases m = elim (Option-cases (first free_list m)) [
    | inl empty ↦ rw empty (inl (refl, refl))
    | inr (k, there) ↦ rw there (inr (k, refl, (_, refl)))
  ]

  -- A put that signals leaves a free node, and one that does not leaves the pool as it is.
  pub mem_pool_put-signals :
      (doc : Documented lib) (n : ℕ) (m : Mem)
      → put_signals lib (some n) m ≡ true
      → (k : ℕ) × ((mem_pool_get lib (mem_pool_put lib (some n) m).1).0 ≡ some k)
  unfolding mem_pool_put put_signals mem_pool_get taken
  mem_pool_put-signals doc n m e = elim (Bool-cases (lib.no_links n m)) [
    | inl alone ↦ absurd (cc (rw alone at e))
    | inr linked ↦
        let there = doc.first-items (lib.list_add n free_list (lib.list_del n m)) free_list in
        (n, rw (linked, there, doc.add-here n (lib.list_del n m) free_list) refl)
  ]

  pub mem_pool_put-silent :
      (n : ℕ) (m : Mem) → put_signals lib (some n) m ≡ false → (mem_pool_put lib (some n) m).1 ≡ m
  unfolding mem_pool_put put_signals
  mem_pool_put-silent n m e = elim (Bool-cases (lib.no_links n m)) [
    | inl alone ↦ rw alone refl
    | inr linked ↦ absurd (cc (rw linked at e))
  ]
