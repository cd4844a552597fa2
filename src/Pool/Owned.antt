-- ===== src/Pool/Owned.antt =====
-- Every node of the pool is in exactly one of its two lists.
use tnsparser.Base.{
  none, ℕ, zero, suc, ◌+◌, ◌<◌, ◌≡◌, refl, ◌∙◌, ◌&&◌, none, some, List, [], ◌∷◌, arith, ltb, leb,
  if◌then◌else◌, ne→eqb, ◌⊎◌, inl, inr,
}
use tnsparser.Pool.{
  free_list, use_list, Links, Documented, count, add_loop, mem_pool_create, take_free, taken,
  mem_pool_get, mem_pool_put,
}
use tnsparser.Pool.Counts.{
  free_ne_use, use_ne_free, one, share, held, moved, moved-there, moved-away,
}

module _ (lib : Links) (doc : Documented lib) where
  open lib use {Mem, list_add, list_del, init_list_head}

  -- Each of the `num` nodes is once in one of the two lists, and nothing else is in them.
  abbrev pub Owned : ℕ → Mem → Type 0
  Owned num m =
      (n : ℕ) → count n (doc.items m free_list) + count n (doc.items m use_list) ≡ share num n

  mem_pool_create-free :
      (rounds i : ℕ) (m : Mem) (n : ℕ)
      → count n (doc.items (add_loop lib rounds i m) free_list)
        ≡ count n (doc.items m free_list) + (if leb i n && ltb n (i + rounds) then 1 else 0)
  unfolding add_loop count
  mem_pool_create-free zero i m n = ground arith
  mem_pool_create-free (suc rounds) i m n =
      rw
        (mem_pool_create-free rounds (suc i) (list_add i free_list m) n, doc.add-here i m free_list)
        (ground arith)

  mem_pool_create-use :
      (rounds i : ℕ) (m : Mem) → doc.items (add_loop lib rounds i m) use_list ≡ doc.items m use_list
  unfolding add_loop
  mem_pool_create-use zero i m = refl
  mem_pool_create-use (suc rounds) i m =
      mem_pool_create-use rounds (suc i) (list_add i free_list m)
      ∙ doc.add-other i m free_list use_list free_ne_use

  -- If the list functions do what list.h documents, a pool of a positive number of nodes starts with
  -- each of them free, once.
  pub mem_pool_create-Owned :
      (num : ℕ) (mem : Mem)
      → 0 < num
      → (m : Mem) × (mem_pool_create lib num (some mem) ≡ some (some m))
        × Owned num m
        × (doc.items m use_list ≡ [])
  unfolding mem_pool_create count
  mem_pool_create-Owned num mem pos = rw (ne→eqb num 0 (omega arith)) (_, refl, all_free, none_used)
    where
      start : Mem
      start = init_list_head use_list (init_list_head free_list mem)

      free_start : doc.items start free_list ≡ []
      free_start =
          doc.init-other (init_list_head free_list mem) use_list free_list use_ne_free
          ∙ doc.init-here mem free_list

      none_used : doc.items (add_loop lib num 0 start) use_list ≡ []
      none_used =
          mem_pool_create-use num 0 start ∙ doc.init-here (init_list_head free_list mem) use_list

      all_free : Owned num (add_loop lib num 0 start)
      all_free n = rw (mem_pool_create-free num 0 start n, free_start, none_used) (ground arith)

  -- The same with how often each node is in use afterwards.
  pub mem_pool_get-cases :
      (num : ℕ) (m : Mem)
      → Owned num m
      → ((doc.items m free_list ≡ []) × (mem_pool_get lib m ≡ (none, m)))
        ⊎ ((n : ℕ) × (m' : Mem) × (mem_pool_get lib m ≡ (some n, m'))
            × (n < num)
            × (count n (doc.items m free_list) ≡ 1)
            × (count n (doc.items m use_list) ≡ 0)
            × Owned num m'
            × (count n (doc.items m' use_list) ≡ 1)
            × ((x : ℕ)
                → count x (doc.items m' use_list) ≡ one x n + count x (doc.items m use_list)))
  unfolding mem_pool_get taken take_free
  mem_pool_get-cases num m owned = cases (doc.items m free_list) refl
    where
      cases :
          (l : List ℕ)
          → doc.items m free_list ≡ l
          → ((doc.items m free_list ≡ []) × (mem_pool_get lib m ≡ (none, m)))
            ⊎ ((n : ℕ) × (m' : Mem) × (mem_pool_get lib m ≡ (some n, m'))
                × (n < num)
                × (count n (doc.items m free_list) ≡ 1)
                × (count n (doc.items m use_list) ≡ 0)
                × Owned num m'
                × (count n (doc.items m' use_list) ≡ 1)
                × ((x : ℕ)
                    → count x (doc.items m' use_list) ≡ one x n + count x (doc.items m use_list)))
      cases [] e = inl (e, rw (doc.first-items m free_list, e))
      cases (n ∷ l) e =
          let (own, once, unused) =
            held num n l (doc.items m free_list) (count n (doc.items m use_list)) e (owned n) in
          let (kept, used) =
            moved lib doc num n m free_list use_list free_ne_use use_ne_free owned once in
          inr (
            n,
            take_free lib n m,
            rw (doc.first-items m free_list, e),
            own,
            once,
            unused,
            kept,
            used,
            moved-there lib doc n m free_list use_list once unused,
          )

  -- If the list functions do what list.h documents: from a pool whose nodes are each once in one of
  -- its lists, mem_pool_get waits only if no node is free, and changes nothing then; else it returns a
  -- node of the pool that was free and not in use, and is in use now. Every node stays once in one of
  -- the lists.
  pub mem_pool_get-Owned :
      (num : ℕ) (m : Mem)
      → Owned num m
      → ((doc.items m free_list ≡ []) × (mem_pool_get lib m ≡ (none, m)))
        ⊎ ((n : ℕ) × (m' : Mem) × (mem_pool_get lib m ≡ (some n, m'))
            × (n < num)
            × (count n (doc.items m free_list) ≡ 1)
            × (count n (doc.items m use_list) ≡ 0)
            × Owned num m'
            × (count n (doc.items m' use_list) ≡ 1))
  mem_pool_get-Owned num m owned = elim (mem_pool_get-cases num m owned) [
    | inl waits ↦ inl waits
    | inr (n, m', e, own, once, unused, kept, used, counts) ↦
        inr (n, m', e, own, once, unused, kept, used)
  ]

  pub mem_pool_put-cases :
      (num n : ℕ) (m : Mem)
      → Owned num m
      → count n (doc.items m use_list) ≡ 1
      → (m' : Mem) × (mem_pool_put lib (some n) m ≡ (0, m', none))
        × Owned num m'
        × (count n (doc.items m' free_list) ≡ 1)
        × ((x : ℕ) → count x (doc.items m use_list) ≡ one x n + count x (doc.items m' use_list))
  unfolding mem_pool_put
  mem_pool_put-cases num n m owned used =
      let (kept, free) =
        moved lib doc num n m use_list free_list use_ne_free free_ne_use
          (λ x. omega (arith, owned x)) used in
      rw (doc.linked n m use_list (omega (arith, used))) (
        _,
        refl,
        (λ x. omega (arith, kept x)),
        free,
        moved-away lib doc n m use_list free_list free_ne_use used,
      )

  -- If the list functions do what list.h documents: in a pool whose nodes are each once in one of its
  -- lists, putting back a node that is in use returns 0 and makes it free; every node stays once in
  -- one of the lists.
  pub mem_pool_put-Owned :
      (num n : ℕ) (m : Mem)
      → Owned num m
      → count n (doc.items m use_list) ≡ 1
      → (m' : Mem) × (mem_pool_put lib (some n) m ≡ (0, m', none))
        × Owned num m'
        × (count n (doc.items m' free_list) ≡ 1)
  mem_pool_put-Owned num n m owned used =
      let (m', e, kept, free, counts) = mem_pool_put-cases num n m owned used in (m', e, kept, free)
