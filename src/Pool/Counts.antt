-- ===== src/Pool/Counts.antt =====
-- How often a node stands in the lists of the pool when one of them changes.
use tnsparser.Base.{
  ℕ, suc, ◌+◌, ◌<◌, ◌≡◌, refl, ap, ◌∙◌, ◌≢◌, List, [], ◌∷◌, arith, ltb, ◌==◌, if◌then◌else◌,
  eqb_self, ne→eqb,
}
use native.Mathlib.Decide.{ℕ_discrete}
use tnsparser.Pool.{Head, free_list, use_list, Links, Documented, count, without}

pub count-without_self : (n : ℕ) (xs : List ℕ) → count n (without n xs) ≡ 0
unfolding count without
count-without_self n [] = refl
count-without_self n (x ∷ xs) = ground (arith, count-without_self n xs)

pub count-without_ne : (n k : ℕ) (xs : List ℕ) → k ≢ n → count k (without n xs) ≡ count k xs
unfolding count without
count-without_ne n k [] ne = refl
count-without_ne n k (x ∷ xs) ne = ground (arith, count-without_ne n k xs ne)

pub free_ne_use : free_list ≢ use_list
free_ne_use e = cc

pub use_ne_free : use_list ≢ free_list
use_ne_free e = cc

-- Whether two nodes are the same.
abbrev pub one : ℕ → ℕ → ℕ
one x n = if x == n then 1 else 0

-- Whether a node is one of the pool's.
abbrev pub share : ℕ → ℕ → ℕ
share num n = if ltb n num then 1 else 0

-- A node that heads a list of a balanced pool is there once, and in no other list.
pub held :
    (num n : ℕ) (l xs : List ℕ) (other : ℕ)
    → xs ≡ n ∷ l
    → count n xs + other ≡ share num n
    → (n < num) × (count n xs ≡ 1) × (other ≡ 0)
unfolding count
held num n l xs other e h =
    let c : count n xs ≡ suc (count n l) = rw (e, eqb_self n) (omega arith) in ground arith

module _ (lib : Links) (doc : Documented lib) where
  open lib use {Mem, list_add, list_del, init_list_head}

  -- A node that changes its list.
  pub moved :
      (num n : ℕ) (m : Mem) (h k : Head)
      → h ≢ k
      → k ≢ h
      → ((x : ℕ) → count x (doc.items m h) + count x (doc.items m k) ≡ share num x)
      → count n (doc.items m h) ≡ 1
      → ((x : ℕ)
          → count x (doc.items (list_add n k (list_del n m)) h)
              + count x (doc.items (list_add n k (list_del n m)) k)
            ≡ share num x)
        × (count n (doc.items (list_add n k (list_del n m)) k) ≡ 1)
  unfolding count
  moved num n m h k hk kh owned once = (
    λ x. rw (left, here) (balanced x (ℕ_discrete x n)),
    rw (here, eqb_self n) (omega (arith, count-without_self n (doc.items m k))),
  )
    where
      left : doc.items (list_add n k (list_del n m)) h ≡ without n (doc.items m h)
      left = doc.add-other n (list_del n m) k h kh ∙ doc.del n m h h (omega arith)

      here : doc.items (list_add n k (list_del n m)) k ≡ n ∷ without n (doc.items m k)
      here = doc.add-here n (list_del n m) k ∙ ap (◌∷◌ n) (doc.del n m h k (omega arith))

      balanced :
          (x : ℕ)
          → Dec (x ≡ n)
          → count x (without n (doc.items m h)) + count x (n ∷ without n (doc.items m k))
            ≡ share num x
      balanced x (yes same) =
          rw (same, eqb_self n)
            (ground (
              arith,
              count-without_self n (doc.items m h),
              count-without_self n (doc.items m k),
              owned n,
            ))
      balanced x (no differs) =
          rw
            (
              ne→eqb x n differs,
              count-without_ne n x (doc.items m h) differs,
              count-without_ne n x (doc.items m k) differs,
            )
            (omega (arith, owned x))

  -- The list that the node goes to, and the one that it leaves.
  pub moved-there :
      (n : ℕ) (m : Mem) (h k : Head)
      → count n (doc.items m h) ≡ 1
      → count n (doc.items m k) ≡ 0
      → (x : ℕ)
      → count x (doc.items (list_add n k (list_del n m)) k) ≡ one x n + count x (doc.items m k)
  unfolding count
  moved-there n m h k once absent x =
      rw (doc.add-here n (list_del n m) k, doc.del n m h k (omega arith))
        (same_count (ℕ_discrete x n))
    where
      same_count :
          Dec (x ≡ n)
          → one x n + count x (without n (doc.items m k)) ≡ one x n + count x (doc.items m k)
      same_count (yes same) = rw same (omega (arith, count-without_self n (doc.items m k), absent))
      same_count (no differs) = rw (count-without_ne n x (doc.items m k) differs)

  pub moved-away :
      (n : ℕ) (m : Mem) (h k : Head)
      → k ≢ h
      → count n (doc.items m h) ≡ 1
      → (x : ℕ)
      → count x (doc.items m h) ≡ one x n + count x (doc.items (list_add n k (list_del n m)) h)
  moved-away n m h k kh once x =
      rw (doc.add-other n (list_del n m) k h kh, doc.del n m h h (omega arith))
        (same_count (ℕ_discrete x n))
    where
      same_count :
          Dec (x ≡ n) → count x (doc.items m h) ≡ one x n + count x (without n (doc.items m h))
      same_count (yes same) =
          rw (same, eqb_self n) (omega (arith, count-without_self n (doc.items m h), once))
      same_count (no differs) =
          rw (ne→eqb x n differs, count-without_ne n x (doc.items m h) differs) (omega arith)
