-- ===== src/Pool/Examples.antt =====
-- The packet pool on two plain lists.
use tnsparser.Base.{refl, none, ◌==◌, if◌then◌else◌, ℕ, ◌≡◌, ◌≢◌, some, [], ◌∷◌, arith}
use tnsparser.Pool.Clone.{mem_pool_put-clone}
use tnsparser.Pool.{Head, mem_pool_clone, count, Contents, mem_pool_put_block}
use tnsparser.Pool.Owned.{Owned}
use tnsparser.Pool.TwoLists.{TwoLists, entries, two_lists, two_lists-Documented}

abbrev one_used : TwoLists
one_used = (1 ∷ 0 ∷ [], 2 ∷ [])

one_used-Owned : Owned two_lists two_lists-Documented 3 one_used
unfolding count
one_used-Owned n = ground arith

-- The three nodes have three bytes each; two of node 2 are cloned into a block at place 7.
abbrev bytes : Contents
bytes n = if n == 7 then none else some (1 ∷ 2 ∷ n ∷ [])

mem_pool_put-clone_example :
    (contents' contents'' : Contents) × (m : TwoLists) × (mem_pool_clone two_lists 2 2
        (some 7)
        bytes
        one_used
      ≡ some (some 7, contents', m))
    × (contents' 7 ≡ some (1 ∷ 2 ∷ []))
    × ((k : ℕ) → k ≢ 7 → contents' k ≡ bytes k)
    × ((h : Head) → entries m h ≡ entries one_used h)
    × (mem_pool_put_block two_lists (some 7) contents' m ≡ some (0, contents'', m))
    × ((k : ℕ) → contents'' k ≡ bytes k)
    × (mem_pool_put_block two_lists (some 7) contents'' m ≡ none)
mem_pool_put-clone_example =
    mem_pool_put-clone two_lists two_lists-Documented 3 2 2 7 bytes (1 ∷ 2 ∷ 2 ∷ []) one_used
      one_used-Owned (omega arith) refl refl (omega arith)
