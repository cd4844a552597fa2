-- ===== src/Pool/Clone.antt =====
-- A clone of a node, and what mem_pool_put makes of it.
use tnsparser.Base.{
  none, inl, inr, sym, eqb-cases, ℕ, ◌≤◌, ◌≡◌, ◌≢◌, refl, some, List, arith, ◌==◌, if◌then◌else◌,
  length, take, le→leb, eqb_self, ne→eqb,
}
use tnsparser.Pool.{
  Head, free_list, use_list, Links, Documented, Contents, count, copied, released, mem_pool_put,
  mem_pool_put_block, mem_pool_clone,
}
use tnsparser.Pool.Counts.{share}
use tnsparser.Pool.Owned.{Owned}

share-outside : (num n : ℕ) → num ≤ n → share num n ≡ 0
share-outside num n h = ground arith

module _ (lib : Links) (doc : Documented lib) where
  absent :
      (num list : ℕ) (m : lib.Mem)
      → Owned lib doc num m
      → num ≤ list
      → (h : Head) → count list (doc.items m h) ≡ 0
  absent num list m owned outside free_list =
      omega (arith, owned list, share-outside num list outside)
  absent num list m owned outside use_list =
      omega (arith, owned list, share-outside num list outside)

  -- If the list functions do what list.h documents: a clone of at most as many bytes as a node has,
  -- in a block that malloc gives, which was not allocated and is no node of the pool, holds the
  -- node's first bytes and changes no other block and neither list of the pool; putting it back
  -- returns 0, changes neither list and frees it, so that the allocated memory is as it was before;
  -- and putting it back again reads freed memory.
  pub mem_pool_put-clone :
      (num node size list : ℕ) (contents : Contents) (bytes : List ℕ) (m : lib.Mem)
      → Owned lib doc num m
      → num ≤ list
      → contents list ≡ none
      → contents node ≡ some bytes
      → size ≤ length bytes
      → (contents' contents'' : Contents) × (m' : lib.Mem) × (mem_pool_clone lib node size
            (some list)
            contents
            m
          ≡ some (some list, contents', m'))
        × (contents' list ≡ some (take size bytes))
        × ((k : ℕ) → k ≢ list → contents' k ≡ contents k)
        × ((h : Head) → doc.items m' h ≡ doc.items m h)
        × (mem_pool_put_block lib (some list) contents' m' ≡ some (0, contents'', m'))
        × ((k : ℕ) → contents'' k ≡ contents k)
        × (mem_pool_put_block lib (some list) contents'' m' ≡ none)
  unfolding mem_pool_clone copied mem_pool_put mem_pool_put_block released
  mem_pool_put-clone num node size list contents bytes m owned outside unused there room =
      let (cleared, same) = doc.clear list m (absent num list m owned outside) in
      let contents' : Contents = λ k. if k == list then some (take size bytes) else contents k in
      (
        contents',
        λ k. if k == list then none else contents' k,
        lib.clear_links list m,
        rw (there, le→leb size (length bytes) room) refl,
        rw (eqb_self list) refl,
        λ k other. rw (ne→eqb k list other) refl,
        same,
        rw (eqb_self list, cleared) refl,
        λ k. elim (eqb-cases k list) [
          | inl e ↦ rw (e, eqb_self list) (sym unused)
          | inr other ↦ rw (ne→eqb k list other) refl
        ],
        rw (eqb_self list) refl,
      )
