-- ===== src/Pool.antt =====
-- The packet pool: src/mempool.c. A node is known by its place in the allocated block. The lists of
-- nodes are those of list.h, whose functions the operations take as a parameter: the memory with all
-- links is a value of their type Mem.
pub mod Counts
pub mod Owned
pub mod Clone
pub mod TwoLists
mod Examples
use tnsparser.Base.{
  ℕ, zero, suc, ◌+◌, ◌≡◌, ◌≢◌, ◌<◌, Bool, false, Option, none, some, List, [], ◌∷◌, ◌==◌,
  if◌then◌else◌, leb, length, take, true, not, ◌>>=◌,
}

-- The two heads of struct mem_pool_st.
pub data Head : Type 0 where
  free_list use_list : Head

-- `first` is the entry behind a head, `none` where list_empty holds; `no_links` tells whether both
-- links of an entry are null, as `clear_links` sets them in memory that is not in a list.
pub record Links : Type 1 where
  pub Mem : Type 0
  pub init_list_head : Head → Mem → Mem
  pub list_add : ℕ → Head → Mem → Mem
  pub list_del : ℕ → Mem → Mem
  pub first : Head → Mem → Option ℕ
  pub no_links : ℕ → Mem → Bool
  pub clear_links : ℕ → Mem → Mem

-- How often a node stands in a list.
unfoldable pub count : ℕ → List ℕ → ℕ
count n [] = 0
count n (x ∷ xs) = (if n == x then 1 else 0) + count n xs

unfoldable pub without : ℕ → List ℕ → List ℕ
without n [] = []
without n (x ∷ xs) = let rest = without n xs in if n == x then rest else x ∷ rest

abbrev pub first_of : List ℕ → Option ℕ
first_of [] = none
first_of (x ∷ xs) = some x

-- What list.h documents: the entries of a list in order, a new one behind the head, and one that is
-- in a list taken out of it. The links of an entry that is in no list are its own.
pub record Documented (lib : Links) : Type 0 where
  pub items : lib.Mem → Head → List ℕ
  pub first-items : (m : lib.Mem) (h : Head) → lib.first h m ≡ first_of (items m h)
  pub init-here : (m : lib.Mem) (h : Head) → items (lib.init_list_head h m) h ≡ []
  pub init-other : (m : lib.Mem) (h k : Head) → h ≢ k → items (lib.init_list_head h m) k ≡ items m k
  pub add-here : (n : ℕ) (m : lib.Mem) (h : Head) → items (lib.list_add n h m) h ≡ n ∷ items m h
  pub add-other :
      (n : ℕ) (m : lib.Mem) (h k : Head) → h ≢ k → items (lib.list_add n h m) k ≡ items m k
  pub del :
      (n : ℕ) (m : lib.Mem) (h k : Head)
      → 0 < count n (items m h)
      → items (lib.list_del n m) k ≡ without n (items m k)
  pub clear :
      (n : ℕ) (m : lib.Mem)
      → ((h : Head) → count n (items m h) ≡ 0)
      → (lib.no_links n (lib.clear_links n m) ≡ true)
        × ((h : Head) → items (lib.clear_links n m) h ≡ items m h)
  pub linked : (n : ℕ) (m : lib.Mem) (h : Head) → 0 < count n (items m h) → lib.no_links n m ≡ false

-- The bytes of each block that is allocated.
abbrev pub Contents : Type 0
Contents = ℕ → Option (List ℕ)

-- The allocated memory behind a call of free, if there is one.
unfoldable pub released : Option ℕ → Contents → Contents
released none contents = contents
released (some n) contents = λ k. if k == n then none else contents k

module _ (lib : Links) where
  open lib use {Mem, init_list_head, list_add, list_del, first, no_links, clear_links}

  unfoldable pub add_loop : ℕ → ℕ → Mem → Mem
  add_loop zero i m = m
  add_loop (suc rounds) i m = add_loop rounds (suc i) (list_add i free_list m)

  -- In the memory that malloc returned, if it did. The inner `none` is the null pointer for no nodes;
  -- the result of malloc is not looked at, so the outer one is the write through its null pointer.
  unfoldable pub mem_pool_create : ℕ → Option Mem → Option (Option Mem)
  unfolding add_loop
  mem_pool_create num none = if num == 0 then some none else none
  mem_pool_create num (some mem) =
      if num == 0
      then some none
      else some (some (add_loop num 0 (init_list_head use_list (init_list_head free_list mem))))

  -- Behind the wait, or without one.
  unfoldable pub take_free : ℕ → Mem → Mem
  take_free n m = list_add n use_list (list_del n m)

  unfoldable pub taken : Mem → Option ℕ → Option ℕ × Mem
  unfolding take_free
  taken m none = (none, m)
  taken m (some n) = (some n, take_free n m)

  -- `none` is a call that ends in pthread_cond_wait.
  unfoldable pub mem_pool_get : Mem → Option ℕ × Mem
  mem_pool_get m = taken m (first free_list m)

  -- Behind the wait, which stands under an if: an empty list's head is taken for a node, and the
  -- memory behind it for a packet.
  unfoldable pub behind_wait : Mem → Option ℕ → Option (ℕ × Mem)
  unfolding take_free
  behind_wait m none = none
  behind_wait m (some n) = some (n, take_free n m)

  unfoldable pub mem_pool_get_woken : Mem → Option (ℕ × Mem)
  unfolding behind_wait
  mem_pool_get_woken m = behind_wait m (first free_list m)

  -- The result 1 for a null pointer; a clone, which has no links, is given to free, and is the last
  -- component.
  unfoldable pub mem_pool_put : Option ℕ → Mem → ℕ × Mem × Option ℕ
  mem_pool_put none m = (1, m, none)
  mem_pool_put (some n) m =
      if no_links n m then (0, m, some n) else (0, list_add n free_list (list_del n m), none)

  -- Of the memory behind a node, by the block that malloc returns, if it does; `contents` are the
  -- bytes of each allocated block, and `none` is a copy from no block or of more bytes than it has.
  unfoldable pub copied :
      ℕ → ℕ → Contents → Mem → Option (List ℕ) → Option (Option ℕ × Contents × Mem)
  copied size list contents m none = none
  copied size list contents m (some bytes) =
      if leb size (length bytes)
      then some (
        some list,
        λ k. if k == list then some (take size bytes) else contents k,
        clear_links list m,
      )
      else none

  unfoldable pub mem_pool_clone :
      ℕ → ℕ → Option ℕ → Contents → Mem → Option (Option ℕ × Contents × Mem)
  unfolding copied
  mem_pool_clone node size none contents m = some (none, contents, m)
  mem_pool_clone node size (some list) contents m = copied size list contents m (contents node)

  -- mem_pool_put with what it does to the allocated memory: the links of a block that is not allocated
  -- may not be read, and the block that is given to free is allocated no more.
  unfoldable pub mem_pool_put_block : Option ℕ → Contents → Mem → Option (ℕ × Contents × Mem)
  unfolding mem_pool_put released
  mem_pool_put_block none contents m = some (1, contents, m)
  mem_pool_put_block (some n) contents m = contents n >>= λ bytes.
      let (ret, m', block) = mem_pool_put (some n) m in some (ret, released block contents, m')

  -- Whether mem_pool_put comes to its pthread_cond_signal.
  unfoldable pub put_signals : Option ℕ → Mem → Bool
  put_signals none m = false
  put_signals (some n) m = not (no_links n m)

-- The block of a pool, or memory that was given back.
pub data Block (lib : Links) : Type 0 where
  pool : lib.Mem → Block lib
  freed : Block lib

-- The mutex and the condition are destroyed as well; a second free is undefined.
unfoldable pub mem_pool_destroy : (lib : Links) → Block lib → Option (Block lib)
mem_pool_destroy lib (pool m) = some freed
mem_pool_destroy lib freed = none
