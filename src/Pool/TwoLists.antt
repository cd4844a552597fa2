-- ===== src/Pool/TwoLists.antt =====
-- Two plain lists, which do what list.h documents.
use tnsparser.Base.{ℕ, ◌+◌, ◌<◌, ◌≡◌, refl, ◌≢◌, false, true, List, [], ◌∷◌, arith, ◌==◌}
use tnsparser.Pool.{Head, free_list, use_list, Links, Documented, count, without, first_of}

abbrev pub TwoLists : Type 0
TwoLists = List ℕ × List ℕ

abbrev pub entries : TwoLists → Head → List ℕ
entries (f, u) free_list = f
entries (f, u) use_list = u

abbrev pub with_entries : Head → List ℕ → TwoLists → TwoLists
with_entries free_list l (f, u) = (l, u)
with_entries use_list l (f, u) = (f, l)

abbrev pub two_lists : Links
two_lists = record {
  Mem = TwoLists;
  init_list_head = λ h m. with_entries h [] m;
  list_add = λ n h m. with_entries h (n ∷ entries m h) m;
  list_del = λ n m. (without n m.0, without n m.1);
  first = λ h m. first_of (entries m h);
  no_links = λ n m. (count n m.0 + count n m.1) == 0;
  clear_links = λ n m. m;
}

pub here : (m : TwoLists) (h : Head) (l : List ℕ) → entries (with_entries h l m) h ≡ l
here (f, u) free_list l = refl
here (f, u) use_list l = refl

pub there :
    (m : TwoLists) (h k : Head) (l : List ℕ) → h ≢ k → entries (with_entries h l m) k ≡ entries m k
there (f, u) free_list free_list l ne = absurd (ne refl)
there (f, u) free_list use_list l ne = refl
there (f, u) use_list free_list l ne = refl
there (f, u) use_list use_list l ne = absurd (ne refl)

pub without-entries :
    (n : ℕ) (m : TwoLists) (k : Head)
    → entries (without n m.0, without n m.1) k ≡ without n (entries m k)
without-entries n (f, u) free_list = refl
without-entries n (f, u) use_list = refl

pub some_link :
    (n : ℕ) (m : TwoLists) (h : Head)
    → 0 < count n (entries m h)
    → ((count n m.0 + count n m.1) == 0) ≡ false
some_link n (f, u) free_list pos = ground arith
some_link n (f, u) use_list pos = ground arith

pub no_link :
    (n : ℕ) (m : TwoLists)
    → count n (entries m free_list) ≡ 0
    → count n (entries m use_list) ≡ 0
    → ((count n m.0 + count n m.1) == 0) ≡ true
no_link n (f, u) e g = ground arith

abbrev pub two_lists-Documented : Documented two_lists
two_lists-Documented = record {
  items = entries;
  first-items = λ m h. refl;
  init-here = λ m h. here m h [];
  init-other = λ m h k ne. there m h k [] ne;
  add-here = λ n m h. here m h (n ∷ entries m h);
  add-other = λ n m h k ne. there m h k (n ∷ entries m h) ne;
  del = λ n m h k pos. without-entries n m k;
  clear = λ n m h. (no_link n m (h free_list) (h use_list), λ k. refl);
  linked = some_link;
}
