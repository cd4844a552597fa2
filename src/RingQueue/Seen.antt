-- ===== src/RingQueue/Seen.antt =====
-- What can be seen of a bounded buffer: what it holds, unless it is aborted.
use mathlib.Core.HLevel.{Σ_prop_path}
use native.Mathlib.Bridge.{le_prop}
use tnsparser.Base.{
  ℕ, zero, suc, ◌≤◌, ◌≡◌, refl, sym, ap, Bool, true, false, Option, none, some, List, [], ◌∷◌,
  length, eq_of_some,
}
use tnsparser.RingQueue.Runs.{
  Call, put, get, signal, refused, done, Buffer, buffer_call, buffer_answers,
}

abbrev pub Bounded : ℕ → Type 0
Bounded cap = (l : List ℕ) × (length l ≤ cap)

pub seen-set : (cap : ℕ) → IsSet (Option (Bounded cap))
seen-set cap = hlevel (le_prop)

-- What can be seen of a buffer: nothing behind an abort.
abbrev pub seen : (cap : ℕ) → Bool → (l : List ℕ) → length l ≤ cap → Option (Bounded cap)
seen cap true l h = none
seen cap false l h = some (l, h)

pub seen-some :
    (cap : ℕ) (a : Bool) (l k : List ℕ) (h : length l ≤ cap) (g : length k ≤ cap)
    → a ≡ false
    → k ≡ l
    → seen cap a k g ≡ some (l, h)
seen-some cap false l k h g e same = ap some (Σ_prop_path (λ t. le_prop) same)
seen-some cap true l k h g e same = absurd (cc e)

abbrev pub buffer : List ℕ → Bool → Buffer
buffer l aborted = record { items = l; aborted = aborted }

abbrev pub SameAnswers : ℕ → Buffer → Buffer → Type 0
SameAnswers cap b c = (cs : List Call) → buffer_answers cap cs b ≡ buffer_answers cap cs c

aborted-SameAnswers : (cap : ℕ) (l k : List ℕ) → SameAnswers cap (buffer l true) (buffer k true)
unfolding buffer_answers buffer_call
aborted-SameAnswers cap l k [] = refl
aborted-SameAnswers cap l k (put x ∷ cs) = ap (λ t. refused ∷ t) (aborted-SameAnswers cap l k cs)
aborted-SameAnswers cap l k (get ∷ cs) = ap (λ t. refused ∷ t) (aborted-SameAnswers cap l k cs)
aborted-SameAnswers cap l k (signal ∷ cs) = ap (λ t. done ∷ t) (aborted-SameAnswers cap l k cs)

pub seen-SameAnswers :
    (cap : ℕ) (a b : Bool) (l k : List ℕ) (h : length l ≤ cap) (g : length k ≤ cap)
    → seen cap a l h ≡ seen cap b k g
    → SameAnswers cap (buffer l a) (buffer k b)
seen-SameAnswers cap true true l k h g e = aborted-SameAnswers cap l k
seen-SameAnswers cap false false l k h g e =
    let same : l ≡ k = ap (λ p. p.0) (eq_of_some e) in λ cs. rw same refl
seen-SameAnswers cap true false l k h g e = absurd (cc e)
seen-SameAnswers cap false true l k h g e = absurd (cc e)

abbrev gets : ℕ → List Call
gets zero = []
gets (suc n) = get ∷ gets n

-- Gets tell everything that a buffer holds.
drained :
    (cap : ℕ) (l k : List ℕ)
    → ((n : ℕ)
        → buffer_answers cap (gets n) (buffer l false)
          ≡ buffer_answers cap (gets n) (buffer k false))
    → l ≡ k
unfolding buffer_answers buffer_call
drained cap [] [] h = refl
drained cap [] (y ∷ k) h = absurd (let e = h 1 in cc e)
drained cap (x ∷ l) [] h = absurd (let e = h 1 in cc e)
drained cap (x ∷ l) (y ∷ k) h =
    let first : x ≡ y = (let e = h 1 in cc e) in
    rw first (ap (◌∷◌ y) (drained cap l k (λ n. let e = h (suc n) in cc e)))

told : (cap : ℕ) (l k : List ℕ) → SameAnswers cap (buffer l true) (buffer k false) → ⊥
unfolding buffer_answers buffer_call
told cap l [] h = let e = h (gets 1) in cc e
told cap l (y ∷ k) h = let e = h (gets 1) in cc e

pub SameAnswers-seen :
    (cap : ℕ) (a b : Bool) (l k : List ℕ) (h : length l ≤ cap) (g : length k ≤ cap)
    → SameAnswers cap (buffer l a) (buffer k b)
    → seen cap a l h ≡ seen cap b k g
SameAnswers-seen cap true true l k h g same = refl
SameAnswers-seen cap false false l k h g same =
    ap some (Σ_prop_path (λ t. le_prop) (drained cap l k (λ n. same (gets n))))
SameAnswers-seen cap true false l k h g same = absurd (told cap l k same)
SameAnswers-seen cap false true l k h g same = absurd (told cap k l (λ cs. sym (same cs)))
