-- ===== src/Visible/Longest.antt =====
-- The run that parse_continuous_visible_characters finds is printable, lies in the input and is
-- the longest of its kind.
use tnsparser.Base.{
  ℕ, zero, suc, ◌+◌, ◌-◌, ◌≤◌, ◌<◌, ◌≡◌, refl, ◌⊎◌, inl, inr, Bool, true, false, none, some, List,
  arith, leb, ltb, if◌then◌else◌, length, get_elem?, Bool-cases, get_elem?-lt, get_elem?-ge, subst,
}
use native.Mathlib.Decide.{dec_lt, ℕ_discrete}
use tnsparser.Visible.{
  visible, Runs, close_run, visible_step, visible_loop, Found, found,
  parse_continuous_visible_characters,
}

-- Is there a printable character at the offset?
abbrev pub visible_at : List ℕ → ℕ → Bool
visible_at bufin k = elim (get_elem? bufin k) [ none ↦ false | some c ↦ visible c ]

-- The `n` characters from `a` on are printable.
abbrev pub IsRun : List ℕ → ℕ → ℕ → Type 0
IsRun bufin a n = (k : ℕ) → a ≤ k → k < a + n → visible_at bufin k ≡ true

-- What the loop knows in front of offset `i`.
record Knows (bufin : List ℕ) (i : ℕ) (s : Runs) : Type 0 where
  open_le : s.current ≤ i
  open_run : IsRun bufin (i - s.current) s.current
  best_le : s.start + s.longest ≤ i
  best_run : IsRun bufin s.start s.longest
  open_max : (b m : ℕ) → b + m ≡ i → IsRun bufin b m → m ≤ s.current
  best_max : (b m : ℕ) → b + m ≤ i → IsRun bufin b m → (m ≤ s.longest) ⊎ (m ≤ s.current)

module _ (bufin : List ℕ) (i : ℕ) (s : Runs) (known : Knows bufin i s) where
  close_run-le : (close_run i s).start + (close_run i s).longest ≤ i
  unfolding close_run
  close_run-le = ground (arith, known.open_le, known.best_le)

  close_run-IsRun : IsRun bufin (close_run i s).start (close_run i s).longest
  unfolding close_run
  close_run-IsRun = elim (Bool-cases (leb s.longest s.current)) [
    | inl longer ↦ rw longer known.open_run
    | inr shorter ↦ rw shorter known.best_run
  ]

  close_run-max : (m : ℕ) → (m ≤ s.longest) ⊎ (m ≤ s.current) → m ≤ (close_run i s).longest
  unfolding close_run
  close_run-max m h = ground arith

  IsRun-before : (b m : ℕ) → IsRun bufin b m → IsRun bufin b (m - 1)
  IsRun-before b m r k lo hi = r k lo (omega arith)

  not_in_run : (b m : ℕ) → visible_at bufin i ≡ false → IsRun bufin b m → b ≤ i → i < b + m → ⊥
  not_in_run b m v r lo hi = cc (r i lo hi)

  open_max_suc : (b m : ℕ) → b + m ≡ suc i → IsRun bufin b m → m ≤ s.current + 1
  open_max_suc b m e r = elim (dec_lt 0 m) [
    | yes p ↦ omega (arith, known.open_max b (m - 1) (omega arith) (IsRun-before b m r))
    | no p ↦ omega arith
  ]

  best_max_suc : (b m : ℕ) → b + m ≤ suc i → IsRun bufin b m → (m ≤ s.longest) ⊎ (m ≤ s.current + 1)
  best_max_suc b m e r = elim (dec_lt i (b + m)) [
    | yes p ↦ inr (open_max_suc b m (omega arith) r)
    | no p ↦ omega (arith, known.best_max b m (omega arith) r)
  ]

  -- A run that ends behind a printable character at `i` is one longer than one that ends there.
  extended : visible_at bufin i ≡ true → Knows bufin (suc i) (record s { current = s.current + 1 })
  extended v = record {
    open_le = omega (arith, known.open_le);
    open_run = λ k lo hi. elim (ℕ_discrete k i) [
      | yes e ↦ rw e v
      | no ne ↦ known.open_run k (omega arith) (omega (arith, known.open_le))
    ];
    best_le = omega (arith, known.best_le);
    best_run = known.best_run;
    open_max = open_max_suc;
    best_max = best_max_suc;
  }

  closed : visible_at bufin i ≡ false → Knows bufin (suc i) (record (close_run i s) { current = 0 })
  closed v = record {
    open_le = omega arith;
    open_run = λ k lo hi. absurd (omega arith);
    best_le = omega (arith, close_run-le);
    best_run = close_run-IsRun;
    open_max = λ b m e r. elim (dec_lt 0 m) [
      | yes p ↦ absurd (not_in_run b m v r (omega arith) (omega arith))
      | no p ↦ omega arith
    ];
    best_max = λ b m e r. elim (dec_lt i (b + m)) [
      | yes p ↦ elim (dec_lt 0 m) [
        | yes q ↦ absurd (not_in_run b m v r (omega arith) (omega arith))
        | no q ↦ inr (omega arith)
      ]
      | no p ↦ inl (close_run-max m (known.best_max b m (omega arith) r))
    ];
  }

visible_step-Knows :
    (bufin : List ℕ) (i c : ℕ) (s : Runs)
    → get_elem? bufin i ≡ some c
    → Knows bufin i s
    → Knows bufin (suc i) (visible_step i c s)
unfolding visible_step
visible_step-Knows bufin i c s e known = elim (Bool-cases (visible c)) [
  | inl v ↦ rw v (extended bufin i s known (rw (e, visible_at) v))
  | inr v ↦ rw v (closed bufin i s known (rw (e, visible_at) v))
]

Knows-start : (bufin : List ℕ) → Knows bufin 0 (record { current = 0; longest = 0; start = 0 })
Knows-start bufin = record {
  open_le = omega arith;
  open_run = λ k lo hi. absurd (omega arith);
  best_le = omega arith;
  best_run = λ k lo hi. absurd (omega arith);
  open_max = λ b m e r. omega arith;
  best_max = λ b m e r. omega arith;
}

not_positive : (n : ℕ) → ltb 0 n ≡ false → n ≡ 0
not_positive n h = ground arith

-- The loop passes `rounds` characters, or faults if they are not all there.
visible_loop-Knows :
    (bufin : List ℕ) (rounds i j : ℕ) (s : Runs)
    → i + rounds ≡ j
    → j ≤ length bufin
    → Knows bufin i s
    → (t : Runs) × (visible_loop bufin rounds i s ≡ some t) × Knows bufin j t
unfolding visible_loop
visible_loop-Knows bufin zero i j s e room known =
    (s, refl, subst (λ k. Knows bufin k s) (omega arith) known)
visible_loop-Knows bufin (suc rounds) i j s e room known =
    let (c, here) = get_elem?-lt bufin i (omega arith) in
    rw here (
      visible_loop-Knows bufin rounds (suc i) j (visible_step i c s) (omega arith) room
        (visible_step-Knows bufin i c s here known))

-- What is left when the last run is closed.
pub record Finds (bufin : List ℕ) (inlen : ℕ) (f : Found) : Type 0 where
  pub within : f.ptr + (f.outlen - 1) ≤ inlen
  pub printable : IsRun bufin f.ptr (f.outlen - 1)
  pub longest : (b m : ℕ) → b + m ≤ inlen → IsRun bufin b m → m < f.outlen

found-Finds :
    (bufin : List ℕ) (n : ℕ) (s : Runs)
    → Knows bufin n s
    → Finds bufin n (found (if ltb 0 s.current then close_run n s else s))
unfolding found
found-Finds bufin n s known = elim (Bool-cases (ltb 0 s.current)) [
  | inl more ↦ rw more (record {
    within = omega (arith, close_run-le bufin n s known);
    printable = λ k lo hi. close_run-IsRun bufin n s known k lo (omega arith);
    longest = λ b m e r. omega (arith, close_run-max bufin n s known m (known.best_max b m e r));
  })
  | inr done ↦ rw done (record {
    within = omega (arith, known.best_le);
    printable = λ k lo hi. known.best_run k lo (omega arith);
    longest = λ b m e r. omega (arith, known.best_max b m e r, not_positive s.current done);
  })
]

-- On an input that can be read as far as its length says, the function returns a run of printable
-- characters that lies inside the input, and `*outlen` is one more than its length; no run of
-- printable characters in the input is longer.
pub parse_continuous_visible_characters-Finds :
    (bufin : List ℕ) (inlen : ℕ)
    → inlen ≤ length bufin
    → (f : Found) × (parse_continuous_visible_characters bufin inlen ≡ some f) × Finds bufin inlen f
unfolding parse_continuous_visible_characters
parse_continuous_visible_characters-Finds bufin inlen room =
    let start : Runs = record { current = 0; longest = 0; start = 0 } in
    let (s, e, known) =
      visible_loop-Knows bufin inlen 0 inlen start (omega arith) room (Knows-start bufin) in
    rw e (_, refl, found-Finds bufin inlen s known)

visible_loop-short :
    (bufin : List ℕ) (rounds i : ℕ) (s : Runs)
    → i ≤ length bufin
    → length bufin < i + rounds
    → visible_loop bufin rounds i s ≡ none
unfolding visible_loop
visible_loop-short bufin zero i s lo h = absurd (omega arith)
visible_loop-short bufin (suc rounds) i s lo h = elim (dec_lt i (length bufin)) [
  | yes p ↦
      let (c, here) = get_elem?-lt bufin i p in
      rw here
        (visible_loop-short bufin rounds (suc i) (visible_step i c s) (omega arith) (omega arith))
  | no p ↦ rw (get_elem?-ge bufin i (omega arith))
]

-- An input that is shorter in memory than its length says is read behind its end.
pub parse_continuous_visible_characters-short :
    (bufin : List ℕ) (inlen : ℕ)
    → length bufin < inlen
    → parse_continuous_visible_characters bufin inlen ≡ none
unfolding parse_continuous_visible_characters
parse_continuous_visible_characters-short bufin inlen h = rw (
    visible_loop-short bufin inlen 0 (record { current = 0; longest = 0; start = 0 }) (omega arith)
      (omega arith))
