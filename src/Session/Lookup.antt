-- ===== src/Session/Lookup.antt =====
-- What sess_must_find_node returns, and what it leaves of the table.
use tnsparser.Base.{
  ℕ, zero, suc, ◌≡◌, refl, sym, ap, ◌∙◌, ◌⊎◌, inl, inr, true, false, Option, none, some, List, [],
  ◌∷◌, arith, Bool-cases, All, subst, eq_of_some,
}
use tnsparser.Session.{
  Direction, request, response, TnsSession, SessKey, sess_key, same_key, find_sess, found_or_taken,
  sess_must_find_node, stat_init,
}

pub same_key→eq : (a b : SessKey) → same_key a b ≡ true → a ≡ b
unfolding same_key
same_key→eq a b h = ground arith

pub same_key_self : (a : SessKey) → same_key a a ≡ true
unfolding same_key
same_key_self a = ground arith

-- No slot has the key.
abbrev pub IsMissing : SessKey → List TnsSession → Type 0
IsMissing key = All (λ s. same_key s.key key ≡ false)

-- The slot `i` holds the key, no slot in front of it does, and the table `after` has the new time
-- there and is otherwise the table `before`.
pub data Touched (key : SessKey) (now : ℕ) : ℕ → List TnsSession → List TnsSession → Type 0 where
  at_head :
      {s : TnsSession} {rest : List TnsSession}
      → same_key s.key key ≡ true
      → Touched key now zero (s ∷ rest) (record s { update_time = now } ∷ rest)
  behind :
      {i : ℕ} {s : TnsSession} {rest rest' : List TnsSession}
      → same_key s.key key ≡ false
      → Touched key now i rest rest'
      → Touched key now (suc i) (s ∷ rest) (s ∷ rest')

-- The first loop stops at the first slot that holds the key, or finds it nowhere.
pub find_sess-cases :
    (key : SessKey) (now : ℕ) (table : List TnsSession)
    → ((find_sess key now table ≡ none) × IsMissing key table)
      ⊎ ((i : ℕ) × (table' : List TnsSession) × (find_sess key now table ≡ some (i, table'))
          × Touched key now i table table')
unfolding find_sess
find_sess-cases key now [] = inl (refl, tt)
find_sess-cases key now (s ∷ rest) = elim (Bool-cases (same_key s.key key)) [
  | inl hit ↦ rw hit (inr (_, _, refl, at_head hit))
  | inr miss ↦ elim (find_sess-cases key now rest) [
    | inl (e, missing) ↦ rw (miss, e) (inl (refl, (refl, missing)))
    | inr (i, rest', e, touched) ↦ rw (miss, e) (inr (suc i, s ∷ rest', refl, behind miss touched))
  ]
]

find_sess-Touched :
    (key : SessKey) (now later i : ℕ) (table table' : List TnsSession)
    → Touched key now i table table'
    → (table'' : List TnsSession) × (find_sess key later table' ≡ some (i, table''))
      × Touched key later i table' table''
unfolding find_sess
find_sess-Touched key now later zero table table' (at_head {s} {rest} e) = rw e (_, refl, at_head e)
find_sess-Touched key now later (suc i) table table' (behind {s = s} {rest' = rest'} miss touched) =
    let (rest'', e, again) = find_sess-Touched key now later i _ rest' touched in
    rw (miss, e) (_, refl, behind miss again)

-- A slot that was given away for the key: the first one, whatever it held, with its new state.
abbrev pub Taken : SessKey → ℕ → List TnsSession → List TnsSession → Type 0
Taken key i [] after = ⊥
Taken key i (s ∷ rest) after = (i ≡ 0) × (after ≡ record s { key = key; state = stat_init } ∷ rest)

-- On a table with a slot the call always returns one. If a slot holds the connection's key, it is
-- the first of these, and nothing changes but its time; else it is the first slot of the table,
-- whether it is in use or not, with the new key and the state STAT_INIT, but with the version, the
-- times and the text of its old session.
pub sess_must_find_node-cases :
    (s : TnsSession) (rest : List TnsSession) (skey : SessKey) (dir : Direction) (now : ℕ)
    → let table = s ∷ rest in
      let key = sess_key skey dir in
      (i : ℕ) × (table' : List TnsSession) × (sess_must_find_node table skey dir now
        ≡ some (i, table'))
      × (Touched key now i table table' ⊎ (IsMissing key table × Taken key i table table'))
unfolding sess_must_find_node
sess_must_find_node-cases s rest skey dir now =
    elim (find_sess-cases (sess_key skey dir) now (s ∷ rest)) [
      | inl (e, missing) ↦ rw e (_, _, refl, inr (missing, (refl, refl)))
      | inr (i, table', e, touched) ↦ rw e (_, _, refl, inl touched)
    ]

pub no_slot :
    (skey : SessKey) (dir : Direction) (now : ℕ) → sess_must_find_node [] skey dir now ≡ none
unfolding sess_must_find_node find_sess
no_slot skey dir now = refl

module _ (k : SessKey) (later : ℕ) where
  abbrev FoundAgain : ℕ × List TnsSession → Type 0
  FoundAgain (i, table') =
      (table'' : List TnsSession) × (sess_must_find_node table' (sess_key k response) response later
        ≡ some (i, table''))
      × Touched k later i table' table''

  again :
      (i : ℕ) (table' table'' : List TnsSession)
      → find_sess k later table' ≡ some (i, table'')
      → Touched k later i table' table''
      → FoundAgain (i, table')
  unfolding sess_must_find_node sess_key
  again i table' table'' e touched = rw e (_, refl, touched)

  after_taken :
      (s : TnsSession) (rest : List TnsSession) → same_key s.key k ≡ true → FoundAgain (0, s ∷ rest)
  unfolding find_sess
  after_taken s rest e = again 0 (s ∷ rest) _ (rw e) (at_head e)

-- The session of a request is found again for the response, whose addresses are exchanged: the
-- response is given the slot that the request was given, and changes nothing but its time.
pub sess_must_find_node-response :
    (table table' : List TnsSession) (k : SessKey) (now later i : ℕ)
    → sess_must_find_node table k request now ≡ some (i, table')
    → (table'' : List TnsSession) × (sess_must_find_node table' (sess_key k response) response later
        ≡ some (i, table''))
      × Touched k later i table' table''
unfolding sess_must_find_node sess_key
sess_must_find_node-response [] table' k now later i e = cc (no_slot k request now)
sess_must_find_node-response (s ∷ rest) table' k now later i e =
    elim (find_sess-cases k now (s ∷ rest)) [
      | inl (f, missing) ↦
          subst (FoundAgain k later)
            (given (0, record s { key = k; state = stat_init } ∷ rest) none f refl)
            (after_taken k later (record s { key = k; state = stat_init }) rest (same_key_self k))
      | inr (j, t, f, touched) ↦
          let (t', g, touched') = find_sess-Touched k now later j (s ∷ rest) t touched in
          subst (FoundAgain k later) (given (j, t) (some (j, t)) f refl)
            (again k later j t t' g touched')
    ]
  where
    given :
        (r : ℕ × List TnsSession) (o : Option (ℕ × List TnsSession))
        → find_sess k now (s ∷ rest) ≡ o
        → found_or_taken k (s ∷ rest) o ≡ some r
        → r ≡ (i, table')
    given r o f g = eq_of_some (sym g ∙ sym (ap (found_or_taken k (s ∷ rest)) f) ∙ e)
