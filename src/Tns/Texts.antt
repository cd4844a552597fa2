-- ===== src/Tns/Texts.antt =====
-- The texts that the payload handlers of version 313 print.
use Prim.Native.Nat.{min}
use tnsparser.Base.{
  ℕ, zero, suc, ◌+◌, ◌-◌, ◌≤◌, ◌<◌, ◌≡◌, refl, ap, ◌∙◌, true, some, List, [], ◌∷◌, arith, ltb,
  if◌then◌else◌, length, take, drop, Option-cases, Ensures, Ensures->>=_eq, Ensures-Returns,
  Returns, Returns->>=, Returns-if, get_elem?, ◌==◌, ne→eqb, ◌≢◌, inl, inr, eq_of_some, All,
}
use tnsparser.Wire.{c_string}
use tnsparser.Visible.{visible, Found}
use tnsparser.Visible.Longest.{visible_at, Finds, parse_continuous_visible_characters-Finds}
use tnsparser.Session.{TnsSession}
use tnsparser.Tns.Types.{code_success, header, return_status}
use tnsparser.Tns.Payload.{clipped, tns_313_rs}

pub visible_at-drop : (n k : ℕ) (xs : List ℕ) → visible_at (drop n xs) k ≡ visible_at xs (n + k)
visible_at-drop zero k xs = ap (visible_at xs) (omega arith)
visible_at-drop (suc n) k [] = refl
visible_at-drop (suc n) k (x ∷ xs) = visible_at-drop n k xs ∙ shift
  where
    shift : visible_at xs (n + k) ≡ visible_at (x ∷ xs) (suc n + k)
    shift = let e : suc n + k ≡ suc (n + k) = omega arith in rw e

pub c_string-cons :
    (x : ℕ) (xs s : List ℕ)
    → x ≢ 0
    → c_string (x ∷ xs) ≡ some s
    → (t : List ℕ) × (c_string xs ≡ some t) × (x ∷ t ≡ s)
unfolding c_string
c_string-cons x xs s ne e = elim (Option-cases (c_string xs)) [
  | inl f ↦ absurd (cc (rw (ne→eqb x 0 ne, f) at e))
  | inr (t, f) ↦ (t, f, eq_of_some (rw (ne→eqb x 0 ne, f) at e))
]

visible-ne-zero : (x : ℕ) → visible x ≡ true → x ≢ 0
unfolding visible
visible-ne-zero x h = ground arith

-- A string whose first characters are printable starts with them.
pub take-c_string :
    (m : ℕ) (xs s : List ℕ)
    → c_string xs ≡ some s
    → ((k : ℕ) → k < m → visible_at xs k ≡ true)
    → take m s ≡ take m xs
take-c_string zero xs s e h = refl
take-c_string (suc m) [] s e h = cc (h 0 (omega arith))
take-c_string (suc m) (x ∷ xs) s e h =
    let (t, f, g) = c_string-cons x xs s (visible-ne-zero x (h 0 (omega arith))) e in
    rw (← g) (ap (◌∷◌ x) (take-c_string m xs t f (λ k lt. h (suc k) (omega arith))))

pub All-take-visible :
    (m : ℕ) (xs : List ℕ)
    → ((k : ℕ) → k < m → visible_at xs k ≡ true)
    → All (λ c. visible c ≡ true) (take m xs) × (length (take m xs) ≡ m)
All-take-visible zero xs h = (tt, refl)
All-take-visible (suc m) [] h = cc (h 0 (omega arith))
All-take-visible (suc m) (x ∷ xs) h =
    let (all, len) = All-take-visible m xs (λ k lt. h (suc k) (omega arith)) in
    ((h 0 (omega arith), all), omega (arith, len))

-- The text that snprintf leaves in a buffer of `size` bytes: printable characters of the packet from
-- one offset on, as many as the longest run has, or what fits with the length itself kept below the
-- size; `n` is one more than their number.
pub record Clip (pkt : List ℕ) (len size : ℕ) (n : ℕ) (s : List ℕ) : Type 0 where
  pub run : Found
  pub finds : Finds pkt len run
  pub number : n ≡ min run.outlen (size - 1)
  pub text : s ≡ take (n - 1) (drop run.ptr pkt)
  pub printable : All (λ c. visible c ≡ true) s
  pub count : length s ≡ n - 1

clip_length : (a b : ℕ) → (if ltb a b then a else b) ≡ min a b
clip_length a b = ground arith

clipped-Clip :
    (pkt : List ℕ) (len size : ℕ)
    → len ≤ length pkt
    → Ensures (λ r. Clip pkt len size r.0 r.1) (clipped pkt len size)
unfolding clipped
clipped-Clip pkt len size room =
    let (run, e, finds) = parse_continuous_visible_characters-Finds pkt len room in
    rw e (
      Ensures->>=_eq (λ r. Clip pkt len size r.0 r.1) (c_string (drop run.ptr pkt)) _
        λ s f. clip run finds s f)
  where
    clip :
        (run : Found)
        → Finds pkt len run
        → (s : List ℕ) → c_string (drop run.ptr pkt) ≡ some s
        → let n = if ltb run.outlen (size - 1) then run.outlen else size - 1 in
          Clip pkt len size n (take (n - 1) s)
    clip run finds s f = rw (clip_length run.outlen (size - 1)) (
        let m : ℕ = min run.outlen (size - 1) - 1 in
        let seen : ((k : ℕ) → k < m → visible_at (drop run.ptr pkt) k ≡ true) = λ k lt.
          visible_at-drop run.ptr k pkt
          ∙ finds.printable (run.ptr + k) (omega arith) (omega arith) in
        let same : take m s ≡ take m (drop run.ptr pkt) =
          take-c_string m (drop run.ptr pkt) s f seen in
        let (all, count) = All-take-visible m (drop run.ptr pkt) seen in
        record {
          run = run;
          finds = finds;
          number = refl;
          text = same;
          printable = rw same all;
          count = rw same count;
        })

pub get_elem?-drop :
    (n k : ℕ) (xs : List ℕ) → n ≤ k → get_elem? (drop n xs) (k - n) ≡ get_elem? xs k
get_elem?-drop zero k xs h = ap (get_elem? xs) (omega arith)
get_elem?-drop (suc n) k [] h = refl
get_elem?-drop (suc n) zero (x ∷ xs) h = absurd (omega arith)
get_elem?-drop (suc n) (suc k) (x ∷ xs) h =
    ap (get_elem? (drop n xs)) (omega arith) ∙ get_elem?-drop n k xs (omega arith)

pub c_string-Returns : (xs : List ℕ) (k : ℕ) → get_elem? xs k ≡ some 0 → Returns (c_string xs)
unfolding c_string
c_string-Returns [] k e = absurd (cc e)
c_string-Returns (x ∷ xs) zero e = rw (eq_of_some e) ([], refl)
c_string-Returns (x ∷ xs) (suc k) e =
    Returns-if (x == 0) _ _ (_, refl)
      (Returns->>= (c_string xs) _ (c_string-Returns xs k e) λ s _. (_, refl))

-- A zero byte at or behind the end of the input ends every string that starts in the input.
pub clipped-Returns :
    (pkt : List ℕ) (len size k : ℕ)
    → len ≤ length pkt
    → len ≤ k
    → get_elem? pkt k ≡ some 0
    → Returns (clipped pkt len size)
unfolding clipped
clipped-Returns pkt len size k room behind zero_byte =
    let (run, e, finds) = parse_continuous_visible_characters-Finds pkt len room in
    let at_end = get_elem?-drop run.ptr k pkt (omega (arith, finds.within)) ∙ zero_byte in
    rw e (
      Returns->>= (c_string (drop run.ptr pkt)) _
        (c_string-Returns (drop run.ptr pkt) (k - run.ptr) at_end) λ s _. (_, refl))

-- The return status of version 313, of a payload with at least one byte and with a zero byte in
-- memory at or behind its end, prints the session's text, direction and version, and the longest run
-- of printable characters of the payload, cut to 126 characters, with its length plus one; it returns
-- 0, and the session stays as it is.
pub tns_313_rs-Clip :
    (pkt : List ℕ) (len k : ℕ) (sess : TnsSession)
    → 0 < len
    → len ≤ length pkt
    → len ≤ k
    → get_elem? pkt k ≡ some 0
    → (n : ℕ) × (s : List ℕ) × (tns_313_rs pkt len sess
        ≡ some (record {
          code = code_success;
          sess = sess;
          out = return_status (header sess) n s ∷ [];
        }))
      × Clip pkt len 128 n s
      × (length s ≤ 126)
unfolding tns_313_rs
tns_313_rs-Clip pkt len k sess pos room behind zero_byte =
    let ((n, s), e, clip) =
      Ensures-Returns (λ r. Clip pkt len 128 r.0 r.1) (clipped pkt len 128)
        (clipped-Clip pkt len 128 room) (clipped-Returns pkt len 128 k room behind zero_byte) in
    (n, s, rw (ne→eqb len 0 (omega arith), e), clip, omega (arith, clip.count, clip.number))
