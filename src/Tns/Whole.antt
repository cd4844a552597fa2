-- ===== src/Tns/Whole.antt =====
-- The texts that the payload handlers of version 314 print.
use native.Mathlib.Decide.{dec_lt}
use tnsparser.Base.{
  ℕ, ◌+◌, ◌-◌, ◌≤◌, ◌<◌, ◌≡◌, ◌≢◌, refl, sym, ap, ◌∙◌, true, some, List, [], ◌∷◌, arith, ◌==◌,
  length, length-take, take, drop, get_elem?, All, inl, inr, Bool-cases, eq_of_some, eqb→eq, ne→eqb,
}
use tnsparser.Wire.{c_string}
use tnsparser.Visible.Longest.{visible_at, Finds, parse_continuous_visible_characters-Finds}
use tnsparser.Visible.{Found}
use tnsparser.Session.{TnsSession}
use tnsparser.Tns.Types.{code_success, plain_status, query_sql}
use tnsparser.Tns.Payload.{unclipped, tns_314_rs, tns_314_oci}
use tnsparser.Tns.Texts.{
  c_string-cons, c_string-Returns, get_elem?-drop, visible_at-drop, take-c_string, All-take-visible,
}

-- A string is what lies in memory up to the first zero byte.
pub record UpToZero (mem s : List ℕ) : Type 0 where
  pub copied : s ≡ take (length s) mem
  pub no_zero : All (λ c. c ≢ 0) s
  pub ends : get_elem? mem (length s) ≡ some 0

c_string-UpToZero : (xs s : List ℕ) → c_string xs ≡ some s → UpToZero xs s
unfolding c_string
c_string-UpToZero [] s e = absurd (cc e)
c_string-UpToZero (x ∷ xs) s e = elim (Bool-cases (x == 0)) [
  | inl stop ↦
      rw (← (eq_of_some (rw stop at e)))
        (record { copied = refl; no_zero = tt; ends = ap some (eqb→eq x 0 stop) })
  | inr go ↦
      let (t, f, g) = c_string-cons x xs s (λ h. cc (rw h at go)) e in
      let rest = c_string-UpToZero xs t f in
      rw (← g) (record {
        copied = ap (◌∷◌ x) rest.copied;
        no_zero = ((λ h. cc (rw h at go)), rest.no_zero);
        ends = rest.ends;
      })
]

-- A text that starts with a longest run of printable characters of the packet, whose number `n` is
-- one more than theirs, and goes on up to the next zero byte: behind the run, unless one stands there.
pub record Whole (pkt : List ℕ) (len : ℕ) (n : ℕ) (s : List ℕ) : Type 0 where
  pub run : Found
  pub finds : Finds pkt len run
  pub number : n ≡ run.outlen
  pub text : UpToZero (drop run.ptr pkt) s
  pub starts : take (n - 1) s ≡ take (n - 1) (drop run.ptr pkt)
  pub covers : n - 1 ≤ length s
  pub goes_on : get_elem? pkt (run.ptr + (n - 1)) ≢ some 0 → n - 1 < length s

length-take-le : (m : ℕ) (xs : List ℕ) → length (take m xs) ≡ m → m ≤ length xs
length-take-le m xs e = omega (arith, e, length-take m xs)

-- A string that ends with the run has its zero byte behind the run.
at_run :
    (pkt : List ℕ) (run : Found) (s : List ℕ) (m : ℕ)
    → UpToZero (drop run.ptr pkt) s
    → length s ≡ m
    → get_elem? pkt (run.ptr + m) ≡ some 0
at_run pkt run s m text e =
    sym (get_elem?-drop run.ptr (run.ptr + m) pkt (omega arith))
    ∙ ap (get_elem? (drop run.ptr pkt)) (omega (arith, e))
    ∙ text.ends

unclipped-Whole :
    (pkt : List ℕ) (len k : ℕ)
    → len ≤ length pkt
    → len ≤ k
    → get_elem? pkt k ≡ some 0
    → (n : ℕ) × (s : List ℕ) × (unclipped pkt len ≡ some (n, s)) × Whole pkt len n s
unfolding unclipped
unclipped-Whole pkt len k room behind end =
    let (run, e, finds) = parse_continuous_visible_characters-Finds pkt len room in
    let (s, f) =
      c_string-Returns (drop run.ptr pkt) (k - run.ptr)
        (get_elem?-drop run.ptr k pkt (omega (arith, finds.within)) ∙ end) in
    (run.outlen, s, rw (e, f) refl, whole run finds s f)
  where
    whole :
        (run : Found)
        → Finds pkt len run
        → (s : List ℕ) → c_string (drop run.ptr pkt) ≡ some s
        → Whole pkt len run.outlen s
    whole run finds s f =
        let m : ℕ = run.outlen - 1 in
        let seen : ((k : ℕ) → k < m → visible_at (drop run.ptr pkt) k ≡ true) = λ k lt.
          visible_at-drop run.ptr k pkt
          ∙ finds.printable (run.ptr + k) (omega arith) (omega arith) in
        let starts = take-c_string m (drop run.ptr pkt) s f seen in
        let (all, count) = All-take-visible m (drop run.ptr pkt) seen in
        let long = length-take-le m s (ap (λ l. length l) starts ∙ count) in
        let text = c_string-UpToZero (drop run.ptr pkt) s f in
        record {
          run = run;
          finds = finds;
          number = refl;
          text = text;
          starts = starts;
          covers = long;
          goes_on = λ other. elim (dec_lt m (length s)) [
            | yes lt ↦ lt
            | no ge ↦ absurd (other (at_run pkt run s m text (omega arith)))
          ];
        }

-- With the marker 0x5e, a return status and a query of version 314, of a payload with a zero byte in
-- memory at or behind its end, print the length of the longest run of printable characters with one
-- more, and not the run but all that stands from its start up to the next zero byte: more than the
-- run, unless a zero byte stands behind it.
pub tns_314-Whole :
    (pkt : List ℕ) (len k : ℕ) (sess : TnsSession)
    → 0 < len
    → len ≤ length pkt
    → len ≤ k
    → get_elem? pkt k ≡ some 0
    → get_elem? pkt 3 ≡ some 0x5e
    → (n : ℕ) × (s : List ℕ) × Whole pkt len n s
      × (tns_314_rs pkt len sess
          ≡ some (record { code = code_success; sess = sess; out = plain_status n s ∷ [] }))
      × (tns_314_oci pkt len sess
          ≡ some (record { code = code_success; sess = sess; out = query_sql n s ∷ [] }))
unfolding tns_314_rs tns_314_oci
tns_314-Whole pkt len k sess pos room behind end marker =
    let (n, s, e, whole) = unclipped-Whole pkt len k room behind end in
    (
      n,
      s,
      whole,
      rw (ne→eqb len 0 (omega arith), marker, e) refl,
      rw (ne→eqb len 0 (omega arith), marker, e) refl,
    )
