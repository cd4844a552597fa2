-- ===== src/Connect/Overflow.antt =====
-- When the JSON text outgrows the buffer that tns_connect_handle allocates, the appends of
-- parse_connect_data_to_json run past its end: the guard of the loop does not look at `q`.
use tnsparser.Base.{
  ℕ, zero, suc, ◌+◌, ◌-◌, ◌*◌, ◌≤◌, ◌<◌, ◌≡◌, refl, ap, ◌≢◌, inl, inr, some, none, true, List, [],
  ◌∷◌, ◌++◌, arith, leb, ltb, length, length-append, length-replicate, replicate, drop, drop-suc,
  head_or, last_or, lt→ltb, ltb→lt, Bool-cases, leb→le,
}
use tnsparser.Connect.{
  brace_quote, strcat, convert_loop, convert, finish, parse_connect_data_to_json,
}
use tnsparser.Connect.Scan.{piece, scan, convert_loop-scan, convert_char-at, strcat-fits}
use tnsparser.Connect.Descriptor.{Param, print, inner, json, PlainNames}
use tnsparser.Connect.Refine.{
  last_piece, get_elem?-end, get_elem?-last, scan-end, scan-json, inner-snoc, print-snoc,
  length-print,
}

pub strcat-full : (cap : ℕ) (q s : List ℕ) → cap ≤ length q + length s → strcat cap q s ≡ none
unfolding strcat
strcat-full cap q s h = ground arith

-- The loop runs past the end when the scan of what it passes does not fit.
pub convert_loop-full :
    (bufin : List ℕ) (outlen i before after : ℕ) (w rest q : List ℕ)
    → drop i bufin ≡ before ∷ (w ++ after ∷ rest)
    → 2 < outlen
    → length q < outlen
    → outlen ≤ length q + length (scan before w after)
    → convert_loop bufin outlen (length w) i q ≡ none
unfolding convert_loop scan
convert_loop-full bufin outlen i before after [] rest q e room held full = absurd (omega arith)
convert_loop-full bufin outlen i before after (c ∷ w) rest q e room held full =
    rw (lt→ltb 2 outlen room, convert_char-at bufin i before after c w rest e)
      (elim (Bool-cases (leb (length q + length now + 1) outlen)) [
        | inl fits ↦ rw (strcat-fits outlen q now (omega (arith, leb→le _ _ fits))) (
            convert_loop-full bufin outlen (suc i) c after w rest (q ++ now)
              (drop-suc i before bufin _ e) room (grown (leb→le _ _ fits)) longer)
        | inr over ↦ rw (strcat-full outlen q now (ground arith))
      ])
  where
    now : List ℕ
    now = piece before c (head_or w after)

    total : outlen ≤ length q + (length now + length (scan c w after))
    total = rw (length-append now (scan c w after)) at full

    grown : length q + length now + 1 ≤ outlen → length (q ++ now) < outlen
    grown h = rw (length-append q now) (omega arith)

    longer : outlen ≤ length (q ++ now) + length (scan c w after)
    longer = rw (length-append q now) (omega (arith, total))

finish-full :
    (w rest q : List ℕ) (inlen outlen : ℕ)
    → inlen - 2 ≡ length w
    → outlen ≤ length q + length (piece (last_or b'(' w) b')' 0)
    → finish (b'(' ∷ (w ++ b')' ∷ rest)) inlen outlen q ≡ none
unfolding finish
finish-full w rest q inlen outlen e full = rw (
  e,
  get_elem?-end b')' w rest,
  get_elem?-last b'(' b')' w rest,
  ← last_piece (last_or b'(' w),
  strcat-full outlen q (piece (last_or b'(' w) b')' 0) full,
)

-- A text of '(' w ')' with too long a scan overflows the buffer, in the loop or behind it.
convert-full :
    (w rest : List ℕ) (inlen outlen : ℕ)
    → inlen - 2 ≡ length w
    → 2 < outlen
    → outlen ≤ 2 + length (scan b'(' (w ++ b')' ∷ []) 0)
    → convert (b'(' ∷ (w ++ b')' ∷ rest)) inlen outlen ≡ none
unfolding convert
convert-full w rest inlen outlen e room full =
    rw (strcat-fits outlen [] brace_quote (omega arith), e)
      (elim (Bool-cases (ltb (2 + length (scan b'(' w b')')) outlen)) [
        | inl fits ↦
            rw
              (convert_loop-scan bufin outlen 0 b'(' b')' w rest brace_quote refl room
                (ltb→lt _ _ fits))
              (finish-full w rest (brace_quote ++ scan b'(' w b')') inlen outlen e last_full)
        | inr over ↦ rw (
            convert_loop-full bufin outlen 0 b'(' b')' w rest brace_quote refl room room
              (ground arith))
      ])
  where
    bufin : List ℕ
    bufin = b'(' ∷ (w ++ b')' ∷ rest)

    last_full :
        outlen ≤ length (brace_quote ++ scan b'(' w b')') + length (piece (last_or b'(' w) b')' 0)
    last_full = omega (
      arith,
      ap length (scan-end w),
      length-append (scan b'(' w b')') (piece (last_or b'(' w) b')' 0),
    )

-- A descriptor with plain names and texts whose JSON text, with its terminator, is longer than
-- twice the descriptor makes the converter write outside the buffer that its caller allocates.
pub parse_connect_data_to_json-overflow :
    (p : Param) (rest : List ℕ)
    → PlainNames p
    → 2 * length (print p) < length (json p) + 1
    → parse_connect_data_to_json
        (some (print p ++ rest))
        (length (print p))
        true
        (2 * length (print p))
      ≡ none
unfolding parse_connect_data_to_json
parse_connect_data_to_json-overflow p rest plain long = rw (print-snoc p w rest shape).0 (
    convert-full w rest (length (print p)) (2 * length (print p)) (print-snoc p w rest shape).1
      (length-print p) (omega (arith, ap length (scan-json p w shape plain))))
  where
    w : List ℕ
    w = (inner-snoc p).0

    shape : inner p ≡ w ++ (b')' ∷ [])
    shape = (inner-snoc p).1

-- Each '=' between text characters becomes three characters.
length-scan_equals : (n a : ℕ) → length (scan a (replicate n b'=') b')') ≡ 3 * n
unfolding scan piece
length-scan_equals zero a = refl
length-scan_equals (suc zero) a = refl
length-scan_equals (suc (suc n)) a = omega (arith, length-scan_equals (suc n) b'=')

equals_ne_close : ◌≢◌ {A = ℕ} b'=' b')'
equals_ne_close = omega arith

last_or-equals : (n a : ℕ) → a ≢ b')' → last_or a (replicate n b'=') ≢ b')'
last_or-equals zero a ne = ne
last_or-equals (suc n) a ne = last_or-equals n b'=' equals_ne_close

two_closing : (a : ℕ) → a ≢ b')' → length (piece a b')' 0) ≡ 2
unfolding piece
two_closing a ne = ground arith

-- A connect text of nothing but '=' signs in parentheses, however many, makes the converter write
-- outside the buffer that its caller allocates.
pub parse_connect_data_to_json-equals :
    (n : ℕ) (rest : List ℕ)
    → parse_connect_data_to_json
        (some (b'(' ∷ (replicate n b'=' ++ b')' ∷ rest)))
        (n + 2)
        true
        (2 * (n + 2))
      ≡ none
unfolding parse_connect_data_to_json
parse_connect_data_to_json-equals n rest =
    convert-full (replicate n b'=') rest (n + 2) (2 * (n + 2))
      (omega (arith, length-replicate {A = ℕ} n b'=')) (omega arith)
      (omega (
        arith,
        ap length (scan-end (replicate n b'=')),
        length-append (scan b'(' (replicate n b'=') b')')
            (piece (last_or b'(' (replicate n b'=')) b')' 0),
        length-scan_equals n b'(',
        quoted,
      ))
  where
    quoted : length (piece (last_or b'(' (replicate n b'=')) b')' 0) ≡ 2
    quoted = two_closing (last_or b'(' (replicate n b'=')) (last_or-equals n b'(' (λ e. cc))
