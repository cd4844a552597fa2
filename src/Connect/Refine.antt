-- ===== src/Connect/Refine.antt =====
-- The converter against the two notations of Descriptor.
use tnsparser.Base.{
  ℕ, ◌+◌, ◌-◌, ◌*◌, ◌≤◌, ◌<◌, ◌≡◌, refl, sym, ap, ◌∙◌, some, true, List, [], ◌∷◌, ◌++◌,
  append_assoc, append-nil, arith, ◌==◌, if◌then◌else◌, length, length-append, last_or, get_elem?,
}
use tnsparser.Connect.{
  brace_quote, close_brace, quote_brace, convert, finish, success, parse_connect_data_to_json,
}
use tnsparser.Connect.Scan.{piece, scan, scan-append, convert_loop-scan, strcat-fits}
use tnsparser.Connect.Descriptor.{
  Param, text, group, print, inner, print_all, json, PlainNames, LongEnough,
}
use tnsparser.Connect.Pieces.{scan-inner, closing_ne}
use tnsparser.Connect.Size.{length-json}

pub inner-snoc : (p : Param) → (w : List ℕ) × (inner p ≡ w ++ (b')' ∷ []))
unfolding inner
inner-snoc (text n v) = (n ++ (b'=' ∷ v), sym (append_assoc n _ _))
inner-snoc (group n ps) = (n ++ (b'=' ∷ print_all ps), sym (append_assoc n _ _))

-- The last character in front of the closing parenthesis, and the parenthesis itself.
pub get_elem?-last :
    (a c : ℕ) (w r : List ℕ) → get_elem? (a ∷ (w ++ c ∷ r)) (length w) ≡ some (last_or a w)
get_elem?-last a c [] r = refl
get_elem?-last a c (x ∷ w) r = get_elem?-last x c w r

pub get_elem?-end : (c : ℕ) (w r : List ℕ) → get_elem? (w ++ c ∷ r) (length w) ≡ some c
get_elem?-end c [] r = refl
get_elem?-end c (x ∷ w) r = get_elem?-end c w r

-- What the last step appends is what the switch would at the end of the text.
pub last_piece : (a : ℕ) → piece a b')' 0 ≡ (if a == b')' then close_brace else quote_brace)
unfolding piece
last_piece a = ground arith

-- Behind the loop, with the last piece still to append.
finish-close :
    (w rest q : List ℕ) (inlen outlen : ℕ)
    → inlen - 2 ≡ length w
    → let s = piece (last_or b'(' w) b')' 0 in
      length q + length s < outlen
      → finish (b'(' ∷ (w ++ b')' ∷ rest)) inlen outlen q
        ≡ some (record { ret = success; text = q ++ s; outlen = length (q ++ s) + 1 })
unfolding finish
finish-close w rest q inlen outlen e fits = rw (
  e,
  get_elem?-end b')' w rest,
  get_elem?-last b'(' b')' w rest,
  ← last_piece (last_or b'(' w),
  strcat-fits outlen q (piece (last_or b'(' w) b')' 0) fits,
)

pub scan-end :
    (w : List ℕ) → scan b'(' (w ++ b')' ∷ []) 0 ≡ scan b'(' w b')' ++ piece (last_or b'(' w) b')' 0
unfolding scan
scan-end w = scan-append b'(' w (b')' ∷ []) 0 ∙ ap (◌++◌ (scan b'(' w b')')) (append-nil _)

-- A text of '(' w ')' is converted to the scan of w and of the parenthesis, if that fits.
convert-scan :
    (w rest : List ℕ) (inlen outlen : ℕ)
    → inlen - 2 ≡ length w
    → 2 + length (scan b'(' (w ++ b')' ∷ []) 0) < outlen
    → let text = brace_quote ++ scan b'(' (w ++ b')' ∷ []) 0 in
      convert (b'(' ∷ (w ++ b')' ∷ rest)) inlen outlen
      ≡ some (record { ret = success; text = text; outlen = length text + 1 })
unfolding convert
convert-scan w rest inlen outlen e fits = rw (
  strcat-fits outlen [] brace_quote (omega (arith, total)),
  e,
  convert_loop-scan (b'(' ∷ (w ++ b')' ∷ rest)) outlen 0 b'(' b')' w rest brace_quote refl
      (omega (arith, total)) (omega (arith, total)),
  finish-close w rest (brace_quote ++ middle) inlen outlen e (omega (arith, total)),
  scan-end w,
)
  where
    middle : List ℕ
    middle = scan b'(' w b')'

    total : 2 + (length middle + length (piece (last_or b'(' w) b')' 0)) < outlen
    total = rw (← length-append middle (piece (last_or b'(' w) b')' 0), ← scan-end w) fits

-- The text of a descriptor in packet notation, with the parenthesis that closes it set apart.
pub scan-json :
    (p : Param) (w : List ℕ)
    → inner p ≡ w ++ (b')' ∷ [])
    → PlainNames p
    → brace_quote ++ scan b'(' (w ++ b')' ∷ []) 0 ≡ json p
unfolding json
scan-json p w e plain = rw (← e, scan-inner p b'(' 0 plain, closing_ne 0 (λ e. cc))

pub print-snoc :
    (p : Param) (w rest : List ℕ)
    → inner p ≡ w ++ (b')' ∷ [])
    → (print p ++ rest ≡ b'(' ∷ (w ++ b')' ∷ rest)) × (length (print p) - 2 ≡ length w)
unfolding print
print-snoc p w rest e = rw e (
  ap (◌∷◌ b'(') (append_assoc w (b')' ∷ []) rest),
  rw (length-append w (b')' ∷ [])) (omega arith),
)

-- The converter turns the text of any connect descriptor with plain names and texts, of which each
-- text parameter has two characters at least in its name and its text, into the JSON text of the
-- same tree: it returns 0 and the length of that text with its terminator, whatever stands behind
-- the descriptor in memory, and stays within a buffer of twice the descriptor's length.
pub parse_connect_data_to_json-print :
    (p : Param) (rest : List ℕ)
    → PlainNames p
    → LongEnough p
    → (parse_connect_data_to_json
          (some (print p ++ rest))
          (length (print p))
          true
          (2 * length (print p))
        ≡ some (record { ret = success; text = json p; outlen = length (json p) + 1 }))
      × (length (json p) + 1 ≤ 2 * length (print p))
unfolding parse_connect_data_to_json
parse_connect_data_to_json-print p rest plain long = (converted, length-json p long)
  where
    w : List ℕ
    w = (inner-snoc p).0

    shape : inner p ≡ w ++ (b')' ∷ [])
    shape = (inner-snoc p).1

    text : brace_quote ++ scan b'(' (w ++ b')' ∷ []) 0 ≡ json p
    text = scan-json p w shape plain

    fits : 2 + length (scan b'(' (w ++ b')' ∷ []) 0) < 2 * length (print p)
    fits = omega (arith, length-json p long, ap length text)

    converted :
        convert (print p ++ rest) (length (print p)) (2 * length (print p))
        ≡ some (record { ret = success; text = json p; outlen = length (json p) + 1 })
    converted =
        rw ((print-snoc p w rest shape).0, ← text)
          (convert-scan w rest (length (print p)) (2 * length (print p))
            (print-snoc p w rest shape).1 fits)

pub length-print : (p : Param) → 2 < 2 * length (print p)
unfolding print inner
length-print (text n v) = simp length-append (omega arith)
length-print (group n ps) = simp length-append (omega arith)
