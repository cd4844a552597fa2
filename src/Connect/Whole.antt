-- ===== src/Connect/Whole.antt =====
-- The converter on any text of two characters at least, against a definition that follows the
-- characters instead of the indices and knows of no buffer but by the length of what it holds.
use tnsparser.Base.{
  ℕ, ◌+◌, ◌-◌, ◌<◌, ◌≡◌, ◌⊎◌, refl, inl, inr, true, Option, none, some, List, [], ◌∷◌, ◌++◌, arith,
  ◌==◌, if◌then◌else◌, ltb, length, length-append, last_or, Bool-cases, ne→eqb, eqb-cases, ltb→lt,
  ◌>>=◌,
}
use tnsparser.Connect.{
  brace_quote, strcat, convert_loop, convert, finish, success, bad_syntax, JsonResult,
  parse_connect_data_to_json,
}
use tnsparser.Connect.Scan.{piece, scan, convert_loop-scan, strcat-fits}
use tnsparser.Connect.Refine.{last_piece, get_elem?-end, get_elem?-last, scan-end}
use tnsparser.Connect.Overflow.{convert_loop-full}

-- A text that a buffer of `cap` bytes has room for, with its terminator.
unfoldable pub within : ℕ → List ℕ → Option (List ℕ)
within cap t = if ltb (length t) cap then some t else none

-- Of the text that begins with `c`, goes on with `w` and ends with `d`.
unfoldable pub rewritten : ℕ → List ℕ → ℕ → ℕ → Option JsonResult
unfolding within
rewritten c w d outlen =
    if c == b'('
    then (within outlen (brace_quote ++ scan b'(' w d) >>= λ q.
        if d == b')'
        then (within outlen (brace_quote ++ scan b'(' (w ++ d ∷ []) 0) >>= λ t.
            some (record { ret = success; text = t; outlen = length t + 1 }))
        else some (record { ret = bad_syntax; text = q; outlen = outlen }))
    else some (record { ret = bad_syntax; text = []; outlen = outlen })

within-cases : (cap : ℕ) (t : List ℕ) → (within cap t ≡ none) ⊎ (within cap t ≡ some t)
unfolding within
within-cases cap t = elim (Bool-cases (ltb (length t) cap)) [
  | inl fits ↦ inr (rw fits refl)
  | inr over ↦ inl (rw over refl)
]

strcat-within : (cap : ℕ) (q s : List ℕ) → strcat cap q s ≡ within cap (q ++ s)
unfolding strcat within
strcat-within cap q s = ground (arith, length-append q s)

convert_loop-within :
    (outlen c d : ℕ) (w rest q : List ℕ)
    → 2 < outlen
    → length q < outlen
    → convert_loop (c ∷ (w ++ d ∷ rest)) outlen (length w) 0 q ≡ within outlen (q ++ scan c w d)
unfolding within
convert_loop-within outlen c d w rest q room held =
    elim (Bool-cases (ltb (length (q ++ scan c w d)) outlen)) [
      | inl fits ↦ rw fits (
          convert_loop-scan (c ∷ (w ++ d ∷ rest)) outlen 0 c d w rest q refl room
            (omega (arith, ltb→lt _ _ fits, length-append q (scan c w d))))
      | inr over ↦ rw over (
          convert_loop-full (c ∷ (w ++ d ∷ rest)) outlen 0 c d w rest q refl room held
            (ground (arith, length-append q (scan c w d))))
    ]

finish-within :
    (d inlen outlen : ℕ) (w rest : List ℕ)
    → inlen - 2 ≡ length w
    → let q = brace_quote ++ scan b'(' w d in
      finish (b'(' ∷ (w ++ d ∷ rest)) inlen outlen q ≡ (
        if d == b')'
        then (within outlen (brace_quote ++ scan b'(' (w ++ d ∷ []) 0) >>= λ t.
            some (record { ret = success; text = t; outlen = length t + 1 }))
        else some (record { ret = bad_syntax; text = q; outlen = outlen }))
unfolding finish
finish-within d inlen outlen w rest e =
    rw (e, get_elem?-end d w rest)
      (elim (eqb-cases d b')') [
        | inl same ↦ rw (
          same,
          get_elem?-last b'(' b')' w rest,
          ← last_piece (last_or b'(' w),
          strcat-within outlen (brace_quote ++ scan b'(' w b')') (piece (last_or b'(' w) b')' 0),
          scan-end w,
        )
        | inr other ↦ rw (ne→eqb d b')' other) refl
      ])

-- Of any text of two characters at least, whatever lies behind it, and any buffer of more than two
-- bytes: the converter returns what the reference does, which reads each character with its two
-- neighbours; it answers a text that does not start with a parenthesis or end with one by -2, and
-- writes outside the buffer exactly if the text that it writes, with its terminator, does not fit.
pub parse_connect_data_to_json-rewritten :
    (c d : ℕ) (w rest : List ℕ) (outlen : ℕ)
    → 2 < outlen
    → parse_connect_data_to_json (some (c ∷ (w ++ d ∷ rest))) (length w + 2) true outlen
      ≡ rewritten c w d outlen
unfolding parse_connect_data_to_json convert rewritten
parse_connect_data_to_json-rewritten c d w rest outlen room = elim (eqb-cases c b'(') [
  | inl same ↦
      rw
        (
          same,
          strcat-fits outlen [] brace_quote (omega arith),
          passed,
          convert_loop-within outlen b'(' d w rest brace_quote room (omega arith),
        )
        (elim (within-cases outlen (brace_quote ++ scan b'(' w d)) [
          | inl over ↦ rw over refl
          | inr fits ↦ rw fits (finish-within d (length w + 2) outlen w rest passed)
        ])
  | inr other ↦ rw (ne→eqb c b'(' other) refl
]
  where
    passed : length w + 2 - 2 ≡ length w
    passed = omega arith
