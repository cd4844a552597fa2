-- ===== src/Connect/Pieces.antt =====
-- The scan of a descriptor in the packet's notation is its JSON text, part by part.
use tnsparser.Base.{
  ℕ, ◌≡◌, refl, ap, ◌∙◌, ◌≢◌, false, List, [], ◌∷◌, ◌++◌, append_assoc, append-nil, arith, ◌==◌,
  if◌then◌else◌, All, head_or, last_or, last_or-append, ne→eqb,
}
use tnsparser.Connect.{brace_quote, quote_colon, quote_colon_quote, comma_quote, close_brace}
use tnsparser.Connect.Scan.{piece, scan, scan-append}
use tnsparser.Connect.Descriptor.{
  Param, text, group, Params, one, more, inner, print_all, member, members, IsPlain, PlainNames,
  AllPlainNames,
}

-- What '(' and ')' write, seen from outside.
opening : ℕ → List ℕ
opening before = if before == b')' then [] else brace_quote

unfoldable pub closing : ℕ → List ℕ
closing after = if after == b'(' then comma_quote else close_brace

piece-plain : (a c d : ℕ) → IsPlain c → piece a c d ≡ c ∷ []
unfolding piece
piece-plain a c d h = ground arith

scan-plain : (a : ℕ) (n : List ℕ) (after : ℕ) → All IsPlain n → scan a n after ≡ n
unfolding scan
scan-plain a [] after h = refl
scan-plain a (c ∷ n) after h = rw (piece-plain a c (head_or n after) h.0, scan-plain c n after h.1)

last_or-plain : (a : ℕ) (v : List ℕ) → a ≢ b')' → All IsPlain v → last_or a v ≢ b')'
last_or-plain a [] ne h = ne
last_or-plain a (c ∷ v) ne h = last_or-plain c v h.0.1 h.1

head_or-plain : (v : List ℕ) (d : ℕ) → d ≢ b'(' → All IsPlain v → head_or v d ≢ b'('
head_or-plain [] d ne h = ne
head_or-plain (c ∷ v) d ne h = h.0.0

head_or-append : (v : List ℕ) (c d : ℕ) (w : List ℕ) → head_or (v ++ c ∷ w) d ≡ head_or v c
head_or-append [] c d w = refl
head_or-append (x ∷ v) c d w = refl

head_or-print_all : (ps : Params) (w : List ℕ) (d : ℕ) → head_or (print_all ps ++ w) d ≡ b'('
unfolding print_all
head_or-print_all (one p) w d = refl
head_or-print_all (more p ps) w d = refl

last_or-inner : (a : ℕ) (p : Param) → last_or a (inner p) ≡ b')'
unfolding inner
last_or-inner a (text n v) = rw (last_or-append a n, last_or-append b'=' v)
last_or-inner a (group n ps) = rw (last_or-append a n, last_or-append b'=' (print_all ps))

scan-equals :
    (a : ℕ) (n w : List ℕ) (d : ℕ)
    → All IsPlain n
    → scan a (n ++ (b'=' ∷ w)) d
      ≡ n ++ ((if head_or w d == b'(' then quote_colon else quote_colon_quote) ++ scan b'=' w d)
unfolding scan piece
scan-equals a n w d h = rw (scan-append a n (b'=' ∷ w) d, scan-plain a n b'=' h)

scan-text_end :
    (v : List ℕ) (d : ℕ) → All IsPlain v → scan b'=' (v ++ (b')' ∷ [])) d ≡ v ++ (0x22 ∷ closing d)
unfolding scan piece closing
scan-text_end v d h =
    rw (scan-append b'=' v (b')' ∷ []) d, scan-plain b'=' v b')' h)
      (ap (◌++◌ v) (ground (arith, last_or-plain b'=' v (λ e. cc) h)))

scan-open : (a : ℕ) (w : List ℕ) (d : ℕ) → scan a (b'(' ∷ w) d ≡ opening a ++ scan b'(' w d
unfolding scan piece opening
scan-open a w d = refl

pub scan-close : (d : ℕ) → scan b')' (b')' ∷ []) d ≡ closing d
unfolding scan piece closing
scan-close d = append-nil _

pub closing_ne : (d : ℕ) → d ≢ b'(' → closing d ≡ close_brace
unfolding closing
closing_ne d ne = ground arith

last_or-print_all : (a : ℕ) (ps : Params) → last_or a (print_all ps) ≡ b')'
unfolding print_all
last_or-print_all a (one p) = last_or-inner b'(' p
last_or-print_all a (more p ps) =
    last_or-append b'(' (inner p) (print_all ps) ∙ last_or-print_all _ ps

not_open : (v : List ℕ) (d : ℕ) → All IsPlain v → (head_or (v ++ (b')' ∷ [])) d == b'(') ≡ false
not_open v d h = rw (head_or-append v b')' d []) (ne→eqb _ _ (head_or-plain v b')' (λ e. cc) h))

head_or-print_all_end : (ps : Params) (d : ℕ) → head_or (print_all ps) d ≡ b'('
unfolding print_all
head_or-print_all_end (one p) d = refl
head_or-print_all_end (more p ps) d = refl

mutual
  unfolding inner print_all member members opening closing

  pub scan-inner : (p : Param) (a d : ℕ) → PlainNames p → scan a (inner p) d ≡ member p ++ closing d
  scan-inner (text n v) a d (hn, hv) =
      rw (scan-equals a n (v ++ (b')' ∷ [])) d hn, scan-text_end v d hv, not_open v d hv)
        (simp append_assoc)
  scan-inner (group n ps) a d (hn, hps) =
      rw
        (
          scan-equals a n (print_all ps ++ (b')' ∷ [])) d hn,
          head_or-print_all ps (b')' ∷ []) d,
          scan-append b'=' (print_all ps) (b')' ∷ []) d,
          scan-print_all ps b'=' b')' (λ e. cc) hps,
          last_or-print_all b'=' ps,
          scan-close d,
        )
        (simp append_assoc)

  scan-print_all :
      (ps : Params) (a d : ℕ)
      → d ≢ b'('
      → AllPlainNames ps
      → scan a (print_all ps) d ≡ opening a ++ (members ps ++ close_brace)
  scan-print_all (one p) a d ne h =
      rw (scan-open a (inner p) d, scan-inner p b'(' d h, closing_ne d ne)
  scan-print_all (more p ps) a d ne (h, hs) =
      rw
        (
          scan-open a (inner p ++ print_all ps) d,
          scan-append b'(' (inner p) (print_all ps) d,
          head_or-print_all_end ps d,
          last_or-inner b'(' p,
          scan-inner p b'(' b'(' h,
          scan-print_all ps b')' d ne hs,
        )
        (simp append_assoc)
