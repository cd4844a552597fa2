-- ===== src/Connect/Scan.antt =====
-- The conversion as a function on the text itself, and the proof that the loop of
-- parse_connect_data_to_json computes it while the buffer has room.
use tnsparser.Base.{
  ℕ, suc, ◌+◌, ◌<◌, ◌≡◌, refl, sym, ap, ◌∙◌, some, List, [], ◌∷◌, ◌++◌, append_assoc, append-nil,
  arith, ◌==◌, if◌then◌else◌, length, length-append, get_elem?, drop, drop-suc, head_or, last_or,
  get_elem?-of-drop, get_elem?-of-drop_append, lt→ltb,
}
use tnsparser.Connect.{
  brace_quote, quote_colon, quote_colon_quote, comma_quote, quote_comma_quote, close_brace,
  quote_brace, strcat, convert_char, convert_loop,
}

-- What the switch appends for `c` between the characters `before` and `after`.
unfoldable pub piece : ℕ → ℕ → ℕ → List ℕ
piece before c after =
    if c == b'('
    then (if before == b')' then [] else brace_quote)
    else (if c == b'='
        then (if after == b'(' then quote_colon else quote_colon_quote)
        else (if c == b')'
            then (if after == b'('
                then (if before == b')' then comma_quote else quote_comma_quote)
                else (if before == b')' then close_brace else quote_brace))
            else (if c == 0 then [] else c ∷ [])))

-- The text for `w`, which stands behind the character `before` and in front of `after`.
unfoldable pub scan : ℕ → List ℕ → ℕ → List ℕ
scan before [] after = []
scan before (c ∷ w) after = piece before c (head_or w after) ++ scan c w after

pub scan-append :
    (before : ℕ) (v w : List ℕ) (after : ℕ)
    → scan before (v ++ w) after
      ≡ scan before v (head_or w after) ++ scan (last_or before v) w after
unfolding scan
scan-append before [] w after = refl
scan-append before (c ∷ []) w after = ap (λ l. l ++ scan c w after) (sym (append-nil _))
scan-append before (c ∷ d ∷ v) w after =
    ap (◌++◌ (piece before c d)) (scan-append c (d ∷ v) w after)
    ∙ sym (append_assoc (piece before c d) _ _)

-- A step of the switch, with its three reads given.
convert_char-piece :
    (bufin : List ℕ) (i a c d : ℕ)
    → get_elem? bufin i ≡ some a
    → get_elem? bufin (suc i) ≡ some c
    → get_elem? bufin (suc (suc i)) ≡ some d
    → convert_char bufin i ≡ some (piece a c d)
unfolding convert_char piece
convert_char-piece bufin i a c d ha hc hd = ground arith

-- The same for a character inside the text that the loop passes.
pub convert_char-at :
    (bufin : List ℕ) (i before after c : ℕ) (w rest : List ℕ)
    → drop i bufin ≡ before ∷ (c ∷ (w ++ after ∷ rest))
    → convert_char bufin i ≡ some (piece before c (head_or w after))
convert_char-at bufin i before after c w rest e =
    convert_char-piece bufin i before c (head_or w after) (get_elem?-of-drop i before bufin _ e)
      (get_elem?-of-drop (suc i) c bufin _ e₁)
      (get_elem?-of-drop_append (suc (suc i)) after bufin w rest (drop-suc (suc i) c bufin _ e₁))
  where
    e₁ : drop (suc i) bufin ≡ c ∷ (w ++ after ∷ rest)
    e₁ = drop-suc i before bufin _ e

pub strcat-fits :
    (cap : ℕ) (q s : List ℕ) → length q + length s < cap → strcat cap q s ≡ some (q ++ s)
unfolding strcat
strcat-fits cap q s h = ground arith

-- The loop appends the scan of the characters that it passes, while the buffer has room for it.
pub convert_loop-scan :
    (bufin : List ℕ) (outlen i before after : ℕ) (w rest q : List ℕ)
    → drop i bufin ≡ before ∷ (w ++ after ∷ rest)
    → 2 < outlen
    → length q + length (scan before w after) < outlen
    → convert_loop bufin outlen (length w) i q ≡ some (q ++ scan before w after)
unfolding convert_loop scan
convert_loop-scan bufin outlen i before after [] rest q e room fits = ap some (sym (append-nil q))
convert_loop-scan bufin outlen i before after (c ∷ w) rest q e room fits =
    rw (lt→ltb 2 outlen room, convert_char-at bufin i before after c w rest e, appended)
      (convert_loop-scan bufin outlen (suc i) c after w rest _ e₁ room sizes
        ∙ ap some (append_assoc q now later))
  where
    now : List ℕ
    now = piece before c (head_or w after)

    later : List ℕ
    later = scan c w after

    e₁ : drop (suc i) bufin ≡ c ∷ (w ++ after ∷ rest)
    e₁ = drop-suc i before bufin _ e

    total : length q + (length now + length later) < outlen
    total = rw (length-append now later) at fits

    appended : strcat outlen q now ≡ some (q ++ now)
    appended = strcat-fits outlen q now (omega (arith, total))

    sizes : length (q ++ now) + length later < outlen
    sizes = rw (length-append q now) (omega (arith, total))
