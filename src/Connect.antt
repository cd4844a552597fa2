-- ===== src/Connect.antt =====
-- The connect descriptor's conversion to JSON: parse_connect_data_to_json of src/oracle_tns.c.
-- `bufin` is the memory that can be read from the pointer on, byte by byte (`none` for a null
-- pointer), `bufout` tells whether the pointer is set, and the buffer behind it holds `*outlen`
-- bytes, as its only caller allocates it. The result `none` is undefined behaviour.
pub mod Scan
pub mod Descriptor
pub mod Pieces
pub mod Size
pub mod Refine
pub mod Overflow
pub mod Whole
pub mod Faithful
pub mod Smuggled
mod Examples
use tnsparser.Base.{
  ℕ, zero, suc, ◌+◌, ◌-◌, Bool, true, false, ◌&&◌, Option, none, some, List, [], ◌∷◌, ◌++◌, ltb,
  leb, ◌==◌, if◌then◌else◌, length, get_elem?, ◌>>=◌,
}

-- The text pieces that the function appends; 0x22 is the double quote.
abbrev pub brace_quote : List ℕ
brace_quote = b'{' ∷ 0x22 ∷ []

abbrev pub quote_colon : List ℕ
quote_colon = 0x22 ∷ b':' ∷ []

abbrev pub quote_colon_quote : List ℕ
quote_colon_quote = 0x22 ∷ b':' ∷ 0x22 ∷ []

abbrev pub comma_quote : List ℕ
comma_quote = b',' ∷ 0x22 ∷ []

abbrev pub quote_comma_quote : List ℕ
quote_comma_quote = 0x22 ∷ b',' ∷ 0x22 ∷ []

abbrev pub close_brace : List ℕ
close_brace = b'}' ∷ []

abbrev pub quote_brace : List ℕ
quote_brace = 0x22 ∷ b'}' ∷ []

-- strcat(q, s) into a buffer of `cap` bytes: the text and its terminator have to fit.
unfoldable pub strcat : ℕ → List ℕ → List ℕ → Option (List ℕ)
strcat cap q s = if leb (length q + length s + 1) cap then some (q ++ s) else none

-- Before '(' : nothing after a closed parameter, else a new object.
unfoldable pub before_open : List ℕ → ℕ → Option (List ℕ)
before_open bufin i = do
  before ← get_elem? bufin i
  some (if before == b')' then [] else brace_quote)

-- At '=' : a group follows, or a text.
unfoldable pub at_equals : List ℕ → ℕ → Option (List ℕ)
at_equals bufin i = do
  after ← get_elem? bufin (suc (suc i))
  some (if after == b'(' then quote_colon else quote_colon_quote)

-- At ')' : the end of a text or of a group, with or without a sibling behind it.
unfoldable pub at_close : List ℕ → ℕ → Option (List ℕ)
at_close bufin i = do
  after ← get_elem? bufin (suc (suc i))
  before ← get_elem? bufin i
  some (
      if after == b'('
      then (if before == b')' then comma_quote else quote_comma_quote)
      else (if before == b')' then close_brace else quote_brace))

-- The text that the switch appends for the character at p + i. As p = bufin + 1, the character
-- before it is bufin[i] and the one behind it is bufin[i + 2].
unfoldable pub convert_char : List ℕ → ℕ → Option (List ℕ)
unfolding before_open at_equals at_close
convert_char bufin i = do
  c ← get_elem? bufin (suc i)
  if c == b'('
      then before_open bufin i
      else (if c == b'='
          then at_equals bufin i
          else (if c == b')' then at_close bufin i else some (if c == 0 then [] else c ∷ [])))

-- The for loop, by the rounds left. `q` never moves from `bufout`, so the guard on the space left,
-- (q - bufout) + 2 < *outlen, compares 2 with the size of the buffer.
unfoldable pub convert_loop : List ℕ → ℕ → ℕ → ℕ → List ℕ → Option (List ℕ)
convert_loop bufin outlen zero i q = some q
convert_loop bufin outlen (suc rounds) i q =
    (if ltb (0 + 2) outlen then (convert_char bufin i >>= λ s. strcat outlen q s) else some q)
    >>= λ q'. convert_loop bufin outlen rounds (suc i) q'

-- The return values 0, -1 and -2.
pub data Converted : Type 0 where
  success null_input bad_syntax : Converted

-- What the caller sees: the return value, the string in `bufout` and `*outlen`.
pub record JsonResult : Type 0 where
  pub ret : Converted
  pub text : List ℕ
  pub outlen : ℕ

-- Behind the loop: the text has to end in ')'.
unfoldable pub finish : List ℕ → ℕ → ℕ → List ℕ → Option JsonResult
unfolding strcat
finish bufin inlen outlen q = do
  last ← get_elem? bufin (suc (inlen - 2))
  if last == b')'
      then (do
        before ← get_elem? bufin (inlen - 2)
        text ← strcat outlen q (if before == b')' then close_brace else quote_brace)
        some (record { ret = success; text = text; outlen = length text + 1 }))
      else some (record { ret = bad_syntax; text = q; outlen = outlen })

-- From the check of the first character on, with both pointers set.
unfoldable pub convert : List ℕ → ℕ → ℕ → Option JsonResult
convert bufin inlen outlen = do
  first ← get_elem? bufin 0
  if first == b'('
      then (do
        start ← strcat outlen [] brace_quote
        q ← convert_loop bufin outlen (inlen - 2) 0 start
        finish bufin inlen outlen q)
      else some (record { ret = bad_syntax; text = []; outlen = outlen })

unfoldable pub parse_connect_data_to_json : Option (List ℕ) → ℕ → Bool → ℕ → Option JsonResult
parse_connect_data_to_json none inlen bufout outlen =
    if bufout && (ltb 0 inlen && ltb 0 outlen)
    then some (record { ret = null_input; text = []; outlen = outlen })
    else none
parse_connect_data_to_json (some bufin) inlen bufout outlen =
    if bufout then convert bufin inlen outlen else none
