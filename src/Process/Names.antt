-- ===== src/Process/Names.antt =====
-- The text that describes a session names its connection.
use tnsparser.Base.{
  ℕ, zero, suc, ◌+◌, ◌/◌, ◌%◌, ◌^◌, ◌≤◌, ◌<◌, ◌≡◌, ◌≢◌, refl, sym, ap, ◌∙◌, inl, inr, List, [], ◌∷◌,
  ◌++◌, append_assoc, arith, ltb, Bool-cases, ltb→lt, All, All-append,
}
use tnsparser.Wire.{ntohs}
use tnsparser.Session.{SessKey}
use tnsparser.Process.{decimal, inet_ntoa, sess_desc}
use tnsparser.Process.Text.{value, value-decimal}

abbrev IsDigit : ℕ → Type 0
IsDigit c = (48 ≤ c) × (c ≤ 57)

decimal-IsDigit : (digits n : ℕ) → All IsDigit (decimal digits n)
unfolding decimal
decimal-IsDigit zero n = tt
decimal-IsDigit (suc digits) n = elim (Bool-cases (ltb n 10)) [
  | inl small ↦ rw small ((omega arith, omega (arith, ltb→lt n 10 small)), tt)
  | inr large ↦ rw large (
      All-append IsDigit (decimal digits (n / 10)) ((48 + n % 10) ∷ [])
        (decimal-IsDigit digits (n / 10)) ((omega arith, omega arith), tt))
]

-- Text in front of a delimiter that does not stand in it.
split_at :
    (c : ℕ) (xs ys r r' : List ℕ)
    → All (λ x. x ≢ c) xs
    → All (λ x. x ≢ c) ys
    → xs ++ c ∷ r ≡ ys ++ c ∷ r'
    → (xs ≡ ys) × (r ≡ r')
split_at c [] [] r r' h k e = (refl, cc)
split_at c [] (y ∷ ys) r r' h (ne, k) e = absurd (ne (same_head e))
  where
    same_head : c ∷ r ≡ y ∷ (ys ++ c ∷ r') → y ≡ c
    same_head f = cc
split_at c (x ∷ xs) [] r r' (ne, h) k e = absurd (ne (same_head e))
  where
    same_head : x ∷ (xs ++ c ∷ r) ≡ c ∷ r' → x ≡ c
    same_head f = cc
split_at c (x ∷ xs) (y ∷ ys) r r' (n, h) (m, k) e =
    let (same, rest) = split_at c xs ys r r' h k (same_tail e) in (cc (same_head e, same), rest)
  where
    same_tail : x ∷ (xs ++ c ∷ r) ≡ y ∷ (ys ++ c ∷ r') → xs ++ c ∷ r ≡ ys ++ c ∷ r'
    same_tail f = cc

    same_head : x ∷ (xs ++ c ∷ r) ≡ y ∷ (ys ++ c ∷ r') → x ≡ y
    same_head f = cc

without_digit : (c : ℕ) → (IsDigit c → ⊥) → (xs : List ℕ) → All IsDigit xs → All (λ x. x ≢ c) xs
without_digit c other [] h = tt
without_digit c other (x ∷ xs) (d, h) = ((λ e. other (rw (← e) d)), without_digit c other xs h)

-- The digits of a number stand in front of any character that is no digit.
decimal-split :
    (c digits a b : ℕ) (r r' : List ℕ)
    → (IsDigit c → ⊥)
    → a < 10 ^ digits
    → b < 10 ^ digits
    → decimal digits a ++ c ∷ r ≡ decimal digits b ++ c ∷ r'
    → (a ≡ b) × (r ≡ r')
decimal-split c digits a b r r' other small small' e =
    let (same, rest) =
      split_at c (decimal digits a) (decimal digits b) r r'
        (without_digit c other (decimal digits a) (decimal-IsDigit digits a))
        (without_digit c other (decimal digits b) (decimal-IsDigit digits b)) e in
    (sym (value-decimal digits a small) ∙ ap (value 0) same ∙ value-decimal digits b small', rest)

-- The four numbers of an address, in front of what follows it.
abbrev bytes_then : ℕ → List ℕ → List ℕ
bytes_then a rest =
    decimal 3 (a % 256)
    ++ b'.'
      ∷ (decimal 3 (a / 256 % 256)
          ++ b'.'
            ∷ (decimal 3 (a / 65536 % 256) ++ b'.' ∷ (decimal 3 (a / 16777216 % 256) ++ rest)))

inet_ntoa-append : (a : ℕ) (rest : List ℕ) → inet_ntoa a ++ rest ≡ bytes_then a rest
unfolding inet_ntoa
inet_ntoa-append a rest =
    let d : ℕ → List ℕ = λ k. decimal 3 k in
    rw
      (
        append_assoc (decimal 3 (a % 256)) _ rest,
        append_assoc (decimal 3 (a / 256 % 256)) _ rest,
        append_assoc (decimal 3 (a / 65536 % 256)) _ rest,
      )
      refl

no_dot : IsDigit b'.' → ⊥
no_dot d = absurd (omega (arith, d.0))

inet_ntoa-split :
    (c a b : ℕ) (r r' : List ℕ)
    → (IsDigit c → ⊥)
    → a < 2 ^ 32
    → b < 2 ^ 32
    → inet_ntoa a ++ c ∷ r ≡ inet_ntoa b ++ c ∷ r'
    → (a ≡ b) × (r ≡ r')
inet_ntoa-split c a b r r' other small small' e =
    let whole = sym (inet_ntoa-append a (c ∷ r)) ∙ e ∙ inet_ntoa-append b (c ∷ r') in
    let (first, e1) =
      decimal-split b'.' 3 (a % 256) (b % 256) _ _ no_dot (omega arith) (omega arith) whole in
    let (second, e2) =
      decimal-split b'.' 3 (a / 256 % 256) (b / 256 % 256) _ _ no_dot (omega arith) (omega arith)
        e1 in
    let (third, e3) =
      decimal-split b'.' 3 (a / 65536 % 256) (b / 65536 % 256) _ _ no_dot (omega arith)
        (omega arith) e2 in
    let (fourth, e4) =
      decimal-split c 3 (a / 16777216 % 256) (b / 16777216 % 256) r r' other (omega arith)
        (omega arith) e3 in
    (omega (arith, first, second, third, fourth), e4)

tail_of : {x y : ℕ} {xs ys : List ℕ} → x ∷ xs ≡ y ∷ ys → xs ≡ ys
tail_of e = cc

behind_arrow : {a b c d e f : ℕ} {xs ys : List ℕ} → a ∷ b ∷ c ∷ xs ≡ d ∷ e ∷ f ∷ ys → xs ≡ ys
behind_arrow e = tail_of (tail_of (tail_of e))

-- The fields of a key fit their types.
pub record Fits (k : SessKey) : Type 0 where
  pub sip : k.sip < 2 ^ 32
  pub dip : k.dip < 2 ^ 32
  pub sport : k.sport < 65536
  pub dport : k.dport < 65536

ntohs-injective : (a b : ℕ) → a < 65536 → b < 65536 → ntohs a ≡ ntohs b → a ≡ b
unfolding ntohs
ntohs-injective a b h k e = omega (arith, e)

ntohs-small : (a : ℕ) → ntohs a < 10 ^ 5
unfolding ntohs
ntohs-small a = omega arith

-- Two keys whose fields fit their types have the same text only if they are the same: the text of a
-- session names its connection.
pub sess_desc-injective : (k k' : SessKey) → Fits k → Fits k' → sess_desc k ≡ sess_desc k' → k ≡ k'
unfolding sess_desc
sess_desc-injective k k' fits fits' e =
    let (sip, e1) =
      inet_ntoa-split b':' k.sip k'.sip _ _ (λ d. absurd (omega (arith, d.1))) fits.sip fits'.sip
        (tail_of e) in
    let (sport, e2) =
      decimal-split b' ' 5 (ntohs k.sport) (ntohs k'.sport) _ _ (λ d. absurd (omega (arith, d.0)))
        (ntohs-small k.sport) (ntohs-small k'.sport) e1 in
    let (dip, e3) =
      inet_ntoa-split b':' k.dip k'.dip _ _ (λ d. absurd (omega (arith, d.1))) fits.dip fits'.dip
        (behind_arrow e2) in
    let (dport, e4) =
      decimal-split b']' 5 (ntohs k.dport) (ntohs k'.dport) [] [] (λ d. absurd (omega (arith, d.1)))
        (ntohs-small k.dport) (ntohs-small k'.dport) e3 in
    cc (
      sip,
      dip,
      ntohs-injective k.sport k'.sport fits.sport fits'.sport sport,
      ntohs-injective k.dport k'.dport fits.dport fits'.dport dport,
    )
