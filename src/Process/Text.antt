-- ===== src/Process/Text.antt =====
-- The text of a session fits into its field.
use native.Mathlib.Nat.{pow-suc}
use tnsparser.Base.{
  ℕ, zero, suc, ◌+◌, ◌*◌, ◌/◌, ◌%◌, ◌^◌, ◌≤◌, ◌<◌, List, [], ◌∷◌, ◌++◌, arith, ltb, length,
  length-append, ◌≡◌, refl, ◌-◌, Bool-cases, inl, inr,
}
use tnsparser.Wire.{ntohs}
use tnsparser.Session.{SessKey}
use tnsparser.Process.{decimal, inet_ntoa, sess_desc}

shorter : (digits n : ℕ) → n < 10 ^ suc digits → n / 10 < 10 ^ digits
shorter digits n h = omega (arith, pow-suc 10 digits)

length-decimal : (digits n : ℕ) → length (decimal digits n) ≤ digits
unfolding decimal
length-decimal zero n = omega arith
length-decimal (suc digits) n = ground (
  arith,
  length-decimal digits (n / 10),
  length-append (decimal digits (n / 10)) ((48 + n % 10) ∷ []),
)

-- The number that decimal digits stand for.
unfoldable pub value : ℕ → List ℕ → ℕ
value acc [] = acc
value acc (d ∷ ds) = value (acc * 10 + (d - 48)) ds

value-snoc :
    (acc : ℕ) (ds : List ℕ) (d : ℕ) → value acc (ds ++ d ∷ []) ≡ value acc ds * 10 + (d - 48)
unfolding value
value-snoc acc [] d = refl
value-snoc acc (e ∷ ds) d = value-snoc (acc * 10 + (e - 48)) ds d

-- The rounds of `decimal` suffice for a number with that many digits: they give the number back.
pub value-decimal : (digits n : ℕ) → n < 10 ^ digits → value 0 (decimal digits n) ≡ n
unfolding decimal value
value-decimal zero n h = omega arith
value-decimal (suc digits) n h = elim (Bool-cases (ltb n 10)) [
  | inl small ↦ rw small (omega arith)
  | inr large ↦
      rw
        (
          large,
          value-snoc 0 (decimal digits (n / 10)) (48 + n % 10),
          value-decimal digits (n / 10) (shorter digits n h),
        )
        (omega arith)
]

length-inet_ntoa : (a : ℕ) → length (inet_ntoa a) ≤ 15
unfolding inet_ntoa
length-inet_ntoa a = simp length-append (
    omega (
      arith,
      length-decimal 3 (a % 256),
      length-decimal 3 (a / 256 % 256),
      length-decimal 3 (a / 65536 % 256),
      length-decimal 3 (a / 16777216 % 256),
    ))

-- The text that describes a session fits, with its terminator, into the 64 bytes of its field.
pub length-sess_desc : (key : SessKey) → length (sess_desc key) + 1 ≤ 64
unfolding sess_desc
length-sess_desc key = simp length-append (
    omega (
      arith,
      length-inet_ntoa key.sip,
      length-inet_ntoa key.dip,
      length-decimal 5 (ntohs key.sport),
      length-decimal 5 (ntohs key.dport),
    ))
