-- ===== src/Sockets/Flags.antt =====
-- What active_dev makes of an interface's flags.
use tnsparser.Base.{
  ℕ, ◌+◌, ◌*◌, ◌/◌, ◌%◌, ◌<◌, ◌≡◌, refl, ◌⊎◌, inl, inr, ◌≢◌, arith, ◌==◌, Bool-cases, eqb→eq,
  eqb_self,
}
use tnsparser.Sockets.{Ifreq, or_flag, raise_flags}

-- The interface up and promiscuous, and every other flag as it was.
pub record Raised (before after : ℕ) : Type 0 where
  pub up : after % 2 ≡ 1
  pub promisc : after / 256 % 2 ≡ 1
  pub between : after / 2 % 128 ≡ before / 2 % 128
  pub above : after / 512 ≡ before / 512

or_flag-cases :
    (x flag : ℕ)
    → ((x / flag % 2 ≡ 1) × (or_flag x flag ≡ x))
      ⊎ ((x / flag % 2 ≢ 1) × (or_flag x flag ≡ x + flag))
unfolding or_flag
or_flag-cases x flag = elim (Bool-cases (x / flag % 2 == 1)) [
  | inl is ↦ inl (eqb→eq (x / flag % 2) 1 is, rw is refl)
  | inr not ↦ inr ((λ h. cc (rw (h, eqb_self 1) at not)), rw not refl)
]

-- Both flags in a number of 16 bits, which stays one.
or_flag-up :
    (x : ℕ)
    → x < 65536
    → (or_flag x 1 < 65536) × ((or_flag x 1 % 2 ≡ 1) × (or_flag x 1 / 2 ≡ x / 2))
or_flag-up x h = elim (or_flag-cases x 1) [
  | inl (set, e) ↦ (omega (arith, e), (omega (arith, e, set), omega (arith, e)))
  | inr (clear, e) ↦ (omega (arith, e, clear), (omega (arith, e, clear), omega (arith, e, clear)))
]

or_flag-promisc :
    (x : ℕ)
    → x < 65536
    → (or_flag x 256 < 65536)
      × ((or_flag x 256 / 256 % 2 ≡ 1)
          × ((or_flag x 256 % 256 ≡ x % 256) × (or_flag x 256 / 512 ≡ x / 512)))
or_flag-promisc x h = elim (or_flag-cases x 256) [
  | inl (set, e) ↦ (omega (arith, e), (omega (arith, e, set), (omega (arith, e), omega (arith, e))))
  | inr (clear, e) ↦ (
    omega (arith, e, clear),
    (omega (arith, e, clear), (omega (arith, e, clear), omega (arith, e, clear))),
  )
]

pub raise_flags-Raised :
    (req : Ifreq) → Raised (req.ifr_ifru % 65536) ((raise_flags req).ifr_ifru % 65536)
unfolding raise_flags
raise_flags-Raised req =
    let x : ℕ = req.ifr_ifru % 65536 in
    let (small, (up, high)) = or_flag-up x (omega arith) in
    let (small', (promisc, (low, above))) = or_flag-promisc (or_flag x 1) small in
    let same : (65536 * (req.ifr_ifru / 65536) + or_flag (or_flag x 1) 256) % 65536
        ≡ or_flag (or_flag x 1) 256 =
      omega (arith, small') in
    record {
      up = omega (arith, same, up, low);
      promisc = omega (arith, same, promisc);
      between = omega (arith, same, low, high);
      above = omega (arith, same, above, high);
    }

pub raise_flags-name : (req : Ifreq) → (raise_flags req).ifr_name ≡ req.ifr_name
unfolding raise_flags
raise_flags-name req = refl
