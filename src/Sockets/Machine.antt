-- ===== src/Sockets/Machine.antt =====
-- A machine where every name is an interface and every flag may be set.
use tnsparser.Base.{
  ℕ, ◌%◌, ◌≡◌, refl, ap, sym, ◌≢◌, inl, inr, Bool, true, false, Option, none, some, List, [], ◌∷◌,
  ◌==◌, ◌&&◌, eqb→eq, eqb_self, eq_of_some, if◌then◌else◌, Bool-cases, arith,
}
use tnsparser.Sockets.{Os, Ifreq, Request, siocgifflags, siocsifflags, siocgifindex}
use tnsparser.Sockets.Device.{Iface, Netdevice}

abbrev same_name : List ℕ → List ℕ → Bool
same_name [] [] = true
same_name (x ∷ xs) (y ∷ ys) = (x == y) && same_name xs ys
same_name [] (y ∷ ys) = false
same_name (x ∷ xs) [] = false

same_name_self : (xs : List ℕ) → same_name xs xs ≡ true
same_name_self [] = refl
same_name_self (x ∷ xs) = rw (eqb_self x) (same_name_self xs)

same_name-eq : (xs ys : List ℕ) → same_name xs ys ≡ true → xs ≡ ys
same_name-eq [] [] h = refl
same_name-eq [] (y ∷ ys) h = absurd (cc h)
same_name-eq (x ∷ xs) [] h = absurd (cc h)
same_name-eq (x ∷ xs) (y ∷ ys) h = elim (Bool-cases (x == y)) [
  | inl e ↦ cc (eqb→eq x y e, same_name-eq xs ys (rw e at h))
  | inr e ↦ absurd (cc (rw e at h))
]

abbrev pub Machine : Type 0
Machine = List ℕ → Iface

abbrev with_flags : Machine → List ℕ → ℕ → Machine
with_flags m name flags other =
    if same_name other name then record { flags = flags; index = (m other).index } else m other

abbrev machine_ioctl : ℕ → Request → Ifreq → Machine → Bool × (Ifreq × Machine)
machine_ioctl fd siocgifflags req m =
    (true, (record req { ifr_ifru = (m req.ifr_name).flags % 65536 }, m))
machine_ioctl fd siocsifflags req m = (true, (req, with_flags m req.ifr_name req.ifr_ifru))
machine_ioctl fd siocgifindex req m = (true, (record req { ifr_ifru = (m req.ifr_name).index }, m))

abbrev pub linux : Os
linux = record {
  World = Machine;
  socket = λ m. (some 3, m);
  ioctl = machine_ioctl;
  recvfrom = λ fd len m. (none, m);
  getfl = λ fd m. some 2;
  setfl = λ fd flags m. m;
  fionbio = λ fd has m. m;
}

abbrev seen : Machine → List ℕ → Option Iface
seen m name = some (record { flags = (m name).flags % 65536; index = (m name).index })

pub seen-with_flags :
    (m : Machine) (name : List ℕ) (flags : ℕ) (i : Iface)
    → seen m name ≡ some i
    → seen (with_flags m name flags) name ≡ some (record { flags = flags % 65536; index = i.index })
seen-with_flags m name flags i e = rw (same_name_self name, ap (λ j. j.index) (eq_of_some e)) refl

pub seen-with_flags_ne :
    (m : Machine) (name other : List ℕ) (flags : ℕ)
    → other ≢ name
    → seen (with_flags m name flags) other ≡ seen m other
seen-with_flags_ne m name other flags ne = elim (Bool-cases (same_name other name)) [
  | inl e ↦ absurd (ne (same_name-eq other name e))
  | inr e ↦ rw e refl
]

pub never_fails : (m m' : Machine) → linux.socket m ≢ (none, m')
never_fails m m' e = cc e

pub always_there : (m : Machine) (name : List ℕ) → seen m name ≢ none
always_there m name e = cc e

abbrev pub net : Netdevice linux
net = record {
  iface = seen;
  IsOpen = λ m fd. Unit {0};
  socket_fails = λ m m' e. absurd (never_fails m m' e);
  socket_opens = λ m m' fd e. (tt, λ n. ap (λ p. seen p.1 n) (sym e));
  get_missing = λ m fd req opened e. absurd (always_there m req.ifr_name e);
  get_flags = λ m fd req i opened e.
      (_, m, refl, refl, omega (arith, ap (λ j. j.flags) (eq_of_some e)), tt, λ n. refl);
  set_flags = λ m fd req i opened e. inr (
    req,
    with_flags m req.ifr_name req.ifr_ifru,
    refl,
    refl,
    tt,
    seen-with_flags m req.ifr_name req.ifr_ifru i e,
    λ n other. seen-with_flags_ne m req.ifr_name n req.ifr_ifru other,
  );
  index_of = λ m fd req i opened e. (_, m, refl, ap (λ j. j.index) (eq_of_some e), λ n. refl);
}

abbrev pub machine : Machine
machine name = record { flags = 67; index = 4 }
