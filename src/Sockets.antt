-- ===== src/Sockets.antt =====
-- The packet socket: src/socket.c. What the system does behind a call is a parameter; what printf and
-- perror write is the list of the calls' effects. A C string is the list of its characters.
pub mod Flags
pub mod Device
pub mod Machine
mod Examples
use tnsparser.Base.{
  ℕ, ◌+◌, ◌*◌, ◌/◌, ◌%◌, Bool, true, false, Option, none, some, List, [], ◌∷◌, ◌++◌, ◌==◌,
  if◌then◌else◌, take, replicate,
}

-- struct ifreq: the name, and the union's first four bytes as an int, of which ifr_flags is the low
-- half and ifr_ifindex the whole, as on a little-endian machine.
pub record Ifreq : Type 0 where
  pub ifr_name : List ℕ
  pub ifr_ifru : ℕ

pub data Request : Type 0 where
  siocgifflags siocsifflags siocgifindex : Request

-- The system calls as the source uses them: socket and recvfrom with `none` for -1, ioctl with `false`
-- for -1 and with what it leaves in the structure, and fcntl on the file status flags, where `none`
-- stands for -1. FIONBIO is given the word `has`.
pub record Os : Type 1 where
  pub World : Type 0
  pub socket : World → Option ℕ × World
  pub ioctl : ℕ → Request → Ifreq → World → Bool × (Ifreq × World)
  pub recvfrom : ℕ → ℕ → World → Option (List ℕ) × World
  pub getfl : ℕ → World → Option ℕ
  pub setfl : ℕ → Option ℕ → World → World
  pub fionbio : ℕ → ℕ → World → World

-- "****   if name %s, if index %d", perror, and "**** NETIF_NAME %s, g_netif_index %d".
pub data Message : Type 0 where
  if_name_index : List ℕ → ℕ → Message
  no_socket : Message
  netif : List ℕ → ℕ → Message

-- strncpy into an array of n bytes, which it fills up with zeros.
unfoldable pub strncpy : ℕ → List ℕ → List ℕ
strncpy n s = take n (s ++ replicate n 0)

-- x | flag, for a flag of one bit.
unfoldable pub or_flag : ℕ → ℕ → ℕ
or_flag x flag = if x / flag % 2 == 1 then x else x + flag

abbrev pub iff_up : ℕ
iff_up = 1

abbrev pub iff_promisc : ℕ
iff_promisc = 256

abbrev o_nonblock : ℕ
o_nonblock = 2048

-- "docker0"
abbrev pub netif_name : List ℕ
netif_name = b'd' ∷ b'o' ∷ b'c' ∷ b'k' ∷ b'e' ∷ b'r' ∷ b'0' ∷ []

-- The two assignments to ifr_flags, which leave the high half of the union as it is.
unfoldable pub raise_flags : Ifreq → Ifreq
unfolding or_flag
raise_flags req = record req {
  ifr_ifru =
      65536 * (req.ifr_ifru / 65536) + or_flag (or_flag (req.ifr_ifru % 65536) iff_up) iff_promisc;
}

module _ (os : Os) where
  open os use {World, socket, ioctl, recvfrom, getfl, setfl, fionbio}

  -- What active_dev returns, `false` for -1, with `*index`.
  pub record Active : Type 0 where
    pub ok : Bool
    pub index : ℕ
    pub printed : List Message
    pub world : World

  -- The result of SIOCGIFINDEX is not looked at.
  unfoldable pub get_index : Bool × (Ifreq × World) → Active
  get_index (ok, (req, w)) = record {
    ok = true;
    index = req.ifr_ifru;
    printed = if_name_index req.ifr_name req.ifr_ifru ∷ [];
    world = w;
  }

  unfoldable pub after_set_flags : ℕ → ℕ → Bool × (Ifreq × World) → Active
  unfolding get_index
  after_set_flags fd index (false, (req, w)) = record {
    ok = false;
    index = index;
    printed = [];
    world = w;
  }
  after_set_flags fd index (true, (req, w)) = get_index (ioctl fd siocgifindex req w)

  unfoldable pub after_get_flags : ℕ → ℕ → Bool × (Ifreq × World) → Active
  unfolding after_set_flags raise_flags
  after_get_flags fd index (false, (req, w)) = record {
    ok = false;
    index = index;
    printed = [];
    world = w;
  }
  after_get_flags fd index (true, (req, w)) =
      after_set_flags fd index (ioctl fd siocsifflags (raise_flags req) w)

  unfoldable pub active_dev : ℕ → List ℕ → ℕ → World → Active
  unfolding after_get_flags strncpy
  active_dev fd dev index w =
      after_get_flags fd index
        (ioctl fd siocgifflags (record { ifr_name = strncpy 16 dev; ifr_ifru = 0 }) w)

  -- What creat_sock returns, `none` for a negative number, with `g_netif_index`.
  pub record Created : Type 0 where
    pub fd : Option ℕ
    pub g_netif_index : ℕ
    pub printed : List Message
    pub world : World

  -- The result of active_dev is not looked at.
  unfoldable pub after_socket : ℕ → Option ℕ × World → Created
  unfolding active_dev
  after_socket index (none, w) = record {
    fd = none;
    g_netif_index = index;
    printed = no_socket ∷ netif netif_name index ∷ [];
    world = w;
  }
  after_socket index (some fd, w) =
      let a = active_dev fd netif_name index w in
      record {
        fd = some fd;
        g_netif_index = a.index;
        printed = a.printed ++ netif netif_name a.index ∷ [];
        world = a.world;
      }

  unfoldable pub creat_sock : ℕ → World → Created
  unfolding after_socket
  creat_sock g_netif_index w = after_socket g_netif_index (socket w)

  -- It sends nothing; nothing calls it.
  unfoldable pub send_via_dev : ℕ → List ℕ → ℕ → ℕ
  send_via_dev fd bytes len = 0

  -- Both ways out hand on what recvfrom returned: -1, or the number of bytes in front.
  unfoldable pub recv_via_dev : ℕ → ℕ → World → Option (List ℕ) × World
  recv_via_dev fd len w = recvfrom fd len w

  unfoldable pub or_flags : Option ℕ → ℕ → Option ℕ
  unfolding or_flag
  or_flags none flag = none
  or_flags (some flags) flag = some (or_flag flags flag)

  -- Its lines that are printed are left out; nothing calls it.
  unfoldable pub set_sock_nonblock : ℕ → World → World
  unfolding or_flags
  set_sock_nonblock fd w = fionbio fd 1 (setfl fd (or_flags (getfl fd w) o_nonblock) w)
