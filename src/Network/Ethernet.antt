-- ===== src/Network/Ethernet.antt =====
-- The network `ethernet`: eth_init, eth_deinit, eth_open, eth_close, eth_recv on a handle, eth_send,
-- and get_network of src/network.c with struct Networks and struct eth_handle of src/network.h.
use tnsparser.Base.{ℕ, Bool, true, false, Option, none, some, List, [], ◌∷◌, ◌>>=◌}
use tnsparser.Sockets.{Os, Created, creat_sock, recv_via_dev}
use tnsparser.Network.{Packet, eth_recv}

-- What the handler points to: a struct eth_handle, or memory that was given back.
pub data Handler : Type 0 where
  eth_handle : (fd : ℕ) → Handler
  freed : Handler

abbrev pub try_recv_len : ℕ
try_recv_len = 1518

abbrev pub eth_init : ℕ
eth_init = 0

abbrev pub eth_deinit : ℕ
eth_deinit = 0

module _ (os : Os) where
  -- How `open` ends: it returns 0 with its handler, or the process exits with a status.
  pub data Opened : Type 0 where
    opened : Handler → Created os → Opened
    exits : ℕ → Created os → Opened

  unfoldable pub handle_of : Created os → Option ℕ → Opened
  handle_of r none = exits 0 r
  handle_of r (some fd) = opened (eth_handle fd) r

  -- The result of malloc is not looked at: `granted` says whether it returns memory, without which
  -- the write to the handle is undefined. The line of its own that perror writes is left out.
  unfoldable pub eth_open : Bool → ℕ → os.World → Option Opened
  unfolding handle_of
  eth_open false g_netif_index w = none
  eth_open true g_netif_index w = let r = creat_sock os g_netif_index w in some (handle_of r r.fd)

  -- free of the handle; a second one is undefined.
  unfoldable pub eth_close : Handler → Option (ℕ × Handler)
  eth_close (eth_handle fd) = some (0, freed)
  eth_close freed = none

  unfoldable pub receive :
      ℕ → ℕ → Packet → Option (List ℕ) × os.World → Option ((ℕ × Packet) × os.World)
  receive g_target_ip g_target_port pkt (bytes, w) =
      eth_recv g_target_ip g_target_port bytes pkt >>= λ r. some (r, w)

  -- eth_recv with the call of recv_via_dev on the handle's socket.
  unfoldable pub eth_recv_from :
      ℕ → ℕ → Handler → Packet → os.World → Option ((ℕ × Packet) × os.World)
  unfolding receive
  eth_recv_from g_target_ip g_target_port freed pkt w = none
  eth_recv_from g_target_ip g_target_port (eth_handle fd) pkt w =
      receive g_target_ip g_target_port pkt (recv_via_dev os fd try_recv_len w)

  -- struct Networks, with the globals that its functions use as arguments.
  pub record Networks : Type 0 where
    pub name : List ℕ
    pub init : ℕ
    pub deinit : ℕ
    pub open_handler : Bool → ℕ → os.World → Option Opened
    pub close : Handler → Option (ℕ × Handler)
    pub recv : ℕ → ℕ → Handler → Packet → os.World → Option ((ℕ × Packet) × os.World)
    pub send : Handler → Packet → ℕ

  unfoldable pub get_network : Networks
  unfolding eth_open eth_close eth_recv_from
  get_network = record {
    name = b'e' ∷ b't' ∷ b'h' ∷ b'e' ∷ b'r' ∷ b'n' ∷ b'e' ∷ b't' ∷ [];
    init = eth_init;
    deinit = eth_deinit;
    open_handler = eth_open;
    close = eth_close;
    recv = eth_recv_from;
    send = λ handler pkt. 0;
  }
