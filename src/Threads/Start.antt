-- ===== src/Threads/Start.antt =====
-- What main comes to when it is given a target.
use tnsparser.Base.{ℕ, ◌%◌, ◌≡◌, refl, inl, inr, true, Option, none, some, List, ◌∷◌, arith}
use tnsparser.Session.{TnsSession}
use tnsparser.Sockets.{Os, creat_sock}
use tnsparser.Sockets.Device.{Netdevice, Kept, Activates, creat_sock-Activates}
use tnsparser.Network.{Packet}
use tnsparser.Network.Ethernet.{eth_handle, handle_of, eth_open, get_network}
use tnsparser.ListQueue.Memory.{Heap}
use tnsparser.Pool.{Links, Documented}
use tnsparser.Pool.Owned.{mem_pool_create-Owned}
use tnsparser.Threads.{System, Main, exited, threads, max_pktpool_size, boot, after_open, main}

-- How main can end, from a system on and with what the setup of the shared state gives: the process
-- exits with status 0 because the system gives no socket, and no interface has changed, or the system
-- gives one and the threads start on that state, with the
-- target, an open socket, and docker0 as creat_sock leaves it.
pub data Starts (links : Links) (os : Os) (net : Netdevice os) (w : os.World) (ip port : ℕ)
    (set_up : Option (System links)) (m : Option (Main links os)) : Type 0 where
  no_socket :
      (w' : os.World)
      → m ≡ some (exited 0)
      → os.socket w ≡ (none, w')
      → Kept os net w w'
      → Starts links os net w ip port set_up m
  started :
      (s : System links) (fd index : ℕ) (w1 w' : os.World)
      → set_up ≡ some s
      → m ≡ some (threads ip port (eth_handle fd) s)
      → os.socket w ≡ (some fd, w1)
      → Kept os net w w1
      → Activates os net fd 0 index w1 w'
      → Starts links os net w ip port set_up m

boot-total :
    (links : Links) (doc : Documented links) (mem : links.Mem) (heap : Heap) (packets : ℕ → Packet)
    (table : List TnsSession)
    → (s : System links) × (boot links (some mem) heap packets table ≡ some s)
unfolding boot
boot-total links doc mem heap packets table =
    let (pool, e, owned, unused) =
      mem_pool_create-Owned links doc max_pktpool_size mem (omega arith) in
    rw e (_, refl)

-- With a target, if the list functions do what list.h documents, the system calls what netdevice(7)
-- and packet(7) document, and the mallocs of the pool and of eth_open return memory: if the system
-- gives no socket, main exits with status 0 and no interface has changed; otherwise it starts the
-- threads on the state that it has set up, with the address that inet_addr gives and the lower 16
-- bits of what atoi gives, with the socket that the system gave, and with docker0 up and
-- promiscuous, unless it is not there or the system call that raises its flags on the socket fails.
pub main-Starts :
    (links : Links) (doc : Documented links) (os : Os) (net : Netdevice os)
    (inet_addr atoi : List ℕ → ℕ) (w : os.World) (mem : links.Mem) (heap : Heap)
    (packets : ℕ → Packet) (table : List TnsSession) (name target_ip target_port : List ℕ)
    (rest : List (List ℕ))
    → Starts links os net w
        (inet_addr target_ip)
        (atoi target_port % 65536)
        (boot links (some mem) heap packets table)
        (main links os inet_addr atoi
          (name ∷ target_ip ∷ target_port ∷ rest)
          true
          w
          (some mem)
          heap
          packets
          table)
unfolding main after_open get_network eth_open handle_of
main-Starts links doc os net inet_addr atoi w mem heap packets table name target_ip target_port
      rest =
    let (s, e) = boot-total links doc mem heap packets table in
    elim (creat_sock-Activates os net 0 w) [
      | inl (none_left, failed, index, kept) ↦
          no_socket (creat_sock os 0 w).world (rw (e, failed) refl) none_left kept
      | inr (fd, w1, opened, kept, got, activates) ↦
          started s fd (creat_sock os 0 w).g_netif_index w1 (creat_sock os 0 w).world e
            (rw (e, got) refl) opened kept activates
    ]
