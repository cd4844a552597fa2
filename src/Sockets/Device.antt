-- ===== src/Sockets/Device.antt =====
-- What opening the packet socket does to the network interfaces.
use tnsparser.Base.{
  ℕ, ◌%◌, ◌≡◌, refl, sym, subst, ◌∙◌, ◌⊎◌, inl, inr, ◌≢◌, true, false, Option, none, some, List,
  Option-cases, replicate, ◌++◌,
}
use tnsparser.Sockets.{
  Os, Ifreq, siocgifflags, siocsifflags, siocgifindex, strncpy, netif_name, raise_flags, Active,
  Created, get_index, after_set_flags, after_get_flags, active_dev, after_socket, creat_sock,
}
use tnsparser.Sockets.Flags.{Raised, raise_flags-Raised, raise_flags-name}

-- An interface: its flags, an unsigned short, and its index.
pub record Iface : Type 0 where
  pub flags : ℕ
  pub index : ℕ

-- What netdevice(7) and packet(7) say of the calls, by the interfaces that a world has under their
-- names and by which numbers are open sockets.
pub record Netdevice (os : Os) : Type 1 where
  pub iface : os.World → List ℕ → Option Iface
  pub IsOpen : os.World → ℕ → Type 0
  pub socket_fails :
      (w w' : os.World) → os.socket w ≡ (none, w') → (name : List ℕ) → iface w' name ≡ iface w name
  pub socket_opens :
      (w w' : os.World) (fd : ℕ)
      → os.socket w ≡ (some fd, w')
      → IsOpen w' fd × ((name : List ℕ) → iface w' name ≡ iface w name)
  pub get_missing :
      (w : os.World) (fd : ℕ) (req : Ifreq)
      → IsOpen w fd
      → iface w req.ifr_name ≡ none
      → (req' : Ifreq) × (w' : os.World) × (os.ioctl fd siocgifflags req w ≡ (false, (req', w')))
        × ((name : List ℕ) → iface w' name ≡ iface w name)
  pub get_flags :
      (w : os.World) (fd : ℕ) (req : Ifreq) (i : Iface)
      → IsOpen w fd
      → iface w req.ifr_name ≡ some i
      → (req' : Ifreq) × (w' : os.World) × (os.ioctl fd siocgifflags req w ≡ (true, (req', w')))
        × (req'.ifr_name ≡ req.ifr_name)
        × (req'.ifr_ifru % 65536 ≡ i.flags)
        × IsOpen w' fd
        × ((name : List ℕ) → iface w' name ≡ iface w name)
  pub set_flags :
      (w : os.World) (fd : ℕ) (req : Ifreq) (i : Iface)
      → IsOpen w fd
      → iface w req.ifr_name ≡ some i
      → ((req' : Ifreq) × (w' : os.World) × (os.ioctl fd siocsifflags req w ≡ (false, (req', w')))
          × ((name : List ℕ) → iface w' name ≡ iface w name))
        ⊎ ((req' : Ifreq) × (w' : os.World) × (os.ioctl fd siocsifflags req w ≡ (true, (req', w')))
            × (req'.ifr_name ≡ req.ifr_name)
            × IsOpen w' fd
            × (iface w' req.ifr_name
                ≡ some (record { flags = req.ifr_ifru % 65536; index = i.index }))
            × ((name : List ℕ) → name ≢ req.ifr_name → iface w' name ≡ iface w name))
  pub index_of :
      (w : os.World) (fd : ℕ) (req : Ifreq) (i : Iface)
      → IsOpen w fd
      → iface w req.ifr_name ≡ some i
      → (req' : Ifreq) × (w' : os.World) × (os.ioctl fd siocgifindex req w ≡ (true, (req', w')))
        × (req'.ifr_ifru ≡ i.index)
        × ((name : List ℕ) → iface w' name ≡ iface w name)

-- The name of the interface in the structure.
abbrev pub docker0 : List ℕ
docker0 = netif_name ++ replicate 9 0

module _ (os : Os) (net : Netdevice os) where
  -- The interfaces of two worlds are the same.
  abbrev pub Kept : os.World → os.World → Type 0
  Kept w w' = (name : List ℕ) → net.iface w' name ≡ net.iface w name

  -- The system does not set the flags of docker0: a call of SIOCSIFFLAGS on the socket, for docker0
  -- with IFF_UP and IFF_PROMISC raised in its flags, fails, from a world with the same interfaces
  -- and to the given one.
  pub data NotSet (fd : ℕ) (i : Iface) (w w' : os.World) : Type 0 where
    not_set :
        (w1 : os.World) (req req' : Ifreq)
        → Kept w w1
        → req.ifr_name ≡ docker0
        → Raised i.flags (req.ifr_ifru % 65536)
        → os.ioctl fd siocsifflags req w1 ≡ (false, (req', w'))
        → NotSet fd i w w'

  -- How a call of active_dev on a socket can end, with the index and the world before and after:
  -- docker0 is not there, or the system does not set its flags, and nothing has changed; or it is up
  -- and promiscuous, its other flags and every other interface are as before, and the index is its
  -- own.
  pub data Activates (fd index index' : ℕ) (w w' : os.World) : Type 0 where
    no_device :
        net.iface w docker0 ≡ none → index' ≡ index → Kept w w' → Activates fd index index' w w'
    refused :
        (i : Iface)
        → net.iface w docker0 ≡ some i
        → NotSet fd i w w'
        → index' ≡ index
        → Kept w w'
        → Activates fd index index' w w'
    capturing :
        (i : Iface) (flags : ℕ)
        → net.iface w docker0 ≡ some i
        → index' ≡ i.index
        → net.iface w' docker0 ≡ some (record { flags = flags; index = i.index })
        → Raised i.flags flags
        → ((name : List ℕ) → name ≢ docker0 → net.iface w' name ≡ net.iface w name)
        → Activates fd index index' w w'

  abbrev ActivatesBy : ℕ → ℕ → os.World → Active os → Type 0
  ActivatesBy fd index w a = Activates fd index a.index w a.world

  set-Activates :
      (fd index : ℕ) (w w1 : os.World) (req : Ifreq) (i : Iface)
      → net.IsOpen w1 fd
      → net.iface w docker0 ≡ some i
      → Kept w w1
      → req.ifr_name ≡ docker0
      → req.ifr_ifru % 65536 ≡ i.flags
      → ActivatesBy fd index w
          (after_set_flags os fd index (os.ioctl fd siocsifflags (raise_flags req) w1))
  unfolding after_set_flags get_index
  set-Activates fd index w w1 req i opened there kept name flags =
      let named : (raise_flags req).ifr_name ≡ docker0 = raise_flags-name req ∙ name in
      let there1 : net.iface w1 (raise_flags req).ifr_name ≡ some i =
        rw named (kept docker0 ∙ there) in
      elim (net.set_flags w1 fd (raise_flags req) i opened there1) [
        | inl (req2, w2, e, kept2) ↦ rw e (
            refused i there
              (not_set w1 (raise_flags req) req2 kept named
                (subst (λ k. Raised k ((raise_flags req).ifr_ifru % 65536)) flags
                  (raise_flags-Raised req))
                e)
              refl (λ n. kept2 n ∙ kept n))
        | inr (req2, w2, e, name2, opened2, there2, kept2) ↦
            let i2 : Iface = record {
              flags = (raise_flags req).ifr_ifru % 65536;
              index = i.index;
            } in
            let here2 : net.iface w2 docker0 ≡ some i2 = rw (← named) there2 in
            let (req3, w3, f, at, kept3) =
              net.index_of w2 fd req2 i2 opened2 (rw (name2 ∙ named) here2) in
            rw (e, f)
              (capturing i ((raise_flags req).ifr_ifru % 65536) there at (kept3 docker0 ∙ here2)
                (subst (λ k. Raised k ((raise_flags req).ifr_ifru % 65536)) flags
                  (raise_flags-Raised req))
                (λ n other. kept3 n ∙ kept2 n (λ same. other (same ∙ named)) ∙ kept n))
      ]

  active_dev-Activates :
      (fd index : ℕ) (w w0 : os.World)
      → net.IsOpen w fd
      → Kept w0 w
      → ActivatesBy fd index w0 (active_dev os fd netif_name index w)
  unfolding active_dev after_get_flags strncpy
  active_dev-Activates fd index w w0 opened kept0 =
      let req : Ifreq = record { ifr_name = docker0; ifr_ifru = 0 } in
      elim (Option-cases (net.iface w docker0)) [
        | inl missing ↦
            let (req', w', e, kept) = net.get_missing w fd req opened missing in
            rw e (no_device (sym (kept0 docker0) ∙ missing) refl (λ n. kept n ∙ kept0 n))
        | inr (i, there) ↦
            let (req1, w1, e, name, flags, opened1, kept) = net.get_flags w fd req i opened there in
            rw e (
              set-Activates fd index w0 w1 req1 i opened1 (sym (kept0 docker0) ∙ there)
                (λ n. kept n ∙ kept0 n) name flags)
      ]

  -- How a call of creat_sock can end: the system call gives no socket, or it gives one.
  abbrev pub Creates : ℕ → os.World → Created os → Type 0
  Creates index w r =
      ((os.socket w ≡ (none, r.world)) × (r.fd ≡ none) × (r.g_netif_index ≡ index) × Kept w r.world)
      ⊎ ((fd : ℕ) × (w1 : os.World) × (os.socket w ≡ (some fd, w1))
          × Kept w w1
          × (r.fd ≡ some fd)
          × Activates fd index r.g_netif_index w1 r.world)

  -- If the system calls do what netdevice(7) and packet(7) document: creat_sock returns no socket
  -- exactly if the system call gives none, and then changes neither an interface nor g_netif_index;
  -- otherwise it returns the one that the system gives, and then docker0 is not there, or the
  -- system call that raises its flags on the socket fails, and nothing has changed, or docker0 is
  -- up and promiscuous, with its other flags and every other interface as before, and g_netif_index
  -- is its index.
  pub creat_sock-Activates : (index : ℕ) (w : os.World) → Creates index w (creat_sock os index w)
  unfolding creat_sock after_socket
  creat_sock-Activates index w = from_socket (os.socket w) refl
    where
      from_socket :
          (got : Option ℕ × os.World)
          → os.socket w ≡ got
          → Creates index w (after_socket os index got)
      from_socket (none, w1) e = inl (e, refl, refl, net.socket_fails w w1 e)
      from_socket (some fd, w1) e =
          let (opened, kept) = net.socket_opens w w1 fd e in
          inr (fd, w1, e, kept, refl, active_dev-Activates fd index w1 w1 opened (λ n. refl))
