-- ===== src/Servers/Listen.antt =====
-- Listeners: `open_listener_socket`, `bind_socket`, `iterate_interfaces`, `join_multicast_group`,
-- `bind_udp` and `close_listener_socket` of src/utils/net_utils.c for Linux, and the parts of
-- `clip_share`, `web_server` and `udp_server` of src/servers in front of their loops. What the
-- system and OpenSSL answer is in `System`.
pub mod Starts
pub mod Udp
pub mod Groups
use Prim.Native.Nat.{bit_or}
use clip_share_server.Prelude.{
  ℕ, zero, suc, ◌+◌, ◌-◌, ◌^◌, Bool, true, false, not, ◌&&◌, ◌||◌, Option, none, some, List, [],
  ◌∷◌, ◌++◌, codes, is_empty, mem, same, take, leb, ◌==◌, if◌then◌else◌,
}
use clip_share_server.Exec.{Exec, ◌>>=◌, ◌>>◌, pure, fail, require}
use clip_share_server.Net.Socket.{
  valid_sock, plain_sock, ssl_sock, trnsprt_udp, ipv4, ipv6, is_null_sock, is_ssl, is_udp, is_ipv6,
}
use clip_share_server.Config.{Config, Address, addr4, addr6}
use clip_share_server.Config.Conf.{clear_config_key_cert}
use clip_share_server.Config.Files.{c_string}
use clip_share_server.Proto.Text.{info_name_const}

-- An entry of getifaddrs(); no address is none, as is one of another family than IPv4 and IPv6.
pub record Interface : Type 0 where
  pub ifa_addr : Option Address
  pub ifa_netmask : ℕ
  pub index : ℕ

pub record System : Type 0 where
  -- socket(), init_ssl_ctx() and load_certificates(), setsockopt(SO_REUSEADDR), listen()
  pub socket : Bool
  pub ssl_ctx : Bool
  pub certificates : Bool
  pub reuse : Bool
  pub listen : Bool
  pub bind : Address → ℕ → Bool
  pub interfaces : Option (List Interface)
  -- inet_pton() of MULTICAST_ADDR, and setsockopt(IPV6_ADD_MEMBERSHIP)
  pub multicast : Option ℕ
  pub join : ℕ → Bool

-- What succeeded, the last first.
pub data NetOp : Type 0 where
  opened : ℕ → NetOp
  bound : Address → ℕ → NetOp
  joined : ℕ → NetOp
  listening : NetOp
  closed : NetOp

abbrev pub did_net : NetOp → Exec (List NetOp) (Unit {0})
did_net op log = (some tt, op ∷ log)

abbrev pub is_v6 : Address → Bool
is_v6 (addr4 a) = false
is_v6 (addr6 a) = true

abbrev pub same_bool : Bool → Bool → Bool
same_bool true b = b
same_bool false b = not b

module _ (sys : System) where
  -- The listener's type, 0 where it cannot be used.
  unfoldable pub open_listener_socket : ℕ → List NetOp → ℕ × List NetOp
  unfolding is_null_sock is_udp is_ssl
  open_listener_socket sock_type log =
      if is_null_sock sock_type || not sys.socket
      then (0, log)
      else if is_udp sock_type || not (is_ssl sock_type)
      then (sock_type, opened sock_type ∷ log)
      else if sys.ssl_ctx && sys.certificates
      then (sock_type, opened sock_type ∷ log)
      else (0, opened sock_type ∷ log)

  unfoldable pub bind_socket : ℕ → Address → ℕ → Exec (List NetOp) (Unit {0})
  unfolding is_null_sock is_ipv6 is_udp
  bind_socket type bind_addr port =
      require (not (is_null_sock type))
      >> require (same_bool (is_v6 bind_addr) (is_ipv6 type))
      >> require (is_udp type || sys.reuse)
      >> require (sys.bind bind_addr port)
      >> did_net (bound bind_addr port)

  unfoldable pub join_multicast_group : ℕ → Exec (List NetOp) (Unit {0})
  join_multicast_group index = require (sys.join index) >> did_net (joined index)

-- addr | ~mask
unfoldable pub broadcast_of : ℕ → ℕ → ℕ
broadcast_of addr mask = bit_or addr (2 ^ 32 - 1 - mask)

-- sizeof(if_joined)
abbrev pub max_interfaces : ℕ
max_interfaces = 32

module _ (sys : System) (cfg : Config) where
  -- The loop for an IPv4 address.
  unfoldable pub loop4 : ℕ → ℕ → List Interface → Exec (List NetOp) (Unit {0})
  unfolding broadcast_of bind_socket
  loop4 type addr [] = pure tt
  loop4 type addr (entry ∷ entries) = elim entry.ifa_addr [
    | none ↦ loop4 type addr entries
    | some (addr6 a) ↦ loop4 type addr entries
    | some (addr4 a) ↦ elim (a == addr) [
      | false ↦ loop4 type addr entries
      | true ↦ bind_socket sys type (addr4 (broadcast_of a entry.ifa_netmask)) cfg.ports.udp
    ]
  ]

  -- The loop for an IPv6 address; `if_joined` has the indices that were joined.
  unfoldable pub loop6 : ℕ → List ℕ → List Interface → Exec (List NetOp) (Unit {0})
  unfolding join_multicast_group
  loop6 addr if_joined [] = pure tt
  loop6 addr if_joined (entry ∷ entries) = elim entry.ifa_addr [
    | none ↦ loop6 addr if_joined entries
    | some (addr4 a) ↦ loop6 addr if_joined entries
    | some (addr6 a) ↦ elim (addr == 0 || a == addr) [
      | false ↦ loop6 addr if_joined entries
      | true ↦ elim sys.multicast [
        | none ↦ fail
        | some group ↦ elim (leb max_interfaces entry.index || mem entry.index if_joined) [
          | true ↦ loop6 addr if_joined entries
          | false ↦
              join_multicast_group sys entry.index >> loop6 addr (entry.index ∷ if_joined) entries
        ]
      ]
    ]
  ]

  unfoldable pub iterate_interfaces : Address → ℕ → Exec (List NetOp) (Unit {0})
  unfolding loop4 loop6
  iterate_interfaces addr type = elim sys.interfaces [
    | none ↦ fail
    | some entries ↦ elim addr [ addr4 a ↦ loop4 type a entries | addr6 a ↦ loop6 a [] entries ]
  ]

  unfoldable pub bind_udp6 : ℕ → Exec (List NetOp) (Unit {0})
  bind_udp6 type = elim sys.multicast [
    | none ↦ fail
    | some group ↦ bind_socket sys type (addr6 group) cfg.ports.udp
  ]

  unfoldable pub bind_udp4 : ℕ → Address → Exec (List NetOp) (Unit {0})
  unfolding bind_socket iterate_interfaces
  bind_udp4 type (addr6 a) = iterate_interfaces (addr6 a) type
  bind_udp4 type (addr4 a) =
      if a == 0
      then bind_socket sys type (addr4 0) cfg.ports.udp
      else iterate_interfaces (addr4 a) type

  unfoldable pub bind_udp : ℕ → Exec (List NetOp) (Unit {0})
  unfolding is_ipv6 iterate_interfaces bind_udp6 bind_udp4
  bind_udp type =
      require (same_bool (is_v6 cfg.bind_addr_udp) (is_ipv6 type))
      >> (if is_ipv6 type
          then iterate_interfaces cfg.bind_addr_udp type >> bind_udp6 type
          else bind_udp4 type cfg.bind_addr_udp)

unfoldable pub close_listener_socket : ℕ → List NetOp → List NetOp
unfolding is_null_sock
close_listener_socket type log = if is_null_sock type then log else closed ∷ log

abbrev pub family_of : Address → ℕ
family_of (addr4 a) = ipv4
family_of (addr6 a) = ipv6

-- A server in front of its loop: it gives up, or it listens with the configuration as it is then.
pub data Start : Type 0 where
  gave_up : List NetOp → Start
  listens : ℕ → Config → List NetOp → Start

abbrev pub has_clients : Option (List (List ℕ)) → Bool
has_clients none = false
has_clients (some clients) = not (is_empty clients)

abbrev pub is_some : Option (List ℕ) → Bool
is_some none = false
is_some (some x) = true

-- What the secure servers ask of the configuration.
unfoldable pub can_be_secure : Config → Bool
can_be_secure cfg =
    has_clients cfg.allowed_clients
    && not (leb cfg.ports.tls 0)
    && is_some cfg.server_cert
    && is_some cfg.ca_cert

abbrev pub listened : Bool → ℕ → Config → List NetOp → Start
listened true type cfg log = listens type cfg (listening ∷ log)
listened false type cfg log = gave_up (close_listener_socket type log)

module _ (sys : System) where
  abbrev pub after_bind : ℕ → Config → Option (Unit {0}) × List NetOp → Start
  after_bind type cfg (none, log) = gave_up (close_listener_socket type log)
  after_bind type cfg (some u, log) = listened sys.listen type cfg log

  -- From open_listener_socket() to listen().
  unfoldable pub start_listener : ℕ → ℕ → Config → Start
  unfolding open_listener_socket bind_socket close_listener_socket
  start_listener sock_type port cfg =
      let (type, log) = open_listener_socket sys sock_type [] in
      after_bind type cfg (bind_socket sys type cfg.bind_addr port log)

  unfoldable pub clip_share : Bool → Config → Start
  unfolding start_listener clear_config_key_cert can_be_secure
  clip_share is_secure cfg =
      if is_secure
      then (if can_be_secure cfg
          then start_listener (valid_sock + ssl_sock + family_of cfg.bind_addr) cfg.ports.tls cfg
          else gave_up [])
      else if leb cfg.ports.plaintext 0
      then gave_up []
      else start_listener (valid_sock + plain_sock + family_of cfg.bind_addr) cfg.ports.plaintext
          (clear_config_key_cert cfg)

  unfoldable pub web_server : Config → Start
  unfolding start_listener can_be_secure
  web_server cfg =
      if can_be_secure cfg
      then start_listener (family_of cfg.bind_addr + ssl_sock + valid_sock) cfg.ports.web cfg
      else gave_up []

  abbrev pub after_udp : ℕ → Config → Option (Unit {0}) × List NetOp → Start
  after_udp type cfg (none, log) = gave_up (close_listener_socket type log)
  after_udp type cfg (some u, log) = listens type cfg log

  unfoldable pub udp_server : Config → Start
  unfolding open_listener_socket bind_udp close_listener_socket clear_config_key_cert is_null_sock
  udp_server cfg =
      if leb cfg.ports.udp 0
      then gave_up []
      else (let cleared = clear_config_key_cert cfg in
          let (type, log) =
            open_listener_socket sys (family_of cfg.bind_addr_udp + trnsprt_udp + valid_sock) [] in
          if is_null_sock type
          then gave_up log
          else after_udp type cleared (bind_udp sys cleared type log))

-- One round of the loop of udp_server: recvfrom() keeps two bytes of a datagram; an empty one, like
-- an error, is passed over. What sendto() sends back, if anything.
unfoldable pub udp_answer : List ℕ → Option (List ℕ)
unfolding same c_string
udp_answer [] = none
udp_answer (c ∷ datagram) =
    if same (c_string (take 2 (c ∷ datagram))) (codes "in") then some info_name_const else none
