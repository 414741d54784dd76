-- ===== src/Servers/Listen/Udp.antt =====
-- What the socket of the discovery server is bound to, and which multicast groups it joins.
use clip_share_server.Prelude.{
  ℕ, ◌≡◌, ◌⊎◌, inl, inr, refl, sym, ap, ◌∙◌, subst, Bool, true, false, not, ◌&&◌, Option, none,
  some, List, [], ◌∷◌, ◌==◌, if◌then◌else◌,
}
use clip_share_server.Exec.{Exec, ◌>>◌, require, fail}
use clip_share_server.Net.Socket.{is_ipv6}
use clip_share_server.Config.{Config, Address, addr4, addr6}
use clip_share_server.Servers.Listen.{
  Interface, System, NetOp, bound, is_v6, same_bool, bind_socket, broadcast_of, loop4,
  iterate_interfaces, bind_udp6, bind_udp4, bind_udp,
}
use clip_share_server.Servers.Listen.Starts.{bind_socket_outcome}

-- No interface has the IPv4 address.
abbrev pub is_v4 : Option Address → ℕ → Bool
is_v4 none addr = false
is_v4 (some (addr6 a)) addr = false
is_v4 (some (addr4 a)) addr = a == addr

abbrev pub absent : ℕ → List Interface → Bool
absent addr [] = true
absent addr (entry ∷ entries) = not (is_v4 entry.ifa_addr addr) && absent addr entries

module _ (sys : System) (cfg : Config) where
  -- A call fails and has done nothing, or binds an IPv4 address, or has done nothing because no
  -- interface has the address.
  abbrev pub Binds4 : Bool → List NetOp → Option (Unit {0}) × List NetOp → Type 0
  Binds4 gone log (none, log') = log' ≡ log
  Binds4 gone log (some u, log') =
      ((b : ℕ) × (log' ≡ bound (addr4 b) cfg.ports.udp ∷ log)) ⊎ ((gone ≡ true) × (log' ≡ log))

  bind_socket-Binds4 :
      (type b : ℕ) (gone : Bool) (log : List NetOp)
      → Binds4 gone log (bind_socket sys type (addr4 b) cfg.ports.udp log)
  bind_socket-Binds4 type b gone log =
      elim (bind_socket_outcome sys type (addr4 b) cfg.ports.udp log) [
        | inl e ↦ rw e refl
        | inr e ↦ rw e (inl (b, refl))
      ]

  loop4-Binds4 :
      (type addr : ℕ) (entries : List Interface) (log : List NetOp)
      → Binds4 (absent addr entries) log (loop4 sys cfg type addr entries log)
  unfolding loop4
  loop4-Binds4 type addr [] log = inr (refl, refl)
  loop4-Binds4 type addr (entry ∷ entries) log =
      go entry.ifa_addr (loop4-Binds4 type addr entries log)
    where
      bind_it : ℕ → Exec (List NetOp) (Unit {0})
      bind_it a = bind_socket sys type (addr4 (broadcast_of a entry.ifa_netmask)) cfg.ports.udp

      found :
          (b : Bool) (a : ℕ)
          → Binds4 (absent addr entries) log (loop4 sys cfg type addr entries log)
          → Binds4 (not b && absent addr entries) log (
              (elim b as (λ _. Exec (List NetOp) (Unit {0})) [
                | false ↦ loop4 sys cfg type addr entries
                | true ↦ bind_it a
              ])
                log)
      found false a next = next
      found true a next = bind_socket-Binds4 type (broadcast_of a entry.ifa_netmask) false log

      go :
          (o : Option Address)
          → Binds4 (absent addr entries) log (loop4 sys cfg type addr entries log)
          → Binds4 (not (is_v4 o addr) && absent addr entries) log (
              (elim o as (λ _. Exec (List NetOp) (Unit {0})) [
                | none ↦ loop4 sys cfg type addr entries
                | some (addr6 a) ↦ loop4 sys cfg type addr entries
                | some (addr4 a) ↦ elim (a == addr) [
                  | false ↦ loop4 sys cfg type addr entries
                  | true ↦ bind_it a
                ]
              ])
                log)
      go none next = next
      go (some (addr6 a)) next = next
      go (some (addr4 a)) next = found (a == addr) a next

abbrev pub interfaces_of : Option (List Interface) → List Interface
interfaces_of none = []
interfaces_of (some entries) = entries

-- The discovery server with an IPv4 address configured: binding its socket fails without an
-- effect, or binds it to some IPv4 address at the UDP port, or succeeds without binding it at all,
-- which happens only where no interface has the configured address.
pub bind_udp-Binds4 :
    (sys : System) (cfg : Config) (type a : ℕ) (log : List NetOp)
    → cfg.bind_addr_udp ≡ addr4 a
    → is_ipv6 type ≡ false
    → Binds4 sys cfg (absent a (interfaces_of sys.interfaces)) log (bind_udp sys cfg type log)
unfolding bind_udp bind_udp4
bind_udp-Binds4 sys cfg type a log e v4 =
    subst (Binds4 sys cfg (absent a (interfaces_of sys.interfaces)) log)
      (sym (ap (λ x. whole x (is_ipv6 type)) e ∙ ap (whole (addr4 a)) v4)) (zero_or (a == 0))
  where
    whole : Address → Bool → Option (Unit {0}) × List NetOp
    whole addr v6 =
        (require (same_bool (is_v6 addr) v6)
            >> (if v6
                then iterate_interfaces sys cfg addr type >> bind_udp6 sys cfg type
                else bind_udp4 sys cfg type addr))
          log

    through :
        (o : Option (List Interface))
        → Binds4 sys cfg (absent a (interfaces_of o)) log (
            (elim o as (λ _. Exec (List NetOp) (Unit {0})) [
              | none ↦ fail
              | some entries ↦ loop4 sys cfg type a entries
            ])
              log)
    through none = refl
    through (some entries) = loop4-Binds4 sys cfg type a entries log

    zero_or :
        (b : Bool)
        → Binds4 sys cfg (absent a (interfaces_of sys.interfaces)) log (
            (if b
                then bind_socket sys type (addr4 0) cfg.ports.udp
                else iterate_interfaces sys cfg (addr4 a) type)
              log)
    zero_or true = bind_socket-Binds4 sys cfg type 0 (absent a (interfaces_of sys.interfaces)) log
    zero_or false = unfold iterate_interfaces in (through sys.interfaces)
