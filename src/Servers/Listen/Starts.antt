-- ===== src/Servers/Listen/Starts.antt =====
-- How the TCP servers get to their loops.
use clip_share_server.Prelude.{
  ℕ, ◌+◌, ◌≡◌, ◌⊎◌, inl, inr, refl, sym, ap, subst, ◌∙◌, Bool, true, false, not, ◌&&◌, ◌||◌, none,
  some, List, [], ◌∷◌, leb, if◌then◌else◌, Bool-cases,
}
use clip_share_server.Exec.{Exec, ◌>>◌, require}
use clip_share_server.Net.Socket.{
  valid_sock, plain_sock, ssl_sock, is_null_sock, is_ssl, is_udp, is_ipv6,
}
use clip_share_server.Config.{Config, Address, addr4, addr6}
use clip_share_server.Config.Conf.{clear_config_key_cert}
use clip_share_server.Servers.Listen.{
  System, NetOp, opened, bound, listening, closed, did_net, is_v6, same_bool, open_listener_socket,
  bind_socket, close_listener_socket, family_of, Start, gave_up, listens, can_be_secure, listened,
  after_bind, start_listener, clip_share,
}

module _ (sys : System) where
  -- A bind succeeds as a whole, or does nothing.
  pub bind_socket_outcome :
      (type : ℕ) (addr : Address) (port : ℕ) (log : List NetOp)
      → (bind_socket sys type addr port log ≡ (none, log))
        ⊎ (bind_socket sys type addr port log ≡ (some tt, bound addr port ∷ log))
  unfolding bind_socket
  bind_socket_outcome type addr port log =
      go (not (is_null_sock type)) (same_bool (is_v6 addr) (is_ipv6 type))
        (is_udp type || sys.reuse) (sys.bind addr port)
    where
      whole : Bool → Bool → Bool → Bool → Exec (List NetOp) (Unit {0})
      whole a b c d = require a >> require b >> require c >> require d >> did_net (bound addr port)

      go :
          (a b c d : Bool)
          → (whole a b c d log ≡ (none, log))
            ⊎ (whole a b c d log ≡ (some tt, bound addr port ∷ log))
      go false b c d = inl refl
      go true false c d = inl refl
      go true true false d = inl refl
      go true true true false = inl refl
      go true true true true = inr refl

  -- What is left of a listener: nothing, one that was closed again, or, if TLS could not be set up,
  -- a socket that stays open.
  abbrev pub Ends : ℕ → ℕ → Config → Start → Type 0
  Ends sock_type port cfg (gave_up log) =
      (log ≡ [])
      ⊎ ((rest : List NetOp) × (log ≡ closed ∷ rest))
      ⊎ ((log ≡ opened sock_type ∷ [])
          × (is_ssl sock_type ≡ true)
          × ((sys.ssl_ctx && sys.certificates) ≡ false))
  Ends sock_type port cfg (listens type cfg' log) =
      (type ≡ sock_type)
      × (cfg' ≡ cfg)
      × (log ≡ listening ∷ bound cfg.bind_addr port ∷ opened sock_type ∷ [])

  bound_or_closed :
      (sock_type port : ℕ) (cfg : Config)
      → is_null_sock sock_type ≡ false
      → Ends sock_type port cfg (
          after_bind sys sock_type cfg
            (bind_socket sys sock_type cfg.bind_addr port (opened sock_type ∷ [])))
  unfolding close_listener_socket
  bound_or_closed sock_type port cfg valid =
      elim (bind_socket_outcome sock_type cfg.bind_addr port (opened sock_type ∷ [])) [
        | inl e ↦ rw (e, valid) (inr (inl (opened sock_type ∷ [], refl)))
        | inr e ↦ rw e (heard sys.listen)
      ]
    where
      heard :
          (b : Bool)
          → Ends sock_type port cfg
              (listened b sock_type cfg (bound cfg.bind_addr port ∷ opened sock_type ∷ []))
      heard true = (refl, refl, refl)
      heard false = rw valid (inr (inl (bound cfg.bind_addr port ∷ opened sock_type ∷ [], refl)))

  open_outcome :
      (sock_type : ℕ)
      → is_null_sock sock_type ≡ false
      → is_udp sock_type ≡ false
      → (open_listener_socket sys sock_type [] ≡ (0, []))
        ⊎ ((open_listener_socket sys sock_type [] ≡ (0, opened sock_type ∷ []))
            × (is_ssl sock_type ≡ true)
            × ((sys.ssl_ctx && sys.certificates) ≡ false))
        ⊎ (open_listener_socket sys sock_type [] ≡ (sock_type, opened sock_type ∷ []))
  unfolding open_listener_socket
  open_outcome sock_type valid tcp =
      rw (open_listener_socket, valid, tcp)
        (go sys.socket (is_ssl sock_type) (sys.ssl_ctx && sys.certificates))
    where
      result : Bool → Bool → Bool → ℕ × List NetOp
      result a b c =
          if not a
          then (0, [])
          else if not b
          then (sock_type, opened sock_type ∷ [])
          else if c
          then (sock_type, opened sock_type ∷ [])
          else (0, opened sock_type ∷ [])

      go :
          (a b c : Bool)
          → (result a b c ≡ (0, []))
            ⊎ ((result a b c ≡ (0, opened sock_type ∷ [])) × (b ≡ true) × (c ≡ false))
            ⊎ (result a b c ≡ (sock_type, opened sock_type ∷ []))
      go false b c = inl refl
      go true false c = inr (inr refl)
      go true true true = inr (inr refl)
      go true true false = inr (inl (refl, refl, refl))

  no_listener :
      (port : ℕ) (cfg : Config) (log : List NetOp)
      → after_bind sys 0 cfg (bind_socket sys 0 cfg.bind_addr port log) ≡ gave_up log
  unfolding bind_socket close_listener_socket is_null_sock
  no_listener port cfg log = refl

  start_listener-Ends :
      (sock_type port : ℕ) (cfg : Config)
      → is_null_sock sock_type ≡ false
      → is_udp sock_type ≡ false
      → Ends sock_type port cfg (start_listener sys sock_type port cfg)
  unfolding start_listener
  start_listener-Ends sock_type port cfg valid tcp = elim (open_outcome sock_type valid tcp) [
    | inl e ↦ subst (Ends sock_type port cfg) (sym (from e ∙ no_listener port cfg [])) (inl refl)
    | inr (inl (e, ssl, none_given)) ↦
        subst (Ends sock_type port cfg)
          (sym (from e ∙ no_listener port cfg (opened sock_type ∷ [])))
          (inr (inr (refl, ssl, none_given)))
    | inr (inr e) ↦
        subst (Ends sock_type port cfg) (sym (from e)) (bound_or_closed sock_type port cfg valid)
  ]
    where
      from :
          {o : ℕ × List NetOp}
          → open_listener_socket sys sock_type [] ≡ o
          → start_listener sys sock_type port cfg
            ≡ after_bind sys o.0 cfg (bind_socket sys o.0 cfg.bind_addr port o.1)
      from e = ap (λ o. after_bind sys o.0 cfg (bind_socket sys o.0 cfg.bind_addr port o.1)) e

ssl_type :
    (a : Address)
    → (is_null_sock (valid_sock + ssl_sock + family_of a) ≡ false)
      × (is_udp (valid_sock + ssl_sock + family_of a) ≡ false)
unfolding is_null_sock is_udp
ssl_type (addr4 a) = (refl, refl)
ssl_type (addr6 a) = (refl, refl)

plain_type :
    (a : Address)
    → (is_null_sock (valid_sock + plain_sock + family_of a) ≡ false)
      × (is_udp (valid_sock + plain_sock + family_of a) ≡ false)
unfolding is_null_sock is_udp
plain_type (addr4 a) = (refl, refl)
plain_type (addr6 a) = (refl, refl)

-- What is so of clip_share() in front of its loop.
abbrev pub StartsAs : System → Bool → Config → Start → Type 0
StartsAs sys true cfg r =
    Ends sys (valid_sock + ssl_sock + family_of cfg.bind_addr) cfg.ports.tls cfg r
StartsAs sys false cfg r =
    Ends sys (valid_sock + plain_sock + family_of cfg.bind_addr) cfg.ports.plaintext
      (record cfg { server_cert = none; ca_cert = none; allowed_clients = none }) r

-- A server that comes to its loop listens on a socket of the right kind, bound to the address and
-- the port that the configuration has for it: the secure one with TLS, and only if there are
-- allowed clients and both certificates; the other one has no key, no certificate and no list of
-- clients in memory any more. One that gives up leaves no open socket, unless TLS could not be set up.
pub clip_share-StartsAs :
    (sys : System) (is_secure : Bool) (cfg : Config)
    → StartsAs sys is_secure cfg (clip_share sys is_secure cfg)
      × ((is_secure ≡ false)
          ⊎ (can_be_secure cfg ≡ true)
          ⊎ (clip_share sys is_secure cfg ≡ gave_up []))
unfolding clip_share clear_config_key_cert
clip_share-StartsAs sys true cfg = elim (Bool-cases (can_be_secure cfg)) [
  | inl e ↦
      rw (clip_share, e)
        (
          start_listener-Ends sys (valid_sock + ssl_sock + family_of cfg.bind_addr) cfg.ports.tls
              cfg (ssl_type cfg.bind_addr).0 (ssl_type cfg.bind_addr).1,
          inr (inl refl),
        )
  | inr e ↦ rw (clip_share, e) (inl refl, inr (inr refl))
]
clip_share-StartsAs sys false cfg = elim (Bool-cases (leb cfg.ports.plaintext 0)) [
  | inl e ↦ rw (clip_share, e) (inl refl, inl refl)
  | inr e ↦
      rw (clip_share, e)
        (
          start_listener-Ends sys (valid_sock + plain_sock + family_of cfg.bind_addr)
              cfg.ports.plaintext (clear_config_key_cert cfg) (plain_type cfg.bind_addr).0
              (plain_type cfg.bind_addr).1,
          inl refl,
        )
]
