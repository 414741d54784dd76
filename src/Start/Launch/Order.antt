-- ===== src/Start/Launch/Order.antt =====
-- What has happened when the servers run, and which ones do.
use clip_share_server.Prelude.{
  ◌≡◌, refl, sym, ap, ◌∙◌, Bool, true, false, not, ◌&&◌, ◌||◌, List, [], ◌∷◌, ◌++◌, if◌then◌else◌,
  append-nil, append_assoc, arith,
}
use clip_share_server.Config.{Config}
use clip_share_server.World.{is_set}
use clip_share_server.Start.Launch.{
  Server, insecure, secure, web, udp, tray, only_if, start_servers,
}

abbrev pub same_server : Server → Server → Bool
same_server insecure insecure = true
same_server insecure secure = false
same_server insecure web = false
same_server insecure udp = false
same_server insecure tray = false
same_server secure insecure = false
same_server secure secure = true
same_server secure web = false
same_server secure udp = false
same_server secure tray = false
same_server web insecure = false
same_server web secure = false
same_server web web = true
same_server web udp = false
same_server web tray = false
same_server udp insecure = false
same_server udp secure = false
same_server udp web = false
same_server udp udp = true
same_server udp tray = false
same_server tray insecure = false
same_server tray secure = false
same_server tray web = false
same_server tray udp = false
same_server tray tray = true

abbrev pub has : Server → List Server → Bool
has s [] = false
has s (t ∷ servers) = same_server s t || has s servers

-- The option that turns a server on.
abbrev pub enabled : Config → Server → Bool
enabled cfg insecure = is_set cfg.insecure_mode_enabled
enabled cfg secure = is_set cfg.secure_mode_enabled
enabled cfg web = is_set cfg.web_mode_enabled
enabled cfg udp = is_set cfg.udp_server_enabled
enabled cfg tray = is_set cfg.tray_icon

-- Whether a list with some servers in front has one more.
has-only_if :
    (s t : Server) (b : Bool) (rest : List Server)
    → has s (only_if b t ++ rest) ≡ ((same_server s t && b) || has s rest)
has-only_if s t true rest = ap (λ x. x || has s rest) (sym (and_true (same_server s t)))
  where
    and_true : (x : Bool) → (x && true) ≡ x
    and_true true = refl
    and_true false = refl
has-only_if s t false rest = ap (λ x. x || has s rest) (sym (and_false (same_server s t)))
  where
    and_false : (x : Bool) → (x && false) ≡ false
    and_false true = refl
    and_false false = refl

abbrev pick : Server → Bool → Bool → Bool → Bool → Bool → Bool
pick insecure a b c d e = a
pick secure a b c d e = b
pick web a b c d e = c
pick udp a b c d e = d
pick tray a b c d e = e

picked :
    (s : Server) (a b c d e : Bool)
    → ((same_server s insecure && a)
        || ((same_server s secure && b)
            || ((same_server s web && c)
                || ((same_server s udp && d) || ((same_server s tray && e) || false)))))
      ≡ pick s a b c d e
picked insecure a b c d e = ground arith
picked secure a b c d e = ground arith
picked web a b c d e = ground arith
picked udp a b c d e = ground arith
picked tray a b c d e = ground arith

-- The five children, as far as one of them is concerned.
has_five :
    (s : Server) (a b c d e : Bool)
    → has s (
        only_if a insecure
        ++ (only_if b secure ++ (only_if c web ++ (only_if d udp ++ (only_if e tray ++ [])))))
      ≡ pick s a b c d e
has_five s a b c d e =
    has-only_if s insecure a
      (only_if b secure ++ (only_if c web ++ (only_if d udp ++ (only_if e tray ++ []))))
    ∙ ap (λ t. (same_server s insecure && a) || t)
        (has-only_if s secure b (only_if c web ++ (only_if d udp ++ (only_if e tray ++ []))))
    ∙ ap (λ t. (same_server s insecure && a) || ((same_server s secure && b) || t))
        (has-only_if s web c (only_if d udp ++ (only_if e tray ++ [])))
    ∙ ap
        (λ t.
          (same_server s insecure && a)
          || ((same_server s secure && b) || ((same_server s web && c) || t)))
        (has-only_if s udp d (only_if e tray ++ []))
    ∙ ap
        (λ t.
          (same_server s insecure && a)
          || ((same_server s secure && b)
              || ((same_server s web && c) || ((same_server s udp && d) || t))))
        (has-only_if s tray e [])
    ∙ picked s a b c d e

nested :
    {A : Type 0} (a b c d e : List A) → a ++ b ++ c ++ d ++ e ≡ a ++ (b ++ (c ++ (d ++ (e ++ []))))
nested a b c d e = simp (append_assoc, append-nil)

four : {A : Type 0} (a b c d : List A) → a ++ b ++ c ++ d ≡ a ++ (b ++ (c ++ (d ++ [])))
four a b c d = simp (append_assoc, append-nil)

picked_four :
    (s : Server) (a b c d : Bool)
    → ((same_server s insecure && a)
        || ((same_server s secure && b)
            || ((same_server s udp && d) || ((same_server s web && c) || false))))
      ≡ pick s a b c d false
picked_four insecure a b c d = ground arith
picked_four secure a b c d = ground arith
picked_four web a b c d = ground arith
picked_four udp a b c d = ground arith
picked_four tray a b c d = refl

has_waited :
    (s : Server) (w a b c d : Bool)
    → has s
        (if w then only_if a insecure ++ only_if b secure ++ only_if d udp ++ only_if c web else [])
      ≡ (pick s a b c d false && w)
has_waited s false a b c d = sym (and_false (pick s a b c d false))
  where
    and_false : (x : Bool) → (x && false) ≡ false
    and_false true = refl
    and_false false = refl
has_waited s true a b c d =
    ap (has s) (four (only_if a insecure) (only_if b secure) (only_if d udp) (only_if c web))
    ∙ has-only_if s insecure a (only_if b secure ++ (only_if d udp ++ (only_if c web ++ [])))
    ∙ ap (λ t. (same_server s insecure && a) || t)
        (has-only_if s secure b (only_if d udp ++ (only_if c web ++ [])))
    ∙ ap (λ t. (same_server s insecure && a) || ((same_server s secure && b) || t))
        (has-only_if s udp d (only_if c web ++ []))
    ∙ ap
        (λ t.
          (same_server s insecure && a)
          || ((same_server s secure && b) || ((same_server s udp && d) || t)))
        (has-only_if s web c [])
    ∙ picked_four s a b c d
    ∙ sym (and_true (pick s a b c d false))
  where
    and_true : (x : Bool) → (x && true) ≡ x
    and_true true = refl
    and_true false = refl

-- The processes that are started are those of the servers that are turned on, as far as fork()
-- succeeds, and there is no other one; unless it goes to the background, the parent waits for all
-- of them but the tray icon's.
pub start_servers_exact :
    (forks : Server → Bool) (daemonize : Bool) (cfg : Config) (s : Server)
    → (has s (start_servers forks daemonize cfg).children ≡ (enabled cfg s && forks s))
      × (has s (start_servers forks daemonize cfg).waited
          ≡ (enabled cfg s && forks s && not daemonize && not (same_server s tray)))
unfolding start_servers
start_servers_exact forks daemonize cfg s =
    let p : Server → Bool = λ t. enabled cfg t && forks t in
    (
      ap (has s) (
            nested (only_if (p insecure) insecure) (only_if (p secure) secure) (only_if (p web) web)
              (only_if (p udp) udp) (only_if (p tray) tray))
          ∙ has_five s (p insecure) (p secure) (p web) (p udp) (p tray)
          ∙ picks s,
      has_waited s (not daemonize) (p insecure) (p secure) (p web) (p udp)
          ∙ waits s (not daemonize),
    )
  where
    picks :
        (t : Server)
        → pick t
            (enabled cfg insecure && forks insecure)
            (enabled cfg secure && forks secure)
            (enabled cfg web && forks web)
            (enabled cfg udp && forks udp)
            (enabled cfg tray && forks tray)
          ≡ (enabled cfg t && forks t)
    picks insecure = refl
    picks secure = refl
    picks web = refl
    picks udp = refl
    picks tray = refl

    waits :
        (t : Server) (w : Bool)
        → (pick t
              (enabled cfg insecure && forks insecure)
              (enabled cfg secure && forks secure)
              (enabled cfg web && forks web)
              (enabled cfg udp && forks udp)
              false
            && w)
          ≡ (enabled cfg t && forks t && w && not (same_server t tray))
    waits insecure w = ground arith
    waits secure w = ground arith
    waits web w = ground arith
    waits udp w = ground arith
    waits tray w = ground arith
