-- ===== src/Start/Launch/Options.antt =====
-- What the options of the command line come to.
use clip_share_server.Prelude.{
  ℕ, ◌≡◌, ◌≢◌, refl, sym, ap, ◌∙◌, arith, ◌||◌, Bool, true, false, List, [], ◌∷◌, ◌==◌,
  if◌then◌else◌,
}
use clip_share_server.Config.{Flag, unset, off, on}
use clip_share_server.World.{is_set}
use clip_share_server.Start.Launch.{Args, args, quits, parse_args, exit_success, exit_failure}

abbrev pub RestartSet : Args → Type 0
RestartSet (args stop daemonize restart) = restart ≢ unset
RestartSet (quits status) = Unit {0}

if-RestartSet :
    (b : Bool) (x y : Args) → RestartSet x → RestartSet y → RestartSet (if b then x else y)
if-RestartSet true x y h k = h
if-RestartSet false x y h k = k

pub parse_args-RestartSet :
    (stop daemonize : Bool) (restart : Flag) (opts : List ℕ)
    → restart ≢ unset
    → RestartSet (parse_args stop daemonize restart opts)
unfolding parse_args
parse_args-RestartSet stop daemonize restart [] h = h
parse_args-RestartSet stop daemonize restart (opt ∷ opts) h =
    let on_set : on ≢ unset = λ e. cc in
    let off_set : off ≢ unset = λ e. cc in
    if-RestartSet (opt == b'h' || opt == b'v') (quits exit_success) _ tt (
      if-RestartSet (opt == b's') (parse_args true daemonize restart opts) _
        (parse_args-RestartSet true daemonize restart opts h)
        (if-RestartSet (opt == b'r') (parse_args stop daemonize on opts) _
          (parse_args-RestartSet stop daemonize on opts on_set)
          (if-RestartSet (opt == b'R') (parse_args stop daemonize off opts) _
            (parse_args-RestartSet stop daemonize off opts off_set)
            (if-RestartSet (opt == b'd') (parse_args stop true restart opts) _
              (parse_args-RestartSet stop true restart opts h)
              (if-RestartSet (opt == b'D') (parse_args stop false restart opts) (quits exit_failure)
                (parse_args-RestartSet stop false restart opts h) tt)))))

-- Which of two options comes last among those of the command line, or what is so without them.
abbrev pub said : ℕ → ℕ → ℕ → Bool → Bool
said up down opt otherwise = if opt == up then true else if opt == down then false else otherwise

abbrev pub last_said : ℕ → ℕ → Bool → List ℕ → Bool
last_said up down otherwise [] = otherwise
last_said up down otherwise (opt ∷ opts) = last_said up down (said up down opt otherwise) opts

abbrev pub Said : Bool → Flag → List ℕ → Args → Type 0
Said daemonize restart opts (quits status) = Unit {0}
Said daemonize restart opts (args stop d r) =
    (d ≡ last_said b'd' b'D' daemonize opts)
    × (is_set r ≡ last_said b'r' b'R' (is_set restart) opts)

Said-step :
    (daemonize daemonize' : Bool) (restart restart' : Flag) (opt : ℕ) (opts : List ℕ) (a : Args)
    → said b'd' b'D' opt daemonize ≡ daemonize'
    → said b'r' b'R' opt (is_set restart) ≡ is_set restart'
    → Said daemonize' restart' opts a
    → Said daemonize restart (opt ∷ opts) a
Said-step daemonize daemonize' restart restart' opt opts (quits status) d r h = tt
Said-step daemonize daemonize' restart restart' opt opts (args stop d' r') d r (h, k) = (
  h ∙ ap (λ b. last_said b'd' b'D' b opts) (sym d),
  k ∙ ap (λ b. last_said b'r' b'R' b opts) (sym r),
)

if-Said :
    (daemonize : Bool) (restart : Flag) (opts : List ℕ) (b : Bool) (x y : Args)
    → (b ≡ true → Said daemonize restart opts x)
    → (b ≡ false → Said daemonize restart opts y)
    → Said daemonize restart opts (if b then x else y)
if-Said daemonize restart opts true x y h k = h refl
if-Said daemonize restart opts false x y h k = k refl

others : (opt up down : ℕ) (b : Bool) → opt ≢ up → opt ≢ down → said up down opt b ≡ b
others opt up down b h k =
    let not_up : (opt == up) ≡ false = ground arith in
    let not_down : (opt == down) ≡ false = ground arith in rw (not_up, not_down) refl

said_up : (opt up down : ℕ) (b : Bool) → (opt == up) ≡ true → said up down opt b ≡ true
said_up opt up down b h = rw h refl

said_down :
    (opt up down : ℕ) (b : Bool)
    → (opt == up) ≡ false
    → (opt == down) ≡ true
    → said up down opt b ≡ false
said_down opt up down b h k = rw (h, k) refl

differs : (opt this other : ℕ) → (opt == this) ≡ true → (this == other) ≡ false → opt ≢ other
differs opt this other h k e = ground arith

pub parse_args-Said :
    (stop daemonize : Bool) (restart : Flag) (opts : List ℕ)
    → Said daemonize restart opts (parse_args stop daemonize restart opts)
unfolding parse_args
parse_args-Said stop daemonize restart [] = (refl, refl)
parse_args-Said stop daemonize restart (opt ∷ opts) =
    let all = opt ∷ opts in
    if-Said daemonize restart all (opt == b'h' || opt == b'v') (quits exit_success) _ (λ e. tt)
      (λ e.
        if-Said daemonize restart all (opt == b's') (parse_args true daemonize restart opts) _
          (λ e.
            Said-step daemonize daemonize restart restart opt opts _
              (others opt b'd' b'D' daemonize (differs opt b's' b'd' e refl)
                (differs opt b's' b'D' e refl))
              (others opt b'r' b'R' (is_set restart) (differs opt b's' b'r' e refl)
                (differs opt b's' b'R' e refl))
              (parse_args-Said true daemonize restart opts))
          (λ e.
            if-Said daemonize restart all (opt == b'r') (parse_args stop daemonize on opts) _
              (λ e.
                Said-step daemonize daemonize restart on opt opts _
                  (others opt b'd' b'D' daemonize (differs opt b'r' b'd' e refl)
                    (differs opt b'r' b'D' e refl))
                  (said_up opt b'r' b'R' (is_set restart) e)
                  (parse_args-Said stop daemonize on opts))
              (λ no_r.
                if-Said daemonize restart all (opt == b'R') (parse_args stop daemonize off opts) _
                  (λ e.
                    Said-step daemonize daemonize restart off opt opts _
                      (others opt b'd' b'D' daemonize (differs opt b'R' b'd' e refl)
                        (differs opt b'R' b'D' e refl))
                      (said_down opt b'r' b'R' (is_set restart) no_r e)
                      (parse_args-Said stop daemonize off opts))
                  (λ e.
                    if-Said daemonize restart all (opt == b'd') (parse_args stop true restart opts)
                      _
                      (λ e.
                        Said-step daemonize true restart restart opt opts _
                          (said_up opt b'd' b'D' daemonize e)
                          (others opt b'r' b'R' (is_set restart) (differs opt b'd' b'r' e refl)
                            (differs opt b'd' b'R' e refl))
                          (parse_args-Said stop true restart opts))
                      (λ no_d.
                        if-Said daemonize restart all (opt == b'D')
                          (parse_args stop false restart opts) (quits exit_failure)
                          (λ e.
                            Said-step daemonize false restart restart opt opts _
                              (said_down opt b'd' b'D' daemonize no_d e)
                              (others opt b'r' b'R' (is_set restart) (differs opt b'D' b'r' e refl)
                                (differs opt b'D' b'R' e refl))
                              (parse_args-Said stop false restart opts))
                          (λ e. tt))))))
