-- ===== src/Tests/Settings.antt =====
-- The configuration at concrete inputs.
use clip_share_server.Prelude.{ℕ, ◌*◌, ◌^◌, ◌<◌, ◌≡◌, refl, List, [], ◌∷◌, ◌++◌, codes, arith}
use clip_share_server.Config.Values.{set_int64, is_digit}
use clip_share_server.Config.Values.Exact.{
  set_int64_exact, number, AreDigits, StartsOther, thousands, in_thousands,
}
use clip_share_server.Config.Files.{client_loop, clients}
use clip_share_server.Config.Files.Clients.{client_loop-names, unlines, names, IsLine}
use clip_share_server.Config.Line.Keeps.{InRange}
use clip_share_server.Config.Conf.{initial}
use clip_share_server.Tests.Data.{an_outside}

initial-InRange : InRange initial
initial-InRange = record {
  plaintext = omega arith;
  tls = omega arith;
  udp = omega arith;
  web = omega arith;
  max_text_length = omega arith;
  max_file_size = omega arith;
  max_file_count = omega arith;
  display = omega arith;
  min_proto_version = omega arith;
  max_proto_version = omega arith;
  server_cert = tt;
  ca_cert = tt;
  info_name = tt;
}

two_digits : AreDigits (codes "42")
unfolding is_digit
two_digits = (refl, (refl, tt))

k_follows : StartsOther (codes "k")
unfolding is_digit
k_follows = refl

forty_two : number 0 (codes "42") < 2 ^ 63
unfolding number
forty_two = omega arith

set_int64_exact_example :
    set_int64 (codes "42" ++ codes "k")
    ≡ in_thousands (number 0 (codes "42")) (thousands (codes "k"))
set_int64_exact_example = set_int64_exact 52 (codes "2") (codes "k") two_digits k_follows forty_two

abbrev zeros : List ℕ
zeros = codes "0000000000000000"

low_digits : AreDigits (49 ∷ zeros)
unfolding is_digit
low_digits = (
  refl,
  (
    refl,
    (
      refl,
      (
        refl,
        (
          refl,
          (
            refl,
            (
              refl,
              (refl, (refl, (refl, (refl, (refl, (refl, (refl, (refl, (refl, (refl, tt)))))))))),
            ),
          ),
        ),
      ),
    ),
  ),
)

past_range : 2 ^ 63 < number 0 (49 ∷ zeros) * 1000
unfolding number
past_range = omega arith

in_word : number 0 (49 ∷ zeros) * 1000 < 2 ^ 64
unfolding number
in_word = omega arith

two_letters : (a b : ℕ) → 10 < a → 10 < b → IsLine (a ∷ b ∷ [])
two_letters a b h k =
    (omega arith, omega arith, ((omega arith, omega arith), ((omega arith, omega arith), tt)))

client_loop-names_example :
    client_loop an_outside 3 [] (unlines (codes "me" ∷ codes "#x" ∷ [])) []
    ≡ clients (names (codes "me" ∷ codes "#x" ∷ []))
client_loop-names_example =
    client_loop-names an_outside (codes "me" ∷ codes "#x" ∷ []) 3 [] []
      (
        (two_letters 109 101 (omega arith) (omega arith), refl),
        ((two_letters 35 120 (omega arith) (omega arith), refl), tt),
      )
      (omega arith)
