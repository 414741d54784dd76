-- ===== src/Tests/Web.antt =====
-- The web server and the listeners at concrete inputs.
use clip_share_server.Prelude.{
  ℕ, ◌+◌, ◌≡◌, ◌⊎◌, refl, true, false, none, some, List, [], ◌∷◌, ◌++◌, codes, contains, has_prefix,
  arith,
}
use clip_share_server.Net.Socket.{chunk, is_ipv6}
use clip_share_server.Config.{Config, addr4, addr6}
use clip_share_server.Config.Files.{c_string}
use clip_share_server.World.{World}
use clip_share_server.Servers.Web.{
  header_loop, header_fuel, serve_post, halt, data_loop, data_fuel, receiver_web, space,
}
use clip_share_server.Servers.Web.Endless.{serve_post-endless}
use clip_share_server.Servers.Web.Body.{Ended, data_loop_ends}
use clip_share_server.Servers.Web.Posted.{Posted}
use clip_share_server.Servers.Web.Replies.{reply, receiver_web-reply}
use clip_share_server.Servers.Listen.{
  System, clip_share, can_be_secure, gave_up, iterate_interfaces,
}
use clip_share_server.Servers.Listen.Starts.{StartsAs, clip_share-StartsAs}
use clip_share_server.Servers.Listen.Groups.{JoinsOnce, iterate_interfaces-JoinsOnce}
use clip_share_server.Tests.Data.{an_env, a_world, read_only_config}

abbrev a_page : List ℕ
a_page = codes "<html>"

-- A client that sends a part of its headers and leaves.
abbrev left_early : World
left_early = a_world (chunk (codes "Host: a") ∷ [])

nothing_found : contains (13 ∷ 10 ∷ 13 ∷ 10 ∷ []) (codes "Host: a") ≡ false
unfolding contains has_prefix
nothing_found = refl

serve_post-endless_example :
    (header_loop (header_fuel left_early + 5) [] 0 left_early ≡ none)
    × (serve_post left_early ≡ halt left_early)
serve_post-endless_example = serve_post-endless 5 left_early nothing_found (omega arith)

data_loop_ends_example :
    Ended 7 (codes "ab") left_early (data_loop (data_fuel 7) 7 0 (codes "ab") left_early)
data_loop_ends_example = data_loop_ends 7 (codes "ab") left_early

abbrev asks_clip : World
asks_clip =
    a_world (chunk (codes "GET" ++ space ∷ codes "/clip" ++ space ∷ 72 ∷ codes "TTP/1.1") ∷ [])

clip_whole : c_string (codes "/clip") ≡ codes "/clip"
unfolding c_string
clip_whole = refl

receiver_web-reply_example :
    ((receiver_web an_env a_page asks_clip).0 ≡ some tt)
    × ((receiver_web an_env a_page asks_clip).1.socket.outgoing
        ≡ [] ++ reply an_env a_page (codes "/clip"))
receiver_web-reply_example =
    receiver_web-reply an_env a_page (codes "/clip") 72 (codes "TTP/1.1") [] asks_clip refl
      (
        (λ i. absurd (omega arith)),
        (
          (λ i. absurd (omega arith)),
          (
            (λ i. absurd (omega arith)),
            ((λ i. absurd (omega arith)), ((λ i. absurd (omega arith)), tt)),
          ),
        ),
      )
      clip_whole (omega arith) refl

-- An interface with the address 7 and the netmask 4294967040, twice.
abbrev a_system : System
a_system = record {
  socket = true;
  ssl_ctx = true;
  certificates = true;
  reuse = true;
  listen = true;
  bind = λ addr port. true;
  interfaces = some (
      record { ifa_addr = some (addr4 7); ifa_netmask = 4294967040; index = 2 }
      ∷ record { ifa_addr = some (addr6 9); ifa_netmask = 0; index = 2 }
      ∷ record { ifa_addr = some (addr6 9); ifa_netmask = 0; index = 2 }
      ∷ []);
  multicast = some 5;
  join = λ index. true;
}

clip_share-StartsAs_example :
    StartsAs a_system true read_only_config (clip_share a_system true read_only_config)
    × ((true ≡ false)
        ⊎ (can_be_secure read_only_config ≡ true)
        ⊎ (clip_share a_system true read_only_config ≡ gave_up []))
clip_share-StartsAs_example = clip_share-StartsAs a_system true read_only_config

abbrev discovery_config : Config
discovery_config = record read_only_config { bind_addr_udp = addr4 7 }

plain_udp : is_ipv6 5 ≡ false
unfolding is_ipv6
plain_udp = refl

iterate_interfaces-JoinsOnce_example :
    JoinsOnce [] [] (iterate_interfaces a_system read_only_config (addr6 9) 13 []).1
iterate_interfaces-JoinsOnce_example =
    iterate_interfaces-JoinsOnce a_system read_only_config 9 13 []
