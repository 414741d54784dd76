-- ===== src/Tests/Requests.antt =====
-- Requests at concrete inputs.
use clip_share_server.Prelude.{
  ℕ, List, ◌≡◌, refl, false, some, [], ◌∷◌, ◌++◌, is_empty, codes, arith, pos,
}
use clip_share_server.Net.Socket.{chunk}
use clip_share_server.Net.Size.{size_bytes}
use clip_share_server.World.{World}
use clip_share_server.World.Keeps.{outcome}
use clip_share_server.World.Healthy.{sending}
use clip_share_server.Utils.Eol.{convert_to_lf}
use clip_share_server.Config.Files.{c_string}
use clip_share_server.Proto.Text.Replies.{shown}
use clip_share_server.Proto.Transfer.{get_files_common, sent_name}
use clip_share_server.Proto.Transfer.Wire.{
  get_files_common-reply, OffersAll, offers_file, no_more, one_more, framed,
}
use clip_share_server.Proto.Image.{get_any_v4}
use clip_share_server.Proto.Image.Any.{Acknowledged, text_answer, get_any_v4-Acknowledged}
use clip_share_server.Proto.Save.{save_body, rename_if_exists}
use clip_share_server.Proto.Save.Contents.{Saved, save_body-exact}
use clip_share_server.Proto.Save.Names.{IsFree, rename_if_exists-IsFree}
use clip_share_server.Proto.Versions.{server}
use clip_share_server.Proto.Versions.Negotiation.{Negotiated, server-Negotiated}
use clip_share_server.Proto.Versions.ReadOnly.{server_read_only}
use clip_share_server.Tests.Data.{an_env, a_world}

-- Version 2, send_files: one file of 3 bytes, "a/b".
abbrev uploading : World
uploading = a_world (
    chunk (2 ∷ 4 ∷ 0 ∷ 0 ∷ 0 ∷ 0 ∷ 0 ∷ 0 ∷ 0 ∷ 1 ∷ [])
    ∷ chunk (0 ∷ 0 ∷ 0 ∷ 0 ∷ 0 ∷ 0 ∷ 0 ∷ 3 ∷ codes "a/b")
    ∷ chunk (0 ∷ 0 ∷ 0 ∷ 0 ∷ 0 ∷ 0 ∷ 0 ∷ 3 ∷ codes "xyz")
    ∷ [])

-- Version 4, send_text.
abbrev asking : World
asking = a_world (chunk (4 ∷ 2 ∷ []) ∷ [])

server_read_only_example : outcome (server an_env asking).1 ≡ outcome asking
server_read_only_example = server_read_only an_env refl refl asking

-- A client of version 9 that goes on with version 4, and asks for the info.
abbrev newer : World
newer = a_world (chunk (9 ∷ []) ∷ chunk (4 ∷ 125 ∷ []) ∷ [])

server-Negotiated_example : Negotiated an_env newer (server an_env newer)
server-Negotiated_example = server-Negotiated an_env newer refl (omega arith)

-- A size of 3, then a name or a content.
abbrev three : World
three = a_world (chunk (0 ∷ 0 ∷ 0 ∷ 0 ∷ 0 ∷ 0 ∷ 0 ∷ 3 ∷ []) ∷ chunk (codes "abc") ∷ [])

abbrev abc : World
abc = a_world (chunk (codes "abc") ∷ [])

save_body-exact_example :
    Saved an_env (codes "./f") 3 abc (save_body an_env 1 (pos 3) (codes "./f") abc)
save_body-exact_example = save_body-exact an_env (codes "./f") 1 3 abc

rename_if_exists-IsFree_example :
    IsFree an_env 20 (codes "a") abc (rename_if_exists an_env 20 (codes "a") abc)
rename_if_exists-IsFree_example = rename_if_exists-IsFree an_env 20 (codes "a") abc

hi_shown : is_empty (shown (codes "hi")) ≡ false
unfolding convert_to_lf c_string
hi_shown = refl

-- The client acknowledges.
abbrev confirming : World
confirming = a_world (chunk (1 ∷ []) ∷ [])

abbrev hi_wire : List ℕ
hi_wire = 1 ∷ 1 ∷ framed (shown (codes "hi"))

get_any_v4-Acknowledged_example : Acknowledged hi_wire confirming (get_any_v4 an_env confirming)
get_any_v4-Acknowledged_example =
    get_any_v4-Acknowledged an_env hi_wire confirming
      (text_answer refl refl (omega arith) (omega arith) hi_shown) refl refl

named_a : sent_name 4 (codes "/tmp/a") 5 ≡ some (codes "a")
unfolding sent_name
named_a = refl

one_file :
    OffersAll an_env 4 5 (codes "/tmp/a" ∷ []) ((framed (codes "a") ++ framed (codes "xyz")) ++ [])
one_file =
    one_more
      (offers_file {body = codes "xyz"} named_a (omega arith) (omega arith) refl refl (omega arith))
      no_more

get_files_common-reply_example :
    get_files_common an_env 4 (record { lst = some (codes "/tmp/a" ∷ []); path_len = 5 }) abc ≡ (
      some tt,
      sending (1 ∷ size_bytes (pos 1) ++ ((framed (codes "a") ++ framed (codes "xyz")) ++ [])) abc,
    )
get_files_common-reply_example =
    get_files_common-reply an_env 4 5 (codes "/tmp/a" ∷ [])
      ((framed (codes "a") ++ framed (codes "xyz")) ++ []) abc refl (omega arith) (omega arith)
      one_file
