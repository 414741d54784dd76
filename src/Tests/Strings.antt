-- ===== src/Tests/Strings.antt =====
-- Line ends, URLs and lists at concrete inputs.
use clip_share_server.World.{Env, FsOp, made_dir}
use clip_share_server.Utils.Dirs.{mkdirs, mkdir_loop, mkdir_check}
use clip_share_server.Utils.Dirs.Makes.{IsLawful, mkdirs_makes}
use clip_share_server.Tests.Data.{an_env, a_world}
use clip_share_server.Prelude.{
  Bool, same, inr, ◌||◌, ℕ, ◌≡◌, refl, true, false, some, List, [], ◌∷◌, codes, arith,
}
use clip_share_server.Utils.Eol.{
  convert_to_lf, convert_to_crlf, convert_eol, realloc_for_crlf, enlarged,
}
use clip_share_server.Utils.Eol.Laws.{convert_to_lf-convert_to_crlf}
use clip_share_server.Utils.Url.{url_encode, url_decode, decoded}
use clip_share_server.Utils.Url.RoundTrip.{url_decode-url_encode}
use clip_share_server.ListUtils.{List2, append_all, appended}
use clip_share_server.ListUtils.Growth.{IsValid, append_all-array}

-- "a\nb\r\n"
abbrev two_lines : List ℕ
two_lines = 97 ∷ 10 ∷ 98 ∷ 13 ∷ 10 ∷ []

enlarged_by_one : realloc_for_crlf true two_lines ≡ enlarged 6
unfolding realloc_for_crlf
enlarged_by_one = refl

converted : convert_eol true true false two_lines ≡ some (97 ∷ 13 ∷ 10 ∷ 98 ∷ 13 ∷ 10 ∷ [])
unfolding convert_eol
converted = refl

convert_to_lf-convert_to_crlf_example :
    convert_to_lf (convert_to_crlf (97 ∷ 10 ∷ [])) ≡ 97 ∷ 10 ∷ []
convert_to_lf-convert_to_crlf_example =
    convert_to_lf-convert_to_crlf (97 ∷ 10 ∷ []) (omega arith, (omega arith, tt))

url_decode-url_encode_example :
    (url : List ℕ) × ((url_encode true (codes "/ ")).url ≡ some url)
    × (url_decode url ≡ decoded (codes "/ "))
url_decode-url_encode_example =
    url_decode-url_encode 47 (codes " ") (omega arith, (omega arith, tt))

-- One slot, which is taken.
abbrev full_list : List2 ℕ
full_list = record { len = 1; capacity = 1; array = 5 ∷ [] }

full_list-IsValid : IsValid full_list
full_list-IsValid = record { counted = refl; within = omega arith; word = omega arith }

append_all-array_example :
    (lst' : List2 ℕ) × (append_all full_list (6 ∷ 7 ∷ []) ≡ appended lst')
    × (lst'.array ≡ 5 ∷ 6 ∷ 7 ∷ [])
append_all-array_example =
    append_all-array full_list (6 ∷ 7 ∷ []) full_list-IsValid (omega arith) (omega arith)

-- A file system in which there are the directories that were made.
abbrev made_in : List FsOp → List ℕ → Bool
made_in [] path = false
made_in (made_dir p ∷ log) path = same p path || made_in log path
made_in (op ∷ log) path = made_in log path

abbrev making_env : Env
making_env = record an_env {
  file_exists = made_in;
  is_directory = made_in;
  mkdir = λ log path. true;
}

same_self : (path : List ℕ) → same path path ≡ true
unfolding same
same_self [] = refl
same_self (c ∷ path) = ground (arith, same_self path)

making_env-IsLawful : IsLawful making_env
making_env-IsLawful = record {
  made = λ log path h. rw (same_self path) refl;
  stays = λ log path other h. ground arith;
}

a_made : (mkdirs making_env (codes "./a") (a_world [])).0 ≡ some tt
unfolding mkdirs mkdir_loop mkdir_check same
a_made = refl

mkdirs_makes_example :
    made_in (mkdirs making_env (codes "./a") (a_world [])).1.log (codes ".") ≡ true
mkdirs_makes_example =
    mkdirs_makes making_env making_env-IsLawful (codes "./a") (codes ".") (codes "/a") (a_world [])
      refl a_made refl (inr (codes "a", refl))
