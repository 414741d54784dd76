-- ===== src/Proto/Transfer/Wire.antt =====
-- What `_get_files_common` of src/proto/methods.c puts on the wire.
use clip_share_server.Prelude.{
  ℕ, suc, zero, ◌+◌, ◌-◌, ◌≤◌, ◌<◌, ◌≡◌, refl, ap, ◌∙◌, true, false, none, some, List, [], ◌∷◌,
  ◌++◌, append_assoc, length, length-take, length-drop, take, drop, take-append-drop, ltb, leb,
  ◌==◌, arith, pos, negsuc,
}
use clip_share_server.Exec.{Exec, ◌>>◌, continue}
use clip_share_server.Net.Size.{size_bytes, send_size}
use clip_share_server.World.{Env, World, on_socket, write_bytes}
use clip_share_server.World.Healthy.{
  IsHealthy, Sending, sending, write_bytes_healthy, send_size_healthy, then-healthy,
  send_data_healthy, require_healthy,
}
use clip_share_server.Utils.Dirs.{max_file_name_len}
use clip_share_server.Proto.Text.{status_ok, send_data}
use clip_share_server.Proto.Transfer.{
  file_buf_sz, send_body, last_byte, all_but_last, transfer_regular_file, transfer_directory,
  sent_name, transfer_single_file, transfer_files, get_files_common,
}

abbrev send_rest : ℕ → ℕ → List ℕ → Exec World (Unit {0})
send_rest fuel size body =
    send_body fuel (size - length (take file_buf_sz body)) (drop file_buf_sz body)

send_body_step :
    (fuel n b : ℕ) (bs : List ℕ)
    → send_body (suc fuel) (suc n) (b ∷ bs)
      ≡ (write_bytes (take file_buf_sz (b ∷ bs)) >> send_rest fuel (suc n) (b ∷ bs))
unfolding send_body
send_body_step fuel n b bs = refl

-- A file of which as many bytes can be read as its size says is sent byte for byte.
send_body-exact :
    (fuel size : ℕ) (body : List ℕ)
    → length body < fuel
    → size ≡ length body
    → Sending (send_body fuel size body) body
send_body-exact zero size body h e w k = absurd (omega arith)
send_body-exact (suc fuel) zero [] h e w k = unfold send_body in require_healthy w k
send_body-exact (suc fuel) zero (b ∷ bs) h e w k = absurd (omega arith)
send_body-exact (suc fuel) (suc n) [] h e w k = absurd (omega arith)
send_body-exact (suc fuel) (suc n) (b ∷ bs) h e w k =
    let body = b ∷ bs in
    ap (λ m. m w) (send_body_step fuel n b bs)
    ∙ then-healthy (write_bytes (take file_buf_sz body)) (send_rest fuel (suc n) body)
        (take file_buf_sz body) (drop file_buf_sz body)
        (write_bytes_healthy (take file_buf_sz body))
        (send_body-exact fuel (suc n - length (take file_buf_sz body)) (drop file_buf_sz body)
          (omega (arith, length-drop file_buf_sz body))
          (omega (arith, length-drop file_buf_sz body, length-take file_buf_sz body)))
        w k
    ∙ ap (λ t. (some tt, sending t w)) (take-append-drop file_buf_sz body)

-- Where fewer bytes can be read than the size says, the loop of `_transfer_regular_file` sends
-- them and then repeats for ever, over a connection that takes all the bytes it is given.
send_body-short :
    (fuel size : ℕ) (body : List ℕ) (w : World)
    → length body < fuel
    → length body < size
    → IsHealthy w
    → send_body fuel size body w ≡ (none, record (sending body w) { hung = true })
send_body-short zero size body w h e k = absurd (omega arith)
send_body-short (suc fuel) zero body w h e k = absurd (omega arith)
send_body-short (suc fuel) (suc n) [] w h e k =
    unfold send_body in ap (λ r. (none, record r.1 { hung = true })) (require_healthy w k)
send_body-short (suc fuel) (suc n) (b ∷ bs) w h e k =
    let body = b ∷ bs in
    let part = take file_buf_sz body in
    ap (λ m. m w) (send_body_step fuel n b bs)
    ∙ ap (λ r. continue r (λ _. send_rest fuel (suc n) body)) (write_bytes_healthy part w k)
    ∙ send_body-short fuel (suc n - length part) (drop file_buf_sz body) (sending part w)
        (omega (arith, length-drop file_buf_sz body))
        (omega (arith, length-drop file_buf_sz body, length-take file_buf_sz body)) refl
    ∙ ap
        (λ out.
          (none, record w { socket = record w.socket { outgoing = out; rooms = [] }; hung = true }))
        (append_assoc w.socket.outgoing part (drop file_buf_sz body)
          ∙ ap (λ t. w.socket.outgoing ++ t) (take-append-drop file_buf_sz body))

abbrev pub framed : List ℕ → List ℕ
framed payload = size_bytes (pos (length payload)) ++ payload

-- What a client is to receive for one path: the name that is sent, and either the file or the
-- size -1 of a directory, whose name ends in a '/' that is left out.
pub data Offers (env : Env) (version path_len : ℕ) : List ℕ → List ℕ → Type 0 where
  offers_file :
      {file_path filename body : List ℕ}
      → sent_name version file_path path_len ≡ some filename
      → 1 ≤ length filename
      → length filename ≤ max_file_name_len
      → (last_byte filename == 47) ≡ false
      → env.open_read file_path ≡ some (record { size = pos (length body); body = body })
      → length body ≤ env.configuration.max_file_size
      → Offers env version path_len file_path (framed filename ++ framed body)
  offers_directory :
      {file_path filename : List ℕ}
      → sent_name version file_path path_len ≡ some filename
      → 1 ≤ length filename
      → length filename ≤ max_file_name_len
      → (last_byte filename == 47) ≡ true
      → Offers env version path_len file_path
          (framed (all_but_last filename) ++ size_bytes (negsuc 0))

-- The same for a list of paths, one after the other.
pub data OffersAll (env : Env) (version path_len : ℕ) : List (List ℕ) → List ℕ → Type 0 where
  no_more : OffersAll env version path_len [] []
  one_more :
      {file_path wire : List ℕ} {files : List (List ℕ)} {wires : List ℕ}
      → Offers env version path_len file_path wire
      → OffersAll env version path_len files wires
      → OffersAll env version path_len (file_path ∷ files) (wire ++ wires)

module _ (env : Env) (version path_len : ℕ) where
  transfer_file-healthy :
      (file_path filename body : List ℕ)
      → env.open_read file_path ≡ some (record { size = pos (length body); body = body })
      → length body ≤ env.configuration.max_file_size
      → Sending (transfer_regular_file env file_path filename) (framed filename ++ framed body)
  unfolding transfer_regular_file
  transfer_file-healthy file_path filename body e small w h =
      let fits : ltb env.configuration.max_file_size (length body) ≡ false = ground arith in
      let name = send_data (pos (length filename)) filename in
      let size = on_socket (send_size (pos (length body))) in
      let rest = send_body (length body + 1) (length body) body in
      rw (e, transfer_regular_file, fits)
        (then-healthy (name >> size) rest (framed filename ++ size_bytes (pos (length body))) body
            (then-healthy name size (framed filename) (size_bytes (pos (length body)))
              (send_data_healthy filename) (send_size_healthy (pos (length body))))
            (send_body-exact (length body + 1) (length body) body (omega arith) refl) w h
          ∙ ap (λ t. (some tt, sending t w))
              (append_assoc (framed filename) (size_bytes (pos (length body))) body))

  transfer_single_file-healthy :
      {file_path wire : List ℕ}
      → Offers env version path_len file_path wire
      → Sending (transfer_single_file env version file_path path_len) wire
  unfolding transfer_single_file transfer_directory
  transfer_single_file-healthy
        (offers_file {file_path = file_path} {filename = filename} {body = body} named few many
          plain opened small)
        w h =
      let some_name : leb (length filename) 0 ≡ false = ground arith in
      let short : ltb max_file_name_len (length filename) ≡ false = ground arith in
      rw (named, transfer_single_file, some_name, short, plain)
        (transfer_file-healthy file_path filename body opened small w h)
  transfer_single_file-healthy (offers_directory {filename = filename} named few many slash) w h =
      let some_name : leb (length filename) 0 ≡ false = ground arith in
      let short : ltb max_file_name_len (length filename) ≡ false = ground arith in
      let name = all_but_last filename in
      rw (named, transfer_single_file, some_name, short, slash)
        (then-healthy (send_data (pos (length name)) name) (on_socket (send_size (negsuc 0)))
          (framed name) (size_bytes (negsuc 0)) (send_data_healthy name)
          (send_size_healthy (negsuc 0)) w h)

  pub transfer_files-healthy :
      {files : List (List ℕ)} {wires : List ℕ}
      → OffersAll env version path_len files wires
      → Sending (transfer_files env version files path_len) wires
  unfolding transfer_files
  transfer_files-healthy no_more = require_healthy
  transfer_files-healthy
        (one_more {file_path = file_path} {wire = wire} {files = files} {wires = wires} one more) =
      then-healthy (transfer_single_file env version file_path path_len)
        (transfer_files env version files path_len) wire wires (transfer_single_file-healthy one)
        (transfer_files-healthy more)

  -- Over a connection that takes all the bytes it is given, a list of 1 to `max_file_count` paths
  -- of files and directories that can all be offered is answered with the status 1, the number of
  -- paths, and for each path in order the length-prefixed name with the length-prefixed content,
  -- or with the size -1 for a directory. Nothing else is sent, and nothing but the connection
  -- changes.
  pub get_files_common-reply :
      (files : List (List ℕ)) (wires : List ℕ) (w : World)
      → IsHealthy w
      → 1 ≤ length files
      → length files ≤ env.configuration.max_file_count
      → OffersAll env version path_len files wires
      → get_files_common env version (record { lst = some files; path_len = path_len }) w
        ≡ (some tt, sending (1 ∷ size_bytes (pos (length files)) ++ wires) w)
  unfolding get_files_common
  get_files_common-reply files wires w h few many offered =
      let some_files : (length files == 0) ≡ false = ground arith in
      let not_many : ltb env.configuration.max_file_count (length files) ≡ false = ground arith in
      let count = size_bytes (pos (length files)) in
      let status = write_bytes (status_ok ∷ []) in
      let send_count = on_socket (send_size (pos (length files))) in
      rw (some_files, not_many)
        (then-healthy (status >> send_count) (transfer_files env version files path_len) (1 ∷ count)
          wires
          (then-healthy status send_count (1 ∷ []) count (write_bytes_healthy (1 ∷ []))
            (send_size_healthy (pos (length files))))
          (transfer_files-healthy offered) w h)
