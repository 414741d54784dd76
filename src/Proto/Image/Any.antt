-- ===== src/Proto/Image/Any.antt =====
-- What `get_any` of src/proto/methods.c puts on the wire.
use clip_share_server.Prelude.{
  ℕ, ◌≤◌, ◌≡◌, refl, sym, subst, ap, ◌∙◌, Bool, true, false, Option, none, some, List, [], ◌∷◌,
  ◌++◌, length, ltb, leb, ◌==◌, if◌then◌else◌, is_empty, arith, pos, Bool-cases, inl, inr,
}
use clip_share_server.Exec.{Exec, ◌>>◌, continue, require}
use clip_share_server.Net.Connection.{shut_socket_outgoing}
use clip_share_server.Net.Size.{size_bytes, send_size}
use clip_share_server.Net.Transfer.{read_sock}
use clip_share_server.Net.Transfer.Read.{read_sock_keeps}
use clip_share_server.World.{Env, World, on_socket, write_bytes, close_no_wait, resume}
use clip_share_server.World.Healthy.{
  IsHealthy, Sending, sending, write_bytes_healthy, send_size_healthy, then-healthy,
  send_data_healthy,
}
use clip_share_server.Utils.Desktop.{
  img_copied_only, copied_type_text, copied_type_file, copied_type_image,
}
use clip_share_server.Proto.Text.{status_ok, send_data, read_ack, byte_of}
use clip_share_server.Proto.Text.Replies.{shown}
use clip_share_server.Proto.Transfer.{transfer_files}
use clip_share_server.Proto.Transfer.Wire.{framed, OffersAll, transfer_files-healthy}
use clip_share_server.Proto.Image.{
  max_image_size, get_any_v4, get_any_text, get_any_files, get_any_image, respond_any_text,
  respond_any_files, finish_any, no_data_open,
}

-- What a client is to receive for what was copied: the status 1, the type, and the text, the
-- files or the picture.
pub data Answers (env : Env) : List ℕ → Type 0 where
  text_answer :
      {buf : List ℕ}
      → env.copied_type ≡ copied_type_text
      → env.clipboard_text ≡ some buf
      → 1 ≤ length buf
      → length buf ≤ env.configuration.max_text_length
      → is_empty (shown buf) ≡ false
      → Answers env (1 ∷ 1 ∷ framed (shown buf))
  files_answer :
      {files : List (List ℕ)} {wires : List ℕ}
      → env.copied_type ≡ copied_type_file
      → (env.copied_dirs_files true).lst ≡ some files
      → 1 ≤ length files
      → length files ≤ env.configuration.max_file_count
      → OffersAll env 4 (env.copied_dirs_files true).path_len files wires
      → Answers env (1 ∷ 2 ∷ size_bytes (pos (length files)) ++ wires)
  image_answer :
      {buf : List ℕ}
      → env.copied_type ≡ copied_type_image
      → env.image img_copied_only 0 ≡ some buf
      → 1 ≤ length buf
      → length buf ≤ max_image_size
      → Answers env (1 ∷ 3 ∷ framed buf)

-- The status and the type in front of `m`.
headed :
    (kind : ℕ) (m : Exec World (Unit {0})) (wire : List ℕ)
    → Sending m wire
    → Sending (write_bytes (status_ok ∷ []) >> write_bytes (kind ∷ []) >> m) (1 ∷ kind ∷ wire)
headed kind m wire =
    then-healthy (write_bytes (status_ok ∷ []) >> write_bytes (kind ∷ [])) m (1 ∷ kind ∷ []) wire (
      then-healthy (write_bytes (status_ok ∷ [])) (write_bytes (kind ∷ [])) (1 ∷ []) (kind ∷ [])
        (write_bytes_healthy (status_ok ∷ [])) (write_bytes_healthy (kind ∷ [])))

abbrev closing : Option (Unit {0}) × World → Option (Unit {0}) × World
closing r = resume r.1.hung r.0 (λ res. close_no_wait >> require res) r.1

-- The result is that of the acknowledgement, and `wire` is all that has gone out.
abbrev pub Acknowledged : List ℕ → World → Option (Unit {0}) × World → Type 0
Acknowledged wire w r =
    (r.0 ≡ (read_ack (sending wire w)).0) × (r.1.socket.outgoing ≡ w.socket.outgoing ++ wire)

closing_keeps :
    (r : Option (Unit {0}) × World)
    → r.1.hung ≡ false
    → ((closing r).0 ≡ r.0) × ((closing r).1.socket.outgoing ≡ r.1.socket.outgoing)
closing_keeps (some tt, v) h = rw h (refl, shut_socket_outgoing false true v.socket)
closing_keeps (none, v) h = rw h (refl, shut_socket_outgoing false true v.socket)

tested :
    {A : Type 0} (test : A → Bool) (o : Option A) (v : World)
    → (continue (o, v) (λ a. require (test a))).1 ≡ v
tested test none v = refl
tested test (some a) v = elim (Bool-cases (test a)) [ inl e ↦ rw e refl | inr e ↦ rw e refl ]

read_ack_keeps :
    (w : World)
    → ((read_ack w).1.hung ≡ w.hung) × ((read_ack w).1.socket.outgoing ≡ w.socket.outgoing)
unfolding read_ack
read_ack_keeps w =
    let (status, read) = read_sock 1 w.socket in
    let same_world = tested (λ got. byte_of got == 1) status (record w { socket = read }) in
    (
      ap (λ v. v.hung) same_world,
      ap (λ v. v.socket.outgoing) same_world ∙ ap (λ s. s.outgoing) (read_sock_keeps 1 w.socket),
    )

finish_any-Acknowledged :
    (m : Exec World (Unit {0})) (wire : List ℕ) (w : World)
    → Sending m wire
    → IsHealthy w
    → w.hung ≡ false
    → Acknowledged wire w (finish_any m w)
unfolding finish_any
finish_any-Acknowledged m wire w h k awake =
    let sent = ap (λ r. continue r (λ _. read_ack)) (h w k) in
    let (still, out) = read_ack_keeps (sending wire w) in
    let (status, kept) = closing_keeps (read_ack (sending wire w)) (still ∙ awake) in
    subst (λ r. Acknowledged wire w (closing r)) (sym sent) (status, kept ∙ out)

module _ (env : Env) where
  text_sent :
      (buf : List ℕ)
      → env.clipboard_text ≡ some buf
      → 1 ≤ length buf
      → length buf ≤ env.configuration.max_text_length
      → is_empty (shown buf) ≡ false
      → Sending (get_any_text env) (1 ∷ 1 ∷ framed (shown buf))
  unfolding get_any_text respond_any_text
  text_sent buf e few many full w h =
      let small : leb (length buf) 0 ≡ false = ground arith in
      let large : ltb env.configuration.max_text_length (length buf) ≡ false = ground arith in
      rw (get_any_text, e, small, large, full)
        (headed 1 (send_data (pos (length (shown buf))) (shown buf)) (framed (shown buf))
          (send_data_healthy (shown buf)) w h)

  files_sent :
      (files : List (List ℕ)) (wires : List ℕ)
      → (env.copied_dirs_files true).lst ≡ some files
      → 1 ≤ length files
      → length files ≤ env.configuration.max_file_count
      → OffersAll env 4 (env.copied_dirs_files true).path_len files wires
      → Sending (get_any_files env) (1 ∷ 2 ∷ size_bytes (pos (length files)) ++ wires)
  unfolding get_any_files respond_any_files
  files_sent files wires e few many offered w h =
      let some_files : (length files == 0) ≡ false = ground arith in
      let large : ltb env.configuration.max_file_count (length files) ≡ false = ground arith in
      let count = size_bytes (pos (length files)) in
      let path_len = (env.copied_dirs_files true).path_len in
      let send_count = on_socket (send_size (pos (length files))) in
      rw (get_any_files, e, some_files, large)
        (then-healthy
          (write_bytes (status_ok ∷ []) >> write_bytes (copied_type_file ∷ []) >> send_count)
          (transfer_files env 4 files path_len) (1 ∷ 2 ∷ count) wires
          (headed 2 send_count count (send_size_healthy (pos (length files))))
          (transfer_files-healthy env 4 path_len offered) w h)

  image_sent :
      (buf : List ℕ)
      → env.image img_copied_only 0 ≡ some buf
      → 1 ≤ length buf
      → length buf ≤ max_image_size
      → Sending (get_any_image env) (1 ∷ 3 ∷ framed buf)
  unfolding get_any_image
  image_sent buf e few many w h =
      let some_bytes : (length buf == 0) ≡ false = ground arith in
      let large : ltb max_image_size (length buf) ≡ false = ground arith in
      rw (get_any_image, e, some_bytes, large)
        (headed 3 (send_data (pos (length buf)) buf) (framed buf) (send_data_healthy buf) w h)

  -- get_any for the copied type `kind`
  abbrev any_of : ℕ → Exec World (Unit {0})
  any_of kind =
      if kind == copied_type_text
      then finish_any (get_any_text env)
      else if kind == copied_type_file
      then finish_any (get_any_files env)
      else if kind == copied_type_image
      then finish_any (get_any_image env)
      else no_data_open

  of_kind :
      (kind : ℕ) (wire : List ℕ) (w : World)
      → env.copied_type ≡ kind
      → Acknowledged wire w (any_of kind w)
      → Acknowledged wire w (get_any_v4 env w)
  unfolding get_any_v4
  of_kind kind wire w e = subst (λ n. Acknowledged wire w (any_of n w)) (sym e)

  -- On a connection that takes all it is given, in a process that has not halted, what was copied,
  -- where it can be sent at all, is answered by `get_any` with the status 1, the type and: the
  -- length and the bytes of the converted text; or the number of files and each of them; or the
  -- length and the bytes of the picture. Nothing else goes out, and the result is that of
  -- reading the client's acknowledgement behind it.
  pub get_any_v4-Acknowledged :
      (wire : List ℕ) (w : World)
      → Answers env wire
      → IsHealthy w
      → w.hung ≡ false
      → Acknowledged wire w (get_any_v4 env w)
  get_any_v4-Acknowledged wire w (text_answer {buf = buf} kind e few many full) k awake =
      of_kind copied_type_text wire w kind
        (finish_any-Acknowledged (get_any_text env) wire w (text_sent buf e few many full) k awake)
  get_any_v4-Acknowledged wire w
        (files_answer {files = files} {wires = wires} kind e few many offered) k awake =
      of_kind copied_type_file wire w kind (
        finish_any-Acknowledged (get_any_files env) wire w
          (files_sent files wires e few many offered) k awake)
  get_any_v4-Acknowledged wire w (image_answer {buf = buf} kind e few many) k awake =
      of_kind copied_type_image wire w kind
        (finish_any-Acknowledged (get_any_image env) wire w (image_sent buf e few many) k awake)
