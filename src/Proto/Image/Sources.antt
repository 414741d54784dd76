-- ===== src/Proto/Image/Sources.antt =====
-- Where the images that the server sends come from, over the desktop of src/utils/utils.c.
use clip_share_server.Prelude.{
  ℕ, ◌<◌, ◌≤◌, ◌≡◌, ◌⊎◌, subst, some_injective, arith, leb, if◌then◌else◌, inl, inr, refl, ap, ◌∙◌,
  true, false, Option, none, some, List, [], ◌∷◌, ◌++◌, codes, length, pos, Bool-cases,
}
use clip_share_server.Exec.{Exec, ◌>>◌}
use clip_share_server.Net.Connection.{shut_socket_outgoing}
use clip_share_server.Net.Size.{size_bytes}
use clip_share_server.World.{Env, World, write_bytes}
use clip_share_server.World.Healthy.{
  IsHealthy, Sending, sending, write_bytes_healthy, then-healthy, send_data_healthy,
}
use clip_share_server.Proto.Text.{status_ok, status_no_data, send_data, no_data}
use clip_share_server.Proto.Image.{get_image_common, is_sendable}
use clip_share_server.Utils.Desktop.{Desktop, get_image, get_clipboard_text, get_copied_type}
use clip_share_server.Utils.Desktop.Images.{
  sources, first_image, display_for, image_for, get_image-image_for,
}

-- The clipboard and the screen answer as the desktop does.
abbrev pub with_desktop : Env → Desktop → Env
with_desktop env desktop = record env {
  clipboard_text = get_clipboard_text desktop;
  image = get_image env.configuration desktop;
  copied_type = get_copied_type desktop;
}

-- Only the status 2 goes out, and the request fails.
abbrev pub Refuses : World → Option (Unit {0}) × World → Type 0
Refuses w r = (r.0 ≡ none) × (r.1.socket.outgoing ≡ w.socket.outgoing ++ 2 ∷ [])

-- What becomes of an image, or of none: 1073741824 bytes are the most that is sent.
abbrev pub Answers : Option (List ℕ) → World → Option (Unit {0}) × World → Type 0
Answers none w r = Refuses w r
Answers (some buf) w r =
    ((length buf ≤ 1073741824)
      × (r ≡ (some tt, sending (1 ∷ size_bytes (pos (length buf)) ++ buf) w)))
    ⊎ ((1073741824 < length buf) × Refuses w r)

no_data_sent :
    (w : World)
    → IsHealthy w
    → ((no_data w).0 ≡ none)
      × ((no_data w).1.socket.outgoing ≡ w.socket.outgoing ++ status_no_data ∷ [])
unfolding no_data
no_data_sent w h =
    let sent = (write_bytes (status_no_data ∷ []) w).1 in
    (
      refl,
      shut_socket_outgoing false true sent.socket
          ∙ ap (λ r. r.1.socket.outgoing) (write_bytes_healthy (status_no_data ∷ []) w h),
    )

image_sent :
    (buf : List ℕ)
    → Sending
        (write_bytes (status_ok ∷ []) >> send_data (pos (length buf)) buf)
        (status_ok ∷ size_bytes (pos (length buf)) ++ buf)
image_sent buf =
    then-healthy (write_bytes (status_ok ∷ [])) (send_data (pos (length buf)) buf) (status_ok ∷ [])
      (size_bytes (pos (length buf)) ++ buf) (write_bytes_healthy (status_ok ∷ []))
      (send_data_healthy buf)

first_image-long :
    (images : List (Option (List ℕ))) (buf : List ℕ)
    → first_image images ≡ some buf
    → 8 < length buf
first_image-long [] buf e = absurd cc
first_image-long (none ∷ images) buf e = first_image-long images buf e
first_image-long (some b ∷ images) buf e = elim (Bool-cases (leb 9 (length b))) [
  | inl k ↦
      let same_image = some_injective (rewritten b images buf k e) in
      subst (λ t. 8 < length t) same_image (ground arith)
  | inr k ↦ first_image-long images buf (skipped b images buf k e)
]
  where
    rewritten :
        (b : List ℕ) (images : List (Option (List ℕ))) (buf : List ℕ)
        → leb 9 (length b) ≡ true
        → first_image (some b ∷ images) ≡ some buf
        → some b ≡ some buf
    rewritten b images buf k e = ground arith

    skipped :
        (b : List ℕ) (images : List (Option (List ℕ))) (buf : List ℕ)
        → leb 9 (length b) ≡ false
        → first_image (some b ∷ images) ≡ some buf
        → first_image images ≡ some buf
    skipped b images buf k e = ground arith

-- On a connection that takes all it is given, a request for an image, for a mode and a display, is
-- answered with the first image of at least 9 bytes: from the clipboard (a PNG) and then from the
-- screen; in mode 1 only from the clipboard, in mode 2 only from the screen. The screen is that of
-- the display asked for, or of the configured one if the client may not select it or asks for 0. If
-- there is such an image and it has at most 1073741824 bytes, the status 1, the length and the bytes
-- go out; if it is longer, or there is none, only the status 2, and the request fails.
pub get_image_common-SendsImage :
    (env : Env) (desktop : Desktop) (mode disp : ℕ) (w : World)
    → IsHealthy w
    → Answers
        (image_for env.configuration desktop mode disp)
        w
        (get_image_common (with_desktop env desktop) mode disp w)
unfolding get_image_common
get_image_common-SendsImage env desktop mode disp w h =
    go (image_for env.configuration desktop mode disp)
      (get_image env.configuration desktop mode disp)
      (get_image-image_for env.configuration desktop mode disp) refl
  where
    images : List (Option (List ℕ))
    images = sources mode (desktop.xclip_out (some (codes "image/png"))) (
        desktop.screenshot
          (display_for env.configuration.client_selects_display env.configuration.display disp))

    go :
        (o p : Option (List ℕ))
        → p ≡ o
        → first_image images ≡ o
        → Answers o w (
            (elim p as (λ k. Exec World (Unit {0})) [
              | none ↦ no_data
              | some buf ↦
                  if is_sendable buf
                  then write_bytes (status_ok ∷ []) >> send_data (pos (length buf)) buf
                  else no_data
            ])
              w)
    go none p e d = rw e (no_data_sent w h)
    go (some buf) p e d =
        let long : 8 < length buf = first_image-long images buf d in
        elim (Bool-cases (leb (length buf) 1073741824)) [
          | inl k ↦
              let sendable : is_sendable buf ≡ true = ground arith in
              rw (e, sendable) (inl (ground arith, image_sent buf w h))
          | inr k ↦
              let unsendable : is_sendable buf ≡ false = ground arith in
              rw (e, unsendable) (inr (ground arith, no_data_sent w h))
        ]
