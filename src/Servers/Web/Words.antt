-- ===== src/Servers/Web/Words.antt =====
-- How the words of a request are read.
use clip_share_server.Prelude.{
  ℕ, zero, suc, ◌<◌, ◌≡◌, ◌≢◌, inl, inr, refl, sym, ap, ◌∙◌, Bool, true, false, some, List, [], ◌∷◌,
  ◌++◌, append-nil, append_assoc, All, length, arith, ◌==◌, if◌then◌else◌, Bool-cases,
}
use clip_share_server.Exec.{continue, pure}
use clip_share_server.Net.Socket.{Event, chunk, recv, bytes, is_ssl}
use clip_share_server.Net.Transfer.{
  read_sock, read_loop, read_once, read_plain, read_ssl, got, finished, after_read,
}
use clip_share_server.Config.Files.{c_string}
use clip_share_server.Proto.Text.{byte_of}
use clip_share_server.World.{World, read_bytes}
use clip_share_server.Servers.Web.{space, read_word}
use clip_share_server.Servers.Web.Fuel.{reading}

-- The script behind the first byte of its first part.
abbrev pub left_of : List ℕ → List Event → List Event
left_of [] es = es
left_of (c ∷ cs) es = chunk (c ∷ cs) ∷ es

first_byte :
    (c : ℕ) (cs : List ℕ) (es : List Event)
    → recv 1 (chunk (c ∷ cs) ∷ es) ≡ (bytes (c ∷ []), left_of cs es)
unfolding recv
first_byte c [] es = refl
first_byte c (d ∷ cs) es = ground arith

once_got : (ssl : Bool) (c : ℕ) → read_once ssl (bytes (c ∷ [])) ≡ got (c ∷ [])
unfolding read_once read_plain read_ssl
once_got true c = refl
once_got false c = refl

read_loop_one :
    (n : ℕ) (ssl : Bool) (c : ℕ) (cs : List ℕ) (es : List Event)
    → read_loop (suc (suc n)) ssl 1 0 [] (chunk (c ∷ cs) ∷ es) ≡ finished (c ∷ []) (left_of cs es)
unfolding read_loop
read_loop_one n ssl c cs es =
    rw (read_loop, first_byte c cs es, once_got ssl c)
      (ap (λ r. finished (c ∷ []) r.1) (first_byte c cs es))

read_one :
    (w : World) (c : ℕ) (cs : List ℕ) (es : List Event)
    → w.socket.incoming ≡ chunk (c ∷ cs) ∷ es
    → read_bytes 1 w ≡ (some (c ∷ []), reading w (left_of cs es))
unfolding read_sock
read_one w c cs es e =
    ap (λ r. ((after_read w.socket r).0, record w { socket = (after_read w.socket r).1 }))
      (ap (λ t. read_loop 25 (is_ssl w.socket.type) 1 0 [] t) e
        ∙ read_loop_one 23 (is_ssl w.socket.type) c cs es)

pub still_some :
    (word rest : List ℕ) (es : List Event)
    → left_of (word ++ space ∷ rest) es ≡ chunk (word ++ space ∷ rest) ∷ es
still_some [] rest es = refl
still_some (c ∷ word) rest es = refl

no_space : (c : ℕ) → c ≢ space → (c == space) ≡ false
no_space c h = elim (Bool-cases (c == space)) [ inl e ↦ absurd (h (test_holds c e)) | inr e ↦ e ]
  where
    test_holds : (c : ℕ) → (c == space) ≡ true → c ≡ space
    test_holds c e = ground arith

word_round :
    (room : ℕ) (acc : List ℕ) (w : World) (c : ℕ) (cs : List ℕ) (es : List Event)
    → w.socket.incoming ≡ chunk (c ∷ cs) ∷ es
    → read_word (suc room) acc w
      ≡ (if c == space then pure (c_string acc) else read_word room (acc ++ c ∷ []))
          (reading w (left_of cs es))
unfolding read_word
word_round room acc w c cs es e =
    ap
      (λ r.
        continue r
          (λ b. if byte_of b == space then pure (c_string acc) else read_word room (acc ++ b)))
      (read_one w c cs es e)

-- A word and the space behind it, in the part that comes next.
pub read_word-reads :
    (room : ℕ) (acc word rest : List ℕ) (es : List Event) (w : World)
    → All (λ c. c ≢ space) word
    → length word < room
    → w.socket.incoming ≡ chunk (word ++ space ∷ rest) ∷ es
    → read_word room acc w ≡ (some (c_string (acc ++ word)), reading w (left_of rest es))
read_word-reads zero acc word rest es w h short e = absurd (omega arith)
read_word-reads (suc room) acc [] rest es w h short e =
    word_round room acc w space rest es e
    ∙ ap (λ t. (some (c_string t), reading w (left_of rest es))) (sym (append-nil acc))
read_word-reads (suc room) acc (c ∷ word) rest es w (h, hs) short e =
    word_round room acc w c (word ++ space ∷ rest) es e
    ∙ ap
        (λ b.
          (if b then pure (c_string acc) else read_word room (acc ++ c ∷ []))
            (reading w (left_of (word ++ space ∷ rest) es)))
        (no_space c h)
    ∙ read_word-reads room (acc ++ c ∷ []) word rest es
        (reading w (left_of (word ++ space ∷ rest) es)) hs (omega arith) (still_some word rest es)
    ∙ ap (λ t. (some (c_string t), reading w (left_of rest es))) (append_assoc acc (c ∷ []) word)
