-- ===== src/Proto/Versions/ReadOnly.antt =====
-- Which requests can change anything besides the connection: `version_1` to `version_4` and
-- `server` of src/proto/versions.c and server.c with the sending methods switched off.
use clip_share_server.Prelude.{
  ℕ, ◌≡◌, refl, sym, ap, ◌∙◌, Bool, true, false, [], ◌∷◌, Bool-cases, inl, inr, if◌then◌else◌, ltb,
  leb, ◌==◌, ◌%◌,
}
use clip_share_server.Exec.{Exec, ◌>>◌, pure, anyway}
use clip_share_server.Config.{off}
use clip_share_server.World.{Env, World, write_bytes, read_bytes, close_no_wait, is_set}
use clip_share_server.World.Keeps.{Keeps, outcome, bind-Keeps, then-Keeps, if-Keeps}
use clip_share_server.Proto.Text.{byte_of}
use clip_share_server.Proto.Transfer.{get_files_v1, get_files_v2, get_files_v3}
use clip_share_server.Proto.Image.{
  get_image_v1, get_copied_image_v3, get_screenshot_v3, get_image_v4, get_copied_image_v4,
  get_screenshot_v4, get_image_common, get_screenshot_common,
}
use clip_share_server.Proto.Versions.{
  Method, get_text, send_text, get_file, send_file, get_image, get_copied_image, get_screenshot,
  get_any, info, unknown, method_of, is_enabled, dispatch_1, dispatch_2, dispatch_3, dispatch_4,
  run_enabled, version, run_version, settle, negotiate, answer_version, server,
}
use clip_share_server.Proto.Versions.ReadsAny.{get_any_v4-Keeps}
use clip_share_server.Proto.Versions.Reads.{
  get_text_v1-Keeps, get_text_v4-Keeps, info_v1-Keeps, info_v4-Keeps, get_files_common-Keeps,
  get_files_v4-Keeps, get_image_common-Keeps, get_screenshot_common-Keeps, with_ack,
}

-- The methods by which a client sends nothing to be kept.
abbrev pub only_reads : Method → Bool
only_reads get_text = true
only_reads send_text = false
only_reads get_file = true
only_reads send_file = false
only_reads get_image = true
only_reads get_copied_image = true
only_reads get_screenshot = true
only_reads get_any = true
only_reads info = true
only_reads unknown = true

abbrev pub KeepsReads : (Method → Exec World (Unit {0})) → Type 0
KeepsReads dispatch = (m : Method) → only_reads m ≡ true → Keeps (dispatch m)

module _ (env : Env) where
  pub dispatch_1-Keeps : KeepsReads (dispatch_1 env)
  unfolding dispatch_1 get_files_v1 get_image_v1
  dispatch_1-Keeps get_text h = get_text_v1-Keeps env
  dispatch_1-Keeps send_text h = cc
  dispatch_1-Keeps get_file h =
      get_files_common-Keeps env 1 (record { lst = env.copied_files; path_len = 0 })
  dispatch_1-Keeps send_file h = cc
  dispatch_1-Keeps get_image h = get_image_common-Keeps env 0 0
  dispatch_1-Keeps get_copied_image h = λ w. refl
  dispatch_1-Keeps get_screenshot h = λ w. refl
  dispatch_1-Keeps get_any h = λ w. refl
  dispatch_1-Keeps info h = info_v1-Keeps env
  dispatch_1-Keeps unknown h = λ w. refl

  pub dispatch_2-Keeps : KeepsReads (dispatch_2 env)
  unfolding dispatch_2 get_files_v2 get_image_v1
  dispatch_2-Keeps get_text h = get_text_v1-Keeps env
  dispatch_2-Keeps send_text h = cc
  dispatch_2-Keeps get_file h = get_files_common-Keeps env 2 (env.copied_dirs_files false)
  dispatch_2-Keeps send_file h = cc
  dispatch_2-Keeps get_image h = get_image_common-Keeps env 0 0
  dispatch_2-Keeps get_copied_image h = λ w. refl
  dispatch_2-Keeps get_screenshot h = λ w. refl
  dispatch_2-Keeps get_any h = λ w. refl
  dispatch_2-Keeps info h = info_v1-Keeps env
  dispatch_2-Keeps unknown h = λ w. refl

  pub dispatch_3-Keeps : KeepsReads (dispatch_3 env)
  unfolding dispatch_3 get_files_v3 get_image_v1 get_copied_image_v3 get_screenshot_v3
  dispatch_3-Keeps get_text h = get_text_v1-Keeps env
  dispatch_3-Keeps send_text h = cc
  dispatch_3-Keeps get_file h = get_files_common-Keeps env 3 (env.copied_dirs_files true)
  dispatch_3-Keeps send_file h = cc
  dispatch_3-Keeps get_image h = get_image_common-Keeps env 0 0
  dispatch_3-Keeps get_copied_image h = get_image_common-Keeps env 1 0
  dispatch_3-Keeps get_screenshot h = get_screenshot_common-Keeps env
  dispatch_3-Keeps get_any h = λ w. refl
  dispatch_3-Keeps info h = info_v1-Keeps env
  dispatch_3-Keeps unknown h = λ w. refl

  pub dispatch_4-Keeps : KeepsReads (dispatch_4 env)
  unfolding dispatch_4 get_image_v4 get_image_v1 get_copied_image_v4 get_screenshot_v4
  dispatch_4-Keeps get_text h = get_text_v4-Keeps env
  dispatch_4-Keeps send_text h = cc
  dispatch_4-Keeps get_file h = get_files_v4-Keeps env
  dispatch_4-Keeps send_file h = cc
  dispatch_4-Keeps get_image h =
      with_ack (get_image_common env 0 0) (get_image_common-Keeps env 0 0)
  dispatch_4-Keeps get_copied_image h =
      with_ack (get_image_common env 1 0) (get_image_common-Keeps env 1 0)
  dispatch_4-Keeps get_screenshot h =
      with_ack (get_screenshot_common env) (get_screenshot_common-Keeps env)
  dispatch_4-Keeps get_any h = get_any_v4-Keeps env
  dispatch_4-Keeps info h = info_v4-Keeps env
  dispatch_4-Keeps unknown h = λ w. refl

  module _ (no_text : env.configuration.method_enabled.send_text ≡ off)
      (no_files : env.configuration.method_enabled.send_files ≡ off) where
    only_reads_enabled :
        (m : Method) → is_enabled env.configuration.method_enabled m ≡ true → only_reads m ≡ true
    unfolding is_enabled
    only_reads_enabled get_text h = refl
    only_reads_enabled send_text h = sym (ap is_set no_text) ∙ h
    only_reads_enabled get_file h = refl
    only_reads_enabled send_file h = sym (ap is_set no_files) ∙ h
    only_reads_enabled get_image h = refl
    only_reads_enabled get_copied_image h = refl
    only_reads_enabled get_screenshot h = refl
    only_reads_enabled get_any h = refl
    only_reads_enabled info h = refl
    only_reads_enabled unknown h = refl

    run_enabled-Keeps :
        (dispatch : Method → Exec World (Unit {0})) (m : Method)
        → KeepsReads dispatch
        → Keeps (run_enabled env dispatch m)
    unfolding run_enabled
    run_enabled-Keeps dispatch m k =
        elim (Bool-cases (is_enabled env.configuration.method_enabled m)) [
          | inl e ↦ rw e (k m (only_reads_enabled m e))
          | inr e ↦ rw e (λ w. refl)
        ]

    version-Keeps :
        (dispatch : Method → Exec World (Unit {0}))
        → KeepsReads dispatch
        → Keeps (version env dispatch)
    unfolding version
    version-Keeps dispatch k =
        bind-Keeps (read_bytes 1) _ (λ w. refl)
          (λ buf. run_enabled-Keeps dispatch (method_of (byte_of buf)) k)

    run_version-Keeps : (v : ℕ) → Keeps (run_version env v)
    unfolding run_version
    run_version-Keeps v =
        let v1 = version env (dispatch_1 env) in
        let v2 = version env (dispatch_2 env) in
        let v3 = version env (dispatch_3 env) in
        let v4 = version env (dispatch_4 env) in
        let r4 : Exec World (Unit {0}) = if v == 4 then v4 else pure tt in
        let r3 = if v == 3 then v3 else r4 in
        let r2 = if v == 2 then v2 else r3 in
        if-Keeps (v == 1) v1 r2 (version-Keeps (dispatch_1 env) dispatch_1-Keeps) (
          if-Keeps (v == 2) v2 r3 (version-Keeps (dispatch_2 env) dispatch_2-Keeps) (
            if-Keeps (v == 3) v3 r4 (version-Keeps (dispatch_3 env) dispatch_3-Keeps) (
              if-Keeps (v == 4) v4 (pure tt) (version-Keeps (dispatch_4 env) dispatch_4-Keeps)
                (λ w. refl))))

    settle-Keeps : (max_version v : ℕ) → Keeps (settle env max_version v)
    unfolding settle
    settle-Keeps max_version v =
        if-Keeps (v == max_version) (run_version env v) close_no_wait (run_version-Keeps v)
          (λ w. refl)

    negotiate-Keeps : (max_version : ℕ) → Keeps (negotiate env max_version)
    unfolding negotiate
    negotiate-Keeps max_version =
        bind-Keeps (write_bytes (3 ∷ [])) _ (λ w. refl)
          (λ _.
            bind-Keeps (write_bytes (max_version % 256 ∷ [])) _ (λ w. refl)
              (λ _.
                bind-Keeps (read_bytes 1) _ (λ w. refl)
                  (λ buf. settle-Keeps max_version (byte_of buf))))

    answer_version-Keeps : (v : ℕ) → Keeps (answer_version env v)
    unfolding answer_version
    answer_version-Keeps v =
        let old = anyway (write_bytes (2 ∷ [])) close_no_wait in
        let go = write_bytes (1 ∷ []) >> run_version env v in
        let newer = negotiate env env.configuration.max_proto_version in
        if-Keeps (ltb v env.configuration.min_proto_version) old
          (if leb v env.configuration.max_proto_version then go else newer) (λ w. refl)
          (if-Keeps (leb v env.configuration.max_proto_version) go newer
            (then-Keeps (write_bytes (1 ∷ [])) (run_version env v) (λ w. refl)
              (run_version-Keeps v))
            (negotiate-Keeps env.configuration.max_proto_version))

    -- With `method_send_text_enabled` and `method_send_files_enabled` off, no request changes a
    -- file or the clipboard: whatever the client sends and whatever the system answers, `server`
    -- leaves the list of changes, the pasted text and the cut files as they were.
    pub server_read_only : (w : World) → outcome (server env w).1 ≡ outcome w
    unfolding server
    server_read_only =
        bind-Keeps (read_bytes 1) _ (λ w. refl) (λ buf. answer_version-Keeps (byte_of buf))
