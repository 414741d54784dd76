-- ===== src/Lib.antt =====
-- ClipShare server: a model of the program in src/ and its properties. The server shares the
-- clipboard, files and screenshots with clients over TCP or TLS.
--
-- The build that is modelled is the one for Linux with TLS, the web server and a desktop, and with
-- it what the build without a screen (HEADLESS) has in place of the desktop.
-- PROTOCOL_MIN is 1, PROTOCOL_MAX is 4, the path separator is '/'.
--
-- The parts of the program and the files that model them:
--   src/utils/list_utils.c     ListUtils: `list2`, `init_list`, `append`.
--   src/utils/net_utils.c, .h  Net/Socket: the type masks and the byte streams of a connection;
--                              Net/Transfer: `read_sock`, `write_sock` and what they call;
--                              Net/Size: `send_size`, `read_size`;
--                              Net/Connection: `get_connection`, `check_peer_certs`,
--                              `_close_socket`.
--   src/utils/utils.c          Utils/Eol: `convert_eol`; Utils/Url: `url_encode`, `url_decode`;
--                              Utils/Dirs: `_mkdir_check`, `mkdirs`, `list_dir`;
--                              Utils/Desktop: the clipboard and the screen, `get_copied_type`
--                              to `set_clipboard_cut_files`; Utils/Copied: `get_copied_files`,
--                              `get_copied_dirs_files`, `_process_path`, `_recurse_dir`;
--                              Utils/Headless: the same functions for HEADLESS, and
--                              `get_data_dir`; Utils/MemFile: `png_mem_write_data`.
--   src/utils/config.c         Config/Trim, Values, Files, Line, Conf: the functions of the file
--                              in its order, from `trim` to `clear_config`.
--   src/main.c                 Config/Defaults: `_apply_default_conf`; Start/Paths:
--                              `_set_error_log_file`, `get_user_home`, `get_conf_file`,
--                              `_change_working_dir`; Start/Launch: `_parse_args`,
--                              `start_servers`, `main`.
--   src/utils/kill_others.c    Start/Kill: `kill_other_processes`.
--   src/proto/methods.c        Proto/Text: the text methods, the acknowledgements and `info`;
--                              Proto/Transfer: sending files, over Utils/Copied in
--                              Proto/Transfer/Copied; Proto/Image: images, screenshots
--                              and `get_any`, over Utils/Desktop in Proto/Image/Sources;
--                              Proto/Save: receiving one file; Proto/Upload:
--                              `send_file_v1` and `_send_files_dirs`.
--   src/proto/versions.c       Proto/Versions: `check_method_enabled`, `version_1` to
--   src/proto/server.c         `version_4`, and `server`.
--   src/servers/clip_share.c   Servers/Children: the count of child processes in the accept loop
--                              and in `decrement_req_cnt`, as a step relation; Servers/Listen:
--                              `clip_share` in front of the loop, with `open_listener_socket`,
--                              `bind_socket`, `bind_udp` and `iterate_interfaces` of net_utils.c.
--   src/servers/udp_serve.c    Servers/Listen: `udp_server` in front of its loop, and the answer
--                              to a datagram.
--   src/servers/clip_share_web.c
--                              Servers/Web: `receiver_web`; Servers/Listen: `web_server`.
--
-- How they interact: `main` chooses and reads the configuration, sends SIGTERM to other instances and starts
-- the servers, each of which opens a listener and hands its connections to `server` or to
-- `receiver_web`. `server` reads the version byte, the versions read the method byte and call
-- a method of methods.c, and the methods work on the socket through net_utils.c and on files
-- through utils.c. In the model a function that returns EXIT_SUCCESS or EXIT_FAILURE is a state
-- transformer with an optional result (Exec); its state is a Socket for net_utils.c and a World
-- for the methods: the socket, the list of the changes of the file system that were made, what was
-- put on the clipboard, and whether the handler came to a halt. The peer is a script of the
-- chunks and errors that the calls meet. The desktop and the file system answer through the
-- record Env, the libraries used by config.c through Outside; an answer about files may depend on
-- all changes made before. Numbers are unbounded, and where a C type wraps the model writes it
-- out.
--
-- Bounds and fuel: `read_sock` and `write_sock` run on 12 rounds for each byte and 13 more, since
-- a round without progress is allowed eleven times in a row. The loops over files run on fuel
-- above the number of their blocks, the loops of the web server on fuel above the number of the
-- client's bytes and events and on 52 rounds for each byte of a body, the walk through directories
-- on the depth of 256 that the code allows, the search for a free name on 1000001 rounds, after which the
-- code gives up too, and the choice of a temporary directory on 2^31 draws.
--
-- What is not modelled: the allocation of memory (every malloc succeeds, except where an argument
-- says otherwise), what fclose() does to the bytes that
-- fwrite() counted when files are received, debug output and the error log, signal handlers, the tray icon, the set-up of
-- OpenSSL, and the code for other platforms. Of the build without a screen, `cleanup_cur_dir`, which
-- removes what list_dir() gives with nftw(), is left out. src/xclip, a copy of another project, and src/xscreenshot are the parameter
-- Desktop: what they give for a target or a display.
pub mod Prelude
pub mod Exec
pub mod ListUtils
pub mod Net
pub mod Utils
pub mod Config
pub mod World
pub mod Proto
pub mod Servers
pub mod Start
mod Tests
