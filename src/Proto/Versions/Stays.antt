-- ===== src/Proto/Versions/Stays.antt =====
-- Where a request can write, through `server` of src/proto/server.c.
use clip_share_server.Exec.{Exec}
use clip_share_server.World.{World}
use clip_share_server.Proto.Upload.Stays.{Stays}
