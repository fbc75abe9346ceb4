-- ===== src/Server/Threads/Invariant.antt =====
-- What is true of a server whatever its clients send, in whatever order its threads run:
-- src/server_th.cpp and src/server.cpp.
use muse_kv.Prelude.{length}
use muse_kv.Text.{Text}
use muse_kv.Server.{Server}
use muse_kv.Server.Sound.{IsServer}
use muse_kv.Server.Threads.{World}

-- A world whose server has the connections of its vector.
abbrev pub IsWorld : World → Type 0
IsWorld w = IsServer (length w.sock_vec) w.server
