-- ===== src/Tests/Programs.antt =====
-- The programs of src/client.cpp and src/recover.cpp with a new server, and a server with its
-- threads, for src/server_th.cpp.
use muse_kv.Prelude.{◌≡◌, refl, true, false, Option, none, some, [], ◌∷◌, map}
use muse_kv.Prelude.Int.{ℤ, pos}
use muse_kv.Text.{Text, count}
use muse_kv.Encrypt.{c_string}
use muse_kv.Command.{confirm}
use muse_kv.Command.Files
use muse_kv.Command.Files.{render}
use muse_kv.Command.Dispatch.{codes, select, is_magic}
use muse_kv.Command.Spec.{act, makes}
use muse_kv.Command.Refines.Run.{acts_on_key}
use muse_kv.Command.Refines.Session.{is_local, is_local_args, play, play_args, play_here, play_all}
use muse_kv.Command.Refines.Served.{Shows}
use muse_kv.Server.{Socket, Dial, no_socket, setup}
use muse_kv.Server.Scan.{contains}
use muse_kv.Server.Channel.{is_own, request, IsSent}
use muse_kv.Server.Threads.{World, start, server_accept, server_task, new_socket, Outside, scans}
use muse_kv.Tests.Sessions.{
  make_line, slot, last, empty, named, no_file, empty-Shows, make-words, slot-near,
}

abbrev pub nowhere : Text → ℤ → Dial
nowhere ip port = no_socket

abbrev pub silent : ℤ → Text → Option Text
silent fd line = none

abbrev pub owner : Socket
owner = record { online = true; auto_send_yes = true; auth = pos 2 }

pub line-IsSent :
    IsSent nowhere (λ fd. true) silent no_file no_file 100 100 slot (pos 0) last owner make_line
unfolding is_local is_local_args is_magic select acts_on_key count c_string
line-IsSent = record {
  free = refl;
  local = rw make-words refl;
  text = refl;
  some_text = refl;
  short = refl;
  stays = refl;
}

pub line-play :
    play_all slot
      (pos 0)
      last
      (map (request nowhere (λ fd. true) silent no_file no_file 100 100 owner) (make_line ∷ []))
      empty
    ≡ some (confirm ∷ [], named)
unfolding play_all play play_args play_here is_magic select act makes
line-play = rw (make-words, slot-near) refl

pub server-Shows : Shows slot (pos 0) last (setup 5000).server_hash empty
unfolding setup
server-Shows = empty-Shows

pub confirm-is_own : is_own (render confirm) ≡ true
unfolding is_own render contains
confirm-is_own = refl

-- A client connects and sends "replicaaccept", and the thread that scans the line runs.
abbrev outside : Outside
outside = record {
  dial = nowhere;
  sends = λ fd. true;
  ask = silent;
  opened = true;
  file = none;
  curr_time = 100;
  timer = 100;
}

abbrev accepted : World
accepted = (server_accept (some 4) (start 5000)).0

abbrev told : World
told =
    server_task 0 (record { ss = new_socket; client_fd = 4; is_running = true })
      (some (codes "replicaaccept")) accepted

abbrev scanned : World
scanned = record {
  server = told.server;
  sock_vec =
      (
        0,
        record {
          ss = record new_socket { auto_send_yes = false };
          client_fd = 4;
          is_running = true;
        },
      )
      ∷ [];
  fresh = 1;
  scans = [];
}
