-- ===== src/Tests/Remote.antt =====
-- Two servers that share the slots, and a client at the one that does not have the slot of its key,
-- for src/server_th.cpp.
use muse_kv.Prelude.{
  ◌+◌, ◌≡◌, refl, sym, ◌∙◌, ◌||◌, subst, true, false, Option, some, [], ◌∷◌, arith, some-pair,
}
use muse_kv.Prelude.Int.{ℤ, pos, ltb_ℤ}
use muse_kv.Text.{Text, count}
use muse_kv.Hash
use muse_kv.Hash.Frame.{hash_func-table_s}
use muse_kv.Command.{confirm}
use muse_kv.Command.Files.{render}
use muse_kv.Command.Dispatch.{codes, is_magic, execute}
use muse_kv.Command.Refines.Served.{Serves, line_serves}
use muse_kv.Command.Refines.Session.{play}
use muse_kv.Server.{Server, setup}
use muse_kv.Server.Scan.{target, scan_and_send}
use muse_kv.Server.Remote.{answer_to, passed_on, relayed, scan_and_send-remote}
use muse_kv.Tests.Sessions.{
  make_line, name, slot, last, empty, named, no_file, make-words, request, request-play,
  request-is_local, table,
}
use muse_kv.Tests.Programs.{nowhere, silent, owner, server-Shows, confirm-is_own}

abbrev far : Server
far = setup 5000

-- It has the slots behind that of the name, and one connection, to the server of the others.
abbrev near : Server
near = record (setup 5001) {
  server_hash = Hash.set_boundary (pos (slot name + 1)) last (setup 5001).server_hash;
  cluster_vec = pos 4 ∷ [];
  slot_start = pos 0 ∷ [];
  slot_end = pos (slot name) ∷ [];
  cluster_num = 1;
}

-- what the connection carries
abbrev wire : ℤ → Text → Option Text
wire fd sent = answer_to no_file no_file 100 100 nowhere (λ d. true) silent far owner sent

far_serves :
    Serves slot
      (pos 0)
      last
      (execute no_file no_file 100 100 make_line 2 far.server_hash)
      (play slot (pos 0) last request empty)
far_serves =
    line_serves slot (pos 0) last no_file no_file request far.server_hash empty (confirm, named)
      request-is_local server-Shows request-play

far-runs :
    execute no_file no_file 100 100 make_line 2 far.server_hash ≡ some (confirm, far_serves.h)
far-runs =
    let (same, end) =
      some-pair far_serves.says confirm far_serves.m named (sym far_serves.plays ∙ request-play) in
    subst
      (λ r. execute no_file no_file 100 100 make_line 2 far.server_hash ≡ some (r, far_serves.h))
      same far_serves.runs

make-target : target near (pos (slot name)) ≡ some (pos 4)
unfolding target
make-target = ground arith

make-Free : count 8 make_line ≡ 0
unfolding count
make-Free = refl

make-own : is_magic (codes "make") ≡ false
unfolding is_magic
make-own = refl

name-IsOutside :
    (ltb_ℤ (pos (slot name)) (pos (slot name + 1)) || ltb_ℤ last (pos (slot name))) ≡ true
name-IsOutside = ground arith

near-slot : Hash.hash_func name near.server_hash ≡ slot name
unfolding setup Hash.set_boundary Hash.new
near-slot = sym (hash_func-table_s name near.server_hash table refl)

scan_and_send-remote_example :
    scan_and_send nowhere (λ d. true) wire no_file no_file 100 100 near owner make_line
    ≡ some (relayed near owner (pos 4) (passed_on make_line 2) (render confirm))
unfolding setup Hash.set_boundary Hash.new
scan_and_send-remote_example =
    scan_and_send-remote no_file no_file 100 100 nowhere (λ d. true) wire near owner silent far
      owner make_line (codes "make") name (codes "ann" ∷ []) 2 (pos 4) confirm far_serves.h
      make-Free make-words make-own refl (rw near-slot name-IsOutside) (rw near-slot make-target)
      (λ sent. refl) far-runs confirm-is_own
