-- ===== src/Tests/Sessions.antt =====
-- A client that stores a name on a new server, for src/command.h, src/server_th.cpp, src/client.cpp
-- and src/recover.cpp.
use muse_kv.Prelude.{
  ℕ, ◌<◌, ◌≡◌, ◌⊎◌, get_or, refl, ◌∙◌, true, false, ◌||◌, none, some, [], ◌∷◌, arith, if◌then◌else◌,
}
use muse_kv.Prelude.Int.{ℤ, pos, ltb_ℤ}
use muse_kv.Text.{Text, count}
use muse_kv.Text.Equal.{◌===◌}
use muse_kv.Text.Words.{words, words-append, words-Free}
use muse_kv.Kv.{string}
use muse_kv.Hash
use muse_kv.Hash.{Hash, find_node, hash_func}
use muse_kv.Hash.Laws.{IsTable, new-IsTable, written, hash_func-lt}
use muse_kv.Command.{Command, Outcome, reply, confirm}
use muse_kv.Command.Files
use muse_kv.Command.Files.{render}
use muse_kv.Command.Dispatch.{Op, codes, select, is_magic, run, execute}
use muse_kv.Command.Spec.{act, makes}
use muse_kv.Command.Refines.{Does}
use muse_kv.Command.Refines.Run.{acts_on_key, run_refines}
use muse_kv.Command.Refines.Session.{
  Request, Cells, is_local, is_local_args, play, play_args, play_here, play_all, serve,
}
use muse_kv.Command.Refines.Served.{Shows, Session, session_refines}
use muse_kv.Command.Safe.{Safe, op_of, execute-Safe}

abbrev pub table : Hash
table = Hash.new 5000

abbrev pub name : Text
name = codes "name"

abbrev pub make_line : Text
make_line = codes "make name ann"

abbrev make_name : Command
make_name = record { args = codes "make" ∷ name ∷ codes "ann" ∷ []; auth = 2 }

abbrev pub no_file : Command → Hash → Outcome
no_file c h = reply confirm h

pub table-IsTable : IsTable table
table-IsTable = (new-IsTable 5000).1

run_refines_example :
    Does name table
      (run no_file no_file 100 100 Op.make make_name table)
      (act 100 100 make_name (find_node name table) Op.make)
unfolding acts_on_key
run_refines_example = run_refines 100 100 make_name table table-IsTable no_file no_file Op.make refl

execute-Safe_example :
    Safe
      (op_of (words make_line))
      (get_or (words make_line) 1 [])
      table
      (execute (Files.save true) (Files.read none) 100 100 make_line 2 table)
execute-Safe_example = execute-Safe true none 100 100 make_line 2 table table-IsTable

abbrev pub slot : Text → ℕ
slot j = hash_func j table

abbrev pub last : ℤ
last = pos 10006

-- the cells before the line and after it
abbrev pub empty : Cells
empty j = none

abbrev pub named : Cells
named j = if name === j then some (written name (string (codes "ann")) 0 2 none) else none

pub empty-Shows : Shows slot (pos 0) last table empty
unfolding Hash.new
empty-Shows = record {
  sees = (new-IsTable 5000).0;
  is = table-IsTable;
  slots = λ j. refl;
  from = refl;
  to = refl;
}

abbrev pub request : Request
request = record { line = make_line; auth = 2; curr_time = 100; timer = 100 }

pub make-words : words make_line ≡ codes "make" ∷ name ∷ codes "ann" ∷ []
make-words =
    words-append (codes "make") (codes "name ann")
    ∙ rw
        (
          words-append name (codes "ann"),
          words-Free (codes "make") (unfold count in refl) (λ q. cc),
          words-Free name (unfold count in refl) (λ q. cc),
          words-Free (codes "ann") (unfold count in refl) (λ q. cc),
        )
        refl

pub slot-near : (ltb_ℤ (pos (slot name)) (pos 0) || ltb_ℤ last (pos (slot name))) ≡ false
unfolding Hash.new
slot-near =
    let h : hash_func name table < 10007 = hash_func-lt name table (omega arith) in
    ground (arith, h)

pub request-is_local : is_local request ≡ true
unfolding is_local is_local_args is_magic select acts_on_key
request-is_local = rw make-words refl

pub request-play : play slot (pos 0) last request empty ≡ some (confirm, named)
unfolding play play_args play_here is_magic select act makes
request-play = rw (make-words, slot-near) refl

session_refines_example :
    Session slot
      (pos 0)
      last
      (serve no_file no_file (request ∷ []) table)
      (play_all slot (pos 0) last (request ∷ []) empty)
    ⊎ ((serve no_file no_file (request ∷ []) table ≡ none)
        × (play_all slot (pos 0) last (request ∷ []) empty ≡ none))
session_refines_example =
    session_refines slot (pos 0) last no_file no_file (request ∷ []) table empty
      (request-is_local, tt) empty-Shows
