-- ===== src/Command/Files.antt =====
-- The handlers `save` and `read` of src/command.cpp, which fill the arguments of the dispatch, and
-- the texts of all replies.
use muse_kv.Prelude.{Bool, Option, none, some, ◌∷◌, ◌++◌, if◌then◌else◌}
use muse_kv.Text.{Text}
use muse_kv.Text.Number.{to_string, to_string_ℕ}
use muse_kv.Hash.{Hash}
use muse_kv.Snapshot
use muse_kv.Snapshot.{Read, crash, dangling, damaged, done}
use muse_kv.Command
use muse_kv.Command.{Command, arg, Reply, Outcome, reply, confirm, no_file, fail_to_read}
use muse_kv.Command.Dispatch.{codes}

-- what becomes of the file, if it can be opened
abbrev pub saved_file : Bool → Hash → Option Text
saved_file opened h = if opened then some (Snapshot.save h) else none

unfoldable pub save : Bool → Command → Hash → Outcome
save opened c h = reply (if opened then confirm else no_file) h

-- The run of the model ends at an address that points nowhere, which the code stores and reads on.
unfoldable pub after_read : Read → Outcome
after_read (done h) = reply confirm h
after_read (damaged h) = reply fail_to_read h
after_read crash = none
after_read (dangling h) = none

unfoldable pub read : Option Text → Command → Hash → Outcome
unfolding after_read
read file c h = after_read (Snapshot.read file (arg c 1) h)

abbrev named : Text → Text → Text
named what name = codes "ERROR : NO SUCH " ++ (what ++ (codes " (" ++ (name ++ codes ")")))

-- the text that the handlers return
unfoldable pub render : Reply → Text
render Command.confirm = codes "OK!"
render Command.invalid_command = codes "ERROR : INVALID COMMAND"
render Command.denied = codes "ERROR : NOT ENOUGH PERMISSION"
render Command.invalid_type = codes "ERROR : INVALID TYPE"
render Command.invalid_auth = codes "ERROR : INVALID AUTH"
render Command.invalid_time = codes "ERROR : INVALID TIME"
render Command.invalid_index = codes "ERROR : INVALID INDEX"
render Command.empty_list = codes "ERROR : EMPTY LIST"
render Command.empty_hashmap = codes "ERROR : EMPTY HASHMAP"
render Command.no_file = codes "ERROR : NO FILE"
render Command.fail_to_read = codes "ERROR : FAIL TO READ FILE"
render (Command.no_such_key k) = named (codes "KEY") k
render (Command.no_such_element e) = named (codes "ELEMENT") e
render (Command.no_such_field f) = named (codes "FIELD") f
render (Command.text t) = t
render (Command.number z) = to_string z
render (Command.redirect hash_val) = codes "hashval " ++ to_string_ℕ hash_val
render (Command.magic verb) = b' ' ∷ 8 ∷ verb
