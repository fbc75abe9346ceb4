-- ===== src/Tests/Store.antt =====
-- A table with one key, and commands for it.
use muse_kv.Prelude.{◌≡◌, refl, sym, ◌∙◌, subst, some, [], ◌∷◌, if◌then◌else◌, arith}
use muse_kv.Text.{Text}
use muse_kv.Text.Equal.{◌===◌}
use muse_kv.Kv
use muse_kv.Kv.{Kv, Value, string, list, uint8}
use muse_kv.Hash
use muse_kv.Hash.{Hash}
use muse_kv.Hash.Laws.{IsTable, Deleted, written, set-find_node, del-find_node, new-IsTable}
use muse_kv.Hash.Expire.{Expires, expire_round, expire_round-Expires}
use muse_kv.Command.{Command, confirm, no_such_key, text, Outcome, reply}
use muse_kv.Command.Keys
use muse_kv.Command.Dispatch
use muse_kv.Command.Dispatch.{Op, codes, run}
use muse_kv.Command.Access.{Keeps, Guarded}
use muse_kv.Command.Access.Writes
use muse_kv.Command.Access.Writes.{write_denied}
use muse_kv.Command.Access.Reads.{Refused, read_denied}
use muse_kv.Command.Effects.{make_lem, reply_of, expired_key, MayWrite}
use muse_kv.Command.Effects.Quiet.{Quiet}
use muse_kv.Command.Effects.Reads.{read_lasts}

abbrev key : Text
key = codes "fruit"

abbrev fresh : Hash
fresh = Hash.new 8000

-- the key with a list, and the levels 3 and 5
abbrev store : Hash
store = Hash.set key (list (codes "fig" ∷ [])) 3 5 fresh

abbrev node : Kv
node = Kv.new key (list (codes "fig" ∷ [])) 3 5

fresh-IsTable : IsTable fresh
fresh-IsTable = (new-IsTable 8000).1

store-IsTable : IsTable store
store-IsTable = (set-find_node key (list (codes "fig" ∷ [])) 3 5 fresh fresh-IsTable).1

store-found : Hash.find_node key store ≡ some node
unfolding written
store-found =
    (set-find_node key (list (codes "fig" ∷ [])) 3 5 fresh fresh-IsTable).0 key
    ∙ rw ((new-IsTable 8000).0 key, written) refl

abbrev no_file : Command → Hash → Outcome
no_file c h = reply confirm h

-- lpush fruit pear and lget fruit 0, from a client of level 1
abbrev lpush_pear : Command
lpush_pear = record { args = codes "lpush" ∷ key ∷ codes "pear" ∷ []; auth = 1 }

abbrev lget_first : Command
lget_first = record { args = codes "lget" ∷ key ∷ codes "0" ∷ []; auth = 1 }

write-Guarded : Guarded 100 lpush_pear store (λ n. n.authw)
unfolding Kv.new Kv.is_expired Kv.is_minus_one
write-Guarded = record { node = node; found = store-found; live = refl; above = refl }

read-Guarded : Guarded 100 lget_first store (λ n. n.authr)
unfolding Kv.new Kv.is_expired Kv.is_minus_one
read-Guarded = record { node = node; found = store-found; live = refl; above = refl }

write_denied_example : Keeps store (run no_file no_file 100 100 Op.lpush lpush_pear store)
unfolding Dispatch.op_kind Writes.reads_number
write_denied_example =
    write_denied no_file no_file 100 100 lpush_pear store write-Guarded Op.lpush refl
      (λ e. ground (arith, e)) (λ e. ground (arith, e))

read_denied_example : Refused store (run no_file no_file 100 100 Op.lget lget_first store)
unfolding Dispatch.op_kind
read_denied_example =
    read_denied no_file no_file 100 100 lget_first store read-Guarded Op.lget refl
      (λ e. ground (arith, e)) (λ e. ground (arith, e))

read_lasts_example : Quiet 100 store (run no_file no_file 100 100 Op.lget lget_first store)
unfolding Dispatch.op_kind
read_lasts_example =
    read_lasts 100 store store-IsTable no_file no_file 100 lget_first Op.lget refl
      (λ e. ground (arith, e)) (λ e q. ground (arith, q)) (λ e. absurd (ground (arith, e)))

-- make name ann and get name
abbrev make_name : Command
make_name = record { args = codes "make" ∷ codes "name" ∷ codes "ann" ∷ []; auth = 2 }

abbrev get_name : Command
get_name = record { args = codes "get" ∷ codes "name" ∷ []; auth = 0 }

make_lem_example :
    (h' : Hash) × (Keys.make make_name fresh ≡ some (confirm, h'))
    × (reply_of (Keys.get 100 get_name h')
        ≡ some (
            if expired_key 100 (codes "name") fresh
            then no_such_key (codes "name")
            else text (codes "ann")))
make_lem_example =
    make_lem make_name get_name 100 fresh fresh-IsTable refl
      (subst (MayWrite make_name) (sym ((new-IsTable 8000).0 (codes "name"))) tt) refl

set-find_node_example :
    ((j : Text)
      → Hash.find_node j (Hash.set (codes "name") (string (codes "ann")) 0 2 store) ≡ (
          if codes "name" === j
          then some (
              written
                (codes "name")
                (string (codes "ann"))
                0
                2
                (Hash.find_node (codes "name") store))
          else Hash.find_node j store))
    × IsTable (Hash.set (codes "name") (string (codes "ann")) 0 2 store)
set-find_node_example = set-find_node (codes "name") (string (codes "ann")) 0 2 store store-IsTable

del-find_node_example : Deleted key store
del-find_node_example = del-find_node key store node store-found store-IsTable

expire_round_example : Expires (λ i. 100) store (expire_round (λ i. 100) 7 store)
expire_round_example = expire_round-Expires (λ i. 100) 7 store store-IsTable
