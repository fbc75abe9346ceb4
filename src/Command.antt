-- ===== src/Command.antt =====
-- src/command.h and src/command.cpp: the state of a command, its replies, and what the handlers
-- have in common.
pub mod Keys
pub mod Lists
pub mod Sets
pub mod Maps
pub mod Dispatch
pub mod Files
pub mod Spec
pub mod Refines
pub mod Access
pub mod Kinds
pub mod Effects
pub mod Safe
use muse_kv.Prelude.{
  ℕ, Bool, true, false, Option, none, some, List, [], ◌∷◌, ◌++◌, ltb, if◌then◌else◌, length, get_or,
  drop,
}
use muse_kv.Prelude.Int.{ℤ}
use muse_kv.Text.{Text, comma, merge}
use muse_kv.Kv
use muse_kv.Kv.{Kv, Value}
use muse_kv.Hash
use muse_kv.Hash.{Hash}

-- `args` after `split`, whose length is `num_args`, and the level of the client
pub record Command : Type 0 where
  pub args : List Text
  pub auth : ℕ

abbrev pub num_args : Command → ℕ
num_args c = length c.args

abbrev pub arg : Command → ℕ → Text
arg c i = get_or c.args i []

-- The texts that a handler returns, by their kinds.
pub data Reply : Type 0 where
  confirm invalid_command denied invalid_type invalid_auth invalid_time invalid_index : Reply
  empty_list empty_hashmap no_file fail_to_read : Reply
  no_such_key no_such_element no_such_field text : Text → Reply
  number : ℤ → Reply
  redirect : ℕ → Reply
  magic : Text → Reply

-- A handler's reply with the store that it leaves; `none` is a crash of the server.
abbrev pub Outcome : Type 0
Outcome = Option (Reply × Hash)

abbrev pub reply : Reply → Hash → Outcome
reply r h = some (r, h)

-- `h->del(k); return "ERROR : NO SUCH KEY ..."`
unfoldable pub drop_expired : Text → Option Hash → Outcome
drop_expired k none = none
drop_expired k (some h) = reply (no_such_key k) h

-- the test of an expired node, and the rest of the handler
unfoldable pub unless_expired : Text → ℕ → Hash → Kv → (Kv → Outcome) → Outcome
unfolding drop_expired
unless_expired k curr_time h node rest =
    if Kv.is_expired curr_time node then drop_expired k (Hash.del k h) else rest node

-- `find_node`, the test for NULL and the test of an expired node
unfoldable pub with_live : Text → ℕ → Hash → (Kv → Outcome) → Outcome
unfolding unless_expired
with_live k curr_time h rest = elim (Hash.find_node k h) [
  | none ↦ reply (no_such_key k) h
  | some node ↦ unless_expired k curr_time h node rest
]

-- `find_node` and the test for NULL
unfoldable pub with_node : Text → Hash → (Kv → Outcome) → Outcome
with_node k h rest = elim (Hash.find_node k h) [
  | none ↦ reply (no_such_key k) h
  | some node ↦ rest node
]

-- `if(auth < level) return "ERROR : NOT ENOUGH PERMISSION"`
unfoldable pub permit : ℕ → ℕ → Hash → Outcome → Outcome
permit auth level h rest = if ltb auth level then reply denied h else rest

-- `if(node != NULL && auth < node->get_authw())`, before a make
unfoldable pub permit_make : Command → Hash → Outcome → Outcome
unfolding permit
permit_make c h rest = elim (Hash.find_node (arg c 1) h) [
  | none ↦ rest
  | some node ↦ permit c.auth node.authw h rest
]

-- the object of a node changed in place
abbrev pub put_value : Text → Value → Hash → Hash
put_value k v h = Hash.update_node k (Kv.set_v v) h

-- `args[from]` and those behind it, joined with commas as the make handlers do
abbrev pub joined_args : Command → ℕ → Text
joined_args c from = merge comma (drop from c.args)
