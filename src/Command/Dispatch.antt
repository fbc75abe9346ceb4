-- ===== src/Command/Dispatch.antt =====
-- `execute` and `command_type` of src/command.h. The handlers of `save` and `read`, which work on
-- the snapshot file, are arguments.
use Prim.Native.Char.{code}
use Prim.Native.String.{String}
use muse_kv.Prelude.{ℕ, Bool, ◌&&◌, ◌||◌, List, [], ◌∷◌, ◌==◌, ltb, leb, if◌then◌else◌, length}
use muse_kv.Prelude.Int.{pos, ltb_ℤ}
use muse_kv.Text.{Text, space, split, trim}
use muse_kv.Text.Equal.{◌===◌}
use muse_kv.Hash
use muse_kv.Hash.{Hash}
use muse_kv.Command.{Command, num_args, arg, invalid_command, redirect, magic, Outcome, reply}
use muse_kv.Command.Keys
use muse_kv.Command.Lists
use muse_kv.Command.Sets
use muse_kv.Command.Maps

-- the bytes of a literal
abbrev pub codes : String → Text
codes String.[] = []
codes (String.◌∷◌ c s) = code c ∷ codes s

-- The handler that a command line selects.
pub data Op : Type 0 where
  get make del lmake lpush rpush lpop rpop lget lset lerase : Op
  smake spush spop serase sort hmake hpush hget hfields hvals herase : Op
  keys authr authw expire get_ttl save read unknown : Op

pub data Kind : Type 0 where
  invalid read_kind write_kind : Kind

-- `args[0] == name && num_args == n`, and with `>=`
abbrev pub is : Text → ℕ → String → ℕ → Bool
is verb count name n = (verb === codes name) && (count == n)

abbrev pub is_from : Text → ℕ → String → ℕ → Bool
is_from verb count name n = (verb === codes name) && leb n count

-- the chain of tests of `execute`
unfoldable pub select : Text → ℕ → Op
select verb n =
    if is verb n "get" 2
    then get
    else if is verb n "make" 3
    then make
    else if is verb n "make" 4
    then make
    else if is verb n "make" 5
    then make
    else if is verb n "del" 2
    then del
    else if is_from verb n "lmake" 3
    then lmake
    else if is_from verb n "lpush" 3
    then lpush
    else if is_from verb n "rpush" 3
    then rpush
    else if is verb n "lpop" 2
    then lpop
    else if is verb n "rpop" 2
    then rpop
    else if is verb n "lget" 3
    then lget
    else if is verb n "lset" 4
    then lset
    else if is verb n "lerase" 3
    then lerase
    else if is_from verb n "smake" 3
    then smake
    else if is_from verb n "spush" 3
    then spush
    else if is verb n "spop" 2
    then spop
    else if is verb n "serase" 3
    then serase
    else if is verb n "sort" 2
    then sort
    else if is_from verb n "hmake" 4
    then hmake
    else if is verb n "hpush" 4
    then hpush
    else if is verb n "hget" 3
    then hget
    else if is verb n "hfields" 2
    then hfields
    else if is verb n "hvals" 2
    then hvals
    else if is verb n "herase" 3
    then herase
    else if is verb n "xkeys" 1
    then keys
    else if is verb n "keys" 1
    then keys
    else if is verb n "authr" 3
    then authr
    else if is verb n "authw" 3
    then authw
    else if is verb n "expire" 3
    then expire
    else if is verb n "ttl" 2
    then get_ttl
    else if is verb n "save" 1
    then save
    else if is verb n "xsave" 1
    then save
    else if is verb n "read" 2
    then read
    else unknown

-- what `command_type` says of the handlers
unfoldable pub op_kind : Op → Kind
op_kind Op.get = read_kind
op_kind Op.lget = read_kind
op_kind Op.sort = read_kind
op_kind Op.hget = read_kind
op_kind Op.hfields = read_kind
op_kind Op.hvals = read_kind
op_kind Op.keys = read_kind
op_kind Op.get_ttl = read_kind
op_kind Op.save = read_kind
op_kind Op.unknown = invalid
op_kind op = write_kind

-- the chain of tests of `command_type`
unfoldable pub kind_of : Text → ℕ → Kind
kind_of verb n =
    if is verb n "get" 2
    then read_kind
    else if is verb n "make" 3
    then write_kind
    else if is verb n "make" 4
    then write_kind
    else if is verb n "make" 5
    then write_kind
    else if is verb n "del" 2
    then write_kind
    else if is_from verb n "lmake" 3
    then write_kind
    else if is_from verb n "lpush" 3
    then write_kind
    else if is_from verb n "rpush" 3
    then write_kind
    else if is verb n "lpop" 2
    then write_kind
    else if is verb n "rpop" 2
    then write_kind
    else if is verb n "lget" 3
    then read_kind
    else if is verb n "lset" 4
    then write_kind
    else if is verb n "lerase" 3
    then write_kind
    else if is_from verb n "smake" 3
    then write_kind
    else if is_from verb n "spush" 3
    then write_kind
    else if is verb n "spop" 2
    then write_kind
    else if is verb n "serase" 3
    then write_kind
    else if is verb n "sort" 2
    then read_kind
    else if is_from verb n "hmake" 4
    then write_kind
    else if is verb n "hpush" 4
    then write_kind
    else if is verb n "hget" 3
    then read_kind
    else if is verb n "hfields" 2
    then read_kind
    else if is verb n "hvals" 2
    then read_kind
    else if is verb n "herase" 3
    then write_kind
    else if is verb n "keys" 1
    then read_kind
    else if is verb n "authr" 3
    then write_kind
    else if is verb n "authw" 3
    then write_kind
    else if is verb n "expire" 3
    then write_kind
    else if is verb n "ttl" 2
    then read_kind
    else if is verb n "save" 1
    then read_kind
    else if is verb n "read" 2
    then write_kind
    else if is verb n "exit" 1
    then read_kind
    else invalid

unfoldable pub command_type : Text → Kind
command_type line = elim (split (trim line) space) [
  | [] ↦ invalid
  | verb ∷ rest ↦ kind_of verb (length (verb ∷ rest))
]

-- the verbs that the server handles itself
unfoldable pub is_magic : Text → Bool
is_magic verb =
    (verb === codes "client")
    || (verb === codes "give")
    || (verb === codes "clust")
    || (verb === codes "myinfo")
    || (verb === codes "replicanumber")
    || (verb === codes "replica")
    || (verb === codes "replicaaccept")

module _ (save : Command → Hash → Outcome) (read : Command → Hash → Outcome)
    (curr_time timer : ℕ) where
  unfoldable pub run : Op → Command → Hash → Outcome
  run Op.get = Keys.get curr_time
  run Op.make = Keys.make
  run Op.del = Keys.del
  run Op.lmake = Lists.lmake
  run Op.lpush = Lists.lpush curr_time
  run Op.rpush = Lists.rpush curr_time
  run Op.lpop = Lists.lpop curr_time
  run Op.rpop = Lists.rpop curr_time
  run Op.lget = Lists.lget curr_time
  run Op.lset = Lists.lset curr_time
  run Op.lerase = Lists.lerase curr_time
  run Op.smake = Sets.smake
  run Op.spush = Sets.spush curr_time
  run Op.spop = Sets.spop curr_time
  run Op.serase = Sets.serase curr_time
  run Op.sort = Sets.sort curr_time
  run Op.hmake = Maps.hmake
  run Op.hpush = Maps.hpush curr_time
  run Op.hget = Maps.hget curr_time
  run Op.hfields = Maps.hfields curr_time
  run Op.hvals = Maps.hvals curr_time
  run Op.herase = Maps.herase curr_time
  run Op.keys = Keys.keys
  run Op.authr = Keys.authr
  run Op.authw = Keys.authw
  run Op.expire = Keys.expire curr_time timer
  run Op.get_ttl = Keys.get_ttl curr_time
  run Op.save = save
  run Op.read = read
  run Op.unknown = λ c h. reply invalid_command h

  -- the test of the slot range, and the handler
  unfoldable pub run_here : Text → Command → Hash → Outcome
  run_here verb c h =
      let hash_val = Hash.hash_func (arg c 1) h in
      if ltb 1 (num_args c) && (ltb_ℤ (pos hash_val) h.start_num || ltb_ℤ h.end_num (pos hash_val))
      then reply (redirect hash_val) h
      else run (select verb (num_args c)) c h

  unfoldable pub execute_args : Command → List Text → Hash → Outcome
  execute_args c [] h = reply invalid_command h
  execute_args c (verb ∷ rest) h = if is_magic verb then reply (magic verb) h else run_here verb c h

  -- a whole command line, sent by a client of level `auth`
  unfoldable pub execute : Text → ℕ → Hash → Outcome
  unfolding execute_args run_here
  execute line auth h =
      let args = split (trim line) space in
      execute_args (record { args = args; auth = auth }) args h
