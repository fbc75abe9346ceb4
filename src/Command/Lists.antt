-- ===== src/Command/Lists.antt =====
-- The handlers for lists: lmake, lpush, rpush, lpop, rpop, lget, lset, lerase.
use muse_kv.Prelude.{
  ◌>>=◌, ℕ, ◌-◌, Bool, true, false, none, some, List, [], ◌∷◌, ◌++◌, if◌then◌else◌, drop,
}
use muse_kv.Prelude.Int.{ℤ, pos}
use muse_kv.Text.{Text}
use muse_kv.Text.Number.{strtoint}
use muse_kv.LinkedList.Sequence
use muse_kv.LinkedList.Sequence.{Sequence}
use muse_kv.Kv
use muse_kv.Kv.{Kv, Value, string, list, set, hashmap, list_type}
use muse_kv.Hash
use muse_kv.Hash.{Hash}
use muse_kv.Command.{
  Command, num_args, arg, confirm, invalid_type, invalid_index, empty_list, text, number, Outcome,
  reply, with_live, permit, permit_make, put_value, joined_args,
}

-- The reply counts the arguments.
unfoldable pub lmake : Command → Hash → Outcome
lmake c h = permit_make c h (
    Kv.data_encode (joined_args c 2) list_type >>= λ v.
    reply (number (pos (num_args c - 2))) (Hash.set (arg c 1) v 0 c.auth h))

-- `if(v.data_dtype != kvstore::List) return "ERROR : INVALID TYPE"`
unfoldable pub with_list : Value → Hash → (Sequence → Outcome) → Outcome
with_list (list l) h rest = rest l
with_list (string s) h rest = reply invalid_type h
with_list (set s) h rest = reply invalid_type h
with_list (hashmap m) h rest = reply invalid_type h

-- the loops over `args[2]` and those behind it
unfoldable pub push_fronts : List Text → Sequence → Sequence
push_fronts [] l = l
push_fronts (x ∷ xs) l = push_fronts xs (x ∷ l)

unfoldable pub push_backs : List Text → Sequence → Sequence
push_backs [] l = l
push_backs (x ∷ xs) l = push_backs xs (l ++ x ∷ [])

unfoldable pub lpush : ℕ → Command → Hash → Outcome
unfolding push_fronts
lpush curr_time c h = with_live (arg c 1) curr_time h λ node. with_list node.v h λ l.
    permit c.auth node.authw h
      (reply confirm (put_value (arg c 1) (list (push_fronts (drop 2 c.args) l)) h))

unfoldable pub rpush : ℕ → Command → Hash → Outcome
unfolding push_backs
rpush curr_time c h = with_live (arg c 1) curr_time h λ node. with_list node.v h λ l.
    permit c.auth node.authw h
      (reply confirm (put_value (arg c 1) (list (push_backs (drop 2 c.args) l)) h))

unfoldable pub lpop : ℕ → Command → Hash → Outcome
lpop curr_time c h = with_live (arg c 1) curr_time h λ node. with_list node.v h λ l.
    permit c.auth node.authw h (
      if Sequence.is_empty l
      then reply empty_list h
      else (let (res, rest) = Sequence.pop_front l in
          reply (text res) (put_value (arg c 1) (list rest) h)))

unfoldable pub rpop : ℕ → Command → Hash → Outcome
rpop curr_time c h = with_live (arg c 1) curr_time h λ node. with_list node.v h λ l.
    permit c.auth node.authw h (
      if Sequence.is_empty l
      then reply empty_list h
      else (let (res, rest) = Sequence.pop_back l in
          reply (text res) (put_value (arg c 1) (list rest) h)))

unfoldable pub or_invalid : Hash → (ℤ → Outcome) → Bool × ℤ → Outcome
or_invalid h rest (true, z) = rest z
or_invalid h rest (false, z) = reply invalid_index h

-- `strtoint` throws on the empty text
unfoldable pub with_index : Text → Hash → (ℤ → Outcome) → Outcome
unfolding or_invalid
with_index str h rest = elim (strtoint str) [ none ↦ none | some r ↦ or_invalid h rest r ]

unfoldable pub lget : ℕ → Command → Hash → Outcome
lget curr_time c h = with_live (arg c 1) curr_time h λ node. with_list node.v h λ l.
    permit c.auth node.authr h (
      if Sequence.is_empty l
      then reply empty_list h
      else with_index (arg c 2) h λ index. reply (text (Sequence.get index l)) h)

unfoldable pub lset : ℕ → Command → Hash → Outcome
lset curr_time c h = with_live (arg c 1) curr_time h λ node. with_list node.v h λ l.
    permit c.auth node.authw h (
      if Sequence.is_empty l
      then reply empty_list h
      else with_index (arg c 2) h
          λ index. reply confirm (put_value (arg c 1) (list (Sequence.set index (arg c 3) l)) h))

unfoldable pub lerase : ℕ → Command → Hash → Outcome
lerase curr_time c h = with_live (arg c 1) curr_time h λ node. with_list node.v h λ l.
    permit c.auth node.authw h (
      if Sequence.is_empty l
      then reply empty_list h
      else with_index (arg c 2) h
          λ index. reply confirm (put_value (arg c 1) (list (Sequence.del index l)) h))
