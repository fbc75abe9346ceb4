-- ===== src/Command/Spec.antt =====
-- What the commands promise, of src/command.cpp: each acts on the cell of its key, what a lookup of
-- the key gives, and on nothing else. A command gives a reply and the new cell, or nothing, where
-- the server crashes.
use mathlib.Core.List.{reverse}
use muse_kv.Prelude.{
  ℕ, zero, suc, ◌-◌, ◌%◌, Bool, true, false, not, ◌&&◌, Option, none, some, List, [], ◌∷◌, ◌++◌,
  ◌==◌, ltb, if◌then◌else◌, drop, ◌>>=◌,
}
use muse_kv.Prelude.Int.{ℤ, pos, is_negative, pos_part}
use muse_kv.Text.{Text, comma, split, merge}
use muse_kv.Text.Equal.{◌===◌}
use muse_kv.Text.Number.{strtoint}
use muse_kv.LinkedList.Sequence
use muse_kv.LinkedList.Sequence.{Sequence}
use muse_kv.Hashset
use muse_kv.Hashset.{Hashset}
use muse_kv.Hashmap
use muse_kv.Hashmap.{Hashmap, null_text}
use muse_kv.Kv
use muse_kv.Kv.{
  Kv, Value, Dtype, string, list, set, hashmap, string_type, list_type, set_type, hashmap_type,
}
use muse_kv.Hash.Laws.{written}
use muse_kv.Command
use muse_kv.Command.{Command, num_args, arg, Reply, joined_args}
use muse_kv.Command.Dispatch.{Op}
use muse_kv.Command.Sets.Sort.{sort_texts}

abbrev pub Cell : Type 0
Cell = Option Kv

abbrev pub Effect : Type 0
Effect = Option (Reply × Cell)

-- The values of each type; `none` is a value of another type.
abbrev pub as_list : Value → Option Sequence
as_list (list l) = some l
as_list _ = none

abbrev pub as_set : Value → Option Hashset
as_set (set s) = some s
as_set _ = none

abbrev pub as_map : Value → Option Hashmap
as_map (hashmap m) = some m
as_map _ = none

abbrev pub elements : Value → ℕ
elements (set s) = Hashset.get_length s
elements _ = 0

abbrev pub insert_all : List Text → Hashset → Hashset
insert_all [] s = s
insert_all (x ∷ xs) s = insert_all xs (Hashset.push x s)

abbrev pub printed : Value → Option Text
printed (list l) = some (Sequence.print l)
printed (set s) = some (Hashset.print s)
printed _ = none

-- A level that a text gives, if it is a number that is not negative; a crash if the text is empty.
abbrev pub number_level : Bool × ℤ → Option ℕ
number_level (ok, z) = if ok && not (is_negative z) then some (pos_part z) else none

abbrev pub if_level : Option ℕ → (ℕ → Effect) → Effect → Effect
if_level none f e = e
if_level (some n) f e = f n

abbrev pub if_number : Bool × ℤ → (ℤ → Effect) → Effect → Effect
if_number (true, z) f e = f z
if_number (false, z) f e = e

module _ (curr_time timer : ℕ) (c : Command) (cell : Cell) where
  -- a reply that leaves the cell
  abbrev pub says : Reply → Effect
  says r = some (r, cell)

  -- a value with another node, or with new contents
  abbrev pub becomes : Reply → Kv → Effect
  becomes r node = some (r, some node)

  abbrev pub holds : Reply → Kv → Value → Effect
  holds r node v = becomes r (Kv.set_v v node)

  abbrev pub allowed : ℕ → Effect → Effect
  allowed level e = if ltb c.auth level then says Command.denied else e

  abbrev pub present : Cell → (Kv → Effect) → Effect
  present none f = some (Command.no_such_key (arg c 1), none)
  present (some node) f = f node

  -- A node whose time has run out is removed.
  abbrev pub live : (Kv → Effect) → Effect
  live f = present cell λ node.
      if Kv.is_expired curr_time node then some (Command.no_such_key (arg c 1), none) else f node

  abbrev pub typed {ℓ} : {A : Type ℓ} → Option A → (A → Effect) → Effect
  typed none f = says Command.invalid_type
  typed (some a) f = f a

  abbrev pub leveled : Text → (ℕ → Effect) → Effect
  leveled str f = strtoint str >>= λ r. if_level (number_level r) f (says Command.invalid_auth)

  abbrev pub indexed : Text → (ℤ → Effect) → Effect
  indexed str f = strtoint str >>= λ r. if_number r f (says Command.invalid_index)

  -- The key is new, or may be written over.
  abbrev pub may_make : Cell → Effect → Effect
  may_make none e = e
  may_make (some node) e = allowed node.authw e

  abbrev pub stores : Reply → Value → ℕ → ℕ → Effect
  stores r v authr authw = becomes r (written (arg c 1) v authr authw cell)

  -- the commands that read a list, and those that change one
  abbrev pub reads_list : (Sequence → Effect) → Effect
  reads_list f = live λ node. typed (as_list node.v) λ l. allowed node.authr (f l)

  abbrev pub writes_list : (Kv → Sequence → Effect) → Effect
  writes_list f = live λ node. typed (as_list node.v) λ l. allowed node.authw (f node l)

  abbrev pub writes_set : (Kv → Hashset → Effect) → Effect
  writes_set f = live λ node. typed (as_set node.v) λ s. allowed node.authw (f node s)

  abbrev pub reads_map : (Hashmap → Effect) → Effect
  reads_map f = live λ node. typed (as_map node.v) λ m. allowed node.authr (f m)

  abbrev pub writes_map : (Kv → Hashmap → Effect) → Effect
  writes_map f = live λ node. typed (as_map node.v) λ m. allowed node.authw (f node m)

  abbrev pub filled : Bool → Reply → Effect → Effect
  filled is_empty r e = if is_empty then says r else e

  abbrev pub levels_of : ℕ → ℕ → Effect
  levels_of r w = allowed r (
      allowed w (
        if ltb w r
        then says Command.invalid_auth
        else stores Command.confirm (string (arg c 2)) r w))

  abbrev pub sorts : Text → Effect
  sorts [] = none
  sorts (b ∷ str) = says (Command.text (merge comma (sort_texts (split (b ∷ str) comma))))

  -- make, by the number of its arguments
  unfoldable pub makes : ℕ → Effect
  makes (suc (suc (suc zero))) = stores Command.confirm (string (arg c 2)) 0 c.auth
  makes (suc (suc (suc (suc zero)))) =
      leveled (arg c 3) λ r. allowed r (stores Command.confirm (string (arg c 2)) r c.auth)
  makes (suc (suc (suc (suc (suc zero))))) = strtoint (arg c 3) >>= λ r. strtoint (arg c 4) >>= λ w.
      if_level (number_level r)
        (λ r. if_level (number_level w) (λ w. levels_of r w) (says Command.invalid_auth))
        (says Command.invalid_auth)
  makes _ = none

  -- The commands of one key. The others have no effect here.
  unfoldable pub act : Op → Effect
  unfolding makes
  act Op.get = live λ node. allowed node.authr (says (Command.text (Kv.data_decode node.v)))
  act Op.make = may_make cell (makes (num_args c))
  act Op.del = present cell λ node. allowed node.authw (some (Command.confirm, none))
  act Op.lmake = may_make cell (
      Kv.data_encode (joined_args c 2) list_type >>= λ v.
      stores (Command.number (pos (num_args c - 2))) v 0 c.auth)
  act Op.lpush =
      writes_list λ node l. holds Command.confirm node (list (reverse (drop 2 c.args) ++ l))
  act Op.rpush = writes_list λ node l. holds Command.confirm node (list (l ++ drop 2 c.args))
  act Op.lpop = writes_list λ node l.
      filled (Sequence.is_empty l) Command.empty_list
        (holds (Command.text (Sequence.pop_front l).0) node (list (Sequence.pop_front l).1))
  act Op.rpop = writes_list λ node l.
      filled (Sequence.is_empty l) Command.empty_list
        (holds (Command.text (Sequence.pop_back l).0) node (list (Sequence.pop_back l).1))
  act Op.lget = reads_list λ l.
      filled (Sequence.is_empty l) Command.empty_list
        (indexed (arg c 2) λ index. says (Command.text (Sequence.get index l)))
  act Op.lset = writes_list λ node l. filled (Sequence.is_empty l) Command.empty_list (
      indexed (arg c 2) λ index. holds Command.confirm node (list (Sequence.set index (arg c 3) l)))
  act Op.lerase = writes_list λ node l.
      filled (Sequence.is_empty l) Command.empty_list
        (indexed (arg c 2) λ index. holds Command.confirm node (list (Sequence.del index l)))
  act Op.smake = may_make cell (
      Kv.data_encode (joined_args c 2) set_type >>= λ v.
      stores (Command.number (pos (elements v))) v 0 c.auth)
  act Op.spush =
      writes_set λ node s. holds Command.confirm node (set (insert_all (drop 2 c.args) s))
  act Op.spop = writes_set λ node s.
      filled (Hashset.is_empty s) Command.empty_list
        (holds (Command.text (Hashset.pop s).0) node (set (Hashset.pop s).1))
  act Op.serase = writes_set λ node s. filled (Hashset.is_empty s) Command.empty_list (
      holds
        (if (Hashset.del (arg c 2) s).0 then Command.confirm else Command.no_such_element (arg c 2))
        node (set (Hashset.del (arg c 2) s).1))
  act Op.sort = live λ node. typed (printed node.v) λ str. allowed node.authr (sorts str)
  act Op.hmake =
      if num_args c % 2 == 0
      then may_make cell
          (Kv.data_encode (joined_args c 2) hashmap_type >>= λ v. stores Command.confirm v 0 c.auth)
      else says Command.invalid_command
  act Op.hpush =
      writes_map
        λ node m. holds Command.confirm node (hashmap (Hashmap.set_fv (arg c 2) (arg c 3) m))
  act Op.hget = reads_map λ m. filled (Hashmap.is_empty m) Command.empty_hashmap (
      if Hashmap.get_v (arg c 2) m === null_text
      then says (Command.no_such_field (arg c 2))
      else says (Command.text (Hashmap.get_v (arg c 2) m)))
  act Op.hfields = reads_map λ m.
      filled (Hashmap.is_empty m) Command.empty_hashmap (says (Command.text (Hashmap.fields m)))
  act Op.hvals = reads_map λ m.
      filled (Hashmap.is_empty m) Command.empty_hashmap (says (Command.text (Hashmap.values m)))
  act Op.herase = writes_map λ node m.
      filled (Hashmap.is_empty m) Command.empty_hashmap (elim (Hashmap.del_fv (arg c 2) m) [
        | none ↦ says (Command.no_such_field (arg c 2))
        | some m' ↦ holds Command.confirm node (hashmap m')
      ])
  act Op.authr = present cell λ node.
      leveled (arg c 2)
        λ r. allowed r (allowed node.authw (becomes Command.confirm (Kv.set_authr r node)))
  act Op.authw = present cell λ node.
      leveled (arg c 2)
        λ w. allowed w (allowed node.authw (becomes Command.confirm (Kv.set_authw w node)))
  act Op.expire = strtoint (arg c 2) >>= λ r.
      if_number r
        (λ z. live λ node. allowed node.authw (becomes Command.confirm (Kv.set_ttl z timer node)))
        (says Command.invalid_time)
  act Op.get_ttl = live λ node.
      allowed node.authr
        (becomes (Command.number (Kv.get_ttl curr_time node).0) (Kv.get_ttl curr_time node).1)
  act Op.unknown = says Command.invalid_command
  act _ = none
