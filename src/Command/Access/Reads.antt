-- ===== src/Command/Access/Reads.antt =====
-- The read level of a key, in the handlers of src/command.cpp.
use muse_kv.Prelude.{ℕ, ◌≡◌, ◌≢◌, refl, arith, inl, inr, ◌⊎◌}
use muse_kv.Text.{Text}
use muse_kv.LinkedList.Sequence.{Sequence}
use muse_kv.Hashmap.{Hashmap}
use muse_kv.Kv.{Kv, Value, string, list, set, hashmap}
use muse_kv.Hash.{Hash}
use muse_kv.Command.{Command, arg, denied, invalid_type, Outcome, reply, with_live, permit}
use muse_kv.Command.Keys
use muse_kv.Command.Lists
use muse_kv.Command.Sets
use muse_kv.Command.Maps
use muse_kv.Command.Dispatch.{Op, read_kind, op_kind, run}
use muse_kv.Command.Access.{Guarded, with_live-live}

-- One of the two answers that show nothing of the value, with the store as it was.
abbrev pub Refused : Hash → Outcome → Type 0
Refused h o = (o ≡ reply denied h) ⊎ (o ≡ reply invalid_type h)

module _ (save read : Command → Hash → Outcome) (curr_time timer : ℕ) (c : Command) (h : Hash)
    (g : Guarded curr_time c h (λ n. n.authr)) where
  lives :
      (rest : Kv → Outcome)
      → Refused h (rest g.node)
      → Refused h (with_live (arg c 1) curr_time h rest)
  lives rest k = rw (with_live-live (arg c 1) curr_time h rest g.node g.found g.live) k

  refuses : (rest : Outcome) → Refused h (permit c.auth g.node.authr h rest)
  unfolding permit
  refuses rest = rw g.above (inl refl)

  list-Refused :
      (v : Value) (rest : Sequence → Outcome)
      → ((l : Sequence) → Refused h (rest l))
      → Refused h (Lists.with_list v h rest)
  unfolding Lists.with_list
  list-Refused (list l) rest k = k _
  list-Refused (string s) rest k = inr refl
  list-Refused (set s) rest k = inr refl
  list-Refused (hashmap m) rest k = inr refl

  map-Refused :
      (v : Value) (rest : Hashmap → Outcome)
      → ((m : Hashmap) → Refused h (rest m))
      → Refused h (Maps.with_map v h rest)
  unfolding Maps.with_map
  map-Refused (list l) rest k = inr refl
  map-Refused (string s) rest k = inr refl
  map-Refused (set s) rest k = inr refl
  map-Refused (hashmap m) rest k = k _

  print-Refused :
      (v : Value) (rest : Text → Outcome)
      → ((t : Text) → Refused h (rest t))
      → Refused h (Sets.with_print v h rest)
  unfolding Sets.with_print
  print-Refused (list l) rest k = k _
  print-Refused (string s) rest k = inr refl
  print-Refused (set s) rest k = k _
  print-Refused (hashmap m) rest k = inr refl

  -- A command that reads one key, given for a key that has not expired and whose read level is
  -- above that of the client, is refused: the reply is that the level is too low or that the type
  -- is wrong, whatever the value, and the store stays as it is.
  pub read_denied :
      (op : Op)
      → op_kind op ≡ read_kind
      → op ≢ Op.keys
      → op ≢ Op.save
      → Refused h (run save read curr_time timer op c h)
  unfolding run op_kind Keys.get Keys.get_ttl Lists.lget Sets.sort Maps.hget Maps.hfields Maps.hvals
  read_denied Op.get k nk ns = lives _ (refuses _)
  read_denied Op.make k nk ns = absurd (ground (arith, k))
  read_denied Op.del k nk ns = absurd (ground (arith, k))
  read_denied Op.lmake k nk ns = absurd (ground (arith, k))
  read_denied Op.lpush k nk ns = absurd (ground (arith, k))
  read_denied Op.rpush k nk ns = absurd (ground (arith, k))
  read_denied Op.lpop k nk ns = absurd (ground (arith, k))
  read_denied Op.rpop k nk ns = absurd (ground (arith, k))
  read_denied Op.lget k nk ns = lives _ (list-Refused g.node.v _ (λ l. refuses _))
  read_denied Op.lset k nk ns = absurd (ground (arith, k))
  read_denied Op.lerase k nk ns = absurd (ground (arith, k))
  read_denied Op.smake k nk ns = absurd (ground (arith, k))
  read_denied Op.spush k nk ns = absurd (ground (arith, k))
  read_denied Op.spop k nk ns = absurd (ground (arith, k))
  read_denied Op.serase k nk ns = absurd (ground (arith, k))
  read_denied Op.sort k nk ns = lives _ (print-Refused g.node.v _ (λ l. refuses _))
  read_denied Op.hmake k nk ns = absurd (ground (arith, k))
  read_denied Op.hpush k nk ns = absurd (ground (arith, k))
  read_denied Op.hget k nk ns = lives _ (map-Refused g.node.v _ (λ l. refuses _))
  read_denied Op.hfields k nk ns = lives _ (map-Refused g.node.v _ (λ l. refuses _))
  read_denied Op.hvals k nk ns = lives _ (map-Refused g.node.v _ (λ l. refuses _))
  read_denied Op.herase k nk ns = absurd (ground (arith, k))
  read_denied Op.keys k nk ns = absurd (nk refl)
  read_denied Op.authr k nk ns = absurd (ground (arith, k))
  read_denied Op.authw k nk ns = absurd (ground (arith, k))
  read_denied Op.expire k nk ns = absurd (ground (arith, k))
  read_denied Op.get_ttl k nk ns = lives _ (refuses _)
  read_denied Op.save k nk ns = absurd (ns refl)
  read_denied Op.read k nk ns = absurd (ground (arith, k))
  read_denied Op.unknown k nk ns = absurd (ground (arith, k))
