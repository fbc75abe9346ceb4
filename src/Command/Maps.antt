-- ===== src/Command/Maps.antt =====
-- The handlers for hashmaps: hmake, hpush, hget, hfields, hvals, herase.
use muse_kv.Prelude.{◌>>=◌, ℕ, ◌%◌, Option, none, some, ◌==◌, if◌then◌else◌}
use muse_kv.Text.Equal.{◌===◌}
use muse_kv.Hashmap
use muse_kv.Hashmap.{Hashmap, null_text}
use muse_kv.Kv
use muse_kv.Kv.{Kv, Value, string, list, set, hashmap, hashmap_type}
use muse_kv.Hash
use muse_kv.Hash.{Hash}
use muse_kv.Command.{
  Command, num_args, arg, confirm, invalid_command, invalid_type, empty_hashmap, no_such_field,
  text, Outcome, reply, with_live, permit, permit_make, put_value, joined_args,
}

unfoldable pub hmake : Command → Hash → Outcome
hmake c h =
    if num_args c % 2 == 0
    then permit_make c h (
        Kv.data_encode (joined_args c 2) hashmap_type >>= λ v.
        reply confirm (Hash.set (arg c 1) v 0 c.auth h))
    else reply invalid_command h

unfoldable pub with_map : Value → Hash → (Hashmap → Outcome) → Outcome
with_map (hashmap m) h rest = rest m
with_map (string s) h rest = reply invalid_type h
with_map (list l) h rest = reply invalid_type h
with_map (set s) h rest = reply invalid_type h

unfoldable pub hpush : ℕ → Command → Hash → Outcome
hpush curr_time c h = with_live (arg c 1) curr_time h λ node. with_map node.v h λ m.
    permit c.auth node.authw h
      (reply confirm (put_value (arg c 1) (hashmap (Hashmap.set_fv (arg c 2) (arg c 3) m)) h))

unfoldable pub hget : ℕ → Command → Hash → Outcome
hget curr_time c h = with_live (arg c 1) curr_time h λ node. with_map node.v h λ m.
    permit c.auth node.authr h (
      if Hashmap.is_empty m
      then reply empty_hashmap h
      else (let result = Hashmap.get_v (arg c 2) m in
          if result === null_text
          then reply (no_such_field (arg c 2)) h
          else reply (text result) h))

unfoldable pub hfields : ℕ → Command → Hash → Outcome
hfields curr_time c h = with_live (arg c 1) curr_time h λ node. with_map node.v h λ m.
    permit c.auth node.authr h
      (if Hashmap.is_empty m then reply empty_hashmap h else reply (text (Hashmap.fields m)) h)

unfoldable pub hvals : ℕ → Command → Hash → Outcome
hvals curr_time c h = with_live (arg c 1) curr_time h λ node. with_map node.v h λ m.
    permit c.auth node.authr h
      (if Hashmap.is_empty m then reply empty_hashmap h else reply (text (Hashmap.values m)) h)

unfoldable pub erase_found : Command → Hash → Option Hashmap → Outcome
erase_found c h none = none
erase_found c h (some m) = reply confirm (put_value (arg c 1) (hashmap m) h)

unfoldable pub herase : ℕ → Command → Hash → Outcome
unfolding erase_found
herase curr_time c h = with_live (arg c 1) curr_time h λ node. with_map node.v h λ m.
    permit c.auth node.authw h (
      if Hashmap.is_empty m then reply empty_hashmap h else (elim (Hashmap.find_node (arg c 2) m) [
        | none ↦ reply (no_such_field (arg c 2)) h
        | some e ↦ erase_found c h (Hashmap.del_fv (arg c 2) m)
      ]))
