-- ===== src/Command/Sets.antt =====
-- The handlers for sets, smake, spush, spop, serase, and sort, for lists and sets.
pub mod Sort
use muse_kv.Prelude.{◌>>=◌, ℕ, Bool, true, false, List, none, [], ◌∷◌, if◌then◌else◌, drop, length}
use muse_kv.Prelude.Int.{pos}
use muse_kv.Text.{Text, comma, split, merge}
use muse_kv.LinkedList.Sequence
use muse_kv.Hashset
use muse_kv.Hashset.{Hashset}
use muse_kv.Kv
use muse_kv.Kv.{Kv, Value, string, list, set, hashmap, set_type}
use muse_kv.Hash
use muse_kv.Hash.{Hash}
use muse_kv.Command.{
  Command, num_args, arg, Reply, confirm, invalid_type, empty_list, no_such_element, text, number,
  Outcome, reply, with_live, permit, permit_make, put_value, joined_args,
}
use Sort.{sort_texts}

-- the length of the set that was just encoded
unfoldable pub length_of : Value → ℕ
length_of (set s) = Hashset.get_length s
length_of v = 0

unfoldable pub smake : Command → Hash → Outcome
unfolding length_of
smake c h = permit_make c h (
    Kv.data_encode (joined_args c 2) set_type >>= λ v.
    reply (number (pos (length_of v))) (Hash.set (arg c 1) v 0 c.auth h))

unfoldable pub with_set : Value → Hash → (Hashset → Outcome) → Outcome
with_set (set s) h rest = rest s
with_set (string s) h rest = reply invalid_type h
with_set (list l) h rest = reply invalid_type h
with_set (hashmap m) h rest = reply invalid_type h

unfoldable pub push_args : List Text → Hashset → Hashset
push_args [] s = s
push_args (x ∷ xs) s = push_args xs (Hashset.push x s)

unfoldable pub spush : ℕ → Command → Hash → Outcome
unfolding push_args
spush curr_time c h = with_live (arg c 1) curr_time h λ node. with_set node.v h λ s.
    permit c.auth node.authw h
      (reply confirm (put_value (arg c 1) (set (push_args (drop 2 c.args) s)) h))

unfoldable pub spop : ℕ → Command → Hash → Outcome
spop curr_time c h = with_live (arg c 1) curr_time h λ node. with_set node.v h λ s.
    permit c.auth node.authw h (
      if Hashset.is_empty s
      then reply empty_list h
      else (let (pop, rest) = Hashset.pop s in reply (text pop) (put_value (arg c 1) (set rest) h)))

unfoldable pub serase : ℕ → Command → Hash → Outcome
serase curr_time c h = with_live (arg c 1) curr_time h λ node. with_set node.v h λ s.
    permit c.auth node.authw h (
      if Hashset.is_empty s
      then reply empty_list h
      else (let (success, rest) = Hashset.del (arg c 2) s in
          let h' = put_value (arg c 1) (set rest) h in
          if success then reply confirm h' else reply (no_such_element (arg c 2)) h'))

-- printed, split, sorted and merged again
unfoldable pub sorted_text : Text → Text
sorted_text str = merge comma (sort_texts (split str comma))

-- For the empty text `split` sets no pointer, and `delete[]` is given one that was never set.
unfoldable pub sorted : Text → Hash → Outcome
unfolding sorted_text
sorted [] h = none
sorted (c ∷ str) h = reply (text (sorted_text (c ∷ str))) h

unfoldable pub with_print : Value → Hash → (Text → Outcome) → Outcome
with_print (list l) h rest = rest (Sequence.print l)
with_print (set s) h rest = rest (Hashset.print s)
with_print (string s) h rest = reply invalid_type h
with_print (hashmap m) h rest = reply invalid_type h

unfoldable pub sort : ℕ → Command → Hash → Outcome
unfolding sorted with_print
sort curr_time c h =
    with_live (arg c 1) curr_time h
      λ node. with_print node.v h λ str. permit c.auth node.authr h (sorted str h)
