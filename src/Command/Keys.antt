-- ===== src/Command/Keys.antt =====
-- The handlers for whole keys: get, make, del, keys, authr, authw, expire, ttl.
use muse_kv.Prelude.{
  ℕ, zero, suc, Bool, true, false, Option, none, some, List, [], ◌∷◌, ◌++◌, ltb, if◌then◌else◌,
}
use muse_kv.Prelude.Int.{ℤ, is_negative, pos_part}
use muse_kv.Text.{Text, comma}
use muse_kv.Text.Number.{strtoint}
use muse_kv.Kv
use muse_kv.Kv.{Kv, Dtype, string_type}
use muse_kv.Hash
use muse_kv.Hash.{Hash}
use muse_kv.Command.{
  Command, num_args, arg, Reply, confirm, invalid_auth, invalid_time, text, number, Outcome, reply,
  with_live, with_node, permit, permit_make,
}

unfoldable pub get : ℕ → Command → Hash → Outcome
get curr_time c h =
    with_live (arg c 1) curr_time h
      λ node. permit c.auth node.authr h (reply (text (Kv.data_decode node.v)) h)

-- a level read from a text: `!temp.first || temp.second < 0`, then `auth < temp.second`
unfoldable pub bad_level : Bool × ℤ → Bool
bad_level (true, z) = is_negative z
bad_level (false, z) = true

unfoldable pub level : Bool × ℤ → ℕ
level (ok, z) = pos_part z

-- `strtoint` throws on the empty text
unfoldable pub with_level : Text → Hash → (ℕ → Outcome) → Outcome
unfolding bad_level level
with_level str h rest = elim (strtoint str) [
  | none ↦ none
  | some r ↦ if bad_level r then reply invalid_auth h else rest (level r)
]

unfoldable pub make_levels : Bool × ℤ → Bool × ℤ → Command → Hash → Outcome
make_levels temp1 temp2 c h =
    if bad_level temp1
    then reply invalid_auth h
    else if bad_level temp2
    then reply invalid_auth h
    else permit c.auth (level temp1) h (
        permit c.auth (level temp2) h (
          if ltb (level temp2) (level temp1)
          then reply invalid_auth h
          else reply confirm (
              Hash.set (arg c 1) (Kv.value_of (arg c 2) string_type) (level temp1) (level temp2)
                h)))

-- the case of three, four and five arguments; `exit(1)` is a crash
unfoldable pub make_case : ℕ → Command → Hash → Outcome
make_case (suc (suc (suc zero))) c h =
    reply confirm (Hash.set (arg c 1) (Kv.value_of (arg c 2) string_type) 0 c.auth h)
make_case (suc (suc (suc (suc zero)))) c h = with_level (arg c 3) h λ r.
    permit c.auth r h
      (reply confirm (Hash.set (arg c 1) (Kv.value_of (arg c 2) string_type) r c.auth h))
make_case (suc (suc (suc (suc (suc zero))))) c h = elim (strtoint (arg c 3)) [
  | none ↦ none
  | some r ↦ elim (strtoint (arg c 4)) [ none ↦ none | some w ↦ make_levels r w c h ]
]
make_case _ c h = none

unfoldable pub make : Command → Hash → Outcome
unfolding make_case make_levels bad_level level
make c h = permit_make c h (make_case (num_args c) c h)

unfoldable pub or_crash : Reply → Option Hash → Outcome
or_crash r none = none
or_crash r (some h) = reply r h

unfoldable pub del : Command → Hash → Outcome
unfolding or_crash
del c h =
    with_node (arg c 1) h
      λ node. permit c.auth node.authw h (or_crash confirm (Hash.del (arg c 1) h))

-- the loop over the keys that `Hash::keys` returned; each is looked up again
unfoldable pub keys_loop : ℕ → Bool → Text → List Text → Hash → Option Text
keys_loop auth flag res [] h = some res
keys_loop auth flag res (k ∷ ks) h =
    let skip = keys_loop auth flag res ks h in
    let next =
      λ (key : Text). keys_loop auth false (if flag then key else res ++ comma ∷ key) ks h in
    elim (Hash.find_node k h) [
      | none ↦ none
      | some node ↦ if ltb auth node.authr then skip else next node.k
    ]

unfoldable pub text_or_crash : Option Text → Hash → Outcome
text_or_crash none h = none
text_or_crash (some s) h = reply (text s) h

unfoldable pub keys : Command → Hash → Outcome
unfolding keys_loop text_or_crash
keys c h = text_or_crash (keys_loop c.auth true [] (Hash.keys h) h) h

unfoldable pub authr : Command → Hash → Outcome
authr c h = with_node (arg c 1) h λ node. with_level (arg c 2) h λ r.
    permit c.auth r h
      (permit c.auth node.authw h (reply confirm (Hash.update_node (arg c 1) (Kv.set_authr r) h)))

unfoldable pub authw : Command → Hash → Outcome
authw c h = with_node (arg c 1) h λ node. with_level (arg c 2) h λ w.
    permit c.auth w h
      (permit c.auth node.authw h (reply confirm (Hash.update_node (arg c 1) (Kv.set_authw w) h)))

-- `timer` is what `time(NULL)` gives inside `set_ttl`, later than `curr_time`
unfoldable pub expire_at : ℕ → ℕ → Command → Hash → Bool × ℤ → Outcome
expire_at curr_time timer c h (false, z) = reply invalid_time h
expire_at curr_time timer c h (true, z) = with_live (arg c 1) curr_time h λ node.
    permit c.auth node.authw h (reply confirm (Hash.update_node (arg c 1) (Kv.set_ttl z timer) h))

unfoldable pub expire : ℕ → ℕ → Command → Hash → Outcome
unfolding expire_at
expire curr_time timer c h = elim (strtoint (arg c 2)) [
  | none ↦ none
  | some r ↦ expire_at curr_time timer c h r
]

unfoldable pub get_ttl : ℕ → Command → Hash → Outcome
get_ttl curr_time c h = with_live (arg c 1) curr_time h λ node. permit c.auth node.authr h (
    reply (number (Kv.get_ttl curr_time node).0)
      (Hash.update_node (arg c 1) (λ n. (Kv.get_ttl curr_time n).1) h))
