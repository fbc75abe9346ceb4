-- ===== src/Command/Access/Writes.antt =====
-- The write level of a key, in the handlers of src/command.cpp.
use muse_kv.Prelude.{ℕ, ◌≡◌, ◌≢◌, refl, Bool, true, false, [], arith}
use muse_kv.Prelude.Int.{ℤ}
use muse_kv.LinkedList.Sequence.{Sequence}
use muse_kv.Hashset.{Hashset}
use muse_kv.Hashmap.{Hashmap}
use muse_kv.Kv.{Kv}
use muse_kv.Hash.{Hash}
use muse_kv.Command.{
  Command, arg, invalid_time, Outcome, with_live, permit, permit_make, invalid_command,
}
use muse_kv.Command.Keys
use muse_kv.Command.Lists
use muse_kv.Command.Sets
use muse_kv.Command.Maps
use muse_kv.Command.Dispatch.{Op, write_kind, op_kind, run}
use muse_kv.Command.Access.{
  Keeps, Guarded, with_list-Keeps, with_set-Keeps, with_map-Keeps, if-Keeps, permit-Keeps,
  strtoint-some, with_level-Keeps, live, node, denies,
}

-- The operations whose second argument the handler reads as a number, which must not be empty.
unfoldable pub reads_number : Op → Bool
reads_number Op.authr = true
reads_number Op.authw = true
reads_number Op.expire = true
reads_number op = false

module _ (save read : Command → Hash → Outcome) (curr_time timer : ℕ) (c : Command) (h : Hash) where
  module _ (g : Guarded curr_time c h (λ n. n.authw)) where
    makes : (rest : Outcome) → Keeps h (permit_make c h rest)
    unfolding permit_make
    makes rest = rw (g.found, permit_make) (denies curr_time c h (λ n. n.authw) g rest)

    listed :
        (rest : Kv → Sequence → Outcome)
        → Keeps h (
            with_live
              (arg c 1)
              curr_time
              h
              (λ n. Lists.with_list n.v h (λ l. permit c.auth n.authw h (rest n l))))
    listed rest =
        live curr_time c h (λ n. n.authw) g _
          (with_list-Keeps g.node.v h _
            (λ l. denies curr_time c h (λ n. n.authw) g (rest g.node l)))

    gathered :
        (rest : Kv → Hashset → Outcome)
        → Keeps h (
            with_live
              (arg c 1)
              curr_time
              h
              (λ n. Sets.with_set n.v h (λ l. permit c.auth n.authw h (rest n l))))
    gathered rest =
        live curr_time c h (λ n. n.authw) g _
          (with_set-Keeps g.node.v h _ (λ l. denies curr_time c h (λ n. n.authw) g (rest g.node l)))

    mapped :
        (rest : Kv → Hashmap → Outcome)
        → Keeps h (
            with_live
              (arg c 1)
              curr_time
              h
              (λ n. Maps.with_map n.v h (λ l. permit c.auth n.authw h (rest n l))))
    mapped rest =
        live curr_time c h (λ n. n.authw) g _
          (with_map-Keeps g.node.v h _ (λ l. denies curr_time c h (λ n. n.authw) g (rest g.node l)))

    makes_maps : Keeps h (Maps.hmake c h)
    unfolding Maps.hmake
    makes_maps = if-Keeps _ h _ _ (makes _) (invalid_command, refl)

    expires_at : (r : Bool × ℤ) → Keeps h (Keys.expire_at curr_time timer c h r)
    unfolding Keys.expire_at
    expires_at (true, z) =
        live curr_time c h (λ n. n.authw) g _ (denies curr_time c h (λ n. n.authw) g _)
    expires_at (false, z) = (invalid_time, refl)

    expires : arg c 2 ≢ [] → Keeps h (Keys.expire curr_time timer c h)
    unfolding Keys.expire
    expires ne = let (r, e) = strtoint-some (arg c 2) ne in rw (e, Keys.expire) (expires_at r)

    -- A command that writes, other than `read`, given for a key that has not expired and whose
    -- write level is above that of the client, is answered and leaves the store as it is. The
    -- second argument of authr, authw and expire is not empty.
    pub write_denied :
        (op : Op)
        → op_kind op ≡ write_kind
        → op ≢ Op.read
        → (reads_number op ≡ true → arg c 2 ≢ [])
        → Keeps h (run save read curr_time timer op c h)
    unfolding run op_kind reads_number Keys.make Keys.del Lists.lmake Lists.lpush Lists.rpush
        Lists.lpop Lists.rpop Lists.lset Lists.lerase Sets.smake Sets.spush Sets.spop Sets.serase
        Maps.hpush Maps.herase Keys.authr Keys.authw
    write_denied Op.get k nr ne = absurd (ground (arith, k))
    write_denied Op.make k nr ne = makes _
    write_denied Op.del k nr ne =
        node curr_time c h (λ n. n.authw) g _ (denies curr_time c h (λ n. n.authw) g _)
    write_denied Op.lmake k nr ne = makes _
    write_denied Op.lpush k nr ne = listed _
    write_denied Op.rpush k nr ne = listed _
    write_denied Op.lpop k nr ne = listed _
    write_denied Op.rpop k nr ne = listed _
    write_denied Op.lget k nr ne = absurd (ground (arith, k))
    write_denied Op.lset k nr ne = listed _
    write_denied Op.lerase k nr ne = listed _
    write_denied Op.smake k nr ne = makes _
    write_denied Op.spush k nr ne = gathered _
    write_denied Op.spop k nr ne = gathered _
    write_denied Op.serase k nr ne = gathered _
    write_denied Op.sort k nr ne = absurd (ground (arith, k))
    write_denied Op.hmake k nr ne = makes_maps
    write_denied Op.hpush k nr ne = mapped _
    write_denied Op.hget k nr ne = absurd (ground (arith, k))
    write_denied Op.hfields k nr ne = absurd (ground (arith, k))
    write_denied Op.hvals k nr ne = absurd (ground (arith, k))
    write_denied Op.herase k nr ne = mapped _
    write_denied Op.keys k nr ne = absurd (ground (arith, k))
    write_denied Op.authr k nr ne =
        node curr_time c h (λ n. n.authw) g _
          (with_level-Keeps (arg c 2) h _ (ne refl)
            (λ l. permit-Keeps c.auth l h _ (denies curr_time c h (λ n. n.authw) g _)))
    write_denied Op.authw k nr ne =
        node curr_time c h (λ n. n.authw) g _
          (with_level-Keeps (arg c 2) h _ (ne refl)
            (λ l. permit-Keeps c.auth l h _ (denies curr_time c h (λ n. n.authw) g _)))
    write_denied Op.expire k nr ne = expires (ne refl)
    write_denied Op.get_ttl k nr ne = absurd (ground (arith, k))
    write_denied Op.save k nr ne = absurd (ground (arith, k))
    write_denied Op.read k nr ne = absurd (nr refl)
    write_denied Op.unknown k nr ne = absurd (ground (arith, k))
