-- ===== src/Command/Refines/Run.antt =====
-- Each handler of src/command.cpp against what it promises for the cell of its key.
use muse_kv.Prelude.{
  Option, ◌>>=◌, ℕ, zero, suc, ◌≡◌, refl, Bool, true, false, none, some, arith, ltb, if◌then◌else◌,
  drop, Option-cases, inl, inr, [], ◌∷◌,
}
use muse_kv.Text.{Text}
use muse_kv.Text.Equal.{◌===◌}
use muse_kv.Text.Number.{strtoint}
use muse_kv.Hashmap
use muse_kv.Hashmap.{Hashmap, null_text}
use muse_kv.Hashmap.Laws.{del_fv-none, del_fv-some}
use muse_kv.Kv
use muse_kv.Kv.{
  Kv, Value, string, list, set, hashmap, string_type, list_type, set_type, hashmap_type,
}
use muse_kv.Hash
use muse_kv.Hash.{Hash, find_node}
use muse_kv.Hash.Laws.{IsTable}
use muse_kv.Command.{
  Command, num_args, arg, Reply, confirm, invalid_auth, Outcome, reply, permit, put_value,
  with_node, joined_args, no_such_field, empty_hashmap, text,
}
use muse_kv.Command.Keys
use muse_kv.Command.Lists
use muse_kv.Command.Sets
use muse_kv.Command.Maps
use muse_kv.Command.Dispatch.{Op, run}
use muse_kv.Command.Spec
use muse_kv.Command.Spec.{Cell, Effect, act, number_level, if_level, insert_all, elements}
use muse_kv.Command.Refines
use muse_kv.Command.Refines.{Does, crashes}
use muse_kv.Command.Refines.Numbers
use muse_kv.Command.Refines.Shapes
use muse_kv.Command.Refines.Shapes.{cell, Runs}

-- The operations that act on no key but the one that their first argument names.
unfoldable pub acts_on_key : Op → Bool
acts_on_key Op.keys = false
acts_on_key Op.save = false
acts_on_key Op.read = false
acts_on_key op = true

module _ (t timer : ℕ) (c : Command) (h : Hash) (ok : IsTable h) where
  levels :
      (r w : ℕ)
      → Runs t timer c h ok
          (permit c.auth r h (
            permit c.auth w h (
              if ltb w r
              then reply invalid_auth h
              else reply confirm (Hash.set (arg c 1) (Kv.value_of (arg c 2) string_type) r w h))))
          (Spec.levels_of t timer c (cell t timer c h ok) r w)
  unfolding Kv.value_of
  levels r w = Shapes.permits t timer c h ok r _ _ (
      Shapes.permits t timer c h ok w _ _ (
        Refines.if-Does c h ok _ _ _ _ _ (Shapes.says t timer c h ok invalid_auth)
          (Shapes.stores t timer c h ok confirm _ r w)))

  makes :
      (n : ℕ)
      → Runs t timer c h ok (Keys.make_case n c h) (Spec.makes t timer c (cell t timer c h ok) n)
  unfolding Keys.make_case Keys.make_levels Spec.makes Kv.value_of
  makes zero = crashes refl refl
  makes (suc zero) = crashes refl refl
  makes (suc (suc zero)) = crashes refl refl
  makes (suc (suc (suc zero))) = Shapes.stores t timer c h ok confirm _ 0 c.auth
  makes (suc (suc (suc (suc zero)))) =
      Numbers.level-Does c h ok t timer _ refl (arg c 3) _ _
        λ r. Shapes.permits t timer c h ok r _ _ (Shapes.stores t timer c h ok confirm _ r c.auth)
  makes (suc (suc (suc (suc (suc zero))))) = elim (Option-cases (strtoint (arg c 3))) [
    | inl e ↦ rw (e, Keys.make_case) (crashes refl refl)
    | inr (r, e) ↦ elim (Option-cases (strtoint (arg c 4))) [
      | inl f ↦ rw (e, f, Keys.make_case) (crashes refl refl)
      | inr (w, f) ↦
          rw (e, f, Keys.make_case)
            (Numbers.levels-Does c h ok t timer _ refl r _ _
              λ n. Numbers.levels-Does c h ok t timer _ refl w _ _ (levels n))
    ]
  ]
  makes (suc (suc (suc (suc (suc (suc n)))))) = crashes refl refl

  deletes : Runs t timer c h ok (Keys.del c h) (Spec.act t timer c (cell t timer c h ok) Op.del)
  unfolding Keys.del act
  deletes = Refines.present-Does c h ok t timer _ refl _ _ λ n e.
      Shapes.permits t timer c h ok _ _ _ (
        Refines.del-Does c h ok n e confirm (Keys.or_crash confirm)
          (λ h'. unfold Keys.or_crash in refl))

  erases :
      (n : Kv)
      → cell t timer c h ok ≡ some n
      → (b : Bool) (x y : Reply) (v : Value)
      → Runs t timer c h ok
          (if b then reply x (put_value (arg c 1) v h) else reply y (put_value (arg c 1) v h))
          (Spec.holds t timer c (cell t timer c h ok) (if b then x else y) n v)
  erases n e true x y v = Shapes.holds t timer c h ok n e x v
  erases n e false x y v = Shapes.holds t timer c h ok n e y v

  erased :
      (n : Kv)
      → cell t timer c h ok ≡ some n
      → (m : Hashmap)
      → Runs t timer c h ok
          (elim (Hashmap.find_node (arg c 2) m) [
            | none ↦ reply (no_such_field (arg c 2)) h
            | some v ↦ Maps.erase_found c h (Hashmap.del_fv (arg c 2) m)
          ])
          (elim (Hashmap.del_fv (arg c 2) m) [
            | none ↦ Spec.says t timer c (cell t timer c h ok) (no_such_field (arg c 2))
            | some m' ↦ Spec.holds t timer c (cell t timer c h ok) confirm n (hashmap m')
          ])
  unfolding Maps.erase_found
  erased n e m = elim (Option-cases (Hashmap.find_node (arg c 2) m)) [
    | inl f ↦
        rw (f, del_fv-none (arg c 2) m f) (Shapes.says t timer c h ok (no_such_field (arg c 2)))
    | inr (v, f) ↦
        let (m', g) = del_fv-some (arg c 2) m v f in
        rw (f, g, Maps.erase_found) (Shapes.holds t timer c h ok n e confirm (hashmap m'))
  ]

  expires :
      Runs t timer c h ok
        (Keys.expire t timer c h)
        (Spec.act t timer c (cell t timer c h ok) Op.expire)
  unfolding Keys.expire Keys.expire_at act
  expires = elim (Option-cases (strtoint (arg c 2))) [
    | inl e ↦ rw (e, Keys.expire) (crashes refl refl)
    | inr ((false, z), e) ↦ rw (e, Keys.expire) (Shapes.says t timer c h ok _)
    | inr ((true, z), e) ↦
        rw (e, Keys.expire)
          (Shapes.lives t timer c h ok _ _ λ n f. Shapes.permits t timer c h ok _ _ _ (
            Shapes.updates t timer c h ok n f _ (Kv.set_ttl z timer)
              (λ m. unfold Kv.set_ttl in refl)))
  ]

  encodes :
      (o : Option Value) (rest : Value → Outcome) (f : Value → Effect)
      → ((v : Value) → Runs t timer c h ok (rest v) (f v))
      → Runs t timer c h ok (o >>= rest) (o >>= f)
  encodes none rest f d = crashes refl refl
  encodes (some v) rest f d = d v

  sorts :
      (str : Text)
      → Runs t timer c h ok (Sets.sorted str h) (Spec.sorts t timer c (cell t timer c h ok) str)
  unfolding Sets.sorted Sets.sorted_text
  sorts [] = crashes refl refl
  sorts (b ∷ str) = Shapes.says t timer c h ok _

  get_ttl-k : (n : Kv) → (Kv.get_ttl t n).1.k ≡ n.k
  unfolding Kv.get_ttl
  get_ttl-k n = ground arith

  set_authr-k : (r : ℕ) (n : Kv) → (Kv.set_authr r n).k ≡ n.k
  unfolding Kv.set_authr
  set_authr-k r n = ground arith

  set_authw-k : (w : ℕ) (n : Kv) → (Kv.set_authw w n).k ≡ n.k
  unfolding Kv.set_authw
  set_authw-k w n = ground arith

  set_levels :
      (f : ℕ → Kv → Kv)
      → ((r : ℕ) (n : Kv) → (f r n).k ≡ n.k)
      → Runs t timer c h ok
          (with_node (arg c 1) h λ node. Keys.with_level (arg c 2) h λ r.
            permit c.auth r h
              (permit c.auth node.authw h (reply confirm (Hash.update_node (arg c 1) (f r) h))))
          (Spec.present t timer c (cell t timer c h ok) (cell t timer c h ok) λ node.
            Spec.leveled t timer c (cell t timer c h ok) (arg c 2) λ r.
              Spec.allowed t timer c (cell t timer c h ok) r (
                Spec.allowed t timer c
                  (cell t timer c h ok)
                  node.authw
                  (Spec.becomes t timer c (cell t timer c h ok) confirm (f r node))))
  set_levels f keep = Refines.present-Does c h ok t timer _ refl _ _ λ n e.
      Numbers.level-Does c h ok t timer _ refl (arg c 2) _ _ λ r.
        Shapes.permits t timer c h ok r _ _ (
          Shapes.permits t timer c h ok n.authw _ _
            (Shapes.updates t timer c h ok n e confirm (f r) (keep r)))

  module _ (save read : Command → Hash → Outcome) where
    -- On a well-formed table every command but keys, save and read does to the table what it
    -- promises, in Command/Spec, for the cell of its key: both crash, or both give the same reply;
    -- then a lookup of the key gives the new cell, one of any other key what it gave, the table is
    -- well formed, and the slots are as they were. They crash where a number is read from the
    -- empty text, where sort, lmake, smake or hmake splits the empty text, and for a number of
    -- arguments that make does not take.
    pub run_refines :
        (op : Op)
        → acts_on_key op ≡ true
        → Does (arg c 1) h (run save read t timer op c h) (act t timer c (find_node (arg c 1) h) op)
    unfolding run act acts_on_key Maps.herase Keys.make Keys.get Keys.get_ttl Keys.authr Keys.authw
        Lists.lmake Lists.lpush Lists.rpush Lists.lpop Lists.rpop Lists.lget Lists.lset Lists.lerase
        Sets.smake Sets.spush Sets.spop Sets.serase Sets.sort Maps.hmake Maps.hpush Maps.hget
        Maps.hfields Maps.hvals
    run_refines Op.get k =
        Shapes.lives t timer c h ok _ _
          λ n e. Shapes.permits t timer c h ok _ _ _ (Shapes.says t timer c h ok _)
    run_refines Op.make k = Shapes.may_make t timer c h ok _ _ (makes (num_args c))
    run_refines Op.del k = deletes
    run_refines Op.lmake k = Shapes.may_make t timer c h ok _ _ (
        encodes (Kv.data_encode (joined_args c 2) list_type) _ _
          λ v. Shapes.stores t timer c h ok _ _ _ _)
    run_refines Op.lpush k = Shapes.writes_list t timer c h ok _ _ λ n e l.
        rw (Numbers.push_fronts-reverse (drop 2 c.args) l) (Shapes.holds t timer c h ok n e _ _)
    run_refines Op.rpush k = Shapes.writes_list t timer c h ok _ _ λ n e l.
        rw (Numbers.push_backs-append (drop 2 c.args) l) (Shapes.holds t timer c h ok n e _ _)
    run_refines Op.lpop k =
        Shapes.writes_list t timer c h ok _ _
          λ n e l. Shapes.filled t timer c h ok _ _ _ _ (Shapes.holds t timer c h ok n e _ _)
    run_refines Op.rpop k =
        Shapes.writes_list t timer c h ok _ _
          λ n e l. Shapes.filled t timer c h ok _ _ _ _ (Shapes.holds t timer c h ok n e _ _)
    run_refines Op.lget k = Shapes.reads_list t timer c h ok _ _ λ l.
        Shapes.filled t timer c h ok _ _ _ _
          (Shapes.indexes t timer c h ok _ _ λ z. Shapes.says t timer c h ok _)
    run_refines Op.lset k = Shapes.writes_list t timer c h ok _ _ λ n e l.
        Shapes.filled t timer c h ok _ _ _ _
          (Shapes.indexes t timer c h ok _ _ λ z. Shapes.holds t timer c h ok n e _ _)
    run_refines Op.lerase k = Shapes.writes_list t timer c h ok _ _ λ n e l.
        Shapes.filled t timer c h ok _ _ _ _
          (Shapes.indexes t timer c h ok _ _ λ z. Shapes.holds t timer c h ok n e _ _)
    run_refines Op.smake k = Shapes.may_make t timer c h ok _ _ (
        encodes (Kv.data_encode (joined_args c 2) set_type) _ _
          λ v. rw (Numbers.length_of-elements v) (Shapes.stores t timer c h ok _ _ _ _))
    run_refines Op.spush k = Shapes.writes_set t timer c h ok _ _ λ n e s.
        rw (Numbers.push_args-insert_all (drop 2 c.args) s) (Shapes.holds t timer c h ok n e _ _)
    run_refines Op.spop k =
        Shapes.writes_set t timer c h ok _ _
          λ n e s. Shapes.filled t timer c h ok _ _ _ _ (Shapes.holds t timer c h ok n e _ _)
    run_refines Op.serase k =
        Shapes.writes_set t timer c h ok _ _
          λ n e s. Shapes.filled t timer c h ok _ _ _ _ (erases n e _ _ _ _)
    run_refines Op.sort k = Shapes.lives t timer c h ok _ _ λ n e.
        Refines.print-Does c h ok t timer _ refl n.v _ _
          λ str. Shapes.permits t timer c h ok _ _ _ (sorts str)
    run_refines Op.hmake k =
        Refines.if-Does c h ok _ _ _ _ _
          (Shapes.may_make t timer c h ok _ _ (
            encodes (Kv.data_encode (joined_args c 2) hashmap_type) _ _
              λ v. Shapes.stores t timer c h ok _ _ _ _))
          (Shapes.says t timer c h ok _)
    run_refines Op.hpush k =
        Shapes.writes_map t timer c h ok _ _ λ n e m. Shapes.holds t timer c h ok n e _ _
    run_refines Op.hget k = Shapes.reads_map t timer c h ok _ _ λ m.
        Shapes.filled t timer c h ok (Hashmap.is_empty m) empty_hashmap _ _ (
          Refines.if-Does c h ok (Hashmap.get_v (arg c 2) m === null_text) _ _ _ _
            (Shapes.says t timer c h ok (no_such_field (arg c 2)))
            (Shapes.says t timer c h ok (text (Hashmap.get_v (arg c 2) m))))
    run_refines Op.hfields k =
        Shapes.reads_map t timer c h ok _ _
          λ m. Shapes.filled t timer c h ok _ _ _ _ (Shapes.says t timer c h ok _)
    run_refines Op.hvals k =
        Shapes.reads_map t timer c h ok _ _
          λ m. Shapes.filled t timer c h ok _ _ _ _ (Shapes.says t timer c h ok _)
    run_refines Op.herase k =
        Shapes.writes_map t timer c h ok _ _
          λ n e m. Shapes.filled t timer c h ok _ _ _ _ (erased n e m)
    run_refines Op.authr k = set_levels Kv.set_authr set_authr-k
    run_refines Op.authw k = set_levels Kv.set_authw set_authw-k
    run_refines Op.expire k = expires
    run_refines Op.get_ttl k = Shapes.lives t timer c h ok _ _ λ n e.
        Shapes.permits t timer c h ok _ _ _
          (Shapes.updates t timer c h ok n e _ (λ m. (Kv.get_ttl t m).1) get_ttl-k)
    run_refines Op.keys k = absurd (ground (arith, k))
    run_refines Op.save k = absurd (ground (arith, k))
    run_refines Op.read k = absurd (ground (arith, k))
    run_refines Op.unknown k = Shapes.says t timer c h ok _
