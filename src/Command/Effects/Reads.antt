-- ===== src/Command/Effects/Reads.antt =====
-- What the handlers of src/command.cpp that read leave of the store.
use muse_kv.Prelude.{
  ℕ, ◌≡◌, ◌≢◌, refl, sym, ap, ◌∙◌, Bool, true, false, some, List, [], ◌∷◌, ◌++◌, All, arith, ltb,
  if◌then◌else◌, Bool-cases, inl, inr,
}
use muse_kv.Text.{Text, comma}
use muse_kv.Text.Equal.{◌===◌, eq_iff}
use muse_kv.Hashmap
use muse_kv.Hashmap.{Hashmap, null_text}
use muse_kv.Kv
use muse_kv.Kv.{Kv, Value, string, list, set, hashmap}
use muse_kv.Hash
use muse_kv.Hash.{Hash}
use muse_kv.Hash.Laws.{IsTable, find-update_node, update_node-IsTable}
use muse_kv.Hash.Size.{Found, keys_lem}
use muse_kv.Command.{Command, arg, Reply, empty_list, empty_hashmap, text, Outcome, reply}
use muse_kv.Command.Keys
use muse_kv.Command.Lists
use muse_kv.Command.Sets
use muse_kv.Command.Maps
use muse_kv.Command.Spec.{printed}
use muse_kv.Command.Dispatch.{Op, read_kind, op_kind, run}
use muse_kv.Command.Effects.Quiet.{
  Quiet, kept, if-Quiet, permit-Quiet, list-Quiet, map-Quiet, print-Quiet, live-Quiet, index-Quiet,
}

keys_loop-some :
    (auth : ℕ) (flag : Bool) (res : Text) (ks : List Text) (h : Hash)
    → All (Found h) ks
    → (s : Text) × (Keys.keys_loop auth flag res ks h ≡ some s)
unfolding Keys.keys_loop
keys_loop-some auth flag res [] h a = (res, refl)
keys_loop-some auth flag res (k ∷ ks) h ((node, e), a) = elim (Bool-cases (ltb auth node.authr)) [
  | inl x ↦ (let (s, q) = keys_loop-some auth flag res ks h a in (s, rw (e, x, Keys.keys_loop) q))
  | inr x ↦
      (let (s, q) =
          keys_loop-some auth false (if flag then node.k else res ++ comma ∷ node.k) ks h a in
        (s, rw (e, x, Keys.keys_loop) q))
]

-- `keys` answers a text and changes nothing.
pub keys-reply :
    (c : Command) (h : Hash) → IsTable h → (str : Text) × (Keys.keys c h ≡ reply (text str) h)
unfolding Keys.keys Keys.text_or_crash
keys-reply c h ok =
    let (str, e) = keys_loop-some c.auth true [] (Hash.keys h) h (keys_lem h ok).1 in
    (str, rw (e, Keys.text_or_crash) refl)

module _ (t : ℕ) (h : Hash) (ok : IsTable h) where
  -- `get_ttl` of a node that has not expired leaves the node as it is.
  get_ttl-same : (node : Kv) → Kv.is_expired t node ≡ false → (Kv.get_ttl t node).1 ≡ node
  unfolding Kv.get_ttl
  get_ttl-same node x = elim (Bool-cases (Kv.is_minus_one node.ttl)) [
    | inl y ↦ rw (y, Kv.get_ttl) refl
    | inr n ↦ rw (n, x, Kv.get_ttl) refl
  ]

  get_ttl-k : (node : Kv) → (Kv.get_ttl t node).1.k ≡ node.k
  unfolding Kv.get_ttl
  get_ttl-k node = elim (Bool-cases (Kv.is_minus_one node.ttl)) [
    | inl y ↦ rw (y, Kv.get_ttl) refl
    | inr n ↦ elim (Bool-cases (Kv.is_expired t node)) [
      | inl x ↦ rw (n, x, Kv.get_ttl) refl
      | inr x ↦ rw (n, x, Kv.get_ttl) refl
    ]
  ]

  keys-Quiet : (c : Command) → Quiet t h (Keys.keys c h)
  keys-Quiet c = let (str, e) = keys-reply c h ok in rw e (kept t h ok (text str))

  same-Quiet :
      (r : Reply) (k : Text) (f : Kv → Kv) (node : Kv)
      → ((n : Kv) → (f n).k ≡ n.k)
      → Hash.find_node k h ≡ some node
      → f node ≡ node
      → Quiet t h (reply r (Hash.update_node k f h))
  same-Quiet r k f node keep e same = record {
    answer = r;
    after = Hash.update_node k f h;
    runs = refl;
    is = update_node-IsTable k f h node keep e ok;
    lasts = λ j. inl (elim (Bool-cases (k === j)) [
      | inl y ↦
          find-update_node k f h node keep e j
          ∙ rw y (
              ap some same
              ∙ sym (ap (λ (i : Text). Hash.find_node i h) (sym ((eq_iff k j).0 y)) ∙ e))
      | inr n ↦ find-update_node k f h node keep e j ∙ rw n refl
    ]);
  }

  ttl-Quiet : (c : Command) → Quiet t h (Keys.get_ttl t c h)
  unfolding Keys.get_ttl
  ttl-Quiet c = live-Quiet t h ok (arg c 1) _ λ node e x.
      permit-Quiet t h ok _ _ _ (same-Quiet _ _ _ node get_ttl-k e (get_ttl-same node x))

  hget-Quiet : (c : Command) → Quiet t h (Maps.hget t c h)
  unfolding Maps.hget
  hget-Quiet c = live-Quiet t h ok (arg c 1) _ λ node e x. map-Quiet t h ok node.v _ λ m.
      permit-Quiet t h ok _ _ _ (
        if-Quiet t h ok (Hashmap.is_empty m) _ _ (kept t h ok empty_hashmap) (
          if-Quiet t h ok (Hashmap.get_v (arg c 2) m === null_text) _ _ (kept t h ok _)
            (kept t h ok _)))

  sorted-Quiet : (str : Text) → str ≢ [] → Quiet t h (Sets.sorted str h)
  unfolding Sets.sorted
  sorted-Quiet [] ne = absurd (ne refl)
  sorted-Quiet (b ∷ str) ne = kept t h ok _

  -- In a well-formed table a command that reads, other than `save`, is answered, leaves the table
  -- well formed, and changes nothing: each key finds the node it found before, unless the node had
  -- expired. The index of lget is not empty, and sort is given no list or set that prints as the
  -- empty text.
  pub read_lasts :
      (save read : Command → Hash → Outcome) (timer : ℕ) (c : Command) (op : Op)
      → op_kind op ≡ read_kind
      → op ≢ Op.save
      → (op ≡ Op.lget → arg c 2 ≢ [])
      → (op ≡ Op.sort
          → (node : Kv) → Hash.find_node (arg c 1) h ≡ some node
          → printed node.v ≢ some [])
      → Quiet t h (run save read t timer op c h)
  unfolding run op_kind Keys.get Lists.lget Sets.sort Maps.hfields Maps.hvals
  read_lasts save read timer c Op.get k ns ne pr =
      live-Quiet t h ok (arg c 1) _ (λ node e x. permit-Quiet t h ok _ _ _ (kept t h ok _))
  read_lasts save read timer c Op.make k ns ne pr = absurd (ground (arith, k))
  read_lasts save read timer c Op.del k ns ne pr = absurd (ground (arith, k))
  read_lasts save read timer c Op.lmake k ns ne pr = absurd (ground (arith, k))
  read_lasts save read timer c Op.lpush k ns ne pr = absurd (ground (arith, k))
  read_lasts save read timer c Op.rpush k ns ne pr = absurd (ground (arith, k))
  read_lasts save read timer c Op.lpop k ns ne pr = absurd (ground (arith, k))
  read_lasts save read timer c Op.rpop k ns ne pr = absurd (ground (arith, k))
  read_lasts save read timer c Op.lget k ns ne pr = live-Quiet t h ok (arg c 1) _ (λ node e x.
      list-Quiet t h ok node.v _ (λ l. permit-Quiet t h ok _ _ _ (
        if-Quiet t h ok _ _ _ (kept t h ok empty_list)
          (index-Quiet t h ok (arg c 2) _ (ne refl) (λ z. kept t h ok _)))))
  read_lasts save read timer c Op.lset k ns ne pr = absurd (ground (arith, k))
  read_lasts save read timer c Op.lerase k ns ne pr = absurd (ground (arith, k))
  read_lasts save read timer c Op.smake k ns ne pr = absurd (ground (arith, k))
  read_lasts save read timer c Op.spush k ns ne pr = absurd (ground (arith, k))
  read_lasts save read timer c Op.spop k ns ne pr = absurd (ground (arith, k))
  read_lasts save read timer c Op.serase k ns ne pr = absurd (ground (arith, k))
  read_lasts save read timer c Op.sort k ns ne pr = live-Quiet t h ok (arg c 1) _ (λ node e x.
      print-Quiet t h ok node.v _ (λ str p.
        permit-Quiet t h ok _ _ _ (sorted-Quiet str (λ q. pr refl node e (p ∙ ap some q)))))
  read_lasts save read timer c Op.hmake k ns ne pr = absurd (ground (arith, k))
  read_lasts save read timer c Op.hpush k ns ne pr = absurd (ground (arith, k))
  read_lasts save read timer c Op.hget k ns ne pr = hget-Quiet c
  read_lasts save read timer c Op.hfields k ns ne pr = live-Quiet t h ok (arg c 1) _ (λ node e x.
      map-Quiet t h ok node.v _ (λ m.
        permit-Quiet t h ok _ _ _
          (if-Quiet t h ok (Hashmap.is_empty m) _ _ (kept t h ok empty_hashmap) (kept t h ok _))))
  read_lasts save read timer c Op.hvals k ns ne pr = live-Quiet t h ok (arg c 1) _ (λ node e x.
      map-Quiet t h ok node.v _ (λ m.
        permit-Quiet t h ok _ _ _
          (if-Quiet t h ok (Hashmap.is_empty m) _ _ (kept t h ok empty_hashmap) (kept t h ok _))))
  read_lasts save read timer c Op.herase k ns ne pr = absurd (ground (arith, k))
  read_lasts save read timer c Op.keys k ns ne pr = keys-Quiet c
  read_lasts save read timer c Op.authr k ns ne pr = absurd (ground (arith, k))
  read_lasts save read timer c Op.authw k ns ne pr = absurd (ground (arith, k))
  read_lasts save read timer c Op.expire k ns ne pr = absurd (ground (arith, k))
  read_lasts save read timer c Op.get_ttl k ns ne pr = ttl-Quiet c
  read_lasts save read timer c Op.save k ns ne pr = absurd (ns refl)
  read_lasts save read timer c Op.read k ns ne pr = absurd (ground (arith, k))
  read_lasts save read timer c Op.unknown k ns ne pr = absurd (ground (arith, k))
