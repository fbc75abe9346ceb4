-- ===== src/Command/Effects.antt =====
-- What a handler of src/command.cpp leaves for the next one: make, and get after it.
pub mod Quiet
pub mod Reads
use muse_kv.Prelude.{
  ℕ, ◌≡◌, refl, sym, ap, subst, ◌∙◌, Bool, true, false, Option, none, some, List, [], ◌∷◌, arith,
  ltb, ◌==◌, if◌then◌else◌, Bool-cases, Option-cases, inl, inr,
}
use muse_kv.Text.{Text}
use muse_kv.Text.Equal.{◌===◌, eq_refl}
use muse_kv.Kv
use muse_kv.Kv.{Kv, Value, string}
use muse_kv.Hash
use muse_kv.Hash.{Hash}
use muse_kv.Hash.Laws.{IsTable, set-find_node, written, Deleted, del-find_node}
use muse_kv.Command.{
  Command, num_args, arg, Reply, confirm, text, no_such_key, Outcome, reply, with_live,
  unless_expired, drop_expired, permit, permit_make,
}
use muse_kv.Command.Keys
use muse_kv.Command.Access.{with_live-live}

-- The node of the key is there and has expired.
pub expired_key : ℕ → Text → Hash → Bool
expired_key t k h = elim (Hash.find_node k h) [ none ↦ false | some node ↦ Kv.is_expired t node ]

-- The reply of an outcome; `none` after a crash.
pub reply_of : Outcome → Option Reply
reply_of none = none
reply_of (some (r, h)) = some r

-- The level of the client suffices for a node that is there.
abbrev pub MayWrite : Command → Option Kv → Type 0
MayWrite c none = Unit
MayWrite c (some node) = ltb c.auth node.authw ≡ false

permit_make-allowed :
    (c : Command) (h : Hash) (rest : Outcome)
    → MayWrite c (Hash.find_node (arg c 1) h)
    → permit_make c h rest ≡ rest
unfolding permit_make permit
permit_make-allowed c h rest m = elim (Option-cases (Hash.find_node (arg c 1) h)) [
  | inl e ↦ rw (e, permit_make) refl
  | inr (node, e) ↦ rw (e, may node e, permit_make) refl
]
  where
    may : (node : Kv) → Hash.find_node (arg c 1) h ≡ some node → ltb c.auth node.authw ≡ false
    may node e = subst (MayWrite c) e m

written-is_expired :
    (t : ℕ) (k : Text) (v : Value) (r w : ℕ) (o : Option Kv)
    → Kv.is_expired t (written k v r w o)
      ≡ elim o [ none ↦ false | some node ↦ Kv.is_expired t node ]
unfolding written Kv.is_expired Kv.set_v Kv.set_authr Kv.set_authw Kv.new Kv.is_minus_one
written-is_expired t k v r w none = refl
written-is_expired t k v r w (some node) = ground arith

written-v : (k : Text) (v : Value) (r w : ℕ) (o : Option Kv) → (written k v r w o).v ≡ v
unfolding written Kv.set_v Kv.set_authr Kv.set_authw Kv.new
written-v k v r w none = refl
written-v k v r w (some node) = ground arith

written-authr : (k : Text) (v : Value) (w : ℕ) (o : Option Kv) → (written k v 0 w o).authr ≡ 0
unfolding written Kv.set_v Kv.set_authr Kv.set_authw Kv.new
written-authr k v w none = refl
written-authr k v w (some node) = ground arith

pub with_live-expired :
    (k : Text) (t : ℕ) (h : Hash) (rest : Kv → Outcome) (node : Kv)
    → IsTable h
    → Hash.find_node k h ≡ some node
    → Kv.is_expired t node ≡ true
    → reply_of (with_live k t h rest) ≡ some (no_such_key k)
unfolding with_live unless_expired drop_expired reply_of
with_live-expired k t h rest node is e x =
    rw (e, x, (del-find_node k h node e is).runs, with_live, unless_expired, drop_expired) refl

permit-zero :
    (auth level : ℕ) (h : Hash) (rest : Outcome) → level ≡ 0 → permit auth level h rest ≡ rest
unfolding permit
permit-zero auth level h rest e = ground (arith)

get-some :
    (t : ℕ) (c : Command) (h : Hash) (node : Kv)
    → IsTable h
    → Hash.find_node (arg c 1) h ≡ some node
    → node.authr ≡ 0
    → reply_of (Keys.get t c h)
      ≡ some (if Kv.is_expired t node then no_such_key (arg c 1) else text (Kv.data_decode node.v))
get-some t c h node is e r = elim (Bool-cases (Kv.is_expired t node)) [
  | inl x ↦ rw x (unfold Keys.get in with_live-expired (arg c 1) t h _ node is e x)
  | inr x ↦ rw x (
      unfold Keys.get reply_of in
      rw
        (
          with_live-live (arg c 1) t h
              (λ n. permit c.auth n.authr h (reply (text (Kv.data_decode n.v)) h)) node e x,
          permit-zero c.auth node.authr h (reply (text (Kv.data_decode node.v)) h) r,
        )
        refl)
]

make-plain :
    (c : Command) (h : Hash)
    → num_args c ≡ 3
    → MayWrite c (Hash.find_node (arg c 1) h)
    → Keys.make c h ≡ some (confirm, Hash.set (arg c 1) (string (arg c 2)) 0 c.auth h)
unfolding Keys.make Keys.make_case Kv.value_of
make-plain c h n may = permit_make-allowed c h _ may ∙ rw (n, Keys.make_case) refl

set-found :
    (key : Text) (value : Value) (w : ℕ) (h : Hash)
    → IsTable h
    → Hash.find_node key (Hash.set key value 0 w h)
      ≡ some (written key value 0 w (Hash.find_node key h))
set-found key value w h is = (set-find_node key value 0 w h is).0 key ∙ rw (eq_refl key) refl

-- In a well-formed table, a `make` of a key and a value without levels, given by a client whose
-- level suffices, is confirmed; a `get` of the key, by any client and at any time, then replies
-- the value, or, when the key was there and its time had run out by then, that there is no such
-- key.
pub make_lem :
    (c c' : Command) (t : ℕ) (h : Hash)
    → IsTable h
    → num_args c ≡ 3
    → MayWrite c (Hash.find_node (arg c 1) h)
    → arg c' 1 ≡ arg c 1
    → (h' : Hash) × (Keys.make c h ≡ some (confirm, h'))
      × (reply_of (Keys.get t c' h')
          ≡ some (if expired_key t (arg c 1) h then no_such_key (arg c 1) else text (arg c 2)))
unfolding expired_key Kv.data_decode
make_lem c c' t h is n may same =
    let old = Hash.find_node (arg c 1) h in
    let new = written (arg c 1) (string (arg c 2)) 0 c.auth old in
    let h1 = Hash.set (arg c 1) (string (arg c 2)) 0 c.auth h in
    let found = set-found (arg c 1) (string (arg c 2)) c.auth h is in
    let got =
      get-some t c' _ new (set-find_node (arg c 1) (string (arg c 2)) 0 c.auth h is).1
        (ap (λ (k : Text). Hash.find_node k h1) same ∙ found) (written-authr _ _ _ old) in
    (
      _,
      make-plain c h n may,
      got
          ∙ rw
              (
                same,
                written-is_expired t (arg c 1) (string (arg c 2)) 0 c.auth old,
                written-v (arg c 1) (string (arg c 2)) 0 c.auth old,
              )
              refl,
    )
