-- ===== src/Hash/Chain.antt =====
-- One chain of nodes: what the walk finds after a node is added, written or taken out.
use muse_kv.Prelude.{
  ◌+◌, ◌≡◌, refl, ap, ◌∙◌, false, none, some, [], ◌∷◌, arith, if◌then◌else◌, length, Bool-cases,
  inl, inr,
}
use muse_kv.Text.{Text}
use muse_kv.Text.Equal.{◌===◌, eq_iff}
use muse_kv.Kv.{Kv}
use muse_kv.Hash.{Nodes, chain_find, chain_update, chain_unlink}

-- No key stands twice in a chain.
abbrev pub Unique : Nodes → Type 0
Unique [] = Unit
Unique (node ∷ nodes) = (chain_find node.k nodes ≡ none) × Unique nodes

pub find-key : (key : Text) (c : Nodes) (node : Kv) → chain_find key c ≡ some node → node.k ≡ key
unfolding chain_find
find-key key [] node h = cc
find-key key (n ∷ c) node h = ground (arith, find-key key c node, eq_iff n.k key)

module _ (key j : Text) where
  pub find-update :
      (f : Kv → Kv) (c : Nodes) (node : Kv)
      → ((n : Kv) → (f n).k ≡ n.k)
      → chain_find key c ≡ some node
      → chain_find j (chain_update key f c) ≡ (if key === j then some (f node) else chain_find j c)
  unfolding chain_find chain_update
  find-update f [] node keep h = cc
  find-update f (n ∷ c) node keep h = ground (
    arith,
    find-update f c node keep,
    keep n,
    eq_iff n.k key,
    eq_iff n.k j,
    eq_iff key j,
    eq_iff (f n).k j,
  )

  pub find-unlink :
      (c : Nodes) (node : Kv)
      → Unique c
      → chain_find key c ≡ some node
      → chain_find j (chain_unlink key c) ≡ (if key === j then none else chain_find j c)
  unfolding chain_find chain_unlink
  find-unlink [] node u h = cc
  find-unlink (n ∷ c) node u h = ground (
    arith,
    find-unlink c node u.1,
    u.0,
    eq_iff n.k key,
    eq_iff n.k j,
    eq_iff key j,
    ap (λ (k : Text). chain_find k c),
  )

pub length-update :
    (key : Text) (f : Kv → Kv) (c : Nodes) → length (chain_update key f c) ≡ length c
unfolding chain_update
length-update key f [] = refl
length-update key f (n ∷ c) = ground (arith, length-update key f c)

pub length-unlink :
    (key : Text) (c : Nodes) (node : Kv)
    → chain_find key c ≡ some node
    → length (chain_unlink key c) + 1 ≡ length c
unfolding chain_find chain_unlink
length-unlink key [] node h = cc
length-unlink key (n ∷ c) node h = ground (arith, length-unlink key c node)

find_later :
    (key : Text) (n : Kv) (c : Nodes) (node : Kv)
    → chain_find key (n ∷ c) ≡ some node
    → (n.k === key) ≡ false
    → chain_find key c ≡ some node
unfolding chain_find
find_later key n c node h e = ground arith

pub Unique-update :
    (key : Text) (f : Kv → Kv) (c : Nodes) (node : Kv)
    → ((n : Kv) → (f n).k ≡ n.k)
    → Unique c
    → chain_find key c ≡ some node
    → Unique (chain_update key f c)
unfolding chain_update
Unique-update key f [] node keep u h = tt
Unique-update key f (n ∷ c) node keep u h = elim (Bool-cases (n.k === key)) [
  | inl e ↦ rw e (ap (λ (k : Text). chain_find k c) (keep n) ∙ u.0, u.1)
  | inr d ↦
      let h' = find_later key n c node h d in
      rw d (
        ground (arith, find-update key n.k f c node keep h', eq_iff key n.k, eq_iff n.k key, u.0),
        Unique-update key f c node keep u.1 h',
      )
]

pub Unique-unlink :
    (key : Text) (c : Nodes) (node : Kv)
    → Unique c
    → chain_find key c ≡ some node
    → Unique (chain_unlink key c)
unfolding chain_unlink
Unique-unlink key [] node u h = tt
Unique-unlink key (n ∷ c) node u h = elim (Bool-cases (n.k === key)) [
  | inl e ↦ rw e u.1
  | inr d ↦
      let h' = find_later key n c node h d in
      rw d (
        ground (arith, find-unlink key n.k c node u.1 h', eq_iff key n.k, eq_iff n.k key, u.0),
        Unique-unlink key c node u.1 h',
      )
]

-- Writing back the node that was found changes nothing.
pub update-same :
    (key : Text) (c : Nodes) (node : Kv)
    → chain_find key c ≡ some node
    → chain_update key (λ _. node) c ≡ c
unfolding chain_find chain_update
update-same key [] node h = refl
update-same key (n ∷ c) node h = ground (arith, update-same key c node)
