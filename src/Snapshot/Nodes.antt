-- ===== src/Snapshot/Nodes.antt =====
-- The nodes of a table in the order in which they are saved, and the table that setting them makes.
use muse_kv.Prelude.{
  ℕ, zero, suc, ◌+◌, ◌≤◌, ◌<◌, ◌≡◌, ◌≢◌, refl, ap, subst, ◌∙◌, Option, none, some, [], ◌∷◌, ◌++◌,
  All, All-append, arith, ◌==◌, if◌then◌else◌, Bool-cases, inl, inr,
}
use muse_kv.Text.{Text}
use muse_kv.Text.Equal.{◌===◌, eq_iff, eq_refl}
use muse_kv.Kv.{Kv}
use muse_kv.Hash
use muse_kv.Hash.{Hash, Nodes, chain_find, find_node, hash_func}
use muse_kv.Hash.Chain.{Unique}
use muse_kv.Hash.Laws.{IsTable, hash_func-lt, written, set-find_node}
use muse_kv.Snapshot.Line.{reread}

unfoldable pub nodes_from : ℕ → ℕ → Hash → Nodes
nodes_from zero i h = []
nodes_from (suc left) i h = h.h i ++ nodes_from left (suc i) h

unfoldable pub nodes : Hash → Nodes
unfolding nodes_from
nodes h = nodes_from h.table_s 0 h

-- the nodes set one after the other
unfoldable pub restore : Nodes → Hash → Hash
restore [] h = h
restore (node ∷ ns) h = restore ns (Hash.set node.k (reread node.v) node.authr node.authw h)

or_find : Option Kv → Option Kv → Option Kv
or_find none o = o
or_find (some n) o = some n

chain_find-append :
    (key : Text) (c d : Nodes)
    → chain_find key (c ++ d) ≡ or_find (chain_find key c) (chain_find key d)
unfolding chain_find or_find
chain_find-append key [] d = refl
chain_find-append key (n ∷ c) d = ground (arith, chain_find-append key c d)

find_head : (n : Kv) (c : Nodes) → chain_find n.k (n ∷ c) ≢ none
unfolding chain_find
find_head n c q = ground (arith, eq_refl n.k)

find-none_tail :
    (key : Text) (n : Kv) (c : Nodes) → chain_find key (n ∷ c) ≡ none → chain_find key c ≡ none
unfolding chain_find
find-none_tail key n c q = ground (arith)

Unique-append :
    (c d : Nodes)
    → Unique c
    → Unique d
    → ((key : Text) → chain_find key c ≢ none → chain_find key d ≡ none)
    → Unique (c ++ d)
unfolding or_find
Unique-append [] d u v apart = v
Unique-append (n ∷ c) d u v apart = (
  chain_find-append n.k c d ∙ rw (u.0, apart n.k (find_head n c)) refl,
  Unique-append c d u.1 v (λ key ne. apart key (λ q. ne (find-none_tail key n c q))),
)

module _ (h : Hash) (is : IsTable h) where
  not_here :
      (key : Text) (left i : ℕ)
      → i ≢ hash_func key h
      → chain_find key (h.h i ++ nodes_from left (suc i) h)
        ≡ chain_find key (nodes_from left (suc i) h)
  unfolding or_find
  not_here key left i ne =
      rw (chain_find-append key (h.h i) (nodes_from left (suc i) h), is.placed key i ne) refl

  -- Behind the slot of its hash no chain has the key.
  find-behind :
      (key : Text) (left i : ℕ) → hash_func key h < i → chain_find key (nodes_from left i h) ≡ none
  unfolding nodes_from
  find-behind key zero i b = unfold chain_find in refl
  find-behind key (suc left) i b =
      not_here key left i (λ e. omega (arith, e)) ∙ find-behind key left (suc i) (omega (arith, b))

  -- A walk over the chains from slot `i` on finds what the chain of the key's slot has.
  find-nodes_from :
      (key : Text) (left i : ℕ)
      → i ≤ hash_func key h
      → hash_func key h < i + left
      → chain_find key (nodes_from left i h) ≡ chain_find key (h.h (hash_func key h))
  unfolding nodes_from or_find
  find-nodes_from key zero i a b = absurd (omega (arith, a, b))
  find-nodes_from key (suc left) i a b = elim (Bool-cases (i == hash_func key h)) [
    | inl y ↦
        let same : i ≡ hash_func key h = ground arith in
        rw
          (
            chain_find-append key (h.h i) (nodes_from left (suc i) h),
            find-behind key left (suc i) (omega (arith, same)),
            same,
          )
          (go (chain_find key (h.h (hash_func key h))))
    | inr x ↦
        let other : i ≢ hash_func key h = ground arith in
        not_here key left i other
        ∙ find-nodes_from key left (suc i) (omega (arith, a, other)) (omega (arith, b))
  ]
    where
      go : (o : Option Kv) → or_find o none ≡ o
      go none = refl
      go (some n) = refl

  pub find-nodes : (key : Text) → chain_find key (nodes h) ≡ find_node key h
  unfolding nodes find_node
  find-nodes key =
      find-nodes_from key h.table_s 0 (omega arith) (omega (arith, hash_func-lt key h is.slots))

  Unique-nodes_from : (left i : ℕ) → Unique (nodes_from left i h)
  unfolding nodes_from
  Unique-nodes_from zero i = tt
  Unique-nodes_from (suc left) i =
      Unique-append (h.h i) (nodes_from left (suc i) h) (is.unique i)
        (Unique-nodes_from left (suc i))
        (λ key ne. find-behind key left (suc i) (elim (Bool-cases (i == hash_func key h)) [
          | inl y ↦ ground arith
          | inr x ↦ absurd (ne (is.placed key i (ground arith)))
        ]))

  pub Unique-nodes : Unique (nodes h)
  unfolding nodes
  Unique-nodes = Unique-nodes_from h.table_s 0

-- What a lookup of the key gives after a restore, from the saved node and the one before.
pub restored : Text → Option Kv → Option Kv → Option Kv
restored key none old = old
restored key (some n) old = some (written key (reread n.v) n.authr n.authw old)

restored-cons :
    (n : Kv) (ns : Nodes) (h : Hash) (key : Text) (o : Option Kv)
    → chain_find n.k ns ≡ none
    → o ≡ (
        if n.k === key
        then some (written n.k (reread n.v) n.authr n.authw (find_node n.k h))
        else find_node key h)
    → restored key (chain_find key ns) o ≡ restored key (chain_find key (n ∷ ns)) (find_node key h)
unfolding restored chain_find
restored-cons n ns h key o later e = elim (Bool-cases (n.k === key)) [
  | inl y ↦
      let same = (eq_iff n.k key).0 y in
      let gone : chain_find key ns ≡ none =
        subst (λ (k : Text). chain_find k ns ≡ none) same later in
      rw (gone, e, y)
        (ap (λ (k : Text). some (written k (reread n.v) n.authr n.authw (find_node k h))) same)
  | inr x ↦ rw (e, x) refl
]

pub restore-find_node :
    (ns : Nodes) (h : Hash) (key : Text)
    → IsTable h
    → Unique ns
    → (find_node key (restore ns h) ≡ restored key (chain_find key ns) (find_node key h))
      × IsTable (restore ns h)
unfolding restore restored
restore-find_node [] h key is u = (unfold chain_find in refl, is)
restore-find_node (n ∷ ns) h key is u =
    let h' = Hash.set n.k (reread n.v) n.authr n.authw h in
    let set = set-find_node n.k (reread n.v) n.authr n.authw h is in
    let (found, ok) = restore-find_node ns h' key set.1 u.1 in
    (found ∙ restored-cons n ns h key (find_node key h') u.0 (set.0 key), ok)

nodes_from-All :
    (P : Kv → Type 0) (left i : ℕ) (h : Hash)
    → ((j : ℕ) → All P (h.h j))
    → All P (nodes_from left i h)
unfolding nodes_from
nodes_from-All P zero i h a = tt
nodes_from-All P (suc left) i h a =
    All-append P (h.h i) (nodes_from left (suc i) h) (a i) (nodes_from-All P left (suc i) h a)

-- What holds of the nodes of every chain holds of all nodes.
pub nodes-All : (P : Kv → Type 0) (h : Hash) → ((j : ℕ) → All P (h.h j)) → All P (nodes h)
unfolding nodes
nodes-All P h a = nodes_from-All P h.table_s 0 h a
