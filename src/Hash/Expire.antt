-- ===== src/Hash/Expire.antt =====
-- One round of `ttl_expire_background` of src/hash.cpp, which picks a node at random. What `rand()`
-- returns and the clock at each slot are arguments.
use muse_kv.Prelude.{
  ℕ, zero, suc, ◌+◌, ◌-◌, ◌%◌, ◌<◌, ◌≡◌, ◌⊎◌, refl, sym, ◌∙◌, subst, true, Option, none, some, [],
  ◌∷◌, ◌>>=◌, arith, ltb, leb, ◌==◌, if◌then◌else◌, length, get_elem?, Bool-cases, inl, inr,
}
use muse_kv.Text.{Text}
use muse_kv.Text.Equal.{◌===◌, eq_iff, eq_refl}
use muse_kv.Kv
use muse_kv.Kv.{Kv}
use muse_kv.Hash.{Hash, Nodes, hash_func, chain_find, find_node, del, get_size}
use muse_kv.Hash.Chain.{Unique}
use muse_kv.Hash.Laws.{IsTable, del-find_node}

-- `none` is a NULL that the walk along the chain follows.
expire_node : ℕ → Option Kv → Hash → Option Hash
expire_node curr_time none h = none
expire_node curr_time (some node) h = if Kv.is_expired curr_time node then del node.k h else some h

-- The loop over the slots from `i` on. It goes on behind the node that it found, with `random` at 1.
expire_walk : (ℕ → ℕ) → ℕ → ℕ → ℕ → Hash → Option Hash
unfolding expire_node
expire_walk clock zero i random h = some h
expire_walk clock (suc left) i random h =
    if ltb (h.size i) random
    then expire_walk clock left (i + 1) (random - h.size i) h
    else expire_node (clock i) (get_elem? (h.h i) (random - 1)) h
      >>= expire_walk clock left (i + 1) 1

-- With one key or none the thread sleeps.
pub expire_round : (ℕ → ℕ) → ℕ → Hash → Option Hash
unfolding expire_walk
expire_round clock rand h =
    if leb (get_size h) 1
    then some h
    else expire_walk clock h.table_s 0 (rand % (get_size h - 1) + 1) h

-- The key finds what it found, or its node had run out at some slot's time and is gone.
abbrev pub LastsRound : (ℕ → ℕ) → Hash → Hash → Text → Type 0
LastsRound clock h h' key =
    (find_node key h' ≡ find_node key h)
    ⊎ ((i : ℕ) × (node : Kv) × (find_node key h ≡ some node)
        × (Kv.is_expired (clock i) node ≡ true)
        × (find_node key h' ≡ none))

-- The round ends in a well-formed table that keeps every key that has not run out.
pub record Expires (clock : ℕ → ℕ) (h : Hash) (run : Option Hash) : Type 0 where
  pub after : Hash
  pub runs : run ≡ some after
  pub is : IsTable after
  pub lasts : (key : Text) → LastsRound clock h after key

LastsRound-trans :
    (clock : ℕ → ℕ) (h g k : Hash) (key : Text)
    → LastsRound clock h g key
    → LastsRound clock g k key
    → LastsRound clock h k key
LastsRound-trans clock h g k key (inl a) (inl b) = inl (b ∙ a)
LastsRound-trans clock h g k key (inl a) (inr (i, n, e, x, z)) = inr (i, n, sym a ∙ e, x, z)
LastsRound-trans clock h g k key (inr (i, n, e, x, z)) (inl b) = inr (i, n, e, x, b ∙ z)
LastsRound-trans clock h g k key (inr (i, n, e, x, z)) (inr (j, m, f, y, w)) =
    let both : none ≡ some m = sym z ∙ f in cc

get_elem?-some : (c : Nodes) (p : ℕ) → p < length c → (node : Kv) × (get_elem? c p ≡ some node)
get_elem?-some [] p h = absurd (omega (arith, h))
get_elem?-some (n ∷ c) zero h = (n, refl)
get_elem?-some (n ∷ c) (suc p) h = get_elem?-some c p (omega (arith, h))

chain_find-get_elem? :
    (c : Nodes) (p : ℕ) (node : Kv)
    → Unique c
    → get_elem? c p ≡ some node
    → chain_find node.k c ≡ some node
unfolding chain_find
chain_find-get_elem? [] p node u e = cc
chain_find-get_elem? (n ∷ c) zero node u e =
    let same : n ≡ node = cc in
    subst (λ (m : Kv). chain_find m.k (n ∷ c) ≡ some m) same (rw (eq_refl n.k) refl)
chain_find-get_elem? (n ∷ c) (suc p) node u e =
    let ih = chain_find-get_elem? c p node u.1 e in
    elim (Bool-cases (n.k === node.k)) [
      | inl y ↦
          let gone = subst (λ (k : Text). chain_find k c ≡ none) ((eq_iff n.k node.k).0 y) u.0 in
          let both : none ≡ some node = sym gone ∙ ih in cc
      | inr x ↦ rw x ih
    ]

find_node-get_elem? :
    (h : Hash) (i p : ℕ) (node : Kv)
    → IsTable h
    → get_elem? (h.h i) p ≡ some node
    → find_node node.k h ≡ some node
unfolding find_node
find_node-get_elem? h i p node is e =
    let found = chain_find-get_elem? (h.h i) p node (is.unique i) e in
    elim (Bool-cases (i == hash_func node.k h)) [
      | inl y ↦
          let same : i ≡ hash_func node.k h = ground arith in
          subst (λ j. chain_find node.k (h.h j) ≡ some node) same found
      | inr x ↦ let both : none ≡ some node = sym (is.placed node.k i (ground arith)) ∙ found in cc
    ]

module _ (clock : ℕ → ℕ) where
  expire_node-Expires :
      (h : Hash) (i p : ℕ) (node : Kv)
      → IsTable h
      → get_elem? (h.h i) p ≡ some node
      → Expires clock h (expire_node (clock i) (some node) h)
  unfolding expire_node
  expire_node-Expires h i p node is e = elim (Bool-cases (Kv.is_expired (clock i) node)) [
    | inl y ↦
        let found = find_node-get_elem? h i p node is e in
        let d = del-find_node node.k h node found is in
        record {
          after = d.after;
          runs = rw y d.runs;
          is = d.is;
          lasts = λ key. elim (Bool-cases (node.k === key)) [
            | inl z ↦ inr (
              i,
              node,
              subst (λ (k : Text). find_node k h ≡ some node) ((eq_iff node.k key).0 z) found,
              y,
              d.found key ∙ rw z refl,
            )
            | inr w ↦ inl (d.found key ∙ rw w refl)
          ];
        }
    | inr x ↦ record { after = h; runs = rw x refl; is = is; lasts = λ key. inl refl }
  ]

  expire_walk-Expires :
      (left i random : ℕ) (h : Hash)
      → IsTable h
      → 0 < random
      → Expires clock h (expire_walk clock left i random h)
  unfolding expire_walk
  expire_walk-Expires zero i random h is r = record {
    after = h;
    runs = refl;
    is = is;
    lasts = λ key. inl refl;
  }
  expire_walk-Expires (suc left) i random h is r = elim (Bool-cases (ltb (h.size i) random)) [
    | inl y ↦ rw y (expire_walk-Expires left (i + 1) (random - h.size i) h is (ground arith))
    | inr x ↦
        let (node, e) = get_elem?-some (h.h i) (random - 1) (ground (arith, is.sized i)) in
        let one = expire_node-Expires h i (random - 1) node is e in
        let rest = expire_walk-Expires left (i + 1) 1 one.after one.is (omega arith) in
        record {
          after = rest.after;
          runs = rw (x, e, one.runs) rest.runs;
          is = rest.is;
          lasts = λ key.
              LastsRound-trans clock h one.after rest.after key (one.lasts key) (rest.lasts key);
        }
  ]

  -- In a well-formed table a round of the expiry follows no NULL in its walk along a chain,
  -- whatever it picks, and leaves a well-formed table in which every key finds what it found,
  -- unless its time had run out. The unlock of a freed mutex in `del` is not part of this.
  pub expire_round-Expires :
      (rand : ℕ) (h : Hash) → IsTable h → Expires clock h (expire_round clock rand h)
  unfolding expire_round
  expire_round-Expires rand h is = elim (Bool-cases (leb (get_size h) 1)) [
    | inl y ↦ rw y (record { after = h; runs = refl; is = is; lasts = λ key. inl refl })
    | inr x ↦
        rw x (expire_walk-Expires h.table_s 0 (rand % (get_size h - 1) + 1) h is (omega arith))
  ]
