-- ===== src/Hash/Size.antt =====
-- `keys` and `get_size` of src/hash.cpp against the table.
use muse_kv.Prelude.{
  ℕ, zero, suc, ◌≡◌, refl, ap, some, List, [], ◌∷◌, map, arith, length, All, All-append,
  length-append, Bool-cases, inl, inr,
}
use muse_kv.Text.{Text}
use muse_kv.Text.Equal.{◌===◌, eq_refl}
use muse_kv.Kv.{Kv}
use muse_kv.Hash.{
  Hash, Nodes, hash_func, chain_find, find_node, keys_from, keys, sizes_from, get_size,
}
use muse_kv.Hash.Laws.{IsTable}

-- A lookup of the key finds a node.
abbrev pub Found : Hash → Text → Type 0
Found h key = (node : Kv) × (find_node key h ≡ some node)

length-map_k : (c : Nodes) → length (map (λ (n : Kv). n.k) c) ≡ length c
length-map_k [] = refl
length-map_k (n ∷ c) = ap suc (length-map_k c)

length-keys_from :
    (left i : ℕ) (h : Hash) → IsTable h → length (keys_from left i h) ≡ sizes_from left i h
unfolding keys_from sizes_from
length-keys_from zero i h is = refl
length-keys_from (suc left) i h is = ground (
  arith,
  is.sized i,
  length-append {0} (map (λ (n : Kv). n.k) (h.h i)) (keys_from left (suc i) h),
  length-map_k (h.h i),
  length-keys_from left (suc i) h is,
)

chain-Found :
    (h : Hash) (i : ℕ) (key : Text) (node : Kv)
    → IsTable h
    → chain_find key (h.h i) ≡ some node
    → Found h key
unfolding find_node
chain-Found h i key node is e =
    let same : i ≡ hash_func key h
        → chain_find key (h.h i) ≡ chain_find key (h.h (hash_func key h)) =
      ap (λ (j : ℕ). chain_find key (h.h j)) in
    (node, ground (arith, is.placed key i, same))

All-weaken :
    (P Q : Text → Type 0) → ((k : Text) → P k → Q k) → (ks : List Text) → All P ks → All Q ks
All-weaken P Q f [] a = tt
All-weaken P Q f (k ∷ ks) a = (f k a.0, All-weaken P Q f ks a.1)

later :
    (n : Kv) (c : Nodes) (k : Text)
    → (node : Kv) × (chain_find k c ≡ some node)
    → (node : Kv) × (chain_find k (n ∷ c) ≡ some node)
unfolding chain_find
later n c k (node, e) = elim (Bool-cases (n.k === k)) [
  | inl y ↦ (n, rw y refl)
  | inr x ↦ (node, rw x e)
]

chain-keys :
    (c : Nodes) → All (λ k. (node : Kv) × (chain_find k c ≡ some node)) (map (λ (n : Kv). n.k) c)
unfolding chain_find
chain-keys [] = tt
chain-keys (n ∷ c) = ((n, rw (eq_refl n.k) refl), All-weaken _ _ (later n c) _ (chain-keys c))

keys_from-Found : (left i : ℕ) (h : Hash) → IsTable h → All (Found h) (keys_from left i h)
unfolding keys_from
keys_from-Found zero i h is = tt
keys_from-Found (suc left) i h is =
    All-append (Found h) _ _
      (All-weaken _ _ (λ k (f : (node : Kv) × _). chain-Found h i k f.0 is f.1) _
        (chain-keys (h.h i)))
      (keys_from-Found left (suc i) h is)

-- In a well-formed table `keys` returns as many keys as `get_size` counts, and a lookup of each of
-- them finds a node.
pub keys_lem : (h : Hash) → IsTable h → (length (keys h) ≡ get_size h) × All (Found h) (keys h)
unfolding keys get_size
keys_lem h is = (length-keys_from h.table_s 0 h is, keys_from-Found h.table_s 0 h is)
