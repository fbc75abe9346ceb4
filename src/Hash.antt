-- ===== src/Hash.antt =====
-- src/hash.h, src/hash.cpp and src/hashnode.cpp: the table of chains of nodes. A chain is the
-- list of its nodes from `h[i]` along `next_ptr`; a node is the `kv` that it owns.
pub mod Chain
pub mod Frame
pub mod Laws
pub mod Size
pub mod Expire
use Prim.Native.Nat.{bit_xor}
use muse_kv.Prelude.{
  ℕ, zero, suc, ◌+◌, ◌-◌, ◌*◌, ◌/◌, ◌%◌, ◌^◌, Option, none, some, List, [], ◌∷◌, ◌++◌, map, ◌==◌,
  ltb, if◌then◌else◌,
}
use muse_kv.Prelude.Int.{ℤ, pos, int_mod}
use muse_kv.Text.{Text}
use muse_kv.Text.Equal.{◌===◌}
use muse_kv.Hashing.{hash_loop, reduce}
use muse_kv.Kv
use muse_kv.Kv.{Kv, Value}

abbrev pub total_slot_num : ℕ
total_slot_num = 10007

abbrev pub Nodes : Type 0
Nodes = List Kv

pub record Hash : Type 0 where
  pub h : ℕ → Nodes
  pub size : ℕ → ℕ
  pub table_s : ℕ
  pub port_num : ℕ
  pub start_num : ℤ
  pub end_num : ℤ

-- `Hash(int port)`
unfoldable pub new : ℕ → Hash
new port = record {
  h = λ i. [];
  size = λ i. 0;
  table_s = total_slot_num;
  port_num = port;
  start_num = pos 0;
  end_num = pos (total_slot_num - 1);
}

unfoldable pub set_boundary : ℤ → ℤ → Hash → Hash
set_boundary start_n end_n h = record h { start_num = start_n; end_num = end_n }

-- `<<` and the arithmetic `>>` on 32-bit patterns
shl : ℕ → ℕ → ℕ
shl w k = w * 2 ^ k % int_mod

sar : ℕ → ℕ → ℕ
sar w k = if ltb w (2 ^ 31) then w / 2 ^ k else int_mod - 1 - (int_mod - 1 - w) / 2 ^ k

-- the six statements after the loop
mix : ℕ → ℕ
unfolding shl sar
mix w =
    let a = bit_xor w (shl w 3) in
    let b = (a + sar a 5) % int_mod in
    let c = bit_xor b (shl b 4) in
    let d = (c + sar c 17) % int_mod in let e = bit_xor d (shl d 25) in (e + sar e 6) % int_mod

key_hash : Text → ℕ
unfolding mix
key_hash key = mix (hash_loop 64 53 0 key)

pub hash_func : Text → Hash → ℕ
hash_func key h = reduce (key_hash key) h.table_s

-- the walk along a chain
unfoldable pub chain_find : Text → Nodes → Option Kv
chain_find key [] = none
chain_find key (node ∷ nodes) = if node.k === key then some node else chain_find key nodes

-- a write through the pointer that `find_node` returned
unfoldable pub chain_update : Text → (Kv → Kv) → Nodes → Nodes
chain_update key f [] = []
chain_update key f (node ∷ nodes) =
    if node.k === key then f node ∷ nodes else node ∷ chain_update key f nodes

-- the node taken out of its chain
unfoldable pub chain_unlink : Text → Nodes → Nodes
chain_unlink key [] = []
chain_unlink key (node ∷ nodes) = if node.k === key then nodes else node ∷ chain_unlink key nodes

unfoldable pub find_node : Text → Hash → Option Kv
find_node key h = chain_find key (h.h (hash_func key h))

abbrev pub write {ℓ} : {A : Type ℓ} → (ℕ → A) → ℕ → A → ℕ → A
write f i a j = if j == i then a else f j

-- what the code does to the object of a node that `find_node` returned
unfoldable pub update_node : Text → (Kv → Kv) → Hash → Hash
update_node key f h =
    let i = hash_func key h in record h { h = write h.h i (chain_update key f (h.h i)) }

unfoldable pub set : Text → Value → ℕ → ℕ → Hash → Hash
set key value authr authw h =
    let i = hash_func key h in
    elim (find_node key h) [
      | none ↦ record h {
        h = write h.h i (Kv.new key value authr authw ∷ h.h i);
        size = write h.size i (h.size i + 1);
      }
      | some node ↦
          update_node key (λ n. Kv.set_authw authw (Kv.set_authr authr (Kv.set_v value n))) h
    ]

-- `none` stands for the default value, with no address
pub get : Text → Hash → Option Value
get key h = elim (find_node key h) [ none ↦ none | some node ↦ some node.v ]

-- `none`: the code follows the NULL that `find_node` returned. The unlock of the mutex in the node,
-- after the node is freed, is left out, as are all mutexes.
unfoldable pub del : Text → Hash → Option Hash
del key h =
    let i = hash_func key h in
    elim (find_node key h) [
      | none ↦ none
      | some node ↦ some (record h {
        h = write h.h i (chain_unlink key (h.h i));
        size = write h.size i (h.size i - 1);
      })
    ]

-- the loops over `i < TABLE_S`, by the slots that are left
keys_from : ℕ → ℕ → Hash → List Text
keys_from zero i h = []
keys_from (suc left) i h = map (λ node. node.k) (h.h i) ++ keys_from left (suc i) h

pub keys : Hash → List Text
unfolding keys_from
keys h = keys_from h.table_s 0 h

sizes_from : ℕ → ℕ → Hash → ℕ
sizes_from zero i h = 0
sizes_from (suc left) i h = h.size i + sizes_from left (suc i) h

unfoldable pub get_size : Hash → ℕ
unfolding sizes_from
get_size h = sizes_from h.table_s 0 h
