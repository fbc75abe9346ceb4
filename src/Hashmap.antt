-- ===== src/Hashmap.antt =====
-- src/hashmap.h and src/hashmap.cpp: a table of 97 chains of nodes. A chain is the list of its
-- fields and values from `h_map[i]` along `next_ptr`.
pub mod Chains
pub mod Laws
pub mod Print
use muse_kv.Prelude.{
  ℕ, zero, suc, ◌+◌, ◌-◌, Bool, true, false, Option, none, some, List, [], ◌∷◌, ◌++◌, ◌==◌, ltb,
  if◌then◌else◌, length, get_or, set, replicate,
}
use muse_kv.Text.{Text, comma}
use muse_kv.Text.Equal.{◌===◌}
use muse_kv.Hashing.{hash_loop, reduce}

abbrev pub hash_size : ℕ
hash_size = 97

abbrev pub Chain : Type 0
Chain = List (Text × Text)

pub record Hashmap : Type 0 where
  pub h_map : List Chain
  pub size : ℕ

pub new : Hashmap
new = record { h_map = replicate hash_size []; size = 0 }

-- The source calls it nowhere.
pub hash_func : Text → ℕ
hash_func field = reduce (hash_loop 64 53 0 field) hash_size

-- the node of a field, as its value
pub chain_find : Text → Chain → Option Text
chain_find field [] = none
chain_find field ((f, v) ∷ chain) = if f === field then some v else chain_find field chain

-- `node->change_v(value)` at that node
pub chain_change : Text → Text → Chain → Chain
chain_change field value [] = []
chain_change field value ((f, v) ∷ chain) =
    if f === field then (f, value) ∷ chain else (f, v) ∷ chain_change field value chain

-- the two `if`s of `del_fv`, which take the node out of its chain
pub chain_unlink : Text → Chain → Chain
chain_unlink field [] = []
chain_unlink field ((f, v) ∷ chain) =
    if f === field then chain else (f, v) ∷ chain_unlink field chain

-- The node that `find_hashmapNode` returns: `*index`, which it writes only if it finds the node,
-- and the value.
find_from : ℕ → Text → List Chain → Option (ℕ × Text)
find_from i field [] = none
find_from i field (c ∷ h_map) = elim (chain_find field c) [
  | some v ↦ some (i, v)
  | none ↦ find_from (suc i) field h_map
]

pub find_node : Text → Hashmap → Option (ℕ × Text)
unfolding find_from
find_node field m = find_from 0 field m.h_map

abbrev pub is_empty : Hashmap → Bool
is_empty m = m.size == 0

abbrev pub null_text : Text
null_text = b'N' ∷ b'U' ∷ b'L' ∷ b'L' ∷ []

pub get_v : Text → Hashmap → Text
get_v field m = elim (find_node field m) [ none ↦ null_text | some (i, v) ↦ v ]

-- A new node goes to the front of `h_map[index]`, and `index` is still 0 there.
pub set_fv : Text → Text → Hashmap → Hashmap
set_fv field value m = elim (find_node field m) [
  | none ↦ record {
    h_map = set m.h_map 0 ((field, value) ∷ get_or m.h_map 0 []);
    size = m.size + 1;
  }
  | some (i, v) ↦ record m {
    h_map = set m.h_map i (chain_change field value (get_or m.h_map i []));
  }
]

-- `none`: the code follows the NULL that `find_hashmapNode` returned
pub del_fv : Text → Hashmap → Option Hashmap
del_fv field m = elim (find_node field m) [
  | none ↦ none
  | some (i, v) ↦ some (record {
    h_map = set m.h_map i (chain_unlink field (get_or m.h_map i []));
    size = m.size - 1;
  })
]

-- Each printing loop writes the first node of a chain with no comma before it.
module _ (show : Text × Text → Text) where
  show_rest : Text → Chain → Text
  show_rest result [] = result
  show_rest result (e ∷ chain) = show_rest (result ++ comma ∷ show e) chain

  show_chain : Text → Chain → Text
  show_chain result [] = result
  show_chain result (e ∷ chain) = show_rest (result ++ show e) chain

  show_table : Text → List Chain → Text
  show_table result [] = result
  show_table result (c ∷ h_map) = show_table (show_chain result c) h_map

pub fields : Hashmap → Text
unfolding show_rest show_chain show_table
fields m = show_table (λ e. e.0) [] m.h_map

pub values : Hashmap → Text
unfolding show_rest show_chain show_table
values m = show_table (λ e. e.1) [] m.h_map

pub fvs : Hashmap → Text
unfolding show_rest show_chain show_table
fvs m = show_table (λ e. e.0 ++ comma ∷ e.1) [] m.h_map
