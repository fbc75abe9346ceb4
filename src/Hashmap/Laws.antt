-- ===== src/Hashmap/Laws.antt =====
-- The hashmap as a finite map from fields to values.
use mathlib.Core.Option
use muse_kv.Prelude.{
  ℕ, zero, suc, ◌+◌, ◌-◌, ◌≡◌, refl, sym, ap, ◌∙◌, Option, none, some, [], ◌∷◌, arith,
  if◌then◌else◌, length, replicate, Option-cases, inl, inr,
}
use muse_kv.Text.{Text}
use muse_kv.Text.Equal.{◌===◌}
use muse_kv.Hashmap.Chains.{
  Unique, find-change, find-unlink, length-change, length-unlink, Unique-change, Unique-unlink,
}
use muse_kv.Hashmap.{
  Chain, Hashmap, new, chain_find, chain_change, chain_unlink, find_from, find_node, set_fv, del_fv,
}

-- Every node stands in the first chain, once, and `size` counts the nodes.
pub record IsMap (m : Hashmap) : Type 0 where
  pub chain : Chain
  pub table_eq : m.h_map ≡ chain ∷ replicate 96 []
  pub counted : m.size ≡ length chain
  pub unique : Unique chain

find_from-empty : (i : ℕ) (field : Text) (n : ℕ) → find_from i field (replicate n []) ≡ none
unfolding find_from chain_find
find_from-empty i field zero = refl
find_from-empty i field (suc n) = find_from-empty (suc i) field n

first_index : Option Text → Option (ℕ × Text)
first_index none = none
first_index (some v) = some (0, v)

module _ (m : Hashmap) (is : IsMap m) where
  find_node-chain : (field : Text) → find_node field m ≡ first_index (chain_find field is.chain)
  unfolding find_node first_index
  find_node-chain field = rw is.table_eq (go (chain_find field is.chain) refl)
    where
      go :
          (o : Option Text)
          → chain_find field is.chain ≡ o
          → find_from 0 field (is.chain ∷ replicate 96 []) ≡ first_index (chain_find field is.chain)
      go none e = rw (e, find_from) (find_from-empty 1 field 96)
      go (some v) e = rw (e, find_from)

-- The value of a field: what `find_hashmapNode` finds.
pub lookup : Text → Hashmap → Option Text
lookup field m = Option.map (λ e. e.1) (find_node field m)

lookup-chain :
    (m : Hashmap) (is : IsMap m) (field : Text) → lookup field m ≡ chain_find field is.chain
unfolding lookup
lookup-chain m is field =
    ap (Option.map (λ e. e.1)) (find_node-chain m is field) ∙ go (chain_find field is.chain)
  where
    go : (o : Option Text) → Option.map (λ (e : ℕ × Text). e.1) (first_index o) ≡ o
    go none = unfold first_index in refl
    go (some v) = unfold first_index in refl

of_chain : Chain → ℕ → Hashmap
of_chain c n = record { h_map = c ∷ replicate 96 []; size = n }

of_chain-IsMap : (c : Chain) (n : ℕ) → n ≡ length c → Unique c → IsMap (of_chain c n)
unfolding of_chain
of_chain-IsMap c n e u = record { chain = c; table_eq = refl; counted = e; unique = u }

lookup-of_chain :
    (c : Chain) (n : ℕ)
    → n ≡ length c
    → Unique c
    → (field : Text) → lookup field (of_chain c n) ≡ chain_find field c
lookup-of_chain c n e u field =
    unfold of_chain in
    lookup-chain (record { h_map = c ∷ replicate 96 []; size = n })
      (record { chain = c; table_eq = refl; counted = e; unique = u }) field

set_fv-new :
    (m : Hashmap) (is : IsMap m) (f value : Text)
    → chain_find f is.chain ≡ none
    → set_fv f value m ≡ of_chain ((f, value) ∷ is.chain) (m.size + 1)
unfolding of_chain set_fv first_index
set_fv-new m is f value e =
    rw (find_node-chain m is f ∙ ap first_index e, set_fv, first_index, is.table_eq)

set_fv-old :
    (m : Hashmap) (is : IsMap m) (f value old : Text)
    → chain_find f is.chain ≡ some old
    → set_fv f value m ≡ of_chain (chain_change f value is.chain) m.size
unfolding of_chain set_fv first_index
set_fv-old m is f value old e =
    rw (find_node-chain m is f ∙ ap first_index e, set_fv, first_index, is.table_eq)

-- On a well-formed map, after a write the value is found under its field, all other fields keep
-- theirs, `size` has grown by one if the field is new, and the map is well formed, with every node
-- in the first chain.
pub set_fv_lem :
    (m : Hashmap) (f value : Text)
    → IsMap m
    → ((g : Text) → lookup g (set_fv f value m) ≡ (if f === g then some value else lookup g m))
      × ((set_fv f value m).size ≡ elim (lookup f m) [ none ↦ m.size + 1 | some _ ↦ m.size ])
      × IsMap (set_fv f value m)
set_fv_lem m f value is = elim (Option-cases (chain_find f is.chain)) [
  | inl e ↦
      let c : Chain = (f, value) ∷ is.chain in
      let n : m.size + 1 ≡ length c = omega (arith, is.counted) in
      rw (set_fv-new m is f value e, lookup-chain m is f ∙ e)
        (
          (λ g.
              lookup-of_chain c (m.size + 1) n (e, is.unique) g
              ∙ (unfold chain_find in ground (arith, lookup-chain m is g))),
          (unfold of_chain in refl),
          of_chain-IsMap c (m.size + 1) n (e, is.unique),
        )
  | inr (old, e) ↦
      let c = chain_change f value is.chain in
      let n : m.size ≡ length c = is.counted ∙ sym (length-change f value is.chain) in
      let u = Unique-change f value is.chain old is.unique e in
      rw (set_fv-old m is f value old e, lookup-chain m is f ∙ e)
        (
          (λ g.
              lookup-of_chain c m.size n u g
              ∙ find-change f g value is.chain old e
              ∙ ap (λ (o : Option Text). if f === g then some value else o)
                  (sym (lookup-chain m is g))),
          (unfold of_chain in refl),
          of_chain-IsMap c m.size n u,
        )
]

del_fv-old :
    (m : Hashmap) (is : IsMap m) (f old : Text)
    → chain_find f is.chain ≡ some old
    → del_fv f m ≡ some (of_chain (chain_unlink f is.chain) (m.size - 1))
unfolding of_chain del_fv first_index
del_fv-old m is f old e =
    rw (find_node-chain m is f ∙ ap first_index e, del_fv, first_index, is.table_eq)

-- What `del_fv` leaves when the field is there.
pub record Deleted (m : Hashmap) (f : Text) : Type 0 where
  pub after : Hashmap
  pub runs : del_fv f m ≡ some after
  pub found : (g : Text) → lookup g after ≡ (if f === g then none else lookup g m)
  pub size : after.size + 1 ≡ m.size
  pub is : IsMap after

-- On a well-formed map, deleting a field that is there follows no bad pointer, removes that field
-- alone, counts one less, and leaves a well-formed map.
pub del_fv_lem : (m : Hashmap) (f old : Text) → IsMap m → lookup f m ≡ some old → Deleted m f
del_fv_lem m f old is h =
    let e : chain_find f is.chain ≡ some old = sym (lookup-chain m is f) ∙ h in
    let c = chain_unlink f is.chain in
    let len = length-unlink f is.chain old e in
    let n : m.size - 1 ≡ length c = omega (arith, is.counted, len) in
    let u = Unique-unlink f is.chain old is.unique e in
    record {
      after = of_chain c (m.size - 1);
      runs = del_fv-old m is f old e;
      found = λ g.
          lookup-of_chain c (m.size - 1) n u g
          ∙ find-unlink f g is.chain old is.unique e
          ∙ ap (λ (o : Option Text). if f === g then none else o) (sym (lookup-chain m is g));
      size = unfold of_chain in omega (arith, is.counted, len);
      is = of_chain-IsMap c (m.size - 1) n u;
    }

-- Deleting a field that is not there follows a NULL pointer.
pub del_fv_missing : (m : Hashmap) (f : Text) → IsMap m → lookup f m ≡ none → del_fv f m ≡ none
unfolding del_fv first_index
del_fv_missing m f is h =
    rw (find_node-chain m is f ∙ ap first_index (sym (lookup-chain m is f) ∙ h), del_fv)

-- The empty map holds no field.
pub new-IsMap : ((g : Text) → lookup g new ≡ none) × IsMap new
unfolding new
new-IsMap = (
  (λ g. unfold of_chain in lookup-of_chain [] 0 refl tt g ∙ (unfold chain_find in refl)),
  record { chain = []; table_eq = refl; counted = refl; unique = tt },
)

-- `del_fv` gives a map for a field that is there, and follows NULL for one that is not.
pub del_fv-none : (field : Text) (m : Hashmap) → find_node field m ≡ none → del_fv field m ≡ none
unfolding del_fv
del_fv-none field m e = rw (e, del_fv) refl

pub del_fv-some :
    (field : Text) (m : Hashmap) (v : ℕ × Text)
    → find_node field m ≡ some v
    → (m' : Hashmap) × (del_fv field m ≡ some m')
unfolding del_fv
del_fv-some field m v e = rw (e, del_fv) (_, refl)
