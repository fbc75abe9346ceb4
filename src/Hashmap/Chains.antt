-- ===== src/Hashmap/Chains.antt =====
-- One chain of the table of src/hashmap.cpp, when a value in it changes and when a node is unlinked.
use muse_kv.Prelude.{
  ◌+◌, ◌≡◌, refl, false, none, some, [], ◌∷◌, arith, if◌then◌else◌, length, Bool-cases, inl, inr,
}
use muse_kv.Text.{Text}
use muse_kv.Text.Equal.{◌===◌, eq_iff}
use muse_kv.Hashmap.{Chain, chain_find, chain_change, chain_unlink}

-- No field stands twice in a chain.
abbrev pub Unique : Chain → Type 0
Unique [] = Unit
Unique ((f, v) ∷ chain) = (chain_find f chain ≡ none) × Unique chain

module _ (f g : Text) where
  pub find-change :
      (value : Text) (c : Chain) (old : Text)
      → chain_find f c ≡ some old
      → chain_find g (chain_change f value c) ≡ (if f === g then some value else chain_find g c)
  unfolding chain_find chain_change
  find-change value [] old h = cc
  find-change value ((k, v) ∷ c) old h =
      ground (arith, find-change value c old, eq_iff k f, eq_iff k g, eq_iff f g)

  pub find-unlink :
      (c : Chain) (old : Text)
      → Unique c
      → chain_find f c ≡ some old
      → chain_find g (chain_unlink f c) ≡ (if f === g then none else chain_find g c)
  unfolding chain_find chain_unlink
  find-unlink [] old u h = cc
  find-unlink ((k, v) ∷ c) old u h =
      ground (arith, find-unlink c old u.1, u.0, eq_iff k f, eq_iff k g, eq_iff f g)

pub length-change : (f value : Text) (c : Chain) → length (chain_change f value c) ≡ length c
unfolding chain_change
length-change f value [] = refl
length-change f value ((k, v) ∷ c) = ground (arith, length-change f value c)

pub length-unlink :
    (f : Text) (c : Chain) (old : Text)
    → chain_find f c ≡ some old
    → length (chain_unlink f c) + 1 ≡ length c
unfolding chain_find chain_unlink
length-unlink f [] old h = cc
length-unlink f ((k, v) ∷ c) old h = ground (arith, length-unlink f c old)

find_later :
    (f k v : Text) (c : Chain) (old : Text)
    → chain_find f ((k, v) ∷ c) ≡ some old
    → (k === f) ≡ false
    → chain_find f c ≡ some old
unfolding chain_find
find_later f k v c old h n = ground arith

pub Unique-change :
    (f value : Text) (c : Chain) (old : Text)
    → Unique c
    → chain_find f c ≡ some old
    → Unique (chain_change f value c)
unfolding chain_change
Unique-change f value [] old u h = tt
Unique-change f value ((k, v) ∷ c) old u h = elim (Bool-cases (k === f)) [
  | inl e ↦ rw e u
  | inr n ↦
      let h' = find_later f k v c old h n in
      rw n (
        ground (arith, find-change f k value c old h', eq_iff f k, eq_iff k f, u.0),
        Unique-change f value c old u.1 h',
      )
]

pub Unique-unlink :
    (f : Text) (c : Chain) (old : Text)
    → Unique c
    → chain_find f c ≡ some old
    → Unique (chain_unlink f c)
unfolding chain_unlink
Unique-unlink f [] old u h = tt
Unique-unlink f ((k, v) ∷ c) old u h = elim (Bool-cases (k === f)) [
  | inl e ↦ rw e u.1
  | inr n ↦
      let h' = find_later f k v c old h n in
      rw n (
        ground (arith, find-unlink f k c old u.1 h', eq_iff f k, eq_iff k f, u.0),
        Unique-unlink f c old u.1 h',
      )
]
