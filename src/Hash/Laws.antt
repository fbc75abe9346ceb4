-- ===== src/Hash/Laws.antt =====
-- The table as a finite map from keys to nodes, and its invariant.
use muse_kv.Prelude.{
  ℕ, ◌+◌, ◌-◌, ◌<◌, ◌≡◌, ◌≢◌, refl, ap, Option, none, some, ◌∷◌, arith, ◌==◌, if◌then◌else◌, length,
  Bool-cases, Option-cases, inl, inr,
}
use muse_kv.Text.{Text}
use muse_kv.Text.Equal.{◌===◌, eq_iff}
use muse_kv.Hashing.{reduce-lt}
use muse_kv.Kv
use muse_kv.Kv.{Kv, Value}
use muse_kv.Hash.{
  Hash, Nodes, new, hash_func, key_hash, chain_find, chain_update, chain_unlink, find_node, write,
  update_node, set, del,
}
use muse_kv.Hash.Chain.{
  Unique, find-update, find-unlink, length-update, length-unlink, Unique-update, Unique-unlink,
}

-- A key hashes into the table.
pub hash_func-lt : (key : Text) (h : Hash) → 0 < h.table_s → hash_func key h < h.table_s
unfolding hash_func
hash_func-lt key h pos = reduce-lt (key_hash key) h.table_s pos

-- The sizes count the chains; a key stands at most once, in the chain of its hash.
pub record IsTable (h : Hash) : Type 0 where
  pub slots : 0 < h.table_s
  pub sized : (i : ℕ) → h.size i ≡ length (h.h i)
  pub unique : (i : ℕ) → Unique (h.h i)
  pub placed : (key : Text) (i : ℕ) → i ≢ hash_func key h → chain_find key (h.h i) ≡ none

if_write :
    (i j : ℕ) (P : Nodes → Type 0) (f : ℕ → Nodes) (a : Nodes) → P (f j) → P a → P (write f i a j)
if_write i j P f a old new = elim (Bool-cases (j == i)) [ inl e ↦ rw e new | inr n ↦ rw n old ]

module _ (key : Text) (f : Kv → Kv) (h : Hash) (node : Kv) (keep : (n : Kv) → (f n).k ≡ n.k)
    (e : find_node key h ≡ some node) where
  -- A write through the pointer that `find_node` returned is seen under its key alone.
  pub find-update_node :
      (j : Text)
      → find_node j (update_node key f h) ≡ (if key === j then some (f node) else find_node j h)
  unfolding find_node update_node hash_func
  find-update_node j =
      let i = hash_func key h in
      let hashes : key ≡ j → hash_func key h ≡ hash_func j h = ap (λ (k : Text). hash_func k h) in
      ground (arith, find-update key j f (h.h i) node keep e, eq_iff key j, hashes)

  pub update_node-IsTable : IsTable h → IsTable (update_node key f h)
  unfolding find_node update_node hash_func
  update_node-IsTable t = record {
    slots = t.slots;
    sized = λ i. ground (arith, t.sized i, length-update key f (h.h (hash_func key h)));
    unique = λ i.
        if_write (hash_func key h) i Unique h.h (chain_update key f (h.h (hash_func key h)))
          (t.unique i) (Unique-update key f _ node keep (t.unique _) e);
    placed = λ k i n. ground (
      arith,
      t.placed k i n,
      find-update key k f (h.h (hash_func key h)) node keep e,
      eq_iff key k,
      ap (λ (k : Text). hash_func k h),
    );
  }

-- What the node of `key` becomes when `set` writes it.
unfoldable pub written : Text → Value → ℕ → ℕ → Option Kv → Kv
written key value authr authw none = Kv.new key value authr authw
written key value authr authw (some node) =
    Kv.set_authw authw (Kv.set_authr authr (Kv.set_v value node))

pub keeps_key :
    (value : Value) (authr authw : ℕ) (n : Kv)
    → (Kv.set_authw authw (Kv.set_authr authr (Kv.set_v value n))).k ≡ n.k
unfolding Kv.set_authw Kv.set_authr Kv.set_v
keeps_key value authr authw n = ground arith

module _ (key : Text) (value : Value) (authr authw : ℕ) (h : Hash) where
  added : Hash
  added = record h {
    h = write h.h (hash_func key h) (Kv.new key value authr authw ∷ h.h (hash_func key h));
    size = write h.size (hash_func key h) (h.size (hash_func key h) + 1);
  }

  set-new : find_node key h ≡ none → set key value authr authw h ≡ added
  unfolding set added
  set-new e = rw (e, set)

  set-old :
      (node : Kv)
      → find_node key h ≡ some node
      → set key value authr authw h
        ≡ update_node key (λ n. Kv.set_authw authw (Kv.set_authr authr (Kv.set_v value n))) h
  unfolding set
  set-old node e = rw (e, set)

  find-added :
      find_node key h ≡ none
      → (j : Text)
      → find_node j added
        ≡ (if key === j then some (Kv.new key value authr authw) else find_node j h)
  unfolding find_node added hash_func chain_find Kv.new
  find-added e j =
      let hashes : key ≡ j → hash_func key h ≡ hash_func j h = ap (λ (k : Text). hash_func k h) in
      ground (arith, eq_iff key j, hashes)

  added-IsTable : find_node key h ≡ none → IsTable h → IsTable added
  unfolding find_node added hash_func chain_find Kv.new
  added-IsTable e t = record {
    slots = t.slots;
    sized = λ i. ground (arith, t.sized i, t.sized (hash_func key h));
    unique = λ i.
        if_write (hash_func key h) i Unique h.h
          (Kv.new key value authr authw ∷ h.h (hash_func key h)) (t.unique i) (e, t.unique _);
    placed =
        λ k i n. ground (arith, t.placed k i n, eq_iff key k, ap (λ (x : Text). hash_func x h));
  }

  -- In a well-formed table, after `set` a lookup of the key gives the written node, one of any
  -- other key what it gave before; and the table stays well formed.
  pub set-find_node :
      IsTable h
      → ((j : Text)
          → find_node j (set key value authr authw h) ≡ (
              if key === j
              then some (written key value authr authw (find_node key h))
              else find_node j h))
        × IsTable (set key value authr authw h)
  unfolding written
  set-find_node t = elim (Option-cases (find_node key h)) [
    | inl e ↦ rw (set-new e, e) (find-added e, added-IsTable e t)
    | inr (node, e) ↦
        let f = λ (n : Kv). Kv.set_authw authw (Kv.set_authr authr (Kv.set_v value n)) in
        rw (set-old node e, e)
          (
            find-update_node key f h node (keeps_key value authr authw) e,
            update_node-IsTable key f h node (keeps_key value authr authw) e t,
          )
  ]

-- What `del` leaves when the key is there.
pub record Deleted (key : Text) (h : Hash) : Type 0 where
  pub after : Hash
  pub runs : del key h ≡ some after
  pub found : (j : Text) → find_node j after ≡ (if key === j then none else find_node j h)
  pub is : IsTable after

module _ (key : Text) (h : Hash) (node : Kv) (e : find_node key h ≡ some node) where
  removed : Hash
  removed = record h {
    h = write h.h (hash_func key h) (chain_unlink key (h.h (hash_func key h)));
    size = write h.size (hash_func key h) (h.size (hash_func key h) - 1);
  }

  del-removed : del key h ≡ some removed
  unfolding del removed
  del-removed = rw (e, del)

  find-removed :
      IsTable h → (j : Text) → find_node j removed ≡ (if key === j then none else find_node j h)
  unfolding find_node removed hash_func
  find-removed t j =
      let hashes : key ≡ j → hash_func key h ≡ hash_func j h = ap (λ (k : Text). hash_func k h) in
      ground
        (arith, find-unlink key j (h.h (hash_func key h)) node (t.unique _) e, eq_iff key j, hashes)

  removed-IsTable : IsTable h → IsTable removed
  unfolding find_node removed hash_func
  removed-IsTable t = record {
    slots = t.slots;
    sized = λ i. ground (
      arith,
      t.sized i,
      t.sized (hash_func key h),
      length-unlink key (h.h (hash_func key h)) node e,
    );
    unique = λ i.
        if_write (hash_func key h) i Unique h.h (chain_unlink key (h.h (hash_func key h)))
          (t.unique i) (Unique-unlink key _ node (t.unique _) e);
    placed = λ k i n. ground (
      arith,
      t.placed k i n,
      find-unlink key k (h.h (hash_func key h)) node (t.unique _) e,
      eq_iff key k,
      ap (λ (x : Text). hash_func x h),
    );
  }

  -- In a well-formed table, `del` of a key that is there ends, without the NULL that `find_node`
  -- returns for a missing one, removes that key alone, and leaves a well-formed table. The unlock
  -- of the mutex of the node that it freed is not part of this.
  pub del-find_node : IsTable h → Deleted key h
  del-find_node t = record {
    after = removed;
    runs = del-removed;
    found = find-removed t;
    is = removed-IsTable t;
  }

-- Deleting a key that is not there follows a NULL pointer.
pub del_missing : (key : Text) (h : Hash) → find_node key h ≡ none → del key h ≡ none
unfolding del
del_missing key h e = rw (e, del)

-- A new table is well formed and empty.
pub new-IsTable : (port : ℕ) → ((j : Text) → find_node j (new port) ≡ none) × IsTable (new port)
unfolding new find_node chain_find
new-IsTable port = (
  λ j. refl,
  record { slots = omega arith; sized = λ i. refl; unique = λ i. tt; placed = λ k i n. refl },
)
