-- ===== src/Hash/Frame.antt =====
-- What the table keeps whatever its keys are: its slots, and those of them that it serves.
use muse_kv.Prelude.{ℕ, ◌≡◌, refl, ap, ◌∙◌, subst, some, Option-cases, inl, inr}
use muse_kv.Text.{Text}
use muse_kv.Hashing.{reduce}
use muse_kv.Kv.{Kv, Value}
use muse_kv.Hash.{Hash, find_node, update_node, set, set_boundary, del, hash_func, key_hash}
use muse_kv.Prelude.Int.{ℤ}
use muse_kv.Hash.Laws.{IsTable, set-find_node}

-- What no command but a message of the cluster changes.
pub record Frame (h h' : Hash) : Type 0 where
  pub slots : h'.table_s ≡ h.table_s
  pub first : h'.start_num ≡ h.start_num
  pub last : h'.end_num ≡ h.end_num

pub Frame-refl : (h : Hash) → Frame h h
Frame-refl h = record { slots = refl; first = refl; last = refl }

pub Frame-trans : (h g k : Hash) → Frame h g → Frame g k → Frame h k
Frame-trans h g k a b = record {
  slots = b.slots ∙ a.slots;
  first = b.first ∙ a.first;
  last = b.last ∙ a.last;
}

pub set-Frame : (key : Text) (v : Value) (r w : ℕ) (h : Hash) → Frame h (set key v r w h)
unfolding set update_node
set-Frame key v r w h = elim (Option-cases (find_node key h)) [
  | inl e ↦ rw (e, set) (record { slots = refl; first = refl; last = refl })
  | inr (node, e) ↦ rw (e, set) (record { slots = refl; first = refl; last = refl })
]

some-inj : (a b : Hash) → some a ≡ some b → a ≡ b
some-inj a b e = cc

pub del-Frame :
    (key : Text) (h h' : Hash) (node : Kv)
    → find_node key h ≡ some node
    → del key h ≡ some h'
    → Frame h h'
unfolding del
del-Frame key h h' node x e =
    subst (Frame h) (some-inj _ h' (rw (x, del) at e))
      (record { slots = refl; first = refl; last = refl })

-- The slot of a key depends on the number of slots alone.
pub hash_func-table_s :
    (key : Text) (h h' : Hash) → h'.table_s ≡ h.table_s → hash_func key h' ≡ hash_func key h
unfolding hash_func
hash_func-table_s key h h' e = ap (reduce (key_hash key)) e

-- A well-formed table with the slots that it had.
pub record Kept (h h' : Hash) : Type 0 where
  pub is : IsTable h'
  pub frame : Frame h h'

pub Kept-refl : (h : Hash) → IsTable h → Kept h h
Kept-refl h ok = record { is = ok; frame = Frame-refl h }

pub Kept-trans : (h g k : Hash) → Kept h g → Kept g k → Kept h k
Kept-trans h g k a b = record { is = b.is; frame = Frame-trans h g k a.frame b.frame }

pub set-Kept : (key : Text) (v : Value) (r w : ℕ) (h : Hash) → IsTable h → Kept h (set key v r w h)
set-Kept key v r w h ok = record {
  is = (set-find_node key v r w h ok).1;
  frame = set-Frame key v r w h;
}

-- Other slots to serve, as `set_boundary` gives, leave the table well formed.
pub set_boundary-IsTable :
    (start end : ℤ) (h : Hash) → IsTable h → IsTable (set_boundary start end h)
unfolding set_boundary find_node hash_func
set_boundary-IsTable start end h ok = record {
  slots = ok.slots;
  sized = ok.sized;
  unique = ok.unique;
  placed = ok.placed;
}
