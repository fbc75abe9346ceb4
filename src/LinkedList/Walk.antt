-- ===== src/LinkedList/Walk.antt =====
-- `at` on a ring of nodes: the walk along `next_ptr` or `prev_ptr` ends at the right node.
use muse_kv.Prelude.{
  ℕ, zero, suc, ◌+◌, ◌-◌, ◌%◌, ◌≤◌, ◌<◌, ◌≡◌, refl, ap, ◌∙◌, true, some, List, [], ◌∷◌, arith, ◌==◌,
  if◌then◌else◌, length, get_or,
}
use muse_kv.Prelude.Int.{ℤ, pos, negsuc, negated}
use muse_kv.LinkedList.{Heap, LinkedList, null, walk_next, walk_prev, walk, at}
use muse_kv.LinkedList.Ring.{Links, Live, IsRing, last, prev-last}
use muse_kv.LinkedList.Push.{not_null}
use muse_kv.LinkedList.Pop.{next-ok, prev-ok}
use muse_kv.LinkedList.Sequence.{position}

abbrev pub nth : List ℕ → ℕ → ℕ
nth ps i = get_or ps i null

pub Live-nth :
    (h : Heap) (ps : List ℕ) (i : ℕ) → Live h ps → i < length ps → h.live (nth ps i) ≡ true
Live-nth h [] i v b = absurd (omega arith)
Live-nth h (p ∷ ps) zero v b = v.1
Live-nth h (p ∷ ps) (suc i) v b = Live-nth h ps i v.2 (omega arith)

next-nth :
    (h : Heap) (a : ℕ) (ps : List ℕ) (b i : ℕ)
    → Links h a ps b
    → i < length ps
    → h.next_ptr (nth (a ∷ ps) i) ≡ nth ps i
next-nth h a [] b i k l = absurd (omega arith)
next-nth h a (p ∷ ps) b zero k l = k.0
next-nth h a (p ∷ ps) b (suc i) k l = next-nth h p ps b i k.2 (omega arith)

prev-nth :
    (h : Heap) (a : ℕ) (ps : List ℕ) (b i : ℕ)
    → Links h a ps b
    → i < length ps
    → h.prev_ptr (nth ps i) ≡ nth (a ∷ ps) i
prev-nth h a [] b i k l = absurd (omega arith)
prev-nth h a (p ∷ ps) b zero k l = k.1
prev-nth h a (p ∷ ps) b (suc i) k l = prev-nth h p ps b i k.2 (omega arith)

last-nth : (a : ℕ) (ps : List ℕ) → last a ps ≡ nth (a ∷ ps) (length ps)
last-nth a [] = refl
last-nth a (p ∷ ps) = last-nth p ps

module _ (h : Heap) (p : ℕ) (ps : List ℕ) (k : Links h p ps p) (v : Live h (p ∷ ps)) where
  walk_next-nth :
      (i j : ℕ)
      → i + j < length (p ∷ ps)
      → walk_next i (nth (p ∷ ps) j) h ≡ some (nth (p ∷ ps) (i + j), h)
  unfolding walk_next
  walk_next-nth zero j b = ap (λ (m : ℕ). some (nth (p ∷ ps) m, h)) (omega arith)
  walk_next-nth (suc i) j b =
      rw
        (
          next-ok h (nth (p ∷ ps) j) (Live-nth h (p ∷ ps) j v (omega arith)),
          next-nth h p ps p j k (omega arith),
        )
        (walk_next-nth i (suc j) (omega arith)
          ∙ ap (λ (m : ℕ). some (nth (p ∷ ps) m, h)) (omega arith))

  walk_prev-nth :
      (i j : ℕ)
      → i ≤ j
      → j < length (p ∷ ps)
      → walk_prev i (nth (p ∷ ps) j) h ≡ some (nth (p ∷ ps) (j - i), h)
  unfolding walk_prev
  walk_prev-nth zero j l b = ap (λ (m : ℕ). some (nth (p ∷ ps) m, h)) (omega arith)
  walk_prev-nth (suc i) zero l b = absurd (omega arith)
  walk_prev-nth (suc i) (suc j) l b =
      rw
        (
          prev-ok h (nth ps j) (Live-nth h (p ∷ ps) (suc j) v b),
          prev-nth h p ps p j k (omega arith),
        )
        (walk_prev-nth i j (omega arith) (omega arith)
          ∙ ap (λ (m : ℕ). some (nth (p ∷ ps) m, h)) (omega arith))

  -- backwards from the head, the first step goes to the last node
  walk_prev_head :
      (i : ℕ)
      → i < length (p ∷ ps)
      → walk_prev i p h ≡ some (nth (p ∷ ps) (if i == 0 then 0 else length (p ∷ ps) - i), h)
  unfolding walk_prev
  walk_prev_head zero b = refl
  walk_prev_head (suc i) b =
      rw (prev-ok h p v.1, prev-last h p ps p k, last-nth p ps)
        (walk_prev-nth i (length ps) (omega arith) (omega arith)
          ∙ ap (λ (m : ℕ). some (nth (p ∷ ps) m, h)) (ground arith))

pub position-lt : (index : ℤ) (n : ℕ) → 0 < n → position index n < n
unfolding position
position-lt (pos i) n h = grind arith
position-lt (negsuc i) n h = ground (arith)

-- `at` follows no bad pointer, and ends at the node at the index's position, counted round the
-- ring, backwards if the index is negative.
pub at-nth :
    (h : Heap) (l : LinkedList) (p : ℕ) (ps : List ℕ) (index : ℤ)
    → IsRing h l (p ∷ ps)
    → at index l h ≡ some (nth (p ∷ ps) (position index (length (p ∷ ps))), h)
unfolding at walk position
at-nth h l p ps (pos i) (l0, n0, k, d, v) =
    rw (l0, not_null p v.0, n0)
      (walk_next-nth h p ps k v (i % length (p ∷ ps)) 0 (omega arith)
        ∙ ap (λ (m : ℕ). some (nth (p ∷ ps) m, h)) (omega arith))
at-nth h l p ps (negsuc i) (l0, n0, k, d, v) =
    rw (l0, not_null p v.0, n0)
      (walk_prev_head h p ps k v (negated i % length (p ∷ ps)) (omega arith))
