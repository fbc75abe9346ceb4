-- ===== src/LinkedList/Destroy.antt =====
-- `~List` pops until the list is empty.
use muse_kv.Prelude.{
  ℕ, zero, suc, ◌+◌, ◌<◌, ◌≡◌, refl, sym, ap, ◌∙◌, true, false, List, [], ◌∷◌, arith, length,
}
use muse_kv.Text.{Text}
use muse_kv.LinkedList.{Heap, LinkedList, null, is_empty, destroy_loop, destroy}
use muse_kv.LinkedList.Ring.{IsRing, contents}
use muse_kv.LinkedList.Pop.{eq_false}
use muse_kv.LinkedList.Read.{length-contents}
use muse_kv.LinkedList.Refines.{IsList, Grows, pop_refines}
use muse_kv.LinkedList.Sequence
use muse_kv.LinkedList.Sequence.{Sequence}

length-pop_back : (x : Text) (xs : Sequence) → length (Sequence.pop_back (x ∷ xs)).1 ≡ length xs
unfolding Sequence.pop_back
length-pop_back x [] = refl
length-pop_back x (y ∷ xs) = ap suc (length-pop_back y xs)

empty_ring :
    (h : Heap) (l : LinkedList) (ps : List ℕ)
    → IsRing h l ps
    → contents h ps ≡ []
    → is_empty l ≡ true
empty_ring h l [] ring e = ground (arith, ring)
empty_ring h l (p ∷ ps) ring e = absurd (omega (arith, ap length e))

full_ring :
    (h : Heap) (l : LinkedList) (ps : List ℕ) (x : Text) (xs : Sequence)
    → IsRing h l ps
    → contents h ps ≡ x ∷ xs
    → is_empty l ≡ false
full_ring h l [] x xs ring e = absurd (omega (arith, ap length e))
full_ring h l (p ∷ ps) x xs (hd, len, ln, ds, lv) e = eq_false l.head null (λ q. lv.0 (sym hd ∙ q))

length_ring : (h : Heap) (l : LinkedList) (ps : List ℕ) → IsRing h l ps → l.length ≡ length ps
length_ring h l [] ring = ring.1
length_ring h l (p ∷ ps) ring = ring.1

destroy_loop-IsList :
    (fuel : ℕ) (xs : Sequence) (h : Heap) (l : LinkedList)
    → length xs < fuel
    → IsList h l xs
    → Grows (destroy_loop fuel l h) []
unfolding destroy_loop
destroy_loop-IsList zero xs h l f is = absurd (omega (arith, f))
destroy_loop-IsList (suc fuel) [] h l f is =
    let done = empty_ring h l is.nodes is.ring is.holds in
    record { heap = h; list = l; runs = rw done refl; is = is }
destroy_loop-IsList (suc fuel) (x ∷ xs) h l f is =
    let more = full_ring h l is.nodes x xs is.ring is.holds in
    let popped = (pop_refines h l (x ∷ xs) is).0 in
    let rest =
      destroy_loop-IsList fuel (Sequence.pop_back (x ∷ xs)).1 popped.heap popped.list
        (omega (arith, f, length-pop_back x xs)) popped.is in
    record {
      heap = rest.heap;
      list = rest.list;
      runs = rw (more, popped.runs) rest.runs;
      is = rest.is;
    }

-- The destructor of a well-formed list ends, follows no bad pointer and leaves the empty list.
pub destroy_ends :
    (h : Heap) (l : LinkedList) (xs : Sequence) → IsList h l xs → Grows (destroy l h) []
unfolding destroy
destroy_ends h l xs is =
    destroy_loop-IsList (l.length + 1) xs h l
      (omega
        (arith, length_ring h l is.nodes is.ring, length-contents h is.nodes, ap length is.holds))
      is
