-- ===== src/LinkedList/Set.antt =====
-- `set` of src/linkedlist.h on a ring of nodes.
use muse_kv.Prelude
use muse_kv.Prelude.{
  ℕ, zero, suc, ◌<◌, ◌≡◌, ◌≢◌, refl, sym, ap, ◌∙◌, subst, true, false, some, Option, List, [], ◌∷◌,
  arith, ◌==◌, length,
}
use muse_kv.Prelude.Int.{ℤ}
use muse_kv.Text.{Text}
use muse_kv.LinkedList.{Heap, LinkedList, update, set_content, set}
use muse_kv.LinkedList.Ring.{has, Distinct, Links-frame, Live, IsRing, contents}
use muse_kv.LinkedList.Walk.{nth, Live-nth, at-nth, position-lt}
use muse_kv.LinkedList.Read.{length-contents}
use muse_kv.LinkedList.Refines.{IsList}
use muse_kv.LinkedList.Sequence
use muse_kv.LinkedList.Sequence.{Sequence, position}

-- The heap with another text in one node.
written : Heap → ℕ → Text → Heap
written h p s = record h { content = update h.content p s }

set_content-ok :
    (h : Heap) (p : ℕ) (s : Text) → h.live p ≡ true → set_content p s h ≡ some (tt, written h p s)
unfolding set_content written
set_content-ok h p s l = rw l refl

Live-written : (h : Heap) (x : ℕ) (s : Text) (ps : List ℕ) → Live h ps → Live (written h x s) ps
unfolding written
Live-written h x s [] v = tt
Live-written h x s (p ∷ ps) v = (v.0, v.1, Live-written h x s ps v.2)

contents-other :
    (h : Heap) (x : ℕ) (s : Text) (ps : List ℕ)
    → has x ps ≡ false
    → contents (written h x s) ps ≡ contents h ps
unfolding written update
contents-other h x s [] n = refl
contents-other h x s (p ∷ ps) n =
    let other : (p == x) ≡ false = ground (arith, n) in
    rw (other, contents-other h x s ps (ground (arith, n))) refl

has-nth : (ps : List ℕ) (i : ℕ) → i < length ps → has (nth ps i) ps ≡ true
has-nth [] i b = absurd (omega (arith, b))
has-nth (p ∷ ps) zero b = ground arith
has-nth (p ∷ ps) (suc i) b = ground (arith, has-nth ps i (omega (arith, b)))

apart : (x p : ℕ) (ps : List ℕ) → has x ps ≡ true → has p ps ≡ false → (p == x) ≡ false
apart x p ps m n = ground (arith, m, n, ap (λ (q : ℕ). has q ps))

contents-written :
    (h : Heap) (s : Text) (ps : List ℕ) (i : ℕ)
    → Distinct ps
    → i < length ps
    → contents (written h (nth ps i) s) ps ≡ Prelude.set (contents h ps) i s
unfolding written update
contents-written h s [] i d b = absurd (omega (arith, b))
contents-written h s (p ∷ ps) zero d b =
    let here : (p == p) ≡ true = ground arith in rw (here, contents-other h p s ps d.0) refl
contents-written h s (p ∷ ps) (suc i) d b =
    let b' : i < length ps = omega (arith, b) in
    rw (apart (nth ps i) p ps (has-nth ps i b') d.0, contents-written h s ps i d.1 b') refl

-- The run follows no bad pointer and leaves the same list object, with other contents.
pub record Writes (l : LinkedList) (run : Option (Unit {0} × Heap)) (xs : Sequence) : Type 0 where
  pub heap : Heap
  pub runs : run ≡ some (tt, heap)
  pub is : IsList heap l xs

module _ (h : Heap) (l : LinkedList) (index : ℤ) (s : Text) where
  set-Writes :
      (ps : List ℕ)
      → IsRing h l ps
      → contents h ps ≢ []
      → Writes l (set index s l h) (Sequence.set index s (contents h ps))
  unfolding set
  set-Writes [] ring ne = absurd (ne refl)
  set-Writes (p ∷ ps) ring ne =
      let i = position index (length (p ∷ ps)) in
      let b = position-lt index (length (p ∷ ps)) (omega arith) in
      let x = nth (p ∷ ps) i in
      record {
        heap = written h x s;
        runs =
            rw (at-nth h l p ps index ring, set_content-ok h x s (Live-nth h (p ∷ ps) i ring.4 b))
              refl;
        is = record {
          nodes = p ∷ ps;
          ring =
              unfold written in
              (
                ring.0,
                ring.1,
                Links-frame h (written h x s) p ps p (λ y m. refl) (λ y m. refl) refl ring.2,
                ring.3,
                Live-written h x s (p ∷ ps) ring.4,
              );
          holds =
              contents-written h s (p ∷ ps) i ring.3 b
              ∙ ap (λ n. Prelude.set (contents h (p ∷ ps)) (position index n) s)
                  (ap suc (sym (length-contents h ps)));
        };
      }

  -- `set` of a list that is not empty follows no bad pointer, keeps the list object and replaces
  -- the text at the index's position, whatever the `int`. The least `int` stands for the head.
  pub set_refines :
      (xs : Sequence)
      → IsList h l xs
      → xs ≢ []
      → Writes l (set index s l h) (Sequence.set index s xs)
  set_refines xs is =
      subst (λ (ys : Sequence). ys ≢ [] → Writes l (set index s l h) (Sequence.set index s ys))
        is.holds (set-Writes is.nodes is.ring)
