-- ===== src/LinkedList/Read.antt =====
-- `find`, `print` and `get` on a ring of nodes, which they only read.
use mathlib.Core.Option
use muse_kv.Prelude.{
  ℕ, zero, suc, ◌+◌, ◌<◌, ◌≡◌, refl, ap, ◌∙◌, true, false, Option, none, some, List, [], ◌∷◌, ◌++◌,
  arith, ◌==◌, length, get_or, Bool-cases, inl, inr,
}
use muse_kv.Prelude.Int.{ℤ}
use muse_kv.Text.{Text, comma, merge, merge_onto}
use muse_kv.Text.Equal.{◌===◌}
use muse_kv.LinkedList.{Heap, LinkedList, find_loop, find, get, print_loop, print}
use muse_kv.LinkedList.Ring.{has, Links, Live, IsRing, contents, first, next-first}
use muse_kv.LinkedList.Push.{not_null}
use muse_kv.LinkedList.Pop.{next-ok, content-ok}
use muse_kv.LinkedList.Walk.{nth, Live-nth, at-nth, position-lt}
use muse_kv.LinkedList.Sequence
use muse_kv.LinkedList.Sequence.{position}

print_loop-contents :
    (fuel : ℕ) (h : Heap) (a : ℕ) (ps : List ℕ) (b : ℕ) (str : Text)
    → Links h a ps b
    → has b ps ≡ false
    → Live h ps
    → length ps < fuel
    → print_loop fuel b (first ps b) str h ≡ some (merge_onto str comma (contents h ps), h)
unfolding print_loop merge_onto
print_loop-contents zero h a ps b str k f v l = absurd (omega arith)
print_loop-contents (suc fuel) h a [] b str k f v l = ground arith
print_loop-contents (suc fuel) h a (p ∷ ps) b str k f v l =
    let ne : (p == b) ≡ false = ground arith in
    rw (ne, content-ok h p v.1, next-ok h p v.1, next-first h p ps b k.2)
      (print_loop-contents fuel h p ps b (str ++ comma ∷ h.content p) k.2 (ground arith) v.2
        (omega arith))

-- `print` gives the contents from the head on, with commas between.
pub print-contents :
    (h : Heap) (l : LinkedList) (ps : List ℕ)
    → IsRing h l ps
    → print l h ≡ some (Sequence.print (contents h ps), h)
unfolding print merge
print-contents h l [] (l0, n0) = rw l0
print-contents h l (p ∷ ps) (l0, n0, k, d, v) =
    rw (l0, not_null p v.0, content-ok h p v.1, next-ok h p v.1, next-first h p ps p k)
      (print_loop-contents l.length h p ps p (h.content p) k d.0 v.2 (omega arith))

offset : ℕ → Option ℕ → Option ℕ
offset i none = none
offset i (some j) = some (i + j)

offset-suc : (i : ℕ) (o : Option ℕ) → offset (i + 1) o ≡ offset i (Option.map suc o)
unfolding offset
offset-suc i none = refl
offset-suc i (some j) = ap some (omega arith)

offset-zero : (o : Option ℕ) → offset 0 o ≡ o
unfolding offset
offset-zero none = refl
offset-zero (some j) = ap some (omega arith)

find_loop-contents :
    (fuel : ℕ) (h : Heap) (b : ℕ) (s : Text) (a : ℕ) (ps : List ℕ) (i : ℕ)
    → Links h a ps b
    → has b ps ≡ false
    → Live h (a ∷ ps)
    → length ps < fuel
    → find_loop fuel b s a i h ≡ some (offset i (Sequence.find s (contents h (a ∷ ps))), h)
unfolding find_loop Sequence.find offset
find_loop-contents zero h b s a ps i k f v l = absurd (omega arith)
find_loop-contents (suc fuel) h b s a [] i k f v l =
    let e : (h.next_ptr a == b) ≡ true = ground arith in
    elim (Bool-cases (h.content a === s)) [
      | inl here ↦ rw (content-ok h a v.1, here) (ap (λ (m : ℕ). some (some m, h)) (omega arith))
      | inr later ↦ rw (content-ok h a v.1, later, next-ok h a v.1, e)
    ]
find_loop-contents (suc fuel) h b s a (q ∷ ps) i k f v l =
    let ne : (q == b) ≡ false = ground arith in
    let ih = find_loop-contents fuel h b s q ps (i + 1) k.2 (ground arith) v.2 (omega arith) in
    elim (Bool-cases (h.content a === s)) [
      | inl here ↦ rw (content-ok h a v.1, here) (ap (λ (m : ℕ). some (some m, h)) (omega arith))
      | inr later ↦
          rw (content-ok h a v.1, later, next-ok h a v.1, k.0, ne)
            (ih
              ∙ ap (λ (o : Option ℕ). some (o, h))
                  (offset-suc i (Sequence.find s (contents h (q ∷ ps)))))
    ]

-- `find` gives the first index of the text, or -1.
pub find-contents :
    (h : Heap) (l : LinkedList) (s : Text) (ps : List ℕ)
    → IsRing h l ps
    → find s l h ≡ some (Sequence.find s (contents h ps), h)
unfolding find Sequence.find
find-contents h l s [] (l0, n0) = rw l0
find-contents h l s (p ∷ ps) (l0, n0, k, d, v) =
    rw (l0, not_null p v.0)
      (find_loop-contents l.length h p s p ps 0 k d.0 v (omega arith)
        ∙ ap (λ (o : Option ℕ). some (o, h)) (offset-zero (Sequence.find s (contents h (p ∷ ps)))))

content-nth :
    (h : Heap) (ps : List ℕ) (i : ℕ)
    → i < length ps
    → h.content (nth ps i) ≡ get_or (contents h ps) i []
content-nth h [] i b = absurd (omega arith)
content-nth h (p ∷ ps) zero b = refl
content-nth h (p ∷ ps) (suc i) b = content-nth h ps i (omega arith)

pub length-contents : (h : Heap) (ps : List ℕ) → length (contents h ps) ≡ length ps
length-contents h [] = refl
length-contents h (p ∷ ps) = ap suc (length-contents h ps)

-- `get` of any index of a list that is not empty gives the content at the index's position.
pub get-contents :
    (h : Heap) (l : LinkedList) (index : ℤ) (p : ℕ) (ps : List ℕ)
    → IsRing h l (p ∷ ps)
    → get index l h ≡ some (Sequence.get index (contents h (p ∷ ps)), h)
unfolding get
get-contents h l index p ps ring =
    let b = position-lt index (length (p ∷ ps)) (omega arith) in
    rw
      (
        at-nth h l p ps index ring,
        content-ok h _ (Live-nth h (p ∷ ps) _ ring.4 b),
        length-contents h ps,
      )
      (ap (λ (t : Text). some (t, h)) (content-nth h (p ∷ ps) _ b))
