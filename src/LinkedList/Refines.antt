-- ===== src/LinkedList/Refines.antt =====
-- The pointer code refines the operations of `Sequence`.
use muse_kv.Prelude.{
  ℕ, zero, suc, ◌≡◌, ◌≢◌, refl, sym, ap, ◌∙◌, subst, true, false, Option, some, List, [], ◌∷◌, ◌++◌,
  length,
}
use muse_kv.Prelude.Int.{ℤ}
use muse_kv.Text.{Text}
use muse_kv.LinkedList.{
  Heap, LinkedList, null, push_front, push_back, pop_front, pop_back, find, get, del, print, new,
}
use muse_kv.LinkedList.Ring.{IsRing, contents}
use muse_kv.LinkedList.Push.{push_back-Pushed, push_front-Pushed}
use muse_kv.LinkedList.Pop.{pop_back-Leaves, pop_front-Leaves, pop_single, pop_empty}
use muse_kv.LinkedList.Read.{length-contents, find-contents, get-contents, print-contents}
use muse_kv.LinkedList.Edit.{del-Leaves}
use muse_kv.LinkedList.Sequence
use muse_kv.LinkedList.Sequence.{Sequence, position, remove_at}

-- `l` is a well-formed list object whose contents are `xs`, from the head on.
pub record IsList (h : Heap) (l : LinkedList) (xs : Sequence) : Type 0 where
  pub nodes : List ℕ
  pub ring : IsRing h l nodes
  pub holds : contents h nodes ≡ xs

-- The run follows no bad pointer, returns `a`, and leaves a list of `xs`.
pub record Yields {A : Type 0} (run : Option ((A × LinkedList) × Heap)) (a : A) (xs : Sequence)
    : Type 0 where
  pub heap : Heap
  pub list : LinkedList
  pub runs : run ≡ some ((a, list), heap)
  pub is : IsList heap list xs

-- The same of a push, which returns nothing.
pub record Grows (run : Option (LinkedList × Heap)) (xs : Sequence) : Type 0 where
  pub heap : Heap
  pub list : LinkedList
  pub runs : run ≡ some (list, heap)
  pub is : IsList heap list xs

snoc-cases : (p : ℕ) (ps : List ℕ) → (qs : List ℕ) × (t : ℕ) × (p ∷ ps ≡ qs ++ t ∷ [])
snoc-cases p [] = ([], p, refl)
snoc-cases p (q ∷ ps) =
    let (qs, t, e) = snoc-cases q ps in (p ∷ qs, t, ap (λ (rs : List ℕ). p ∷ rs) e)

pop_back-snoc :
    (x : Text) (xs : Sequence) (t : Text) → Sequence.pop_back (x ∷ (xs ++ t ∷ [])) ≡ (t, x ∷ xs)
unfolding Sequence.pop_back
pop_back-snoc x [] t = refl
pop_back-snoc x (y ∷ xs) t = rw (pop_back-snoc y xs t)

contents-snoc :
    (h : Heap) (ps : List ℕ) (t : ℕ) → contents h (ps ++ t ∷ []) ≡ contents h ps ++ h.content t ∷ []
contents-snoc h [] t = refl
contents-snoc h (p ∷ ps) t = ap (λ (xs : List Text). h.content p ∷ xs) (contents-snoc h ps t)

contents-remove_at :
    (h : Heap) (i : ℕ) (ps : List ℕ) → contents h (remove_at i ps) ≡ remove_at i (contents h ps)
unfolding remove_at
contents-remove_at h i [] = refl
contents-remove_at h zero (p ∷ ps) = refl
contents-remove_at h (suc i) (p ∷ ps) =
    ap (λ (xs : List Text). h.content p ∷ xs) (contents-remove_at h i ps)

module _ (h : Heap) (l : LinkedList) where
  -- Pushing a node that is new and not NULL follows no bad pointer and refines the push on the
  -- sequence of contents, at either end.
  pub push_refines :
      (e : ℕ) (s : Text) (xs : Sequence)
      → e ≢ null
      → h.live e ≡ false
      → IsList h l xs
      → Grows (push_back e s l h) (xs ++ s ∷ []) × Grows (push_front e s l h) (s ∷ xs)
  push_refines e s xs nn free is =
      let b = push_back-Pushed h l e s nn free is.nodes is.ring in
      let f = push_front-Pushed h l e s nn free is.nodes is.ring in
      (
        record {
          heap = b.heap;
          list = b.list;
          runs = b.runs;
          is = record {
            nodes = is.nodes ++ e ∷ [];
            ring = b.ring;
            holds = b.holds ∙ ap (λ (ys : Sequence). ys ++ s ∷ []) is.holds;
          };
        },
        record {
          heap = f.heap;
          list = f.list;
          runs = f.runs;
          is = record {
            nodes = e ∷ is.nodes;
            ring = f.ring;
            holds = f.holds ∙ ap (λ (ys : Sequence). s ∷ ys) is.holds;
          };
        },
      )

  pop_back-nodes :
      (ps : List ℕ)
      → IsRing h l ps
      → Yields
          (pop_back l h)
          (Sequence.pop_back (contents h ps)).0
          (Sequence.pop_back (contents h ps)).1
  unfolding Sequence.pop_back
  pop_back-nodes [] ring = record {
    heap = h;
    list = l;
    runs = (pop_empty h l ring).1;
    is = record { nodes = []; ring = ring; holds = refl };
  }
  pop_back-nodes (p ∷ []) ring = record {
    heap = h;
    list = new;
    runs = (pop_single h l p ring).1;
    is = record { nodes = []; ring = (refl, refl); holds = refl };
  }
  pop_back-nodes (p ∷ q ∷ qs) ring =
      let (rs, t, e) = snoc-cases q qs in
      let k = pop_back-Leaves h l p rs t (subst (λ (us : List ℕ). IsRing h l (p ∷ us)) e ring) in
      let c : contents h (p ∷ q ∷ qs) ≡ h.content p ∷ (contents h rs ++ h.content t ∷ []) =
        ap (λ (us : List ℕ). contents h (p ∷ us)) e
        ∙ ap (λ (xs : List Text). h.content p ∷ xs) (contents-snoc h rs t) in
      let m = ap Sequence.pop_back c ∙ pop_back-snoc (h.content p) (contents h rs) (h.content t) in
      subst (λ (r : Text × Sequence). Yields (pop_back l h) r.0 r.1) (sym m)
        (record {
          heap = k.heap;
          list = k.list;
          runs = k.runs;
          is = record { nodes = p ∷ rs; ring = k.ring; holds = k.holds };
        })

  pop_front-nodes :
      (ps : List ℕ)
      → IsRing h l ps
      → Yields
          (pop_front l h)
          (Sequence.pop_front (contents h ps)).0
          (Sequence.pop_front (contents h ps)).1
  unfolding Sequence.pop_front
  pop_front-nodes [] ring = record {
    heap = h;
    list = l;
    runs = (pop_empty h l ring).0;
    is = record { nodes = []; ring = ring; holds = refl };
  }
  pop_front-nodes (p ∷ []) ring = record {
    heap = h;
    list = new;
    runs = (pop_single h l p ring).0;
    is = record { nodes = []; ring = (refl, refl); holds = refl };
  }
  pop_front-nodes (p ∷ q ∷ qs) ring =
      let k = pop_front-Leaves h l p q qs ring in
      record {
        heap = k.heap;
        list = k.list;
        runs = k.runs;
        is = record { nodes = q ∷ qs; ring = k.ring; holds = k.holds };
      }

  -- Popping follows no bad pointer and refines the pop on the sequence of contents, at either end,
  -- of an empty list too.
  pub pop_refines :
      (xs : Sequence)
      → IsList h l xs
      → Yields (pop_back l h) (Sequence.pop_back xs).0 (Sequence.pop_back xs).1
        × Yields (pop_front l h) (Sequence.pop_front xs).0 (Sequence.pop_front xs).1
  pop_refines xs is =
      subst
        (λ (ys : Sequence).
          Yields (pop_back l h) (Sequence.pop_back ys).0 (Sequence.pop_back ys).1
          × Yields (pop_front l h) (Sequence.pop_front ys).0 (Sequence.pop_front ys).1)
        is.holds (pop_back-nodes is.nodes is.ring, pop_front-nodes is.nodes is.ring)

  -- `find` and `print` of a list return what the sequence of its contents has, and change nothing.
  pub read_refines :
      (xs : Sequence) (s : Text)
      → IsList h l xs
      → (find s l h ≡ some (Sequence.find s xs, h)) × (print l h ≡ some (Sequence.print xs, h))
  read_refines xs s is =
      subst
        (λ (ys : Sequence).
          (find s l h ≡ some (Sequence.find s ys, h)) × (print l h ≡ some (Sequence.print ys, h)))
        is.holds (find-contents h l s is.nodes is.ring, print-contents h l is.nodes is.ring)

  -- `get` of a list that is not empty returns the text at the index's position, whatever the
  -- `int`, and changes nothing. The least `int` stands for the head.
  pub get_refines :
      (xs : Sequence) (index : ℤ)
      → IsList h l xs
      → xs ≢ []
      → get index l h ≡ some (Sequence.get index xs, h)
  get_refines xs index is =
      subst (λ (ys : Sequence). ys ≢ [] → get index l h ≡ some (Sequence.get index ys, h)) is.holds
        (got is.nodes is.ring)
    where
      got :
          (ps : List ℕ)
          → IsRing h l ps
          → contents h ps ≢ []
          → get index l h ≡ some (Sequence.get index (contents h ps), h)
      got [] ring ne = absurd (ne refl)
      got (p ∷ ps) ring ne = get-contents h l index p ps ring

  del-nodes :
      (index : ℤ) (ps : List ℕ)
      → IsRing h l ps
      → contents h ps ≢ []
      → Yields (del index l h) true (Sequence.del index (contents h ps))
  del-nodes index [] ring ne = absurd (ne refl)
  del-nodes index (p ∷ ps) ring ne =
      let k = del-Leaves h l index p ps ring in
      record {
        heap = k.heap;
        list = k.list;
        runs = k.runs;
        is = record {
          nodes = remove_at (position index (length (p ∷ ps))) (p ∷ ps);
          ring = k.ring;
          holds =
              k.holds
              ∙ contents-remove_at h _ (p ∷ ps)
              ∙ ap (λ (n : ℕ). remove_at (position index (suc n)) (contents h (p ∷ ps)))
                  (sym (length-contents h ps));
        };
      }

  -- `del` of a list that is not empty follows no bad pointer and removes the text at the index's
  -- position, whatever the `int`. The least `int` stands for the head.
  pub del_refines :
      (index : ℤ) (xs : Sequence)
      → IsList h l xs
      → xs ≢ []
      → Yields (del index l h) true (Sequence.del index xs)
  del_refines index xs is ne =
      subst (λ (ys : Sequence). ys ≢ [] → Yields (del index l h) true (Sequence.del index ys))
        is.holds (del-nodes index is.nodes is.ring) ne
