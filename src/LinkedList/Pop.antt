-- ===== src/LinkedList/Pop.antt =====
-- `pop_front` and `pop_back` on a ring of nodes.
use mathlib.Core.List.{append-nil}
use muse_kv.Prelude.{
  ℕ, ◌-◌, ◌≡◌, ◌≢◌, refl, sym, ◌∙◌, true, false, Option, some, List, [], ◌∷◌, ◌++◌, arith, ◌==◌,
  length-append,
}
use muse_kv.LinkedList.{Heap, LinkedList, prev, next, content, pop_front, pop_back, new}
use muse_kv.LinkedList.Ring.{Distinct, Links, Live, IsRing, contents, last, prev-last}
use muse_kv.LinkedList.Push.{Live-at, not_null, Distinct-snoc, Live-snoc}
use muse_kv.LinkedList.Cut.{
  unlinked, dropped, unlink-unlinked, free-dropped, next-unlinked, Links-dropped, Live-dropped,
  Distinct-dropped, contents-same, has-mid,
}

-- A run that returned `a` and left a ring of the nodes `qs`, which kept their contents.
pub record Leaves {A : Type 0} (h : Heap) (run : Option ((A × LinkedList) × Heap)) (a : A)
    (qs : List ℕ) : Type 0 where
  pub heap : Heap
  pub list : LinkedList
  pub runs : run ≡ some ((a, list), heap)
  pub ring : IsRing heap list qs
  pub holds : contents heap qs ≡ contents h qs

pub next-ok : (h : Heap) (p : ℕ) → h.live p ≡ true → next p h ≡ some (h.next_ptr p, h)
unfolding next
next-ok h p l = rw l

pub prev-ok : (h : Heap) (p : ℕ) → h.live p ≡ true → prev p h ≡ some (h.prev_ptr p, h)
unfolding prev
prev-ok h p l = rw l

pub content-ok : (h : Heap) (p : ℕ) → h.live p ≡ true → content p h ≡ some (h.content p, h)
unfolding content
content-ok h p l = rw l

pub eq_false : (a b : ℕ) → a ≢ b → (a == b) ≡ false
eq_false a b n = ground arith

last-snoc : (a : ℕ) (ps : List ℕ) (t : ℕ) → last a (ps ++ t ∷ []) ≡ t
last-snoc a [] t = refl
last-snoc a (p ∷ ps) t = last-snoc p ps t

Links-turn :
    (h : Heap) (a : ℕ) (ps : List ℕ) (b c : ℕ)
    → Links h a ps b
    → (h.next_ptr b ≡ c) × (h.prev_ptr c ≡ b)
    → Links h a (ps ++ b ∷ []) c
Links-turn h a [] b c k m = (k.0, k.1, m)
Links-turn h a (p ∷ ps) b c k m = (k.0, k.1, Links-turn h p ps b c k.2 m)

-- The same ring, seen from the second node.
pub rotate :
    (h : Heap) (p q : ℕ) (qs : List ℕ)
    → Links h p (q ∷ qs) p
    → Distinct (p ∷ q ∷ qs)
    → Live h (p ∷ q ∷ qs)
    → Links h q (qs ++ p ∷ []) q × Distinct (q ∷ (qs ++ p ∷ [])) × Live h (q ∷ (qs ++ p ∷ []))
rotate h p q qs k d v = (
  Links-turn h q qs p q k.2 (k.0, k.1),
  Distinct-snoc (q ∷ qs) p d.1 d.0,
  Live-snoc h (q ∷ qs) p v.2 v.0 v.1,
)

-- With two nodes the head is not its own successor.
pub second_ne :
    (h : Heap) (a : ℕ) (ps : List ℕ) (x : ℕ) (qs : List ℕ)
    → Links h a (ps ++ x ∷ qs) a
    → Distinct (a ∷ (ps ++ x ∷ qs))
    → h.next_ptr a ≢ a
second_ne h a [] x qs k d e = ground (arith, sym k.0 ∙ e)
second_ne h a (p ∷ ps) x qs k d e = ground (arith, sym k.0 ∙ e)

module _ (h : Heap) (l : LinkedList) where
  -- On a ring of at least two nodes `pop_back` returns the content of the last one, frees it and
  -- leaves the others.
  pub pop_back-Leaves :
      (p : ℕ) (qs : List ℕ) (t : ℕ)
      → IsRing h l (p ∷ (qs ++ t ∷ []))
      → Leaves h (pop_back l h) (h.content t) (p ∷ qs)
  unfolding pop_back
  pop_back-Leaves p qs t (l0, n0, k, d, v) =
      let g = dropped h t in
      let nt : h.prev_ptr p ≡ t = prev-last h p (qs ++ t ∷ []) p k ∙ last-snoc p qs t in
      let lt = Live-at h (p ∷ (qs ++ t ∷ [])) t v (has-mid qs t [] p) in
      record {
        heap = g;
        list = record { head = p; length = l.length - 1 };
        runs = rw (
          l0,
          not_null p v.0,
          next-ok h p v.1,
          eq_false (h.next_ptr p) p (second_ne h p qs t [] k d),
          prev-ok h p v.1,
          nt,
          content-ok h t lt,
          unlink-unlinked h p qs t [] k d v,
          free-dropped h p qs t [] k d v,
        );
        ring = rw (← append-nil qs) (
          refl,
          omega (arith, length-append qs (t ∷ []), length-append {0} qs []),
          Links-dropped h p qs t [] k d v,
          Distinct-dropped h p qs t [] k d v,
          Live-dropped h p qs t [] k d v,
        );
        holds = contents-same h g (p ∷ qs) (unfold dropped unlinked in refl);
      }

  -- On a ring of at least two nodes `pop_front` returns the content of the head, frees it, and
  -- the next node is the head.
  pub pop_front-Leaves :
      (p q : ℕ) (qs : List ℕ)
      → IsRing h l (p ∷ q ∷ qs)
      → Leaves h (pop_front l h) (h.content p) (q ∷ qs)
  unfolding pop_front
  pop_front-Leaves p q qs (l0, n0, k, d, v) =
      let g = dropped h p in
      let (k', d', v') = rotate h p q qs k d v in
      record {
        heap = g;
        list = record { head = q; length = l.length - 1 };
        runs = rw (
          l0,
          not_null p v.0,
          next-ok h p v.1,
          eq_false (h.next_ptr p) p (second_ne h p [] q qs k d),
          content-ok h p v.1,
          unlink-unlinked h q qs p [] k' d' v',
          next-unlinked h q qs p [] k' d' v',
          free-dropped h q qs p [] k' d' v',
        );
        ring = rw (← append-nil qs) (
          refl,
          omega (arith, length-append {0} qs []),
          Links-dropped h q qs p [] k' d' v',
          Distinct-dropped h q qs p [] k' d' v',
          Live-dropped h q qs p [] k' d' v',
        );
        holds = contents-same h g (q ∷ qs) (unfold dropped unlinked in refl);
      }

  -- On a ring of one node both pops return its content and leave the empty list, but free
  -- nothing: the node stays allocated.
  pub pop_single :
      (p : ℕ)
      → IsRing h l (p ∷ [])
      → (pop_front l h ≡ some ((h.content p, new), h))
        × (pop_back l h ≡ some ((h.content p, new), h))
  unfolding pop_front pop_back
  pop_single p (l0, n0, k, d, v) =
      let e : (h.next_ptr p == p) ≡ true = ground arith in
      let z : l.length - 1 ≡ 0 = omega arith in
      (
        rw (l0, not_null p v.0, next-ok h p v.1, e, content-ok h p v.1, z),
        rw (l0, not_null p v.0, next-ok h p v.1, e, content-ok h p v.1, z),
      )

  pub pop_empty :
      IsRing h l [] → (pop_front l h ≡ some (([], l), h)) × (pop_back l h ≡ some (([], l), h))
  unfolding pop_front pop_back
  pop_empty (l0, n0) = (rw l0, rw l0)
