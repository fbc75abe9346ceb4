-- ===== src/LinkedList/Push.antt =====
-- `push_front` and `push_back` on a ring of nodes.
use muse_kv.Prelude.{
  ℕ, ◌+◌, ◌≡◌, ◌≢◌, refl, ap, ◌∙◌, true, false, Option, some, List, [], ◌∷◌, ◌++◌, arith, ◌==◌,
  length-append,
}
use muse_kv.Text.{Text}
use muse_kv.LinkedList.{
  Heap, LinkedList, null, update, set_next, set_prev, prev, new_node, alone, link_before,
  push_front, push_back,
}
use muse_kv.LinkedList.Ring.{
  has, Distinct, Links, Live, IsRing, contents, last, Inserted, Links-insert, prev-last, has-last,
  has-append,
}

linked : Heap → ℕ → ℕ → Heap
linked h head e = record h {
  next_ptr = update (update h.next_ptr e head) (h.prev_ptr head) e;
  prev_ptr = update (update h.prev_ptr e (h.prev_ptr head)) head e;
}

link_before_lem :
    (h : Heap) (head e : ℕ)
    → h.live e ≡ true
    → h.live head ≡ true
    → h.live (h.prev_ptr head) ≡ true
    → e ≢ head
    → link_before head e h ≡ some (tt, linked h head e)
unfolding link_before set_next set_prev prev update linked
link_before_lem h head e le lh lt ne = ground arith

fresh : Heap → ℕ → Text → Heap
fresh h e s = record {
  live = update h.live e true;
  content = update h.content e s;
  prev_ptr = update h.prev_ptr e null;
  next_ptr = update h.next_ptr e null;
}

pub not-has_fresh :
    (h : Heap) (ps : List ℕ) (e : ℕ) → Live h ps → h.live e ≡ false → has e ps ≡ false
not-has_fresh h [] e k f = refl
not-has_fresh h (p ∷ ps) e k f = ground (arith, not-has_fresh h ps e k.2 f, ap h.live)

pub Live-at : (h : Heap) (ps : List ℕ) (x : ℕ) → Live h ps → has x ps ≡ true → h.live x ≡ true
Live-at h [] x k m = cc
Live-at h (p ∷ ps) x k m = ground (arith, Live-at h ps x k.2)

Live-linked :
    (h : Heap) (head e : ℕ) (s : Text) (ps : List ℕ)
    → Live h ps
    → Live (linked (fresh h e s) head e) ps
unfolding linked fresh update
Live-linked h head e s [] k = tt
Live-linked h head e s (p ∷ ps) k = (k.0, ground arith, Live-linked h head e s ps k.2)

contents-linked :
    (h : Heap) (head e : ℕ) (s : Text) (ps : List ℕ)
    → has e ps ≡ false
    → contents (linked (fresh h e s) head e) ps ≡ contents h ps
unfolding linked fresh update
contents-linked h head e s [] f = refl
contents-linked h head e s (p ∷ ps) f = ground (arith, contents-linked h head e s ps)

module _ (h : Heap) (e p : ℕ) (s : Text) (ps : List ℕ) (k : Links h p ps p)
    (f : has e (p ∷ ps) ≡ false) where
  Inserted-linked : Inserted h (linked (fresh h e s) p e) e (last p ps) p
  unfolding linked fresh update
  Inserted-linked =
      let t = prev-last h p ps p k in
      let m = has-last p ps in
      let ne : e ≢ last p ps = λ q. cc (ap (λ (z : ℕ). has z (p ∷ ps)) q) in
      record {
        next_new = ground (arith, t);
        prev_new = ground (arith, t);
        next_old = ground (arith, t);
        prev_old = ground (arith, t);
        next_same = λ x a b. ground (arith, t);
        prev_same = λ x a b. ground (arith, t);
      }

  -- The ring with the new node at its end, which is also the place before its head.
  Links-linked : Distinct (p ∷ ps) → Links (linked (fresh h e s) p e) p (ps ++ e ∷ []) p
  Links-linked d =
      Links-insert h (linked (fresh h e s) p e) e p ps p k Inserted-linked d f d.0 (ground arith)

link_before-linked :
    (h : Heap) (e p : ℕ) (s : Text) (ps : List ℕ)
    → Links h p ps p
    → has e (p ∷ ps) ≡ false
    → Live h (p ∷ ps)
    → link_before p e (fresh h e s) ≡ some (tt, linked (fresh h e s) p e)
unfolding fresh update
link_before-linked h e p s ps k f v =
    let t = prev-last h p ps p k in
    let lt = Live-at h (p ∷ ps) (last p ps) v (has-last p ps) in
    link_before_lem (fresh h e s) p e (ground arith) (ground arith) (ground (arith, t, lt))
      (ground arith)

pub Links-snoc :
    (h : Heap) (a : ℕ) (ps : List ℕ) (x b : ℕ)
    → Links h a (ps ++ x ∷ []) b
    → Links h a ps x × (h.next_ptr x ≡ b) × (h.prev_ptr b ≡ x)
Links-snoc h a [] x b k = ((k.0, k.1), k.2.0, k.2.1)
Links-snoc h a (p ∷ ps) x b k = let (r, n, q) = Links-snoc h p ps x b k.2 in ((k.0, k.1, r), n, q)

pub Distinct-snoc : (ps : List ℕ) (e : ℕ) → Distinct ps → has e ps ≡ false → Distinct (ps ++ e ∷ [])
Distinct-snoc [] e d f = (refl, tt)
Distinct-snoc (p ∷ ps) e d f =
    (ground (arith, has-append p ps (e ∷ [])), Distinct-snoc ps e d.1 (ground arith))

pub Live-snoc :
    (h : Heap) (ps : List ℕ) (e : ℕ)
    → Live h ps
    → e ≢ null
    → h.live e ≡ true
    → Live h (ps ++ e ∷ [])
Live-snoc h [] e k n l = (n, l, tt)
Live-snoc h (p ∷ ps) e k n l = (k.0, k.1, Live-snoc h ps e k.2 n l)

contents-snoc :
    (h : Heap) (ps : List ℕ) (e : ℕ) → contents h (ps ++ e ∷ []) ≡ contents h ps ++ h.content e ∷ []
contents-snoc h [] e = refl
contents-snoc h (p ∷ ps) e = ap (λ (xs : List Text). h.content p ∷ xs) (contents-snoc h ps e)

-- What a push leaves: a ring of the nodes `qs`, whose contents are `xs`.
pub record Pushed (h : Heap) (run : Heap → Option (LinkedList × Heap)) (qs : List ℕ)
    (xs : List Text) : Type 0 where
  pub heap : Heap
  pub list : LinkedList
  pub runs : run h ≡ some (list, heap)
  pub ring : IsRing heap list qs
  pub holds : contents heap qs ≡ xs

pub not_null : (p : ℕ) → p ≢ null → (p == null) ≡ false
not_null p n = ground arith

only : Heap → ℕ → Text → Heap
only h e s =
    let g = fresh h e s in
    record g { next_ptr = update g.next_ptr e e; prev_ptr = update g.prev_ptr e e }

module _ (h : Heap) (l : LinkedList) (e : ℕ) (s : Text) (nn : e ≢ null)
    (free : h.live e ≡ false) where
  -- On a ring, `push_back` of a new node follows no bad pointer and puts the content at the end.
  pub push_back-Pushed :
      (ps : List ℕ)
      → IsRing h l ps
      → Pushed h (push_back e s l) (ps ++ e ∷ []) (contents h ps ++ s ∷ [])
  unfolding push_back new_node alone set_next set_prev update only fresh
  push_back-Pushed [] (l0, n0) = record {
    heap = only h e s;
    list = record { head = e; length = 1 };
    runs = ground arith;
    ring = (refl, refl, (ground arith, ground arith), (refl, tt), (nn, ground arith, tt));
    holds = ground arith;
  }
  push_back-Pushed (p ∷ ps) (l0, n0, k, d, v) =
      let f = not-has_fresh h (p ∷ ps) e v free in
      let g = linked (fresh h e s) p e in
      let content_new : g.content e ≡ s = unfold linked in ground arith in
      record {
        heap = g;
        list = record { head = p; length = l.length + 1 };
        runs = rw (l0, not_null p v.0) (rw (link_before-linked h e p s ps k f v));
        ring = (
          refl,
          omega (arith, length-append (p ∷ ps) (e ∷ [])),
          Links-linked h e p s ps k f d,
          Distinct-snoc (p ∷ ps) e d f,
          Live-snoc g (p ∷ ps) e (Live-linked h p e s (p ∷ ps) v) nn
              (unfold linked in ground arith),
        );
        holds = contents-snoc g (p ∷ ps) e ∙ cc (contents-linked h p e s (p ∷ ps) f, content_new);
      }

  -- `push_front` puts the content in front, and the new node becomes the head.
  pub push_front-Pushed :
      (ps : List ℕ) → IsRing h l ps → Pushed h (push_front e s l) (e ∷ ps) (s ∷ contents h ps)
  unfolding push_front new_node alone set_next set_prev update only fresh
  push_front-Pushed [] (l0, n0) = record {
    heap = only h e s;
    list = record { head = e; length = 1 };
    runs = ground arith;
    ring = (refl, refl, (ground arith, ground arith), (refl, tt), (nn, ground arith, tt));
    holds = ground arith;
  }
  push_front-Pushed (p ∷ ps) (l0, n0, k, d, v) =
      let f = not-has_fresh h (p ∷ ps) e v free in
      let g = linked (fresh h e s) p e in
      let (forth, after, before) = Links-snoc g p ps e p (Links-linked h e p s ps k f d) in
      let content_new : g.content e ≡ s = unfold linked in ground arith in
      record {
        heap = g;
        list = record { head = e; length = l.length + 1 };
        runs = rw (l0, not_null p v.0) (rw (link_before-linked h e p s ps k f v));
        ring = (
          refl,
          omega arith,
          (after, before, forth),
          (f, d),
          (nn, unfold linked in ground arith, Live-linked h p e s (p ∷ ps) v),
        );
        holds = cc (contents-linked h p e s (p ∷ ps) f, content_new);
      }
