-- ===== src/LinkedList/Edit.antt =====
-- `set` and `del` on a ring of nodes.
use mathlib.Core.List.{append-nil}
use muse_kv.Prelude.{
  ℕ, zero, suc, ◌-◌, ◌<◌, ◌≡◌, ◌≢◌, refl, sym, ap, subst, true, false, some, List, [], ◌∷◌, ◌++◌,
  arith, ◌==◌, length, length-append,
}
use muse_kv.Prelude.Int.{ℤ}
use muse_kv.LinkedList.{Heap, LinkedList, null, update, free, at, del, new}
use muse_kv.LinkedList.Ring.{has, Live, IsRing, has-append}
use muse_kv.LinkedList.Push.{Live-at, not_null}
use muse_kv.LinkedList.Cut.{
  unlinked, dropped, next_ne, unlink-unlinked, free-dropped, Links-dropped, Live-dropped,
  Distinct-dropped, contents-same, has-mid,
}
use muse_kv.LinkedList.Pop.{Leaves, next-ok, eq_false, second_ne, rotate}
use muse_kv.LinkedList.Walk.{nth, at-nth, position-lt}
use muse_kv.LinkedList.Sequence.{position, remove_at}

-- A list of nodes, cut at one of them.
record Cut (ps : List ℕ) (i : ℕ) : Type 0 where
  before : List ℕ
  after : List ℕ
  whole : ps ≡ before ++ nth ps i ∷ after
  rest : remove_at i ps ≡ before ++ after

cut : (ps : List ℕ) (i : ℕ) → i < length ps → Cut ps i
unfolding remove_at
cut [] i b = absurd (omega arith)
cut (p ∷ ps) zero b = record { before = []; after = ps; whole = refl; rest = refl }
cut (p ∷ ps) (suc i) b =
    let c = cut ps i (omega arith) in
    record {
      before = p ∷ c.before;
      after = c.after;
      whole = ap (λ (qs : List ℕ). p ∷ qs) c.whole;
      rest = ap (λ (qs : List ℕ). p ∷ qs) c.rest;
    }

ne_null : (h : Heap) (ps : List ℕ) (x : ℕ) → Live h ps → has x ps ≡ true → x ≢ null
ne_null h [] x k m = cc
ne_null h (p ∷ ps) x k m = ground (arith, ne_null h ps x k.2)

same : (p : ℕ) → (p == p) ≡ true
same p = ground arith

module _ (h : Heap) (l : LinkedList) (index : ℤ) where
  del_mid :
      (p : ℕ) (ps : List ℕ) (x : ℕ) (qs : List ℕ)
      → IsRing h l (p ∷ (ps ++ x ∷ qs))
      → at index l h ≡ some (x, h)
      → Leaves h (del index l h) true (p ∷ (ps ++ qs))
  unfolding del
  del_mid p ps x qs (l0, n0, k, d, v) e =
      let lx = Live-at h (p ∷ (ps ++ x ∷ qs)) x v (has-mid ps x qs p) in
      let nx : (x == p) ≡ false = ground (arith, d.0, has-append p ps (x ∷ qs)) in
      let x0 : (x == null) ≡ false =
        not_null x (ne_null h (p ∷ (ps ++ x ∷ qs)) x v (has-mid ps x qs p)) in
      record {
        heap = dropped h x;
        list = record { head = p; length = l.length - 1 };
        runs = rw (
          e,
          x0,
          next-ok h x lx,
          eq_false (h.next_ptr x) x (next_ne h p ps x qs k d v),
          l0,
          nx,
          unlink-unlinked h p ps x qs k d v,
          free-dropped h p ps x qs k d v,
        );
        ring = (
          refl,
          omega (arith, length-append ps (x ∷ qs), length-append {0} ps qs),
          Links-dropped h p ps x qs k d v,
          Distinct-dropped h p ps x qs k d v,
          Live-dropped h p ps x qs k d v,
        );
        holds = contents-same h (dropped h x) (p ∷ (ps ++ qs)) (unfold dropped unlinked in refl);
      }

  del_head :
      (p q : ℕ) (qs : List ℕ)
      → IsRing h l (p ∷ q ∷ qs)
      → at index l h ≡ some (p, h)
      → Leaves h (del index l h) true (q ∷ qs)
  unfolding del
  del_head p q qs (l0, n0, k, d, v) e =
      let (k', d', v') = rotate h p q qs k d v in
      record {
        heap = dropped h p;
        list = record { head = q; length = l.length - 1 };
        runs = rw (
          e,
          not_null p v.0,
          next-ok h p v.1,
          eq_false (h.next_ptr p) p (second_ne h p [] q qs k d),
          l0,
          same p,
          next-ok h p v.1,
          k.0,
          unlink-unlinked h q qs p [] k' d' v',
          free-dropped h q qs p [] k' d' v',
        );
        ring = rw (← append-nil qs) (
          refl,
          omega (arith, length-append {0} qs []),
          Links-dropped h q qs p [] k' d' v',
          Distinct-dropped h q qs p [] k' d' v',
          Live-dropped h q qs p [] k' d' v',
        );
        holds = contents-same h (dropped h p) (q ∷ qs) (unfold dropped unlinked in refl);
      }

  del_single :
      (p : ℕ) → IsRing h l (p ∷ []) → at index l h ≡ some (p, h) → Leaves h (del index l h) true []
  unfolding del free
  del_single p (l0, n0, k, d, v) e =
      let s : (h.next_ptr p == p) ≡ true = ground arith in
      record {
        heap = record h { live = update h.live p false };
        list = new;
        runs = rw (e, not_null p v.0, next-ok h p v.1, s, v.1, n0) refl;
        ring = (refl, refl);
        holds = refl;
      }

  del-nth :
      (p : ℕ) (ps : List ℕ) (i : ℕ)
      → IsRing h l (p ∷ ps)
      → i < length (p ∷ ps)
      → at index l h ≡ some (nth (p ∷ ps) i, h)
      → Leaves h (del index l h) true (remove_at i (p ∷ ps))
  unfolding remove_at
  del-nth p [] zero ring b e = del_single p ring e
  del-nth p [] (suc i) ring b e = absurd (omega arith)
  del-nth p (q ∷ qs) zero ring b e = del_head p q qs ring e
  del-nth p (q ∷ qs) (suc i) ring b e =
      let c = cut (q ∷ qs) i (omega arith) in
      subst (λ (rs : List ℕ). Leaves h (del index l h) true (p ∷ rs)) (sym c.rest)
        (del_mid p c.before (nth (q ∷ qs) i) c.after
          (subst (λ (rs : List ℕ). IsRing h l (p ∷ rs)) c.whole ring) e)

  -- `del` of any index of a list that is not empty unlinks and frees the node at the index's
  -- position, keeps the other nodes in order, and returns true.
  pub del-Leaves :
      (p : ℕ) (ps : List ℕ)
      → IsRing h l (p ∷ ps)
      → Leaves h (del index l h) true (remove_at (position index (length (p ∷ ps))) (p ∷ ps))
  del-Leaves p ps ring =
      del-nth p ps (position index (length (p ∷ ps))) ring (position-lt index _ (omega arith))
        (at-nth h l p ps index ring)
