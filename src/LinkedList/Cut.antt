-- ===== src/LinkedList/Cut.antt =====
-- One node cut out of a ring and freed: the pointer surgery of both pops and of `del`.
use muse_kv.Prelude.{
  ℕ, ◌≡◌, ◌≢◌, refl, sym, ap, ◌∙◌, true, false, some, List, [], ◌∷◌, ◌++◌, map, arith,
}
use muse_kv.Text.{Text}
use muse_kv.LinkedList.{Heap, update, set_next, set_prev, prev, next, free, unlink}
use muse_kv.LinkedList.Ring.{
  has, Distinct, Links, Live, contents, last, first, Removed, Links-remove, has-last, has-append,
  prev_mid, next_mid,
}
use muse_kv.LinkedList.Push.{Live-at}

unfoldable pub unlinked : Heap → ℕ → Heap
unlinked h x = record h {
  next_ptr = update h.next_ptr (h.prev_ptr x) (h.next_ptr x);
  prev_ptr = update h.prev_ptr (h.next_ptr x) (h.prev_ptr x);
}

unfoldable pub dropped : Heap → ℕ → Heap
dropped h x = let g = unlinked h x in record g { live = update g.live x false }

unlink_lem :
    (h : Heap) (x : ℕ)
    → h.live x ≡ true
    → h.live (h.next_ptr x) ≡ true
    → h.live (h.prev_ptr x) ≡ true
    → h.next_ptr x ≢ x
    → unlink x h ≡ some (tt, unlinked h x)
unfolding unlink set_next set_prev prev next update unlinked
unlink_lem h x lx ln lp ne = ground arith

Removed-dropped : (h : Heap) (x : ℕ) → Removed h (dropped h x) x
unfolding dropped unlinked update
Removed-dropped h x = record {
  prev_after = ground arith;
  next_before = ground arith;
  next_same = λ y n. ground arith;
  prev_same = λ y n. ground arith;
}

-- The node after `x`, round the ring.
pub has-first :
    (ps : List ℕ) (x : ℕ) (qs : List ℕ) (a : ℕ) → has (first qs a) (a ∷ (ps ++ x ∷ qs)) ≡ true
has-first ps x [] a = ground arith
has-first ps x (q ∷ qs) a = ground (arith, has-append q ps (x ∷ q ∷ qs))

pub has-before :
    (ps : List ℕ) (x : ℕ) (qs : List ℕ) (a : ℕ) → has (last a ps) (a ∷ (ps ++ x ∷ qs)) ≡ true
has-before ps x qs a = ground (arith, has-last a ps, has-append (last a ps) ps (x ∷ qs))

pub has-mid : (ps : List ℕ) (x : ℕ) (qs : List ℕ) (a : ℕ) → has x (a ∷ (ps ++ x ∷ qs)) ≡ true
has-mid ps x qs a = ground (arith, has-append x ps (x ∷ qs))

Distinct-drop :
    (ps : List ℕ) (x : ℕ) (qs : List ℕ)
    → Distinct (ps ++ x ∷ qs)
    → Distinct (ps ++ qs) × (has x (ps ++ qs) ≡ false)
Distinct-drop [] x qs d = (d.1, d.0)
Distinct-drop (p ∷ ps) x qs d =
    let (r, f) = Distinct-drop ps x qs d.1 in
    (
      (ground (arith, has-append p ps (x ∷ qs), has-append p ps qs), r),
      ground (arith, has-append p ps (x ∷ qs)),
    )

Live-drop :
    (h g : Heap) (x : ℕ) (ps : List ℕ)
    → g.live ≡ update h.live x false
    → Live h ps
    → has x ps ≡ false
    → Live g ps
unfolding update
Live-drop h g x [] e k f = tt
Live-drop h g x (p ∷ ps) e k f = (k.0, rw e (ground arith), Live-drop h g x ps e k.2 (ground arith))

Live-part :
    (h : Heap) (ps : List ℕ) (x : ℕ) (qs : List ℕ) → Live h (ps ++ x ∷ qs) → Live h (ps ++ qs)
Live-part h [] x qs k = k.2
Live-part h (p ∷ ps) x qs k = (k.0, k.1, Live-part h ps x qs k.2)

pub contents-same :
    (h g : Heap) (ps : List ℕ) → g.content ≡ h.content → contents g ps ≡ contents h ps
contents-same h g ps e = ap (λ (f : ℕ → Text). map f ps) e

ne-first : (qs : List ℕ) (x b : ℕ) → has x qs ≡ false → x ≢ b → x ≢ first qs b
ne-first [] x b f ne = ne
ne-first (q ∷ qs) x b f ne = ground arith

-- The ring `a ∷ (ps ++ x ∷ qs)`, from which `x` is cut.
module _ (h : Heap) (a : ℕ) (ps : List ℕ) (x : ℕ) (qs : List ℕ) (k : Links h a (ps ++ x ∷ qs) a)
    (d : Distinct (a ∷ (ps ++ x ∷ qs))) (v : Live h (a ∷ (ps ++ x ∷ qs))) where
  x_ne : x ≢ a
  x_ne = ground (arith, d.0, has-append a ps (x ∷ qs))

  pub next_ne : h.next_ptr x ≢ x
  next_ne e =
      ne-first qs x a (ground (arith, Distinct-drop ps x qs d.1, has-append x ps qs)) x_ne
        (sym e ∙ next_mid h a ps x qs a k)

  pub unlink-unlinked : unlink x h ≡ some (tt, unlinked h x)
  unlink-unlinked =
      unlink_lem h x (Live-at h (a ∷ (ps ++ x ∷ qs)) x v (has-mid ps x qs a))
        (rw (next_mid h a ps x qs a k)
          (Live-at h (a ∷ (ps ++ x ∷ qs)) (first qs a) v (has-first ps x qs a)))
        (rw (prev_mid h a ps x qs a k)
          (Live-at h (a ∷ (ps ++ x ∷ qs)) (last a ps) v (has-before ps x qs a)))
        next_ne

  pub Links-dropped : Links (dropped h x) a (ps ++ qs) a
  Links-dropped = Links-remove h (dropped h x) a ps x qs a k (Removed-dropped h x) d d.0

  pub Live-dropped : Live (dropped h x) (a ∷ (ps ++ qs))
  unfolding dropped unlinked
  Live-dropped =
      Live-drop h (dropped h x) x (a ∷ (ps ++ qs)) refl (v.0, v.1, Live-part h ps x qs v.2)
        (ground (arith, Distinct-drop ps x qs d.1, x_ne))

  pub Distinct-dropped : Distinct (a ∷ (ps ++ qs))
  Distinct-dropped = (
    ground (arith, d.0, has-append a ps (x ∷ qs), has-append a ps qs),
    (Distinct-drop ps x qs d.1).0,
  )

  pub free-dropped : free x (unlinked h x) ≡ some (tt, dropped h x)
  unfolding free dropped unlinked
  free-dropped = rw (Live-at h (a ∷ (ps ++ x ∷ qs)) x v (has-mid ps x qs a))

  pub next-unlinked : next x (unlinked h x) ≡ some (first qs a, unlinked h x)
  unfolding next unlinked update
  next-unlinked =
      ground
        (arith, next_mid h a ps x qs a k, Live-at h (a ∷ (ps ++ x ∷ qs)) x v (has-mid ps x qs a))
