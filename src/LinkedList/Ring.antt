-- ===== src/LinkedList/Ring.antt =====
-- When a heap holds a ring of nodes, and what the pointer surgery does to it.
use muse_kv.Prelude.{
  ℕ, ◌≡◌, ◌≢◌, refl, sym, ap, ◌∙◌, Bool, true, false, ◌||◌, List, [], ◌∷◌, ◌++◌, map, arith, ◌==◌,
  length,
}
use muse_kv.Text.{Text}
use muse_kv.LinkedList.{Heap, LinkedList, null}

abbrev pub has : ℕ → List ℕ → Bool
has a [] = false
has a (p ∷ ps) = (a == p) || has a ps

abbrev pub Distinct : List ℕ → Type 0
Distinct [] = Unit
Distinct (p ∷ ps) = (has p ps ≡ false) × Distinct ps

-- `next_ptr` leads from `a` through `ps` to `b`, and `prev_ptr` back.
abbrev pub Links : Heap → ℕ → List ℕ → ℕ → Type 0
Links h a [] b = (h.next_ptr a ≡ b) × (h.prev_ptr b ≡ a)
Links h a (p ∷ ps) b = (h.next_ptr a ≡ p) × (h.prev_ptr p ≡ a) × Links h p ps b

-- All nodes are allocated, and none is NULL.
abbrev pub Live : Heap → List ℕ → Type 0
Live h [] = Unit
Live h (p ∷ ps) = (p ≢ null) × (h.live p ≡ true) × Live h ps

-- `l` is a list object whose nodes are `ps`, from the head on.
abbrev pub IsRing : Heap → LinkedList → List ℕ → Type 0
IsRing h l [] = (l.head ≡ null) × (l.length ≡ 0)
IsRing h l (p ∷ ps) =
    (l.head ≡ p)
    × (l.length ≡ length (p ∷ ps))
    × Links h p ps p
    × Distinct (p ∷ ps)
    × Live h (p ∷ ps)

abbrev pub contents : Heap → List ℕ → List Text
contents h ps = map h.content ps

abbrev pub last : ℕ → List ℕ → ℕ
last a [] = a
last a (p ∷ ps) = last p ps

abbrev pub first : List ℕ → ℕ → ℕ
first [] b = b
first (p ∷ ps) b = p

pub has-append : (a : ℕ) (ps qs : List ℕ) → has a (ps ++ qs) ≡ (has a ps || has a qs)
has-append a [] qs = refl
has-append a (p ∷ ps) qs = ground (arith, has-append a ps qs)

pub has-last : (a : ℕ) (ps : List ℕ) → has (last a ps) (a ∷ ps) ≡ true
has-last a [] = ground arith
has-last a (p ∷ ps) = ground (arith, has-last p ps)

pub prev-last : (h : Heap) (a : ℕ) (ps : List ℕ) (b : ℕ) → Links h a ps b → h.prev_ptr b ≡ last a ps
prev-last h a [] b k = k.1
prev-last h a (p ∷ ps) b k = prev-last h p ps b k.2

pub next-first :
    (h : Heap) (a : ℕ) (ps : List ℕ) (b : ℕ) → Links h a ps b → h.next_ptr a ≡ first ps b
next-first h a [] b k = k.0
next-first h a (p ∷ ps) b k = k.0

-- Links read `next_ptr` at `a` and `ps`, and `prev_ptr` at `ps` and `b`.
pub Links-frame :
    (h g : Heap) (a : ℕ) (ps : List ℕ) (b : ℕ)
    → ((x : ℕ) → has x (a ∷ ps) ≡ true → g.next_ptr x ≡ h.next_ptr x)
    → ((x : ℕ) → has x ps ≡ true → g.prev_ptr x ≡ h.prev_ptr x)
    → g.prev_ptr b ≡ h.prev_ptr b
    → Links h a ps b
    → Links g a ps b
Links-frame h g a [] b n p e k = (n a (ground arith) ∙ k.0, e ∙ k.1)
Links-frame h g a (q ∷ ps) b n p e k = (
  n a (ground arith) ∙ k.0,
  p q (ground arith) ∙ k.1,
  Links-frame h g q ps b (λ x m. n x (ground arith)) (λ x m. p x (ground arith)) e k.2,
)

-- `g` is `h` with the node `e` between `t` and `b`.
pub record Inserted (h g : Heap) (e t b : ℕ) : Type 0 where
  pub next_new : g.next_ptr e ≡ b
  pub prev_new : g.prev_ptr e ≡ t
  pub next_old : g.next_ptr t ≡ e
  pub prev_old : g.prev_ptr b ≡ e
  pub next_same : (x : ℕ) → x ≢ e → x ≢ t → g.next_ptr x ≡ h.next_ptr x
  pub prev_same : (x : ℕ) → x ≢ e → x ≢ b → g.prev_ptr x ≡ h.prev_ptr x

ne_of_has : (x y : ℕ) (ps : List ℕ) → has x ps ≡ true → has y ps ≡ false → x ≢ y
ne_of_has x y ps m n e = cc (ap (λ (z : ℕ). has z ps) e)

pub Links-insert :
    (h g : Heap) (e a : ℕ) (ps : List ℕ) (b : ℕ)
    → Links h a ps b
    → Inserted h g e (last a ps) b
    → Distinct (a ∷ ps)
    → has e (a ∷ ps) ≡ false
    → has b ps ≡ false
    → e ≢ b
    → Links g a (ps ++ e ∷ []) b
Links-insert h g e a [] b k i d fe fb ne = (i.next_old, i.prev_new, (i.next_new, i.prev_old))
Links-insert h g e a (p ∷ ps) b k i d fe fb ne = (
  i.next_same a (ground arith) (λ q. ne_of_has (last p ps) a (p ∷ ps) (has-last p ps) d.0 (sym q))
      ∙ k.0,
  i.prev_same p (ground arith) (ground arith) ∙ k.1,
  Links-insert h g e p ps b k.2 i d.1 (ground arith) (ground arith) ne,
)

-- `g` is `h` with the two neighbours of `x` linked to one another.
pub record Removed (h g : Heap) (x : ℕ) : Type 0 where
  pub prev_after : g.prev_ptr (h.next_ptr x) ≡ h.prev_ptr x
  pub next_before : g.next_ptr (h.prev_ptr x) ≡ h.next_ptr x
  pub next_same : (y : ℕ) → y ≢ h.prev_ptr x → g.next_ptr y ≡ h.next_ptr y
  pub prev_same : (y : ℕ) → y ≢ h.next_ptr x → g.prev_ptr y ≡ h.prev_ptr y

-- the node `x` right behind `a`
Links-remove_first :
    (h g : Heap) (a x : ℕ) (qs : List ℕ) (b : ℕ)
    → Links h a (x ∷ qs) b
    → Removed h g x
    → Distinct (a ∷ x ∷ qs)
    → has b (x ∷ qs) ≡ false
    → Links g a qs b
Links-remove_first h g a x [] b k r d fb = (
  ap g.next_ptr (sym k.1) ∙ r.next_before ∙ k.2.0,
  ap g.prev_ptr (sym k.2.0) ∙ r.prev_after ∙ k.1,
)
Links-remove_first h g a x (q ∷ qs) b k r d fb = (
  ap g.next_ptr (sym k.1) ∙ r.next_before ∙ k.2.0,
  ap g.prev_ptr (sym k.2.0) ∙ r.prev_after ∙ k.1,
  Links-frame h g q qs b
      (λ y m. r.next_same y (λ e. ne_of_has y a (q ∷ qs) m (ground arith) (e ∙ k.1)))
      (λ y m. r.prev_same y (λ e. ne_of_has y q qs m (ground arith) (e ∙ k.2.0)))
      (r.prev_same b (λ e. ground (arith, e ∙ k.2.0))) k.2.2,
)

pub prev_mid :
    (h : Heap) (a : ℕ) (ps : List ℕ) (x : ℕ) (qs : List ℕ) (b : ℕ)
    → Links h a (ps ++ x ∷ qs) b
    → h.prev_ptr x ≡ last a ps
prev_mid h a [] x qs b k = k.1
prev_mid h a (p ∷ ps) x qs b k = prev_mid h p ps x qs b k.2

pub next_mid :
    (h : Heap) (a : ℕ) (ps : List ℕ) (x : ℕ) (qs : List ℕ) (b : ℕ)
    → Links h a (ps ++ x ∷ qs) b
    → h.next_ptr x ≡ first qs b
next_mid h a [] x qs b k = next-first h x qs b k.2
next_mid h a (p ∷ ps) x qs b k = next_mid h p ps x qs b k.2

-- The node behind `x` is not one that stands before it.
ne-first :
    (p : ℕ) (ps : List ℕ) (x : ℕ) (qs : List ℕ) (b : ℕ)
    → has p (ps ++ x ∷ qs) ≡ false
    → p ≢ b
    → p ≢ first qs b
ne-first p ps x [] b n ne = ne
ne-first p ps x (q ∷ qs) b n ne = ground (arith, has-append p ps (x ∷ q ∷ qs))

pub Links-remove :
    (h g : Heap) (a : ℕ) (ps : List ℕ) (x : ℕ) (qs : List ℕ) (b : ℕ)
    → Links h a (ps ++ x ∷ qs) b
    → Removed h g x
    → Distinct (a ∷ (ps ++ x ∷ qs))
    → has b (ps ++ x ∷ qs) ≡ false
    → Links g a (ps ++ qs) b
Links-remove h g a [] x qs b k r d fb = Links-remove_first h g a x qs b k r d fb
Links-remove h g a (p ∷ ps) x qs b k r d fb = (
  r.next_same a (λ e.
        ne_of_has (last p ps) a (p ∷ ps) (has-last p ps)
          (ground (arith, d.0, has-append a ps (x ∷ qs))) (sym (e ∙ prev_mid h p ps x qs b k.2)))
      ∙ k.0,
  r.prev_same p (λ e. ne-first p ps x qs b d.1.0 (ground arith) (e ∙ next_mid h p ps x qs b k.2))
      ∙ k.1,
  Links-remove h g p ps x qs b k.2 r d.1 (ground arith),
)
