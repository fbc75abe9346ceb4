-- ===== src/Server/Loop.antt =====
-- The loop of `scan_and_send` over the ranges of the other servers.
use mathlib.Core.List.{map-append}
use muse_kv.Prelude.{
  ℕ, zero, suc, ◌+◌, ◌<◌, ◌≡◌, ◌≢◌, ◌⊎◌, refl, sym, ap, ◌∙◌, subst, Bool, true, false, not, ◌&&◌,
  some, List, [], ◌∷◌, ◌++◌, map, arith, ltb, ◌==◌, if◌then◌else◌, Bool-cases, inl, inr, length,
  get_elem?, All, All-append,
}
use muse_kv.Prelude.Int.{ℤ, pos, ltb_ℤ}
use muse_kv.Cluster.Ranges.{Holds}
use muse_kv.Distribute.{slot_start, slot_end}
use muse_kv.Server.Scan.{find_slot}

-- the indices below `k` but `i`
unfoldable pub below : ℕ → ℕ → List ℕ
below i zero = []
below i (suc k) = if k == i then below i k else below i k ++ k ∷ []

abbrev pub Has : ℕ → List ℕ → Type 0
Has k [] = ⊥
Has k (j ∷ ks) = (j ≡ k) ⊎ Has k ks

Has-append : (k : ℕ) (xs ys : List ℕ) → Has k xs ⊎ Has k ys → Has k (xs ++ ys)
Has-append k [] ys (inl a) = absurd a
Has-append k [] ys (inr b) = b
Has-append k (x ∷ xs) ys (inl (inl e)) = inl e
Has-append k (x ∷ xs) ys (inl (inr m)) = inr (Has-append k xs ys (inl m))
Has-append k (x ∷ xs) ys (inr b) = inr (Has-append k xs ys (inr b))

pub below-skip : (i k : ℕ) → (k == i) ≡ true → below i (suc k) ≡ below i k
unfolding below
below-skip i k e = rw e refl

pub below-more : (i k : ℕ) → (k == i) ≡ false → below i (suc k) ≡ below i k ++ k ∷ []
unfolding below
below-more i k e = rw e refl

pub map-below :
    {A : Type 0} (f : ℕ → A) (i k : ℕ) (xs : List A)
    → (k == i) ≡ false
    → xs ≡ map f (below i k)
    → xs ++ f k ∷ [] ≡ map f (below i (suc k))
map-below f i k xs e q = rw (q, below-more i k e) (sym (map-append f (below i k) (k ∷ [])))

pub below-Has : (i k m : ℕ) → k < m → k ≢ i → Has k (below i m)
unfolding below
below-Has i k zero h ne = absurd (omega (arith, h))
below-Has i k (suc m) h ne = elim (Bool-cases (m == i)) [
  | inl y ↦ rw y (below-Has i k m (ground arith) ne)
  | inr x ↦ rw x (
      Has-append k (below i m) (m ∷ []) (elim (Bool-cases (ltb k m)) [
        | inl z ↦ inl (below-Has i k m (ground arith) ne)
        | inr w ↦ inr (inl (ground arith))
      ]))
]

pub below-All : (P : ℕ → Type 0) (i m : ℕ) → ((k : ℕ) → k < m → P k) → All P (below i m)
unfolding below
below-All P i zero h = tt
below-All P i (suc m) h = elim (Bool-cases (m == i)) [
  | inl y ↦ rw y (below-All P i m (λ k b. h k (omega arith)))
  | inr x ↦ rw x (
      All-append P (below i m) (m ∷ []) (below-All P i m (λ k b. h k (omega arith)))
        (h m (omega arith), tt))
]

neither : (a b : Bool) → not a && not b ≡ true → (a ≡ false) × (b ≡ false)
neither false false e = (refl, refl)
neither false true e = cc
neither true b e = cc

further :
    (n slot j k : ℕ) (ks : List ℕ)
    → Holds n k slot
    → (not (ltb_ℤ (pos slot) (pos (slot_start n j))) && not (ltb_ℤ (slot_end n j) (pos slot)))
      ≡ false
    → Has k (j ∷ ks)
    → Has k ks
further n slot j k ks h x (inr m) = m
further n slot j k ks h x (inl e) =
    let x' =
      subst
        (λ j.
          (not (ltb_ℤ (pos slot) (pos (slot_start n j))) && not (ltb_ℤ (slot_end n j) (pos slot)))
          ≡ false)
        e x in
    absurd
      (go (ltb_ℤ (pos slot) (pos (slot_start n k))) (ltb_ℤ (slot_end n k) (pos slot)) h.0 h.1 x')
  where
    go : (a b : Bool) → a ≡ false → b ≡ false → (not a && not b) ≡ false → ⊥
    go a b p q r = cc

-- The loop stops at the one range that holds the slot.
pub find_slot-map :
    (n slot index k : ℕ) (fd : ℕ → ℤ) (ks : List ℕ)
    → Holds n k slot
    → Has k ks
    → All (λ j. Holds n j slot → j ≡ k) ks
    → (p : ℕ) × (find_slot
          (pos slot)
          (length ks)
          index
          (map (λ j. pos (slot_start n j)) ks)
          (map (slot_end n) ks)
        ≡ some (index + p))
      × (get_elem? (map fd ks) p ≡ some (fd k))
unfolding find_slot
find_slot-map n slot index k fd [] h m u = absurd m
find_slot-map n slot index k fd (j ∷ ks) h m u =
    elim (Bool-cases
      (not (ltb_ℤ (pos slot) (pos (slot_start n j))) && not (ltb_ℤ (slot_end n j) (pos slot)))) [
        | inl y ↦ (
          0,
          rw y (ap some (omega arith)),
          ap (λ x. some (fd x))
              (u.0 (
                neither (ltb_ℤ (pos slot) (pos (slot_start n j))) (ltb_ℤ (slot_end n j) (pos slot))
                  y)),
        )
        | inr x ↦
            let (p, e, g) =
              find_slot-map n slot (index + 1) k fd ks h (further n slot j k ks h x m) u.1 in
            (suc p, rw x (e ∙ ap some (omega arith)), g)
      ]
