-- ===== src/Cluster/Ranges.antt =====
-- The ranges of slots that the programs hand out divide the table.
use native.Mathlib.Nat
use native.Mathlib.Numerals.{unary_clauses}
use muse_kv.Prelude.{
  ℕ, zero, suc, ◌+◌, ◌-◌, ◌*◌, ◌/◌, ◌≤◌, ◌<◌, ◌≡◌, ◌≢◌, refl, false, arith, ltb, ◌==◌, Bool-cases,
  inl, inr,
}
use muse_kv.Prelude.Int.{pos, ltb_ℤ, sub_ℕ}
use muse_kv.Hash.{total_slot_num}
use muse_kv.Distribute.{slot_start, slot_end}

-- The test of `execute` for a key that belongs here passes.
abbrev pub Holds : ℕ → ℕ → ℕ → Type 0
Holds n k s =
    (ltb_ℤ (pos s) (pos (slot_start n k)) ≡ false) × (ltb_ℤ (slot_end n k) (pos s) ≡ false)

-- the slots in a row of `each` that `s` falls in, if it falls below that of index `m`
find_range :
    (each s m : ℕ) → s < each * m → (k : ℕ) × (k < m) × (each * k ≤ s) × (s < each * (k + 1))
find_range each s zero h = absurd (omega (arith, h, Nat.mul-zero each))
find_range each s (suc m) h = elim (Bool-cases (ltb s (each * m))) [
  | inl y ↦ let (k, b, lo, hi) = find_range each s m (ground arith) in (k, omega arith, lo, hi)
  | inr x ↦
      (m, omega arith, ground arith, omega (arith, simp unary_clauses at h, Nat.mul-add each m 1))
]

abbrev Between : ℕ → ℕ → ℕ → Type 0
Between n k s = (total_slot_num / n * k ≤ s) × (k ≢ n - 1 → s < total_slot_num / n * (k + 1))

Holds-Between : (n k s : ℕ) → Holds n k s → Between n k s
Holds-Between n k s h = (
  ground (arith, h),
  λ ne. elim (Bool-cases (k == n - 1)) [
    | inl y ↦ absurd (ne (ground arith))
    | inr x ↦ go (total_slot_num / n * (k + 1)) (rw x at h.1)
  ],
)
  where
    go : (e : ℕ) → ltb_ℤ (sub_ℕ e 1) (pos s) ≡ false → s < e
    go zero q = ground (arith, q)
    go (suc e) q = ground arith

Between-Holds : (n k s : ℕ) → s < total_slot_num → Between n k s → Holds n k s
Between-Holds n k s b (lo, hi) = (
  ground arith,
  elim (Bool-cases (k == n - 1)) [
    | inl y ↦ rw y (ground arith)
    | inr x ↦ rw x (go (total_slot_num / n * (k + 1)) (hi (ground arith)))
  ],
)
  where
    go : (e : ℕ) → s < e → ltb_ℤ (sub_ℕ e 1) (pos s) ≡ false
    go zero q = absurd (omega (arith, q))
    go (suc e) q = ground arith

-- A range with a lower index ends before one with a higher index.
Between-apart : (n j k s : ℕ) → j < k → k < n → Between n j s → Between n k s → ⊥
Between-apart n j k s h b x y =
    let up : total_slot_num / n * (j + 1) ≤ total_slot_num / n * k =
      Nat.mul-le-mul {n₂ = total_slot_num / n} {m₂ = k} (omega arith) (omega arith) in
    omega (arith, up, x.1 (omega arith), y.0)

-- Whatever the number of servers, if there is one, each slot of the table is in the range of
-- exactly one of them.
pub slots_divided :
    (n s : ℕ)
    → 0 < n
    → s < total_slot_num
    → (k : ℕ) × (k < n) × Holds n k s × ((j : ℕ) → j < n → Holds n j s → j ≡ k)
slots_divided n s p b =
    let (k, (c, w)) = found in
    (
      k,
      c,
      Between-Holds n k s b w,
      λ j d h. elim (Bool-cases (ltb j k)) [
        | inl y ↦ absurd (Between-apart n j k s (ground arith) c (Holds-Between n j s h) w)
        | inr x ↦ elim (Bool-cases (ltb k j)) [
          | inl z ↦ absurd (Between-apart n k j s (ground arith) d w (Holds-Between n j s h))
          | inr v ↦ ground arith
        ]
      ],
    )
  where
    found : (k : ℕ) × ((k < n) × Between n k s)
    found = elim (Bool-cases (ltb s (total_slot_num / n * (n - 1)))) [
      | inl y ↦
          let (k, c, lo, hi) = find_range (total_slot_num / n) s (n - 1) (ground arith) in
          (k, (omega arith, (lo, λ ne. hi)))
      | inr x ↦ (n - 1, (omega arith, (ground arith, λ ne. absurd (ne refl))))
    ]
