-- ===== src/Encrypt/Keys.antt =====
-- `GCD`, `get_encrypt_key` and `get_decrypt_key` against divisibility.
use Prim.Native.Nat.{◌∣◌}
use mathlib.Core.WellFounded.{Acc}
use native.Mathlib.Nat
use muse_kv.Prelude.{
  ℕ, zero, suc, ◌+◌, ◌-◌, ◌*◌, ◌%◌, ◌^◌, ◌≤◌, ◌<◌, ◌≡◌, ◌≢◌, ◌↔◌, ◌⊎◌, refl, false, some, List, [],
  ◌∷◌, arith, ◌==◌, Bool-cases, inl, inr,
}
use muse_kv.Prelude.Int.{ℤ, pos, negsuc}
use muse_kv.Encrypt.{gcd_acc, gcd, lt_acc, remainder-lt, key_loop, get_decrypt_key, get_encrypt_key}

gcd_acc_lem : (k n1 n2 : ℕ) (w : Acc ◌<◌ n1) → (k ∣ gcd_acc n1 n2 w) ↔ ((k ∣ n1) × (k ∣ n2))
unfolding gcd_acc
gcd_acc_lem k zero n2 (Acc.intro _ smaller) = (λ h. (Nat.dvd-zero k, h), λ h. h.1)
gcd_acc_lem k (suc n) n2 (Acc.intro _ smaller) =
    let (down, up) =
      gcd_acc_lem k (n2 % suc n) (suc n) (smaller (n2 % suc n) (remainder-lt n n2)) in
    (
      λ h. ((down h).1, (Nat.dvd-mod_iff k (down h).1).0 (down h).0),
      λ h. up ((Nat.dvd-mod_iff k h.0).1 h.1, h.0),
    )

-- The numbers that divide `GCD(n1, n2)` are those that divide both `n1` and `n2`.
pub gcd_lem : (n1 n2 k : ℕ) → (k ∣ gcd n1 n2) ↔ ((k ∣ n1) × (k ∣ n2))
unfolding gcd
gcd_lem n1 n2 k = gcd_acc_lem k n1 n2 (lt_acc n1)

-- What a search for a decrypt key found: an inverse of `e`, or that none is left.
abbrev pub KeyFrom : ℕ → ℕ → ℕ → ℤ → Type 0
KeyFrom start p e z =
    ((d : ℕ) × (z ≡ pos d) × (start ≤ d) × (d < p) × (d * e % p ≡ 1))
    ⊎ ((z ≡ negsuc 0) × ((d : ℕ) → start ≤ d → d < p → d * e % p ≢ 1))

key_loop_lem :
    (rounds d p e : ℕ)
    → d + rounds ≡ p
    → p < 2 ^ 31
    → e < 2 ^ 31
    → KeyFrom d p e (key_loop rounds d p e)
unfolding key_loop
key_loop_lem zero d p e h w v = inr (refl, λ j a b. absurd (omega arith))
key_loop_lem (suc rounds) d p e h w v =
    let most : d * e ≤ 0x7fffffff * 0x7fffffff =
      Nat.mul-le-mul {n₂ = 0x7fffffff} {m₂ = 0x7fffffff} (omega arith) (omega arith) in
    let small : d * e < 2 ^ 64 = omega arith in
    rw (Nat.mod-eq_of_lt small) (elim (Bool-cases (d * e % p == 1)) [
      | inl y ↦ rw y (inl (d, refl, omega arith, omega arith, ground arith))
      | inr x ↦ rw x (later d rounds p e x (key_loop_lem rounds (d + 1) p e (omega arith) w v))
    ])
  where
    later :
        (d rounds p e : ℕ)
        → (d * e % p == 1) ≡ false
        → KeyFrom (d + 1) p e (key_loop rounds (d + 1) p e)
        → KeyFrom d p e (key_loop rounds (d + 1) p e)
    later d rounds p e x (inl (j, q, a, b, r)) = inl (j, q, omega arith, b, r)
    later d rounds p e x (inr (q, all)) = inr (
      q,
      λ j a b. elim (Bool-cases (j == d)) [
        | inl y ↦ (let same : j ≡ d = ground arith in rw same (ground arith))
        | inr z ↦ all j (ground arith) b
      ],
    )

-- For a `P` above 0 and an `e` that an `int` holds, `get_decrypt_key` returns an inverse of `e`
-- modulo `P` below `P`, or -1 if there is none.
pub get_decrypt_key_lem :
    (p e : ℕ) → 0 < p → p < 2 ^ 31 → e < 2 ^ 31 → KeyFrom 1 p e (get_decrypt_key p e)
unfolding get_decrypt_key
get_decrypt_key_lem p e pp w v = key_loop_lem (p - 1) 1 p e (omega arith) w v

-- A key that `get_encrypt_key` returns is coprime to `P` and below it.
pub get_encrypt_key_lem :
    (p : ℕ) (draws : List ℕ) (e : ℕ)
    → 0 < p
    → get_encrypt_key p draws ≡ some e
    → (gcd e p ≡ 1) × (e < p)
unfolding get_encrypt_key
get_encrypt_key_lem p [] e h q = cc
get_encrypt_key_lem p (r ∷ rs) e h q = elim (Bool-cases (gcd (r % p) p == 1)) [
  | inl y ↦ (let same : r % p ≡ e = ground arith in rw (← same) (ground arith, Nat.mod-lt r h))
  | inr x ↦ get_encrypt_key_lem p rs e h (rw x at q)
]
