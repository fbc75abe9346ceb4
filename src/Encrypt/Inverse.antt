-- ===== src/Encrypt/Inverse.antt =====
-- The two keys of the snapshot undo one another on every byte.
use muse_kv.Prelude.{
  ℕ, zero, suc, ◌%◌, ◌^◌, ◌≤◌, ◌<◌, ◌≡◌, refl, sym, ap, ◌∙◌, Bool, true, false, arith, ◌==◌,
  if◌then◌else◌, Bool-cases, inl, inr,
}
use muse_kv.Prelude.Int.{pos}
use muse_kv.Encrypt.{power_loop, encrypt, decrypt}
use muse_kv.Encrypt.Power.{fast, fast_lem, power_loop_lem}

-- `1483513` and `28969` of `Hash::save`, and the password that undoes them
abbrev pub modulus : ℕ
modulus = 1483513

abbrev pub encrypt_key : ℕ
encrypt_key = 28969

abbrev pub password : ℕ
password = 409

power_loop-fast :
    (f k m n : ℕ) → 1 < n → n ≤ 2 ^ 32 → m < 2 ^ 32 → k < 2 ^ f → power_loop k 1 m n ≡ fast f k m n
power_loop-fast f k m n p w v h =
    power_loop_lem k 1 m n (omega arith) w v p
    ∙ ap (λ (t : ℕ). t % n) (omega arith)
    ∙ sym (fast_lem f k m n h)

-- Whether a test holds of all numbers below the bound.
passes : (ℕ → Bool) → ℕ → Bool
passes test zero = true
passes test (suc bound) = let rest = passes test bound in if test bound then rest else false

passes_lem : (test : ℕ → Bool) (bound c : ℕ) → c < bound → passes test bound ≡ true → test c ≡ true
unfolding passes
passes_lem test zero c lt q = absurd (omega (arith, lt))
passes_lem test (suc bound) c lt q = elim (Bool-cases (c == bound)) [
  | inl y ↦ ground (arith, q)
  | inr x ↦ passes_lem test bound c (ground arith) (ground (arith, q))
]

abbrev cipher : ℕ → ℕ
cipher c = fast 15 encrypt_key c modulus

undoes : passes (λ c. fast 9 password (cipher c) modulus % 256 == c) 256 ≡ true
unfolding passes fast
undoes = refl

encrypt-cipher : (c : ℕ) → c < 256 → encrypt modulus encrypt_key c ≡ cipher c
unfolding encrypt
encrypt-cipher c h =
    power_loop-fast 15 encrypt_key c modulus (omega arith) (omega arith) (omega arith) (omega arith)

small : passes (λ c. cipher c == cipher c % modulus) 256 ≡ true
unfolding passes fast
small = refl

-- An encrypted byte is below the modulus.
pub encrypt-lt : (c : ℕ) → c < 256 → encrypt modulus encrypt_key c < modulus
encrypt-lt c h = rw (encrypt-cipher c h) (let e = passes_lem _ 256 c h small in ground arith)

-- Decrypting with the password undoes the encryption of every byte.
pub decrypt-encrypt :
    (c : ℕ) → c < 256 → decrypt modulus (pos password) (pos (encrypt modulus encrypt_key c)) ≡ c
unfolding decrypt
decrypt-encrypt c h =
    let below = encrypt-lt c h in
    let e =
      power_loop-fast 9 password (encrypt modulus encrypt_key c) modulus (omega arith) (omega arith)
        (omega arith) (omega arith) in
    let u = passes_lem _ 256 c h undoes in rw (e, encrypt-cipher c h) (ground arith)
