-- ===== src/Encrypt/Power.antt =====
-- The loop of `encrypt` and `decrypt` computes a power, which squaring computes faster.
use native.Mathlib.Nat
use muse_kv.Prelude.{
  ℕ, zero, suc, ◌+◌, ◌*◌, ◌/◌, ◌%◌, ◌^◌, ◌≤◌, ◌<◌, ◌≡◌, refl, sym, ap, ◌∙◌, arith, ◌==◌,
  if◌then◌else◌, Bool-cases, inl, inr,
}
use muse_kv.Encrypt.{power_loop}

-- The power, without a modulus.
unfoldable pub power : ℕ → ℕ → ℕ
power m zero = 1
power m (suc k) = m * power m k

mod-mul : (a b n : ℕ) → a % n * b % n ≡ a * b % n
mod-mul a b n =
    let split : a * b ≡ a % n * b + n * (a / n * b) =
      ap (λ (t : ℕ). t * b) (sym (Nat.mod-add-div a n))
      ∙ Nat.add-mul (a % n) (n * (a / n)) b
      ∙ ap (λ (t : ℕ). a % n * b + t) (Nat.mul_assoc n (a / n) b) in
    sym (ap (λ (t : ℕ). t % n) split ∙ Nat.add-mul-mod_self_left (a % n * b) n (a / n * b))

pub mul-mod-mul : (a b n : ℕ) → a * (b % n) % n ≡ a * b % n
mul-mod-mul a b n = rw (Nat.mul_comm a (b % n), Nat.mul_comm a b) (mod-mul b a n)

-- With no overflow the loop computes the power.
pub power_loop_lem :
    (k res m n : ℕ)
    → 0 < n
    → n ≤ 2 ^ 32
    → m < 2 ^ 32
    → res < n
    → power_loop k res m n ≡ res * power m k % n
unfolding power_loop power
power_loop_lem zero res m n p w v h = rw Nat.mul-one (sym (Nat.mod-eq_of_lt h))
power_loop_lem (suc k) res m n p w v h =
    let most : res * m ≤ 0xffffffff * 0xffffffff =
      Nat.mul-le-mul {n₂ = 0xffffffff} {m₂ = 0xffffffff} (omega arith) (omega arith) in
    let small : res * m < 2 ^ 64 = omega arith in
    rw (Nat.mod-eq_of_lt small) (
      power_loop_lem k (res * m % n) m n p w v (Nat.mod-lt (res * m) p)
      ∙ mod-mul (res * m) (power m k) n
      ∙ ap (λ (t : ℕ). t % n) (Nat.mul_assoc res m (power m k)))

-- by squaring
unfoldable pub fast : ℕ → ℕ → ℕ → ℕ → ℕ
fast zero k m n = 1 % n
fast (suc f) k m n =
    let half = fast f (k / 2) m n in
    let square = half * half % n in if k % 2 == 0 then square else square * m % n

power-suc : (m k : ℕ) → m * power m k ≡ power m (suc k)
unfolding power
power-suc m k = refl

power-add : (m a b : ℕ) → power m (a + b) ≡ power m a * power m b
unfolding power
power-add m zero b = rw (Nat.zero-add, Nat.one-mul)
power-add m (suc a) b = rw (Nat.suc-add, power-add m a b, Nat.mul_assoc)

square-power : (m h n x : ℕ) → x ≡ power m h % n → x * x % n ≡ power m (h + h) % n
square-power m h n x e =
    rw (e, power-add m h h)
      (mod-mul (power m h) (power m h % n) n ∙ mul-mod-mul (power m h) (power m h) n)

pub fast_lem : (f k m n : ℕ) → k < 2 ^ f → fast f k m n ≡ power m k % n
unfolding fast
fast_lem zero k m n h = let e : k ≡ 0 = omega arith in rw e (unfold power in refl)
fast_lem (suc f) k m n h =
    let ih = fast_lem f (k / 2) m n (omega (arith, Nat.pow-suc 2 f)) in
    let square = square-power m (k / 2) n (fast f (k / 2) m n) ih in
    elim (Bool-cases (k % 2 == 0)) [
      | inl e ↦
          (let same : k / 2 + k / 2 ≡ k = ground arith in
            rw e (square ∙ ap (λ (t : ℕ). power m t % n) same))
      | inr o ↦
          (let same : suc (k / 2 + k / 2) ≡ k = ground arith in
            rw (o, square)
              (mod-mul (power m (k / 2 + k / 2)) m n
                ∙ ap (λ (t : ℕ). t % n) (Nat.mul_comm (power m (k / 2 + k / 2)) m)
                ∙ ap (λ (t : ℕ). t % n) (power-suc m (k / 2 + k / 2))
                ∙ ap (λ (t : ℕ). power m t % n) same))
    ]
