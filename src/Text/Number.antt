-- ===== src/Text/Number.antt =====
-- `strtoint` of src/kvstore.cpp, and `std::to_string` of an `int`, which it undoes.
use muse_kv.Prelude.{
  ℕ, zero, suc, ◌+◌, ◌-◌, ◌*◌, ◌/◌, ◌%◌, ◌^◌, ◌<◌, ◌≡◌, ap, ◌∙◌, Bool, true, false, ◌||◌, Option,
  none, some, [], ◌∷◌, ◌++◌, arith, ◌==◌, ltb, if◌then◌else◌, Bool-cases, inl, inr,
}
use muse_kv.Prelude.Int.{ℤ, pos, negsuc, int_mod, signed32, negate32, IsInt32}
use muse_kv.Text.{Text}

-- `res = res * 10 + (str.at(i) - '0')` in 32 bits; `none` at a character that is no digit
scan : ℕ → Text → Option ℕ
scan res [] = some res
scan res (c ∷ str) =
    let rest = scan ((res * 10 + (c - b'0')) % int_mod) str in
    if ltb c b'0' || ltb b'9' c then none else rest

-- `sgn * res`, or the pair `(false, 0)`
finish : Bool → Option ℕ → Bool × ℤ
finish minus none = (false, pos 0)
finish minus (some res) = (true, signed32 (if minus then negate32 res else res))

-- `none` is the exception that `str.at(0)` throws on an empty text
unfoldable pub strtoint : Text → Option (Bool × ℤ)
unfolding scan finish
strtoint [] = none
strtoint (c ∷ str) =
    some (if c == b'-' then finish true (scan 0 str) else finish false (scan 0 (c ∷ str)))

-- The decimal digits of a number; the fuel is one more than the number.
unfoldable pub decimal : ℕ → ℕ → Text
decimal zero n = []
decimal (suc fuel) n =
    let front = decimal fuel (n / 10) in
    if ltb n 10 then (b'0' + n) ∷ [] else front ++ (b'0' + n % 10) ∷ []

unfoldable pub to_string_ℕ : ℕ → Text
unfolding decimal
to_string_ℕ n = decimal (suc n) n

-- `std::to_string`
unfoldable pub to_string : ℤ → Text
unfolding to_string_ℕ
to_string (pos n) = to_string_ℕ n
to_string (negsuc n) = b'-' ∷ to_string_ℕ (suc n)

scan-snoc :
    (res : ℕ) (xs : Text) (d v : ℕ)
    → d < 10
    → scan res xs ≡ some v
    → scan res (xs ++ (b'0' + d) ∷ []) ≡ some ((v * 10 + d) % int_mod)
unfolding scan
scan-snoc res [] d v h e = ground arith
scan-snoc res (c ∷ xs) d v h e =
    ground (arith, scan-snoc ((res * 10 + (c - b'0')) % int_mod) xs d v)

scan-decimal : (fuel n : ℕ) → n < fuel → n < int_mod → scan 0 (decimal fuel n) ≡ some n
unfolding decimal
scan-decimal zero n f h = absurd (omega arith)
scan-decimal (suc fuel) n f h = elim (Bool-cases (ltb n 10)) [
  | inl small ↦ rw small (unfold scan in ground arith)
  | inr large ↦ rw large (
      scan-snoc 0 (decimal fuel (n / 10)) (n % 10) (n / 10) (omega arith)
        (scan-decimal fuel (n / 10) (ground arith) (omega arith))
      ∙ ap some (omega arith))
]

-- A printed number starts with a digit.
pub decimal_head :
    (fuel n : ℕ)
    → n < fuel
    → (c : ℕ) × (r : Text) × (decimal fuel n ≡ c ∷ r) × ((c == b'-') ≡ false)
unfolding decimal
decimal_head zero n f = absurd (omega arith)
decimal_head (suc fuel) n f = elim (Bool-cases (ltb n 10)) [
  | inl small ↦ (b'0' + n, [], rw small, ground arith)
  | inr large ↦
      let (c, r, e, d) = decimal_head fuel (n / 10) (ground arith) in
      (c, r ++ (b'0' + n % 10) ∷ [], rw (large, e), d)
]

strtoint_unsigned :
    (c : ℕ) (r : Text) (n : ℕ)
    → (c == b'-') ≡ false
    → scan 0 (c ∷ r) ≡ some n
    → n < 2 ^ 31
    → strtoint (c ∷ r) ≡ some (true, pos n)
unfolding strtoint
strtoint_unsigned c r n d e h = rw (d, e) (ground arith)

pub strtoint-to_string_ℕ : (n : ℕ) → n < 2 ^ 31 → strtoint (to_string_ℕ n) ≡ some (true, pos n)
unfolding to_string_ℕ
strtoint-to_string_ℕ n h =
    let (c, r, e, d) = decimal_head (suc n) n (omega arith) in
    let scanned = scan-decimal (suc n) n (omega arith) (omega arith) in
    rw e (strtoint_unsigned c r n d (rw e at scanned) h)

-- Reading back what `std::to_string` printed gives the number, for every `int`.
pub strtoint-to_string : (z : ℤ) → IsInt32 z → strtoint (to_string z) ≡ some (true, z)
unfolding to_string
strtoint-to_string (pos n) h = strtoint-to_string_ℕ n h.0
strtoint-to_string (negsuc n) h =
    unfold strtoint to_string_ℕ in
    rw (scan-decimal (suc (suc n)) (suc n) (omega arith) (omega arith)) (ground arith)
