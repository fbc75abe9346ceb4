-- ===== src/Text/Atoi.antt =====
-- `atoi` of the C library, for numbers that an `int` holds.
use mathlib.Core.List.{append_assoc}
use muse_kv.Prelude.{
  ℕ, zero, suc, ◌+◌, ◌-◌, ◌*◌, ◌/◌, ◌%◌, ◌≤◌, ◌<◌, ◌≡◌, ◌≢◌, refl, sym, ap, ◌∙◌, Bool, true, false,
  ◌&&◌, ◌||◌, [], ◌∷◌, ◌++◌, arith, ◌==◌, ltb, leb, if◌then◌else◌, Bool-cases, inl, inr,
}
use muse_kv.Prelude.Int.{ℤ, pos, negsuc}
use muse_kv.Text.{Text, space}
use muse_kv.Text.Number.{decimal, to_string_ℕ}

-- `isspace`
abbrev pub is_blank : ℕ → Bool
is_blank c = (c == b' ') || (leb 9 c && leb c 13)

abbrev pub is_digit : ℕ → Bool
is_digit c = leb b'0' c && leb c b'9'

leading : ℕ → Text → ℕ
leading res [] = res
leading res (c ∷ str) =
    let rest = leading (res * 10 + (c - b'0')) str in if is_digit c then rest else res

negative : ℕ → ℤ
negative zero = pos 0
negative (suc n) = negsuc n

signed : Text → ℤ
unfolding leading negative
signed [] = pos 0
signed (c ∷ str) =
    if c == b'-'
    then negative (leading 0 str)
    else if c == b'+'
    then pos (leading 0 str)
    else pos (leading 0 (c ∷ str))

unfoldable pub atoi : Text → ℤ
unfolding signed
atoi [] = pos 0
atoi (c ∷ str) = let rest = atoi str in if is_blank c then rest else signed (c ∷ str)

-- What follows a number does not go on with a digit.
abbrev pub Ends : Text → Type 0
Ends [] = Unit
Ends (c ∷ str) = is_digit c ≡ false

leading-Ends : (n : ℕ) (rest : Text) → Ends rest → leading n rest ≡ n
unfolding leading
leading-Ends n [] e = refl
leading-Ends n (c ∷ rest) e = rw e

last_value : (n : ℕ) → n / 10 * 10 + (b'0' + n % 10 - b'0') ≡ n
last_value n = omega arith

leading-decimal :
    (fuel n : ℕ) (rest : Text) → n < fuel → leading 0 (decimal fuel n ++ rest) ≡ leading n rest
unfolding decimal
leading-decimal zero n rest h = absurd (omega arith)
leading-decimal (suc fuel) n rest h = elim (Bool-cases (ltb n 10)) [
  | inl s ↦ rw s (unfold leading in ground arith)
  | inr l ↦ rw l (
      ap (leading 0) (append_assoc (decimal fuel (n / 10)) ((b'0' + n % 10) ∷ []) rest)
      ∙ leading-decimal fuel (n / 10) ((b'0' + n % 10) ∷ rest) (ground arith)
      ∙ last_digit n rest)
]
  where
    last_digit : (n : ℕ) (rest : Text) → leading (n / 10) ((b'0' + n % 10) ∷ rest) ≡ leading n rest
    last_digit n rest =
        let digit : is_digit (b'0' + n % 10) ≡ true = ground arith in
        unfold leading in rw (digit, last_value n) refl

digit_head :
    (fuel n : ℕ)
    → n < fuel
    → (c : ℕ) × (r : Text) × (decimal fuel n ≡ c ∷ r) × (b'0' ≤ c) × (c ≤ b'9')
unfolding decimal
digit_head zero n f = absurd (omega arith)
digit_head (suc fuel) n f = elim (Bool-cases (ltb n 10)) [
  | inl small ↦ (b'0' + n, [], rw small, omega arith, ground arith)
  | inr large ↦
      let (c, r, e, a, b) = digit_head fuel (n / 10) (ground arith) in
      (c, r ++ (b'0' + n % 10) ∷ [], rw (large, e), a, b)
]

atoi-digit : (c : ℕ) (str : Text) → b'0' ≤ c → c ≤ b'9' → atoi (c ∷ str) ≡ pos (leading 0 (c ∷ str))
unfolding atoi
atoi-digit c str a b = ground arith

-- `atoi` on the digits that `decimal` writes.
atoi-decimal :
    (fuel n : ℕ) (rest : Text) → n < fuel → Ends rest → atoi (decimal fuel n ++ rest) ≡ pos n
atoi-decimal fuel n rest f e =
    let (c, r, q, a, b) = digit_head fuel n f in
    let number = leading-decimal fuel n rest f ∙ leading-Ends n rest e in
    ap (λ t. atoi (t ++ rest)) q
    ∙ atoi-digit c (r ++ rest) a b
    ∙ ap (λ t. pos (leading 0 (t ++ rest))) (sym q)
    ∙ ap pos number

-- `atoi` reads back what `std::to_string` prints of a number that is not negative, whatever text
-- follows that does not start with a digit.
pub atoi-to_string : (n : ℕ) (rest : Text) → Ends rest → atoi (to_string_ℕ n ++ rest) ≡ pos n
unfolding to_string_ℕ
atoi-to_string n rest e = atoi-decimal (suc n) n rest (omega arith) e

-- Spaces before the number are skipped.
pub atoi-space : (str : Text) → atoi (space ∷ str) ≡ atoi str
unfolding atoi
atoi-space str = refl

pub to_string-ne-nil : (n : ℕ) → to_string_ℕ n ≢ []
unfolding to_string_ℕ
to_string-ne-nil n q =
    let (c, r, e, a, b) = digit_head (suc n) n (omega arith) in
    let both : c ∷ r ≡ [] = sym e ∙ q in cc
