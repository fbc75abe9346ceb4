-- ===== src/Encrypt.antt =====
-- src/encrypt.h and src/encrypt.cpp: the RSA functions. What `rand()` returns is a list of draws.
pub mod Keys
pub mod Power
pub mod Inverse
pub mod Strings
use mathlib.Core.WellFounded.{Acc}
use muse_kv.Prelude.{
  ℕ, zero, suc, ◌+◌, ◌-◌, ◌*◌, ◌%◌, ◌^◌, ◌<◌, Bool, true, false, not, Option, none, some, List, [],
  ◌∷◌, ◌++◌, arith, ◌==◌, ltb, leb, if◌then◌else◌,
}
use muse_kv.Prelude.Int.{ℤ, pos, negsuc, pos_part}
use muse_kv.Text.{Text, split}
use muse_kv.Text.Number.{strtoint, to_string_ℕ}

-- Every number is accessible, by the numbers below a bound.
pub bounded_acc : (bound m : ℕ) → m < bound → Acc ◌<◌ m
bounded_acc zero m lt = absurd (omega (arith, lt))
bounded_acc (suc bound) m lt =
    Acc.intro m (λ j below. bounded_acc bound j (omega (arith, lt, below)))

pub lt_acc : (m : ℕ) → Acc ◌<◌ m
lt_acc m = bounded_acc (m + 1) m (omega arith)

-- The remainder of `GCD` is smaller than the divisor.
pub remainder-lt : (n1 n2 : ℕ) → n2 % suc n1 < suc n1
remainder-lt n1 n2 = omega arith

-- `GCD`, for numbers that are not negative
pub gcd_acc : (n1 n2 : ℕ) → Acc ◌<◌ n1 → ℕ
gcd_acc zero n2 (Acc.intro _ smaller) = n2
gcd_acc (suc n) n2 (Acc.intro _ smaller) =
    gcd_acc (n2 % suc n) (suc n) (smaller (n2 % suc n) (remainder-lt n n2))

unfoldable pub gcd : ℕ → ℕ → ℕ
unfolding gcd_acc lt_acc
gcd n1 n2 = gcd_acc n1 n2 (lt_acc n1)

-- `(int)(sqrt((double)p))`, which is exact for every `int`
unfoldable pub int_sqrt : ℕ → ℕ
int_sqrt zero = 0
int_sqrt (suc p) = let r = int_sqrt p in if leb ((r + 1) * (r + 1)) (suc p) then r + 1 else r

-- the loop `if(p % i == 0) flag = false`, over `rounds` values from `i` on
unfoldable pub no_divisor : ℕ → ℕ → ℕ → Bool
no_divisor zero i p = true
no_divisor (suc rounds) i p =
    let rest = no_divisor rounds (i + 1) p in if p % i == 0 then false else rest

-- the loops of `get_prime` for `p`, where `i <= sqrt(p)`, and for `q`, where `i < sqrt(q)`
unfoldable pub accepts_p : ℕ → Bool
unfolding no_divisor int_sqrt
accepts_p p = no_divisor (int_sqrt p - 1) 2 p

unfoldable pub accepts_q : ℕ → Bool
unfolding no_divisor int_sqrt
accepts_q q = no_divisor (int_sqrt q - 2) 2 q

abbrev pub draw : ℕ → ℕ → ℕ → ℕ
draw lower upper r = r % (upper - lower) + lower

-- `none` means that the draws are used up
pub draw_q : ℕ → ℕ → ℕ → List ℕ → Option (ℕ × ℕ)
draw_q lower upper p [] = none
draw_q lower upper p (r ∷ rs) =
    let rest = draw_q lower upper p rs in
    let q = draw lower upper r in if q == p then rest else if accepts_q q then some (p, q) else rest

pub get_prime : ℕ → ℕ → List ℕ → Option (ℕ × ℕ)
unfolding draw_q
get_prime lower upper [] = none
get_prime lower upper (r ∷ rs) =
    let rest = get_prime lower upper rs in
    let p = draw lower upper r in if accepts_p p then draw_q lower upper p rs else rest

pub get_encrypt_key : ℕ → List ℕ → Option ℕ
get_encrypt_key p [] = none
get_encrypt_key p (r ∷ rs) =
    let rest = get_encrypt_key p rs in let e = r % p in if gcd e p == 1 then some e else rest

-- the loop `for(int d = 1; d < P; d++)`, with `rounds` values from `d` on
pub key_loop : ℕ → ℕ → ℕ → ℕ → ℤ
key_loop zero d p e = negsuc 0
key_loop (suc rounds) d p e =
    let rest = key_loop rounds (d + 1) p e in if d * e % 2 ^ 64 % p == 1 then pos d else rest

pub get_decrypt_key : ℕ → ℕ → ℤ
unfolding key_loop
get_decrypt_key p e = key_loop (p - 1) 1 p e

-- `res = (res * message) % N` in 64 bits, `rounds` times
unfoldable pub power_loop : ℕ → ℕ → ℕ → ℕ → ℕ
power_loop zero res message n = res
power_loop (suc rounds) res message n = power_loop rounds (res * message % 2 ^ 64 % n) message n

unfoldable pub encrypt : ℕ → ℕ → ℕ → ℕ
encrypt n e message = power_loop e 1 message n

-- the conversion of an `int` to `uint64_t`
abbrev pub to_uint64 : ℤ → ℕ
to_uint64 (pos m) = m
to_uint64 (negsuc m) = 2 ^ 64 - suc m

unfoldable pub decrypt : ℕ → ℤ → ℤ → ℕ
decrypt n d message = power_loop (pos_part d) 1 (to_uint64 message) n % 256

abbrev pub backslash : ℕ
backslash = 92

unfoldable pub encrypt_string : ℕ → ℕ → Text → Text
encrypt_string n e [] = []
encrypt_string n e (c ∷ message) =
    to_string_ℕ (encrypt n e c) ++ backslash ∷ encrypt_string n e message

-- What becomes of an encrypted line: the text up to the first NUL; or a word is no number.
pub data Decrypted : Type 0 where
  plain : Text → Decrypted
  cracked : Decrypted

abbrev and_byte : ℕ → Option Decrypted → Option Decrypted
and_byte c none = none
and_byte c (some cracked) = some cracked
and_byte c (some (plain str)) = some (plain (c ∷ str))

-- The loop over all words but the last. `none` is a crash: of `strtoint` on an empty word, or of
-- `words[len - 1] = '\0'` if there is no word.
unfoldable pub decrypt_words : ℕ → ℤ → List Text → Option Decrypted
decrypt_words n d [] = none
decrypt_words n d (w ∷ []) = some (plain [])
decrypt_words n d (w ∷ w' ∷ ws) =
    let rest = decrypt_words n d (w' ∷ ws) in
    elim (strtoint w) [
      | none ↦ none
      | some r ↦ if r.0 then and_byte (decrypt n d r.1) rest else some cracked
    ]

-- `std::string(words)`, for an array that ends in NUL
unfoldable pub c_string : Text → Text
c_string [] = []
c_string (c ∷ str) = if c == 0 then [] else c ∷ c_string str

cut : Option Decrypted → Option Decrypted
cut none = none
cut (some cracked) = some cracked
cut (some (plain str)) = some (plain (c_string str))

unfoldable pub decrypt_string : ℕ → ℤ → Text → Option Decrypted
unfolding decrypt_words cut
decrypt_string n d str = cut (decrypt_words n d (split str backslash))
