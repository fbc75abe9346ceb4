-- ===== src/Encrypt/Strings.antt =====
-- `decrypt_string` undoes `encrypt_string`.
use muse_kv.Prelude.{
  ℕ, zero, suc, ◌+◌, ◌/◌, ◌%◌, ◌<◌, ◌≡◌, ◌≢◌, refl, sym, ap, ◌∙◌, false, some, List, [], ◌∷◌, ◌++◌,
  map, All, All-append, arith, ltb, Bool-cases, inl, inr,
}
use muse_kv.Prelude.Int.{ℤ, pos}
use muse_kv.Text.{Text, count, split}
use muse_kv.Text.Split.{Free, pieces, split-pieces, pieces-append}
use muse_kv.Text.Number.{decimal, to_string_ℕ, strtoint, strtoint-to_string_ℕ}
use muse_kv.Encrypt.{
  backslash, encrypt, encrypt_string, plain, cracked, decrypt_words, c_string, decrypt_string,
}
use muse_kv.Encrypt.Inverse.{modulus, encrypt_key, password, encrypt-lt, decrypt-encrypt}

count-append : (token : ℕ) (x y : Text) → count token (x ++ y) ≡ count token x + count token y
unfolding count
count-append token [] y = omega arith
count-append token (c ∷ x) y = omega (arith, count-append token x y)

abbrev pub NoDigit : ℕ → Type 0
NoDigit token = (d : ℕ) → d < 10 → b'0' + d ≢ token

digit-Free : (token d : ℕ) → b'0' + d ≢ token → Free token ((b'0' + d) ∷ [])
unfolding count
digit-Free token d ne = ground arith

decimal-Free : (token fuel n : ℕ) → NoDigit token → Free token (decimal fuel n)
unfolding decimal
decimal-Free token zero n h = unfold count in refl
decimal-Free token (suc fuel) n h = elim (Bool-cases (ltb n 10)) [
  | inl s ↦ rw s (digit-Free token n (h n (ground arith)))
  | inr l ↦ rw l (
      count-append token (decimal fuel (n / 10)) ((b'0' + n % 10) ∷ [])
      ∙ omega (
        arith,
        decimal-Free token fuel (n / 10) h,
        digit-Free token (n % 10) (h (n % 10) (omega arith)),
      ))
]

pub to_string-Free : (token n : ℕ) → NoDigit token → Free token (to_string_ℕ n)
unfolding to_string_ℕ
to_string-Free token n h = decimal-Free token (suc n) n h

-- A byte of a text that a C string can hold.
abbrev pub IsChar : ℕ → Type 0
IsChar c = (0 < c) × (c < 256)

decimal-All :
    (P : ℕ → Type 0) (fuel n : ℕ) → ((d : ℕ) → d < 10 → P (b'0' + d)) → All P (decimal fuel n)
unfolding decimal
decimal-All P zero n h = tt
decimal-All P (suc fuel) n h = elim (Bool-cases (ltb n 10)) [
  | inl s ↦ rw s (h n (ground arith), tt)
  | inr l ↦ rw l (All-append P _ _ (decimal-All P fuel (n / 10) h) (h (n % 10) (omega arith), tt))
]

-- What holds of every digit holds of every byte of a printed number.
pub to_string-All :
    (P : ℕ → Type 0) (n : ℕ) → ((d : ℕ) → d < 10 → P (b'0' + d)) → All P (to_string_ℕ n)
unfolding to_string_ℕ
to_string-All P n h = decimal-All P (suc n) n h

pub to_string-IsChar : (n : ℕ) → All IsChar (to_string_ℕ n)
to_string-IsChar n = to_string-All IsChar n (λ d h. (omega arith, omega (arith, h)))

-- The words that `encrypt_string` writes, each with a backslash after it.
abbrev pub encrypted_words : ℕ → ℕ → Text → List Text
encrypted_words n e str = map (λ c. to_string_ℕ (encrypt n e c)) str

pieces-encrypt_string :
    (n e : ℕ) (str : Text)
    → pieces backslash (encrypt_string n e str) ≡ encrypted_words n e str ++ [] ∷ []
unfolding encrypt_string
pieces-encrypt_string n e [] = unfold pieces in refl
pieces-encrypt_string n e (c ∷ str) =
    pieces-append backslash (to_string_ℕ (encrypt n e c)) (encrypt_string n e str)
      (to_string-Free backslash _ (λ d h q. omega arith))
    ∙ ap (λ (r : List Text). to_string_ℕ (encrypt n e c) ∷ r) (pieces-encrypt_string n e str)

decrypt_words-byte :
    (c : ℕ) (w : Text) (ws : List Text) (str : Text)
    → c < 256
    → decrypt_words modulus (pos password) (w ∷ ws) ≡ some (plain str)
    → decrypt_words modulus (pos password) (to_string_ℕ (encrypt modulus encrypt_key c) ∷ w ∷ ws)
      ≡ some (plain (c ∷ str))
unfolding decrypt_words
decrypt_words-byte c w ws str h e =
    let below = encrypt-lt c h in
    let number = strtoint-to_string_ℕ (encrypt modulus encrypt_key c) (omega arith) in
    rw (number, decrypt_words, decrypt-encrypt c h, e) refl

decrypt_words-encrypted :
    (str : Text)
    → All IsChar str
    → decrypt_words modulus (pos password) (encrypted_words modulus encrypt_key str ++ [] ∷ [])
      ≡ some (plain str)
decrypt_words-encrypted [] a = unfold decrypt_words in refl
decrypt_words-encrypted (c ∷ []) a =
    decrypt_words-byte c [] [] [] a.0.1 (decrypt_words-encrypted [] tt)
decrypt_words-encrypted (c ∷ d ∷ str) a =
    decrypt_words-byte c _ _ (d ∷ str) a.0.1 (decrypt_words-encrypted (d ∷ str) a.1)

pub c_string_lem : (str : Text) → All IsChar str → c_string str ≡ str
unfolding c_string
c_string_lem [] a = refl
c_string_lem (c ∷ str) a = ground (arith, c_string_lem str a.1)

pub append-cons-ne-nil : (xs : Text) (c : ℕ) (ys : Text) → xs ++ c ∷ ys ≢ []
append-cons-ne-nil [] c ys q = cc
append-cons-ne-nil (x ∷ xs) c ys q = cc

pub encrypt_string-ne-nil : (n e c : ℕ) (str : Text) → encrypt_string n e (c ∷ str) ≢ []
unfolding encrypt_string
encrypt_string-ne-nil n e c str = append-cons-ne-nil (to_string_ℕ (encrypt n e c)) backslash _

split-encrypt_string :
    (n e c : ℕ) (str : Text)
    → split (encrypt_string n e (c ∷ str)) backslash ≡ encrypted_words n e (c ∷ str) ++ [] ∷ []
split-encrypt_string n e c str = go (encrypt_string n e (c ∷ str)) refl
  where
    go :
        (t : Text)
        → encrypt_string n e (c ∷ str) ≡ t
        → split t backslash ≡ encrypted_words n e (c ∷ str) ++ [] ∷ []
    go [] q = absurd (encrypt_string-ne-nil n e c str q)
    go (x ∷ t) q =
        split-pieces x backslash t
        ∙ ap (pieces backslash) (sym q)
        ∙ pieces-encrypt_string n e (c ∷ str)

-- One word that is no number spoils the line.
pub decrypt_words-cracked :
    (n : ℕ) (d : ℤ) (w p : Text) (ps : List Text) (z : ℤ)
    → strtoint w ≡ some (false, z)
    → decrypt_words n d (w ∷ p ∷ ps) ≡ some cracked
unfolding decrypt_words
decrypt_words-cracked n d w p ps z q = rw (q, decrypt_words) refl

pub decrypt_words-split :
    (str : Text)
    → All IsChar str
    → str ≢ []
    → decrypt_words modulus
        (pos password)
        (split (encrypt_string modulus encrypt_key str) backslash)
      ≡ some (plain str)
decrypt_words-split [] a ne = absurd (ne refl)
decrypt_words-split (c ∷ str) a ne =
    rw (split-encrypt_string modulus encrypt_key c str) (decrypt_words-encrypted (c ∷ str) a)

-- Decrypting with the password what `encrypt_string` wrote with the keys of the snapshot gives the
-- message back, if it is not empty and has no NUL.
pub decrypt_string-encrypt_string :
    (str : Text)
    → All IsChar str
    → str ≢ []
    → decrypt_string modulus (pos password) (encrypt_string modulus encrypt_key str)
      ≡ some (plain str)
unfolding decrypt_string
decrypt_string-encrypt_string str a ne = rw (decrypt_words-split str a ne, c_string_lem str a) refl
