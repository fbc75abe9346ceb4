-- ===== src/Server/Log.antt =====
-- The line that `log_append` writes is read back by `decrypt_string`.
use muse_kv.Prelude.{
  ℕ, ◌<◌, ◌≡◌, refl, ap, ◌∙◌, some, true, [], ◌∷◌, ◌++◌, All, All-append, arith, ltb,
}
use muse_kv.Prelude.Int.{ℤ, pos}
use muse_kv.Text.{Text, space}
use muse_kv.Text.Number.{to_string}
use muse_kv.Encrypt.{encrypt, encrypt_string, decrypt_string, plain}
use muse_kv.Encrypt.Inverse.{modulus, encrypt_key, password}
use muse_kv.Encrypt.Strings.{
  IsChar, to_string-All, append-cons-ne-nil, decrypt_string-encrypt_string,
}
use muse_kv.Server.{Socket}
use muse_kv.Server.Scan.{auth_ch, log_text, log_append}

abbrev pub IsAscii : ℕ → Type 0
IsAscii c = (0 < c) × (c < 128)

-- For such texts `log_append` has its own copy of `encrypt_string`.
log_text-IsAscii :
    (str : Text) → All IsAscii str → log_text str ≡ encrypt_string modulus encrypt_key str
unfolding log_text encrypt_string encrypt
log_text-IsAscii [] a = refl
log_text-IsAscii (c ∷ str) a =
    let small : ltb c 128 ≡ true = ground (arith, a.0) in rw (small, log_text-IsAscii str a.1) refl

IsAscii-IsChar : (str : Text) → All IsAscii str → All IsChar str
IsAscii-IsChar [] a = tt
IsAscii-IsChar (c ∷ str) a = ((a.0.0, omega (arith, a.0.1)), IsAscii-IsChar str a.1)

auth_ch-IsAscii : (a : ℕ) → All IsAscii (auth_ch (pos a))
unfolding to_string
auth_ch-IsAscii a = (
  (omega arith, omega arith),
  (
    (omega arith, omega arith),
    ((omega arith, omega arith), to_string-All IsAscii a (λ d h. (omega arith, omega (arith, h)))),
  ),
)

-- Decrypting with the password the line that `log_append` writes gives the command and the level
-- of the client, if the command is ASCII without NUL and the level is not negative.
pub decrypt_string-log_append :
    (ss : Socket) (line : Text) (a : ℕ)
    → ss.auth ≡ pos a
    → All IsAscii line
    → decrypt_string modulus (pos password) (log_append ss line)
      ≡ some (plain (line ++ auth_ch (pos a)))
unfolding log_append
decrypt_string-log_append ss line a e h =
    let ok = All-append IsAscii line (auth_ch (pos a)) h (auth_ch-IsAscii a) in
    ap (λ (z : ℤ). decrypt_string modulus (pos password) (log_text (line ++ auth_ch z))) e
    ∙ ap (decrypt_string modulus (pos password)) (log_text-IsAscii (line ++ auth_ch (pos a)) ok)
    ∙ decrypt_string-encrypt_string (line ++ auth_ch (pos a)) (IsAscii-IsChar _ ok)
        (append-cons-ne-nil line space _)
