-- ===== src/Hashing.antt =====
-- The loop and the reduction that the three `hash_func` share: src/hashset.cpp, src/hashmap.cpp
-- and src/hash.cpp. An `int` is its 32-bit pattern; overflow wraps, as compilers do here.
use muse_kv.Prelude.{ℕ, ◌+◌, ◌-◌, ◌*◌, ◌%◌, ◌^◌, ◌<◌, [], ◌∷◌, arith, ◌==◌, ltb, if◌then◌else◌}
use muse_kv.Prelude.Int.{int_mod}
use muse_kv.Text.{Text}

-- a `char` is signed: the pattern of `str[i]` as an `int`
unfoldable pub char_int : ℕ → ℕ
char_int c = if ltb c 128 then c else c + int_mod - 256

-- `hash_val += (str[i] - base) * p; p *= p;`
unfoldable pub hash_loop : ℕ → ℕ → ℕ → Text → ℕ
unfolding char_int
hash_loop base p hash_val [] = hash_val
hash_loop base p hash_val (c ∷ str) =
    hash_loop base (p * p % int_mod)
      ((hash_val + (char_int c + int_mod - base) % int_mod * p) % int_mod) str

-- `%` of C rounds to zero, so a negative remainder gets `n` added
unfoldable pub reduce : ℕ → ℕ → ℕ
reduce hash_val n =
    if ltb hash_val (2 ^ 31)
    then hash_val % n
    else (let r = (int_mod - hash_val) % n in if r == 0 then 0 else n - r)

pub reduce-lt : (hash_val n : ℕ) → 0 < n → reduce hash_val n < n
unfolding reduce
reduce-lt hash_val n h = ground arith
