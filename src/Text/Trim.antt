-- ===== src/Text/Trim.antt =====
-- `trim` of src/kvstore.cpp: the three loops, each against a recursion on the text.
use muse_kv.Prelude.{
  ℕ, zero, suc, ◌≡◌, refl, ap, Bool, true, false, not, ◌&&◌, [], ◌∷◌, arith, ◌==◌, if◌then◌else◌,
  Bool-cases, inl, inr, length, take,
}
use muse_kv.Text.{Text, space, skip_spaces, kept, collapse, trim}

unfoldable pub onto : ℕ → Text → Text
onto c [] = if c == space then [] else c ∷ []
onto c (d ∷ rest) = c ∷ d ∷ rest

-- The text without the spaces at its end.
unfoldable pub drop_trailing : Text → Text
drop_trailing [] = []
drop_trailing (c ∷ str) = onto c (drop_trailing str)

kept-cons :
    (n c : ℕ) (str : Text)
    → kept (suc n) (c ∷ str)
      ≡ (if kept n str == 0 then (if c == space then 0 else 1) else suc (kept n str))
unfolding kept
kept-cons zero c str = ground arith
kept-cons (suc n) c str = ground (arith, kept-cons n c str)

take-kept : (str : Text) → take (kept (length str) str) str ≡ drop_trailing str
unfolding drop_trailing onto
take-kept [] = unfold kept in refl
take-kept (c ∷ []) = unfold kept in ground arith
take-kept (c ∷ d ∷ str) =
    let ih = take-kept (d ∷ str) in
    rw (kept-cons (length (d ∷ str)) c (d ∷ str)) (go (kept (length (d ∷ str)) (d ∷ str)) ih)
  where
    go :
        (k : ℕ)
        → take k (d ∷ str) ≡ drop_trailing (d ∷ str)
        → take (if k == 0 then (if c == space then 0 else 1) else suc k) (c ∷ d ∷ str)
          ≡ drop_trailing (c ∷ d ∷ str)
    go zero e = ground arith
    go (suc k) e = ground arith

-- `trim` is its three passes, one after the other.
pub trim-passes : (str : Text) → trim str ≡ collapse (drop_trailing (skip_spaces str))
unfolding trim
trim-passes str = ap collapse (take-kept (skip_spaces str))

-- Three shapes that the passes leave: no space in front, no space at the end, no two in a row.
abbrev pub is_space : ℕ → Bool
is_space c = c == space

unfoldable pub starts_clean : Text → Bool
starts_clean [] = true
starts_clean (c ∷ str) = not (is_space c)

unfoldable pub ends_clean : Text → Bool
ends_clean [] = true
ends_clean (c ∷ []) = not (is_space c)
ends_clean (c ∷ d ∷ str) = ends_clean (d ∷ str)

unfoldable pub single_spaced : Text → Bool
single_spaced [] = true
single_spaced (c ∷ []) = true
single_spaced (c ∷ d ∷ str) = not (is_space c && is_space d) && single_spaced (d ∷ str)

starts_clean-skip_spaces : (str : Text) → starts_clean (skip_spaces str) ≡ true
unfolding starts_clean skip_spaces
starts_clean-skip_spaces [] = refl
starts_clean-skip_spaces (c ∷ str) = ground (arith, starts_clean-skip_spaces str)

starts_clean-onto : (c : ℕ) (rest : Text) → is_space c ≡ false → starts_clean (onto c rest) ≡ true
unfolding starts_clean onto
starts_clean-onto c [] h = ground arith
starts_clean-onto c (d ∷ rest) h = ground arith

starts_clean-drop_trailing :
    (str : Text) → starts_clean str ≡ true → starts_clean (drop_trailing str) ≡ true
unfolding starts_clean drop_trailing
starts_clean-drop_trailing [] h = refl
starts_clean-drop_trailing (c ∷ str) h = starts_clean-onto c (drop_trailing str) (ground arith)

ends_clean-onto : (c : ℕ) (rest : Text) → ends_clean rest ≡ true → ends_clean (onto c rest) ≡ true
unfolding ends_clean onto
ends_clean-onto c [] h = ground arith
ends_clean-onto c (d ∷ rest) h = h

ends_clean-drop_trailing : (str : Text) → ends_clean (drop_trailing str) ≡ true
unfolding ends_clean drop_trailing
ends_clean-drop_trailing [] = refl
ends_clean-drop_trailing (c ∷ str) =
    ends_clean-onto c (drop_trailing str) (ends_clean-drop_trailing str)

starts_clean-collapse : (str : Text) → starts_clean str ≡ true → starts_clean (collapse str) ≡ true
unfolding starts_clean collapse
starts_clean-collapse [] h = refl
starts_clean-collapse (c ∷ []) h = h
starts_clean-collapse (c ∷ d ∷ str) h = ground arith

-- The first character stays, so the result is never empty unless the text was.
collapse-cons : (c : ℕ) (str : Text) → (r : Text) × (collapse (c ∷ str) ≡ c ∷ r)
unfolding collapse
collapse-cons c [] = ([], refl)
collapse-cons c (d ∷ str) =
    let (r, e) = collapse-cons d str in
    elim (Bool-cases (is_space c && is_space d)) [
      | inl t ↦ (r, ground arith)
      | inr f ↦ (collapse (d ∷ str), ground arith)
    ]

ends_clean-collapse : (str : Text) → ends_clean str ≡ true → ends_clean (collapse str) ≡ true
unfolding ends_clean collapse
ends_clean-collapse [] h = refl
ends_clean-collapse (c ∷ []) h = h
ends_clean-collapse (c ∷ d ∷ str) h =
    let (r, e) = collapse-cons d str in ground (arith, e, ends_clean-collapse (d ∷ str))

single_spaced-collapse : (str : Text) → single_spaced (collapse str) ≡ true
unfolding single_spaced collapse
single_spaced-collapse [] = refl
single_spaced-collapse (c ∷ []) = refl
single_spaced-collapse (c ∷ d ∷ str) =
    let (r, e) = collapse-cons d str in ground (arith, e, single_spaced-collapse (d ∷ str))

-- A trimmed text has no space at either end and no two in a row.
pub trim_clean :
    (str : Text)
    → (starts_clean (trim str) ≡ true)
      × (ends_clean (trim str) ≡ true)
      × (single_spaced (trim str) ≡ true)
trim_clean str =
    let led = skip_spaces str in
    let body = drop_trailing led in
    rw (trim-passes str) (
      starts_clean-collapse body (starts_clean-drop_trailing led (starts_clean-skip_spaces str)),
      ends_clean-collapse body (ends_clean-drop_trailing led),
      single_spaced-collapse body,
    )
