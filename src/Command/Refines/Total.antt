-- ===== src/Command/Refines/Total.antt =====
-- What the commands of src/command.cpp promise is a crash only of `sort`, for the numbers of words
-- that `execute` of src/command.h lets through.
use muse_kv.Prelude.{
  ℕ, zero, suc, ◌<◌, ◌≡◌, ◌≢◌, ◌⊎◌, inl, inr, refl, sym, ◌∙◌, ◌++◌, Bool, true, false, Option, none,
  some, List, [], ◌∷◌, arith, ltb, if◌then◌else◌, length, get_or, drop, All, ◌>>=◌,
}
use muse_kv.Prelude.Int.{ℤ}
use muse_kv.Text.{Text, comma, merge, merge_onto}
use muse_kv.Text.Equal.{◌===◌}
use muse_kv.Text.Number.{strtoint}
use muse_kv.Hashmap.{Hashmap, null_text}
use muse_kv.Hashmap
use muse_kv.Kv
use muse_kv.Kv.{Kv, Value, Dtype, string_type, list_type, set_type, hashmap_type}
use muse_kv.Command
use muse_kv.Command.{Command, num_args, arg, joined_args, Reply}
use muse_kv.Command.Access.{strtoint-some}
use muse_kv.Command.Dispatch.{Op}
use muse_kv.Command.Spec
use muse_kv.Command.Spec.{Cell, Effect, act, number_level, if_level, if_number}
use muse_kv.Command.Refines.Run.{acts_on_key}
use muse_kv.Command.Refines.Counts.{fits}

-- A list or a set that prints as the empty text.
abbrev pub Emptied : Cell → Type 0
Emptied cell = (node : Kv) × (cell ≡ some node) × (Spec.printed node.v ≡ some [])

-- The effect is no crash.
abbrev pub Answered : Effect → Type 0
Answered e = (p : Reply × Cell) × (e ≡ some p)

if-Answered : (b : Bool) (e f : Effect) → Answered e → Answered f → Answered (if b then e else f)
if-Answered true e f p q = p
if-Answered false e f p q = q

get_or-filled :
    (xs : List Text) (i : ℕ) → All (λ x. x ≢ []) xs → i < length xs → get_or xs i [] ≢ []
get_or-filled [] i f h = absurd (omega (arith, h))
get_or-filled (x ∷ xs) zero f h = f.0
get_or-filled (x ∷ xs) (suc i) f h = get_or-filled xs i f.1 (omega (arith, h))

-- The operations that read their second argument as a number.
reads_number : Op → Bool
reads_number Op.lget = true
reads_number Op.lset = true
reads_number Op.lerase = true
reads_number Op.authr = true
reads_number Op.authw = true
reads_number Op.expire = true
reads_number op = false

fits-reads_number : (op : Op) (n : ℕ) → reads_number op ≡ true → fits op n ≡ true → 2 < n
unfolding reads_number fits
fits-reads_number Op.get n r f = ground (arith, r, f)
fits-reads_number Op.make n r f = ground (arith, r, f)
fits-reads_number Op.del n r f = ground (arith, r, f)
fits-reads_number Op.lmake n r f = ground (arith, r, f)
fits-reads_number Op.lpush n r f = ground (arith, r, f)
fits-reads_number Op.rpush n r f = ground (arith, r, f)
fits-reads_number Op.lpop n r f = ground (arith, r, f)
fits-reads_number Op.rpop n r f = ground (arith, r, f)
fits-reads_number Op.lget n r f = ground (arith, r, f)
fits-reads_number Op.lset n r f = ground (arith, r, f)
fits-reads_number Op.lerase n r f = ground (arith, r, f)
fits-reads_number Op.smake n r f = ground (arith, r, f)
fits-reads_number Op.spush n r f = ground (arith, r, f)
fits-reads_number Op.spop n r f = ground (arith, r, f)
fits-reads_number Op.serase n r f = ground (arith, r, f)
fits-reads_number Op.sort n r f = ground (arith, r, f)
fits-reads_number Op.hmake n r f = ground (arith, r, f)
fits-reads_number Op.hpush n r f = ground (arith, r, f)
fits-reads_number Op.hget n r f = ground (arith, r, f)
fits-reads_number Op.hfields n r f = ground (arith, r, f)
fits-reads_number Op.hvals n r f = ground (arith, r, f)
fits-reads_number Op.herase n r f = ground (arith, r, f)
fits-reads_number Op.keys n r f = ground (arith, r, f)
fits-reads_number Op.authr n r f = ground (arith, r, f)
fits-reads_number Op.authw n r f = ground (arith, r, f)
fits-reads_number Op.expire n r f = ground (arith, r, f)
fits-reads_number Op.get_ttl n r f = ground (arith, r, f)
fits-reads_number Op.save n r f = ground (arith, r, f)
fits-reads_number Op.read n r f = ground (arith, r, f)
fits-reads_number Op.unknown n r f = ground (arith, r, f)

module _ (t timer : ℕ) (c : Command) (cell : Cell) (filled : All (λ x. x ≢ []) c.args) where
  allows : (level : ℕ) (e : Effect) → Answered e → Answered (Spec.allowed t timer c cell level e)
  allows level e a = if-Answered _ _ e (_, refl) a

  fills :
      (b : Bool) (r : Reply) (e : Effect) → Answered e → Answered (Spec.filled t timer c cell b r e)
  fills b r e a = if-Answered b _ e (_, refl) a

  presents :
      (o : Cell) (f : Kv → Effect)
      → ((n : Kv) → Answered (f n))
      → Answered (Spec.present t timer c cell o f)
  presents none f a = (_, refl)
  presents (some n) f a = a n

  lives : (f : Kv → Effect) → ((n : Kv) → Answered (f n)) → Answered (Spec.live t timer c cell f)
  lives f a = presents cell _ λ n. if-Answered _ _ _ (_, refl) (a n)

  types :
      {A : Type 0} (o : Option A) (f : A → Effect)
      → ((x : A) → Answered (f x))
      → Answered (Spec.typed t timer c cell o f)
  types none f a = (_, refl)
  types (some x) f a = a x

  may : (o : Cell) (e : Effect) → Answered e → Answered (Spec.may_make t timer c cell o e)
  may none e a = a
  may (some n) e a = allows n.authw e a

  levels :
      (o : Option ℕ) (f : ℕ → Effect) (e : Effect)
      → ((n : ℕ) → Answered (f n))
      → Answered e
      → Answered (if_level o f e)
  levels none f e a b = b
  levels (some n) f e a b = a n

  numbers :
      (r : Bool × ℤ) (f : ℤ → Effect) (e : Effect)
      → ((z : ℤ) → Answered (f z))
      → Answered e
      → Answered (if_number r f e)
  numbers (true, z) f e a b = a z
  numbers (false, z) f e a b = b

  reads :
      (i : ℕ)
      → i < num_args c
      → (f : Bool × ℤ → Effect) → ((r : Bool × ℤ) → Answered (f r))
      → Answered (strtoint (arg c i) >>= f)
  reads i h f a =
      let (r, e) = strtoint-some (arg c i) (get_or-filled c.args i filled h) in rw e (a r)

  levels_of : (r w : ℕ) → Answered (Spec.levels_of t timer c cell r w)
  levels_of r w = allows r _ (allows w _ (if-Answered (ltb w r) _ _ (_, refl) (_, refl)))

  makes : (n : ℕ) → n ≡ num_args c → fits Op.make n ≡ true → Answered (Spec.makes t timer c cell n)
  unfolding Spec.makes fits
  makes zero e k = absurd (ground (arith, k))
  makes (suc zero) e k = absurd (ground (arith, k))
  makes (suc (suc zero)) e k = absurd (ground (arith, k))
  makes (suc (suc (suc zero))) e k = (_, refl)
  makes (suc (suc (suc (suc zero)))) e k =
      reads 3 (omega (arith, e)) _ λ r. levels _ _ _ (λ n. allows n _ (_, refl)) (_, refl)
  makes (suc (suc (suc (suc (suc zero))))) e k = reads 3 (omega (arith, e)) _ λ r.
      reads 4 (omega (arith, e)) _ λ w.
        levels (number_level r) _ _ (λ n. levels (number_level w) _ _ (levels_of n) (_, refl))
          (_, refl)
  makes (suc (suc (suc (suc (suc (suc n)))))) e k = absurd (ground (arith, k))

  indexes :
      2 < num_args c
      → (f : ℤ → Effect) → ((z : ℤ) → Answered (f z))
      → Answered (Spec.indexed t timer c cell (arg c 2) f)
  indexes h f a = reads 2 h _ λ r. numbers r f _ a (_, refl)

  counted : (op : Op) → reads_number op ≡ true → fits op (num_args c) ≡ true → 2 < num_args c
  counted op r f = fits-reads_number op (num_args c) r f

  merge_onto-cons :
      (d : ℕ) (x : Text) (token : ℕ) (xs : List Text)
      → (rest : Text) × (merge_onto (d ∷ x) token xs ≡ d ∷ rest)
  unfolding merge_onto
  merge_onto-cons d x token [] = (x, refl)
  merge_onto-cons d x token (y ∷ xs) = merge_onto-cons d (x ++ token ∷ y) token xs

  joined-ne-nil :
      (xs : List Text) (n : ℕ) → All (λ x. x ≢ []) xs → n < length xs → merge comma (drop n xs) ≢ []
  unfolding merge
  joined-ne-nil [] n f b = absurd (omega (arith, b))
  joined-ne-nil (x ∷ xs) (suc n) f b = joined-ne-nil xs n f.1 (omega (arith, b))
  joined-ne-nil ([] ∷ xs) zero f b = absurd (f.0 refl)
  joined-ne-nil ((d ∷ x) ∷ xs) zero f b = λ q.
      let (rest, e) = merge_onto-cons d x comma xs in
      absurd (let g : d ∷ rest ≡ [] = sym e ∙ q in cc)

  encoded :
      (str : Text) (dtype : Dtype) → str ≢ [] → (v : Value) × (Kv.data_encode str dtype ≡ some v)
  unfolding Kv.data_encode
  encoded [] dtype ne = absurd (ne refl)
  encoded (d ∷ str) string_type ne = (_, refl)
  encoded (d ∷ str) list_type ne = (_, refl)
  encoded (d ∷ str) set_type ne = (_, refl)
  encoded (d ∷ str) hashmap_type ne = (_, refl)

  encodes :
      (dtype : Dtype) (f : Value → Effect)
      → 2 < num_args c
      → ((v : Value) → Answered (f v))
      → Answered (Kv.data_encode (joined_args c 2) dtype >>= f)
  encodes dtype f b a =
      let (v, e) = encoded (joined_args c 2) dtype (joined-ne-nil c.args 2 filled b) in rw e (a v)

  erases :
      (o : Option Hashmap) (e : Effect) (f : Hashmap → Effect)
      → Answered e
      → ((m : Hashmap) → Answered (f m))
      → Answered (elim o [ none ↦ e | some m ↦ f m ])
  erases none e f a b = a
  erases (some m) e f a b = b m

  may_sort :
      (str : Text) (n : Kv)
      → cell ≡ some n
      → Spec.printed n.v ≡ some str
      → Answered (Spec.sorts t timer c cell str) ⊎ Emptied cell
  may_sort [] n e p = inr (n, e, p)
  may_sort (b ∷ str) n e p = inl (_, refl)

  types_sorts :
      (n : Kv)
      → cell ≡ some n
      → (o : Option Text) → Spec.printed n.v ≡ o
      → Answered (
          Spec.typed t timer c cell o
            (λ str. Spec.allowed t timer c cell n.authr (Spec.sorts t timer c cell str)))
        ⊎ Emptied cell
  types_sorts n e none p = inl (_, refl)
  types_sorts n e (some str) p = elim (may_sort str n e p) [
    | inl a ↦ inl (allows n.authr _ a)
    | inr x ↦ inr x
  ]

  sort_cell :
      (o : Cell)
      → cell ≡ o
      → Answered (
          Spec.present t timer c cell o λ n.
            if Kv.is_expired t n
            then some (Command.no_such_key (arg c 1), none)
            else Spec.typed t timer c cell
                (Spec.printed n.v)
                (λ str. Spec.allowed t timer c cell n.authr (Spec.sorts t timer c cell str)))
        ⊎ Emptied cell
  sort_cell none e = inl (_, refl)
  sort_cell (some n) e = elim (types_sorts n e (Spec.printed n.v) refl) [
    | inl a ↦ inl (if-Answered (Kv.is_expired t n) _ _ (_, refl) a)
    | inr x ↦ inr x
  ]

  sort_answered : Answered (act t timer c cell Op.sort) ⊎ ((Op.sort ≡ Op.sort) × Emptied cell)
  unfolding act
  sort_answered = elim (sort_cell cell refl) [ inl a ↦ inl a | inr x ↦ inr (refl, x) ]

  -- With as many arguments as its operation takes, none of them empty, a command is answered,
  -- unless it sorts a list or a set that prints as the empty text.
  pub act_answered :
      (op : Op)
      → acts_on_key op ≡ true
      → fits op (num_args c) ≡ true
      → Answered (act t timer c cell op) ⊎ ((op ≡ Op.sort) × Emptied cell)
  unfolding act acts_on_key reads_number fits
  act_answered Op.get k f = inl (lives _ λ n. allows _ _ (_, refl))
  act_answered Op.make k f = inl (may cell _ (makes (num_args c) refl f))
  act_answered Op.del k f = inl (presents cell _ λ n. allows _ _ (_, refl))
  act_answered Op.lmake k f = inl (may cell _ (encodes _ _ (ground (arith, f)) (λ v. (_, refl))))
  act_answered Op.lpush k f = inl (lives _ λ n. types _ _ λ l. allows _ _ (_, refl))
  act_answered Op.rpush k f = inl (lives _ λ n. types _ _ λ l. allows _ _ (_, refl))
  act_answered Op.lpop k f = inl (lives _ λ n. types _ _ λ l. allows _ _ (fills _ _ _ (_, refl)))
  act_answered Op.rpop k f = inl (lives _ λ n. types _ _ λ l. allows _ _ (fills _ _ _ (_, refl)))
  act_answered Op.lget k f = inl (
      lives _ λ n.
        types _ _
          λ l. allows _ _ (fills _ _ _ (indexes (counted Op.lget refl f) _ (λ z. (_, refl)))))
  act_answered Op.lset k f = inl (
      lives _ λ n.
        types _ _
          λ l. allows _ _ (fills _ _ _ (indexes (counted Op.lset refl f) _ (λ z. (_, refl)))))
  act_answered Op.lerase k f = inl (
      lives _ λ n.
        types _ _
          λ l. allows _ _ (fills _ _ _ (indexes (counted Op.lerase refl f) _ (λ z. (_, refl)))))
  act_answered Op.smake k f = inl (may cell _ (encodes _ _ (ground (arith, f)) (λ v. (_, refl))))
  act_answered Op.spush k f = inl (lives _ λ n. types _ _ λ l. allows _ _ (_, refl))
  act_answered Op.spop k f = inl (lives _ λ n. types _ _ λ l. allows _ _ (fills _ _ _ (_, refl)))
  act_answered Op.serase k f = inl (lives _ λ n. types _ _ λ l. allows _ _ (fills _ _ _ (_, refl)))
  act_answered Op.sort k f = sort_answered
  act_answered Op.hmake k f =
      inl (
        if-Answered _ _ _ (may cell _ (encodes _ _ (ground (arith, f)) (λ v. (_, refl)))) (_, refl))
  act_answered Op.hpush k f = inl (lives _ λ n. types _ _ λ l. allows _ _ (_, refl))
  act_answered Op.hget k f = inl (
      lives _ λ n. types _ _ λ m. allows _ _ (
        fills (Hashmap.is_empty m) _ _
          (if-Answered (Hashmap.get_v (arg c 2) m === null_text) _ _ (_, refl) (_, refl))))
  act_answered Op.hfields k f = inl (lives _ λ n. types _ _ λ l. allows _ _ (fills _ _ _ (_, refl)))
  act_answered Op.hvals k f = inl (lives _ λ n. types _ _ λ l. allows _ _ (fills _ _ _ (_, refl)))
  act_answered Op.herase k f = inl (
      lives _ λ n. types _ _ λ m.
        allows _ _
          (fills _ _ _ (erases (Hashmap.del_fv (arg c 2) m) _ _ (_, refl) (λ m'. (_, refl)))))
  act_answered Op.authr k f = inl (
      presents cell _ λ n.
        reads 2 (counted Op.authr refl f) _
          λ r. levels _ _ _ (λ r. allows r _ (allows n.authw _ (_, refl))) (_, refl))
  act_answered Op.authw k f = inl (
      presents cell _ λ n.
        reads 2 (counted Op.authw refl f) _
          λ r. levels _ _ _ (λ r. allows r _ (allows n.authw _ (_, refl))) (_, refl))
  act_answered Op.expire k f = inl (
      reads 2 (counted Op.expire refl f) _
        λ r. numbers r _ _ (λ z. lives _ λ n. allows n.authw _ (_, refl)) (_, refl))
  act_answered Op.get_ttl k f = inl (lives _ λ n. allows _ _ (_, refl))
  act_answered Op.keys k f = absurd (ground (arith, k))
  act_answered Op.save k f = absurd (ground (arith, k))
  act_answered Op.read k f = absurd (ground (arith, k))
  act_answered Op.unknown k f = inl (_, refl)
