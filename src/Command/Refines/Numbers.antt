-- ===== src/Command/Refines/Numbers.antt =====
-- The handlers of src/command.cpp that read a number, and their loops over the arguments, against
-- what they promise.
use mathlib.Core.List.{reverse, reverse-cons, append_assoc, append-nil}
use muse_kv.Prelude.{
  ℕ, ◌≡◌, refl, sym, ap, ◌∙◌, Bool, true, false, List, [], ◌∷◌, ◌++◌, if◌then◌else◌, Bool-cases,
  Option-cases, inl, inr,
}
use muse_kv.Prelude.Int.{ℤ, is_negative, pos_part}
use muse_kv.Text.{Text}
use muse_kv.Text.Number.{strtoint}
use muse_kv.LinkedList.Sequence.{Sequence}
use muse_kv.Hashset
use muse_kv.Hashset.{Hashset}
use muse_kv.Kv.{Value, string, list, set, hashmap}
use muse_kv.Hash.{Hash, find_node}
use muse_kv.Hash.Laws.{IsTable}
use muse_kv.Command.{Command, arg, invalid_auth, invalid_index, Outcome, reply}
use muse_kv.Command.Keys
use muse_kv.Command.Lists
use muse_kv.Command.Sets
use muse_kv.Command.Spec.{
  Cell, Effect, leveled, indexed, if_level, number_level, insert_all, elements, says,
}
use muse_kv.Command.Refines.{Does, kept, crashes}

pub push_fronts-reverse : (xs : List Text) (l : Sequence) → Lists.push_fronts xs l ≡ reverse xs ++ l
unfolding Lists.push_fronts
push_fronts-reverse [] l = refl
push_fronts-reverse (x ∷ xs) l =
    push_fronts-reverse xs (x ∷ l)
    ∙ sym
        (ap (λ (r : List Text). r ++ l) (reverse-cons x xs) ∙ append_assoc (reverse xs) (x ∷ []) l)

pub push_backs-append : (xs : List Text) (l : Sequence) → Lists.push_backs xs l ≡ l ++ xs
unfolding Lists.push_backs
push_backs-append [] l = sym (append-nil l)
push_backs-append (x ∷ xs) l = push_backs-append xs (l ++ x ∷ []) ∙ append_assoc l (x ∷ []) xs

pub push_args-insert_all : (xs : List Text) (s : Hashset) → Sets.push_args xs s ≡ insert_all xs s
unfolding Sets.push_args
push_args-insert_all [] s = refl
push_args-insert_all (x ∷ xs) s = push_args-insert_all xs (Hashset.push x s)

pub length_of-elements : (v : Value) → Sets.length_of v ≡ elements v
unfolding Sets.length_of
length_of-elements (set s) = refl
length_of-elements (string s) = refl
length_of-elements (list l) = refl
length_of-elements (hashmap m) = refl

module _ (c : Command) (h : Hash) (ok : IsTable h) (t timer : ℕ) (cell : Cell)
    (here : find_node (arg c 1) h ≡ cell) where
  pub levels-Does :
      (r : Bool × ℤ) (rest : ℕ → Outcome) (f : ℕ → Effect)
      → ((n : ℕ) → Does (arg c 1) h (rest n) (f n))
      → Does
          (arg c 1)
          h
          (if Keys.bad_level r then reply invalid_auth h else rest (Keys.level r))
          (if_level (number_level r) f (says t timer c cell invalid_auth))
  unfolding Keys.bad_level Keys.level
  levels-Does (false, z) rest f d = kept c h ok cell here invalid_auth
  levels-Does (true, z) rest f d = elim (Bool-cases (is_negative z)) [
    | inl e ↦ rw e (kept c h ok cell here invalid_auth)
    | inr e ↦ rw e (d (pos_part z))
  ]

  pub level-Does :
      (str : Text) (rest : ℕ → Outcome) (f : ℕ → Effect)
      → ((n : ℕ) → Does (arg c 1) h (rest n) (f n))
      → Does (arg c 1) h (Keys.with_level str h rest) (leveled t timer c cell str f)
  unfolding Keys.with_level
  level-Does str rest f d = elim (Option-cases (strtoint str)) [
    | inl e ↦ rw (e, Keys.with_level) (crashes refl refl)
    | inr (r, e) ↦ rw (e, Keys.with_level) (levels-Does r rest f d)
  ]

  pub index-Does :
      (str : Text) (rest : ℤ → Outcome) (f : ℤ → Effect)
      → ((z : ℤ) → Does (arg c 1) h (rest z) (f z))
      → Does (arg c 1) h (Lists.with_index str h rest) (indexed t timer c cell str f)
  unfolding Lists.with_index
  index-Does str rest f d = elim (Option-cases (strtoint str)) [
    | inl e ↦ rw (e, Lists.with_index) (crashes refl refl)
    | inr ((true, z), e) ↦ rw (e, Lists.with_index) (d z)
    | inr ((false, z), e) ↦ rw (e, Lists.with_index) (kept c h ok cell here invalid_index)
  ]
