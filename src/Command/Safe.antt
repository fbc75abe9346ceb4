-- ===== src/Command/Safe.antt =====
-- Every line that `execute` of src/command.h is given, on a well-formed table.
use muse_kv.Prelude.{
  ℕ, ◌≡◌, ◌⊎◌, refl, sym, ◌∙◌, subst, Bool, true, false, Option, none, some, List, [], ◌∷◌,
  if◌then◌else◌, Bool-cases, inl, inr, All, length, get_or,
}
use muse_kv.Text.{Text}
use muse_kv.Text.Words.{words, split-trim, NonEmpty, split-trim-NonEmpty}
use muse_kv.Hash.{Hash, find_node}
use muse_kv.Hash.Laws.{IsTable}
use muse_kv.Hash.Frame.{Kept, Kept-refl}
use muse_kv.Snapshot.{Read, crash, dangling, damaged, done}
use muse_kv.Snapshot.Kept.{Leaves, read-Leaves}
use muse_kv.Command
use muse_kv.Command.{Command, num_args, arg, Reply, Outcome, reply, confirm, fail_to_read}
use muse_kv.Command.Files
use muse_kv.Command.Dispatch.{Op, select, is_magic, run, run_here, execute_args, execute}
use muse_kv.Command.Spec.{Effect}
use muse_kv.Command.Refines.{Does, crashes, answers}
use muse_kv.Command.Refines.Run.{acts_on_key, run_refines}
use muse_kv.Command.Refines.Counts.{select-fits, fits}
use muse_kv.Command.Refines.Total.{Answered, Emptied, act_answered}
use muse_kv.Command.Effects.Reads.{keys-reply}

-- The line is answered, and the table stays well formed.
pub record Answers (h : Hash) (o : Outcome) : Type 0 where
  pub says : Reply
  pub after : Hash
  pub runs : o ≡ some (says, after)
  pub kept : Kept h after

-- The operation that a line selects.
abbrev pub op_of : List Text → Op
op_of [] = Op.unknown
op_of (verb ∷ rest) = if is_magic verb then Op.unknown else select verb (length (verb ∷ rest))

-- Answered; or the server ends, and the line reads the file, or sorts a list or a set of the key
-- that prints as the empty text.
abbrev pub Safe : Op → Text → Hash → Outcome → Type 0
Safe op key h o =
    Answers h o ⊎ ((o ≡ none) × ((op ≡ Op.read) ⊎ ((op ≡ Op.sort) × Emptied (find_node key h))))

says : (r : Reply) (h : Hash) → IsTable h → Answers h (reply r h)
says r h ok = record { says = r; after = h; runs = refl; kept = Kept-refl h ok }

Does-Safe :
    (op : Op) (key : Text) (h : Hash) (o : Outcome) (e : Effect)
    → Does key h o e
    → Answered e ⊎ ((op ≡ Op.sort) × Emptied (find_node key h))
    → Safe op key h o
Does-Safe op key h o e (crashes a b) (inl (p, q)) = absurd (let x : none ≡ some p = sym b ∙ q in cc)
Does-Safe op key h o e (crashes a b) (inr x) = inr (a, inr x)
Does-Safe op key h o e (answers r h' cell a b w) p =
    inl (record { says = r; after = h'; runs = a; kept = record { is = w.is; frame = w.frame } })

after_read-Safe :
    (key : Text) (h : Hash) (r : Read) → Leaves h r → Safe Op.read key h (Files.after_read r)
unfolding Files.after_read
after_read-Safe key h crash k = inr (refl, inl refl)
after_read-Safe key h (dangling g) k = inr (refl, inl refl)
after_read-Safe key h (damaged g) k =
    inl (record { says = fail_to_read; after = g; runs = refl; kept = k })
after_read-Safe key h (done g) k = inl (record { says = confirm; after = g; runs = refl; kept = k })

module _ (opened : Bool) (file : Option Text) (t timer : ℕ) where
  local-Safe :
      (op : Op) (c : Command) (h : Hash)
      → IsTable h
      → acts_on_key op ≡ true
      → fits op (num_args c) ≡ true
      → All NonEmpty c.args
      → Safe op (arg c 1) h (run (Files.save opened) (Files.read file) t timer op c h)
  local-Safe op c h ok k f a =
      Does-Safe op (arg c 1) h _ _
        (run_refines t timer c h ok (Files.save opened) (Files.read file) op k)
        (act_answered t timer c (find_node (arg c 1) h) a op k f)

  keys-Safe :
      (c : Command) (h : Hash)
      → IsTable h
      → Safe Op.keys (arg c 1) h (run (Files.save opened) (Files.read file) t timer Op.keys c h)
  unfolding run
  keys-Safe c h ok = let (str, e) = keys-reply c h ok in inl (rw e (says (Command.text str) h ok))

  save-Safe :
      (c : Command) (h : Hash)
      → IsTable h
      → Safe Op.save (arg c 1) h (run (Files.save opened) (Files.read file) t timer Op.save c h)
  unfolding run Files.save
  save-Safe c h ok = inl (says _ h ok)

  read-Safe :
      (c : Command) (h : Hash)
      → IsTable h
      → Safe Op.read (arg c 1) h (run (Files.save opened) (Files.read file) t timer Op.read c h)
  unfolding run Files.read
  read-Safe c h ok = after_read-Safe (arg c 1) h _ (read-Leaves file (arg c 1) h ok)

  -- The operations beyond those of one key.
  wide-Safe :
      (op : Op) (c : Command) (h : Hash)
      → IsTable h
      → acts_on_key op ≡ false
      → Safe op (arg c 1) h (run (Files.save opened) (Files.read file) t timer op c h)
  unfolding acts_on_key
  wide-Safe Op.keys c h ok k = keys-Safe c h ok
  wide-Safe Op.save c h ok k = save-Safe c h ok
  wide-Safe Op.read c h ok k = read-Safe c h ok
  wide-Safe Op.get c h ok k = cc
  wide-Safe Op.make c h ok k = cc
  wide-Safe Op.del c h ok k = cc
  wide-Safe Op.lmake c h ok k = cc
  wide-Safe Op.lpush c h ok k = cc
  wide-Safe Op.rpush c h ok k = cc
  wide-Safe Op.lpop c h ok k = cc
  wide-Safe Op.rpop c h ok k = cc
  wide-Safe Op.lget c h ok k = cc
  wide-Safe Op.lset c h ok k = cc
  wide-Safe Op.lerase c h ok k = cc
  wide-Safe Op.smake c h ok k = cc
  wide-Safe Op.spush c h ok k = cc
  wide-Safe Op.spop c h ok k = cc
  wide-Safe Op.serase c h ok k = cc
  wide-Safe Op.sort c h ok k = cc
  wide-Safe Op.hmake c h ok k = cc
  wide-Safe Op.hpush c h ok k = cc
  wide-Safe Op.hget c h ok k = cc
  wide-Safe Op.hfields c h ok k = cc
  wide-Safe Op.hvals c h ok k = cc
  wide-Safe Op.herase c h ok k = cc
  wide-Safe Op.authr c h ok k = cc
  wide-Safe Op.authw c h ok k = cc
  wide-Safe Op.expire c h ok k = cc
  wide-Safe Op.get_ttl c h ok k = cc
  wide-Safe Op.unknown c h ok k = cc

  op-Safe :
      (op : Op) (c : Command) (h : Hash)
      → IsTable h
      → fits op (num_args c) ≡ true
      → All NonEmpty c.args
      → Safe op (arg c 1) h (run (Files.save opened) (Files.read file) t timer op c h)
  op-Safe op c h ok f a = elim (Bool-cases (acts_on_key op)) [
    | inl k ↦ local-Safe op c h ok k f a
    | inr k ↦ wide-Safe op c h ok k
  ]

  if-Safe :
      (op : Op) (key : Text) (b : Bool) (h : Hash) (x y : Outcome)
      → Answers h x
      → Safe op key h y
      → Safe op key h (if b then x else y)
  if-Safe op key true h x y p q = inl p
  if-Safe op key false h x y p q = q

  here-Safe :
      (verb : Text) (c : Command) (h : Hash)
      → IsTable h
      → All NonEmpty c.args
      → Safe
          (select verb (num_args c))
          (arg c 1)
          h
          (run_here (Files.save opened) (Files.read file) t timer verb c h)
  unfolding run_here
  here-Safe verb c h ok a =
      if-Safe _ _ _ h _ _ (says _ h ok) (op-Safe _ c h ok (select-fits verb (num_args c)) a)

  args-Safe :
      (args : List Text) (auth : ℕ) (h : Hash)
      → IsTable h
      → All NonEmpty args
      → Safe (op_of args) (get_or args 1 []) h (
          execute_args
            (Files.save opened)
            (Files.read file)
            t
            timer
            (record { args = args; auth = auth })
            args
            h)
  unfolding execute_args
  args-Safe [] auth h ok a = inl (says _ h ok)
  args-Safe (verb ∷ rest) auth h ok a = elim (Bool-cases (is_magic verb)) [
    | inl y ↦ rw y (inl (says _ h ok))
    | inr n ↦ rw n (here-Safe verb _ h ok a)
  ]

  -- On a well-formed table every line, of whatever text and whoever sends it, is answered, and
  -- leaves a well-formed table with the slots that it had, whether the snapshot file can be opened
  -- and whatever it holds, but for two kinds of lines: those that read the file, where the run may
  -- end in a crash or at a line of the file of a type that is no type, and a sort of a list or a
  -- set that prints as the empty text, which may crash.
  pub execute-Safe :
      (line : Text) (auth : ℕ) (h : Hash)
      → IsTable h
      → Safe
          (op_of (words line))
          (get_or (words line) 1 [])
          h
          (execute (Files.save opened) (Files.read file) t timer line auth h)
  unfolding execute
  execute-Safe line auth h ok = rw (split-trim line) (
      args-Safe (words line) auth h ok
        (subst (All NonEmpty) (split-trim line) (split-trim-NonEmpty line)))
