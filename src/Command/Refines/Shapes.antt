-- ===== src/Command/Refines/Shapes.antt =====
-- The shapes of the handlers of src/command.cpp, by what they read and change, against those of
-- the promises.
use muse_kv.Prelude.{ℕ, ◌≡◌, refl, Bool, some, if◌then◌else◌}
use muse_kv.Prelude.Int.{ℤ}
use muse_kv.LinkedList.Sequence.{Sequence}
use muse_kv.Hashset.{Hashset}
use muse_kv.Hashmap.{Hashmap}
use muse_kv.Kv
use muse_kv.Kv.{
  Kv, Value, string, list, set, hashmap, string_type, list_type, set_type, hashmap_type,
}
use muse_kv.Hash
use muse_kv.Hash.{Hash, find_node}
use muse_kv.Hash.Laws.{IsTable}
use muse_kv.Command.{Command, arg, Reply, Outcome, reply, permit, with_live, permit_make, put_value}
use muse_kv.Command.Lists
use muse_kv.Command.Sets
use muse_kv.Command.Maps
use muse_kv.Command.Spec
use muse_kv.Command.Spec.{Cell, Effect, act, makes, number_level, if_level, insert_all, elements}
use muse_kv.Command.Refines
use muse_kv.Command.Refines.{Does, crashes}
use muse_kv.Command.Refines.Numbers

module _ (t timer : ℕ) (c : Command) (h : Hash) (ok : IsTable h) where
  abbrev pub cell : Cell
  cell = find_node (arg c 1) h

  abbrev pub Runs : Outcome → Effect → Type 0
  Runs o e = Does (arg c 1) h o e

  pub says : (r : Reply) → Runs (reply r h) (Spec.says t timer c cell r)
  says r = Refines.kept c h ok _ refl r

  pub permits :
      (level : ℕ) (rest : Outcome) (e : Effect)
      → Runs rest e
      → Runs (permit c.auth level h rest) (Spec.allowed t timer c cell level e)
  permits = Refines.permit-Does c h ok t timer _ refl

  pub lives :
      (rest : Kv → Outcome) (f : Kv → Effect)
      → ((node : Kv) → cell ≡ some node → Runs (rest node) (f node))
      → Runs (with_live (arg c 1) t h rest) (Spec.live t timer c cell f)
  lives = Refines.live-Does c h ok t timer _ refl

  pub updates :
      (n : Kv)
      → cell ≡ some n
      → (r : Reply) (f : Kv → Kv) → ((m : Kv) → (f m).k ≡ m.k)
      → Runs (reply r (Hash.update_node (arg c 1) f h)) (Spec.becomes t timer c cell r (f n))
  updates = Refines.update-Does c h ok

  pub holds :
      (n : Kv)
      → cell ≡ some n
      → (r : Reply) (v : Value)
      → Runs (reply r (put_value (arg c 1) v h)) (Spec.holds t timer c cell r n v)
  holds n e r v = updates n e r (Kv.set_v v) (λ m. unfold Kv.set_v in refl)

  pub stores :
      (r : Reply) (v : Value) (authr authw : ℕ)
      → Runs
          (reply r (Hash.set (arg c 1) v authr authw h))
          (Spec.stores t timer c cell r v authr authw)
  stores = Refines.set-Does c h ok _ refl

  pub may_make :
      (rest : Outcome) (e : Effect)
      → Runs rest e
      → Runs (permit_make c h rest) (Spec.may_make t timer c cell cell e)
  may_make = Refines.make-Does c h ok t timer _ refl

  pub filled :
      (b : Bool) (r : Reply) (rest : Outcome) (e : Effect)
      → Runs rest e
      → Runs (if b then reply r h else rest) (Spec.filled t timer c cell b r e)
  filled b r rest e d = Refines.if-Does c h ok b _ _ _ _ (says r) d

  pub reads_list :
      (rest : Sequence → Outcome) (f : Sequence → Effect)
      → ((l : Sequence) → Runs (rest l) (f l))
      → Runs
          (with_live
            (arg c 1)
            t
            h
            (λ n. Lists.with_list n.v h (λ l. permit c.auth n.authr h (rest l))))
          (Spec.reads_list t timer c cell f)
  reads_list rest f d =
      lives _ _ λ n e. Refines.list-Does c h ok t timer _ refl n.v _ _ λ l. permits _ _ _ (d l)

  pub writes_list :
      (rest : Kv → Sequence → Outcome) (f : Kv → Sequence → Effect)
      → ((n : Kv) → cell ≡ some n → (l : Sequence) → Runs (rest n l) (f n l))
      → Runs
          (with_live
            (arg c 1)
            t
            h
            (λ n. Lists.with_list n.v h (λ l. permit c.auth n.authw h (rest n l))))
          (Spec.writes_list t timer c cell f)
  writes_list rest f d =
      lives _ _ λ n e. Refines.list-Does c h ok t timer _ refl n.v _ _ λ l. permits _ _ _ (d n e l)

  pub writes_set :
      (rest : Kv → Hashset → Outcome) (f : Kv → Hashset → Effect)
      → ((n : Kv) → cell ≡ some n → (s : Hashset) → Runs (rest n s) (f n s))
      → Runs
          (with_live
            (arg c 1)
            t
            h
            (λ n. Sets.with_set n.v h (λ l. permit c.auth n.authw h (rest n l))))
          (Spec.writes_set t timer c cell f)
  writes_set rest f d =
      lives _ _
        λ n e. Refines.gather-Does c h ok t timer _ refl n.v _ _ λ s. permits _ _ _ (d n e s)

  pub reads_map :
      (rest : Hashmap → Outcome) (f : Hashmap → Effect)
      → ((m : Hashmap) → Runs (rest m) (f m))
      → Runs
          (with_live
            (arg c 1)
            t
            h
            (λ n. Maps.with_map n.v h (λ l. permit c.auth n.authr h (rest l))))
          (Spec.reads_map t timer c cell f)
  reads_map rest f d =
      lives _ _ λ n e. Refines.map-Does c h ok t timer _ refl n.v _ _ λ m. permits _ _ _ (d m)

  pub writes_map :
      (rest : Kv → Hashmap → Outcome) (f : Kv → Hashmap → Effect)
      → ((n : Kv) → cell ≡ some n → (m : Hashmap) → Runs (rest n m) (f n m))
      → Runs
          (with_live
            (arg c 1)
            t
            h
            (λ n. Maps.with_map n.v h (λ l. permit c.auth n.authw h (rest n l))))
          (Spec.writes_map t timer c cell f)
  writes_map rest f d =
      lives _ _ λ n e. Refines.map-Does c h ok t timer _ refl n.v _ _ λ m. permits _ _ _ (d n e m)

  pub indexes :
      (rest : ℤ → Outcome) (f : ℤ → Effect)
      → ((z : ℤ) → Runs (rest z) (f z))
      → Runs (Lists.with_index (arg c 2) h rest) (Spec.indexed t timer c cell (arg c 2) f)
  indexes = Numbers.index-Does c h ok t timer _ refl (arg c 2)
