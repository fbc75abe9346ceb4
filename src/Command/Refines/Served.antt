-- ===== src/Command/Refines/Served.antt =====
-- The server answers a session as its lines promise, src/command.h and src/command.cpp.
use muse_kv.Prelude.{
  ℕ, ◌≡◌, ◌⊎◌, ◌>>=◌, refl, sym, ap, ◌∙◌, subst, Bool, true, false, ◌&&◌, ◌||◌, Option, none, some,
  List, [], ◌∷◌, ltb, if◌then◌else◌, Bool-cases, inl, inr, All,
}
use muse_kv.Prelude.Int.{ℤ, pos, ltb_ℤ}
use muse_kv.Text.{Text}
use muse_kv.Text.Equal.{◌===◌}
use muse_kv.Text.Words.{words, split-trim}
use muse_kv.Hash.{Hash, find_node, hash_func}
use muse_kv.Hash.Frame.{hash_func-table_s}
use muse_kv.Hash.Laws.{IsTable}
use muse_kv.Command.{Command, num_args, arg, Reply, Outcome, reply}
use muse_kv.Command.Dispatch.{Op, select, is_magic, run, run_here, execute_args, execute}
use muse_kv.Command.Spec.{Cell, Effect, act}
use muse_kv.Command.Refines.{Sees, Does, crashes, answers}
use muse_kv.Command.Refines.Run.{acts_on_key, run_refines}
use muse_kv.Command.Refines.Session.{
  Request, Cells, stored, is_local, is_local_args, play, play_args, play_here, play_all, serve,
}

far-same :
    (a b : ℕ) (x y z w : ℤ)
    → a ≡ b
    → x ≡ y
    → z ≡ w
    → (ltb_ℤ (pos a) x || ltb_ℤ z (pos a)) ≡ (ltb_ℤ (pos b) y || ltb_ℤ w (pos b))
far-same a b x y z w e f g = rw (e, f, g) refl

module _ (slot : Text → ℕ) (first last : ℤ) where
  -- The table is well formed, gives the cells to lookups, and has the slots.
  pub record Shows (h : Hash) (m : Cells) : Type 0 where
    pub sees : (j : Text) → find_node j h ≡ m j
    pub is : IsTable h
    pub slots : (j : Text) → hash_func j h ≡ slot j
    pub from : h.start_num ≡ first
    pub to : h.end_num ≡ last

  -- Both answer, with the same reply.
  pub record Serves (o : Outcome) (p : Option (Reply × Cells)) : Type 0 where
    pub says : Reply
    pub h : Hash
    pub m : Cells
    pub runs : o ≡ some (says, h)
    pub plays : p ≡ some (says, m)
    pub shows : Shows h m

  -- Both answer, or both end.
  abbrev pub Follows : Outcome → Option (Reply × Cells) → Type 0
  Follows o p = Serves o p ⊎ ((o ≡ none) × (p ≡ none))

  kept : (r : Reply) (h : Hash) (m : Cells) → Shows h m → Follows (reply r h) (some (r, m))
  kept r h m s = inl (record { says = r; h = h; m = m; runs = refl; plays = refl; shows = s })

  if-Follows :
      (b b' : Bool) (x y : Outcome) (p q : Option (Reply × Cells))
      → b ≡ b'
      → Follows x p
      → Follows y q
      → Follows (if b then x else y) (if b' then p else q)
  if-Follows true b' x y p q e s t = subst (λ (b : Bool). Follows x (if b then p else q)) e s
  if-Follows false b' x y p q e s t = subst (λ (b : Bool). Follows y (if b then p else q)) e t

  Sees-Shows :
      (key : Text) (h h' : Hash) (cell : Cell) (m : Cells)
      → Sees key h h' cell
      → Shows h m
      → Shows h' (λ j. if key === j then cell else m j)
  Sees-Shows key h h' cell m a s = record {
    sees = λ j. a.found j ∙ ap (λ (o : Cell). if key === j then cell else o) (s.sees j);
    is = a.is;
    slots = λ j. hash_func-table_s j h h' a.frame.slots ∙ s.slots j;
    from = a.frame.first ∙ s.from;
    to = a.frame.last ∙ s.to;
  }

  Does-Follows :
      (key : Text) (h : Hash) (m : Cells) (o : Outcome) (e : Effect)
      → Does key h o e
      → Shows h m
      → Follows o (stored key m e)
  Does-Follows key h m o e (crashes a b) s = inr (a, rw b refl)
  Does-Follows key h m o e (answers r h' cell a b w) s = inl (record {
    says = r;
    h = h';
    m = λ j. if key === j then cell else m j;
    runs = a;
    plays = rw b refl;
    shows = Sees-Shows key h h' cell m w s;
  })

  module _ (save read : Command → Hash → Outcome) (q : Request) where
    op_serves :
        (op : Op) (c : Command) (h : Hash) (m : Cells)
        → acts_on_key op ≡ true
        → Shows h m
        → Follows
            (run save read q.curr_time q.timer op c h)
            (stored (arg c 1) m (act q.curr_time q.timer c (m (arg c 1)) op))
    op_serves op c h m k s =
        Does-Follows (arg c 1) h m _ _
          (subst
            (λ (o : Cell).
              Does (arg c 1) h (run save read q.curr_time q.timer op c h)
                (act q.curr_time q.timer c o op))
            (s.sees (arg c 1)) (run_refines q.curr_time q.timer c h s.is save read op k))
          s

    here_serves :
        (verb : Text) (c : Command) (h : Hash) (m : Cells)
        → acts_on_key (select verb (num_args c)) ≡ true
        → Shows h m
        → Follows
            (run_here save read q.curr_time q.timer verb c h)
            (play_here slot first last q verb c m)
    unfolding run_here play_here
    here_serves verb c h m k s =
        if-Follows _ _ _ _ _ _
          (ap (λ b. ltb 1 (num_args c) && b)
            (far-same (hash_func (arg c 1) h) (slot (arg c 1)) h.start_num first h.end_num last
              (s.slots (arg c 1)) s.from s.to))
          (rw (s.slots (arg c 1)) (kept _ h m s)) (op_serves (select verb (num_args c)) c h m k s)

    args_serve :
        (args : List Text) (h : Hash) (m : Cells)
        → is_local_args args ≡ true
        → Shows h m
        → Follows
            (execute_args save read q.curr_time q.timer
              (record { args = args; auth = q.auth })
              args
              h)
            (play_args slot first last q (record { args = args; auth = q.auth }) args m)
    unfolding execute_args play_args is_local_args
    args_serve [] h m k s = kept _ h m s
    args_serve (verb ∷ rest) h m k s = elim (Bool-cases (is_magic verb)) [
      | inl y ↦ rw y (kept _ h m s)
      | inr n ↦ rw n (here_serves verb _ h m (rw n at k) s)
    ]

    -- A line is answered as it promises, or ends the server, as it promises.
    line_follows :
        (h : Hash) (m : Cells)
        → is_local q ≡ true
        → Shows h m
        → Follows (execute save read q.curr_time q.timer q.line q.auth h) (play slot first last q m)
    unfolding execute play is_local
    line_follows h m k s = rw (split-trim q.line) (args_serve (words q.line) h m k s)

    -- A line that promises an answer is answered.
    pub line_serves :
        (h : Hash) (m : Cells) (p : Reply × Cells)
        → is_local q ≡ true
        → Shows h m
        → play slot first last q m ≡ some p
        → Serves (execute save read q.curr_time q.timer q.line q.auth h) (play slot first last q m)
    line_serves h m p k s e = elim (line_follows h m k s) [
      | inl one ↦ one
      | inr (a, b) ↦ absurd (let x : none ≡ some p = sym b ∙ e in cc)
    ]

  -- All lines are answered by both, with the same replies.
  pub record Session (o : Option (List Reply × Hash)) (p : Option (List Reply × Cells))
      : Type 0 where
    pub says : List Reply
    pub h : Hash
    pub m : Cells
    pub runs : o ≡ some (says, h)
    pub plays : p ≡ some (says, m)
    pub shows : Shows h m

  abbrev onto : {A : Type 0} → Reply → List Reply × A → Option (List Reply × A)
  onto one x = some (one ∷ x.0, x.1)

  answered :
      (one : Reply) (o : Option (List Reply × Hash)) (p : Option (List Reply × Cells))
      → Session o p ⊎ ((o ≡ none) × (p ≡ none))
      → Session (o >>= onto one) (p >>= onto one)
        ⊎ ((o >>= onto one ≡ none) × (p >>= onto one ≡ none))
  answered one o p (inl more) = inl (record {
    says = one ∷ more.says;
    h = more.h;
    m = more.m;
    runs = rw more.runs refl;
    plays = rw more.plays refl;
    shows = more.shows;
  })
  answered one o p (inr (a, b)) = inr (rw a refl, rw b refl)

  -- A session of lines other than those of keys, save and read, each with its client's level and
  -- its time, on a table that is well formed and shows the cells: either it is answered line by
  -- line with the replies that the lines promise, and the table shows the cells that they promise,
  -- or the server crashes, and the lines promise that. They promise a redirection for keys of
  -- slots out of the range, and a crash for a sort of a list or a set that prints as the empty
  -- text.
  pub session_refines :
      (save read : Command → Hash → Outcome) (qs : List Request) (h : Hash) (m : Cells)
      → All (λ q. is_local q ≡ true) qs
      → Shows h m
      → Session (serve save read qs h) (play_all slot first last qs m)
        ⊎ ((serve save read qs h ≡ none) × (play_all slot first last qs m ≡ none))
  unfolding serve play_all
  session_refines save read [] h m k s =
      inl (record { says = []; h = h; m = m; runs = refl; plays = refl; shows = s })
  session_refines save read (q ∷ qs) h m k s = elim (line_follows save read q h m k.0 s) [
    | inl one ↦
        rw (one.runs, one.plays)
          (answered one.says _ _ (session_refines save read qs one.h one.m k.1 one.shows))
    | inr (a, b) ↦ inr (rw a refl, rw b refl)
  ]
