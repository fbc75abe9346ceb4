-- ===== src/Server/Sound/Lines.antt =====
-- `scan_and_send` of src/server_th.cpp keeps what is true of a server, for every line.
use Prim.Native.String.{String}
use muse_kv.Text.Equal.{◌===◌}
use muse_kv.Prelude.{
  ℕ, ◌≡◌, refl, subst, Bool, true, false, Option, none, some, ◌>>=◌, bind-some, ltb, if◌then◌else◌,
  length, drop, inl, inr,
}
use muse_kv.Prelude.Int.{ℤ}
use muse_kv.Text.{Text}
use muse_kv.Text.Atoi.{atoi}
use muse_kv.Hash.{Hash}
use muse_kv.Hash.Frame.{Kept}
use muse_kv.Command.{Reply}
use muse_kv.Command.Files
use muse_kv.Command.Dispatch.{Kind, codes, command_type}
use muse_kv.Command.Safe.{execute-Safe}
use muse_kv.Snapshot.{to_uint8}
use muse_kv.Server.{Server, Socket, Dial, authority_init, replica_accept}
use muse_kv.Server.Scan.{
  Scanned, magic, contains, quiet, then_answer, greet, forward, mine, target, received, scan_result,
  scan_outcome, scan_and_send,
}
use muse_kv.Server.Sound.{
  IsServer, with_table-IsServer, cluster_connect-IsServer, hash_reset-IsServer,
  set_replica_num-IsServer, replica_add-IsServer,
}

-- What the line leaves, if the server goes on.
abbrev pub Leaves : ℕ → Option Scanned → Type 0
Leaves n o = (r : Scanned) → o ≡ some r → IsServer n r.server

if-Leaves :
    (n : ℕ) (b : Bool) (x y : Option Scanned)
    → Leaves n x
    → Leaves n y
    → Leaves n (if b then x else y)
if-Leaves n true x y p q = p
if-Leaves n false x y p q = q

some-scanned : (a b : Scanned) → some a ≡ some b → a ≡ b
some-scanned a b e = cc

some-Leaves : (n : ℕ) (r : Scanned) → IsServer n r.server → Leaves n (some r)
some-Leaves n r ok r' e = subst (λ (q : Scanned). IsServer n q.server) (some-scanned r r' e) ok

none-Leaves : (n : ℕ) → Leaves n none
none-Leaves n r e = cc

then_answer-Leaves :
    (n : ℕ) (ss : Socket) (answer : Text) (o : Option Server)
    → ((s' : Server) → o ≡ some s' → IsServer n s')
    → Leaves n (then_answer ss answer o)
then_answer-Leaves n ss answer none f = none-Leaves n
then_answer-Leaves n ss answer (some s) f = some-Leaves n (quiet ss (some answer) s) (f s refl)

-- the test of the answer of `execute`
abbrev says : Text → String → Bool
says com_result verb = com_result === magic (codes verb)

module _ (dial : Text → ℤ → Dial) (sends : ℤ → Bool) (ask : ℤ → Text → Option Text) (n : ℕ) where
  module _ (s : Server) (ok : IsServer n s) (ss : Socket) where
    greet-Leaves : (line : Text) → Leaves n (greet s ss line)
    unfolding authority_init
    greet-Leaves line = if-Leaves n _ _ _ (none-Leaves n) (some-Leaves n _ ok)

    give-Leaves : (o : Option Text) → Leaves n (o >>= λ info. some (quiet ss (some info) s))
    give-Leaves none = none-Leaves n
    give-Leaves (some info) = some-Leaves n _ ok

    forward-Leaves : (line com_result : Text) → Leaves n (forward ask s ss line com_result)
    unfolding forward
    forward-Leaves line com_result r e =
        let (key, p, e1) =
          bind-some (if ltb (length com_result) 8 then none else some (atoi (drop 8 com_result))) _
            r e in
        let (fd, q, e2) = bind-some (target s key) _ r e1 in some-Leaves n _ ok r e2

    scan_result-Leaves :
        (val : Kind) (line : Text) (level : ℤ) (com_result : Text)
        → Leaves n (scan_result dial sends ask s ss val line level com_result)
    unfolding scan_result mine
    scan_result-Leaves val line level com_result =
        if-Leaves n (says com_result "client") _ _ (greet-Leaves line) (
          if-Leaves n (says com_result "give") _ _ (give-Leaves _) (
            if-Leaves n (says com_result "clust") _ _
              (then_answer-Leaves n ss com_result _ (cluster_connect-IsServer n s ok dial line))
              (if-Leaves n (says com_result "myinfo") _ _
                (then_answer-Leaves n ss com_result _ (hash_reset-IsServer n s ok line))
                (if-Leaves n (says com_result "replicanumber") _ _
                  (then_answer-Leaves n ss com_result _ (set_replica_num-IsServer n s ok line))
                  (if-Leaves n (says com_result "replica") _ _
                    (then_answer-Leaves n ss com_result _
                      (replica_add-IsServer n s ok dial sends line))
                    (if-Leaves n (says com_result "replicaaccept") _ _
                      (some-Leaves n (quiet (replica_accept ss) none s) ok)
                      (if-Leaves n (contains (codes "hashval") com_result) _ _
                        (forward-Leaves line com_result)
                        (some-Leaves n (mine s ss val line level com_result) ok))))))))

  answered-Leaves :
      (s : Server) (ss : Socket) (val : Kind) (com_level : Text × ℤ) (r : Reply) (h : Hash)
      → IsServer n s
      → Kept s.server_hash h
      → Leaves n (scan_outcome dial sends ask s ss val com_level (some (r, h)))
  unfolding scan_outcome
  answered-Leaves s ss val com_level r h ok k =
      scan_result-Leaves (record s { server_hash = h })
        (with_table-IsServer n s ok h k.is k.frame.slots) ss val _ _ _

  -- A line of any text from any client leaves a server whose table and arrays are as they should be.
  pub scan_and_send-IsServer :
      (opened : Bool) (file : Option Text) (t timer : ℕ) (s : Server) (ss : Socket) (line : Text)
      → IsServer n s
      → Leaves n
          (scan_and_send dial sends ask (Files.save opened) (Files.read file) t timer s ss line)
  unfolding scan_and_send scan_outcome
  scan_and_send-IsServer opened file t timer s ss line ok =
      let (l, level) = received line ss.auth in
      elim (execute-Safe opened file t timer l (to_uint8 level) s.server_hash ok.table) [
        | inl a ↦
            rw a.runs (answered-Leaves s ss (command_type line) (l, level) a.says a.after ok a.kept)
        | inr (x, why) ↦ rw x (none-Leaves n)
      ]
