-- ===== src/Server/Sound.antt =====
-- What every line leaves true of a server, src/server_th.cpp: its table, and the sizes of its
-- vectors and arrays.
pub mod Lines
use muse_kv.Prelude.{
  ℕ, zero, suc, ◌+◌, ◌-◌, ◌≤◌, ◌<◌, ◌≡◌, ◌⊎◌, refl, sym, ap, ◌∙◌, subst, Bool, true, false, not,
  ◌&&◌, Option, none, some, List, [], ◌∷◌, ◌++◌, ◌>>=◌, arith, ltb, leb, if◌then◌else◌, length,
  get_elem?, set, replicate, length-append, length-set, Bool-cases, bind-some, Option-cases, inl,
  inr,
}
use muse_kv.Prelude.Int.{ℤ, pos, negsuc, ltb_ℤ, pos_part, neg_part, sub_ℕ}
use muse_kv.Text.{Text, trim}
use muse_kv.Text.Atoi.{atoi}
use muse_kv.Hash
use muse_kv.Hash.{Hash}
use muse_kv.Hash.Laws.{IsTable, new-IsTable}
use muse_kv.Hash.Frame.{set_boundary-IsTable}
use muse_kv.Distribute.{word_at}
use muse_kv.Server
use muse_kv.Server.{
  max_client_num, Server, Dial, dec, descriptor, is_connected, joined, linked, link_words,
  cluster_connect, hash_reset, with_arrays, set_replica_num, replica_add, counted_replica,
}
use muse_kv.Server.Scan.{others}

-- A server with `n` connections.
pub record IsServer (n : ℕ) (s : Server) : Type 0 where
  pub table : IsTable s.server_hash
  pub slots : s.server_hash.table_s ≡ Hash.total_slot_num
  pub ranges : length s.slot_end ≡ length s.slot_start
  pub linked_some : length s.slot_start ≤ s.cluster_num
  pub sockets : length s.cluster_vec ≡ s.cluster_num
  pub coms : length s.replica_com ≡ others s
  pub ips : length s.replica_ip ≡ others s
  pub ports : length s.replica_port ≡ others s
  pub socks : length s.replica_sock ≡ others s
  pub added : s.repnum ≤ others s
  pub clients : s.client_num ≡ sub_ℕ n (length s.slot_start)
  pub limit : pos_part s.client_num ≤ max_client_num + 1

some-server : (a b : Server) → some a ≡ some b → a ≡ b
some-server a b e = cc

pub sub_ℕ-pos : (a b k : ℕ) → a ≡ b + k → sub_ℕ a b ≡ pos k
sub_ℕ-pos a b k h = ground arith

pub sub_ℕ-negsuc : (a b k : ℕ) → b ≡ a + k + 1 → sub_ℕ a b ≡ negsuc k
sub_ℕ-negsuc a b k h = ground arith

pub dec-sub_ℕ : (a b : ℕ) → dec (sub_ℕ a b) ≡ sub_ℕ a (b + 1)
dec-sub_ℕ a b = elim (Bool-cases (leb b a)) [
  | inr n ↦
      ap dec (sub_ℕ-negsuc a b (b - a - 1) (ground arith))
      ∙ sym (sub_ℕ-negsuc a (b + 1) (b - a - 1 + 1) (ground arith))
  | inl y ↦ elim (Bool-cases (leb a b)) [
    | inl z ↦
        ap dec (sub_ℕ-pos a b 0 (ground arith)) ∙ sym (sub_ℕ-negsuc a (b + 1) 0 (ground arith))
    | inr z ↦
        ap dec (sub_ℕ-pos a b (suc (a - (b + 1))) (ground arith))
        ∙ sym (sub_ℕ-pos a (b + 1) (a - (b + 1)) (ground arith))
  ]
]

pub dec-le : (z : ℤ) → pos_part (dec z) ≤ pos_part z
dec-le (pos zero) = omega arith
dec-le (pos (suc n)) = omega arith
dec-le (negsuc n) = omega arith

length-replicate : {A : Type 0} (n : ℕ) (a : A) → length (replicate n a) ≡ n
length-replicate zero a = refl
length-replicate (suc n) a = ap suc (length-replicate n a)

pub setup-IsServer : (port : ℕ) → IsServer 0 (Server.setup port)
unfolding Server.setup Hash.new
setup-IsServer port = record {
  table = (new-IsTable port).1;
  slots = refl;
  ranges = refl;
  linked_some = omega arith;
  sockets = refl;
  coms = refl;
  ips = refl;
  ports = refl;
  socks = refl;
  added = omega arith;
  clients = refl;
  limit = omega arith;
}

below : (z : ℤ) (k : ℕ) → ltb_ℤ (pos (k + 1)) z ≡ true → k + 1 ≤ pos_part z - 1
below (pos m) k e = ground arith
below (negsuc m) k e = absurd (ground arith)

module _ (n : ℕ) (s : Server) (ok : IsServer n s) where
  joined-IsServer : (d : Dial) → IsServer n (joined d s)
  joined-IsServer d = record {
    table = ok.table;
    slots = ok.slots;
    ranges = ok.ranges;
    linked_some = omega (arith, ok.linked_some);
    sockets = length-append s.cluster_vec (descriptor d ∷ []) ∙ ap (λ m. m + 1) ok.sockets;
    coms = ok.coms;
    ips = ok.ips;
    ports = ok.ports;
    socks = ok.socks;
    added = ok.added;
    clients = ok.clients;
    limit = ok.limit;
  }

  linked-IsServer : (d : Dial) (start end : ℤ) → IsServer n (linked start end (joined d s))
  linked-IsServer d start end =
      let j = joined-IsServer d in
      let more = length-append s.slot_start (start ∷ []) in
      record {
        table = ok.table;
        slots = ok.slots;
        ranges = omega (arith, more, length-append s.slot_end (end ∷ []), ok.ranges);
        linked_some = omega (arith, more, ok.linked_some);
        sockets = j.sockets;
        coms = ok.coms;
        ips = ok.ips;
        ports = ok.ports;
        socks = ok.socks;
        added = ok.added;
        clients = ap dec ok.clients ∙ dec-sub_ℕ n (length s.slot_start) ∙ ap (sub_ℕ n) (sym more);
        limit = omega (arith, dec-le s.client_num, ok.limit);
      }

  -- A well-formed table with the slots of the old one.
  pub with_table-IsServer :
      (h : Hash)
      → IsTable h
      → h.table_s ≡ s.server_hash.table_s
      → IsServer n (record s { server_hash = h })
  with_table-IsServer h is same = record {
    table = is;
    slots = same ∙ ok.slots;
    ranges = ok.ranges;
    linked_some = ok.linked_some;
    sockets = ok.sockets;
    coms = ok.coms;
    ips = ok.ips;
    ports = ok.ports;
    socks = ok.socks;
    added = ok.added;
    clients = ok.clients;
    limit = ok.limit;
  }

  pub cluster_connect-IsServer :
      (dial : Text → ℤ → Dial) (line : Text) (s' : Server)
      → cluster_connect dial line s ≡ some s'
      → IsServer n s'
  unfolding cluster_connect
  cluster_connect-IsServer dial line s' e =
      let (ip, p, e1) = bind-some (word_at line 1) _ s' e in
      let (port, q, e2) = bind-some (word_at line 2) _ s' e1 in
      elim (Bool-cases (is_connected (dial ip (atoi port)))) [
        | inr x ↦
            subst (IsServer n) (some-server _ s' (rw x at e2))
              (joined-IsServer (dial ip (atoi port)))
        | inl y ↦
            let (a, f, e3) = bind-some (word_at line 3) _ s' (rw y at e2) in
            let (b, g, e4) = bind-some (word_at line 4) _ s' e3 in
            subst (IsServer n) (some-server _ s' e4)
              (linked-IsServer (dial ip (atoi port)) (atoi a) (atoi b))
      ]

  pub hash_reset-IsServer :
      (line : Text) (s' : Server) → hash_reset line s ≡ some s' → IsServer n s'
  unfolding hash_reset Hash.set_boundary
  hash_reset-IsServer line s' e =
      let (a, f, e1) = bind-some (word_at line 3) _ s' e in
      let (b, g, e2) = bind-some (word_at line 4) _ s' e1 in
      subst (IsServer n) (some-server _ s' e2) (
        with_table-IsServer (Hash.set_boundary (atoi a) (atoi b) s.server_hash)
          (set_boundary-IsTable (atoi a) (atoi b) s.server_hash ok.table) refl)

  arrays-IsServer : (z : ℤ) (s' : Server) → with_arrays z s ≡ some s' → IsServer n s'
  arrays-IsServer (pos zero) s' e = cc
  arrays-IsServer (negsuc m) s' e = cc
  arrays-IsServer (pos (suc m)) s' e = subst (IsServer n) (some-server _ s' e) (record {
    table = ok.table;
    slots = ok.slots;
    ranges = ok.ranges;
    linked_some = ok.linked_some;
    sockets = ok.sockets;
    coms = omega (arith, length-replicate {A = Text} m []);
    ips = omega (arith, length-replicate {A = Text} m []);
    ports = omega (arith, length-replicate m (pos 0));
    socks = omega (arith, length-replicate m (pos 0));
    added = omega arith;
    clients = ok.clients;
    limit = ok.limit;
  })

  pub set_replica_num-IsServer :
      (line : Text) (s' : Server) → set_replica_num line s ≡ some s' → IsServer n s'
  unfolding set_replica_num
  set_replica_num-IsServer line s' e =
      let (a, f, e1) = bind-some (word_at line 1) _ s' e in arrays-IsServer (atoi a) s' e1

  stored-IsServer :
      (sent : Bool) (line ip : Text) (port fd : ℤ)
      → s.repnum + 1 ≤ others s
      → IsServer n (
          counted_replica sent (record s {
            replica_com = set s.replica_com s.repnum line;
            replica_ip = set s.replica_ip s.repnum ip;
            replica_port = set s.replica_port s.repnum port;
            replica_sock = set s.replica_sock s.repnum fd;
          }))
  stored-IsServer true line ip port fd h = record {
    table = ok.table;
    slots = ok.slots;
    ranges = ok.ranges;
    linked_some = ok.linked_some;
    sockets = ok.sockets;
    coms = length-set s.replica_com s.repnum line ∙ ok.coms;
    ips = length-set s.replica_ip s.repnum ip ∙ ok.ips;
    ports = length-set s.replica_port s.repnum port ∙ ok.ports;
    socks = length-set s.replica_sock s.repnum fd ∙ ok.socks;
    added = h;
    clients = ok.clients;
    limit = ok.limit;
  }
  stored-IsServer false line ip port fd h = record {
    table = ok.table;
    slots = ok.slots;
    ranges = ok.ranges;
    linked_some = ok.linked_some;
    sockets = ok.sockets;
    coms = length-set s.replica_com s.repnum line ∙ ok.coms;
    ips = length-set s.replica_ip s.repnum ip ∙ ok.ips;
    ports = length-set s.replica_port s.repnum port ∙ ok.ports;
    socks = length-set s.replica_sock s.repnum fd ∙ ok.socks;
    added = ok.added;
    clients = ok.clients;
    limit = ok.limit;
  }

  pub replica_add-IsServer :
      (dial : Text → ℤ → Dial) (sends : ℤ → Bool) (line : Text) (s' : Server)
      → replica_add dial sends line s ≡ some s'
      → IsServer n s'
  unfolding replica_add
  replica_add-IsServer dial sends line s' e =
      elim (Bool-cases (ltb_ℤ (pos (s.repnum + 1)) s.replica_num)) [
        | inr x ↦ subst (IsServer n) (some-server s s' (rw x at e)) ok
        | inl y ↦
            let (ip, p, e1) = bind-some (word_at line 1) _ s' (rw y at e) in
            let (port, q, e2) = bind-some (word_at line 2) _ s' e1 in
            subst (IsServer n) (some-server _ s' e2)
              (stored-IsServer _ (trim line) ip (atoi port) _ (below s.replica_num s.repnum y))
      ]
