-- ===== src/Server/Route.antt =====
-- A server that took up the lines of a cluster passes every key on to the server of its slot.
use native.Mathlib.Nat
use muse_kv.Prelude.{
  ℕ, zero, suc, ◌+◌, ◌-◌, ◌*◌, ◌/◌, ◌≤◌, ◌<◌, ◌≡◌, ◌≢◌, ◌⊎◌, refl, sym, ap, ◌∙◌, subst, Bool, false,
  Option, some, [], ◌∷◌, ◌++◌, map, arith, ◌==◌, Bool-cases, inl, inr, length, length-append, ◌>>=◌,
  All,
}
use muse_kv.Prelude.Int.{ℤ, pos, ltb_ℤ, sub_ℕ}
use muse_kv.Text.{Text}
use muse_kv.Text.Atoi.{atoi}
use muse_kv.Text.Split.{Free}
use muse_kv.Text.Words.{words}
use muse_kv.Hash
use muse_kv.Hash.{Hash, total_slot_num}
use muse_kv.Cluster.{range_line}
use muse_kv.Cluster.Ranges.{Holds, slots_divided}
use muse_kv.Distribute.{slot_start, slot_end, clust_com}
use muse_kv.Command.{Command, Outcome}
use muse_kv.Server.{Server, Socket, Dial, connected, joined, linked, setup}
use muse_kv.Server.Scan.{bsp_char, target, scan_and_send}
use muse_kv.Server.Link.{cluster_connect-range_line, hash_reset-range_line}
use muse_kv.Server.Take.{scan_and_send-clust, scan_and_send-myinfo}
use muse_kv.Server.Loop.{
  below, below-skip, below-more, below-Has, below-All, map-below, Has, find_slot-map,
}

-- What the lines of the servers below `k` leave.
record Linked (n i k : ℕ) (fd : ℕ → ℕ) (s : Server) : Type 0 where
  starts : s.slot_start ≡ map (λ j. pos (slot_start n j)) (below i k)
  ends : s.slot_end ≡ map (slot_end n) (below i k)
  socks : s.cluster_vec ≡ map (λ j. pos (fd j)) (below i k)
  count : s.cluster_num ≡ length (below i k)
  start_here : i < k → s.server_hash.start_num ≡ pos (slot_start n i)
  end_here : i < k → s.server_hash.end_num ≡ slot_end n i

-- The server `s` of index `i` either keeps a key of the slot, which is that of index `k`, or passes
-- it on along the connection to `k`.
abbrev pub Delivered : ℕ → ℕ → ℕ → (ℕ → ℕ) → Server → Type 0
Delivered i k slot fd s =
    ((k ≡ i)
      × (ltb_ℤ (pos slot) s.server_hash.start_num ≡ false)
      × (ltb_ℤ s.server_hash.end_num (pos slot) ≡ false))
    ⊎ ((k ≢ i) × (target s (pos slot) ≡ some (pos (fd k))))

slot_end-pos : (n k : ℕ) → 0 < n → n ≤ total_slot_num → (e : ℕ) × (slot_end n k ≡ pos e)
slot_end-pos n k p b = elim (Bool-cases (k == n - 1)) [
  | inl y ↦ (total_slot_num - 1, rw y refl)
  | inr x ↦
      let each : 1 ≤ total_slot_num / n = (Nat.le-div_iff_mul-le p).1 (omega (arith, b)) in
      let more : 1 ≤ k + 1 = omega arith in
      let wide : 1 * 1 ≤ total_slot_num / n * (k + 1) = Nat.mul-le-mul each more in
      (
        total_slot_num / n * (k + 1) - 1,
        rw x (go (total_slot_num / n * (k + 1)) (omega (arith, wide))),
      )
]
  where
    go : (e : ℕ) → 0 < e → sub_ℕ e 1 ≡ pos (e - 1)
    go zero q = absurd (omega (arith, q))
    go (suc e) q = ground arith

module _ (dial : Text → ℤ → Dial) (sends : ℤ → Bool) (ask : ℤ → Text → Option Text)
    (save : Command → Hash → Outcome) (read : Command → Hash → Outcome) (curr_time timer : ℕ)
    (ss : Socket) where
  -- the server behind a line
  unfoldable pub served : Text → Server → Option Server
  served line s = do
    scanned ← scan_and_send dial sends ask save read curr_time timer s ss line
    some scanned.server

  -- The server of index `i` of `n`, after the lines on the servers below `k`; `hosts` are the lines
  -- of the configuration.
  pub taken_up : ℕ → ℕ → (ℕ → Text) → ℕ → Server → Option Server
  unfolding served
  taken_up n i hosts zero s = some s
  taken_up n i hosts (suc k) s = do
    s' ← taken_up n i hosts k s
    served (clust_com n i k (hosts k)) s'

  served-myinfo :
      (s : Server) (lr ip port : Text) (start end : ℕ)
      → Free bsp_char lr
      → words lr ≡ ip ∷ port ∷ []
      → served (range_line "myinfo " lr start (pos end)) s
        ≡ some (record s { server_hash = Hash.set_boundary (pos start) (pos end) s.server_hash })
  unfolding served
  served-myinfo s lr ip port start end f e =
      rw
        (
          scan_and_send-myinfo dial sends ask save read curr_time timer s ss lr ip port start end f
              e,
          hash_reset-range_line s lr ip port start end e,
        )
        refl

  served-clust :
      (s : Server) (lr ip port : Text) (start end fd : ℕ)
      → Free bsp_char lr
      → words lr ≡ ip ∷ port ∷ []
      → dial ip (atoi port) ≡ connected fd
      → served (range_line "clust " lr start (pos end)) s
        ≡ some (linked (pos start) (pos end) (joined (connected fd) s))
  unfolding served
  served-clust s lr ip port start end fd f e q =
      rw
        (
          scan_and_send-clust dial sends ask save read curr_time timer s ss lr ip port start end f
              e,
          cluster_connect-range_line dial s lr ip port start end fd e q,
        )
        refl

  module _ (n i : ℕ) (fd : ℕ → ℕ) (p : 0 < n) (b : n ≤ total_slot_num) where
    served-Linked :
        (k : ℕ) (s : Server) (lr ip port : Text)
        → Free bsp_char lr
        → words lr ≡ ip ∷ port ∷ []
        → dial ip (atoi port) ≡ connected (fd k)
        → Linked n i k fd s
        → (s' : Server) × (served (clust_com n i k lr) s ≡ some s') × Linked n i (suc k) fd s'
    unfolding clust_com below Hash.set_boundary
    served-Linked k s lr ip port f w q l =
        let (e, end) = slot_end-pos n k p b in
        elim (Bool-cases (k == i)) [
          | inl y ↦
              let same : k ≡ i = ground arith in
              (
                record s {
                  server_hash = Hash.set_boundary (pos (slot_start n k)) (pos e) s.server_hash;
                },
                rw (y, end) (served-myinfo s lr ip port (slot_start n k) e f w),
                record {
                  starts = l.starts ∙ ap (map (λ j. pos (slot_start n j))) (sym (below-skip i k y));
                  ends = l.ends ∙ ap (map (slot_end n)) (sym (below-skip i k y));
                  socks = l.socks ∙ ap (map (λ j. pos (fd j))) (sym (below-skip i k y));
                  count = l.count ∙ ap length (sym (below-skip i k y));
                  start_here = λ h. ap (λ j. pos (slot_start n j)) same;
                  end_here = λ h. sym end ∙ ap (slot_end n) same;
                },
              )
          | inr x ↦ (
            linked (pos (slot_start n k)) (pos e) (joined (connected (fd k)) s),
            rw (x, end) (served-clust s lr ip port (slot_start n k) e (fd k) f w q),
            record {
              starts = map-below (λ j. pos (slot_start n j)) i k s.slot_start x l.starts;
              ends =
                  ap (λ z. s.slot_end ++ z ∷ []) (sym end)
                  ∙ map-below (slot_end n) i k s.slot_end x l.ends;
              socks = map-below (λ j. pos (fd j)) i k s.cluster_vec x l.socks;
              count = omega (
                arith,
                l.count,
                length-append (below i k) (k ∷ []),
                ap length (below-more i k x),
              );
              start_here = λ h. l.start_here (ground arith);
              end_here = λ h. l.end_here (ground arith);
            },
          )
        ]

    only :
        (k slot : ℕ)
        → k < n
        → slot < total_slot_num
        → Holds n k slot
        → All (λ j. Holds n j slot → j ≡ k) (below i n)
    only k slot c t h =
        let (k', c', h', u) = slots_divided n slot p t in
        below-All (λ j. Holds n j slot → j ≡ k) i n (λ j d g. u j d g ∙ sym (u k c h))

    here :
        (s : Server) (k slot : ℕ)
        → k ≡ i
        → s.server_hash.start_num ≡ pos (slot_start n i)
        → s.server_hash.end_num ≡ slot_end n i
        → Holds n k slot
        → (ltb_ℤ (pos slot) s.server_hash.start_num ≡ false)
          × (ltb_ℤ s.server_hash.end_num (pos slot) ≡ false)
    here s k slot e a z h = rw (a, z) (subst (λ j. Holds n j slot) e h)

    send :
        (s : Server) (k slot : ℕ)
        → Linked n i n fd s
        → Has k (below i n)
        → All (λ j. Holds n j slot → j ≡ k) (below i n)
        → Holds n k slot
        → target s (pos slot) ≡ some (pos (fd k))
    unfolding target
    send s k slot l m u h =
        let (at, e, g) = find_slot-map n slot 0 k (λ j. pos (fd j)) (below i n) h m u in
        let same : 0 + at ≡ at = omega arith in rw (l.starts, l.ends, l.socks, l.count, e, same) g

    module _ (hosts : ℕ → Text) (ips ports : ℕ → Text)
        (w : (k : ℕ) → k < n → words (hosts k) ≡ ips k ∷ ports k ∷ [])
        (v : (k : ℕ) → k < n → Free bsp_char (hosts k))
        (q : (k : ℕ) → k < n → dial (ips k) (atoi (ports k)) ≡ connected (fd k)) (port : ℕ) where
      taken_up-Linked :
          (k : ℕ)
          → k ≤ n
          → (s : Server) × (taken_up n i hosts k (setup port) ≡ some s) × Linked n i k fd s
      unfolding taken_up
      taken_up-Linked zero m = (
        setup port,
        refl,
        unfold setup below in
            record {
              starts = refl;
              ends = refl;
              socks = refl;
              count = refl;
              start_here = λ h. absurd (omega (arith, h));
              end_here = λ h. absurd (omega (arith, h));
            },
      )
      taken_up-Linked (suc k) m =
          let (s, e, l) = taken_up-Linked k (omega arith) in
          let (s', e', l') =
            served-Linked k s (hosts k) (ips k) (ports k) (v k (omega arith)) (w k (omega arith))
              (q k (omega arith)) l in
          (s', rw (e, taken_up) e', l')

      -- For 1 to 10007 servers whose lines in the configuration hold an address and a port each
      -- and no backspace, if every connection succeeds: `scan_and_send` of the lines that
      -- `distribute` sends it makes of the new server of index `i` one that keeps a key whose slot
      -- is in its own range, by the test of `execute`, and for a key of the range of another
      -- server `k` finds the connection to `k`.
      pub routed :
          (k slot : ℕ)
          → k < n
          → i < n
          → Holds n k slot
          → slot < total_slot_num
          → (s : Server) × (taken_up n i hosts n (setup port) ≡ some s) × Delivered i k slot fd s
      routed k slot c r h t =
          let (s, e, l) = taken_up-Linked n (omega arith) in
          (
            s,
            e,
            elim (Bool-cases (k == i)) [
              | inl y ↦
                  let same : k ≡ i = ground arith in
                  (let (a, z) = here s k slot same (l.start_here r) (l.end_here r) h in
                    inl (same, a, z))
              | inr x ↦
                  let other : k ≢ i = ground arith in
                  inr (other, send s k slot l (below-Has i k n c other) (only k slot c t h) h)
            ],
          )
