-- ===== src/Kv/Laws.antt =====
-- Expiry and the two levels of a `kv`.
use muse_kv.Prelude.{ℕ, ◌+◌, ◌-◌, ◌≤◌, ◌≡◌, true, false, arith, leb, if◌then◌else◌}
use muse_kv.Prelude.Int.{pos}
use muse_kv.Kv.{Kv, uint8, is_minus_one, is_expired, get_ttl, set_ttl, set_authr, set_authw}

-- After `set_ttl` with a time of at least 0, a key that is not marked as finished is live for
-- exactly that many seconds, and `get_ttl` counts them down without changing the key; when they
-- are over it says 0 and marks it.
pub ttl_exact :
    (ttl timer elapsed : ℕ) (kv : Kv)
    → kv.finished ≡ false
    → (is_expired (timer + elapsed) (set_ttl (pos ttl) timer kv) ≡ leb ttl elapsed)
      × (get_ttl (timer + elapsed) (set_ttl (pos ttl) timer kv) ≡ (
          if leb ttl elapsed
          then (pos 0, record (set_ttl (pos ttl) timer kv) { finished = true })
          else (pos (ttl - elapsed), set_ttl (pos ttl) timer kv)))
unfolding is_expired get_ttl set_ttl is_minus_one
ttl_exact ttl timer elapsed kv f = (ground arith, ground arith)

-- If the read level of a key is at most its write level, it still is after `set_authr` and after
-- `set_authw`, whatever the new level.
pub levels_ordered :
    (r w : ℕ) (kv : Kv)
    → kv.authr ≤ kv.authw
    → ((set_authr r kv).authr ≤ (set_authr r kv).authw)
      × ((set_authw w kv).authr ≤ (set_authw w kv).authw)
unfolding set_authr set_authw
levels_ordered r w kv h = (ground arith, ground arith)

-- `set_authr` and then `set_authw` give the two bytes asked for, if the first is at most the
-- second.
pub levels_set :
    (r w : ℕ) (kv : Kv)
    → uint8 r ≤ uint8 w
    → ((set_authw w (set_authr r kv)).authr ≡ uint8 r)
      × ((set_authw w (set_authr r kv)).authw ≡ uint8 w)
unfolding set_authr set_authw
levels_set r w kv o = (ground arith, ground arith)
