-- ===== src/Pool/Eviction.antt =====
-- requestpool.go: the limit on the pending Requests of an address, and which of them is retired.
use jaws.Base.{
  ℕ, zero, suc, ◌*◌, ◌^◌, List, [], ◌∷◌, Option, none, some, Bool, true, false, ◌&&◌, ◌||◌, ltb,
  leb, ◌==◌, if◌then◌else◌, length,
}
use jaws.Addr.{Addr}
use jaws.Request.{Cause}
use jaws.Pool.{Jaws, second, sub32, positive32, less32, log_cause, is_none, retire}

-- The pending Request to retire. `best` and `elapsed` are the candidate so far.
unfoldable pub idle : ℕ → ℕ → ℕ → Bool
unfolding sub32 positive32
idle window now written = positive32 (sub32 now written) && ltb window (sub32 now written * second)

unfoldable pub victim_loop : (ℕ → ℕ) → ℕ → ℕ → Option ℕ → ℕ → List ℕ → Option ℕ
unfolding idle sub32 less32
victim_loop written window now best elapsed [] = best
victim_loop written window now best elapsed (r ∷ rs) =
    let age = sub32 now (written r) in
    let newer = is_none best || less32 elapsed age in
    let rest =
      victim_loop written window now (if newer then some r else best)
        (if newer then age else elapsed) rs in
    if idle window now (written r) then some r else rest

-- The window in which a Request that was written is spared: two intervals, and at least a second.
-- DefaultUpdateInterval, a tenth of a second, stands in before Serve starts.
unfoldable pub spare_window : ℕ → ℕ
spare_window interval =
    let window = 2 * (if interval == 0 then 10 ^ 8 else interval) in
    if ltb window second then second else window

-- pendingEvictionVictimLocked.
unfoldable pub eviction_victim : Jaws → Addr → ℕ → Option ℕ
unfolding victim_loop spare_window
eviction_victim jw ip now =
    victim_loop (λ r. (jw.heap r).last_write_seconds) (spare_window jw.maintenance_interval) now
      none 0 (jw.pending ip)

-- limitPendingRequestsLocked: `fuel` bounds the rounds.
unfoldable pub limit_pending : ℕ → Jaws → Addr → ℕ → Jaws
unfolding eviction_victim
limit_pending zero jw ip time = jw
limit_pending (suc fuel) jw ip time =
    elim (leb jw.max_pending_requests_per_ip (length (jw.pending ip))) [
      | false ↦ jw
      | true ↦ elim (eviction_victim jw ip jw.runtime_seconds) [
        | none ↦ jw
        | some victim ↦
            let (jw', cause) = retire jw victim (some Cause.too_many_pending_requests) time in
            let logged = log_cause jw' cause in
            elim (leb (length (jw.pending ip)) (length (logged.pending ip))) [
              | true ↦ logged
              | false ↦ limit_pending fuel logged ip time
            ]
      ]
    ]
