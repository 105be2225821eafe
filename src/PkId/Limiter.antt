-- ===== src/PkId/Limiter.antt =====
-- util/pkid/pkid_set_limiter.go. The mutex makes each method one step; a wait on the condition
-- variable is the outcome `blocked`.
pub mod Count
pub mod Poll
pub mod Release
pub mod Narrow
use gofly_mqttv.Base.{
  ℕ, zero, suc, ◌+◌, ◌-◌, ◌%◌, ◌^◌, Bool, true, false, not, ◌&&◌, Option, none, some, List, [], ◌∷◌,
  ltb, leb, ◌==◌, if◌then◌else◌,
}
use gofly_mqttv.PkId.Bitmap.{Bitmap, new_bitmap, set_bit, get_bit}

-- `packetIDLimiter`
pub record Limiter : Type 0 where
  pub used : ℕ
  pub limit : ℕ
  pub exit : Bool
  pub locked_pid : Bitmap
  pub free_pid : ℕ

abbrev pub min_packet_id : ℕ
min_packet_id = 1

-- `newPacketIDLimiter`; `limit + 1` is a `uint16`.
unfoldable pub new_limiter : ℕ → Limiter
new_limiter limit = record {
  used = 0;
  limit = limit;
  exit = false;
  locked_pid = new_bitmap ((limit + 1) % 2 ^ 16);
  free_pid = min_packet_id;
}

-- `Close`
unfoldable pub close : Limiter → Limiter
close p = record p { exit = true }

-- The step of `freePid`, which both loops of `PollPacketIDs` take.
unfoldable pub next_id : ℕ → ℕ → ℕ
next_id limit pid = if pid == limit then min_packet_id else (pid + 1) % 2 ^ 16

-- `for p.lockedPid.Get(p.freePid) == 1 { … }`, with fuel; `none` means that the fuel ran out.
unfoldable pub skip : ℕ → Bitmap → ℕ → ℕ → Option ℕ
skip zero b limit pid = none
skip (suc fuel) b limit pid =
    let rest = skip fuel b limit (next_id limit pid) in
    if get_bit b pid == 1 then rest else some pid

-- The end of a round of the loop: the identifier `pid` is taken.
unfoldable pub take_id : Limiter → ℕ → Limiter
take_id p pid = record p {
  used = (p.used + 1) % 2 ^ 16;
  locked_pid = (set_bit p.locked_pid pid 1).0;
  free_pid = next_id p.limit pid;
}

abbrev pub cons_id : ℕ → Option (List ℕ × Limiter) → Option (List ℕ × Limiter)
cons_id pid none = none
cons_id pid (some (ids, p)) = some (pid ∷ ids, p)

-- `for j := 0; j < n; j++ { … }`. A round looks at `limit` identifiers at most (`Poll`).
unfoldable pub poll_loop : ℕ → Limiter → Option (List ℕ × Limiter)
poll_loop zero p = some ([], p)
poll_loop (suc n) p = elim (skip p.limit p.locked_pid p.limit p.free_pid) [
  | none ↦ none
  | some pid ↦ cons_id pid (poll_loop n (take_id p pid))
]

-- What `PollPacketIDs` does: it waits, returns nil after `Close`, or returns identifiers. `spins` is
-- a loop that does not end.
pub data Polled : Type 0 where
  blocked closed spins : Polled
  granted : List ℕ → Limiter → Polled

abbrev pub to_polled : Option (List ℕ × Limiter) → Polled
to_polled none = spins
to_polled (some (ids, p)) = granted ids p

-- The room `p.limit - p.used` is read only at `used < limit`.
unfoldable pub poll_count : Limiter → ℕ → ℕ
poll_count p max = if ltb (p.limit - p.used) max then p.limit - p.used else max

-- `PollPacketIDs`
unfoldable pub poll_packet_ids : Limiter → ℕ → Polled
unfolding poll_count
poll_packet_ids p max =
    if leb p.limit p.used && not p.exit
    then blocked
    else if p.exit
    then closed
    else to_polled (poll_loop (poll_count p max) p)

-- `PollPacketID`: the identifier is 0 when none came back.
unfoldable pub poll_packet_id : Limiter → Polled × ℕ
poll_packet_id p = let r = poll_packet_ids p 1 in (r, first r)
  where
    first : Polled → ℕ
    first (granted (id ∷ ids) q) = id
    first _ = 0

-- `Release`, by `releaseLocked`
unfoldable pub release : Limiter → ℕ → Limiter
release p id =
    if get_bit p.locked_pid id == 1
    then record p {
      locked_pid = (set_bit p.locked_pid id 0).0;
      used = (p.used + 2 ^ 16 - 1) % 2 ^ 16;
    }
    else p

-- `BatchRelease`
unfoldable pub batch_release : Limiter → List ℕ → Limiter
batch_release p [] = p
batch_release p (id ∷ ids) = batch_release (release p id) ids

-- `MarkUsedLocked`
unfoldable pub mark_used_locked : Limiter → ℕ → Limiter
mark_used_locked p id = record p {
  used = (p.used + 1) % 2 ^ 16;
  locked_pid = (set_bit p.locked_pid id 1).0;
}
