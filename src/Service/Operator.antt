-- ===== src/Service/Operator.antt =====
-- broker/core/service/v1/operator.go: how the service finds out the size of the next packet. `core.in` is a
-- ring, `none` where it is nil.
pub mod Size
use gofly_mqttv.Base.{
  ℕ, zero, suc, ◌+◌, ◌-◌, ◌/◌, ◌^◌, Bool, true, false, Option, none, some, List, [], ◌∷◌, ltb, leb,
  if◌then◌else◌, length, get_or, drop,
}
use gofly_mqttv.Message.Wire.{Uvarint, value, too_small, overflow, uvarint}
use gofly_mqttv.Service.Buffer.{ℤ, pos, BufferError, Wait, blocked, failed, ok, Buffer, read_wait}

-- The errors of these methods: that of the ring, or their own.
pub data OperatorError : Type 0 where
  not_ready continuation : OperatorError
  of_ring : BufferError → OperatorError

-- What a call on the ring comes to: it waits, or fails, or has a value.
pub data Call {ℓ} (A : Type ℓ) : Type ℓ where
  waits : Call A
  fails : OperatorError → Call A
  has : A → Call A

-- What follows a `ReadWait` in the loop of `peekMessageSize`: go on with more bytes, or stop with these.
unfoldable pub on_bytes : ℕ → Call (List ℕ) → Call (List ℕ) → Wait (List ℕ) → Call (List ℕ)
on_bytes cnt again next blocked = waits
on_bytes cnt again next (failed e) = fails (of_ring e)
on_bytes cnt again next (ok b) =
    if ltb (length b) cnt then again else if leb 0x80 (get_or b (cnt - 1) 0) then next else has b

-- The loop of `peekMessageSize`: the rounds that the fuel allows.
unfoldable pub peek_loop : ℕ → ℕ → Buffer → Call (List ℕ)
unfolding on_bytes read_wait
peek_loop zero cnt b = waits
peek_loop (suc fuel) cnt b =
    let again = peek_loop fuel cnt b in
    let next = peek_loop fuel (cnt + 1) b in
    if ltb 5 cnt then fails continuation else on_bytes cnt again next (read_wait (pos cnt) b)

-- The type and the size of the packet that begins with `b`. The number of bytes that `Uvarint` used is 0 or
-- less when it failed; an overflow takes ten bytes, and the loop reads five at most.
unfoldable pub size_of : List ℕ → Uvarint → Call (ℕ × ℕ)
size_of b (value remlen m) = has (get_or b 0 0 / 2 ^ 4, remlen + 1 + m)
size_of b too_small = has (get_or b 0 0 / 2 ^ 4, 1)
size_of b overflow = has (get_or b 0 0 / 2 ^ 4, 1)

unfoldable pub on_peeked : Call (List ℕ) → Call (ℕ × ℕ)
unfolding size_of uvarint
on_peeked waits = waits
on_peeked (fails e) = fails e
on_peeked (has b) = size_of b (uvarint (drop 1 b))

-- `peekMessageSize`. Each round but those that repeat asks for one byte more, up to five.
unfoldable pub peek_message_size : ℕ → Option Buffer → Call (ℕ × ℕ)
unfolding peek_loop on_peeked
peek_message_size fuel none = fails not_ready
peek_message_size fuel (some b) = on_peeked (peek_loop fuel 2 b)
