-- ===== src/Service/Buffer.antt =====
-- broker/core/service/v1/buffer.go: the ring of bytes between one producer and one consumer. Positions
-- are numbers that only grow, below 2^63. A slice of the ring is its two bounds where the caller writes
-- to it, and its bytes where the caller reads it. A wait on a condition variable is the result
-- `blocked`; the waiter looks again with the loop's own function. The numbers of waits, `id`, and the
-- scratch slice `tmp` are left out, and so are the locks of the condition variables: a call that returns
-- io.EOF out of its wait leaves one held, and what a later call does that needs it is not modelled.
pub mod Slots
pub mod Copies
pub mod Stored
pub mod World
pub mod Steps
pub mod Reads
pub mod Invariant
pub mod Fifo
pub mod Safety
pub mod Views
pub mod Rounds
mod Tests
use gofly_mqttv.Base.{
  ℕ, zero, suc, ◌+◌, ◌-◌, ◌*◌, ◌/◌, min, bit_and, Bool, true, false, not, ◌&&◌, ◌||◌, Option, none,
  some, List, [], ◌∷◌, ◌++◌, ◌⊎◌, inl, inr, ltb, leb, ◌==◌, if◌then◌else◌, length, set, take, drop,
  replicate,
}
use gofly_mqttv.Session.AckQueue.{power_of_two64, round_up_power_of_two64}

-- `int`, for the arguments that the code tests for a sign.
pub data ℤ : Type 0 where
  pos negsuc : ℕ → ℤ

-- The errors; `too_small` and `not_power_of_two` carry the size that they recommend, and `io` stands
-- for an error of the reader or writer.
pub data BufferError : Type 0 where
  eof buffer_full negative_count insufficient_data : BufferError
  not_power_of_two too_small io : ℕ → BufferError

pub data Wait {ℓ} (A : Type ℓ) : Type ℓ where
  blocked : Wait A
  failed : BufferError → Wait A
  ok : A → Wait A

infixl 5 ◌>>=◌
abbrev pub ◌>>=◌ {ℓ κ} : {A : Type ℓ} {B : Type κ} → Wait A → (A → Wait B) → Wait B
blocked >>= f = blocked
failed e >>= f = failed e
ok a >>= f = f a

-- `buffer`, with the fields of `sequence` for the producer (`pseq`, `gate`) and the consumer (`cseq`)
pub record Buffer : Type 0 where
  pub buf : List ℕ
  pub size : ℕ
  pub mask : ℕ
  pub done : Bool
  pub pseq : ℕ
  pub gate : ℕ
  pub cseq : ℕ

-- `defaultBufferSize`, `defaultReadBlockSize`, `defaultWriteBlockSize`
abbrev pub default_buffer_size : ℕ
default_buffer_size = 4096

abbrev pub default_read_block_size : ℕ
default_read_block_size = 1024

abbrev pub default_write_block_size : ℕ
default_write_block_size = 1024

abbrev pub empty_buffer : ℕ → Buffer
empty_buffer n = record {
  buf = replicate n 0;
  size = n;
  mask = n - 1;
  done = false;
  pseq = 0;
  gate = 0;
  cseq = 0;
}

abbrev checked_size : ℕ → BufferError ⊎ Buffer
unfolding power_of_two64 round_up_power_of_two64
checked_size n =
    if not (power_of_two64 n)
    then inl (not_power_of_two (round_up_power_of_two64 n))
    else if ltb (n / 2) default_read_block_size
    then inl (too_small (2 * default_read_block_size))
    else inr (empty_buffer n)

-- `newBuffer`
unfoldable pub new_buffer : ℤ → BufferError ⊎ Buffer
unfolding power_of_two64 round_up_power_of_two64
new_buffer (negsuc n) = inl negative_count
new_buffer (pos n) = checked_size (if n == 0 then default_buffer_size else n)

-- `Close`, `Len`
unfoldable pub close : Buffer → Buffer
close b = record b { done = true }

unfoldable pub len : Buffer → ℕ
len b = b.pseq - b.cseq

-- One look of the loop in `waitForWriteSpace`: the producer may go on when the `n` bytes do not reach
-- round to unread ones, and notes the consumer's position.
unfoldable pub look_for_space : ℕ → Buffer → Wait ((ℕ × ℕ) × Buffer)
look_for_space n b =
    if ltb (b.cseq + b.size) (b.pseq + n)
    then (if b.done then failed eof else blocked)
    else ok ((b.pseq, n), record b { gate = b.cseq })

-- `waitForWriteSpace`
unfoldable pub wait_for_write_space : ℕ → Buffer → Wait ((ℕ × ℕ) × Buffer)
unfolding look_for_space
wait_for_write_space n b =
    if b.done
    then failed eof
    else if ltb (b.gate + b.size) (b.pseq + n) || ltb b.pseq b.gate
    then look_for_space n b
    else ok ((b.pseq, n), b)

-- Go's `copy(dst[at:], src)`, which stops at the end of either.
unfoldable pub copy_bytes : List ℕ → ℕ → List ℕ → List ℕ
copy_bytes dst at [] = dst
copy_bytes dst at (x ∷ src) = copy_bytes (set dst at x) (at + 1) src

-- `ringCopy`: the rounds that the fuel allows, with the number of bytes copied. Each round but the first
-- starts at 0.
unfoldable pub ring_copy : ℕ → List ℕ → List ℕ → ℕ → ℕ → List ℕ × ℕ
unfolding copy_bytes
ring_copy zero dst src start i = (dst, i)
ring_copy (suc fuel) dst [] start i = (dst, i)
ring_copy (suc fuel) dst (x ∷ src) start i =
    let l = min (length dst - start) (length (x ∷ src)) in
    ring_copy fuel (copy_bytes dst start (x ∷ src)) (drop l (x ∷ src)) 0 (i + l)

-- The end of `Write`, once there is space from `start` on.
unfoldable pub fill_and_publish : List ℕ → (ℕ × ℕ) × Buffer → Wait (ℕ × Buffer)
unfolding ring_copy
fill_and_publish p ((start, n), b) =
    let r = ring_copy (length p) b.buf p (bit_and start b.mask) 0 in
    ok (r.1, record b { buf = r.0; pseq = start + length p })

-- `Write`
unfoldable pub write : List ℕ → Buffer → Wait (ℕ × Buffer)
unfolding wait_for_write_space fill_and_publish
write p b =
    if b.done then failed eof else (wait_for_write_space (length p) b >>= λ r. fill_and_publish p r)

-- `WriteWait`: the bounds of the slice, and whether the ring's end cuts it short.
unfoldable pub write_wait : ℕ → Buffer → Wait (((ℕ × ℕ) × Bool) × Buffer)
unfolding wait_for_write_space
write_wait n b = wait_for_write_space n b >>= λ r.
    let pstart = bit_and r.0.0 b.mask in
    if ltb b.size (pstart + r.0.1)
    then ok (((pstart, b.size), true), r.1)
    else ok (((pstart, pstart + r.0.1), false), r.1)

-- The end of `WriteCommit`
abbrev pub publish : (ℕ × ℕ) × Buffer → Wait (ℕ × Buffer)
publish ((start, cnt), b) = ok (cnt, record b { pseq = start + cnt })

-- `WriteCommit`
unfoldable pub write_commit : ℕ → Buffer → Wait (ℕ × Buffer)
unfolding wait_for_write_space
write_commit n b = wait_for_write_space n b >>= λ r. publish r

-- `buf[from:to]`
abbrev pub slice : List ℕ → ℕ → ℕ → List ℕ
slice buf from to = take (to - from) (drop from buf)

-- The bytes `p` are taken and the consumer moves behind them.
abbrev pub consumed : List ℕ → Buffer → Wait (List ℕ × Buffer)
consumed p b = ok (p, record b { cseq = b.cseq + length p })

-- One round of the loop of `Read`, into a slice of `pl` bytes.
unfoldable pub read_round : ℕ → Buffer → Wait (List ℕ × Buffer)
read_round pl b =
    let cindex = bit_and b.cseq b.mask in
    if ltb (b.cseq + pl) b.pseq
    then consumed (take pl (drop cindex b.buf)) b
    else if ltb b.cseq b.pseq
    then (if ltb (cindex + (b.pseq - b.cseq)) b.size
        then consumed (take pl (slice b.buf cindex (cindex + (b.pseq - b.cseq)))) b
        else consumed (take pl (drop cindex b.buf)) b)
    else if b.done
    then failed eof
    else blocked

-- `Read`
unfoldable pub read : ℕ → Buffer → Wait (List ℕ × Buffer)
unfolding read_round len
read pl b = if b.done && len b == 0 then failed eof else read_round pl b

-- `m` bytes from the consumer's position on, which may run over the ring's end.
unfoldable pub span : Buffer → ℕ → List ℕ
span b m =
    let cindex = bit_and b.cseq b.mask in
    if ltb b.size (cindex + m)
    then drop cindex b.buf ++ take (m - length (drop cindex b.buf)) b.buf
    else slice b.buf cindex (cindex + m)

abbrev peeked : Buffer → ℕ → Option BufferError → List ℕ × Option BufferError
unfolding span
peeked b m err = if leb (b.cseq + m) b.pseq then (span b m, err) else ([], some insufficient_data)

-- `ReadPeek`
unfoldable pub read_peek : ℤ → Buffer → Wait (List ℕ × Option BufferError)
unfolding span
read_peek (negsuc n) b = failed negative_count
read_peek (pos n) b =
    if ltb b.size n
    then failed buffer_full
    else if leb b.pseq b.cseq
    then (if b.done then failed eof else blocked)
    else if leb n (b.pseq - b.cseq)
    then ok (peeked b n none)
    else ok (peeked b (b.pseq - b.cseq) (some insufficient_data))

-- `ReadWait`
unfoldable pub read_wait : ℤ → Buffer → Wait (List ℕ)
unfolding span
read_wait (negsuc n) b = failed negative_count
read_wait (pos n) b =
    if ltb b.size n
    then failed buffer_full
    else if ltb b.pseq (b.cseq + n)
    then (if b.done then failed eof else blocked)
    else ok (take n (span b n))

-- `ReadCommit`
unfoldable pub read_commit : ℤ → Buffer → Wait (ℕ × Buffer)
read_commit (negsuc n) b = failed negative_count
read_commit (pos n) b =
    if ltb b.size n
    then failed buffer_full
    else if leb (b.cseq + n) b.pseq
    then ok (n, record b { cseq = b.cseq + n })
    else failed insufficient_data
