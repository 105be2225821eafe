-- ===== src/Service/Buffer/World.antt =====
-- The buffer while its producer and its consumer take turns in any order. The world keeps, beside the
-- buffer, the stream of all bytes that the producer has laid down, and the end of the room that it holds.
use gofly_mqttv.Base.{
  ℕ, ◌+◌, ◌-◌, ◌^◌, ◌≤◌, ◌<◌, ◌≡◌, ◌⊎◌, inr, List, [], ◌∷◌, ◌++◌, length, set, take, bit_and,
}
use gofly_mqttv.Service.Buffer.{
  ℤ, ok, Buffer, new_buffer, close, look_for_space, wait_for_write_space, fill_and_publish, publish,
  read_round, read, read_commit,
}
use gofly_mqttv.Service.Buffer.Stored.{Stored}

pub record World : Type 0 where
  pub ring : Buffer
  pub room : ℕ
  pub stream : List ℕ

abbrev pub start : Buffer → World
start b = record { ring = b; room = 0; stream = [] }

-- The producer gets space, at once or after a wait.
abbrev pub Space : ℕ → Buffer → (ℕ × ℕ) × Buffer → Type 0
Space n b r = (wait_for_write_space n b ≡ ok r) ⊎ (look_for_space n b ≡ ok r)

-- What one side does. The producer reserves space (`WriteWait` and `ReadFrom`), writes bytes to it one
-- by one, and commits a part of them; or writes a slice. The consumer reads or commits what it peeked at. Either
-- closes the buffer.
pub data Step (w u : World) : Type 0 where
  reserve :
      (n first cnt : ℕ) (b : Buffer)
      → Space n w.ring ((first, cnt), b)
      → u ≡ record { ring = b; room = first + cnt; stream = take w.ring.pseq w.stream }
      → Step w u
  fill :
      (x : ℕ)
      → length w.stream < w.room
      → u ≡ record w {
        ring = record w.ring { buf = set w.ring.buf (bit_and (length w.stream) w.ring.mask) x };
        stream = w.stream ++ x ∷ [];
      }
      → Step w u
  commit :
      (n m : ℕ) (b c : Buffer) (r : ℕ × ℕ)
      → w.ring.pseq + n ≤ length w.stream
      → Space n w.ring (r, b)
      → publish (r, b) ≡ ok (m, c)
      → u ≡ record w { ring = c }
      → Step w u
  write_all :
      (p : List ℕ) (m : ℕ) (b c : Buffer) (r : ℕ × ℕ)
      → Space (length p) w.ring (r, b)
      → fill_and_publish p (r, b) ≡ ok (m, c)
      → u ≡ record { ring = c; room = c.pseq; stream = take w.ring.pseq w.stream ++ p }
      → Step w u
  take_some :
      (n : ℕ) (p : List ℕ) (b : Buffer)
      → (read n w.ring ≡ ok (p, b)) ⊎ (read_round n w.ring ≡ ok (p, b))
      → u ≡ record w { ring = b }
      → Step w u
  drop_some :
      (n : ℤ) (m : ℕ) (b : Buffer)
      → read_commit n w.ring ≡ ok (m, b)
      → u ≡ record w { ring = b }
      → Step w u
  shut : u ≡ record w { ring = close w.ring } → Step w u

-- What is reachable from a new buffer.
pub data Reach : World → Type 0 where
  fresh : (n : ℤ) (b : Buffer) → new_buffer n ≡ inr b → Reach (start b)
  next : (w u : World) → Reach w → Step w u → Reach u

-- Positions in order, at most `size` apart, and the unread bytes in their slots.
pub record IsValid (w : World) : Type 0 where
  pub power : (k : ℕ) × (w.ring.size ≡ 2 ^ k)
  pub mask : w.ring.mask ≡ w.ring.size - 1
  pub slots : length w.ring.buf ≡ w.ring.size
  pub gate_le : w.ring.gate ≤ w.ring.cseq
  pub read_le : w.ring.cseq ≤ w.ring.pseq
  pub published : w.ring.pseq ≤ length w.stream
  pub inside : length w.stream ≤ w.room
  pub fits : w.room ≤ w.ring.cseq + w.ring.size
  pub stored : Stored w.ring.size w.ring.cseq w.ring.buf w.stream
