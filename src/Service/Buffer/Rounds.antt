-- ===== src/Service/Buffer/Rounds.antt =====
-- The loops `ReadFrom` and `WriteTo` of buffer.go, a round at a time. What the reader delivers and what the
-- writer takes are parameters. The loop ends with `returns`, after which the buffer is closed, and waits in
-- a call on the ring with `waits`.
pub mod Laws
pub mod Reading
use gofly_mqttv.Base.{
  ℕ, zero, suc, ◌+◌, ◌-◌, min, bit_and, Bool, true, false, Option, none, some, List, [], ◌∷◌, ltb,
  if◌then◌else◌, length,
}
use gofly_mqttv.Service.Buffer.{
  ℤ, pos, BufferError, eof, io, Wait, blocked, failed, ok, Buffer, close, default_read_block_size,
  default_write_block_size, wait_for_write_space, copy_bytes, write_commit, read_peek, read_commit,
}

pub data Round : Type 0 where
  waits : Round
  goes_on : ℕ → Buffer → Round
  returns : ℕ → BufferError → Buffer → Round

-- The end of a round of `ReadFrom`, by the reader's error
unfoldable pub after_read : Option ℕ → ℕ → Buffer → Round
unfolding close
after_read none total b = goes_on total b
after_read (some e) total b = returns total (io e) (close b)

unfoldable pub on_commit : ℕ → Option ℕ → ℕ → Buffer → Wait (ℕ × Buffer) → Round
unfolding after_read close
on_commit n err total b blocked = waits
on_commit n err total b (failed e) = returns (total + n) e (close b)
on_commit n err total b (ok r) = after_read err (total + n) r.1

unfoldable pub commit_chunk : ℕ → Option ℕ → ℕ → Buffer → Round
unfolding write_commit after_read on_commit
commit_chunk n err total b =
    if ltb 0 n then on_commit n err total b (write_commit n b) else after_read err total b

-- The reader fills the slice that starts at the producer's position with `chunk`. The slice, and so the
-- chunk, goes no further than the ring's end.
abbrev pub slice_length : Buffer → ℕ → ℕ → ℕ
slice_length b pstart cnt = min (pstart + cnt) b.size - pstart

unfoldable pub on_space : List ℕ → Option ℕ → ℕ → Buffer → Wait ((ℕ × ℕ) × Buffer) → Round
unfolding copy_bytes commit_chunk close
on_space chunk err total b blocked = waits
on_space chunk err total b (failed e) = returns 0 e (close b)
on_space chunk err total b (ok r) =
    commit_chunk (length chunk) err total
      (record r.1 { buf = copy_bytes r.1.buf (bit_and r.0.0 r.1.mask) chunk })

-- A round of `ReadFrom`, in which the reader delivers `chunk` and maybe an error.
unfoldable pub read_from_round : List ℕ → Option ℕ → ℕ → Buffer → Round
unfolding wait_for_write_space on_space close
read_from_round chunk err total b =
    if b.done
    then returns total eof (close b)
    else on_space chunk err total b (wait_for_write_space default_read_block_size b)

-- What follows when the writer took `n` bytes
unfoldable pub on_read_commit : ℕ → ℕ → Buffer → Wait (ℕ × Buffer) → Round
unfolding close
on_read_commit n total b blocked = waits
on_read_commit n total b (failed e) = returns (total + n) e (close b)
on_read_commit n total b (ok r) = goes_on (total + n) r.1

unfoldable pub after_write : ℕ → Option ℕ → ℕ → Buffer → Round
unfolding read_commit on_read_commit close
after_write n (some e) total b = returns (total + n) (io e) (close b)
after_write n none total b = on_read_commit n total b (read_commit (pos n) b)

-- What follows on a peek. The error that there are fewer bytes than asked for does not end the loop.
unfoldable pub on_peek :
    (List ℕ → ℕ × Option ℕ) → ℕ → Buffer → Wait (List ℕ × Option BufferError) → Round
unfolding after_write close
on_peek writer total b blocked = waits
on_peek writer total b (failed e) = returns total e (close b)
on_peek writer total b (ok (p, err)) =
    if ltb 0 (length p) then after_write (writer p).0 (writer p).1 total b else goes_on total b

-- A round of `WriteTo`, with a writer that says how many bytes it took and maybe an error.
unfoldable pub write_to_round : (List ℕ → ℕ × Option ℕ) → ℕ → Buffer → Round
unfolding read_peek on_peek close
write_to_round writer total b =
    if b.done
    then returns total eof (close b)
    else on_peek writer total b (read_peek (pos default_write_block_size) b)
