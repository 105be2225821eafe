-- ===== src/Service/Buffer/Tests.antt =====
-- Runs of the buffer on a ring of 2048 bytes, and the theorems at them.
use gofly_mqttv.Base.{
  ℕ, ◌+◌, ◌%◌, ◌<◌, length, get_or, ◌≤◌, ◌≡◌, refl, inl, inr, List, [], ◌∷◌, ◌++◌, arith, set,
  bit_and,
}
use gofly_mqttv.Session.AckQueue.{power_of_two64, round_up_power_of_two64}
use gofly_mqttv.Service.Buffer.{
  pos, negsuc, blocked, ok, Buffer, not_power_of_two, too_small, negative_count, empty_buffer,
  new_buffer, write, wait_for_write_space, fill_and_publish, look_for_space, ring_copy, copy_bytes,
  read, read_commit, read_wait, len, consumed, write_commit, span,
}
use gofly_mqttv.Service.Buffer.Copies.{Outside, ring_copy-lays}
use gofly_mqttv.Service.Buffer.Reads.{IsPrefix}
use gofly_mqttv.Service.Buffer.Invariant.{Reach-IsValid}
use gofly_mqttv.Service.Buffer.Fifo.{all_put, all_got, put-is_got_and_unread}
use gofly_mqttv.Service.Buffer.Safety.{
  len-bounds, read_wait-unread, read-unread, write_commit-goes_on, too_long-waits,
}
use gofly_mqttv.Service.Buffer.Views.{Runs, still, more, span-stays, write-goes_on}
use gofly_mqttv.Service.Buffer.World.{
  World, start, write_all, reserve, fill, Reach, fresh, next, IsValid,
}

new_buffer_tests :
    (new_buffer (negsuc 0) ≡ inl negative_count)
    × (new_buffer (pos 1000) ≡ inl (not_power_of_two 1024))
    × (new_buffer (pos 1024) ≡ inl (too_small 2048))
    × (new_buffer (pos 0) ≡ inr (empty_buffer 4096))
unfolding new_buffer power_of_two64 round_up_power_of_two64
new_buffer_tests = (refl, refl, refl, refl)

ring_copy_test : ring_copy 3 (0 ∷ 0 ∷ 0 ∷ 0 ∷ []) (1 ∷ 2 ∷ 3 ∷ []) 2 0 ≡ (3 ∷ 0 ∷ 1 ∷ 2 ∷ [], 3)
unfolding ring_copy copy_bytes
ring_copy_test = refl

abbrev empty_world : World
empty_world = start (empty_buffer 2048)

empty-reached : Reach empty_world
unfolding new_buffer power_of_two64
empty-reached = fresh (pos 2048) (empty_buffer 2048) refl

abbrev three_bytes : List ℕ
three_bytes = 7 ∷ 8 ∷ 9 ∷ []

abbrev full_ring : Buffer
full_ring = record (empty_buffer 2048) {
  buf = set (set (set (empty_buffer 2048).buf 0 7) 1 8) 2 9;
  pseq = 3;
}

abbrev three_world : World
three_world = record { ring = full_ring; room = 3; stream = three_bytes }

three-reached : Reach three_world
unfolding wait_for_write_space fill_and_publish ring_copy copy_bytes
three-reached =
    next empty_world three_world empty-reached
      (write_all three_bytes 3 (empty_buffer 2048) full_ring (0, 3) (inl refl) refl refl)

-- The producer goes on behind the three bytes: it reserves a block and lays down one more byte.
abbrev later_world : World
later_world = record {
  ring = record full_ring { buf = set full_ring.buf (bit_and 3 2047) 5 };
  room = 1027;
  stream = 7 ∷ 8 ∷ 9 ∷ 5 ∷ [];
}

abbrev reserved_world : World
reserved_world = record { ring = full_ring; room = 1027; stream = three_bytes }

later-Runs : Runs three_world later_world
unfolding wait_for_write_space
later-Runs =
    more reserved_world later_world
      (more three_world reserved_world still (reserve 1024 3 1024 full_ring (inl refl) refl))
      (fill 5 (omega arith) refl)

ring_copy-lays_example :
    (ring : List ℕ) × (ring_copy 3 (0 ∷ 0 ∷ 0 ∷ 0 ∷ []) (1 ∷ 2 ∷ 3 ∷ []) 2 0 ≡ (ring, 3))
    × (length ring ≡ 4)
    × ((j : ℕ) → j < 3 → get_or ring ((2 + j) % 4) 0 ≡ get_or (1 ∷ 2 ∷ 3 ∷ []) j 0)
    × ((at : ℕ) → Outside 4 2 3 at → get_or ring at 0 ≡ get_or (0 ∷ 0 ∷ 0 ∷ 0 ∷ []) at 0)
ring_copy-lays_example =
    ring_copy-lays 3 (0 ∷ 0 ∷ 0 ∷ 0 ∷ []) (1 ∷ 2 ∷ 3 ∷ []) 2 0 (omega arith) (omega arith)
      (omega arith)

Reach-IsValid_example : IsValid three_world
Reach-IsValid_example = Reach-IsValid three_world three-reached

put-is_got_and_unread_example :
    all_put three_world three-reached ≡ all_got three_world three-reached ++ three_bytes
put-is_got_and_unread_example = put-is_got_and_unread three_world three-reached

read_wait-unread_example : read_wait (pos 2) full_ring ≡ ok (7 ∷ 8 ∷ [])
read_wait-unread_example = read_wait-unread three_world three-reached 2

read-unread_example :
    (p : List ℕ) × (read 2 full_ring ≡ consumed p full_ring) × IsPrefix three_world 2 p
read-unread_example = read-unread three_world three-reached 2 (omega arith)

len-bounds_example : (len full_ring ≡ 3) × (len full_ring ≤ 2048)
len-bounds_example = len-bounds three_world three-reached

later-reached : Reach later_world
unfolding wait_for_write_space
later-reached =
    next reserved_world later_world
      (next three_world reserved_world three-reached
        (reserve 1024 3 1024 full_ring (inl refl) refl))
      (fill 5 (omega arith) refl)

write_commit-goes_on_example :
    (gate : ℕ) × (write_commit 1 later_world.ring
      ≡ ok (1, record later_world.ring { pseq = 4; gate = gate }))
write_commit-goes_on_example = write_commit-goes_on later_world later-reached 1 (omega arith) refl

too_long-waits_example :
    (wait_for_write_space 3000 full_ring ≡ blocked) × (look_for_space 3000 full_ring ≡ blocked)
too_long-waits_example = too_long-waits three_world three-reached 3000 (omega arith)

span-stays_example : span later_world.ring 2 ≡ span full_ring 2
span-stays_example =
    span-stays three_world later_world three-reached later-Runs refl 2 (omega arith)

write-goes_on_example :
    (b : Buffer) × (read_commit (pos (len full_ring)) full_ring ≡ ok (len full_ring, b))
    × (c : Buffer) × (write three_bytes b ≡ ok (3, c))
write-goes_on_example = write-goes_on three_world three-reached refl three_bytes (omega arith)
