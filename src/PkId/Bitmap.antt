-- ===== src/PkId/Bitmap.antt =====
-- util/pkid/bitmap.go. `offset>>3` and `offset&0x07` are the byte and the bit of an offset.
pub mod Laws
use gofly_mqttv.Base.{
  ℕ, ◌+◌, ◌-◌, ◌/◌, ◌%◌, ◌^◌, Bool, true, false, ◌||◌, List, ltb, leb, ◌==◌, if◌then◌else◌, get_or,
  set, replicate, bit_and,
}
use gofly_mqttv.Base.Bits.{bit_at, bit_on, bit_off}

-- `Bitmap`: `vals` is a slice of bytes.
pub record Bitmap : Type 0 where
  pub vals : List ℕ
  pub size : ℕ

abbrev pub max_size : ℕ
max_size = 65535

-- The size that `NewBitmap` settles on; `size += 8 - remainder` is `uint16` arithmetic.
unfoldable pub rounded_size : ℕ → ℕ
rounded_size size =
    if size == 0 || leb max_size size
    then max_size
    else if size % 8 == 0
    then size
    else (size + (8 - size % 8)) % 2 ^ 16

unfoldable pub new_bitmap : ℕ → Bitmap
unfolding rounded_size
new_bitmap size = let s = rounded_size size in record { vals = replicate (s / 8 + 1) 0; size = s }

-- `vals[index] &^= 1 << pos` or `vals[index] |= 1 << pos`.
unfoldable pub write_bit : ℕ → ℕ → ℕ → ℕ
write_bit byte pos value = if value == 0 then bit_off byte pos else bit_on byte pos

-- `Set`: the new bitmap and the result. A write past `vals` would panic; `Laws.IsValid` rules it
-- out.
unfoldable pub set_bit : Bitmap → ℕ → ℕ → Bitmap × Bool
set_bit b offset value =
    if ltb b.size offset
    then (b, false)
    else (record b { vals = set b.vals index (write_bit (get_or b.vals index 0) pos value) }, true)
  where
    index : ℕ
    index = offset / 8

    pos : ℕ
    pos = bit_and offset 7

-- `Get`
unfoldable pub get_bit : Bitmap → ℕ → ℕ
get_bit b offset =
    if ltb b.size offset then 0 else bit_at (get_or b.vals (offset / 8) 0) (bit_and offset 7)
