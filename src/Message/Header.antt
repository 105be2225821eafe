-- ===== src/Message/Header.antt =====
-- broker/core/message/header.go: the fixed header. `encode` into a slice and `String` are left out;
-- `encodeToBuf` is the one that the connections use. On an error the header is dropped.
pub mod RoundTrip
use gofly_mqttv.Base.{
  ℕ, ◌+◌, ◌-◌, ◌*◌, ◌/◌, ◌%◌, ◌^◌, bit_and, bit_or, Bool, true, false, not, List, [], ◌∷◌, ◌++◌,
  ltb, leb, ◌==◌, ◌&&◌, ◌||◌, if◌then◌else◌, length, get_or, set,
}
use gofly_mqttv.Message.Kind.{
  default_flags, valid_type, valid_qos, publish, pingreq, pingresp, disconnect, auth,
}
use gofly_mqttv.Message.Wire.{
  Outcome, panic, failed, ok, ◌>>=◌, Read, invalid_message, out_of_bound, invalid_type, copy_len,
  put_uvarint, put_uint16, Uvarint, value, too_small, overflow, uvarint,
}

abbrev pub max_remaining_length : ℕ
max_remaining_length = 268435455

pub record Header : Type 0 where
  pub remlen : ℕ
  pub mtypeflags : List ℕ
  pub packet_id : List ℕ
  pub dbuf : List ℕ
  pub dirty : Bool

-- The zero value of the struct.
abbrev pub no_header : Header
no_header = record { remlen = 0; mtypeflags = []; packet_id = []; dbuf = []; dirty = false }

-- A missing byte of type and flags is made, as `Type` and `SetType` do.
abbrev pub with_flags : Header → List ℕ → Header
with_flags h (b ∷ []) = h
with_flags h _ = record h { mtypeflags = 0 ∷ []; dirty = true }

abbrev pub touch : Header → Header
touch h = with_flags h h.mtypeflags

-- `Type`, on a header that `touch` has gone over.
abbrev pub kind : Header → ℕ
kind h = get_or h.mtypeflags 0 0 / 16

-- `Flags`, likewise.
abbrev pub flags : Header → ℕ
flags h = bit_and (get_or h.mtypeflags 0 0) 0x0f

-- `SetType`
unfoldable pub set_type : ℕ → Header → Outcome Header
unfolding valid_type default_flags
set_type mtype h =
    if valid_type mtype
    then ok (record (touch h) {
      mtypeflags = bit_or (mtype * 16 % 256) (bit_and (default_flags mtype) 0xf) ∷ [];
    })
    else failed invalid_type

-- `SetRemainingLength`
unfoldable pub set_remaining_length : ℕ → Header → Outcome Header
set_remaining_length remlen h =
    if ltb max_remaining_length remlen
    then failed out_of_bound
    else ok (record h { remlen = remlen; dirty = true })

-- `PacketId`
unfoldable pub packet_id_of : List ℕ → ℕ
packet_id_of (a ∷ b ∷ []) = a * 256 + b
packet_id_of _ = 0

-- `SetPacketId`
unfoldable pub set_packet_id : ℕ → Header → Header
unfolding put_uint16
set_packet_id v h = if v == 0 then h else record h {
  packet_id = put_uint16 v;
  dirty = if length h.packet_id == 2 then h.dirty else true;
}

-- `encodeToBuf`: the bytes that it appends.
unfoldable pub encode_header : Header → Outcome (List ℕ)
unfolding valid_type put_uvarint
encode_header h =
    if ltb max_remaining_length h.remlen
    then failed out_of_bound
    else if valid_type (kind (touch h))
    then ok (get_or (touch h).mtypeflags 0 0 ∷ put_uvarint h.remlen)
    else failed invalid_type

-- The types whose packets may end after the fixed header.
abbrev pub may_be_bare : ℕ → Bool
may_be_bare t = t == pingreq || t == pingresp || t == auth || t == disconnect

-- `decode` once the value of the remaining length is read; `m` bytes held it.
unfoldable pub check_length : Header → List ℕ → ℕ → ℕ → Read Header
check_length h src remlen m =
    let len = remlen % 2 ^ 32 in
    if ltb max_remaining_length len || (not (may_be_bare (kind h)) && remlen == 0)
    then failed invalid_message
    else if ltb (length src - m) len
    then failed invalid_message
    else ok (record h { remlen = len }, 1 + m)

-- An overflow has a negative count: `src[total:]` is evaluated for the types that may be bare.
abbrev pub read_length : Header → List ℕ → Uvarint → Read Header
read_length h src (value remlen m) = check_length h src remlen m
read_length h src too_small = check_length h src 0 0
read_length h src overflow = if may_be_bare (kind h) then panic else failed invalid_message

-- `decode` once the first byte is stored: `mtype` is the type that the message had.
unfoldable pub decode_rest : ℕ → Header → List ℕ → Read Header
unfolding valid_type default_flags valid_qos check_length uvarint
decode_rest mtype h src =
    if not (valid_type (kind h))
    then failed invalid_message
    else if not (mtype == kind h)
    then failed invalid_message
    else if not (kind h == publish) && not (flags h == default_flags (kind h))
    then failed invalid_message
    else if kind h == publish && not (valid_qos (bit_and (flags h / 2) 0x3))
    then failed invalid_message
    else read_length h src (uvarint src)

-- `decode`
unfoldable pub decode_header : Header → List ℕ → Read Header
unfolding decode_rest
decode_header h [] = panic
decode_header h (b ∷ src) =
    decode_rest (kind (touch h)) (record (touch h) { dbuf = b ∷ src; mtypeflags = b ∷ [] }) src

-- `msglen`
unfoldable pub header_len : ℕ → ℕ
header_len remlen =
    1
    + (if leb remlen 127
        then 1
        else if leb remlen 16383
        then 2
        else if leb remlen 2097151
        then 3
        else 4)
