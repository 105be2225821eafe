-- ===== src/Message/Ack.antt =====
-- broker/core/message/puback.go and pubrec.go, pubrel.go, pubcomp.go, whose messages embed a
-- `PubackMessage`: the four acknowledgements of PUBLISH. Getters and `String` are left out; `Fields` has the setters.
-- `EncodeToBuf` is modelled, which the connections use, and not `Encode` into a slice.
pub mod Fields
pub mod Reading
pub mod RoundTrip
pub mod Exchange
pub mod Panic
use gofly_mqttv.Base.{
  ℕ, suc, ◌+◌, ◌*◌, ◌/◌, ◌%◌, ◌^◌, Bool, true, false, not, List, [], ◌∷◌, ◌++◌, ltb, leb, ◌==◌,
  ◌&&◌, ◌||◌, if◌then◌else◌, length, take, drop,
}
use gofly_mqttv.Message.Kind.{puback, pubrec, pubrel, pubcomp}
use gofly_mqttv.Message.Reason.{
  success, reason_string, valid_puback_reason, valid_pubrec_reason, valid_pubrel_reason,
  valid_pubcomp_reason,
}
use gofly_mqttv.Message.Wire.{
  Outcome, panic, failed, ok, ◌>>=◌, Read, protocol_error, copy_len, lb_encode, lb_decode, write_lp,
  read_lp, decode_user_property, write_user_property, build_user_property_len,
}
use gofly_mqttv.Message.Header.{
  Header, no_header, set_type, set_remaining_length, encode_header, decode_header, header_len,
}

-- `PubackMessage`
pub record Ack : Type 0 where
  pub header : Header
  pub reason_code : ℕ
  pub property_len : ℕ
  pub reason_str : List ℕ
  pub user_property : List (List ℕ)

-- `NewPubackMessage` and its like, by the packet type; `SetType` does not fail on it.
unfoldable pub new_ack : ℕ → Outcome Ack
unfolding set_type
new_ack mtype = set_type mtype no_header >>= λ h.
    ok (record {
      header = h;
      reason_code = 0;
      property_len = 0;
      reason_str = [];
      user_property = [];
    })

-- The reason codes that `decodeOther` of each message lets through.
unfoldable pub valid_reason : ℕ → ℕ → Bool
unfolding valid_puback_reason valid_pubrec_reason valid_pubrel_reason valid_pubcomp_reason
valid_reason mtype code =
    if mtype == pubrec
    then valid_pubrec_reason code
    else if mtype == pubrel
    then valid_pubrel_reason code
    else if mtype == pubcomp
    then valid_pubcomp_reason code
    else valid_puback_reason code

-- What `build` counts as properties.
unfoldable pub count_properties : Ack → ℕ
unfolding build_user_property_len
count_properties m =
    (if ltb 0 (length m.reason_str) then 1 + 2 + length m.reason_str else 0)
    + build_user_property_len m.user_property

-- `build`: an error of `SetRemainingLength` is ignored there.
abbrev pub or_same : Header → Outcome Header → Header
or_same h (ok h') = h'
or_same h _ = h

abbrev pub with_length : Ack → ℕ → Ack
unfolding set_remaining_length
with_length m n = record m {
  header = or_same m.header (set_remaining_length (n % 2 ^ 32) m.header);
}

unfoldable pub build : Ack → Outcome Ack
unfolding lb_encode set_remaining_length build_user_property_len
build m =
    let m' = record m { property_len = count_properties m % 2 ^ 32 } in
    if m'.property_len == 0 && m.reason_code == success
    then ok (with_length m' 2)
    else if m'.property_len == 0 && not (m.reason_code == success)
    then ok (with_length m' (2 + 1))
    else lb_encode m'.property_len >>= λ b. ok (with_length m' (2 + 1 + m'.property_len + length b))

-- The reason string of `EncodeToBuf`.
abbrev pub write_reason : List ℕ → Outcome (List ℕ)
unfolding write_lp
write_reason [] = ok []
write_reason (c ∷ s) = write_lp (c ∷ s) >>= λ b. ok (reason_string ∷ b)

abbrev pub write_properties : Ack → Outcome (List ℕ)
unfolding write_lp write_user_property lb_encode
write_properties m = lb_encode m.property_len >>= λ n. write_reason m.reason_str >>= λ s.
    write_user_property m.user_property >>= λ u. ok (n ++ (s ++ u))

abbrev pub write_id : List ℕ → List ℕ
write_id id = if length id == 2 then id else 0 ∷ 0 ∷ []

-- `EncodeToBuf` after the packet identifier.
unfoldable pub encode_other : Ack → Outcome (List ℕ)
unfolding write_lp write_user_property lb_encode
encode_other m =
    if m.header.remlen == 2 && m.reason_code == success
    then ok []
    else if ltb 0 m.property_len
    then (write_properties m >>= λ b. ok (m.reason_code ∷ b))
    else ok (m.reason_code ∷ [])

-- `EncodeToBuf` of a changed message, whose lengths `build` has set.
unfoldable pub encode_built : Ack → Outcome (List ℕ)
unfolding encode_header encode_other
encode_built m = set_remaining_length m.header.remlen m.header >>= λ h. encode_header h >>= λ b.
    encode_other (record m { header = h }) >>= λ r. ok (b ++ (write_id m.header.packet_id ++ r))

-- `EncodeToBuf`: the bytes that it appends.
unfoldable pub encode_to_buf : Ack → Outcome (List ℕ)
unfolding build encode_built
encode_to_buf m = if m.header.dirty then build m >>= encode_built else ok m.header.dbuf

-- The user properties, at the end of `decodeOther`.
abbrev pub finish : Ack → ℕ → List ℕ → Read Ack
unfolding decode_user_property
finish m total src = decode_user_property src >>= λ u.
    ok (record m { user_property = u.0; header = record m.header { dirty = false } }, total + u.1)

-- `src[total] == ReasonString`, where the reason string has been read.
abbrev pub after_reason : Ack → ℕ → List ℕ → Read Ack
unfolding decode_user_property
after_reason m total [] = panic
after_reason m total (c ∷ src) =
    if c == reason_string then failed protocol_error else finish m total (c ∷ src)

abbrev pub read_reason : Ack → ℕ → List ℕ → Read Ack
unfolding decode_user_property read_lp
read_reason m total [] = finish m total []
read_reason m total (c ∷ src) =
    if c == reason_string
    then (read_lp src >>= λ s.
        after_reason (record m { reason_str = s.0 }) (suc total + s.1) (drop s.1 src))
    else finish m total (c ∷ src)

-- `decodeOther`; `src` is what stands behind the first `total` bytes. The length of the properties is
-- read where a byte is left.
unfoldable pub decode_other : ℕ → Ack → ℕ → List ℕ → Read Ack
unfolding decode_user_property read_lp lb_decode valid_reason
decode_other mtype m total [] = panic
decode_other mtype m total (code ∷ src) =
    if not (valid_reason mtype code) then failed protocol_error else elim src [
      | [] ↦ read_reason (record m { reason_code = code }) (suc total) []
      | c ∷ more ↦ lb_decode (c ∷ more) >>= λ n.
          read_reason (record m { reason_code = code; property_len = n.0 }) (suc total + n.1)
            (drop n.1 (c ∷ more))
    ]

-- `Decode` after the fixed header.
unfoldable pub decode_body : ℕ → Ack → ℕ → List ℕ → Read Ack
unfolding decode_other
decode_body mtype m total (a ∷ b ∷ src) =
    let m' = record m { header = record m.header { packet_id = a ∷ b ∷ [] } } in
    if m.header.remlen == 2
    then ok (record m' { reason_code = success }, total + 2)
    else decode_other mtype m' (total + 2) src
decode_body mtype m total _ = panic

-- `Decode`
unfoldable pub decode : ℕ → Ack → List ℕ → Read Ack
unfolding decode_header decode_body
decode mtype m src = decode_header m.header src >>= λ h.
    decode_body mtype (record m { header = h.0 }) h.1 (drop h.1 src)

-- The four types: `New…Message` and `Decode` of each file. A new message of one type is its `header` and
-- an empty rest; PUBREC, PUBREL and PUBCOMP take the rest of `PubackMessage` over.
unfoldable pub new_puback : Outcome Ack
unfolding new_ack
new_puback = new_ack puback

unfoldable pub new_pubrec : Outcome Ack
unfolding new_ack
new_pubrec = new_ack pubrec

unfoldable pub new_pubrel : Outcome Ack
unfolding new_ack
new_pubrel = new_ack pubrel

unfoldable pub new_pubcomp : Outcome Ack
unfolding new_ack
new_pubcomp = new_ack pubcomp

unfoldable pub decode_puback : Ack → List ℕ → Read Ack
unfolding decode
decode_puback m src = decode puback m src

unfoldable pub decode_pubrec : Ack → List ℕ → Read Ack
unfolding decode
decode_pubrec m src = decode pubrec m src

unfoldable pub decode_pubrel : Ack → List ℕ → Read Ack
unfolding decode
decode_pubrel m src = decode pubrel m src

unfoldable pub decode_pubcomp : Ack → List ℕ → Read Ack
unfolding decode
decode_pubcomp m src = decode pubcomp m src
