-- ===== src/Message/Tests.antt =====
-- The packets' theorems at concrete inputs.
use gofly_mqttv.Base.{ℕ, ◌+◌, ◌≡◌, refl, inr, true, List, [], ◌∷◌, ◌++◌, arith, length}
use gofly_mqttv.Message.Kind.{puback, valid_type, default_flags}
use gofly_mqttv.Message.Wire.{
  ok, lb_encode, lb_decode, put_uvarint, write_user_property, decode_user_property,
  build_user_property_len,
}
use gofly_mqttv.Message.Wire.Varint.{lb_decode-lb_encode}
use gofly_mqttv.Message.Wire.Prefixed.{Paired, pairs, user_property-round_trip}
use gofly_mqttv.Message.Header.{Header, encode_header, decode_header, header_len}
use gofly_mqttv.Message.Header.RoundTrip.{IsFirst, received, header-round_trip}
use gofly_mqttv.Message.Ack.{Ack, valid_reason, count_properties}
use gofly_mqttv.Message.Ack.RoundTrip.{Sent, IsSendable, IsFresh}
use gofly_mqttv.Message.Ack.Exchange.{decode-encode_to_buf}
use gofly_mqttv.Message.Ack.Panic.{Crash, decode-panics}

lb_decode-lb_encode_example :
    (lb_encode 321 ≡ ok (put_uvarint 321))
    × (lb_decode (put_uvarint 321 ++ (7 ∷ [])) ≡ ok (321, length (put_uvarint 321)))
lb_decode-lb_encode_example = lb_decode-lb_encode 321 (7 ∷ []) (omega arith)

abbrev two_props : List (List ℕ)
two_props = (b'k' ∷ []) ∷ [] ∷ []

two_props-Paired : Paired two_props
two_props-Paired = (omega arith, omega arith, _)

user_property-round_trip_example :
    (write_user_property two_props ≡ ok (pairs two_props))
    × (length (pairs two_props) ≡ build_user_property_len two_props)
    × (decode_user_property (pairs two_props) ≡ ok (two_props, build_user_property_len two_props))
user_property-round_trip_example = user_property-round_trip two_props two_props-Paired

-- A PUBACK before it is built, and the message of its receiver.
abbrev puback_header : Header
puback_header = record {
  remlen = 2;
  mtypeflags = 64 ∷ [];
  packet_id = 0 ∷ 7 ∷ [];
  dbuf = [];
  dirty = true;
}

legal_byte : IsFirst 64
unfolding valid_type default_flags
legal_byte = record { typed = refl; fixed = λ h. refl; leveled = λ h. absurd (omega arith) }

header-round_trip_example :
    (encode_header puback_header ≡ ok (64 ∷ put_uvarint 2))
    × (length (64 ∷ put_uvarint 2) ≡ header_len 2)
    × (decode_header puback_header (64 ∷ put_uvarint 2 ++ (0 ∷ 7 ∷ []))
        ≡ ok (
          received puback_header 64 2 (64 ∷ put_uvarint 2 ++ (0 ∷ 7 ∷ [])),
          1 + length (put_uvarint 2),
        ))
header-round_trip_example =
    header-round_trip puback_header puback_header 64 (0 ∷ 7 ∷ []) refl legal_byte (omega arith)
      (inr (omega arith)) refl (omega arith)

abbrev fresh : Ack
fresh = record {
  header = record puback_header { packet_id = [] };
  reason_code = 0;
  property_len = 0;
  reason_str = [];
  user_property = [];
}

fresh-IsFresh : IsFresh 64 fresh
fresh-IsFresh = record { typed = refl; no_reason = refl; no_props = refl }

abbrev full_ack : Ack
full_ack = record fresh {
  header = puback_header;
  reason_code = 0x80;
  reason_str = b'n' ∷ b'o' ∷ [];
  user_property = two_props;
}

full_ack-IsSendable : IsSendable puback 64 0 7 full_ack
unfolding valid_reason count_properties
full_ack-IsSendable = record {
  changed = refl;
  first_byte = refl;
  legal = legal_byte;
  identifier = refl;
  reason = refl;
  short = omega arith;
  paired = two_props-Paired;
  small = omega arith;
}

decode-encode_to_buf_example : Sent puback full_ack fresh
decode-encode_to_buf_example =
    decode-encode_to_buf puback 64 0 7 full_ack fresh full_ack-IsSendable fresh-IsFresh
      (inr (λ e. cc))

abbrev lonely : Ack
lonely = record full_ack { user_property = [] }

lonely-IsSendable : IsSendable puback 64 0 7 lonely
unfolding valid_reason count_properties
lonely-IsSendable = record {
  changed = refl;
  first_byte = refl;
  legal = legal_byte;
  identifier = refl;
  reason = refl;
  short = omega arith;
  paired = _;
  small = omega arith;
}

decode-panics_example : Crash puback lonely fresh
decode-panics_example =
    decode-panics puback 64 0 7 lonely fresh lonely-IsSendable fresh-IsFresh (λ e. cc) refl
