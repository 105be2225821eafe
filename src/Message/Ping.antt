-- ===== src/Message/Ping.antt =====
-- broker/core/message/pingreq.go and pingresp.go, whose messages are a fixed header alone. `Encode` into
-- a slice is left out.
use gofly_mqttv.Base.{ℕ, List, if◌then◌else◌}
use gofly_mqttv.Message.Kind.{pingreq, pingresp}
use gofly_mqttv.Message.Wire.{Outcome, ok, Read}
use gofly_mqttv.Message.Header.{Header, no_header, set_type, encode_header, decode_header}

-- `NewPingreqMessage`
unfoldable pub new_pingreq : Outcome Header
unfolding set_type
new_pingreq = set_type pingreq no_header

-- `NewPingrespMessage`
unfoldable pub new_pingresp : Outcome Header
unfolding set_type
new_pingresp = set_type pingresp no_header

-- `Decode` of each
unfoldable pub decode_pingreq : Header → List ℕ → Read Header
unfolding decode_header
decode_pingreq h src = decode_header h src

unfoldable pub decode_pingresp : Header → List ℕ → Read Header
unfolding decode_header
decode_pingresp h src = decode_header h src

-- `EncodeToBuf` of each: the bytes that it appends
unfoldable pub encode_pingreq : Header → Outcome (List ℕ)
unfolding encode_header
encode_pingreq h = if h.dirty then encode_header h else ok h.dbuf

unfoldable pub encode_pingresp : Header → Outcome (List ℕ)
unfolding encode_header
encode_pingresp h = if h.dirty then encode_header h else ok h.dbuf
