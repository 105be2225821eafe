-- ===== src/Message/Kind.antt =====
-- broker/core/message/message.go: the control packet types and the checks on a packet's parts.
-- `MessageType` is a byte.
use gofly_mqttv.Base.{
  ℕ, Bool, false, not, ◌&&◌, ◌||◌, List, [], ◌∷◌, ltb, ◌==◌, if◌then◌else◌, length,
}

abbrev pub reserved : ℕ
reserved = 0

abbrev pub connect : ℕ
connect = 1

abbrev pub connack : ℕ
connack = 2

abbrev pub publish : ℕ
publish = 3

abbrev pub puback : ℕ
puback = 4

abbrev pub pubrec : ℕ
pubrec = 5

abbrev pub pubrel : ℕ
pubrel = 6

abbrev pub pubcomp : ℕ
pubcomp = 7

abbrev pub subscribe : ℕ
subscribe = 8

abbrev pub suback : ℕ
suback = 9

abbrev pub unsubscribe : ℕ
unsubscribe = 10

abbrev pub unsuback : ℕ
unsuback = 11

abbrev pub pingreq : ℕ
pingreq = 12

abbrev pub pingresp : ℕ
pingresp = 13

abbrev pub disconnect : ℕ
disconnect = 14

abbrev pub auth : ℕ
auth = 15

abbrev pub reserved2 : ℕ
reserved2 = 16

-- `MessageType.DefaultFlags`
unfoldable pub default_flags : ℕ → ℕ
default_flags t = if t == pubrel || t == subscribe || t == unsubscribe then 2 else 0

-- `MessageType.Valid`
unfoldable pub valid_type : ℕ → Bool
valid_type t = ltb reserved t && ltb t reserved2

abbrev pub qos_failure : ℕ
qos_failure = 0x80

-- `ValidQos`
unfoldable pub valid_qos : ℕ → Bool
valid_qos qos = qos == 0 || qos == 1 || qos == 2

-- `bytes.IndexByte(xs, c) != -1`
abbrev pub has_byte : ℕ → List ℕ → Bool
has_byte c [] = false
has_byte c (x ∷ xs) = (x == c) || has_byte c xs

-- `ValidTopic`
unfoldable pub valid_topic : List ℕ → Bool
valid_topic topic = ltb 0 (length topic) && not (has_byte b'#' topic) && not (has_byte b'+' topic)
