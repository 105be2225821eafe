-- ===== src/Session/AckMsg.antt =====
-- broker/core/session/ackqueue.go and the types of broker/impl/session/mem_ackqueue.go: the messages
-- of the queue, what it uses of a packet, and its index of packet identifiers.
use gofly_mqttv.Base.{ℕ, Bool, Option, none, some, List, [], ◌∷◌, ◌==◌, if◌then◌else◌}

-- The Go type of a message, as far as `Wait` looks at it.
pub data Class : Type 0 where
  publish subscribe unsubscribe pingreq other : Class

-- What the queue uses of a `message.Message`: `encoded` is a buffer of `Len` bytes after `Encode` wrote
-- to it, and `encode_fails` whether that returned an error.
pub record Msg : Type 0 where
  pub class : Class
  pub mtype : ℕ
  pub qos : ℕ
  pub dup : Bool
  pub packet_id : ℕ
  pub encoded : List ℕ
  pub encode_fails : Bool

-- `Ackmsg`; a callback is a number, 0 for nil.
pub record Ackmsg : Type 0 where
  pub mtype : ℕ
  pub state : ℕ
  pub pktid : ℕ
  pub msgbuf : List ℕ
  pub ackbuf : List ℕ
  pub on_complete : ℕ

-- `Ackmsg{}`
abbrev pub no_msg : Ackmsg
no_msg = record { mtype = 0; state = 0; pktid = 0; msgbuf = []; ackbuf = []; on_complete = 0 }

-- `map[uint16]int64`
abbrev pub Index : Type 0
Index = List (ℕ × ℕ)

unfoldable pub lookup : ℕ → Index → Option ℕ
lookup id [] = none
lookup id ((k, v) ∷ m) = if k == id then some v else lookup id m

unfoldable pub delete : ℕ → Index → Index
delete id [] = []
delete id ((k, v) ∷ m) = let rest = delete id m in if k == id then rest else (k, v) ∷ rest

abbrev pub put : ℕ → ℕ → Index → Index
put id v m = (id, v) ∷ delete id m

-- The errors of a method.
pub data Error : Type 0 where
  wait_message ack_message encode_failed duplicate_id duplicate_dup queue_empty : Error
