-- ===== src/Message/Ack/Fields.antt =====
-- The setters of `PubackMessage`.
use gofly_mqttv.Base.{ℕ, true, List, [], ◌∷◌, ◌++◌}
use gofly_mqttv.Message.Header.{Header}
use gofly_mqttv.Message.Ack.{Ack}

abbrev pub touched : Header → Header
touched h = record h { dirty = true }

unfoldable pub set_reason_code : ℕ → Ack → Ack
set_reason_code code m = record m { reason_code = code; header = touched m.header }

unfoldable pub set_property_len : ℕ → Ack → Ack
set_property_len len m = record m { property_len = len; header = touched m.header }

unfoldable pub set_reason_str : List ℕ → Ack → Ack
set_reason_str s m = record m { reason_str = s; header = touched m.header }

unfoldable pub set_user_properties : List (List ℕ) → Ack → Ack
set_user_properties props m = record m { user_property = props; header = touched m.header }

unfoldable pub add_user_propertys : List (List ℕ) → Ack → Ack
add_user_propertys props m = record m {
  user_property = m.user_property ++ props;
  header = touched m.header;
}

unfoldable pub add_user_property : List ℕ → Ack → Ack
add_user_property prop m = record m {
  user_property = m.user_property ++ prop ∷ [];
  header = touched m.header;
}
