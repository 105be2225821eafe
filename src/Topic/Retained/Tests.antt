-- ===== src/Topic/Retained/Tests.antt =====
-- A run of `rremove`.
use gofly_mqttv.Base.{none, some, [], ◌∷◌, ◌≡◌, refl}
use gofly_mqttv.Topic.Level.{last, more}
use gofly_mqttv.Topic.Retained.{RNode, rnode, rnil, rcons, new_rnode, rremove}

-- With messages at "a" and "a/b", clearing that of "a/b" loses that of "a".
abbrev two_messages : RNode
two_messages =
    rnode none
      (rcons (b'a' ∷ []) (rnode (some 1) (rcons (b'b' ∷ []) (rnode (some 2) rnil) rnil)) rnil)

parent_lost : (rremove (more (b'a' ∷ []) (last (b'b' ∷ []))) two_messages).0 ≡ new_rnode
unfolding rremove
parent_lost = refl
