-- ===== src/Collection/SafeMap/Tests.antt =====
-- A run over both maps, and the theorem at it.
use gofly_mqttv.Base.{ℕ, ◌≡◌, refl, some, List, [], ◌∷◌}
use gofly_mqttv.Collection.Entries.{lookup, delete, put, copy_into, nat_key}
use gofly_mqttv.Collection.SafeMap.{
  SafeMap, new_safe_map, size, get, remove, give_up_old, give_up_new, del, set,
}
use gofly_mqttv.Collection.SafeMap.Refine.{
  Call, set_call, get_or_set_call, del_call, dels_call, run, spec_run, get-run,
}

abbrev calls : List (Call ℕ ℕ)
calls =
    set_call 1 10
    ∷ set_call 2 20
    ∷ get_or_set_call 1 11
    ∷ del_call 2
    ∷ dels_call (3 ∷ [])
    ∷ set_call 3 30
    ∷ []

-- The old map had 10,001 deletions and one entry is left: a new key goes to the new map, and the next
-- deletion gives the old map up.
abbrev worn : SafeMap ℕ ℕ
worn = record { deletion_old = 10001; deletion_new = 0; dirty_old = (1, 10) ∷ []; dirty_new = [] }

worn_test : (del 3 (set 2 20 worn)).0 ≡ record {
  deletion_old = 0;
  deletion_new = 0;
  dirty_old = (1, 10) ∷ (2, 20) ∷ [];
  dirty_new = [];
}
unfolding set del remove give_up_old give_up_new lookup delete put copy_into
worn_test = refl

size_test : size (set 2 20 worn) ≡ 2
unfolding size set lookup put delete
size_test = refl

get-run_example : get 1 (run calls new_safe_map) ≡ some 10
unfolding spec_run
get-run_example = get-run calls 1
