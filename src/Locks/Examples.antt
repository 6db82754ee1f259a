-- ===== src/Locks/Examples.antt =====
-- lib/runtime/lock-manager.js at concrete inputs.
use node_red_contrib_mavlink.Common.{ℕ, ◌≡◌, refl, true, false, none, some, [], ◌∷◌, nat_eq}
use node_red_contrib_mavlink.JsMap.{get, has, delete}
use node_red_contrib_mavlink.Locks.{LockTable, named, acquire, release}

abbrev one_held : LockTable ℕ
one_held = (4, named 9) ∷ []

held_by_other : acquire 4 (some 8) one_held ≡ none
unfolding acquire has
held_by_other = refl

release_by_other : release 4 (some 8) one_held ≡ (false, one_held)
unfolding release get has
release_by_other = refl

release_by_owner : release 4 (some 9) one_held ≡ (true, [])
unfolding release get has delete
release_by_owner = refl
