-- ===== src/Connection.antt =====
-- What the workflows (lib/command/command-workflow.js and lib/mission/mission-state-machine.js) share
-- of the connection: the ids of its subscriptions, and the tests of a message's addresses.
pub mod Sender
use node_red_contrib_mavlink.Common.{
  ℕ, Bool, false, not, ◌&&◌, Option, none, some, List, [], ◌∷◌, ◌==◌, if◌then◌else◌,
}

-- `connection.unsubscribe` for each id.
abbrev pub unsubscribe_one : ℕ → List ℕ → List ℕ
unsubscribe_one i [] = []
unsubscribe_one i (j ∷ js) = if j == i then js else j ∷ unsubscribe_one i js

abbrev pub unsubscribe : List ℕ → List ℕ → List ℕ
unsubscribe [] all = all
unsubscribe (i ∷ is) all = unsubscribe is (unsubscribe_one i all)

-- An id field that names another ground station; 0 is the broadcast.
abbrev pub names_other : Option ℕ → Option ℕ → Bool
names_other none field = false
names_other (some own) none = false
names_other (some own) (some t) = not (t == 0) && not (t == own)

abbrev pub other_component : ℕ → Option ℕ → Bool
other_component target none = false
other_component target (some comp) = not (target == 0) && not (comp == target)
