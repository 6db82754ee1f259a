-- ===== src/Connection/Sender.antt =====
-- What the tests of a message's addresses in the workflows (lib/command/command-workflow.js,
-- lib/mission/mission-state-machine.js and lib/param/param-workflow.js) let through.
use node_red_contrib_mavlink.Common.{ℕ, ◌≡◌, ◌⊎◌, false, Option, none, some, arith}
use node_red_contrib_mavlink.Connection.{names_other, other_component}

-- A component that may answer for `target`, where 0 is all and an unreadable one passes.
abbrev pub AnswersFor : ℕ → Option ℕ → Type 0
AnswersFor target none = Unit
AnswersFor target (some comp) = (target ≡ 0) ⊎ (comp ≡ target)

-- An address that does not name another station than our own, where 0 is all.
abbrev pub Addresses : Option ℕ → Option ℕ → Type 0
Addresses none field = Unit
Addresses (some own) none = Unit
Addresses (some own) (some t) = (t ≡ 0) ⊎ (t ≡ own)

pub answers :
    (target : ℕ) (comp : Option ℕ) → other_component target comp ≡ false → AnswersFor target comp
answers target none h = tt
answers target (some comp) h = ground (arith, h)

pub addresses : (own field : Option ℕ) → names_other own field ≡ false → Addresses own field
addresses none field h = tt
addresses (some own) none h = tt
addresses (some own) (some t) h = ground (arith, h)
