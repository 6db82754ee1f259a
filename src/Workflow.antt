-- ===== src/Workflow.antt =====
-- The base that lib/mission/mission-state-machine.js (MissionWorkflow) and lib/param/param-workflow.js
-- (ParamWorkflow) both have: one promise, one timer, a retry counter, subscriptions, and sends. It is
-- over the states (`St`), the answers (`An`), the retransmissions (`Act`), the continuations of a
-- send (`Cont`) and the messages. A send is a promise: `pending` lists what follows the sends that
-- have not ended, and an event ends any of them.
use node_red_contrib_mavlink.Common.{
  ℕ, zero, suc, Bool, true, false, Option, none, some, List, [], ◌∷◌, ◌++◌, leb, if◌then◌else◌,
}
use node_red_contrib_mavlink.Connection.{unsubscribe}

-- The fields, and of the connection the subscription ids.
pub record Workflow (St An Act Cont Msg : Type 0) : Type 0 where
  pub state : St
  pub subs : List ℕ
  pub timer : Option Act
  pub retries : ℕ
  pub settled : Bool
  pub answers : List An
  pub sent : List Msg
  pub pending : List Cont
  pub link_subs : List ℕ
  pub next_sub : ℕ

abbrev pub take_out : {Cont : Type 0} → Cont → Option (Cont × List Cont) → Option (Cont × List Cont)
take_out k none = none
take_out k (some (j, ks)) = some (j, k ∷ ks)

-- The send at an index, and the others.
abbrev pub take_send : {Cont : Type 0} → ℕ → List Cont → Option (Cont × List Cont)
take_send n [] = none
take_send zero (k ∷ ks) = some (k, ks)
take_send (suc n) (k ∷ ks) = take_out k (take_send n ks)

module _ {St An Act Cont Msg : Type 0} where
  abbrev pub new : St → List ℕ → ℕ → Workflow St An Act Cont Msg
  new idle link_subs next_sub = record {
    state = idle;
    subs = [];
    timer = none;
    retries = 0;
    settled = false;
    answers = [];
    sent = [];
    pending = [];
    link_subs = link_subs;
    next_sub = next_sub;
  }

  abbrev pub cleanup : Workflow St An Act Cont Msg → Workflow St An Act Cont Msg
  cleanup b = record b { timer = none; link_subs = unsubscribe b.subs b.link_subs; subs = [] }

  -- What `_complete` and `_fail` do behind their guard.
  abbrev pub close : St → An → Workflow St An Act Cont Msg → Workflow St An Act Cont Msg
  close state a b = cleanup (record b { settled = true; state = state; answers = a ∷ b.answers })

  -- `_complete` and `_fail`
  unfoldable pub finish : St → An → Workflow St An Act Cont Msg → Workflow St An Act Cont Msg
  finish state a b = if b.settled then b else close state a b

  abbrev pub subscribe : Workflow St An Act Cont Msg → Workflow St An Act Cont Msg
  subscribe b = record b {
    subs = b.next_sub ∷ b.subs;
    link_subs = b.next_sub ∷ b.link_subs;
    next_sub = suc b.next_sub;
  }

  -- `_send`, with what follows its promise.
  abbrev pub send : Msg → Cont → Workflow St An Act Cont Msg → Workflow St An Act Cont Msg
  send m k b = record b { sent = m ∷ b.sent; pending = b.pending ++ (k ∷ []) }

  -- Nothing tests here whether the workflow is settled.
  abbrev pub arm_timeout : Act → Workflow St An Act Cont Msg → Workflow St An Act Cont Msg
  arm_timeout act b = record b { timer = some act }

  abbrev pub clear_timeout : Workflow St An Act Cont Msg → Workflow St An Act Cont Msg
  clear_timeout b = record b { timer = none }

  -- The callback of the timer, up to the retransmission that it calls; `give_up` fails.
  abbrev pub fire_or :
      (Workflow St An Act Cont Msg → Workflow St An Act Cont Msg)
      → ℕ
      → Option Act
      → Workflow St An Act Cont Msg
      → Option Act × Workflow St An Act Cont Msg
  fire_or give_up max_retries none b = (none, b)
  fire_or give_up max_retries (some act) b =
      if b.settled
      then (none, b)
      else (if leb max_retries b.retries
          then (none, give_up b)
          else (some act, record b { retries = suc b.retries }))

  -- The end of a send, and what follows if it went through; `lost` fails.
  abbrev pub follow_or :
      (Workflow St An Act Cont Msg → Workflow St An Act Cont Msg)
      → Bool
      → Option (Cont × List Cont)
      → Workflow St An Act Cont Msg
      → Option Cont × Workflow St An Act Cont Msg
  follow_or lost sent_ok none b = (none, b)
  follow_or lost true (some (k, ks)) b = (some k, record b { pending = ks })
  follow_or lost false (some (k, ks)) b = (none, lost (record b { pending = ks }))
