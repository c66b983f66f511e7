-- ===== src/Channel.antt =====
-- session/channel.go: the types of a channel, and what it takes from go-perun. The state channel
-- controller and the responders of go-perun are a parameter: a record of their methods.
pub mod Info
pub mod Life
pub mod Updates
pub mod Closing
pub mod Balances
pub mod Rules
pub mod Delivery
pub mod Invariant
pub mod Steps
pub mod Responses
pub mod Settling
pub mod Toy
mod Tests
use dst_go.Base.{ℕ, String, List, [], Bool, Option, ℤ, Duration, Exec, ◌∷◌}
use dst_go.Perun.Info.{Address, App}
use dst_go.Perun.Notifs.{ChUpdateNotif}
use dst_go.Errors.{GoError, Fallible}
use dst_go.Session.Timeout.{TimeoutConfig}

-- The fields of `pchannel.State` that the node reads or writes.
pub record State : Type 0 where
  pub id : List ℕ
  pub version : ℕ
  pub app : App
  pub assets : List Address
  pub balances : List (List ℤ)
  pub is_final : Bool

-- `pchannel.Phase`, as far as the node tells the phases apart.
pub data Phase : Type 0 where
  acting withdrawn other_phase : Phase

-- A context is the chain of timeouts that were put on it, the last one first.
abbrev pub Context : Type 0
Context = List Duration

abbrev pub background : Context
background = []

abbrev pub with_timeout : Context → Duration → Context
with_timeout ctx d = d ∷ ctx

-- `perun.Currency`
pub record Currency : Type 0 where
  pub symbol : String
  pub parse : String → Fallible ℤ
  pub print : ℤ → String

-- `PChannel` and `ChUpdateResponder`. A call may change the state of the controller, also one on a
-- responder: to accept an update makes the proposed state the current one. `watch_returns` tells
-- whether `Watch` returns, in its goroutine, once the controller has come to a state.
pub record PChannel : Type 1 where
  pub Ctrl : Type 0
  pub Responder : Type 0
  pub pch_id : Ctrl → List ℕ
  pub pch_idx : Ctrl → ℕ
  pub pch_phase : Ctrl → Phase
  pub pch_state : Ctrl → State
  pub update_by : Context → (State → Exec State) → Ctrl → Exec (Ctrl × Option GoError)
  pub pch_register : Context → Ctrl → Ctrl × Option GoError
  pub pch_settle : Context → Bool → Ctrl → Ctrl × Option GoError
  pub pch_close : Ctrl → Ctrl × Option GoError
  pub watch_returns : Ctrl → Bool
  pub accept : Responder → Context → Ctrl → Ctrl × Option GoError
  pub reject : Responder → Context → String → Ctrl → Ctrl × Option GoError

pub data ChStatus : Type 0 where
  open_ch closed_ch : ChStatus

pub record ChUpdateResponderEntry (R : Type 0) : Type 0 where
  pub notif : ChUpdateNotif
  pub responder : R
  pub notif_expiry : ℕ

-- `params`: what does not change after a channel is initialised.
pub record Params : Type 0 where
  pub id : String
  pub currencies : List Currency
  pub symbols : List (String × ℕ)
  pub parts : List String
  pub timeout_cfg : TimeoutConfig
  pub challenge_dur_secs : ℕ
  pub chain_url : String

-- A subscriber's notifier function is known by a number. `sent` is the trace of the calls of
-- notifiers, in the order in which they are made or spawned. `locked` is the mutex.
pub record Channel (C R : Type 0) : Type 0 where
  pub params : Params
  pub open params use *
  pub pch : C
  pub status : ChStatus
  pub was_close_initiated : Bool
  pub notifier : Option ℕ
  pub notif_cache : List ChUpdateNotif
  pub responders : List (String × ChUpdateResponderEntry R)
  pub locked : Bool
  pub sent : List (ℕ × ChUpdateNotif)
