-- ===== src/Session/State.antt =====
-- session/session.go: the state of a session, and what it takes from go-perun, the wallet and the
-- currencies. Logs are left out.
pub mod Peers
pub mod Proposals
pub mod Responses
pub mod Open
pub mod Opens
pub mod Channels
pub mod Closing
pub mod Answers
pub mod Inbox
pub mod Intake
pub mod Starting
pub mod Restoring
pub mod Restored
pub mod Returning
pub mod Owned
pub mod Started
pub mod Toy
mod Tests
use dst_go.Base.{ℕ, String, List, Bool, Option, ℤ}
use dst_go.Perun.Info.{Address, App}
use dst_go.Perun.Notifs.{ChProposalNotif}
use dst_go.Errors.{GoError, text, Fallible}
use dst_go.IdProvider.{IdProviderCache, WalletBackend}
use dst_go.Contracts.{ContractRegistry}
use dst_go.Channel.{PChannel, Channel, Context, Currency}
use dst_go.Session.Timeout.{TimeoutConfig}
use dst_go.Session.ChRegistry.{ChRegistry}

abbrev pub err_session_closed : GoError
err_session_closed = text "action not allowed on a closed session"

-- The fields of `pclient.LedgerChannelProposal` that the node reads.
pub record Proposal : Type 0 where
  pub proposal_id : List ℕ
  pub peers : List Address
  pub assets : List Address
  pub init_bals : List (List ℤ)
  pub app : App
  pub challenge_duration : ℕ

-- `ChProposalResponder`, `ChClient`, `perun.Funder`, the wallet and the currency registry.
pub record Backend : Type 1 where
  pub pc : PChannel
  pub ProposalResponder : Type 0
  pub accept_proposal : ProposalResponder → Context → Fallible (pc.Ctrl)
  pub reject_proposal : ProposalResponder → Context → String → Option GoError
  pub reject_update : pc.Responder → Context → String → Option GoError
  pub close_client : Option GoError
  pub Funder : Type 0
  pub is_asset_registered : Option Address → Funder → Bool
  pub register_asset : Option Address → Option Address → Funder → Funder
  pub wallet : WalletBackend
  pub read_currency : String → Option Currency

-- `chProposalResponderEntry`
pub record ProposalEntry (R : Type 0) : Type 0 where
  pub proposal : Proposal
  pub notif : ChProposalNotif
  pub responder : R
  pub currencies : List Currency

-- `Session`. `calls` is the trace of the calls of the proposal responders: the responder, and the
-- reason of a rejection. `sent`, `locked` and the notifier are as for a channel.
pub record Session (C U R F : Type 0) : Type 0 where
  pub session_id : String
  pub is_open : Bool
  pub timeout_cfg : TimeoutConfig
  pub chain_url : String
  pub id_provider : IdProviderCache
  pub contracts : ContractRegistry
  pub funder : F
  pub chs : ChRegistry (Channel C U)
  pub proposal_notifier : Option ℕ
  pub proposal_notif_cache : List ChProposalNotif
  pub proposal_responders : List (String × ProposalEntry R)
  pub calls : List (R × Option String)
  pub session_locked : Bool
  pub proposals_sent : List (ℕ × ChProposalNotif)

abbrev pub SessionOf : Backend → Type 0
SessionOf b = Session (b.pc.Ctrl) (b.pc.Responder) (b.ProposalResponder) (b.Funder)
