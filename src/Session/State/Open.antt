-- ===== src/Session/State/Open.antt =====
-- session/session.go: `OpenCh`.
use dst_go.Base.{
  ℕ, String, List, [], ◌∷◌, Option, none, some, Exec, done, panic, ◌>>=◌, if◌then◌else◌,
  duration_string,
}
use dst_go.Perun.Info.{Address, PeerId, App, BalInfo, ChInfo, no_ch_info}
use dst_go.Errors.{with_message, ApiError, Fallible, ok, fail, ApiResult, returned, refused}
use dst_go.Errors.Api.{new_api_err_failed_pre_condition, new_api_err_unknown_internal}
use dst_go.IdProvider.{read_by_alias}
use dst_go.Contracts.{asset_of}
use dst_go.Channel.{Currency, Context, with_timeout}
use dst_go.Channel.Info.{new_ch, get_ch_info}
use dst_go.Session.Timeout.{propose_ch}
use dst_go.Session.Opening.{
  sanitize_bal_info, retrieve_part_ids, register_parts, make_off_chain_addrs,
  handle_propose_ch_error,
}
use dst_go.Session.Opening.Allocations.{Allocation, make_allocation}
use dst_go.Session.State.{Backend, SessionOf, err_session_closed}
use dst_go.Session.State.Responses.{update_assets_in_funder, add_ch}

-- The currencies, when none of them is nil: the look-up of the symbol of one that is nil panics.
unfoldable pub all_present : List (Option Currency) → Exec (List Currency)
all_present [] = done []
all_present (none ∷ cs) = panic
all_present (some c ∷ cs) = all_present cs >>= λ rest. done (c ∷ rest)

-- What `OpenCh` takes from go-perun: making a proposal, with a random nonce, and proposing the
-- channel. `register_peers` is what registering the participants does to the client.
pub record Proposer (b : Backend) : Type 1 where
  pub LedgerProposal : Type 0
  pub make_proposal : ℕ → Allocation → List Address → App → Fallible LedgerProposal
  pub propose_channel : List (Address × String) → Context → LedgerProposal → Fallible (b.pc.Ctrl)

module _ (b : Backend) (client : Proposer b) where
  open client use {LedgerProposal, make_proposal, propose_channel}

  -- What opening returns: the session after it, the info of the channel, and the error.
  abbrev pub Opened : Type 0
  Opened = SessionOf b × ChInfo × Option ApiError

  unfoldable pub proposed :
      SessionOf b → List String → List Currency → ℕ → Fallible (b.pc.Ctrl) → Exec Opened
  proposed s parts currencies challenge_dur_secs (fail e) = do
    api_err ←
        handle_propose_ch_error s.chain_url (duration_string s.timeout_cfg.on_chain_tx)
          (duration_string s.timeout_cfg.response) parts (with_message e "proposing channel")
    done (s, no_ch_info, some api_err)
  proposed s parts currencies challenge_dur_secs (ok pch) = do
    let ch = new_ch b.pc pch s.chain_url currencies parts s.timeout_cfg challenge_dur_secs
    s' ← add_ch b ch s
    info ← get_ch_info b.pc ch
    done (s', info, none)

  -- The part of `OpenCh` behind the allocation, for participants that are known.
  unfoldable pub propose :
      Context
      → SessionOf b
      → BalInfo
      → App
      → ℕ
      → List PeerId
      → List (Option Currency)
      → Allocation
      → Exec Opened
  unfolding proposed all_present
  propose pctx s bal_info app challenge_dur_secs parts currencies allocation = do
    cs ← all_present currencies
    f ← update_assets_in_funder b cs s.contracts s.funder
    let s' = record s { funder = f }
    elim (make_proposal challenge_dur_secs allocation (make_off_chain_addrs parts) app) [
      | fail e ↦ done (
        s',
        no_ch_info,
        some (new_api_err_unknown_internal (with_message e "constructing channel proposal")),
      )
      | ok proposal ↦ proposed s' bal_info.parts cs challenge_dur_secs (
          propose_channel (register_parts parts)
            (with_timeout pctx (propose_ch s.timeout_cfg challenge_dur_secs)) proposal)
    ]

  unfoldable pub open_for :
      Context → SessionOf b → BalInfo → App → ℕ → ApiResult (List PeerId) → Exec Opened
  unfolding propose
  open_for pctx s bal_info app challenge_dur_secs (refused e) = done (s, no_ch_info, some e)
  open_for pctx s bal_info app challenge_dur_secs (returned parts) =
      make_allocation (asset_of s.contracts) b.read_currency bal_info >>= λ made. elim made [
        | refused e ↦ done (s, no_ch_info, some e)
        | returned (currencies, allocation) ↦
            propose pctx s bal_info app challenge_dur_secs parts currencies allocation
      ]

  -- `OpenCh`
  unfoldable pub open_channel : Context → BalInfo → App → ℕ → SessionOf b → Exec Opened
  unfolding open_for
  open_channel pctx opening app challenge_dur_secs s =
      if s.is_open
      then (sanitize_bal_info opening >>= λ bal_info.
          open_for pctx s bal_info app challenge_dur_secs
            (retrieve_part_ids bal_info.parts (read_by_alias s.id_provider)))
      else done (s, no_ch_info, some (new_api_err_failed_pre_condition err_session_closed))
