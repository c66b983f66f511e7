-- ===== src/Session/State/Responses.antt =====
-- session/session.go: `RespondChProposal`, and opening the channel of an accepted proposal.
use dst_go.Base.{
  ℕ, String, List, [], ◌∷◌, ◌++◌, Bool, Option, none, some, Exec, done, blocks, ◌>>=◌, or_panic,
  get_elem?, lookup, erase, ltb, if◌then◌else◌, duration_string,
}
use dst_go.Perun.Info.{ChInfo, no_ch_info}
use dst_go.Errors.{GoError, with_message, ApiError, Fallible, ok, fail}
use dst_go.Errors.Api.{
  new_api_err_failed_pre_condition, new_api_err_resource_not_found,
  new_api_err_user_response_timed_out,
}
use dst_go.Contracts.{ContractRegistry, asset_of, token_of}
use dst_go.Channel.{Currency, Context, with_timeout}
use dst_go.Channel.Info.{new_ch, current_ch_info}
use dst_go.Channel.Updates.{Ch}
use dst_go.Session.Timeout.{resp_ch_proposal_accept}
use dst_go.Session.Failures.{handle_chain_error, handle_funding_timeout_error, or_internal}
use dst_go.Session.ChRegistry.{put}
use dst_go.Session.State.{Backend, SessionOf, ProposalEntry, err_session_closed}
use dst_go.Session.State.Proposals.{reject_ch_proposal}

-- `handleChProposalAcceptError`: the proposer is at index 0 of the participants.
unfoldable pub handle_ch_proposal_accept_error :
    String → String → List String → GoError → Exec ApiError
handle_ch_proposal_accept_error chain_url on_chain_tx parts e =
    elim (handle_chain_error chain_url on_chain_tx e) [
      | some a ↦ done a
      | none ↦ or_panic (get_elem? parts 0) >>= λ peer.
          done (or_internal (handle_funding_timeout_error peer 0 e) e)
    ]

module _ (b : Backend) where
  open b use {pc, ProposalResponder, accept_proposal, Funder, is_asset_registered, register_asset}

  -- `updateAssetsInFunder`
  unfoldable pub update_assets_in_funder : List Currency → ContractRegistry → Funder → Exec Funder
  update_assets_in_funder [] r f = done f
  update_assets_in_funder (c ∷ cs) r f = do
    asset ← asset_of r c.symbol
    token ← token_of r c.symbol
    update_assets_in_funder cs r
        (if is_asset_registered asset f then f else register_asset asset token f)

  -- What responding returns: the session after it, the info of the channel, and the error.
  abbrev pub Response : Type 0
  Response = SessionOf b × ChInfo × Option ApiError

  -- `addCh`, which takes the lock.
  unfoldable pub add_ch : Ch pc → SessionOf b → Exec (SessionOf b)
  add_ch ch s =
      if s.session_locked then blocks else done (record s { chs = put (λ c. c.params.id) s.chs ch })

  unfoldable pub opened :
      ProposalEntry ProposalResponder → SessionOf b → Fallible (pc.Ctrl) → Exec Response
  unfolding add_ch handle_ch_proposal_accept_error
  opened entry s (fail e) = do
    api_err ←
        handle_ch_proposal_accept_error s.chain_url (duration_string s.timeout_cfg.on_chain_tx)
          entry.notif.opening_bal_info.parts (with_message e "accepting channel proposal")
    done (s, no_ch_info, some api_err)
  opened entry s (ok pch) = do
    let ch =
        new_ch pc pch s.chain_url entry.currencies entry.notif.opening_bal_info.parts s.timeout_cfg
          entry.notif.challenge_dur_secs
    s' ← add_ch ch s
    info ← current_ch_info pc ch
    done (s', info, none)

  -- `acceptChProposal`
  unfoldable pub accept_ch_proposal :
      Context → ProposalEntry ProposalResponder → SessionOf b → Exec Response
  unfolding update_assets_in_funder opened
  accept_ch_proposal pctx entry s = do
    f ← update_assets_in_funder entry.currencies s.contracts s.funder
    opened entry (record s { funder = f; calls = s.calls ++ (entry.responder, none) ∷ [] })
        (accept_proposal entry.responder (
          with_timeout pctx (resp_ch_proposal_accept s.timeout_cfg entry.notif.challenge_dur_secs)))

  unfoldable pub answer_proposal :
      Context → ℕ → ProposalEntry ProposalResponder → Bool → SessionOf b → Exec Response
  unfolding accept_ch_proposal
  answer_proposal pctx curr_time entry accept s =
      if ltb entry.notif.expiry curr_time
      then done
          (s, no_ch_info, some (new_api_err_user_response_timed_out entry.notif.expiry curr_time))
      else if accept
      then accept_ch_proposal pctx entry s
      else (let (s', e) = reject_ch_proposal b pctx entry.responder "rejected by user" s in
          done (s', no_ch_info, e))

  -- `RespondChProposal` at the Unix time `curr_time`.
  unfoldable pub respond_ch_proposal : Context → ℕ → String → Bool → SessionOf b → Exec Response
  unfolding answer_proposal
  respond_ch_proposal pctx curr_time id accept s =
      if s.is_open
      then (if s.session_locked then blocks else elim (lookup id s.proposal_responders) [
        | none ↦ done (s, no_ch_info, some (new_api_err_resource_not_found "proposal" id))
        | some entry ↦
            answer_proposal pctx curr_time entry accept
              (record s { proposal_responders = erase id s.proposal_responders })
      ])
      else done (s, no_ch_info, some (new_api_err_failed_pre_condition err_session_closed))
