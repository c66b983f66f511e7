-- ===== src/Session/State/Proposals.antt =====
-- session/session.go: proposals that come in, subscriptions to them, and the responses.
use dst_go.Base.{
  ℕ, zero, suc, String, List, [], ◌∷◌, ◌++◌, map, Bool, true, false, Option, none, some, Exec, done,
  panic, blocks, ◌>>=◌, or_panic, get_elem?, insert, length, take, leb, ◌==◌, not, print_hex,
  if◌then◌else◌,
}
use dst_go.Perun.Info.{Address}
use dst_go.Perun.Notifs.{ChProposalNotif}
use dst_go.Errors.{ApiError}
use dst_go.Errors.Api.{
  new_api_err_failed_pre_condition, new_api_err_resource_not_found, new_api_err_resource_exists,
  new_api_err_unknown_internal,
}
use dst_go.IdProvider.{read_by_off_chain_addr}
use dst_go.Contracts.{ContractRegistry, symbol_of}
use dst_go.Channel.{Currency, Context, background, with_timeout}
use dst_go.Channel.Info.{make_bal_info_from_raw_bal}
use dst_go.Channel.Updates.{unix_after}
use dst_go.Session.Timeout.{resp_ch_proposal_reject}
use dst_go.Session.State.{Backend, SessionOf, Proposal, ProposalEntry, err_session_closed}

-- The loop over the peers of a proposal: their aliases, and whether all are known. It ends at the
-- first peer that is not, and the aliases from there on stay empty.
unfoldable pub aliases_of : (Address → Option String) → List Address → List String × Bool
aliases_of read [] = ([], true)
aliases_of read (peer ∷ peers) =
    let (later, known) = aliases_of read peers in
    elim (read peer) [
      | none ↦ ("" ∷ map (λ p. "") peers, false)
      | some alias ↦ (alias ∷ later, known)
    ]

-- `getCurrencies`: none is the error. A currency that is nil panics here; the source panics when it
-- prints the row of the asset, which a valid proposal has.
unfoldable pub get_currencies :
    ContractRegistry → (String → Option Currency) → List Address → Exec (Option (List Currency))
get_currencies r read [] = done (some [])
get_currencies r read (asset ∷ assets) =
    let later = get_currencies r read assets in
    elim (symbol_of r asset) [
      | none ↦ done none
      | some symbol ↦ or_panic (read symbol) >>= λ c.
          later >>= λ rest. elim rest [ none ↦ done none | some cs ↦ done (some (c ∷ cs)) ]
    ]

-- `chProposalNotif`
unfoldable pub ch_proposal_notif : List String → List Currency → Proposal → ℕ → Exec ChProposalNotif
ch_proposal_notif parts currencies p expiry = do
  bal_info ← make_bal_info_from_raw_bal parts currencies p.init_bals
  done (record {
    proposal_id = print_hex p.proposal_id;
    opening_bal_info = bal_info;
    app = p.app;
    challenge_dur_secs = p.challenge_duration;
    expiry = expiry;
  })

-- `xs[1:i]`, where `i` is at most the length.
abbrev pub proposals_from_one : List ChProposalNotif → ℕ → Exec (List ChProposalNotif)
proposals_from_one [] i = panic
proposals_from_one (x ∷ xs) zero = panic
proposals_from_one (x ∷ xs) (suc i) = if leb i (length xs) then done (take i xs) else panic

module _ (b : Backend) where
  open b use {
    pc, ProposalResponder, accept_proposal, reject_proposal, Funder, is_asset_registered,
    register_asset, wallet, read_currency,
  }

  unfoldable pub alias_at : SessionOf b → Address → Option String
  alias_at s peer = elim (read_by_off_chain_addr wallet s.id_provider peer) [
    | none ↦ none
    | some p ↦ some p.alias
  ]

  -- `rejectChProposal`
  unfoldable pub reject_ch_proposal :
      Context → ProposalResponder → String → SessionOf b → SessionOf b × Option ApiError
  reject_ch_proposal pctx r reason s = (
    record s { calls = s.calls ++ (r, some reason) ∷ [] },
    elim (reject_proposal r (with_timeout pctx (resp_ch_proposal_reject s.timeout_cfg)) reason) [
      | none ↦ none
      | some e ↦ some (new_api_err_unknown_internal e)
    ],
  )

  unfoldable pub reject_if : Bool → ProposalResponder → String → SessionOf b → SessionOf b
  unfolding reject_ch_proposal
  reject_if true r reason s = (reject_ch_proposal background r reason s).0
  reject_if false r reason s = s

  unfoldable pub or_no_currencies : Option (List Currency) → List Currency
  or_no_currencies (some cs) = cs
  or_no_currencies none = []

  unfoldable pub is_none : Option (List Currency) → Bool
  is_none (some cs) = false
  is_none none = true

  unfoldable pub store_proposal : ℕ → ProposalEntry ProposalResponder → SessionOf b → SessionOf b
  store_proposal expiry entry s = if expiry == 0 then s else record s {
    proposal_responders = insert entry.notif.proposal_id entry s.proposal_responders;
  }

  unfoldable pub send_proposal_notif : ChProposalNotif → SessionOf b → SessionOf b
  send_proposal_notif n s = elim s.proposal_notifier [
    | none ↦ record s { proposal_notif_cache = s.proposal_notif_cache ++ n ∷ [] }
    | some f ↦ record s { proposals_sent = s.proposals_sent ++ (f, n) ∷ [] }
  ]

  -- The part of `HandleProposal` under the lock.
  unfoldable pub keep_proposal :
      ℕ → ProposalEntry ProposalResponder → SessionOf b → Exec (SessionOf b)
  unfolding store_proposal send_proposal_notif
  keep_proposal expiry entry s =
      if s.session_locked
      then blocks
      else done (send_proposal_notif entry.notif (store_proposal expiry entry s))

  -- The rejections of a proposal with a peer or an asset that is not known.
  unfoldable pub reject_unknown :
      Bool → Option (List Currency) → ProposalResponder → SessionOf b → SessionOf b
  unfolding reject_if is_none
  reject_unknown known found r s =
      reject_if (is_none found) r "unrecogonized currency"
        (reject_if (not known) r "unrecogonized peer ID" s)

  unfoldable pub entry_of :
      Proposal
      → ProposalResponder
      → Option (List Currency)
      → ChProposalNotif
      → ProposalEntry ProposalResponder
  unfolding or_no_currencies
  entry_of p r found n = record {
    proposal = p;
    notif = n;
    responder = r;
    currencies = or_no_currencies found;
  }

  -- The part of `HandleProposal` behind the look-up of the peers and the currencies.
  unfoldable pub handle_looked_up :
      ℕ
      → Proposal
      → ProposalResponder
      → List String × Bool
      → SessionOf b
      → Option (List Currency)
      → Exec (SessionOf b)
  unfolding keep_proposal reject_unknown entry_of
  handle_looked_up now p r (parts, known) s found =
      let expiry = if known then unix_after now s.timeout_cfg.response else 0 in
      ch_proposal_notif parts (or_no_currencies found) p expiry >>= λ n.
      keep_proposal expiry (entry_of p r found n) (reject_unknown known found r s)

  -- `HandleProposal` of a ledger channel proposal, at the time `now` in nanoseconds.
  unfoldable pub handle_proposal :
      ℕ → Proposal → ProposalResponder → SessionOf b → Exec (SessionOf b)
  unfolding handle_looked_up
  handle_proposal now p r s =
      if s.is_open
      then (get_currencies s.contracts read_currency p.assets
          >>= handle_looked_up now p r (aliases_of (alias_at s) p.peers) s)
      else done s

  -- The loop of `SubChProposals` over the cache, with `i` rounds to go.
  unfoldable pub send_cached_proposals : ℕ → ℕ → SessionOf b → Exec (SessionOf b)
  send_cached_proposals zero f s = done s
  send_cached_proposals (suc i) f s = do
    n ← or_panic (get_elem? s.proposal_notif_cache 0)
    rest ← proposals_from_one s.proposal_notif_cache (suc i)
    send_cached_proposals i f
        (record s { proposals_sent = s.proposals_sent ++ (f, n) ∷ []; proposal_notif_cache = rest })

  -- `SubChProposals`
  unfoldable pub sub_ch_proposals : ℕ → SessionOf b → Exec (SessionOf b × Option ApiError)
  unfolding send_cached_proposals
  sub_ch_proposals f s =
      if s.session_locked
      then blocks
      else if s.is_open
      then elim s.proposal_notifier [
        | some _ ↦ done (s, some (new_api_err_resource_exists "proposalsSub" s.session_id))
        | none ↦
            send_cached_proposals (length s.proposal_notif_cache) f
              (record s { proposal_notifier = some f })
            >>= λ s'. done (s', none)
      ]
      else done (s, some (new_api_err_failed_pre_condition err_session_closed))

  unfoldable pub unsub_ch_proposals : SessionOf b → Exec (SessionOf b × Option ApiError)
  unsub_ch_proposals s =
      if s.session_locked
      then blocks
      else if s.is_open
      then elim s.proposal_notifier [
        | none ↦ done (s, some (new_api_err_resource_not_found "proposalsSub" s.session_id))
        | some _ ↦ done (record s { proposal_notifier = none }, none)
      ]
      else done (s, some (new_api_err_failed_pre_condition err_session_closed))
