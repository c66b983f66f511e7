-- ===== src/Session/State/Tests.antt =====
-- Sessions (session/session.go) at concrete inputs, over the controller of the tests of channels.
use dst_go.Base.{
  Option, Exec, insert, print_uint, ℕ, ◌*◌, [], ◌∷◌, true, false, none, some, pos, done, panic,
  blocks, Returns, Ensures, lookup, erase, ◌==◌, if◌then◌else◌, second, print_hex, ◌≡◌, refl, inl,
  arith,
}
use dst_go.Perun.Info.{ChInfo, BalInfo, address_eq, no_ch_info}
use dst_go.Perun.Notifs.{ChProposalNotif}
use dst_go.Errors.{ok}
use dst_go.Errors.Api.{new_api_err_resource_not_found}
use dst_go.IdProvider.{read_by_off_chain_addr, read_by_addr_string, read_by_alias}
use dst_go.Contracts.{asset_of, token_of, symbol_of, registered_from}
use dst_go.Channel.{Currency, background, closed_ch}
use dst_go.Channel.Toy.{eth, timeouts, toy, no_app, fresh, state_at}
use dst_go.Channel.Info.{
  new_ch, get_ch_info, current_ch_info, make_ch_info, make_bal_info_from_raw_bal, print_bals,
}
use dst_go.Channel.Updates.{Ch, unix_after}
use dst_go.Session.State.Toy.{toy_backend, bob, session}
use dst_go.Session.State.{Backend, SessionOf, Proposal, ProposalEntry}
use dst_go.Session.State.Proposals.{
  aliases_of, alias_at, get_currencies, ch_proposal_notif, or_no_currencies, entry_of,
  handle_proposal, reject_ch_proposal,
}
use dst_go.Session.State.Responses.{
  update_assets_in_funder, add_ch, respond_ch_proposal, answer_proposal,
}
use dst_go.Session.State.Channels.{
  get_chs_info, close_session, survey, info_if, judge_survey, with_chs, close_error,
}
use dst_go.Session.State.Closing.{Outcome, close_session-Outcome, closed_session_blocks}
use dst_go.Session.State.Open.{
  Opened, Proposer, open_channel, open_for, propose, proposed, all_present,
}
use dst_go.Session.Opening.{
  sanitize_bal_info, sanitize_at, own_idx_from, to_front, rows_to_front, retrieve_part_ids,
  find_part, find_parts, judge_parts, register_parts, make_off_chain_addrs,
}
use dst_go.Session.Opening.Allocations.{
  Allocation, make_allocation, make_entries, make_entry, parse_with, parse_row, allocation_of,
}
use dst_go.Session.State.Opens.{Added, open_channel-Added}
use dst_go.Session.State.Answers.{proposal_answered_once}
use dst_go.Session.State.Inbox.{inbox}
use dst_go.Session.State.Intake.{handle_proposal-inbox, unknown_asset_panics}

abbrev proposal : Proposal
proposal = record {
  proposal_id = 171 ∷ [];
  peers = (1 ∷ []) ∷ [];
  assets = [];
  init_bals = [];
  app = no_app;
  challenge_duration = 60;
}

abbrev notif : ChProposalNotif
notif = record {
  proposal_id = "ab";
  opening_bal_info = record { currencies = []; parts = "bob" ∷ []; bals = [] };
  app = no_app;
  challenge_dur_secs = 60;
  expiry = 120;
}

abbrev entry : ProposalEntry ℕ
entry = record { proposal = proposal; notif = notif; responder = 5; currencies = [] }

abbrev waiting : SessionOf toy_backend
waiting = record (session []) { proposal_responders = ("ab", entry) ∷ [] }

known_peers : aliases_of (alias_at toy_backend (session [])) proposal.peers ≡ ("bob" ∷ [], true)
unfolding aliases_of alias_at read_by_off_chain_addr read_by_addr_string read_by_alias lookup
known_peers = refl

no_assets : get_currencies (session []).contracts (toy_backend.read_currency) [] ≡ done (some [])
unfolding get_currencies
no_assets = refl

notif_made :
    ch_proposal_notif
      ("bob" ∷ [])
      (or_no_currencies toy_backend (some []))
      proposal
      (if true then unix_after (100 * second) (session []).timeout_cfg.response else 0)
    ≡ done notif
unfolding ch_proposal_notif or_no_currencies make_bal_info_from_raw_bal print_bals unix_after
    print_hex
notif_made = refl

handle_proposal-inbox_example :
    Returns
      (λ d.
        (inbox toy_backend d ≡ notif ∷ [])
        × (lookup "ab" d.proposal_responders ≡ (
            if 120 == 0
            then lookup "ab" (session []).proposal_responders
            else some (entry_of toy_backend proposal 5 (some []) notif))))
      (handle_proposal toy_backend (100 * second) proposal 5 (session []))
unfolding unix_after
handle_proposal-inbox_example =
    handle_proposal-inbox toy_backend (100 * second) proposal 5 (session []) ("bob" ∷ []) true
      (some []) notif refl refl (inl refl) known_peers no_assets notif_made

unknown_asset :
    get_currencies (session []).contracts (toy_backend.read_currency) ((8 ∷ []) ∷ []) ≡ done none
unfolding get_currencies symbol_of registered_from address_eq
unknown_asset = refl

unknown_asset_panics_example :
    handle_proposal toy_backend
      (100 * second)
      (record proposal { assets = (8 ∷ []) ∷ []; init_bals = (pos 7 ∷ pos 3 ∷ []) ∷ [] })
      5
      (session [])
    ≡ panic
unknown_asset_panics_example =
    unknown_asset_panics toy_backend (100 * second)
      (record proposal { assets = (8 ∷ []) ∷ []; init_bals = (pos 7 ∷ pos 3 ∷ []) ∷ [] }) 5
      (session []) (pos 7 ∷ pos 3 ∷ []) [] refl refl unknown_asset

rejected :
    respond_ch_proposal toy_backend background 120 "ab" false waiting
    ≡ done (record (session []) { calls = (5, some "rejected by user") ∷ [] }, no_ch_info, none)
unfolding respond_ch_proposal answer_proposal reject_ch_proposal lookup erase
rejected = refl

proposal_answered_once_example :
    respond_ch_proposal toy_backend background 120 "ab" true
      (record (session []) { calls = (5, some "rejected by user") ∷ [] })
    ≡ done (
      record (session []) { calls = (5, some "rejected by user") ∷ [] },
      no_ch_info,
      some (new_api_err_resource_not_found "proposal" "ab"),
    )
proposal_answered_once_example =
    proposal_answered_once toy_backend background background 120 120 "ab" false true waiting
      (record (session []) { calls = (5, some "rejected by user") ∷ [] }) no_ch_info none refl refl
      rejected

close_session-Outcome_example :
    Returns
      (Outcome toy_backend false (session (fresh ∷ [])))
      (close_session toy_backend false (session (fresh ∷ [])))
close_session-Outcome_example =
    close_session-Outcome toy_backend false (session (fresh ∷ [])) refl refl (refl, tt)
      (omega arith, tt)

abbrev idle : Ch toy
idle = record fresh { status = closed_ch }

abbrev ended : SessionOf toy_backend
ended = record (session (record idle { locked = true } ∷ [])) { is_open = false }

closed : close_session toy_backend false (session (idle ∷ [])) ≡ done (ended, [], none)
unfolding close_session survey info_if judge_survey with_chs close_error
closed = refl

closed_session_blocks_example : get_chs_info toy_backend ended ≡ blocks
closed_session_blocks_example =
    closed_session_blocks toy_backend false (session (idle ∷ [])) ended idle [] [] none refl refl
      refl (refl, tt) (omega arith, tt) closed refl

-- A peer that agrees to every proposal, over a backend whose currency reads every amount as 5.
abbrev five : Currency
five = record eth { parse = λ text. ok (pos 5) }

abbrev reading_backend : Backend
reading_backend = record toy_backend { read_currency = λ s. some five }

abbrev toy_client : Proposer reading_backend
toy_client = record {
  LedgerProposal = Allocation;
  make_proposal = λ secs allocation addrs app. ok allocation;
  propose_channel = λ peers ctx p.
      ok (record (state_at 0 7 3 false) { assets = p.assets; balances = p.balances });
}

abbrev with_self : SessionOf reading_backend
with_self = record {
  session_id = "s";
  is_open = true;
  timeout_cfg = timeouts;
  chain_url = "ws://localhost";
  id_provider = record {
    peer_ids_by_alias = ("self", record bob { alias = "self" }) ∷ ("bob", bob) ∷ [];
    alias_by_addr = ("0x01", "bob") ∷ [];
  };
  contracts = (session []).contracts;
  funder = tt;
  chs = record { ch_idxs = []; chs = [] };
  proposal_notifier = none;
  proposal_notif_cache = [];
  proposal_responders = [];
  calls = [];
  session_locked = false;
  proposals_sent = [];
}

abbrev opening : BalInfo
opening = record {
  currencies = "ETH" ∷ [];
  parts = "bob" ∷ "self" ∷ [];
  bals = ("5" ∷ "5" ∷ []) ∷ [];
}

abbrev opened_info : ChInfo
opened_info = record {
  ch_id = "ab";
  bal_info = record {
    currencies = "ETH" ∷ [];
    parts = "self" ∷ "bob" ∷ [];
    bals = ("5" ∷ "5" ∷ []) ∷ [];
  };
  app = no_app;
  version = "0";
}

-- The run of the example gives the info of the new channel.
abbrev info_of : Exec (Opened reading_backend toy_client) → Option ChInfo
info_of (done (s, info, none)) = some info
info_of _ = none

opens_one :
    info_of (open_channel reading_backend toy_client background opening no_app 60 with_self)
    ≡ some opened_info
unfolding open_channel open_for propose proposed all_present update_assets_in_funder add_ch
    sanitize_bal_info sanitize_at own_idx_from to_front rows_to_front retrieve_part_ids find_part
    find_parts judge_parts register_parts make_off_chain_addrs make_allocation make_entries
    make_entry parse_with parse_row allocation_of read_by_alias asset_of lookup new_ch get_ch_info
    current_ch_info make_ch_info make_bal_info_from_raw_bal print_bals insert token_of print_hex
    print_uint
opens_one = refl

open_channel-Added_example :
    Ensures
      (Added reading_backend toy_client background opening no_app 60 with_self)
      (open_channel reading_backend toy_client background opening no_app 60 with_self)
open_channel-Added_example =
    open_channel-Added reading_backend toy_client background opening no_app 60 with_self
