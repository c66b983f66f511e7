-- ===== src/Grpc/Tests.antt =====
-- The server (api/grpc/server.go) at concrete inputs.
mod Subscribing
use dst_go.Base.{
  String, List, [], ◌∷◌, true, false, none, some, Exec, done, panic, Ensures, Returns, ◌≡◌, refl,
  lookup, str_eq, Bool-cases, inl, inr, insert, ◌++◌, erase, if◌then◌else◌,
}
use dst_go.Perun.Info.{BalInfo, PayChInfo}
use dst_go.Perun.Notifs.{closed_update}
use dst_go.Errors.{
  ApiError, AddInfo, GoError, no_info, ok, refused, returned, invalid_contract_error,
  resource_not_found, tx_timed_out, text,
}
use dst_go.Errors.Api.{new_api_err_resource_not_found, new_api_err_peer_request_timed_out}
use dst_go.IdProvider.{read_by_alias}
use dst_go.Errors.Chain.{errors_as}
use dst_go.Channel.Toy.{fresh, toy}
use dst_go.Channel.Updates.{unsub_ch_updates}
use dst_go.Contracts.{symbol_of, registered_from, symbol_at}
use dst_go.Perun.Info.{address_eq}
use dst_go.Session.State.{SessionOf}
use dst_go.Session.State.Toy.{toy_backend, session}
use dst_go.Session.State.Channels.{get_ch, with_chs}
use dst_go.Session.ChRegistry.{get}
use dst_go.Payment.Notifs.{PayChUpdateNotif, unsub_pay_ch_updates}
use dst_go.Node.{NodeState, get_session, as_registered, as_invalid_contract, put_session}
use dst_go.Node.Service.{pay_api, find_ch, place_of, see_session, on_ch, on_session}
use dst_go.Node.Toy.{
  ToyNode, outside, node_host, toy_node, toy_server, fair_chain, strict_chain, no_code,
}
use dst_go.Grpc.{
  PeerIdMsg, BalInfoMsg, UpdateMsg, MsgError, resource_not_found_msg, error_msg, msg_success,
}
use dst_go.Grpc.Api.{PayApi}
use dst_go.Grpc.Convert.{
  error_with, to_grpc_error, to_grpc_add_info, to_grpc_bal_info, bal_info_of, from_grpc_bal_info,
  to_update_msg, to_grpc_notif_error, to_grpc_pay_ch_info, to_grpc_ch_update_type,
}
use dst_go.Grpc.Server.{
  Server, new_server, ended, sub_pay_ch_proposals, sub_pay_ch_updates, notify_update, or_empty,
  is_in, keep_update_signal, keep_in, is_closed_update,
}
use dst_go.Grpc.Server.Handlers
use dst_go.Grpc.Places.{Place, proposals_of, updates_of, signal_at, signal_in}
use dst_go.Grpc.Subscriptions.{IsInOrder, keep_at}
use dst_go.Grpc.Changes.{EndsBy, keep_at-KeepsBy}
use dst_go.Grpc.Events.{
  Event, serve_all, open_session, begin_sub_proposals, keep_sub_proposals, begin_sub_updates,
  keep_sub_updates,
}
use dst_go.Grpc.Events
use dst_go.Grpc.Order.{serve_all-IsInOrder}
use dst_go.Grpc.Answers.{
  no_session_answers, missing_field_panics, Unsubscribed, unsub_pay_ch_updates-Unsubscribed,
  with_message, notify_update-Ends,
}
use dst_go.Grpc.Roundtrips.{
  from_grpc_bal_info-to_grpc_bal_info, Tells, has_contracts, to_grpc_error-Tells,
}
use dst_go.Grpc.Whole.{invalid_contract_panics, get_peer_id-add_peer_id}
use dst_go.Grpc.Races.{unsub_pay_ch_proposals_order}
use dst_go.Grpc.Book.{Change, session_opened, keep, end, view, run, replay, Refines, run-Refines}

abbrev pub api : PayApi
api = pay_api toy_backend node_host outside

abbrev pub idle : Server ToyNode
idle = toy_server fair_chain

pub session_kept : lookup "s" idle.node.sessions ≡ some (session [])
unfolding lookup
session_kept = refl

abbrev unknown_session : ApiError
unknown_session = new_api_err_resource_not_found "session" "t"

unknown_refused : api.get_session "t" idle.node ≡ done (refused unknown_session)
unfolding get_session lookup
unknown_refused = refl

abbrev unknown_msg : MsgError
unknown_msg = error_with unknown_session (resource_not_found_msg "session" "t")

unknown_told : to_grpc_error unknown_session ≡ done unknown_msg
unfolding to_grpc_error to_grpc_add_info new_api_err_resource_not_found
unknown_told = refl

-- The channel was closed.
abbrev pub closing : PayChUpdateNotif
closing = record {
  update_id = "ab_3_closed";
  proposed_pay_ch_info = record {
    pay_ch_id = "ab";
    pay_bal_info = record {
      currencies = "ETH" ∷ [];
      parts = "self" ∷ "bob" ∷ [];
      bals = ("7" ∷ "3" ∷ []) ∷ [];
    };
    pay_version = "3";
  };
  type = closed_update;
  expiry = 0;
  error = none;
}

abbrev pub closing_msg : UpdateMsg
closing_msg = record {
  update_id_field = "ab_3_closed";
  proposed_pay_ch_info_field = to_grpc_pay_ch_info closing.proposed_pay_ch_info;
  type_field = to_grpc_ch_update_type closed_update;
  expiry_field = 0;
  update_error_field = none;
}

from_grpc_bal_info-to_grpc_bal_info_example :
    (from_grpc_bal_info (some (to_grpc_bal_info closing.proposed_pay_ch_info.pay_bal_info))
      ≡ done closing.proposed_pay_ch_info.pay_bal_info)
    × (to_grpc_bal_info (bal_info_of closing_msg.proposed_pay_ch_info_field.bal_info_field)
        ≡ closing_msg.proposed_pay_ch_info_field.bal_info_field)
from_grpc_bal_info-to_grpc_bal_info_example =
    from_grpc_bal_info-to_grpc_bal_info closing.proposed_pay_ch_info.pay_bal_info
      closing_msg.proposed_pay_ch_info_field.bal_info_field

-- An error with an info that the message does not take over whole.
abbrev dial_timed_out : ApiError
dial_timed_out = new_api_err_peer_request_timed_out (text "dialing") "bob" "20s"

to_grpc_error-Tells_example : Returns (Tells dial_timed_out) (to_grpc_error dial_timed_out)
unfolding new_api_err_peer_request_timed_out
to_grpc_error-Tells_example = to_grpc_error-Tells dial_timed_out

abbrev strict : Server ToyNode
strict = toy_server strict_chain

abbrev invalid : GoError
invalid = invalid_contract_error "asset ERC20" "0x08" no_code

other_asset : node_host.wallet.parse_addr "0x08" ≡ ok (1 ∷ [])
other_asset = refl

not_known : symbol_of strict.node.contract_registry (1 ∷ []) ≡ none
unfolding symbol_of registered_from symbol_at address_eq
not_known = refl

not_an_asset : errors_as as_registered invalid ≡ none
unfolding errors_as as_registered
not_an_asset = refl

named_invalid : errors_as as_invalid_contract invalid ≡ some ("asset ERC20", "0x08", no_code)
unfolding errors_as as_invalid_contract
named_invalid = refl

invalid_contract_panics_example :
    Handlers.register_currency (pay_api toy_backend node_host outside) "0x07" "0x08" strict ≡ panic
invalid_contract_panics_example =
    invalid_contract_panics toy_backend node_host outside "0x07" "0x08" (1 ∷ []) (1 ∷ []) invalid
      no_code "asset ERC20" "0x08" strict other_asset other_asset not_known refl not_an_asset
      named_invalid

abbrev carol : PeerIdMsg
carol = record {
  alias_field = "carol";
  off_chain_address = "0x02";
  comm_address = "127.0.0.1:5752";
  comm_type_field = "tcpip";
}

carol_new : read_by_alias (session []).id_provider "carol" ≡ none
unfolding read_by_alias lookup
carol_new = refl

get_peer_id-add_peer_id_example :
    Returns
      (λ out.
        (out.1 ≡ msg_success true)
        × (Handlers.get_peer_id (pay_api toy_backend node_host outside) "s" "carol" out.0
            ≡ done (out.0, msg_success carol)))
      (Handlers.add_peer_id (pay_api toy_backend node_host outside) "s" (some carol) idle)
get_peer_id-add_peer_id_example =
    get_peer_id-add_peer_id toy_backend node_host outside "s" (session []) carol (1 ∷ []) idle
      session_kept refl refl carol_new refl
