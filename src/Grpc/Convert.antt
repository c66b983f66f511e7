-- ===== src/Grpc/Convert.antt =====
-- api/grpc/server.go: the conversions between the types of the node and the messages.
use dst_go.Base.{String, List, [], ◌∷◌, map, Option, none, some, Exec, done, panic, ◌>>=◌}
use dst_go.Perun.Info.{PeerId, BalInfo, PayChInfo}
use dst_go.Perun.Notifs.{ChUpdateType, open_update, final_update, closed_update}
use dst_go.Errors.{
  ContractErrInfo, AddInfo, ApiError, no_info, peer_request_timed_out, peer_rejected,
  peer_not_funded, user_response_timed_out, resource_not_found, resource_exists, invalid_argument,
  unclosed_chs, unclosed_pay_chs, invalid_config, invalid_contracts, tx_timed_out,
  chain_not_reachable,
}
use dst_go.Errors.Chain.{error_string}
use dst_go.Payment.{Payment}
use dst_go.Payment.Notifs.{PayChUpdateNotif, PayChProposalNotif}
use dst_go.Grpc.{
  PaymentMsg, BalInfoBal, BalInfoMsg, PayChInfoMsg, PeerIdMsg, ContractErrInfoMsg, AddInfoMsg,
  no_info_msg, peer_request_timed_out_msg, peer_rejected_msg, peer_not_funded_msg,
  user_response_timed_out_msg, resource_not_found_msg, resource_exists_msg, invalid_argument_msg,
  unclosed_chs_msg, invalid_config_msg, invalid_contracts_msg, tx_timed_out_msg,
  chain_not_reachable_msg, MsgError, UpdateTypeMsg, open_msg, final_msg, closed_msg, UpdateMsg,
  ProposalMsg,
}

-- `ToGrpcPayment`
unfoldable pub to_grpc_payment : Payment → PaymentMsg
to_grpc_payment src = record {
  currency_field = src.currency;
  payee_field = src.payee;
  amount_field = src.amount;
}

-- `ToGrpcPayments`
unfoldable pub to_grpc_payments : List Payment → List PaymentMsg
unfolding to_grpc_payment
to_grpc_payments payments = map to_grpc_payment payments

unfoldable pub from_grpc_payment : PaymentMsg → Payment
from_grpc_payment src = record {
  currency = src.currency_field;
  payee = src.payee_field;
  amount = src.amount_field;
}

unfoldable pub from_grpc_payments : List PaymentMsg → List Payment
unfolding from_grpc_payment
from_grpc_payments payments = map from_grpc_payment payments

-- `&pb.BalInfoBal{}` with the row in it.
unfoldable pub to_bal : List String → BalInfoBal
to_bal row = record { bal = row }

-- `ToGrpcBalInfo`
unfoldable pub to_grpc_bal_info : BalInfo → BalInfoMsg
unfolding to_bal
to_grpc_bal_info src = record {
  currencies_field = src.currencies;
  parts_field = src.parts;
  bals_field = map to_bal src.bals;
}

unfoldable pub bal_info_of : BalInfoMsg → BalInfo
bal_info_of src = record {
  currencies = src.currencies_field;
  parts = src.parts_field;
  bals = map (λ row. row.bal) src.bals_field;
}

-- `fromGrpcBalInfo`: none is a nil pointer, as when the field is missing from the request.
unfoldable pub from_grpc_bal_info : Option BalInfoMsg → Exec BalInfo
unfolding bal_info_of
from_grpc_bal_info none = panic
from_grpc_bal_info (some src) = done (bal_info_of src)

-- The fields of the request of `AddPeerID`, read through a pointer that may be nil. The address is
-- not parsed yet.
unfoldable pub from_grpc_peer_id : Option PeerIdMsg → Exec PeerId
from_grpc_peer_id none = panic
from_grpc_peer_id (some src) = done (record {
  alias = src.alias_field;
  off_chain_addr = [];
  off_chain_addr_string = src.off_chain_address;
  comm_addr = src.comm_address;
  comm_type = src.comm_type_field;
})

-- The peer ID of the response of `GetPeerID`.
unfoldable pub to_grpc_peer_id : PeerId → PeerIdMsg
to_grpc_peer_id src = record {
  alias_field = src.alias;
  off_chain_address = src.off_chain_addr_string;
  comm_address = src.comm_addr;
  comm_type_field = src.comm_type;
}

unfoldable pub to_grpc_pay_ch_info : PayChInfo → PayChInfoMsg
unfolding to_grpc_bal_info
to_grpc_pay_ch_info src = record {
  ch_id_field = src.pay_ch_id;
  bal_info_field = to_grpc_bal_info src.pay_bal_info;
  version_field = src.pay_version;
}

unfoldable pub to_grpc_pay_chs_info : List PayChInfo → List PayChInfoMsg
unfolding to_grpc_pay_ch_info
to_grpc_pay_chs_info infos = map to_grpc_pay_ch_info infos

-- `toGrpcContractErrInfos`: the slice is made of nil pointers, and the loop writes through them.
unfoldable pub to_grpc_contract_err_infos : List ContractErrInfo → Exec (List ContractErrInfoMsg)
to_grpc_contract_err_infos [] = done []
to_grpc_contract_err_infos (info ∷ infos) = panic

-- The `switch` on the type of the additional info. The constructors of the API errors leave the
-- requirement of an invalid argument empty.
unfoldable pub to_grpc_add_info : AddInfo → Exec AddInfoMsg
unfolding to_grpc_contract_err_infos to_grpc_pay_chs_info
to_grpc_add_info (peer_request_timed_out peer_alias timeout) =
    done (peer_request_timed_out_msg "" timeout)
to_grpc_add_info (peer_rejected peer_alias reason) = done (peer_rejected_msg peer_alias reason)
to_grpc_add_info (peer_not_funded peer_alias) = done (peer_not_funded_msg peer_alias)
to_grpc_add_info (user_response_timed_out expiry received_at) =
    done (user_response_timed_out_msg expiry received_at)
to_grpc_add_info (resource_not_found type id) = done (resource_not_found_msg type id)
to_grpc_add_info (resource_exists type id) = done (resource_exists_msg type id)
to_grpc_add_info (invalid_argument name value) = done (invalid_argument_msg name value "")
to_grpc_add_info (unclosed_pay_chs infos) = done (unclosed_chs_msg (to_grpc_pay_chs_info infos))
to_grpc_add_info (invalid_config name value) = done (invalid_config_msg name value)
to_grpc_add_info (invalid_contracts infos) =
    to_grpc_contract_err_infos infos >>= λ msgs. done (invalid_contracts_msg msgs)
to_grpc_add_info (tx_timed_out tx_type tx_id tx_timeout) =
    done (tx_timed_out_msg tx_type tx_id tx_timeout)
to_grpc_add_info (chain_not_reachable chain_url) = done (chain_not_reachable_msg chain_url)
to_grpc_add_info (unclosed_chs infos) = done no_info_msg
to_grpc_add_info no_info = done no_info_msg

-- The message for an error, with the additional info in it.
unfoldable pub error_with : ApiError → AddInfoMsg → MsgError
unfolding error_string
error_with e info = record {
  category_field = e.category;
  code_field = e.code;
  message = error_string e.err;
  add_info_field = info;
}

unfoldable pub to_grpc_error : ApiError → Exec MsgError
unfolding to_grpc_add_info error_with
to_grpc_error e = to_grpc_add_info e.add_info >>= λ info. done (error_with e info)

-- `ToGrpcChUpdateType`
unfoldable pub to_grpc_ch_update_type : ChUpdateType → UpdateTypeMsg
to_grpc_ch_update_type open_update = open_msg
to_grpc_ch_update_type final_update = final_msg
to_grpc_ch_update_type closed_update = closed_msg

-- The error of a notification, if there is one.
unfoldable pub to_grpc_notif_error : Option ApiError → Exec (Option MsgError)
unfolding to_grpc_error
to_grpc_notif_error none = done none
to_grpc_notif_error (some e) = to_grpc_error e >>= λ msg. done (some msg)

-- The message that the notifier of `SubPayChUpdates` sends.
unfoldable pub to_update_msg : PayChUpdateNotif → Exec UpdateMsg
unfolding to_grpc_notif_error to_grpc_pay_ch_info to_grpc_ch_update_type
to_update_msg notif = to_grpc_notif_error notif.error >>= λ notif_err. done (record {
  update_id_field = notif.update_id;
  proposed_pay_ch_info_field = to_grpc_pay_ch_info notif.proposed_pay_ch_info;
  type_field = to_grpc_ch_update_type notif.type;
  expiry_field = notif.expiry;
  update_error_field = notif_err;
})

-- The message that the notifier of `SubPayChProposals` sends.
unfoldable pub to_proposal_msg : PayChProposalNotif → ProposalMsg
unfolding to_grpc_bal_info
to_proposal_msg notif = record {
  proposal_id_field = notif.proposal_id;
  opening_bal_info_field = to_grpc_bal_info notif.opening_bal_info;
  challenge_dur_secs_field = notif.challenge_dur_secs;
  proposal_expiry_field = notif.expiry;
}
