-- ===== src/Errors/Api.antt =====
-- errors.go: the constructors of the API errors. Each fixes the category, the code, the message and
-- the additional info.
use dst_go.Base.{ℕ, String, List, [], ◌∷◌, ◌&◌, print_uint}
use dst_go.Perun.Info.{ChInfo}
use dst_go.Errors.{
  ErrorCategory, participant_error, client_error, protocol_fatal_error, internal_error, AddInfo,
  ContractErrInfo, GoError, text, with_message, ApiError, no_info, peer_request_timed_out,
  peer_rejected, peer_not_funded, user_response_timed_out, resource_not_found, resource_exists,
  invalid_argument, unclosed_chs, invalid_config, invalid_contracts, tx_timed_out,
  chain_not_reachable,
}
use dst_go.Errors.Chain.{error_string}

abbrev pub err_peer_request_timed_out : ℕ
err_peer_request_timed_out = 101

abbrev pub err_peer_rejected : ℕ
err_peer_rejected = 102

abbrev pub err_peer_not_funded : ℕ
err_peer_not_funded = 103

abbrev pub err_user_response_timed_out : ℕ
err_user_response_timed_out = 104

abbrev pub err_resource_not_found : ℕ
err_resource_not_found = 201

abbrev pub err_resource_exists : ℕ
err_resource_exists = 202

abbrev pub err_invalid_argument : ℕ
err_invalid_argument = 203

abbrev pub err_failed_pre_condition : ℕ
err_failed_pre_condition = 204

abbrev pub err_invalid_config : ℕ
err_invalid_config = 205

abbrev pub err_invalid_contracts : ℕ
err_invalid_contracts = 206

abbrev pub err_tx_timed_out : ℕ
err_tx_timed_out = 301

abbrev pub err_chain_not_reachable : ℕ
err_chain_not_reachable = 302

abbrev pub err_unknown_internal : ℕ
err_unknown_internal = 401

unfoldable pub new_api_err : ErrorCategory → ℕ → GoError → AddInfo → ApiError
new_api_err c n e i = record { category = c; code = n; err = e; add_info = i }

unfoldable pub new_api_err_peer_request_timed_out : GoError → String → String → ApiError
unfolding new_api_err
new_api_err_peer_request_timed_out e peer_alias timeout =
    new_api_err participant_error err_peer_request_timed_out
      (with_message e ("timed out waiting for response from " & peer_alias & " for " & timeout))
      (peer_request_timed_out peer_alias timeout)

unfoldable pub new_api_err_peer_rejected : GoError → String → String → ApiError
unfolding new_api_err
new_api_err_peer_rejected e peer_alias reason =
    new_api_err participant_error err_peer_rejected
      (with_message e ("peer " & peer_alias & " rejected with reason " & reason))
      (peer_rejected peer_alias reason)

unfoldable pub new_api_err_peer_not_funded : GoError → String → ApiError
unfolding new_api_err
new_api_err_peer_not_funded e peer_alias =
    new_api_err participant_error err_peer_not_funded
      (with_message e ("peer " & peer_alias & " did not fund within expected time"))
      (peer_not_funded peer_alias)

unfoldable pub new_api_err_user_response_timed_out : ℕ → ℕ → ApiError
unfolding new_api_err
new_api_err_user_response_timed_out expiry received_at =
    new_api_err participant_error err_user_response_timed_out
      (text (
        "response received (at "
        & print_uint received_at
        & ") after timeout expired (at "
        & print_uint expiry
        & ")"))
      (user_response_timed_out expiry received_at)

unfoldable pub new_api_err_resource_not_found : String → String → ApiError
unfolding new_api_err
new_api_err_resource_not_found resource_type resource_id =
    new_api_err client_error err_resource_not_found
      (text ("cannot find " & resource_type & " with ID: " & resource_id))
      (resource_not_found resource_type resource_id)

unfoldable pub new_api_err_resource_exists : String → String → ApiError
unfolding new_api_err
new_api_err_resource_exists resource_type resource_id =
    new_api_err client_error err_resource_exists
      (text (resource_type & " with ID: " & resource_id & " already exists"))
      (resource_exists resource_type resource_id)

unfoldable pub new_api_err_invalid_argument : GoError → String → String → ApiError
unfolding new_api_err
new_api_err_invalid_argument e name value =
    new_api_err client_error err_invalid_argument
      (with_message e ("invalid value for " & name & ": " & value)) (invalid_argument name value)

failed_pre_condition : GoError → AddInfo → ApiError
unfolding new_api_err
failed_pre_condition e i =
    new_api_err client_error err_failed_pre_condition (with_message e "failed pre-condition") i

unfoldable pub new_api_err_failed_pre_condition : GoError → ApiError
unfolding failed_pre_condition
new_api_err_failed_pre_condition e = failed_pre_condition e no_info

unfoldable pub new_api_err_failed_pre_condition_unclosed_chs : GoError → List ChInfo → ApiError
unfolding failed_pre_condition
new_api_err_failed_pre_condition_unclosed_chs e chs = failed_pre_condition e (unclosed_chs chs)

unfoldable pub new_api_err_invalid_config : GoError → String → String → ApiError
unfolding new_api_err
new_api_err_invalid_config e name value =
    new_api_err client_error err_invalid_config
      (with_message e ("invalid value for " & name & ": " & value)) (invalid_config name value)

-- The loop that lists the contracts in the message.
contracts_message : List ContractErrInfo → String
contracts_message [] = ""
contracts_message (c ∷ cs) =
    ("(" & c.name & " at address " & c.address & ": " & c.error & ") ") & contracts_message cs

unfoldable pub new_api_err_invalid_contracts : List ContractErrInfo → ApiError
unfolding new_api_err contracts_message
new_api_err_invalid_contracts infos =
    new_api_err client_error err_invalid_contracts
      (text ("invalid contracts: " & contracts_message infos)) (invalid_contracts infos)

unfoldable pub new_api_err_tx_timed_out : GoError → String → String → String → ApiError
unfolding new_api_err
new_api_err_tx_timed_out e tx_type tx_id tx_timeout =
    new_api_err protocol_fatal_error err_tx_timed_out
      (with_message e (
        "timed out waiting for "
        & tx_type
        & " tx (ID:"
        & tx_id
        & ") to be mined in "
        & tx_timeout
        & ": "
        & error_string e))
      (tx_timed_out tx_type tx_id tx_timeout)

unfoldable pub new_api_err_chain_not_reachable : GoError → String → ApiError
unfolding new_api_err
new_api_err_chain_not_reachable e chain_url =
    new_api_err protocol_fatal_error err_chain_not_reachable
      (with_message e ("chain not reachable at URL " & chain_url)) (chain_not_reachable chain_url)

unfoldable pub new_api_err_unknown_internal : GoError → ApiError
unfolding new_api_err
new_api_err_unknown_internal e =
    new_api_err internal_error err_unknown_internal (with_message e "unknown internal error")
      no_info
