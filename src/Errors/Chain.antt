-- ===== src/Errors/Chain.antt =====
-- errors.go: the chain of a wrapped error: `errors.As`, `errors.Is` and `Error()`.
use dst_go.Base.{String, Bool, false, Option, none, some, ◌&◌, print_uint, str_eq}
use dst_go.Errors.{
  ErrorCategory, participant_error, client_error, protocol_fatal_error, internal_error, GoError,
  text, with_message, tx_timedout_error, chain_not_reachable_error, request_timed_out_error,
  peer_rejected_error, funding_timeout_error, asset_erc20_registered_error, invalid_contract_error,
  api_error,
}

-- `ErrorCategory.String`
pub category_string : ErrorCategory → String
category_string participant_error = "Participant"
category_string client_error = "Client"
category_string protocol_fatal_error = "Protocol Fatal"
category_string internal_error = "Internal"

-- `err.Error()`
unfoldable pub error_string : GoError → String
unfolding category_string
error_string (text s) = s
error_string (with_message e m) = m & ": " & error_string e
error_string (tx_timedout_error tx_type tx_id m) = m
error_string (chain_not_reachable_error m) = m
error_string (request_timed_out_error m) = m
error_string (peer_rejected_error reason m) = m
error_string (funding_timeout_error peers m) = m
error_string (asset_erc20_registered_error asset symbol) =
    "already registered asset (" & asset & ") for the symbol " & symbol
error_string (invalid_contract_error name address e) =
    "invalid asset " & name & " contract at address " & address & ": " & error_string e
error_string (api_error c n i e) = category_string c & " " & print_uint n & ":" & error_string e

-- What `view` accepts first along the chain of `Unwrap`, the error itself included.
module _ {ℓ} {A : Type ℓ} (view : GoError → Option A) where
  or_inner : Option A → Option A → Option A
  or_inner (some a) inner = some a
  or_inner none inner = inner

  unfoldable pub errors_as : GoError → Option A
  unfolding or_inner
  errors_as (with_message e m) = or_inner (view (with_message e m)) (errors_as e)
  errors_as (invalid_contract_error name address e) =
      or_inner (view (invalid_contract_error name address e)) (errors_as e)
  errors_as (api_error c n i e) = or_inner (view (api_error c n i e)) (errors_as e)
  errors_as (text s) = view (text s)
  errors_as (tx_timedout_error tx_type tx_id m) = view (tx_timedout_error tx_type tx_id m)
  errors_as (chain_not_reachable_error m) = view (chain_not_reachable_error m)
  errors_as (request_timed_out_error m) = view (request_timed_out_error m)
  errors_as (peer_rejected_error reason m) = view (peer_rejected_error reason m)
  errors_as (funding_timeout_error peers m) = view (funding_timeout_error peers m)
  errors_as (asset_erc20_registered_error asset symbol) =
      view (asset_erc20_registered_error asset symbol)

-- `errors.Is(err, target)` for a constant error.
unfoldable pub errors_is : GoError → String → Bool
errors_is (text s) target = str_eq s target
errors_is (with_message e m) target = errors_is e target
errors_is (invalid_contract_error name address e) target = errors_is e target
errors_is (api_error c n i e) target = errors_is e target
errors_is _ target = false
