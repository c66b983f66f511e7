-- ===== src/Errors.antt =====
-- errors.go and the error part of perun.go: Go errors as values, and the errors of the API.
pub mod Api
pub mod Chain
pub mod Codes
use dst_go.Base.{ℕ, String, List, ◌≡◌, refl, ◌⊎◌, inl, inr}
use dst_go.Perun.Info.{ChInfo, PayChInfo}

-- `ErrorCategory`
pub data ErrorCategory : Type 0 where
  participant_error client_error protocol_fatal_error internal_error : ErrorCategory

-- `ContractErrInfo`
pub record ContractErrInfo : Type 0 where
  pub name : String
  pub address : String
  pub error : String

-- The additional info of an API error; `no_info` is nil.
pub data AddInfo : Type 0 where
  no_info : AddInfo
  peer_request_timed_out : (peer_alias timeout : String) → AddInfo
  peer_rejected : (peer_alias reason : String) → AddInfo
  peer_not_funded : (peer_alias : String) → AddInfo
  user_response_timed_out : (expiry received_at : ℕ) → AddInfo
  resource_not_found : (type id : String) → AddInfo
  resource_exists : (type id : String) → AddInfo
  invalid_argument : (name value : String) → AddInfo
  unclosed_chs : List ChInfo → AddInfo
  unclosed_pay_chs : List PayChInfo → AddInfo
  invalid_config : (name value : String) → AddInfo
  invalid_contracts : List ContractErrInfo → AddInfo
  tx_timed_out : (tx_type tx_id tx_timeout : String) → AddInfo
  chain_not_reachable : (chain_url : String) → AddInfo

-- A Go error that is not nil. The typed errors of go-perun carry the fields that the node reads,
-- and `message` for what their `Error()` returns.
pub data GoError : Type 0 where
  text : String → GoError
  with_message : GoError → String → GoError
  tx_timedout_error : (tx_type tx_id message : String) → GoError
  chain_not_reachable_error : (message : String) → GoError
  request_timed_out_error : (message : String) → GoError
  peer_rejected_error : (reason message : String) → GoError
  funding_timeout_error : (timed_out_peers : List (List ℕ)) (message : String) → GoError
  asset_erc20_registered_error : (asset symbol : String) → GoError
  invalid_contract_error : (name address : String) → GoError → GoError
  api_error : ErrorCategory → ℕ → AddInfo → GoError → GoError

-- `apiError`
pub record ApiError : Type 0 where
  pub category : ErrorCategory
  pub code : ℕ
  pub err : GoError
  pub add_info : AddInfo

-- An API error where a Go error is expected.
abbrev pub as_go_error : ApiError → GoError
as_go_error e = api_error e.category e.code e.add_info e.err

-- The value and the error that a Go function returns.
pub data Fallible {ℓ} (A : Type ℓ) : Type ℓ where
  ok : A → Fallible A
  fail : GoError → Fallible A

-- The value and the `APIError` that a method of the API returns.
pub data ApiResult {ℓ} (A : Type ℓ) : Type ℓ where
  returned : A → ApiResult A
  refused : ApiError → ApiResult A

pub Fallible-cases {ℓ} :
    {A : Type ℓ} (r : Fallible A) → ((a : A) × (r ≡ ok a)) ⊎ ((e : GoError) × (r ≡ fail e))
Fallible-cases (ok a) = inl (a, refl)
Fallible-cases (fail e) = inr (e, refl)
