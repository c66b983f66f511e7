-- ===== src/Grpc.antt =====
-- api/grpc/server.go: the messages that the server takes and gives, in place of the structures that
-- are generated from api.proto. The elements of a repeated field are never nil in a message that
-- was received; a field that is a message itself may be missing.
pub mod Convert
pub mod Api
pub mod Server
pub mod Places
pub mod Subscriptions
pub mod Changes
pub mod Events
pub mod Serving
pub mod Order
pub mod Answers
pub mod Book
pub mod Whole
pub mod Races
pub mod Roundtrips
mod Tests
use dst_go.Base.{ℕ, String, List, Option}
use dst_go.Errors.{ErrorCategory}

-- `pb.Payment`
pub record PaymentMsg : Type 0 where
  pub currency_field : String
  pub payee_field : String
  pub amount_field : String

-- `pb.BalInfoBal`
pub record BalInfoBal : Type 0 where
  pub bal : List String

-- `pb.BalInfo`
pub record BalInfoMsg : Type 0 where
  pub currencies_field : List String
  pub parts_field : List String
  pub bals_field : List BalInfoBal

-- `pb.PayChInfo`
pub record PayChInfoMsg : Type 0 where
  pub ch_id_field : String
  pub bal_info_field : BalInfoMsg
  pub version_field : String

-- `pb.PeerID`
pub record PeerIdMsg : Type 0 where
  pub alias_field : String
  pub off_chain_address : String
  pub comm_address : String
  pub comm_type_field : String

-- `pb.ContractErrInfo`
pub record ContractErrInfoMsg : Type 0 where
  pub name_field : String
  pub address_field : String
  pub error_field : String

-- The additional info of `pb.MsgError`; `no_info_msg` is nil.
pub data AddInfoMsg : Type 0 where
  no_info_msg : AddInfoMsg
  peer_request_timed_out_msg : (peer_alias timeout : String) → AddInfoMsg
  peer_rejected_msg : (peer_alias reason : String) → AddInfoMsg
  peer_not_funded_msg : (peer_alias : String) → AddInfoMsg
  user_response_timed_out_msg : (expiry received_at : ℕ) → AddInfoMsg
  resource_not_found_msg : (type id : String) → AddInfoMsg
  resource_exists_msg : (type id : String) → AddInfoMsg
  invalid_argument_msg : (name value requirement : String) → AddInfoMsg
  unclosed_chs_msg : List PayChInfoMsg → AddInfoMsg
  invalid_config_msg : (name value : String) → AddInfoMsg
  invalid_contracts_msg : List ContractErrInfoMsg → AddInfoMsg
  tx_timed_out_msg : (tx_type tx_id tx_timeout : String) → AddInfoMsg
  chain_not_reachable_msg : (chain_url : String) → AddInfoMsg

-- `pb.MsgError`
pub record MsgError : Type 0 where
  pub category_field : ErrorCategory
  pub code_field : ℕ
  pub message : String
  pub add_info_field : AddInfoMsg

-- `pb.SubPayChUpdatesResp_Notify_ChUpdateType`
pub data UpdateTypeMsg : Type 0 where
  open_msg final_msg closed_msg : UpdateTypeMsg

-- `pb.SubPayChUpdatesResp_Notify`
pub record UpdateMsg : Type 0 where
  pub update_id_field : String
  pub proposed_pay_ch_info_field : PayChInfoMsg
  pub type_field : UpdateTypeMsg
  pub expiry_field : ℕ
  pub update_error_field : Option MsgError

-- `pb.SubPayChProposalsResp_Notify`
pub record ProposalMsg : Type 0 where
  pub proposal_id_field : String
  pub opening_bal_info_field : BalInfoMsg
  pub challenge_dur_secs_field : ℕ
  pub proposal_expiry_field : ℕ

-- The `Response` of an answer: an error, or what the request asked for.
pub data Response {ℓ} (A : Type ℓ) : Type ℓ where
  error_msg : MsgError → Response A
  msg_success : A → Response A
