-- ===== src/Grpc/Api.antt =====
-- perun.go, app/payment/: the calls that the gRPC server makes of the node and of the payment app,
-- as an interface over a state of the node. A session and a channel are references into it. A
-- function that is kept as a subscriber is known by a number.
use dst_go.Base.{ℕ, String, List, Bool, Option, Exec}
use dst_go.Perun.Info.{PeerId, BalInfo, PayChInfo, NodeConfig}
use dst_go.Errors.{ApiError, ApiResult}
use dst_go.Channel.{Context}
use dst_go.Payment.{Payment}

-- `NodeAPI`, `SessionAPI` and `ChAPI`, as package payment wraps them.
pub record PayApi : Type 1 where
  pub Node : Type 0
  pub SessionRef : Type 0
  pub ChRef : Type 0
  pub time : Node → ℕ
  pub get_config : Node → NodeConfig
  pub help : List String
  pub register_currency : String → String → Node → Exec (Node × ApiResult String)
  pub open_session : String → Node → Exec (Node × ApiResult (String × List PayChInfo))
  pub get_session : String → Node → Exec (ApiResult SessionRef)
  pub add_peer_id : SessionRef → PeerId → Node → Exec (Node × Option ApiError)
  pub get_peer_id : SessionRef → String → Node → Exec (ApiResult PeerId)
  pub open_pay_ch : Context → SessionRef → BalInfo → ℕ → Node → Exec (Node × ApiResult PayChInfo)
  pub get_pay_chs_info : SessionRef → Node → Exec (List PayChInfo)
  pub sub_pay_ch_proposals : SessionRef → ℕ → Node → Exec (Node × Option ApiError)
  pub unsub_pay_ch_proposals : SessionRef → Node → Exec (Node × Option ApiError)
  pub respond_pay_ch_proposal :
      Context → SessionRef → String → Bool → Node → Exec (Node × ApiResult PayChInfo)
  pub close_session : SessionRef → Bool → Node → Exec (Node × ApiResult (List PayChInfo))
  pub deploy_asset_erc20 : SessionRef → String → Node → Exec (ApiResult String)
  pub get_ch : SessionRef → String → Node → Exec (ApiResult ChRef)
  pub send_pay_ch_update : Context → ChRef → List Payment → Node → Exec (Node × ApiResult PayChInfo)
  pub sub_pay_ch_updates : ChRef → ℕ → Node → Exec (Node × Option ApiError)
  pub unsub_pay_ch_updates : ChRef → Node → Exec (Node × Option ApiError)
  pub respond_pay_ch_update :
      Context → ChRef → String → Bool → Node → Exec (Node × ApiResult PayChInfo)
  pub get_pay_ch_info : ChRef → Node → Exec PayChInfo
  pub close_pay_ch : Context → ChRef → Node → Exec (Node × ApiResult PayChInfo)
