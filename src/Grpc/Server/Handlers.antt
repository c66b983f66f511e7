-- ===== src/Grpc/Server/Handlers.antt =====
-- api/grpc/server.go: the handlers of requests.
use dst_go.Base.{ℕ, String, List, [], Bool, true, Option, none, some, done, ◌>>=◌, insert}
use dst_go.Perun.Info.{PayChInfo}
use dst_go.Errors.{ApiError, ApiResult, returned, refused}
use dst_go.Channel.{Context}
use dst_go.Grpc.{PaymentMsg, BalInfoMsg, PayChInfoMsg, PeerIdMsg, msg_success}
use dst_go.Grpc.Api.{PayApi}
use dst_go.Grpc.Convert.{
  from_grpc_payments, from_grpc_bal_info, from_grpc_peer_id, to_grpc_peer_id, to_grpc_pay_ch_info,
  to_grpc_pay_chs_info,
}
use dst_go.Grpc.Server.{
  Server, close_grpc_pay_ch_proposal_sub, close_grpc_pay_ch_update_sub, err_response, Answer,
  with_session, with_ch, answer_with,
}

-- `pb.GetConfigResp`
pub record ConfigMsg : Type 0 where
  pub chain_address : String
  pub adjudicator_field : String
  pub asset_eth_field : String
  pub comm_types_field : List String
  pub id_provider_types_field : List String

module _ (api : PayApi) where
  open api use {Node, SessionRef, ChRef}

  unfoldable pub get_config : Server Node → ConfigMsg
  get_config a =
      let cfg = api.get_config a.node in
      record {
        chain_address = cfg.chain_url;
        adjudicator_field = cfg.adjudicator;
        asset_eth_field = cfg.asset_eth;
        comm_types_field = cfg.comm_types;
        id_provider_types_field = cfg.id_provider_types;
      }

  unfoldable pub time : Server Node → ℕ
  time a = api.time a.node

  unfoldable pub help : Server Node → List String
  help a = api.help

  unfoldable pub register_currency : String → String → Server Node → Answer api String
  unfolding answer_with
  register_currency token_addr asset_addr a =
      api.register_currency token_addr asset_addr a.node >>= answer_with api (λ symbol. symbol) a

  -- The session has a table for the subscriptions of its channels from here on.
  unfoldable pub opened_session :
      Server Node
      → Node × ApiResult (String × List PayChInfo)
      → Answer api (String × List PayChInfoMsg)
  unfolding err_response to_grpc_pay_chs_info
  opened_session a (n, refused e) = err_response (record a { node = n }) e
  opened_session a (n, returned (session_id, restored)) = done (
    record a { node = n; ch_updates_notif = insert session_id [] a.ch_updates_notif },
    msg_success (session_id, to_grpc_pay_chs_info restored),
  )

  unfoldable pub open_session : String → Server Node → Answer api (String × List PayChInfoMsg)
  unfolding opened_session
  open_session config_file a = api.open_session config_file a.node >>= opened_session a

  -- The answer to a call that gives nothing, or an error.
  unfoldable pub acknowledge : Server Node → Node × Option ApiError → Answer api Bool
  unfolding err_response
  acknowledge a (n, some e) = err_response (record a { node = n }) e
  acknowledge a (n, none) = done (record a { node = n }, msg_success true)

  unfoldable pub add_peer_id : String → Option PeerIdMsg → Server Node → Answer api Bool
  unfolding with_session from_grpc_peer_id acknowledge
  add_peer_id session_id peer_id a =
      with_session api session_id
        (λ sess. do
          p ← from_grpc_peer_id peer_id
          out ← api.add_peer_id sess p a.node
          acknowledge a out)
        a

  unfoldable pub get_peer_id : String → String → Server Node → Answer api PeerIdMsg
  unfolding with_session answer_with to_grpc_peer_id
  get_peer_id session_id alias a =
      with_session api session_id
        (λ sess.
          api.get_peer_id sess alias a.node >>= λ r. answer_with api to_grpc_peer_id a (a.node, r))
        a

  unfoldable pub open_pay_ch :
      Context → String → Option BalInfoMsg → ℕ → Server Node → Answer api PayChInfoMsg
  unfolding with_session from_grpc_bal_info answer_with to_grpc_pay_ch_info
  open_pay_ch ctx session_id opening challenge_dur_secs a =
      with_session api session_id
        (λ sess. do
          bal_info ← from_grpc_bal_info opening
          out ← api.open_pay_ch ctx sess bal_info challenge_dur_secs a.node
          answer_with api to_grpc_pay_ch_info a out)
        a

  unfoldable pub get_pay_chs_info : String → Server Node → Answer api (List PayChInfoMsg)
  unfolding with_session to_grpc_pay_chs_info
  get_pay_chs_info session_id a =
      with_session api session_id
        (λ sess. api.get_pay_chs_info sess a.node >>= λ infos.
          done (a, msg_success (to_grpc_pay_chs_info infos)))
        a

  -- `UnsubPayChProposals` behind the call of the session.
  unfoldable pub unsubscribed_proposals :
      String → Server Node → Node × Option ApiError → Answer api Bool
  unfolding err_response close_grpc_pay_ch_proposal_sub
  unsubscribed_proposals session_id a (n, some e) = err_response (record a { node = n }) e
  unsubscribed_proposals session_id a (n, none) =
      close_grpc_pay_ch_proposal_sub session_id (record a { node = n }) >>= λ a'.
      done (a', msg_success true)

  unfoldable pub unsub_pay_ch_proposals : String → Server Node → Answer api Bool
  unfolding with_session unsubscribed_proposals
  unsub_pay_ch_proposals session_id a =
      with_session api session_id
        (λ sess. api.unsub_pay_ch_proposals sess a.node >>= unsubscribed_proposals session_id a) a

  unfoldable pub respond_pay_ch_proposal :
      Context → String → String → Bool → Server Node → Answer api PayChInfoMsg
  unfolding with_session answer_with to_grpc_pay_ch_info
  respond_pay_ch_proposal ctx session_id proposal_id accept a =
      with_session api session_id
        (λ sess.
          api.respond_pay_ch_proposal ctx sess proposal_id accept a.node
          >>= answer_with api to_grpc_pay_ch_info a)
        a

  unfoldable pub close_session : String → Bool → Server Node → Answer api (List PayChInfoMsg)
  unfolding with_session answer_with to_grpc_pay_chs_info
  close_session session_id force a =
      with_session api session_id
        (λ sess. api.close_session sess force a.node >>= answer_with api to_grpc_pay_chs_info a) a

  unfoldable pub deploy_asset_erc20 : String → String → Server Node → Answer api String
  unfolding with_session answer_with
  deploy_asset_erc20 session_id token_addr a =
      with_session api session_id
        (λ sess. api.deploy_asset_erc20 sess token_addr a.node >>= λ r.
          answer_with api (λ asset_addr. asset_addr) a (a.node, r))
        a

  unfoldable pub send_pay_ch_update :
      Context → String → String → List PaymentMsg → Server Node → Answer api PayChInfoMsg
  unfolding with_ch answer_with to_grpc_pay_ch_info from_grpc_payments
  send_pay_ch_update ctx session_id ch_id payments a =
      with_ch api session_id ch_id
        (λ ch.
          api.send_pay_ch_update ctx ch (from_grpc_payments payments) a.node
          >>= answer_with api to_grpc_pay_ch_info a)
        a

  unfoldable pub unsubscribed_updates :
      String → String → Server Node → Node × Option ApiError → Answer api Bool
  unfolding err_response close_grpc_pay_ch_update_sub
  unsubscribed_updates session_id ch_id a (n, some e) = err_response (record a { node = n }) e
  unsubscribed_updates session_id ch_id a (n, none) =
      close_grpc_pay_ch_update_sub session_id ch_id (record a { node = n }) >>= λ a'.
      done (a', msg_success true)

  unfoldable pub unsub_pay_ch_updates : String → String → Server Node → Answer api Bool
  unfolding with_ch unsubscribed_updates
  unsub_pay_ch_updates session_id ch_id a =
      with_ch api session_id ch_id
        (λ ch. api.unsub_pay_ch_updates ch a.node >>= unsubscribed_updates session_id ch_id a) a

  unfoldable pub respond_pay_ch_update :
      Context → String → String → String → Bool → Server Node → Answer api PayChInfoMsg
  unfolding with_ch answer_with to_grpc_pay_ch_info
  respond_pay_ch_update ctx session_id ch_id update_id accept a =
      with_ch api session_id ch_id
        (λ ch.
          api.respond_pay_ch_update ctx ch update_id accept a.node
          >>= answer_with api to_grpc_pay_ch_info a)
        a

  unfoldable pub get_pay_ch_info : String → String → Server Node → Answer api PayChInfoMsg
  unfolding with_ch to_grpc_pay_ch_info
  get_pay_ch_info session_id ch_id a =
      with_ch api session_id ch_id
        (λ ch. api.get_pay_ch_info ch a.node >>= λ info.
          done (a, msg_success (to_grpc_pay_ch_info info)))
        a

  unfoldable pub close_pay_ch : Context → String → String → Server Node → Answer api PayChInfoMsg
  unfolding with_ch answer_with to_grpc_pay_ch_info
  close_pay_ch ctx session_id ch_id a =
      with_ch api session_id ch_id
        (λ ch. api.close_pay_ch ctx ch a.node >>= answer_with api to_grpc_pay_ch_info a) a
