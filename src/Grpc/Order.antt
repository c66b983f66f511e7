-- ===== src/Grpc/Order.antt =====
-- api/grpc/server.go: the table of subscriptions under any sequence of events.
use dst_go.Base.{List, [], ◌∷◌, Ensures, Ensures->>=, of_done}
use dst_go.Grpc.Api.{PayApi}
use dst_go.Grpc.Convert.{from_grpc_peer_id, from_grpc_bal_info, from_grpc_payments}
use dst_go.Grpc.Server.{Server, new_server}
use dst_go.Grpc.Server.Handlers
use dst_go.Grpc.Places.{proposals_of, updates_of}
use dst_go.Grpc.Subscriptions.{IsInOrder, new_server-IsInOrder}
use dst_go.Grpc.Events.{
  Event, register_currency, open_session, add_peer_id, get_peer_id, open_pay_ch, get_pay_chs_info,
  begin_sub_proposals, keep_sub_proposals, unsub_pay_ch_proposals, respond_pay_ch_proposal,
  close_session, deploy_asset_erc20, send_pay_ch_update, begin_sub_updates, keep_sub_updates,
  unsub_pay_ch_updates, respond_pay_ch_update, get_pay_ch_info, close_pay_ch, proposal_notified,
  update_notified, serve, serve_all,
}
use dst_go.Grpc.Serving.{
  Ok, answer_with-Ok, acknowledge-Ok, with_session-Ok, with_ch-Ok, after-Ok, keep_at-Ok,
  unsubscribed_proposals-Ok, unsubscribed_updates-Ok, opened_session-Ok, with_sent,
  notify_update-Ok, begin_proposals-Ok, begin_updates-Ok,
}

module _ (api : PayApi) where
  open api use {Node, SessionRef, ChRef}

  -- Every event keeps the table of signals in order.
  serve-IsInOrder : (e : Event) (a : Server Node) → IsInOrder a → Ensures IsInOrder (serve api e a)
  unfolding serve Handlers.register_currency Handlers.open_session Handlers.add_peer_id
      Handlers.get_peer_id Handlers.open_pay_ch Handlers.get_pay_chs_info
      Handlers.unsub_pay_ch_proposals Handlers.respond_pay_ch_proposal Handlers.close_session
      Handlers.deploy_asset_erc20 Handlers.send_pay_ch_update Handlers.unsub_pay_ch_updates
      Handlers.respond_pay_ch_update Handlers.get_pay_ch_info Handlers.close_pay_ch
  serve-IsInOrder (register_currency token asset) a o = after-Ok api _ (
      Ensures->>= (Ok api) (api.register_currency token asset a.node) _
        (λ r q. answer_with-Ok api _ a r o))
  serve-IsInOrder (open_session config_file) a o = after-Ok api _ (
      Ensures->>= (Ok api) (api.open_session config_file a.node) _
        (λ r q. opened_session-Ok api a r o))
  serve-IsInOrder (add_peer_id s p) a o = after-Ok api _ (
      with_session-Ok api s _ a o (λ sess. Ensures->>= (Ok api) (from_grpc_peer_id p) _ (λ peer q.
        Ensures->>= (Ok api) (api.add_peer_id sess peer a.node) _
          (λ r q'. acknowledge-Ok api a r o))))
  serve-IsInOrder (get_peer_id s alias) a o = after-Ok api _ (
      with_session-Ok api s _ a o (λ sess.
        Ensures->>= (Ok api) (api.get_peer_id sess alias a.node) _
          (λ r q. answer_with-Ok api _ a (a.node, r) o)))
  serve-IsInOrder (open_pay_ch ctx s bal secs) a o = after-Ok api _ (
      with_session-Ok api s _ a o (λ sess.
        Ensures->>= (Ok api) (from_grpc_bal_info bal) _ (λ bal_info q.
          Ensures->>= (Ok api) (api.open_pay_ch ctx sess bal_info secs a.node) _
            (λ r q'. answer_with-Ok api _ a r o))))
  serve-IsInOrder (get_pay_chs_info s) a o = after-Ok api _ (
      with_session-Ok api s _ a o
        (λ sess. Ensures->>= (Ok api) (api.get_pay_chs_info sess a.node) _ (λ r q. o)))
  serve-IsInOrder (begin_sub_proposals s stream) a o =
      after-Ok api _ (begin_proposals-Ok api s stream a o)
  serve-IsInOrder (keep_sub_proposals s) a o = keep_at-Ok api (proposals_of s) a o
  serve-IsInOrder (unsub_pay_ch_proposals s) a o = after-Ok api _ (
      with_session-Ok api s _ a o (λ sess.
        Ensures->>= (Ok api) (api.unsub_pay_ch_proposals sess a.node) _
          (λ r q. unsubscribed_proposals-Ok api s a r o)))
  serve-IsInOrder (respond_pay_ch_proposal ctx s id accept) a o = after-Ok api _ (
      with_session-Ok api s _ a o (λ sess.
        Ensures->>= (Ok api) (api.respond_pay_ch_proposal ctx sess id accept a.node) _
          (λ r q. answer_with-Ok api _ a r o)))
  serve-IsInOrder (close_session s force) a o = after-Ok api _ (
      with_session-Ok api s _ a o (λ sess.
        Ensures->>= (Ok api) (api.close_session sess force a.node) _
          (λ r q. answer_with-Ok api _ a r o)))
  serve-IsInOrder (deploy_asset_erc20 s token) a o = after-Ok api _ (
      with_session-Ok api s _ a o (λ sess.
        Ensures->>= (Ok api) (api.deploy_asset_erc20 sess token a.node) _
          (λ r q. answer_with-Ok api _ a (a.node, r) o)))
  serve-IsInOrder (send_pay_ch_update ctx s h payments) a o = after-Ok api _ (
      with_ch-Ok api s h _ a o (λ ch.
        Ensures->>= (Ok api) (api.send_pay_ch_update ctx ch (from_grpc_payments payments) a.node) _
          (λ r q. answer_with-Ok api _ a r o)))
  serve-IsInOrder (begin_sub_updates s h stream) a o =
      after-Ok api _ (begin_updates-Ok api s h stream a o)
  serve-IsInOrder (keep_sub_updates s h) a o = after-Ok api _ (keep_at-Ok api (updates_of s h) a o)
  serve-IsInOrder (unsub_pay_ch_updates s h) a o = after-Ok api _ (
      with_ch-Ok api s h _ a o (λ ch.
        Ensures->>= (Ok api) (api.unsub_pay_ch_updates ch a.node) _
          (λ r q. unsubscribed_updates-Ok api s h a r o)))
  serve-IsInOrder (respond_pay_ch_update ctx s h id accept) a o = after-Ok api _ (
      with_ch-Ok api s h _ a o (λ ch.
        Ensures->>= (Ok api) (api.respond_pay_ch_update ctx ch id accept a.node) _
          (λ r q. answer_with-Ok api _ a r o)))
  serve-IsInOrder (get_pay_ch_info s h) a o = after-Ok api _ (
      with_ch-Ok api s h _ a o
        (λ ch. Ensures->>= (Ok api) (api.get_pay_ch_info ch a.node) _ (λ r q. o)))
  serve-IsInOrder (close_pay_ch ctx s h) a o = after-Ok api _ (
      with_ch-Ok api s h _ a o (λ ch.
        Ensures->>= (Ok api) (api.close_pay_ch ctx ch a.node) _
          (λ r q. answer_with-Ok api _ a r o)))
  serve-IsInOrder (proposal_notified stream n) a o = with_sent api stream n a o
  serve-IsInOrder (update_notified s h stream n) a o = notify_update-Ok api s h stream n a o

  serve_all-from :
      (es : List Event) (a : Server Node) → IsInOrder a → Ensures IsInOrder (serve_all api es a)
  unfolding serve_all
  serve_all-from [] a o = o
  serve_all-from (e ∷ es) a o =
      Ensures->>= IsInOrder (serve api e a) _
        (λ a' q. serve_all-from es a' (of_done IsInOrder q (serve-IsInOrder e a o)))

  -- After any events on a new server, in any order, if it has not panicked or blocked: every signal in
  -- the table was made and is still open, no two places share a signal, and no signal was closed that
  -- was not made.
  pub serve_all-IsInOrder :
      (es : List Event) (n : Node) → Ensures IsInOrder (serve_all api es (new_server n))
  serve_all-IsInOrder es n = serve_all-from es (new_server n) (new_server-IsInOrder n)
