-- ===== src/Grpc/Events.antt =====
-- api/grpc/server.go: what a server meets: the requests, in the order in which it serves them, the
-- two halves of a handler that subscribes, and the calls of the functions that are subscribed.
use dst_go.Base.{ℕ, String, List, [], ◌∷◌, Bool, Option, Exec, done, ◌>>=◌}
use dst_go.Payment.Notifs.{PayChUpdateNotif, PayChProposalNotif}
use dst_go.Channel.{Context}
use dst_go.Grpc.{PaymentMsg, BalInfoMsg, PeerIdMsg}
use dst_go.Grpc.Api.{PayApi}
use dst_go.Grpc.Server.{
  Server, begin_proposals, begin_updates, keep_proposal_signal, keep_update_signal, notify_proposal,
  notify_update,
}
use dst_go.Grpc.Server.Handlers

-- `begin_…` is a subscribing handler up to the subscription, and `keep_…` the rest of it: other
-- events may come in between.
pub data Event : Type 0 where
  register_currency : (token_addr asset_addr : String) → Event
  open_session : (config_file : String) → Event
  add_peer_id : (session_id : String) → Option PeerIdMsg → Event
  get_peer_id : (session_id alias : String) → Event
  open_pay_ch : Context → (session_id : String) → Option BalInfoMsg → ℕ → Event
  get_pay_chs_info : (session_id : String) → Event
  begin_sub_proposals : (session_id : String) → (stream : ℕ) → Event
  keep_sub_proposals : (session_id : String) → Event
  unsub_pay_ch_proposals : (session_id : String) → Event
  respond_pay_ch_proposal : Context → (session_id proposal_id : String) → Bool → Event
  close_session : (session_id : String) → Bool → Event
  deploy_asset_erc20 : (session_id token_addr : String) → Event
  send_pay_ch_update : Context → (session_id ch_id : String) → List PaymentMsg → Event
  begin_sub_updates : (session_id ch_id : String) → (stream : ℕ) → Event
  keep_sub_updates : (session_id ch_id : String) → Event
  unsub_pay_ch_updates : (session_id ch_id : String) → Event
  respond_pay_ch_update : Context → (session_id ch_id update_id : String) → Bool → Event
  get_pay_ch_info : (session_id ch_id : String) → Event
  close_pay_ch : Context → (session_id ch_id : String) → Event
  proposal_notified : (stream : ℕ) → PayChProposalNotif → Event
  update_notified : (session_id ch_id : String) → (stream : ℕ) → PayChUpdateNotif → Event

-- The server after a handler, without what the handler answers.
abbrev after : {N A : Type 0} → Exec (Server N × A) → Exec (Server N)
after m = m >>= λ out. done out.0

module _ (api : PayApi) where
  open api use {Node}

  unfoldable pub serve : Event → Server Node → Exec (Server Node)
  serve (register_currency token asset) a = after (Handlers.register_currency api token asset a)
  serve (open_session config_file) a = after (Handlers.open_session api config_file a)
  serve (add_peer_id s p) a = after (Handlers.add_peer_id api s p a)
  serve (get_peer_id s alias) a = after (Handlers.get_peer_id api s alias a)
  serve (open_pay_ch ctx s bal secs) a = after (Handlers.open_pay_ch api ctx s bal secs a)
  serve (get_pay_chs_info s) a = after (Handlers.get_pay_chs_info api s a)
  serve (begin_sub_proposals s stream) a = after (begin_proposals api s stream a)
  serve (keep_sub_proposals s) a = done (keep_proposal_signal s a).0
  serve (unsub_pay_ch_proposals s) a = after (Handlers.unsub_pay_ch_proposals api s a)
  serve (respond_pay_ch_proposal ctx s id accept) a =
      after (Handlers.respond_pay_ch_proposal api ctx s id accept a)
  serve (close_session s force) a = after (Handlers.close_session api s force a)
  serve (deploy_asset_erc20 s token) a = after (Handlers.deploy_asset_erc20 api s token a)
  serve (send_pay_ch_update ctx s h payments) a =
      after (Handlers.send_pay_ch_update api ctx s h payments a)
  serve (begin_sub_updates s h stream) a = after (begin_updates api s h stream a)
  serve (keep_sub_updates s h) a = after (keep_update_signal s h a)
  serve (unsub_pay_ch_updates s h) a = after (Handlers.unsub_pay_ch_updates api s h a)
  serve (respond_pay_ch_update ctx s h id accept) a =
      after (Handlers.respond_pay_ch_update api ctx s h id accept a)
  serve (get_pay_ch_info s h) a = after (Handlers.get_pay_ch_info api s h a)
  serve (close_pay_ch ctx s h) a = after (Handlers.close_pay_ch api ctx s h a)
  serve (proposal_notified stream n) a = done (notify_proposal stream n a)
  serve (update_notified s h stream n) a = notify_update s h stream n a

  unfoldable pub serve_all : List Event → Server Node → Exec (Server Node)
  unfolding serve
  serve_all [] a = done a
  serve_all (e ∷ es) a = serve e a >>= serve_all es
