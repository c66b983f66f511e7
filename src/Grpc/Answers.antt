-- ===== src/Grpc/Answers.antt =====
-- api/grpc/server.go: what the handlers answer.
use dst_go.Base.{
  ℕ, String, List, [], ◌∷◌, ◌++◌, Bool, true, false, Option, none, some, Exec, done, panic, blocks,
  ◌>>=◌, Returns, if◌then◌else◌, ◌≡◌, refl,
}
use dst_go.Errors.{ApiError, returned, refused}
use dst_go.Payment.Notifs.{PayChUpdateNotif}
use dst_go.Channel.{Context}
use dst_go.Grpc.{PaymentMsg, BalInfoMsg, PeerIdMsg, MsgError, UpdateMsg, error_msg, msg_success}
use dst_go.Grpc.Api.{PayApi}
use dst_go.Grpc.Convert.{to_grpc_error, to_update_msg, from_grpc_bal_info, from_grpc_peer_id}
use dst_go.Grpc.Server.{
  Server, ended, err_response, with_session, with_ch, Answer, sub_pay_ch_proposals,
  sub_pay_ch_updates, begin_proposals, begin_updates, is_closed_update, end_if_closed,
  notify_update,
}
use dst_go.Grpc.Server.Handlers
use dst_go.Grpc.Server.Handlers.{unsubscribed_updates, unsubscribed_proposals}
use dst_go.Grpc.Places.{Place, proposals_of, updates_of, signal_at}
use dst_go.Grpc.Subscriptions.{IsInOrder, Ended, end_at}
use dst_go.Grpc.Changes.{EndsBy, end_at-EndsBy}

module _ (api : PayApi) where
  open api use {Node, SessionRef, ChRef, get_session, get_ch}

  no_session_answer :
      {A : Type 0} (s : String) (go_on : SessionRef → Answer api A) (a : Server Node) (e : ApiError)
      (msg : MsgError)
      → get_session s a.node ≡ done (refused e)
      → to_grpc_error e ≡ done msg
      → with_session api s go_on a ≡ done (a, error_msg msg)
  unfolding with_session err_response
  no_session_answer s go_on a e msg h g = rw (h, with_session) (rw g refl)

  -- A request for a session that the node refuses is answered by this error, whatever the request is,
  -- and a subscription ends with it; the server is as it was.
  pub no_session_answers :
      (s h alias id token : String) (p : Option PeerIdMsg) (bal : Option BalInfoMsg)
      (payments : List PaymentMsg) (ctx : Context) (secs stream : ℕ) (flag : Bool) (a : Server Node)
      (e : ApiError) (msg : MsgError)
      → get_session s a.node ≡ done (refused e)
      → to_grpc_error e ≡ done msg
      → (Handlers.add_peer_id api s p a ≡ done (a, error_msg msg))
        × (Handlers.get_peer_id api s alias a ≡ done (a, error_msg msg))
        × (Handlers.open_pay_ch api ctx s bal secs a ≡ done (a, error_msg msg))
        × (Handlers.get_pay_chs_info api s a ≡ done (a, error_msg msg))
        × (sub_pay_ch_proposals api s stream a ≡ done (a, ended e))
        × (Handlers.unsub_pay_ch_proposals api s a ≡ done (a, error_msg msg))
        × (Handlers.respond_pay_ch_proposal api ctx s id flag a ≡ done (a, error_msg msg))
        × (Handlers.close_session api s flag a ≡ done (a, error_msg msg))
        × (Handlers.deploy_asset_erc20 api s token a ≡ done (a, error_msg msg))
        × (Handlers.send_pay_ch_update api ctx s h payments a ≡ done (a, error_msg msg))
        × (sub_pay_ch_updates api s h stream a ≡ done (a, ended e))
        × (Handlers.unsub_pay_ch_updates api s h a ≡ done (a, error_msg msg))
        × (Handlers.respond_pay_ch_update api ctx s h id flag a ≡ done (a, error_msg msg))
        × (Handlers.get_pay_ch_info api s h a ≡ done (a, error_msg msg))
        × (Handlers.close_pay_ch api ctx s h a ≡ done (a, error_msg msg))
  unfolding Handlers.add_peer_id Handlers.get_peer_id Handlers.open_pay_ch Handlers.get_pay_chs_info
      Handlers.unsub_pay_ch_proposals Handlers.respond_pay_ch_proposal Handlers.close_session
      Handlers.deploy_asset_erc20 Handlers.send_pay_ch_update Handlers.unsub_pay_ch_updates
      Handlers.respond_pay_ch_update Handlers.get_pay_ch_info Handlers.close_pay_ch
      sub_pay_ch_proposals begin_proposals sub_pay_ch_updates begin_updates with_ch
  no_session_answers s h alias id token p bal payments ctx secs stream flag a e msg k g = (
    no_session_answer s _ a e msg k g,
    no_session_answer s _ a e msg k g,
    no_session_answer s _ a e msg k g,
    no_session_answer s _ a e msg k g,
    rw (k, begin_proposals) refl,
    no_session_answer s _ a e msg k g,
    no_session_answer s _ a e msg k g,
    no_session_answer s _ a e msg k g,
    no_session_answer s _ a e msg k g,
    no_session_answer s _ a e msg k g,
    rw (k, begin_updates) refl,
    no_session_answer s _ a e msg k g,
    no_session_answer s _ a e msg k g,
    no_session_answer s _ a e msg k g,
    no_session_answer s _ a e msg k g,
  )

  -- A request that leaves out the peer ID, or the balance info, makes the server panic once the
  -- session is found.
  pub missing_field_panics :
      (s : String) (sess : SessionRef) (ctx : Context) (secs : ℕ) (a : Server Node)
      → get_session s a.node ≡ done (returned sess)
      → (Handlers.add_peer_id api s none a ≡ panic)
        × (Handlers.open_pay_ch api ctx s none secs a ≡ panic)
  unfolding Handlers.add_peer_id Handlers.open_pay_ch with_session from_grpc_peer_id
      from_grpc_bal_info
  missing_field_panics s sess ctx secs a h = (rw (h, with_session) refl, rw (h, with_session) refl)

  -- What unsubscribing comes to, by the signal of the subscription.
  abbrev pub Unsubscribed : Place → Server Node → Option ℕ → Answer api Bool → Type 0
  Unsubscribed p a none m = m ≡ panic
  Unsubscribed p a (some c) m =
      Returns (λ out. Ended p c a out.0 × IsInOrder out.0 × (out.1 ≡ msg_success true)) m

  unsubscribed :
      (p : Place) (a : Server Node) (signal : Option ℕ) (m : Exec (Server Node))
      → EndsBy p a signal m
      → Unsubscribed p a signal (m >>= λ a'. done (a', msg_success true))
  unsubscribed p a none m e = rw e refl
  unsubscribed p a (some c) (done a') (e, o) = (e, o, refl)
  unsubscribed p a (some c) panic h = h
  unsubscribed p a (some c) blocks h = h

  -- Unsubscribing from the updates of a channel, where the node agrees: the signal of the
  -- subscription is closed and gone, the answer is a success, and nothing else of the table changes;
  -- without a signal, as before the subscription has put it there, the server panics.
  pub unsub_pay_ch_updates-Unsubscribed :
      (s h : String) (sess : SessionRef) (ch : ChRef) (n : Node) (a : Server Node)
      → IsInOrder a
      → get_session s a.node ≡ done (returned sess)
      → get_ch sess h a.node ≡ done (returned ch)
      → api.unsub_pay_ch_updates ch a.node ≡ done (n, none)
      → Unsubscribed
          (updates_of s h)
          (record a { node = n })
          (signal_at a (updates_of s h))
          (Handlers.unsub_pay_ch_updates api s h a)
  unfolding Handlers.unsub_pay_ch_updates with_ch with_session unsubscribed_updates signal_at
  unsub_pay_ch_updates-Unsubscribed s h sess ch n a o is_sess is_ch is_unsub =
      let p = updates_of s h in
      let a' : Server Node = record a { node = n } in
      rw (is_sess, with_session)
        (rw is_ch
          (rw is_unsub (unsubscribed p a' (signal_at a' p) (end_at p a') (end_at-EndsBy p a' o))))

  -- The same for the proposals of a session.
  pub unsub_pay_ch_proposals-Unsubscribed :
      (s : String) (sess : SessionRef) (n : Node) (a : Server Node)
      → IsInOrder a
      → get_session s a.node ≡ done (returned sess)
      → api.unsub_pay_ch_proposals sess a.node ≡ done (n, none)
      → Unsubscribed
          (proposals_of s)
          (record a { node = n })
          (signal_at a (proposals_of s))
          (Handlers.unsub_pay_ch_proposals api s a)
  unfolding Handlers.unsub_pay_ch_proposals with_session unsubscribed_proposals signal_at
  unsub_pay_ch_proposals-Unsubscribed s sess n a o is_sess is_unsub =
      let p = proposals_of s in
      let a' : Server Node = record a { node = n } in
      rw (is_sess, with_session)
        (rw is_unsub (unsubscribed p a' (signal_at a' p) (end_at p a') (end_at-EndsBy p a' o)))

module _ {N : Type 0} where
  -- The server after a message was sent on the stream of a subscription.
  abbrev pub with_message : ℕ → UpdateMsg → Server N → Server N
  with_message stream msg a = record a { updates_sent = a.updates_sent ++ (stream, msg) ∷ [] }

  -- A notification of an update whose message can be made adds this message to those sent on the
  -- stream and no other. If it tells that the channel was closed, the subscription ends as well: its
  -- signal is closed and gone, or the server panics where there is none yet. Any other leaves the
  -- table as it was.
  pub notify_update-Ends :
      (s h : String) (stream : ℕ) (notif : PayChUpdateNotif) (msg : UpdateMsg) (a : Server N)
      → IsInOrder a
      → to_update_msg notif ≡ done msg
      → (if is_closed_update notif.type
          then EndsBy
              (updates_of s h)
              (with_message stream msg a)
              (signal_at a (updates_of s h))
              (notify_update s h stream notif a)
          else notify_update s h stream notif a ≡ done (with_message stream msg a))
  unfolding notify_update end_if_closed signal_at
  notify_update-Ends s h stream notif msg a o e =
      rw (e, notify_update) (by_type (is_closed_update notif.type))
    where
      by_type :
          (closed : Bool)
          → (if closed
              then EndsBy
                  (updates_of s h)
                  (with_message stream msg a)
                  (signal_at a (updates_of s h))
                  (end_if_closed s h closed (with_message stream msg a))
              else end_if_closed s h closed (with_message stream msg a)
                ≡ done (with_message stream msg a))
      by_type true = end_at-EndsBy (updates_of s h) (with_message stream msg a) o
      by_type false = refl
