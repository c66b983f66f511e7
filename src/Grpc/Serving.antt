-- ===== src/Grpc/Serving.antt =====
-- api/grpc/server.go: the table of subscriptions under any sequence of events.
use dst_go.Base.{
  ℕ, String, List, Bool, true, false, Option, none, some, Exec, done, panic, blocks, ◌>>=◌, Ensures,
  Ensures->>=, of_done,
}
use dst_go.Perun.Info.{PayChInfo}
use dst_go.Errors.{ApiError, ApiResult, returned, refused}
use dst_go.Payment.Notifs.{PayChUpdateNotif, PayChProposalNotif}
use dst_go.Grpc.{Response}
use dst_go.Grpc.Api.{PayApi}
use dst_go.Grpc.Convert.{to_grpc_error, to_update_msg}
use dst_go.Grpc.Server.{
  Server, err_response, with_session, with_ch, answer_with, begin_proposals, begin_updates,
  notify_proposal, notify_update, Answer, is_closed_update, end_if_closed, Started,
}
use dst_go.Grpc.Server.Handlers.{
  opened_session, acknowledge, unsubscribed_proposals, unsubscribed_updates,
}
use dst_go.Grpc.Places.{
  proposals_of, updates_of, is_update_of, signal_at, signal_in-opened, Place, InOrder-less,
}
use dst_go.Grpc.Subscriptions.{IsInOrder, end_at, keep_at, has_table}
use dst_go.Grpc.Changes.{EndsBy, end_at-EndsBy, KeepsBy, keep_at-KeepsBy}

module _ (api : PayApi) where
  open api use {Node, SessionRef, ChRef, get_session, get_ch}

  abbrev pub Ok : {A : Type 0} → Server Node × A → Type 0
  Ok out = IsInOrder out.0

  -- The table of a server does not know of its node.
  pub with_node : (n : Node) (a : Server Node) → IsInOrder a → IsInOrder (record a { node = n })
  unfolding signal_at
  with_node n a o = o

  pub err_response-Ok :
      (A : Type 0) (a : Server Node) (e : ApiError)
      → IsInOrder a
      → Ensures (Ok {A = Response A}) (err_response a e)
  unfolding err_response
  err_response-Ok A a e o = Ensures->>= Ok (to_grpc_error e) _ (λ msg q. o)

  pub answer_with-Ok :
      {A B : Type 0} (show : A → B) (a : Server Node) (r : Node × ApiResult A)
      → IsInOrder a
      → Ensures Ok (answer_with api show a r)
  unfolding answer_with
  answer_with-Ok show a (n, refused e) o =
      err_response-Ok _ (record a { node = n }) e (with_node n a o)
  answer_with-Ok show a (n, returned v) o = with_node n a o

  pub acknowledge-Ok :
      (a : Server Node) (r : Node × Option ApiError)
      → IsInOrder a
      → Ensures Ok (acknowledge api a r)
  unfolding acknowledge
  acknowledge-Ok a (n, some e) o = err_response-Ok _ (record a { node = n }) e (with_node n a o)
  acknowledge-Ok a (n, none) o = with_node n a o

  pub with_session-Ok :
      {A : Type 0} (s : String) (go_on : SessionRef → Answer api A) (a : Server Node)
      → IsInOrder a
      → ((sess : SessionRef) → Ensures Ok (go_on sess))
      → Ensures Ok (with_session api s go_on a)
  unfolding with_session
  with_session-Ok {A} s go_on a o h = Ensures->>= Ok (get_session s a.node) _ (λ r q. rest r)
    where
      rest :
          (r : ApiResult SessionRef)
          → Ensures
              (Ok {A = Response A})
              (elim r [ refused e ↦ err_response a e | returned sess ↦ go_on sess ])
      rest (refused e) = err_response-Ok A a e o
      rest (returned sess) = h sess

  pub with_ch-Ok :
      {A : Type 0} (s id : String) (go_on : ChRef → Answer api A) (a : Server Node)
      → IsInOrder a
      → ((ch : ChRef) → Ensures Ok (go_on ch))
      → Ensures Ok (with_ch api s id go_on a)
  unfolding with_ch
  with_ch-Ok {A} s id go_on a o h =
      with_session-Ok s _ a o (λ sess. Ensures->>= Ok (get_ch sess id a.node) _ (λ r q. rest r))
    where
      rest :
          (r : ApiResult ChRef)
          → Ensures
              (Ok {A = Response A})
              (elim r [ refused e ↦ err_response a e | returned ch ↦ go_on ch ])
      rest (refused e) = err_response-Ok A a e o
      rest (returned ch) = h ch

  pub after-Ok :
      {A : Type 0} (m : Exec (Server Node × A))
      → Ensures Ok m
      → Ensures IsInOrder (m >>= λ out. done out.0)
  after-Ok (done out) h = h
  after-Ok panic h = h
  after-Ok blocks h = h

  EndsBy-Ensures :
      (p : Place) (a : Server Node) (signal : Option ℕ) (m : Exec (Server Node))
      → EndsBy p a signal m
      → Ensures IsInOrder m
  EndsBy-Ensures p a none m e = rw e tt
  EndsBy-Ensures p a (some c) (done a') h = h.1
  EndsBy-Ensures p a (some c) panic h = tt
  EndsBy-Ensures p a (some c) blocks h = tt

  KeepsBy-Ensures :
      (p : Place) (a : Server Node) (b : Bool) (m : Exec (Server Node × Started))
      → KeepsBy p a b m
      → Ensures Ok m
  KeepsBy-Ensures p a false m e = rw e tt
  KeepsBy-Ensures p a true (done out) h = h.1
  KeepsBy-Ensures p a true panic h = tt
  KeepsBy-Ensures p a true blocks h = tt

  pub end_at-Ok : (p : Place) (a : Server Node) → IsInOrder a → Ensures IsInOrder (end_at p a)
  end_at-Ok p a o = EndsBy-Ensures p a (signal_at a p) (end_at p a) (end_at-EndsBy p a o)

  pub keep_at-Ok : (p : Place) (a : Server Node) → IsInOrder a → Ensures Ok (keep_at p a)
  keep_at-Ok p a o = KeepsBy-Ensures p a (has_table p a) (keep_at p a) (keep_at-KeepsBy p a o)

  pub unsubscribed_proposals-Ok :
      (s : String) (a : Server Node) (r : Node × Option ApiError)
      → IsInOrder a
      → Ensures Ok (unsubscribed_proposals api s a r)
  unfolding unsubscribed_proposals
  unsubscribed_proposals-Ok s a (n, some e) o =
      err_response-Ok _ (record a { node = n }) e (with_node n a o)
  unsubscribed_proposals-Ok s a (n, none) o =
      let a1 = record a { node = n } in
      Ensures->>= Ok (end_at (proposals_of s) a1) _
        (λ a' q. of_done IsInOrder q (end_at-Ok (proposals_of s) a1 (with_node n a o)))

  pub unsubscribed_updates-Ok :
      (s h : String) (a : Server Node) (r : Node × Option ApiError)
      → IsInOrder a
      → Ensures Ok (unsubscribed_updates api s h a r)
  unfolding unsubscribed_updates
  unsubscribed_updates-Ok s h a (n, some e) o =
      err_response-Ok _ (record a { node = n }) e (with_node n a o)
  unsubscribed_updates-Ok s h a (n, none) o =
      let a1 = record a { node = n } in
      Ensures->>= Ok (end_at (updates_of s h) a1) _
        (λ a' q. of_done IsInOrder q (end_at-Ok (updates_of s h) a1 (with_node n a o)))

  pub opened_session-Ok :
      (a : Server Node) (r : Node × ApiResult (String × List PayChInfo))
      → IsInOrder a
      → Ensures Ok (opened_session api a r)
  unfolding opened_session signal_at
  opened_session-Ok a (n, refused e) o =
      err_response-Ok _ (record a { node = n }) e (with_node n a o)
  opened_session-Ok a (n, returned (s, restored)) o =
      InOrder-less (signal_at a) _ a.next_signal a.closed o (is_update_of s)
        (signal_in-opened a.ch_proposals_notif a.ch_updates_notif s)

  pub end_if_closed-Ok :
      (s h : String) (b : Bool) (a : Server Node)
      → IsInOrder a
      → Ensures IsInOrder (end_if_closed s h b a)
  unfolding end_if_closed
  end_if_closed-Ok s h true a o = end_at-Ok (updates_of s h) a o
  end_if_closed-Ok s h false a o = o

  pub with_sent :
      (stream : ℕ) (n : PayChProposalNotif) (a : Server Node)
      → IsInOrder a
      → IsInOrder (notify_proposal stream n a)
  unfolding signal_at notify_proposal
  with_sent stream n a o = o

  pub notify_update-Ok :
      (s h : String) (stream : ℕ) (n : PayChUpdateNotif) (a : Server Node)
      → IsInOrder a
      → Ensures IsInOrder (notify_update s h stream n a)
  unfolding notify_update signal_at
  notify_update-Ok s h stream n a o =
      Ensures->>= IsInOrder (to_update_msg n) _
        (λ msg q. end_if_closed-Ok s h (is_closed_update n.type) _ o)

  pub begin_proposals-Ok :
      (s : String) (stream : ℕ) (a : Server Node)
      → IsInOrder a
      → Ensures Ok (begin_proposals api s stream a)
  unfolding begin_proposals
  begin_proposals-Ok s stream a o = Ensures->>= Ok (get_session s a.node) _ (λ r q. rest r)
    where
      rest :
          (r : ApiResult SessionRef)
          → Ensures (Ok {A = Option ApiError}) (elim r [
            | refused e ↦ done (a, some e)
            | returned sess ↦ api.sub_pay_ch_proposals sess stream a.node >>= λ out.
                done (record a { node = out.0 }, out.1)
          ])
      rest (refused e) = o
      rest (returned sess) =
          Ensures->>= Ok (api.sub_pay_ch_proposals sess stream a.node) _
            (λ out q. with_node out.0 a o)

  pub begin_updates-Ok :
      (s h : String) (stream : ℕ) (a : Server Node)
      → IsInOrder a
      → Ensures Ok (begin_updates api s h stream a)
  unfolding begin_updates
  begin_updates-Ok s h stream a o = Ensures->>= Ok (get_session s a.node) _ (λ r q. rest r)
    where
      found :
          (r : ApiResult ChRef)
          → Ensures (Ok {A = Option ApiError}) (elim r [
            | refused e ↦ done (a, some e)
            | returned ch ↦ api.sub_pay_ch_updates ch stream a.node >>= λ out.
                done (record a { node = out.0 }, out.1)
          ])
      found (refused e) = o
      found (returned ch) =
          Ensures->>= Ok (api.sub_pay_ch_updates ch stream a.node) _ (λ out q. with_node out.0 a o)

      rest :
          (r : ApiResult SessionRef)
          → Ensures (Ok {A = Option ApiError}) (elim r [
            | refused e ↦ done (a, some e)
            | returned sess ↦ get_ch sess h a.node >>= λ r'. elim r' [
              | refused e ↦ done (a, some e)
              | returned ch ↦ api.sub_pay_ch_updates ch stream a.node >>= λ out.
                  done (record a { node = out.0 }, out.1)
            ]
          ])
      rest (refused e) = o
      rest (returned sess) = Ensures->>= Ok (get_ch sess h a.node) _ (λ r q. found r)
