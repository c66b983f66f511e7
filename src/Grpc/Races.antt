-- ===== src/Grpc/Races.antt =====
-- api/grpc/server.go: the handlers of the subscription to proposals, in the orders in which their
-- steps can come.
use dst_go.Base.{
  ℕ, String, [], ◌∷◌, ◌++◌, Bool, true, none, some, Exec, done, panic, blocks, ◌>>=◌, Returns,
  Returns-mono, lookup, lookup-insert_self, map, ◌≡◌, refl, subst, ap, ◌∙◌, arith, eq_iff,
}
use dst_go.Session.State.{Backend, SessionOf}
use dst_go.Session.State.Proposals.{unsub_ch_proposals}
use dst_go.Session.State.Inbox.{sub_open}
use dst_go.Node.{NodeHost, NodeOf, backend_at, put_session}
use dst_go.Node.Service.{Outside, pay_api, on_session}
use dst_go.Payment.Sessions.{sub_pay_ch_proposals, unsub_pay_ch_proposals}
use dst_go.Grpc.{Response, msg_success}
use dst_go.Grpc.Server.{begin_proposals, keep_proposal_signal}
use dst_go.Grpc.Server.Handlers
use dst_go.Grpc.Server.Handlers.{unsubscribed_proposals}
use dst_go.Grpc.Places.{proposals_of, signal_at}
use dst_go.Grpc.Subscriptions.{IsInOrder, Ended}
use dst_go.Grpc.Changes.{keep_at-KeepsBy}
use dst_go.Grpc.Answers.{Unsubscribed, unsub_pay_ch_proposals-Unsubscribed}
use dst_go.Grpc.Events.{Event, begin_sub_proposals, keep_sub_proposals, serve, serve_all}
use dst_go.Grpc.Events
use dst_go.Grpc.Whole.{S, IsReady, session_there, ref_there}

module _ (b : Backend) (host : NodeHost) (outside : Outside b host) (id : String) (stream : ℕ)
    (s : SessionOf b) where
  -- The session with the subscriber.
  abbrev watched : NodeOf b host → SessionOf b
  watched n = record s {
    contracts = n.contract_registry;
    proposal_notifier = some stream;
    proposals_sent = s.proposals_sent ++ map (λ n. (stream, n)) s.proposal_notif_cache;
    proposal_notif_cache = [];
  }

  module _ (a : S b host outside) (there : lookup id a.node.sessions ≡ some s)
      (ready : IsReady b host outside s) (alone : s.proposal_notifier ≡ none) where
    -- The server after the first half of subscribing.
    abbrev begun : S b host outside
    begun = record a { node = put_session b host id (watched a.node) a.node }

    begin_there : begin_proposals (pay_api b host outside) id stream a ≡ done (begun, none)
    unfolding begin_proposals on_session sub_pay_ch_proposals
    begin_there =
        rw (ref_there b host outside id s a.node there, begin_proposals)
          (rw (session_there b host outside id s a.node there, on_session)
            (rw
              (sub_open (backend_at b host a.node) stream
                (record s { contracts = a.node.contract_registry }) ready.0 ready.1 alone)
              refl))

    -- The node after the subscription is taken back.
    abbrev taken_back : NodeOf b host
    taken_back =
        put_session b host id (record (watched a.node) { proposal_notifier = none }) begun.node

    unsub_there :
        on_session b host id (unsub_pay_ch_proposals (backend_at b host begun.node)) begun.node
        ≡ done (taken_back, none)
    unfolding on_session unsub_pay_ch_proposals unsub_ch_proposals put_session
    unsub_there =
        rw
          (
            session_there b host outside id (watched a.node) begun.node
                (lookup-insert_self id (watched a.node) a.node.sessions),
            on_session,
          )
          (rw (ready.0, unsub_ch_proposals) (rw (ready.1) refl))

    begun_there : lookup id begun.node.sessions ≡ some (watched a.node)
    unfolding put_session
    begun_there = lookup-insert_self id (watched a.node) a.node.sessions

    -- The subscription has ended, and the answer is a success.
    abbrev Late : S b host outside × Response Bool → Type 0
    Late out =
        ((out.0).closed ≡ a.next_signal ∷ a.closed)
        × (signal_at out.0 (proposals_of id) ≡ none)
        × (out.1 ≡ msg_success true)

    module _ (o : IsInOrder a) (no_signal : signal_at a (proposals_of id) ≡ none) where
      begun_order : IsInOrder begun
      unfolding signal_at
      begun_order = o

      unsub_early : Handlers.unsub_pay_ch_proposals (pay_api b host outside) id begun ≡ panic
      unfolding signal_at
      unsub_early =
          subst
            (λ c.
              Unsubscribed (pay_api b host outside) (proposals_of id)
                (record begun { node = taken_back }) c
                (Handlers.unsub_pay_ch_proposals (pay_api b host outside) id begun))
            no_signal
            (unsub_pay_ch_proposals-Unsubscribed (pay_api b host outside) id id taken_back begun
              begun_order (ref_there b host outside id (watched a.node) begun.node begun_there)
              unsub_there)

      -- The server after the whole of subscribing.
      kept : S b host outside
      kept = (keep_proposal_signal id begun).0

      same_node : kept.node ≡ begun.node
      unfolding kept keep_proposal_signal
      same_node = refl

      signal_kept : signal_at kept (proposals_of id) ≡ some a.next_signal
      unfolding kept
      signal_kept =
          let (k, o') = keep_at-KeepsBy (proposals_of id) begun begun_order in
          k.one_put (proposals_of id) ∙ ground (arith, eq_iff id id)

      kept_order : IsInOrder kept
      unfolding kept
      kept_order = (keep_at-KeepsBy (proposals_of id) begun begun_order).1

      closed_kept : kept.closed ≡ a.closed
      unfolding kept keep_proposal_signal
      closed_kept = refl

      unsub-Late : Returns Late (Handlers.unsub_pay_ch_proposals (pay_api b host outside) id kept)
      unfolding kept keep_proposal_signal
      unsub-Late =
          Returns-mono
            (λ out.
              Ended (proposals_of id) a.next_signal (record kept { node = taken_back }) out.0
              × IsInOrder out.0
              × (out.1 ≡ msg_success true))
            Late _
            (λ out h. (
              (h.0).one_closed ∙ ap (λ cs. a.next_signal ∷ cs) closed_kept,
              (h.0).one_gone (proposals_of id) ∙ ground (arith, eq_iff id id),
              h.2,
            ))
            (subst
              (λ c.
                Unsubscribed (pay_api b host outside) (proposals_of id)
                  (record kept { node = taken_back }) c
                  (Handlers.unsub_pay_ch_proposals (pay_api b host outside) id kept))
              signal_kept
              (unsub_pay_ch_proposals-Unsubscribed (pay_api b host outside) id id taken_back kept
                kept_order (ref_there b host outside id (watched a.node) begun.node begun_there)
                unsub_there))

    -- On a server that serves an open session without a subscriber: a subscription to the proposals
    -- that is taken back ends, and its signal is closed, if it was taken back after its signal was
    -- put into the table. If the request to take it back is served before that, the server panics.
    pub unsub_pay_ch_proposals_order :
        IsInOrder a
        → signal_at a (proposals_of id) ≡ none
        → (serve_all
              (pay_api b host outside)
              (begin_sub_proposals id stream ∷ Events.unsub_pay_ch_proposals id ∷ [])
              a
            ≡ panic)
          × Returns
              (λ a'.
                (a'.closed ≡ a.next_signal ∷ a.closed) × (signal_at a' (proposals_of id) ≡ none))
              (serve_all
                (pay_api b host outside)
                (begin_sub_proposals id stream
                  ∷ keep_sub_proposals id
                  ∷ Events.unsub_pay_ch_proposals id
                  ∷ [])
                a)
    unfolding serve_all serve kept
    unsub_pay_ch_proposals_order o no_signal = (
      rw begin_there (rw (unsub_early o no_signal) refl),
      rw begin_there (
          after (Handlers.unsub_pay_ch_proposals (pay_api b host outside) id (kept o no_signal))
            (unsub-Late o no_signal)),
    )
      where
        after :
            (m : Exec (S b host outside × Response Bool))
            → Returns Late m
            → Returns
                (λ a'.
                  (a'.closed ≡ a.next_signal ∷ a.closed) × (signal_at a' (proposals_of id) ≡ none))
                ((m >>= λ out. done out.0) >>= done)
        after (done out) h = (h.0, h.1)
        after panic h = h
        after blocks h = h
