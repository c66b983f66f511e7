-- ===== src/Grpc/Tests/Subscribing.antt =====
-- The subscriptions of the server (api/grpc/server.go) at concrete inputs.
use dst_go.Base.{
  erase, List, ℕ, Option, Exec, print_hex, [], ◌∷◌, none, some, done, panic, Ensures, Returns, ◌≡◌,
  refl, lookup, str_eq, Bool-cases, inl, inr, insert,
}
use dst_go.Errors.{returned}
use dst_go.Channel.Toy.{fresh}
use dst_go.Channel.Updates.{sub_ch_updates, send_cached, unsub_ch_updates}
use dst_go.Session.State.{SessionOf}
use dst_go.Session.State.Toy.{toy_backend, session}
use dst_go.Session.State.Channels.{get_chs_info, get_ch, with_chs}
use dst_go.Session.ChRegistry.{get, put, new_ch_registry}
use dst_go.Session.State.Responses.{add_ch}
use dst_go.Channel.Info.{current_ch_info, new_ch, get_ch_info}
use dst_go.Payment.Sessions.{to_pay_session, sub_pay_ch_proposals}
use dst_go.Payment.Notifs.{unsub_pay_ch_updates}
use dst_go.Node
use dst_go.Session.State.Restoring.{new_session, known_peers}
use dst_go.Session.State.Starting.{new_unlocked_user, init_id_provider, new_ethereum_payment_client}
use dst_go.IdProvider.{new_cache_from, write}
use dst_go.Contracts.{asset_eth, symbol_of}
use dst_go.Perun.Info.{address_eq}
use dst_go.Session.State.Proposals.{sub_ch_proposals, get_currencies}
use dst_go.Node.{get_session, put_session}
use dst_go.Node.Service.{pay_api, find_ch, place_of, see_session, on_ch, on_session}
use dst_go.Currencies.{registered_currency, register_currency, new_registry, eth_max_decimals}
use dst_go.Node.Toy.{whole_numbers, ToyNode, outside, node_host, toy_node, fair_chain}
use dst_go.Grpc.Convert.{to_update_msg, to_grpc_notif_error}
use dst_go.Grpc.Server.{
  begin_proposals, begin_updates, with_ch, with_session, keep_proposal_signal, delete_signal,
  close_signal, update_signal, close_grpc_pay_ch_update_sub, Server, new_server, notify_update,
  or_empty, is_in, keep_update_signal, keep_in,
}
use dst_go.Grpc.Server.Handlers
use dst_go.Grpc.Places.{Place, proposals_of, updates_of, signal_at, signal_in}
use dst_go.Grpc.Subscriptions.{IsInOrder}
use dst_go.Grpc.Changes.{EndsBy, keep_at-KeepsBy}
use dst_go.Grpc.Events.{
  Event, serve, serve_all, open_session, begin_sub_proposals, keep_sub_proposals, begin_sub_updates,
  keep_sub_updates,
}
use dst_go.Grpc.Events
use dst_go.Grpc.Order.{serve_all-IsInOrder}
use dst_go.Grpc.Answers.{
  Unsubscribed, unsub_pay_ch_updates-Unsubscribed, with_message, notify_update-Ends,
}
use dst_go.Grpc.Races.{unsub_pay_ch_proposals_order}
use dst_go.Grpc.Book.{session_opened, keep, end, view, run, replay, Refines, run-Refines}
use dst_go.Grpc.Tests.{api, idle, session_kept, closing, closing_msg}

-- A node that has the currency of its registered asset.
abbrev with_eth : ToyNode
with_eth = record (toy_node fair_chain) {
  currency_registry = (register_currency whole_numbers "ETH" eth_max_decimals new_registry).0;
}

-- A session with a restored channel, whose proposals and updates are subscribed to; the updates are
-- unsubscribed from.
abbrev events : List Event
events =
    open_session "session.yaml"
    ∷ begin_sub_proposals "s" 0
    ∷ keep_sub_proposals "s"
    ∷ begin_sub_updates "s" "ab" 1
    ∷ keep_sub_updates "s" "ab"
    ∷ Events.unsub_pay_ch_updates "s" "ab"
    ∷ []

-- The signals that are closed in the end, when the server has not panicked or blocked.
abbrev closed_of : Exec (Server ToyNode) → Option (List ℕ)
closed_of (done a) = some a.closed
closed_of _ = none

served : closed_of (serve_all api events (new_server with_eth)) ≡ some (1 ∷ [])
unfolding serve_all serve Handlers.open_session Handlers.opened_session
    Handlers.unsub_pay_ch_updates Handlers.unsubscribed_updates Handlers.acknowledge begin_proposals
    begin_updates with_ch with_session keep_proposal_signal keep_update_signal keep_in insert erase
    delete_signal close_signal update_signal close_grpc_pay_ch_update_sub is_in Node.open_session
    new_session new_unlocked_user init_id_provider new_cache_from write lookup asset_eth new_server
    new_ethereum_payment_client known_peers get_currencies symbol_of address_eq registered_currency
    register_currency new_registry get_session put_session on_session on_ch find_ch see_session
    get_ch get place_of unsub_pay_ch_updates unsub_ch_updates with_chs add_ch current_ch_info new_ch
    get_chs_info put new_ch_registry get_ch_info to_pay_session sub_pay_ch_proposals
    sub_ch_proposals print_hex sub_ch_updates send_cached
served = refl

serve_all-IsInOrder_example : Ensures IsInOrder (serve_all api events (new_server with_eth))
serve_all-IsInOrder_example = serve_all-IsInOrder api events with_eth

-- A server whose session has a channel, to whose updates a stream is subscribed.
abbrev with_ch_session : SessionOf toy_backend
with_ch_session = record (session (record fresh { notifier = some 4 } ∷ [])) {
  chs = record { ch_idxs = ("ab", 0) ∷ []; chs = record fresh { notifier = some 4 } ∷ [] };
}

abbrev before : Server ToyNode
before = record idle {
  node = record (toy_node fair_chain) { sessions = ("s", with_ch_session) ∷ [] };
}

abbrev subscribed : Server ToyNode
subscribed = record before { ch_updates_notif = ("s", ("ab", 0) ∷ []) ∷ []; next_signal = 1 }

nothing_held : (p : Place) → signal_at before p ≡ none
unfolding signal_at signal_in or_empty lookup
nothing_held (proposals_of s) = refl
nothing_held (updates_of s h) = elim (Bool-cases (str_eq "s" s)) [
  | inl e ↦ rw e refl
  | inr e ↦ rw e refl
]

before-IsInOrder : IsInOrder before
unfolding is_in
before-IsInOrder = record {
  made = λ p c e. cc (nothing_held p);
  running = λ p c e. refl;
  apart = λ p q c e d. cc (nothing_held p);
  past = λ c e. cc;
}

idle-IsInOrder : IsInOrder idle
unfolding signal_at
idle-IsInOrder = before-IsInOrder

subscribed-IsInOrder : IsInOrder subscribed
unfolding keep_update_signal keep_in lookup insert
subscribed-IsInOrder = (keep_at-KeepsBy (updates_of "s" "ab") before before-IsInOrder).1

ch_session_found : api.get_session "s" subscribed.node ≡ done (returned "s")
unfolding get_session lookup
ch_session_found = refl

ch_found : api.get_ch "s" "ab" subscribed.node ≡ done (returned ("s", 0))
unfolding find_ch see_session get_session get_ch get place_of lookup
ch_found = refl

-- The node after the subscriber of the channel is dropped.
abbrev unsubscribed_node : ToyNode
unsubscribed_node = record (subscribed.node) {
  sessions =
      ("s", record with_ch_session { chs = record { ch_idxs = ("ab", 0) ∷ []; chs = fresh ∷ [] } })
      ∷ [];
}

ch_unsubscribed : api.unsub_pay_ch_updates ("s", 0) subscribed.node ≡ done (unsubscribed_node, none)
unfolding on_ch on_session get_session unsub_pay_ch_updates unsub_ch_updates put_session lookup
    insert with_chs
ch_unsubscribed = refl

unsub_pay_ch_updates-Unsubscribed_example :
    Unsubscribed api
      (updates_of "s" "ab")
      (record subscribed { node = unsubscribed_node })
      (signal_at subscribed (updates_of "s" "ab"))
      (Handlers.unsub_pay_ch_updates api "s" "ab" subscribed)
unsub_pay_ch_updates-Unsubscribed_example =
    unsub_pay_ch_updates-Unsubscribed api "s" "ab" "s" ("s", 0) unsubscribed_node subscribed
      subscribed-IsInOrder ch_session_found ch_found ch_unsubscribed

closing_told : to_update_msg closing ≡ done closing_msg
unfolding to_update_msg to_grpc_notif_error
closing_told = refl

notify_update-Ends_example :
    EndsBy
      (updates_of "s" "ab")
      (with_message 4 closing_msg subscribed)
      (signal_at subscribed (updates_of "s" "ab"))
      (notify_update "s" "ab" 4 closing subscribed)
notify_update-Ends_example =
    notify_update-Ends "s" "ab" 4 closing closing_msg subscribed subscribed-IsInOrder closing_told

proposals_not_held : signal_at idle (proposals_of "s") ≡ none
unfolding signal_at signal_in lookup
proposals_not_held = refl

unsub_pay_ch_proposals_order_example :
    (serve_all
        (pay_api toy_backend node_host outside)
        (begin_sub_proposals "s" 1 ∷ Events.unsub_pay_ch_proposals "s" ∷ [])
        idle
      ≡ panic)
    × Returns
        (λ a'. (a'.closed ≡ 0 ∷ []) × (signal_at a' (proposals_of "s") ≡ none))
        (serve_all
          (pay_api toy_backend node_host outside)
          (begin_sub_proposals "s" 1
            ∷ keep_sub_proposals "s"
            ∷ Events.unsub_pay_ch_proposals "s"
            ∷ [])
          idle)
unsub_pay_ch_proposals_order_example =
    unsub_pay_ch_proposals_order toy_backend node_host outside "s" 1 (session []) idle session_kept
      (refl, refl) refl idle-IsInOrder proposals_not_held

run-Refines_example :
    Refines
      (run
        (session_opened "t" ∷ keep (updates_of "t" "cd") ∷ end (updates_of "s" "ab") ∷ [])
        subscribed)
      (replay
        (session_opened "t" ∷ keep (updates_of "t" "cd") ∷ end (updates_of "s" "ab") ∷ [])
        (view subscribed))
run-Refines_example =
    run-Refines (session_opened "t" ∷ keep (updates_of "t" "cd") ∷ end (updates_of "s" "ab") ∷ [])
      subscribed subscribed-IsInOrder
