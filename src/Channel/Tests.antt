-- ===== src/Channel/Tests.antt =====
-- Runs of the methods of a channel, and the theorems about them at concrete inputs.
use dst_go.Base.{
  [], ◌∷◌, ◌++◌, if◌then◌else◌, ◌==◌, true, false, none, some, done, Returns, lookup, print_uint,
  ◌≡◌, refl, inl, arith, second, ◌≤◌, ◌*◌, insert, erase, print_hex,
}
use dst_go.Perun.Notifs.{ChUpdateNotif, open_update, closed_update}
use dst_go.Errors.Api.{new_api_err_failed_pre_condition, new_api_err_resource_not_found}
use dst_go.Session.Timeout.{propose_ch, propose_ch_exact, settle}
use dst_go.Channel.{background, closed_ch}
use dst_go.Channel.Info.{new_ch, make_ch_info, current_ch_info}
use dst_go.Channel.Updates.{
  Ch, reply, handle_update, send_cached, sub_ch_updates, respond_ch_update, err_ch_closed,
  update_id, unix_after, make_ch_update_notif, res_type_update,
}
use dst_go.Channel.Closing.{concluded_event, registered_event, settle_ch, handle_adjudicator_event}
use dst_go.Channel.Toy.{
  entry_at, toy, eth, state_at, timeouts, fresh, info_at, notif_at, updated, subscribed,
}
use dst_go.Channel.Invariant.{Inv}
use dst_go.Channel.Steps.{Step, Reach, here, next, subscribes, new_ch-Reach-Inv, closed_for_good}
use dst_go.Channel.Delivery.{history, sub_ch_updates-history, handle_update-history}
use dst_go.Channel.Responses.{respond_twice}
use dst_go.Channel.Life.{final_update_closes}
use dst_go.Channel.Settling.{settled, event_closes_watched}

-- `new_ch` makes that channel.
new_ch_example :
    new_ch toy (state_at 0 7 3 false) "ws://localhost" (eth ∷ []) ("self" ∷ "bob" ∷ []) timeouts 60
    ≡ fresh
unfolding new_ch print_hex insert
new_ch_example = refl

handle_update_example :
    handle_update toy
      (100 * second)
      (state_at 0 7 3 false)
      (state_at 1 5 5 false)
      (state_at 1 5 5 false)
      fresh
    ≡ done (updated false)
unfolding handle_update make_ch_update_notif make_ch_info unix_after insert print_uint update_id
handle_update_example = refl

sub_ch_updates_example : sub_ch_updates toy 4 (updated false) ≡ done (subscribed, none)
unfolding sub_ch_updates send_cached
sub_ch_updates_example = refl

first_call : Step toy fresh (record fresh { notifier = some 4 })
unfolding sub_ch_updates send_cached
first_call = subscribes 4 none refl

first_run : Reach toy fresh (record fresh { notifier = some 4 })
first_run = next here first_call

new_ch_run :
    Reach toy
      (new_ch toy
        (state_at 0 7 3 false)
        "ws://localhost"
        (eth ∷ [])
        ("self" ∷ "bob" ∷ [])
        timeouts
        60)
      (record fresh { notifier = some 4 })
unfolding new_ch print_hex insert
new_ch_run = first_run

new_ch-Reach-Inv_example : Inv toy (record fresh { notifier = some 4 })
new_ch-Reach-Inv_example =
    new_ch-Reach-Inv toy (state_at 0 7 3 false) "ws://localhost" (eth ∷ []) ("self" ∷ "bob" ∷ [])
      timeouts 60 new_ch_run

closed_call : Step toy (record fresh { status = closed_ch }) (record fresh { status = closed_ch })
unfolding sub_ch_updates
closed_call = subscribes 4 (some (new_api_err_failed_pre_condition err_ch_closed)) refl

closed_for_good_example : (closed_ch ≡ closed_ch) × ((fresh.params) ≡ fresh.params)
closed_for_good_example =
    closed_for_good toy {c = record fresh { status = closed_ch }} (next here closed_call) refl

accepted_once :
    respond_ch_update toy background 110 (update_id "ab" 1) true (updated false)
    ≡ done (
      record (updated false) { pch = state_at 1 5 5 false; responders = [] },
      info_at 1 "5" "5",
      none,
    )
unfolding respond_ch_update make_ch_info current_ch_info lookup erase print_uint update_id
accepted_once = refl

respond_twice_example :
    respond_ch_update toy background 111
      (update_id "ab" 1)
      false
      (record (updated false) { pch = state_at 1 5 5 false; responders = [] })
    ≡ reply toy
        (record (updated false) { pch = state_at 1 5 5 false; responders = [] })
        (some (new_api_err_resource_not_found res_type_update (update_id "ab" 1)))
respond_twice_example =
    respond_twice toy (updated false)
      (record (updated false) { pch = state_at 1 5 5 false; responders = [] }) background background
      110 111 (update_id "ab" 1) true false (info_at 1 "5" "5") none refl refl accepted_once

sub_ch_updates-history_example :
    Returns
      (λ r.
        (history toy r.0 ≡ history toy (updated false))
        × (r.0.notif_cache ≡ [])
        × (r.0.notifier ≡ some 4)
        × (r.1 ≡ none)
        × (r.0.sent ≡ (4, notif_at false) ∷ []))
      (sub_ch_updates toy 4 (updated false))
sub_ch_updates-history_example = sub_ch_updates-history toy 4 (updated false) refl refl refl

handle_update-history_example :
    Returns
      (λ ch'.
        (n : ChUpdateNotif) × (history toy ch' ≡ n ∷ [])
        × (n.update_id ≡ update_id "ab" 1)
        × (n.type ≡ open_update)
        × (n.expiry ≡ unix_after (100 * second) (20 * second))
        × (lookup n.update_id ch'.responders ≡ (
            if n.expiry == 0
            then none
            else some
                (record { notif = n; responder = state_at 1 5 5 false; notif_expiry = n.expiry }))))
      (handle_update toy
        (100 * second)
        (state_at 0 7 3 false)
        (state_at 1 5 5 false)
        (state_at 1 5 5 false)
        fresh)
unfolding lookup
handle_update-history_example =
    handle_update-history toy (100 * second) (state_at 0 7 3 false) (state_at 1 5 5 false)
      (state_at 1 5 5 false) fresh refl refl (inl refl) (omega arith) (omega arith)

event_closes_watched_example :
    Returns
      (λ d.
        (d.status ≡ closed_ch)
        × (d.notifier ≡ none)
        × (d.pch ≡ (settled toy subscribed).pch)
        × ((n : ChUpdateNotif) × (d.sent ≡ subscribed.sent ++ (4, n) ∷ [])
            × (n.type ≡ closed_update)
            × (n.error ≡ (settle_ch toy subscribed).1)
            × (n.expiry ≡ 0)))
      (handle_adjudicator_event toy registered_event subscribed)
unfolding settle_ch
event_closes_watched_example =
    event_closes_watched toy registered_event subscribed 4 refl (omega arith) refl
      (inl (refl, refl)) refl

-- A channel with a subscriber and a final update of the peer to answer.
abbrev ending : Ch toy
ending = record (updated true) { notifier = some 4; notif_cache = [] }

update_to_end : lookup (update_id "ab" 1) ending.responders ≡ some (entry_at true)
unfolding lookup update_id print_uint
update_to_end = refl

final_update_closes_example :
    Returns
      (λ r.
        Returns
          (λ d.
            (d.status ≡ closed_ch)
            × (d.notifier ≡ none)
            × (d.pch ≡ state_at 1 5 5 true)
            × ((n : ChUpdateNotif) × (d.sent ≡ (4, n) ∷ []) × (n.type ≡ closed_update)))
          (handle_adjudicator_event toy concluded_event r.0))
      (respond_ch_update toy background 120 (update_id "ab" 1) true ending)
final_update_closes_example =
    final_update_closes toy ending background 120 4 (update_id "ab" 1) (entry_at true) refl refl
      refl update_to_end (omega arith) refl refl refl (omega arith) (omega arith) refl

propose_ch_exact_example : settle timeouts 60 ≤ propose_ch timeouts 60
propose_ch_exact_example = (propose_ch_exact timeouts 60 (omega arith)).4
