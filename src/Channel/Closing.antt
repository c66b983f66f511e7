-- ===== src/Channel/Closing.antt =====
-- session/channel.go: closing a channel, and the events of the adjudicator contract.
use dst_go.Base.{
  ℕ, [], ◌∷◌, ◌++◌, Bool, true, false, Option, none, some, Exec, done, blocks, ◌>>=◌, not,
  if◌then◌else◌, ◌&◌, duration_string,
}
use dst_go.Perun.Info.{ChInfo, no_ch_info}
use dst_go.Perun.Notifs.{ChUpdateNotif, closed_update}
use dst_go.Errors.{GoError, with_message, ApiError}
use dst_go.Errors.Api.{new_api_err_failed_pre_condition}
use dst_go.Session.Timeout.{ch_update, settle}
use dst_go.Session.Failures.{handle_chain_error, or_internal}
use dst_go.Channel.{State, PChannel, Context, background, with_timeout, closed_ch}
use dst_go.Channel.Info.{current_ch_info}
use dst_go.Channel.Updates.{
  is_closed, err_ch_closed, Ch, Reply, reply, handle_send_ch_update_error, register_state,
}

-- The events that the node tells apart.
pub data AdjudicatorEvent : Type 0 where
  registered_event concluded_event other_event : AdjudicatorEvent

unfoldable pub make_ch_close_notif : ChInfo → Option ApiError → ChUpdateNotif
make_ch_close_notif info e = record {
  update_id = info.ch_id & "_" & info.version & "_closed";
  curr_ch_info = info;
  proposed_ch_info = no_ch_info;
  type = closed_update;
  expiry = 0;
  error = e;
}

-- The updater of `finalize`.
abbrev pub ch_finalizer : State → Exec State
ch_finalizer s = done (record s { is_final = true })

module _ (pc : PChannel) where
  open pc use {Ctrl, pch_state, update_by, pch_settle, pch_close, watch_returns}

  unfoldable pub settle_ch : Ch pc → Ch pc × Option ApiError
  settle_ch ch =
      let (pch, e) =
        pch_settle (with_timeout background (settle ch.timeout_cfg ch.challenge_dur_secs))
          (not ch.was_close_initiated) ch.pch in
      (
        record ch { pch = pch },
        elim e [
          | none ↦ none
          | some err ↦
              let err' = with_message err "settling channel" in
              some (
                or_internal
                  (handle_chain_error ch.chain_url (duration_string ch.timeout_cfg.on_chain_tx)
                    err')
                  err')
        ],
      )

  -- `close`: an error in closing the controller is ignored. `watcherWg.Wait` waits until the watcher
  -- has returned: where it does not return, the channel stays locked and is never closed.
  unfoldable pub close_ctrl : Ch pc → Exec (Ch pc)
  close_ctrl ch =
      let (pch, ignored) = pch_close ch.pch in
      if watch_returns pch then done (record ch { pch = pch; status = closed_ch }) else blocks

  unfoldable pub notify_closed : Option ApiError → Ch pc → Option ℕ → Exec (Ch pc)
  notify_closed e ch none = done ch
  notify_closed e ch (some f) = do
    info ← current_ch_info pc ch
    done (record ch { sent = ch.sent ++ (f, make_ch_close_notif info e) ∷ []; notifier = none })

  -- The notifier is called in this goroutine, and unsubscribed.
  unfoldable pub close_and_notify : Option ApiError → Ch pc → Exec (Ch pc)
  unfolding close_ctrl notify_closed
  close_and_notify e ch = close_ctrl ch >>= λ ch'. notify_closed e ch' ch.notifier

  unfoldable pub settle_and_close : Ch pc → Exec (Ch pc)
  unfolding settle_ch close_and_notify
  settle_and_close ch = let (ch', e) = settle_ch ch in close_and_notify e ch'

  -- The `switch` on the type of the event. The wait for the timeout of a registered event comes
  -- before the settling, whatever it returns.
  unfoldable pub on_event : AdjudicatorEvent → Bool → Ch pc → Exec (Ch pc)
  unfolding settle_and_close
  on_event registered_event false ch = settle_and_close ch
  on_event registered_event true ch = done ch
  on_event concluded_event true ch = settle_and_close ch
  on_event concluded_event false ch = done ch
  on_event other_event final ch = done ch

  -- `HandleAdjudicatorEvent`
  unfoldable pub handle_adjudicator_event : AdjudicatorEvent → Ch pc → Exec (Ch pc)
  unfolding on_event
  handle_adjudicator_event e ch =
      if ch.locked then blocks else on_event e (pch_state ch.pch).is_final ch

  unfoldable pub after_finalize : Ch pc → Ctrl × Option GoError → Exec (Ch pc)
  after_finalize ch (pch, none) = done (record ch { pch = pch })
  after_finalize ch (pch, some e) = do
    api_err ← handle_send_ch_update_error pc (record ch { pch = pch }) e
    done (record ch { pch = pch })

  -- `finalize`: a failure is logged, and the close goes on.
  unfoldable pub finalize : Context → Ch pc → Exec (Ch pc)
  unfolding after_finalize
  finalize pctx ch =
      update_by (with_timeout pctx (ch_update ch.timeout_cfg)) ch_finalizer ch.pch
      >>= after_finalize ch

  unfoldable pub register_and_mark : Context → Ch pc → Exec (Reply pc)
  register_and_mark pctx ch =
      let (ch', e) = register_state pc pctx ch in
      reply pc (record ch' { was_close_initiated = true }) e

  -- `Close`
  unfoldable pub close : Context → Ch pc → Exec (Reply pc)
  unfolding finalize register_and_mark
  close pctx ch =
      if ch.locked
      then blocks
      else if is_closed ch.status
      then reply pc ch (some (new_api_err_failed_pre_condition err_ch_closed))
      else finalize pctx ch >>= register_and_mark pctx
