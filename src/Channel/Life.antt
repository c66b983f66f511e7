-- ===== src/Channel/Life.antt =====
-- session/channel.go: a final update of the peer, from the response of the user to the closing of
-- the channel, and what comes after the closing.
use dst_go.Base.{
  ℕ, String, [], ◌∷◌, ◌++◌, true, none, some, Returns, Returns-mono, Option, false, lookup, erase,
  length, not, ◌≡◌, refl, ◌≤◌, inr,
}
use dst_go.Perun.Notifs.{ChUpdateNotif, final_update, closed_update}
use dst_go.Errors.{ApiError}
use dst_go.Session.Timeout.{register, resp_ch_update, settle}
use dst_go.Channel.{
  PChannel, ChUpdateResponderEntry, Context, background, with_timeout, open_ch, closed_ch,
}
use dst_go.Channel.Balances.{make_ch_info-Returns}
use dst_go.Channel.Info.{current_ch_info}
use dst_go.Channel.Updates.{Ch, Reply, reply, respond_ch_update, accept_ch_update, register_state}
use dst_go.Channel.Closing.{concluded_event, handle_adjudicator_event, settle_ch}
use dst_go.Channel.Responses.{respond_accept_final}
use dst_go.Channel.Settling.{settled, event_closes_watched}

module _ (pc : PChannel) where
  open pc use {
    Ctrl, Responder, pch_state, accept, pch_register, pch_settle, pch_close, watch_returns,
  }

  module _ (ch : Ch pc) (pctx : Context) (entry : ChUpdateResponderEntry Responder) where
    -- The controller after the responder has accepted, after the state was then registered, and
    -- after it was then settled and closed, each within the timeout for it.
    abbrev pub accepted_ctrl : Ctrl
    accepted_ctrl =
        (accept entry.responder (with_timeout pctx (resp_ch_update ch.timeout_cfg)) ch.pch).0

    abbrev pub registered_ctrl : Ctrl
    registered_ctrl =
        (pch_register (with_timeout pctx (register ch.timeout_cfg ch.challenge_dur_secs))
          accepted_ctrl).0

    abbrev pub closed_ctrl : Ctrl
    closed_ctrl =
        let ctx = with_timeout background (settle ch.timeout_cfg ch.challenge_dur_secs) in
        (pch_close (pch_settle ctx (not ch.was_close_initiated) registered_ctrl).0).0

  -- A reply returns when the rows of the state fit the currencies.
  reply-Returns :
      (P : Reply pc → Type 0) (c : Ch pc) (e : _)
      → length (pch_state c.pch).balances ≤ length c.currencies
      → ((r : Reply pc) → r.0 ≡ c → P r)
      → Returns P (reply pc c e)
  unfolding reply current_ch_info
  reply-Returns P c e fits h =
      let (info, q, _, _, _, _, _) = make_ch_info-Returns c.params (pch_state c.pch) fits in
      rw q (h (c, info, e) refl)

  -- The reply to an acceptance in time of a final update, whether it could be registered or not.
  final_registered :
      (ch : Ch pc) (pctx : Context) (now : ℕ) (id : String)
      (entry : ChUpdateResponderEntry Responder)
      → ch.locked ≡ false
      → ch.status ≡ open_ch
      → lookup id ch.responders ≡ some entry
      → now ≤ entry.notif_expiry
      → (accept entry.responder (with_timeout pctx (resp_ch_update ch.timeout_cfg)) ch.pch).1 ≡ none
      → entry.notif.type ≡ final_update
      → (e : Option ApiError) × (respond_ch_update pc pctx now id true ch
          ≡ reply pc
              (record ch {
                responders = erase id ch.responders;
                pch = registered_ctrl ch pctx entry;
              })
              e)
  unfolding accept_ch_update register_state
  final_registered ch pctx now id entry l o known t a f =
      (_, respond_accept_final pc ch pctx now id entry l o known t (rw a refl) f)

  -- On an open channel that is free and has a subscriber, a final update that is accepted in time,
  -- also by the responder, runs to its end, whatever registering and settling return: the state is
  -- registered, and when then the conclusion comes from the chain it is settled and the controller
  -- closed, in this order. The channel is closed, and its subscriber is sent a closing notification
  -- and dropped. This holds when the state that was registered is final, the rows of it and of the
  -- settled state fit the currencies, and the watcher returns once the controller is closed.
  pub final_update_closes :
      (ch : Ch pc) (pctx : Context) (now f : ℕ) (id : String)
      (entry : ChUpdateResponderEntry Responder)
      → ch.locked ≡ false
      → ch.status ≡ open_ch
      → ch.notifier ≡ some f
      → lookup id ch.responders ≡ some entry
      → now ≤ entry.notif_expiry
      → (accept entry.responder (with_timeout pctx (resp_ch_update ch.timeout_cfg)) ch.pch).1 ≡ none
      → entry.notif.type ≡ final_update
      → (pch_state (registered_ctrl ch pctx entry)).is_final ≡ true
      → length (pch_state (registered_ctrl ch pctx entry)).balances ≤ length ch.currencies
      → length (pch_state (closed_ctrl ch pctx entry)).balances ≤ length ch.currencies
      → watch_returns (closed_ctrl ch pctx entry) ≡ true
      → Returns
          (λ r.
            Returns
              (λ d.
                (d.status ≡ closed_ch)
                × (d.notifier ≡ none)
                × (d.pch ≡ closed_ctrl ch pctx entry)
                × ((n : ChUpdateNotif) × (d.sent ≡ ch.sent ++ (f, n) ∷ [])
                    × (n.type ≡ closed_update)))
              (handle_adjudicator_event pc concluded_event r.0))
          (respond_ch_update pc pctx now id true ch)
  unfolding settle_ch
  final_update_closes ch pctx now f id entry l o n known t a final is_final fits fits' w =
      let (e, q) = final_registered ch pctx now id entry l o known t a final in
      rw q (reply-Returns _ _ e fits (λ r s. rw s (concluded _ l n is_final fits' w)))
    where
      concluded :
          (c : Ch pc)
          → c.locked ≡ false
          → c.notifier ≡ some f
          → (pch_state c.pch).is_final ≡ true
          → length (pch_state (settled pc c).pch).balances ≤ length c.currencies
          → watch_returns (settled pc c).pch ≡ true
          → Returns
              (λ d.
                (d.status ≡ closed_ch)
                × (d.notifier ≡ none)
                × (d.pch ≡ (settled pc c).pch)
                × ((m : ChUpdateNotif) × (d.sent ≡ c.sent ++ (f, m) ∷ [])
                    × (m.type ≡ closed_update)))
              (handle_adjudicator_event pc concluded_event c)
      concluded c free sub fin rows ends =
          Returns-mono _ _ (handle_adjudicator_event pc concluded_event c)
            (λ d (st, dropped, ctrl, (m, sent, type, _, _)). (st, dropped, ctrl, (m, sent, type)))
            (event_closes_watched pc concluded_event c f free rows ends (inr (refl, fin)) sub)
