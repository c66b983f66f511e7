-- ===== src/Channel/Settling.antt =====
-- session/channel.go: the events of the adjudicator, and `Close`.
use dst_go.Base.{
  ℕ, String, [], ◌∷◌, ◌++◌, Bool, true, false, Option, none, some, done, Returns, Ensures, of_done,
  sym, get_elem?, length, ◌≡◌, refl, ◌≤◌, ◌⊎◌, inl, inr, arith, ◌∙◌,
}
use dst_go.Perun.Info.{ChInfo}
use dst_go.Perun.Notifs.{ChUpdateNotif, closed_update}
use dst_go.Errors.{GoError}
use dst_go.Session.Timeout.{ch_update}
use dst_go.Channel.{PChannel, Context, with_timeout, open_ch, closed_ch}
use dst_go.Channel.Info.{make_ch_info, current_ch_info}
use dst_go.Channel.Balances.{make_ch_info-Returns}
use dst_go.Channel.Updates.{Ch, reply, register_state, handle_send_ch_update_error, other_idx}
use dst_go.Channel.Closing.{
  AdjudicatorEvent, registered_event, concluded_event, other_event, settle_ch, close_ctrl,
  notify_closed, close_and_notify, settle_and_close, on_event, handle_adjudicator_event,
  make_ch_close_notif, ch_finalizer, after_finalize, finalize, register_and_mark, close,
}

-- A registered state settles a channel that is not final, a conclusion one that is.
abbrev pub Settles : AdjudicatorEvent → Bool → Type 0
Settles e final =
    ((e ≡ registered_event) × (final ≡ false)) ⊎ ((e ≡ concluded_event) × (final ≡ true))

module _ (pc : PChannel) where
  open pc use {Ctrl, pch_state, pch_settle, pch_close, watch_returns}

  -- The channel with its controller settled and closed.
  abbrev pub settled : Ch pc → Ch pc
  settled ch =
      let c = (settle_ch pc ch).0 in record c { pch = (pch_close c.pch).0; status = closed_ch }

  on_event-Settles :
      (e : AdjudicatorEvent) (final : Bool) (ch : Ch pc)
      → Settles e final
      → on_event pc e final ch ≡ settle_and_close pc ch
  unfolding on_event
  on_event-Settles e final ch h = ground arith

  on_event-ignores :
      (e : AdjudicatorEvent) (final : Bool) (ch : Ch pc)
      → ¬ Settles e final
      → on_event pc e final ch ≡ done ch
  unfolding on_event
  on_event-ignores registered_event false ch h = absurd (h (inl (refl, refl)))
  on_event-ignores registered_event true ch h = refl
  on_event-ignores concluded_event false ch h = refl
  on_event-ignores concluded_event true ch h = absurd (h (inr (refl, refl)))
  on_event-ignores other_event final ch h = refl

  settle_and_close-silent :
      (ch : Ch pc)
      → watch_returns (settled ch).pch ≡ true
      → ch.notifier ≡ none
      → settle_and_close pc ch ≡ done (settled ch)
  unfolding settle_and_close close_and_notify notify_closed settle_ch close_ctrl
  settle_and_close-silent ch w e = ground arith

  settle_and_close-told :
      (ch : Ch pc) (f : ℕ) (info : ChInfo)
      → watch_returns (settled ch).pch ≡ true
      → ch.notifier ≡ some f
      → make_ch_info ch.params (pch_state (settled ch).pch) ≡ done info
      → settle_and_close pc ch
        ≡ done (record (settled ch) {
          sent = ch.sent ++ (f, make_ch_close_notif info (settle_ch pc ch).1) ∷ [];
          notifier = none;
        })
  unfolding settle_and_close close_and_notify notify_closed settle_ch close_ctrl current_ch_info
  settle_and_close-told ch f info w e q = ground arith

  handle_adjudicator_event-on :
      (e : AdjudicatorEvent) (ch : Ch pc)
      → ch.locked ≡ false
      → handle_adjudicator_event pc e ch ≡ on_event pc e (pch_state ch.pch).is_final ch
  unfolding handle_adjudicator_event
  handle_adjudicator_event-on e ch l = ground arith

  handle_adjudicator_event-cases :
      (e : AdjudicatorEvent) (ch : Ch pc)
      → ch.locked ≡ false
      → length (pch_state (settled ch).pch).balances ≤ length ch.currencies
      → watch_returns (settled ch).pch ≡ true
      → (¬ Settles e (pch_state ch.pch).is_final → handle_adjudicator_event pc e ch ≡ done ch)
        × (Settles e (pch_state ch.pch).is_final
            → ch.notifier ≡ none
            → handle_adjudicator_event pc e ch ≡ done (settled ch))
        × ((f : ℕ)
            → Settles e (pch_state ch.pch).is_final
            → ch.notifier ≡ some f
            → Returns
                (λ d.
                  (d.status ≡ closed_ch)
                  × (d.notifier ≡ none)
                  × (d.pch ≡ (settled ch).pch)
                  × ((n : ChUpdateNotif) × (d.sent ≡ ch.sent ++ (f, n) ∷ [])
                      × (n.type ≡ closed_update)
                      × (n.error ≡ (settle_ch pc ch).1)
                      × (n.expiry ≡ 0)))
                (handle_adjudicator_event pc e ch))
  unfolding settle_ch make_ch_close_notif
  handle_adjudicator_event-cases e ch l fits w = (
    λ h. handle_adjudicator_event-on e ch l ∙ on_event-ignores e _ ch h,
    λ h q.
        handle_adjudicator_event-on e ch l
        ∙ on_event-Settles e _ ch h
        ∙ settle_and_close-silent ch w q,
    λ f h q.
        let a = make_ch_info-Returns ch.params (pch_state (settled ch).pch) fits in
        rw
          (handle_adjudicator_event-on e ch l
            ∙ on_event-Settles e _ ch h
            ∙ settle_and_close-told ch f a.0 w q a.1)
          (refl, refl, refl, (make_ch_close_notif a.0 _, refl, refl, refl, refl)),
  )

  settle_and_close-closes :
      (ch : Ch pc)
      → Ensures (λ d. (d.status ≡ closed_ch) × (d.locked ≡ ch.locked)) (settle_and_close pc ch)
  unfolding settle_and_close close_and_notify close_ctrl notify_closed settle_ch
  settle_and_close-closes ch = ground arith

  -- A channel that has handled an event that settles it is closed, and free.
  pub event_closes :
      (e : AdjudicatorEvent) (ch d : Ch pc)
      → ch.locked ≡ false
      → Settles e (pch_state ch.pch).is_final
      → handle_adjudicator_event pc e ch ≡ done d
      → (d.status ≡ closed_ch) × (d.locked ≡ ch.locked)
  event_closes e ch d l h q =
      of_done (λ (c : Ch pc). (c.status ≡ closed_ch) × (c.locked ≡ ch.locked))
        (sym (handle_adjudicator_event-on e ch l ∙ on_event-Settles e _ ch h) ∙ q)
        (settle_and_close-closes ch)

  -- An event of another kind than those that settle the channel at its stage leaves it as it is.
  pub event_ignored :
      (e : AdjudicatorEvent) (ch : Ch pc)
      → ch.locked ≡ false
      → ¬ Settles e (pch_state ch.pch).is_final
      → handle_adjudicator_event pc e ch ≡ done ch
  event_ignored e ch l h = handle_adjudicator_event-on e ch l ∙ on_event-ignores e _ ch h

  -- An event that settles a channel without a subscriber closes it, whatever settling returns, under
  -- the same conditions, and sends nothing.
  pub event_closes_unwatched :
      (e : AdjudicatorEvent) (ch : Ch pc)
      → ch.locked ≡ false
      → length (pch_state (settled ch).pch).balances ≤ length ch.currencies
      → watch_returns (settled ch).pch ≡ true
      → Settles e (pch_state ch.pch).is_final
      → ch.notifier ≡ none
      → handle_adjudicator_event pc e ch ≡ done (settled ch)
  event_closes_unwatched e ch l fits w = (handle_adjudicator_event-cases e ch l fits w).1

  -- An event that settles a channel with a subscriber closes it, whatever settling returns, when
  -- the rows of the settled state fit the currencies of the channel and the watcher returns once the
  -- controller is closed: the subscriber is sent one closing notification, which carries the error
  -- of settling, and is dropped.
  pub event_closes_watched :
      (e : AdjudicatorEvent) (ch : Ch pc) (f : ℕ)
      → ch.locked ≡ false
      → length (pch_state (settled ch).pch).balances ≤ length ch.currencies
      → watch_returns (settled ch).pch ≡ true
      → Settles e (pch_state ch.pch).is_final
      → ch.notifier ≡ some f
      → Returns
          (λ d.
            (d.status ≡ closed_ch)
            × (d.notifier ≡ none)
            × (d.pch ≡ (settled ch).pch)
            × ((n : ChUpdateNotif) × (d.sent ≡ ch.sent ++ (f, n) ∷ [])
                × (n.type ≡ closed_update)
                × (n.error ≡ (settle_ch pc ch).1)
                × (n.expiry ≡ 0)))
          (handle_adjudicator_event pc e ch)
  event_closes_watched e ch f l fits w = (handle_adjudicator_event-cases e ch l fits w).2 f

  -- `Close` asks the peer for a final state, and registers the state whether the peer agrees or
  -- not: the error of the reply is that of registering, and the channel remembers that this user
  -- closed it, also when registering failed. It stays open until an event settles it.
  pub close_registers :
      (ch : Ch pc) (pctx : Context) (pch : Ctrl) (failed : Option GoError) (peer : String)
      → ch.locked ≡ false
      → ch.status ≡ open_ch
      → pc.update_by (with_timeout pctx (ch_update ch.timeout_cfg)) ch_finalizer ch.pch
        ≡ done (pch, failed)
      → get_elem? ch.parts (other_idx (pc.pch_idx pch)) ≡ some peer
      → let r = register_state pc pctx (record ch { pch = pch }) in
        close pc pctx ch ≡ reply pc (record r.0 { was_close_initiated = true }) r.1
  unfolding close finalize after_finalize register_and_mark handle_send_ch_update_error
  close_registers ch pctx pch failed peer l o u p = ground arith
