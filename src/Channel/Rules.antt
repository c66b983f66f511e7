-- ===== src/Channel/Rules.antt =====
-- session/channel.go: a rule for each method of a channel, for any predicate on channels that does
-- not read the controller.
use dst_go.Base.{
  ℕ, String, Bool, true, false, Option, none, some, Exec, done, blocks, ◌>>=◌, Ensures, Ensures->>=,
  lookup, erase, ltb, if◌then◌else◌, ◌≡◌, inl, inr, Bool-cases, Option-cases, subst, [], ◌∷◌, ◌++◌,
}
use dst_go.Perun.Notifs.{ChUpdateType, open_update, final_update, closed_update, ChUpdateNotif}
use dst_go.Errors.{GoError, ApiError}
use dst_go.Channel.{State, PChannel, ChUpdateResponderEntry, Context, closed_ch}
use dst_go.Channel.Info.{current_ch_info}
use dst_go.Channel.Updates.{
  is_closed, Ch, Reply, reply, handle_send_ch_update_error, send_ch_update, register_state,
  after_update, answer, respond_entry, register_if_final, accept_ch_update, reject_ch_update,
  respond_ch_update,
}
use dst_go.Channel.Closing.{
  AdjudicatorEvent, registered_event, concluded_event, other_event, settle_ch, close_ctrl,
  close_and_notify, notify_closed, settle_and_close, on_event, after_finalize, register_and_mark,
  handle_adjudicator_event, finalize, close,
}

-- Behind the lock and the test of the status only the rest of a method is left.
pub guarded-Ensures :
    {A : Type 0} (P : A → Type 0) (locked closed : Bool) (refused m : Exec A)
    → Ensures P refused
    → Ensures P m
    → Ensures P (if locked then blocks else if closed then refused else m)
guarded-Ensures P true closed refused m r h = tt
guarded-Ensures P false true refused m r h = r
guarded-Ensures P false false refused m r h = h

pub unlocked-Ensures :
    {A : Type 0} (P : A → Type 0) (locked : Bool) (m : Exec A)
    → Ensures P m
    → Ensures P (if locked then blocks else m)
unlocked-Ensures P true m h = tt
unlocked-Ensures P false m h = h

module _ (pc : PChannel) where
  open pc use {Ctrl, Responder}

  -- `P` holds of the channel that a method leaves.
  abbrev pub Leaves : (Ch pc → Type 0) → Reply pc → Type 0
  Leaves P r = P r.0

  -- `P` may be about anything but the controller.
  abbrev pub IgnoresCtrl : (Ch pc → Type 0) → Type 0
  IgnoresCtrl P = (c : Ch pc) (pch : Ctrl) → P c → P (record c { pch = pch })

  pub reply-Ensures :
      (P : Ch pc → Type 0) (ch : Ch pc) (e : Option ApiError)
      → P ch
      → Ensures (Leaves P) (reply pc ch e)
  unfolding reply
  reply-Ensures P ch e h = Ensures->>= (Leaves P) (current_ch_info pc ch) _ (λ info q. h)

  module _ (P : Ch pc → Type 0) (keep : IgnoresCtrl P) where
    after_update-Ensures :
        (ch : Ch pc) (a : Ctrl × Option GoError) → P ch → Ensures (Leaves P) (after_update pc ch a)
    unfolding after_update
    after_update-Ensures ch (pch, none) h = reply-Ensures P _ none (keep ch pch h)
    after_update-Ensures ch (pch, some e) h =
        Ensures->>= (Leaves P) (handle_send_ch_update_error pc ch _) _ (λ a q. keep ch pch h)

    pub send_ch_update-Ensures :
        (ch : Ch pc) (pctx : Context) (updater : State → Exec State)
        → P ch
        → Ensures (Leaves P) (send_ch_update pc pctx updater ch)
    unfolding send_ch_update
    send_ch_update-Ensures ch pctx updater h =
        guarded-Ensures (Leaves P) ch.locked (is_closed ch.status) _ _ (reply-Ensures P ch _ h) (
          Ensures->>= (Leaves P) (pc.update_by _ updater ch.pch) _
            (λ a q. after_update-Ensures ch a h))

    answer-keeps :
        (pctx : Context) (entry : ChUpdateResponderEntry Responder) (accepted : Bool) (ch : Ch pc)
        → P ch
        → P (answer pc pctx entry accepted ch).0
    unfolding answer register_if_final accept_ch_update reject_ch_update register_state
    answer-keeps pctx entry false ch h = keep ch _ h
    answer-keeps pctx entry true ch h =
        if_final entry.notif.type (accept_ch_update pc pctx entry ch) (keep ch _ h)
      where
        if_final :
            (t : ChUpdateType) (r : Ch pc × Option ApiError)
            → P r.0
            → P (register_if_final pc pctx t r).0
        if_final open_update r k = k
        if_final closed_update r k = k
        if_final final_update (c, none) k = keep c _ k
        if_final final_update (c, some e) k = k

    pub respond_entry-Ensures :
        (pctx : Context) (now : ℕ) (entry : ChUpdateResponderEntry Responder) (accepted : Bool)
        (ch : Ch pc)
        → P ch
        → Ensures (Leaves P) (respond_entry pc pctx now entry accepted ch)
    unfolding respond_entry
    respond_entry-Ensures pctx now entry accepted ch h =
        elim (Bool-cases (ltb entry.notif_expiry now)) [
          | inl late ↦ rw late (reply-Ensures P ch _ h)
          | inr in_time ↦ rw in_time (reply-Ensures P _ _ (answer-keeps pctx entry accepted ch h))
        ]

    pub respond_ch_update-Ensures :
        (ch : Ch pc) (pctx : Context) (now : ℕ) (id : String) (accepted : Bool)
        → P ch
        → P (record ch { responders = erase id ch.responders })
        → Ensures (Leaves P) (respond_ch_update pc pctx now id accepted ch)
    unfolding respond_ch_update
    respond_ch_update-Ensures ch pctx now id accepted h k =
        guarded-Ensures (Leaves P) ch.locked (is_closed ch.status) _ _ (reply-Ensures P ch _ h)
          (elim (Option-cases (lookup id ch.responders)) [
            | inl e ↦ rw e (reply-Ensures P ch _ h)
            | inr (entry, e) ↦ rw e (respond_entry-Ensures pctx now entry accepted _ k)
          ])

    -- `initiated` is what `Close` sets at its end.
    pub close-Ensures :
        (ch : Ch pc) (pctx : Context)
        → ((c : Ch pc) → P c → P (record c { was_close_initiated = true }))
        → P ch
        → Ensures (Leaves P) (close pc pctx ch)
    unfolding close finalize after_finalize register_and_mark register_state
    close-Ensures ch pctx mark h =
        guarded-Ensures (Leaves P) ch.locked (is_closed ch.status) _ _ (reply-Ensures P ch _ h) (
          Ensures->>= (Leaves P) (finalize pc pctx ch) _
            (λ c q. reply-Ensures P _ _ (mark _ (keep c _ (subst (Ensures P) q finalized)))))
      where
        after : (a : Ctrl × Option GoError) → Ensures P (after_finalize pc ch a)
        after (pch, none) = keep ch pch h
        after (pch, some e) =
            Ensures->>= P (handle_send_ch_update_error pc (record ch { pch = pch }) e) _
              (λ a q. keep ch pch h)

        finalized : Ensures P (finalize pc pctx ch)
        finalized = Ensures->>= P (pc.update_by _ _ ch.pch) _ (λ a q. after a)

    module _ (quiet : (c : Ch pc) → P c → c.notifier ≡ none → P (record c { status = closed_ch }))
        (told : (c : Ch pc) (f : ℕ) (n : ChUpdateNotif)
          → P c
          → c.notifier ≡ some f
          → P (record c {
            status = closed_ch;
            sent = c.sent ++ (f, n) ∷ [];
            notifier = none;
          })) where
      settle_and_close-Ensures : (ch : Ch pc) → P ch → Ensures P (settle_and_close pc ch)
      unfolding settle_and_close settle_ch close_and_notify close_ctrl notify_closed
      settle_and_close-Ensures ch h = closed_by (pc.watch_returns _)
        where
          ch' : Ch pc
          ch' = (settle_ch pc ch).0

          ch'' : Ch pc
          ch'' = record ch' { pch = (pc.pch_close ch'.pch).0; status = closed_ch }

          told_or_not : Ensures P (notify_closed pc (settle_ch pc ch).1 ch'' ch.notifier)
          told_or_not = elim (Option-cases ch.notifier) [
            | inl e ↦ rw (e, notify_closed) (quiet _ (keep ch _ h) e)
            | inr (f, e) ↦
                rw (e, notify_closed)
                  (Ensures->>= P (current_ch_info pc _) _ (λ info q. told _ f _ (keep ch _ h) e))
          ]

          closed_by :
              (returns : Bool)
              → Ensures P (
                  (if returns then done ch'' else blocks) >>= λ c.
                  notify_closed pc (settle_ch pc ch).1 c ch.notifier)
          closed_by true = told_or_not
          closed_by false = tt

      on_event-Ensures :
          (e : AdjudicatorEvent) (final : Bool) (ch : Ch pc)
          → P ch
          → Ensures P (on_event pc e final ch)
      unfolding on_event
      on_event-Ensures registered_event false ch h = settle_and_close-Ensures ch h
      on_event-Ensures registered_event true ch h = h
      on_event-Ensures concluded_event true ch h = settle_and_close-Ensures ch h
      on_event-Ensures concluded_event false ch h = h
      on_event-Ensures other_event final ch h = h

      -- An event that settles the channel closes it, and tells and drops the subscriber.
      pub handle_adjudicator_event-Ensures :
          (ch : Ch pc) (e : AdjudicatorEvent) → P ch → Ensures P (handle_adjudicator_event pc e ch)
      unfolding handle_adjudicator_event
      handle_adjudicator_event-Ensures ch e h =
          unlocked-Ensures P ch.locked _ (on_event-Ensures e (pc.pch_state ch.pch).is_final ch h)
