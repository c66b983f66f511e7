-- ===== src/Channel/Invariant.antt =====
-- session/channel.go: an invariant of a channel between two calls of its methods.
use dst_go.Base.{
  ℕ, String, List, [], ◌∷◌, Bool, true, false, none, some, Exec, Ensures, Ensures->>=, insert,
  erase, ◌≡◌, refl, sym, ◌≢◌, ◌⊎◌, inl, inr, All, arith, Bool-cases, subst, str_eq, ◌==◌,
  if◌then◌else◌,
}
use dst_go.Perun.Info.{ChInfo}
use dst_go.Perun.Notifs.{ChUpdateNotif, closed_update, open_update, final_update}
use dst_go.Session.Timeout.{TimeoutConfig}
use dst_go.Channel.{State, PChannel, ChUpdateResponderEntry, Context, closed_ch, Currency, Params}
use dst_go.Channel.Info.{make_ch_info, new_ch}
use dst_go.Channel.Updates.{
  is_closed, Ch, send_ch_update, send_ch_update_notif, make_ch_update_notif, store_responder,
  handle_update, sub_ch_updates, unsub_ch_updates, respond_ch_update, unix_after,
}
use dst_go.Channel.Closing.{AdjudicatorEvent, handle_adjudicator_event, close}
use dst_go.Channel.Rules.{
  Leaves, IgnoresCtrl, send_ch_update-Ensures, respond_ch_update-Ensures, close-Ensures,
  handle_adjudicator_event-Ensures, unlocked-Ensures,
}
use dst_go.Channel.Delivery.{send_cached-all}

-- Predicates on all entries of a map under writing and deleting.
module _ {V : Type 0} (P : String × V → Type 0) where
  All-insert :
      (k : String) (v : V) (m : List (String × V)) → P (k, v) → All P m → All P (insert k v m)
  unfolding insert
  All-insert k v [] h a = (h, tt)
  All-insert k v ((j, w) ∷ m) h a = elim (Bool-cases (str_eq j k)) [
    | inl e ↦ rw e (h, a.1)
    | inr e ↦ rw e (a.0, All-insert k v m h a.1)
  ]

  All-erase : (k : String) (m : List (String × V)) → All P m → All P (erase k m)
  unfolding erase
  All-erase k [] a = tt
  All-erase k ((j, w) ∷ m) a = elim (Bool-cases (str_eq j k)) [
    | inl e ↦ rw e (All-erase k m a.1)
    | inr e ↦ rw e (a.0, All-erase k m a.1)
  ]

make_ch_update_notif-Ensures :
    (p : Params) (info : ChInfo) (s : State) (expiry : ℕ)
    → Ensures
        (λ n. (n.expiry ≡ expiry) × (n.type ≢ closed_update))
        (make_ch_update_notif p info s expiry)
unfolding make_ch_update_notif
make_ch_update_notif-Ensures p info s expiry =
    Ensures->>= (λ n. (n.expiry ≡ expiry) × (n.type ≢ closed_update)) (make_ch_info p s) _
      (λ i q. (refl, open_or_final s.is_final))
  where
    open_or_final : (b : Bool) → (if b then final_update else open_update) ≢ closed_update
    open_or_final true = λ e. cc
    open_or_final false = λ e. cc

module _ (pc : PChannel) where
  -- An entry waits for a response: its key is the update's, and it expires.
  abbrev pub IsAnswerable : String × ChUpdateResponderEntry pc.Responder → Type 0
  IsAnswerable p =
      (p.1.notif.update_id ≡ p.0)
      × (p.1.notif_expiry ≡ p.1.notif.expiry)
      × (p.1.notif_expiry ≢ 0)
      × (p.1.notif.type ≢ closed_update)

  -- While there is a subscriber nothing is cached, a closed channel has no subscriber, and every
  -- responder that is kept can be answered.
  pub record Inv (ch : Ch pc) : Type 0 where
    pub flushed : (ch.notifier ≡ none) ⊎ (ch.notif_cache ≡ [])
    pub unsubscribed : ch.status ≡ closed_ch → ch.notifier ≡ none
    pub answerable : All IsAnswerable ch.responders

  pub new_ch-Inv :
      (pch : pc.Ctrl) (url : String) (cs : List Currency) (ps : List String) (t : TimeoutConfig)
      (secs : ℕ)
      → Inv (new_ch pc pch url cs ps t secs)
  unfolding new_ch
  new_ch-Inv pch url cs ps t secs = record {
    flushed = inl refl;
    unsubscribed = λ e. refl;
    answerable = tt;
  }

  Inv-IgnoresCtrl : IgnoresCtrl pc Inv
  Inv-IgnoresCtrl c pch v = record {
    flushed = v.flushed;
    unsubscribed = v.unsubscribed;
    answerable = v.answerable;
  }

  send_ch_update_notif-Inv :
      (n : ChUpdateNotif) (ch : Ch pc) → Inv ch → Inv (send_ch_update_notif pc n ch)
  unfolding send_ch_update_notif
  send_ch_update_notif-Inv n ch v = ground arith

  module _ (ch : Ch pc) (v : Inv ch) where
    pub send_ch_update-Inv :
        (pctx : Context) (updater : State → Exec State)
        → Ensures (Leaves pc Inv) (send_ch_update pc pctx updater ch)
    send_ch_update-Inv pctx updater =
        send_ch_update-Ensures pc Inv Inv-IgnoresCtrl ch pctx updater v

    pub respond_ch_update-Inv :
        (pctx : Context) (now : ℕ) (id : String) (accepted : Bool)
        → Ensures (Leaves pc Inv) (respond_ch_update pc pctx now id accepted ch)
    respond_ch_update-Inv pctx now id accepted =
        respond_ch_update-Ensures pc Inv Inv-IgnoresCtrl ch pctx now id accepted v (record {
          flushed = v.flushed;
          unsubscribed = v.unsubscribed;
          answerable = All-erase IsAnswerable id ch.responders v.answerable;
        })

    pub close-Inv : (pctx : Context) → Ensures (Leaves pc Inv) (close pc pctx ch)
    close-Inv pctx =
        close-Ensures pc Inv Inv-IgnoresCtrl ch pctx
          (λ c w. record {
            flushed = w.flushed;
            unsubscribed = w.unsubscribed;
            answerable = w.answerable;
          })
          v

    pub handle_adjudicator_event-Inv :
        (e : AdjudicatorEvent) → Ensures Inv (handle_adjudicator_event pc e ch)
    handle_adjudicator_event-Inv e =
        handle_adjudicator_event-Ensures pc Inv Inv-IgnoresCtrl
          (λ c w q. record { flushed = inl q; unsubscribed = λ s. q; answerable = w.answerable })
          (λ c f n w q. record {
            flushed = inl refl;
            unsubscribed = λ s. refl;
            answerable = w.answerable;
          })
          ch e v

    pub unsub_ch_updates-Inv : Ensures (λ r. Inv r.0) (unsub_ch_updates pc ch)
    unfolding unsub_ch_updates
    unsub_ch_updates-Inv = ground arith

    pub sub_ch_updates-Inv : (f : ℕ) → Ensures (λ r. Inv r.0) (sub_ch_updates pc f ch)
    unfolding sub_ch_updates
    sub_ch_updates-Inv f =
        ground (arith, send_cached-all pc f ch.notif_cache (record ch { notifier = some f }))

    store_responder-Inv :
        (n : ChUpdateNotif) (expiry : ℕ) (r : pc.Responder)
        → (n.expiry ≡ expiry) × (n.type ≢ closed_update)
        → Inv (store_responder pc expiry n r ch)
    unfolding store_responder
    store_responder-Inv n expiry r h = elim (Bool-cases (expiry == 0)) [
      | inl e ↦ rw e v
      | inr e ↦ rw e (record {
        flushed = v.flushed;
        unsubscribed = v.unsubscribed;
        answerable =
            All-insert IsAnswerable n.update_id _ ch.responders (refl, sym h.0, ground arith, h.1)
              v.answerable;
      })
    ]

    pub handle_update-Inv :
        (now : ℕ) (curr proposed : State) (r : pc.Responder)
        → Ensures Inv (handle_update pc now curr proposed r ch)
    unfolding handle_update
    handle_update-Inv now curr proposed r =
        unlocked-Ensures Inv ch.locked _ (elim (Bool-cases (is_closed ch.status)) [
          | inl e ↦ rw e v
          | inr e ↦ rw e (
              Ensures->>= Inv (make_ch_info ch.params curr) _ (λ info q.
                Ensures->>= Inv
                  (make_ch_update_notif ch.params info proposed
                    (unix_after now ch.timeout_cfg.response))
                  _
                  (λ n q'. send_ch_update_notif-Inv n _ (
                    store_responder-Inv n _ r (
                      subst (Ensures _) q'
                        (make_ch_update_notif-Ensures ch.params info proposed _))))))
        ])
