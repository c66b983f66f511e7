-- ===== src/Channel/Steps.antt =====
-- session/channel.go: the methods of a channel as a step relation, and sequences of calls.
use dst_go.Base.{
  ℕ, String, List, Bool, false, Option, some, Exec, done, Ensures, Ensures->>=, ◌≡◌, refl, subst,
  arith, ◌∙◌,
}
use dst_go.Perun.Info.{ChInfo}
use dst_go.Perun.Notifs.{ChUpdateNotif}
use dst_go.Errors.{ApiError}
use dst_go.Session.Timeout.{TimeoutConfig}
use dst_go.Channel.{State, PChannel, Context, closed_ch, Currency}
use dst_go.Channel.Info.{new_ch, make_ch_info}
use dst_go.Channel.Updates.{
  Ch, send_ch_update, handle_update, sub_ch_updates, unsub_ch_updates, respond_ch_update,
  make_ch_update_notif, send_ch_update_notif, store_responder, is_closed,
}
use dst_go.Channel.Closing.{AdjudicatorEvent, handle_adjudicator_event, close}
use dst_go.Channel.Rules.{
  Leaves, IgnoresCtrl, send_ch_update-Ensures, respond_ch_update-Ensures, close-Ensures,
  handle_adjudicator_event-Ensures, guarded-Ensures,
}
use dst_go.Channel.Delivery.{send_cached-all}
use dst_go.Channel.Invariant.{
  Inv, new_ch-Inv, send_ch_update-Inv, handle_update-Inv, sub_ch_updates-Inv, unsub_ch_updates-Inv,
  respond_ch_update-Inv, close-Inv, handle_adjudicator_event-Inv,
}

module _ (pc : PChannel) where
  -- One call of a method that returns, by the client, by the peer or by the watcher.
  pub data Step (c d : Ch pc) : Type 0 where
    sends :
        (pctx : Context) (updater : State → Exec State) (info : ChInfo) (e : Option ApiError)
        → send_ch_update pc pctx updater c ≡ done (d, info, e)
        → Step c d
    gets_update :
        (now : ℕ) (curr proposed : State) (r : pc.Responder)
        → handle_update pc now curr proposed r c ≡ done d
        → Step c d
    subscribes : (f : ℕ) (e : Option ApiError) → sub_ch_updates pc f c ≡ done (d, e) → Step c d
    unsubscribes : (e : Option ApiError) → unsub_ch_updates pc c ≡ done (d, e) → Step c d
    responds :
        (pctx : Context) (now : ℕ) (id : String) (accepted : Bool) (info : ChInfo)
        (e : Option ApiError)
        → respond_ch_update pc pctx now id accepted c ≡ done (d, info, e)
        → Step c d
    closes :
        (pctx : Context) (info : ChInfo) (e : Option ApiError)
        → close pc pctx c ≡ done (d, info, e)
        → Step c d
    gets_event : (e : AdjudicatorEvent) → handle_adjudicator_event pc e c ≡ done d → Step c d

  pub data Reach (c : Ch pc) : Ch pc → Type 0 where
    here : Reach c c
    next : {d e : Ch pc} → Reach c d → Step d e → Reach c e

  Step-Inv : {c d : Ch pc} → Step c d → Inv pc c → Inv pc d
  Step-Inv {c} (sends pctx updater info e q) v =
      subst (Ensures (Leaves pc (Inv pc))) q (send_ch_update-Inv pc c v pctx updater)
  Step-Inv {c} (gets_update now curr proposed r q) v =
      subst (Ensures (Inv pc)) q (handle_update-Inv pc c v now curr proposed r)
  Step-Inv {c} (subscribes f e q) v =
      subst (Ensures (λ r. Inv pc r.0)) q (sub_ch_updates-Inv pc c v f)
  Step-Inv {c} (unsubscribes e q) v =
      subst (Ensures (λ r. Inv pc r.0)) q (unsub_ch_updates-Inv pc c v)
  Step-Inv {c} (responds pctx now id accepted info e q) v =
      subst (Ensures (Leaves pc (Inv pc))) q (respond_ch_update-Inv pc c v pctx now id accepted)
  Step-Inv {c} (closes pctx info e q) v =
      subst (Ensures (Leaves pc (Inv pc))) q (close-Inv pc c v pctx)
  Step-Inv {c} (gets_event e q) v =
      subst (Ensures (Inv pc)) q (handle_adjudicator_event-Inv pc c v e)

  Reach-Inv : {c d : Ch pc} → Inv pc c → Reach c d → Inv pc d
  Reach-Inv v here = v
  Reach-Inv v (next r s) = Step-Inv s (Reach-Inv v r)

  -- After any calls at all on a new channel, in any order: nothing is cached while there is a
  -- subscriber, a closed channel has no subscriber, and every responder that is kept is kept under
  -- the name of its update, with the expiry of its notification, which is not 0.
  pub new_ch-Reach-Inv :
      (pch : pc.Ctrl) (url : String) (cs : List Currency) (ps : List String) (t : TimeoutConfig)
      (secs : ℕ) {d : Ch pc}
      → Reach (new_ch pc pch url cs ps t secs) d
      → Inv pc d
  new_ch-Reach-Inv pch url cs ps t secs r = Reach-Inv (new_ch-Inv pc pch url cs ps t secs) r

  -- What no call changes: the parameters, the lock, and that a channel is closed.
  abbrev Frame : Ch pc → Ch pc → Type 0
  Frame c d =
      (d.params ≡ c.params) × (d.locked ≡ c.locked) × (c.status ≡ closed_ch → d.status ≡ closed_ch)

  Frame-IgnoresCtrl : (c : Ch pc) → IgnoresCtrl pc (Frame c)
  Frame-IgnoresCtrl c d pch h = h

  Frame-self : (c : Ch pc) → Frame c c
  Frame-self c = (refl, refl, λ h. h)

  sub_ch_updates-Frame : (f : ℕ) (c : Ch pc) → Ensures (λ r. Frame c r.0) (sub_ch_updates pc f c)
  unfolding sub_ch_updates
  sub_ch_updates-Frame f c =
      ground (arith, send_cached-all pc f c.notif_cache (record c { notifier = some f }))

  unsub_ch_updates-Frame : (c : Ch pc) → Ensures (λ r. Frame c r.0) (unsub_ch_updates pc c)
  unfolding unsub_ch_updates
  unsub_ch_updates-Frame c = ground arith

  notified-Frame :
      (n : ChUpdateNotif) (expiry : ℕ) (r : pc.Responder) (c : Ch pc)
      → Frame c (send_ch_update_notif pc n (store_responder pc expiry n r c))
  unfolding store_responder send_ch_update_notif
  notified-Frame n expiry r c = ground arith

  handle_update-Frame :
      (now : ℕ) (curr proposed : State) (r : pc.Responder) (c : Ch pc)
      → Ensures (Frame c) (handle_update pc now curr proposed r c)
  unfolding handle_update
  handle_update-Frame now curr proposed r c =
      guarded-Ensures (Frame c) c.locked (is_closed c.status) _ _ (Frame-self c) (
        Ensures->>= (Frame c) (make_ch_info c.params curr) _ (λ info q.
          Ensures->>= (Frame c) (make_ch_update_notif c.params info proposed _) _
            (λ n q'. notified-Frame n _ r c)))

  Step-Frame : {c d : Ch pc} → Step c d → Frame c d
  Step-Frame {c} (sends pctx updater info e q) =
      subst (Ensures (Leaves pc (Frame c))) q
        (send_ch_update-Ensures pc (Frame c) (Frame-IgnoresCtrl c) c pctx updater (Frame-self c))
  Step-Frame {c} (gets_update now curr proposed r q) =
      subst (Ensures (Frame c)) q (handle_update-Frame now curr proposed r c)
  Step-Frame {c} (subscribes f e q) =
      subst (Ensures (λ r. Frame c r.0)) q (sub_ch_updates-Frame f c)
  Step-Frame {c} (unsubscribes e q) =
      subst (Ensures (λ r. Frame c r.0)) q (unsub_ch_updates-Frame c)
  Step-Frame {c} (responds pctx now id accepted info e q) =
      subst (Ensures (Leaves pc (Frame c))) q (
        respond_ch_update-Ensures pc (Frame c) (Frame-IgnoresCtrl c) c pctx now id accepted
          (Frame-self c) (Frame-self c))
  Step-Frame {c} (closes pctx info e q) =
      subst (Ensures (Leaves pc (Frame c))) q
        (close-Ensures pc (Frame c) (Frame-IgnoresCtrl c) c pctx (λ d h. h) (Frame-self c))
  Step-Frame {c} (gets_event e q) = subst (Ensures (Frame c)) q (
      handle_adjudicator_event-Ensures pc (Frame c) (Frame-IgnoresCtrl c)
        (λ d h n. (h.0, h.1, λ s. refl)) (λ d f n h k. (h.0, h.1, λ s. refl)) c e (Frame-self c))

  Reach-Frame : {c d : Ch pc} → Reach c d → Frame c d
  Reach-Frame {c} here = Frame-self c
  Reach-Frame (next r s) =
      let (p, l, k) = Reach-Frame r in
      let (p', l', k') = Step-Frame s in (p' ∙ p, l' ∙ l, λ h. k' (k h))

  -- No sequence of calls opens a closed channel again, or changes the parameters of it.
  pub closed_for_good :
      {c d : Ch pc}
      → Reach c d
      → c.status ≡ closed_ch
      → (d.status ≡ closed_ch) × (d.params ≡ c.params)
  closed_for_good r h = let (p, l, k) = Reach-Frame r in (k h, p)

  -- No call that returns leaves a channel locked that was not.
  pub stays_unlocked : {c d : Ch pc} → Reach c d → c.locked ≡ false → d.locked ≡ false
  stays_unlocked r h = let (p, l, k) = Reach-Frame r in l ∙ h
