-- ===== src/Channel/Delivery.antt =====
-- session/channel.go: the order of notifications, in the cache and at the subscriber.
use dst_go.Base.{
  ℕ, List, [], ◌∷◌, ◌++◌, map, true, false, none, some, done, length, leb, take, if◌then◌else◌,
  ◌==◌, ◌≡◌, refl, sym, ap, ◌∙◌, ◌⊎◌, inl, inr, Option-cases, arith, lookup, lookup-insert_self,
  ◌≤◌, Returns,
}
use mathlib.Core.List.{append-nil, append_assoc, map-append}
use dst_go.Perun.Notifs.{ChUpdateNotif, final_update, open_update}
use dst_go.Channel.{State, PChannel, open_ch}
use dst_go.Channel.Info.{make_ch_info}
use dst_go.Channel.Balances.{make_ch_info-Returns}
use dst_go.Perun.Info.{ChInfo}
use dst_go.Channel.Updates.{
  Ch, make_ch_update_notif, send_ch_update_notif, store_responder, handle_update, send_cached,
  sub_ch_updates, unix_after, update_id,
}

take_all : (xs : List ChUpdateNotif) → take (length xs) xs ≡ xs
take_all [] = refl
take_all (x ∷ xs) = ap (λ ys. x ∷ ys) (take_all xs)

leb_refl : (n : ℕ) → leb n n ≡ true
leb_refl n = ground arith

-- The notification in a call of a notifier.
abbrev pub payload : ℕ × ChUpdateNotif → ChUpdateNotif
payload s = s.1

map-sent : (f : ℕ) (ns : List ChUpdateNotif) → map payload (map (λ n. (f, n)) ns) ≡ ns
map-sent f [] = refl
map-sent f (n ∷ ns) = ap (λ l. n ∷ l) (map-sent f ns)

module _ (pc : PChannel) where
  -- The loop of `SubChUpdates` neither panics nor stops early: with as many rounds as there are
  -- cached notifications it hands all of them to the subscriber, in order, and empties the cache.
  pub send_cached-all :
      (f : ℕ) (cache : List ChUpdateNotif) (ch : Ch pc)
      → send_cached pc (length cache) f (record ch { notif_cache = cache })
        ≡ done (record ch { sent = ch.sent ++ map (λ n. (f, n)) cache; notif_cache = [] })
  unfolding send_cached
  send_cached-all f [] ch = rw (append-nil ch.sent)
  send_cached-all f (n ∷ rest) ch = rw (leb_refl (length rest)) (
      rw (take_all rest) (
        send_cached-all f rest (record ch { sent = ch.sent ++ (f, n) ∷ [] })
        ∙ ap (λ l. done (record ch { sent = l; notif_cache = [] }))
            (append_assoc ch.sent ((f, n) ∷ []) (map (λ n. (f, n)) rest))))

  -- The notifications that came in, those that were sent before those that wait.
  abbrev pub history : Ch pc → List ChUpdateNotif
  history ch = map payload ch.sent ++ ch.notif_cache

  sub_open :
      (f : ℕ) (ch : Ch pc)
      → ch.locked ≡ false
      → ch.status ≡ open_ch
      → ch.notifier ≡ none
      → sub_ch_updates pc f ch
        ≡ done (
          record ch {
            notifier = some f;
            sent = ch.sent ++ map (λ n. (f, n)) ch.notif_cache;
            notif_cache = [];
          },
          none,
        )
  unfolding sub_ch_updates
  sub_open f ch l o e =
      ground (arith, send_cached-all f ch.notif_cache (record ch { notifier = some f }))

  -- A first subscription to an open channel that is free spawns a call of the subscriber for every
  -- notification that was cached, in their order, each in a goroutine of its own: the calls spawned
  -- and the notifications cached are together what they were, nothing is left in the cache, and the
  -- subscriber is set. In which order the goroutines run is not said.
  pub sub_ch_updates-history :
      (f : ℕ) (ch : Ch pc)
      → ch.locked ≡ false
      → ch.status ≡ open_ch
      → ch.notifier ≡ none
      → Returns
          (λ r.
            (history r.0 ≡ history ch)
            × (r.0.notif_cache ≡ [])
            × (r.0.notifier ≡ some f)
            × (r.1 ≡ none)
            × (r.0.sent ≡ ch.sent ++ map (λ n. (f, n)) ch.notif_cache))
          (sub_ch_updates pc f ch)
  sub_ch_updates-history f ch l o e =
      rw (sub_open f ch l o e) (simp (append-nil, map-append, map-sent f), refl, refl, refl, refl)

  send_ch_update_notif-history :
      (n : ChUpdateNotif) (ch : Ch pc)
      → (ch.notifier ≡ none) ⊎ (ch.notif_cache ≡ [])
      → history (send_ch_update_notif pc n ch) ≡ history ch ++ n ∷ []
  unfolding send_ch_update_notif
  send_ch_update_notif-history n ch v = elim (Option-cases ch.notifier) [
    | inl e ↦
        rw (e, send_ch_update_notif)
          (sym (append_assoc (map payload ch.sent) ch.notif_cache (n ∷ [])))
    | inr (f, e) ↦
        let c : ch.notif_cache ≡ [] = ground arith in
        rw (e, send_ch_update_notif) (simp (c, append-nil, map-append))
  ]

  -- The notification that `handle_update` makes.
  abbrev incoming : Ch pc → State → ChInfo → ChInfo → ℕ → ChUpdateNotif
  incoming ch proposed curr_info proposed_info expiry = record {
    update_id = update_id ch.id proposed.version;
    curr_ch_info = curr_info;
    proposed_ch_info = proposed_info;
    type = if proposed.is_final then final_update else open_update;
    expiry = expiry;
    error = none;
  }

  handle_update_open :
      (now : ℕ) (curr proposed : State) (r : pc.Responder) (ch : Ch pc) (ci pi : ChInfo)
      → ch.locked ≡ false
      → ch.status ≡ open_ch
      → make_ch_info ch.params curr ≡ done ci
      → make_ch_info ch.params proposed ≡ done pi
      → let expiry = unix_after now ch.timeout_cfg.response in
        let n = incoming ch proposed ci pi expiry in
        handle_update pc now curr proposed r ch
        ≡ done (send_ch_update_notif pc n (store_responder pc expiry n r ch))
  unfolding handle_update make_ch_update_notif
  handle_update_open now curr proposed r ch ci pi l o ce pe = ground arith

  store_responder-lookup :
      (n : ChUpdateNotif) (r : pc.Responder) (ch : Ch pc)
      → lookup n.update_id (store_responder pc n.expiry n r ch).responders ≡ (
          if n.expiry == 0
          then lookup n.update_id ch.responders
          else some (record { notif = n; responder = r; notif_expiry = n.expiry }))
  unfolding store_responder
  store_responder-lookup n r ch = ground (
    arith,
    lookup-insert_self n.update_id (record { notif = n; responder = r; notif_expiry = n.expiry })
        ch.responders,
  )

  send_ch_update_notif-responders :
      (n : ChUpdateNotif) (ch : Ch pc) → (send_ch_update_notif pc n ch).responders ≡ ch.responders
  unfolding send_ch_update_notif
  send_ch_update_notif-responders n ch = ground arith

  store_responder-history :
      (expiry : ℕ) (n : ChUpdateNotif) (r : pc.Responder) (ch : Ch pc)
      → (history (store_responder pc expiry n r ch) ≡ history ch)
        × ((store_responder pc expiry n r ch).notifier ≡ ch.notifier)
        × ((store_responder pc expiry n r ch).notif_cache ≡ ch.notif_cache)
  unfolding store_responder
  store_responder-history expiry n r ch = ground arith

  -- An update that comes in on an open channel that is free, when the rows of the current and of the
  -- proposed state fit the currencies of the channel, and the channel has no subscriber or an empty
  -- cache, adds one notification to the history, the calls spawned and the cache behind them, at its
  -- end. It names the update by the channel and the version, expires when the response time is over,
  -- and its responder is kept under its name, unless it has no expiry.
  pub handle_update-history :
      (now : ℕ) (curr proposed : State) (r : pc.Responder) (ch : Ch pc)
      → ch.locked ≡ false
      → ch.status ≡ open_ch
      → (ch.notifier ≡ none) ⊎ (ch.notif_cache ≡ [])
      → length curr.balances ≤ length ch.currencies
      → length proposed.balances ≤ length ch.currencies
      → Returns
          (λ ch'.
            (n : ChUpdateNotif) × (history ch' ≡ history ch ++ n ∷ [])
            × (n.update_id ≡ update_id ch.id proposed.version)
            × (n.type ≡ (if proposed.is_final then final_update else open_update))
            × (n.expiry ≡ unix_after now ch.timeout_cfg.response)
            × (lookup n.update_id ch'.responders ≡ (
                if n.expiry == 0
                then lookup n.update_id ch.responders
                else some (record { notif = n; responder = r; notif_expiry = n.expiry }))))
          (handle_update pc now curr proposed r ch)
  handle_update-history now curr proposed r ch l o v hc hp =
      let a = make_ch_info-Returns ch.params curr hc in
      let b = make_ch_info-Returns ch.params proposed hp in
      let expiry = unix_after now ch.timeout_cfg.response in
      let n = incoming ch proposed a.0 b.0 expiry in
      let kept = store_responder-history expiry n r ch in
      rw (handle_update_open now curr proposed r ch a.0 b.0 l o a.1 b.1) (
        n,
        send_ch_update_notif-history n (store_responder pc expiry n r ch) (rw (kept.1, kept.2) v)
            ∙ ap (λ h. h ++ n ∷ []) kept.0,
        refl,
        refl,
        refl,
        ap (lookup n.update_id) (send_ch_update_notif-responders n _)
            ∙ store_responder-lookup n r ch,
      )
