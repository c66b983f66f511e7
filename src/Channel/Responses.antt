-- ===== src/Channel/Responses.antt =====
-- session/channel.go: responses to updates.
use dst_go.Base.{
  ℕ, String, Bool, true, false, Option, none, some, Exec, done, lookup, erase, lookup-erase_self,
  ◌≡◌, sym, ◌≤◌, arith, Option-cases, subst, Ensures, inl, inr, ◌∙◌,
}
use dst_go.Perun.Info.{ChInfo}
use dst_go.Perun.Notifs.{final_update}
use dst_go.Errors.{ApiError}
use dst_go.Errors.Api.{new_api_err_failed_pre_condition, new_api_err_resource_not_found}
use dst_go.Channel.{State, PChannel, ChUpdateResponderEntry, Context, open_ch, closed_ch}
use dst_go.Channel.Updates.{
  Ch, reply, send_ch_update, sub_ch_updates, unsub_ch_updates, respond_ch_update, respond_entry,
  answer, register_if_final, accept_ch_update, register_state, err_ch_closed, res_type_update,
}
use dst_go.Channel.Closing.{close}
use dst_go.Channel.Rules.{Leaves, respond_ch_update-Ensures, respond_entry-Ensures}

module _ (pc : PChannel) where
  open pc use {Ctrl, Responder}

  -- A closed channel refuses every request of the client with the error for a failed
  -- pre-condition, and is left as it is; the two requests that return an info make it as always.
  pub closed_refuses :
      (ch : Ch pc) (pctx : Context) (updater : State → Exec State) (now f : ℕ) (id : String)
      (accepted : Bool)
      → ch.locked ≡ false
      → ch.status ≡ closed_ch
      → let refused = some (new_api_err_failed_pre_condition err_ch_closed) in
        (send_ch_update pc pctx updater ch ≡ reply pc ch refused)
        × (respond_ch_update pc pctx now id accepted ch ≡ reply pc ch refused)
        × (close pc pctx ch ≡ reply pc ch refused)
        × (sub_ch_updates pc f ch ≡ done (ch, refused))
        × (unsub_ch_updates pc ch ≡ done (ch, refused))
  unfolding send_ch_update respond_ch_update close sub_ch_updates unsub_ch_updates
  closed_refuses ch pctx updater now f id accepted l c =
      (ground arith, ground arith, ground arith, ground arith, ground arith)

  -- On an open channel a response to an update that is not known is refused.
  respond_unknown :
      (ch : Ch pc) (pctx : Context) (now : ℕ) (id : String) (accepted : Bool)
      → ch.locked ≡ false
      → ch.status ≡ open_ch
      → lookup id ch.responders ≡ none
      → respond_ch_update pc pctx now id accepted ch
        ≡ reply pc ch (some (new_api_err_resource_not_found res_type_update id))
  unfolding respond_ch_update
  respond_unknown ch pctx now id accepted l o e = ground arith

  respond_known :
      (ch : Ch pc) (pctx : Context) (now : ℕ) (id : String) (accepted : Bool)
      (entry : ChUpdateResponderEntry Responder)
      → ch.locked ≡ false
      → ch.status ≡ open_ch
      → lookup id ch.responders ≡ some entry
      → respond_ch_update pc pctx now id accepted ch
        ≡ respond_entry pc pctx now entry accepted
            (record ch { responders = erase id ch.responders })
  unfolding respond_ch_update
  respond_known ch pctx now id accepted entry l o e = ground arith

  -- The channel takes responses, and has none to wait for under the name.
  abbrev Answered : String → Ch pc → Type 0
  Answered id c = (c.locked ≡ false) × (c.status ≡ open_ch) × (lookup id c.responders ≡ none)

  -- An update is answered at most once: whatever came of a response to it, accepted, rejected, too
  -- late or failed, the next response to the same update finds nothing.
  pub respond_twice :
      (ch d : Ch pc) (pctx pctx' : Context) (now now' : ℕ) (id : String) (accepted accepted' : Bool)
      (info : ChInfo) (e : Option ApiError)
      → ch.locked ≡ false
      → ch.status ≡ open_ch
      → respond_ch_update pc pctx now id accepted ch ≡ done (d, info, e)
      → respond_ch_update pc pctx' now' id accepted' d
        ≡ reply pc d (some (new_api_err_resource_not_found res_type_update id))
  respond_twice ch d pctx pctx' now now' id accepted accepted' info e l o q =
      let answered : Answered id d = elim (Option-cases (lookup id ch.responders)) [
        | inl missing ↦ subst (Ensures (Leaves pc (Answered id))) q (
            respond_ch_update-Ensures pc (Answered id) (λ c pch h. h) ch pctx now id accepted
              (l, o, missing) (l, o, lookup-erase_self id ch.responders))
        | inr (entry, found) ↦
            subst (Ensures (Leaves pc (Answered id)))
              (sym (respond_known ch pctx now id accepted entry l o found) ∙ q)
              (respond_entry-Ensures pc (Answered id) (λ c pch h. h) pctx now entry accepted _
                (l, o, lookup-erase_self id ch.responders))
      ] in
      respond_unknown d pctx' now' id accepted' answered.0 answered.1 answered.2

  in_time :
      (pctx : Context) (now : ℕ) (entry : ChUpdateResponderEntry Responder) (accepted : Bool)
      (c : Ch pc)
      → now ≤ entry.notif_expiry
      → let r = answer pc pctx entry accepted c in
        respond_entry pc pctx now entry accepted c ≡ reply pc r.0 r.1
  unfolding respond_entry
  in_time pctx now entry accepted c t = ground arith

  accept_final :
      (pctx : Context) (entry : ChUpdateResponderEntry Responder) (c : Ch pc)
      → let a = accept_ch_update pc pctx entry c in
        let r = answer pc pctx entry true c in
        let g = register_state pc pctx a.0 in
        a.1 ≡ none → entry.notif.type ≡ final_update → reply pc r.0 r.1 ≡ reply pc g.0 g.1
  unfolding answer register_if_final
  accept_final pctx entry c a f = ground arith

  -- A final update that is accepted in time is registered on the chain after the responder's
  -- `Accept`, and the error of the reply is that of registering.
  pub respond_accept_final :
      (ch : Ch pc) (pctx : Context) (now : ℕ) (id : String)
      (entry : ChUpdateResponderEntry Responder)
      → ch.locked ≡ false
      → ch.status ≡ open_ch
      → lookup id ch.responders ≡ some entry
      → now ≤ entry.notif_expiry
      → let c = record ch { responders = erase id ch.responders } in
        let accepted = accept_ch_update pc pctx entry c in
        let registered = register_state pc pctx accepted.0 in
        accepted.1 ≡ none
        → entry.notif.type ≡ final_update
        → respond_ch_update pc pctx now id true ch ≡ reply pc registered.0 registered.1
  respond_accept_final ch pctx now id entry l o e t a f =
      let c = record ch { responders = erase id ch.responders } in
      respond_known ch pctx now id true entry l o e
      ∙ in_time pctx now entry true c t
      ∙ accept_final pctx entry c a f
