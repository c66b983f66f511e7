-- ===== src/Session/State/Answers.antt =====
-- session/session.go: repeated and late responses to a proposal.
use dst_go.Base.{
  ℕ, ◌<◌, String, [], ◌∷◌, ◌++◌, Bool, true, false, Option, none, some, Exec, done, panic, blocks,
  ◌>>=◌, Ensures, Ensures->>=, duration_string, lookup, erase, lookup-erase_self, ltb,
  if◌then◌else◌, ◌≡◌, sym, subst, ◌∙◌, inl, inr, arith, Option-cases,
}
use dst_go.Perun.Info.{ChInfo, no_ch_info}
use dst_go.Errors.{with_message, ApiError, Fallible, ok, fail}
use dst_go.Errors.Api.{new_api_err_resource_not_found, new_api_err_user_response_timed_out}
use dst_go.Channel.{Context}
use dst_go.Channel.Info.{current_ch_info, new_ch}
use dst_go.Channel.Updates.{Ch}
use dst_go.Session.State.{Backend, SessionOf, ProposalEntry}
use dst_go.Session.State.Proposals.{reject_ch_proposal}
use dst_go.Session.State.Responses.{
  Response, handle_ch_proposal_accept_error, update_assets_in_funder, add_ch, opened,
  accept_ch_proposal, answer_proposal, respond_ch_proposal,
}

module _ (b : Backend) where
  open b use {pc, ProposalResponder}

  -- The session takes responses, and has none to wait for under the name.
  abbrev IsDone : String → SessionOf b → Type 0
  IsDone id s =
      (s.is_open ≡ true) × (s.session_locked ≡ false) × (lookup id s.proposal_responders ≡ none)

  abbrev Answered : String → Response b → Type 0
  Answered id r = IsDone id r.0

  add_ch-IsDone :
      (id : String) (ch : Ch pc) (s : SessionOf b)
      → IsDone id s
      → Ensures (IsDone id) (add_ch b ch s)
  unfolding add_ch
  add_ch-IsDone id ch s (o, l, n) = ground arith

  opened-Answered :
      (id : String) (entry : ProposalEntry ProposalResponder) (s : SessionOf b)
      (r : Fallible (pc.Ctrl))
      → IsDone id s
      → Ensures (Answered id) (opened b entry s r)
  unfolding opened
  opened-Answered id entry s (fail e) h = failed (
      handle_ch_proposal_accept_error s.chain_url (duration_string s.timeout_cfg.on_chain_tx)
        entry.notif.opening_bal_info.parts (with_message e "accepting channel proposal"))
    where
      failed : (m : Exec ApiError) → Ensures (Answered id) (m >>= λ a. done (s, no_ch_info, some a))
      failed (done a) = h
      failed panic = tt
      failed blocks = tt
  opened-Answered id entry s (ok pch) h =
      let ch =
        new_ch pc pch s.chain_url entry.currencies entry.notif.opening_bal_info.parts s.timeout_cfg
          entry.notif.challenge_dur_secs in
      added (add_ch b ch s) (current_ch_info pc ch) (add_ch-IsDone id ch s h)
    where
      added :
          (m : Exec (SessionOf b)) (n : Exec ChInfo)
          → Ensures (IsDone id) m
          → Ensures (Answered id) (m >>= λ s'. n >>= λ info. done (s', info, none))
      added (done s') (done info) a = a
      added (done s') panic a = tt
      added (done s') blocks a = tt
      added panic n a = tt
      added blocks n a = tt

  accept_ch_proposal-Answered :
      (id : String) (pctx : Context) (entry : ProposalEntry ProposalResponder) (s : SessionOf b)
      → IsDone id s
      → Ensures (Answered id) (accept_ch_proposal b pctx entry s)
  unfolding accept_ch_proposal
  accept_ch_proposal-Answered id pctx entry s h =
      Ensures->>= (Answered id) (update_assets_in_funder b entry.currencies s.contracts s.funder) _
        (λ f q.
          opened-Answered id entry
            (record s { funder = f; calls = s.calls ++ (entry.responder, none) ∷ [] }) _ h)

  answer_proposal-Answered :
      (id : String) (pctx : Context) (now : ℕ) (entry : ProposalEntry ProposalResponder)
      (accept : Bool) (s : SessionOf b)
      → IsDone id s
      → Ensures (Answered id) (answer_proposal b pctx now entry accept s)
  unfolding answer_proposal reject_ch_proposal
  answer_proposal-Answered id pctx now entry accept s h =
      branches (ltb entry.notif.expiry now) accept _ _ _ h
        (accept_ch_proposal-Answered id pctx entry s h) h
    where
      branches :
          (x y : Bool) (late refuse : Response b) (m : Exec (Response b))
          → Answered id late
          → Ensures (Answered id) m
          → Answered id refuse
          → Ensures (Answered id) (if x then done late else if y then m else done refuse)
      branches true y late refuse m a c d = a
      branches false true late refuse m a c d = c
      branches false false late refuse m a c d = d

  respond_unknown :
      (pctx : Context) (now : ℕ) (id : String) (accept : Bool) (s : SessionOf b)
      → IsDone id s
      → respond_ch_proposal b pctx now id accept s
        ≡ done (s, no_ch_info, some (new_api_err_resource_not_found "proposal" id))
  unfolding respond_ch_proposal
  respond_unknown pctx now id accept s (o, l, n) = ground arith

  respond_known :
      (pctx : Context) (now : ℕ) (id : String) (accept : Bool) (s : SessionOf b)
      (entry : ProposalEntry ProposalResponder)
      → s.is_open ≡ true
      → s.session_locked ≡ false
      → lookup id s.proposal_responders ≡ some entry
      → respond_ch_proposal b pctx now id accept s
        ≡ answer_proposal b pctx now entry accept
            (record s { proposal_responders = erase id s.proposal_responders })
  unfolding respond_ch_proposal
  respond_known pctx now id accept s entry o l n = ground arith

  -- A proposal is answered at most once: whatever came of a response to it, accepted, rejected,
  -- too late or failed, the next response to the same proposal finds nothing and changes nothing.
  pub proposal_answered_once :
      (pctx pctx' : Context) (now now' : ℕ) (id : String) (accept accept' : Bool)
      (s d : SessionOf b) (info : ChInfo) (e : Option ApiError)
      → s.is_open ≡ true
      → s.session_locked ≡ false
      → respond_ch_proposal b pctx now id accept s ≡ done (d, info, e)
      → respond_ch_proposal b pctx' now' id accept' d
        ≡ done (d, no_ch_info, some (new_api_err_resource_not_found "proposal" id))
  proposal_answered_once pctx pctx' now now' id accept accept' s d info e o l q =
      let answered : IsDone id d = elim (Option-cases (lookup id s.proposal_responders)) [
        | inl missing ↦
            subst (Ensures (Answered id))
              (sym (respond_unknown pctx now id accept s (o, l, missing)) ∙ q) (o, l, missing)
        | inr (entry, found) ↦
            subst (Ensures (Answered id))
              (sym (respond_known pctx now id accept s entry o l found) ∙ q)
              (answer_proposal-Answered id pctx now entry accept _
                (o, l, lookup-erase_self id s.proposal_responders))
      ] in
      respond_unknown pctx' now' id accept' d answered

  -- A response after the expiry only drops the entry: the proposal's responder is not called, no
  -- channel is opened, and the user is told when the proposal expired.
  pub proposal_expired :
      (pctx : Context) (now : ℕ) (id : String) (accept : Bool) (s : SessionOf b)
      (entry : ProposalEntry ProposalResponder)
      → s.is_open ≡ true
      → s.session_locked ≡ false
      → lookup id s.proposal_responders ≡ some entry
      → entry.notif.expiry < now
      → respond_ch_proposal b pctx now id accept s
        ≡ done (
          record s { proposal_responders = erase id s.proposal_responders },
          no_ch_info,
          some (new_api_err_user_response_timed_out entry.notif.expiry now),
        )
  unfolding answer_proposal
  proposal_expired pctx now id accept s entry o l n late =
      respond_known pctx now id accept s entry o l n ∙ ground arith
