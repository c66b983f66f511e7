-- ===== src/Session/State/Intake.antt =====
-- session/session.go: what becomes of a proposal that comes in.
use dst_go.Base.{
  ℕ, List, [], ◌∷◌, ◌++◌, Bool, true, false, Option, none, some, Exec, done, panic, Returns, ◌>>=◌,
  lookup, String, ℤ, ◌==◌, if◌then◌else◌, ◌≡◌, refl, sym, subst, ap, ◌∙◌, ◌⊎◌,
}
use dst_go.Perun.Notifs.{ChProposalNotif}
use dst_go.Session.State.{Backend, SessionOf, Proposal, ProposalEntry}
use dst_go.Channel.{Currency}
use dst_go.Channel.Updates.{unix_after}
use dst_go.Channel.Info.{make_bal_info_from_raw_bal, print_bals}
use dst_go.Session.State.Proposals.{
  ch_proposal_notif, get_currencies, handle_proposal, handle_looked_up, aliases_of, alias_at,
  reject_unknown, reject_if, reject_ch_proposal, is_none, entry_of, or_no_currencies, keep_proposal,
}
use dst_go.Session.State.Inbox.{inbox, keep_proposal-inbox}

module _ (b : Backend) where
  open b use {ProposalResponder}

  -- The session has the notification of the entry behind those of `ns`, and the entry under its
  -- ID, unless it has no expiry.
  abbrev Received :
      List ChProposalNotif
      → List (String × ProposalEntry ProposalResponder)
      → ℕ
      → ProposalEntry ProposalResponder
      → SessionOf b
      → Type 0
  Received ns old expiry e d =
      (inbox b d ≡ ns ++ e.notif ∷ [])
      × (lookup e.notif.proposal_id d.proposal_responders
          ≡ (if expiry == 0 then lookup e.notif.proposal_id old else some e))

  handled :
      (now : ℕ) (p : Proposal) (r : ProposalResponder) (s : SessionOf b)
      (found : Option (List Currency))
      → s.is_open ≡ true
      → get_currencies s.contracts b.read_currency p.assets ≡ done found
      → handle_proposal b now p r s
        ≡ handle_looked_up b now p r (aliases_of (alias_at b s) p.peers) s found
  unfolding handle_proposal
  handled now p r s found o c =
      opened _ (done s) s.is_open o
      ∙ ap (λ m. m >>= handle_looked_up b now p r (aliases_of (alias_at b s) p.peers) s) c
    where
      opened : (m n : Exec (SessionOf b)) (x : Bool) → x ≡ true → (if x then m else n) ≡ m
      opened m n true e = refl
      opened m n false e = cc

  reject_unknown-same :
      (known : Bool) (found : Option (List Currency)) (r : ProposalResponder) (s : SessionOf b)
      → let d = reject_unknown b known found r s in
        (inbox b d ≡ inbox b s)
        × (d.proposal_notifier ≡ s.proposal_notifier)
        × (d.proposal_notif_cache ≡ s.proposal_notif_cache)
        × (d.proposal_responders ≡ s.proposal_responders)
        × (d.session_locked ≡ s.session_locked)
  unfolding reject_unknown reject_if reject_ch_proposal is_none
  reject_unknown-same true none r s = (refl, refl, refl, refl, refl)
  reject_unknown-same true (some cs) r s = (refl, refl, refl, refl, refl)
  reject_unknown-same false none r s = (refl, refl, refl, refl, refl)
  reject_unknown-same false (some cs) r s = (refl, refl, refl, refl, refl)

  -- A proposal that comes in on an open session, and whose notification can be made, adds this
  -- notification to the inbox, at its end. The proposal is found under its ID, unless it has no
  -- expiry, which is so when a peer of it is not known: then what was there is found.
  pub handle_proposal-inbox :
      (now : ℕ) (p : Proposal) (r : ProposalResponder) (s : SessionOf b) (parts : List String)
      (known : Bool) (found : Option (List Currency)) (n : ChProposalNotif)
      → s.is_open ≡ true
      → s.session_locked ≡ false
      → (s.proposal_notifier ≡ none) ⊎ (s.proposal_notif_cache ≡ [])
      → aliases_of (alias_at b s) p.peers ≡ (parts, known)
      → get_currencies s.contracts b.read_currency p.assets ≡ done found
      → let expiry = if known then unix_after now s.timeout_cfg.response else 0 in
        ch_proposal_notif parts (or_no_currencies b found) p expiry ≡ done n
        → Returns
            (λ d.
              (inbox b d ≡ inbox b s ++ n ∷ [])
              × (lookup n.proposal_id d.proposal_responders ≡ (
                  if expiry == 0
                  then lookup n.proposal_id s.proposal_responders
                  else some (entry_of b p r found n))))
            (handle_proposal b now p r s)
  unfolding handle_looked_up entry_of
  handle_proposal-inbox now p r s parts known found n o l v peers c made =
      let expiry = if known then unix_after now s.timeout_cfg.response else 0 in
      let same = reject_unknown-same known found r s in
      let kept =
        keep_proposal-inbox b expiry (entry_of b p r found n) (reject_unknown b known found r s)
          (same.4 ∙ l) (rw (same.1, same.2) v) in
      let step : handle_proposal b now p r s
          ≡ keep_proposal b expiry (entry_of b p r found n) (reject_unknown b known found r s) =
        handled now p r s found o c
        ∙ (ap (λ a. handle_looked_up b now p r a s found) peers
            ∙ ap
                (λ m. m >>= λ n'.
                  keep_proposal b expiry (entry_of b p r found n')
                    (reject_unknown b known found r s))
                made) in
      let m = keep_proposal b expiry (entry_of b p r found n) (reject_unknown b known found r s) in
      let as_before =
        subst
          (λ ns.
            Returns
              (Received ns (reject_unknown b known found r s).proposal_responders expiry
                (entry_of b p r found n))
              m)
          same.0 kept in
      subst
        (λ x.
          Returns (Received (inbox b s) s.proposal_responders expiry (entry_of b p r found n)) x)
        (sym step)
        (subst (λ old. Returns (Received (inbox b s) old expiry (entry_of b p r found n)) m) same.3
          as_before)

  nothing_to_print :
      (parts : List String) (row : List ℤ) (rows : List (List ℤ))
      → make_bal_info_from_raw_bal parts [] (row ∷ rows) ≡ panic
  unfolding make_bal_info_from_raw_bal print_bals
  nothing_to_print parts row rows = refl

  notif_panics :
      (parts : List String) (p : Proposal) (expiry : ℕ) (row : List ℤ) (rows : List (List ℤ))
      → p.init_bals ≡ row ∷ rows
      → ch_proposal_notif parts [] p expiry ≡ panic
  unfolding ch_proposal_notif
  notif_panics parts p expiry row rows e =
      rw (e, ch_proposal_notif) (rw (nothing_to_print parts row rows) refl)

  -- A proposal with an asset that is not registered, and with balances, makes an open session
  -- panic, after it rejected the proposal.
  pub unknown_asset_panics :
      (now : ℕ) (p : Proposal) (r : ProposalResponder) (s : SessionOf b) (row : List ℤ)
      (rows : List (List ℤ))
      → s.is_open ≡ true
      → p.init_bals ≡ row ∷ rows
      → get_currencies s.contracts b.read_currency p.assets ≡ done none
      → handle_proposal b now p r s ≡ panic
  unfolding handle_looked_up or_no_currencies
  unknown_asset_panics now p r s row rows o e c =
      let (parts, known) = aliases_of (alias_at b s) p.peers in
      let expiry = if known then unix_after now s.timeout_cfg.response else 0 in
      handled now p r s none o c
      ∙ ap
          (λ m. m >>= λ n.
            keep_proposal b expiry (entry_of b p r none n) (reject_unknown b known none r s))
          (notif_panics parts p expiry row rows e)
