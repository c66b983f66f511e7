-- ===== src/Session/State/Inbox.antt =====
-- session/session.go: the order of the notifications of proposals.
use dst_go.Base.{
  ℕ, List, [], ◌∷◌, ◌++◌, map, true, false, none, some, done, Returns, length, take, leb, lookup,
  lookup-insert_self, ◌==◌, if◌then◌else◌, ◌≡◌, refl, sym, ap, ◌∙◌, ◌⊎◌, inl, inr, arith,
  Option-cases,
}
use mathlib.Core.List.{append-nil, append_assoc, map-append}
use dst_go.Perun.Notifs.{ChProposalNotif}
use dst_go.Session.State.{Backend, SessionOf, ProposalEntry}
use dst_go.Session.State.Proposals.{
  send_proposal_notif, store_proposal, keep_proposal, send_cached_proposals, sub_ch_proposals,
}

take_all : (xs : List ChProposalNotif) → take (length xs) xs ≡ xs
take_all [] = refl
take_all (x ∷ xs) = ap (λ ys. x ∷ ys) (take_all xs)

leb_refl : (n : ℕ) → leb n n ≡ true
leb_refl n = ground arith

abbrev pub payload : ℕ × ChProposalNotif → ChProposalNotif
payload s = s.1

map-sent : (f : ℕ) (ns : List ChProposalNotif) → map payload (map (λ n. (f, n)) ns) ≡ ns
map-sent f [] = refl
map-sent f (n ∷ ns) = ap (λ l. n ∷ l) (map-sent f ns)

module _ (b : Backend) where
  open b use {ProposalResponder}

  send_cached_proposals-all :
      (f : ℕ) (cache : List ChProposalNotif) (s : SessionOf b)
      → send_cached_proposals b (length cache) f (record s { proposal_notif_cache = cache })
        ≡ done (record s {
          proposals_sent = s.proposals_sent ++ map (λ n. (f, n)) cache;
          proposal_notif_cache = [];
        })
  unfolding send_cached_proposals
  send_cached_proposals-all f [] s = rw (append-nil s.proposals_sent)
  send_cached_proposals-all f (n ∷ rest) s = rw (leb_refl (length rest)) (
      rw (take_all rest) (
        send_cached_proposals-all f rest
          (record s { proposals_sent = s.proposals_sent ++ (f, n) ∷ [] })
        ∙ ap (λ l. done (record s { proposals_sent = l; proposal_notif_cache = [] }))
            (append_assoc s.proposals_sent ((f, n) ∷ []) (map (λ n. (f, n)) rest))))

  -- The notifications that came in, those that were sent before those that wait.
  abbrev pub inbox : SessionOf b → List ChProposalNotif
  inbox s = map payload s.proposals_sent ++ s.proposal_notif_cache

  pub sub_open :
      (f : ℕ) (s : SessionOf b)
      → s.session_locked ≡ false
      → s.is_open ≡ true
      → s.proposal_notifier ≡ none
      → sub_ch_proposals b f s
        ≡ done (
          record s {
            proposal_notifier = some f;
            proposals_sent = s.proposals_sent ++ map (λ n. (f, n)) s.proposal_notif_cache;
            proposal_notif_cache = [];
          },
          none,
        )
  unfolding sub_ch_proposals
  sub_open f s l o e = ground (
    arith,
    send_cached_proposals-all f s.proposal_notif_cache (record s { proposal_notifier = some f }),
  )

  -- A first subscription to the proposals of an open session returns and delivers everything that
  -- was cached, in order: the inbox is what it was, nothing is left in the cache, and the
  -- subscriber is set.
  pub sub_ch_proposals-inbox :
      (f : ℕ) (s : SessionOf b)
      → s.session_locked ≡ false
      → s.is_open ≡ true
      → s.proposal_notifier ≡ none
      → Returns
          (λ r.
            (inbox r.0 ≡ inbox s)
            × ((r.0).proposal_notif_cache ≡ [])
            × ((r.0).proposal_notifier ≡ some f)
            × (r.1 ≡ none))
          (sub_ch_proposals b f s)
  sub_ch_proposals-inbox f s l o e =
      rw (sub_open f s l o e) (simp (append-nil, map-append, map-sent f), refl, refl, refl)

  store_proposal-inbox :
      (expiry : ℕ) (entry : ProposalEntry ProposalResponder) (s : SessionOf b)
      → (inbox (store_proposal b expiry entry s) ≡ inbox s)
        × ((store_proposal b expiry entry s).proposal_notifier ≡ s.proposal_notifier)
        × ((store_proposal b expiry entry s).proposal_notif_cache ≡ s.proposal_notif_cache)
  unfolding store_proposal
  store_proposal-inbox expiry entry s = ground arith

  send_proposal_notif-inbox :
      (n : ChProposalNotif) (s : SessionOf b)
      → (s.proposal_notifier ≡ none) ⊎ (s.proposal_notif_cache ≡ [])
      → inbox (send_proposal_notif b n s) ≡ inbox s ++ n ∷ []
  unfolding send_proposal_notif
  send_proposal_notif-inbox n s v = elim (Option-cases s.proposal_notifier) [
    | inl e ↦
        rw (e, send_proposal_notif)
          (sym (append_assoc (map payload s.proposals_sent) s.proposal_notif_cache (n ∷ [])))
    | inr (f, e) ↦
        let empty : s.proposal_notif_cache ≡ [] = elim v [ inl h ↦ cc | inr h ↦ h ] in
        rw (e, send_proposal_notif) (rw empty (simp (append-nil, map-append)))
  ]

  send_proposal_notif-responders :
      (n : ChProposalNotif) (s : SessionOf b)
      → (send_proposal_notif b n s).proposal_responders ≡ s.proposal_responders
  unfolding send_proposal_notif
  send_proposal_notif-responders n s = ground arith

  store_proposal-lookup :
      (expiry : ℕ) (entry : ProposalEntry ProposalResponder) (s : SessionOf b)
      → lookup entry.notif.proposal_id (store_proposal b expiry entry s).proposal_responders
        ≡ (if expiry == 0 then lookup entry.notif.proposal_id s.proposal_responders else some entry)
  unfolding store_proposal
  store_proposal-lookup expiry entry s =
      ground (arith, lookup-insert_self entry.notif.proposal_id entry s.proposal_responders)

  kept_as :
      (expiry : ℕ) (entry : ProposalEntry ProposalResponder) (s : SessionOf b)
      → s.session_locked ≡ false
      → keep_proposal b expiry entry s
        ≡ done (send_proposal_notif b entry.notif (store_proposal b expiry entry s))
  unfolding keep_proposal
  kept_as expiry entry s l = ground arith

  pub keep_proposal-inbox :
      (expiry : ℕ) (entry : ProposalEntry ProposalResponder) (s : SessionOf b)
      → s.session_locked ≡ false
      → (s.proposal_notifier ≡ none) ⊎ (s.proposal_notif_cache ≡ [])
      → Returns
          (λ d.
            (inbox d ≡ inbox s ++ entry.notif ∷ [])
            × (lookup entry.notif.proposal_id d.proposal_responders ≡ (
                if expiry == 0
                then lookup entry.notif.proposal_id s.proposal_responders
                else some entry)))
          (keep_proposal b expiry entry s)
  keep_proposal-inbox expiry entry s l v =
      let kept = store_proposal-inbox expiry entry s in
      rw (kept_as expiry entry s l) (
        send_proposal_notif-inbox entry.notif (store_proposal b expiry entry s)
              (rw (kept.1, kept.2) v)
            ∙ ap (λ ns. ns ++ entry.notif ∷ []) kept.0,
        ap (lookup entry.notif.proposal_id) (send_proposal_notif-responders entry.notif _)
            ∙ store_proposal-lookup expiry entry s,
      )
