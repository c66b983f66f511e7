-- ===== src/Session/State/Opens.antt =====
-- session/session.go: the channels of a session after `OpenCh`.
use dst_go.Base.{
  ℕ, List, Bool, true, false, Option, none, some, done, Ensures, Ensures->>=, ◌>>=◌, if◌then◌else◌,
  duration_string, ◌≡◌, refl, subst, ap, arith, Exec, panic, blocks, of_done, map, length, [], ◌∷◌,
}
use dst_go.Perun.Info.{PeerId, App, BalInfo, ChInfo, no_ch_info, own_alias}
use dst_go.Errors.{with_message, ApiError, Fallible, ok, fail, ApiResult, returned, refused}
use dst_go.Errors.Api.{new_api_err_failed_pre_condition, new_api_err_unknown_internal}
use dst_go.Channel.{Currency, Context, with_timeout}
use dst_go.Channel.Info.{new_ch, get_ch_info}
use dst_go.Channel.Updates.{Ch}
use dst_go.IdProvider.{read_by_alias}
use dst_go.Contracts.{asset_of}
use dst_go.Session.ChRegistry.{put}
use dst_go.Session.Timeout.{propose_ch}
use dst_go.Session.Opening.{
  sanitize_bal_info, retrieve_part_ids, register_parts, make_off_chain_addrs,
  handle_propose_ch_error,
}
use dst_go.Session.Opening.Parts.{ReadAs, AllDifferent, Occurs, retrieve_part_ids_iff}
use dst_go.Session.Opening.Allocations.{Allocation, make_allocation}
use dst_go.Session.Opening.Amounts.{Allocated, make_allocation-Allocated}
use dst_go.Session.State.{Backend, SessionOf, err_session_closed}
use dst_go.Session.State.Responses.{update_assets_in_funder, add_ch}
use dst_go.Session.State.Open.{
  all_present, Proposer, Opened, proposed, propose, open_for, open_channel,
}

all_present-some :
    (currencies : List (Option Currency)) (cs : List Currency)
    → all_present currencies ≡ done cs
    → currencies ≡ map some cs
unfolding all_present
all_present-some [] cs h = ground (arith, h)
all_present-some (none ∷ currencies) cs h = cc
all_present-some (some c ∷ currencies) cs h =
    with_rest (all_present currencies) (λ rest q. all_present-some currencies rest q) h
  where
    with_rest :
        (m : Exec (List Currency))
        → ((rest : List Currency) → m ≡ done rest → currencies ≡ map some rest)
        → (m >>= λ rest. done (c ∷ rest)) ≡ done cs
        → some c ∷ currencies ≡ map some cs
    with_rest (done rest) q e =
        let shorter = q rest refl in
        let made : c ∷ rest ≡ cs = cc in
        subst (λ ds. some c ∷ currencies ≡ map some ds) made (ap (λ ds. some c ∷ ds) shorter)
    with_rest panic q e = cc
    with_rest blocks q e = cc

module _ (b : Backend) (client : Proposer b) (pctx : Context) (opening : BalInfo) (app : App)
    (secs : ℕ) (s : SessionOf b) where
  open client use {LedgerProposal, make_proposal, propose_channel}

  -- The channel for the controller that the client gave.
  abbrev pub opened_ch : b.pc.Ctrl → List Currency → BalInfo → Ch b.pc
  opened_ch pch cs bal_info = new_ch b.pc pch s.chain_url cs bal_info.parts s.timeout_cfg secs

  -- What opening proposes: the opening info with the own part first, for participants that the session knows, each once and the own alias
  -- among them; an allocation with the currency, the asset and the amounts of each row of the info;
  -- and the proposal that the client makes of it.
  pub record Proposed (bal_info : BalInfo) (ids : List PeerId) (cs : List Currency)
      (proposal : LedgerProposal) : Type 0 where
    pub sanitized : sanitize_bal_info opening ≡ done bal_info
    pub known : ReadAs (read_by_alias s.id_provider) bal_info.parts ids
    pub different : AllDifferent bal_info.parts
    pub own : Occurs own_alias bal_info.parts
    pub allocation : Allocation
    pub as_long : length bal_info.currencies ≡ length bal_info.bals
    pub allocated :
        Allocated
          (asset_of s.contracts)
          b.read_currency
          bal_info.currencies
          bal_info.bals
          (map some cs)
          allocation.assets
          allocation.balances
    pub made : make_proposal secs allocation (make_off_chain_addrs ids) app ≡ ok proposal

  -- What `OpenCh` does: with an error the channels of the session are what they were; without, the
  -- client was asked to propose, with the participants registered and the time-out for proposing,
  -- and the channel for the controller that it gave was added, with the participants and currencies
  -- of the proposal; the info is that of this channel.
  pub data Added : Opened b client → Type 0 where
    none_added :
        (s' : SessionOf b) (info : ChInfo) (e : ApiError)
        → s'.chs ≡ s.chs
        → Added (s', info, some e)
    one_added :
        (s' : SessionOf b) (info : ChInfo) (bal_info : BalInfo) (ids : List PeerId)
        (cs : List Currency) (proposal : LedgerProposal) (pch : b.pc.Ctrl)
        → Proposed bal_info ids cs proposal
        → propose_channel
            (register_parts ids)
            (with_timeout pctx (propose_ch s.timeout_cfg secs))
            proposal
          ≡ ok pch
        → s'.chs ≡ put (λ c. c.params.id) s.chs (opened_ch pch cs bal_info)
        → get_ch_info b.pc (opened_ch pch cs bal_info) ≡ done info
        → Added (s', info, none)

  add_ch-put :
      (ch : Ch b.pc) (s0 : SessionOf b)
      → Ensures (λ s'. s'.chs ≡ put (λ c. c.params.id) s0.chs ch) (add_ch b ch s0)
  unfolding add_ch
  add_ch-put ch s0 = ground arith

  proposed-Added :
      (f : b.Funder) (bal_info : BalInfo) (ids : List PeerId) (cs : List Currency)
      (proposal : LedgerProposal) (r : Fallible (b.pc.Ctrl))
      → Proposed bal_info ids cs proposal
      → propose_channel
          (register_parts ids)
          (with_timeout pctx (propose_ch s.timeout_cfg secs))
          proposal
        ≡ r
      → Ensures Added (proposed b client (record s { funder = f }) bal_info.parts cs secs r)
  unfolding proposed
  proposed-Added f bal_info ids cs proposal (fail e) p h =
      Ensures->>= Added
        (handle_propose_ch_error s.chain_url (duration_string s.timeout_cfg.on_chain_tx)
          (duration_string s.timeout_cfg.response) bal_info.parts
          (with_message e "proposing channel"))
        _ (λ a q. none_added _ _ a refl)
  proposed-Added f bal_info ids cs proposal (ok pch) p h =
      let ch = opened_ch pch cs bal_info in
      let s0 : SessionOf b = record s { funder = f } in
      Ensures->>= Added (add_ch b ch s0) _ (λ s' q.
        Ensures->>= Added (get_ch_info b.pc ch) _ (λ info i.
          one_added s' info bal_info ids cs proposal pch p h
            (of_done (λ (d : SessionOf b). d.chs ≡ put (λ c. c.params.id) s.chs ch) q
              (add_ch-put ch s0))
            i))

  module _ (bal_info : BalInfo) (ids : List PeerId)
      (is_sanitized : sanitize_bal_info opening ≡ done bal_info)
      (found : retrieve_part_ids bal_info.parts (read_by_alias s.id_provider) ≡ returned ids) where
    proposal_of :
        (currencies : List (Option Currency)) (cs : List Currency) (allocation : Allocation)
        (proposal : LedgerProposal)
        → make_allocation (asset_of s.contracts) b.read_currency bal_info
          ≡ done (returned (currencies, allocation))
        → all_present currencies ≡ done cs
        → make_proposal secs allocation (make_off_chain_addrs ids) app ≡ ok proposal
        → Proposed bal_info ids cs proposal
    proposal_of currencies cs allocation proposal h q m =
        let (known, different, own) =
          (retrieve_part_ids_iff bal_info.parts (read_by_alias s.id_provider) ids).0 found in
        let (as_long, allocated) =
          make_allocation-Allocated (asset_of s.contracts) b.read_currency bal_info currencies
            allocation h in
        record {
          sanitized = is_sanitized;
          known = known;
          different = different;
          own = own;
          allocation = allocation;
          as_long = as_long;
          allocated =
              subst
                (λ cs'.
                  Allocated (asset_of s.contracts) b.read_currency bal_info.currencies bal_info.bals
                    cs' allocation.assets allocation.balances)
                (all_present-some currencies cs q) allocated;
          made = m;
        }

    propose-Added :
        (currencies : List (Option Currency)) (allocation : Allocation)
        → make_allocation (asset_of s.contracts) b.read_currency bal_info
          ≡ done (returned (currencies, allocation))
        → Ensures Added (propose b client pctx s bal_info app secs ids currencies allocation)
    unfolding propose
    propose-Added currencies allocation h = Ensures->>= Added (all_present currencies) _ (λ cs q.
        Ensures->>= Added (update_assets_in_funder b cs s.contracts s.funder) _
          (λ f p. made f cs q (make_proposal secs allocation (make_off_chain_addrs ids) app) refl))
      where
        made :
            (f : b.Funder) (cs : List Currency)
            → all_present currencies ≡ done cs
            → (r : Fallible LedgerProposal)
            → make_proposal secs allocation (make_off_chain_addrs ids) app ≡ r
            → Ensures Added (elim r [
              | fail x ↦ done (
                record s { funder = f },
                no_ch_info,
                some
                    (new_api_err_unknown_internal (with_message x "constructing channel proposal")),
              )
              | ok proposal ↦
                  proposed b client
                    (record s { funder = f })
                    bal_info.parts
                    cs
                    secs
                    (propose_channel
                      (register_parts ids)
                      (with_timeout pctx (propose_ch s.timeout_cfg secs))
                      proposal)
            ])
        made f cs q (fail x) m = none_added _ _ _ refl
        made f cs q (ok proposal) m =
            proposed-Added f bal_info ids cs proposal _
              (proposal_of currencies cs allocation proposal h q m) refl

    open_for-Added : Ensures Added (open_for b client pctx s bal_info app secs (returned ids))
    unfolding open_for
    open_for-Added =
        Ensures->>= Added (make_allocation (asset_of s.contracts) (b.read_currency) bal_info) _
          (λ r q. by_result r q)
      where
        by_result :
            (r : ApiResult (List (Option Currency) × Allocation))
            → make_allocation (asset_of s.contracts) b.read_currency bal_info ≡ done r
            → Ensures Added (elim r [
              | refused x ↦ done (s, no_ch_info, some x)
              | returned (currencies, allocation) ↦
                  propose b client pctx s bal_info app secs ids currencies allocation
            ])
        by_result (refused x) q = none_added _ _ x refl
        by_result (returned (currencies, allocation)) q = propose-Added currencies allocation q

  found-Added :
      (bal_info : BalInfo) (r : ApiResult (List PeerId))
      → sanitize_bal_info opening ≡ done bal_info
      → retrieve_part_ids bal_info.parts (read_by_alias s.id_provider) ≡ r
      → Ensures Added (open_for b client pctx s bal_info app secs r)
  unfolding open_for
  found-Added bal_info (refused e) q h = none_added _ _ e refl
  found-Added bal_info (returned ids) q h = open_for-Added bal_info ids q h

  -- Opening a channel, when it returns, either gives an error and leaves the channels of the
  -- session as they were, or adds one channel and gives its info. The channel is made of the
  -- controller that the client gave for the proposal; the proposal is made of the sanitized opening
  -- info, for participants that the session knows, each once and the own alias among them, and of an
  -- allocation with the currency, the asset and the amounts of each of its rows, in order.
  pub open_channel-Added : Ensures Added (open_channel b client pctx opening app secs s)
  unfolding open_channel
  open_channel-Added = either_way s.is_open
    where
      either_way :
          (x : Bool)
          → Ensures Added (
              if x
              then (sanitize_bal_info opening >>= λ bal_info.
                  open_for b client pctx s bal_info app secs
                    (retrieve_part_ids bal_info.parts (read_by_alias s.id_provider)))
              else done (s, no_ch_info, some (new_api_err_failed_pre_condition err_session_closed)))
      either_way false = none_added _ _ _ refl
      either_way true =
          Ensures->>= Added (sanitize_bal_info opening) _
            (λ bal_info q. found-Added bal_info _ q refl)
