-- ===== src/Session/State/Started.antt =====
-- session/session.go: the session that `New` makes.
use dst_go.Base.{
  ℕ, List, [], All, Bool, true, false, Option, none, some, done, Returns, str_eq, if◌then◌else◌,
  ◌≡◌, refl, ap, ◌∙◌, inl, inr, Option-cases,
}
use dst_go.Perun.Info.{Address, PeerId, own_alias}
use dst_go.Errors.{ApiError, ApiResult, returned, refused, ok, Fallible-cases}
use dst_go.Errors.Api.{new_api_err_invalid_config}
use dst_go.IdProvider.{IdProviderCache, read_by_alias}
use dst_go.Contracts.{ContractRegistry, asset_eth}
use dst_go.Session.ChRegistry.{new_ch_registry}
use dst_go.Session.ChRegistry.Laws.{IsIndexed, IsFound, new_ch_registry-IsIndexed}
use dst_go.Session.State.{Backend, SessionOf}
use dst_go.Session.State.Starting.{
  Config, Host, User, new_unlocked_user, init_id_provider, new_ethereum_payment_client,
  err_unsupported_type,
}
use dst_go.Session.State.Restoring.{Registered, initial, restored, start_with, new_session}
use dst_go.Session.State.Restored.{ch_id, IsRestored, Grown}
use dst_go.Session.State.Returning.{IsReadable, IsBalanced, restore_all_done}
use dst_go.Session.State.Starting.{Persisted}
use dst_go.Session.State.Owned.{HasOwn, Owns, init_id_provider-Owns, user_comm}

module _ (b : Backend) where
  open b use {pc, wallet, read_currency}

  module _ (host : Host b) where
    -- A session as `New` gives it: open, with no subscriber and no proposals, with the contracts of the
    -- node, an own entry in the ID provider, and restored channels that are found under their IDs.
    pub record IsStarted (cfg : Config) (contracts : ContractRegistry) (s : SessionOf b)
        : Type 0 where
      pub opens : s.is_open ≡ true
      pub free : s.session_locked ≡ false
      pub unwatched : s.proposal_notifier ≡ none
      pub nothing_cached : s.proposal_notif_cache ≡ []
      pub no_proposals : s.proposal_responders ≡ []
      pub shares : s.contracts ≡ contracts
      pub own :
          (p : PeerId) × (read_by_alias s.id_provider own_alias ≡ some p)
          × (p.comm_addr ≡ cfg.user.comm_addr)
      pub indexed : IsIndexed (ch_id b) s.chs
      pub all_found : All (IsFound (ch_id b) s.chs) s.chs.chs
      pub all_restored : All (IsRestored b contracts) s.chs.chs

    abbrev pub StartsAs : Config → ContractRegistry → ApiResult (Registered b) → Type 0
    StartsAs cfg contracts (refused e) = Unit
    StartsAs cfg contracts (returned out) = IsStarted cfg contracts out.0

    initially :
        (cfg : Config) (contracts : ContractRegistry) (now : ℕ) (user : User b host)
        (c : IdProviderCache) (eth : Address)
        → let s0 = initial b host cfg contracts now user c eth in Grown b s0 s0
    unfolding initial new_ch_registry
    initially cfg contracts now user c eth = record {
      rest_stays = refl;
      indexed = new_ch_registry-IsIndexed (ch_id b);
      all_found = tt;
      all_restored = tt;
    }

    Grown-IsStarted :
        (cfg : Config) (contracts : ContractRegistry) (now : ℕ) (user : User b host)
        (c : IdProviderCache) (eth : Address) (s : SessionOf b)
        → HasOwn b host cfg c
        → Grown b (initial b host cfg contracts now user c eth) s
        → IsStarted cfg contracts s
    unfolding initial
    Grown-IsStarted cfg contracts now user c eth s (p, read, comm) g = record {
      opens = ap (λ (x : SessionOf b). x.is_open) g.rest_stays;
      free = ap (λ (x : SessionOf b). x.session_locked) g.rest_stays;
      unwatched = ap (λ (x : SessionOf b). x.proposal_notifier) g.rest_stays;
      nothing_cached = ap (λ (x : SessionOf b). x.proposal_notif_cache) g.rest_stays;
      no_proposals = ap (λ (x : SessionOf b). x.proposal_responders) g.rest_stays;
      shares = ap (λ (x : SessionOf b). x.contracts) g.rest_stays;
      own = (
        p,
        ap (λ (x : SessionOf b). read_by_alias x.id_provider own_alias) g.rest_stays ∙ read,
        comm,
      );
      indexed = g.indexed;
      all_found = g.all_found;
      all_restored = g.all_restored;
    }

    -- Restoring from the database gives channels whose states have an asset for each row.
    abbrev pub IsSound : Config → Type 0
    IsSound cfg =
        (ps : List (Persisted (pc.Ctrl)))
        → host.restore_chs cfg.database_dir cfg.peer_reconn_timeout ≡ ok ps
        → All (IsBalanced b) ps

    module _ (cfg : Config) (contracts : ContractRegistry) (now : ℕ) (eth : Address)
        (readable : IsReadable read_currency contracts) (holds_eth : asset_eth contracts ≡ done eth)
        (sound : IsSound cfg) where
      restored-StartsAs :
          (user : User b host) (c : IdProviderCache)
          → HasOwn b host cfg c
          → Returns
              (StartsAs cfg contracts)
              (restored b host cfg (initial b host cfg contracts now user c eth))
      unfolding restored initial
      restored-StartsAs user c own =
          let s0 = initial b host cfg contracts now user c eth in
          elim (Fallible-cases (host.restore_chs cfg.database_dir cfg.peer_reconn_timeout)) [
            | inr (e, h) ↦ rw (h, restored) tt
            | inl (ps, h) ↦
                let (out, q, g) =
                  restore_all_done b s0 s0 ps refl readable (initially cfg contracts now user c eth)
                    (sound ps h) in
                rw (h, restored) (rw q (Grown-IsStarted cfg contracts now user c eth out.0 own g))
          ]

      start_with-StartsAs :
          (user : User b host) (c : IdProviderCache)
          → HasOwn b host cfg c
          → Returns (StartsAs cfg contracts) (start_with b host cfg contracts now user c)
      unfolding start_with
      start_with-StartsAs user c own =
          elim (Option-cases (
            host.new_chain_backend cfg.chain_url cfg.chain_id cfg.chain_conn_timeout
              cfg.on_chain_tx_timeout user.on_chain.addr)) [
                | inr (e, h) ↦ rw (h, start_with) tt
                | inl h ↦
                    rw (h, start_with)
                      (rw holds_eth (
                        client
                          (new_ethereum_payment_client b host cfg.user.comm_addr user.off_chain)))
              ]
        where
          client :
              (made : Option ApiError)
              → Returns (StartsAs cfg contracts) (elim made [
                | some e ↦ done (refused e)
                | none ↦ restored b host cfg (initial b host cfg contracts now user c eth)
              ])
          client (some e) = tt
          client none = restored-StartsAs user c own

    -- Making a session returns, when the node has registered ETH, every symbol it has registered has
    -- a currency, and every restored state has an asset for each of its rows. It gives an error, or
    -- an open session with no subscriber and no proposals, that shares the contracts of the node and
    -- has an own entry in its ID provider, under the address for communication of the
    -- configuration. Its channels were in the acting phase, are open, free and without a subscriber,
    -- have a currency for each asset and an info, and the ID of each leads to a channel with this ID.
    pub new_session-StartsAs :
        (cfg : Config) (contracts : ContractRegistry) (now : ℕ) (eth : Address)
        → IsReadable read_currency contracts
        → asset_eth contracts ≡ done eth
        → IsSound cfg
        → Returns (StartsAs cfg contracts) (new_session b host cfg contracts now)
    unfolding new_session Owns
    new_session-StartsAs cfg contracts now eth readable holds_eth sound =
        by_user (new_unlocked_user b host cfg.user) (λ user e. user_comm b host cfg user e)
      where
        provider :
            (user : User b host) (made : ApiResult IdProviderCache)
            → Owns b host cfg made
            → Returns (StartsAs cfg contracts) (elim made [
              | refused e ↦ done (refused e)
              | returned c ↦ start_with b host cfg contracts now user c
            ])
        provider user (refused e) h = tt
        provider user (returned c) h =
            start_with-StartsAs cfg contracts now eth readable holds_eth sound user c h

        by_type :
            (user : User b host) (tcp : Bool)
            → user.peer_id.comm_addr ≡ cfg.user.comm_addr
            → Returns (StartsAs cfg contracts) (
                if tcp
                then elim (init_id_provider b host cfg.id_provider_type cfg.id_provider_url
                    user.peer_id) [
                      | refused e ↦ done (refused e)
                      | returned c ↦ start_with b host cfg contracts now user c
                    ]
                else done (
                    refused (
                      new_api_err_invalid_config err_unsupported_type "commType"
                        cfg.user.comm_type)))
        by_type user true e = provider user _ (
            init_id_provider-Owns b host cfg cfg.id_provider_type cfg.id_provider_url user.peer_id
              e)
        by_type user false e = tt

        by_user :
            (made : ApiResult (User b host))
            → ((user : User b host)
                → made ≡ returned user
                → user.peer_id.comm_addr ≡ cfg.user.comm_addr)
            → Returns (StartsAs cfg contracts) (elim made [
              | refused e ↦ done (refused e)
              | returned user ↦
                  if str_eq cfg.user.comm_type "tcp"
                  then elim (init_id_provider b host cfg.id_provider_type cfg.id_provider_url
                      user.peer_id) [
                        | refused e ↦ done (refused e)
                        | returned c ↦ start_with b host cfg contracts now user c
                      ]
                  else done (
                      refused (
                        new_api_err_invalid_config err_unsupported_type "commType"
                          cfg.user.comm_type))
            ])
        by_user (refused e) h = tt
        by_user (returned user) h = by_type user (str_eq cfg.user.comm_type "tcp") (h user refl)
