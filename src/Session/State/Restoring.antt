-- ===== src/Session/State/Restoring.antt =====
-- session/session.go: `handleRestoredCh`, `New` and `DeployAssetERC20`.
use dst_go.Base.{
  ℕ, String, List, [], ◌∷◌, ◌++◌, Bool, true, false, Option, none, some, Exec, done, blocks, ◌>>=◌,
  str_eq, if◌then◌else◌, duration_string, map,
}
use dst_go.Perun.Info.{Address, PeerId}
use dst_go.Errors.{with_message, Fallible, ok, fail, ApiResult, returned, refused}
use dst_go.Errors.Api.{
  new_api_err_invalid_config, new_api_err_invalid_argument, new_api_err_unknown_internal,
  new_api_err_failed_pre_condition,
}
use dst_go.IdProvider.{IdProviderCache, read_by_off_chain_addr}
use dst_go.Contracts.{ContractRegistry, asset_eth}
use dst_go.Channel.{Phase, acting, withdrawn, other_phase, Currency}
use dst_go.Channel.Info.{new_ch, current_ch_info}
use dst_go.Channel.Updates.{Ch}
use dst_go.Session.Failures.{handle_chain_error}
use dst_go.Session.ChRegistry.{new_ch_registry}
use dst_go.Session.Opening.{register_parts}
use dst_go.Session.State.{Backend, SessionOf, err_session_closed}
use dst_go.Session.State.Proposals.{get_currencies}
use dst_go.Session.State.Responses.{add_ch}
use dst_go.Session.State.Starting.{
  Config, Persisted, Host, User, new_unlocked_user, init_id_provider, new_ethereum_payment_client,
  err_unsupported_type,
}

abbrev pub is_acting : Phase → Bool
is_acting acting = true
is_acting withdrawn = false
is_acting other_phase = false

-- The loop over the peers of a restored channel, which ends at the first one that is not known.
unfoldable pub known_peers : (Address → Option PeerId) → List Address → Option (List PeerId)
known_peers read [] = some []
known_peers read (addr ∷ addrs) =
    let later = known_peers read addrs in
    elim (read addr) [ none ↦ none | some p ↦ elim later [ none ↦ none | some ps ↦ some (p ∷ ps) ] ]

module _ (b : Backend) where
  open b use {pc, wallet, read_currency}

  -- A session, and the calls of `Register` that were made for it.
  abbrev pub Registered : Type 0
  Registered = SessionOf b × List (Address × String)

  -- The channel of a persisted one, for peers and currencies that are known. The last log prints its
  -- info.
  unfoldable pub restored_ch :
      SessionOf b → Persisted (pc.Ctrl) → List PeerId → List Currency → Ch pc
  restored_ch s p parts currencies =
      new_ch pc p.pch s.chain_url currencies (map (λ q. q.alias) parts) s.timeout_cfg
        p.challenge_duration

  unfoldable pub restore_for : SessionOf b → Persisted (pc.Ctrl) → List PeerId → Exec Registered
  unfolding restored_ch
  restore_for s p parts =
      get_currencies s.contracts read_currency (pc.pch_state p.pch).assets >>= λ found. elim found [
        | none ↦ done (s, register_parts parts)
        | some currencies ↦ do
          let ch = restored_ch s p parts currencies
          s' ← add_ch b ch s
          info ← current_ch_info pc ch
          done (s', register_parts parts)
      ]

  -- `handleRestoredCh`
  unfoldable pub handle_restored_ch : Persisted (pc.Ctrl) → SessionOf b → Exec Registered
  unfolding restore_for
  handle_restored_ch p s =
      if is_acting (pc.pch_phase p.pch)
      then elim (known_peers (read_by_off_chain_addr wallet s.id_provider) p.peers) [
        | none ↦ done (s, [])
        | some parts ↦ restore_for s p parts
      ]
      else done (s, [])

  -- The calls of the handler in `RestoreChs`.
  unfoldable pub restore_all : List (Persisted (pc.Ctrl)) → SessionOf b → Exec Registered
  unfolding handle_restored_ch
  restore_all [] s = done (s, [])
  restore_all (p ∷ ps) s = do
    (s', first) ← handle_restored_ch p s
    (s'', rest) ← restore_all ps s'
    done (s'', first ++ rest)

  module _ (host : Host b) where
    -- The session as it is made, before the channels are restored.
    unfoldable pub initial :
        Config → ContractRegistry → ℕ → User b host → IdProviderCache → Address → SessionOf b
    initial cfg contracts now user id_provider eth = record {
      session_id = host.session_hash user.off_chain.addr now;
      is_open = true;
      timeout_cfg = record {
        on_chain_tx = cfg.on_chain_tx_timeout;
        response = cfg.response_timeout;
      };
      chain_url = cfg.chain_url;
      id_provider = id_provider;
      contracts = contracts;
      funder = host.new_funder eth user.on_chain.addr;
      chs = new_ch_registry;
      proposal_notifier = none;
      proposal_notif_cache = [];
      proposal_responders = [];
      calls = [];
      session_locked = false;
      proposals_sent = [];
    }

    unfoldable pub restored : Config → SessionOf b → Exec (ApiResult Registered)
    unfolding restore_all
    restored cfg s = elim (host.restore_chs cfg.database_dir cfg.peer_reconn_timeout) [
      | fail e ↦ done (
          refused (
            new_api_err_invalid_config (with_message e "restoring channels") "databaseDir"
              cfg.database_dir))
      | ok ps ↦ restore_all ps s >>= λ out. done (returned out)
    ]

    -- The part of `New` behind the ID provider.
    unfoldable pub start_with :
        Config → ContractRegistry → ℕ → User b host → IdProviderCache → Exec (ApiResult Registered)
    unfolding initial restored
    start_with cfg contracts now user id_provider =
        elim (host.new_chain_backend cfg.chain_url cfg.chain_id cfg.chain_conn_timeout
          cfg.on_chain_tx_timeout user.on_chain.addr) [
            | some e ↦ done (
                refused (
                  new_api_err_invalid_config (with_message e "connecting to blockchain") "chainURL"
                    cfg.chain_url))
            | none ↦ asset_eth contracts >>= λ eth.
                elim (new_ethereum_payment_client b host cfg.user.comm_addr user.off_chain) [
                  | some e ↦ done (refused e)
                  | none ↦ restored cfg (initial cfg contracts now user id_provider eth)
                ]
          ]

    -- `New`, at the time `now`.
    unfoldable pub new_session : Config → ContractRegistry → ℕ → Exec (ApiResult Registered)
    unfolding start_with
    new_session cfg contracts now = elim (new_unlocked_user b host cfg.user) [
      | refused e ↦ done (refused e)
      | returned user ↦
          if str_eq cfg.user.comm_type "tcp"
          then elim (init_id_provider b host cfg.id_provider_type cfg.id_provider_url
              user.peer_id) [
                | refused e ↦ done (refused e)
                | returned id_provider ↦ start_with cfg contracts now user id_provider
              ]
          else done (
              refused
                (new_api_err_invalid_config err_unsupported_type "commType" cfg.user.comm_type))
    ]

  -- `DeployAssetERC20`. `deploy` is the transaction that the chain backend sends, by the adjudicator
  -- and the token, from the account of the user.
  unfoldable pub deploy_asset_erc20 :
      (Address → Address → Fallible Address) → String → SessionOf b → Exec (ApiResult String)
  deploy_asset_erc20 deploy token_addr s =
      if s.session_locked
      then blocks
      else if s.is_open
      then elim (wallet.parse_addr token_addr) [
        | fail e ↦ done (refused (new_api_err_invalid_argument e "token" token_addr))
        | ok token ↦ elim (deploy s.contracts.adjudicator token) [
          | ok asset ↦ done (returned (wallet.addr_string asset))
          | fail e ↦
              elim (handle_chain_error s.chain_url (duration_string s.timeout_cfg.on_chain_tx) e) [
                | some api_err ↦ done (refused api_err)
                | none ↦ done (refused (new_api_err_unknown_internal e))
              ]
        ]
      ]
      else done (refused (new_api_err_failed_pre_condition err_session_closed))
