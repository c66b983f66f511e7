-- ===== src/Session/State/Starting.antt =====
-- session/session.go, session/user.go, session/client.go: how a session is made: `New`, the user, the
-- ID provider with the own entry, and the channels that are restored.
use dst_go.Base.{ℕ, String, List, [], ◌&◌, Option, none, some, Duration, str_eq, if◌then◌else◌}
use dst_go.Perun.Info.{Address, PeerId, own_alias}
use dst_go.Errors.{
  GoError, text, with_message, ApiError, Fallible, ok, fail, ApiResult, returned, refused,
}
use dst_go.Errors.Api.{new_api_err_invalid_config, new_api_err_unknown_internal}
use dst_go.IdProvider.{IdProviderCache, new_cache_from, write}
use dst_go.Session.State.{Backend}

abbrev pub err_unsupported_type : GoError
err_unsupported_type = text "type not supported, see node config for supported types"

pub record WalletConfig : Type 0 where
  pub keystore_path : String
  pub password : String

-- `UserConfig`
pub record UserConfig : Type 0 where
  pub on_chain_addr : String
  pub on_chain_wallet : WalletConfig
  pub off_chain_addr : String
  pub off_chain_wallet : WalletConfig
  pub comm_addr : String
  pub comm_type : String

-- `session.Config`
pub record Config : Type 0 where
  pub user : UserConfig
  pub id_provider_type : String
  pub id_provider_url : String
  pub chain_url : String
  pub chain_id : ℕ
  pub chain_conn_timeout : Duration
  pub on_chain_tx_timeout : Duration
  pub response_timeout : Duration
  pub database_dir : String
  pub peer_reconn_timeout : Duration

-- A channel in the database of go-perun: its controller, the addresses of its peers, and the
-- challenge duration of its parameters.
pub record Persisted (C : Type 0) : Type 0 where
  pub pch : C
  pub peers : List Address
  pub challenge_duration : ℕ

-- What `New` takes from the wallet, the file of the ID provider, the chain, go-perun and its database,
-- and SHA-256: keystores and accounts, the entries of the file, the client and its listener, the
-- channels that are restored, and the session ID for an address at a time.
pub record Host (b : Backend) : Type 1 where
  pub Wallet : Type 0
  pub new_wallet : String → String → Fallible Wallet
  pub unlock_account : Wallet → Address → Option GoError
  pub read_id_file : String → Fallible (List (String × PeerId))
  pub new_chain_backend : String → ℕ → Duration → Duration → Address → Option GoError
  pub new_funder : Address → Address → b.Funder
  pub unlock : Wallet → Address → Option GoError
  pub new_pclient : Address → Option GoError
  pub new_listener : String → Option GoError
  pub restore_chs : String → Duration → Fallible (List (Persisted (b.pc.Ctrl)))
  pub session_hash : Address → ℕ → String

module _ (b : Backend) (host : Host b) where
  open b use {pc, wallet, read_currency}
  open host use {
    Wallet, new_wallet, unlock_account, read_id_file, new_chain_backend, new_funder, unlock,
    new_pclient, new_listener, restore_chs, session_hash,
  }

  -- `perun.Credential`
  pub record Credential : Type 0 where
    pub addr : Address
    pub held_in : Wallet

  pub record User : Type 0 where
    pub peer_id : PeerId
    pub on_chain : Credential
    pub off_chain : Credential

  unfoldable pub new_cred : WalletConfig → Address → Fallible Credential
  new_cred cfg addr = elim (new_wallet cfg.keystore_path cfg.password) [
    | fail e ↦ fail e
    | ok w ↦ elim (unlock_account w addr) [
      | some e ↦ fail e
      | none ↦ ok (record { addr = addr; held_in = w })
    ]
  ]

  -- The value that the error for a wallet names.
  unfoldable pub wallet_value : WalletConfig → String
  wallet_value cfg = cfg.keystore_path & ", " & cfg.password

  unfoldable pub user_of : UserConfig → Credential → Credential → User
  user_of cfg on_chain off_chain = record {
    peer_id = record {
      alias = own_alias;
      off_chain_addr = off_chain.addr;
      off_chain_addr_string = wallet.addr_string off_chain.addr;
      comm_addr = cfg.comm_addr;
      comm_type = cfg.comm_type;
    };
    on_chain = on_chain;
    off_chain = off_chain;
  }

  -- `NewUnlockedUser`
  unfoldable pub new_unlocked_user : UserConfig → ApiResult User
  unfolding new_cred wallet_value user_of
  new_unlocked_user cfg = elim (wallet.parse_addr cfg.on_chain_addr) [
    | fail e ↦ refused (new_api_err_invalid_config e "onChainAddr" cfg.on_chain_addr)
    | ok on_addr ↦ elim (wallet.parse_addr cfg.off_chain_addr) [
      | fail e ↦ refused (new_api_err_invalid_config e "offChainAddr" cfg.off_chain_addr)
      | ok off_addr ↦ elim (new_cred cfg.on_chain_wallet on_addr) [
        | fail e ↦
            refused
              (new_api_err_invalid_config e "onChainWallet" (wallet_value cfg.on_chain_wallet))
        | ok on_chain ↦ elim (new_cred cfg.off_chain_wallet off_addr) [
          | fail e ↦
              refused
                (new_api_err_invalid_config e "offChainWallet" (wallet_value cfg.off_chain_wallet))
          | ok off_chain ↦ returned (user_of cfg on_chain off_chain)
        ]
      ]
    ]
  ]

  -- The own entry of an ID provider that was read.
  unfoldable pub with_own : String → PeerId → IdProviderCache → ApiResult IdProviderCache
  with_own url own cache =
      let (cache', e) = write wallet cache own_alias (record own { alias = own_alias }) in
      elim e [
        | some err ↦ refused (
            new_api_err_invalid_config (with_message err "registering own user in ID Provider")
              "idProviderURL" url)
        | none ↦ returned cache'
      ]

  -- `initIDProvider`, with `local.NewIDprovider`.
  unfoldable pub init_id_provider : String → String → PeerId → ApiResult IdProviderCache
  unfolding with_own
  init_id_provider type url own =
      if str_eq type "local"
      then elim (read_id_file url) [
        | fail e ↦ refused (new_api_err_invalid_config e "idProviderURL" url)
        | ok entries ↦
            elim (new_cache_from wallet entries
              (record { peer_ids_by_alias = []; alias_by_addr = [] })) [
                | fail e ↦ refused (new_api_err_invalid_config e "idProviderURL" url)
                | ok cache ↦ with_own url own cache
              ]
      ]
      else refused (new_api_err_invalid_config err_unsupported_type "idProviderType" type)

  -- `newEthereumPaymentClient`: the error, if the client cannot be made.
  unfoldable pub new_ethereum_payment_client : String → Credential → Option ApiError
  new_ethereum_payment_client comm_addr cred = elim (unlock cred.held_in cred.addr) [
    | some e ↦ some (new_api_err_unknown_internal (with_message e "off-chain account"))
    | none ↦ elim (new_pclient cred.addr) [
      | some e ↦ some (new_api_err_unknown_internal (with_message e "off-chain account"))
      | none ↦ elim (new_listener comm_addr) [
        | some e ↦ some (new_api_err_invalid_config e "commAddr" comm_addr)
        | none ↦ none
      ]
    ]
  ]
