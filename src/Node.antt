-- ===== src/Node.antt =====
-- node/node.go: the node, which keeps the sessions and the registries that they share. The mutex of
-- the node makes each call one step.
pub mod Registries
pub mod Starting
pub mod Service
pub mod Toy
mod Tests
use dst_go.Base.{
  ℕ, String, List, [], ◌∷◌, Option, none, some, Exec, done, ◌>>=◌, insert, lookup, Duration,
}
use dst_go.Perun.Info.{ChInfo, NodeConfig}
use dst_go.Errors.{
  GoError, asset_erc20_registered_error, invalid_contract_error, with_message, ApiError, Fallible,
  ok, fail, ApiResult, returned, refused, ContractErrInfo,
}
use dst_go.Errors.Api.{
  new_api_err_invalid_argument, new_api_err_resource_exists, new_api_err_resource_not_found,
  new_api_err_invalid_contracts, new_api_err_unknown_internal,
}
use dst_go.Errors.Chain.{errors_as, error_string}
use dst_go.IdProvider.{WalletBackend}
use dst_go.Contracts.{RoChainBackend, ContractRegistry, new_contract_registry, register_asset_erc20}
use dst_go.Currencies.{
  DecimalLibrary, Registry, new_registry, register_currency, registered_currency, eth_max_decimals,
}
use dst_go.Session.State.{Backend, SessionOf}
use dst_go.Session.State.Channels.{get_chs_info}
use dst_go.Session.State.Starting.{Config, Host}
use dst_go.Session.State.Restoring.{new_session}

-- `node`. `chain` is the read-only backend that the contract registry validates with, and `clock` the
-- time of the machine.
pub record NodeState (S : Type 0) : Type 0 where
  pub cfg : NodeConfig
  pub chain : RoChainBackend
  pub sessions : List (String × S)
  pub contract_registry : ContractRegistry
  pub currency_registry : Registry
  pub clock : ℕ

-- What the node takes from the chain, the logger, the file of a configuration and the decimal
-- library.
pub record NodeHost : Type 1 where
  pub connect : String → ℕ → Duration → Fallible RoChainBackend
  pub init_logger : String → String → Option GoError
  pub parse_config : String → Fallible Config
  pub decimals : DecimalLibrary
  pub wallet : WalletBackend

-- The targets of `errors.As` in `RegisterCurrency`.
unfoldable pub as_registered : GoError → Option (String × String)
as_registered (asset_erc20_registered_error asset symbol) = some (asset, symbol)
as_registered _ = none

unfoldable pub as_invalid_contract : GoError → Option (String × String × GoError)
as_invalid_contract (invalid_contract_error name address e) = some (name, address, e)
as_invalid_contract _ = none

-- The error for a contract that could not be registered.
unfoldable pub registration_error : GoError → ApiError
unfolding as_registered as_invalid_contract
registration_error e = elim (errors_as as_registered e) [
  | some (asset, symbol) ↦ new_api_err_resource_exists "currency" symbol
  | none ↦ elim (errors_as as_invalid_contract e) [
    | some (name, address, inner) ↦
        new_api_err_invalid_contracts
          (record { name = name; address = address; error = error_string inner } ∷ [])
    | none ↦ new_api_err_unknown_internal e
  ]
]

module _ (host : NodeHost) where
  open host use {connect, init_logger, parse_config, decimals, wallet}

  -- `initContractRegistry`
  unfoldable pub init_contract_registry :
      RoChainBackend → String → String → Fallible ContractRegistry
  init_contract_registry chain adjudicator asset_eth = elim (wallet.parse_addr adjudicator) [
    | fail e ↦ fail (with_message e "parsing adjudicator address")
    | ok adjudicator_addr ↦ elim (wallet.parse_addr asset_eth) [
      | fail e ↦ fail (with_message e "parsing asset ETH address")
      | ok asset_eth_addr ↦ elim (new_contract_registry chain adjudicator_addr asset_eth_addr) [
        | fail e ↦ fail (with_message e "initialing contract registry")
        | ok r ↦ ok r
      ]
    ]
  ]

  -- The two registries.
  abbrev pub Registries : Type 0
  Registries = ContractRegistry × Registry

  -- Behind the registration of the contract of a token: the currency is registered as well.
  unfoldable pub add_currency :
      Registry → ContractRegistry × Fallible (String × ℕ) → Fallible Registries
  add_currency reg (r, fail e) = fail (with_message e "registering ERC20 asset contract")
  add_currency reg (r, ok (symbol, max_decimals)) =
      let (reg', c) = register_currency decimals symbol max_decimals reg in
      elim c [
        | fail e ↦ fail (with_message e "registering ERC20 asset currency")
        | ok parser ↦ ok (r, reg')
      ]

  unfoldable pub register_asset_of :
      RoChainBackend → String → String → Registries → Exec (Fallible Registries)
  unfolding add_currency
  register_asset_of chain token asset (r, reg) = elim (wallet.parse_addr token) [
    | fail e ↦ done (fail (with_message e "token ERC20 address"))
    | ok token_addr ↦ elim (wallet.parse_addr asset) [
      | fail e ↦ done (fail (with_message e "asset ERC20 address"))
      | ok asset_addr ↦
          register_asset_erc20 chain r token_addr asset_addr >>= λ out. done (add_currency reg out)
    ]
  ]

  -- `registerAssetERC20s`, over the entries of the map in the order in which they are visited.
  unfoldable pub register_asset_erc20s :
      RoChainBackend → List (String × String) → Registries → Exec (Fallible Registries)
  unfolding register_asset_of
  register_asset_erc20s chain [] rs = done (ok rs)
  register_asset_erc20s chain ((token, asset) ∷ rest) rs =
      register_asset_of chain token asset rs >>= λ out. elim out [
        | fail e ↦ done (fail e)
        | ok rs' ↦ register_asset_erc20s chain rest rs'
      ]

  -- The registries of a node: ETH and the tokens of the configuration.
  unfoldable pub init_registries : RoChainBackend → NodeConfig → Exec (Fallible Registries)
  unfolding init_contract_registry register_asset_erc20s
  init_registries chain cfg = elim (init_contract_registry chain cfg.adjudicator cfg.asset_eth) [
    | fail e ↦ done (fail e)
    | ok r ↦
        let (reg, c) = register_currency decimals "ETH" eth_max_decimals new_registry in
        elim c [
          | fail e ↦ done (fail (with_message e "registering ETH currency"))
          | ok parser ↦ register_asset_erc20s chain cfg.asset_erc20s (r, reg)
        ]
  ]

  unfoldable pub started :
      {S : Type 0} → ℕ → NodeConfig → RoChainBackend → Registries → Fallible (NodeState S)
  started now cfg chain (r, reg) = elim (init_logger cfg.log_level cfg.log_file) [
    | some e ↦ fail (with_message e "initializing logger for node")
    | none ↦ ok (record {
      cfg = cfg;
      chain = chain;
      sessions = [];
      contract_registry = r;
      currency_registry = reg;
      clock = now;
    })
  ]

  -- `New`
  unfoldable pub new_node : {S : Type 0} → ℕ → NodeConfig → Exec (Fallible (NodeState S))
  unfolding init_registries started
  new_node now cfg = elim (connect cfg.chain_url cfg.chain_id cfg.chain_conn_timeout) [
    | fail e ↦ done (fail (with_message e "connecting to blockchain"))
    | ok chain ↦ init_registries chain cfg >>= λ out. elim out [
      | fail e ↦ done (fail e)
      | ok rs ↦ done (started now cfg chain rs)
    ]
  ]

  module _ {S : Type 0} where
    -- `RegisterCurrency` behind the contract registry.
    unfoldable pub currency_added :
        NodeState S → ContractRegistry × Fallible (String × ℕ) → NodeState S × ApiResult String
    unfolding registration_error
    currency_added n (r, fail e) =
        (record n { contract_registry = r }, refused (registration_error e))
    currency_added n (r, ok (symbol, max_decimals)) =
        let (reg, c) = register_currency decimals symbol max_decimals n.currency_registry in
        let n' = record n { contract_registry = r; currency_registry = reg } in
        elim c [
          | fail e ↦ (n', refused (new_api_err_resource_exists "currency" symbol))
          | ok parser ↦ (n', returned symbol)
        ]

    -- `RegisterCurrency`
    unfoldable pub add_token_currency :
        String → String → NodeState S → Exec (NodeState S × ApiResult String)
    unfolding currency_added
    add_token_currency token asset n = elim (wallet.parse_addr asset) [
      | fail e ↦ done (n, refused (new_api_err_invalid_argument e "asset" asset))
      | ok asset_addr ↦ elim (wallet.parse_addr token) [
        | fail e ↦ done (n, refused (new_api_err_invalid_argument e "token" token))
        | ok token_addr ↦
            register_asset_erc20 n.chain n.contract_registry token_addr asset_addr >>= λ out.
            done (currency_added n out)
      ]
    ]

-- `Help`
unfoldable pub help : List String
help = "payment" ∷ []

module _ (b : Backend) (host : NodeHost) where
  abbrev pub NodeOf : Type 0
  NodeOf = NodeState (SessionOf b)

  -- What the sessions of the node take from outside: the currencies are those of the node.
  abbrev pub backend_at : NodeOf → Backend
  backend_at n = record b {
    wallet = host.wallet;
    read_currency = registered_currency n.currency_registry;
  }

  -- `GetSession`. The sessions share the contract registry of the node.
  unfoldable pub get_session : String → NodeOf → ApiResult (SessionOf b)
  get_session session_id n = elim (lookup session_id n.sessions) [
    | none ↦ refused (new_api_err_resource_not_found "session" session_id)
    | some s ↦ returned (record s { contracts = n.contract_registry })
  ]

  unfoldable pub put_session : String → SessionOf b → NodeOf → NodeOf
  put_session session_id s n = record n { sessions = insert session_id s n.sessions }

  -- `OpenSession`: the session is kept under its ID, and the infos of its channels are given.
  unfoldable pub open_session :
      ((n : NodeOf) → Host (backend_at n))
      → String
      → NodeOf
      → Exec (NodeOf × ApiResult (String × List ChInfo))
  unfolding put_session
  open_session session_host config_file n = elim (host.parse_config config_file) [
    | fail e ↦ done (
      n,
      refused
          (new_api_err_invalid_argument (with_message e "parsing config") "configFile" config_file),
    )
    | ok cfg ↦ new_session (backend_at n) (session_host n) cfg n.contract_registry n.clock >>= λ r.
        elim r [
          | refused e ↦ done (n, refused e)
          | returned (s, calls) ↦ get_chs_info (backend_at n) s >>= λ infos.
              done (put_session s.session_id s n, returned (s.session_id, infos))
        ]
  ]
