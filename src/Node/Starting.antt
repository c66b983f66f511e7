-- ===== src/Node/Starting.antt =====
-- node/node.go: `New`, and the registries that a node starts with.
use dst_go.Base.{
  ℕ, String, List, [], ◌∷◌, Exec, done, Returns, Returns->>=, lookup, ◌≡◌, refl, inl, inr, arith,
  Option-cases,
}
use dst_go.Perun.Info.{Address, NodeConfig}
use dst_go.Errors.{Fallible, ok, fail, Fallible-cases}
use dst_go.Contracts.{RoChainBackend, ContractRegistry, new_contract_registry}
use dst_go.Contracts.Registration.{
  Registered, added, register_asset_erc20-Registered, new_contract_registry-Inv,
  new_contract_registry-asset_of,
}
use dst_go.Currencies.{
  Registry, new_registry, is_registered, register_currency, eth_max_decimals, new_currency,
}
use dst_go.Currencies.Laws.{register_currency-Inv, new_registry-Inv}
use dst_go.Node.{
  NodeState, NodeHost, init_contract_registry, add_currency, register_asset_of,
  register_asset_erc20s, init_registries, started, new_node,
}
use dst_go.Node.Registries.{InStep, currency_new, eth_currency}

-- The registries that are made, if any, are in step.
abbrev pub AreInStep : Fallible (ContractRegistry × Registry) → Type 0
AreInStep (ok (r, reg)) = InStep r reg
AreInStep (fail e) = Unit

abbrev pub StartsInStep : {S : Type 0} → Fallible (NodeState S) → Type 0
StartsInStep (ok n) = InStep n.contract_registry n.currency_registry
StartsInStep (fail e) = Unit

module _ (host : NodeHost) where
  open host use {connect, decimals, wallet}

  add_currency-AreInStep :
      (chain : RoChainBackend) (r : ContractRegistry) (reg : Registry) (token asset : Address)
      (m : Exec (ContractRegistry × Fallible (String × ℕ)))
      → InStep r reg
      → Registered chain r token asset m
      → Returns (λ out. AreInStep (add_currency host reg out)) m
  unfolding add_currency
  add_currency-AreInStep chain r reg token asset m k (Registered.refused e made) = rw made tt
  add_currency-AreInStep chain r reg token asset m k
        (added r' s d made valid v unknown free found tok at) =
      let new = currency_new decimals r r' reg s d asset k v free at in
      rw made (rw (new.1, add_currency) new.0)

  register_asset_of-AreInStep :
      (chain : RoChainBackend) (token asset : String) (r : ContractRegistry) (reg : Registry)
      → InStep r reg
      → Returns AreInStep (register_asset_of host chain token asset (r, reg))
  unfolding register_asset_of
  register_asset_of-AreInStep chain token asset r reg k =
      elim (Fallible-cases (wallet.parse_addr token)) [
        | inr (e, h) ↦ rw (h, register_asset_of) tt
        | inl (t, h) ↦ elim (Fallible-cases (wallet.parse_addr asset)) [
          | inr (e, g) ↦ rw (h, g, register_asset_of) tt
          | inl (a, g) ↦
              rw (h, g, register_asset_of)
                (Returns->>= (λ out. AreInStep (add_currency host reg out)) AreInStep _ _
                  (add_currency-AreInStep chain r reg t a _ k
                    (register_asset_erc20-Registered chain r t a k.contracts_in_order))
                  (λ out h. h))
        ]
      ]

  register_asset_erc20s-AreInStep :
      (chain : RoChainBackend) (tokens : List (String × String))
      (rs : Fallible (ContractRegistry × Registry))
      → AreInStep rs
      → Returns AreInStep (elim rs [
        | fail e ↦ done (fail e)
        | ok rs' ↦ register_asset_erc20s host chain tokens rs'
      ])
  unfolding register_asset_erc20s
  register_asset_erc20s-AreInStep chain tokens (fail e) k = tt
  register_asset_erc20s-AreInStep chain [] (ok (r, reg)) k = k
  register_asset_erc20s-AreInStep chain ((token, asset) ∷ rest) (ok (r, reg)) k =
      Returns->>= AreInStep AreInStep (register_asset_of host chain token asset (r, reg)) _
        (register_asset_of-AreInStep chain token asset r reg k)
        (λ out h. register_asset_erc20s-AreInStep chain rest out h)

  pub eth_InStep :
      (chain : RoChainBackend) (adjudicator asset : Address) (r : ContractRegistry)
      → new_contract_registry chain adjudicator asset ≡ ok r
      → InStep r (register_currency decimals "ETH" eth_max_decimals new_registry).0
  eth_InStep chain adjudicator asset r e = record {
    contracts_in_order = (new_contract_registry-Inv chain adjudicator asset r e).0;
    currencies_in_order =
        (register_currency-Inv decimals new_registry "ETH" eth_max_decimals "ETH"
          new_registry-Inv).0;
    same = λ t.
        eth_currency decimals r asset t
          (new_contract_registry-asset_of chain adjudicator asset r t e);
  }

  eth_new :
      (register_currency decimals "ETH" eth_max_decimals new_registry).1
      ≡ ok (new_currency decimals "ETH" eth_max_decimals)
  unfolding register_currency is_registered new_registry lookup
  eth_new = refl

  init_made :
      (chain : RoChainBackend) (adjudicator asset_eth : String) (r : ContractRegistry)
      → init_contract_registry host chain adjudicator asset_eth ≡ ok r
      → (a : Address) × (b : Address) × (new_contract_registry chain a b ≡ ok r)
  unfolding init_contract_registry
  init_made chain adjudicator asset_eth r e =
      elim (Fallible-cases (wallet.parse_addr adjudicator)) [
        | inr (x, h) ↦ absurd (ground arith)
        | inl (a, h) ↦ elim (Fallible-cases (wallet.parse_addr asset_eth)) [
          | inr (x, g) ↦ absurd (ground arith)
          | inl (b, g) ↦ (a, b, ground arith)
        ]
      ]

  init_registries-AreInStep :
      (chain : RoChainBackend) (cfg : NodeConfig)
      → Returns AreInStep (init_registries host chain cfg)
  unfolding init_registries
  init_registries-AreInStep chain cfg =
      elim (Fallible-cases (init_contract_registry host chain cfg.adjudicator cfg.asset_eth)) [
        | inr (e, h) ↦ rw (h, init_registries) tt
        | inl (r, h) ↦
            let (a, b, made) = init_made chain cfg.adjudicator cfg.asset_eth r h in
            rw (h, init_registries)
              (rw eth_new (
                register_asset_erc20s-AreInStep chain cfg.asset_erc20s (ok (r, _))
                  (eth_InStep chain a b r made)))
      ]

  started-StartsInStep :
      (S : Type 0) (now : ℕ) (cfg : NodeConfig) (chain : RoChainBackend) (r : ContractRegistry)
      (reg : Registry)
      → InStep r reg
      → StartsInStep {S = S} (started host now cfg chain (r, reg))
  unfolding started
  started-StartsInStep S now cfg chain r reg k =
      elim (Option-cases (host.init_logger cfg.log_level cfg.log_file)) [
        | inl e ↦ rw (e, started) k
        | inr (x, e) ↦ rw (e, started) tt
      ]

  -- Starting a node returns, and the registries of a node that has started are in step.
  pub new_node-StartsInStep :
      (S : Type 0) (now : ℕ) (cfg : NodeConfig)
      → Returns (StartsInStep {S = S}) (new_node host now cfg)
  unfolding new_node
  new_node-StartsInStep S now cfg =
      elim (Fallible-cases (connect cfg.chain_url cfg.chain_id cfg.chain_conn_timeout)) [
        | inr (e, h) ↦ rw (h, new_node) tt
        | inl (chain, h) ↦
            rw (h, new_node)
              (Returns->>= AreInStep StartsInStep (init_registries host chain cfg) _
                (init_registries-AreInStep chain cfg) (through chain))
      ]
    where
      through :
          (chain : RoChainBackend) (rs : Fallible (ContractRegistry × Registry))
          → AreInStep rs
          → Returns
              (StartsInStep {S = S})
              (elim rs [ fail e ↦ done (fail e) | ok rs' ↦ done (started host now cfg chain rs') ])
      through chain (ok (r, reg)) k = started-StartsInStep S now cfg chain r reg k
      through chain (fail e) k = tt
