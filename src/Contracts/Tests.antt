-- ===== src/Contracts/Tests.antt =====
-- The contract registry (blockchain/ethereum/registry.go) at concrete inputs.
use dst_go.Base.{[], ◌∷◌, none, some, done, ◌≡◌, refl, lookup}
use dst_go.Perun.Info.{address_eq}
use dst_go.Errors.{ok}
use dst_go.Contracts.{
  RoChainBackend, ContractRegistry, symbol_of, registered_from, symbol_at, new_contract_registry,
  add, register_asset_erc20,
}
use dst_go.Contracts.Registration.{
  Registered, register_asset_erc20-Registered, new_contract_registry-Inv,
}

-- A chain on which every contract is valid and every token is PRN.
abbrev toy_chain : RoChainBackend
toy_chain = record {
  validate_adjudicator = λ a. none;
  validate_asset_eth = λ a b. none;
  validate_asset_erc20 = λ a t b. ok ("PRN", 18);
  asset_string = λ a. "asset";
}

abbrev one : ContractRegistry
one = record {
  adjudicator = 9 ∷ [];
  currencies = ("ETH", 0) ∷ [];
  assets = (1 ∷ []) ∷ [];
  tokens = none ∷ [];
}

made : new_contract_registry toy_chain (9 ∷ []) (1 ∷ []) ≡ ok one
unfolding new_contract_registry
made = refl

register_asset_erc20-Registered_example :
    Registered toy_chain one
      (7 ∷ [])
      (8 ∷ [])
      (register_asset_erc20 toy_chain one (7 ∷ []) (8 ∷ []))
register_asset_erc20-Registered_example =
    register_asset_erc20-Registered toy_chain one (7 ∷ []) (8 ∷ [])
      ((new_contract_registry-Inv toy_chain (9 ∷ []) (1 ∷ []) one made).0)

registered_example :
    register_asset_erc20 toy_chain one (7 ∷ []) (8 ∷ [])
    ≡ done (add one "PRN" (7 ∷ []) (8 ∷ []), ok ("PRN", 18))
unfolding register_asset_erc20 symbol_of registered_from address_eq lookup
registered_example = refl

symbol_one : symbol_of one (1 ∷ []) ≡ some "ETH"
unfolding symbol_of registered_from address_eq symbol_at
symbol_one = refl
