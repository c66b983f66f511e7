-- ===== src/Contracts.antt =====
-- blockchain/ethereum/registry.go: the asset contracts of the node, by symbol and by address. The
-- calls that validate contracts on the chain are a parameter. Assets are addresses that were
-- parsed, hence not nil; the token of ETH is nil.
pub mod Laws
pub mod Registration
mod Tests
use dst_go.Base.{
  ℕ, suc, String, List, [], ◌∷◌, ◌++◌, Option, none, some, Exec, done, ◌>>=◌, or_panic, ◌==◌,
  str_eq, get_elem?, insert, lookup, length, map, if◌then◌else◌,
}
use dst_go.Perun.Info.{Address, address_eq}
use dst_go.Errors.{GoError, asset_erc20_registered_error, Fallible, ok, fail}

-- `perun.ROChainBackend`, and the text of an address.
pub record RoChainBackend : Type 0 where
  pub validate_adjudicator : Address → Option GoError
  pub validate_asset_eth : Address → Address → Option GoError
  pub validate_asset_erc20 : Address → Address → Address → Fallible (String × ℕ)
  pub asset_string : Address → String

pub record ContractRegistry : Type 0 where
  pub adjudicator : Address
  pub currencies : List (String × ℕ)
  pub assets : List Address
  pub tokens : List (Option Address)

-- The loop over the map that looks for the symbol of an index.
unfoldable pub symbol_at : ℕ → List (String × ℕ) → Option String
symbol_at idx [] = none
symbol_at idx ((symbol, i) ∷ rest) = if idx == i then some symbol else symbol_at idx rest

-- The loop over the assets of `isAssetRegistered`, from the index `idx`.
unfoldable pub registered_from : List (String × ℕ) → Address → ℕ → List Address → Option String
unfolding symbol_at
registered_from currencies asset idx [] = none
registered_from currencies asset idx (got ∷ rest) =
    let later = registered_from currencies asset (suc idx) rest in
    if address_eq got asset
    then (elim (symbol_at idx currencies) [ some s ↦ some s | none ↦ later ])
    else later

unfoldable pub symbol_of : ContractRegistry → Address → Option String
unfolding registered_from
symbol_of r asset = registered_from r.currencies asset 0 r.assets

unfoldable pub asset_of : ContractRegistry → String → Exec (Option Address)
asset_of r symbol = elim (lookup symbol r.currencies) [
  | none ↦ done none
  | some idx ↦ or_panic (get_elem? r.assets idx) >>= λ a. done (some a)
]

unfoldable pub token_of : ContractRegistry → String → Exec (Option Address)
token_of r symbol = if str_eq symbol "ETH" then done none else elim (lookup symbol r.currencies) [
  | none ↦ done none
  | some idx ↦ or_panic (get_elem? r.tokens idx)
]

-- `AssetETH`: a symbol that is missing reads as the index 0.
unfoldable pub asset_eth : ContractRegistry → Exec Address
asset_eth r = elim (lookup "ETH" r.currencies) [
  | none ↦ or_panic (get_elem? r.assets 0)
  | some idx ↦ or_panic (get_elem? r.assets idx)
]

-- The entry for a symbol that is new.
unfoldable pub add : ContractRegistry → String → Address → Address → ContractRegistry
add r symbol token asset = record r {
  currencies = insert symbol (length r.assets) r.currencies;
  assets = r.assets ++ asset ∷ [];
  tokens = r.tokens ++ some token ∷ [];
}

module _ (chain : RoChainBackend) where
  open chain use {validate_adjudicator, validate_asset_eth, validate_asset_erc20, asset_string}

  unfoldable pub new_contract_registry : Address → Address → Fallible ContractRegistry
  new_contract_registry adjudicator asset_eth = elim (validate_adjudicator adjudicator) [
    | some e ↦ fail e
    | none ↦ elim (validate_asset_eth adjudicator asset_eth) [
      | some e ↦ fail e
      | none ↦ ok (record {
        adjudicator = adjudicator;
        currencies = ("ETH", 0) ∷ [];
        assets = asset_eth ∷ [];
        tokens = none ∷ [];
      })
    ]
  ]

  register_symbol :
      ContractRegistry
      → Address
      → Address
      → String
      → ℕ
      → Exec (ContractRegistry × Fallible (String × ℕ))
  unfolding add
  register_symbol r token asset symbol max_decimals = elim (lookup symbol r.currencies) [
    | some idx ↦ do
      registered ← or_panic (get_elem? r.assets idx)
      done (r, fail (asset_erc20_registered_error (asset_string registered) symbol))
    | none ↦ done (add r symbol token asset, ok (symbol, max_decimals))
  ]

  -- `RegisterAssetERC20`
  unfoldable pub register_asset_erc20 :
      ContractRegistry → Address → Address → Exec (ContractRegistry × Fallible (String × ℕ))
  unfolding register_symbol symbol_of
  register_asset_erc20 r token asset = elim (symbol_of r asset) [
    | some symbol ↦ done (r, fail (asset_erc20_registered_error (asset_string asset) symbol))
    | none ↦ elim (validate_asset_erc20 r.adjudicator token asset) [
      | fail e ↦ done (r, fail e)
      | ok (symbol, max_decimals) ↦ register_symbol r token asset symbol max_decimals
    ]
  ]
