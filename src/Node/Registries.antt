-- ===== src/Node/Registries.antt =====
-- node/node.go: the contract registry and the currency registry of a node.
use dst_go.Base.{
  ℕ, String, Bool, true, false, not, ◌&&◌, Option, none, some, Exec, done, panic, blocks, ◌>>=◌,
  Returns, lookup, insert, str_eq, if◌then◌else◌, ◌≡◌, refl, sym, ap, ◌∙◌, inl, inr, arith, eq_iff,
}
use dst_go.Perun.Info.{Address}
use dst_go.Errors.{GoError, Fallible, ok, fail, Fallible-cases, ApiResult, returned, refused}
use dst_go.Errors.Api.{new_api_err_invalid_argument}
use dst_go.Contracts.{ContractRegistry, asset_of, symbol_of, token_of, register_asset_erc20}
use dst_go.Contracts.Laws.{Inv as ContractsInv}
use dst_go.Contracts.Registration.{Registered, added, register_asset_erc20-Registered}
use dst_go.Currencies.{
  DecimalLibrary, Registry, new_registry, is_registered, registered_currency, register_currency,
  eth_max_decimals, new_currency,
}
use dst_go.Currencies.Laws.{Inv as CurrenciesInv, register_currency-Inv}
use dst_go.Channel.{Currency}
use dst_go.Node.{NodeState, NodeHost, registration_error, currency_added, add_token_currency}

-- A symbol has an asset.
abbrev pub is_known : Exec (Option Address) → Bool
is_known (done (some a)) = true
is_known _ = false

-- The registries are in order, and the symbols that have an asset are those that have a currency.
pub record InStep (r : ContractRegistry) (reg : Registry) : Type 0 where
  pub contracts_in_order : ContractsInv r
  pub currencies_in_order : CurrenciesInv reg
  pub same : (s : String) → is_known (asset_of r s) ≡ is_registered reg s

is_there : Option Currency → Bool
is_there none = false
is_there (some c) = true

is_registered_lem :
    (reg : Registry) (s : String) → is_registered reg s ≡ is_there (registered_currency reg s)
unfolding is_registered registered_currency is_there
is_registered_lem reg s = ground arith

-- ETH is the currency of a registry that has just it.
pub eth_currency :
    (lib : DecimalLibrary) (r : ContractRegistry) (asset : Address) (t : String)
    → asset_of r t ≡ (if str_eq "ETH" t then done (some asset) else done none)
    → is_known (asset_of r t)
      ≡ is_registered (register_currency lib "ETH" eth_max_decimals new_registry).0 t
unfolding is_registered register_currency new_registry lookup insert
eth_currency lib r asset t e = ground (arith, e)

module _ (lib : DecimalLibrary) (r r' : ContractRegistry) (reg : Registry) (s : String) (d : ℕ)
    (asset : Address) (k : InStep r reg) (v : ContractsInv r') (free : asset_of r s ≡ done none)
    (at : (t : String)
      → asset_of r' t ≡ (if str_eq s t then done (some asset) else asset_of r t)) where
  pub symbol_free : is_registered reg s ≡ false
  symbol_free = sym (k.same s) ∙ ap is_known free

  -- The currency of a symbol that the contract registry has just taken is new.
  pub currency_new :
      InStep r' (register_currency lib s d reg).0
      × ((register_currency lib s d reg).1 ≡ ok (new_currency lib s d))
      × (registered_currency (register_currency lib s d reg).0 s ≡ some (new_currency lib s d))
  unfolding is_there
  currency_new = (
    record {
      contracts_in_order = v;
      currencies_in_order = (register_currency-Inv lib reg s d s k.currencies_in_order).0;
      same = λ t. same_at t (register_currency-Inv lib reg s d t k.currencies_in_order).3;
    },
    (register_currency-Inv lib reg s d s k.currencies_in_order).2 ∙ rw symbol_free refl,
    (register_currency-Inv lib reg s d s k.currencies_in_order).3
        ∙ ground (arith, symbol_free, eq_iff s s),
  )
    where
      same_at :
          (t : String)
          → (registered_currency (register_currency lib s d reg).0 t ≡ (
              if not (is_registered reg s) && str_eq s t
              then some (new_currency lib s d)
              else registered_currency reg t))
          → is_known (asset_of r' t) ≡ is_registered (register_currency lib s d reg).0 t
      same_at t e = ground (
        arith,
        at t,
        k.same t,
        symbol_free,
        is_registered_lem reg t,
        is_registered_lem (register_currency lib s d reg).0 t,
      )

module _ (host : NodeHost) where
  open host use {decimals, wallet}

  -- What registering a token comes to: an address that cannot be read, an error that leaves the node
  -- as it was, or a new asset with a new symbol that has the token, the asset and a currency.
  pub data Accepted {S : Type 0} (n : NodeState S) (token asset : String)
      : NodeState S × ApiResult String → Type 0 where
    bad_asset :
        (e : GoError)
        → wallet.parse_addr asset ≡ fail e
        → Accepted n token asset (n, refused (new_api_err_invalid_argument e "asset" asset))
    bad_token :
        (e : GoError)
        → wallet.parse_addr token ≡ fail e
        → Accepted n token asset (n, refused (new_api_err_invalid_argument e "token" token))
    not_accepted :
        (token_addr asset_addr : Address) (e : GoError)
        → wallet.parse_addr token ≡ ok token_addr
        → wallet.parse_addr asset ≡ ok asset_addr
        → register_asset_erc20 n.chain n.contract_registry token_addr asset_addr
          ≡ done (n.contract_registry, fail e)
        → Accepted n token asset (n, refused (registration_error e))
    accepted :
        (n' : NodeState S) (token_addr asset_addr : Address) (s : String) (d : ℕ)
        → wallet.parse_addr token ≡ ok token_addr
        → wallet.parse_addr asset ≡ ok asset_addr
        → n.chain.validate_asset_erc20 n.contract_registry.adjudicator token_addr asset_addr
          ≡ ok (s, d)
        → n'.sessions ≡ n.sessions
        → InStep n'.contract_registry n'.currency_registry
        → symbol_of n.contract_registry asset_addr ≡ none
        → is_registered n.currency_registry s ≡ false
        → symbol_of n'.contract_registry asset_addr ≡ some s
        → token_of n'.contract_registry s ≡ done (some token_addr)
        → asset_of n'.contract_registry s ≡ done (some asset_addr)
        → registered_currency n'.currency_registry s ≡ some (new_currency decimals s d)
        → Accepted n token asset (n', returned s)

  module _ {S : Type 0} (n : NodeState S) (k : InStep n.contract_registry n.currency_registry)
      (token asset : String) (token_addr asset_addr : Address)
      (token_read : wallet.parse_addr token ≡ ok token_addr)
      (asset_read : wallet.parse_addr asset ≡ ok asset_addr) where
    own :
        (x : Exec (Option Address)) (s : String)
        → (if str_eq s s then done (some asset_addr) else x) ≡ done (some asset_addr)
    own x s = ground (arith, eq_iff s s)

    taken :
        (m : Exec (ContractRegistry × Fallible (String × ℕ)))
        → register_asset_erc20 n.chain n.contract_registry token_addr asset_addr ≡ m
        → Registered n.chain n.contract_registry token_addr asset_addr m
        → Returns (λ out. Accepted n token asset (currency_added host n out)) m
    unfolding currency_added
    taken m is (Registered.refused e made) =
        rw made (not_accepted token_addr asset_addr e token_read asset_read (is ∙ made))
    taken m is (added r' s d made valid v unknown free found tok at) =
        let reg' = (register_currency decimals s d n.currency_registry).0 in
        let n' = record n { contract_registry = r'; currency_registry = reg' } in
        let new =
          currency_new decimals n.contract_registry r' n.currency_registry s d asset_addr k v free
            at in
        let unused =
          symbol_free decimals n.contract_registry r' n.currency_registry s d asset_addr k v free
            at in
        rw made (
          rw (new.1, currency_added)
            (accepted n' token_addr asset_addr s d token_read asset_read valid refl new.0 unknown
              unused found tok (at s ∙ own _ s) new.2))

  -- Registering a currency on a node whose registries are in step returns. An address that cannot be
  -- read is named in the error, and any other error tells the one with which the contract registry
  -- refused: in both cases the node is as it was, and the currency registry never refuses. Otherwise
  -- the chain validates the asset contract with the symbol and the decimals, the asset and the symbol
  -- are new, the registries are in step again, the symbol has the token, the asset and a currency of
  -- these decimals, and the sessions are as they were.
  pub add_token_currency-Accepted :
      {S : Type 0} (n : NodeState S) (token asset : String)
      → InStep n.contract_registry n.currency_registry
      → Returns (Accepted n token asset) (add_token_currency host token asset n)
  unfolding add_token_currency
  add_token_currency-Accepted n token asset k = elim (Fallible-cases (wallet.parse_addr asset)) [
    | inr (e, h) ↦ rw (h, add_token_currency) (bad_asset e h)
    | inl (asset_addr, h) ↦ elim (Fallible-cases (wallet.parse_addr token)) [
      | inr (e, g) ↦ rw (h, g, add_token_currency) (bad_token e g)
      | inl (token_addr, g) ↦
          rw (h, g, add_token_currency)
            (through (register_asset_erc20 n.chain n.contract_registry token_addr asset_addr) (
              taken n k token asset token_addr asset_addr g h _ refl (
                register_asset_erc20-Registered n.chain n.contract_registry token_addr asset_addr
                  k.contracts_in_order)))
    ]
  ]
    where
      through :
          (m : Exec (ContractRegistry × Fallible (String × ℕ)))
          → Returns (λ out. Accepted n token asset (currency_added host n out)) m
          → Returns (Accepted n token asset) (m >>= λ out. done (currency_added host n out))
      through (done out) h = h
      through panic h = h
      through blocks h = h
