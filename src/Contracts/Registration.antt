-- ===== src/Contracts/Registration.antt =====
-- blockchain/ethereum/registry.go: `RegisterAssetERC20` and the constructor of the registry.
use dst_go.Base.{
  ℕ, ◌+◌, ◌<◌, String, [], ◌∷◌, ◌++◌, none, some, Exec, done, ◌==◌, str_eq, get_elem?, lookup,
  lookup-insert, lookup-insert_self, length, length-append, get_elem?-append_last,
  get_elem?-append_left, get_elem?-lt, get_elem?_of_lt, if◌then◌else◌, ◌≡◌, refl, sym, subst, ◌∙◌,
  ◌≢◌, inl, inr, arith, eq_iff, Option-cases, Bool-cases, ==_iff,
}
use dst_go.Perun.Info.{Address, address_eq_iff}
use dst_go.Errors.{GoError, asset_erc20_registered_error, Fallible, ok, fail, Fallible-cases}
use dst_go.Contracts.{
  RoChainBackend, ContractRegistry, symbol_at, registered_from, symbol_of, asset_of, token_of,
  new_contract_registry, add, register_symbol, register_asset_erc20,
}
use dst_go.Contracts.Laws.{
  Inv, symbol_of-asset_of, n_free, registered_from-found, registered_from-missing, add-Inv,
  add-symbol_at,
}

-- An asset without a symbol stands nowhere in a registry with the invariant.
unregistered :
    (r : ContractRegistry) (asset : Address) (j : ℕ)
    → Inv r
    → symbol_of r asset ≡ none
    → get_elem? r.assets j ≢ some asset
unfolding symbol_of
unregistered r asset j v e g =
    let (t, at) = v.named j (get_elem?-lt r.assets j g) in
    let free = registered_from-missing r.currencies asset 0 r.assets j e g in
    let free' : symbol_at j r.currencies ≡ none =
      subst (λ k. symbol_at k r.currencies ≡ none) (omega arith) free in
    cc

module _ (r : ContractRegistry) (s : String) (token asset : Address) (v : Inv r)
    (fresh : lookup s r.currencies ≡ none) (unknown : symbol_of r asset ≡ none) where
  add-symbol_at_last : symbol_at (length r.assets) (add r s token asset).currencies ≡ some s
  add-symbol_at_last =
      ground (arith, add-symbol_at r s token asset v fresh (length r.assets), last_free)
    where
      last_free : symbol_at (length r.assets) r.currencies ≡ none
      last_free = n_free r s token asset v fresh

  -- Only the last place holds the asset.
  place : (j : ℕ) → get_elem? (add r s token asset).assets j ≡ some asset → j ≡ length r.assets
  unfolding add
  place j g =
      let bound = get_elem?-lt (r.assets ++ asset ∷ []) j g in
      elim (Bool-cases (j == length r.assets)) [
        | inl h ↦ (==_iff j (length r.assets)).0 h
        | inr h ↦
            let lt : j < length r.assets = ground (arith, length-append r.assets (asset ∷ [])) in
            absurd (
              unregistered r asset j v unknown
                (sym (get_elem?-append_left r.assets (asset ∷ []) j lt) ∙ g))
      ]

  last_asset : get_elem? (add r s token asset).assets (length r.assets) ≡ some asset
  unfolding add
  last_asset = get_elem?-append_last r.assets asset

  add-symbol_of : symbol_of (add r s token asset) asset ≡ some s
  unfolding symbol_of
  add-symbol_of = elim (Option-cases (symbol_of (add r s token asset) asset)) [
    | inl e ↦ absurd (
        unregistered (add r s token asset) asset (length r.assets) (add-Inv r s token asset v fresh)
          e last_asset)
    | inr (t, e) ↦
        let (j, g, at) = registered_from-found _ asset 0 _ t e in
        let last : 0 + j ≡ length r.assets = omega (arith, place j g) in
        e
        ∙ (sym (subst (λ k. symbol_at k (add r s token asset).currencies ≡ some t) last at)
            ∙ add-symbol_at_last)
  ]

  add-token_of : token_of (add r s token asset) s ≡ done (some token)
  unfolding token_of add
  add-token_of =
      let eth : lookup "ETH" r.currencies ≡ some 0 = v.eth in
      let par : length r.tokens ≡ length r.assets = v.parallel in
      let own = lookup-insert_self s (length r.assets) r.currencies in
      let last : get_elem? (r.tokens ++ some token ∷ []) (length r.assets) ≡ some (some token) =
        rw (← par) (get_elem?-append_last r.tokens (some token)) in
      ground (arith, eq_iff s "ETH")

  add-asset_of_any :
      (t : String)
      → asset_of (add r s token asset) t ≡ (if str_eq s t then done (some asset) else asset_of r t)
  unfolding asset_of add
  add-asset_of_any t =
      let seen = lookup-insert s t (length r.assets) r.currencies in
      let last = get_elem?-append_last r.assets asset in
      elim (Option-cases (lookup t r.currencies)) [
        | inl e ↦ ground (arith, seen, last)
        | inr (i, e) ↦
            let kept = get_elem?-append_left r.assets (asset ∷ []) i (v.in_range t i e) in
            ground (arith, seen, last, kept)
      ]

eth_only : Address → Address → ContractRegistry
eth_only adjudicator asset = record {
  adjudicator = adjudicator;
  currencies = ("ETH", 0) ∷ [];
  assets = asset ∷ [];
  tokens = none ∷ [];
}

eth_only-Inv : (adjudicator asset : Address) → Inv (eth_only adjudicator asset)
unfolding eth_only lookup symbol_at
eth_only-Inv adjudicator asset = record {
  parallel = refl;
  in_range = λ s i e. ground arith;
  named_right = λ i s e. ground (arith, eq_iff "ETH" s);
  named = λ i lt. ("ETH", ground arith);
  eth = refl;
}

eth_only-symbol_of :
    (adjudicator asset : Address) → symbol_of (eth_only adjudicator asset) asset ≡ some "ETH"
unfolding eth_only symbol_of registered_from symbol_at
eth_only-symbol_of adjudicator asset = ground (arith, address_eq_iff asset asset)

eth_only-asset_of :
    (adjudicator asset : Address) (t : String)
    → asset_of (eth_only adjudicator asset) t
      ≡ (if str_eq "ETH" t then done (some asset) else done none)
unfolding eth_only asset_of lookup
eth_only-asset_of adjudicator asset t = ground arith

no_asset :
    (r : ContractRegistry) (s : String) → lookup s r.currencies ≡ none → asset_of r s ≡ done none
unfolding asset_of
no_asset r s e = rw (e, asset_of) refl

module _ (chain : RoChainBackend) where
  -- What a registration leaves behind.
  pub data Registered (r : ContractRegistry) (token asset : Address)
      (out : Exec (ContractRegistry × Fallible (String × ℕ))) : Type 0 where
    refused : (e : GoError) → out ≡ done (r, fail e) → Registered r token asset out
    added :
        (r' : ContractRegistry) (s : String) (decimals : ℕ)
        → out ≡ done (r', ok (s, decimals))
        → chain.validate_asset_erc20 r.adjudicator token asset ≡ ok (s, decimals)
        → Inv r'
        → symbol_of r asset ≡ none
        → asset_of r s ≡ done none
        → symbol_of r' asset ≡ some s
        → token_of r' s ≡ done (some token)
        → ((t : String) → asset_of r' t ≡ (if str_eq s t then done (some asset) else asset_of r t))
        → Registered r token asset out

  -- Registering on a registry with the invariant returns. Either it fails and the registry stays
  -- as it was, or the chain validates the asset contract with a symbol and its decimals, which are
  -- the answer; the asset and the symbol were not registered, the invariant holds again, the asset
  -- has this symbol, the symbol has the token and the asset, and every other symbol the asset it had.
  pub register_asset_erc20-Registered :
      (r : ContractRegistry) (token asset : Address)
      → Inv r
      → Registered r token asset (register_asset_erc20 chain r token asset)
  unfolding register_asset_erc20 register_symbol
  register_asset_erc20-Registered r token asset v = elim (Option-cases (symbol_of r asset)) [
    | inr (s, e) ↦
        refused (asset_erc20_registered_error (chain.asset_string asset) s) (ground arith)
    | inl unknown ↦ elim (Fallible-cases (chain.validate_asset_erc20 r.adjudicator token asset)) [
      | inr (e, h) ↦ refused e (ground arith)
      | inl ((s, d), h) ↦ elim (Option-cases (lookup s r.currencies)) [
        | inr (i, e) ↦
            let (a, g) = get_elem?_of_lt r.assets i (v.in_range s i e) in
            refused (asset_erc20_registered_error (chain.asset_string a) s) (ground arith)
        | inl fresh ↦
            added (add r s token asset) s d (ground arith) h (add-Inv r s token asset v fresh)
              unknown (no_asset r s fresh) (add-symbol_of r s token asset v fresh unknown)
              (add-token_of r s token asset v fresh unknown)
              (add-asset_of_any r s token asset v fresh unknown)
      ]
    ]
  ]

  new_made :
      (adjudicator asset : Address) (r : ContractRegistry)
      → new_contract_registry chain adjudicator asset ≡ ok r
      → (eth_only adjudicator asset ≡ r)
        × (chain.validate_adjudicator adjudicator ≡ none)
        × (chain.validate_asset_eth adjudicator asset ≡ none)
  unfolding new_contract_registry eth_only
  new_made adjudicator asset r e = (ground arith, ground arith, ground arith)

  -- A registry is made only for contracts that the chain finds valid; it has the invariant and
  -- holds ETH with the given asset.
  pub new_contract_registry-Inv :
      (adjudicator asset : Address) (r : ContractRegistry)
      → new_contract_registry chain adjudicator asset ≡ ok r
      → Inv r
        × (chain.validate_adjudicator adjudicator ≡ none)
        × (chain.validate_asset_eth adjudicator asset ≡ none)
        × (symbol_of r asset ≡ some "ETH")
        × (asset_of r "ETH" ≡ done (some asset))
  new_contract_registry-Inv adjudicator asset r e =
      let (made, a, b) = new_made adjudicator asset r e in
      let s =
        subst (λ q. symbol_of q asset ≡ some "ETH") made (eth_only-symbol_of adjudicator asset) in
      let v = subst Inv made (eth_only-Inv adjudicator asset) in
      (v, a, b, s, symbol_of-asset_of r asset "ETH" v s)

  -- A registry that is made knows ETH alone.
  pub new_contract_registry-asset_of :
      (adjudicator asset : Address) (r : ContractRegistry) (t : String)
      → new_contract_registry chain adjudicator asset ≡ ok r
      → asset_of r t ≡ (if str_eq "ETH" t then done (some asset) else done none)
  new_contract_registry-asset_of adjudicator asset r t e =
      subst (λ q. asset_of q t ≡ (if str_eq "ETH" t then done (some asset) else done none))
        (new_made adjudicator asset r e).0 (eth_only-asset_of adjudicator asset t)
