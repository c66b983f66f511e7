-- ===== src/Contracts/Laws.antt =====
-- blockchain/ethereum/registry.go: an invariant of the contract registry, and look-ups.
use dst_go.Base.{
  ℕ, zero, suc, ◌+◌, ◌<◌, String, List, [], ◌∷◌, ◌++◌, none, some, done, ◌==◌, str_eq, get_elem?,
  insert, lookup, lookup-insert, length, length-append, get_elem?_of_lt, if◌then◌else◌, true, ◌≡◌,
  refl, sym, ap, subst, ◌∙◌, ◌⊎◌, inl, inr, arith, eq_iff, Option-cases, Bool-cases,
}
use dst_go.Perun.Info.{Address, address_eq, address_eq_iff}
use dst_go.Contracts.{ContractRegistry, symbol_at, registered_from, symbol_of, asset_of, add}

-- A symbol leads to an asset and a token, and an index to the symbol that leads to it.
pub record Inv (r : ContractRegistry) : Type 0 where
  pub parallel : length r.tokens ≡ length r.assets
  pub in_range : (s : String) (i : ℕ) → lookup s r.currencies ≡ some i → i < length r.assets
  pub named_right :
      (i : ℕ) (s : String) → symbol_at i r.currencies ≡ some s → lookup s r.currencies ≡ some i
  pub named : (i : ℕ) → i < length r.assets → (s : String) × (symbol_at i r.currencies ≡ some s)
  pub eth : lookup "ETH" r.currencies ≡ some 0

insert-fresh :
    (s : String) (n : ℕ) (m : List (String × ℕ))
    → lookup s m ≡ none
    → insert s n m ≡ m ++ (s, n) ∷ []
unfolding lookup insert
insert-fresh s n [] h = refl
insert-fresh s n ((t, k) ∷ m) h = ground (arith, insert-fresh s n m)

symbol_at-append :
    (i : ℕ) (s : String) (n : ℕ) (m : List (String × ℕ))
    → symbol_at i (m ++ (s, n) ∷ [])
      ≡ (elim (symbol_at i m) [ some t ↦ some t | none ↦ if i == n then some s else none ])
unfolding symbol_at
symbol_at-append i s n [] = ground arith
symbol_at-append i s n ((t, k) ∷ m) = ground (arith, symbol_at-append i s n m)

registered_from-cons :
    (currencies : List (String × ℕ)) (asset : Address) (idx : ℕ) (got : Address)
    (rest : List Address) (s : String)
    → registered_from currencies asset idx (got ∷ rest) ≡ some s
    → ((address_eq got asset ≡ true) × (symbol_at idx currencies ≡ some s))
      ⊎ (registered_from currencies asset (suc idx) rest ≡ some s)
unfolding registered_from
registered_from-cons currencies asset idx got rest s e = ground arith

-- An asset that is found stands at an index whose symbol is the one found.
pub registered_from-found :
    (currencies : List (String × ℕ)) (asset : Address) (idx : ℕ) (assets : List Address)
    (s : String)
    → registered_from currencies asset idx assets ≡ some s
    → (j : ℕ) × (get_elem? assets j ≡ some asset) × (symbol_at (idx + j) currencies ≡ some s)
unfolding registered_from
registered_from-found currencies asset idx [] s e = cc
registered_from-found currencies asset idx (got ∷ rest) s e =
    elim (registered_from-cons currencies asset idx got rest s e) [
      | inl (h, at) ↦ (
        zero,
        ap some ((address_eq_iff got asset).0 h),
        ap (λ k. symbol_at k currencies) (plus_zero idx) ∙ at,
      )
      | inr later ↦
          let (j, g, at) = registered_from-found currencies asset (suc idx) rest s later in
          (suc j, g, ap (λ k. symbol_at k currencies) (plus_suc idx j) ∙ at)
    ]
  where
    plus_zero : (n : ℕ) → n + zero ≡ n
    plus_zero n = omega arith

    plus_suc : (n m : ℕ) → n + suc m ≡ suc n + m
    plus_suc n m = omega arith

pub registered_from-missing :
    (currencies : List (String × ℕ)) (asset : Address) (idx : ℕ) (assets : List Address) (j : ℕ)
    → registered_from currencies asset idx assets ≡ none
    → get_elem? assets j ≡ some asset
    → symbol_at (idx + j) currencies ≡ none
unfolding registered_from
registered_from-missing currencies asset idx [] j e g = cc
registered_from-missing currencies asset idx (got ∷ rest) zero e g =
    let at : idx + zero ≡ idx = omega arith in rw at (ground (arith, address_eq_iff got asset))
registered_from-missing currencies asset idx (got ∷ rest) (suc j) e g =
    let at : idx + suc j ≡ suc idx + j = omega arith in
    rw at (
      registered_from-missing currencies asset (suc idx) rest j
        (ground (arith, address_eq_iff got asset)) g)

-- The symbol that is found for an asset leads back to this asset.
pub symbol_of-asset_of :
    (r : ContractRegistry) (asset : Address) (s : String)
    → Inv r
    → symbol_of r asset ≡ some s
    → asset_of r s ≡ done (some asset)
unfolding symbol_of asset_of
symbol_of-asset_of r asset s v e =
    let (j, g, at) = registered_from-found r.currencies asset 0 r.assets s e in
    let led : lookup s r.currencies ≡ some j =
      v.named_right j s (subst (λ k. symbol_at k r.currencies ≡ some s) (omega arith) at) in
    rw (led, asset_of) (rw g)

-- While the invariant holds no look-up panics.
pub asset_of-Returns :
    (r : ContractRegistry) (s : String)
    → Inv r
    → ((lookup s r.currencies ≡ none) × (asset_of r s ≡ done none))
      ⊎ ((a : Address) × (asset_of r s ≡ done (some a)))
unfolding asset_of
asset_of-Returns r s v = elim (Option-cases (lookup s r.currencies)) [
  | inl e ↦ inl (e, rw (e, asset_of))
  | inr (i, e) ↦
      let (a, g) = get_elem?_of_lt r.assets i (v.in_range s i e) in inr (a, rw (e, asset_of) (rw g))
]

module _ (r : ContractRegistry) (s : String) (token asset : Address) (v : Inv r)
    (fresh : lookup s r.currencies ≡ none) where
  pub n_free : symbol_at (length r.assets) r.currencies ≡ none
  n_free = elim (Option-cases (symbol_at (length r.assets) r.currencies)) [
    | inl e ↦ e
    | inr (t, e) ↦ absurd (omega (arith, v.in_range t _ (v.named_right _ t e)))
  ]

  pub add-symbol_at :
      (i : ℕ)
      → symbol_at i (add r s token asset).currencies ≡ (elim (symbol_at i r.currencies) [
        | some t ↦ some t
        | none ↦ if i == length r.assets then some s else none
      ])
  unfolding add
  add-symbol_at i =
      rw (insert-fresh s (length r.assets) r.currencies fresh)
        (symbol_at-append i s (length r.assets) r.currencies)

  pub add-lookup :
      (t : String)
      → lookup t (add r s token asset).currencies
        ≡ (if str_eq s t then some (length r.assets) else lookup t r.currencies)
  unfolding add
  add-lookup t = lookup-insert s t (length r.assets) r.currencies

  add-length :
      (length (add r s token asset).assets ≡ suc (length r.assets))
      × (length (add r s token asset).tokens ≡ suc (length r.tokens))
  unfolding add
  add-length = (
    omega (arith, length-append r.assets (asset ∷ [])),
    omega (arith, length-append r.tokens (some token ∷ [])),
  )

  add-in_range :
      (t : String) (i : ℕ)
      → lookup t (add r s token asset).currencies ≡ some i
      → i < suc (length r.assets)
  add-in_range t i e =
      let bound : lookup t r.currencies ≡ some i → i < length r.assets = v.in_range t i in
      ground (arith, add-lookup t, bound)

  add-named_right :
      (i : ℕ) (t : String)
      → symbol_at i (add r s token asset).currencies ≡ some t
      → lookup t (add r s token asset).currencies ≡ some i
  add-named_right i t e =
      let old : symbol_at i r.currencies ≡ some t → lookup t r.currencies ≡ some i =
        v.named_right i t in
      ground (arith, add-lookup t, add-symbol_at i, old, eq_iff s t, fresh)

  add-named :
      (i : ℕ)
      → i < suc (length r.assets)
      → (t : String) × (symbol_at i (add r s token asset).currencies ≡ some t)
  add-named i lt = elim (Option-cases (symbol_at i r.currencies)) [
    | inr (t, e) ↦ (t, ground (arith, add-symbol_at i))
    | inl e ↦ elim (Bool-cases (i == length r.assets)) [
      | inl h ↦ (s, ground (arith, add-symbol_at i))
      | inr h ↦ let (t, f) = v.named i (ground arith) in (t, absurd (ground arith))
    ]
  ]

  add-eth : lookup "ETH" (add r s token asset).currencies ≡ some 0
  add-eth =
      let kept : lookup "ETH" r.currencies ≡ some 0 = v.eth in
      ground (arith, add-lookup "ETH", kept, eq_iff s "ETH", fresh)

  pub add-Inv : Inv (add r s token asset)
  add-Inv = record {
    parallel = omega (arith, add-length.0, add-length.1, v.parallel);
    in_range = λ t i e. subst (λ n. i < n) (sym add-length.0) (add-in_range t i e);
    named_right = add-named_right;
    named = λ i lt. add-named i (subst (λ n. i < n) add-length.0 lt);
    eth = add-eth;
  }
