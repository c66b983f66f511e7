-- ===== src/Session/Opening/Amounts.antt =====
-- session/session.go: the assets and amounts of `makeAllocation`.
use dst_go.Base.{
  String, List, [], ◌∷◌, map, Option, none, some, ℤ, Exec, done, panic, blocks, Ensures,
  Ensures->>=, ◌>>=◌, length, ◌==◌, ◌≡◌, refl, subst, inl, inr, arith, Bool-cases, ==_iff,
}
use dst_go.Perun.Info.{Address, BalInfo}
use dst_go.Errors.{ok, ApiResult, returned, refused}
use dst_go.Errors.Api.{new_api_err_resource_not_found}
use dst_go.Channel.{Currency}
use dst_go.Session.Opening.Allocations.{
  Allocation, Entry, parse_row, parse_with, make_entry, make_entries, allocation_of,
  make_allocation,
}

-- A row of texts reads as a row of amounts.
abbrev pub ReadRow : Option Currency → List String → List ℤ → Type 0
ReadRow c [] [] = Unit
ReadRow c [] (n ∷ ns) = ⊥
ReadRow c (a ∷ amounts) [] = ⊥
ReadRow none (a ∷ amounts) (n ∷ ns) = ⊥
ReadRow (some c) (a ∷ amounts) (n ∷ ns) = (c.parse a ≡ ok n) × ReadRow (some c) amounts ns

parse_row-ReadRow :
    (c : Currency) (amounts : List String) (ns : List ℤ)
    → parse_row c amounts ≡ returned ns
    → ReadRow (some c) amounts ns
unfolding parse_row
parse_row-ReadRow c [] [] h = tt
parse_row-ReadRow c [] (n ∷ ns) h = cc
parse_row-ReadRow c (a ∷ amounts) [] h = ground arith
parse_row-ReadRow c (a ∷ amounts) (n ∷ ns) h =
    (ground arith, parse_row-ReadRow c amounts ns (ground arith))

parse_with-ReadRow :
    (c : Option Currency) (amounts : List String) (ns : List ℤ)
    → parse_with c amounts ≡ done (returned ns)
    → ReadRow c amounts ns
unfolding parse_with
parse_with-ReadRow none [] [] h = tt
parse_with-ReadRow none [] (n ∷ ns) h = cc
parse_with-ReadRow none (a ∷ amounts) ns h = cc
parse_with-ReadRow (some c) amounts ns h = parse_row-ReadRow c amounts ns (inner h)
  where
    inner : {A : Type 0} {x y : A} → done x ≡ done y → x ≡ y
    inner e = cc

module _ (read_asset : String → Exec (Option Address))
    (read_currency : String → Option Currency) where
  -- The currencies, the assets and the rows are those of the symbols and the texts, in order.
  abbrev pub Allocated :
      List String
      → List (List String)
      → List (Option Currency)
      → List Address
      → List (List ℤ)
      → Type 0
  Allocated [] bals [] [] [] = Unit
  Allocated (s ∷ symbols) (amounts ∷ bals) (c ∷ cs) (asset ∷ assets) (row ∷ rows) =
      (read_currency s ≡ c)
      × (read_asset s ≡ done (some asset))
      × ReadRow c amounts row
      × Allocated symbols bals cs assets rows
  Allocated _ _ _ _ _ = ⊥

  abbrev Of : List String → List (List String) → List Entry → Type 0
  Of symbols bals es =
      Allocated symbols bals (map (λ e. e.currency) es) (map (λ e. e.asset) es)
        (map (λ e. e.row) es)

  abbrev OfResult : List String → List (List String) → ApiResult (List Entry) → Type 0
  OfResult symbols bals (returned es) = Of symbols bals es
  OfResult symbols bals (refused e) = Unit

  abbrev One : String → List String → ApiResult Entry → Type 0
  One s amounts (returned e) =
      (read_asset s ≡ done (some e.asset))
      × (read_currency s ≡ e.currency)
      × ReadRow e.currency amounts e.row
  One s amounts (refused e) = Unit

  make_entry-One :
      (s : String) (amounts : List String)
      → Ensures (One s amounts) (make_entry read_asset read_currency s amounts)
  unfolding make_entry
  make_entry-One s amounts =
      Ensures->>= (One s amounts) (read_asset s) _ (λ found h. with_asset found h)
    where
      parsed_as :
          (asset : Address) (r : ApiResult (List ℤ))
          → read_asset s ≡ done (some asset)
          → parse_with (read_currency s) amounts ≡ done r
          → Ensures (One s amounts) (elim r [
            | refused e ↦ done (refused e)
            | returned row ↦
                done (returned (record { currency = read_currency s; asset = asset; row = row }))
          ])
      parsed_as asset (refused e) h k = tt
      parsed_as asset (returned row) h k =
          (h, refl, parse_with-ReadRow (read_currency s) amounts row k)

      with_asset :
          (found : Option Address)
          → read_asset s ≡ done found
          → Ensures (One s amounts) (elim found [
            | none ↦ done (refused (new_api_err_resource_not_found "currency" s))
            | some asset ↦ parse_with (read_currency s) amounts >>= λ parsed. elim parsed [
              | refused e ↦ done (refused e)
              | returned row ↦
                  done (returned (record { currency = read_currency s; asset = asset; row = row }))
            ]
          ])
      with_asset none h = tt
      with_asset (some asset) h =
          Ensures->>= (One s amounts) (parse_with (read_currency s) amounts) _
            (λ r k. parsed_as asset r h k)

  make_entries-Of :
      (symbols : List String) (bals : List (List String))
      → Ensures (OfResult symbols bals) (make_entries read_asset read_currency symbols bals)
  unfolding make_entries
  make_entries-Of [] bals = tt
  make_entries-Of (s ∷ symbols) [] = tt
  make_entries-Of (s ∷ symbols) (amounts ∷ bals) =
      both (make_entry read_asset read_currency s amounts)
        (make_entries read_asset read_currency symbols bals) (make_entry-One s amounts)
        (make_entries-Of symbols bals)
    where
      both :
          (m : Exec (ApiResult Entry)) (later : Exec (ApiResult (List Entry)))
          → Ensures (One s amounts) m
          → Ensures (OfResult symbols bals) later
          → Ensures (OfResult (s ∷ symbols) (amounts ∷ bals)) (
              m >>= λ made. elim made [
                | refused e ↦ done (refused e)
                | returned entry ↦ later >>= λ rest. elim rest [
                  | refused e ↦ done (refused e)
                  | returned entries ↦ done (returned (entry ∷ entries))
                ]
              ])
      both panic later a b = tt
      both blocks later a b = tt
      both (done (refused e)) later a b = tt
      both (done (returned e)) panic a b = tt
      both (done (returned e)) blocks a b = tt
      both (done (returned e)) (done (refused x)) a b = tt
      both (done (returned e)) (done (returned es)) a b = (a.1, a.0, a.2, b)

  abbrev Made : BalInfo → ApiResult (List (Option Currency) × Allocation) → Type 0
  Made b (refused e) = Unit
  Made b (returned (cs, al)) =
      (length b.currencies ≡ length b.bals) × Allocated b.currencies b.bals cs al.assets al.balances

  make_allocation-Made :
      (b : BalInfo) → Ensures (Made b) (make_allocation read_asset read_currency b)
  unfolding make_allocation allocation_of
  make_allocation-Made b = elim (Bool-cases (length b.currencies == length b.bals)) [
    | inr e ↦ rw (e, make_allocation) tt
    | inl e ↦
        rw (e, make_allocation)
          (finish (make_entries read_asset read_currency b.currencies b.bals)
            ((==_iff (length b.currencies) (length b.bals)).0 e)
            (make_entries-Of b.currencies b.bals))
  ]
    where
      finish :
          (m : Exec (ApiResult (List Entry)))
          → length b.currencies ≡ length b.bals
          → Ensures (OfResult b.currencies b.bals) m
          → Ensures (Made b) (
              m >>= λ made. elim made [
                | refused e ↦ done (refused e)
                | returned entries ↦
                    done (returned (allocation_of read_asset read_currency entries))
              ])
      finish panic h a = tt
      finish blocks h a = tt
      finish (done (refused e)) h a = tt
      finish (done (returned es)) h a = (h, a)

  -- An allocation that is made has an entry for each currency of the balance info, in order: the
  -- currency and the asset are those registered for the symbol, and the balances are the texts of
  -- its row, each read by this currency.
  pub make_allocation-Allocated :
      (b : BalInfo) (cs : List (Option Currency)) (al : Allocation)
      → make_allocation read_asset read_currency b ≡ done (returned (cs, al))
      → (length b.currencies ≡ length b.bals)
        × Allocated b.currencies b.bals cs al.assets al.balances
  make_allocation-Allocated b cs al h = subst (Ensures (Made b)) h (make_allocation-Made b)
