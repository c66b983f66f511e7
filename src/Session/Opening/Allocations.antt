-- ===== src/Session/Opening/Allocations.antt =====
-- session/session.go: `makeAllocation`.
use dst_go.Base.{
  String, List, [], ◌∷◌, map, Option, none, some, ℤ, Exec, done, panic, ◌>>=◌, length, ◌==◌, join,
  if◌then◌else◌,
}
use dst_go.Perun.Info.{Address, BalInfo}
use dst_go.Errors.{GoError, text, with_message, ok, fail, ApiResult, returned, refused}
use dst_go.Errors.Api.{new_api_err_resource_not_found, new_api_err_invalid_argument}
use dst_go.Channel.{Currency}

-- `pchannel.Allocation`
pub record Allocation : Type 0 where
  pub assets : List Address
  pub balances : List (List ℤ)

unfoldable pub parse_row : Currency → List String → ApiResult (List ℤ)
parse_row c [] = returned []
parse_row c (amount ∷ amounts) =
    let rest = parse_row c amounts in
    elim (c.parse amount) [
      | fail e ↦
          refused (new_api_err_invalid_argument (with_message e "parsing amount") "amount" amount)
      | ok n ↦ elim rest [ refused e ↦ refused e | returned ns ↦ returned (n ∷ ns) ]
    ]

-- The currency, the asset and the row of an index. A currency that is not registered, although its
-- asset is, is nil.
pub record Entry : Type 0 where
  pub currency : Option Currency
  pub asset : Address
  pub row : List ℤ

-- To parse with a currency that is nil panics; a row without amounts parses nothing.
unfoldable pub parse_with : Option Currency → List String → Exec (ApiResult (List ℤ))
unfolding parse_row
parse_with none [] = done (returned [])
parse_with none (amount ∷ amounts) = panic
parse_with (some c) amounts = done (parse_row c amounts)

abbrev pub err_lengths : GoError
err_lengths = text "length of currencies should match the outer length of bals"

module _ (read_asset : String → Exec (Option Address))
    (read_currency : String → Option Currency) where
  -- The round of the loop for a symbol and its row.
  unfoldable pub make_entry : String → List String → Exec (ApiResult Entry)
  unfolding parse_with
  make_entry symbol amounts = read_asset symbol >>= λ found. elim found [
    | none ↦ done (refused (new_api_err_resource_not_found "currency" symbol))
    | some asset ↦ parse_with (read_currency symbol) amounts >>= λ parsed. elim parsed [
      | refused e ↦ done (refused e)
      | returned row ↦
          done (returned (record { currency = read_currency symbol; asset = asset; row = row }))
    ]
  ]

  -- The loop, which ends at the first error. The lists have the same length.
  unfoldable pub make_entries : List String → List (List String) → Exec (ApiResult (List Entry))
  unfolding make_entry
  make_entries (symbol ∷ symbols) (amounts ∷ bals) =
      let later = make_entries symbols bals in
      make_entry symbol amounts >>= λ made. elim made [
        | refused e ↦ done (refused e)
        | returned entry ↦ later >>= λ rest. elim rest [
          | refused e ↦ done (refused e)
          | returned entries ↦ done (returned (entry ∷ entries))
        ]
      ]
  make_entries [] bals = done (returned [])
  make_entries (symbol ∷ symbols) [] = panic

  unfoldable pub allocation_of : List Entry → List (Option Currency) × Allocation
  allocation_of entries = (
    map (λ e. e.currency) entries,
    record { assets = map (λ e. e.asset) entries; balances = map (λ e. e.row) entries },
  )

  -- `makeAllocation`
  unfoldable pub make_allocation : BalInfo → Exec (ApiResult (List (Option Currency) × Allocation))
  unfolding make_entries allocation_of
  make_allocation b =
      if length b.currencies == length b.bals
      then (make_entries b.currencies b.bals >>= λ made. elim made [
        | refused e ↦ done (refused e)
        | returned entries ↦ done (returned (allocation_of entries))
      ])
      else done
          (refused (new_api_err_invalid_argument err_lengths "currency" (join b.currencies ",")))
