-- ===== src/Currencies.antt =====
-- currency/registry.go and currency/currency.go: the currency parsers of the node, by symbol, and
-- what a parser does. The decimal library is a parameter.
pub mod Laws
use dst_go.Base.{
  ℕ, String, List, [], ◌∷◌, ◌++◌, Bool, true, false, Option, none, some, ℤ, insert, lookup,
  if◌then◌else◌,
}
use dst_go.Errors.{GoError, text, with_message, Fallible, ok, fail}
use dst_go.Channel.{Currency}

abbrev pub eth_max_decimals : ℕ
eth_max_decimals = 18

-- `decimal.Decimal` and the functions on it. `new_decimal value exp` is value * 10 ^ exp.
pub record DecimalLibrary : Type 1 where
  pub Decimal : Type 0
  pub new_decimal : ℕ → ℕ → Decimal
  pub new_from_string : String → Fallible Decimal
  pub new_from_big_int : ℤ → Decimal
  pub mul : Decimal → Decimal → Decimal
  pub div : Decimal → Decimal → Decimal
  pub less_than : Decimal → Decimal → Bool
  pub big_int : Decimal → ℤ
  pub decimal_string : Decimal → String

abbrev pub err_already_registered : GoError
err_already_registered = text "currency parser already registered for the given symbol"

abbrev pub err_too_small : GoError
err_too_small = text "amount is too small, should be larger than 1e-18"

module _ (lib : DecimalLibrary) where
  open lib use {
    Decimal, new_decimal, new_from_string, new_from_big_int, mul, div, less_than, big_int,
    decimal_string,
  }

  -- `Parse`, for a currency with the factor `decimals`.
  unfoldable pub parse_amount : Decimal → String → Fallible ℤ
  parse_amount decimals input = elim (new_from_string input) [
    | fail e ↦ fail (with_message e "invalid decimal string")
    | ok amount ↦
        let base_unit = mul amount decimals in
        if less_than base_unit (new_decimal 1 0) then fail err_too_small else ok (big_int base_unit)
  ]

  -- `Print`
  unfoldable pub print_amount : Decimal → ℤ → String
  print_amount decimals input = decimal_string (div (new_from_big_int input) decimals)

  -- `currency`
  unfoldable pub new_currency : String → ℕ → Currency
  unfolding parse_amount print_amount
  new_currency symbol max_decimals = record {
    symbol = symbol;
    parse = parse_amount (new_decimal 1 max_decimals);
    print = print_amount (new_decimal 1 max_decimals);
  }

-- `Registry`
pub record Registry : Type 0 where
  pub symbols : List String
  pub currencies : List (String × Currency)

unfoldable pub new_registry : Registry
new_registry = record { symbols = []; currencies = [] }

-- A parser in the map is never nil.
unfoldable pub is_registered : Registry → String → Bool
is_registered r symbol = elim (lookup symbol r.currencies) [ none ↦ false | some c ↦ true ]

-- `Registry.Currency`: none is nil.
unfoldable pub registered_currency : Registry → String → Option Currency
registered_currency r symbol = lookup symbol r.currencies

-- `Register`
unfoldable pub register_currency :
    DecimalLibrary → String → ℕ → Registry → Registry × Fallible Currency
unfolding is_registered new_currency
register_currency lib symbol max_decimals r =
    if is_registered r symbol then (r, fail err_already_registered) else (
      record {
        symbols = r.symbols ++ symbol ∷ [];
        currencies = insert symbol (new_currency lib symbol max_decimals) r.currencies;
      },
      ok (new_currency lib symbol max_decimals),
    )
