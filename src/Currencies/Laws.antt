-- ===== src/Currencies/Laws.antt =====
-- currency/registry.go: an invariant of the currency registry, and registering.
use dst_go.Base.{
  ℕ, String, List, [], ◌∷◌, ◌++◌, true, false, Option, none, some, not, ◌&&◌, insert, lookup,
  lookup-insert, str_eq, if◌then◌else◌, ◌≡◌, refl, sym, subst, ap, ◌∙◌, ◌⊎◌, inl, inr, arith,
  eq_iff, Bool-cases,
}
use dst_go.Errors.{ok, fail}
use dst_go.Channel.{Currency}
use dst_go.Currencies.{
  DecimalLibrary, Registry, new_registry, is_registered, registered_currency, register_currency,
  new_currency, err_already_registered,
}

abbrev pub Listed : String → List String → Type 0
Listed s [] = ⊥
Listed s (t ∷ ts) = (t ≡ s) ⊎ Listed s ts

abbrev pub Distinct : List String → Type 0
Distinct [] = Unit
Distinct (t ∷ ts) = (¬ Listed t ts) × Distinct ts

-- The symbols are those of the parsers, each once, and a parser has the symbol it is kept under.
pub record Inv (r : Registry) : Type 0 where
  pub distinct : Distinct r.symbols
  pub listed : (s : String) → Listed s r.symbols → is_registered r s ≡ true
  pub covered : (s : String) → is_registered r s ≡ true → Listed s r.symbols
  pub named : (s : String) (c : Currency) → registered_currency r s ≡ some c → c.symbol ≡ s

Listed-append : (s t : String) (ts : List String) → Listed s (ts ++ t ∷ []) → Listed s ts ⊎ (t ≡ s)
Listed-append s t [] (inl e) = inr e
Listed-append s t [] (inr x) = elim x [ ]
Listed-append s t (u ∷ ts) (inl e) = inl (inl e)
Listed-append s t (u ∷ ts) (inr x) = elim (Listed-append s t ts x) [
  | inl y ↦ inl (inr y)
  | inr e ↦ inr e
]

Listed-append_last : (t : String) (ts : List String) → Listed t (ts ++ t ∷ [])
Listed-append_last t [] = inl refl
Listed-append_last t (u ∷ ts) = inr (Listed-append_last t ts)

Listed-append_left : (s t : String) (ts : List String) → Listed s ts → Listed s (ts ++ t ∷ [])
Listed-append_left s t [] x = elim x [ ]
Listed-append_left s t (u ∷ ts) (inl e) = inl e
Listed-append_left s t (u ∷ ts) (inr x) = inr (Listed-append_left s t ts x)

Distinct-append :
    (t : String) (ts : List String) → Distinct ts → ¬ Listed t ts → Distinct (ts ++ t ∷ [])
Distinct-append t [] d n = (λ x. x, tt)
Distinct-append t (u ∷ ts) (m, d) n = (
  λ x. elim (Listed-append u t ts x) [ inl y ↦ m y | inr e ↦ n (inl (sym e)) ],
  Distinct-append t ts d (λ x. n (inr x)),
)

symbol_or : String → Option Currency → String
symbol_or s none = s
symbol_or s (some c) = c.symbol

module _ (lib : DecimalLibrary) where
  registered_after :
      (r : Registry) (s t : String) (c : Currency) (symbols : List String)
      → is_registered (record { symbols = symbols; currencies = insert s c r.currencies }) t
        ≡ (if str_eq s t then true else is_registered r t)
  unfolding is_registered
  registered_after r s t c symbols = ground (arith, lookup-insert s t c r.currencies)

  added : Registry → String → ℕ → Registry
  added r s decimals = record {
    symbols = r.symbols ++ s ∷ [];
    currencies = insert s (new_currency lib s decimals) r.currencies;
  }

  added-named :
      (r : Registry) (s : String) (decimals : ℕ)
      → Inv r
      → (t : String) (c : Currency) → registered_currency (added r s decimals) t ≡ some c
      → c.symbol ≡ t
  unfolding added registered_currency new_currency symbol_or
  added-named r s decimals v t c h = elim (Bool-cases (str_eq s t)) [
    | inl e ↦
        let same : some (new_currency lib s decimals) ≡ some c =
          ground (arith, lookup-insert s t (new_currency lib s decimals) r.currencies) in
        sym (symbols_agree same) ∙ (eq_iff s t).0 e
    | inr e ↦
        v.named t c (ground (arith, lookup-insert s t (new_currency lib s decimals) r.currencies))
  ]
    where
      symbols_agree : some (new_currency lib s decimals) ≡ some c → s ≡ c.symbol
      symbols_agree e = ap (λ d. symbol_or s d) e

  added-Inv :
      (r : Registry) (s : String) (decimals : ℕ)
      → is_registered r s ≡ false
      → Inv r
      → Inv (added r s decimals)
  unfolding added
  added-Inv r s decimals f v =
      let c = new_currency lib s decimals in
      let after = λ (t : String). registered_after r s t c (r.symbols ++ s ∷ []) in
      record {
        distinct =
            Distinct-append s r.symbols v.distinct
              (λ x. let yes = v.listed s x in ground (arith, f, yes));
        listed = λ t x. elim (Listed-append t s r.symbols x) [
          | inl y ↦ let yes = v.listed t y in ground (arith, after t, yes)
          | inr e ↦ ground (arith, after t, eq_iff s t, e)
        ];
        covered = λ t h. elim (Bool-cases (str_eq s t)) [
          | inl e ↦
              subst (λ u. Listed u (r.symbols ++ s ∷ [])) ((eq_iff s t).0 e)
                (Listed-append_last s r.symbols)
          | inr e ↦ Listed-append_left t s r.symbols (v.covered t (ground (arith, after t)))
        ];
        named = added-named r s decimals v;
      }

  -- Registering a currency keeps the registry well-formed. A symbol that is registered is refused
  -- and nothing changes; a new one comes last in the list of symbols, its parser is returned and
  -- found under it, and every other symbol has the parser it had.
  pub register_currency-Inv :
      (r : Registry) (s : String) (decimals : ℕ) (t : String)
      → Inv r
      → let out = register_currency lib s decimals r in
        let c = new_currency lib s decimals in
        Inv out.0
        × ((out.0).symbols ≡ (if is_registered r s then r.symbols else r.symbols ++ s ∷ []))
        × (out.1 ≡ (if is_registered r s then fail err_already_registered else ok c))
        × (registered_currency out.0 t
            ≡ (if not (is_registered r s) && str_eq s t then some c else registered_currency r t))
  unfolding register_currency registered_currency added
  register_currency-Inv r s decimals t v = elim (Bool-cases (is_registered r s)) [
    | inl e ↦ rw (e, register_currency) (v, refl, refl, refl)
    | inr e ↦
        rw (e, register_currency)
          (
            added-Inv r s decimals e v,
            refl,
            refl,
            lookup-insert s t (new_currency lib s decimals) r.currencies,
          )
  ]

pub new_registry-Inv : Inv new_registry
unfolding new_registry is_registered registered_currency lookup
new_registry-Inv = record {
  distinct = tt;
  listed = λ s x. elim x [ ];
  covered = λ s h. absurd (ground (arith, h));
  named = λ s c h. absurd (ground (arith, h));
}
