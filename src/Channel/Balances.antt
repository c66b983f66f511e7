-- ===== src/Channel/Balances.antt =====
-- session/channel.go: the infos that are made from the state of a channel.
use dst_go.Base.{
  ℕ, zero, suc, String, List, [], ◌∷◌, some, ℤ, done, panic, get_elem?, length, map, print_uint,
  ◌≡◌, refl, ◌≤◌, ◌<◌, ap, arith,
}
use dst_go.Perun.Info.{ChInfo}
use dst_go.Channel.{State, Currency, Params}
use dst_go.Channel.Info.{print_bals, make_ch_info}

-- Row `i` of what is printed is row `i` of the balances, in the currency `i`.
abbrev Prints : List Currency → List (List ℤ) → List String × List (List String) → Type 0
Prints cs rows r =
    (length r.0 ≡ length cs)
    × (length r.1 ≡ length rows)
    × ((i : ℕ) (c : Currency) (row : List ℤ)
        → get_elem? cs i ≡ some c
        → get_elem? rows i ≡ some row
        → (get_elem? r.0 i ≡ some c.symbol) × (get_elem? r.1 i ≡ some (map c.print row)))

abbrev no_symbol : String
no_symbol = ""

length-blank : (cs : List Currency) → length (map (λ c. no_symbol) cs) ≡ length cs
length-blank [] = refl
length-blank (c ∷ cs) = ap suc (length-blank cs)

print_bals-Prints :
    (cs : List Currency) (rows : List (List ℤ))
    → length rows ≤ length cs
    → (r : List String × List (List String)) × (print_bals cs rows ≡ done r) × Prints cs rows r
unfolding print_bals
print_bals-Prints [] [] h = (([], []), refl, (refl, refl, λ i c row e f. cc))
print_bals-Prints (c ∷ cs) [] h =
    ((map (λ c. "") (c ∷ cs), []), refl, (length-blank (c ∷ cs), refl, λ i c row e f. cc))
print_bals-Prints [] (row ∷ rows) h = absurd (omega arith)
print_bals-Prints (c ∷ cs) (row ∷ rows) h =
    let (r, e, p) = print_bals-Prints cs rows (omega arith) in
    ((c.symbol ∷ r.0, map c.print row ∷ r.1), rw e, (ap suc p.0, ap suc p.1, at_index r p.2))
  where
    at_index :
        (r : List String × List (List String))
        → ((i : ℕ) (d : Currency) (w : List ℤ)
            → get_elem? cs i ≡ some d
            → get_elem? rows i ≡ some w
            → (get_elem? r.0 i ≡ some d.symbol) × (get_elem? r.1 i ≡ some (map d.print w)))
        → (i : ℕ) (d : Currency) (w : List ℤ) → get_elem? (c ∷ cs) i ≡ some d
        → get_elem? (row ∷ rows) i ≡ some w
        → (get_elem? (c.symbol ∷ r.0) i ≡ some d.symbol)
          × (get_elem? (map c.print row ∷ r.1) i ≡ some (map d.print w))
    at_index r p zero d w e f = ground arith
    at_index r p (suc i) d w e f = p i d w e f

print_bals-panic :
    (cs : List Currency) (rows : List (List ℤ))
    → length cs < length rows
    → print_bals cs rows ≡ panic
unfolding print_bals
print_bals-panic cs [] h = absurd (omega arith)
print_bals-panic [] (row ∷ rows) h = refl
print_bals-panic (c ∷ cs) (row ∷ rows) h = rw (print_bals-panic cs rows (omega arith))

-- With a currency for every row of the balances the info of a state is made: it names the channel,
-- the participants and the version, and prints each row in its own currency.
pub make_ch_info-Returns :
    (p : Params) (s : State)
    → length s.balances ≤ length p.currencies
    → (info : ChInfo) × (make_ch_info p s ≡ done info)
      × (info.ch_id ≡ p.id)
      × (info.version ≡ print_uint s.version)
      × (info.app ≡ s.app)
      × (info.bal_info.parts ≡ p.parts)
      × Prints p.currencies s.balances (info.bal_info.currencies, info.bal_info.bals)
unfolding make_ch_info
make_ch_info-Returns p s h =
    let (r, e, q) = print_bals-Prints p.currencies s.balances h in
    (
      record {
        ch_id = p.id;
        bal_info = record { currencies = r.0; parts = p.parts; bals = r.1 };
        app = s.app;
        version = print_uint s.version;
      },
      rw e,
      refl,
      refl,
      refl,
      refl,
      q,
    )

-- A state with more rows of balances than the channel has currencies makes every method that
-- returns the info of the channel panic.
pub make_ch_info-panic :
    (p : Params) (s : State) → length p.currencies < length s.balances → make_ch_info p s ≡ panic
unfolding make_ch_info
make_ch_info-panic p s h = rw (print_bals-panic p.currencies s.balances h)
