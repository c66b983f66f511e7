-- ===== src/Channel/Info.antt =====
-- session/channel.go: initialising a channel, and the infos that are made from its state.
use dst_go.Base.{
  ℕ, suc, String, List, [], ◌∷◌, false, Option, none, some, ℤ, Exec, done, panic, blocks, ◌>>=◌,
  or_panic, get_elem?, insert, lookup, map, print_uint, print_hex, if◌then◌else◌,
}
use dst_go.Perun.Info.{BalInfo, ChInfo}
use dst_go.Session.Timeout.{TimeoutConfig}
use dst_go.Channel.{State, Currency, PChannel, Channel, Params, open_ch}

-- `symbols[currencies[i].Symbol()] = i` for each index, from `i` on.
unfoldable pub symbols_from : ℕ → List Currency → List (String × ℕ) → List (String × ℕ)
symbols_from i [] m = m
symbols_from i (c ∷ cs) m = symbols_from (suc i) cs (insert c.symbol i m)

-- The loop over the rows of the raw balance; each row needs a currency.
unfoldable pub print_bals : List Currency → List (List ℤ) → Exec (List String × List (List String))
print_bals cs [] = done (map (λ c. "") cs, [])
print_bals [] (row ∷ rows) = panic
print_bals (c ∷ cs) (row ∷ rows) = do
  (symbols, bals) ← print_bals cs rows
  done (c.symbol ∷ symbols, map c.print row ∷ bals)

unfoldable pub make_bal_info_from_raw_bal :
    List String → List Currency → List (List ℤ) → Exec BalInfo
unfolding print_bals
make_bal_info_from_raw_bal parts currencies raw_bal = do
  (symbols, bals) ← print_bals currencies raw_bal
  done (record { currencies = symbols; parts = parts; bals = bals })

-- `makeChInfo`, of a state that is there: that of a controller is never nil.
unfoldable pub make_ch_info : Params → State → Exec ChInfo
unfolding make_bal_info_from_raw_bal
make_ch_info p s = do
  bal_info ← make_bal_info_from_raw_bal p.parts p.currencies s.balances
  done (record { ch_id = p.id; bal_info = bal_info; app = s.app; version = print_uint s.version })

module _ (pc : PChannel) where
  open pc use {Ctrl, Responder, pch_id, pch_state}

  unfoldable pub new_ch :
      Ctrl → String → List Currency → List String → TimeoutConfig → ℕ → Channel Ctrl Responder
  unfolding symbols_from
  new_ch pch chain_url currencies parts timeout_cfg challenge_dur_secs = record {
    params = record {
      id = print_hex (pch_id pch);
      currencies = currencies;
      symbols = symbols_from 0 currencies [];
      parts = parts;
      timeout_cfg = timeout_cfg;
      challenge_dur_secs = challenge_dur_secs;
      chain_url = chain_url;
    };
    pch = pch;
    status = open_ch;
    was_close_initiated = false;
    notifier = none;
    notif_cache = [];
    responders = [];
    locked = false;
    sent = [];
  }

  -- The caller holds the lock.
  unfoldable pub current_ch_info : Channel Ctrl Responder → Exec ChInfo
  unfolding make_ch_info
  current_ch_info ch = make_ch_info ch.params (pch_state ch.pch)

  -- `GetChInfo`
  unfoldable pub get_ch_info : Channel Ctrl Responder → Exec ChInfo
  unfolding current_ch_info
  get_ch_info ch = if ch.locked then blocks else current_ch_info ch

  -- `Channel.Currency`: the index of a currency in the balances, and the currency.
  unfoldable pub currency_of : Channel Ctrl Responder → String → Exec (Option (ℕ × Currency))
  currency_of ch symbol = elim (lookup symbol ch.symbols) [
    | none ↦ done none
    | some idx ↦ or_panic (get_elem? ch.currencies idx) >>= λ c. done (some (idx, c))
  ]
