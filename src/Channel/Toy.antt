-- ===== src/Channel/Toy.antt =====
-- A channel over a small controller: the inputs of the tests.
use dst_go.Base.{
  ℕ, String, [], ◌∷◌, Bool, true, false, none, some, ℤ, pos, done, ◌>>=◌, print_uint, second, ◌*◌,
  if◌then◌else◌,
}
use dst_go.Perun.Info.{ChInfo, App}
use dst_go.Perun.Notifs.{ChUpdateNotif, open_update, final_update}
use dst_go.Errors.{text, fail}
use dst_go.Session.Timeout.{TimeoutConfig}
use dst_go.Channel.{State, acting, PChannel, open_ch, Currency, ChUpdateResponderEntry}
use dst_go.Channel.Updates.{Ch, update_id}

-- A controller that is its state: every call succeeds, and a responder is the proposed state.
abbrev pub toy : PChannel
toy = record {
  Ctrl = State;
  Responder = State;
  pch_id = λ s. s.id;
  pch_idx = λ s. 0;
  pch_phase = λ s. acting;
  pch_state = λ s. s;
  update_by = λ ctx u s. u s >>= λ t. done (t, none);
  pch_register = λ ctx s. (s, none);
  pch_settle = λ ctx b s. (s, none);
  pch_close = λ s. (s, none);
  watch_returns = λ s. true;
  accept = λ r ctx s. (r, none);
  reject = λ r ctx why s. (s, none);
}

abbrev pub whole_part : ℤ → String
whole_part z = elim z [ ℤ.pos n ↦ print_uint n | ℤ.negsuc n ↦ "-" ]

abbrev pub eth : Currency
eth = record { symbol = "ETH"; parse = λ s. fail (text s); print = whole_part }

abbrev pub no_app : App
no_app = record { app_def = ""; app_data = "" }

abbrev pub state_at : ℕ → ℕ → ℕ → Bool → State
state_at version mine peers final = record {
  id = 171 ∷ [];
  version = version;
  app = no_app;
  assets = [];
  balances = (pos mine ∷ pos peers ∷ []) ∷ [];
  is_final = final;
}

abbrev pub timeouts : TimeoutConfig
timeouts = record { on_chain_tx = 10 * second; response = 20 * second }

abbrev pub fresh : Ch toy
fresh = record {
  params = record {
    id = "ab";
    currencies = eth ∷ [];
    symbols = ("ETH", 0) ∷ [];
    parts = "self" ∷ "bob" ∷ [];
    timeout_cfg = timeouts;
    challenge_dur_secs = 60;
    chain_url = "ws://localhost";
  };
  pch = state_at 0 7 3 false;
  status = open_ch;
  was_close_initiated = false;
  notifier = none;
  notif_cache = [];
  responders = [];
  locked = false;
  sent = [];
}

abbrev pub info_at : ℕ → String → String → ChInfo
info_at version mine peers = record {
  ch_id = "ab";
  bal_info = record {
    currencies = "ETH" ∷ [];
    parts = "self" ∷ "bob" ∷ [];
    bals = (mine ∷ peers ∷ []) ∷ [];
  };
  app = no_app;
  version = print_uint version;
}

abbrev pub notif_at : Bool → ChUpdateNotif
notif_at final = record {
  update_id = update_id "ab" 1;
  curr_ch_info = info_at 0 "7" "3";
  proposed_ch_info = info_at 1 "5" "5";
  type = if final then final_update else open_update;
  expiry = 120;
  error = none;
}

abbrev pub entry_at : Bool → ChUpdateResponderEntry State
entry_at final = record {
  notif = notif_at final;
  responder = state_at 1 5 5 final;
  notif_expiry = 120;
}

-- The channel after an update came in at the time of 100 seconds.
abbrev pub updated : Bool → Ch toy
updated final = record fresh {
  notif_cache = notif_at final ∷ [];
  responders = (update_id "ab" 1, entry_at final) ∷ [];
}

abbrev pub subscribed : Ch toy
subscribed = record (updated false) {
  notifier = some 4;
  notif_cache = [];
  sent = (4, notif_at false) ∷ [];
}
