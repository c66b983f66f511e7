-- ===== src/Node/Toy.antt =====
-- The node and the server over the session of the tests: the inputs of the tests.
use dst_go.Base.{ℕ, [], ◌∷◌, false, none, ℤ, pos, second, ◌*◌}
use dst_go.Perun.Info.{NodeConfig}
use dst_go.Errors.{GoError, text, invalid_contract_error, ok, fail}
use dst_go.Contracts.{RoChainBackend}
use dst_go.Currencies.{DecimalLibrary, new_registry}
use dst_go.Channel.{State}
use dst_go.Channel.Toy.{state_at}
use dst_go.Session.State.{Backend}
use dst_go.Session.State.Toy.{toy_backend, session}
use dst_go.Session.State.Starting.{Config, Host}
use dst_go.Node.{NodeHost, NodeOf, backend_at}
use dst_go.Node.Service.{Outside}
use dst_go.Grpc.Server.{Server}

-- Decimals without decimals.
abbrev pub whole_numbers : DecimalLibrary
whole_numbers = record {
  Decimal = ℤ;
  new_decimal = λ n exp. pos n;
  new_from_string = λ s. ok (pos 2);
  new_from_big_int = λ n. n;
  mul = λ a b. a;
  div = λ a b. a;
  less_than = λ a b. false;
  big_int = λ a. a;
  decimal_string = λ a. "2";
}

-- A chain on which every token is PRN, and one on which no asset contract is valid.
abbrev pub fair_chain : RoChainBackend
fair_chain = record {
  validate_adjudicator = λ a. none;
  validate_asset_eth = λ a b. none;
  validate_asset_erc20 = λ a t b. ok ("PRN", 18);
  asset_string = λ a. "asset";
}

abbrev pub no_code : GoError
no_code = text "no contract code at given address"

abbrev pub strict_chain : RoChainBackend
strict_chain = record fair_chain {
  validate_asset_erc20 = λ a t b. fail (invalid_contract_error "asset ERC20" "0x08" no_code);
}

abbrev pub toy_config : Config
toy_config = record {
  user = record {
    on_chain_addr = "0x01";
    on_chain_wallet = record { keystore_path = "keys"; password = "" };
    off_chain_addr = "0x01";
    off_chain_wallet = record { keystore_path = "keys"; password = "" };
    comm_addr = "127.0.0.1:5750";
    comm_type = "tcp";
  };
  id_provider_type = "local";
  id_provider_url = "idprovider.yaml";
  chain_url = "ws://127.0.0.1:8545";
  chain_id = 1337;
  chain_conn_timeout = 10 * second;
  on_chain_tx_timeout = 10 * second;
  response_timeout = 20 * second;
  database_dir = "db";
  peer_reconn_timeout = 10 * second;
}

abbrev pub node_config : NodeConfig
node_config = record {
  log_level = "info";
  log_file = "";
  chain_url = "ws://127.0.0.1:8545";
  chain_id = 1337;
  adjudicator = "0x09";
  asset_eth = "0x01";
  asset_erc20s = [];
  chain_conn_timeout = 10 * second;
  on_chain_tx_timeout = 10 * second;
  response_timeout = 20 * second;
  comm_types = "tcp" ∷ [];
  id_provider_types = "local" ∷ [];
  currency_interpreters = "ETH" ∷ [];
}

abbrev pub node_host : NodeHost
node_host = record {
  connect = λ url id timeout. ok fair_chain;
  init_logger = λ level file. none;
  parse_config = λ file. ok toy_config;
  decimals = whole_numbers;
  wallet = toy_backend.wallet;
}

-- Every call succeeds; the file of the ID provider is empty, and there is one channel in the database.
abbrev pub toy_session_host : (b : Backend) → b.Funder → b.pc.Ctrl → Host b
toy_session_host b funder ctrl = record {
  Wallet = ℕ;
  new_wallet = λ path password. ok 0;
  unlock_account = λ w addr. none;
  read_id_file = λ url. ok [];
  new_chain_backend = λ url id conn tx addr. none;
  new_funder = λ asset addr. funder;
  unlock = λ w addr. none;
  new_pclient = λ addr. none;
  new_listener = λ addr. none;
  restore_chs = λ dir timeout. ok (record { pch = ctrl; peers = []; challenge_duration = 60 } ∷ []);
  session_hash = λ addr now. "s";
}

abbrev pub ToyNode : Type 0
ToyNode = NodeOf toy_backend node_host

-- A state of a channel in ETH.
abbrev pub in_eth : State
in_eth = record (state_at 0 7 3 false) { assets = (9 ∷ []) ∷ [] }

abbrev pub outside : Outside toy_backend node_host
outside = record {
  session_host = λ n. toy_session_host (backend_at toy_backend node_host n) tt in_eth;
  client = λ n. record {
    LedgerProposal = ℕ;
    make_proposal = λ secs allocation addrs app. ok 0;
    propose_channel = λ peers ctx p. ok in_eth;
  };
  deploy = λ session adjudicator token. ok (7 ∷ []);
}

abbrev pub toy_node : RoChainBackend → ToyNode
toy_node chain = record {
  cfg = node_config;
  chain = chain;
  sessions = ("s", session []) ∷ [];
  contract_registry = (session []).contracts;
  currency_registry = new_registry;
  clock = 100;
}

-- A server before anything was subscribed to.
abbrev pub toy_server : RoChainBackend → Server ToyNode
toy_server chain = record {
  node = toy_node chain;
  ch_proposals_notif = [];
  ch_updates_notif = ("s", []) ∷ [];
  next_signal = 0;
  closed = [];
  proposals_sent = [];
  updates_sent = [];
}
