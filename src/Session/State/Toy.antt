-- ===== src/Session/State/Toy.antt =====
-- Sessions (session/session.go) over the controller of the tests of channels: the inputs of the tests.
use dst_go.Base.{ℕ, List, [], ◌∷◌, true, false, none, some}
use dst_go.Perun.Info.{PeerId}
use dst_go.Errors.{ok}
use dst_go.Channel.Toy.{toy, eth, timeouts, state_at}
use dst_go.Channel.Updates.{Ch}
use dst_go.Session.State.{Backend, SessionOf}

-- Every call of the backend succeeds, every asset is registered with the funder, and a proposal
-- responder is a number.
abbrev pub toy_backend : Backend
toy_backend = record {
  pc = toy;
  ProposalResponder = ℕ;
  accept_proposal = λ r ctx. ok (state_at 0 7 3 false);
  reject_proposal = λ r ctx why. none;
  reject_update = λ r ctx why. none;
  close_client = none;
  Funder = Unit {0};
  is_asset_registered = λ a f. true;
  register_asset = λ a t f. f;
  wallet = record { parse_addr = λ s. ok (1 ∷ []); addr_string = λ a. "0x01" };
  read_currency = λ s. some eth;
}

abbrev pub bob : PeerId
bob = record {
  alias = "bob";
  off_chain_addr = 1 ∷ [];
  off_chain_addr_string = "0x01";
  comm_addr = "127.0.0.1:5751";
  comm_type = "tcpip";
}

abbrev pub session : List (Ch toy) → SessionOf toy_backend
session chs = record {
  session_id = "s";
  is_open = true;
  timeout_cfg = timeouts;
  chain_url = "ws://localhost";
  id_provider = record {
    peer_ids_by_alias = ("bob", bob) ∷ [];
    alias_by_addr = ("0x01", "bob") ∷ [];
  };
  contracts = record {
    adjudicator = [];
    currencies = ("ETH", 0) ∷ [];
    assets = (9 ∷ []) ∷ [];
    tokens = none ∷ [];
  };
  funder = tt;
  chs = record { ch_idxs = []; chs = chs };
  proposal_notifier = none;
  proposal_notif_cache = [];
  proposal_responders = [];
  calls = [];
  session_locked = false;
  proposals_sent = [];
}
