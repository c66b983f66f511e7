-- ===== src/Node/Tests.antt =====
-- The node (node/node.go) and the sessions that it starts at concrete inputs.
use dst_go.Base.{
  [], ◌∷◌, none, done, Returns, List, All, subst, ap, arith, ◌≡◌, refl, lookup, insert, String,
  Exec, ◌>>=◌, false,
}
use dst_go.Perun.Info.{address_eq}
use dst_go.Errors.{ok, fail, ApiResult, returned, Fallible}
use dst_go.Contracts.{
  ContractRegistry, new_contract_registry, symbol_of, registered_from, asset_eth,
  register_asset_erc20,
}
use dst_go.Currencies.{new_registry, register_currency, Registry, is_registered, new_currency}
use dst_go.Session.State.Toy.{toy_backend, session}
use dst_go.Session.State.Restoring.{new_session}
use dst_go.Channel.{State}
use dst_go.Channel.Toy.{state_at, eth}
use dst_go.Session.State.Starting.{Persisted, Host}
use dst_go.Session.State.Returning.{IsReadable, IsBalanced}
use dst_go.Session.State.Started.{StartsAs, IsSound, new_session-StartsAs}
use dst_go.Node.{new_node, add_token_currency, currency_added}
use dst_go.Node.Registries.{InStep, Accepted, add_token_currency-Accepted}
use dst_go.Node.Starting.{StartsInStep, new_node-StartsInStep, eth_InStep}
use dst_go.Node.Toy.{
  fair_chain, whole_numbers, node_config, node_host, toy_config, toy_session_host, toy_node,
  ToyNode,
}

new_node-StartsInStep_example :
    Returns (StartsInStep {S = String}) (new_node node_host 100 node_config)
new_node-StartsInStep_example = new_node-StartsInStep node_host String 100 node_config

-- A channel of one asset, which comes out of the database.
abbrev saved_state : State
saved_state = record (state_at 0 7 3 false) { assets = (9 ∷ []) ∷ [] }

abbrev session_host : Host toy_backend
session_host = toy_session_host toy_backend tt saved_state

all-IsReadable : IsReadable toy_backend.read_currency (session []).contracts
all-IsReadable asset s e = (eth, refl)

abbrev or_nothing : Fallible (List (Persisted State)) → List (Persisted State)
or_nothing (ok ps) = ps
or_nothing (fail e) = []

saved-IsSound : IsSound toy_backend session_host toy_config
saved-IsSound ps e = subst (All (IsBalanced toy_backend)) (ap or_nothing e) (omega arith, tt)

eth_held : asset_eth (session []).contracts ≡ done (9 ∷ [])
unfolding asset_eth lookup
eth_held = refl

new_session-StartsAs_example :
    Returns
      (StartsAs toy_backend session_host toy_config (session []).contracts)
      (new_session toy_backend session_host toy_config (session []).contracts 100)
new_session-StartsAs_example =
    new_session-StartsAs toy_backend session_host toy_config (session []).contracts 100 (9 ∷ [])
      all-IsReadable eth_held saved-IsSound

-- The registries of a node that has just started.
abbrev fresh_contracts : ContractRegistry
fresh_contracts = record {
  adjudicator = 9 ∷ [];
  currencies = ("ETH", 0) ∷ [];
  assets = (9 ∷ []) ∷ [];
  tokens = none ∷ [];
}

abbrev fresh_currencies : Registry
fresh_currencies = record {
  symbols = "ETH" ∷ [];
  currencies = ("ETH", new_currency whole_numbers "ETH" 18) ∷ [];
}

abbrev fresh_node : ToyNode
fresh_node = record (toy_node fair_chain) {
  contract_registry = fresh_contracts;
  currency_registry = fresh_currencies;
}

fresh_made : new_contract_registry fair_chain (9 ∷ []) (9 ∷ []) ≡ ok fresh_contracts
unfolding new_contract_registry
fresh_made = refl

fresh-InStep : InStep fresh_contracts fresh_currencies
unfolding register_currency is_registered new_registry lookup insert
fresh-InStep = eth_InStep node_host fair_chain (9 ∷ []) (9 ∷ []) fresh_contracts fresh_made

add_token_currency-Accepted_example :
    Returns
      (Accepted node_host fresh_node "0x07" "0x08")
      (add_token_currency node_host "0x07" "0x08" fresh_node)
add_token_currency-Accepted_example =
    add_token_currency-Accepted node_host fresh_node "0x07" "0x08" fresh-InStep

-- The symbol that the chain reports is the answer.
answered : Exec (ToyNode × ApiResult String) → Exec (ApiResult String)
answered m = m >>= λ out. done out.1

prn_registered :
    answered (add_token_currency node_host "0x07" "0x08" fresh_node) ≡ done (returned "PRN")
unfolding answered add_token_currency register_asset_erc20 symbol_of registered_from address_eq
    lookup currency_added register_currency is_registered
prn_registered = refl
