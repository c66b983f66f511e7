-- ===== src/Grpc/Whole.antt =====
-- api/grpc/server.go, node/node.go, session/session.go: the server, the node and its sessions taken
-- together.
use dst_go.Base.{
  String, [], true, false, none, some, Exec, done, panic, Returns, lookup, lookup-insert_self, ◌≡◌,
  refl,
}
use dst_go.Perun.Info.{Address, PeerId}
use dst_go.Errors.{GoError, ok, fail, returned, refused}
use dst_go.Errors.Api.{new_api_err_invalid_contracts}
use dst_go.Errors.Chain.{errors_as}
use dst_go.IdProvider.{read_by_alias, write}
use dst_go.IdProvider.Laws.{write-read}
use dst_go.Contracts.{symbol_of, register_asset_erc20}
use dst_go.Session.State.{Backend, SessionOf}
use dst_go.Session.State.Peers.{add_peer_id, get_peer_id, added_peer}
use dst_go.Node.{
  NodeHost, NodeOf, backend_at, get_session, put_session, add_token_currency, currency_added,
  registration_error, as_registered, as_invalid_contract,
}
use dst_go.Node.Service.{Outside, pay_api, on_session, see_session}
use dst_go.Grpc.{PeerIdMsg, Response, msg_success}
use dst_go.Grpc.Convert.{
  to_grpc_peer_id, to_grpc_error, to_grpc_add_info, to_grpc_contract_err_infos,
}
use dst_go.Grpc.Server.{Server, err_response, with_session, answer_with}
use dst_go.Grpc.Server.Handlers
use dst_go.Grpc.Server.Handlers.{acknowledge}

module _ (b : Backend) (host : NodeHost) (outside : Outside b host) where
  abbrev pub S : Type 0
  S = Server (NodeOf b host)

  pub session_there :
      (id : String) (s : SessionOf b) (n : NodeOf b host)
      → lookup id n.sessions ≡ some s
      → get_session b host id n ≡ returned (record s { contracts = n.contract_registry })
  unfolding get_session
  session_there id s n e = rw (e, get_session) refl

  pub ref_there :
      (id : String) (s : SessionOf b) (n : NodeOf b host)
      → lookup id n.sessions ≡ some s
      → (pay_api b host outside).get_session id n ≡ done (returned id)
  ref_there id s n e = rw (session_there id s n e, pay_api) refl

  not_registered :
      (token asset : String) (token_addr asset_addr : Address) (e : GoError) (n : NodeOf b host)
      → host.wallet.parse_addr token ≡ ok token_addr
      → host.wallet.parse_addr asset ≡ ok asset_addr
      → symbol_of n.contract_registry asset_addr ≡ none
      → n.chain.validate_asset_erc20 n.contract_registry.adjudicator token_addr asset_addr ≡ fail e
      → add_token_currency host token asset n ≡ done (n, refused (registration_error e))
  unfolding add_token_currency register_asset_erc20 currency_added
  not_registered token asset token_addr asset_addr e n t s free bad =
      rw (s, add_token_currency) (rw t (rw (free, register_asset_erc20) (rw bad refl)))

  invalid_answer :
      (e inner : GoError) (name address : String) (a : S)
      → errors_as as_registered e ≡ none
      → errors_as as_invalid_contract e ≡ some (name, address, inner)
      → err_response {A = String} a (registration_error e) ≡ panic
  unfolding registration_error err_response to_grpc_error to_grpc_add_info
      to_grpc_contract_err_infos new_api_err_invalid_contracts
  invalid_answer e inner name address a u v = rw (u, registration_error) (rw v refl)

  -- A request to register a currency, with addresses that can be read and an asset that is not
  -- registered: if the chain finds a contract invalid, which it tells by an error for an invalid
  -- contract and none for a registered asset, the server panics.
  pub invalid_contract_panics :
      (token asset : String) (token_addr asset_addr : Address) (e inner : GoError)
      (name address : String) (a : S)
      → host.wallet.parse_addr token ≡ ok token_addr
      → host.wallet.parse_addr asset ≡ ok asset_addr
      → symbol_of a.node.contract_registry asset_addr ≡ none
      → a.node.chain.validate_asset_erc20 a.node.contract_registry.adjudicator token_addr asset_addr
        ≡ fail e
      → errors_as as_registered e ≡ none
      → errors_as as_invalid_contract e ≡ some (name, address, inner)
      → Handlers.register_currency (pay_api b host outside) token asset a ≡ panic
  unfolding Handlers.register_currency answer_with
  invalid_contract_panics token asset token_addr asset_addr e inner name address a t s free bad u
        v =
      rw (not_registered token asset token_addr asset_addr e a.node t s free bad)
        (invalid_answer e inner name address a u v)

  -- The peer of a message, with no address parsed.
  abbrev peer_of : PeerIdMsg → PeerId
  peer_of msg = record {
    alias = msg.alias_field;
    off_chain_addr = [];
    off_chain_addr_string = msg.off_chain_address;
    comm_addr = msg.comm_address;
    comm_type = msg.comm_type_field;
  }

  -- A request of a session that is there.
  pub with_session_there :
      {A : Type 0} (id : String) (s : SessionOf b) (go_on : String → Exec (S × Response A)) (a : S)
      → lookup id a.node.sessions ≡ some s
      → with_session (pay_api b host outside) id go_on a ≡ go_on id
  unfolding with_session
  with_session_there id s go_on a e = rw (ref_there id s a.node e, with_session) refl

  -- What is asked of a session that is free and open.
  abbrev pub IsReady : SessionOf b → Type 0
  IsReady s = (s.session_locked ≡ false) × (s.is_open ≡ true)

  module _ (id : String) (s : SessionOf b) (p : PeerId) (addr : Address) (n : NodeOf b host)
      (there : lookup id n.sessions ≡ some s) (ready : IsReady s)
      (fresh : read_by_alias s.id_provider p.alias ≡ none)
      (parsed : host.wallet.parse_addr p.off_chain_addr_string ≡ ok addr) where
    abbrev with_peer : SessionOf b
    with_peer = record s {
      contracts = n.contract_registry;
      id_provider = (write host.wallet s.id_provider p.alias p).0;
    }

    written : (write host.wallet s.id_provider p.alias p).1 ≡ none
    written = (write-read host.wallet s.id_provider p.alias p.alias p addr fresh parsed).0

    added_there :
        on_session b host id (add_peer_id (backend_at b host n) p) n
        ≡ done (put_session b host id with_peer n, none)
    unfolding on_session add_peer_id added_peer
    added_there =
        rw (session_there id s n there, on_session)
          (rw (ready.0, add_peer_id) (rw (ready.1) (rw written refl)))

    found_there :
        see_session b host id
          (get_peer_id (backend_at b host (put_session b host id with_peer n)) p.alias)
          (put_session b host id with_peer n)
        ≡ done (returned (record p { off_chain_addr = addr }))
    unfolding see_session get_peer_id put_session
    found_there =
        rw
          (
            session_there id with_peer (put_session b host id with_peer n)
                (lookup-insert_self id with_peer n.sessions),
            see_session,
          )
          (rw (ready.0, get_peer_id)
            (rw (ready.1) (
              rw (write-read host.wallet s.id_provider p.alias p.alias p addr fresh parsed).1
                refl)))

  get_added_there :
      (id : String) (s : SessionOf b) (msg : PeerIdMsg) (addr : Address) (a : S)
      (there : lookup id a.node.sessions ≡ some s) (ready : IsReady s)
      (fresh : read_by_alias s.id_provider msg.alias_field ≡ none)
      (parsed : host.wallet.parse_addr msg.off_chain_address ≡ ok addr)
      → let n' =
          put_session b host id
            (with_peer id s (peer_of msg) addr a.node there ready fresh parsed)
            a.node in
        Handlers.get_peer_id (pay_api b host outside) id msg.alias_field (record a { node = n' })
        ≡ done (record a { node = n' }, msg_success msg)
  unfolding Handlers.get_peer_id answer_with to_grpc_peer_id put_session
  get_added_there id s msg addr a there ready fresh parsed =
      let s' = with_peer id s (peer_of msg) addr a.node there ready fresh parsed in
      let a' : S = record a { node = put_session b host id s' a.node } in
      rw (with_session_there id s' _ a' (lookup-insert_self id s' a.node.sessions))
        (rw (found_there id s (peer_of msg) addr a.node there ready fresh parsed) refl)

  -- A peer that was added, by a request to an open session that does not know the alias, is given back
  -- as it was sent.
  pub get_peer_id-add_peer_id :
      (id : String) (s : SessionOf b) (msg : PeerIdMsg) (addr : Address) (a : S)
      → lookup id a.node.sessions ≡ some s
      → s.session_locked ≡ false
      → s.is_open ≡ true
      → read_by_alias s.id_provider msg.alias_field ≡ none
      → host.wallet.parse_addr msg.off_chain_address ≡ ok addr
      → Returns
          (λ out.
            (out.1 ≡ msg_success true)
            × (Handlers.get_peer_id (pay_api b host outside) id msg.alias_field out.0
                ≡ done (out.0, msg_success msg)))
          (Handlers.add_peer_id (pay_api b host outside) id (some msg) a)
  unfolding Handlers.add_peer_id Handlers.get_peer_id
  get_peer_id-add_peer_id id s msg addr a e l o fresh parsed = rw (with_session_there id s _ a e) (
      rw (added_there id s (peer_of msg) addr a.node e (l, o) fresh parsed)
        (refl, get_added_there id s msg addr a e (l, o) fresh parsed))
