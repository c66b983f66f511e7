-- ===== src/Session/State/Peers.antt =====
-- session/session.go: `AddPeerID` and `GetPeerID`.
use dst_go.Base.{String, Option, none, some, Exec, done, blocks, if◌then◌else◌}
use dst_go.Perun.Info.{PeerId}
use dst_go.Errors.{GoError, ApiError, ApiResult, returned, refused}
use dst_go.Errors.Api.{
  new_api_err_failed_pre_condition, new_api_err_resource_not_found, new_api_err_resource_exists,
  new_api_err_invalid_argument, new_api_err_unknown_internal,
}
use dst_go.Errors.Chain.{errors_is}
use dst_go.IdProvider.{
  read_by_alias, write, err_peer_alias_already_used, err_peer_id_already_registered,
  err_parsing_off_chain_address,
}
use dst_go.Session.State.{Backend, SessionOf, err_session_closed}

-- The `switch` on the error of the ID provider.
unfoldable pub add_peer_id_error : PeerId → GoError → ApiError
add_peer_id_error p e =
    if errors_is e err_peer_alias_already_used
    then new_api_err_invalid_argument e "peerAlias" p.alias
    else if errors_is e err_peer_id_already_registered
    then new_api_err_resource_exists "peerID" p.alias
    else if errors_is e err_parsing_off_chain_address
    then new_api_err_invalid_argument e "offChainAddress" p.off_chain_addr_string
    else new_api_err_unknown_internal e

module _ (b : Backend) where
  unfoldable pub added_peer : PeerId → SessionOf b → SessionOf b × Option ApiError
  unfolding add_peer_id_error
  added_peer p s =
      let (provider, e) = write b.wallet s.id_provider p.alias p in
      (
        record s { id_provider = provider },
        elim e [ none ↦ none | some err ↦ some (add_peer_id_error p err) ],
      )

  -- `AddPeerID`
  unfoldable pub add_peer_id : PeerId → SessionOf b → Exec (SessionOf b × Option ApiError)
  unfolding added_peer
  add_peer_id p s =
      if s.session_locked
      then blocks
      else if s.is_open
      then done (added_peer p s)
      else done (s, some (new_api_err_failed_pre_condition err_session_closed))

  -- `GetPeerID`
  unfoldable pub get_peer_id : String → SessionOf b → Exec (ApiResult PeerId)
  get_peer_id alias s =
      if s.session_locked
      then blocks
      else if s.is_open
      then elim (read_by_alias s.id_provider alias) [
        | none ↦ done (refused (new_api_err_resource_not_found "peerID" alias))
        | some p ↦ done (returned p)
      ]
      else done (refused (new_api_err_failed_pre_condition err_session_closed))
