-- ===== src/Session/Failures.antt =====
-- session/session.go: how the errors of go-perun become errors of the API.
use dst_go.Base.{
  ℕ, String, List, [], ◌∷◌, Option, none, some, ◌==◌, if◌then◌else◌, ◌&◌, print_uint, refl, inl,
  inr, arith, Option-cases,
}
use dst_go.Errors.{
  GoError, with_message, tx_timedout_error, chain_not_reachable_error, request_timed_out_error,
  peer_rejected_error, funding_timeout_error, ApiError,
}
use dst_go.Errors.Api.{
  new_api_err_tx_timed_out, new_api_err_chain_not_reachable, new_api_err_unknown_internal,
  new_api_err_peer_not_funded, new_api_err_peer_request_timed_out, new_api_err_peer_rejected,
}
use dst_go.Errors.Chain.{errors_as}
use dst_go.Errors.Codes.{IsWellCoded, IsWellCoded?}

abbrev pub as_tx_timed_out : GoError → Option (String × String)
as_tx_timed_out (tx_timedout_error tx_type tx_id m) = some (tx_type, tx_id)
as_tx_timed_out _ = none

abbrev pub as_chain_not_reachable : GoError → Option (Unit {0})
as_chain_not_reachable (chain_not_reachable_error m) = some tt
as_chain_not_reachable _ = none

abbrev pub as_request_timed_out : GoError → Option (Unit {0})
as_request_timed_out (request_timed_out_error m) = some tt
as_request_timed_out _ = none

abbrev pub as_peer_rejected : GoError → Option String
as_peer_rejected (peer_rejected_error reason m) = some reason
as_peer_rejected _ = none

abbrev pub as_funding_timeout : GoError → Option (List (List ℕ))
as_funding_timeout (funding_timeout_error peers m) = some peers
as_funding_timeout _ = none

unfoldable pub handle_chain_error : String → String → GoError → Option ApiError
handle_chain_error chain_url on_chain_tx_timeout e = elim (errors_as as_tx_timed_out e) [
  | some (tx_type, tx_id) ↦ some (new_api_err_tx_timed_out e tx_type tx_id on_chain_tx_timeout)
  | none ↦ elim (errors_as as_chain_not_reachable e) [
    | some _ ↦ some (new_api_err_chain_not_reachable e chain_url)
    | none ↦ none
  ]
]

-- The tests on the peers that did not fund: one asset, one peer, and the index of the peer.
timed_out_peers : String → ℕ → GoError → List (List ℕ) → ApiError
timed_out_peers peer_alias peer_idx e ((p ∷ []) ∷ []) =
    if p == peer_idx
    then new_api_err_peer_not_funded e peer_alias
    else new_api_err_unknown_internal
        (with_message e ("index of peer must be " & print_uint peer_idx))
timed_out_peers peer_alias peer_idx e (ps ∷ []) =
    new_api_err_unknown_internal
      (with_message e "channel can contain only one participant other than self")
timed_out_peers peer_alias peer_idx e _ =
    new_api_err_unknown_internal (with_message e "channel can contain only one asset")

unfoldable pub handle_funding_timeout_error : String → ℕ → GoError → Option ApiError
unfolding timed_out_peers
handle_funding_timeout_error peer_alias peer_idx e = elim (errors_as as_funding_timeout e) [
  | some errors ↦ some (timed_out_peers peer_alias peer_idx e errors)
  | none ↦ none
]

unfoldable pub handle_proposal_error : String → String → GoError → Option ApiError
handle_proposal_error peer_alias response_timeout e = elim (errors_as as_request_timed_out e) [
  | some _ ↦ some (new_api_err_peer_request_timed_out e peer_alias response_timeout)
  | none ↦ elim (errors_as as_peer_rejected e) [
    | some reason ↦ some (new_api_err_peer_rejected e peer_alias reason)
    | none ↦ none
  ]
]

-- The first of the handlers that knows the error; otherwise the error is internal.
abbrev pub or_internal : Option ApiError → GoError → ApiError
or_internal (some a) e = a
or_internal none e = new_api_err_unknown_internal e

abbrev pub or_else : Option ApiError → Option ApiError → Option ApiError
or_else (some a) b = some a
or_else none b = b

pub handle_chain_error-IsWellCoded :
    (u t : String) (e : GoError) → IsWellCoded? (handle_chain_error u t e)
unfolding handle_chain_error new_api_err_tx_timed_out new_api_err_chain_not_reachable
handle_chain_error-IsWellCoded u t e = ground arith

timed_out_peers-IsWellCoded :
    (a : String) (i : ℕ) (e : GoError) (ps : List (List ℕ)) → IsWellCoded (timed_out_peers a i e ps)
unfolding timed_out_peers new_api_err_unknown_internal new_api_err_peer_not_funded
timed_out_peers-IsWellCoded a i e ((p ∷ []) ∷ []) = ground arith
timed_out_peers-IsWellCoded a i e [] = refl
timed_out_peers-IsWellCoded a i e ([] ∷ []) = refl
timed_out_peers-IsWellCoded a i e ((p ∷ q ∷ ps) ∷ []) = refl
timed_out_peers-IsWellCoded a i e ([] ∷ qs ∷ rest) = refl
timed_out_peers-IsWellCoded a i e ((p ∷ []) ∷ qs ∷ rest) = refl
timed_out_peers-IsWellCoded a i e ((p ∷ q ∷ ps) ∷ qs ∷ rest) = refl

pub handle_funding_timeout_error-IsWellCoded :
    (a : String) (i : ℕ) (e : GoError) → IsWellCoded? (handle_funding_timeout_error a i e)
unfolding handle_funding_timeout_error
handle_funding_timeout_error-IsWellCoded a i e =
    elim (Option-cases (errors_as as_funding_timeout e)) [
      | inl h ↦ rw (h, handle_funding_timeout_error) tt
      | inr (ps, h) ↦ rw (h, handle_funding_timeout_error) (timed_out_peers-IsWellCoded a i e ps)
    ]

pub handle_proposal_error-IsWellCoded :
    (a t : String) (e : GoError) → IsWellCoded? (handle_proposal_error a t e)
unfolding handle_proposal_error new_api_err_peer_request_timed_out new_api_err_peer_rejected
handle_proposal_error-IsWellCoded a t e = ground arith
