-- ===== src/Session/Opening.antt =====
-- session/session.go: what opening a channel makes of the balance info that it is given: the order
-- of the participants, their peer IDs, and the allocation.
pub mod Order
pub mod Parts
pub mod Allocations
pub mod Amounts
mod Tests
use dst_go.Base.{
  ℕ, zero, suc, String, List, [], ◌∷◌, ◌++◌, map, Bool, true, false, ◌||◌, Option, none, some, ℤ,
  Exec, done, panic, blocks, ◌>>=◌, or_panic, get_elem?, set, length, insert, lookup, str_eq, ◌==◌,
  join, if◌then◌else◌,
}
use dst_go.Perun.Info.{Address, PeerId, BalInfo, own_alias}
use dst_go.Errors.{
  GoError, text, with_message, ApiError, Fallible, ok, fail, ApiResult, returned, refused,
}
use dst_go.Errors.Api.{
  new_api_err_resource_not_found, new_api_err_invalid_argument, new_api_err_unknown_internal,
}
use dst_go.Channel.{Currency}
use dst_go.Session.Failures.{
  handle_chain_error, handle_funding_timeout_error, handle_proposal_error, or_else, or_internal,
}

abbrev pub err_repeated_peer_alias : GoError
err_repeated_peer_alias = text "found repeated entries but each value should be unique"

abbrev pub err_entry_for_self_not_found : GoError
err_entry_for_self_not_found = text "own peer alias (self) not found"

-- The loop of `sanitizeBalInfo` over the participants from `idx` on: the last place of the own
-- alias, or `own` where there is none.
unfoldable pub own_idx_from : ℕ → List String → ℕ → ℕ
own_idx_from idx [] own = own
own_idx_from idx (part ∷ parts) own =
    own_idx_from (suc idx) parts (if str_eq part own_alias then idx else own)

-- A row with the entries at the index and at 0 exchanged.
unfoldable pub to_front : ℕ → List String → Exec (List String)
to_front own_idx row = do
  own_amount ← or_panic (get_elem? row own_idx)
  first ← or_panic (get_elem? row 0)
  done (set (set row own_idx first) 0 own_amount)

unfoldable pub rows_to_front : ℕ → List (List String) → Exec (List (List String))
unfolding to_front
rows_to_front own_idx [] = done []
rows_to_front own_idx (row ∷ rows) = do
  row' ← to_front own_idx row
  rows' ← rows_to_front own_idx rows
  done (row' ∷ rows')

unfoldable pub sanitize_at : ℕ → BalInfo → Exec BalInfo
unfolding rows_to_front
sanitize_at zero b = done b
sanitize_at (suc i) b = do
  first ← or_panic (get_elem? b.parts 0)
  rows ← rows_to_front (suc i) b.bals
  done (record b { parts = set (set b.parts (suc i) first) 0 own_alias; bals = rows })

-- `sanitizeBalInfo`, which changes the lists in place.
unfoldable pub sanitize_bal_info : BalInfo → Exec BalInfo
unfolding own_idx_from sanitize_at
sanitize_bal_info b = sanitize_at (own_idx_from 0 b.parts 0) b

-- The variables of the loop of `retrievePartIDs`. `part_ids` has the IDs of the aliases that are
-- known; where one is missing the whole list is dropped.
pub record PartsFound : Type 0 where
  pub known_parts : List (String × PeerId)
  pub part_ids : List PeerId
  pub missing_parts : List String
  pub repeated_parts : List String
  pub found_own_alias : Bool

-- One round of the loop, for an alias and what the ID provider has for it.
unfoldable pub find_part : String → Option PeerId → PartsFound → PartsFound
find_part alias none f = record f {
  missing_parts = f.missing_parts ++ alias ∷ [];
  found_own_alias = f.found_own_alias || str_eq alias own_alias;
}
find_part alias (some p) f = record {
  known_parts = insert alias p f.known_parts;
  part_ids = f.part_ids ++ p ∷ [];
  missing_parts = f.missing_parts;
  repeated_parts = elim (lookup alias f.known_parts) [
    | none ↦ f.repeated_parts
    | some q ↦ f.repeated_parts ++ alias ∷ []
  ];
  found_own_alias = f.found_own_alias || str_eq alias own_alias;
}

unfoldable pub find_parts : (String → Option PeerId) → List String → PartsFound → PartsFound
unfolding find_part
find_parts read [] f = f
find_parts read (alias ∷ aliases) f = find_parts read aliases (find_part alias (read alias) f)

-- The tests behind the loop, in their order.
unfoldable pub judge_parts : List String → PartsFound → ApiResult (List PeerId)
judge_parts aliases f = elim f.missing_parts [
  | m ∷ ms ↦ refused (new_api_err_resource_not_found "peerID" (join (m ∷ ms) ","))
  | [] ↦ elim f.repeated_parts [
    | r ∷ rs ↦
        refused
          (new_api_err_invalid_argument err_repeated_peer_alias "peerAlias" (join aliases ","))
    | [] ↦
        if f.found_own_alias
        then returned f.part_ids
        else refused (
            new_api_err_invalid_argument err_entry_for_self_not_found "peerAlias"
              (join aliases ","))
  ]
]

abbrev pub none_found : PartsFound
none_found = record {
  known_parts = [];
  part_ids = [];
  missing_parts = [];
  repeated_parts = [];
  found_own_alias = false;
}

-- `retrievePartIDs`, for the reader of an ID provider.
unfoldable pub retrieve_part_ids : List String → (String → Option PeerId) → ApiResult (List PeerId)
unfolding find_parts judge_parts
retrieve_part_ids aliases read = judge_parts aliases (find_parts read aliases none_found)

-- `registerParts`: the calls of `Register` that it makes, in their order.
unfoldable pub register_parts : List PeerId → List (Address × String)
register_parts [] = []
register_parts (p ∷ ps) =
    let rest = register_parts ps in
    if str_eq p.alias own_alias then rest else (p.off_chain_addr, p.comm_addr) ∷ rest

-- `makeOffChainAddrs`
unfoldable pub make_off_chain_addrs : List PeerId → List Address
make_off_chain_addrs part_ids = map (λ p. p.off_chain_addr) part_ids

-- `handleProposeChError`: the proposee is at index 1 of the participants.
unfoldable pub handle_propose_ch_error :
    String → String → String → List String → GoError → Exec ApiError
handle_propose_ch_error chain_url on_chain_tx response parts e =
    elim (handle_chain_error chain_url on_chain_tx e) [
      | some a ↦ done a
      | none ↦ or_panic (get_elem? parts 1) >>= λ peer. done (
          or_internal
            (or_else (handle_funding_timeout_error peer 1 e)
              (handle_proposal_error peer response e))
            e)
    ]
