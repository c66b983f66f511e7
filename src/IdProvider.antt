-- ===== src/IdProvider.antt =====
-- idprovider/local/cache.go and peer.go: the peers that a user knows, by alias and by address. The
-- wallet backend, which reads and prints addresses, is a parameter.
pub mod Laws
mod Tests
use dst_go.Base.{
  String, List, [], ◌∷◌, Option, none, some, Bool, ◌&&◌, str_eq, insert, lookup, erase,
  if◌then◌else◌,
}
use dst_go.Perun.Info.{Address, PeerId}
use dst_go.Errors.{GoError, text, with_message, Fallible, ok, fail}
use dst_go.Errors.Chain.{error_string}

abbrev pub err_peer_alias_already_used : String
err_peer_alias_already_used = "peer alias is already used for another peer id"

abbrev pub err_peer_id_already_registered : String
err_peer_id_already_registered = "peer id already regsitered"

abbrev pub err_parsing_off_chain_address : String
err_parsing_off_chain_address = "parsing off-chain address"

pub record IdProviderCache : Type 0 where
  pub peer_ids_by_alias : List (String × PeerId)
  pub alias_by_addr : List (String × String)

-- `PeerIDEqual`: all fields but the parsed address.
unfoldable pub peer_id_equal : PeerId → PeerId → Bool
peer_id_equal p q =
    str_eq p.alias q.alias
    && (str_eq p.off_chain_addr_string q.off_chain_addr_string
        && (str_eq p.comm_type q.comm_type && str_eq p.comm_addr q.comm_addr))

unfoldable pub read_by_alias : IdProviderCache → String → Option PeerId
read_by_alias c alias = lookup alias c.peer_ids_by_alias

-- `ReadByOffChainAddr`, for the text of an address that is not nil.
unfoldable pub read_by_addr_string : IdProviderCache → String → Option PeerId
unfolding read_by_alias
read_by_addr_string c addr = elim (lookup addr c.alias_by_addr) [
  | none ↦ none
  | some alias ↦ read_by_alias c alias
]

-- `Delete`: the entry of the address stays.
unfoldable pub delete : IdProviderCache → String → IdProviderCache × Option GoError
delete c alias = elim (lookup alias c.peer_ids_by_alias) [
  | none ↦ (c, some (text "peer not found in ID Provider"))
  | some _ ↦ (record c { peer_ids_by_alias = erase alias c.peer_ids_by_alias }, none)
]

-- `pwallet`'s part of `perun.WalletBackend`.
pub record WalletBackend : Type 0 where
  pub parse_addr : String → Fallible Address
  pub addr_string : Address → String

module _ (wb : WalletBackend) where
  open wb use {parse_addr, addr_string}

  unfoldable pub read_by_off_chain_addr : IdProviderCache → Address → Option PeerId
  unfolding read_by_addr_string
  read_by_off_chain_addr c addr = read_by_addr_string c (addr_string addr)

  unfoldable pub store : IdProviderCache → String → PeerId → Address → IdProviderCache
  store c alias p addr = record {
    peer_ids_by_alias = insert alias (record p { off_chain_addr = addr }) c.peer_ids_by_alias;
    alias_by_addr = insert p.off_chain_addr_string alias c.alias_by_addr;
  }

  unfoldable pub write : IdProviderCache → String → PeerId → IdProviderCache × Option GoError
  unfolding store
  write c alias p = elim (lookup alias c.peer_ids_by_alias) [
    | some old ↦ (
      c,
      some (
          text (
            if peer_id_equal old p
            then err_peer_id_already_registered
            else err_peer_alias_already_used)),
    )
    | none ↦ elim (parse_addr p.off_chain_addr_string) [
      | fail e ↦ (c, some (with_message (text err_parsing_off_chain_address) (error_string e)))
      | ok addr ↦ (store c alias p addr, none)
    ]
  ]

  -- `newIDProviderCache`, over the entries of the map in the order in which they are visited.
  unfoldable pub new_cache_from :
      List (String × PeerId) → IdProviderCache → Fallible IdProviderCache
  new_cache_from [] c = ok c
  new_cache_from ((alias, p) ∷ rest) c = elim (parse_addr p.off_chain_addr_string) [
    | fail e ↦ fail e
    | ok addr ↦ new_cache_from rest (record {
      peer_ids_by_alias = insert alias (record p { off_chain_addr = addr }) c.peer_ids_by_alias;
      alias_by_addr = insert p.off_chain_addr_string p.alias c.alias_by_addr;
    })
  ]
