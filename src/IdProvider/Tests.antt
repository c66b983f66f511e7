-- ===== src/IdProvider/Tests.antt =====
-- The ID provider (idprovider/local/cache.go) at concrete inputs.
use dst_go.Base.{[], ◌∷◌, none, some, ◌≡◌, refl, arith, eq_iff, ◌≢◌, subst, ap, lookup, insert}
use dst_go.Perun.Info.{PeerId}
use dst_go.Errors.{ok}
use dst_go.IdProvider.{IdProviderCache, WalletBackend, read_by_addr_string, write, delete}
use dst_go.IdProvider.Laws.{IsIndexed, write-IsIndexed, stale_address}

abbrev toy_wallet : WalletBackend
toy_wallet = record { parse_addr = λ s. ok (1 ∷ []); addr_string = λ a. "0x01" }

abbrev empty : IdProviderCache
empty = record { peer_ids_by_alias = []; alias_by_addr = [] }

abbrev bob : PeerId
bob = record {
  alias = "bob";
  off_chain_addr = [];
  off_chain_addr_string = "0x01";
  comm_type = "tcpip";
  comm_addr = "127.0.0.1:5751";
}

abbrev other_bob : PeerId
other_bob = record bob { off_chain_addr_string = "0x02" }

abbrev parsed : PeerId → PeerId
parsed p = record p { off_chain_addr = 1 ∷ [] }

abbrev with_bob : IdProviderCache
with_bob = record {
  peer_ids_by_alias = ("bob", parsed bob) ∷ [];
  alias_by_addr = ("0x01", "bob") ∷ [];
}

empty-IsIndexed : IsIndexed empty
unfolding lookup
empty-IsIndexed addr alias e = cc

written : write toy_wallet empty "bob" bob ≡ (with_bob, none)
unfolding write lookup insert
written = refl

with_bob-IsIndexed : IsIndexed with_bob
with_bob-IsIndexed =
    subst (λ d. IsIndexed d) (ap (λ x. x.0) written)
      (write-IsIndexed toy_wallet empty "bob" bob empty-IsIndexed)

found : lookup "0x01" with_bob.alias_by_addr ≡ some "bob"
unfolding lookup
found = refl

differs : other_bob.off_chain_addr_string ≢ "0x01"
differs e = ground (arith, eq_iff "0x02" "0x01", e)

stale_address_example :
    read_by_addr_string (write toy_wallet (delete with_bob "bob").0 "bob" other_bob).0 "0x01"
    ≡ some (parsed other_bob)
stale_address_example =
    stale_address toy_wallet with_bob "bob" "0x01" other_bob (1 ∷ []) with_bob-IsIndexed found
      differs refl
