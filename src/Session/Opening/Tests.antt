-- ===== src/Session/Opening/Tests.antt =====
-- Opening a channel (session/session.go) at concrete inputs.
use dst_go.Base.{
  ℕ, String, [], ◌∷◌, Option, some, pos, Exec, done, Returns, length, ◌≡◌, refl, ◌↔◌, inl, inr,
}
use dst_go.Perun.Info.{Address, PeerId, BalInfo, own_alias}
use dst_go.Errors.{ok, returned}
use dst_go.Channel.{Currency}
use dst_go.Session.Opening.{retrieve_part_ids, sanitize_bal_info}
use dst_go.Session.Opening.Parts.{ReadAs, AllDifferent, Occurs, retrieve_part_ids_iff}
use dst_go.Session.Opening.Order.{Sanitized, sanitize_bal_info-Sanitized}
use dst_go.Session.Opening.Allocations.{
  Allocation, make_allocation, make_entries, make_entry, parse_with, parse_row, allocation_of,
}
use dst_go.Session.Opening.Amounts.{Allocated, make_allocation-Allocated}

abbrev peer : String → PeerId
peer alias = record {
  alias = alias;
  off_chain_addr = 1 ∷ [];
  off_chain_addr_string = "0x01";
  comm_addr = "127.0.0.1:5751";
  comm_type = "tcpip";
}

abbrev know_all : String → Option PeerId
know_all alias = some (peer alias)

abbrev bob_first : BalInfo
bob_first = record {
  currencies = "ETH" ∷ [];
  parts = "bob" ∷ "self" ∷ [];
  bals = ("3" ∷ "7" ∷ []) ∷ [];
}

retrieve_part_ids_iff_example :
    (retrieve_part_ids ("bob" ∷ "self" ∷ []) know_all ≡ returned (peer "bob" ∷ peer "self" ∷ []))
    ↔ (ReadAs know_all ("bob" ∷ "self" ∷ []) (peer "bob" ∷ peer "self" ∷ [])
        × AllDifferent ("bob" ∷ "self" ∷ [])
        × Occurs own_alias ("bob" ∷ "self" ∷ []))
retrieve_part_ids_iff_example =
    retrieve_part_ids_iff ("bob" ∷ "self" ∷ []) know_all (peer "bob" ∷ peer "self" ∷ [])

sanitize_bal_info-Sanitized_example :
    (i : ℕ) × Returns (Sanitized i bob_first) (sanitize_bal_info bob_first)
sanitize_bal_info-Sanitized_example =
    sanitize_bal_info-Sanitized bob_first (inr (inl refl)) (refl, tt)

-- A currency in which every amount is two.
abbrev twos : Currency
twos = record { symbol = "ETH"; parse = λ s. ok (pos 2); print = λ n. "2" }

abbrev read_asset : String → Exec (Option Address)
read_asset s = done (some (9 ∷ []))

abbrev read_currency : String → Option Currency
read_currency s = some twos

abbrev allocation : Allocation
allocation = record { assets = (9 ∷ []) ∷ []; balances = (pos 2 ∷ pos 2 ∷ []) ∷ [] }

allocated :
    make_allocation read_asset read_currency bob_first
    ≡ done (returned (some twos ∷ [], allocation))
unfolding make_allocation make_entries make_entry parse_with parse_row allocation_of
allocated = refl

make_allocation-Allocated_example :
    (length bob_first.currencies ≡ length bob_first.bals)
    × Allocated read_asset read_currency bob_first.currencies bob_first.bals
        (some twos ∷ [])
        allocation.assets
        allocation.balances
make_allocation-Allocated_example =
    make_allocation-Allocated read_asset read_currency bob_first (some twos ∷ []) allocation
      allocated
