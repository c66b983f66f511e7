-- ===== src/IdProvider/Laws.antt =====
-- idprovider/local/cache.go: writing, reading and deleting peers.
use dst_go.Base.{
  String, none, some, str_eq, lookup, erase, lookup-insert, lookup-insert_self, lookup-erase_self,
  if◌then◌else◌, ◌≡◌, refl, ◌≢◌, inl, inr, arith, eq_iff, Option-cases, Bool-cases,
}
use dst_go.Perun.Info.{Address, PeerId}
use dst_go.Errors.{text, ok, Fallible-cases}
use dst_go.IdProvider.{
  IdProviderCache, WalletBackend, peer_id_equal, read_by_alias, read_by_addr_string, write, store,
  delete, err_peer_alias_already_used, err_peer_id_already_registered,
}

-- Every address in the index leads to a peer with this address.
abbrev pub IsIndexed : IdProviderCache → Type 0
IsIndexed c =
    (addr alias : String)
    → lookup addr c.alias_by_addr ≡ some alias
    → (p : PeerId) × (lookup alias c.peer_ids_by_alias ≡ some p) × (p.off_chain_addr_string ≡ addr)

module _ (wb : WalletBackend) where
  write_new :
      (c : IdProviderCache) (alias : String) (p : PeerId) (addr : Address)
      → lookup alias c.peer_ids_by_alias ≡ none
      → wb.parse_addr p.off_chain_addr_string ≡ ok addr
      → write wb c alias p ≡ (store wb c alias p addr, none)
  unfolding write
  write_new c alias p addr fresh parsed = ground arith

  store-read :
      (c : IdProviderCache) (alias other : String) (p : PeerId) (addr : Address)
      → let d = store wb c alias p addr in
        (read_by_alias d alias ≡ some (record p { off_chain_addr = addr }))
        × (read_by_addr_string d p.off_chain_addr_string
            ≡ some (record p { off_chain_addr = addr }))
        × (read_by_alias d other ≡ (
            if str_eq alias other
            then some (record p { off_chain_addr = addr })
            else read_by_alias c other))
  unfolding read_by_alias read_by_addr_string store
  store-read c alias other p addr =
      let q = record p { off_chain_addr = addr } in
      (
        lookup-insert_self alias q c.peer_ids_by_alias,
        ground (
          arith,
          lookup-insert_self p.off_chain_addr_string alias c.alias_by_addr,
          lookup-insert_self alias q c.peer_ids_by_alias,
        ),
        lookup-insert alias other q c.peer_ids_by_alias,
      )

  store-IsIndexed :
      (c : IdProviderCache) (alias : String) (p : PeerId) (addr : Address)
      → lookup alias c.peer_ids_by_alias ≡ none
      → IsIndexed c
      → IsIndexed (store wb c alias p addr)
  unfolding store
  store-IsIndexed c alias p addr fresh v key other e =
      elim (Bool-cases (str_eq p.off_chain_addr_string key)) [
        | inl h ↦
            let q = record p { off_chain_addr = addr } in
            let same : alias ≡ other =
              ground (arith, lookup-insert p.off_chain_addr_string key alias c.alias_by_addr) in
            (
              q,
              rw (← same) (lookup-insert_self alias q c.peer_ids_by_alias),
              (eq_iff p.off_chain_addr_string key).0 h,
            )
        | inr h ↦
            let (q, found, at) =
              v key other
                (ground (arith, lookup-insert p.off_chain_addr_string key alias c.alias_by_addr)) in
            (
              q,
              ground (
                arith,
                lookup-insert alias other (record p { off_chain_addr = addr }) c.peer_ids_by_alias,
                eq_iff alias other,
              ),
              at,
            )
      ]

  -- A new alias with an address that can be read is found by its alias, with the address read in,
  -- and by its address; another alias reads as before.
  pub write-read :
      (c : IdProviderCache) (alias other : String) (p : PeerId) (addr : Address)
      → read_by_alias c alias ≡ none
      → wb.parse_addr p.off_chain_addr_string ≡ ok addr
      → let (d, e) = write wb c alias p in
        (e ≡ none)
        × (read_by_alias d alias ≡ some (record p { off_chain_addr = addr }))
        × (read_by_addr_string d p.off_chain_addr_string
            ≡ some (record p { off_chain_addr = addr }))
        × (read_by_alias d other ≡ (
            if str_eq alias other
            then some (record p { off_chain_addr = addr })
            else read_by_alias c other))
  unfolding read_by_alias
  write-read c alias other p addr fresh parsed =
      let (a, b, o) = store-read c alias other p addr in
      rw (write_new c alias p addr fresh parsed) (refl, a, b, o)

  -- An alias that is known is not written: the error tells whether it is for the same peer.
  pub write_known :
      (c : IdProviderCache) (alias : String) (p old : PeerId)
      → read_by_alias c alias ≡ some old
      → write wb c alias p ≡ (
        c,
        some (
            text (
              if peer_id_equal old p
              then err_peer_id_already_registered
              else err_peer_alias_already_used)),
      )
  unfolding read_by_alias write
  write_known c alias p old e = ground arith

  -- Writing keeps the index of addresses right, on every branch.
  pub write-IsIndexed :
      (c : IdProviderCache) (alias : String) (p : PeerId)
      → IsIndexed c
      → IsIndexed (write wb c alias p).0
  unfolding write
  write-IsIndexed c alias p v = elim (Option-cases (lookup alias c.peer_ids_by_alias)) [
    | inr (old, e) ↦ rw (e, write) v
    | inl fresh ↦ elim (Fallible-cases (wb.parse_addr p.off_chain_addr_string)) [
      | inl (addr, e) ↦
          rw (write_new c alias p addr fresh e) (store-IsIndexed c alias p addr fresh v)
      | inr (err, e) ↦ rw (fresh, write) (rw e v)
    ]
  ]

  -- A deleted alias that is given to a peer with another address leaves the old address in the
  -- index: looking the old address up finds the new peer, whose address is another one.
  pub stale_address :
      (c : IdProviderCache) (alias old_addr : String) (q : PeerId) (addr : Address)
      → IsIndexed c
      → lookup old_addr c.alias_by_addr ≡ some alias
      → q.off_chain_addr_string ≢ old_addr
      → wb.parse_addr q.off_chain_addr_string ≡ ok addr
      → read_by_addr_string (write wb (delete c alias).0 alias q).0 old_addr
        ≡ some (record q { off_chain_addr = addr })
  unfolding read_by_alias read_by_addr_string delete store
  stale_address c alias old_addr q addr v e ne parsed =
      let (p, found, at) = v old_addr alias e in
      let gone = record c { peer_ids_by_alias = erase alias c.peer_ids_by_alias } in
      let fresh = lookup-erase_self alias c.peer_ids_by_alias in
      let q' = record q { off_chain_addr = addr } in
      rw (found, delete)
        (rw (write_new gone alias q addr fresh parsed) (
          ground (
            arith,
            lookup-insert q.off_chain_addr_string old_addr alias c.alias_by_addr,
            eq_iff q.off_chain_addr_string old_addr,
            lookup-insert_self alias q' gone.peer_ids_by_alias,
          )))
