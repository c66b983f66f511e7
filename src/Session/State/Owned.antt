-- ===== src/Session/State/Owned.antt =====
-- session/session.go, session/user.go: the own entry in the ID provider of a session.
use dst_go.Base.{
  String, [], none, some, str_eq, ◌≡◌, lookup, inl, inr, arith, Bool-cases, Option-cases,
}
use dst_go.Perun.Info.{Address, PeerId, own_alias}
use dst_go.Errors.{ApiResult, returned, refused, Fallible, ok, fail, Fallible-cases}
use dst_go.Errors.Api.{new_api_err_invalid_config}
use dst_go.IdProvider.{IdProviderCache, read_by_alias, write, new_cache_from}
use dst_go.IdProvider.Laws.{write-read}
use dst_go.Session.State.{Backend}
use dst_go.Session.State.Starting.{
  Config, Host, User, new_cred, user_of, new_unlocked_user, with_own, init_id_provider,
}

module _ (b : Backend) where
  open b use {wallet}

  module _ (host : Host b) where
    -- The own entry of an ID provider.
    abbrev pub HasOwn : Config → IdProviderCache → Type 0
    HasOwn cfg c =
        (p : PeerId) × (read_by_alias c own_alias ≡ some p) × (p.comm_addr ≡ cfg.user.comm_addr)

    -- The own entry of an ID provider that was made.
    unfoldable pub Owns : Config → ApiResult IdProviderCache → Type 0
    Owns cfg (refused e) = Unit
    Owns cfg (returned c) = HasOwn cfg c

    -- A peer that was written is new, and its address can be read.
    write_ok :
        (c : IdProviderCache) (alias : String) (p : PeerId)
        → (write wallet c alias p).1 ≡ none
        → (read_by_alias c alias ≡ none)
          × (addr : Address) × (wallet.parse_addr p.off_chain_addr_string ≡ ok addr)
    unfolding write read_by_alias
    write_ok c alias p e = elim (Option-cases (lookup alias c.peer_ids_by_alias)) [
      | inr (old, h) ↦ absurd (ground arith)
      | inl h ↦ elim (Fallible-cases (wallet.parse_addr p.off_chain_addr_string)) [
        | inr (err, g) ↦ absurd (ground arith)
        | inl (addr, g) ↦ (h, addr, g)
      ]
    ]

    with_own-Owns :
        (cfg : Config) (url : String) (own : PeerId) (c : IdProviderCache)
        → own.comm_addr ≡ cfg.user.comm_addr
        → Owns cfg (with_own b host url own c)
    unfolding Owns with_own
    with_own-Owns cfg url own c e =
        let own' = record own { alias = own_alias } in
        elim (Option-cases (write wallet c own_alias own').1) [
          | inr (err, h) ↦ rw (h, with_own) tt
          | inl h ↦
              let (fresh, addr, parsed) = write_ok c own_alias own' h in
              rw (h, with_own)
                (
                  record own' { off_chain_addr = addr },
                  (write-read wallet c own_alias own_alias own' addr fresh parsed).1,
                  e,
                )
        ]

    pub init_id_provider-Owns :
        (cfg : Config) (type url : String) (own : PeerId)
        → own.comm_addr ≡ cfg.user.comm_addr
        → Owns cfg (init_id_provider b host type url own)
    unfolding init_id_provider Owns
    init_id_provider-Owns cfg type url own e = elim (Bool-cases (str_eq type "local")) [
      | inr h ↦ rw (h, init_id_provider) tt
      | inl h ↦ elim (Fallible-cases (host.read_id_file url)) [
        | inr (x, g) ↦ rw (h, init_id_provider) (rw g tt)
        | inl (entries, g) ↦
            rw (h, init_id_provider)
              (rw g (
                provider (
                  new_cache_from wallet entries
                    (record { peer_ids_by_alias = []; alias_by_addr = [] }))))
      ]
    ]
      where
        provider :
            (made : Fallible IdProviderCache)
            → Owns cfg (elim made [
              | fail x ↦ refused (new_api_err_invalid_config x "idProviderURL" url)
              | ok cache ↦ with_own b host url own cache
            ])
        provider (fail x) = tt
        provider (ok cache) = with_own-Owns cfg url own cache e

    pub user_comm :
        (cfg : Config) (user : User b host)
        → new_unlocked_user b host cfg.user ≡ returned user
        → user.peer_id.comm_addr ≡ cfg.user.comm_addr
    unfolding new_unlocked_user user_of
    user_comm cfg user e = elim (Fallible-cases (wallet.parse_addr cfg.user.on_chain_addr)) [
      | inr (x, h) ↦ absurd (ground arith)
      | inl (on_addr, h) ↦ elim (Fallible-cases (wallet.parse_addr cfg.user.off_chain_addr)) [
        | inr (x, g) ↦ absurd (ground arith)
        | inl (off_addr, g) ↦
            elim (Fallible-cases (new_cred b host cfg.user.on_chain_wallet on_addr)) [
              | inr (x, k) ↦ absurd (ground arith)
              | inl (on_chain, k) ↦
                  elim (Fallible-cases (new_cred b host cfg.user.off_chain_wallet off_addr)) [
                    | inr (x, l) ↦ absurd (ground arith)
                    | inl (off_chain, l) ↦ ground arith
                  ]
            ]
      ]
    ]
