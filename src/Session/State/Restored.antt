-- ===== src/Session/State/Restored.antt =====
-- session/session.go: the channels that are restored to a session.
use dst_go.Base.{
  String, List, [], ◌∷◌, All, All-append_one, true, false, Option, none, some, Exec, done, ◌>>=◌,
  Ensures, Ensures->>=, ◌≡◌, refl, sym, subst, ap, inl, inr, arith, Bool-cases, Option-cases,
}
use dst_go.Perun.Info.{PeerId, ChInfo}
use dst_go.IdProvider.{read_by_off_chain_addr}
use dst_go.Contracts.{ContractRegistry}
use dst_go.Channel.{open_ch, Currency}
use dst_go.Channel.Info.{new_ch, current_ch_info}
use dst_go.Channel.Updates.{Ch}
use dst_go.Session.ChRegistry.{put}
use dst_go.Session.ChRegistry.Laws.{IsIndexed, put-IsIndexed, IsFound, put-IsFound}
use dst_go.Session.Opening.{register_parts}
use dst_go.Session.State.{Backend, SessionOf}
use dst_go.Session.State.Proposals.{get_currencies}
use dst_go.Session.State.Responses.{add_ch}
use dst_go.Session.State.Starting.{Persisted}
use dst_go.Session.State.Restoring.{
  is_acting, known_peers, Registered, restored_ch, restore_for, handle_restored_ch, restore_all,
}

module _ (b : Backend) where
  open b use {pc, wallet, read_currency}

  abbrev pub ch_id : Ch pc → String
  ch_id ch = ch.params.id

  -- A channel as it comes out of the database.
  pub record IsRestored (contracts : ContractRegistry) (ch : Ch pc) : Type 0 where
    pub acts : is_acting (pc.pch_phase ch.pch) ≡ true
    pub opens : ch.status ≡ open_ch
    pub free : ch.locked ≡ false
    pub unwatched : ch.notifier ≡ none
    pub known_assets :
        get_currencies contracts read_currency (pc.pch_state ch.pch).assets
        ≡ done (some ch.params.currencies)
    pub shown : (info : ChInfo) × (current_ch_info pc ch ≡ done info)

  -- Channels were restored to a session, and nothing else has changed in it.
  pub record Grown (s0 s : SessionOf b) : Type 0 where
    pub rest_stays : s ≡ record s0 { chs = s.chs }
    pub indexed : IsIndexed ch_id s.chs
    pub all_found : All (IsFound ch_id s.chs) s.chs.chs
    pub all_restored : All (IsRestored s0.contracts) s.chs.chs

  add_ch_done :
      (ch : Ch pc) (s s' : SessionOf b)
      → add_ch b ch s ≡ done s'
      → s' ≡ record s { chs = put ch_id s.chs ch }
  unfolding add_ch
  add_ch_done ch s s' e = ground arith

  put_restored :
      (s0 s : SessionOf b) (ch : Ch pc)
      → Grown s0 s
      → IsRestored s0.contracts ch
      → Grown s0 (record s { chs = put ch_id s.chs ch })
  unfolding put
  put_restored s0 s ch g r = record {
    rest_stays = ap (λ (x : SessionOf b). record x { chs = put ch_id s.chs ch }) g.rest_stays;
    indexed = put-IsIndexed ch_id s.chs ch g.indexed;
    all_found = put-IsFound ch_id s.chs ch g.indexed g.all_found;
    all_restored = All-append_one (IsRestored s0.contracts) s.chs.chs ch g.all_restored r;
  }

  restored_ch-IsRestored :
      (s : SessionOf b) (p : Persisted (pc.Ctrl)) (parts : List PeerId) (cs : List Currency)
      (info : ChInfo)
      → is_acting (pc.pch_phase p.pch) ≡ true
      → get_currencies s.contracts read_currency (pc.pch_state p.pch).assets ≡ done (some cs)
      → current_ch_info pc (restored_ch b s p parts cs) ≡ done info
      → IsRestored s.contracts (restored_ch b s p parts cs)
  unfolding restored_ch new_ch
  restored_ch-IsRestored s p parts cs info a c i = record {
    acts = a;
    opens = refl;
    free = refl;
    unwatched = refl;
    known_assets = c;
    shown = (info, i);
  }

  same_contracts : (s0 s : SessionOf b) → Grown s0 s → s.contracts ≡ s0.contracts
  same_contracts s0 s g = ap (λ (x : SessionOf b). x.contracts) g.rest_stays

  -- A session with the calls of `Register`.
  abbrev pub GrownTo : SessionOf b → Registered b → Type 0
  GrownTo s0 out = Grown s0 out.0

  restore_for-Grown :
      (s0 s : SessionOf b) (p : Persisted (pc.Ctrl)) (parts : List PeerId)
      → Grown s0 s
      → is_acting (pc.pch_phase p.pch) ≡ true
      → Ensures (GrownTo s0) (restore_for b s p parts)
  unfolding restore_for
  restore_for-Grown s0 s p parts g a =
      Ensures->>= (GrownTo s0)
        (get_currencies s.contracts read_currency (pc.pch_state p.pch).assets) _
        (λ found q. by found q)
    where
      by :
          (found : Option (List Currency))
          → get_currencies s.contracts read_currency (pc.pch_state p.pch).assets ≡ done found
          → Ensures (GrownTo s0) (elim found [
            | none ↦ done (s, register_parts parts)
            | some currencies ↦
                (add_ch b (restored_ch b s p parts currencies) s >>= λ s'.
                current_ch_info pc (restored_ch b s p parts currencies) >>= λ info.
                done (s', register_parts parts))
          ])
      by none q = g
      by (some cs) q = Ensures->>= (GrownTo s0) (add_ch b (restored_ch b s p parts cs) s) _ (λ s' e.
          Ensures->>= (GrownTo s0) (current_ch_info pc (restored_ch b s p parts cs)) _ (λ info i.
            subst (Grown s0) (sym (add_ch_done (restored_ch b s p parts cs) s s' e)) (
              put_restored s0 s _ g (
                subst (λ c. IsRestored c (restored_ch b s p parts cs)) (same_contracts s0 s g)
                  (restored_ch-IsRestored s p parts cs info a q i)))))

  pub handle_restored_ch-Grown :
      (s0 s : SessionOf b) (p : Persisted (pc.Ctrl))
      → Grown s0 s
      → Ensures (GrownTo s0) (handle_restored_ch b p s)
  unfolding handle_restored_ch
  handle_restored_ch-Grown s0 s p g = elim (Bool-cases (is_acting (pc.pch_phase p.pch))) [
    | inr e ↦ rw (e, handle_restored_ch) g
    | inl e ↦
        elim (Option-cases (known_peers (read_by_off_chain_addr wallet s.id_provider) p.peers)) [
          | inl u ↦ rw (e, handle_restored_ch) (rw u g)
          | inr (parts, u) ↦ rw (e, handle_restored_ch) (rw u (restore_for-Grown s0 s p parts g e))
        ]
  ]

  pub restore_all-Grown :
      (s0 s : SessionOf b) (ps : List (Persisted (pc.Ctrl)))
      → Grown s0 s
      → Ensures (GrownTo s0) (restore_all b ps s)
  unfolding restore_all
  restore_all-Grown s0 s [] g = g
  restore_all-Grown s0 s (p ∷ ps) g =
      Ensures->>= (GrownTo s0) (handle_restored_ch b p s) _ (λ out q.
        Ensures->>= (GrownTo s0) (restore_all b ps out.0) _ (λ out' q'.
          of (restore_all b ps out.0) out' q'
            (restore_all-Grown s0 out.0 ps (of _ out q (handle_restored_ch-Grown s0 s p g)))))
    where
      of :
          (m : Exec (Registered b)) (out : Registered b)
          → m ≡ done out
          → Ensures (GrownTo s0) m
          → Grown s0 out.0
      of m out q h = rw q at h
