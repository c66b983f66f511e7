-- ===== src/Session/State/Returning.antt =====
-- session/session.go: restoring channels returns.
use dst_go.Base.{
  String, List, [], ◌∷◌, ◌++◌, All, false, Option, none, some, done, Ensures, length, ◌≤◌, ◌≡◌,
  refl, sym, subst, ap, ◌∙◌, inl, inr, arith, Bool-cases, Option-cases,
}
use dst_go.Perun.Info.{Address, PeerId, ChInfo}
use dst_go.IdProvider.{read_by_off_chain_addr}
use dst_go.Contracts.{ContractRegistry, symbol_of}
use dst_go.Channel.{Currency}
use dst_go.Channel.Balances.{make_ch_info-Returns}
use dst_go.Channel.Info.{new_ch, current_ch_info}
use dst_go.Session.ChRegistry.{put}
use dst_go.Session.Opening.{register_parts}
use dst_go.Session.State.{Backend, SessionOf}
use dst_go.Session.State.Proposals.{get_currencies}
use dst_go.Session.State.Responses.{add_ch}
use dst_go.Session.State.Starting.{Persisted}
use dst_go.Session.State.Restoring.{
  is_acting, known_peers, Registered, restored_ch, restore_for, handle_restored_ch, restore_all,
}
use dst_go.Session.State.Restored.{ch_id, Grown, GrownTo, handle_restored_ch-Grown}

-- Every symbol of the contract registry has a currency.
abbrev pub IsReadable : (String → Option Currency) → ContractRegistry → Type 0
IsReadable read r =
    (asset : Address) (s : String) → symbol_of r asset ≡ some s → (c : Currency) × (read s ≡ some c)

-- As many currencies as assets, if there are currencies.
abbrev LongAs : List Address → Option (List Currency) → Type 0
LongAs assets none = Unit
LongAs assets (some cs) = length cs ≡ length assets

get_currencies_done :
    (r : ContractRegistry) (read : String → Option Currency) (assets : List Address)
    → IsReadable read r
    → (found : Option (List Currency)) × (get_currencies r read assets ≡ done found)
      × LongAs assets found
unfolding get_currencies
get_currencies_done r read [] h = (some [], refl, refl)
get_currencies_done r read (asset ∷ assets) h = elim (Option-cases (symbol_of r asset)) [
  | inl e ↦ (none, rw (e, get_currencies) refl, tt)
  | inr (s, e) ↦ let (c, g) = h asset s e in more s c e g (get_currencies_done r read assets h)
]
  where
    more :
        (s : String) (c : Currency)
        → symbol_of r asset ≡ some s
        → read s ≡ some c
        → (found : Option (List Currency)) × (get_currencies r read assets ≡ done found)
          × LongAs assets found
        → (found : Option (List Currency)) × (get_currencies r read (asset ∷ assets) ≡ done found)
          × LongAs (asset ∷ assets) found
    more s c e g (none, q, l) = (none, rw (e, get_currencies) (rw g (rw q refl)), tt)
    more s c e g (some cs, q, l) =
        (some (c ∷ cs), rw (e, get_currencies) (rw g (rw q refl)), omega (arith, l))

module _ (b : Backend) where
  open b use {pc, wallet, read_currency}

  -- A state has an asset for every row of the balances.
  abbrev pub IsBalanced : Persisted (pc.Ctrl) → Type 0
  IsBalanced p = length (pc.pch_state p.pch).balances ≤ length (pc.pch_state p.pch).assets

  info_done :
      (s : SessionOf b) (p : Persisted (pc.Ctrl)) (parts : List PeerId) (cs : List Currency)
      → IsBalanced p
      → length cs ≡ length (pc.pch_state p.pch).assets
      → (info : ChInfo) × (current_ch_info pc (restored_ch b s p parts cs) ≡ done info)
  unfolding current_ch_info restored_ch new_ch
  info_done s p parts cs h l =
      let (infos, e, _, _, _, _, _) =
        make_ch_info-Returns (restored_ch b s p parts cs).params (pc.pch_state p.pch)
          (omega (arith, h, l)) in
      (infos, e)

  restore_for_done :
      (s : SessionOf b) (p : Persisted (pc.Ctrl)) (parts : List PeerId)
      → s.session_locked ≡ false
      → IsReadable read_currency s.contracts
      → IsBalanced p
      → (out : Registered b) × (restore_for b s p parts ≡ done out)
  unfolding restore_for add_ch
  restore_for_done s p parts free r h =
      let (found, q, l) =
        get_currencies_done s.contracts read_currency (pc.pch_state p.pch).assets r in
      by found q l
    where
      by :
          (found : Option (List Currency))
          → get_currencies s.contracts read_currency (pc.pch_state p.pch).assets ≡ done found
          → LongAs (pc.pch_state p.pch).assets found
          → (out : Registered b) × (restore_for b s p parts ≡ done out)
      by none q l = ((s, register_parts parts), rw (q, restore_for) refl)
      by (some cs) q l =
          let (info, i) = info_done s p parts cs h l in
          let ch = restored_ch b s p parts cs in
          (
            (record s { chs = put (ch_id b) s.chs ch }, register_parts parts),
            rw (q, restore_for) (rw (free, add_ch) (rw i refl)),
          )

  handle_restored_ch_done :
      (s : SessionOf b) (p : Persisted (pc.Ctrl))
      → s.session_locked ≡ false
      → IsReadable read_currency s.contracts
      → IsBalanced p
      → (out : Registered b) × (handle_restored_ch b p s ≡ done out)
  unfolding handle_restored_ch
  handle_restored_ch_done s p free r h = elim (Bool-cases (is_acting (pc.pch_phase p.pch))) [
    | inr e ↦ ((s, []), rw (e, handle_restored_ch) refl)
    | inl e ↦
        elim (Option-cases (known_peers (read_by_off_chain_addr wallet s.id_provider) p.peers)) [
          | inl u ↦ ((s, []), rw (e, handle_restored_ch) (rw u refl))
          | inr (parts, u) ↦
              let (out, q) = restore_for_done s p parts free r h in
              (out, rw (e, handle_restored_ch) (rw u q))
        ]
  ]

  -- Restoring channels whose states have an asset for every row returns, when every symbol has a
  -- currency.
  pub restore_all_done :
      (s0 s : SessionOf b) (ps : List (Persisted (pc.Ctrl)))
      → s0.session_locked ≡ false
      → IsReadable read_currency s0.contracts
      → Grown b s0 s
      → All IsBalanced ps
      → (out : Registered b) × (restore_all b ps s ≡ done out) × Grown b s0 out.0
  unfolding restore_all
  restore_all_done s0 s [] free r g h = ((s, []), refl, g)
  restore_all_done s0 s (p ∷ ps) free r g (h, hs) =
      let (out, q) =
        handle_restored_ch_done s p (ap (λ (x : SessionOf b). x.session_locked) g.rest_stays ∙ free)
          (subst (IsReadable read_currency)
            (sym (ap (λ (x : SessionOf b). x.contracts) g.rest_stays)) r)
          h in
      let (out', q', g') =
        restore_all_done s0 out.0 ps free r (of out q (handle_restored_ch-Grown b s0 s p g)) hs in
      ((out'.0, out.1 ++ out'.1), rw q (rw q' refl), g')
    where
      of :
          (out : Registered b)
          → handle_restored_ch b p s ≡ done out
          → Ensures (GrownTo b s0) (handle_restored_ch b p s)
          → Grown b s0 out.0
      of out q k = rw q at k
