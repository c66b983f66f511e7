-- ===== src/Tui/Rows.antt =====
-- cmd/perunnodetui/: the rows of the table under commands and notifications.
use dst_go.Base.{
  ℕ, String, List, [], ◌∷◌, length, get_elem?, get_elem?-set_self, get_elem?-set_ne, Bool, true,
  false, ltb, Option, none, some, Exec, done, or_panic, lookup, Ensures, Ensures->>=, of_done, ◌==◌,
  ℤ, pos, negsuc, leb, ◌<◌, ◌⊎◌, ◌≡◌, refl, sym, subst, ◌∙◌, inl, inr, arith, Bool-cases,
  Option-cases,
}
use dst_go.Errors.{Fallible, ok, fail}
use dst_go.Channel.{Currency}
use dst_go.Tui.Client.{NodeClient, ShownBal}
use dst_go.Tui.Client.{respond_to_proposal, respond_to_update, send_update, close_request}
use dst_go.Tui.Entry.{
  Entry, Call, set_ch_id, sub_updates, refresh_entry, ChPhase, open_phase, transact_phase,
  register_phase, error_phase, settle_phase, closed_phase, opened_as, to_transact, clear_update,
  is_waiting_for_user, is_ready,
}
use dst_go.Tui.Requests.{
  respond, respond_in, answering, proposal_answered, update_answered, close_ch, close_answered,
  settled_with, update, update_with, update_sent, get_proposed_bal_info,
}
use dst_go.Tui.Registry.{EntryRegistry, put_at_index, get_by_index, set_ch_id_at, get_by_ch_id}
use dst_go.Tui.Commands.{Screen, apply_calls, written, acted}

-- Every entry of the registry knows its row, and no entry is in a row that was not given out.
pub record IsPlaced (s : Screen) : Type 0 where
  pub in_row : (i : ℕ) (p : Entry) → get_elem? s.registry.proposals i ≡ some (some p) → p.s_no ≡ i
  pub given_out :
      (i : ℕ) (p : Entry) → get_elem? s.registry.proposals i ≡ some (some p) → i < s.current_index

apply_calls_rows :
    (calls : List Call) (r : EntryRegistry) → (apply_calls calls r).proposals ≡ r.proposals
unfolding apply_calls set_ch_id_at
apply_calls_rows [] r = refl
apply_calls_rows (set_ch_id ch_id s_no ∷ calls) r =
    apply_calls_rows calls (set_ch_id_at ch_id s_no r)
apply_calls_rows (sub_updates ch_id ∷ calls) r = apply_calls_rows calls r

put_rows :
    (i j : ℕ) (q p : Entry) (r : EntryRegistry)
    → get_elem? (put_at_index i q r).proposals j ≡ some (some p)
    → ((i ≡ j) × (q ≡ p)) ⊎ (get_elem? r.proposals j ≡ some (some p))
unfolding put_at_index
put_rows i j q p r e = elim (Bool-cases (ltb i (length r.proposals))) [
  | inr h ↦ inr (rw (h, put_at_index) at e)
  | inl h ↦ elim (Bool-cases (i == j)) [
    | inl same ↦ inl (
      ground (arith, same),
      ground (arith, e, h, same, get_elem?-set_self r.proposals i (some q)),
    )
    | inr other ↦ inr (ground (arith, e, h, other, get_elem?-set_ne r.proposals i j (some q)))
  ]
]

-- An entry in a row that was given out is written to its own row.
pub written-IsPlaced :
    (q : Entry) (s : Screen) → IsPlaced s → q.s_no < s.current_index → IsPlaced (written q s)
unfolding written
written-IsPlaced q s o h = record {
  in_row = λ i p e. elim (put_rows q.s_no i q p _ e) [
    | inl (row, same) ↦ cc
    | inr old ↦ o.in_row i p (rw (apply_calls_rows q.calls s.registry) at old)
  ];
  given_out = λ i p e. elim (put_rows q.s_no i q p _ e) [
    | inl (row, same) ↦ subst (λ x. x < s.current_index) row h
    | inr old ↦ o.given_out i p (rw (apply_calls_rows q.calls s.registry) at old)
  ];
}

-- A method that leaves the row of the entry as it is.
abbrev pub KeepsRow : (Entry → Exec Entry) → Type 0
KeepsRow method = (p : Entry) → Ensures (λ q. q.s_no ≡ p.s_no) (method p)

pub acted-IsPlaced :
    (method : Entry → Exec Entry) (p : Entry) (i : ℕ) (s : Screen)
    → KeepsRow method
    → IsPlaced s
    → get_elem? s.registry.proposals i ≡ some (some p)
    → Ensures IsPlaced (acted method p s)
unfolding acted
acted-IsPlaced method p i s keeps o e =
    let p0 : Entry = record p { calls = [] } in
    Ensures->>= IsPlaced (method p0) _ (λ q d. written-IsPlaced q s o (
      subst (λ x. x < s.current_index)
        (sym (of_done (λ (x : Entry). x.s_no ≡ p.s_no) d (keeps p0) ∙ o.in_row i p e))
        (o.given_out i p e)))

-- What a look-up finds is in a row.
or_panic_found :
    (found : Option (Option Entry)) (p : Entry)
    → or_panic found ≡ done (some p)
    → found ≡ some (some p)
or_panic_found none p e = absurd (ground arith)
or_panic_found (some none) p e = absurd (ground arith)
or_panic_found (some (some q)) p e = cc

abbrev pub Found : Entry → EntryRegistry → Type 0
Found p r = (i : ℕ) × (get_elem? r.proposals i ≡ some (some p))

pub get_by_index-Found :
    (index : ℤ) (r : EntryRegistry) (p : Entry) → get_by_index index r ≡ done (some p) → Found p r
unfolding get_by_index
get_by_index-Found (negsuc n) r p e = absurd (ground arith)
get_by_index-Found (pos i) r p e = elim (Bool-cases (leb (length r.proposals) i)) [
  | inl h ↦ absurd (ground (arith, e, h))
  | inr h ↦ (i, or_panic_found (get_elem? r.proposals i) p (rw (h, get_by_index) at e))
]

pub get_by_ch_id-Found :
    (ch_id : String) (r : EntryRegistry) (p : Entry)
    → get_by_ch_id ch_id r ≡ done (some p)
    → Found p r
unfolding get_by_ch_id
get_by_ch_id-Found ch_id r p e = elim (Option-cases (lookup ch_id r.by_ch_id)) [
  | inl h ↦ absurd (ground (arith, e, h))
  | inr (i, h) ↦ (i, or_panic_found (get_elem? r.proposals i) p (rw (h, get_by_ch_id) at e))
]

module _ (client : Option NodeClient) (eth : Currency) where
  -- The row of an entry is that of another.
  abbrev SameRow : Entry → Entry → Type 0
  SameRow p q = q.s_no ≡ p.s_no

  proposal_answered_row :
      (accept : Bool) (r : Fallible (String × ShownBal)) (p : Entry)
      → SameRow p (proposal_answered client accept r (answering client p))
  unfolding proposal_answered refresh_entry opened_as to_transact clear_update
  proposal_answered_row accept (fail e) p = refl
  proposal_answered_row false (ok out) p = refl
  proposal_answered_row true (ok (ch_id, current)) p = refl

  update_answered_row :
      (accept : Bool) (r : Fallible ShownBal) (p : Entry)
      → SameRow p (update_answered client accept r (answering client p))
  unfolding update_answered refresh_entry
  update_answered_row accept (fail e) p = refl
  update_answered_row false (ok updated) p = refl
  update_answered_row true (ok updated) p = refl

  respond_in-SameRow :
      (phase : ChPhase) (accept : Bool) (p : Entry)
      → Ensures (SameRow p) (respond_in client phase accept p)
  unfolding respond_in
  respond_in-SameRow open_phase accept p =
      Ensures->>= (SameRow p) (respond_to_proposal client p.update_id accept) _
        (λ r q. proposal_answered_row accept r p)
  respond_in-SameRow transact_phase accept p =
      Ensures->>= (SameRow p) (respond_to_update client p.ch_id p.update_id accept) _
        (λ r q. update_answered_row accept r p)
  respond_in-SameRow register_phase accept p =
      Ensures->>= (SameRow p) (respond_to_update client p.ch_id p.update_id accept) _
        (λ r q. update_answered_row accept r p)
  respond_in-SameRow error_phase accept p = refl
  respond_in-SameRow settle_phase accept p = refl
  respond_in-SameRow closed_phase accept p = refl

  pub respond-KeepsRow : (accept : Bool) → KeepsRow (respond client accept)
  unfolding respond
  respond-KeepsRow accept p = elim (Bool-cases (is_waiting_for_user p.status)) [
    | inl e ↦ rw (e, respond) (respond_in-SameRow p.phase accept p)
    | inr e ↦ rw (e, respond) refl
  ]

  close_answered_row :
      (r : Fallible ShownBal) (p : Entry)
      → SameRow p (
          close_answered client r
            (refresh_entry (clear_update (record p { phase = register_phase }))))
  unfolding close_answered settled_with refresh_entry clear_update
  close_answered_row (fail e) p = refl
  close_answered_row (ok updated) p = refl

  pub close_ch-KeepsRow : KeepsRow (close_ch client)
  unfolding close_ch
  close_ch-KeepsRow p = elim (Bool-cases (is_ready p)) [
    | inl e ↦
        rw (e, close_ch)
          (Ensures->>= (SameRow p) (close_request client p.ch_id) _ (λ r q. close_answered_row r p))
    | inr e ↦ rw (e, close_ch) refl
  ]

  update_sent_row :
      (r : Fallible (Option ShownBal)) (p : Entry) → SameRow p (update_sent client eth r p)
  unfolding update_sent refresh_entry
  update_sent_row (fail e) p = refl
  update_sent_row (ok none) p = refl
  update_sent_row (ok (some updated)) p = refl

  update_with-SameRow :
      (amount : String) (is_payee_peer : Bool) (proposed : Fallible ShownBal) (p : Entry)
      → Ensures (SameRow p) (update_with client eth amount is_payee_peer proposed p)
  unfolding update_with refresh_entry
  update_with-SameRow amount is_payee_peer (fail e) p = refl
  update_with-SameRow amount is_payee_peer (ok proposed) p =
      Ensures->>= (SameRow p) (send_update client p.ch_id _ amount) _ (λ r q. update_sent_row r _)

  pub update-KeepsRow :
      (amount : String) (is_payee_peer : Bool) → KeepsRow (update client eth amount is_payee_peer)
  unfolding update
  update-KeepsRow amount is_payee_peer p = elim (Bool-cases (is_ready p)) [
    | inl e ↦
        rw (e, update)
          (Ensures->>= (SameRow p) (get_proposed_bal_info client eth p.current amount is_payee_peer)
            _ (λ r q. update_with-SameRow amount is_payee_peer r p))
    | inr e ↦ rw (e, update) refl
  ]
