-- ===== src/Tui/Laws.antt =====
-- cmd/perunnodetui/channels.go: what answers, timeouts and errors make of an entry.
use dst_go.Base.{
  String, Bool, true, false, Option, done, Ensures, Returns, Ensures->>=, str_eq, ◌≡◌, refl, sym,
  subst, inl, inr, arith, Bool-cases,
}
use dst_go.Errors.{GoError, Fallible, ok, fail}
use dst_go.Tui.Client.{ShownBal, NodeClient, respond_to_proposal, respond_to_update, close_request}
use dst_go.Tui.Text.{trim_zeros, contains}
use dst_go.Tui.Entry.{
  Entry, ChPhase, error_phase, open_phase, transact_phase, register_phase, settle_phase,
  closed_phase, no_update, is_waiting_for_user, is_open_phase, is_transact, is_register, is_ready,
  refresh_entry, trimmed, clear_update, to_transact, opened_as, proposal_timed_out,
  update_timed_out, final_unless_current, as_final, notify_closing_update,
}
use dst_go.Tui.Requests.{
  proposal_answered, update_answered, answering, respond_in, respond, settled_with, close_answered,
  close_ch,
}

-- Nothing that an entry could wait for changes it: no answer of the user, and no time that passes.
abbrev pub IsAnswered : Option NodeClient → Entry → Type 0
IsAnswered client q =
    ((accept : Bool) → respond client accept q ≡ done q)
    × ((update_id : String) → update_timed_out update_id q ≡ q)
    × (proposal_timed_out q ≡ q)

not_waiting-IsAnswered :
    (client : Option NodeClient) (q : Entry)
    → is_waiting_for_user q.status ≡ false
    → IsAnswered client q
unfolding respond update_timed_out proposal_timed_out
not_waiting-IsAnswered client q e =
    (λ accept. rw (e, respond) refl, λ update_id. ground (arith, e), ground (arith, e))

module _ (client : Option NodeClient) where
  proposal_answered_lem :
      (accept : Bool) (r : Fallible (String × ShownBal)) (p : Entry)
      → is_waiting_for_user (proposal_answered client accept r (answering client p)).status ≡ false
  unfolding proposal_answered refresh_entry opened_as to_transact clear_update
  proposal_answered_lem accept (fail e) p = refl
  proposal_answered_lem false (ok out) p = refl
  proposal_answered_lem true (ok (ch_id, current)) p = refl

  update_answered_lem :
      (accept : Bool) (r : Fallible ShownBal) (p : Entry)
      → is_waiting_for_user (update_answered client accept r (answering client p)).status ≡ false
  unfolding update_answered refresh_entry
  update_answered_lem accept (fail e) p = refl
  update_answered_lem false (ok updated) p = refl
  update_answered_lem true (ok updated) p = refl

  -- An entry in a phase in which nothing is asked of the user stays as it is.
  idle_phase :
      (phase : ChPhase) (p : Entry)
      → p.phase ≡ phase
      → ((accept : Bool) → respond_in client phase accept p ≡ done p)
      → is_open_phase p.phase ≡ false
      → is_transact p.phase ≡ false
      → is_register p.phase ≡ false
      → IsAnswered client p
  unfolding respond update_timed_out proposal_timed_out
  idle_phase phase p e stays o t r = (
    λ accept. elim (Bool-cases (is_waiting_for_user p.status)) [
      | inl h ↦
          rw (h, respond)
            (subst (λ x. respond_in client x accept p ≡ done p) (sym e) (stays accept))
      | inr h ↦ rw (h, respond) refl
    ],
    λ update_id. ground (arith, t, r),
    ground (arith, o),
  )

  respond_in-IsAnswered :
      (phase : ChPhase) (accept : Bool) (p : Entry)
      → p.phase ≡ phase
      → Ensures (IsAnswered client) (respond_in client phase accept p)
  unfolding respond_in
  respond_in-IsAnswered open_phase accept p e =
      Ensures->>= (IsAnswered client) (respond_to_proposal client p.update_id accept) _
        (λ r q. not_waiting-IsAnswered client _ (proposal_answered_lem accept r p))
  respond_in-IsAnswered transact_phase accept p e =
      Ensures->>= (IsAnswered client) (respond_to_update client p.ch_id p.update_id accept) _
        (λ r q. not_waiting-IsAnswered client _ (update_answered_lem accept r p))
  respond_in-IsAnswered register_phase accept p e =
      Ensures->>= (IsAnswered client) (respond_to_update client p.ch_id p.update_id accept) _
        (λ r q. not_waiting-IsAnswered client _ (update_answered_lem accept r p))
  respond_in-IsAnswered error_phase accept p e =
      idle_phase error_phase p e (λ a. refl) (rw e refl) (rw e refl) (rw e refl)
  respond_in-IsAnswered settle_phase accept p e =
      idle_phase settle_phase p e (λ a. refl) (rw e refl) (rw e refl) (rw e refl)
  respond_in-IsAnswered closed_phase accept p e =
      idle_phase closed_phase p e (λ a. refl) (rw e refl) (rw e refl) (rw e refl)

  -- An entry that the user has answered, if the answer of the node could be read, takes no further
  -- answer, and no time that passes changes it.
  pub respond-IsAnswered :
      (accept : Bool) (p : Entry) → Ensures (IsAnswered client) (respond client accept p)
  unfolding respond
  respond-IsAnswered accept p = elim (Bool-cases (is_waiting_for_user p.status)) [
    | inl e ↦ rw (e, respond) (respond_in-IsAnswered p.phase accept p refl)
    | inr e ↦ rw (e, respond) (not_waiting-IsAnswered client p e)
  ]

  -- Closing a channel whose request fails: the entry shows the phase of settling and no balances, not
  -- the phase of an error.
  pub close_ch_failed :
      (p : Entry) (e : GoError)
      → is_ready p ≡ true
      → close_request client p.ch_id ≡ done (fail e)
      → Returns
          (λ q. (q.phase ≡ settle_phase) × (q.current.ours ≡ "") × (q.current.theirs ≡ ""))
          (close_ch client p)
  unfolding close_ch close_answered settled_with refresh_entry trimmed trim_zeros contains
      final_unless_current as_final
  close_ch_failed p e ready failed =
      rw (ready, close_ch)
        (rw failed (elim (Bool-cases (str_eq p.current.version "")) [
          | inl h ↦ (refl, rw h refl, rw h refl)
          | inr h ↦ (refl, rw h refl, rw h refl)
        ]))

  -- A closing notification with an error leaves no trace of it in the entry.
  notify_closing_update_error :
      (updated : ShownBal) (msg : String) (p : Entry)
      → str_eq msg "" ≡ false
      → ((notify_closing_update updated msg p).status ≡ no_update)
        × ((notify_closing_update updated msg p).phase ≡ p.phase)
  unfolding notify_closing_update refresh_entry clear_update
  notify_closing_update_error updated msg p e = (refl, rw (e, notify_closing_update) refl)
