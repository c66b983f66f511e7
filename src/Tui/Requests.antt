-- ===== src/Tui/Requests.antt =====
-- cmd/perunnodetui/channels.go: the methods of an entry that send a request to the node.
use dst_go.Base.{
  String, Bool, true, false, Option, none, some, Exec, done, panic, ◌>>=◌, ℤ, ◌+ℤ◌, ◌-ℤ◌,
  if◌then◌else◌,
}
use dst_go.Perun.Info.{own_alias}
use dst_go.Errors.{text, with_message, Fallible, ok, fail}
use dst_go.Channel.{Currency}
use dst_go.Tui.Text.{truncate_at_amount_max_len, atoi, itoa, next_int}
use dst_go.Tui.Client.{
  ShownBal, no_bal, NodeClient, respond_to_proposal, respond_to_update, send_update, close_request,
}
use dst_go.Tui.Entry.{
  ChPhase, Entry, is_waiting_for_user, is_register, is_ready, refresh_entry, clear_update,
  opened_as, as_final, final_unless_current, waiting_for_peer, responding, user_rejected,
  peer_rejected, accepted, error_status, error_phase, open_phase, transact_phase, register_phase,
  settle_phase, closed_phase,
}

module _ (client : Option NodeClient) where
  unfoldable pub proposal_answered : Bool → Fallible (String × ShownBal) → Entry → Entry
  unfolding refresh_entry opened_as
  proposal_answered accept (fail e) p = p
  proposal_answered false (ok out) p =
      refresh_entry (record p { phase = error_phase; status = user_rejected })
  proposal_answered true (ok (ch_id, current)) p = opened_as ch_id current p

  unfoldable pub update_answered : Bool → Fallible ShownBal → Entry → Entry
  unfolding refresh_entry as_final
  update_answered accept (fail e) p = p
  update_answered false (ok updated) p = refresh_entry (record p { status = user_rejected })
  update_answered true (ok updated) p = refresh_entry (record p {
    current = if is_register p.phase then as_final updated else updated;
    status = accepted;
  })

  abbrev pub answering : Entry → Entry
  answering p = refresh_entry (record p { status = responding })

  -- `respond`, for an entry that waits for the user.
  unfoldable pub respond_in : ChPhase → Bool → Entry → Exec Entry
  unfolding proposal_answered update_answered
  respond_in open_phase accept p = respond_to_proposal client p.update_id accept >>= λ r.
      done (proposal_answered accept r (answering p))
  respond_in transact_phase accept p = respond_to_update client p.ch_id p.update_id accept >>= λ r.
      done (update_answered accept r (answering p))
  respond_in register_phase accept p = respond_to_update client p.ch_id p.update_id accept >>= λ r.
      done (update_answered accept r (answering p))
  respond_in error_phase accept p = done p
  respond_in settle_phase accept p = done p
  respond_in closed_phase accept p = done p

  unfoldable pub respond : Bool → Entry → Exec Entry
  unfolding respond_in
  respond accept p = if is_waiting_for_user p.status then respond_in p.phase accept p else done p

  -- `closeCh` behind the request: an error does not end it, and the balances that come with an error
  -- are empty.
  unfoldable pub settled_with : ShownBal → Entry → Entry
  unfolding refresh_entry final_unless_current
  settled_with updated p =
      refresh_entry (record p { current = final_unless_current p updated; phase = settle_phase })

  unfoldable pub close_answered : Fallible ShownBal → Entry → Entry
  unfolding settled_with
  close_answered (fail e) p = settled_with no_bal (refresh_entry (record p { phase = error_phase }))
  close_answered (ok updated) p = settled_with updated p

  unfoldable pub close_ch : Entry → Exec Entry
  unfolding close_answered clear_update
  close_ch p =
      if is_ready p
      then (close_request client p.ch_id >>= λ r.
          done
            (close_answered r (refresh_entry (clear_update (record p { phase = register_phase })))))
      else done p

  module _ (eth : Currency) where
    -- A number that could not be parsed is nil, and computing with it panics.
    unfoldable pub number_of : Fallible ℤ → Exec ℤ
    number_of (fail e) = panic
    number_of (ok n) = done n

    abbrev shown_amount : ℤ → String
    shown_amount n = truncate_at_amount_max_len (eth.print n)

    abbrev moved : Bool → ℤ → ℤ → ℤ → ShownBal
    moved true ours theirs amount = record {
      ours = shown_amount (ours -ℤ amount);
      theirs = shown_amount (theirs +ℤ amount);
      version = "";
    }
    moved false ours theirs amount = record {
      ours = shown_amount (ours +ℤ amount);
      theirs = shown_amount (theirs -ℤ amount);
      version = "";
    }

    abbrev versioned : ShownBal → Option ℤ → Fallible ShownBal
    versioned b none = fail (text "parsing version as integer")
    versioned b (some v) = ok (record b { version = itoa (next_int v) })

    unfoldable pub get_proposed_bal_info : ShownBal → String → Bool → Exec (Fallible ShownBal)
    unfolding number_of
    get_proposed_bal_info current amount_str is_payee_peer = elim (eth.parse amount_str) [
      | fail e ↦ done (fail (with_message e "parsing amount"))
      | ok amount ↦ do
        ours ← number_of (eth.parse current.ours)
        theirs ← number_of (eth.parse current.theirs)
        done (versioned (moved is_payee_peer ours theirs amount) (atoi current.version))
    ]

    unfoldable pub update_sent : Fallible (Option ShownBal) → Entry → Entry
    unfolding refresh_entry
    update_sent (fail e) p = refresh_entry (record p { status = error_status })
    update_sent (ok none) p = refresh_entry (record p { status = peer_rejected })
    update_sent (ok (some updated)) p =
        refresh_entry (record p { status = accepted; current = updated })

    abbrev payee_of : Bool → Entry → String
    payee_of is_payee_peer p = if is_payee_peer then p.peer else own_alias

    unfoldable pub update_with : String → Bool → Fallible ShownBal → Entry → Exec Entry
    unfolding update_sent
    update_with amount is_payee_peer (fail e) p = done p
    update_with amount is_payee_peer (ok proposed) p =
        send_update client p.ch_id (payee_of is_payee_peer p) amount >>= λ r. done (
          update_sent r
            (refresh_entry (record p { proposed = proposed; status = waiting_for_peer })))

    unfoldable pub update : String → Bool → Entry → Exec Entry
    unfolding get_proposed_bal_info update_with
    update amount is_payee_peer p =
        if is_ready p
        then (get_proposed_bal_info p.current amount is_payee_peer >>= λ r.
            update_with amount is_payee_peer r p)
        else done p
