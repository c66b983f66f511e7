-- ===== src/Tui/Entry.antt =====
-- cmd/perunnodetui/channels.go: an entry of the table of channels. The lock of an entry makes each
-- method one step, but for the two that wait for a time to pass: these are two steps each. What an
-- entry does to the registry and to the subscriptions is kept as a trace. Writing the row of the
-- screen, which `refreshEntry` does as well, is left out.
use dst_go.Base.{
  ℕ, String, List, [], ◌∷◌, ◌++◌, Bool, true, false, ◌&&◌, ◌||◌, Option, none, some, str_eq,
  if◌then◌else◌, ◌&◌,
}
use dst_go.Errors.{Fallible, ok, fail}
use dst_go.Tui.Text.{trim_zeros}
use dst_go.Tui.Client.{ShownBal, no_bal}

-- `responseStatus`
pub data ResponseStatus : Type 0 where
  no_update waiting_for_peer waiting_for_user expired responding user_rejected peer_rejected
        accepted error_status :
      ResponseStatus

-- `chPhase`
pub data ChPhase : Type 0 where
  error_phase open_phase transact_phase register_phase settle_phase closed_phase : ChPhase

-- `R.setChID(chID, sNo)` and `subUpdates(chID)`
pub data Call : Type 0 where
  set_ch_id : (ch_id : String) → (s_no : ℕ) → Call
  sub_updates : (ch_id : String) → Call

-- `channel`. The function that proposes it is an argument of `propose`.
pub record Entry : Type 0 where
  pub phase : ChPhase
  pub peer : String
  pub current : ShownBal
  pub status : ResponseStatus
  pub timeout : String
  pub proposed : ShownBal
  pub ch_id : String
  pub update_id : String
  pub is_incoming : Bool
  pub s_no : ℕ
  pub calls : List Call

abbrev pub is_waiting_for_user : ResponseStatus → Bool
is_waiting_for_user waiting_for_user = true
is_waiting_for_user _ = false

-- A status in which no update is pending.
abbrev pub is_settled : ResponseStatus → Bool
is_settled waiting_for_peer = false
is_settled waiting_for_user = false
is_settled responding = false
is_settled _ = true

abbrev pub is_open_phase : ChPhase → Bool
is_open_phase open_phase = true
is_open_phase _ = false

abbrev pub is_transact : ChPhase → Bool
is_transact transact_phase = true
is_transact _ = false

abbrev pub is_register : ChPhase → Bool
is_register register_phase = true
is_register _ = false

-- The test of `update` and `closeCh`.
abbrev pub is_ready : Entry → Bool
is_ready p = is_transact p.phase && is_settled p.status

unfoldable pub new_outgoing_channel : String → String → String → ℕ → Entry
new_outgoing_channel peer ours theirs i = record {
  phase = open_phase;
  peer = peer;
  current = no_bal;
  status = waiting_for_peer;
  timeout = "";
  proposed = record { ours = ours; theirs = theirs; version = "0" };
  ch_id = "";
  update_id = "";
  is_incoming = false;
  s_no = i;
  calls = [];
}

unfoldable pub new_incoming_channel : String → String → String → String → String → ℕ → Entry
new_incoming_channel proposal_id peer ours theirs timeout i = record {
  phase = open_phase;
  peer = peer;
  current = no_bal;
  status = waiting_for_user;
  timeout = timeout;
  proposed = record { ours = ours; theirs = theirs; version = "0" };
  ch_id = "";
  update_id = proposal_id;
  is_incoming = true;
  s_no = i;
  calls = [];
}

unfoldable pub trimmed : ShownBal → ShownBal
unfolding trim_zeros
trimmed b = record b { ours = trim_zeros b.ours; theirs = trim_zeros b.theirs }

-- What `refreshEntry` does to the entry.
unfoldable pub refresh_entry : Entry → Entry
unfolding trimmed
refresh_entry p = record p { current = trimmed p.current; proposed = trimmed p.proposed }

unfoldable pub clear_update : Entry → Entry
clear_update p = record p { status = no_update; timeout = ""; proposed = no_bal }

unfoldable pub to_transact : String → ShownBal → Entry → Entry
unfolding refresh_entry clear_update
to_transact ch_id current p =
    let q =
      refresh_entry
        (clear_update (record p { ch_id = ch_id; current = current; phase = transact_phase })) in
    record q { calls = p.calls ++ sub_updates ch_id ∷ [] }

-- The channel was opened: the registry knows its ID, and the updates are subscribed to.
unfoldable pub opened_as : String → ShownBal → Entry → Entry
unfolding to_transact
opened_as ch_id current p =
    to_transact ch_id current (record p { calls = p.calls ++ set_ch_id ch_id p.s_no ∷ [] })

-- `propose`, with what the proposing function gives.
unfoldable pub propose : Fallible (Option (String × ShownBal)) → Entry → Entry
unfolding opened_as
propose (fail e) p = refresh_entry p
propose (ok none) p =
    refresh_entry (record (refresh_entry p) { phase = error_phase; status = peer_rejected })
propose (ok (some (ch_id, current))) p = opened_as ch_id current (refresh_entry p)

-- `notifyIncomingChannel`, when the time is over.
unfoldable pub proposal_timed_out : Entry → Entry
unfolding refresh_entry
proposal_timed_out p =
    if is_waiting_for_user p.status && is_open_phase p.phase
    then refresh_entry (record p { phase = error_phase; status = expired })
    else p

-- `updated.version += " F"`
unfoldable pub as_final : ShownBal → ShownBal
as_final b = record b { version = b.version & " F" }

-- The balances that a channel is left with: a version that is not the current one is the final one.
unfoldable pub final_unless_current : Entry → ShownBal → ShownBal
unfolding as_final
final_unless_current p updated =
    if str_eq p.current.version updated.version then updated else as_final updated

unfoldable pub notify_closing_update : ShownBal → String → Entry → Entry
unfolding refresh_entry clear_update as_final
notify_closing_update updated error_msg p =
    let q =
      if str_eq error_msg ""
      then record p {
        phase = closed_phase;
        current = if str_eq p.current.version updated.version then p.current else as_final updated;
      }
      else record p { status = error_status } in
    refresh_entry (clear_update q)

-- `notifyNonClosingUpdate` up to the waiting; `timeout` is the expiry as it is shown.
unfoldable pub notify_non_closing_update : String → ShownBal → String → Bool → Entry → Entry
unfolding refresh_entry as_final
notify_non_closing_update update_id proposed timeout is_final p =
    let q = record p {
      update_id = update_id;
      proposed = if is_final then as_final proposed else proposed;
      timeout = timeout;
      status = waiting_for_user;
      phase = if is_final then register_phase else p.phase;
    } in
    refresh_entry q

-- The rest of it, when the time of the update is over.
unfoldable pub update_timed_out : String → Entry → Entry
unfolding refresh_entry
update_timed_out curr_update_id p =
    if str_eq p.update_id curr_update_id
      && is_waiting_for_user p.status
      && (is_transact p.phase || is_register p.phase)
    then refresh_entry (record p { status = expired })
    else p
