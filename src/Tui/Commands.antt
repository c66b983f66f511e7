-- ===== src/Tui/Commands.antt =====
-- cmd/perunnodetui/commands.go, and the handlers of notifications in paymentclient.go: what the user
-- and the node do to the table. A command that was parsed runs in a goroutine of its own; each is one
-- step here.
use dst_go.Base.{
  ℕ, suc, String, List, [], ◌∷◌, Bool, true, false, Option, none, some, Exec, done, panic, ◌>>=◌,
  ◌==◌, get_elem?, or_panic, ℤ, str_eq, if◌then◌else◌, ◌&◌,
}
use dst_go.Errors.{GoError, text, Fallible, ok, fail}
use dst_go.Channel.{Currency}
use dst_go.Grpc.{MsgError, ProposalMsg, UpdateMsg, UpdateTypeMsg, open_msg, final_msg, closed_msg}
use dst_go.Tui.Text.{atoi, split_spaces}
use dst_go.Tui.Client.{NodeClient, ShownBal, propose_channel, find_peer_index, bal_of, shown_bal}
use dst_go.Tui.Entry.{
  Entry, Call, set_ch_id, sub_updates, new_outgoing_channel, new_incoming_channel, refresh_entry,
  propose, notify_closing_update, notify_non_closing_update,
}
use dst_go.Tui.Requests.{respond, update, close_ch}
use dst_go.Tui.Registry.{EntryRegistry, put_at_index, get_by_index, set_ch_id_at, get_by_ch_id}

-- The part of `table` that gives rows out, and the registry.
pub record Screen : Type 0 where
  pub current_index : ℕ
  pub last_index : ℕ
  pub registry : EntryRegistry

-- `getRow`
unfoldable pub get_row : Screen → Option (ℕ × Screen)
get_row s =
    if s.current_index == s.last_index
    then none
    else some (s.current_index, record s { current_index = suc s.current_index })

-- What a method of an entry does to the registry.
unfoldable pub apply_calls : List Call → EntryRegistry → EntryRegistry
apply_calls [] r = r
apply_calls (set_ch_id ch_id s_no ∷ calls) r = apply_calls calls (set_ch_id_at ch_id s_no r)
apply_calls (sub_updates ch_id ∷ calls) r = apply_calls calls r

-- An entry after a method, in place of the entry before it.
unfoldable pub written : Entry → Screen → Screen
unfolding apply_calls
written q s = record s { registry = put_at_index q.s_no q (apply_calls q.calls s.registry) }

-- A method of an entry, whose trace begins here.
unfoldable pub acted : (Entry → Exec Entry) → Entry → Screen → Exec Screen
unfolding written
acted method p s = method (record p { calls = [] }) >>= λ q. done (written q s)

-- The words of a command, if there is such a command.
unfoldable pub is_command : String → Bool
is_command w =
    if str_eq w "open"
    then true
    else if str_eq w "send"
    then true
    else if str_eq w "req"
    then true
    else if str_eq w "acc"
    then true
    else if str_eq w "rej"
    then true
    else str_eq w "close"

unfoldable pub parse_words : List String → Fallible (String × List String)
unfolding is_command
parse_words (command ∷ arg ∷ args) =
    if is_command command
    then ok (command, arg ∷ args)
    else fail (text ("invalid command: " & command))
parse_words _ = fail (text "command should have at least 2 words")

-- `handleCmd`, up to the goroutine.
unfoldable pub handle_cmd : String → Fallible (String × List String)
unfolding parse_words
handle_cmd input = parse_words (split_spaces input)

-- A command that is refused, with an error that is logged.
abbrev pub Refused : Type 0
Refused = Option GoError

module _ (client : Option NodeClient) (eth : Currency) where
  -- A method of the entry in a row.
  unfoldable pub at_row : (Entry → Exec Entry) → Option ℤ → Screen → Exec (Screen × Refused)
  unfolding acted
  at_row method none s = done (s, some (text "first arg should a S.No"))
  at_row method (some index) s = get_by_index index s.registry >>= λ found. elim found [
    | none ↦ done (s, some (text "first arg should a S.No"))
    | some p ↦ acted method p s >>= λ s'. done (s', none)
  ]

  -- The rest of `openCmdHandler` behind the row that was given out: without one, the entry is nil.
  unfoldable pub open_in : Option (ℕ × Screen) → String → String → String → Exec (Screen × Refused)
  unfolding written
  open_in none peer ours theirs = panic
  open_in (some (i, s)) peer ours theirs = do
    let p = new_outgoing_channel peer ours theirs i
    r ← propose_channel client peer ours theirs
    done (written (propose r p) s, none)

  unfoldable pub open_cmd_handler : List String → Screen → Exec (Screen × Refused)
  unfolding get_row open_in
  open_cmd_handler (peer ∷ ours ∷ theirs ∷ []) s = open_in (get_row s) peer ours theirs
  open_cmd_handler _ s = done (s, some (text "should have only 3 args"))

  unfoldable pub respond_cmd : Bool → List String → Screen → Exec (Screen × Refused)
  unfolding at_row
  respond_cmd accept (arg ∷ []) s = at_row (respond client accept) (atoi arg) s
  respond_cmd accept _ s = done (s, some (text "should have only 3 args"))

  unfoldable pub update_cmd_handler : Bool → List String → Screen → Exec (Screen × Refused)
  unfolding at_row
  update_cmd_handler is_payee_peer (arg ∷ amount ∷ []) s =
      at_row (update client eth amount is_payee_peer) (atoi arg) s
  update_cmd_handler is_payee_peer _ s = done (s, some (text "should have only 2 args"))

  unfoldable pub close_cmd_handler : List String → Screen → Exec (Screen × Refused)
  unfolding at_row
  close_cmd_handler (arg ∷ []) s = at_row (close_ch client) (atoi arg) s
  close_cmd_handler _ s = done (s, some (text "should have only 1 args"))

  -- `commandHandlers[command](args)`, for a command that there is.
  unfoldable pub run_cmd : String × List String → Screen → Exec (Screen × Refused)
  unfolding open_cmd_handler respond_cmd update_cmd_handler close_cmd_handler
  run_cmd (command, args) s =
      if str_eq command "open"
      then open_cmd_handler args s
      else if str_eq command "send"
      then update_cmd_handler true args s
      else if str_eq command "req"
      then update_cmd_handler false args s
      else if str_eq command "acc"
      then respond_cmd true args s
      else if str_eq command "rej"
      then respond_cmd false args s
      else close_cmd_handler args s

  -- The clock of the screen.
  module _ (format_time : ℕ → String) where
    unfoldable pub incoming_in : Option (ℕ × Screen) → Screen → (ℕ → Entry) → Screen
    unfolding written
    incoming_in none s entry = s
    incoming_in (some (i, s')) s entry = written (refresh_entry (entry i)) s'

    -- A notification in `incomingChannelsHandler`, before the time of the proposal is over.
    unfoldable pub incoming_channel : ProposalMsg → Screen → Exec Screen
    unfolding get_row incoming_in
    incoming_channel notif s = do
      let bal = notif.opening_bal_info_field
      peer ← or_panic (get_elem? bal.parts_field (find_peer_index bal.parts_field))
      proposed ← bal_of bal
      done (
          incoming_in (get_row s) s (
            new_incoming_channel notif.proposal_id_field peer proposed.ours proposed.theirs
              (format_time notif.proposal_expiry_field)))

    abbrev text_of : Option MsgError → String
    text_of none = ""
    text_of (some e) = e.message

    -- The method for a notification of an update, by its type.
    unfoldable pub notified : UpdateMsg → ShownBal → UpdateTypeMsg → Entry → Entry
    notified notif b closed_msg p = notify_closing_update b (text_of notif.update_error_field) p
    notified notif b final_msg p =
        notify_non_closing_update notif.update_id_field b (format_time notif.expiry_field) true p
    notified notif b open_msg p =
        notify_non_closing_update notif.update_id_field b (format_time notif.expiry_field) false p

    -- A notification in `incomingUpdateHandler`, before the time of the update is over.
    unfoldable pub incoming_update : UpdateMsg → Screen → Exec Screen
    unfolding acted notified
    incoming_update notif s =
        get_by_ch_id notif.proposed_pay_ch_info_field.ch_id_field s.registry >>= λ found.
        elim found [
          | none ↦ done s
          | some p ↦ shown_bal notif.proposed_pay_ch_info_field >>= λ b.
              acted (λ q. done (notified notif b notif.type_field q)) p s
        ]
