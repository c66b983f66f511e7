-- ===== src/Tui/Placed.antt =====
-- cmd/perunnodetui/: every command and every notification keeps the rows of the table in order.
use dst_go.Base.{
  ℕ, String, List, [], ◌∷◌, get_elem?, Bool, true, false, Option, none, some, Exec, done, ◌>>=◌,
  or_panic, Ensures, Ensures->>=, of_done, ◌==◌, str_eq, ℤ, if◌then◌else◌, ◌<◌, ◌≡◌, refl, sym,
  subst, inl, inr, arith, Bool-cases,
}
use dst_go.Errors.{text, Fallible, ok, fail}
use dst_go.Channel.{Currency}
use dst_go.Grpc.{ProposalMsg, UpdateMsg, UpdateTypeMsg, open_msg, final_msg, closed_msg}
use dst_go.Tui.Client.{NodeClient, ShownBal, propose_channel, find_peer_index, bal_of, shown_bal}
use dst_go.Tui.Text.{atoi}
use dst_go.Tui.Entry.{
  Entry, refresh_entry, propose, opened_as, to_transact, clear_update, new_outgoing_channel,
  new_incoming_channel, notify_closing_update, notify_non_closing_update,
}
use dst_go.Tui.Requests.{respond, update, close_ch}
use dst_go.Tui.Registry.{get_by_index, get_by_ch_id}
use dst_go.Tui.Commands.{
  Screen, get_row, acted, at_row, open_in, open_cmd_handler, respond_cmd, update_cmd_handler,
  close_cmd_handler, run_cmd, incoming_in, incoming_channel, notified, incoming_update, Refused,
}
use dst_go.Tui.Rows.{
  IsPlaced, written-IsPlaced, KeepsRow, acted-IsPlaced, get_by_index-Found, get_by_ch_id-Found,
  respond-KeepsRow, close_ch-KeepsRow, update-KeepsRow,
}

-- What happens to the table: a command of the user, or a notification.
pub data TableEvent : Type 0 where
  commanded : (command : String) → (args : List String) → TableEvent
  proposal_notified : ProposalMsg → TableEvent
  update_notified : UpdateMsg → TableEvent

-- A row that is given out is the next one.
abbrev FreshRow : Option (ℕ × Screen) → Screen → Type 0
FreshRow none s = Unit
FreshRow (some out) s = IsPlaced out.1 × (out.0 < (out.1).current_index)

get_row-FreshRow : (s : Screen) → IsPlaced s → FreshRow (get_row s) s
unfolding get_row
get_row-FreshRow s o = elim (Bool-cases (s.current_index == s.last_index)) [
  | inl e ↦ rw (e, get_row) tt
  | inr e ↦
      rw (e, get_row)
        (
          record { in_row = o.in_row; given_out = λ i p h. omega (arith, o.given_out i p h) },
          omega arith,
        )
]

propose_row : (r : Fallible (Option (String × ShownBal))) (p : Entry) → (propose r p).s_no ≡ p.s_no
unfolding propose opened_as to_transact clear_update refresh_entry
propose_row (fail e) p = refl
propose_row (ok none) p = refl
propose_row (ok (some (ch_id, current))) p = refl

module _ (client : Option NodeClient) (eth : Currency) where
  -- The rows are in order behind a command.
  abbrev Stays : Screen × Refused → Type 0
  Stays out = IsPlaced out.0

  at_row-Stays :
      (method : Entry → Exec Entry) (index : Option ℤ) (s : Screen)
      → KeepsRow method
      → IsPlaced s
      → Ensures Stays (at_row client eth method index s)
  unfolding at_row
  at_row-Stays method none s keeps o = o
  at_row-Stays method (some index) s keeps o =
      Ensures->>= Stays (get_by_index index s.registry) _ (λ found q. by found q)
    where
      by :
          (found : Option Entry)
          → get_by_index index s.registry ≡ done found
          → Ensures Stays (elim found [
            | none ↦ done (s, some (text "first arg should a S.No"))
            | some p ↦ (acted method p s >>= λ s'. done (s', none))
          ])
      by none q = o
      by (some p) q =
          let (i, e) = get_by_index-Found index s.registry p q in
          Ensures->>= Stays (acted method p s) _
            (λ s' d. of_done IsPlaced d (acted-IsPlaced method p i s keeps o e))

  open_in-Stays :
      (row : Option (ℕ × Screen)) (s : Screen) (peer ours theirs : String)
      → FreshRow row s
      → Ensures Stays (open_in client eth row peer ours theirs)
  unfolding open_in new_outgoing_channel
  open_in-Stays none s peer ours theirs o = tt
  open_in-Stays (some (i, s')) s peer ours theirs (o, h) =
      let p = new_outgoing_channel peer ours theirs i in
      Ensures->>= Stays (propose_channel client peer ours theirs) _ (λ r q.
        written-IsPlaced (propose r p) s' o
          (subst (λ x. x < s'.current_index) (sym (propose_row r p)) h))

  open_cmd_handler-Stays :
      (args : List String) (s : Screen)
      → IsPlaced s
      → Ensures Stays (open_cmd_handler client eth args s)
  unfolding open_cmd_handler
  open_cmd_handler-Stays (peer ∷ ours ∷ theirs ∷ []) s o =
      open_in-Stays (get_row s) s peer ours theirs (get_row-FreshRow s o)
  open_cmd_handler-Stays [] s o = o
  open_cmd_handler-Stays (a ∷ []) s o = o
  open_cmd_handler-Stays (a ∷ b ∷ []) s o = o
  open_cmd_handler-Stays (a ∷ b ∷ c ∷ d ∷ args) s o = o

  respond_cmd-Stays :
      (accept : Bool) (args : List String) (s : Screen)
      → IsPlaced s
      → Ensures Stays (respond_cmd client eth accept args s)
  unfolding respond_cmd
  respond_cmd-Stays accept (arg ∷ []) s o =
      at_row-Stays (respond client accept) (atoi arg) s (respond-KeepsRow client eth accept) o
  respond_cmd-Stays accept [] s o = o
  respond_cmd-Stays accept (a ∷ b ∷ args) s o = o

  update_cmd_handler-Stays :
      (is_payee_peer : Bool) (args : List String) (s : Screen)
      → IsPlaced s
      → Ensures Stays (update_cmd_handler client eth is_payee_peer args s)
  unfolding update_cmd_handler
  update_cmd_handler-Stays is_payee_peer (arg ∷ amount ∷ []) s o =
      at_row-Stays (update client eth amount is_payee_peer) (atoi arg) s
        (update-KeepsRow client eth amount is_payee_peer) o
  update_cmd_handler-Stays is_payee_peer [] s o = o
  update_cmd_handler-Stays is_payee_peer (a ∷ []) s o = o
  update_cmd_handler-Stays is_payee_peer (a ∷ b ∷ c ∷ args) s o = o

  close_cmd_handler-Stays :
      (args : List String) (s : Screen)
      → IsPlaced s
      → Ensures Stays (close_cmd_handler client eth args s)
  unfolding close_cmd_handler
  close_cmd_handler-Stays (arg ∷ []) s o =
      at_row-Stays (close_ch client) (atoi arg) s (close_ch-KeepsRow client eth) o
  close_cmd_handler-Stays [] s o = o
  close_cmd_handler-Stays (a ∷ b ∷ args) s o = o

  run_cmd-Stays :
      (command : String) (args : List String) (s : Screen)
      → IsPlaced s
      → Ensures Stays (run_cmd client eth (command, args) s)
  unfolding run_cmd
  run_cmd-Stays command args s o =
      choose (str_eq command "open") _ _ (open_cmd_handler-Stays args s o) (
        choose (str_eq command "send") _ _ (update_cmd_handler-Stays true args s o) (
          choose (str_eq command "req") _ _ (update_cmd_handler-Stays false args s o) (
            choose (str_eq command "acc") _ _ (respond_cmd-Stays true args s o) (
              choose (str_eq command "rej") _ _ (respond_cmd-Stays false args s o)
                (close_cmd_handler-Stays args s o)))))
    where
      choose :
          (b : Bool) (m n : Exec (Screen × Refused))
          → Ensures Stays m
          → Ensures Stays n
          → Ensures Stays (if b then m else n)
      choose true m n h k = h
      choose false m n h k = k

  module _ (format_time : ℕ → String) where
    notified_row :
        (notif : UpdateMsg) (b : ShownBal) (type : UpdateTypeMsg) (p : Entry)
        → (notified client eth format_time notif b type p).s_no ≡ p.s_no
    unfolding notified notify_closing_update notify_non_closing_update refresh_entry clear_update
    notified_row notif b closed_msg p = ground arith
    notified_row notif b final_msg p = refl
    notified_row notif b open_msg p = refl

    incoming_in-IsPlaced :
        (row : Option (ℕ × Screen)) (s : Screen) (entry : ℕ → Entry)
        → ((i : ℕ) → (entry i).s_no ≡ i)
        → IsPlaced s
        → FreshRow row s
        → IsPlaced (incoming_in client eth format_time row s entry)
    unfolding incoming_in refresh_entry
    incoming_in-IsPlaced none s entry at o f = o
    incoming_in-IsPlaced (some (i, s')) s entry at o (o', h) =
        written-IsPlaced (refresh_entry (entry i)) s' o'
          (subst (λ x. x < s'.current_index) (sym (at i)) h)

    incoming_channel-IsPlaced :
        (notif : ProposalMsg) (s : Screen)
        → IsPlaced s
        → Ensures IsPlaced (incoming_channel client eth format_time notif s)
    unfolding incoming_channel new_incoming_channel
    incoming_channel-IsPlaced notif s o =
        let bal = notif.opening_bal_info_field in
        Ensures->>= IsPlaced
          (or_panic (get_elem? bal.parts_field (find_peer_index bal.parts_field))) _
          (λ peer q. Ensures->>= IsPlaced (bal_of bal) _ (λ proposed q'.
            incoming_in-IsPlaced (get_row s) s _ (λ i. refl) o (get_row-FreshRow s o)))

    incoming_update-IsPlaced :
        (notif : UpdateMsg) (s : Screen)
        → IsPlaced s
        → Ensures IsPlaced (incoming_update client eth format_time notif s)
    unfolding incoming_update
    incoming_update-IsPlaced notif s o =
        Ensures->>= IsPlaced (get_by_ch_id notif.proposed_pay_ch_info_field.ch_id_field s.registry)
          _ (λ found q. by found q)
      where
        by :
            (found : Option Entry)
            → get_by_ch_id notif.proposed_pay_ch_info_field.ch_id_field s.registry ≡ done found
            → Ensures IsPlaced (elim found [
              | none ↦ done s
              | some p ↦
                  (shown_bal notif.proposed_pay_ch_info_field >>= λ b.
                  acted
                    (λ q. done (notified client eth format_time notif b notif.type_field q))
                    p
                    s)
            ])
        by none q = o
        by (some p) q =
            let (i, e) =
              get_by_ch_id-Found notif.proposed_pay_ch_info_field.ch_id_field s.registry p q in
            Ensures->>= IsPlaced (shown_bal notif.proposed_pay_ch_info_field) _ (λ b q'.
              acted-IsPlaced
                (λ (x : Entry). done (notified client eth format_time notif b notif.type_field x)) p
                i s (λ x. notified_row notif b notif.type_field x) o e)

    unfoldable pub shown : TableEvent → Screen → Exec Screen
    shown (commanded command args) s = run_cmd client eth (command, args) s >>= λ out. done out.0
    shown (proposal_notified notif) s = incoming_channel client eth format_time notif s
    shown (update_notified notif) s = incoming_update client eth format_time notif s

    unfoldable pub shown_all : List TableEvent → Screen → Exec Screen
    unfolding shown
    shown_all [] s = done s
    shown_all (e ∷ es) s = shown e s >>= λ s'. shown_all es s'

    shown-IsPlaced : (e : TableEvent) (s : Screen) → IsPlaced s → Ensures IsPlaced (shown e s)
    unfolding shown
    shown-IsPlaced (commanded command args) s o =
        Ensures->>= IsPlaced (run_cmd client eth (command, args) s) _
          (λ out q. of_done Stays q (run_cmd-Stays command args s o))
    shown-IsPlaced (proposal_notified notif) s o = incoming_channel-IsPlaced notif s o
    shown-IsPlaced (update_notified notif) s o = incoming_update-IsPlaced notif s o

    -- After any commands and notifications, from a table whose rows are in order, if none has
    -- panicked: every entry of the registry knows the row it is in, and no entry is in a row that was
    -- not given out.
    pub shown_all-IsPlaced :
        (es : List TableEvent) (s : Screen) → IsPlaced s → Ensures IsPlaced (shown_all es s)
    unfolding shown_all
    shown_all-IsPlaced [] s o = o
    shown_all-IsPlaced (e ∷ es) s o =
        Ensures->>= IsPlaced (shown e s) _
          (λ s' q. shown_all-IsPlaced es s' (of_done IsPlaced q (shown-IsPlaced e s o)))
