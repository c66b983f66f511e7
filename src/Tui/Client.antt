-- ===== src/Tui/Client.antt =====
-- cmd/perunnodetui/paymentclient.go: the requests that the interface sends to the node.
use dst_go.Base.{
  ℕ, String, List, [], ◌∷◌, get_elem?, Bool, true, false, ◌||◌, not, Option, none, some, Exec, done,
  ◌>>=◌, or_panic, ◌==◌, str_eq, if◌then◌else◌, ◌&◌,
}
use dst_go.Perun.Info.{own_alias}
use dst_go.Errors.{GoError, text, with_message, Fallible, ok, fail}
use dst_go.Errors.Api.{err_peer_rejected, err_peer_request_timed_out}
use dst_go.Grpc.{PaymentMsg, BalInfoMsg, PayChInfoMsg, Response, error_msg, msg_success}

-- `balInfo`
pub record ShownBal : Type 0 where
  pub ours : String
  pub theirs : String
  pub version : String

abbrev pub no_bal : ShownBal
no_bal = record { ours = ""; theirs = ""; version = "" }

-- The client of the gRPC server, which is generated. A request fails, or is answered; the session is
-- the one that is open. An answer to a rejected proposal has no channel info.
pub record NodeClient : Type 0 where
  pub open_pay_ch : BalInfoMsg → ℕ → Fallible (Response PayChInfoMsg)
  pub respond_pay_ch_proposal : String → Bool → Fallible (Response PayChInfoMsg)
  pub send_pay_ch_update : String → List PaymentMsg → Fallible (Response PayChInfoMsg)
  pub respond_pay_ch_update : String → String → Bool → Fallible (Response PayChInfoMsg)
  pub close_pay_ch : String → Fallible (Response PayChInfoMsg)

-- `findPeerIndex`
unfoldable pub find_peer_index : List String → ℕ
find_peer_index (a ∷ b ∷ []) =
    if not (str_eq a own_alias) then 0 else if not (str_eq b own_alias) then 1 else 0
find_peer_index _ = 0

-- `idx ^ 1` of 0 and 1.
abbrev other_index : ℕ → ℕ
other_index i = if i == 0 then 1 else 0

-- `grpcBalInfotoBalInfo`
unfoldable pub bal_of : BalInfoMsg → Exec ShownBal
unfolding find_peer_index
bal_of msg = do
  row ← or_panic (get_elem? msg.bals_field 0)
  ours ← or_panic (get_elem? row.bal (other_index (find_peer_index msg.parts_field)))
  theirs ← or_panic (get_elem? row.bal (find_peer_index msg.parts_field))
  done (record { ours = ours; theirs = theirs; version = "" })

-- `grpcPayChInfotoBalInfo`
unfoldable pub shown_bal : PayChInfoMsg → Exec ShownBal
unfolding bal_of
shown_bal msg = bal_of msg.bal_info_field >>= λ b. done (record b { version = msg.version_field })

-- The challenge duration of the channels that are proposed.
abbrev challenge_dur_secs : ℕ
challenge_dur_secs = 10

abbrev pub err_not_connected : GoError
err_not_connected = text "not connected to perun node"

-- What a request gives: an error, or what is made of the answer.
abbrev pub Result : Type 0 → Type 0
Result A = Exec (Fallible A)

module _ (client : Option NodeClient) where
  -- Nothing of a value that says the peer did not agree.
  unfoldable pub opened_for : Fallible (Response PayChInfoMsg) → Result (Option (String × ShownBal))
  unfolding shown_bal
  opened_for (fail e) = done (fail (with_message e "sending open request"))
  opened_for (ok (error_msg e)) =
      if e.code_field == err_peer_rejected
      then done (ok none)
      else done (fail (text ("open request failed: " & e.message)))
  opened_for (ok (msg_success info)) =
      shown_bal info >>= λ b. done (ok (some (info.ch_id_field, b)))

  -- The function that `newOutgoingChannelProposalFn` gives.
  unfoldable pub propose_channel : String → String → String → Result (Option (String × ShownBal))
  unfolding opened_for
  propose_channel peer ours theirs = elim client [
    | none ↦ done (fail err_not_connected)
    | some c ↦ opened_for (
        c.open_pay_ch
          (record {
            currencies_field = "ETH" ∷ [];
            parts_field = own_alias ∷ peer ∷ [];
            bals_field = record { bal = ours ∷ theirs ∷ [] } ∷ [];
          })
          challenge_dur_secs)
  ]

  unfoldable pub responded : Bool → Fallible (Response PayChInfoMsg) → Result (String × ShownBal)
  unfolding shown_bal
  responded accept (fail e) = done (fail (with_message e "responding to proposal"))
  responded accept (ok (error_msg e)) =
      done (fail (text ("Error responding to proposal: " & e.message)))
  responded false (ok (msg_success info)) = done (ok ("", no_bal))
  responded true (ok (msg_success info)) = shown_bal info >>= λ b. done (ok (info.ch_id_field, b))

  -- `respondToProposal`
  unfoldable pub respond_to_proposal : String → Bool → Result (String × ShownBal)
  unfolding responded
  respond_to_proposal id accept = elim client [
    | none ↦ done (fail err_not_connected)
    | some c ↦ responded accept (c.respond_pay_ch_proposal id accept)
  ]

  -- An answer that has the info of a channel, or an error.
  unfoldable pub informed : String → String → Fallible (Response PayChInfoMsg) → Result ShownBal
  unfolding shown_bal
  informed sending failed (fail e) = done (fail (with_message e sending))
  informed sending failed (ok (error_msg e)) = done (fail (text (failed & e.message)))
  informed sending failed (ok (msg_success info)) = shown_bal info >>= λ b. done (ok b)

  -- `respondToUpdate`
  unfoldable pub respond_to_update : String → String → Bool → Result ShownBal
  unfolding informed
  respond_to_update ch_id update_id accept = elim client [
    | none ↦ done (fail err_not_connected)
    | some c ↦
        informed "responding to update" "responding to update: "
          (c.respond_pay_ch_update ch_id update_id accept)
  ]

  unfoldable pub updated_for : Fallible (Response PayChInfoMsg) → Result (Option ShownBal)
  unfolding shown_bal
  updated_for (fail e) = done (fail (with_message e "sending channel update"))
  updated_for (ok (error_msg e)) =
      if (e.code_field == err_peer_rejected) || (e.code_field == err_peer_request_timed_out)
      then done (ok none)
      else done (fail (text ("send update request failed: " & e.message)))
  updated_for (ok (msg_success info)) = shown_bal info >>= λ b. done (ok (some b))

  -- `sendUpdate`
  unfoldable pub send_update : String → String → String → Result (Option ShownBal)
  unfolding updated_for
  send_update ch_id payee amount = elim client [
    | none ↦ done (fail err_not_connected)
    | some c ↦ updated_for (
        c.send_pay_ch_update ch_id
          (record { currency_field = "ETH"; payee_field = payee; amount_field = amount } ∷ []))
  ]

  -- `closeCh`
  unfoldable pub close_request : String → Result ShownBal
  unfolding informed
  close_request ch_id = elim client [
    | none ↦ done (fail err_not_connected)
    | some c ↦ informed "sending channel update" "close request failed: " (c.close_pay_ch ch_id)
  ]
