-- ===== src/Grpc/Server.antt =====
-- api/grpc/server.go: the server, its table of subscriptions and the handlers of subscriptions. A
-- signal, a Go channel that is only ever closed, is known by a number; `closed` has those that were
-- closed. A handler that waits for its signal ends when it is closed. Each access to the table is
-- one step, which is what the mutex makes of it.
pub mod Handlers
use dst_go.Base.{
  ℕ, suc, String, List, [], ◌∷◌, ◌++◌, Bool, true, false, ◌||◌, Option, none, some, Exec, done,
  panic, ◌>>=◌, ◌==◌, lookup, insert, erase, if◌then◌else◌,
}
use dst_go.Perun.Notifs.{ChUpdateType, open_update, final_update, closed_update}
use dst_go.Errors.{ApiError, ApiResult, returned, refused}
use dst_go.Payment.Notifs.{PayChUpdateNotif, PayChProposalNotif}
use dst_go.Grpc.{UpdateMsg, ProposalMsg, Response, error_msg, msg_success}
use dst_go.Grpc.Api.{PayApi}
use dst_go.Grpc.Convert.{to_grpc_error, to_update_msg, to_proposal_msg}

-- A map to signals.
abbrev pub Signals : Type 0
Signals = List (String × ℕ)

-- `payChAPIServer`. `next_signal` is what the next `make(chan bool)` gives; the messages that were
-- sent on streams are a trace.
pub record Server (N : Type 0) : Type 0 where
  pub node : N
  pub ch_proposals_notif : Signals
  pub ch_updates_notif : List (String × Signals)
  pub next_signal : ℕ
  pub closed : List ℕ
  pub proposals_sent : List (ℕ × ProposalMsg)
  pub updates_sent : List (ℕ × UpdateMsg)

-- The server that `ListenAndServePayChAPI` starts.
unfoldable pub new_server : {N : Type 0} → N → Server N
new_server n = record {
  node = n;
  ch_proposals_notif = [];
  ch_updates_notif = [];
  next_signal = 0;
  closed = [];
  proposals_sent = [];
  updates_sent = [];
}

unfoldable pub is_in : ℕ → List ℕ → Bool
is_in x [] = false
is_in x (y ∷ ys) = (y == x) || is_in x ys

-- A map of a session that is missing reads as an empty one.
unfoldable pub or_empty : Option (Signals) → Signals
or_empty none = []
or_empty (some signals) = signals

-- `delete(a.chUpdatesNotif[sessionID], chID)`, which does nothing to a map that is nil.
unfoldable pub delete_signal : String → String → List (String × Signals) → List (String × Signals)
delete_signal session_id ch_id table = elim (lookup session_id table) [
  | none ↦ table
  | some signals ↦ insert session_id (erase ch_id signals) table
]

-- How the handler of a subscription goes on: it has ended with an error of the protocol, or it waits
-- for the signal.
pub data Started : Type 0 where
  ended : ApiError → Started
  waits_for : ℕ → Started

-- Which update type ends a subscription.
abbrev pub is_closed_update : ChUpdateType → Bool
is_closed_update open_update = false
is_closed_update final_update = false
is_closed_update closed_update = true

module _ {N : Type 0} where
  -- `close(signal)`, which panics for a channel that is nil or closed.
  unfoldable pub close_signal : Option ℕ → Server N → Exec (Server N)
  unfolding is_in
  close_signal none a = panic
  close_signal (some signal) a =
      if is_in signal a.closed then panic else done (record a { closed = signal ∷ a.closed })

  unfoldable pub close_grpc_pay_ch_proposal_sub : String → Server N → Exec (Server N)
  unfolding close_signal
  close_grpc_pay_ch_proposal_sub session_id a =
      close_signal (lookup session_id a.ch_proposals_notif)
        (record a { ch_proposals_notif = erase session_id a.ch_proposals_notif })

  -- `a.chUpdatesNotif[sessionID][chID]`
  unfoldable pub update_signal : String → String → Server N → Option ℕ
  unfolding or_empty
  update_signal session_id ch_id a = lookup ch_id (or_empty (lookup session_id a.ch_updates_notif))

  unfoldable pub close_grpc_pay_ch_update_sub : String → String → Server N → Exec (Server N)
  unfolding close_signal update_signal delete_signal
  close_grpc_pay_ch_update_sub session_id ch_id a =
      close_signal (update_signal session_id ch_id a)
        (record a { ch_updates_notif = delete_signal session_id ch_id a.ch_updates_notif })

  -- The end of `SubPayChProposals`: the signal is made and kept, and the handler waits.
  unfoldable pub keep_proposal_signal : String → Server N → Server N × Started
  keep_proposal_signal session_id a = (
    record a {
      ch_proposals_notif = insert session_id a.next_signal a.ch_proposals_notif;
      next_signal = suc a.next_signal;
    },
    waits_for a.next_signal,
  )

  -- The write to the map of the session: to one that is nil it panics.
  unfoldable pub keep_in : String → String → Server N → Option Signals → Exec (Server N × Started)
  keep_in session_id ch_id a none = panic
  keep_in session_id ch_id a (some signals) = done (
    record a {
      ch_updates_notif = insert session_id (insert ch_id a.next_signal signals) a.ch_updates_notif;
      next_signal = suc a.next_signal;
    },
    waits_for a.next_signal,
  )

  -- The end of `SubPayChUpdates`.
  unfoldable pub keep_update_signal : String → String → Server N → Exec (Server N × Started)
  unfolding keep_in
  keep_update_signal session_id ch_id a =
      keep_in session_id ch_id a (lookup session_id a.ch_updates_notif)

  -- The notifier that `SubPayChProposals` makes for a stream.
  unfoldable pub notify_proposal : ℕ → PayChProposalNotif → Server N → Server N
  unfolding to_proposal_msg
  notify_proposal stream notif a = record a {
    proposals_sent = a.proposals_sent ++ (stream, to_proposal_msg notif) ∷ [];
  }

  -- What the notifier of updates does behind the sending.
  unfoldable pub end_if_closed : String → String → Bool → Server N → Exec (Server N)
  unfolding close_grpc_pay_ch_update_sub
  end_if_closed session_id ch_id true a = close_grpc_pay_ch_update_sub session_id ch_id a
  end_if_closed session_id ch_id false a = done a

  -- The notifier that `SubPayChUpdates` makes for a stream.
  unfoldable pub notify_update : String → String → ℕ → PayChUpdateNotif → Server N → Exec (Server N)
  unfolding to_update_msg end_if_closed
  notify_update session_id ch_id stream notif a = do
    msg ← to_update_msg notif
    end_if_closed session_id ch_id (is_closed_update notif.type)
        (record a { updates_sent = a.updates_sent ++ (stream, msg) ∷ [] })

  -- `errResponse`
  unfoldable pub err_response : {A : Type 0} → Server N → ApiError → Exec (Server N × Response A)
  unfolding to_grpc_error
  err_response a e = to_grpc_error e >>= λ msg. done (a, error_msg msg)

module _ (api : PayApi) where
  open api use {Node, SessionRef, ChRef, get_session, get_ch}

  abbrev pub Answer : Type 0 → Type 0
  Answer A = Exec (Server Node × Response A)

  -- What the handlers of requests begin with: the session is retrieved, or the request is refused.
  unfoldable pub with_session :
      {A : Type 0} → String → (SessionRef → Answer A) → Server Node → Answer A
  unfolding err_response
  with_session session_id go_on a = get_session session_id a.node >>= λ r. elim r [
    | refused e ↦ err_response a e
    | returned sess ↦ go_on sess
  ]

  unfoldable pub with_ch :
      {A : Type 0} → String → String → (ChRef → Answer A) → Server Node → Answer A
  unfolding with_session
  with_ch session_id ch_id go_on a =
      with_session session_id
        (λ sess. get_ch sess ch_id a.node >>= λ r. elim r [
          | refused e ↦ err_response a e
          | returned ch ↦ go_on ch
        ])
        a

  -- The answer to a call that gives a value or an error.
  unfoldable pub answer_with :
      {A B : Type 0} → (A → B) → Server Node → Node × ApiResult A → Answer B
  unfolding err_response
  answer_with show a (n, refused e) = err_response (record a { node = n }) e
  answer_with show a (n, returned v) = done (record a { node = n }, msg_success (show v))

  -- The beginning of `SubPayChProposals`, up to the subscription.
  unfoldable pub begin_proposals : String → ℕ → Server Node → Exec (Server Node × Option ApiError)
  begin_proposals session_id stream a = get_session session_id a.node >>= λ r. elim r [
    | refused e ↦ done (a, some e)
    | returned sess ↦ api.sub_pay_ch_proposals sess stream a.node >>= λ out.
        done (record a { node = out.0 }, out.1)
  ]

  unfoldable pub sub_pay_ch_proposals : String → ℕ → Server Node → Exec (Server Node × Started)
  unfolding begin_proposals keep_proposal_signal
  sub_pay_ch_proposals session_id stream a = begin_proposals session_id stream a >>= λ out.
      elim out.1 [
        | some e ↦ done (out.0, ended e)
        | none ↦ done (keep_proposal_signal session_id out.0)
      ]

  unfoldable pub begin_updates :
      String → String → ℕ → Server Node → Exec (Server Node × Option ApiError)
  begin_updates session_id ch_id stream a = get_session session_id a.node >>= λ r. elim r [
    | refused e ↦ done (a, some e)
    | returned sess ↦ get_ch sess ch_id a.node >>= λ found. elim found [
      | refused e ↦ done (a, some e)
      | returned ch ↦
          api.sub_pay_ch_updates ch stream a.node >>= λ out. done (record a { node = out.0 }, out.1)
    ]
  ]

  unfoldable pub sub_pay_ch_updates :
      String → String → ℕ → Server Node → Exec (Server Node × Started)
  unfolding begin_updates keep_update_signal
  sub_pay_ch_updates session_id ch_id stream a = begin_updates session_id ch_id stream a >>= λ out.
      elim out.1 [
        | some e ↦ done (out.0, ended e)
        | none ↦ keep_update_signal session_id ch_id out.0
      ]
