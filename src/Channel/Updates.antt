-- ===== src/Channel/Updates.antt =====
-- session/channel.go: sending and handling updates, subscriptions, and responses to updates.
-- The lock that a public method takes is released when it returns.
use dst_go.Base.{
  ℕ, zero, suc, String, List, [], ◌∷◌, ◌++◌, Bool, true, false, Option, none, some, Exec, done,
  panic, blocks, ◌>>=◌, or_panic, get_elem?, insert, lookup, erase, length, ltb, leb, ◌==◌,
  print_uint, if◌then◌else◌, ◌&◌, ◌+◌, ◌-◌, ◌/◌, ◌%◌, ◌^◌, take, Duration, second, duration_string,
}
use dst_go.Perun.Info.{ChInfo, no_ch_info}
use dst_go.Perun.Notifs.{ChUpdateNotif, ChUpdateType, open_update, final_update, closed_update}
use dst_go.Errors.{GoError, text, with_message, ApiError}
use dst_go.Errors.Api.{
  new_api_err_failed_pre_condition, new_api_err_resource_not_found, new_api_err_resource_exists,
  new_api_err_user_response_timed_out, new_api_err_unknown_internal,
}
use dst_go.Session.Timeout.{ch_update, resp_ch_update, register}
use dst_go.Session.Failures.{handle_proposal_error, handle_chain_error, or_internal}
use dst_go.Channel.{
  State, PChannel, Channel, ChStatus, ChUpdateResponderEntry, Params, Context, with_timeout,
  open_ch, closed_ch,
}
use dst_go.Channel.Info.{make_ch_info, current_ch_info}

abbrev pub err_ch_closed : GoError
err_ch_closed = text "action not allowed on a closed channel"

abbrev pub res_type_update : String
res_type_update = "update"

abbrev pub res_type_update_sub : String
res_type_update_sub = "updatesSub"

-- `status == closed`
abbrev pub is_closed : ChStatus → Bool
is_closed open_ch = false
is_closed closed_ch = true

-- `time.Now().UTC().Add(d).Unix()` for the time `now` in nanoseconds; a time before 1970 is 0.
unfoldable pub unix_after : ℕ → Duration → ℕ
unix_after now d = if leb (2 ^ 63) d then (now - (2 ^ 64 - d)) / second else (now + d) / second

-- `n ^ 1`
unfoldable pub other_idx : ℕ → ℕ
other_idx n = if n % 2 == 0 then n + 1 else n - 1

-- `xs[1:i]`, where `i` is at most the length.
abbrev pub slice_from_one : List ChUpdateNotif → ℕ → Exec (List ChUpdateNotif)
slice_from_one [] i = panic
slice_from_one (x ∷ xs) zero = panic
slice_from_one (x ∷ xs) (suc i) = if leb i (length xs) then done (take i xs) else panic

-- `fmt.Sprintf("%s_%d", ch.ID(), version)`
unfoldable pub update_id : String → ℕ → String
update_id ch_id version = ch_id & "_" & print_uint version

unfoldable pub make_ch_update_notif : Params → ChInfo → State → ℕ → Exec ChUpdateNotif
unfolding update_id
make_ch_update_notif p curr proposed expiry = do
  proposed_info ← make_ch_info p proposed
  done (record {
    update_id = update_id p.id proposed.version;
    curr_ch_info = curr;
    proposed_ch_info = proposed_info;
    type = if proposed.is_final then final_update else open_update;
    expiry = expiry;
    error = none;
  })

module _ (pc : PChannel) where
  open pc use {Ctrl, Responder, pch_idx, pch_state, update_by, pch_register, accept, reject}

  abbrev pub Ch : Type 0
  Ch = Channel Ctrl Responder

  -- What a method returns: the channel after it, its info, and the error.
  abbrev pub Reply : Type 0
  Reply = Ch × ChInfo × Option ApiError

  -- The reply that carries the info of the channel as it stands.
  unfoldable pub reply : Ch → Option ApiError → Exec Reply
  reply ch e = current_ch_info pc ch >>= λ info. done (ch, info, e)

  unfoldable pub handle_send_ch_update_error : Ch → GoError → Exec ApiError
  handle_send_ch_update_error ch e = do
    peer_alias ← or_panic (get_elem? ch.parts (other_idx (pch_idx ch.pch)))
    done (
        or_internal (handle_proposal_error peer_alias (duration_string ch.timeout_cfg.response) e)
          e)

  unfoldable pub after_update : Ch → Ctrl × Option GoError → Exec Reply
  unfolding reply handle_send_ch_update_error
  after_update ch (pch, none) = reply (record ch { pch = pch }) none
  after_update ch (pch, some e) = do
    api_err ← handle_send_ch_update_error ch (with_message e "sending channel update")
    done (record ch { pch = pch }, no_ch_info, some api_err)

  -- `SendChUpdate`
  unfoldable pub send_ch_update : Context → (State → Exec State) → Ch → Exec Reply
  unfolding after_update reply
  send_ch_update pctx updater ch =
      if ch.locked
      then blocks
      else if is_closed ch.status
      then reply ch (some (new_api_err_failed_pre_condition err_ch_closed))
      else update_by (with_timeout pctx (ch_update ch.timeout_cfg)) updater ch.pch
        >>= after_update ch

  -- A notifier is called in a goroutine of its own, which `sent` records when it is spawned. The
  -- goroutine of the source reads the field of the notifier again when it runs; here it is the one
  -- that was there before.
  unfoldable pub send_ch_update_notif : ChUpdateNotif → Ch → Ch
  send_ch_update_notif n ch = elim ch.notifier [
    | none ↦ record ch { notif_cache = ch.notif_cache ++ n ∷ [] }
    | some f ↦ record ch { sent = ch.sent ++ (f, n) ∷ [] }
  ]

  unfoldable pub store_responder : ℕ → ChUpdateNotif → Responder → Ch → Ch
  store_responder expiry n r ch = if expiry == 0 then ch else record ch {
    responders =
        insert n.update_id (record { notif = n; responder = r; notif_expiry = expiry })
          ch.responders;
  }

  -- `HandleUpdate`: the current state and the proposed one come from go-perun.
  unfoldable pub handle_update : ℕ → State → State → Responder → Ch → Exec Ch
  unfolding store_responder send_ch_update_notif
  handle_update now curr_state proposed r ch =
      if ch.locked then blocks else if is_closed ch.status then done ch else (do
        let expiry = unix_after now ch.timeout_cfg.response
        curr ← make_ch_info ch.params curr_state
        n ← make_ch_update_notif ch.params curr proposed expiry
        done (send_ch_update_notif n (store_responder expiry n r ch)))

  -- The loop of `SubChUpdates` over the cache, with `i` rounds to go: each spawns a goroutine, and
  -- `sent` has them in the order of spawning.
  unfoldable pub send_cached : ℕ → ℕ → Ch → Exec Ch
  send_cached zero f ch = done ch
  send_cached (suc i) f ch = do
    n ← or_panic (get_elem? ch.notif_cache 0)
    rest ← slice_from_one ch.notif_cache (suc i)
    send_cached i f (record ch { sent = ch.sent ++ (f, n) ∷ []; notif_cache = rest })

  -- `SubChUpdates`
  unfoldable pub sub_ch_updates : ℕ → Ch → Exec (Ch × Option ApiError)
  sub_ch_updates f ch =
      if ch.locked
      then blocks
      else if is_closed ch.status
      then done (ch, some (new_api_err_failed_pre_condition err_ch_closed))
      else elim ch.notifier [
        | some _ ↦ done (ch, some (new_api_err_resource_exists res_type_update_sub ch.id))
        | none ↦ send_cached (length ch.notif_cache) f (record ch { notifier = some f }) >>= λ ch'.
            done (ch', none)
      ]

  unfoldable pub unsub_ch_updates : Ch → Exec (Ch × Option ApiError)
  unsub_ch_updates ch =
      if ch.locked
      then blocks
      else if is_closed ch.status
      then done (ch, some (new_api_err_failed_pre_condition err_ch_closed))
      else elim ch.notifier [
        | none ↦ done (ch, some (new_api_err_resource_not_found res_type_update_sub ch.id))
        | some _ ↦ done (record ch { notifier = none }, none)
      ]

  -- `register`: the latest state goes on the chain.
  unfoldable pub register_state : Context → Ch → Ch × Option ApiError
  register_state pctx ch =
      let (pch, e) =
        pch_register (with_timeout pctx (register ch.timeout_cfg ch.challenge_dur_secs)) ch.pch in
      (
        record ch { pch = pch },
        elim e [
          | none ↦ none
          | some err ↦
              let err' = with_message err "registering channel state" in
              some (
                or_internal
                  (handle_chain_error ch.chain_url (duration_string ch.timeout_cfg.on_chain_tx)
                    err')
                  err')
        ],
      )

  unfoldable pub accept_ch_update :
      Context → ChUpdateResponderEntry Responder → Ch → Ch × Option ApiError
  accept_ch_update pctx entry ch =
      let (pch, e) =
        accept entry.responder (with_timeout pctx (resp_ch_update ch.timeout_cfg)) ch.pch in
      (
        record ch { pch = pch },
        elim e [
          | none ↦ none
          | some err ↦ some (new_api_err_unknown_internal (with_message err "accepting update"))
        ],
      )

  unfoldable pub reject_ch_update :
      Context → ChUpdateResponderEntry Responder → String → Ch → Ch × Option ApiError
  reject_ch_update pctx entry reason ch =
      let (pch, e) =
        reject entry.responder (with_timeout pctx (resp_ch_update ch.timeout_cfg)) reason ch.pch in
      (
        record ch { pch = pch },
        elim e [
          | none ↦ none
          | some err ↦ some (new_api_err_unknown_internal (with_message err "rejecting update"))
        ],
      )

  -- A final update that was accepted is registered.
  unfoldable pub register_if_final :
      Context → ChUpdateType → Ch × Option ApiError → Ch × Option ApiError
  unfolding register_state
  register_if_final pctx final_update (ch, none) = register_state pctx ch
  register_if_final pctx final_update (ch, some e) = (ch, some e)
  register_if_final pctx open_update (ch, e) = (ch, e)
  register_if_final pctx closed_update (ch, e) = (ch, e)

  unfoldable pub answer :
      Context → ChUpdateResponderEntry Responder → Bool → Ch → Ch × Option ApiError
  unfolding accept_ch_update register_if_final reject_ch_update
  answer pctx entry true ch =
      register_if_final pctx entry.notif.type (accept_ch_update pctx entry ch)
  answer pctx entry false ch = reject_ch_update pctx entry "rejected by user" ch

  -- The part of `RespondChUpdate` behind the removal of the entry.
  unfoldable pub respond_entry :
      Context → ℕ → ChUpdateResponderEntry Responder → Bool → Ch → Exec Reply
  unfolding answer reply
  respond_entry pctx curr_time entry accepted ch =
      if ltb entry.notif_expiry curr_time
      then reply ch (some (new_api_err_user_response_timed_out entry.notif.expiry curr_time))
      else (let (ch', e) = answer pctx entry accepted ch in reply ch' e)

  -- `RespondChUpdate` at the Unix time `curr_time`.
  unfoldable pub respond_ch_update : Context → ℕ → String → Bool → Ch → Exec Reply
  unfolding respond_entry
  respond_ch_update pctx curr_time id accepted ch =
      if ch.locked
      then blocks
      else if is_closed ch.status
      then reply ch (some (new_api_err_failed_pre_condition err_ch_closed))
      else elim (lookup id ch.responders) [
        | none ↦ reply ch (some (new_api_err_resource_not_found res_type_update id))
        | some entry ↦
            respond_entry pctx curr_time entry accepted
              (record ch { responders = erase id ch.responders })
      ]
