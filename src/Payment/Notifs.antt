-- ===== src/Payment/Notifs.antt =====
-- app/payment/channel.go and session.go: the notifications of the payment app, and the methods of
-- a channel under their names for payments.
use dst_go.Base.{ℕ, String, Bool, Option, none, some, Exec, done, ◌>>=◌}
use dst_go.Perun.Info.{BalInfo, ChInfo, PayChInfo}
use dst_go.Perun.Notifs.{
  ChUpdateType, open_update, final_update, closed_update, ChUpdateNotif, ChProposalNotif,
}
use dst_go.Errors.{ApiError, AddInfo, unclosed_chs, unclosed_pay_chs, as_go_error}
use dst_go.Errors.Api.{new_api_err}
use dst_go.Channel.{Context, PChannel}
use dst_go.Channel.Info.{get_ch_info}
use dst_go.Channel.Updates.{Ch, unsub_ch_updates, respond_ch_update}
use dst_go.Channel.Closing.{close}
use dst_go.Payment.{PayReply, to_pay_ch_info, to_pay_chs_info, to_pay_reply}

pub record PayChUpdateNotif : Type 0 where
  pub update_id : String
  pub proposed_pay_ch_info : PayChInfo
  pub type : ChUpdateType
  pub expiry : ℕ
  pub error : Option ApiError

pub record PayChProposalNotif : Type 0 where
  pub proposal_id : String
  pub opening_bal_info : BalInfo
  pub challenge_dur_secs : ℕ
  pub expiry : ℕ

unfoldable pub shown_info : ChUpdateType → ChUpdateNotif → ChInfo
shown_info closed_update n = n.curr_ch_info
shown_info open_update n = n.proposed_ch_info
shown_info final_update n = n.proposed_ch_info

-- What `SubPayChUpdates` makes of a notification.
unfoldable pub to_pay_ch_update_notif : ChUpdateNotif → PayChUpdateNotif
unfolding shown_info to_pay_ch_info
to_pay_ch_update_notif n = record {
  update_id = n.update_id;
  proposed_pay_ch_info = to_pay_ch_info (shown_info n.type n);
  type = n.type;
  expiry = n.expiry;
  error = n.error;
}

-- What `SubPayChProposals` makes of a notification.
unfoldable pub to_pay_ch_proposal_notif : ChProposalNotif → PayChProposalNotif
to_pay_ch_proposal_notif n = record {
  proposal_id = n.proposal_id;
  opening_bal_info = n.opening_bal_info;
  challenge_dur_secs = n.challenge_dur_secs;
  expiry = n.expiry;
}

unfoldable pub pay_add_info : AddInfo → ApiError → ApiError
unfolding new_api_err to_pay_chs_info
pay_add_info (unclosed_chs infos) e =
    new_api_err e.category e.code (as_go_error e) (unclosed_pay_chs (to_pay_chs_info infos))
pay_add_info _ e = e

-- `toPayChsCloseSessionErr`
unfoldable pub to_pay_chs_close_session_err : Option ApiError → Option ApiError
unfolding pay_add_info
to_pay_chs_close_session_err none = none
to_pay_chs_close_session_err (some e) = some (pay_add_info e.add_info e)

module _ (pc : PChannel) where
  unfoldable pub get_pay_ch_info : Ch pc → Exec PayChInfo
  unfolding to_pay_ch_info
  get_pay_ch_info ch = get_ch_info pc ch >>= λ info. done (to_pay_ch_info info)

  unfoldable pub unsub_pay_ch_updates : Ch pc → Exec (Ch pc × Option ApiError)
  unsub_pay_ch_updates ch = unsub_ch_updates pc ch

  unfoldable pub respond_pay_ch_update : Context → ℕ → String → Bool → Ch pc → Exec (PayReply pc)
  unfolding to_pay_reply
  respond_pay_ch_update pctx curr_time id accept ch =
      respond_ch_update pc pctx curr_time id accept ch >>= λ out. done (to_pay_reply pc out)

  unfoldable pub close_pay_ch : Context → Ch pc → Exec (PayReply pc)
  unfolding to_pay_reply
  close_pay_ch pctx ch = close pc pctx ch >>= λ out. done (to_pay_reply pc out)
