-- ===== src/Payment/Sessions.antt =====
-- app/payment/session.go: the methods of a session under their names for payments. A payment channel
-- has no app, and no data of an app.
use dst_go.Base.{ℕ, String, List, Bool, Option, none, some, Exec, done, ◌>>=◌}
use dst_go.Perun.Info.{App, BalInfo, ChInfo, PayChInfo}
use dst_go.Errors.{ApiError, ApiResult, returned, refused}
use dst_go.Channel.{Context}
use dst_go.Session.State.{Backend, SessionOf}
use dst_go.Session.State.Open.{Proposer, open_channel}
use dst_go.Session.State.Channels.{get_chs_info, close_session}
use dst_go.Session.State.Proposals.{sub_ch_proposals, unsub_ch_proposals}
use dst_go.Session.State.Responses.{respond_ch_proposal}
use dst_go.Payment.{to_pay_ch_info, to_pay_chs_info}
use dst_go.Payment.Notifs.{to_pay_chs_close_session_err}

-- `pchannel.NoApp()` and `pchannel.NoData()`.
abbrev pub payment_app : App
payment_app = record { app_def = "NoApp"; app_data = "NoData" }

-- The value and the error that a Go function returns: where the error is not nil, the callers do not
-- read the value.
unfoldable pub result_of : {A : Type 0} → A → Option ApiError → ApiResult A
result_of a none = returned a
result_of a (some e) = refused e

-- `OpenSession`, behind the call of the node.
unfoldable pub to_pay_session :
    ApiResult (String × List ChInfo) → ApiResult (String × List PayChInfo)
unfolding to_pay_chs_info
to_pay_session (refused e) = refused e
to_pay_session (returned (session_id, infos)) = returned (session_id, to_pay_chs_info infos)

module _ (b : Backend) where
  -- What a method of a session gives: the session after it, and a result.
  abbrev pub Given : Type 0 → Type 0
  Given A = Exec (SessionOf b × ApiResult A)

  unfoldable pub open_pay_ch : Proposer b → Context → BalInfo → ℕ → SessionOf b → Given PayChInfo
  unfolding to_pay_ch_info result_of
  open_pay_ch client pctx opening challenge_dur_secs s = do
    (s', info, e) ← open_channel b client pctx opening payment_app challenge_dur_secs s
    done (s', result_of (to_pay_ch_info info) e)

  unfoldable pub get_pay_chs_info : SessionOf b → Exec (List PayChInfo)
  unfolding to_pay_chs_info
  get_pay_chs_info s = get_chs_info b s >>= λ infos. done (to_pay_chs_info infos)

  unfoldable pub sub_pay_ch_proposals : ℕ → SessionOf b → Exec (SessionOf b × Option ApiError)
  sub_pay_ch_proposals notifier s = sub_ch_proposals b notifier s

  unfoldable pub unsub_pay_ch_proposals : SessionOf b → Exec (SessionOf b × Option ApiError)
  unsub_pay_ch_proposals s = unsub_ch_proposals b s

  unfoldable pub respond_pay_ch_proposal :
      Context → ℕ → String → Bool → SessionOf b → Given PayChInfo
  unfolding to_pay_ch_info result_of
  respond_pay_ch_proposal pctx curr_time proposal_id accept s = do
    (s', info, e) ← respond_ch_proposal b pctx curr_time proposal_id accept s
    done (s', result_of (to_pay_ch_info info) e)

  unfoldable pub close_pay_session : Bool → SessionOf b → Given (List PayChInfo)
  unfolding to_pay_chs_info to_pay_chs_close_session_err result_of
  close_pay_session force s = do
    (s', infos, e) ← close_session b force s
    done (s', result_of (to_pay_chs_info infos) (to_pay_chs_close_session_err e))
