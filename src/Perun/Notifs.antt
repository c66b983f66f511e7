-- ===== src/Perun/Notifs.antt =====
-- perun.go: the notifications. Times are Unix seconds, which are not negative.
use dst_go.Base.{ℕ, String, Option}
use dst_go.Perun.Info.{BalInfo, App, ChInfo}
use dst_go.Errors.{ApiError}

pub data ChUpdateType : Type 0 where
  open_update final_update closed_update : ChUpdateType

pub record ChUpdateNotif : Type 0 where
  pub update_id : String
  pub curr_ch_info : ChInfo
  pub proposed_ch_info : ChInfo
  pub type : ChUpdateType
  pub expiry : ℕ
  pub error : Option ApiError

pub record ChProposalNotif : Type 0 where
  pub proposal_id : String
  pub opening_bal_info : BalInfo
  pub app : App
  pub challenge_dur_secs : ℕ
  pub expiry : ℕ
