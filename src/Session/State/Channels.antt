-- ===== src/Session/State/Channels.antt =====
-- session/session.go: the channels of a session: `GetChsInfo`, `GetCh`, `HandleUpdate`, `Close`.
use dst_go.Base.{
  String, List, [], ◌∷◌, ◌++◌, Bool, true, false, ◌&&◌, not, Option, none, some, Exec, done, blocks,
  ◌>>=◌, print_hex, if◌then◌else◌,
}
use dst_go.Perun.Info.{ChInfo}
use dst_go.Errors.{GoError, text, with_message, ApiError, ApiResult, returned, refused}
use dst_go.Errors.Api.{
  new_api_err_failed_pre_condition, new_api_err_failed_pre_condition_unclosed_chs,
  new_api_err_resource_not_found, new_api_err_unknown_internal,
}
use dst_go.Channel.{State, Phase, acting, withdrawn, other_phase, ChStatus, open_ch, closed_ch}
use dst_go.Channel.Info.{get_ch_info, current_ch_info}
use dst_go.Channel.Updates.{Ch}
use dst_go.Session.ChRegistry.{get}
use dst_go.Session.State.{Backend, SessionOf, err_session_closed}

abbrev pub is_open_ch : ChStatus → Bool
is_open_ch open_ch = true
is_open_ch closed_ch = false

-- Neither `Acting` nor `Withdrawn`.
abbrev pub is_unexpected : Phase → Bool
is_unexpected acting = false
is_unexpected withdrawn = false
is_unexpected other_phase = true

module _ (b : Backend) where
  open b use {pc}

  unfoldable pub infos_of : List (Ch pc) → Exec (List ChInfo)
  infos_of [] = done []
  infos_of (ch ∷ chs) = do info ← get_ch_info pc ch; infos ← infos_of chs; done (info ∷ infos)

  -- `GetChsInfo`
  unfoldable pub get_chs_info : SessionOf b → Exec (List ChInfo)
  unfolding infos_of
  get_chs_info s = if s.session_locked then blocks else infos_of s.chs.chs

  -- `GetCh`
  unfoldable pub get_ch : String → SessionOf b → Exec (ApiResult (Ch pc))
  get_ch id s =
      if s.session_locked
      then blocks
      else (get s.chs id >>= λ found. elim found [
        | none ↦ done (refused (new_api_err_resource_not_found "channel" id))
        | some ch ↦ done (returned ch)
      ])

  -- What `HandleUpdate` of a session does with an update: it is dropped, rejected, or handed to a
  -- channel, whose `HandleUpdate` runs in a goroutine.
  pub data Routed : Type 0 where
    dropped rejected : Routed
    handed_to : Ch pc → Routed

  unfoldable pub route_update : State → SessionOf b → Exec Routed
  route_update proposed s =
      if s.session_locked
      then blocks
      else if s.is_open
      then (get s.chs (print_hex proposed.id) >>= λ found. elim found [
        | none ↦ done rejected
        | some ch ↦ done (handed_to ch)
      ])
      else done dropped

  -- What the loop of `Close` leaves: the channels, which are locked, the infos of the channels in an
  -- unexpected phase, and those of the open ones.
  pub record Survey : Type 0 where
    pub surveyed : List (Ch pc)
    pub unexpected : List ChInfo
    pub still_open : List ChInfo

  -- The info of the channel, when the test holds.
  unfoldable pub info_if : Bool → Ch pc → Exec (List ChInfo)
  info_if true ch = current_ch_info pc ch >>= λ info. done (info ∷ [])
  info_if false ch = done []

  unfoldable pub survey : List (Ch pc) → Exec Survey
  unfolding info_if
  survey [] = done (record { surveyed = []; unexpected = []; still_open = [] })
  survey (ch ∷ chs) =
      let later = survey chs in
      if ch.locked then blocks else (do
        unexpected_info ← info_if (is_unexpected (pc.pch_phase ch.pch)) ch
        open_info ← info_if (is_open_ch ch.status) ch
        rest ← later
        done (record {
          surveyed = record ch { locked = true } ∷ rest.surveyed;
          unexpected = unexpected_info ++ rest.unexpected;
          still_open = open_info ++ rest.still_open;
        }))

  -- `unlockAllChs`
  unfoldable pub unlock_all : List (Ch pc) → List (Ch pc)
  unlock_all [] = []
  unlock_all (ch ∷ chs) = record ch { locked = false } ∷ unlock_all chs

  unfoldable pub with_chs : List (Ch pc) → SessionOf b → SessionOf b
  with_chs chs s = record s { chs = record (s.chs) { chs = chs } }

  -- The error of `close`.
  unfoldable pub close_error : Option GoError → Option ApiError
  close_error none = none
  close_error (some e) = some (new_api_err_unknown_internal (with_message e "closing session"))

  abbrev pub Closed : Type 0
  Closed = SessionOf b × List ChInfo × Option ApiError

  -- The part of `Close` behind the loop.
  unfoldable pub judge_survey : Bool → SessionOf b → Survey → Closed
  unfolding unlock_all with_chs close_error
  judge_survey force s v = elim v.unexpected [
    | info ∷ infos ↦ (
      with_chs (unlock_all v.surveyed) s,
      [],
      some (
          new_api_err_failed_pre_condition_unclosed_chs
            (text "session cannot be closed with channels in unexpected phase") (info ∷ infos)),
    )
    | [] ↦
        if not force && any_open v.still_open
        then (
          with_chs (unlock_all v.surveyed) s,
          [],
          some (
              new_api_err_failed_pre_condition_unclosed_chs
                (text "session cannot be closed with channels in open phase without force option")
                v.still_open),
        )
        else (
          record (with_chs v.surveyed s) { is_open = false },
          v.still_open,
          close_error b.close_client,
        )
  ]
    where
      any_open : List ChInfo → Bool
      any_open [] = false
      any_open (info ∷ infos) = true

  -- `Close`
  unfoldable pub close_session : Bool → SessionOf b → Exec Closed
  unfolding survey judge_survey
  close_session force s =
      if s.session_locked
      then blocks
      else if s.is_open
      then (survey s.chs.chs >>= λ v. done (judge_survey force s v))
      else done (s, [], some (new_api_err_failed_pre_condition err_session_closed))
