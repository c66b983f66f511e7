-- ===== src/Session/State/Closing.antt =====
-- session/session.go: what `Close` does with a session.
use dst_go.Base.{
  List, [], ◌∷◌, ◌++◌, All, Bool, true, false, Option, some, Exec, done, panic, blocks, ◌>>=◌,
  Returns, length, ◌≤◌, if◌then◌else◌, ◌≡◌, ◌≢◌, refl, sym, subst, ap, ◌∙◌, ◌⊎◌, inl, inr, arith,
}
use dst_go.Perun.Info.{ChInfo}
use dst_go.Errors.{text, ApiError}
use dst_go.Errors.Api.{new_api_err_failed_pre_condition_unclosed_chs}
use dst_go.Channel.Balances.{make_ch_info-Returns}
use dst_go.Channel.{Phase, acting, withdrawn, other_phase, ChStatus, open_ch, closed_ch}
use dst_go.Channel.Info.{get_ch_info, current_ch_info}
use dst_go.Channel.Updates.{Ch}
use dst_go.Session.State.{Backend, SessionOf}
use dst_go.Session.State.Channels.{
  infos_of, get_chs_info, info_if, is_unexpected, is_open_ch, Survey, survey, unlock_all, with_chs,
  close_error, judge_survey, close_session,
}

either_way : {A : Type 0} (x : Bool) (m : Exec A) → m ≡ blocks → (if x then blocks else m) ≡ blocks
either_way true m e = refl
either_way false m e = e

module _ (b : Backend) where
  open b use {pc}

  -- Every channel locked.
  abbrev pub lock_all : List (Ch pc) → List (Ch pc)
  lock_all [] = []
  lock_all (ch ∷ chs) = record ch { locked = true } ∷ lock_all chs

  abbrev pub IsUnlocked : Ch pc → Type 0
  IsUnlocked ch = ch.locked ≡ false

  -- There is a currency for every row of the balances.
  abbrev pub HasInfo : Ch pc → Type 0
  HasInfo ch = length (pc.pch_state ch.pch).balances ≤ length ch.currencies

  abbrev pub IsUnexpected : Ch pc → Type 0
  IsUnexpected ch = pc.pch_phase ch.pch ≡ other_phase

  abbrev pub IsOpen : Ch pc → Type 0
  IsOpen ch = ch.status ≡ open_ch

  -- The infos of those of the channels that have the property, in the order of the channels.
  pub data InfosOf (P : Ch pc → Type 0) : List (Ch pc) → List ChInfo → Type 0 where
    nothing : InfosOf P [] []
    listed :
        (ch : Ch pc) (chs : List (Ch pc)) (info : ChInfo) (infos : List ChInfo)
        → P ch
        → current_ch_info pc ch ≡ done info
        → InfosOf P chs infos
        → InfosOf P (ch ∷ chs) (info ∷ infos)
    passed :
        (ch : Ch pc) (chs : List (Ch pc)) (infos : List ChInfo)
        → ¬ P ch
        → InfosOf P chs infos
        → InfosOf P (ch ∷ chs) infos

  -- What the loop of `Close` finds.
  record Surveys (chs : List (Ch pc)) (v : Survey b) : Type 0 where
    all_locked : v.surveyed ≡ lock_all chs
    all_unexpected : InfosOf IsUnexpected chs v.unexpected
    all_open : InfosOf IsOpen chs v.still_open

  extended : Ch pc → List ChInfo → List ChInfo → Survey b → Exec (Survey b)
  extended ch us os r = done (record {
    surveyed = record ch { locked = true } ∷ r.surveyed;
    unexpected = us ++ r.unexpected;
    still_open = os ++ r.still_open;
  })

  survey_step :
      (ch : Ch pc) (chs : List (Ch pc)) (us os : List ChInfo)
      → ch.locked ≡ false
      → info_if b (is_unexpected (pc.pch_phase ch.pch)) ch ≡ done us
      → info_if b (is_open_ch ch.status) ch ≡ done os
      → survey b (ch ∷ chs) ≡ (survey b chs >>= extended ch us os)
  unfolding survey extended
  survey_step ch chs us os l u o = ground arith

  -- The test of a property gives the infos that the channel adds to those of the others.
  Adds : (Ch pc → Type 0) → Bool → Ch pc → Type 0
  Adds P x ch =
      (infos : List ChInfo) × (info_if b x ch ≡ done infos)
      × ((chs : List (Ch pc)) (later : List ChInfo)
          → InfosOf P chs later
          → InfosOf P (ch ∷ chs) (infos ++ later))

  info_if-Adds :
      (P : Ch pc → Type 0) (x : Bool) (ch : Ch pc)
      → HasInfo ch
      → (x ≡ true → P ch)
      → (x ≡ false → ¬ P ch)
      → Adds P x ch
  unfolding info_if current_ch_info Adds
  info_if-Adds P false ch h holds fails =
      ([], refl, λ chs later l. passed ch chs later (fails refl) l)
  info_if-Adds P true ch h holds fails =
      let (info, e, _, _, _, _, _) = make_ch_info-Returns ch.params (pc.pch_state ch.pch) h in
      (
        info ∷ [],
        ap (λ m. m >>= λ i. done (i ∷ [])) e,
        λ chs later l. listed ch chs info later (holds refl) e l,
      )

  unexpected_test :
      (p : Phase)
      → (is_unexpected p ≡ true → p ≡ other_phase) × (is_unexpected p ≡ false → p ≢ other_phase)
  unexpected_test acting = (λ e. cc, λ e q. cc)
  unexpected_test withdrawn = (λ e. cc, λ e q. cc)
  unexpected_test other_phase = (λ e. refl, λ e q. cc)

  open_test :
      (t : ChStatus) → (is_open_ch t ≡ true → t ≡ open_ch) × (is_open_ch t ≡ false → t ≢ open_ch)
  open_test open_ch = (λ e. refl, λ e q. cc)
  open_test closed_ch = (λ e. cc, λ e q. cc)

  -- The survey of channels that are free returns, with all of them locked and the infos of those
  -- in the way.
  survey-Returns :
      (chs : List (Ch pc))
      → All IsUnlocked chs
      → All HasInfo chs
      → Returns (Surveys chs) (survey b chs)
  unfolding survey extended Adds
  survey-Returns [] h k = record { all_locked = refl; all_unexpected = nothing; all_open = nothing }
  survey-Returns (ch ∷ chs) (l, h) (i, k) =
      let t = unexpected_test (pc.pch_phase ch.pch) in
      let (us, u, more_us) =
        info_if-Adds IsUnexpected (is_unexpected (pc.pch_phase ch.pch)) ch i t.0 t.1 in
      let t' = open_test ch.status in
      let (os, o, more_os) = info_if-Adds IsOpen (is_open_ch ch.status) ch i t'.0 t'.1 in
      subst (Returns (Surveys (ch ∷ chs))) (sym (survey_step ch chs us os l u o))
        (rest (survey b chs) us os more_us more_os (survey-Returns chs h k))
    where
      rest :
          (m : Exec (Survey b)) (us os : List ChInfo)
          → ((cs : List (Ch pc)) (later : List ChInfo)
              → InfosOf IsUnexpected cs later
              → InfosOf IsUnexpected (ch ∷ cs) (us ++ later))
          → ((cs : List (Ch pc)) (later : List ChInfo)
              → InfosOf IsOpen cs later
              → InfosOf IsOpen (ch ∷ cs) (os ++ later))
          → Returns (Surveys chs) m
          → Returns (Surveys (ch ∷ chs)) (m >>= extended ch us os)
      rest (done r) us os f g v = record {
        all_locked = ap (λ cs. record ch { locked = true } ∷ cs) v.all_locked;
        all_unexpected = f chs r.unexpected v.all_unexpected;
        all_open = g chs r.still_open v.all_open;
      }
      rest panic us os f g a = a
      rest blocks us os f g a = a

  unlock_all-lock_all :
      (chs : List (Ch pc)) → All IsUnlocked chs → unlock_all b (lock_all chs) ≡ chs
  unfolding unlock_all
  unlock_all-lock_all [] h = refl
  unlock_all-lock_all (ch ∷ chs) (l, h) =
      ap (λ c. c ∷ unlock_all b (lock_all chs)) (as_it_was ch l)
      ∙ ap (λ cs. ch ∷ cs) (unlock_all-lock_all chs h)
    where
      locked_as : Ch pc → Bool → Ch pc
      locked_as c x = record c { locked = x }

      as_it_was : (c : Ch pc) → c.locked ≡ false → record c { locked = false } ≡ c
      as_it_was c e = ap (locked_as c) (sym e)

  -- What closing does with a session. It stays as it was when channels are in an unexpected phase,
  -- or when channels are open and it is not forced, and the error has the infos of exactly these
  -- channels; or it is closed, with every channel locked: then no channel was in an unexpected
  -- phase, the infos of the open channels are given, and without force there are none.
  pub data Outcome (force : Bool) (s : SessionOf b)
      : SessionOf b × List ChInfo × Option ApiError → Type 0 where
    kept_unexpected :
        (info : ChInfo) (infos : List ChInfo)
        → InfosOf IsUnexpected s.chs.chs (info ∷ infos)
        → Outcome force s (
          s,
          [],
          some (
              new_api_err_failed_pre_condition_unclosed_chs
                (text "session cannot be closed with channels in unexpected phase")
                (info ∷ infos)),
        )
    kept_open :
        (info : ChInfo) (infos : List ChInfo)
        → force ≡ false
        → InfosOf IsUnexpected s.chs.chs []
        → InfosOf IsOpen s.chs.chs (info ∷ infos)
        → Outcome force s (
          s,
          [],
          some (
              new_api_err_failed_pre_condition_unclosed_chs
                (text "session cannot be closed with channels in open phase without force option")
                (info ∷ infos)),
        )
    closed :
        (still_open : List ChInfo)
        → InfosOf IsUnexpected s.chs.chs []
        → InfosOf IsOpen s.chs.chs still_open
        → (force ≡ true) ⊎ (still_open ≡ [])
        → Outcome force s (
          record (with_chs b (lock_all s.chs.chs) s) { is_open = false },
          still_open,
          close_error b b.close_client,
        )

  judge_survey-Outcome :
      (force : Bool) (s : SessionOf b) (us os : List ChInfo)
      → All IsUnlocked s.chs.chs
      → InfosOf IsUnexpected s.chs.chs us
      → InfosOf IsOpen s.chs.chs os
      → Outcome force s (
          judge_survey b force s
            (record { surveyed = lock_all s.chs.chs; unexpected = us; still_open = os }))
  unfolding judge_survey with_chs
  judge_survey-Outcome force s (u ∷ us) os h x y =
      rw (unlock_all-lock_all s.chs.chs h) (kept_unexpected u us x)
  judge_survey-Outcome true s [] os h x y = closed os x y (inl refl)
  judge_survey-Outcome false s [] (o ∷ os) h x y =
      rw (unlock_all-lock_all s.chs.chs h) (kept_open o os refl x y)
  judge_survey-Outcome false s [] [] h x y = closed [] x y (inr refl)

  hangs :
      (s : SessionOf b) (ch : Ch pc) (chs : List (Ch pc))
      → s.session_locked ≡ false
      → s.chs.chs ≡ ch ∷ chs
      → get_chs_info b (record (with_chs b (lock_all s.chs.chs) s) { is_open = false }) ≡ blocks
  unfolding get_chs_info infos_of with_chs get_ch_info
  hangs s ch chs l c =
      either_way s.session_locked _ (subst (λ cs. infos_of b (lock_all cs) ≡ blocks) (sym c) refl)

  closes :
      (force : Bool) (s : SessionOf b)
      → s.session_locked ≡ false
      → s.is_open ≡ true
      → close_session b force s ≡ (survey b s.chs.chs >>= λ v. done (judge_survey b force s v))
  unfolding close_session
  closes force s l o = ground arith

  -- Closing an open session whose channels are free and have an info returns. It leaves the session
  -- as it was when there are channels in an unexpected phase, or open ones and no force, and the
  -- error has the infos of just these channels, in order. Otherwise it closes the session, keeps
  -- every channel locked and gives the infos of the open channels.
  pub close_session-Outcome :
      (force : Bool) (s : SessionOf b)
      → s.session_locked ≡ false
      → s.is_open ≡ true
      → All IsUnlocked s.chs.chs
      → All HasInfo s.chs.chs
      → Returns (Outcome force s) (close_session b force s)
  close_session-Outcome force s l o h k =
      subst (Returns (Outcome force s)) (sym (closes force s l o))
        (judged (survey b s.chs.chs) (survey-Returns s.chs.chs h k))
    where
      judged :
          (m : Exec (Survey b))
          → Returns (Surveys s.chs.chs) m
          → Returns (Outcome force s) (m >>= λ v. done (judge_survey b force s v))
      judged (done v) e =
          subst (λ cs. Outcome force s (judge_survey b force s (record v { surveyed = cs })))
            (sym e.all_locked)
            (judge_survey-Outcome force s v.unexpected v.still_open h e.all_unexpected e.all_open)
      judged panic e = e
      judged blocks e = e

  -- After a session with a channel was closed, the infos of its channels cannot be had: the
  -- request waits for a lock that nothing releases.
  pub closed_session_blocks :
      (force : Bool) (s s' : SessionOf b) (ch : Ch pc) (chs : List (Ch pc)) (infos : List ChInfo)
      (e : Option ApiError)
      → s.session_locked ≡ false
      → s.is_open ≡ true
      → s.chs.chs ≡ ch ∷ chs
      → All IsUnlocked s.chs.chs
      → All HasInfo s.chs.chs
      → close_session b force s ≡ done (s', infos, e)
      → s'.is_open ≡ false
      → get_chs_info b s' ≡ blocks
  closed_session_blocks force s s' ch chs infos e l o c h k q off =
      outcome (s', infos, e)
        (subst (Returns (Outcome force s)) q (close_session-Outcome force s l o h k)) off
    where
      outcome :
          (r : SessionOf b × List ChInfo × Option ApiError)
          → Outcome force s r
          → (r.0).is_open ≡ false
          → get_chs_info b r.0 ≡ blocks
      outcome r (kept_unexpected i is x) off = absurd (ground (arith, o, off))
      outcome r (kept_open i is f x y) off = absurd (ground (arith, o, off))
      outcome r (closed still x y w) off = hangs s ch chs l c
