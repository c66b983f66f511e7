-- ===== src/Payment.antt =====
-- app/payment/channel.go: payments on a channel, and the infos of the payment app.
pub mod Notifs
pub mod Sessions
pub mod Laws
mod Transfers
mod Tests
use dst_go.Base.{
  ℕ, zero, suc, String, List, [], ◌∷◌, map, Bool, Option, none, some, ℤ, ◌+ℤ◌, ◌-ℤ◌, Exec, done,
  panic, blocks, ◌>>=◌, or_panic, get_elem?, set, str_eq, if◌then◌else◌,
}
use dst_go.Perun.Info.{ChInfo, PayChInfo, no_ch_info}
use dst_go.Errors.{
  GoError, text, with_message, ApiError, Fallible, ok, fail, ApiResult, returned, refused,
}
use dst_go.Errors.Api.{new_api_err_resource_not_found, new_api_err_invalid_argument}
use dst_go.Channel.{State, Context, Currency, PChannel}
use dst_go.Channel.Info.{currency_of}
use dst_go.Channel.Updates.{Ch, Reply, other_idx, send_ch_update}

pub record Payment : Type 0 where
  pub currency : String
  pub payee : String
  pub amount : String

abbrev pub err_invalid_amount : String
err_invalid_amount = "invalid amount"

abbrev pub err_invalid_payee : GoError
err_invalid_payee = text "invalid payee"

-- `toPayChInfo`
unfoldable pub to_pay_ch_info : ChInfo → PayChInfo
to_pay_ch_info info = record {
  pay_ch_id = info.ch_id;
  pay_bal_info = info.bal_info;
  pay_version = info.version;
}

-- `toPayChsInfo`
unfoldable pub to_pay_chs_info : List ChInfo → List PayChInfo
to_pay_chs_info infos = map to_pay_ch_info infos

-- The loop of `getPayerPayeeIdx` from the index `i` on.
unfoldable pub payer_payee_from : ℕ → List String → String → Fallible (ℕ × ℕ)
payer_payee_from i [] payee = fail err_invalid_payee
payer_payee_from i (part ∷ parts) payee =
    let rest = payer_payee_from (suc i) parts payee in
    if str_eq part payee then ok (other_idx i, i) else rest

unfoldable pub get_payer_payee_idx : List String → String → Fallible (ℕ × ℕ)
unfolding payer_payee_from
get_payer_payee_idx parts payee = payer_payee_from 0 parts payee

-- The two writes to the row `bal`, in the order of the source.
unfoldable pub transfer : ℕ → ℕ → ℤ → List ℤ → Exec (List ℤ)
transfer payer payee amount bal = do
  had ← or_panic (get_elem? bal payer)
  let bal' = set bal payer (had -ℤ amount)
  has ← or_panic (get_elem? bal' payee)
  done (set bal' payee (has +ℤ amount))

-- `newUpdate`: the function that changes the state.
unfoldable pub new_update : ℕ → ℕ → ℕ → ℤ → State → Exec State
unfolding transfer
new_update payer payee row amount s = do
  bal ← or_panic (get_elem? s.balances row)
  bal' ← transfer payer payee amount bal
  done (record s { balances = set s.balances row bal' })

-- The updater of `SendPayChUpdate`: the updates one after the other.
unfoldable pub apply_updates : List (State → Exec State) → State → Exec State
apply_updates [] s = done s
apply_updates (u ∷ us) s = u s >>= apply_updates us

module _ (pc : PChannel) where
  -- The update for a payment whose currency is known.
  unfoldable pub update_in : List String → ℕ → Currency → Payment → ApiResult (State → Exec State)
  unfolding get_payer_payee_idx
  update_in parts row c p = elim (c.parse p.amount) [
    | fail e ↦
        refused (new_api_err_invalid_argument (with_message e err_invalid_amount) "amount" p.amount)
    | ok amount ↦ elim (get_payer_payee_idx parts p.payee) [
      | fail e ↦ refused (new_api_err_invalid_argument e "payee" p.payee)
      | ok (payer, payee) ↦ returned (new_update payer payee row amount)
    ]
  ]

  unfoldable pub update_for : Ch pc → Payment → Exec (ApiResult (State → Exec State))
  unfolding update_in
  update_for ch p = currency_of pc ch p.currency >>= λ found. elim found [
    | none ↦ done (refused (new_api_err_resource_not_found "currency" p.currency))
    | some (row, c) ↦ done (update_in ch.parts row c p)
  ]

  -- The loop of `SendPayChUpdate`, which ends at the first error.
  unfoldable pub updates_for : Ch pc → List Payment → Exec (ApiResult (List (State → Exec State)))
  unfolding update_for
  updates_for ch [] = done (returned [])
  updates_for ch (p ∷ ps) =
      let later = updates_for ch ps in
      update_for ch p >>= λ r. elim r [
        | refused e ↦ done (refused e)
        | returned u ↦ later >>= λ rest. elim rest [
          | refused e ↦ done (refused e)
          | returned us ↦ done (returned (u ∷ us))
        ]
      ]

  -- What a method of the payment app returns.
  abbrev pub PayReply : Type 0
  PayReply = Ch pc × PayChInfo × Option ApiError

  unfoldable pub to_pay_reply : Reply pc → PayReply
  unfolding to_pay_ch_info
  to_pay_reply (ch, info, e) = (ch, to_pay_ch_info info, e)

  -- `SendPayChUpdate`
  unfoldable pub send_pay_ch_update : Context → List Payment → Ch pc → Exec PayReply
  unfolding updates_for to_pay_reply
  send_pay_ch_update pctx payments ch = updates_for ch payments >>= λ r. elim r [
    | refused e ↦ done (ch, to_pay_ch_info no_ch_info, some e)
    | returned us ↦ send_ch_update pc pctx (apply_updates us) ch >>= λ out. done (to_pay_reply out)
  ]
