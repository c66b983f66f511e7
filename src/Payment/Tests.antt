-- ===== src/Payment/Tests.antt =====
-- Payments (app/payment/channel.go) at concrete inputs, on the channel of the tests of channels.
use dst_go.Base.{
  List, [], ◌∷◌, pos, ◌+ℤ◌, ◌-ℤ◌, Exec, done, ◌>>=◌, ◌≡◌, refl, ◌≢◌, arith, eq_iff, lookup, false,
}
use dst_go.Perun.Info.{own_alias}
use dst_go.Errors.{ok, returned}
use dst_go.Channel.{State, Currency, background}
use dst_go.Channel.Info.{currency_of}
use dst_go.Channel.Updates.{Ch, send_ch_update, other_idx}
use dst_go.Channel.Toy.{toy, fresh, state_at, eth}
use dst_go.Payment.{
  Payment, get_payer_payee_idx, payer_payee_from, new_update, apply_updates, update_in, update_for,
  updates_for, send_pay_ch_update, to_pay_reply,
}
use dst_go.Payment.Laws.{Conserves, send_pay_ch_update-Conserves}
use dst_go.Payment.Transfers.{pay_exact}

-- A currency in which every amount is two.
abbrev twos : Currency
twos = record eth { parse = λ s. ok (pos 2) }

abbrev payable : Ch toy
payable = record fresh { params = record (fresh.params) { currencies = twos ∷ [] } }

abbrev to_bob : Payment
to_bob = record { currency = "ETH"; payee = "bob"; amount = "2" }

differ : own_alias ≢ to_bob.payee
differ e = ground (arith, eq_iff "self" "bob", e)

pay_exact_example :
    (us : List (State → Exec State)) × (updates_for toy payable (to_bob ∷ []) ≡ done (returned us))
    × (apply_updates us (state_at 0 7 3 false) ≡ done (state_at 0 5 5 false))
unfolding currency_of lookup ◌-ℤ◌ ◌+ℤ◌
pay_exact_example =
    pay_exact toy payable "self" "bob" 1 0 twos to_bob (pos 7) (pos 3) (pos 2)
      (state_at 0 7 3 false) differ refl refl refl refl refl

updates : updates_for toy payable (to_bob ∷ []) ≡ done (returned (new_update 0 1 0 (pos 2) ∷ []))
unfolding updates_for update_for update_in currency_of get_payer_payee_idx payer_payee_from
    other_idx lookup
updates = refl

send_pay_ch_update-Conserves_example :
    Conserves (apply_updates (new_update 0 1 0 (pos 2) ∷ []))
    × (send_pay_ch_update toy background (to_bob ∷ []) payable ≡ (
        send_ch_update toy background (apply_updates (new_update 0 1 0 (pos 2) ∷ [])) payable
        >>= λ out. done (to_pay_reply toy out)))
send_pay_ch_update-Conserves_example =
    send_pay_ch_update-Conserves toy background (to_bob ∷ []) payable
      (new_update 0 1 0 (pos 2) ∷ []) updates
