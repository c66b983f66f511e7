-- ===== src/Grpc/Roundtrips.antt =====
-- api/grpc/server.go: the conversions in both directions.
use dst_go.Base.{
  List, [], ◌∷◌, map, Bool, true, false, some, Exec, done, panic, blocks, ◌>>=◌, Returns, ◌≡◌, refl,
  ap, if◌then◌else◌,
}
use dst_go.Perun.Info.{BalInfo, PayChInfo}
use dst_go.Errors.{
  AddInfo, ApiError, no_info, peer_request_timed_out, peer_rejected, peer_not_funded,
  user_response_timed_out, resource_not_found, resource_exists, invalid_argument, unclosed_chs,
  unclosed_pay_chs, invalid_config, invalid_contracts, tx_timed_out, chain_not_reachable,
}
use dst_go.Errors.Chain.{error_string}
use dst_go.Payment.{Payment}
use dst_go.Grpc.{
  PaymentMsg, BalInfoMsg, PayChInfoMsg, AddInfoMsg, no_info_msg, peer_request_timed_out_msg,
  peer_rejected_msg, peer_not_funded_msg, user_response_timed_out_msg, resource_not_found_msg,
  resource_exists_msg, invalid_argument_msg, unclosed_chs_msg, invalid_config_msg,
  invalid_contracts_msg, tx_timed_out_msg, chain_not_reachable_msg, MsgError,
}
use dst_go.Grpc.Convert.{
  to_grpc_payment, to_grpc_payments, from_grpc_payment, from_grpc_payments, to_bal,
  to_grpc_bal_info, bal_info_of, from_grpc_bal_info, to_grpc_pay_ch_info, to_grpc_pay_chs_info,
  to_grpc_contract_err_infos, to_grpc_add_info, error_with, to_grpc_error,
}

-- A map and a map back.
map-map_id :
    {A B : Type 0} (f : A → B) (g : B → A)
    → ((a : A) → g (f a) ≡ a)
    → (xs : List A) → map g (map f xs) ≡ xs
map-map_id f g h [] = refl
map-map_id f g h (x ∷ xs) = rw (h x, map-map_id f g h xs)

-- Payments that are sent to the server are the payments that the server reads, and the other way.
pub from_grpc_payments-to_grpc_payments :
    (payments : List Payment) (msgs : List PaymentMsg)
    → (from_grpc_payments (to_grpc_payments payments) ≡ payments)
      × (to_grpc_payments (from_grpc_payments msgs) ≡ msgs)
unfolding from_grpc_payments to_grpc_payments from_grpc_payment to_grpc_payment
from_grpc_payments-to_grpc_payments payments msgs =
    (map-map_id _ _ (λ p. refl) payments, map-map_id _ _ (λ m. refl) msgs)

bal_info_of-to_grpc_bal_info : (b : BalInfo) → bal_info_of (to_grpc_bal_info b) ≡ b
unfolding bal_info_of to_grpc_bal_info to_bal
bal_info_of-to_grpc_bal_info b =
    ap (λ rows. record { currencies = b.currencies; parts = b.parts; bals = rows })
      (map-map_id to_bal (λ row. row.bal) (λ row. refl) b.bals)

-- A balance info that a client sends is the one that the server reads, and a balance info that is
-- read is sent as it came.
pub from_grpc_bal_info-to_grpc_bal_info :
    (b : BalInfo) (m : BalInfoMsg)
    → (from_grpc_bal_info (some (to_grpc_bal_info b)) ≡ done b)
      × (to_grpc_bal_info (bal_info_of m) ≡ m)
unfolding from_grpc_bal_info bal_info_of to_grpc_bal_info to_bal
from_grpc_bal_info-to_grpc_bal_info b m = (
  ap done (bal_info_of-to_grpc_bal_info b),
  ap
      (λ rows. record {
        currencies_field = m.currencies_field;
        parts_field = m.parts_field;
        bals_field = rows;
      })
      (map-map_id (λ row. row.bal) to_bal (λ row. refl) m.bals_field),
)

-- What a client reads out of an info of a channel.
abbrev pub pay_ch_info_of : PayChInfoMsg → PayChInfo
unfolding bal_info_of
pay_ch_info_of m = record {
  pay_ch_id = m.ch_id_field;
  pay_bal_info = bal_info_of m.bal_info_field;
  pay_version = m.version_field;
}

pay_ch_info_of-to_grpc_pay_ch_info :
    (info : PayChInfo) → pay_ch_info_of (to_grpc_pay_ch_info info) ≡ info
unfolding to_grpc_pay_ch_info bal_info_of
pay_ch_info_of-to_grpc_pay_ch_info info =
    ap
      (λ b. record { pay_ch_id = info.pay_ch_id; pay_bal_info = b; pay_version = info.pay_version })
      (bal_info_of-to_grpc_bal_info info.pay_bal_info)

-- What a client reads out of the additional info of an error.
abbrev pub add_info_of : AddInfoMsg → AddInfo
add_info_of no_info_msg = no_info
add_info_of (peer_request_timed_out_msg peer_alias timeout) =
    peer_request_timed_out peer_alias timeout
add_info_of (peer_rejected_msg peer_alias reason) = peer_rejected peer_alias reason
add_info_of (peer_not_funded_msg peer_alias) = peer_not_funded peer_alias
add_info_of (user_response_timed_out_msg expiry received_at) =
    user_response_timed_out expiry received_at
add_info_of (resource_not_found_msg type id) = resource_not_found type id
add_info_of (resource_exists_msg type id) = resource_exists type id
add_info_of (invalid_argument_msg name value requirement) = invalid_argument name value
add_info_of (unclosed_chs_msg infos) = unclosed_pay_chs (map pay_ch_info_of infos)
add_info_of (invalid_config_msg name value) = invalid_config name value
add_info_of (invalid_contracts_msg infos) = invalid_contracts []
add_info_of (tx_timed_out_msg tx_type tx_id tx_timeout) = tx_timed_out tx_type tx_id tx_timeout
add_info_of (chain_not_reachable_msg chain_url) = chain_not_reachable chain_url

-- The part of the additional info that reaches a client.
abbrev pub told : AddInfo → AddInfo
told (peer_request_timed_out peer_alias timeout) = peer_request_timed_out "" timeout
told (unclosed_chs infos) = no_info
told info = info

abbrev pub has_contracts : AddInfo → Bool
has_contracts (invalid_contracts (info ∷ infos)) = true
has_contracts _ = false

to_grpc_add_info-told :
    (info : AddInfo)
    → (if has_contracts info
        then to_grpc_add_info info ≡ panic
        else Returns (λ msg. add_info_of msg ≡ told info) (to_grpc_add_info info))
unfolding to_grpc_add_info to_grpc_contract_err_infos to_grpc_pay_chs_info
to_grpc_add_info-told (invalid_contracts (info ∷ infos)) = refl
to_grpc_add_info-told (invalid_contracts []) = refl
to_grpc_add_info-told (unclosed_pay_chs infos) =
    ap unclosed_pay_chs
      (map-map_id to_grpc_pay_ch_info pay_ch_info_of pay_ch_info_of-to_grpc_pay_ch_info infos)
to_grpc_add_info-told (peer_request_timed_out peer_alias timeout) = refl
to_grpc_add_info-told (peer_rejected peer_alias reason) = refl
to_grpc_add_info-told (peer_not_funded peer_alias) = refl
to_grpc_add_info-told (user_response_timed_out expiry received_at) = refl
to_grpc_add_info-told (resource_not_found type id) = refl
to_grpc_add_info-told (resource_exists type id) = refl
to_grpc_add_info-told (invalid_argument name value) = refl
to_grpc_add_info-told (invalid_config name value) = refl
to_grpc_add_info-told (tx_timed_out tx_type tx_id tx_timeout) = refl
to_grpc_add_info-told (chain_not_reachable chain_url) = refl
to_grpc_add_info-told (unclosed_chs infos) = refl
to_grpc_add_info-told no_info = refl

-- An error that a client can read: its category, code and message, and what is told of its info.
pub record Tells (e : ApiError) (msg : MsgError) : Type 0 where
  pub same_category : msg.category_field ≡ e.category
  pub same_code : msg.code_field ≡ e.code
  pub same_message : msg.message ≡ error_string e.err
  pub same_info : add_info_of msg.add_info_field ≡ told e.add_info

-- An error of the API that names invalid contracts makes the conversion panic. Any other is
-- converted: the client reads its category, its code, its message and its additional info, but for
-- the alias of a peer that timed out and for channels that are not payment channels.
pub to_grpc_error-Tells :
    (e : ApiError)
    → (if has_contracts e.add_info
        then to_grpc_error e ≡ panic
        else Returns (Tells e) (to_grpc_error e))
unfolding to_grpc_error error_with
to_grpc_error-Tells e =
    rest (has_contracts e.add_info) (to_grpc_add_info e.add_info) (to_grpc_add_info-told e.add_info)
  where
    rest :
        (b : Bool) (m : Exec AddInfoMsg)
        → (if b then m ≡ panic else Returns (λ msg. add_info_of msg ≡ told e.add_info) m)
        → (if b
            then (m >>= λ info. done (error_with e info)) ≡ panic
            else Returns (Tells e) (m >>= λ info. done (error_with e info)))
    rest true m h = rw h refl
    rest false (done msg) h = record {
      same_category = refl;
      same_code = refl;
      same_message = refl;
      same_info = h;
    }
    rest false panic h = h
    rest false blocks h = h
