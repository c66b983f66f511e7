-- ===== src/Perun/Info.antt =====
-- perun.go: peers, balances and channel infos. An address is its byte string; the definition and
-- the data of an app are opaque to the node and stand here as texts.
use dst_go.Base.{
  ℕ, String, List, [], ◌∷◌, Bool, true, false, ◌&&◌, ◌==◌, ◌≡◌, refl, ◌↔◌, arith, Duration,
}

-- `pwallet.Address` and `pwire.Address`.
abbrev pub Address : Type 0
Address = List ℕ

pub record PeerId : Type 0 where
  pub alias : String
  pub off_chain_addr : Address
  pub off_chain_addr_string : String
  pub comm_addr : String
  pub comm_type : String

abbrev pub own_alias : String
own_alias = "self"

pub record App : Type 0 where
  pub app_def : String
  pub app_data : String

-- `bals` has a row for each currency, with an amount for each participant.
pub record BalInfo : Type 0 where
  pub currencies : List String
  pub parts : List String
  pub bals : List (List String)

pub record ChInfo : Type 0 where
  pub ch_id : String
  pub bal_info : BalInfo
  pub app : App
  pub version : String

-- The zero value `ChInfo{}`.
abbrev pub no_ch_info : ChInfo
no_ch_info = record {
  ch_id = "";
  bal_info = record { currencies = []; parts = []; bals = [] };
  app = record { app_def = ""; app_data = "" };
  version = "";
}

-- `PayChInfo` of app/payment/channel.go.
pub record PayChInfo : Type 0 where
  pub pay_ch_id : String
  pub pay_bal_info : BalInfo
  pub pay_version : String

-- `NodeConfig`
pub record NodeConfig : Type 0 where
  pub log_level : String
  pub log_file : String
  pub chain_url : String
  pub chain_id : ℕ
  pub adjudicator : String
  pub asset_eth : String
  pub asset_erc20s : List (String × String)
  pub chain_conn_timeout : Duration
  pub on_chain_tx_timeout : Duration
  pub response_timeout : Duration
  pub comm_types : List String
  pub id_provider_types : List String
  pub currency_interpreters : List String

-- `Address.Equals`
unfoldable pub address_eq : Address → Address → Bool
address_eq [] [] = true
address_eq (x ∷ xs) (y ∷ ys) = (x == y) && address_eq xs ys
address_eq [] (y ∷ ys) = false
address_eq (x ∷ xs) [] = false

pub address_eq_iff : (a b : Address) → (address_eq a b ≡ true) ↔ (a ≡ b)
unfolding address_eq
address_eq_iff [] [] = (λ e. refl, λ e. refl)
address_eq_iff (x ∷ xs) (y ∷ ys) =
    (ground (arith, (address_eq_iff xs ys).0), ground (arith, (address_eq_iff xs ys).1))
address_eq_iff [] (y ∷ ys) = (λ e. cc, λ e. cc)
address_eq_iff (x ∷ xs) [] = (λ e. cc, λ e. cc)
