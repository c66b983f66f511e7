-- ===== src/Payment/Laws.antt =====
-- app/payment/channel.go: the totals of the balances under payments.
use dst_go.Base.{
  ℕ, zero, suc, String, List, [], ◌∷◌, map, Option, none, some, ℤ, ◌+ℤ◌, ◌-ℤ◌, sum_ℤ, int_laws,
  Exec, done, panic, blocks, ◌>>=◌, Ensures, Ensures->>=, get_elem?, set, length, All, ◌≡◌, refl,
  sym, subst, ap, ◌∙◌, ◌≢◌, inl, inr, arith, length-set, Option-cases,
}
use dst_go.Errors.{ApiResult, returned, refused, Fallible-cases}
use dst_go.Channel.{State, Context, Currency, PChannel}
use dst_go.Channel.Info.{currency_of}
use dst_go.Channel.Updates.{Ch, other_idx, send_ch_update}
use dst_go.Payment.{
  Payment, get_payer_payee_idx, transfer, new_update, apply_updates, update_in, update_for,
  updates_for, send_pay_ch_update, to_pay_reply,
}
use dst_go.Errors.Api.{new_api_err_resource_not_found}

-- The payer is not the payee.
pub other_idx_ne : (n : ℕ) → other_idx n ≢ n
unfolding other_idx
other_idx_ne n = λ e. ground arith

first {ℓ} : {A : Type ℓ} (x y : A) → some x ≡ some y → x ≡ y
first x y h = cc

-- A write to a row that has the place changes its sum by the difference.
sum-set :
    (xs : List ℤ) (i : ℕ) (old new : ℤ)
    → get_elem? xs i ≡ some old
    → sum_ℤ (set xs i new) +ℤ old ≡ sum_ℤ xs +ℤ new
sum-set [] i old new h = cc
sum-set (x ∷ xs) zero old new h =
    let e : x ≡ old = first x old h in rw (← e) (swap new (sum_ℤ xs) x)
  where
    swap : (a b c : ℤ) → a +ℤ b +ℤ c ≡ c +ℤ b +ℤ a
    swap a b c = grind int_laws
sum-set (x ∷ xs) (suc i) old new h =
    under x (sum_ℤ (set xs i new)) (sum_ℤ xs) old new (sum-set xs i old new h)
  where
    under : (x a b c d : ℤ) → a +ℤ c ≡ b +ℤ d → x +ℤ a +ℤ c ≡ x +ℤ b +ℤ d
    under x a b c d h = grind int_laws

-- The two sums of a transfer: `b` is in between.
cancel :
    (a b c old new amount : ℤ)
    → b +ℤ old ≡ a +ℤ (old -ℤ amount)
    → c +ℤ new ≡ b +ℤ (new +ℤ amount)
    → c ≡ a
cancel a b c old new amount h k = grind int_laws

-- The rows have the same sum and the same length.
abbrev pub SameRow : List ℤ → List ℤ → Type 0
SameRow bal bal' = (sum_ℤ bal' ≡ sum_ℤ bal) × (length bal' ≡ length bal)

pub transfer-SameRow :
    (payer payee : ℕ) (amount : ℤ) (bal : List ℤ)
    → Ensures (SameRow bal) (transfer payer payee amount bal)
unfolding transfer
transfer-SameRow payer payee amount bal = elim (Option-cases (get_elem? bal payer)) [
  | inl e ↦ rw (e, transfer) tt
  | inr (had, e) ↦
      let mid = set bal payer (had -ℤ amount) in
      elim (Option-cases (get_elem? mid payee)) [
        | inl f ↦ rw (e, transfer) (rw f tt)
        | inr (has, f) ↦
            rw (e, transfer)
              (rw f (
                cancel (sum_ℤ bal) (sum_ℤ mid) _ had has amount
                    (sum-set bal payer had (had -ℤ amount) e)
                    (sum-set mid payee has (has +ℤ amount) f),
                length-set mid payee (has +ℤ amount) ∙ length-set bal payer (had -ℤ amount),
              ))
      ]
]

-- What payments leave as it is: the total of each currency, the number of its shares, and all of
-- the state but the balances.
pub record Conserved (s s' : State) : Type 0 where
  pub totals : map sum_ℤ s'.balances ≡ map sum_ℤ s.balances
  pub lengths : map length s'.balances ≡ map length s.balances
  pub others : s' ≡ record s { balances = s'.balances }

Conserved-refl : (s : State) → Conserved s s
Conserved-refl s = record { totals = refl; lengths = refl; others = refl }

Conserved-trans : (s t u : State) → Conserved s t → Conserved t u → Conserved s u
Conserved-trans s t u h k = record {
  totals = k.totals ∙ h.totals;
  lengths = k.lengths ∙ h.lengths;
  others = k.others ∙ ap with_rows h.others;
}
  where
    with_rows : State → State
    with_rows x = record x { balances = u.balances }

map-set {ℓ} :
    {B : Type ℓ} (f : List ℤ → B) (rows : List (List ℤ)) (i : ℕ) (old new : List ℤ)
    → get_elem? rows i ≡ some old
    → f new ≡ f old
    → map f (set rows i new) ≡ map f rows
map-set f [] i old new h e = refl
map-set f (r ∷ rows) zero old new h e = ap (λ y. y ∷ map f rows) (e ∙ ap f (sym (first r old h)))
map-set f (r ∷ rows) (suc i) old new h e = ap (λ xs. f r ∷ xs) (map-set f rows i old new h e)

new_update-Conserved :
    (payer payee row : ℕ) (amount : ℤ) (s : State)
    → Ensures (Conserved s) (new_update payer payee row amount s)
unfolding new_update
new_update-Conserved payer payee row amount s = elim (Option-cases (get_elem? s.balances row)) [
  | inl e ↦ rw (e, new_update) tt
  | inr (bal, e) ↦
      rw (e, new_update)
        (Ensures->>= (Conserved s) (transfer payer payee amount bal) _ (λ bal' f.
          let (sums, lens) =
            subst (λ out. Ensures (SameRow bal) out) f (transfer-SameRow payer payee amount bal) in
          record {
            totals = map-set sum_ℤ s.balances row bal bal' e sums;
            lengths = map-set length s.balances row bal bal' e lens;
            others = refl;
          }))
]

-- An updater conserves what payments conserve.
abbrev pub Conserves : (State → Exec State) → Type 0
Conserves u = (s : State) → Ensures (Conserved s) (u s)

apply_updates-Conserves :
    (us : List (State → Exec State)) → All Conserves us → Conserves (apply_updates us)
unfolding apply_updates
apply_updates-Conserves [] h s = Conserved-refl s
apply_updates-Conserves (u ∷ us) (h, hs) s = after (u s) (h s) (apply_updates-Conserves us hs)
  where
    further :
        {t : State} (m : Exec State)
        → Ensures (Conserved t) m
        → Conserved s t
        → Ensures (Conserved s) m
    further {t} (done v) b a = Conserved-trans s t v a b
    further panic b a = tt
    further blocks b a = tt

    after :
        (m : Exec State)
        → Ensures (Conserved s) m
        → Conserves (apply_updates us)
        → Ensures (Conserved s) (m >>= apply_updates us)
    after (done t) a k = further (apply_updates us t) (k t) a
    after panic a k = tt
    after blocks a k = tt

module _ (pc : PChannel) where
  -- The value is an error, or updates that conserve.
  abbrev Made : ApiResult (List (State → Exec State)) → Type 0
  Made (refused e) = Unit
  Made (returned us) = All Conserves us

  abbrev MadeOne : ApiResult (State → Exec State) → Type 0
  MadeOne (refused e) = Unit
  MadeOne (returned u) = Conserves u

  update_in-Conserves :
      (parts : List String) (row : ℕ) (c : Currency) (p : Payment)
      → MadeOne (update_in pc parts row c p)
  unfolding update_in
  update_in-Conserves parts row c p = elim (Fallible-cases (c.parse p.amount)) [
    | inr (e, h) ↦ rw (h, update_in) tt
    | inl (amount, h) ↦ elim (Fallible-cases (get_payer_payee_idx parts p.payee)) [
      | inr (e, k) ↦ rw (h, update_in) (rw k tt)
      | inl ((payer, payee), k) ↦
          rw (h, update_in) (rw k (new_update-Conserved payer payee row amount))
    ]
  ]

  update_for-Conserves : (ch : Ch pc) (p : Payment) → Ensures MadeOne (update_for pc ch p)
  unfolding update_for
  update_for-Conserves ch p =
      Ensures->>= MadeOne (currency_of pc ch p.currency) _ (λ found h. go found)
    where
      go :
          (found : Option (ℕ × Currency))
          → Ensures MadeOne (elim found [
            | none ↦ done (refused (new_api_err_resource_not_found "currency" p.currency))
            | some (row, c) ↦ done (update_in pc ch.parts row c p)
          ])
      go none = tt
      go (some (row, c)) = update_in-Conserves ch.parts row c p

  updates_for-Conserves : (ch : Ch pc) (ps : List Payment) → Ensures Made (updates_for pc ch ps)
  unfolding updates_for
  updates_for-Conserves ch [] = tt
  updates_for-Conserves ch (p ∷ ps) =
      both (update_for pc ch p) (updates_for pc ch ps) (update_for-Conserves ch p)
        (updates_for-Conserves ch ps)
    where
      both :
          (m : Exec (ApiResult (State → Exec State)))
          (later : Exec (ApiResult (List (State → Exec State))))
          → Ensures MadeOne m
          → Ensures Made later
          → Ensures Made (
              m >>= λ r. elim r [
                | refused e ↦ done (refused e)
                | returned u ↦ later >>= λ rest. elim rest [
                  | refused e ↦ done (refused e)
                  | returned us ↦ done (returned (u ∷ us))
                ]
              ])
      both panic later a b = tt
      both blocks later a b = tt
      both (done (refused e)) later a b = tt
      both (done (returned u)) panic a b = tt
      both (done (returned u)) blocks a b = tt
      both (done (returned u)) (done (refused e)) a b = tt
      both (done (returned u)) (done (returned us)) a b = (a, b)

  -- When the payments are in order, what is sent on the channel is one update, which makes no
  -- money: on every state it leaves the total of each currency, the number of shares and all
  -- the rest of the state as they were. It is sent as any other update.
  pub send_pay_ch_update-Conserves :
      (ctx : Context) (ps : List Payment) (ch : Ch pc) (us : List (State → Exec State))
      → updates_for pc ch ps ≡ done (returned us)
      → Conserves (apply_updates us)
        × (send_pay_ch_update pc ctx ps ch
            ≡ (send_ch_update pc ctx (apply_updates us) ch >>= λ out. done (to_pay_reply pc out)))
  unfolding send_pay_ch_update
  send_pay_ch_update-Conserves ctx ps ch us h = (
    apply_updates-Conserves us (subst (λ m. Ensures Made m) h (updates_for-Conserves ch ps)),
    rw (h, send_pay_ch_update) refl,
  )
