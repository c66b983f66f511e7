-- ===== src/Payment/Transfers.antt =====
-- app/payment/channel.go: the payer and the payee, and the balances of both.
use dst_go.Base.{
  ℕ, zero, suc, ◌+◌, String, List, [], ◌∷◌, some, ℤ, ◌+ℤ◌, ◌-ℤ◌, Exec, done, get_elem?, set, str_eq,
  ◌≡◌, refl, subst, ap, ◌∙◌, ◌≢◌, inl, inr, arith, eq_iff, Bool-cases,
}
use dst_go.Errors.{GoError, Fallible, ok, fail, returned, Fallible-cases}
use dst_go.Channel.{State, Currency, PChannel}
use dst_go.Channel.Info.{currency_of}
use dst_go.Channel.Updates.{Ch, other_idx}
use dst_go.Payment.{
  Payment, payer_payee_from, get_payer_payee_idx, transfer, new_update, apply_updates, update_in,
  update_for, updates_for,
}

payer_payee_from-found :
    (i : ℕ) (parts : List String) (payee : String) (a b : ℕ)
    → payer_payee_from i parts payee ≡ ok (a, b)
    → (j : ℕ) × (b ≡ i + j) × (a ≡ other_idx b) × (get_elem? parts j ≡ some payee)
unfolding payer_payee_from
payer_payee_from-found i [] payee a b h = cc
payer_payee_from-found i (part ∷ parts) payee a b h = elim (Bool-cases (str_eq part payee)) [
  | inl e ↦ (zero, ground arith, ground arith, ap some ((eq_iff part payee).0 e))
  | inr e ↦
      let (j, at, other, g) = payer_payee_from-found (suc i) parts payee a b (ground arith) in
      (suc j, omega (arith, at), other, g)
]

payer_payee_from-missing :
    (i : ℕ) (parts : List String) (payee : String) (e : GoError) (j : ℕ)
    → payer_payee_from i parts payee ≡ fail e
    → get_elem? parts j ≢ some payee
unfolding payer_payee_from
payer_payee_from-missing i [] payee e j h g = cc
payer_payee_from-missing i (part ∷ parts) payee e zero h g = ground (arith, eq_iff part payee)
payer_payee_from-missing i (part ∷ parts) payee e (suc j) h g =
    payer_payee_from-missing (suc i) parts payee e j (ground (arith, eq_iff part payee)) g

-- What `getPayerPayeeIdx` finds.
pub data Found (parts : List String) (payee : String) : Fallible (ℕ × ℕ) → Type 0 where
  found :
      (b : ℕ)
      → get_elem? parts b ≡ some payee
      → other_idx b ≢ b
      → other_idx (other_idx b) ≡ b
      → Found parts payee (ok (other_idx b, b))
  missing : (e : GoError) → ((j : ℕ) → get_elem? parts j ≢ some payee) → Found parts payee (fail e)

other_idx_ne : (n : ℕ) → other_idx n ≢ n
unfolding other_idx
other_idx_ne n = λ e. ground arith

other_idx-other_idx : (n : ℕ) → other_idx (other_idx n) ≡ n
unfolding other_idx
other_idx-other_idx n = ground arith

-- The payee is found at a place of its alias and the payer is another participant, the one whose
-- own payer is the payee; or no participant has the alias and the result is an error.
pub get_payer_payee_idx-Found :
    (parts : List String) (payee : String) → Found parts payee (get_payer_payee_idx parts payee)
unfolding get_payer_payee_idx
get_payer_payee_idx-Found parts payee = elim (Fallible-cases (payer_payee_from 0 parts payee)) [
  | inl ((a, b), h) ↦
      let (j, at, other, g) = payer_payee_from-found 0 parts payee a b h in
      let place : j ≡ b = omega (arith, at) in
      rw (h, get_payer_payee_idx)
        (rw other (
          found b (subst (λ k. get_elem? parts k ≡ some payee) place g) (other_idx_ne b)
            (other_idx-other_idx b)))
  | inr (e, h) ↦
      rw (h, get_payer_payee_idx) (missing e (λ j. payer_payee_from-missing 0 parts payee e j h))
]

-- A row of two shares after a payment to the participant `i`.
abbrev pub paid : ℕ → ℤ → ℤ → ℤ → List ℤ
paid zero amount x y = (x +ℤ amount) ∷ (y -ℤ amount) ∷ []
paid (suc i) amount x y = (x -ℤ amount) ∷ (y +ℤ amount) ∷ []

module _ (pc : PChannel) where
  update_to :
      (row : ℕ) (x y amount : ℤ) (s : State)
      → get_elem? s.balances row ≡ some (x ∷ y ∷ [])
      → (new_update (other_idx 0) 0 row amount s
          ≡ done (record s { balances = set s.balances row (paid 0 amount x y) }))
        × (new_update (other_idx 1) 1 row amount s
            ≡ done (record s { balances = set s.balances row (paid 1 amount x y) }))
  unfolding new_update transfer other_idx
  update_to row x y amount s g = (rw (g, new_update) refl, rw (g, new_update) refl)

  update_in-two :
      (first second : String) (row : ℕ) (c : Currency) (p : Payment) (amount : ℤ)
      → first ≢ second
      → c.parse p.amount ≡ ok amount
      → (p.payee ≡ first
          → update_in pc (first ∷ second ∷ []) row c p
            ≡ returned (new_update (other_idx 0) 0 row amount))
        × (p.payee ≡ second
            → update_in pc (first ∷ second ∷ []) row c p
              ≡ returned (new_update (other_idx 1) 1 row amount))
  unfolding update_in get_payer_payee_idx payer_payee_from
  update_in-two first second row c p amount ne h = (
    λ e. ground (arith, eq_iff first p.payee),
    λ e. ground (arith, eq_iff first p.payee, eq_iff second p.payee),
  )

  single :
      (ch : Ch pc) (p : Payment) (u : State → Exec State)
      → update_for pc ch p ≡ done (returned u)
      → updates_for pc ch (p ∷ []) ≡ done (returned (u ∷ []))
  unfolding updates_for
  single ch p u h = rw (h, updates_for) refl

  known :
      (ch : Ch pc) (row : ℕ) (c : Currency) (p : Payment)
      → currency_of pc ch p.currency ≡ done (some (row, c))
      → update_for pc ch p ≡ done (update_in pc ch.parts row c p)
  unfolding update_for
  known ch row c p h = rw (h, update_for) refl

  run_single :
      (u : State → Exec State) (s t : State) → u s ≡ done t → apply_updates (u ∷ []) s ≡ done t
  unfolding apply_updates
  run_single u s t h = rw (h, apply_updates) refl

  -- A payment of an amount that can be read, in a currency of a channel of two participants, to
  -- the participant at the place `i`: the payment is in order, and on a state that has two shares
  -- in this currency, its update gives the amount to the payee, takes it from the other and
  -- changes nothing else.
  pub pay_exact :
      (ch : Ch pc) (first second : String) (i row : ℕ) (c : Currency) (p : Payment) (x y amount : ℤ)
      (s : State)
      → first ≢ second
      → ch.parts ≡ first ∷ second ∷ []
      → get_elem? (first ∷ second ∷ []) i ≡ some p.payee
      → currency_of pc ch p.currency ≡ done (some (row, c))
      → c.parse p.amount ≡ ok amount
      → get_elem? s.balances row ≡ some (x ∷ y ∷ [])
      → (us : List (State → Exec State)) × (updates_for pc ch (p ∷ []) ≡ done (returned us))
        × (apply_updates us s
            ≡ done (record s { balances = set s.balances row (paid i amount x y) }))
  pay_exact ch first second zero row c p x y amount s ne parts g cur h rows =
      let u = new_update (other_idx 0) 0 row amount in
      let made = (update_in-two first second row c p amount ne h).0 (same g) in
      (
        u ∷ [],
        single ch p u (known ch row c p cur ∙ ap done (rw parts made)),
        run_single u s _ (update_to row x y amount s rows).0,
      )
    where
      same : {a b : String} → some a ≡ some b → b ≡ a
      same e = cc
  pay_exact ch first second (suc zero) row c p x y amount s ne parts g cur h rows =
      let u = new_update (other_idx 1) 1 row amount in
      let made = (update_in-two first second row c p amount ne h).1 (same g) in
      (
        u ∷ [],
        single ch p u (known ch row c p cur ∙ ap done (rw parts made)),
        run_single u s _ (update_to row x y amount s rows).1,
      )
    where
      same : {a b : String} → some a ≡ some b → b ≡ a
      same e = cc
  pay_exact ch first second (suc (suc i)) row c p x y amount s ne parts g cur h rows = cc
