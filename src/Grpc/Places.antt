-- ===== src/Grpc/Places.antt =====
-- api/grpc/server.go: the places of the two maps that hold the signals of subscriptions.
use dst_go.Base.{
  ℕ, suc, ◌<◌, String, List, [], ◌∷◌, Bool, true, false, ◌&&◌, Option, none, some, lookup, insert,
  erase, str_eq, if◌then◌else◌, ◌≡◌, refl, ◌↔◌, inl, inr, arith, eq_iff, lookup-insert,
  lookup-erase, Option-cases,
}
use dst_go.Grpc.Server.{Server, Signals, is_in, or_empty, delete_signal}

pub data Place : Type 0 where
  proposals_of : (session_id : String) → Place
  updates_of : (session_id ch_id : String) → Place

abbrev pub place_eq : Place → Place → Bool
place_eq (proposals_of s) (proposals_of t) = str_eq s t
place_eq (updates_of s h) (updates_of t k) = str_eq s t && str_eq h k
place_eq (proposals_of s) (updates_of t k) = false
place_eq (updates_of s h) (proposals_of t) = false

pub place_eq_iff : (p q : Place) → (place_eq p q ≡ true) ↔ (p ≡ q)
place_eq_iff (proposals_of s) (proposals_of t) =
    (ground (arith, eq_iff s t), ground (arith, eq_iff s t))
place_eq_iff (updates_of s h) (updates_of t k) =
    (ground (arith, eq_iff s t, eq_iff h k), ground (arith, eq_iff s t, eq_iff h k))
place_eq_iff (proposals_of s) (updates_of t k) = (λ e. cc, λ e. cc)
place_eq_iff (updates_of s h) (proposals_of t) = (λ e. cc, λ e. cc)

-- Whether the place belongs to the channels of the session.
abbrev pub is_update_of : String → Place → Bool
is_update_of s (proposals_of t) = false
is_update_of s (updates_of t k) = str_eq s t

-- The signal that the two maps hold at a place.
unfoldable pub signal_in : Signals → List (String × Signals) → Place → Option ℕ
unfolding or_empty
signal_in proposals updates (proposals_of s) = lookup s proposals
signal_in proposals updates (updates_of s h) = lookup h (or_empty (lookup s updates))

unfoldable pub signal_at : {N : Type 0} → Server N → Place → Option ℕ
unfolding signal_in
signal_at a p = signal_in a.ch_proposals_notif a.ch_updates_notif p

module _ (proposals : Signals) (updates : List (String × Signals)) where
  pub signal_in-proposal :
      (s : String) (c : ℕ) (q : Place)
      → signal_in (insert s c proposals) updates q
        ≡ (if place_eq (proposals_of s) q then some c else signal_in proposals updates q)
  unfolding signal_in
  signal_in-proposal s c (proposals_of t) = lookup-insert s t c proposals
  signal_in-proposal s c (updates_of t k) = refl

  pub signal_in-erased :
      (s : String) (q : Place)
      → signal_in (erase s proposals) updates q
        ≡ (if place_eq (proposals_of s) q then none else signal_in proposals updates q)
  unfolding signal_in
  signal_in-erased s (proposals_of t) = lookup-erase s t proposals
  signal_in-erased s (updates_of t k) = refl

  pub signal_in-update :
      (s h : String) (c : ℕ) (signals : Signals) (q : Place)
      → lookup s updates ≡ some signals
      → signal_in proposals (insert s (insert h c signals) updates) q
        ≡ (if place_eq (updates_of s h) q then some c else signal_in proposals updates q)
  unfolding signal_in or_empty
  signal_in-update s h c signals (proposals_of t) e = refl
  signal_in-update s h c signals (updates_of t k) e = ground (
    arith,
    lookup-insert s t (insert h c signals) updates,
    lookup-insert h k c signals,
    eq_iff s t,
    eq_iff h k,
  )

  pub signal_in-deleted :
      (s h : String) (q : Place)
      → signal_in proposals (delete_signal s h updates) q
        ≡ (if place_eq (updates_of s h) q then none else signal_in proposals updates q)
  unfolding signal_in or_empty delete_signal lookup
  signal_in-deleted s h (proposals_of t) = refl
  signal_in-deleted s h (updates_of t k) = elim (Option-cases (lookup s updates)) [
    | inl e ↦ ground (arith, eq_iff s t, eq_iff h k)
    | inr (signals, e) ↦ ground (
      arith,
      lookup-insert s t (erase h signals) updates,
      lookup-erase h k signals,
      eq_iff s t,
      eq_iff h k,
    )
  ]

  pub signal_in-opened :
      (s : String) (q : Place)
      → signal_in proposals (insert s [] updates) q
        ≡ (if is_update_of s q then none else signal_in proposals updates q)
  unfolding signal_in or_empty lookup
  signal_in-opened s (proposals_of t) = refl
  signal_in-opened s (updates_of t k) = ground (arith, lookup-insert s t [] updates, eq_iff s t)

-- A table of signals is in order: each signal is at one place, was made, and was not closed yet, and
-- what was closed was made.
pub record InOrder (f : Place → Option ℕ) (next : ℕ) (closed : List ℕ) : Type 0 where
  pub made : (p : Place) (c : ℕ) → f p ≡ some c → c < next
  pub running : (p : Place) (c : ℕ) → f p ≡ some c → is_in c closed ≡ false
  pub apart : (p q : Place) (c : ℕ) → f p ≡ some c → f q ≡ some c → p ≡ q
  pub past : (c : ℕ) → is_in c closed ≡ true → c < next

module _ (f g : Place → Option ℕ) (next : ℕ) (closed : List ℕ) (o : InOrder f next closed) where
  -- A new signal at a place.
  pub InOrder-put :
      (p : Place)
      → ((q : Place) → g q ≡ (if place_eq p q then some next else f q))
      → InOrder g (suc next) closed
  InOrder-put p at = record {
    made = λ q c e. ground (arith, at q, o.made q c);
    running = λ q c e. ground (arith, at q, o.running q c, o.past c);
    apart = λ q r c e d. ground (
      arith,
      at q,
      at r,
      place_eq_iff p q,
      place_eq_iff p r,
      o.apart q r c,
      o.made q c,
      o.made r c,
    );
    past = λ c e. ground (arith, o.past c);
  }

  -- The signal of a place is closed.
  pub InOrder-cut :
      (p : Place) (c : ℕ)
      → f p ≡ some c
      → ((q : Place) → g q ≡ (if place_eq p q then none else f q))
      → InOrder g next (c ∷ closed)
  unfolding is_in
  InOrder-cut p c held at = record {
    made = λ q d e. ground (arith, at q, o.made q d);
    running = λ q d e. ground (arith, at q, o.running q d, o.apart p q c, place_eq_iff p q);
    apart = λ q r d e i. ground (arith, at q, at r, o.apart q r d);
    past = λ d e. ground (arith, o.past d, o.made p c);
  }

  -- Some places are cleared.
  pub InOrder-less :
      (gone : Place → Bool)
      → ((q : Place) → g q ≡ (if gone q then none else f q))
      → InOrder g next closed
  InOrder-less gone at = record {
    made = λ q c e. ground (arith, at q, o.made q c);
    running = λ q c e. ground (arith, at q, o.running q c);
    apart = λ q r c e d. ground (arith, at q, at r, o.apart q r c);
    past = o.past;
  }
