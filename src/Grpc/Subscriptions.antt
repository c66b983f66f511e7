-- ===== src/Grpc/Subscriptions.antt =====
-- api/grpc/server.go: what the handlers do to the subscriptions.
use dst_go.Base.{
  ℕ, suc, String, List, [], ◌∷◌, Bool, true, false, Option, none, some, Exec, done, lookup, insert,
  erase, if◌then◌else◌, ◌≡◌, refl, inl, inr, arith, lookup-insert, eq_iff, Option-cases,
}
use dst_go.Grpc.Server.{
  Server, Signals, new_server, is_in, delete_signal, close_grpc_pay_ch_proposal_sub,
  close_grpc_pay_ch_update_sub, or_empty, keep_proposal_signal, keep_update_signal, Started,
  waits_for,
}
use dst_go.Grpc.Places.{
  Place, proposals_of, updates_of, place_eq, is_update_of, signal_in, signal_at, InOrder,
  InOrder-put, InOrder-cut,
}

-- The map of a session is there from the opening of the session on.
abbrev pub is_table : Option Signals → Bool
is_table none = false
is_table (some signals) = true

abbrev pub has_map : Place → List (String × Signals) → Bool
has_map (proposals_of s) table = true
has_map (updates_of s h) table = is_table (lookup s table)

module _ {N : Type 0} where
  abbrev pub IsInOrder : Server N → Type 0
  IsInOrder a = InOrder (signal_at a) a.next_signal a.closed

  pub new_server-IsInOrder : (n : N) → IsInOrder (new_server n)
  unfolding new_server signal_at signal_in or_empty lookup is_in
  new_server-IsInOrder n = record {
    made = λ p c e. cc (nothing p);
    running = λ p c e. refl;
    apart = λ p q c e d. cc (nothing p);
    past = λ c e. cc;
  }
    where
      nothing : (p : Place) → signal_at (new_server n) p ≡ none
      nothing (proposals_of s) = refl
      nothing (updates_of s h) = refl

  -- Whether the place can be subscribed to.
  abbrev pub has_table : Place → Server N → Bool
  has_table p a = has_map p a.ch_updates_notif

  -- `closeGrpcPayChProposalSub` and `closeGrpcPayChUpdateSub`, by the place.
  abbrev pub end_at : Place → Server N → Exec (Server N)
  end_at (proposals_of s) a = close_grpc_pay_ch_proposal_sub s a
  end_at (updates_of s h) a = close_grpc_pay_ch_update_sub s h a

  -- The two subscribing functions behind the call of the session, by the place.
  abbrev pub keep_at : Place → Server N → Exec (Server N × Started)
  keep_at (proposals_of s) a = done (keep_proposal_signal s a)
  keep_at (updates_of s h) a = keep_update_signal s h a

  -- The subscription at the place has ended: its signal is closed and gone from the table, and all
  -- else is as it was, also what was sent on the streams.
  pub record Ended (p : Place) (c : ℕ) (a a' : Server N) : Type 0 where
    pub node_stays : a'.node ≡ a.node
    pub next_stays : a'.next_signal ≡ a.next_signal
    pub one_closed : a'.closed ≡ c ∷ a.closed
    pub one_gone : (q : Place) → signal_at a' q ≡ (if place_eq p q then none else signal_at a q)
    pub tables_stay : (q : Place) → has_table q a' ≡ has_table q a
    pub proposals_stay : a'.proposals_sent ≡ a.proposals_sent
    pub updates_stay : a'.updates_sent ≡ a.updates_sent

  -- The subscription at the place waits for a new signal, and all else is as it was.
  pub record Kept (p : Place) (a : Server N) (out : Server N × Started) : Type 0 where
    pub node_stays : (out.0).node ≡ a.node
    pub one_made : (out.0).next_signal ≡ suc a.next_signal
    pub closed_stay : (out.0).closed ≡ a.closed
    pub waits : out.1 ≡ waits_for a.next_signal
    pub one_put :
        (q : Place)
        → signal_at out.0 q ≡ (if place_eq p q then some a.next_signal else signal_at a q)
    pub tables_stay : (q : Place) → has_table q out.0 ≡ has_table q a

  -- The maps of sessions are not removed, and not added to the others.
  pub deleted_tables :
      (s h : String) (q : Place) (a : Server N)
      → has_table q (record a { ch_updates_notif = delete_signal s h a.ch_updates_notif })
        ≡ has_table q a
  unfolding delete_signal
  deleted_tables s h (proposals_of t) a = refl
  deleted_tables s h (updates_of t k) a = elim (Option-cases (lookup s a.ch_updates_notif)) [
    | inl e ↦ ground (arith, e)
    | inr (signals, e) ↦
        ground (arith, lookup-insert s t (erase h signals) a.ch_updates_notif, eq_iff s t)
  ]

  pub inserted_tables :
      (s : String) (signals signals' : Signals) (q : Place) (a : Server N)
      → lookup s a.ch_updates_notif ≡ some signals
      → has_table q (record a { ch_updates_notif = insert s signals' a.ch_updates_notif })
        ≡ has_table q a
  inserted_tables s signals signals' (proposals_of t) a e = refl
  inserted_tables s signals signals' (updates_of t k) a e =
      ground (arith, lookup-insert s t signals' a.ch_updates_notif, eq_iff s t)

  pub opened_tables :
      (s : String) (q : Place) (a : Server N)
      → has_table q (record a { ch_updates_notif = insert s [] a.ch_updates_notif })
        ≡ (if is_update_of s q then true else has_table q a)
  opened_tables s (proposals_of t) a = refl
  opened_tables s (updates_of t k) a =
      ground (arith, lookup-insert s t [] a.ch_updates_notif, eq_iff s t)

  pub Ended-IsInOrder :
      (p : Place) (c : ℕ) (a a' : Server N)
      → IsInOrder a
      → signal_at a p ≡ some c
      → Ended p c a a'
      → IsInOrder a'
  unfolding signal_at
  Ended-IsInOrder p c a a' o held e =
      rw (e.next_stays, e.one_closed)
        (InOrder-cut (signal_at a) (signal_at a') a.next_signal a.closed o p c held e.one_gone)

  pub Kept-IsInOrder :
      (p : Place) (a : Server N) (out : Server N × Started)
      → IsInOrder a
      → Kept p a out
      → IsInOrder out.0
  unfolding signal_at
  Kept-IsInOrder p a out o k =
      rw (k.one_made, k.closed_stay)
        (InOrder-put (signal_at a) (signal_at out.0) a.next_signal a.closed o p k.one_put)
