-- ===== src/Grpc/Changes.antt =====
-- api/grpc/server.go: what subscribing and unsubscribing come to.
use dst_go.Base.{
  ℕ, suc, String, ◌∷◌, Bool, true, false, Option, none, some, Exec, done, panic, Returns, lookup,
  insert, erase, ◌≡◌, refl, sym, subst,
}
use dst_go.Grpc.Server.{
  Server, Signals, is_in, close_signal, delete_signal, close_grpc_pay_ch_proposal_sub,
  close_grpc_pay_ch_update_sub, update_signal, keep_proposal_signal, keep_in, keep_update_signal,
  Started, waits_for,
}
use dst_go.Grpc.Places.{
  Place, proposals_of, updates_of, signal_in, signal_at, signal_in-proposal, signal_in-erased,
  signal_in-update, signal_in-deleted,
}
use dst_go.Grpc.Subscriptions.{
  is_table, IsInOrder, has_table, end_at, keep_at, Ended, Kept, deleted_tables, inserted_tables,
  Ended-IsInOrder, Kept-IsInOrder,
}

module _ {N : Type 0} where
  close_nil : (a : Server N) → close_signal none a ≡ panic
  unfolding close_signal
  close_nil a = refl

  close_signal_running :
      (c : ℕ) (a : Server N)
      → is_in c a.closed ≡ false
      → close_signal (some c) a ≡ done (record a { closed = c ∷ a.closed })
  unfolding close_signal
  close_signal_running c a e = rw (e, close_signal) refl

  -- What ending the subscription at a place comes to, by the signal there.
  abbrev pub EndsBy : Place → Server N → Option ℕ → Exec (Server N) → Type 0
  EndsBy p a none m = m ≡ panic
  EndsBy p a (some c) m = Returns (λ a'. Ended p c a a' × IsInOrder a') m

  -- The server without the entry of a place.
  abbrev without : Place → Server N → Server N
  without (proposals_of s) a = record a { ch_proposals_notif = erase s a.ch_proposals_notif }
  without (updates_of s h) a = record a { ch_updates_notif = delete_signal s h a.ch_updates_notif }

  without_runs : (p : Place) (a : Server N) → (without p a).closed ≡ a.closed
  without_runs (proposals_of s) a = refl
  without_runs (updates_of s h) a = refl

  end_at_lem : (p : Place) (a : Server N) → end_at p a ≡ close_signal (signal_at a p) (without p a)
  unfolding signal_at signal_in update_signal close_grpc_pay_ch_proposal_sub
      close_grpc_pay_ch_update_sub
  end_at_lem (proposals_of s) a = refl
  end_at_lem (updates_of s h) a = refl

  without-Ended :
      (p : Place) (c : ℕ) (a : Server N)
      → Ended p c a (record (without p a) { closed = c ∷ a.closed })
  unfolding signal_at
  without-Ended (proposals_of s) c a = record {
    node_stays = refl;
    next_stays = refl;
    one_closed = refl;
    one_gone = signal_in-erased a.ch_proposals_notif a.ch_updates_notif s;
    tables_stay = λ q. refl;
    proposals_stay = refl;
    updates_stay = refl;
  }
  without-Ended (updates_of s h) c a = record {
    node_stays = refl;
    next_stays = refl;
    one_closed = refl;
    one_gone = signal_in-deleted a.ch_proposals_notif a.ch_updates_notif s h;
    tables_stay = λ q. deleted_tables s h q a;
    proposals_stay = refl;
    updates_stay = refl;
  }

  close_running :
      (p : Place) (c : ℕ) (a : Server N)
      → is_in c a.closed ≡ false
      → close_signal (some c) (without p a) ≡ done (record (without p a) { closed = c ∷ a.closed })
  close_running (proposals_of s) c a e = close_signal_running c (without (proposals_of s) a) e
  close_running (updates_of s h) c a e = close_signal_running c (without (updates_of s h) a) e

  -- Ending a subscription closes its signal, or panics where there is none.
  pub end_at-EndsBy :
      (p : Place) (a : Server N) → IsInOrder a → EndsBy p a (signal_at a p) (end_at p a)
  end_at-EndsBy p a o =
      subst (EndsBy p a (signal_at a p)) (sym (end_at_lem p a)) (by_signal (signal_at a p) refl)
    where
      by_signal :
          (signal : Option ℕ)
          → signal_at a p ≡ signal
          → EndsBy p a signal (close_signal signal (without p a))
      by_signal none e = close_nil (without p a)
      by_signal (some c) e =
          let done' = record (without p a) { closed = c ∷ a.closed } in
          subst (EndsBy p a (some c)) (sym (close_running p c a (o.running p c e)))
            (without-Ended p c a, Ended-IsInOrder p c a done' o e (without-Ended p c a))

  keep_proposal-Kept :
      (s : String) (a : Server N) → Kept (proposals_of s) a (keep_proposal_signal s a)
  unfolding signal_at keep_proposal_signal
  keep_proposal-Kept s a = record {
    node_stays = refl;
    one_made = refl;
    closed_stay = refl;
    waits = refl;
    one_put = signal_in-proposal a.ch_proposals_notif a.ch_updates_notif s a.next_signal;
    tables_stay = λ q. refl;
  }

  -- What subscribing at a place comes to: only a channel of a session that was not opened panics.
  abbrev pub KeepsBy : Place → Server N → Bool → Exec (Server N × Started) → Type 0
  KeepsBy p a true m = Returns (λ out. Kept p a out × IsInOrder out.0) m
  KeepsBy p a false m = m ≡ panic

  keep_in-KeepsBy :
      (s h : String) (a : Server N) (table : Option Signals)
      → IsInOrder a
      → lookup s a.ch_updates_notif ≡ table
      → KeepsBy (updates_of s h) a (is_table table) (keep_in s h a table)
  unfolding keep_in signal_at
  keep_in-KeepsBy s h a none o e = refl
  keep_in-KeepsBy s h a (some signals) o e = (kept, Kept-IsInOrder (updates_of s h) a _ o kept)
    where
      kept : Kept (updates_of s h) a (
        record a {
          ch_updates_notif = insert s (insert h a.next_signal signals) a.ch_updates_notif;
          next_signal = suc a.next_signal;
        },
        waits_for a.next_signal,
      )
      kept = record {
        node_stays = refl;
        one_made = refl;
        closed_stay = refl;
        waits = refl;
        one_put = λ q.
            signal_in-update a.ch_proposals_notif a.ch_updates_notif s h a.next_signal signals q e;
        tables_stay = λ q. inserted_tables s signals (insert h a.next_signal signals) q a e;
      }

  pub keep_at-KeepsBy :
      (p : Place) (a : Server N) → IsInOrder a → KeepsBy p a (has_table p a) (keep_at p a)
  unfolding keep_update_signal
  keep_at-KeepsBy (proposals_of s) a o = (
    keep_proposal-Kept s a,
    Kept-IsInOrder (proposals_of s) a (keep_proposal_signal s a) o (keep_proposal-Kept s a),
  )
  keep_at-KeepsBy (updates_of s h) a o = keep_in-KeepsBy s h a (lookup s a.ch_updates_notif) o refl
