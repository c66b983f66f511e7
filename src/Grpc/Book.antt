-- ===== src/Grpc/Book.antt =====
-- api/grpc/server.go: the two maps of the server as one book of subscriptions.
use dst_go.Base.{
  ℕ, suc, String, List, [], ◌∷◌, Bool, true, false, Option, none, some, Exec, done, panic, blocks,
  ◌>>=◌, insert, if◌then◌else◌, ◌≡◌, refl, subst,
}
use mathlib.Core.Path.{fun_ext}
use dst_go.Grpc.Server.{Server, Started}
use dst_go.Grpc.Places.{Place, place_eq, is_update_of, signal_at, signal_in-opened, InOrder-less}
use dst_go.Grpc.Subscriptions.{IsInOrder, has_table, end_at, keep_at, opened_tables}
use dst_go.Grpc.Changes.{EndsBy, KeepsBy, end_at-EndsBy, keep_at-KeepsBy}

-- Who is subscribed, by place; which places can be subscribed to; the next signal; and the signals
-- that were closed, the last one first.
pub record Book : Type 0 where
  pub held : Place → Option ℕ
  pub known : Place → Bool
  pub next : ℕ
  pub ended : List ℕ

-- What happens to the table: a session was opened, a subscription is kept, or ended.
pub data Change : Type 0 where
  session_opened : (session_id : String) → Change
  keep end : Place → Change

unfoldable pub keep_by : Place → Book → Bool → Option Book
keep_by p k false = none
keep_by p k true =
    some
      (record k { held = λ q. if place_eq p q then some k.next else k.held q; next = suc k.next })

unfoldable pub end_by : Place → Book → Option ℕ → Option Book
end_by p k none = none
end_by p k (some c) =
    some (record k { held = λ q. if place_eq p q then none else k.held q; ended = c ∷ k.ended })

-- The changes of a book; none is a panic.
unfoldable pub change : Change → Book → Option Book
unfolding keep_by end_by
change (session_opened s) k = some (record k {
  held = λ q. if is_update_of s q then none else k.held q;
  known = λ q. if is_update_of s q then true else k.known q;
})
change (keep p) k = keep_by p k (k.known p)
change (end p) k = end_by p k (k.held p)

-- The changes from a book that there may be.
unfoldable pub replay_from : (Book → Option Book) → Option Book → Option Book
replay_from f none = none
replay_from f (some k) = f k

unfoldable pub replay : List Change → Book → Option Book
unfolding change replay_from
replay [] k = some k
replay (c ∷ cs) k = replay_from (replay cs) (change c k)

Book-ext :
    (k k' : Book)
    → k.held ≡ k'.held
    → k.known ≡ k'.known
    → k.next ≡ k'.next
    → k.ended ≡ k'.ended
    → k ≡ k'
Book-ext k k' h x n e = λ i. record { held = h i; known = x i; next = n i; ended = e i }

module _ {N : Type 0} where
  -- The book that the maps of a server stand for.
  unfoldable pub view : Server N → Book
  view a = record {
    held = signal_at a;
    known = λ p. has_table p a;
    next = a.next_signal;
    ended = a.closed;
  }

  unfoldable pub apply : Change → Server N → Exec (Server N)
  apply (session_opened s) a = done (record a { ch_updates_notif = insert s [] a.ch_updates_notif })
  apply (keep p) a = keep_at p a >>= λ out. done out.0
  apply (end p) a = end_at p a

  unfoldable pub run : List Change → Server N → Exec (Server N)
  unfolding apply
  run [] a = done a
  run (c ∷ cs) a = apply c a >>= run cs

  -- The server panics where the book has no change, and otherwise stands for the changed book.
  abbrev pub Refines : Exec (Server N) → Option Book → Type 0
  Refines (done a) (some k) = view a ≡ k
  Refines panic none = Unit
  Refines (done a) none = ⊥
  Refines panic (some k) = ⊥
  Refines blocks k = ⊥

  -- One change: as `Refines`, and the table is in order after it.
  abbrev Stepped : Exec (Server N) → Option Book → Type 0
  Stepped (done a) (some k) = (view a ≡ k) × IsInOrder a
  Stepped panic none = Unit
  Stepped (done a) none = ⊥
  Stepped panic (some k) = ⊥
  Stepped blocks k = ⊥

  end_Stepped :
      (p : Place) (a : Server N) (signal : Option ℕ) (m : Exec (Server N))
      → EndsBy p a signal m
      → Stepped m (end_by p (view a) signal)
  unfolding view end_by
  end_Stepped p a none m e = rw e tt
  end_Stepped p a (some c) (done a') (e, o) =
      (Book-ext _ _ (fun_ext e.one_gone) (fun_ext e.tables_stay) e.next_stays e.one_closed, o)
  end_Stepped p a (some c) panic h = h
  end_Stepped p a (some c) blocks h = h

  keep_Stepped :
      (p : Place) (a : Server N) (known : Bool) (m : Exec (Server N × Started))
      → KeepsBy p a known m
      → Stepped (m >>= λ out. done out.0) (keep_by p (view a) known)
  unfolding view keep_by
  keep_Stepped p a false m e = rw e tt
  keep_Stepped p a true (done out) (e, o) =
      (Book-ext _ _ (fun_ext e.one_put) (fun_ext e.tables_stay) e.one_made e.closed_stay, o)
  keep_Stepped p a true panic h = h
  keep_Stepped p a true blocks h = h

  apply-Stepped :
      (c : Change) (a : Server N) → IsInOrder a → Stepped (apply c a) (change c (view a))
  unfolding apply change view signal_at
  apply-Stepped (end p) a o = end_Stepped p a (signal_at a p) (end_at p a) (end_at-EndsBy p a o)
  apply-Stepped (keep p) a o =
      keep_Stepped p a (has_table p a) (keep_at p a) (keep_at-KeepsBy p a o)
  apply-Stepped (session_opened s) a o = (
    Book-ext _ _ (fun_ext (signal_in-opened a.ch_proposals_notif a.ch_updates_notif s))
        (fun_ext (λ q. opened_tables s q a)) refl refl,
    InOrder-less (signal_at a) _ a.next_signal a.closed o (is_update_of s)
        (signal_in-opened a.ch_proposals_notif a.ch_updates_notif s),
  )

  -- After any changes, from a table that is in order, the two maps of the server stand for the book
  -- that the same changes make of what they stood for; the server panics where the book has no
  -- change: a subscription that is not there is ended, or one to a session without a map is kept.
  pub run-Refines :
      (cs : List Change) (a : Server N) → IsInOrder a → Refines (run cs a) (replay cs (view a))
  unfolding run replay replay_from
  run-Refines [] a o = refl
  run-Refines (c ∷ cs) a o =
      rest (apply c a) (change c (view a)) (apply-Stepped c a o) (run-Refines cs)
    where
      rest :
          (m : Exec (Server N)) (k : Option Book)
          → Stepped m k
          → ((a' : Server N) → IsInOrder a' → Refines (run cs a') (replay cs (view a')))
          → Refines (m >>= run cs) (replay_from (replay cs) k)
      rest (done a') (some k) (e, o') ih =
          subst (λ x. Refines (run cs a') (replay cs x)) e (ih a' o')
      rest panic none h ih = tt
      rest (done a') none h ih = absurd h
      rest panic (some k) h ih = absurd h
      rest blocks k h ih = absurd h
