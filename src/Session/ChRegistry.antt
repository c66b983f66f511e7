-- ===== src/Session/ChRegistry.antt =====
-- session/channelRegistry.go: the channels of a session, by ID and in the order of adding.
pub mod Laws
use dst_go.Base.{
  ℕ, ◌-◌, String, List, [], ◌∷◌, ◌++◌, Option, none, some, Exec, done, ◌>>=◌, or_panic, get_elem?,
  insert, lookup, length,
}

pub record ChRegistry (C : Type 0) : Type 0 where
  pub ch_idxs : List (String × ℕ)
  pub chs : List C

module _ {C : Type 0} where
  unfoldable pub new_ch_registry : ChRegistry C
  new_ch_registry = record { ch_idxs = []; chs = [] }

  -- `get`: none is nil. An index that is out of range panics.
  unfoldable pub get : ChRegistry C → String → Exec (Option C)
  get r ch_id = elim (lookup ch_id r.ch_idxs) [
    | none ↦ done none
    | some ch_idx ↦ or_panic (get_elem? r.chs ch_idx) >>= λ ch. done (some ch)
  ]

  unfoldable pub count : ChRegistry C → ℕ
  count r = length r.chs

  -- `forEach`, for a function that makes something of each channel and may change it.
  unfoldable pub for_each {ℓ} : {B : Type ℓ} → (C → Exec (C × B)) → List C → Exec (List C × List B)
  for_each f [] = done ([], [])
  for_each f (c ∷ cs) = do (c', b) ← f c; (cs', bs) ← for_each f cs; done (c' ∷ cs', b ∷ bs)

module _ {C : Type 0} (id : C → String) where
  -- `put`: the index of the channel is the last one.
  unfoldable pub put : ChRegistry C → C → ChRegistry C
  put r ch =
      let chs = r.chs ++ ch ∷ [] in
      record { ch_idxs = insert (id ch) (length chs - 1) r.ch_idxs; chs = chs }
