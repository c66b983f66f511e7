-- ===== src/Session/ChRegistry/Laws.antt =====
-- session/channelRegistry.go: look-ups after adding channels.
use dst_go.Base.{
  ℕ, ◌+◌, ◌-◌, String, List, [], ◌∷◌, ◌++◌, All, All-append_one, none, some, done, get_elem?,
  lookup, lookup-insert, length, length-append, get_elem?-append_last, get_elem?-append_left,
  get_elem?-lt, str_eq, if◌then◌else◌, ◌≡◌, refl, ◌∙◌, arith, eq_iff, true, false, Bool-cases,
  Option-cases, ◌⊎◌, inl, inr,
}
use dst_go.Session.ChRegistry.{ChRegistry, new_ch_registry, put, get, count}

module _ {C : Type 0} (id : C → String) where
  -- Every ID in the index leads to a channel with this ID.
  abbrev pub IsIndexed : ChRegistry C → Type 0
  IsIndexed r =
      (k : String) (i : ℕ)
      → lookup k r.ch_idxs ≡ some i
      → (c : C) × (get_elem? r.chs i ≡ some c) × (id c ≡ k)

  pub new_ch_registry-IsIndexed : IsIndexed new_ch_registry
  unfolding new_ch_registry lookup
  new_ch_registry-IsIndexed k i e = cc

  last_index : (cs : List C) (c : C) → length (cs ++ c ∷ []) - 1 ≡ length cs
  last_index cs c = omega (arith, length-append cs (c ∷ []))

  lookup-put :
      (r : ChRegistry C) (c : C) (k : String)
      → lookup k (put id r c).ch_idxs
        ≡ (if str_eq (id c) k then some (length r.chs) else lookup k r.ch_idxs)
  unfolding put
  lookup-put r c k = rw (last_index r.chs c) (lookup-insert (id c) k (length r.chs) r.ch_idxs)

  put-old :
      (r : ChRegistry C) (c : C) (k : String) (i : ℕ)
      → lookup k (put id r c).ch_idxs ≡ some i
      → ((id c ≡ k) × (i ≡ length r.chs)) ⊎ (lookup k r.ch_idxs ≡ some i)
  put-old r c k i e = ground (arith, lookup-put r c k, eq_iff (id c) k)

  -- Adding a channel keeps the index right.
  pub put-IsIndexed : (r : ChRegistry C) (c : C) → IsIndexed r → IsIndexed (put id r c)
  unfolding put
  put-IsIndexed r c v k i e = elim (put-old r c k i e) [
    | inl (h, last) ↦ (c, rw last (get_elem?-append_last r.chs c), h)
    | inr old ↦
        let (d, g, h) = v k i old in
        (d, get_elem?-append_left r.chs (c ∷ []) i (get_elem?-lt r.chs i g) ∙ g, h)
  ]

  get-put_other :
      (r : ChRegistry C) (c : C) (k : String)
      → IsIndexed r
      → str_eq (id c) k ≡ false
      → get (put id r c) k ≡ get r k
  unfolding put get
  get-put_other r c k v h = elim (Option-cases (lookup k r.ch_idxs)) [
    | inl e ↦ ground (arith, lookup-put r c k)
    | inr (i, e) ↦
        let (d, g, q) = v k i e in
        ground
          (arith, lookup-put r c k, get_elem?-append_left r.chs (c ∷ []) i (get_elem?-lt r.chs i g))
  ]

  get-put_self :
      (r : ChRegistry C) (c : C) (k : String)
      → str_eq (id c) k ≡ true
      → get (put id r c) k ≡ done (some c)
  unfolding put get
  get-put_self r c k h = ground (arith, lookup-put r c k, get_elem?-append_last r.chs c)

  -- After a channel was added its ID leads to it, and every other ID leads where it led. The
  -- channel comes last in the order, also if its ID was known: then the channel that it takes the
  -- place of stays in the list.
  pub get-put :
      (r : ChRegistry C) (c : C) (k : String)
      → IsIndexed r
      → (get (put id r c) k ≡ (if str_eq (id c) k then done (some c) else get r k))
        × (count (put id r c) ≡ count r + 1)
        × ((put id r c).chs ≡ r.chs ++ c ∷ [])
  unfolding put count
  get-put r c k v = (
    elim (Bool-cases (str_eq (id c) k)) [
      | inl h ↦ get-put_self r c k h ∙ rw h
      | inr h ↦ get-put_other r c k v h ∙ rw h
    ],
    omega (arith, length-append r.chs (c ∷ [])),
    refl,
  )

  -- The ID of the channel leads to a channel with this ID.
  abbrev pub IsFound : ChRegistry C → C → Type 0
  IsFound r d = (c : C) × (get r (id d) ≡ done (some c)) × (id c ≡ id d)

  put-All-IsFound :
      (r : ChRegistry C) (c : C) (ds : List C)
      → IsIndexed r
      → All (IsFound r) ds
      → All (IsFound (put id r c)) ds
  put-All-IsFound r c [] v h = tt
  put-All-IsFound r c (d ∷ ds) v ((found, g, h), hs) = (
    elim (Bool-cases (str_eq (id c) (id d))) [
      | inl e ↦ (c, get-put_self r c (id d) e, (eq_iff (id c) (id d)).0 e)
      | inr e ↦ (found, get-put_other r c (id d) v e ∙ g, h)
    ],
    put-All-IsFound r c ds v hs,
  )

  -- Adding a channel to a registry where every channel is found keeps this.
  pub put-IsFound :
      (r : ChRegistry C) (c : C)
      → IsIndexed r
      → All (IsFound r) r.chs
      → All (IsFound (put id r c)) (put id r c).chs
  unfolding put
  put-IsFound r c v h =
      All-append_one (IsFound (put id r c)) r.chs c (put-All-IsFound r c r.chs v h)
        (c, get-put_self r c (id c) ((eq_iff (id c) (id c)).1 refl), refl)

  -- While the index is right a look-up does not panic: it finds nothing where the ID is not in the
  -- index, and otherwise a channel with this ID.
  pub get-Returns :
      (r : ChRegistry C) (k : String)
      → IsIndexed r
      → ((lookup k r.ch_idxs ≡ none) × (get r k ≡ done none))
        ⊎ ((c : C) × (get r k ≡ done (some c)) × (id c ≡ k))
  unfolding get
  get-Returns r k v = elim (Option-cases (lookup k r.ch_idxs)) [
    | inl e ↦ inl (e, rw (e, get))
    | inr (i, e) ↦ let (c, g, h) = v k i e in inr (c, rw (e, get) (rw g), h)
  ]
