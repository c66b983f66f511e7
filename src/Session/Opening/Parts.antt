-- ===== src/Session/Opening/Parts.antt =====
-- session/session.go: which participants `retrievePartIDs` accepts.
use dst_go.Base.{
  String, List, [], ◌∷◌, ◌++◌, true, ◌||◌, Option, none, some, insert, lookup, lookup-insert,
  str_eq, ◌≡◌, refl, sym, ap, ◌∙◌, ◌≢◌, ◌↔◌, ◌⊎◌, inl, inr, arith, eq_iff, Option-cases, Bool-cases,
  subst,
}
use dst_go.Perun.Info.{PeerId, own_alias}
use dst_go.Errors.{returned}
use dst_go.Session.Opening.{
  PartsFound, find_part, find_parts, judge_parts, none_found, retrieve_part_ids,
}

-- The aliases of a list, one after the other, have these peers.
abbrev pub ReadAs : (String → Option PeerId) → List String → List PeerId → Type 0
ReadAs read [] [] = Unit
ReadAs read (a ∷ rest) (p ∷ ps) = (read a ≡ some p) × ReadAs read rest ps
ReadAs read [] (p ∷ ps) = ⊥
ReadAs read (a ∷ rest) [] = ⊥

abbrev pub Occurs : String → List String → Type 0
Occurs a [] = ⊥
Occurs a (b ∷ bs) = (b ≡ a) ⊎ Occurs a bs

-- No alias comes twice.
abbrev pub AllDifferent : List String → Type 0
AllDifferent [] = Unit
AllDifferent (a ∷ rest) = (¬ Occurs a rest) × AllDifferent rest

-- What the variables of the loop tell when they end as `g` with no error, from `f` on.
record Sound (read : String → Option PeerId) (aliases : List String) (f g : PartsFound)
    : Type 0 where
  ps : List PeerId
  reads : ReadAs read aliases ps
  ids : g.part_ids ≡ f.part_ids ++ ps
  different : AllDifferent aliases
  fresh : (a : String) → Occurs a aliases → lookup a f.known_parts ≡ none
  missing : f.missing_parts ≡ []
  repeated : f.repeated_parts ≡ []
  own : g.found_own_alias ≡ true → (f.found_own_alias ≡ true) ⊎ Occurs own_alias aliases

append-nil {ℓ} : {A : Type ℓ} (xs : List A) → xs ++ [] ≡ xs
append-nil [] = refl
append-nil (x ∷ xs) = ap (λ ys. x ∷ ys) (append-nil xs)

append_one_assoc {ℓ} :
    {A : Type ℓ} (xs : List A) (x : A) (ys : List A) → (xs ++ x ∷ []) ++ ys ≡ xs ++ x ∷ ys
append_one_assoc [] x ys = refl
append_one_assoc (z ∷ xs) x ys = ap (λ zs. z ∷ zs) (append_one_assoc xs x ys)

append_one-ne {ℓ} : {A : Type ℓ} (xs : List A) (x : A) → xs ++ x ∷ [] ≢ []
append_one-ne [] x e = cc
append_one-ne (y ∷ xs) x e = cc

find_part-repeated :
    (a : String) (p : PeerId) (f : PartsFound)
    → (find_part a (some p) f).repeated_parts ≡ []
    → (f.repeated_parts ≡ []) × (lookup a f.known_parts ≡ none)
unfolding find_part
find_part-repeated a p f h = elim (Option-cases (lookup a f.known_parts)) [
  | inl e ↦ (ground arith, e)
  | inr (q, e) ↦ absurd (append_one-ne f.repeated_parts a (ground arith))
]

Sound-cons :
    (read : String → Option PeerId) (a : String) (rest : List String) (f g : PartsFound)
    (r : Option PeerId)
    → read a ≡ r
    → Sound read rest (find_part a r f) g
    → Sound read (a ∷ rest) f g
unfolding find_part
Sound-cons read a rest f g none e s = absurd (append_one-ne f.missing_parts a s.missing)
Sound-cons read a rest f g (some p) e s =
    let (old, new) = find_part-repeated a p f s.repeated in
    let seen = λ (b : String). lookup-insert a b p f.known_parts in
    record {
      ps = p ∷ s.ps;
      reads = (e, s.reads);
      ids = s.ids ∙ append_one_assoc f.part_ids p s.ps;
      different = (λ o. let gone = s.fresh a o in ground (arith, seen a, eq_iff a a), s.different);
      fresh = λ b o. elim o [
        | inl same ↦ subst (λ c. lookup c f.known_parts ≡ none) same new
        | inr later ↦
            let gone : lookup b (insert a p f.known_parts) ≡ none = s.fresh b later in
            ground (arith, seen b)
      ];
      missing = s.missing;
      repeated = old;
      own = λ h. elim (s.own h) [ inl o ↦ own_case o | inr o ↦ inr (inr o) ];
    }
  where
    own_case :
        (f.found_own_alias || str_eq a own_alias) ≡ true
        → (f.found_own_alias ≡ true) ⊎ Occurs own_alias (a ∷ rest)
    own_case h = elim (Bool-cases f.found_own_alias) [
      | inl y ↦ inl y
      | inr n ↦ inr (inl (ground (arith, eq_iff a own_alias)))
    ]

find_parts-Sound :
    (read : String → Option PeerId) (aliases : List String) (f : PartsFound)
    → (find_parts read aliases f).missing_parts ≡ []
    → (find_parts read aliases f).repeated_parts ≡ []
    → Sound read aliases f (find_parts read aliases f)
unfolding find_parts
find_parts-Sound read [] f m r = record {
  ps = [];
  reads = tt;
  ids = sym (append-nil f.part_ids);
  different = tt;
  fresh = λ a o. elim o [ ];
  missing = m;
  repeated = r;
  own = λ h. inl h;
}
find_parts-Sound read (a ∷ rest) f m r =
    Sound-cons read a rest f _ (read a) refl
      (find_parts-Sound read rest (find_part a (read a) f) m r)

judged :
    (aliases : List String) (f : PartsFound) (ps : List PeerId)
    → judge_parts aliases f ≡ returned ps
    → (f.missing_parts ≡ [])
      × (f.repeated_parts ≡ [])
      × (f.found_own_alias ≡ true)
      × (f.part_ids ≡ ps)
unfolding judge_parts
judged aliases f ps h = (ground arith, ground arith, ground arith, ground arith)

sound :
    (aliases : List String) (read : String → Option PeerId) (ps : List PeerId)
    → retrieve_part_ids aliases read ≡ returned ps
    → ReadAs read aliases ps × AllDifferent aliases × Occurs own_alias aliases
unfolding retrieve_part_ids
sound aliases read ps h =
    let (m, r, o, q) = judged aliases (find_parts read aliases none_found) ps h in
    let s = find_parts-Sound read aliases none_found m r in
    (
      subst (λ qs. ReadAs read aliases qs) (sym s.ids ∙ q) s.reads,
      s.different,
      elim (s.own o) [ inl e ↦ absurd (ground (arith, e)) | inr o' ↦ o' ],
    )

find_part-fresh :
    (a b : String) (p : PeerId) (f : PartsFound)
    → a ≢ b
    → lookup b f.known_parts ≡ none
    → lookup b (find_part a (some p) f).known_parts ≡ none
unfolding find_part
find_part-fresh a b p f ne h = ground (arith, lookup-insert a b p f.known_parts, eq_iff a b)

find_part-known :
    (a : String) (p : PeerId) (f : PartsFound)
    → lookup a f.known_parts ≡ none
    → let g = find_part a (some p) f in
      (g.missing_parts ≡ f.missing_parts)
      × (g.repeated_parts ≡ f.repeated_parts)
      × (g.part_ids ≡ f.part_ids ++ p ∷ [])
      × (((f.found_own_alias ≡ true) ⊎ (a ≡ own_alias)) → g.found_own_alias ≡ true)
unfolding find_part
find_part-known a p f h = (
  refl,
  ground arith,
  refl,
  λ w. elim w [ inl y ↦ ground arith | inr e ↦ ground (arith, eq_iff a own_alias) ],
)

complete_from :
    (read : String → Option PeerId) (aliases : List String) (ps : List PeerId) (f : PartsFound)
    → ReadAs read aliases ps
    → AllDifferent aliases
    → ((a : String) → Occurs a aliases → lookup a f.known_parts ≡ none)
    → let g = find_parts read aliases f in
      (g.missing_parts ≡ f.missing_parts)
      × (g.repeated_parts ≡ f.repeated_parts)
      × (g.part_ids ≡ f.part_ids ++ ps)
      × (((f.found_own_alias ≡ true) ⊎ Occurs own_alias aliases) → g.found_own_alias ≡ true)
unfolding find_parts
complete_from read [] [] f h d n =
    (refl, refl, sym (append-nil f.part_ids), λ o. elim o [ inl y ↦ y | inr x ↦ elim x [ ] ])
complete_from read [] (p ∷ ps) f h d n = elim h [ ]
complete_from read (a ∷ rest) [] f h d n = elim h [ ]
complete_from read (a ∷ rest) (p ∷ ps) f h d n =
    let next = find_part a (some p) f in
    let (m, r, i, o) = complete_from read rest ps next h.1 d.1 (λ b w.
      find_part-fresh a b p f (λ e. d.0 (subst (λ c. Occurs c rest) (sym e) w)) (n b (inr w))) in
    let (m', r', i', o') = find_part-known a p f (n a (inl refl)) in
    rw (h.0, find_parts)
      (
        m ∙ m',
        r ∙ r',
        i ∙ (ap (λ xs. xs ++ ps) i' ∙ append_one_assoc f.part_ids p ps),
        λ w. o (elim w [
          | inl y ↦ inl (o' (inl y))
          | inr x ↦ elim x [ inl same ↦ inl (o' (inr same)) | inr later ↦ inr later ]
        ]),
      )

nothing_known : (a : String) → lookup a none_found.known_parts ≡ none
unfolding lookup
nothing_known a = refl

passes :
    (aliases : List String) (f : PartsFound)
    → f.missing_parts ≡ []
    → f.repeated_parts ≡ []
    → f.found_own_alias ≡ true
    → judge_parts aliases f ≡ returned f.part_ids
unfolding judge_parts
passes aliases f m r o = ground arith

-- The peer IDs of a list of aliases are retrieved exactly if every alias is known to the ID
-- provider, none comes twice, and the own alias is among them; they are then the peers of the
-- aliases, in their order.
pub retrieve_part_ids_iff :
    (aliases : List String) (read : String → Option PeerId) (ps : List PeerId)
    → (retrieve_part_ids aliases read ≡ returned ps)
      ↔ (ReadAs read aliases ps × AllDifferent aliases × Occurs own_alias aliases)
unfolding retrieve_part_ids
retrieve_part_ids_iff aliases read ps = (
  sound aliases read ps,
  λ (h, d, o).
      let (m, r, i, own) = complete_from read aliases ps none_found h d (λ a w. nothing_known a) in
      passes aliases (find_parts read aliases none_found) m r (own (inr o)) ∙ ap returned i,
)
