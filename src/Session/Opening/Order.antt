-- ===== src/Session/Opening/Order.antt =====
-- session/session.go: the order that `sanitizeBalInfo` makes.
use dst_go.Base.{
  ℕ, zero, suc, ◌+◌, ◌<◌, String, List, [], ◌∷◌, false, some, Exec, done, panic, blocks, Returns,
  ◌>>=◌, get_elem?, set, length, length-set, get_elem?-set_self, get_elem?-set_ne, get_elem?-lt,
  get_elem?_of_lt, All, str_eq, ◌≡◌, refl, sym, ap, ◌∙◌, ◌≢◌, ◌⊎◌, inl, inr, arith, eq_iff,
  Bool-cases,
}
use dst_go.Session.Opening.Parts.{Occurs}
use dst_go.Perun.Info.{BalInfo, own_alias}
use dst_go.Session.Opening.{own_idx_from, to_front, rows_to_front, sanitize_at, sanitize_bal_info}

-- The own alias stands at the index that the loop finds, when it stands anywhere from the start.
own_idx_from-found :
    (idx own : ℕ) (parts : List String)
    → (own_idx_from idx parts own ≡ own)
      ⊎ ((j : ℕ) × (own_idx_from idx parts own ≡ idx + j) × (get_elem? parts j ≡ some own_alias))
unfolding own_idx_from
own_idx_from-found idx own [] = inl refl
own_idx_from-found idx own (part ∷ parts) = elim (Bool-cases (str_eq part own_alias)) [
  | inl e ↦ elim (own_idx_from-found (suc idx) idx parts) [
    | inl h ↦
        inr (zero, rw (e, own_idx_from) (h ∙ plus_zero idx), ap some ((eq_iff part own_alias).0 e))
    | inr (j, h, g) ↦ inr (suc j, rw (e, own_idx_from) (h ∙ plus_suc idx j), g)
  ]
  | inr e ↦ elim (own_idx_from-found (suc idx) own parts) [
    | inl h ↦ inl (rw (e, own_idx_from) h)
    | inr (j, h, g) ↦ inr (suc j, rw (e, own_idx_from) (h ∙ plus_suc idx j), g)
  ]
]
  where
    plus_zero : (n : ℕ) → n ≡ n + zero
    plus_zero n = omega arith

    plus_suc : (n m : ℕ) → suc n + m ≡ n + suc m
    plus_suc n m = omega arith

-- `xs` and `ys` are the same but for an exchange of the entries at `i` and `j`.
pub record Exchanged {ℓ} {A : Type ℓ} (i j : ℕ) (xs ys : List A) : Type ℓ where
  pub same_length : length ys ≡ length xs
  pub at_left : get_elem? ys i ≡ get_elem? xs j
  pub at_right : get_elem? ys j ≡ get_elem? xs i
  pub elsewhere : (k : ℕ) → k ≢ i → k ≢ j → get_elem? ys k ≡ get_elem? xs k

exchange {ℓ} :
    {A : Type ℓ} (n : ℕ) (xs : List A) (a b : A)
    → get_elem? xs (suc n) ≡ some a
    → get_elem? xs 0 ≡ some b
    → Exchanged 0 (suc n) xs (set (set xs (suc n) b) 0 a)
exchange n xs a b g h =
    let mid = set xs (suc n) b in
    let long : suc n < length xs = get_elem?-lt xs (suc n) g in
    let long' : 0 < length mid = omega (arith, length-set xs (suc n) b, long) in
    record {
      same_length = length-set mid 0 a ∙ length-set xs (suc n) b;
      at_left = get_elem?-set_self mid 0 a long' ∙ sym g;
      at_right =
          get_elem?-set_ne mid 0 (suc n) a (λ e. omega arith)
          ∙ (get_elem?-set_self xs (suc n) b long ∙ sym h);
      elsewhere = λ k l r.
          get_elem?-set_ne mid 0 k a (λ e. l (sym e))
          ∙ get_elem?-set_ne xs (suc n) k b (λ e. r (sym e));
    }

to_front-Exchanged :
    (n : ℕ) (row : List String)
    → suc n < length row
    → Returns (Exchanged 0 (suc n) row) (to_front (suc n) row)
unfolding to_front
to_front-Exchanged n row long =
    let (a, g) = get_elem?_of_lt row (suc n) long in
    let (b, h) = get_elem?_of_lt row 0 (omega arith) in
    rw (g, to_front) (rw h (exchange n row a b g h))

-- The rows of two lists, one after the other, are related.
abbrev pub Pairwise :
    (List String → List String → Type 0) → List (List String) → List (List String) → Type 0
Pairwise R [] [] = Unit
Pairwise R (x ∷ xs) (y ∷ ys) = R x y × Pairwise R xs ys
Pairwise R [] (y ∷ ys) = ⊥
Pairwise R (x ∷ xs) [] = ⊥

rows_to_front-Exchanged :
    (n : ℕ) (rows : List (List String))
    → All (λ row. suc n < length row) rows
    → Returns (Pairwise (Exchanged 0 (suc n)) rows) (rows_to_front (suc n) rows)
unfolding rows_to_front
rows_to_front-Exchanged n [] h = tt
rows_to_front-Exchanged n (row ∷ rows) (long, h) =
    both (to_front (suc n) row) (rows_to_front (suc n) rows) (to_front-Exchanged n row long)
      (rows_to_front-Exchanged n rows h)
  where
    both :
        (m : Exec (List String)) (later : Exec (List (List String)))
        → Returns (Exchanged 0 (suc n) row) m
        → Returns (Pairwise (Exchanged 0 (suc n)) rows) later
        → Returns
            (Pairwise (Exchanged 0 (suc n)) (row ∷ rows))
            (m >>= λ row'. later >>= λ rows'. done (row' ∷ rows'))
    both (done row') (done rows') a b = (a, b)
    both (done row') panic a b = b
    both (done row') blocks a b = b
    both panic later a b = a
    both blocks later a b = a

own_idx_from-Occurs :
    (idx own : ℕ) (parts : List String)
    → Occurs own_alias parts
    → (j : ℕ) × (own_idx_from idx parts own ≡ idx + j) × (get_elem? parts j ≡ some own_alias)
unfolding own_idx_from
own_idx_from-Occurs idx own [] o = elim o [ ]
own_idx_from-Occurs idx own (part ∷ parts) o = elim (Bool-cases (str_eq part own_alias)) [
  | inl e ↦ elim (own_idx_from-found (suc idx) idx parts) [
    | inl h ↦
        (zero, rw (e, own_idx_from) (h ∙ plus_zero idx), ap some ((eq_iff part own_alias).0 e))
    | inr (j, h, g) ↦ (suc j, rw (e, own_idx_from) (h ∙ plus_suc idx j), g)
  ]
  | inr e ↦
      let (j, h, g) = own_idx_from-Occurs (suc idx) own parts (later e o) in
      (suc j, rw (e, own_idx_from) (h ∙ plus_suc idx j), g)
]
  where
    plus_zero : (n : ℕ) → n ≡ n + zero
    plus_zero n = omega arith

    plus_suc : (n m : ℕ) → suc n + m ≡ n + suc m
    plus_suc n m = omega arith

    later : str_eq part own_alias ≡ false → Occurs own_alias (part ∷ parts) → Occurs own_alias parts
    later e o = elim o [ inl same ↦ absurd (ground (arith, eq_iff part own_alias)) | inr o' ↦ o' ]

-- What `sanitizeBalInfo` makes of a balance info whose own alias is at `i`.
abbrev pub Sanitized : ℕ → BalInfo → BalInfo → Type 0
Sanitized i b b' =
    (get_elem? b.parts i ≡ some own_alias)
    × (get_elem? b'.parts 0 ≡ some own_alias)
    × (b'.currencies ≡ b.currencies)
    × Exchanged 0 i b.parts b'.parts
    × Pairwise (Exchanged 0 i) b.bals b'.bals

unchanged {ℓ} : {A : Type ℓ} (xs : List A) → Exchanged 0 0 xs xs
unchanged xs = record {
  same_length = refl;
  at_left = refl;
  at_right = refl;
  elsewhere = λ k l r. refl;
}

unchanged_rows : (rows : List (List String)) → Pairwise (Exchanged 0 0) rows rows
unchanged_rows [] = tt
unchanged_rows (row ∷ rows) = (unchanged row, unchanged_rows rows)

sanitize_at-Sanitized :
    (i : ℕ) (b : BalInfo)
    → get_elem? b.parts i ≡ some own_alias
    → All (λ row. i < length row) b.bals
    → Returns (Sanitized i b) (sanitize_at i b)
unfolding sanitize_at
sanitize_at-Sanitized zero b g h = (g, g, refl, unchanged b.parts, unchanged_rows b.bals)
sanitize_at-Sanitized (suc n) b g h =
    let long : suc n < length b.parts = get_elem?-lt b.parts (suc n) g in
    let (first, f) = get_elem?_of_lt b.parts 0 (omega arith) in
    let x = exchange n b.parts own_alias first g f in
    rw (f, sanitize_at)
      (finish (rows_to_front (suc n) b.bals) (rows_to_front-Exchanged n b.bals h) first x)
  where
    finish :
        (m : Exec (List (List String)))
        → Returns (Pairwise (Exchanged 0 (suc n)) b.bals) m
        → (first : String)
        → Exchanged 0 (suc n) b.parts (set (set b.parts (suc n) first) 0 own_alias)
        → Returns (Sanitized (suc n) b) (
            m >>= λ rows.
            done (record b { parts = set (set b.parts (suc n) first) 0 own_alias; bals = rows }))
    finish (done rows) a first x = (g, x.at_left ∙ g, refl, x, a)
    finish panic a first x = a
    finish blocks a first x = a

All-long :
    (i n : ℕ) (rows : List (List String))
    → i < n
    → All (λ row. length row ≡ n) rows
    → All (λ row. i < length row) rows
All-long i n [] h a = tt
All-long i n (row ∷ rows) h (e, a) = (omega arith, All-long i n rows h a)

-- With the own alias among the participants, and a share for each of them in every row, the own
-- alias comes to the front, and its share with it in every row: the entries at 0 and at a place of
-- the own alias are exchanged, in the participants and in each row, and all else is as it was.
pub sanitize_bal_info-Sanitized :
    (b : BalInfo)
    → Occurs own_alias b.parts
    → All (λ row. length row ≡ length b.parts) b.bals
    → (i : ℕ) × Returns (Sanitized i b) (sanitize_bal_info b)
unfolding sanitize_bal_info
sanitize_bal_info-Sanitized b o h =
    let (j, e, g) = own_idx_from-Occurs 0 0 b.parts o in
    let at : own_idx_from 0 b.parts 0 ≡ j = e ∙ zero_plus j in
    (
      j,
      rw (at, sanitize_bal_info)
          (sanitize_at-Sanitized j b g
            (All-long j (length b.parts) b.bals (get_elem?-lt b.parts j g) h)),
    )
  where
    zero_plus : (n : ℕ) → 0 + n ≡ n
    zero_plus n = omega arith

-- A first row that has no place for the share of the own alias makes it panic.
pub sanitize_bal_info-panic :
    (first own : String) (currencies : List String) (amount : String) (rows : List (List String))
    → first ≢ own_alias
    → own ≡ own_alias
    → sanitize_bal_info
        (record { currencies = currencies; parts = first ∷ own ∷ []; bals = (amount ∷ []) ∷ rows })
      ≡ panic
unfolding sanitize_bal_info sanitize_at own_idx_from rows_to_front to_front
sanitize_bal_info-panic first own currencies amount rows n e =
    ground (arith, eq_iff first own_alias, eq_iff own own_alias)
