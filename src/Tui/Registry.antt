-- ===== src/Tui/Registry.antt =====
-- cmd/perunnodetui/registry.go: the registry of the entries, by row and by the ID of the channel.
use dst_go.Base.{
  ℕ, suc, zero, String, List, [], ◌∷◌, length, get_elem?, get_elem?-set_self, set, insert, lookup,
  lookup-insert_self, false, ltb, leb, Option, none, some, Exec, done, panic, or_panic, ℤ, pos,
  negsuc, if◌then◌else◌, ◌≡◌, refl, inl, inr, arith, Bool-cases,
}
use dst_go.Tui.Entry.{Entry}

-- `registry`; a row that was not given out is nil.
pub record EntryRegistry : Type 0 where
  pub proposals : List (Option Entry)
  pub by_ch_id : List (String × ℕ)

unfoldable pub empty_rows : ℕ → List (Option Entry)
empty_rows zero = []
empty_rows (suc n) = none ∷ empty_rows n

unfoldable pub new_entry_registry : ℕ → EntryRegistry
unfolding empty_rows
new_entry_registry size = record { proposals = empty_rows size; by_ch_id = [] }

unfoldable pub put_at_index : ℕ → Entry → EntryRegistry → EntryRegistry
put_at_index index p r =
    if ltb index (length r.proposals)
    then record r { proposals = set r.proposals index (some p) }
    else r

-- A negative index is past no test, and panics.
unfoldable pub get_by_index : ℤ → EntryRegistry → Exec (Option Entry)
get_by_index (pos index) r =
    if leb (length r.proposals) index then done none else or_panic (get_elem? r.proposals index)
get_by_index (negsuc n) r = panic

unfoldable pub set_ch_id_at : String → ℕ → EntryRegistry → EntryRegistry
set_ch_id_at ch_id s_no r = record r { by_ch_id = insert ch_id s_no r.by_ch_id }

unfoldable pub get_by_ch_id : String → EntryRegistry → Exec (Option Entry)
get_by_ch_id ch_id r = elim (lookup ch_id r.by_ch_id) [
  | none ↦ done none
  | some index ↦ or_panic (get_elem? r.proposals index)
]

get_elem?-past :
    (rows : List (Option Entry)) (i : ℕ) → ltb i (length rows) ≡ false → get_elem? rows i ≡ none
get_elem?-past [] i e = refl
get_elem?-past (x ∷ rows) zero e = absurd (ground arith)
get_elem?-past (x ∷ rows) (suc i) e = get_elem?-past rows i (ground (arith, e))

-- An entry that was put at its row, and whose channel was opened, is found by the ID of the channel if
-- the registry has the row. If it has not, looking the channel up panics.
pub get_by_ch_id-put_at_index :
    (ch_id : String) (i : ℕ) (p : Entry) (r : EntryRegistry)
    → get_by_ch_id ch_id (set_ch_id_at ch_id i (put_at_index i p r))
      ≡ (if ltb i (length r.proposals) then done (some p) else panic)
unfolding get_by_ch_id set_ch_id_at put_at_index
get_by_ch_id-put_at_index ch_id i p r = elim (Bool-cases (ltb i (length r.proposals))) [
  | inl e ↦
      rw (e, put_at_index)
        (rw (lookup-insert_self ch_id i r.by_ch_id, get_by_ch_id)
          (rw (get_elem?-set_self r.proposals i (some p) (ground (arith, e))) refl))
  | inr e ↦
      rw (e, put_at_index)
        (rw (lookup-insert_self ch_id i r.by_ch_id, get_by_ch_id)
          (rw (get_elem?-past r.proposals i e) refl))
]
