-- ===== src/Blobs/Sweep.antt =====
-- Garbage collection deletes no blob that a value slot names (blobs/gc.py, journal/store.py).
use satay_runtime.Prelude.{
  ℕ, ◌-◌, ◌≡◌, refl, sym, ap, subst, ◌∙◌, String, Bool, true, false, Bool-cases, inl, inr, none,
  some, List, [], ◌∷◌, leb, All, All-map, ◌==◌, string_eq, str_eq_iff,
}
use satay_runtime.Prelude.Dict
use satay_runtime.Prelude.Dict.{member, add, member-add, get-remove}
use satay_runtime.Value.{Value, Fields, dict, end, field, odd}
use satay_runtime.Errors.{Result, ok, raise, value_error, ◌>>=◌, >>=-eq-ok}
use satay_runtime.Redaction.{is_value_slot}
use satay_runtime.Blobs.{
  Bytes, File, Directory, GcReport, is_blob_ref, blob_id_of, referenced_blob_ids, sweep_file, sweep,
  listing, collect_garbage, get_blob, load_blob, rehydrate_value, rehydrate_fields,
}
use satay_runtime.Blobs.Marks.{IsCovered, RowCovered, rows-RowCovered, second, clash}

module _ (b : Bytes) where
  sweep_file-kept :
      (referenced : List String) (cutoff : ℕ) (apply : Bool) (i : String) (f : File b)
      (s : GcReport × Directory b) (j : String)
      → member referenced j ≡ true
      → Dict.get (sweep_file b referenced cutoff apply i f s).1 j ≡ Dict.get s.1 j
  unfolding sweep_file
  sweep_file-kept referenced cutoff apply i f (r, dir) j h =
      elim (Bool-cases (member referenced i)) [
        | inl e ↦ rw e
        | inr e ↦ elim (Bool-cases (leb cutoff f.mtime)) [
          | inl old ↦ rw (e, old)
          | inr old ↦ elim (Bool-cases apply) [
            | inr dry ↦ rw (e, old, dry)
            | inl wet ↦ elim (Bool-cases (i == j)) [
              | inl same ↦
                  let mine : member referenced i ≡ true =
                    subst (λ k. member referenced k ≡ true) (sym ((str_eq_iff i j).0 same)) h in
                  absurd (clash (member referenced i) mine e)
              | inr other ↦ rw (e, old, wet) (get-remove dir i j ∙ rw other)
            ]
          ]
        ]
      ]

  sweep-kept :
      (referenced : List String) (cutoff : ℕ) (apply : Bool) (paths : Directory b)
      (s : GcReport × Directory b) (j : String)
      → member referenced j ≡ true
      → Dict.get (sweep b referenced cutoff apply paths s).1 j ≡ Dict.get s.1 j
  unfolding sweep
  sweep-kept referenced cutoff apply [] s j h = refl
  sweep-kept referenced cutoff apply ((i, f) ∷ paths) s j h =
      sweep-kept referenced cutoff apply paths (sweep_file b referenced cutoff apply i f s) j h
      ∙ sweep_file-kept referenced cutoff apply i f s j h

  -- Every blob reference of a payload stands in a value slot.
  abbrev pub OnlySlots : Fields → Type 0
  OnlySlots end = Unit
  OnlySlots (odd k v d) = (is_blob_ref v ≡ false) × OnlySlots d
  OnlySlots (field k v d) = (is_blob_ref v ≡ true → is_value_slot k ≡ true) × OnlySlots d

  -- The payload reads from the second directory what it reads from the first.
  abbrev pub ReadsSame : Directory b → Directory b → Value → Type 0
  ReadsSame dir dir' p = elim p [
    | dict d ↦ OnlySlots d → rehydrate_fields b (some dir') d ≡ rehydrate_fields b (some dir) d
    | _ ↦ Unit
  ]

  get-same :
      (dir dir' : Directory b) (i : String)
      → Dict.get dir' i ≡ Dict.get dir i
      → get_blob b dir' i ≡ get_blob b dir i
  unfolding get_blob
  get-same dir dir' i e = rw (e, get_blob)

  abbrev parse : String → b.Data → Result Value
  parse i bytes = elim (b.loads bytes) [ none ↦ raise (value_error i) | some u ↦ ok u ]

  load-same :
      (dir dir' : Directory b) (v : Value) (i : String)
      → blob_id_of v ≡ ok i
      → Dict.get dir' i ≡ Dict.get dir i
      → load_blob b dir' v ≡ load_blob b dir v
  unfolding load_blob
  load-same dir dir' v i found e =
      let step : (get_blob b dir' i >>= parse i) ≡ (get_blob b dir i >>= parse i) =
        ap (λ r. r >>= parse i) (get-same dir dir' i e) in
      rw found step

  value-same :
      (dir dir' : Directory b) (ids : List String) (k : String) (v : Value)
      → ((i : String) → member ids i ≡ true → Dict.get dir' i ≡ Dict.get dir i)
      → (is_value_slot k ≡ true
          → is_blob_ref v ≡ true
          → (i : String) × (blob_id_of v ≡ ok i) × (member ids i ≡ true))
      → (is_blob_ref v ≡ true → is_value_slot k ≡ true)
      → rehydrate_value b (some dir') k v ≡ rehydrate_value b (some dir) k v
  unfolding rehydrate_value
  value-same dir dir' ids k v kept covered slot = elim (Bool-cases (is_blob_ref v)) [
    | inl e ↦
        let (i, found, there) = covered (slot e) e in
        rw (e, rehydrate_value) (load-same dir dir' v i found (kept i there))
    | inr e ↦ rw (e, rehydrate_value)
  ]

  plain-same :
      (dir dir' : Directory b) (k : String) (v : Value)
      → is_blob_ref v ≡ false
      → rehydrate_value b (some dir') k v ≡ rehydrate_value b (some dir) k v
  unfolding rehydrate_value
  plain-same dir dir' k v e = rw (e, rehydrate_value)

  payload-same :
      (dir dir' : Directory b) (ids : List String) (d : Fields)
      → ((i : String) → member ids i ≡ true → Dict.get dir' i ≡ Dict.get dir i)
      → IsCovered ids d
      → OnlySlots d
      → rehydrate_fields b (some dir') d ≡ rehydrate_fields b (some dir) d
  unfolding rehydrate_fields
  payload-same dir dir' ids end kept c o = refl
  payload-same dir dir' ids (odd k v d) kept c o =
      rw (plain-same dir dir' k v o.0, payload-same dir dir' ids d kept c o.1, rehydrate_fields)
  payload-same dir dir' ids (field k v d) kept c o = rw (
    value-same dir dir' ids k v kept c.0 o.0,
    payload-same dir dir' ids d kept c.1 o.1,
    rehydrate_fields,
  )

  row-same :
      (dir dir' : Directory b) (ids : List String)
      → ((i : String) → member ids i ≡ true → Dict.get dir' i ≡ Dict.get dir i)
      → (p : Value) → RowCovered ids p
      → ReadsSame dir dir' p
  row-same dir dir' ids kept (dict d) c = λ o. payload-same dir dir' ids d kept c o
  row-same dir dir' ids kept _ c = tt

  -- A garbage collection that returns, applied or dry, leaves each row of which all blob references
  -- stand in value slots to be read as before.
  pub collect_garbage-ReadsSame :
      (rows : List Value) (dir : Directory b) (apply : Bool) (grace_period now : ℕ) {r : GcReport}
      {dir' : Directory b}
      → collect_garbage b rows dir apply grace_period now ≡ ok (r, dir')
      → All (λ p. ReadsSame dir dir' p) rows
  unfolding collect_garbage referenced_blob_ids
  collect_garbage-ReadsSame rows dir apply grace_period now {r} {dir'} h =
      let (ids, marked, swept) = >>=-eq-ok (referenced_blob_ids rows) _ h in
      let kept = λ (i : String) (m : member ids i ≡ true).
        subst (λ t. Dict.get t i ≡ Dict.get dir i) (second swept)
          (sweep-kept ids (now - grace_period) apply (listing b dir) _ i m) in
      All-map (row-same dir dir' ids kept) rows (rows-RowCovered [] rows marked).1
