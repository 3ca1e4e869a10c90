-- ===== src/Blobs/Collect.antt =====
-- What an applied garbage collection deletes (blobs/gc.py).
use satay_runtime.Prelude.{
  ℕ, ◌-◌, ◌≡◌, refl, sym, subst, ◌∙◌, String, Bool, true, false, ◌||◌, Bool-cases, inl, inr, Option,
  none, List, [], ◌∷◌, leb, All, any, insert_by, sort_by, ◌==◌, string_eq, str_eq_iff,
  if◌then◌else◌, arith,
}
use satay_runtime.Prelude.Dict
use satay_runtime.Prelude.Dict.{member, get-remove}
use satay_runtime.Value.{Value}
use satay_runtime.Errors.{ok, >>=-eq-ok}
use satay_runtime.Blobs.Marks.{RowLeavesOut, rows_omit, second}
use satay_runtime.Blobs.{
  Bytes, File, Directory, GcReport, referenced_blob_ids, sweep_file, sweep, listing,
  collect_garbage,
}

or_swap : (a b c : Bool) → (b || (a || c)) ≡ (a || (b || c))
or_swap a b c = ground arith

either {ℓ} : {A : Type ℓ} (t : Bool) (o : Option A) → o ≡ none → (if t then none else o) ≡ none
either true o h = refl
either false o h = h

rest_there : (a b : Bool) → a ≡ false → (a || b) ≡ true → b ≡ true
rest_there a b e h = ground arith

-- Sorting loses no member and adds none.
any-insert_by :
    {A : Type 0} (p : A → Bool) (le : A → A → Bool) (x : A) (l : List A)
    → any p (insert_by le x l) ≡ (p x || any p l)
any-insert_by p le x [] = refl
any-insert_by p le x (y ∷ l) = elim (Bool-cases (le x y)) [
  | inl e ↦ rw e
  | inr e ↦ rw e (rw (any-insert_by p le x l) (or_swap (p x) (p y) (any p l)))
]

any-sort_by :
    {A : Type 0} (p : A → Bool) (le : A → A → Bool) (l : List A) → any p (sort_by le l) ≡ any p l
any-sort_by p le [] = refl
any-sort_by p le (x ∷ l) = any-insert_by p le x (sort_by le l) ∙ rw (any-sort_by p le l)

All-insert_by :
    {A : Type 0} (P : A → Type 0) (le : A → A → Bool) (x : A) (l : List A)
    → P x
    → All P l
    → All P (insert_by le x l)
All-insert_by P le x [] h k = (h, tt)
All-insert_by P le x (y ∷ l) h k = elim (Bool-cases (le x y)) [
  | inl e ↦ rw e (h, k)
  | inr e ↦ rw e (k.0, All-insert_by P le x l h k.1)
]

All-sort_by :
    {A : Type 0} (P : A → Type 0) (le : A → A → Bool) (l : List A) → All P l → All P (sort_by le l)
All-sort_by P le [] h = tt
All-sort_by P le (x ∷ l) h = All-insert_by P le x (sort_by le l) h.0 (All-sort_by P le l h.1)

module _ (b : Bytes) where
  -- There is a file of that name.
  abbrev pub IsThere : Directory b → String → Type 0
  IsThere dir i = any (λ p. p.0 == i) dir ≡ true

  -- The files of that name changed last before the cutoff.
  abbrev pub IsOld : Directory b → ℕ → String → Type 0
  IsOld dir cutoff i = All (λ p. p.0 ≡ i → leb cutoff p.1.mtime ≡ false) dir

  sweep_file-none :
      (ids : List String) (cutoff : ℕ) (apply : Bool) (j : String) (f : File b)
      (s : GcReport × Directory b) (i : String)
      → Dict.get s.1 i ≡ none
      → Dict.get (sweep_file b ids cutoff apply j f s).1 i ≡ none
  unfolding sweep_file
  sweep_file-none ids cutoff apply j f (r, dir) i h = elim (Bool-cases (member ids j)) [
    | inl e ↦ rw e h
    | inr e ↦ elim (Bool-cases (leb cutoff f.mtime)) [
      | inl o ↦ rw (e, o) h
      | inr o ↦ elim (Bool-cases apply) [
        | inr dry ↦ rw (e, o, dry) h
        | inl wet ↦ rw (e, o, wet) (get-remove dir j i ∙ either (j == i) (Dict.get dir i) h)
      ]
    ]
  ]

  sweep-none :
      (ids : List String) (cutoff : ℕ) (apply : Bool) (paths : Directory b)
      (s : GcReport × Directory b) (i : String)
      → Dict.get s.1 i ≡ none
      → Dict.get (sweep b ids cutoff apply paths s).1 i ≡ none
  unfolding sweep
  sweep-none ids cutoff apply [] s i h = h
  sweep-none ids cutoff apply ((j, f) ∷ paths) s i h =
      sweep-none ids cutoff apply paths (sweep_file b ids cutoff apply j f s) i
        (sweep_file-none ids cutoff apply j f s i h)

  sweep_file-gone :
      (ids : List String) (cutoff : ℕ) (j : String) (f : File b) (s : GcReport × Directory b)
      → member ids j ≡ false
      → leb cutoff f.mtime ≡ false
      → Dict.get (sweep_file b ids cutoff true j f s).1 j ≡ none
  unfolding sweep_file
  sweep_file-gone ids cutoff j f (r, dir) e o =
      let same : (j == j) ≡ true = (str_eq_iff j j).1 refl in
      rw (e, o) (get-remove dir j j ∙ rw same)

  sweep-gone :
      (ids : List String) (cutoff : ℕ) (paths : Directory b) (s : GcReport × Directory b)
      (i : String)
      → member ids i ≡ false
      → IsOld paths cutoff i
      → IsThere paths i
      → Dict.get (sweep b ids cutoff true paths s).1 i ≡ none
  unfolding sweep
  sweep-gone ids cutoff [] s i m o h = absurd (cc h)
  sweep-gone ids cutoff ((j, f) ∷ paths) s i m o h = elim (Bool-cases (j == i)) [
    | inl e ↦
        let same : j ≡ i = (str_eq_iff j i).0 e in
        let gone : Dict.get (sweep_file b ids cutoff true j f s).1 i ≡ none =
          subst (λ k. Dict.get (sweep_file b ids cutoff true j f s).1 k ≡ none) same
            (sweep_file-gone ids cutoff j f s (subst (λ k. member ids k ≡ false) (sym same) m)
              (o.0 same)) in
        sweep-none ids cutoff true paths (sweep_file b ids cutoff true j f s) i gone
    | inr e ↦
        sweep-gone ids cutoff paths (sweep_file b ids cutoff true j f s) i m o.1
          (rest_there _ _ e h)
  ]

  -- An applied garbage collection that returns deletes each file that was there, changed last before
  -- the grace period, and is named by no value slot of the rows, whatever their other fields refer to.
  pub collect_garbage-unmarked :
      (rows : List Value) (dir : Directory b) (grace_period now : ℕ) (i : String) {r : GcReport}
      {dir' : Directory b}
      → collect_garbage b rows dir true grace_period now ≡ ok (r, dir')
      → All (λ p. RowLeavesOut i p) rows
      → IsThere dir i
      → IsOld dir (now - grace_period) i
      → Dict.get dir' i ≡ none
  unfolding collect_garbage listing referenced_blob_ids member
  collect_garbage-unmarked rows dir grace_period now i {r} {dir'} h lacks there old =
      let (ids, marked, swept) = >>=-eq-ok (referenced_blob_ids rows) _ h in
      let unmarked : member ids i ≡ false = rows_omit [] rows i refl lacks marked in
      subst (λ t. Dict.get t i ≡ none) (second swept)
        (sweep-gone ids (now - grace_period) (listing b dir) _ i unmarked (All-sort_by _ _ dir old)
          (any-sort_by _ _ dir ∙ there))
