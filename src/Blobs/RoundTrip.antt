-- ===== src/Blobs/RoundTrip.antt =====
-- A payload that was spilled is read back as it was (blobs/__init__.py).
use satay_runtime.Prelude.{
  ℕ, ◌≡◌, refl, sym, ap, subst, ◌∙◌, String, true, false, Bool-cases, inl, inr, Option, none, some,
  Option-cases, ◌==◌, string_eq, str_eq_iff, if◌then◌else◌,
}
use satay_runtime.Prelude.Dict
use satay_runtime.Prelude.Dict.{get-put}
use satay_runtime.Value.{Value, Fields, end, field, odd, get}
use satay_runtime.Errors.{ok}
use satay_runtime.Blobs.{
  Bytes, File, Directory, is_blob_ref, blob_id_of, make_blob_ref, encoded_size, should_spill,
  put_blob, get_blob, spill_dir, spill_value, spill_fields, load_blob, rehydrate_value,
  rehydrate_fields,
}

-- No value of the payload has the form of a blob reference.
abbrev pub NoRefs : Fields → Type 0
NoRefs end = Unit
NoRefs (field k v d) = (is_blob_ref v ≡ false) × NoRefs d
NoRefs (odd k v d) = (is_blob_ref v ≡ false) × NoRefs d

blob_id_of-make : (i : String) (n : ℕ) → blob_id_of (make_blob_ref i n) ≡ ok i
unfolding blob_id_of make_blob_ref get
blob_id_of-make i n = refl

is_blob_ref-make : (i : String) (n : ℕ) → is_blob_ref (make_blob_ref i n) ≡ true
unfolding is_blob_ref make_blob_ref get
is_blob_ref-make i n = refl

module _ (b : Bytes) where
  -- The hash has no collisions.
  abbrev pub HasNoCollisions : Type 0
  HasNoCollisions = (x y : b.Data) → b.digest x ≡ b.digest y → x ≡ y

  -- The JSON text of each value of the payload is read back as that value.
  abbrev pub IsReadBack : Fields → Type 0
  IsReadBack end = Unit
  IsReadBack (field k v d) = (b.loads (b.dumps v) ≡ some v) × IsReadBack d
  IsReadBack (odd k v d) = (b.loads (b.dumps v) ≡ some v) × IsReadBack d

  -- Every file has the digest of its content for its name.
  abbrev pub IsAddressed : Directory b → Type 0
  IsAddressed dir = (i : String) (f : File b) → Dict.get dir i ≡ some f → b.digest f.content ≡ i

  -- The directory has the content under its digest.
  abbrev Has : Directory b → b.Data → Type 0
  Has dir x = (f : File b) × (Dict.get dir (b.digest x) ≡ some f) × (f.content ≡ x)

  clash : (o : Option (File b)) (f : File b) → o ≡ none → o ≡ some f → ⊥
  clash o f h k = cc

  -- No file is lost or changed.
  abbrev pub Keeps : Directory b → Directory b → Type 0
  Keeps dir dir' = (i : String) (f : File b) → Dict.get dir i ≡ some f → Dict.get dir' i ≡ some f

  other :
      (dir : Directory b) (k i : String) (f : File b)
      → Dict.get dir k ≡ none
      → Dict.get dir i ≡ some f
      → (g : File b) → (if k == i then some g else Dict.get dir i) ≡ some f
  other dir k i f missing there g = elim (Bool-cases (k == i)) [
    | inl e ↦
        let same : Dict.get dir k ≡ some f =
          subst (λ t. Dict.get dir t ≡ some f) (sym ((str_eq_iff k i).0 e)) there in
        absurd (clash (Dict.get dir k) f missing same)
    | inr e ↦ rw e there
  ]

  put-Keeps : (dir : Directory b) (now : ℕ) (x : b.Data) → Keeps dir (put_blob b dir now x)
  unfolding put_blob
  put-Keeps dir now x i f h = elim (Option-cases (Dict.get dir (b.digest x))) [
    | inr (g, e) ↦ rw (e, put_blob) h
    | inl e ↦ rw (e, put_blob) (get-put dir (b.digest x) i _ ∙ other dir (b.digest x) i f e h _)
  ]

  put-IsAddressed :
      (dir : Directory b) (now : ℕ) (x : b.Data)
      → IsAddressed dir
      → IsAddressed (put_blob b dir now x)
  unfolding put_blob
  put-IsAddressed dir now x a i f h = elim (Option-cases (Dict.get dir (b.digest x))) [
    | inr (g, e) ↦ a i f (rw (e, put_blob) at h)
    | inl e ↦
        let new : File b = record { content = x; mtime = now } in
        let found : Dict.get (Dict.put dir (b.digest x) new) i ≡ some f = rw (e, put_blob) at h in
        let split : (if b.digest x == i then some new else Dict.get dir i) ≡ some f =
          sym (get-put dir (b.digest x) i new) ∙ found in
        elim (Bool-cases (b.digest x == i)) [
          | inl q ↦
              let mine : ◌≡◌ {A = Option (File b)} (some new) (some f) = rw q at split in
              let same : new ≡ f = cc mine in
              ap (λ (g : File b). b.digest g.content) (sym same) ∙ (str_eq_iff _ _).0 q
          | inr q ↦ a i f (rw q at split)
        ]
  ]

  put-Has :
      HasNoCollisions
      → (dir : Directory b) (now : ℕ) (x : b.Data) → IsAddressed dir
      → Has (put_blob b dir now x) x
  unfolding put_blob
  put-Has l dir now x a = elim (Option-cases (Dict.get dir (b.digest x))) [
    | inr (g, e) ↦ (g, rw (e, put_blob) e, l g.content x (a (b.digest x) g e))
    | inl e ↦
        let new : File b = record { content = x; mtime = now } in
        (new, rw (e, put_blob) (Dict.get-put_self dir (b.digest x) new), refl)
  ]

  -- The directory behind one value of the loop of spill_encoded.
  abbrev after_value : ℕ → ℕ → Value → Directory b → Directory b
  after_value t now v dir = if should_spill b v t then put_blob b dir now (b.dumps v) else dir

  value-Keeps : (t now : ℕ) (v : Value) (dir : Directory b) → Keeps dir (after_value t now v dir)
  value-Keeps t now v dir = elim (Bool-cases (should_spill b v t)) [
    | inl e ↦ rw e (put-Keeps dir now (b.dumps v))
    | inr e ↦ rw e (λ i f h. h)
  ]

  value-IsAddressed :
      (t now : ℕ) (v : Value) (dir : Directory b)
      → IsAddressed dir
      → IsAddressed (after_value t now v dir)
  value-IsAddressed t now v dir a = elim (Bool-cases (should_spill b v t)) [
    | inl e ↦ rw e (put-IsAddressed dir now (b.dumps v) a)
    | inr e ↦ rw e a
  ]

  value-Has :
      HasNoCollisions
      → (t now : ℕ) (v : Value) (dir : Directory b) → IsAddressed dir
      → should_spill b v t ≡ true
      → Has (after_value t now v dir) (b.dumps v)
  value-Has l t now v dir a e = rw e (put-Has l dir now (b.dumps v) a)

  spill-Keeps : (t now : ℕ) (d : Fields) (dir : Directory b) → Keeps dir (spill_dir b t now d dir)
  unfolding spill_dir
  spill-Keeps t now end dir i f h = h
  spill-Keeps t now (field k v d) dir i f h =
      spill-Keeps t now d (after_value t now v dir) i f (value-Keeps t now v dir i f h)
  spill-Keeps t now (odd k v d) dir i f h =
      spill-Keeps t now d (after_value t now v dir) i f (value-Keeps t now v dir i f h)

  spill-IsAddressed :
      (t now : ℕ) (d : Fields) (dir : Directory b)
      → IsAddressed dir
      → IsAddressed (spill_dir b t now d dir)
  unfolding spill_dir
  spill-IsAddressed t now end dir a = a
  spill-IsAddressed t now (field k v d) dir a =
      spill-IsAddressed t now d (after_value t now v dir) (value-IsAddressed t now v dir a)
  spill-IsAddressed t now (odd k v d) dir a =
      spill-IsAddressed t now d (after_value t now v dir) (value-IsAddressed t now v dir a)

  -- What is spilled is in the directory.
  abbrev HasAll : ℕ → Directory b → Fields → Type 0
  HasAll t dir end = Unit
  HasAll t dir (field k v d) = (should_spill b v t ≡ true → Has dir (b.dumps v)) × HasAll t dir d
  HasAll t dir (odd k v d) = (should_spill b v t ≡ true → Has dir (b.dumps v)) × HasAll t dir d

  Has-later : (dir dir' : Directory b) (x : b.Data) → Keeps dir dir' → Has dir x → Has dir' x
  Has-later dir dir' x k (f, there, same) = (f, k (b.digest x) f there, same)

  spill-HasAll :
      HasNoCollisions
      → (t now : ℕ) (d : Fields) (dir : Directory b) → IsAddressed dir
      → HasAll t (spill_dir b t now d dir) d
  unfolding spill_dir
  spill-HasAll l t now end dir a = tt
  spill-HasAll l t now (field k v d) dir a =
      let next : Directory b = after_value t now v dir in
      (
        λ e.
            Has-later next (spill_dir b t now d next) (b.dumps v) (spill-Keeps t now d next)
              (value-Has l t now v dir a e),
        spill-HasAll l t now d next (value-IsAddressed t now v dir a),
      )
  spill-HasAll l t now (odd k v d) dir a =
      let next : Directory b = after_value t now v dir in
      (
        λ e.
            Has-later next (spill_dir b t now d next) (b.dumps v) (spill-Keeps t now d next)
              (value-Has l t now v dir a e),
        spill-HasAll l t now d next (value-IsAddressed t now v dir a),
      )

  get_blob-Has : (dir : Directory b) (x : b.Data) → Has dir x → get_blob b dir (b.digest x) ≡ ok x
  unfolding get_blob
  get_blob-Has dir x (f, there, same) = rw (there, get_blob) (ap ok same)

  load_blob-make :
      (dir : Directory b) (v : Value) (n : ℕ)
      → b.loads (b.dumps v) ≡ some v
      → Has dir (b.dumps v)
      → load_blob b dir (make_blob_ref (b.digest (b.dumps v)) n) ≡ ok v
  unfolding load_blob
  load_blob-make dir v n j h =
      rw (blob_id_of-make (b.digest (b.dumps v)) n) (rw (get_blob-Has dir (b.dumps v) h) (rw j))

  value-back :
      (t : ℕ) (dir : Directory b) (k : String) (v : Value)
      → b.loads (b.dumps v) ≡ some v
      → is_blob_ref v ≡ false
      → (should_spill b v t ≡ true → Has dir (b.dumps v))
      → rehydrate_value b (some dir) k (spill_value b t v) ≡ ok v
  unfolding rehydrate_value spill_value
  value-back t dir k v j plain h = elim (Bool-cases (should_spill b v t)) [
    | inl e ↦ rw e (
        rw (is_blob_ref-make (b.digest (b.dumps v)) (encoded_size b v), rehydrate_value)
          (load_blob-make dir v (encoded_size b v) j (h e)))
    | inr e ↦ rw e (rw (plain, rehydrate_value))
  ]

  fields-back :
      (t : ℕ) (dir : Directory b) (d : Fields)
      → IsReadBack d
      → NoRefs d
      → HasAll t dir d
      → rehydrate_fields b (some dir) (spill_fields b t d) ≡ ok d
  unfolding rehydrate_fields spill_fields
  fields-back t dir end j n h = refl
  fields-back t dir (field k v d) j n h =
      rw (value-back t dir k v j.0 n.0 h.0, fields-back t dir d j.1 n.1 h.1)
  fields-back t dir (odd k v d) j n h =
      rw (value-back t dir k v j.0 n.0 h.0, fields-back t dir d j.1 n.1 h.1)

  -- If the JSON text of each value of a payload is read back as that value, the hash has no
  -- collisions, and none of the values has the form of a blob reference, then spilling the payload
  -- into a directory whose files are named by their digests and reading it back gives the payload; the
  -- directory keeps its files, and all are still named by their digests.
  pub rehydrate-spill :
      HasNoCollisions
      → (threshold now : ℕ) (d : Fields) (dir : Directory b) → IsAddressed dir
      → IsReadBack d
      → NoRefs d
      → (rehydrate_fields b (some (spill_dir b threshold now d dir)) (spill_fields b threshold d)
          ≡ ok d)
        × Keeps dir (spill_dir b threshold now d dir)
        × IsAddressed (spill_dir b threshold now d dir)
  rehydrate-spill l t now d dir a j n = (
    fields-back t (spill_dir b t now d dir) d j n (spill-HasAll l t now d dir a),
    spill-Keeps t now d dir,
    spill-IsAddressed t now d dir a,
  )
