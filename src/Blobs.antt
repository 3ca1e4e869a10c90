-- ===== src/Blobs.antt =====
-- Payload spill (blobs/__init__.py) and garbage collection (blobs/gc.py), with the mark phase of
-- journal/store.py. A directory is its files by id, each with its content and its time of change.
-- JSON text and the hash are parameters: `Bytes.dumps` is json.dumps in UTF-8, `Bytes.loads` is
-- json.loads, `none` where it raises, and `Bytes.digest` is the hex SHA-256.
pub mod RoundTrip
mod Marks
pub mod Sweep
pub mod Collect
mod Examples
use Prim.Native.Char.{code}
use satay_runtime.Prelude.{
  ℕ, ◌+◌, ◌-◌, ◌≡◌, String, Bool, true, false, not, Option, none, some, List, [], ◌∷◌, ◌++◌, map,
  length, ltb, leb, ◌==◌, ◌&&◌, ◌||◌, nat_eq, string_eq, if◌then◌else◌, sort_by,
}
use satay_runtime.Prelude.Dict
use satay_runtime.Prelude.Dict.{Dict, member, add}
use satay_runtime.Prelude.Int.{ℤ, pos, str_int}
use satay_runtime.Value.{Value, Fields, null, int, str, dict, tagged, end, field, odd, get}
use satay_runtime.Errors.{
  Result, ok, raise, ◌>>=◌, blob_resolution_error, file_not_found_error, value_error, key_error,
  type_error,
}
use satay_runtime.Redaction.{is_value_slot}

pub record Bytes : Type 1 where
  pub Data : Type 0
  pub len : Data → ℕ
  pub dumps : Value → Data
  pub loads : Data → Option Value
  pub digest : Data → String

abbrev pub spill_threshold_bytes : ℕ
spill_threshold_bytes = 262144

-- is_blob_ref
unfoldable pub is_blob_ref : Value → Bool
is_blob_ref (dict d) = elim (get d "$satay") [
  | none ↦ false
  | some v ↦ elim v [ str s ↦ s == "blobref" | _ ↦ false ]
]
is_blob_ref _ = false

-- make_blob_ref
unfoldable pub make_blob_ref : String → ℕ → Value
make_blob_ref blob_id size =
    dict (
      field "$satay" (str "blobref") (field "id" (str blob_id) (field "size" (int (pos size)) end)))

-- str(value["id"]) of a blob reference; an id that is neither a text nor an int is an error here.
unfoldable pub blob_id_of : Value → Result String
blob_id_of (dict d) = elim (get d "id") [
  | none ↦ raise (key_error "id")
  | some v ↦ elim v [ str s ↦ ok s | int n ↦ ok (str_int n) | _ ↦ raise (type_error "id") ]
]
blob_id_of v = raise (type_error "id")

module _ (b : Bytes) where
  pub record File : Type 0 where
    pub content : b.Data
    pub mtime : ℕ

  abbrev pub Directory : Type 0
  Directory = Dict String File

  -- encoded_size
  unfoldable pub encoded_size : Value → ℕ
  encoded_size v = b.len (b.dumps v)

  -- should_spill
  unfoldable pub should_spill : Value → ℕ → Bool
  unfolding encoded_size
  should_spill v threshold = ltb threshold (encoded_size v)

  -- BlobStore.put at the time `now`
  unfoldable pub put_blob : Directory → ℕ → b.Data → Directory
  put_blob dir now bytes = elim (Dict.get dir (b.digest bytes)) [
    | some f ↦ dir
    | none ↦ Dict.put dir (b.digest bytes) (record { content = bytes; mtime = now })
  ]

  -- BlobStore.get
  unfoldable pub get_blob : Directory → String → Result b.Data
  get_blob dir blob_id = elim (Dict.get dir blob_id) [
    | none ↦ raise (file_not_found_error blob_id)
    | some f ↦ ok f.content
  ]

  -- The loop of spill_encoded: the directory behind it, and the payload.
  unfoldable pub spill_dir : ℕ → ℕ → Fields → Directory → Directory
  unfolding put_blob should_spill
  spill_dir threshold now end dir = dir
  spill_dir threshold now (field k v d) dir =
      spill_dir threshold now d
        (if should_spill v threshold then put_blob dir now (b.dumps v) else dir)
  spill_dir threshold now (odd k v d) dir =
      spill_dir threshold now d
        (if should_spill v threshold then put_blob dir now (b.dumps v) else dir)

  unfoldable pub spill_value : ℕ → Value → Value
  unfolding should_spill make_blob_ref encoded_size
  spill_value threshold v =
      if should_spill v threshold then make_blob_ref (b.digest (b.dumps v)) (encoded_size v) else v

  unfoldable pub spill_fields : ℕ → Fields → Fields
  unfolding spill_value
  spill_fields threshold end = end
  spill_fields threshold (field k v d) =
      field k (spill_value threshold v) (spill_fields threshold d)
  spill_fields threshold (odd k v d) = odd k (spill_value threshold v) (spill_fields threshold d)

  -- json.loads(blobs.get(str(value["id"])))
  unfoldable pub load_blob : Directory → Value → Result Value
  unfolding get_blob blob_id_of
  load_blob dir v = do
    i ← blob_id_of v
    bytes ← get_blob dir i
    elim (b.loads bytes) [ none ↦ raise (value_error i) | some u ↦ ok u ]

  unfoldable pub rehydrate_value : Option Directory → String → Value → Result Value
  unfolding is_blob_ref load_blob
  rehydrate_value blobs k v =
      if is_blob_ref v
      then elim blobs [ none ↦ raise (blob_resolution_error k) | some dir ↦ load_blob dir v ]
      else ok v

  -- The loop of rehydrate_encoded.
  unfoldable pub rehydrate_fields : Option Directory → Fields → Result Fields
  unfolding rehydrate_value
  rehydrate_fields blobs end = ok end
  rehydrate_fields blobs (field k v d) = do
    u ← rehydrate_value blobs k v
    e ← rehydrate_fields blobs d
    ok (field k u e)
  rehydrate_fields blobs (odd k v d) = do
    u ← rehydrate_value blobs k v
    e ← rehydrate_fields blobs d
    ok (odd k u e)

-- The ids that the value slots of one payload name, added to `ids` (referenced_blob_ids of
-- journal/store.py).
unfoldable pub referenced_in : List String → Fields → Result (List String)
unfolding is_blob_ref blob_id_of
referenced_in ids end = ok ids
referenced_in ids (odd k v d) = referenced_in ids d
referenced_in ids (field k v d) = do
  ids' ←
      (if is_value_slot k && is_blob_ref v then (do i ← blob_id_of v; ok (add ids i)) else ok ids)
  referenced_in ids' d

-- The rows' payloads; one that is not a mapping is passed over.
unfoldable pub referenced_from : List String → List Value → Result (List String)
unfolding referenced_in
referenced_from ids [] = ok ids
referenced_from ids (p ∷ ps) = do
  ids' ← elim p [ dict d ↦ referenced_in ids d | _ ↦ ok ids ]
  referenced_from ids' ps

unfoldable pub referenced_blob_ids : List Value → Result (List String)
unfolding referenced_from
referenced_blob_ids rows = referenced_from [] rows

-- a <= b, on texts
abbrev text_leb : String → String → Bool
text_leb String.[] t = true
text_leb (String.◌∷◌ c s) String.[] = false
text_leb (String.◌∷◌ c s) (String.◌∷◌ d t) =
    ltb (code c) (code d) || nat_eq (code c) (code d) && text_leb s t

pub record GcReport : Type 0 where
  pub referenced_count : ℕ
  pub protected_ids : List String
  pub reclaimable_ids : List String
  pub reclaimable_bytes : ℕ
  pub kept_bytes : ℕ
  pub applied : Bool

module _ (b : Bytes) where
  -- One file of the loop of collect_garbage. A cutoff below 0 is held as 0: no file is older than either.
  unfoldable pub sweep_file :
      List String → ℕ → Bool → String → File b → GcReport × Directory b → GcReport × Directory b
  sweep_file referenced cutoff apply i f (r, dir) =
      if member referenced i
      then (record r { kept_bytes = r.kept_bytes + b.len f.content }, dir)
      else if leb cutoff f.mtime
      then (
        record r {
          protected_ids = r.protected_ids ++ i ∷ [];
          kept_bytes = r.kept_bytes + b.len f.content;
        },
        dir,
      )
      else (
        record r {
          reclaimable_ids = r.reclaimable_ids ++ i ∷ [];
          reclaimable_bytes = r.reclaimable_bytes + b.len f.content;
        },
        if apply then Dict.remove dir i else dir,
      )

  unfoldable pub sweep :
      List String → ℕ → Bool → Directory b → GcReport × Directory b → GcReport × Directory b
  unfolding sweep_file
  sweep referenced cutoff apply [] s = s
  sweep referenced cutoff apply ((i, f) ∷ paths) s =
      sweep referenced cutoff apply paths (sweep_file referenced cutoff apply i f s)

  -- sorted(directory.glob("*.blob"))
  unfoldable pub listing : Directory b → Directory b
  listing dir = sort_by (λ p q. text_leb p.0 q.0) dir

  -- collect_garbage, for the payloads of the rows of the store
  unfoldable pub collect_garbage :
      List Value → Directory b → Bool → ℕ → ℕ → Result (GcReport × Directory b)
  unfolding sweep listing
  collect_garbage rows dir apply grace_period now = do
    referenced ← referenced_blob_ids rows
    let start : GcReport = record {
      referenced_count = length referenced;
      protected_ids = [];
      reclaimable_ids = [];
      reclaimable_bytes = 0;
      kept_bytes = 0;
      applied = apply;
    }
    ok (sweep referenced (now - grace_period) apply (listing dir) (start, dir))
