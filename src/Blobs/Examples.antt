-- ===== src/Blobs/Examples.antt =====
-- Runs of spill and collection (blobs/__init__.py, blobs/gc.py) and instances of their theorems.
use satay_runtime.Prelude.{
  ◌-◌, ◌≡◌, ◌≢◌, refl, str_eq_iff, String, true, none, some, [], ◌∷◌, All, ◌==◌, string_eq,
  if◌then◌else◌,
}
use satay_runtime.Prelude.Dict
use satay_runtime.Prelude.Dict.{member}
use satay_runtime.Value.{Fields, str, dict, end, field, get}
use satay_runtime.Errors.{ok, raise, file_not_found_error}
use satay_runtime.Redaction.{is_value_slot}
use satay_runtime.Blobs.{
  Bytes, File, blob_id_of, Directory, GcReport, is_blob_ref, spill_dir, spill_fields,
  rehydrate_fields, referenced_blob_ids, collect_garbage,
}
use satay_runtime.Blobs.RoundTrip.{rehydrate-spill, NoRefs}
use satay_runtime.Blobs.Sweep.{collect_garbage-ReadsSame, ReadsSame}
use satay_runtime.Blobs.Marks.{RowLeavesOut}
use satay_runtime.Blobs.Collect.{collect_garbage-unmarked, IsThere, IsOld}

-- Texts only, each its own bytes and its own digest; all but the empty one are large.
abbrev texts : Bytes
texts = record {
  Data = String;
  len = λ s. if s == "" then 2 else 300000;
  dumps = λ v. elim v [ str s ↦ s | _ ↦ "" ];
  loads = λ s. some (str s);
  digest = λ s. s;
}

-- The failure of a task with a long traceback, and a large result: both are spilled.
abbrev failure : Fields
failure = field "output_ref" (str "result") (field "error" (str "traceback") end)

abbrev blobs : Directory texts
blobs = spill_dir texts 262144 5 failure []

abbrev stored : Fields
stored = spill_fields texts 262144 failure

nothing : (i : String) (f : File texts) → Dict.get {K = String} {V = File texts} [] i ≡ some f → ⊥
unfolding Dict.get
nothing i f h = cc

failure-NoRefs : NoRefs failure
unfolding is_blob_ref
failure-NoRefs = (refl, (refl, tt))

rehydrate-spill_example :
    (rehydrate_fields texts (some blobs) stored ≡ ok failure)
    × ((i : String) (f : File texts)
        → Dict.get {K = String} {V = File texts} [] i ≡ some f
        → Dict.get blobs i ≡ some f)
    × ((i : String) (f : File texts) → Dict.get blobs i ≡ some f → f.content ≡ i)
rehydrate-spill_example =
    rehydrate-spill texts (λ x y e. e) 262144 5 failure [] (λ i f h. absurd (nothing i f h))
      (refl, (refl, tt)) failure-NoRefs

-- What a collection long after that leaves: the traceback is lost, as no value slot names it.
abbrev collected : Directory texts
collected = ("result", record { content = "result"; mtime = 5 }) ∷ []

abbrev report : GcReport
report = record {
  referenced_count = 1;
  protected_ids = [];
  reclaimable_ids = "traceback" ∷ [];
  reclaimable_bytes = 300000;
  kept_bytes = 300000;
  applied = true;
}

collection : collect_garbage texts (dict stored ∷ []) blobs true 300 1000 ≡ ok (report, collected)
unfolding collect_garbage referenced_blob_ids spill_fields is_value_slot get spill_dir Dict.get
    Dict.put member Dict.add Dict.remove
collection = refl

lost : rehydrate_fields texts (some collected) stored ≡ raise (file_not_found_error "traceback")
unfolding rehydrate_fields spill_fields get Dict.get
lost = refl

differ : ◌≢◌ {A = String} "result" "traceback"
differ e = let h = (str_eq_iff "result" "traceback").1 e in cc

unnamed : All (λ p. RowLeavesOut "traceback" p) (dict stored ∷ [])
unfolding spill_fields blob_id_of is_value_slot get
unnamed = (((λ s r e. differ (cc e)), ((λ s r e. cc s), tt)), tt)

there : IsThere texts blobs "traceback"
unfolding spill_dir Dict.get Dict.put
there = refl

old : IsOld texts blobs (1000 - 300) "traceback"
unfolding spill_dir Dict.get Dict.put
old = ((λ e. refl), ((λ e. refl), tt))

collect_garbage-unmarked_example : Dict.get collected "traceback" ≡ none
collect_garbage-unmarked_example =
    collect_garbage-unmarked texts (dict stored ∷ []) blobs 300 1000 "traceback" collection unnamed
      there old

-- A row whose only reference stands in a slot.
abbrev slotted : Fields
slotted = spill_fields texts 262144 (field "output_ref" (str "result") end)

slot_collection :
    collect_garbage texts (dict slotted ∷ []) blobs true 300 1000 ≡ ok (report, collected)
unfolding collect_garbage referenced_blob_ids spill_fields is_value_slot get spill_dir Dict.get
    Dict.put member Dict.add Dict.remove
slot_collection = refl

collect_garbage-ReadsSame_example : All (λ p. ReadsSame texts blobs collected p) (dict slotted ∷ [])
collect_garbage-ReadsSame_example =
    collect_garbage-ReadsSame texts (dict slotted ∷ []) blobs true 300 1000 slot_collection
