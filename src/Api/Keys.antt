-- ===== src/Api/Keys.antt =====
-- Keyed starts (api/runner.py and journal/store.py): one run for each idempotency key.
use satay_runtime.Prelude.{
  String, ◌≡◌, refl, false, none, some, List, [], ◌∷◌, any, filter, filter-append, arith, ==_refl,
  ==_ne, ◌==◌, string_eq, sort_by, insert_by, ◌≢◌,
}
use satay_runtime.Value.{Value}
use satay_runtime.Journal.Events.{RunRecord}
use satay_runtime.Journal.Store.{
  Store, get_run_by_idempotency_key, create_run, has_key, head?, by_created_at,
}
use satay_runtime.Api.Runner.{WorkflowDefinition, build_run_handle, resolve_keyed_run}

insert-some : (r : RunRecord) (rs : List RunRecord) → head? (insert_by by_created_at r rs) ≢ none
insert-some r [] h = cc
insert-some r (q ∷ rs) h = ground arith

sort-none : (rs : List RunRecord) → head? (sort_by by_created_at rs) ≡ none → rs ≡ []
sort-none [] h = refl
sort-none (r ∷ rs) h = absurd (insert-some r (sort_by by_created_at rs) h)

-- The new run is the one with its key.
create_run-by_key :
    (s : Store) (r : RunRecord) (k : String)
    → get_run_by_idempotency_key s k ≡ none
    → any (λ q. q.run_id == r.run_id) s.runs ≡ false
    → r.idempotency_key ≡ some k
    → get_run_by_idempotency_key (create_run s r) k ≡ some r
unfolding create_run get_run_by_idempotency_key
create_run-by_key s r k unused fresh keyed =
    let empty = sort-none (filter (has_key k) s.runs) unused in
    rw (fresh, create_run, filter-append (has_key k) s.runs (r ∷ []), empty, keyed, ==_refl k) refl

-- If no run has a key, then after a run with the key and a new id is created, a start with that key
-- is for that run if it gives no run id, and for the run that it names if it gives one that is not
-- empty.
pub create_run-build_run_handle :
    (s : Store) (r : RunRecord) (k : String) (w : WorkflowDefinition) (input : Value)
    (fresh_id j : String)
    → get_run_by_idempotency_key s k ≡ none
    → any (λ q. q.run_id == r.run_id) s.runs ≡ false
    → r.idempotency_key ≡ some k
    → j ≢ ""
    → (resolve_keyed_run (build_run_handle w input none (some k) fresh_id) (create_run s r)
        ≡ r.run_id)
      × (resolve_keyed_run (build_run_handle w input (some j) (some k) fresh_id) (create_run s r)
          ≡ j)
unfolding resolve_keyed_run build_run_handle
create_run-build_run_handle s r k w input fresh_id j unused fresh keyed named =
    (rw (create_run-by_key s r k unused fresh keyed) refl, rw (==_ne j "" named) refl)
