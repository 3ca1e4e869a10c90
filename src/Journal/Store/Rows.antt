-- ===== src/Journal/Store/Rows.antt =====
-- The rows of a run are numbered 1, 2, 3, … in the order of insertion (journal/store.py).
use Prim.Native.Nat.{max}
use satay_runtime.Prelude.{
  ℕ, suc, ◌+◌, ◌≤◌, ◌<◌, String, ◌≡◌, refl, sym, Bool, ◌&&◌, List, [], ◌∷◌, ◌++◌, arith, length,
  ap₂, ◌∙◌, filter-append, filter, sort_by, ltb, ◌==◌, string_eq,
}
use satay_runtime.Errors.{ok, ◌>>=◌, >>=-eq-ok, bind-ok}
use satay_runtime.Journal.Events.{Event}
use satay_runtime.Journal.Store.{
  Row, Store, rows_of, max_seq, by_seq, rows_after, rows_to_events, row_to_event, last_seq,
}

abbrev pub Numbered : ℕ → List Row → Type 0
Numbered k [] = Unit
Numbered k (r ∷ rs) = (r.seq ≡ suc k) × Numbered (suc k) rs

-- Every run's rows are numbered from 1 without a gap.
pub record IsNumbered (s : Store) : Type 0 where
  pub at : (run_id : String) → Numbered 0 (rows_of s.events run_id)

pub sort-Numbered : (k : ℕ) (rs : List Row) → Numbered k rs → sort_by by_seq rs ≡ rs
sort-Numbered k [] h = refl
sort-Numbered k (r ∷ []) h = refl
sort-Numbered k (r ∷ q ∷ rs) h = rw (sort-Numbered (suc k) (q ∷ rs) h.1) (ground arith)

max_seq-from : (k : ℕ) (rs : List Row) → Numbered k rs → max k (max_seq rs) ≡ k + length rs
max_seq-from k [] h = omega arith
max_seq-from k (r ∷ rs) h = omega (arith, max_seq-from (suc k) rs h.1)

pub max_seq-Numbered : (rs : List Row) → Numbered 0 rs → max_seq rs ≡ length rs
max_seq-Numbered rs h = omega (arith, max_seq-from 0 rs h)

pub Numbered-snoc :
    (k : ℕ) (rs : List Row) (r : Row)
    → Numbered k rs
    → r.seq ≡ suc (k + length rs)
    → Numbered k (rs ++ r ∷ [])
Numbered-snoc k [] r h e = (omega arith, tt)
Numbered-snoc k (q ∷ rs) r h e = (h.0, Numbered-snoc (suc k) rs r h.1 (omega arith))

pub Numbered-append :
    (k m : ℕ) (pre post : List Row)
    → Numbered k (pre ++ post)
    → k + length pre ≡ m
    → Numbered k pre × Numbered m post
Numbered-append k m [] post h e = let e' : k ≡ m = omega arith in (tt, rw (← e') h)
Numbered-append k m (r ∷ pre) post h e =
    let rest = Numbered-append (suc k) m pre post h.1 (omega arith) in ((h.0, rest.0), rest.1)

-- No row of a numbered list that starts at k is above the number k + its length.
after_none :
    (k n : ℕ) (rs : List Row)
    → Numbered k rs
    → k + length rs ≤ n
    → filter (λ r. ltb n r.seq) rs ≡ []
after_none k n [] h le = refl
after_none k n (r ∷ rs) h le = ground (arith, after_none (suc k) n rs h.1)

after_all : (k n : ℕ) (rs : List Row) → Numbered k rs → n ≤ k → filter (λ r. ltb n r.seq) rs ≡ rs
after_all k n [] h le = refl
after_all k n (r ∷ rs) h le = ground (arith, after_all (suc k) n rs h.1)

filter-both :
    (p q : Row → Bool) (rs : List Row) → filter (λ r. p r && q r) rs ≡ filter q (filter p rs)
filter-both p q [] = refl
filter-both p q (r ∷ rs) = ground (arith, filter-both p q rs)

-- The rows behind the first `length pre` ones.
pub after_split :
    (pre post : List Row)
    → Numbered 0 (pre ++ post)
    → filter (λ r. ltb (length pre) r.seq) (pre ++ post) ≡ post
after_split pre post h =
    let parts = Numbered-append 0 (length pre) pre post h (omega arith) in
    filter-append (λ r. ltb (length pre) r.seq) pre post
    ∙ ap₂ (λ (xs ys : List Row). xs ++ ys) (after_none 0 (length pre) pre parts.0 (omega arith))
        (after_all (length pre) (length pre) post parts.1 (omega arith))

-- The query for the rows behind a prefix returns the rest, in order.
pub rows_after-split :
    (s : Store) (run_id : String) (pre post : List Row)
    → Numbered 0 (rows_of s.events run_id)
    → rows_of s.events run_id ≡ pre ++ post
    → rows_after s run_id (length pre) ≡ post
unfolding rows_after
rows_after-split s run_id pre post h e =
    let numbered = rw e at h in
    rw
      (
        filter-both (λ r. r.run_id == run_id) (λ r. ltb (length pre) r.seq) s.events,
        e,
        after_split pre post numbered,
      )
      (sort-Numbered (length pre) post
        (Numbered-append 0 (length pre) pre post numbered (omega arith)).1)

-- A row keeps its number, its type and its run when it is read.
pub row_to_event-eq-ok :
    (r : Row) (e : Event)
    → row_to_event r ≡ ok e
    → (e.seq ≡ r.seq) × (e.type ≡ r.type) × (e.run_id ≡ r.run_id) × (e.ts ≡ r.ts)
unfolding row_to_event
row_to_event-eq-ok r e h = ground arith

-- A list of rows is read from the front.
pub rows_to_events-cons :
    (r : Row) (rs : List Row) (es : List Event)
    → rows_to_events (r ∷ rs) ≡ ok es
    → (e : Event) × (rest : List Event) × (row_to_event r ≡ ok e)
      × (rows_to_events rs ≡ ok rest)
      × (es ≡ e ∷ rest)
unfolding rows_to_events
rows_to_events-cons r rs es h =
    let (e, read, more) = >>=-eq-ok (row_to_event r) _ h in
    let (rest, others, same) = >>=-eq-ok (rows_to_events rs) _ more in (e, rest, read, others, cc)

pub rows_to_events-append :
    (pre post : List Row)
    → rows_to_events (pre ++ post)
      ≡ (rows_to_events pre >>= λ es. rows_to_events post >>= λ fs. ok (es ++ fs))
unfolding rows_to_events
rows_to_events-append [] post = sym (bind-ok (rows_to_events post))
rows_to_events-append (r ∷ pre) post = ground (arith, rows_to_events-append pre post)

last_seq-cons : (e : Event) (es : List Event) → 0 < last_seq es → last_seq (e ∷ es) ≡ last_seq es
last_seq-cons e [] h = absurd (omega arith)
last_seq-cons e (f ∷ es) h = refl

last_seq-from :
    (k : ℕ) (r : Row) (rs : List Row) (es : List Event)
    → Numbered k (r ∷ rs)
    → rows_to_events (r ∷ rs) ≡ ok es
    → last_seq es ≡ suc (k + length rs)
last_seq-from k r [] es h read =
    let (e, rest, first, others, same) = rows_to_events-cons r [] es read in
    let none_left : rest ≡ [] = unfold rows_to_events in cc in
    rw (same, none_left) (omega (arith, (row_to_event-eq-ok r e first).0, h.0))
last_seq-from k r (q ∷ rs) es h read =
    let (e, rest, first, others, same) = rows_to_events-cons r (q ∷ rs) es read in
    let ih = last_seq-from (suc k) q rs rest h.1 others in
    rw (same, last_seq-cons e rest (omega arith)) (omega arith)

-- The last number among the events read is how many they are.
pub last_seq-Numbered :
    (rs : List Row) (es : List Event)
    → Numbered 0 rs
    → rows_to_events rs ≡ ok es
    → last_seq es ≡ length rs
last_seq-Numbered [] es h read =
    let none_left : es ≡ [] = unfold rows_to_events in cc in rw none_left
last_seq-Numbered (r ∷ rs) es h read = omega (arith, last_seq-from 0 r rs es h read)
