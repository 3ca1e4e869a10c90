-- ===== src/Control/Cuts.antt =====
-- Where `resolve_fork_point` cuts a journal (control/commands.py).
use satay_runtime.Prelude.{
  String, ℕ, ◌<◌, ◌≤◌, ◌≡◌, ◌≢◌, refl, sym, subst, ◌∙◌, Bool, true, false, ◌&&◌, Option, none, some,
  List, [], ◌∷◌, arith, All, All-map, any, filter, ltb, nat_eq, nat_eq_iff, ◌⊎◌, List-cases,
  Option-cases, Bool-cases, inl, inr,
}
use satay_runtime.Prelude.Int.{ℤ}
use satay_runtime.Errors.{ok}
use satay_runtime.Journal.Events.{Event, RunRecord, is_terminal}
use satay_runtime.Journal.Store.{Store, journal, get_run}
use satay_runtime.Journal.Store.Cache.{read_events-eq-journal}
use satay_runtime.Journal.Store.Reach.{IsSound}
use satay_runtime.Control.ForkPoint.{
  schedules, has_ordinal, earliest, greatest_seq, before, step_back, candidates, resolve_task,
  resolve_in, resolve_fork_point, validate_source_run,
}
use satay_runtime.Control.Forks.{prefix}

-- Is a number the number of an event?
abbrev pub has_seq : ℕ → List Event → Bool
has_seq n events = any (λ e. nat_eq e.seq n) events

-- What `before_task` and `before_ordinal` ask for.
abbrev pub is_candidate : String → Option ℤ → Event → Bool
is_candidate task none e = schedules task e
is_candidate task (some n) e = schedules task e && has_ordinal n e

filter-filter :
    (p q : Event → Bool) (es : List Event) → filter p (filter q es) ≡ filter (λ e. q e && p e) es
filter-filter p q [] = refl
filter-filter p q (e ∷ es) = ground (arith, filter-filter p q es)

candidates-filter :
    (events : List Event) (task : String) (ordinal : Option ℤ)
    → candidates events task ordinal ≡ filter (is_candidate task ordinal) events
unfolding candidates
candidates-filter events task none = refl
candidates-filter events task (some n) = filter-filter (has_ordinal n) (schedules task) events

module _ (p : Event → Bool) (k : ℕ) where
  -- The prefix up to k has no event with the property exactly if all such events are behind it.
  prefix-empty :
      (es : List Event) → filter p (prefix k es) ≡ [] → All (λ (d : Event). k < d.seq) (filter p es)
  prefix-empty [] h = tt
  prefix-empty (e ∷ es) h = ground (arith, prefix-empty es)

  empty-prefix :
      (es : List Event) → All (λ (d : Event). k < d.seq) (filter p es) → filter p (prefix k es) ≡ []
  empty-prefix [] h = refl
  empty-prefix (e ∷ es) h = ground (arith, empty-prefix es)

-- One turn of each loop.
earliest-step :
    (e d : Event) (es : List Event)
    → ((ltb d.seq e.seq ≡ true) × (earliest e (d ∷ es) ≡ earliest d es))
      ⊎ ((ltb d.seq e.seq ≡ false) × (earliest e (d ∷ es) ≡ earliest e es))
unfolding earliest
earliest-step e d es = elim (Bool-cases (ltb d.seq e.seq)) [
  | inl less ↦ inl (less, rw less refl)
  | inr more ↦ inr (more, rw more refl)
]

greatest-step :
    (n : ℕ) (d : Event) (es : List Event)
    → ((ltb n d.seq ≡ true) × (greatest_seq n (d ∷ es) ≡ greatest_seq d.seq es))
      ⊎ ((ltb n d.seq ≡ false) × (greatest_seq n (d ∷ es) ≡ greatest_seq n es))
unfolding greatest_seq
greatest-step n d es = elim (Bool-cases (ltb n d.seq)) [
  | inl less ↦ inl (less, rw less refl)
  | inr more ↦ inr (more, rw more refl)
]

earliest-All :
    (P : Event → Type 0) (e : Event) (es : List Event) → P e → All P es → P (earliest e es)
unfolding earliest
earliest-All P e [] h hs = h
earliest-All P e (d ∷ es) h hs = elim (earliest-step e d es) [
  | inl (less, same) ↦ rw same (earliest-All P d es hs.0 hs.1)
  | inr (more, same) ↦ rw same (earliest-All P e es h hs.1)
]

All-lower :
    (k n : ℕ) (es : List Event)
    → k ≤ n
    → All (λ (d : Event). n ≤ d.seq) es
    → All (λ (d : Event). k ≤ d.seq) es
All-lower k n es h hs = All-map (λ (d : Event) (low : n ≤ d.seq). omega arith) es hs

abbrev IsFirst : List Event → Event → Type 0
IsFirst es b = All (λ (d : Event). b.seq ≤ d.seq) es

abbrev IsLast : ℕ → List Event → ℕ → Type 0
IsLast n es k = (n ≤ k) × All (λ (d : Event). d.seq ≤ k) es

-- The earliest is not behind any of them.
earliest-first :
    (e : Event) (es : List Event) → All (λ (d : Event). (earliest e es).seq ≤ d.seq) (e ∷ es)
earliest-first e [] = unfold earliest in (omega arith, tt)
earliest-first e (d ∷ es) = elim (earliest-step e d es) [
  | inl (less, same) ↦
      let ih = earliest-first d es in
      subst (IsFirst (e ∷ d ∷ es)) (sym same) (ground (arith, ih.0), ih)
  | inr (more, same) ↦
      let ih = earliest-first e es in
      subst (IsFirst (e ∷ d ∷ es)) (sym same) (ih.0, (ground (arith, ih.0), ih.1))
]

greatest-last :
    (n : ℕ) (es : List Event)
    → (n ≤ greatest_seq n es) × All (λ (d : Event). d.seq ≤ greatest_seq n es) es
greatest-last n [] = unfold greatest_seq in (omega arith, tt)
greatest-last n (d ∷ es) = elim (greatest-step n d es) [
  | inl (less, same) ↦
      let ih = greatest-last d.seq es in
      subst (IsLast n (d ∷ es)) (sym same) (ground (arith, ih.0), ih)
  | inr (more, same) ↦
      let ih = greatest-last n es in
      subst (IsLast n (d ∷ es)) (sym same) (ih.0, (ground (arith, ih.0), ih.1))
]

greatest-below :
    (c n : ℕ) (es : List Event) → n < c → All (λ (d : Event). d.seq < c) es → greatest_seq n es < c
greatest-below c n [] h hs = unfold greatest_seq in h
greatest-below c n (d ∷ es) h hs = elim (greatest-step n d es) [
  | inl (less, same) ↦ rw same (greatest-below c d.seq es hs.0 hs.1)
  | inr (more, same) ↦ rw same (greatest-below c n es h hs.1)
]

greatest-has_seq : (e : Event) (es : List Event) → has_seq (greatest_seq e.seq es) (e ∷ es) ≡ true
greatest-has_seq e [] = unfold greatest_seq in ground (arith, nat_eq_iff e.seq e.seq)
greatest-has_seq e (d ∷ es) = elim (greatest-step e.seq d es) [
  | inl (less, same) ↦
      subst (λ k. has_seq k (e ∷ d ∷ es) ≡ true) (sym same) (ground (arith, greatest-has_seq d es))
  | inr (more, same) ↦
      subst (λ k. has_seq k (e ∷ d ∷ es) ≡ true) (sym same) (ground (arith, greatest-has_seq e es))
]

before-All :
    (c k : ℕ) (es : List Event)
    → All (λ (d : Event). d.seq ≤ k) (before c es)
    → All (λ (d : Event). d.seq < c → d.seq ≤ k) es
before-All c k [] h = tt
before-All c k (e ∷ es) h = ground (arith, before-All c k es)

before-below : (c : ℕ) (es : List Event) → All (λ (d : Event). d.seq < c) (before c es)
before-below c [] = tt
before-below c (e ∷ es) = ground (arith, before-below c es)

has_seq-before : (c n : ℕ) (es : List Event) → has_seq n (before c es) ≡ true → has_seq n es ≡ true
has_seq-before c n [] h = h
has_seq-before c n (e ∷ es) h = ground (arith, has_seq-before c n es)

-- The cut before the earliest event with a property.
cut-before :
    (source : String) (events : List Event) (p : Event → Bool) (e : Event) (es : List Event) (n : ℕ)
    → filter p events ≡ e ∷ es
    → step_back source events (earliest e es) ≡ ok n
    → (filter p (prefix n events) ≡ [])
      × (has_seq n events ≡ true)
      × All (λ (d : Event). n < d.seq → filter p (prefix d.seq events) ≢ []) events
unfolding step_back
cut-before source events p e es n found cut =
    let c = earliest e es in
    elim (List-cases (before c.seq events)) [
      | inl nothing ↦ let stopped = rw (nothing, step_back) at cut in absurd (cc stopped)
      | inr (b, bs, some_before) ↦
          let same : greatest_seq b.seq bs ≡ n =
            let done = rw (some_before, step_back) at cut in cc in
          let low = rw some_before at (before-below c.seq events) in
          let below : n < c.seq =
            subst (λ k. k < c.seq) same (greatest-below c.seq b.seq bs low.0 low.1) in
          let upper = subst (IsLast b.seq bs) same (greatest-last b.seq bs) in
          let top = before-All c.seq n events (rw some_before upper) in
          (
            empty-prefix p n events (
                rw found (
                  All-map (λ (d : Event) (after : c.seq ≤ d.seq). omega arith) (e ∷ es)
                    (earliest-first e es))),
            has_seq-before c.seq n events (
                rw some_before
                  (subst (λ k. has_seq k (b ∷ bs) ≡ true) same (greatest-has_seq b bs))),
            All-map {Q = λ (d : Event). n < d.seq → filter p (prefix d.seq events) ≢ []}
                (λ (d : Event) (h : d.seq < c.seq → d.seq ≤ n) (above : n < d.seq)
                    (empty : filter p (prefix d.seq events) ≡ []).
                  let behind = rw found at (prefix-empty p d.seq events empty) in
                  let behind_c = earliest-All (λ x. d.seq < x.seq) e es behind.0 behind.1 in
                  absurd (omega (arith, h behind_c)))
                events top,
          )
    ]

resolve_task-cut :
    (source : String) (events : List Event) (task : String) (ordinal : Option ℤ) (n : ℕ)
    → resolve_task source events task ordinal ≡ ok n
    → (filter (is_candidate task ordinal) (prefix n events) ≡ [])
      × (has_seq n events ≡ true)
      × All
          (λ (d : Event). n < d.seq → filter (is_candidate task ordinal) (prefix d.seq events) ≢ [])
          events
unfolding resolve_task
resolve_task-cut source events task ordinal n cut =
    elim (List-cases (candidates events task ordinal)) [
      | inl nothing ↦ let stopped = rw (nothing, resolve_task) at cut in absurd (cc stopped)
      | inr (e, es, some_found) ↦
          cut-before source events (is_candidate task ordinal) e es n
            (sym (candidates-filter events task ordinal) ∙ some_found)
            (rw (some_found, resolve_task) at cut)
    ]

-- In a store in order, where resolve_fork_point finds a fork point before a task, then the source
-- run has ended, the point is the number of one of its events, the events up to it do not schedule
-- the task (at the ordinal, if one is given), and those up to any later event do.
pub resolve_fork_point-before_task :
    (s : Store) (source task : String) (ordinal : Option ℤ) (events : List Event) (n : ℕ)
    → IsSound s
    → journal s source ≡ ok events
    → (resolve_fork_point s source none (some task) ordinal).0 ≡ ok n
    → ((r : RunRecord) × (get_run s source ≡ some r) × (is_terminal r.status ≡ true))
      × (has_seq n events ≡ true)
      × (filter (is_candidate task ordinal) (prefix n events) ≡ [])
      × All
          (λ (d : Event). n < d.seq → filter (is_candidate task ordinal) (prefix d.seq events) ≢ [])
          events
unfolding resolve_fork_point validate_source_run
resolve_fork_point-before_task s source task ordinal events n sound read cut =
    elim (Option-cases (get_run s source)) [
      | inl absent ↦ let stopped = rw (absent, resolve_fork_point) at cut in absurd (cc stopped)
      | inr (r, found) ↦ elim (Bool-cases (is_terminal r.status)) [
        | inr live ↦
            let stopped = rw (found, live, resolve_fork_point) at cut in absurd (cc stopped)
        | inl over ↦
            let reads = (read_events-eq-journal s source sound.numbered sound.coherent).0 ∙ read in
            let resolved = rw (found, over, reads, resolve_fork_point) at cut in
            let (none_before, real, last) =
              resolve_task-cut source events task ordinal n (unfold resolve_in in resolved) in
            ((r, found, over), real, none_before, last)
      ]
    ]
