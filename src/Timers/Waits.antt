-- ===== src/Timers/Waits.antt =====
-- Which waits `_outstanding_event_waits` of timers/__init__.py finds.
use satay_runtime.Prelude.{
  String, ◌≡◌, refl, ◌∙◌, ap, Bool, false, not, ◌||◌, ◌&&◌, or_else, or_else_assoc, or_else-none,
  Option, none, some, List, [], ◌∷◌, filter, arith, Bool-cases, Option-cases, inl, inr, string_eq,
  str_eq_iff, ==_refl, ◌==◌, if◌then◌else◌,
}
use satay_runtime.Prelude.Dict
use satay_runtime.Prelude.Dict.{Dict, member, get-put, member-add}
use satay_runtime.Value.{Fields}
use satay_runtime.Errors.{ok, raise, >>=-eq-ok, Result-cases}
use satay_runtime.Journal.Events.{EventType, Event}
use satay_runtime.Timers.{
  outstanding_event_waits, scan, scan_event, Scan, wait_of, identity_of, resolves, is_wait_started,
}

-- The wait that an event starts under an identity.
abbrev wait_in : EventType → Fields → String → Option (String × Option String)
wait_in type d i = elim (identity_of d) [
  | none ↦ none
  | some j ↦
      if j == i && is_wait_started type
      then (elim (wait_of d) [ ok w ↦ some w | raise x ↦ none ])
      else none
]

abbrev resolved_in : EventType → Fields → String → Bool
resolved_in type d i = elim (identity_of d) [ none ↦ false | some j ↦ j == i && resolves type d ]

-- The last wait that was started under an identity, and whether it is resolved.
unfoldable pub last_wait : List Event → String → Option (String × Option String)
last_wait [] i = none
last_wait (e ∷ es) i = or_else (last_wait es i) (wait_in e.type e.payload i)

unfoldable pub is_resolved : List Event → String → Bool
is_resolved [] i = false
is_resolved (e ∷ es) i = resolved_in e.type e.payload i || is_resolved es i

scan_event-step :
    (t : EventType) (d : Fields) (s s' : Scan) (i : String)
    → scan_event t d s ≡ ok s'
    → (Dict.get s'.0 i ≡ or_else (wait_in t d i) (Dict.get s.0 i))
      × (member s'.1 i ≡ (member s.1 i || resolved_in t d i))
scan_event-step t d s s' i h = elim (Option-cases (identity_of d)) [
  | inl unnamed ↦ (ground (arith, unnamed), ground (arith, unnamed))
  | inr (j, named) ↦ elim (Result-cases (wait_of d)) [
    | inr (x, bad) ↦ (ground (arith, named, bad), ground (arith, named, bad, member-add s.1 j i))
    | inl (w, good) ↦ (
      ground (arith, named, good, get-put s.0 j i w),
      ground (arith, named, good, member-add s.1 j i),
    )
  ]
]

scan-all :
    (es : List Event) (s s' : Scan) (i : String)
    → scan es s ≡ ok s'
    → (Dict.get s'.0 i ≡ or_else (last_wait es i) (Dict.get s.0 i))
      × (member s'.1 i ≡ (member s.1 i || is_resolved es i))
unfolding scan last_wait is_resolved
scan-all [] s s' i h = let same : s ≡ s' = cc in rw (← same) (refl, ground arith)
scan-all (e ∷ es) s s' i h =
    let (s1, first, rest) = >>=-eq-ok (scan_event e.type e.payload s) _ h in
    let head = scan_event-step e.type e.payload s s1 i first in
    let tail = scan-all es s1 s' i rest in
    (
      tail.0
          ∙ ap (or_else (last_wait es i)) head.0
          ∙ or_else_assoc (last_wait es i) (wait_in e.type e.payload i) (Dict.get s.0 i),
      ground (arith, tail.1, head.1),
    )

get-filter :
    {V : Type 0} (d : Dict String V) (gone : List String) (i : String)
    → Dict.get (filter (λ w. not (member gone w.0)) d) i
      ≡ (if member gone i then none else Dict.get d i)
unfolding Dict.get
get-filter [] gone i = ground arith
get-filter ((j, v) ∷ d) gone i = elim (Bool-cases (j == i)) [
  | inl same ↦
      let this : j ≡ i = (str_eq_iff j i).0 same in
      rw this (ground (arith, ==_refl i, get-filter d gone i))
  | inr other ↦ ground (arith, other, get-filter d gone i)
]

-- A wait is reported with the event type and key of its last EventWaitStarted exactly if no event of
-- the journal has resolved it.
pub outstanding_event_waits_lem :
    (events : List Event) (waits : Dict String (String × Option String)) (i : String)
    → outstanding_event_waits events ≡ ok waits
    → Dict.get waits i ≡ (if is_resolved events i then none else last_wait events i)
unfolding outstanding_event_waits Dict.get member
outstanding_event_waits_lem events waits i h =
    let (s, scanned, rest) = >>=-eq-ok (scan events ([], [])) _ h in
    let all = scan-all events ([], []) s i scanned in
    let same : filter (λ w. not (member s.1 w.0)) s.0 ≡ waits = cc in
    rw (← same, get-filter s.0 s.1 i, all.1, all.0, or_else-none (last_wait events i)) refl
