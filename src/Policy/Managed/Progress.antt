-- ===== src/Policy/Managed/Progress.antt =====
-- core/internal/policy/managed.go: what a sweep still has to do.
use smart_srun.Prelude.{
  ◌≡◌, refl, ap, ◌∙◌, Bool, true, false, not, ◌&&◌, ◌||◌, List, [], ◌∷◌, if◌then◌else◌, Bytes,
  bytes_eq, bytes_eq_refl, bytes_eq_iff, filter, arith,
}
use smart_srun.Prelude.Maps.{lookup, lookup-insert}
use smart_srun.Policy.Managed.{Target, Sweep, is_done, or_false, at_occurrence, pending, succeeded}

filter-filter :
    (p q r : Target → Bool) (ts : List Target)
    → ((t : Target) → r t ≡ (p t && q t))
    → filter r ts ≡ filter p (filter q ts)
filter-filter p q r [] h = refl
filter-filter p q r (t ∷ ts) h = ground (arith, filter-filter p q r ts h, h t)

filter-all : (p : Target → Bool) (ts : List Target) → ((t : Target) → p t ≡ true) → filter p ts ≡ ts
filter-all p [] h = refl
filter-all p (t ∷ ts) h = ground (arith, filter-all p ts h, h t)

occurrence-at_occurrence :
    (s : Sweep) (occurrence : Bytes) → (at_occurrence s occurrence).occurrence ≡ occurrence
unfolding at_occurrence
occurrence-at_occurrence s occurrence = ground (arith, bytes_eq_iff s.occurrence occurrence)

-- The record of another occurrence is dropped.
at_occurrence-cases :
    (s : Sweep) (occurrence : Bytes)
    → at_occurrence s occurrence ≡ (
        if bytes_eq s.occurrence occurrence
        then s
        else record { occurrence = occurrence; done = [] })
unfolding at_occurrence
at_occurrence-cases s occurrence = refl

at_occurrence-succeeded :
    (s : Sweep) (first later id : Bytes)
    → at_occurrence (succeeded s first id) later ≡ (
        if bytes_eq first later
        then succeeded s first id
        else record { occurrence = later; done = [] })
unfolding succeeded
at_occurrence-succeeded s first later id =
    at_occurrence-cases (succeeded s first id) later ∙ rw (occurrence-at_occurrence s first) refl

is_done-succeeded :
    (s : Sweep) (occurrence id key : Bytes)
    → is_done (at_occurrence (succeeded s occurrence id) occurrence) key
      ≡ (bytes_eq id key || is_done (at_occurrence s occurrence) key)
unfolding succeeded
is_done-succeeded s occurrence id key =
    let now = at_occurrence-succeeded s occurrence occurrence id in
    ap (λ t. is_done t key) {y = succeeded s occurrence id}
      (now ∙ rw (bytes_eq_refl occurrence) refl)
    ∙ ap or_false (lookup-insert id key true (at_occurrence s occurrence).done)
    ∙ ground arith

is_done-other :
    (s : Sweep) (first later id key : Bytes)
    → bytes_eq first later ≡ false
    → is_done (at_occurrence (succeeded s first id) later) key ≡ false
unfolding lookup
is_done-other s first later id key h =
    ap (λ t. is_done t key) {y = record { occurrence = later; done = [] }}
      (at_occurrence-succeeded s first later id ∙ rw h refl)

-- A success is recorded for the rest of the occurrence: what is pending after it is what was pending
-- before, without the targets of that account.
pub pending-succeeded :
    (s : Sweep) (occurrence id : Bytes) (targets : List Target)
    → (pending (succeeded s occurrence id) occurrence targets).1
      ≡ filter (λ t. not (bytes_eq id t.account_id)) (pending s occurrence targets).1
unfolding pending
pending-succeeded s occurrence id targets =
    filter-filter (λ t. not (bytes_eq id t.account_id))
      (λ t. not (is_done (at_occurrence s occurrence) t.account_id))
      (λ t. not (is_done (at_occurrence (succeeded s occurrence id) occurrence) t.account_id))
      targets (λ t. ground (arith, is_done-succeeded s occurrence id t.account_id))

-- Another occurrence starts with nothing done: every target is pending, whatever was recorded.
pub pending-other_occurrence :
    (s : Sweep) (first later id : Bytes) (targets : List Target)
    → bytes_eq first later ≡ false
    → (pending (succeeded s first id) later targets).1 ≡ targets
unfolding pending
pending-other_occurrence s first later id targets h =
    filter-all (λ t. not (is_done (at_occurrence (succeeded s first id) later) t.account_id))
      targets (λ t. rw (is_done-other s first later id t.account_id h) refl)
