-- ===== src/Examples/Projections.antt =====
-- The projection at concrete inputs.
use smart_srun.Prelude.{
  ℕ, ◌≡◌, ◌≢◌, ◌≤◌, ◌<◌, ◌⊎◌, refl, true, false, none, some, [], ◌∷◌, codes, arith, bytes_eq,
  is_empty,
}
use smart_srun.Prelude.Maps.{lookup, insert, erase}
use smart_srun.Domain.Binding.{LinkState, AuthState, Connectivity}
use smart_srun.Observe.View.{Observation, Drop, Note}
use smart_srun.Observe.Store.{
  Entry, Store, new_store, accept, set_revision, action_started, action_finished, take_in,
  empty_entry,
}
use smart_srun.Observe.Store.Freshness.{
  IsTimely, NotAfter, place, taken, accept_cases, accept-NotAfter, accept-set_revision,
}
use smart_srun.Observe.Store.Notes.{
  told_of, told_of-accept, told_of-action_started, accept_all, told_of-stale_note,
  told_of-late_note,
}

-- An observation of one account.
abbrev seen_at : ℕ → ℕ → Observation
seen_at revision sequence = record {
  account_id = codes "alice";
  revision = revision;
  generation = 4;
  sequence = sequence;
  link = LinkState.ready;
  auth = AuthState.verified_self;
  connectivity = Connectivity.internet_reachable;
  identity = codes "alice";
  line = record { iface = codes "wan"; device = codes "eth0"; address = [] };
  at = 100;
}

abbrev known : Store
known = (accept new_store (seen_at 2 7)).0

abbrev entry : Entry
entry = take_in (empty_entry []) (seen_at 2 7)

accept_cases_example :
    ((accept known (seen_at 2 6) ≡ (taken known (seen_at 2 6), Drop.no_drop))
      × (is_empty (seen_at 2 6).account_id ≡ false)
      × (known.revision ≤ 2)
      × IsTimely (lookup (seen_at 2 6).account_id known.accounts) (seen_at 2 6))
    ⊎ (((accept known (seen_at 2 6)).0 ≡ known)
        × ((accept known (seen_at 2 6)).1 ≢ Drop.no_drop)
        × ((is_empty (seen_at 2 6).account_id ≡ true)
            ⊎ ((2 < known.revision)
                ⊎ (¬ IsTimely (lookup (seen_at 2 6).account_id known.accounts) (seen_at 2 6)))))
accept_cases_example = accept_cases known (seen_at 2 6)

accept-NotAfter_example :
    (f : Entry) × (lookup (codes "alice") (accept known (seen_at 2 6)).0.accounts ≡ some f)
    × (f.seen ≡ true)
    × NotAfter (place entry.view) (place f.view)
unfolding accept take_in lookup insert erase bytes_eq
accept-NotAfter_example = accept-NotAfter known (seen_at 2 6) (codes "alice") entry refl refl

accept-set_revision_test :
    ((accept (set_revision known 3) (seen_at 2 9)).0 ≡ set_revision known 3)
    × ((accept (set_revision known 3) (seen_at 2 9)).1 ≢ Drop.no_drop)
accept-set_revision_test = accept-set_revision known (seen_at 2 9) 3 (omega arith)

told_of-accept_test :
    told_of (accept known (seen_at 2 8)).0 (codes "alice") ≡ told_of known (codes "alice")
told_of-accept_test = told_of-accept known (seen_at 2 8) (codes "alice")

abbrev note_of : ℕ → Note
note_of n = record {
  action_id = n ∷ [];
  kind = [];
  state = codes "failed";
  message = [];
  code = none;
  at = 9;
}

abbrev first_running : Store
first_running = action_started known (codes "alice") (1 ∷ [])

told_of-action_started_test :
    told_of (action_started first_running (codes "alice") (2 ∷ [])) (codes "alice") ≡ (none, 2 ∷ [])
unfolding action_started accept take_in lookup insert erase bytes_eq
told_of-action_started_test =
    told_of-action_started first_running (codes "alice") (2 ∷ []) (codes "alice") refl

told_of-stale_note_example :
    let during = accept_all (action_started known (codes "alice") (1 ∷ [])) (seen_at 2 9 ∷ []) in
    told_of (action_finished during (codes "alice") (note_of 2)) (codes "alice")
    ≡ told_of during (codes "alice")
unfolding bytes_eq
told_of-stale_note_example =
    told_of-stale_note known (seen_at 2 9 ∷ []) (codes "alice") (1 ∷ []) (codes "alice") (note_of 2)
      refl refl refl

told_of-late_note_example :
    let ended = action_finished first_running (codes "alice") (note_of 1) in
    (told_of ended (codes "alice") ≡ (some (note_of 1), []))
    × (told_of (action_finished ended (codes "alice") (note_of 2)) (codes "alice")
        ≡ (some (note_of 2), []))
unfolding action_started accept take_in lookup insert erase bytes_eq
told_of-late_note_example =
    told_of-late_note first_running (codes "alice") (note_of 1) (note_of 2) refl refl
