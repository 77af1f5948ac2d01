-- ===== src/Observe/Store/Freshness.antt =====
-- core/internal/observe/store.go: which observations `Accept` takes, in terms of the lexicographic
-- order of (revision, generation, sequence).
use smart_srun.Prelude.{
  ℕ, ◌<◌, ◌≤◌, ◌≡◌, ◌≢◌, ◌⊎◌, ap, subst, ◌∙◌, inl, inr, ◌↔◌, refl, true, false, Option, none, some,
  [], Bytes, bytes_eq, bytes_eq_iff, is_empty, arith, Bool-cases,
}
use smart_srun.Prelude.Maps.{lookup, lookup-insert}
use smart_srun.Observe.View.{Observation, Drop, AccountView}
use smart_srun.Observe.Store.{
  Entry, Store, staleness, take_in, drop_at, accept, set_revision, or_entry, empty_entry, put_entry,
  is_no_drop,
}

-- The position of an entry is not after that of an observation or of another entry.
abbrev pub NotAfter : ℕ × ℕ × ℕ → ℕ × ℕ × ℕ → Type 0
NotAfter (r, g, q) (r', g', q') = (r < r') ⊎ ((r ≡ r') × ((g < g') ⊎ ((g ≡ g') × (q ≤ q'))))

abbrev pub place : AccountView → ℕ × ℕ × ℕ
place v = (v.revision, v.generation, v.sequence)

abbrev place_of : Observation → ℕ × ℕ × ℕ
place_of o = (o.revision, o.generation, o.sequence)

staleness_iff :
    (v : AccountView) (o : Observation)
    → (staleness v o ≡ Drop.no_drop) ↔ NotAfter (place v) (place_of o)
unfolding staleness
staleness_iff v o = ground arith

-- What the account's entry says of an observation.
abbrev pub IsTimely : Option Entry → Observation → Type 0
IsTimely none o = Unit
IsTimely (some e) o = e.seen ≡ true → NotAfter (place e.view) (place_of o)

drop_at_iff : (e : Option Entry) (o : Observation) → (drop_at e o ≡ Drop.no_drop) ↔ IsTimely e o
unfolding drop_at
drop_at_iff none o = ground arith
drop_at_iff (some e) o = ground (arith, staleness_iff e.view o)

is_no_drop_iff : (d : Drop) → (is_no_drop d ≡ true) ↔ (d ≡ Drop.no_drop)
is_no_drop_iff d = ground arith

-- The store after `Accept` took an observation.
abbrev pub taken : Store → Observation → Store
taken s o =
    put_entry s o.account_id
      (take_in (or_entry (lookup o.account_id s.accounts) (empty_entry [])) o)

-- `Accept` takes an observation exactly if it names an account, is not of an older configuration than
-- the store's, and the account's entry, if one was seen, is not after it. Else the store is as before.
pub accept_cases :
    (s : Store) (o : Observation)
    → ((accept s o ≡ (taken s o, Drop.no_drop))
        × (is_empty o.account_id ≡ false)
        × (s.revision ≤ o.revision)
        × IsTimely (lookup o.account_id s.accounts) o)
      ⊎ (((accept s o).0 ≡ s)
          × ((accept s o).1 ≢ Drop.no_drop)
          × ((is_empty o.account_id ≡ true)
              ⊎ ((o.revision < s.revision) ⊎ (¬ IsTimely (lookup o.account_id s.accounts) o))))
unfolding accept
accept_cases s o =
    let iff = drop_at_iff (lookup o.account_id s.accounts) o in
    let test = is_no_drop_iff (drop_at (lookup o.account_id s.accounts) o) in ground arith

-- What `Accept` does to one key of the map.
pub accept-lookup :
    (s : Store) (o : Observation) (id : Bytes)
    → ((bytes_eq o.account_id id ≡ true)
        × (lookup id (accept s o).0.accounts
            ≡ some (take_in (or_entry (lookup id s.accounts) (empty_entry [])) o))
        × IsTimely (lookup id s.accounts) o)
      ⊎ (lookup id (accept s o).0.accounts ≡ lookup id s.accounts)
accept-lookup s o id =
    let e = take_in (or_entry (lookup o.account_id s.accounts) (empty_entry [])) o in
    let put = lookup-insert o.account_id id e s.accounts in
    elim (accept_cases s o) [
      | inl (is, _, _, timely) ↦
          let now = ap (λ r. lookup id r.0.accounts) is in
          elim (Bool-cases (bytes_eq o.account_id id)) [
            | inl same ↦
                let key = (bytes_eq_iff o.account_id id).0 same in
                inl (
                  same,
                  now
                      ∙ put
                      ∙ rw same refl
                      ∙ ap (λ k. some (take_in (or_entry (lookup k s.accounts) (empty_entry [])) o))
                          key,
                  subst (λ k. IsTimely (lookup k s.accounts) o) key timely,
                )
            | inr other ↦ inr (now ∙ put ∙ rw other refl)
          ]
      | inr (is, _, _) ↦ inr (ap (λ t. lookup id t.accounts) is)
    ]

-- A seen entry of any account is still there, seen, after `Accept`, and its (revision, generation,
-- sequence) never goes back.
pub accept-NotAfter :
    (s : Store) (o : Observation) (id : Bytes) (e : Entry)
    → lookup id s.accounts ≡ some e
    → e.seen ≡ true
    → (f : Entry) × (lookup id (accept s o).0.accounts ≡ some f)
      × (f.seen ≡ true)
      × NotAfter (place e.view) (place f.view)
unfolding take_in
accept-NotAfter s o id e at seen = elim (accept-lookup s o id) [
  | inl (same, now, timely) ↦
      (take_in e o, now ∙ rw at refl, refl, subst (λ x. IsTimely x o) at timely seen)
  | inr is ↦ (e, is ∙ at, seen, ground arith)
]

-- After the configuration moved on to a later revision, an observation made under an earlier one is
-- refused and changes nothing.
pub accept-set_revision :
    (s : Store) (o : Observation) (revision : ℕ)
    → o.revision < revision
    → ((accept (set_revision s revision) o).0 ≡ set_revision s revision)
      × ((accept (set_revision s revision) o).1 ≢ Drop.no_drop)
unfolding set_revision
accept-set_revision s o revision h = ground (arith, accept_cases (set_revision s revision) o)
