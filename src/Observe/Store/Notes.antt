-- ===== src/Observe/Store/Notes.antt =====
-- core/internal/observe/store.go: the explanation of an account's last action, which a reader sees
-- until the next action starts.
use smart_srun.Prelude.{
  ◌≡◌, sym, ap, ◌∙◌, inl, inr, refl, false, not, ◌&&◌, ◌||◌, Option, none, some, List, [], ◌∷◌,
  if◌then◌else◌, Bytes, bytes_eq, bytes_eq_iff, bytes_eq_refl, is_empty, arith, Bool-cases,
  Option-cases,
}
use smart_srun.Prelude.Maps.{lookup, lookup-insert}
use smart_srun.Observe.View.{Observation, Note}
use smart_srun.Observe.Store.{
  Entry, Store, take_in, accept, or_entry, empty_entry, put_entry, action_started, action_finished,
  entry_for, begin_action, end_action,
}
use smart_srun.Observe.Store.Freshness.{accept-lookup}

-- The account's note and the action in flight for it.
abbrev pub told : Option Entry → Option Note × Bytes
told none = (none, [])
told (some e) = (e.note, e.view.running_action)

abbrev pub told_of : Store → Bytes → Option Note × Bytes
told_of s id = told (lookup id s.accounts)

told_or :
    (e : Option Entry) (o : Observation)
    → told (some (take_in (or_entry e (empty_entry [])) o)) ≡ told e
unfolding take_in
told_or none o = refl
told_or (some e) o = refl

-- `Accept` leaves every account's note and running action as they were.
pub told_of-accept :
    (s : Store) (o : Observation) (id : Bytes) → told_of (accept s o).0 id ≡ told_of s id
unfolding take_in
told_of-accept s o id = elim (accept-lookup s o id) [
  | inl (_, now, _) ↦ ap told now ∙ told_or (lookup id s.accounts) o
  | inr is ↦ ap told is
]

told-entry_for : (s : Store) (id : Bytes) → told (some (entry_for s id)) ≡ told_of s id
unfolding entry_for
told-entry_for s id = ground (arith, Option-cases (lookup id s.accounts))

-- The write of an entry, told of every account.
told_of-put_entry :
    (s : Store) (account_id id : Bytes) (e : Entry)
    → told_of (put_entry s account_id e) id
      ≡ (if bytes_eq account_id id then told (some e) else told_of s id)
told_of-put_entry s account_id id e =
    ap told (lookup-insert account_id id e s.accounts) ∙ ground arith

-- The write of an account's entry that is computed from its old one.
told_of-put_entry_from :
    (s : Store) (account_id id : Bytes) (e : Entry)
    → (f : Option Note × Bytes → Option Note × Bytes)
    → told (some e) ≡ f (told (some (entry_for s account_id)))
    → told_of (put_entry s account_id e) id
      ≡ (if bytes_eq account_id id then f (told_of s id) else told_of s id)
told_of-put_entry_from s account_id id e f is =
    let put = told_of-put_entry s account_id id e in
    elim (Bool-cases (bytes_eq account_id id)) [
      | inl same ↦
          put
          ∙ rw same (
              is
              ∙ ap f (told-entry_for s account_id)
              ∙ ap (λ k. f (told_of s k)) ((bytes_eq_iff account_id id).0 same))
      | inr other ↦ put ∙ rw other refl
    ]

-- The note and the running action after a start.
abbrev after_start : Bytes → Option Note × Bytes → Option Note × Bytes
after_start action_id (note, running) =
    if bytes_eq running action_id && not (is_empty action_id)
    then (note, running)
    else (none, action_id)

told-begin_action :
    (e : Entry) (action_id : Bytes)
    → told (some (begin_action e action_id)) ≡ after_start action_id (told (some e))
unfolding begin_action
told-begin_action e action_id = ground arith

-- `ActionStarted` for a named account: a different action clears the note and becomes the running
-- one, a repetition of the running action changes neither, and no other account is affected.
pub told_of-action_started :
    (s : Store) (account_id action_id id : Bytes)
    → is_empty account_id ≡ false
    → told_of (action_started s account_id action_id) id
      ≡ (if bytes_eq account_id id then after_start action_id (told_of s id) else told_of s id)
unfolding action_started
told_of-action_started s account_id action_id id h =
    let e = begin_action (entry_for s account_id) action_id in
    rw h (
      told_of-put_entry_from s account_id id e (after_start action_id)
        (told-begin_action (entry_for s account_id) action_id))

-- The note and the running action after the end of an action.
abbrev after_finish : Note → Option Note × Bytes → Option Note × Bytes
after_finish n (note, running) =
    if is_empty running || bytes_eq running n.action_id then (some n, []) else (note, running)

told-end_action :
    (e : Entry) (n : Note) → told (some (end_action e n)) ≡ after_finish n (told (some e))
unfolding end_action
told-end_action e n = ground arith

told_of-action_finished :
    (s : Store) (account_id id : Bytes) (n : Note)
    → is_empty account_id ≡ false
    → told_of (action_finished s account_id n) id
      ≡ (if bytes_eq account_id id then after_finish n (told_of s id) else told_of s id)
unfolding action_finished
told_of-action_finished s account_id id n h =
    let e = end_action (entry_for s account_id) n in
    rw h (
      told_of-put_entry_from s account_id id e (after_finish n)
        (told-end_action (entry_for s account_id) n))

-- `Accept` of one observation after the other.
unfoldable pub accept_all : Store → List Observation → Store
accept_all s [] = s
accept_all s (o ∷ os) = accept_all (accept s o).0 os

told_of-accept_all :
    (s : Store) (os : List Observation) (id : Bytes) → told_of (accept_all s os) id ≡ told_of s id
unfolding accept_all
told_of-accept_all s [] id = refl
told_of-accept_all s (o ∷ os) id = told_of-accept_all (accept s o).0 os id ∙ told_of-accept s o id

start_running :
    (action_id : Bytes) (t : Option Note × Bytes)
    → is_empty action_id ≡ false
    → (after_start action_id t).1 ≡ action_id
start_running action_id (t, running) k = ground (arith, k, bytes_eq_iff running action_id)

finish_other :
    (n : Note) (action_id : Bytes) (t : Option Note × Bytes)
    → t.1 ≡ action_id
    → is_empty action_id ≡ false
    → bytes_eq action_id n.action_id ≡ false
    → after_finish n t ≡ t
finish_other n action_id (t, running) e k other = rw (e, k, other) refl

finish_own :
    (n : Note) (t : Option Note × Bytes) → t.1 ≡ n.action_id → after_finish n t ≡ (some n, [])
finish_own n (t, running) e = rw (e, bytes_eq_refl n.action_id) (ground arith)

finish_idle : (n : Note) (t : Option Note × Bytes) → t.1 ≡ [] → after_finish n t ≡ (some n, [])
finish_idle n (t, running) e = rw e refl

-- The account that is written.
on_account : (a : Bytes) (x y z : Option Note × Bytes) → x ≡ z → (if bytes_eq a a then x else y) ≡ z
on_account a x y z e = rw (bytes_eq_refl a) e

-- The running action while observations come in.
running-accept_all :
    (s : Store) (os : List Observation) (account_id action_id : Bytes)
    → is_empty account_id ≡ false
    → is_empty action_id ≡ false
    → (told_of (accept_all (action_started s account_id action_id) os) account_id).1 ≡ action_id
running-accept_all s os account_id action_id h k =
    ap (λ t. t.1)
      (told_of-accept_all (action_started s account_id action_id) os account_id
        ∙ told_of-action_started s account_id action_id account_id h)
    ∙ ap (λ t. t.1) (on_account account_id _ _ _ refl)
    ∙ start_running action_id (told_of s account_id) k

-- After `ActionStarted` with an action's id that is not empty, for a named account, and after any
-- observations that `Accept` is given, `ActionFinished` with a note of another action leaves the note and the
-- running action of every account as they were.
pub told_of-stale_note :
    (s : Store) (os : List Observation) (account_id action_id id : Bytes) (n : Note)
    → is_empty account_id ≡ false
    → is_empty action_id ≡ false
    → bytes_eq action_id n.action_id ≡ false
    → let during = accept_all (action_started s account_id action_id) os in
      told_of (action_finished during account_id n) id ≡ told_of during id
told_of-stale_note s os account_id action_id id n h k other =
    let during = accept_all (action_started s account_id action_id) os in
    let now = running-accept_all s os account_id action_id h k in
    told_of-action_finished during account_id id n h ∙ elim (Bool-cases (bytes_eq account_id id)) [
      | inl is ↦ rw is (
          finish_other n action_id (told_of during id)
            (ap (λ x. (told_of during x).1) (sym ((bytes_eq_iff account_id id).0 is)) ∙ now) k
            other)
      | inr is ↦ rw is refl
    ]

-- For a named account whose running action just ended with its note, a note of any action, one that
-- ended long ago among them, takes the place of that note.
pub told_of-late_note :
    (s : Store) (account_id : Bytes) (n late : Note)
    → is_empty account_id ≡ false
    → (told_of s account_id).1 ≡ n.action_id
    → let ended = action_finished s account_id n in
      (told_of ended account_id ≡ (some n, []))
      × (told_of (action_finished ended account_id late) account_id ≡ (some late, []))
told_of-late_note s account_id n late h now =
    let ended = action_finished s account_id n in
    let first : told_of ended account_id ≡ (some n, []) =
      told_of-action_finished s account_id account_id n h
      ∙ on_account account_id _ _ _ (finish_own n (told_of s account_id) now) in
    (
      first,
      told_of-action_finished ended account_id account_id late h
          ∙ on_account account_id _ _ _
              (finish_idle late (told_of ended account_id) (ap (λ t. t.1) first)),
    )
