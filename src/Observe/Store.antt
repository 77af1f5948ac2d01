-- ===== src/Observe/Store.antt =====
-- core/internal/observe/store.go: the projection and its operations. An operation holds the lock from
-- its first read to its last write, so it is one function of the store.
pub mod Freshness
pub mod Notes
use smart_srun.Prelude.{
  ℕ, Bool, true, false, not, ◌&&◌, ◌||◌, Option, none, some, List, [], ◌∷◌, ltb, if◌then◌else◌,
  Bytes, bytes_eq, is_empty,
}
use smart_srun.Prelude.Maps.{lookup, erase, insert}
use smart_srun.Domain.Binding.{LinkState, AuthState, Connectivity}
use smart_srun.Observe.View.{LineView, Observation, Drop, Note, AccountView}

pub record Entry : Type 0 where
  pub view : AccountView
  pub note : Option Note
  pub seen : Bool

pub record Store : Type 0 where
  pub revision : ℕ
  pub accounts : List (Bytes × Entry)

-- `New`.
abbrev pub new_store : Store
new_store = record { revision = 0; accounts = [] }

-- `&entry{}`.
abbrev pub empty_entry : Bytes → Entry
empty_entry account_id = record {
  view = record {
    account_id = account_id;
    link = LinkState.unset;
    auth = AuthState.unset;
    connectivity = Connectivity.unset;
    identity = [];
    line = record { iface = []; device = []; address = [] };
    observed_at = 0;
    revision = 0;
    generation = 0;
    sequence = 0;
    running_action = [];
    note = none;
  };
  note = none;
  seen = false;
}

pub set_revision : Store → ℕ → Store
set_revision s revision = if ltb s.revision revision then record s { revision = revision } else s

reset_configuration : Store → ℕ → Store
reset_configuration s revision =
    if ltb s.revision revision then record { revision = revision; accounts = [] } else s

-- The comparison is lexicographic.
pub staleness : AccountView → Observation → Drop
staleness current incoming =
    if ltb incoming.revision current.revision
    then Drop.obsolete_revision
    else if ltb current.revision incoming.revision
    then Drop.no_drop
    else if ltb incoming.generation current.generation
    then Drop.obsolete_binding
    else if ltb current.generation incoming.generation
    then Drop.no_drop
    else if ltb incoming.sequence current.sequence
    then Drop.late
    else Drop.no_drop

-- The writes at the end of `Accept`.
unfoldable pub take_in : Entry → Observation → Entry
take_in e o = record {
  view = record e.view {
    account_id = o.account_id;
    link = o.link;
    auth = o.auth;
    connectivity = o.connectivity;
    identity = o.identity;
    line = o.line;
    observed_at = o.at;
    revision = o.revision;
    generation = o.generation;
    sequence = o.sequence;
  };
  note = e.note;
  seen = true;
}

-- The entry of a key that may be missing.
abbrev pub or_entry : Option Entry → Entry → Entry
or_entry none d = d
or_entry (some e) d = e

-- The drop that an observation meets at the account's entry.
pub drop_at : Option Entry → Observation → Drop
unfolding staleness
drop_at none o = Drop.no_drop
drop_at (some e) o = if e.seen then staleness e.view o else Drop.no_drop

abbrev pub is_no_drop : Drop → Bool
is_no_drop Drop.no_drop = true
is_no_drop _ = false

-- A write to the map of entries.
abbrev pub put_entry : Store → Bytes → Entry → Store
put_entry s account_id e = record s { accounts = insert account_id e s.accounts }

-- `Accept`: the store and the drop; it was accepted where that is `no_drop`.
unfoldable pub accept : Store → Observation → Store × Drop
unfolding drop_at take_in lookup insert
accept s o =
    if is_empty o.account_id
    then (s, Drop.no_account)
    else if ltb o.revision s.revision
    then (s, Drop.obsolete_revision)
    else if not (is_no_drop (drop_at (lookup o.account_id s.accounts) o))
    then (s, drop_at (lookup o.account_id s.accounts) o)
    else (
      put_entry s o.account_id
          (take_in (or_entry (lookup o.account_id s.accounts) (empty_entry [])) o),
      Drop.no_drop,
    )

-- `entryFor`; the new entry is written by every caller that changes it.
pub entry_for : Store → Bytes → Entry
unfolding lookup
entry_for s account_id = or_entry (lookup account_id s.accounts) (empty_entry account_id)

-- The writes of `ActionStarted` to the entry.
pub begin_action : Entry → Bytes → Entry
begin_action current action_id =
    if bytes_eq current.view.running_action action_id && not (is_empty action_id)
    then current
    else record current { view = record current.view { running_action = action_id }; note = none }

unfoldable pub action_started : Store → Bytes → Bytes → Store
unfolding entry_for begin_action insert
action_started s account_id action_id =
    if is_empty account_id
    then s
    else put_entry s account_id (begin_action (entry_for s account_id) action_id)

-- The writes of `ActionFinished` to the entry.
pub end_action : Entry → Note → Entry
end_action current note =
    if not (is_empty current.view.running_action)
      && not (bytes_eq current.view.running_action note.action_id)
    then current
    else record current { view = record current.view { running_action = [] }; note = some note }

pub action_finished : Store → Bytes → Note → Store
unfolding entry_for end_action insert
action_finished s account_id note =
    if is_empty account_id
    then s
    else put_entry s account_id (end_action (entry_for s account_id) note)

forget : Store → Bytes → Store
unfolding erase
forget s account_id = record s { accounts = erase account_id s.accounts }

-- `copy`: the view with the entry's note, or the view's own where the entry has none.
copy : Entry → AccountView
copy e = elim e.note [ none ↦ e.view | some n ↦ record e.view { note = some n } ]

pub account : Store → Bytes → Option AccountView
unfolding lookup copy
account s account_id = elim (lookup account_id s.accounts) [ none ↦ none | some e ↦ some (copy e) ]
