-- ===== src/Policy/Managed/Targets.antt =====
-- core/internal/policy/managed.go: which accounts a quiet window logs out.
use smart_srun.Prelude.{
  ℕ, ◌+◌, ◌≤◌, ◌≡◌, refl, ap, inl, inr, Bool, true, false, ◌&&◌, ◌||◌, some, List, [], ◌∷◌, ◌++◌,
  map, any, if◌then◌else◌, Bytes, bytes_eq, bytes_eq_iff, is_empty, filter, is_some, ltb, sym,
  arith, Bool-cases, Option-cases,
}
use smart_srun.Domain.Config.{
  CampusAccount, Config, is_wired, campus_account_by_id, managed_wired_accounts,
}
use smart_srun.Policy.Managed.{
  Target, managed_target, active_target, managed, forced_logout_targets, append_active,
}

-- How many targets name an account.
abbrev pub times : Bytes → List Target → ℕ
times id [] = 0
times id (t ∷ ts) = (if bytes_eq t.account_id id then 1 else 0) + times id ts

-- How many accounts of the configuration have an id.
abbrev occurs : Bytes → List CampusAccount → ℕ
occurs id [] = 0
occurs id (a ∷ rest) = (if bytes_eq a.id id then 1 else 0) + occurs id rest

abbrev is_maintained : CampusAccount → Bool
is_maintained a = is_wired a && a.auth_enabled

times-append : (id : Bytes) (ts us : List Target) → times id (ts ++ us) ≡ times id ts + times id us
times-append id [] us = omega arith
times-append id (t ∷ ts) us = ground (arith, times-append id ts us)

times-map :
    (id active : Bytes) (cs : List CampusAccount)
    → times id (map (managed_target active) cs) ≡ occurs id cs
times-map id active [] = refl
times-map id active (a ∷ cs) = ground (arith, times-map id active cs)

occurs-filter :
    (id : Bytes) (p : CampusAccount → Bool) (cs : List CampusAccount)
    → occurs id (filter p cs) ≤ occurs id cs
occurs-filter id p [] = omega arith
occurs-filter id p (a ∷ cs) = ground (arith, occurs-filter id p cs)

any-times :
    (id : Bytes) (ts : List Target) → any (λ t. bytes_eq t.account_id id) ts ≡ ltb 0 (times id ts)
any-times id [] = refl
any-times id (t ∷ ts) = ground (arith, any-times id ts)

pub by_id-found :
    (cs : List CampusAccount) (id : Bytes) (a : CampusAccount)
    → campus_account_by_id cs id ≡ some a
    → a.id ≡ id
unfolding campus_account_by_id
by_id-found [] id a h = ground arith
by_id-found (b ∷ cs) id a h = ground (arith, bytes_eq_iff b.id id, by_id-found cs id a)

-- An account of the configuration with this id passes a test.
abbrev has_account : (CampusAccount → Bool) → Bytes → List CampusAccount → Bool
has_account p id cs = any (λ a. p a && bytes_eq a.id id) cs

has_account_iff :
    (p : CampusAccount → Bool) (id : Bytes) (cs : List CampusAccount)
    → has_account p id cs ≡ ltb 0 (occurs id (filter p cs))
has_account_iff p id [] = refl
has_account_iff p id (a ∷ cs) = ground (arith, has_account_iff p id cs)

has_account_any :
    (id : Bytes) (cs : List CampusAccount)
    → has_account (λ _. true) id cs ≡ is_some (campus_account_by_id cs id)
unfolding campus_account_by_id
has_account_any id [] = refl
has_account_any id (a ∷ cs) = ground (arith, has_account_any id cs)

-- How many times the managed set names an account.
times-managed :
    (c : Config) (id : Bytes)
    → times id (managed c)
      ≡ (if c.multi_wan_enabled then occurs id (filter is_maintained c.campus_accounts) else 0)
unfolding managed managed_wired_accounts
times-managed c id =
    ground
      (arith, times-map id c.selection.active_campus_id (filter is_maintained c.campus_accounts))

-- The account is maintained (wired and opted in, with the global switch on) or is the active one.
abbrev is_target : Config → Bytes → Bool
is_target c id =
    c.multi_wan_enabled && has_account is_maintained id c.campus_accounts
    || bytes_eq c.selection.active_campus_id id && has_account (λ _. true) id c.campus_accounts

is_some_at :
    (cs : List CampusAccount) (id other : Bytes)
    → (bytes_eq id other && is_some (campus_account_by_id cs other))
      ≡ (bytes_eq id other && is_some (campus_account_by_id cs id))
is_some_at cs id other = elim (Bool-cases (bytes_eq id other)) [
  | inl same ↦
      rw same (ap (λ k. is_some (campus_account_by_id cs k)) (sym ((bytes_eq_iff id other).0 same)))
  | inr e ↦ rw e refl
]

-- How many times the appended target names an account.
times-append_active :
    (c : Config) (id : Bytes)
    → times id (
        append_active
          (managed c)
          (campus_account_by_id c.campus_accounts c.selection.active_campus_id))
      ≡ times id (managed c)
        + (if bytes_eq c.selection.active_campus_id id
              && is_some (campus_account_by_id c.campus_accounts id)
            then 1
            else 0)
times-append_active c id =
    let known = is_some_at c.campus_accounts c.selection.active_campus_id id in
    elim (Option-cases (campus_account_by_id c.campus_accounts c.selection.active_campus_id)) [
      | inl e ↦ rw e (ground (arith, known, e))
      | inr (a, e) ↦
          let is =
            ap (λ k. bytes_eq k id)
              (by_id-found c.campus_accounts c.selection.active_campus_id a e) in
          rw e (ground (arith, known, e, is, times-append id (managed c) (active_target a ∷ [])))
    ]

-- An id that stands once at most in the configuration is logged out once if it is maintained (wired
-- and opted in, with the global switch on) or is the active account's, and not at all otherwise.
pub times-forced_logout_targets :
    (c : Config) (id : Bytes)
    → is_empty id ≡ false
    → occurs id c.campus_accounts ≤ 1
    → times id (forced_logout_targets c) ≡ (if is_target c id then 1 else 0)
unfolding forced_logout_targets
times-forced_logout_targets c id nonempty once =
    let count = times-managed c id in
    let fits = occurs-filter id is_maintained c.campus_accounts in
    let found = has_account_iff is_maintained id c.campus_accounts in
    let known = has_account_any id c.campus_accounts in
    let appended = times-append_active c id in
    let none_yet = any-times c.selection.active_campus_id (managed c) in
    let same = (bytes_eq_iff c.selection.active_campus_id id).0 in
    elim (Bool-cases (bytes_eq c.selection.active_campus_id id)) [
      | inl e ↦
          let times_same = ap (λ k. times k (managed c)) (same e) in
          let empty_same = ap is_empty (same e) in ground arith
      | inr e ↦ ground arith
    ]
