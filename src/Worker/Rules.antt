-- ===== src/Worker/Rules.antt =====
-- Hoare's triples for what a worker does, and the rules that derive them from its parts.
use smart_srun.Prelude.{
  ℕ, ◌≡◌, refl, inl, inr, Bool, true, false, Bool-cases, Option, List, ◌∷◌, Bytes,
}
use smart_srun.Domain.Binding.{Binding, AuthState}
use smart_srun.Domain.Errors.{ErrorCode}
use smart_srun.Auth.Answer.{Reply}
use smart_srun.Auth.Identity.{Identity, state_of}
use smart_srun.Worker.Confirm.{by_state}
use smart_srun.Worker.World.{
  World, Worker, M, Event, pure, ◌>>=◌, or_return, when, view, kept, call, traced, keep,
}

module _ {W : World} where
  -- From a worker with `P`, the result and the worker after are related by `Q`.
  pub record Triple {A : Type 0} (P : Worker W → Type 0) (c : M W A) (Q : A → Worker W → Type 0)
      : Type 0 where
    pub after_run : (w : Worker W) → P w → Q ((c w).0) ((c w).1)

  pub bind_rule :
      {A B : Type 0} {P : Worker W → Type 0} {c : M W A} {f : A → M W B} {R : A → Worker W → Type 0}
      {Q : B → Worker W → Type 0}
      → Triple P c R
      → ((a : A) → Triple (R a) (f a) Q)
      → Triple P (c >>= f) Q
  unfolding ◌>>=◌
  bind_rule {c = c} h k = record {
    after_run = λ w x. (k ((c w).0)).after_run ((c w).1) (h.after_run w x);
  }

  pure_run : {A : Type 0} (a : A) (w : Worker W) → pure a w ≡ (a, w)
  unfolding pure
  pure_run a w = refl

  view_run : {A : Type 0} (f : W.State → A) (w : Worker W) → view f w ≡ (f w.outside, w)
  unfolding view
  view_run f w = refl

  kept_run : {A : Type 0} (f : Worker W → A) (w : Worker W) → kept f w ≡ (f w, w)
  unfolding kept
  kept_run f w = refl

  call_run :
      {A : Type 0} (f : W.State → A × W.State) (w : Worker W)
      → call f w ≡ ((f w.outside).0, record w { outside = (f w.outside).1 })
  unfolding call
  call_run f w = refl

  traced_run :
      {A : Type 0} (f : W.State → A × W.State) (e : A → Event) (w : Worker W)
      → traced f e w ≡ (
        (f w.outside).0,
        record w { outside = (f w.outside).1; trace = e ((f w.outside).0) ∷ w.trace },
      )
  unfolding traced
  traced_run f e w = refl

  keep_run :
      (g : ℕ) (seen : List (Bytes × Binding)) (w : Worker W)
      → keep g seen w ≡ (tt, record w { generation = g; seen = seen })
  unfolding keep
  keep_run g seen w = refl

  pub pure_rule :
      {A : Type 0} (a : A) {P : Worker W → Type 0} {Q : A → Worker W → Type 0}
      → ((w : Worker W) → P w → Q a w)
      → Triple P (pure a) Q
  pure_rule a h = record { after_run = λ w x. rw (pure_run a w) (h w x) }

  pub view_rule :
      {A : Type 0} (f : W.State → A) {P : Worker W → Type 0} {Q : A → Worker W → Type 0}
      → ((w : Worker W) → P w → Q (f w.outside) w)
      → Triple P (view f) Q
  view_rule f h = record { after_run = λ w x. rw (view_run f w) (h w x) }

  pub kept_rule :
      {A : Type 0} (f : Worker W → A) {P : Worker W → Type 0} {Q : A → Worker W → Type 0}
      → ((w : Worker W) → P w → Q (f w) w)
      → Triple P (kept f) Q
  kept_rule f h = record { after_run = λ w x. rw (kept_run f w) (h w x) }

  pub call_rule :
      {A : Type 0} (f : W.State → A × W.State) {P : Worker W → Type 0} {Q : A → Worker W → Type 0}
      → ((w : Worker W) (a : A) (s : W.State) → P w → Q a (record w { outside = s }))
      → Triple P (call f) Q
  call_rule f h = record { after_run = λ w x. rw (call_run f w) (h w _ _ x) }

  pub traced_rule :
      {A : Type 0} (f : W.State → A × W.State) (e : A → Event) {P : Worker W → Type 0}
      {Q : A → Worker W → Type 0}
      → ((w : Worker W) (a : A) (s : W.State)
          → P w
          → Q a (record w { outside = s; trace = e a ∷ w.trace }))
      → Triple P (traced f e) Q
  traced_rule f e h = record { after_run = λ w x. rw (traced_run f e w) (h w _ _ x) }

  pub keep_rule :
      (g : ℕ) (seen : List (Bytes × Binding)) {P : Worker W → Type 0}
      {Q : Unit {0} → Worker W → Type 0}
      → ((w : Worker W) → P w → Q tt (record w { generation = g; seen = seen }))
      → Triple P (keep g seen) Q
  keep_rule g seen h = record { after_run = λ w x. rw (keep_run g seen w) (h w x) }

  when-true : {A : Type 0} (c d : M W A) → when true c d ≡ c
  unfolding when
  when-true c d = refl

  when-false : {A : Type 0} (c d : M W A) → when false c d ≡ d
  unfolding when
  when-false c d = refl

  return_ok :
      {A B : Type 0} (failing : Option ErrorCode → M W B) (go : A → M W B) (a : A)
      → or_return failing go (Reply.ok a) ≡ go a
  unfolding or_return
  return_ok failing go a = refl

  return_err :
      {A B : Type 0} (failing : Option ErrorCode → M W B) (go : A → M W B) (e : Option ErrorCode)
      → or_return failing go (Reply.err e) ≡ failing e
  unfolding or_return
  return_err failing go e = refl

  pub when_rule :
      {A : Type 0} {b : Bool} {c d : M W A} {P : Worker W → Type 0} {Q : A → Worker W → Type 0}
      → (b ≡ true → Triple P c Q)
      → (b ≡ false → Triple P d Q)
      → Triple P (when b c d) Q
  when_rule {b = true} {c = c} {d = d} h k = rw (when-true c d) (h refl)
  when_rule {b = false} {c = c} {d = d} h k = rw (when-false c d) (k refl)

  pub return_rule :
      {A B : Type 0} {r : Reply A} {failing : Option ErrorCode → M W B} {go : A → M W B}
      {P : Worker W → Type 0} {Q : B → Worker W → Type 0}
      → ((e : Option ErrorCode) → Triple P (failing e) Q)
      → ((a : A) → r ≡ Reply.ok a → Triple P (go a) Q)
      → Triple P (or_return failing go r) Q
  return_rule {r = Reply.ok a} {failing = failing} {go = go} h k =
      rw (return_ok failing go a) (k a refl)
  return_rule {r = Reply.err e} {failing = failing} {go = go} h k =
      rw (return_err failing go e) (h e)

  split_rule :
      {A B : Type 0} (R : Reply A → Worker W → Type 0) (r : Reply A)
      (failing : Option ErrorCode → M W B) (go : A → M W B) {Q : B → Worker W → Type 0}
      → ((e : Option ErrorCode) → Triple (R (Reply.err e)) (failing e) Q)
      → ((a : A) → Triple (R (Reply.ok a)) (go a) Q)
      → Triple (R r) (or_return failing go r) Q
  split_rule R (Reply.ok a) failing go h k = rw (return_ok failing go a) (k a)
  split_rule R (Reply.err e) failing go h k = rw (return_err failing go e) (h e)

  pub checked_rule :
      {A B : Type 0} {P : Worker W → Type 0} {c : M W (Reply A)} {R : Reply A → Worker W → Type 0}
      {failing : Option ErrorCode → M W B} {go : A → M W B} {Q : B → Worker W → Type 0}
      → Triple P c R
      → ((e : Option ErrorCode) → Triple (R (Reply.err e)) (failing e) Q)
      → ((a : A) → Triple (R (Reply.ok a)) (go a) Q)
      → Triple P (c >>= or_return failing go) Q
  checked_rule {R = R} {failing = failing} {go = go} h k l =
      bind_rule h (λ r. split_rule R r failing go k l)

  -- A triple may be given a stronger condition before, and a weaker one after.
  pub weaken_rule :
      {A : Type 0} {c : M W A} {P P' : Worker W → Type 0} {Q Q' : A → Worker W → Type 0}
      → Triple P c Q
      → ((w : Worker W) → P' w → P w)
      → ((a : A) (w : Worker W) → Q a w → Q' a w)
      → Triple P' c Q'
  weaken_rule h f g = record { after_run = λ w x. g _ _ (h.after_run w (f w x)) }

  -- A condition that does not depend on the worker may be assumed.
  pub assume_rule :
      {A : Type 0} {c : M W A} {P : Worker W → Type 0} {R : Type 0} {Q : A → Worker W → Type 0}
      → (R → Triple P c Q)
      → Triple (λ w. R × P w) c Q
  assume_rule h = record { after_run = λ w (r, x). (h r).after_run w x }

  by_state_self : {A : Type 0} (c d e : M W A) → by_state AuthState.verified_self c d e ≡ c
  unfolding by_state
  by_state_self c d e = refl

  by_state_other : {A : Type 0} (c d e : M W A) → by_state AuthState.verified_other c d e ≡ d
  unfolding by_state
  by_state_other c d e = refl

  by_state_offline : {A : Type 0} (c d e : M W A) → by_state AuthState.offline c d e ≡ e
  unfolding by_state
  by_state_offline c d e = refl

  pub state_rule :
      {A : Type 0} (i : Identity) {c d e : M W A} {P : Worker W → Type 0}
      {Q : A → Worker W → Type 0}
      → (i.present ≡ true → i.matches_expected ≡ true → Triple P c Q)
      → (i.present ≡ true → i.matches_expected ≡ false → Triple P d Q)
      → (i.present ≡ false → Triple P e Q)
      → Triple P (by_state (state_of i) c d e) Q
  state_rule i {c = c} {d = d} {e = e} h k l = elim (Bool-cases i.present) [
    | inl x ↦ elim (Bool-cases i.matches_expected) [
      | inl y ↦ rw (x, y, by_state_self c d e) (h x y)
      | inr y ↦ rw (x, y, by_state_other c d e) (k x y)
    ]
    | inr x ↦ rw (x, by_state_offline c d e) (l x)
  ]

  -- Every run ends in some worker.
  pub any_rule : {A : Type 0} {P : Worker W → Type 0} (c : M W A) → Triple P c (λ _ w. Unit {0})
  any_rule c = record { after_run = λ w x. tt }

  -- A run that ensures two things ensures both.
  pub both_rule :
      {A : Type 0} {P : Worker W → Type 0} {c : M W A} {Q R : A → Worker W → Type 0}
      → Triple P c Q
      → Triple P c R
      → Triple P c (λ a w. Q a w × R a w)
  both_rule h k = record { after_run = λ w x. (h.after_run w x, k.after_run w x) }
