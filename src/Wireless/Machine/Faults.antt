-- ===== src/Wireless/Machine/Faults.antt =====
-- What holds after a run whatever fails, and the rules that derive it from the parts of the run.
use smart_srun.Prelude.{◌≡◌, refl, Bool, true, false, List, [], ◌∷◌}
use smart_srun.Domain.Errors.{ErrorCode}
use smart_srun.Wireless.Machine.{
  Store, Machine, M, Run, Result, ok, err, Error, failed, refused, Fault, guard, assign, pure,
  throw, attempt, query, and_then, ◌>>=◌,
}

module _ {S : Store} where
  -- Under every schedule of faults, the result and the machine after are related by `Q`.
  pub record Ensures {A : Type 0} (c : M S A) (m : Machine S) (Q : Result A → Machine S → Type 0)
      : Type 0 where
    pub after_run : (fs : List Fault) → Q ((c m fs).0) ((c m fs).1)

  -- What the rest of a run must ensure, after a first part.
  abbrev pub Then :
      {A B : Type 0} → (A → M S B) → (Result B → Machine S → Type 0) → Result A → Machine S → Type 0
  Then f Q (ok a) m = Ensures (f a) m Q
  Then f Q (err e) m = Q (err e) m

  and_then-lem :
      {A B : Type 0} (f : A → M S B) (Q : Result B → Machine S → Type 0) (r : Run S A)
      → Then f Q (r.0) (r.1)
      → Q ((and_then r f).0) ((and_then r f).1)
  and_then-lem f Q (ok a, m, fs) h = h.after_run fs
  and_then-lem f Q (err e, m, fs) h = h

  pub bind_rule :
      {A B : Type 0} {c : M S A} {f : A → M S B} {m : Machine S} {Q : Result B → Machine S → Type 0}
      → Ensures c m (Then f Q)
      → Ensures (c >>= f) m Q
  unfolding ◌>>=◌
  bind_rule {c = c} {f = f} {m = m} {Q = Q} h = record {
    after_run = λ fs. and_then-lem f Q (c m fs) (h.after_run fs);
  }

  attempt-cases :
      (f : Machine S → Machine S) (m : Machine S) (Q : Result (Unit {0}) → Machine S → Type 0)
      → Q (ok tt) (f m)
      → Q (err failed) m
      → Q (err failed) (f m)
      → (fs : List Fault) → Q ((attempt f m fs).0) ((attempt f m fs).1)
  unfolding attempt
  attempt-cases f m Q a b c [] = a
  attempt-cases f m Q a b c (Fault.passes ∷ fs) = a
  attempt-cases f m Q a b c (Fault.fails ∷ fs) = b
  attempt-cases f m Q a b c (Fault.fails_after ∷ fs) = c

  pub attempt_rule :
      (f : Machine S → Machine S) {m : Machine S} {Q : Result (Unit {0}) → Machine S → Type 0}
      → Q (ok tt) (f m)
      → Q (err failed) m
      → Q (err failed) (f m)
      → Ensures (attempt f) m Q
  attempt_rule f {m} {Q} a b c = record { after_run = attempt-cases f m Q a b c }

  query-cases :
      {A : Type 0} (q : Machine S → A) (m : Machine S) (Q : Result A → Machine S → Type 0)
      → Q (ok (q m)) m
      → Q (err failed) m
      → (fs : List Fault) → Q ((query q m fs).0) ((query q m fs).1)
  unfolding query
  query-cases q m Q a b [] = a
  query-cases q m Q a b (Fault.passes ∷ fs) = a
  query-cases q m Q a b (Fault.fails ∷ fs) = b
  query-cases q m Q a b (Fault.fails_after ∷ fs) = b

  pub query_rule :
      {A : Type 0} (q : Machine S → A) {m : Machine S} {Q : Result A → Machine S → Type 0}
      → Q (ok (q m)) m
      → Q (err failed) m
      → Ensures (query q) m Q
  query_rule q {m} {Q} a b = record { after_run = query-cases q m Q a b }

  pub guard_rule :
      {b : Bool} (e : ErrorCode) {m : Machine S} {Q : Result (Unit {0}) → Machine S → Type 0}
      → (b ≡ true → Q (ok tt) m)
      → Q (err (refused e)) m
      → Ensures (guard b e) m Q
  unfolding guard
  guard_rule {b = true} _ h x = record { after_run = λ fs. h refl }
  guard_rule {b = false} _ h x = record { after_run = λ fs. x }

  pub assign_rule :
      (f : Machine S → Machine S) {m : Machine S} {Q : Result (Unit {0}) → Machine S → Type 0}
      → Q (ok tt) (f m)
      → Ensures (assign f) m Q
  unfolding assign
  assign_rule _ h = record { after_run = λ fs. h }

  pub pure_rule :
      {A : Type 0} (a : A) {m : Machine S} {Q : Result A → Machine S → Type 0}
      → Q (ok a) m
      → Ensures (pure a) m Q
  unfolding pure
  pure_rule _ h = record { after_run = λ fs. h }

  pub throw_rule :
      {A : Type 0} (e : ErrorCode) {m : Machine S} {Q : Result A → Machine S → Type 0}
      → Q (err (refused e)) m
      → Ensures (throw e) m Q
  unfolding throw
  throw_rule _ h = record { after_run = λ fs. h }

  -- What is ensured may be weakened.
  pub weaken_rule :
      {A : Type 0} {c : M S A} {m : Machine S} {P Q : Result A → Machine S → Type 0}
      → Ensures c m P
      → ((r : Result A) (n : Machine S) → P r n → Q r n)
      → Ensures c m Q
  weaken_rule {c = c} {m = m} h f = record {
    after_run = λ fs. f ((c m fs).0) ((c m fs).1) (h.after_run fs);
  }

  pub then_rule :
      {A B : Type 0} {c : M S A} {f : A → M S B} {m : Machine S} {P : Result A → Machine S → Type 0}
      {Q : Result B → Machine S → Type 0}
      → Ensures c m P
      → ((a : A) (n : Machine S) → P (ok a) n → Ensures (f a) n Q)
      → ((e : Error) (n : Machine S) → P (err e) n → Q (err e) n)
      → Ensures (c >>= f) m Q
  then_rule {A} {B} {c} {f} {m} {P} {Q} h k x = bind_rule (weaken_rule h cases)
    where
      cases : (r : Result A) (n : Machine S) → P r n → Then f Q r n
      cases (ok a) n p = k a n p
      cases (err e) n p = x e n p
