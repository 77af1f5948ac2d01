-- ===== src/Wireless/Machine/Clean.antt =====
-- Runs in which nothing fails.
use smart_srun.Prelude.{◌≡◌, refl, ◌∙◌, ap, []}
use smart_srun.Wireless.Machine.{
  Store, Machine, M, Run, ok, assign, pure, attempt, query, and_then, ◌>>=◌,
}

module _ {S : Store} where
  -- Without faults, the run returns `a` and leaves `n`.
  pub record Gives {A : Type 0} (c : M S A) (m : Machine S) (a : A) (n : Machine S) : Type 0 where
    pub clean_run : ◌≡◌ {A = Run S A} (c m []) (ok a, n, [])

  pub bind-Gives :
      {A B : Type 0} {c : M S A} (f : A → M S B) {m n o : Machine S} (a : A) {b : B}
      → Gives c m a n
      → Gives (f a) n b o
      → Gives (c >>= f) m b o
  unfolding ◌>>=◌
  bind-Gives f a h k = record { clean_run = ap (λ r. and_then r f) h.clean_run ∙ k.clean_run }

  pub attempt-Gives : (f : Machine S → Machine S) (m : Machine S) → Gives (attempt f) m tt (f m)
  unfolding attempt
  attempt-Gives f m = record { clean_run = refl }

  pub assign-Gives : (f : Machine S → Machine S) (m : Machine S) → Gives (assign f) m tt (f m)
  unfolding assign
  assign-Gives f m = record { clean_run = refl }

  pub query-Gives : {A : Type 0} (q : Machine S → A) (m : Machine S) → Gives (query q) m (q m) m
  unfolding query
  query-Gives q m = record { clean_run = refl }

  pub pure-Gives : {A : Type 0} (a : A) (m : Machine S) → Gives (pure a) m a m
  unfolding pure
  pure-Gives a m = record { clean_run = refl }
