-- ===== src/Worker/Evidence/Ownership.antt =====
-- Whose sessions an action ends.
use smart_srun.Prelude.{
  ◌≡◌, refl, true, Option, none, some, List, [], ◌∷◌, Bytes, bytes_eq_refl, arith,
}
use smart_srun.Auth.Answer.{Reply, Result}
use smart_srun.Auth.Identity.{Identity}
use smart_srun.Worker.World.{World, M, Tools, Gateway, Event, Request, LogoutParams}
use smart_srun.Worker.Rules.{
  Triple, bind_rule, pure_rule, view_rule, traced_rule, checked_rule, when_rule, state_rule,
  weaken_rule,
}
use smart_srun.Worker.Trace.{is_plain, is_harmless, adds, adds_rule}
use smart_srun.Worker.Trace.Harmless.{
  Harmless, check_existing-Harmless, verify_session-Harmless, verify_logout-Harmless,
}
use smart_srun.Worker.Trace.Logins.{
  ends_none, plain-ends_none, EndsNone, Harmless-EndsNone, attempt_login-EndsNone,
  settle_retry-EndsNone,
}
use smart_srun.Worker.Transaction.{online, logout, send_logout}
use smart_srun.Worker.Attempt.{Attempt, Verdict}
use smart_srun.Worker.Session.{
  clear_and_retry, settle_identity, settle_already_online, settle_login, first_login, sign_in,
  unless_settled, end_session, sign_out,
}
use smart_srun.Worker.Evidence.{read_reply, last_identity, may_end, ends_only_own}
use smart_srun.Worker.Evidence.Queries.{last_identity-plain, online_rule}

module _ (tools : Tools) (p : Attempt) where
  abbrev pub IsFair : List Event → Type 0
  IsFair es = ends_only_own tools p es ≡ true

  fair-other : (e : Event) (es : List Event) → ends_none e ≡ true → IsFair es → IsFair (e ∷ es)
  unfolding ends_only_own
  fair-other (Event.sent (Request.challenge_request _ _ _) _) es h x = x
  fair-other (Event.sent (Request.login_request _) _) es h x = x
  fair-other (Event.sent (Request.online_request _ _) _) es h x = x
  fair-other (Event.sent (Request.logout_request _) _) es h x = absurd (cc)
  fair-other (Event.reported _) es h x = x
  fair-other (Event.resolved _ _ _) es h x = x
  fair-other (Event.retired _ _) es h x = x
  fair-other (Event.moved _) es h x = x
  fair-other Event.left es h x = x

  pub fair-plain : (e : Event) (es : List Event) → is_plain e ≡ true → IsFair es → IsFair (e ∷ es)
  fair-plain e es h x = fair-other e es (plain-ends_none e h) x

  fair-harmless : (e : Event) (es : List Event) → is_harmless e ≡ true → IsFair es → IsFair (e ∷ es)
  unfolding ends_only_own
  fair-harmless (Event.sent (Request.challenge_request _ _ _) _) es h x = x
  fair-harmless (Event.sent (Request.login_request _) _) es h x = x
  fair-harmless (Event.sent (Request.online_request _ _) _) es h x = x
  fair-harmless (Event.sent (Request.logout_request _) _) es h x = absurd (cc)
  fair-harmless (Event.reported _) es h x = x
  fair-harmless (Event.resolved _ _ _) es h x = x
  fair-harmless (Event.retired _ _) es h x = x
  fair-harmless (Event.moved _) es h x = x
  fair-harmless Event.left es h x = x

  fair-logout :
      (q : LogoutParams) (r : Reply Bytes) (es : List Event) (o : Option Identity)
      → IsFair es
      → last_identity tools p.username es ≡ o
      → may_end p q.username o ≡ true
      → IsFair (Event.sent (Request.logout_request q) r ∷ es)
  unfolding ends_only_own
  fair-logout q r es o x e h = rw (e, h) x

  -- What an attempt knows once its query was answered.
  abbrev Knows : Option Identity → List Event → Type 0
  Knows o es = IsFair es × (last_identity tools p.username es ≡ o)

  Knows-plain :
      (o : Option Identity) (e : Event) (es : List Event)
      → is_plain e ≡ true
      → Knows o es
      → Knows o (e ∷ es)
  Knows-plain o (Event.sent _ _) es h x = absurd (cc)
  Knows-plain o (Event.reported a) es h (x, y) =
      (fair-other _ es refl x, last_identity-plain tools _ o _ es refl y)
  Knows-plain o (Event.resolved a b c) es h (x, y) =
      (fair-other _ es refl x, last_identity-plain tools _ o _ es refl y)
  Knows-plain o (Event.retired a b) es h (x, y) =
      (fair-other _ es refl x, last_identity-plain tools _ o _ es refl y)
  Knows-plain o (Event.moved a) es h (x, y) =
      (fair-other _ es refl x, last_identity-plain tools _ o _ es refl y)
  Knows-plain o Event.left es h (x, y) =
      (fair-other _ es refl x, last_identity-plain tools _ o _ es refl y)

module _ (W : World) (tools : Tools) (p : Attempt) (line : W.Line) (g : Gateway) where
  abbrev Fair : {A : Type 0} → M W A → Type 0
  Fair c = Triple (λ w. IsFair tools p w.trace) c (λ _ w. IsFair tools p w.trace)

  -- From what is known after a query.
  abbrev FairFrom : {A : Type 0} → Option Identity → M W A → Type 0
  FairFrom o c = Triple (λ w. Knows tools p o w.trace) c (λ _ w. IsFair tools p w.trace)

  Fair-other : {A : Type 0} {c : M W A} → EndsNone c → Fair c
  Fair-other h = adds_rule (λ es. IsFair tools p es) (fair-other tools p) h

  from_Fair : {A : Type 0} {c : M W A} {o : Option Identity} → Fair c → FairFrom o c
  from_Fair h = weaken_rule h (λ w x. x.0) (λ a w x. x)

  logout-Fair :
      (o : Option Identity) (username ip : Bytes)
      → may_end p username o ≡ true
      → FairFrom o (logout W tools line g username ip)
  unfolding logout send_logout
  logout-Fair o username ip h =
      when_rule (λ _. pure_rule _ (λ w x. x.0))
        (λ _. bind_rule {R = λ _ w. Knows tools p o w.trace} (view_rule _ (λ w x. x)) (λ seconds.
          bind_rule {R = λ _ w. Knows tools p o w.trace} (view_rule _ (λ w x. x)) (λ callback.
            checked_rule {R = λ r w. IsFair tools p w.trace}
              (traced_rule _ _ (λ w r s x. fair-logout tools p _ r w.trace o (x.0) (x.1) h))
              (λ e. pure_rule _ (λ w x. x)) (λ payload. pure_rule _ (λ w x. x)))))

  failed-Fair : {A : Type 0} {c : M W A} → Harmless c → Fair c
  failed-Fair h = Fair-other (Harmless-EndsNone h)

  clear_and_retry-Fair :
      (o : Option Identity) (username identity : Bytes)
      → may_end p username o ≡ true
      → FairFrom o (clear_and_retry W tools p line g username identity)
  unfolding clear_and_retry
  clear_and_retry-Fair o username identity h =
      bind_rule (adds_rule (λ es. Knows tools p o es) (Knows-plain tools p o) (search adds)) (λ _.
        checked_rule (logout-Fair o username [] h) (λ e. failed-Fair (search adds))
          (λ cleared.
            when_rule (λ _. failed-Fair (search adds))
              (λ _.
                checked_rule (Fair-other (attempt_login-EndsNone W tools line g p))
                  (λ e. failed-Fair (search adds))
                  (λ r. Fair-other (settle_retry-EndsNone W tools line g p identity r)))))

  query :
      (expected : Bytes)
      → Triple
          (λ w. IsFair tools p w.trace)
          (online W tools line g expected)
          (λ r w. IsFair tools p w.trace × (last_identity tools expected w.trace ≡ read_reply r))
  query = online_rule tools line g (λ es. IsFair tools p es) (fair-harmless tools p)

  settle_identity-Fair : (i : Identity) → FairFrom (some i) (settle_identity W tools p line g i)
  unfolding settle_identity may_end
  settle_identity-Fair i =
      state_rule i
        (λ here self. from_Fair (failed-Fair (verify_session-Harmless W tools p line g (some i))))
        (λ here other.
          when_rule (λ _. from_Fair (failed-Fair (search adds)))
            (λ h.
              clear_and_retry-Fair (some i) _ _ (ground (arith, bytes_eq_refl i.session_username))))
        (λ absent.
          clear_and_retry-Fair (some i) _ _ (ground (arith, bytes_eq_refl p.account.user_id)))

  settle_already_online-Fair : Fair (settle_already_online W tools p line g)
  unfolding settle_already_online
  settle_already_online-Fair = bind_rule (failed-Fair (search adds)) (λ _.
      checked_rule (query p.username) (λ e. from_Fair (failed-Fair (search adds)))
        settle_identity-Fair)

  settle_login-Fair : (r : Result) → Fair (settle_login W tools p line g r)
  unfolding settle_login
  settle_login-Fair r =
      when_rule (λ _. settle_already_online-Fair)
        (λ _.
          when_rule (λ _. failed-Fair (search adds))
            (λ _. failed-Fair (verify_session-Harmless W tools p line g none)))

  first_login-Fair : Fair (first_login W tools p line g)
  unfolding first_login
  first_login-Fair =
      checked_rule (Fair-other (attempt_login-EndsNone W tools line g p))
        (λ e. failed-Fair (search adds)) settle_login-Fair

  unless_settled-Fair : (o : Option Verdict) → Fair (unless_settled W tools p line g o)
  unless_settled-Fair none = first_login-Fair
  unless_settled-Fair (some v) = failed-Fair (search adds)

  pub sign_in-Fair :
      Triple
        (λ w. IsFair tools p w.trace)
        (sign_in W tools p line g)
        (λ _ w. IsFair tools p w.trace)
  unfolding sign_in
  sign_in-Fair =
      when_rule
        (λ _.
          bind_rule (failed-Fair (check_existing-Harmless W tools line g p)) unless_settled-Fair)
        (λ _. first_login-Fair)

  end_session-Fair : (i : Identity) → FairFrom (some i) (end_session W tools p line g i)
  unfolding end_session may_end
  end_session-Fair i =
      when_rule (λ _. from_Fair (failed-Fair (search adds)))
        (λ here.
          when_rule (λ _. from_Fair (failed-Fair (search adds)))
            (λ own.
              bind_rule
                (adds_rule (λ es. Knows tools p (some i) es) (Knows-plain tools p (some i))
                  (search adds))
                (λ _.
                  checked_rule
                    (logout-Fair (some i) i.session_username i.client_ip
                      (ground (arith, bytes_eq_refl i.session_username)))
                    (λ e. failed-Fair (search adds))
                    (λ r.
                      when_rule (λ _. failed-Fair (search adds))
                        (λ _. failed-Fair (verify_logout-Harmless W tools p line g i.username))))))

  pub sign_out-Fair :
      Triple
        (λ w. IsFair tools p w.trace)
        (sign_out W tools p line g)
        (λ _ w. IsFair tools p w.trace)
  unfolding sign_out
  sign_out-Fair = bind_rule (failed-Fair (search adds)) (λ _.
      checked_rule (query p.username) (λ e. from_Fair (failed-Fair (search adds))) end_session-Fair)
