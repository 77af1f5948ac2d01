-- ===== src/Worker/Evidence/Challenges.antt =====
-- The challenges and the logins in the trace of an action.
use smart_srun.Prelude.{
  ℕ, ◌≡◌, refl, Bool, true, false, ◌&&◌, Option, none, some, List, [], ◌∷◌, ◌++◌, Bytes, bytes_eq,
  bytes_eq_refl,
}
use smart_srun.Domain.Binding.{Binding}
use smart_srun.Auth.Answer.{Reply}
use smart_srun.Protocol.Login.{hmac_md5_hex, wire_password_prefix}
use smart_srun.Application.Action.{Phase}
use smart_srun.Worker.World.{Tools, Gateway, Event, Request, LoginParams}
use smart_srun.Worker.Trace.{is_plain, is_harmless}
use smart_srun.Worker.Transaction.{Challenge, Shape, read_challenge, login_params}
use smart_srun.Worker.Line.{same_line}
use smart_srun.Worker.Attempt.{Attempt}

abbrev pub read_token : Reply Challenge → Option Challenge
read_token (Reply.ok c) = some c
read_token (Reply.err _) = none

abbrev pub token_in : Tools → Reply Bytes → Option Challenge
token_in tools (Reply.ok payload) = read_token (read_challenge (tools.read_challenge payload))
token_in tools (Reply.err _) = none

-- The answer to a challenge, where that is the newest request of a trace.
pub fresh_challenge : Tools → List Event → Option Challenge
unfolding token_in
fresh_challenge tools [] = none
fresh_challenge tools (Event.sent (Request.challenge_request _ _ _) r ∷ es) = token_in tools r
fresh_challenge tools (Event.sent (Request.login_request _) r ∷ es) = none
fresh_challenge tools (Event.sent (Request.online_request _ _) r ∷ es) = none
fresh_challenge tools (Event.sent (Request.logout_request _) r ∷ es) = none
fresh_challenge tools (Event.reported _ ∷ es) = fresh_challenge tools es
fresh_challenge tools (Event.resolved _ _ _ ∷ es) = fresh_challenge tools es
fresh_challenge tools (Event.retired _ _ ∷ es) = fresh_challenge tools es
fresh_challenge tools (Event.moved _ ∷ es) = fresh_challenge tools es
fresh_challenge tools (Event.left ∷ es) = fresh_challenge tools es

-- Whether the newest event but for reports is an observation of the line of a binding.
pub is_unmoved : Binding → List Event → Bool
is_unmoved b (Event.reported _ ∷ es) = is_unmoved b es
is_unmoved b (Event.resolved _ _ (Reply.ok now) ∷ es) = same_line now b
is_unmoved b _ = false

-- Whether a login carries an attempt's name, and its password signed with a token.
abbrev pub is_signed : Tools → Attempt → LoginParams → Option Challenge → Bool
is_signed tools p q none = false
is_signed tools p q (some c) =
    bytes_eq q.username p.username
    && bytes_eq q.wire_password
        (wire_password_prefix ++ hmac_md5_hex tools.hashes c.token p.account.password)

-- Whether each login of a trace is signed with a fresh challenge, on a line that did not move since.
unfoldable pub signs_fresh : Tools → Attempt → List Event → Bool
signs_fresh tools p [] = true
signs_fresh tools p (Event.sent (Request.login_request q) _ ∷ es) =
    is_signed tools p q (fresh_challenge tools es)
    && (is_unmoved p.binding es && signs_fresh tools p es)
signs_fresh tools p (Event.sent (Request.challenge_request _ _ _) _ ∷ es) = signs_fresh tools p es
signs_fresh tools p (Event.sent (Request.online_request _ _) _ ∷ es) = signs_fresh tools p es
signs_fresh tools p (Event.sent (Request.logout_request _) _ ∷ es) = signs_fresh tools p es
signs_fresh tools p (Event.reported _ ∷ es) = signs_fresh tools p es
signs_fresh tools p (Event.resolved _ _ _ ∷ es) = signs_fresh tools p es
signs_fresh tools p (Event.retired _ _ ∷ es) = signs_fresh tools p es
signs_fresh tools p (Event.moved _ ∷ es) = signs_fresh tools p es
signs_fresh tools p (Event.left ∷ es) = signs_fresh tools p es

-- No credentials are sent.
abbrev pub signs_none : Event → Bool
signs_none (Event.sent (Request.login_request _) _) = false
signs_none _ = true

pub harmless-signs_none : (e : Event) → is_harmless e ≡ true → signs_none e ≡ true
harmless-signs_none (Event.sent (Request.challenge_request _ _ _) _) h = refl
harmless-signs_none (Event.sent (Request.login_request _) _) h = h
harmless-signs_none (Event.sent (Request.online_request _ _) _) h = refl
harmless-signs_none (Event.sent (Request.logout_request _) _) h = refl
harmless-signs_none (Event.reported _) h = refl
harmless-signs_none (Event.resolved _ _ _) h = refl
harmless-signs_none (Event.retired _ _) h = refl
harmless-signs_none (Event.moved _) h = refl
harmless-signs_none Event.left h = refl

module _ (tools : Tools) (p : Attempt) where
  abbrev pub IsFresh : List Event → Type 0
  IsFresh es = signs_fresh tools p es ≡ true

  pub IsFresh-other :
      (e : Event) (es : List Event) → signs_none e ≡ true → IsFresh es → IsFresh (e ∷ es)
  unfolding signs_fresh
  IsFresh-other (Event.sent (Request.challenge_request _ _ _) _) es h x = x
  IsFresh-other (Event.sent (Request.login_request _) _) es h x = absurd (cc)
  IsFresh-other (Event.sent (Request.online_request _ _) _) es h x = x
  IsFresh-other (Event.sent (Request.logout_request _) _) es h x = x
  IsFresh-other (Event.reported _) es h x = x
  IsFresh-other (Event.resolved _ _ _) es h x = x
  IsFresh-other (Event.retired _ _) es h x = x
  IsFresh-other (Event.moved _) es h x = x
  IsFresh-other Event.left es h x = x

  -- What an attempt has once its challenge was answered, and once the line was looked at again.
  abbrev pub Holds : Option Challenge → List Event → Type 0
  Holds o es = IsFresh es × (fresh_challenge tools es ≡ o)

  abbrev pub Armed : Challenge → List Event → Type 0
  Armed c es = Holds (some c) es × (is_unmoved p.binding es ≡ true)

  pub Holds-plain :
      (o : Option Challenge) (e : Event) (es : List Event)
      → is_plain e ≡ true
      → Holds o es
      → Holds o (e ∷ es)
  unfolding fresh_challenge
  Holds-plain o (Event.sent _ _) es h x = absurd (cc)
  Holds-plain o (Event.reported a) es h (x, y) = (IsFresh-other _ es refl x, y)
  Holds-plain o (Event.resolved a b c) es h (x, y) = (IsFresh-other _ es refl x, y)
  Holds-plain o (Event.retired a b) es h (x, y) = (IsFresh-other _ es refl x, y)
  Holds-plain o (Event.moved a) es h (x, y) = (IsFresh-other _ es refl x, y)
  Holds-plain o Event.left es h (x, y) = (IsFresh-other _ es refl x, y)

  pub IsFresh-login :
      (q : LoginParams) (r : Reply Bytes) (es : List Event) (c : Challenge)
      → Armed c es
      → is_signed tools p q (some c) ≡ true
      → IsFresh (Event.sent (Request.login_request q) r ∷ es)
  unfolding signs_fresh
  IsFresh-login q r es c ((x, e), u) h = rw (e, u, h) x

  pub challenge-sent :
      (username : Bytes) (ms : ℕ) (callback : Bytes) (r : Reply Bytes) (es : List Event)
      → IsFresh es
      → Holds
          (token_in tools r)
          (Event.sent (Request.challenge_request username ms callback) r ∷ es)
  unfolding fresh_challenge
  challenge-sent username ms callback r es x = (IsFresh-other _ es refl x, refl)

  -- What an observation of the line leaves.
  abbrev pub Looked : Challenge → Reply Binding → List Event → Type 0
  Looked c (Reply.ok now) es =
      Holds (some c) es × (is_unmoved p.binding es ≡ same_line now p.binding)
  Looked c (Reply.err e) es = Holds (some c) es

  pub looked :
      (c : Challenge) (iface : Bytes) (generation : ℕ) (r : Reply Binding) (es : List Event)
      → Holds (some c) es
      → Looked c r (Event.resolved iface generation r ∷ es)
  unfolding is_unmoved
  looked c iface generation (Reply.ok now) es x = (Holds-plain _ _ es refl x, refl)
  looked c iface generation (Reply.err e) es x = Holds-plain _ _ es refl x

  pub Armed-reported :
      (c : Challenge) (a : Phase) (es : List Event) → Armed c es → Armed c (Event.reported a ∷ es)
  unfolding is_unmoved
  Armed-reported c a es (x, u) = (Holds-plain _ _ es refl x, u)

  pub login-IsSigned :
      (g : Gateway) (s : Shape) (c : Challenge) (ip info_json : Bytes) (ms : ℕ) (callback : Bytes)
      → is_signed tools p
          (login_params tools g p.username p.account.password s c.token ip info_json ms callback)
          (some c)
        ≡ true
  unfolding login_params
  login-IsSigned g s c ip info_json ms callback =
      rw
        (
          bytes_eq_refl p.username,
          bytes_eq_refl
              (wire_password_prefix ++ hmac_md5_hex tools.hashes c.token p.account.password),
        )
        refl
