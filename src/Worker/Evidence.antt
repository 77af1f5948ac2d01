-- ===== src/Worker/Evidence.antt =====
-- What the trace of an action says about the sessions on its line.
pub mod Queries
pub mod Ownership
pub mod Success
pub mod Logins
pub mod Logouts
pub mod Challenges
pub mod Credentials
use smart_srun.Prelude.{
  ◌≡◌, refl, Bool, true, false, not, ◌&&◌, ◌||◌, Option, none, some, List, [], ◌∷◌, if◌then◌else◌,
  Bytes, bytes_eq,
}
use smart_srun.Auth.Answer.{Reply, ok, err, read_identity}
use smart_srun.Auth.Identity.{Identity}
use smart_srun.Worker.World.{Tools, Event, Request, LogoutParams}
use smart_srun.Worker.Attempt.{Attempt, is_manual_intent}

abbrev pub read_reply : Reply Identity → Option Identity
read_reply (Reply.ok i) = some i
read_reply (Reply.err _) = none

-- What an answer to a query says, where it says anything.
abbrev pub named_in : Tools → Bytes → Reply Bytes → Option Identity
named_in tools expected (Reply.ok payload) =
    read_reply (read_identity tools.folding (tools.read_answer payload) expected)
named_in tools expected (Reply.err _) = none

-- What the newest query of a trace was answered.
unfoldable pub last_identity : Tools → Bytes → List Event → Option Identity
last_identity tools expected [] = none
last_identity tools expected (Event.sent (Request.online_request _ _) r ∷ es) =
    named_in tools expected r
last_identity tools expected (Event.sent (Request.challenge_request _ _ _) r ∷ es) =
    last_identity tools expected es
last_identity tools expected (Event.sent (Request.login_request _) r ∷ es) =
    last_identity tools expected es
last_identity tools expected (Event.sent (Request.logout_request _) r ∷ es) =
    last_identity tools expected es
last_identity tools expected (Event.reported _ ∷ es) = last_identity tools expected es
last_identity tools expected (Event.resolved _ _ _ ∷ es) = last_identity tools expected es
last_identity tools expected (Event.retired _ _ ∷ es) = last_identity tools expected es
last_identity tools expected (Event.moved _ ∷ es) = last_identity tools expected es
last_identity tools expected (Event.left ∷ es) = last_identity tools expected es

-- Whether an attempt may end the session of a name, after what the newest query was answered: that of the
-- session that was named, where it is the attempt's own or a user asks, or the attempt's own name, where
-- nobody is online.
unfoldable pub may_end : Attempt → Bytes → Option Identity → Bool
may_end p username none = false
may_end p username (some i) =
    if i.present
    then bytes_eq i.session_username username && (i.matches_expected || is_manual_intent p.intent)
    else bytes_eq p.account.user_id username

-- Whether each logout of a trace was one that the attempt may make at that point.
unfoldable pub ends_only_own : Tools → Attempt → List Event → Bool
ends_only_own tools p [] = true
ends_only_own tools p (Event.sent (Request.logout_request q) r ∷ es) =
    may_end p q.username (last_identity tools p.username es) && ends_only_own tools p es
ends_only_own tools p (Event.sent (Request.challenge_request _ _ _) _ ∷ es) =
    ends_only_own tools p es
ends_only_own tools p (Event.sent (Request.online_request _ _) _ ∷ es) = ends_only_own tools p es
ends_only_own tools p (Event.sent (Request.login_request _) _ ∷ es) = ends_only_own tools p es
ends_only_own tools p (Event.reported _ ∷ es) = ends_only_own tools p es
ends_only_own tools p (Event.resolved _ _ _ ∷ es) = ends_only_own tools p es
ends_only_own tools p (Event.retired _ _ ∷ es) = ends_only_own tools p es
ends_only_own tools p (Event.moved _ ∷ es) = ends_only_own tools p es
ends_only_own tools p (Event.left ∷ es) = ends_only_own tools p es
