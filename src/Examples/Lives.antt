-- ===== src/Examples/Lives.antt =====
-- A life of a coordinator with two requests for one line.
use smart_srun.Prelude.{ℕ, ◌≡◌, refl, false, none, some, [], ◌∷◌, Bytes, codes, arith, bytes_eq}
use smart_srun.Prelude.Maps.{find, lookup, insert, erase, remove}
use smart_srun.Application.Action.{Kind, State, Message, Action, Request, Outcome}
use smart_srun.Application.Coordinator.{Coordinator, Limits, Env, Run, Completion}
use smart_srun.Application.Schedule.Dispatch.{dispatch}
use smart_srun.Application.Schedule.Expire.{expire}
use smart_srun.Application.Schedule.Finish.{on_finish}
use smart_srun.Application.Schedule.Submit.{on_submit}
use smart_srun.Application.Loop.{Step, Reach, new}

abbrev request_of : Kind → Bytes → Request
request_of kind key = record {
  kind = kind;
  account_id = codes "alice";
  hotspot_id = [];
  iface = codes "wan";
  probe_url = [];
  probe_ssid = [];
  probe_mode = [];
  probe_school = [];
  probe_acid = [];
  owner = [];
  setup_job = [];
  private_json = [];
  private_digest = [];
  idempotency_key = key;
  ignore_quiet = false;
  check_revision = false;
  config_revision = 0;
}

abbrev pub login : Request
login = request_of Kind.login (codes "k1")

abbrev pub relogin : Request
relogin = request_of Kind.relogin (codes "k2")

abbrev pub success : Outcome
success = record {
  state = State.succeeded;
  message = Message.blank;
  code = none;
  maintenance_deferred = false;
  observation = none;
  result_json = [];
  connectivity = none;
}

-- The line is the request's interface, nothing is refused, `Finalize` answers with a success, and
-- the digest is the text itself.
abbrev pub env_at : ℕ → Env
env_at now = record {
  now = now;
  lines = λ r. r.iface;
  check = λ r. none;
  admit = λ r. none;
  finalize = λ a o. success;
  sha256 = λ text. text;
}

abbrev pub limits : Limits
limits = record {
  parallel = 2;
  queue_limit = 2;
  history = 1;
  queue_wait = 100;
  action_budget = 1000;
}

abbrev pub heap : ℕ → Action
heap n = record {
  request = request_of Kind.login [];
  line = [];
  state = State.queued;
  phase = none;
  message = Message.blank;
  code = none;
  result_json = [];
  queued_at = 0;
  started_at = 0;
  ended_at = 0;
  timings = [];
  worker_milliseconds = 0;
  sequence = 0;
  maintenance_deferred = false;
  connectivity = none;
  ordinal = 0;
  retired = false;
}

abbrev pub start : Coordinator
start = new heap limits

-- Both requests wait,
abbrev pub waiting_one : Coordinator
waiting_one = (on_submit (env_at 5) start login).0

abbrev pub waiting : Coordinator
waiting = (on_submit (env_at 6) waiting_one relogin).0

-- the first one runs,
abbrev pub working : Coordinator
working = dispatch (env_at 7) (expire (env_at 7) waiting)

-- and its worker reports.
abbrev pub report : Completion
report = record { id = 1; outcome = success; timings = []; worker_milliseconds = 3 }

abbrev pub done : Coordinator
done = on_finish (env_at 20) working report

Reach-waiting : Reach start waiting
unfolding new on_submit lookup
Reach-waiting =
    Reach.next (Reach.next Reach.here (Step.submitted (env_at 5) start login (omega arith)))
      (Step.submitted (env_at 6) waiting_one relogin (omega arith))

pub Reach-working : Reach start working
Reach-working = Reach.next Reach-waiting (Step.scheduled (env_at 7) waiting)

done_from_working : Reach working done
done_from_working = Reach.next Reach.here (Step.finished (env_at 20) working report (λ a o. refl))

pub Reach-done : Reach start done
Reach-done = Reach.next Reach-working (Step.finished (env_at 20) working report (λ a o. refl))

abbrev pub worker : Run
worker = record { line = codes "wan"; overdue = false; stopping = false }

pub first_works : find 1 working.running ≡ some worker
unfolding find new on_submit expire dispatch lookup insert bytes_eq erase remove
first_works = refl

second_waits : working.queue ≡ (2 ∷ [])
unfolding find new on_submit expire dispatch lookup insert bytes_eq erase remove
second_waits = refl
