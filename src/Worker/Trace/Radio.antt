-- ===== src/Worker/Trace/Radio.antt =====
-- The parts of a worker that move the radio send nothing.
use smart_srun.Prelude.{ℕ, Option, none, some, List, [], ◌∷◌, Bytes}
use smart_srun.Domain.Config.{Config, CampusAccount, HotspotProfile}
use smart_srun.Domain.Errors.{ErrorCode}
use smart_srun.Wifi.Select.{Association, Choice}
use smart_srun.Worker.World.{World, Tools}
use smart_srun.Worker.Trace.{adds}
use smart_srun.Worker.Trace.Quiet.{Quiet, invalidate_line-Quiet, next_generation-Quiet}
use smart_srun.Worker.Attempt.{Task, Verdict}
use smart_srun.Worker.Radio.{
  Destination, apply_choice, move_to, fail_back_to, fail_back, defer_on_hotspot, unconfirmed_line,
  move_campus, ensure_account, ensure_wireless_line, association_of,
}

module _ (W : World) (tools : Tools) where
  apply_choice-Quiet : (d : Destination) (c : Choice) → Quiet (apply_choice W tools d c)
  unfolding apply_choice
  apply_choice-Quiet d (Choice.refused e) = search adds
  apply_choice-Quiet d Choice.panics = search adds
  apply_choice-Quiet d (Choice.decided c) = search adds

  pub move_to-Quiet : (d : Destination) → Quiet (move_to W tools d)
  unfolding move_to
  move_to-Quiet d = search (adds, apply_choice-Quiet) depth 30

  fail_back_to-Quiet :
      (e : Option ErrorCode) (o : Option CampusAccount) → Quiet (fail_back_to W tools e o)
  fail_back_to-Quiet e none = search adds
  fail_back_to-Quiet e (some a) = search (adds, move_to-Quiet) depth 30

  pub fail_back-Quiet : (c : Config) (e : Option ErrorCode) → Quiet (fail_back W tools c e)
  unfolding fail_back
  fail_back-Quiet c e = search (adds, fail_back_to-Quiet)

  association_of-Quiet :
      (radio : Bytes) (o : Option Association) → Quiet (association_of W tools radio o)
  association_of-Quiet radio none = search adds
  association_of-Quiet radio (some a) = search adds

  pub defer_on_hotspot-Quiet :
      (a : CampusAccount) (seen : List (Bytes × Association)) (hs : List HotspotProfile)
      → Quiet (defer_on_hotspot W tools a seen hs)
  unfolding defer_on_hotspot
  defer_on_hotspot-Quiet a seen [] = search adds
  defer_on_hotspot-Quiet a seen (h ∷ hs) =
      let later = λ (seen : List (Bytes × Association)). defer_on_hotspot-Quiet a seen hs in
      search (adds, association_of-Quiet, later) depth 30

  unconfirmed_line-Quiet :
      (c : Config) (revision : ℕ) (t : Task) (a : CampusAccount) (g : ℕ) (v : Verdict)
      → Quiet (unconfirmed_line W tools c revision t a g v)
  unfolding unconfirmed_line
  unconfirmed_line-Quiet c revision t a g v = search (adds, invalidate_line-Quiet) depth 30

  move_campus-Quiet :
      (c : Config) (revision : ℕ) (t : Task) (a : CampusAccount) (g : ℕ) (o : Option Verdict)
      → Quiet (move_campus W tools c revision t a g o)
  unfolding move_campus
  move_campus-Quiet c revision t a g none =
      search (adds, unconfirmed_line-Quiet, move_to-Quiet) depth 30
  move_campus-Quiet c revision t a g (some v) = unconfirmed_line-Quiet c revision t a g v

  ensure_account-Quiet :
      (c : Config) (revision : ℕ) (t : Task) (o : Option CampusAccount)
      → Quiet (ensure_account W tools c revision t o)
  ensure_account-Quiet c revision t none = search adds
  ensure_account-Quiet c revision t (some a) =
      search (adds, next_generation-Quiet, defer_on_hotspot-Quiet, move_campus-Quiet) depth 30

  pub ensure_wireless_line-Quiet : (t : Task) → Quiet (ensure_wireless_line W tools t)
  unfolding ensure_wireless_line
  ensure_wireless_line-Quiet t = search (adds, ensure_account-Quiet) depth 30
