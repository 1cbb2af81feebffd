-- ===== src/Tests/Version.antt =====
-- Tests of the check of a router's versions.
use verkkokyyla.Mikrotik.Error.{unauthorized}
use verkkokyyla.Mikrotik.Version.Delivery.{IsCareful, run_version_probe-IsCareful}
use verkkokyyla.Mikrotik.Version.Probe.{poll_updates, probe_update, run_version_probe}
use verkkokyyla.Mikrotik.Version.{UpdateStatusDto, UpdateStatusResultDto, update_available, Probed}
use verkkokyyla.Prelude.Effects.{◌>>=◌}
use verkkokyyla.Prelude.Int.{pos}
use verkkokyyla.Prelude.Results.{ok, err}
use verkkokyyla.Prelude.Text.{Text, codes}
use verkkokyyla.Prelude.{ℕ, ◌+◌, ◌≡◌, refl, true, none, some, ltb, if◌then◌else◌}

abbrev status_of : Text → UpdateStatusDto
status_of status = record {
  installed_version = some (codes "7.1");
  latest_version = some (codes "7.2");
  channel = none;
  status = some status;
}

-- The router looks for updates for a while; the world is the clock.
abbrev checking : Probed ℕ
checking = record {
  check_for_updates = λ w. (ok (status_of (codes "checking...")), w);
  get_update_status = λ w. (
    ok (status_of (if ltb w 3_000 then codes "checking..." else codes "new version is available")),
    w,
  );
  get_routerboard = λ w. (err unauthorized, w);
  sleep = λ d w. w + d;
  is_live = λ id w. true;
  set_version_status = λ id update firmware w. (ok tt, w);
  update_json = λ r. ok (codes "u");
  firmware_json = λ r. ok (codes "f");
  lower = λ t. t;
}

abbrev available : UpdateStatusResultDto
available = record {
  installed_version = some (codes "7.1");
  latest_version = some (codes "7.2");
  channel = none;
  status = codes "new version is available";
  state = update_available;
}

polls_example : (probe_update checking 0).result ≡ some (ok available)
unfolding probe_update poll_updates ◌>>=◌
polls_example = refl

run_version_probe-IsCareful_example :
    IsCareful checking (pos 5) 0 (run_version_probe checking (pos 5) 0)
run_version_probe-IsCareful_example = run_version_probe-IsCareful checking (pos 5) 0
