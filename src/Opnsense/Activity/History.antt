-- ===== src/Opnsense/Activity/History.antt =====
-- The registry after a history of sessions that begin and end.
use verkkokyyla.Opnsense.Activity.Counts.{
  count, IsRegistry, enter-IsRegistry, exit-IsRegistry, contains_key_iff, count-enter, count-exit,
}
use verkkokyyla.Opnsense.Activity.{
  Sessions, OpnsenseActivity, no_activity, is_active, monitor_enter, monitor_exit, log_enter,
  log_exit, terminal_enter, terminal_exit,
}
use verkkokyyla.Prelude.{
  ℕ, ◌+◌, ◌-◌, ◌≡◌, refl, Bool, true, false, ◌&&◌, ◌||◌, List, [], ◌∷◌, ltb, ◌==◌, if◌then◌else◌,
}

pub data Kind : Type 0 where
  monitor log terminal : Kind

-- A session of this kind begins or ends for a profile.
pub data Event : Type 0 where
  enters exits : Kind → ℕ → Event

unfoldable pub step : OpnsenseActivity → Event → OpnsenseActivity
step a (enters monitor p) = monitor_enter a p
step a (enters log p) = log_enter a p
step a (enters terminal p) = terminal_enter a p
step a (exits monitor p) = monitor_exit a p
step a (exits log p) = log_exit a p
step a (exits terminal p) = terminal_exit a p

unfoldable pub run : OpnsenseActivity → List Event → OpnsenseActivity
run a [] = a
run a (e ∷ es) = run (step a e) es

-- The map of a kind.
abbrev sessions : Kind → OpnsenseActivity → Sessions
sessions monitor a = a.monitors
sessions log a = a.logs
sessions terminal a = a.terminals

abbrev same_kind : Kind → Kind → Bool
same_kind monitor monitor = true
same_kind log log = true
same_kind terminal terminal = true
same_kind _ _ = false

-- The specification: how many sessions of a kind a profile has after one more event, and after a
-- history. An end with no session open counts nothing.
abbrev pub tally : Kind → ℕ → ℕ → Event → ℕ
tally k p n (enters j q) = if same_kind j k && (q == p) then n + 1 else n
tally k p n (exits j q) = if same_kind j k && (q == p) then n - 1 else n

abbrev pub live : Kind → ℕ → ℕ → List Event → ℕ
live k p n [] = n
live k p n (e ∷ es) = live k p (tally k p n e) es

abbrev AreRegistries : OpnsenseActivity → Type 0
AreRegistries a = IsRegistry a.monitors × IsRegistry a.logs × IsRegistry a.terminals

step-AreRegistries : (a : OpnsenseActivity) (e : Event) → AreRegistries a → AreRegistries (step a e)
unfolding step monitor_enter monitor_exit log_enter log_exit terminal_enter terminal_exit
step-AreRegistries a (enters monitor p) v = (enter-IsRegistry a.monitors p v.0, v.1, v.2)
step-AreRegistries a (enters log p) v = (v.0, enter-IsRegistry a.logs p v.1, v.2)
step-AreRegistries a (enters terminal p) v = (v.0, v.1, enter-IsRegistry a.terminals p v.2)
step-AreRegistries a (exits monitor p) v = (exit-IsRegistry a.monitors p v.0, v.1, v.2)
step-AreRegistries a (exits log p) v = (v.0, exit-IsRegistry a.logs p v.1, v.2)
step-AreRegistries a (exits terminal p) v = (v.0, v.1, exit-IsRegistry a.terminals p v.2)

step-tally :
    (k : Kind) (p : ℕ) (a : OpnsenseActivity) (e : Event)
    → AreRegistries a
    → count p (sessions k (step a e)) ≡ tally k p (count p (sessions k a)) e
unfolding step monitor_enter monitor_exit log_enter log_exit terminal_enter terminal_exit
step-tally monitor p a (enters monitor q) v = count-enter a.monitors q p
step-tally log p a (enters log q) v = count-enter a.logs q p
step-tally terminal p a (enters terminal q) v = count-enter a.terminals q p
step-tally monitor p a (exits monitor q) v = count-exit a.monitors q p v.0
step-tally log p a (exits log q) v = count-exit a.logs q p v.1
step-tally terminal p a (exits terminal q) v = count-exit a.terminals q p v.2
step-tally monitor p a (enters log q) v = refl
step-tally monitor p a (enters terminal q) v = refl
step-tally monitor p a (exits log q) v = refl
step-tally monitor p a (exits terminal q) v = refl
step-tally log p a (enters monitor q) v = refl
step-tally log p a (enters terminal q) v = refl
step-tally log p a (exits monitor q) v = refl
step-tally log p a (exits terminal q) v = refl
step-tally terminal p a (enters monitor q) v = refl
step-tally terminal p a (enters log q) v = refl
step-tally terminal p a (exits monitor q) v = refl
step-tally terminal p a (exits log q) v = refl

run-live :
    (k : Kind) (p : ℕ) (a : OpnsenseActivity) (es : List Event)
    → AreRegistries a
    → count p (sessions k (run a es)) ≡ live k p (count p (sessions k a)) es
unfolding run
run-live k p a [] v = refl
run-live k p a (e ∷ es) v =
    rw (← step-tally k p a e v) (run-live k p (step a e) es (step-AreRegistries a e v))

run-AreRegistries :
    (a : OpnsenseActivity) (es : List Event) → AreRegistries a → AreRegistries (run a es)
unfolding run
run-AreRegistries a [] v = v
run-AreRegistries a (e ∷ es) v = run-AreRegistries (step a e) es (step-AreRegistries a e v)

no_activity-AreRegistries : AreRegistries no_activity
no_activity-AreRegistries = (
  record { distinct = tt; counted = tt },
  record { distinct = tt; counted = tt },
  record { distinct = tt; counted = tt },
)

-- After any history of beginnings and ends, of all kinds and profiles, a profile counts as active
-- exactly if a monitor, a log stream or a terminal of it is still open.
pub run-is_active :
    (p : ℕ) (es : List Event)
    → is_active (run no_activity es) p
      ≡ (ltb 0 (live monitor p 0 es) || ltb 0 (live log p 0 es) || ltb 0 (live terminal p 0 es))
unfolding is_active
run-is_active p es =
    let v = run-AreRegistries no_activity es no_activity-AreRegistries in
    let a = run no_activity es in
    rw (
      contains_key_iff a.monitors p v.0.counted,
      contains_key_iff a.logs p v.1.counted,
      contains_key_iff a.terminals p v.2.counted,
      run-live monitor p no_activity es no_activity-AreRegistries,
      run-live log p no_activity es no_activity-AreRegistries,
      run-live terminal p no_activity es no_activity-AreRegistries,
    )
