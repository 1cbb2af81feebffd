-- ===== src/Ping/Manager/Starts.antt =====
-- The engine that a start chooses, and the sessions that it adds to.
use verkkokyyla.Ping.Manager.{
  EngineChoice, primary, fallback, EngineError, parse, resolve, no_answer, socket, unavailable,
  SessionError, engine_error, session_of, Family, parse_family, as_session_error, built,
  after_primary, select_engine, Active, StatusEvent, engine_selected, StartInfo, Answers, start,
}
use verkkokyyla.Ping.Stats.{Floats, new_stats}
use verkkokyyla.Prelude.Assoc.{get, insert, get-insert}
use verkkokyyla.Prelude.Results.{Result, ok, err, ◌>>=◌}
use verkkokyyla.Prelude.Text.{Text}
use verkkokyyla.Prelude.{
  ℕ, ◌≡◌, ◌↔◌, ◌⊎◌, inl, inr, refl, Bool, true, false, ◌&&◌, List, [], ◌∷◌, Option, none, some,
  ◌==◌, if◌then◌else◌, Bool-cases,
}

abbrev pub Factory : Type 0
Factory = EngineChoice → Result EngineError (Unit {0})

-- When the fallback is the right engine: the raw socket cannot forbid fragments on IPv4, or is not
-- permitted.
abbrev pub WantsFallback : Bool → Bool → Factory → Type 0
WantsFallback is_ipv4 dont_fragment factory =
    ((dont_fragment && is_ipv4) ≡ true) ⊎ (factory primary ≡ err (socket true))

-- A choice has a working engine and is the fallback exactly when it is wanted; an error is that of
-- an engine.
abbrev pub IsRightChoice : Bool → Bool → Factory → Result SessionError EngineChoice → Type 0
IsRightChoice is_ipv4 dont_fragment factory (ok choice) =
    (factory choice ≡ ok tt) × ((choice ≡ fallback) ↔ WantsFallback is_ipv4 dont_fragment factory)
IsRightChoice is_ipv4 dont_fragment factory (err e) =
    (c : EngineChoice) × (x : EngineError) × (factory c ≡ err x) × (e ≡ engine_error x)

built-IsRightChoice :
    (v df : Bool) (factory : Factory)
    → WantsFallback v df factory
    → IsRightChoice v df factory (built factory fallback)
built-IsRightChoice v df factory wants = at (factory fallback) refl
  where
    at :
        (r : Result EngineError (Unit {0}))
        → factory fallback ≡ r
        → IsRightChoice v df factory (as_session_error r >>= (λ engine. ok fallback))
    at (ok u) e = (e, ((λ h. wants), λ h. refl))
    at (err x) e = (fallback, x, e, refl)

after_primary-IsRightChoice :
    (v df : Bool) (factory : Factory) (r : Result EngineError (Unit {0}))
    → (df && v) ≡ false
    → factory primary ≡ r
    → IsRightChoice v df factory (after_primary factory r)
after_primary-IsRightChoice v df factory (ok u) plain e =
    (e, ((λ h. cc), λ h. elim h [ inl a ↦ cc | inr b ↦ cc ]))
after_primary-IsRightChoice v df factory (err (socket true)) plain e =
    built-IsRightChoice v df factory (inr e)
after_primary-IsRightChoice v df factory (err (socket false)) plain e =
    (primary, socket false, e, refl)
after_primary-IsRightChoice v df factory (err parse) plain e = (primary, parse, e, refl)
after_primary-IsRightChoice v df factory (err (resolve input)) plain e =
    (primary, resolve input, e, refl)
after_primary-IsRightChoice v df factory (err (no_answer input)) plain e =
    (primary, no_answer input, e, refl)
after_primary-IsRightChoice v df factory (err (unavailable what)) plain e =
    (primary, unavailable what, e, refl)

-- A session gets a working engine: the fallback exactly when a DF probe of an IPv4 address is asked
-- for or the primary engine's socket is not permitted. An error is that of one of the engines.
select_engine-IsRightChoice :
    (is_ipv4 dont_fragment : Bool) (factory : Factory)
    → IsRightChoice is_ipv4 dont_fragment factory (select_engine is_ipv4 dont_fragment factory)
unfolding select_engine
select_engine-IsRightChoice v df factory = elim (Bool-cases (df && v)) [
  | inl raw ↦ rw raw (built-IsRightChoice v df factory (inl raw))
  | inr plain ↦ rw plain (after_primary-IsRightChoice v df factory (factory primary) plain refl)
]

module _ {F : Type 0} (f : Floats F) where
  -- What a start with these live sessions has to do with one that has others.
  abbrev pub Adds :
      Active F
      → Active F
      → Result SessionError (StartInfo × List StatusEvent × Active F)
      → Result SessionError (StartInfo × List StatusEvent × Active F)
      → Type 0
  Adds active other (err e) there = there ≡ err e
  Adds active other (ok (info, log, next)) there =
      (log ≡ engine_selected info.engine info.fallback ∷ [])
      × ((q : ℕ)
          → get q next ≡ (
              if info.session_id == q
              then some (record { session_id = info.session_id; stats = new_stats f })
              else get q active))
      × ((later : Active F) × (there ≡ ok (info, log, later)))

  session_of-Adds :
      (active other : Active F) (selected : Result SessionError EngineChoice) (created : Option ℕ)
      → Adds active other
          (session_of f active selected created)
          (session_of f other selected created)
  session_of-Adds active other (err e) created = refl
  session_of-Adds active other (ok c) none = refl
  session_of-Adds active other (ok c) (some id) =
      (refl, (λ q. get-insert id q _ active), (insert id _ other, refl))

  -- What a start gives does not depend on the sessions that are live: it never refuses for one, and
  -- when it succeeds its session is added to them, with empty statistics.
  start-Adds :
      (active other : Active F) (family : Text) (dont_fragment : Bool) (a : Answers)
      → Adds active other
          (start f active family dont_fragment a)
          (start f other family dont_fragment a)
  unfolding start
  start-Adds active other family df a = at (parse_family family) a.resolved
    where
      at :
          (parsed : Result SessionError Family) (resolved : Result EngineError Bool)
          → Adds active other
              (parsed >>= (λ w.
                as_session_error resolved
                >>= (λ v. session_of f active (select_engine v df a.factory) a.created)))
              (parsed >>= (λ w.
                as_session_error resolved
                >>= (λ v. session_of f other (select_engine v df a.factory) a.created)))
      at (err e) resolved = refl
      at (ok w) (err e) = refl
      at (ok w) (ok v) = session_of-Adds active other (select_engine v df a.factory) a.created
