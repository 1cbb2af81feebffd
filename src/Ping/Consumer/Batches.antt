-- ===== src/Ping/Consumer/Batches.antt =====
-- The batches against the probes that came in.
use mathlib.Core.List.{append_assoc, append-nil}
use verkkokyyla.Ping.Consumer.{
  flush_batch_size, ProbeRow, ProbeEvent, Effect, probe_event, insert_probes_batch, error_status,
  Input, received, ticked, Consumer, map_probe, flush_batch, take, take_all, consume_probes,
}
use verkkokyyla.Ping.Loop.{LoopProbe}
use verkkokyyla.Ping.Stats.{Floats, StatsEngine}
use verkkokyyla.Prelude.Text.{Text}
use verkkokyyla.Prelude.{
  ℕ, ◌+◌, ◌≤◌, ◌<◌, ◌≡◌, refl, sym, ap, ◌∙◌, Bool, List, [], ◌∷◌, ◌++◌, arith, length, leb,
  if◌then◌else◌, Bool-cases, inl, inr, length-append,
}

-- The rows of all the inserts, in order.
abbrev pub attempted : {F : Type 0} → List (Effect F) → List (ProbeRow F)
attempted [] = []
attempted (insert_probes_batch rows ∷ log) = rows ++ attempted log
attempted (probe_event e ∷ log) = attempted log
attempted (error_status ∷ log) = attempted log

abbrev pub events : {F : Type 0} → List (Effect F) → List (ProbeEvent F)
events [] = []
events (probe_event e ∷ log) = e ∷ events log
events (insert_probes_batch rows ∷ log) = events log
events (error_status ∷ log) = events log

abbrev pub errors : {F : Type 0} → List (Effect F) → ℕ
errors [] = 0
errors (error_status ∷ log) = errors log + 1
errors (insert_probes_batch rows ∷ log) = errors log
errors (probe_event e ∷ log) = errors log

-- The probes among the inputs.
abbrev pub probes_of : List Input → List LoopProbe
probes_of [] = []
probes_of (received probe ∷ is) = probe ∷ probes_of is
probes_of (ticked ∷ is) = probes_of is

attempted-append :
    {F : Type 0} (xs ys : List (Effect F)) → attempted (xs ++ ys) ≡ attempted xs ++ attempted ys
attempted-append [] ys = refl
attempted-append (insert_probes_batch rows ∷ xs) ys =
    ap (λ zs. rows ++ zs) (attempted-append xs ys) ∙ sym (append_assoc rows _ _)
attempted-append (probe_event e ∷ xs) ys = attempted-append xs ys
attempted-append (error_status ∷ xs) ys = attempted-append xs ys

events-append : {F : Type 0} (xs ys : List (Effect F)) → events (xs ++ ys) ≡ events xs ++ events ys
events-append [] ys = refl
events-append (probe_event e ∷ xs) ys = ap (λ zs. e ∷ zs) (events-append xs ys)
events-append (insert_probes_batch rows ∷ xs) ys = events-append xs ys
events-append (error_status ∷ xs) ys = events-append xs ys

errors-append : {F : Type 0} (xs ys : List (Effect F)) → errors (xs ++ ys) ≡ errors xs + errors ys
errors-append [] ys = omega arith
errors-append (error_status ∷ xs) ys = omega (arith, errors-append xs ys)
errors-append (insert_probes_batch rows ∷ xs) ys = errors-append xs ys
errors-append (probe_event e ∷ xs) ys = errors-append xs ys

module _ {F : Type 0} (f : Floats F) (stamp now : ℕ → Text)
    (insert_ok : List (ProbeRow F) → Bool) where
  abbrev pub rows_of : List LoopProbe → List (ProbeRow F)
  rows_of [] = []
  rows_of (p ∷ ps) = (map_probe f stamp now p.seq p.result).1 ∷ rows_of ps

  abbrev pub events_of : List LoopProbe → List (ProbeEvent F)
  events_of [] = []
  events_of (p ∷ ps) = (map_probe f stamp now p.seq p.result).2 ∷ events_of ps

  -- The inserts that the database refuses.
  abbrev pub refused : List (Effect F) → ℕ
  refused [] = 0
  refused (insert_probes_batch rows ∷ log) = if insert_ok rows then refused log else refused log + 1
  refused (probe_event e ∷ log) = refused log
  refused (error_status ∷ log) = refused log

  -- Every insert has between 1 and 50 rows.
  abbrev pub AreBatches : List (Effect F) → Type 0
  AreBatches [] = Unit
  AreBatches (insert_probes_batch rows ∷ log) =
      (0 < length rows) × (length rows ≤ flush_batch_size) × AreBatches log
  AreBatches (probe_event e ∷ log) = AreBatches log
  AreBatches (error_status ∷ log) = AreBatches log

  AreBatches-append :
      (xs ys : List (Effect F)) → AreBatches xs → AreBatches ys → AreBatches (xs ++ ys)
  AreBatches-append [] ys v w = w
  AreBatches-append (insert_probes_batch rows ∷ xs) ys v w =
      (v.0, v.1, AreBatches-append xs ys v.2 w)
  AreBatches-append (probe_event e ∷ xs) ys v w = AreBatches-append xs ys v w
  AreBatches-append (error_status ∷ xs) ys v w = AreBatches-append xs ys v w

  refused-append : (xs ys : List (Effect F)) → refused (xs ++ ys) ≡ refused xs + refused ys
  refused-append [] ys = omega arith
  refused-append (insert_probes_batch rows ∷ xs) ys = ground (arith, refused-append xs ys)
  refused-append (probe_event e ∷ xs) ys = refused-append xs ys
  refused-append (error_status ∷ xs) ys = refused-append xs ys

  -- What some effects do with pending rows: they insert `before`, and `after` is left.
  pub record Moves (before : List (ProbeRow F)) (probes : List LoopProbe) (log : List (Effect F))
      (after : List (ProbeRow F)) : Type 0 where
    pub rows_eq : attempted log ++ after ≡ before ++ rows_of probes
    pub events_eq : events log ≡ events_of probes
    pub errors_eq : errors log ≡ refused log
    pub batches : AreBatches log

  flush-Moves :
      (rows : List (ProbeRow F))
      → length rows ≤ flush_batch_size
      → Moves rows [] (flush_batch f stamp now insert_ok rows) []
  unfolding flush_batch
  flush-Moves [] h = record { rows_eq = refl; events_eq = refl; errors_eq = refl; batches = tt }
  flush-Moves (row ∷ rows) h = elim (Bool-cases (insert_ok (row ∷ rows))) [
    | inl e ↦ rw e (record {
      rows_eq = append-nil ((row ∷ rows) ++ []);
      events_eq = refl;
      errors_eq = rw e refl;
      batches = (omega arith, h, tt);
    })
    | inr e ↦ rw e (record {
      rows_eq = append-nil ((row ∷ rows) ++ []);
      events_eq = refl;
      errors_eq = rw e refl;
      batches = (omega arith, h, tt);
    })
  ]

  rows_of-append : (ps qs : List LoopProbe) → rows_of (ps ++ qs) ≡ rows_of ps ++ rows_of qs
  rows_of-append [] qs = refl
  rows_of-append (p ∷ ps) qs =
      ap (λ zs. (map_probe f stamp now p.seq p.result).1 ∷ zs) (rows_of-append ps qs)

  events_of-append : (ps qs : List LoopProbe) → events_of (ps ++ qs) ≡ events_of ps ++ events_of qs
  events_of-append [] qs = refl
  events_of-append (p ∷ ps) qs =
      ap (λ zs. (map_probe f stamp now p.seq p.result).2 ∷ zs) (events_of-append ps qs)

  Moves-trans :
      {a b c : List (ProbeRow F)} {ps qs : List LoopProbe} {log more : List (Effect F)}
      → Moves a ps log b
      → Moves b qs more c
      → Moves a (ps ++ qs) (log ++ more) c
  Moves-trans {a = a} {b = b} {c = c} {ps = ps} {qs = qs} {log = log} {more = more} m n = record {
    rows_eq =
        ap (λ zs. zs ++ c) (attempted-append log more)
        ∙ append_assoc (attempted log) (attempted more) c
        ∙ ap (λ zs. attempted log ++ zs) n.rows_eq
        ∙ sym (append_assoc (attempted log) b (rows_of qs))
        ∙ ap (λ zs. zs ++ rows_of qs) m.rows_eq
        ∙ append_assoc a (rows_of ps) (rows_of qs)
        ∙ ap (λ zs. a ++ zs) (sym (rows_of-append ps qs));
    events_eq =
        events-append log more
        ∙ ap (λ zs. zs ++ events more) m.events_eq
        ∙ ap (λ zs. events_of ps ++ zs) n.events_eq
        ∙ sym (events_of-append ps qs);
    errors_eq =
        omega (arith, errors-append log more, refused-append log more, m.errors_eq, n.errors_eq);
    batches = AreBatches-append log more m.batches n.batches;
  }

  -- A probe joins the pending rows.
  received-Moves :
      (rows : List (ProbeRow F)) (p : LoopProbe)
      → Moves rows
          (p ∷ [])
          (probe_event (map_probe f stamp now p.seq p.result).2 ∷ [])
          (rows ++ (map_probe f stamp now p.seq p.result).1 ∷ [])
  received-Moves rows p = record {
    rows_eq = refl;
    events_eq = refl;
    errors_eq = refl;
    batches = tt;
  }

  take-Moves :
      (c : Consumer F) (i : Input)
      → length c.batch < flush_batch_size
      → Moves c.batch
          (probes_of (i ∷ []))
          (take f stamp now insert_ok c i).1
          (take f stamp now insert_ok c i).0.batch
        × (length (take f stamp now insert_ok c i).0.batch < flush_batch_size)
  unfolding take
  take-Moves c ticked room = (flush-Moves c.batch (omega (arith, room)), omega arith)
  take-Moves c (received p) room =
      let row = (map_probe f stamp now p.seq p.result).1 in
      let grown : length (c.batch ++ row ∷ []) ≡ length c.batch + 1 =
        length-append c.batch (row ∷ []) in
      elim (Bool-cases (leb flush_batch_size (length (c.batch ++ row ∷ [])))) [
        | inl full ↦ rw full (
          Moves-trans (received-Moves c.batch p)
              (flush-Moves (c.batch ++ row ∷ []) (omega (arith, grown, room))),
          omega arith,
        )
        | inr free ↦ rw free (received-Moves c.batch p, ground (arith, free))
      ]

  probes_of-cons :
      (i : Input) (is : List Input) → probes_of (i ∷ is) ≡ probes_of (i ∷ []) ++ probes_of is
  probes_of-cons (received p) is = refl
  probes_of-cons ticked is = refl

  -- Before the channel closes, whatever came in: the rows of the inserts and the pending ones are
  -- the rows of the probes, each once and in order, and fewer than 50 are pending. Every insert has
  -- 1 to 50 rows, every probe had its event, and there is an error for each refused insert.
  pub take_all-Moves :
      (c : Consumer F) (is : List Input)
      → length c.batch < flush_batch_size
      → Moves c.batch
          (probes_of is)
          (take_all f stamp now insert_ok c is).1
          (take_all f stamp now insert_ok c is).0.batch
        × (length (take_all f stamp now insert_ok c is).0.batch < flush_batch_size)
  unfolding take_all
  take_all-Moves c [] room = (
    record { rows_eq = sym (append-nil _); events_eq = refl; errors_eq = refl; batches = tt },
    room,
  )
  take_all-Moves c (i ∷ is) room =
      let (here, kept) = take-Moves c i room in
      let (later, left) = take_all-Moves (take f stamp now insert_ok c i).0 is kept in
      (rw probes_of-cons (Moves-trans here later), left)

  -- After the channel closed, nothing is pending.
  pub consume_probes-Moves :
      (stats : StatsEngine F) (is : List Input)
      → Moves [] (probes_of is) (consume_probes f stamp now insert_ok stats is).1 []
  unfolding consume_probes
  consume_probes-Moves stats is =
      let (ran, left) = take_all-Moves (record { batch = []; stats = stats }) is (omega arith) in
      let final =
        flush-Moves
          (take_all f stamp now insert_ok (record { batch = []; stats = stats }) is).0.batch
          (omega (arith, left)) in
      rw (← append-nil (probes_of is)) (Moves-trans ran final)
