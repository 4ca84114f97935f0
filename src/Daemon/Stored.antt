-- ===== src/Daemon/Stored.antt =====
-- The counters of the daemon over its main loop.
use fusg.Base.{
  ℕ, ◌+◌, ◌≤◌, ◌<◌, Bool, true, false, not, ◌&&◌, List, [], ◌∷◌, Option, none, some, ℤ, is_zero,
  if◌then◌else◌, refl, inl, inr, arith, Bool-cases,
}
use fusg.Word.{u64_mod}
use fusg.Db.Platform.{Platform}
use fusg.Db.State.{Db}
use fusg.Db.Lock.{db_flush}
use fusg.Daemon.State.{
  Mode, op_parse_file, op_help, op_parse_stdin, Daemon, Callback, Wait, Round, deliver, on_db,
}
use fusg.Daemon.Work.{
  Progress, waiting, finished, is_positive, reload_config, reload_if, select_input, is_retry,
  wait_input, periodic_db_flush, handle_events, after_timeout, fed, process, round_end, work_round,
  shut_down, work,
}
use fusg.Daemon.Counts.{
  CountsTo, Counts, CountsTo-bound, Counts-then, same-CountsTo, ready_of, ready_line, ready_in,
  ready_all, handle_events-Counts, fed-Counts, periodic_db_flush-Counts,
}

-- the same for a round, and for the loop
abbrev CountsRound : {F : Type 0} → ℕ → Daemon F → Option (Option (Daemon F)) → Type 0
CountsRound n s none = Unit
CountsRound n s (some none) = Unit
CountsRound n s (some (some s')) = CountsTo n s s'

abbrev pub CountsAll : {F : Type 0} → ℕ → Daemon F → Option (Progress F) → Type 0
CountsAll n s none = Unit
CountsAll n s (some (waiting s')) = CountsTo n s s'
CountsAll n s (some (finished s')) = CountsTo n s s'

module _ {F : Type 0} where
  select_input-CountsTo : (ws : List Wait) (s : Daemon F) → CountsTo 0 s (select_input ws s).1
  unfolding select_input
  select_input-CountsTo [] s = same-CountsTo s s refl refl
  select_input-CountsTo (w ∷ ws) s =
      let k = select_input-CountsTo ws (deliver w.signals s) in
      elim (Bool-cases (is_retry w (deliver w.signals s))) [
        | inl e ↦ rw e (record { processed = k.processed; stored = k.stored })
        | inr e ↦ rw e (same-CountsTo s (deliver w.signals s) refl refl)
      ]

  wait_input-CountsTo :
      (m : Mode) (ws : List Wait) (s : Daemon F) → CountsTo 0 s (wait_input m ws s).1
  wait_input-CountsTo op_parse_file ws s = same-CountsTo s s refl refl
  wait_input-CountsTo op_help ws s = select_input-CountsTo ws s
  wait_input-CountsTo op_parse_stdin ws s = select_input-CountsTo ws s

  reload_if-CountsTo : (b : Bool) (s : Daemon F) → CountsTo 0 s (reload_if b s)
  unfolding reload_config
  reload_if-CountsTo true s = same-CountsTo s (reload_config s) refl refl
  reload_if-CountsTo false s = same-CountsTo s s refl refl

  CountsTo-trans :
      (n m : ℕ) (s s1 s2 : Daemon F) → CountsTo n s s1 → CountsTo m s1 s2 → CountsTo (n + m) s s2
  CountsTo-trans n m s s1 s2 h k = record {
    processed = omega (arith, h.processed, k.processed);
    stored = omega (arith, h.stored, k.stored);
  }

module _ {F : Type 0} (p : Platform F) (path_max : ℕ) where
  after_timeout-Counts :
      (r : Round) (s : Daemon F)
      → s.events_processed + (ready_line r.aged + ready_of r.flushed) < u64_mod
      → Counts (ready_line r.aged + (ready_of r.flushed + 0)) s (after_timeout p path_max r s)
  after_timeout-Counts r s h =
      Counts-then (ready_line r.aged) (ready_of r.flushed + 0) s (fed p path_max r.aged s) _
        (fed-Counts p path_max r.aged s (omega (arith, h)))
        (λ s1 k.
          Counts-then (ready_of r.flushed) 0 s1 (handle_events p path_max r.flushed s1)
            (periodic_db_flush p r.now)
            (handle_events-Counts p path_max r.flushed s1 (omega (arith, h, k.processed)))
            (λ s2 j. periodic_db_flush-Counts p path_max r.now s2))

  Counts-bound :
      (n m : ℕ) (s : Daemon F) (x : Option (Daemon F)) → n ≤ m → Counts n s x → Counts m s x
  Counts-bound n m s none le h = tt
  Counts-bound n m s (some s') le h = CountsTo-bound n m s s' le h

  process-Counts :
      (retval : ℤ) (r : Round) (s : Daemon F)
      → s.events_processed + ready_in r < u64_mod
      → Counts (ready_in r) s (process p path_max retval r s)
  unfolding process
  process-Counts retval r s h =
      elim (Bool-cases (not s.stop && not s.received_sighup && is_positive retval)) [
        | inl e ↦ rw e (
            Counts-bound (ready_line r.line) (ready_in r) s (fed p path_max r.line s) (omega arith)
              (fed-Counts p path_max r.line s (omega (arith, h))))
        | inr e ↦ rw e (elim (Bool-cases (is_zero retval)) [
          | inl z ↦ rw z (
              Counts-bound (ready_line r.aged + (ready_of r.flushed + 0)) (ready_in r) s
                (after_timeout p path_max r s) (omega arith)
                (after_timeout-Counts r s (omega (arith, h))))
          | inr z ↦
              rw z (CountsTo-bound 0 (ready_in r) s s (omega arith) (same-CountsTo s s refl refl))
        ])
      ]

  -- behind the wait, which counts nothing
  round_end-CountsRound :
      (r : Round) (s : Daemon F) (x : Option ℤ × Daemon F)
      → s.events_processed + ready_in r < u64_mod
      → CountsTo 0 s x.1
      → CountsRound (ready_in r) s (round_end p path_max r x)
  round_end-CountsRound r s (none, s1) h k = tt
  round_end-CountsRound r s (some retval, s1) h k =
      go (process p path_max retval r s1)
        (process-Counts retval r s1 (omega (arith, h, k.processed)))
    where
      go :
          (y : Option (Daemon F))
          → Counts (ready_in r) s1 y
          → CountsRound
              (ready_in r)
              s
              (elim y [ none ↦ none | some s' ↦ some (some (deliver r.after s')) ])
      go none g = tt
      go (some s') g = record {
        processed = omega (arith, k.processed, g.processed);
        stored = omega (arith, k.stored, g.stored);
      }

  work_round-CountsRound :
      (r : Round) (s : Daemon F)
      → s.events_processed + ready_in r < u64_mod
      → CountsRound (ready_in r) s (work_round p path_max r s)
  unfolding work_round
  work_round-CountsRound r s h =
      let s1 = deliver r.before s in
      let s2 = reload_if s1.received_sighup s1 in
      let k = reload_if-CountsTo s1.received_sighup s1 in
      let j = wait_input-CountsTo s2.mode r.waits s2 in
      round_end-CountsRound r s (wait_input s2.mode r.waits s2) h (record {
        processed = omega (arith, k.processed, j.processed);
        stored = omega (arith, k.stored, j.stored);
      })

  shut_down-CountsAll :
      (last : List Callback) (s : Daemon F)
      → s.events_processed + ready_of last < u64_mod
      → CountsAll (ready_of last) s (shut_down p path_max last s)
  shut_down-CountsAll last s h =
      go (handle_events p path_max last s) (handle_events-Counts p path_max last s h)
    where
      flushed :
          (s1 : Daemon F)
          → CountsTo (ready_of last) s s1
          → (x : Option (ℤ × Db F))
          → CountsAll
              (ready_of last)
              s
              (elim (elim x as (λ _. Option (ℤ × Daemon F)) [
                | none ↦ none
                | some (a, d) ↦ some (a, record s1 { db = d })
              ]) [ none ↦ none | some (rc, s2) ↦ some (finished s2) ])
      flushed s1 k none = tt
      flushed s1 k (some (a, d)) = record { processed = k.processed; stored = k.stored }

      go :
          (y : Option (Daemon F))
          → Counts (ready_of last) s y
          → CountsAll (ready_of last) s (elim y [
            | none ↦ none
            | some s' ↦ (elim (on_db (db_flush p) s') [
              | none ↦ none
              | some (rc, s2) ↦ some (finished s2)
            ])
          ])
      go none g = tt
      go (some s') g = flushed s' g (db_flush p s'.db)

  CountsAll-then :
      (n m : ℕ) (s s' : Daemon F) (x : Option (Progress F))
      → CountsTo n s s'
      → CountsAll m s' x
      → CountsAll (n + m) s x
  CountsAll-then n m s s' none h k = tt
  CountsAll-then n m s s' (some (waiting s2)) h k = CountsTo-trans n m s s' s2 h k
  CountsAll-then n m s s' (some (finished s2)) h k = CountsTo-trans n m s s' s2 h k

  CountsAll-bound :
      (n m : ℕ) (s : Daemon F) (x : Option (Progress F)) → n ≤ m → CountsAll n s x → CountsAll m s x
  CountsAll-bound n m s none le h = tt
  CountsAll-bound n m s (some (waiting s')) le h = CountsTo-bound n m s s' le h
  CountsAll-bound n m s (some (finished s')) le h = CountsTo-bound n m s s' le h

  -- The main loop on any rounds, where it waits for input or ends: it has processed at most as many
  -- events as became ready, and of these stored at most as many as it processed, if the
  -- counter of processed events stays below 2 ^ 64.
  pub work-CountsAll :
      (rs : List Round) (last : List Callback) (s : Daemon F)
      → s.events_processed + (ready_all rs + ready_of last) < u64_mod
      → CountsAll (ready_all rs + ready_of last) s (work p path_max rs last s)
  unfolding work
  work-CountsAll [] last s h =
      CountsTo-bound 0 (ready_all [] + ready_of last) s s (omega arith)
        (same-CountsTo s s refl refl)
  work-CountsAll (r ∷ rs) last s h =
      go (work_round p path_max r s) (work_round-CountsRound r s (omega (arith, h)))
        (work-CountsAll rs last)
    where
      all : ℕ
      all = ready_all (r ∷ rs) + ready_of last

      go :
          (x : Option (Option (Daemon F)))
          → CountsRound (ready_in r) s x
          → ((s' : Daemon F)
              → s'.events_processed + (ready_all rs + ready_of last) < u64_mod
              → CountsAll (ready_all rs + ready_of last) s' (work p path_max rs last s'))
          → CountsAll all s (elim x [
            | none ↦ none
            | some none ↦ some (waiting s)
            | some (some s') ↦
                let rest = work p path_max rs last s' in
                if not r.eof && not s'.stop then rest else shut_down p path_max last s'
          ])
      go none g k = tt
      go (some none) g k = CountsTo-bound 0 all s s (omega arith) (same-CountsTo s s refl refl)
      go (some (some s')) g k = elim (Bool-cases (not r.eof && not s'.stop)) [
        | inl e ↦ rw e (
            CountsAll-bound (ready_in r + (ready_all rs + ready_of last)) all s
              (work p path_max rs last s') (omega arith)
              (CountsAll-then (ready_in r) (ready_all rs + ready_of last) s s'
                (work p path_max rs last s') g (k s' (omega (arith, h, g.processed)))))
        | inr e ↦ rw e (
            CountsAll-bound (ready_in r + ready_of last) all s (shut_down p path_max last s')
              (omega arith)
              (CountsAll-then (ready_in r) (ready_of last) s s' (shut_down p path_max last s') g
                (shut_down-CountsAll last s' (omega (arith, h, g.processed)))))
      ]
