-- ===== src/Daemon/Still.antt =====
-- The main loop of sources/fusgd/src/work.c leaves the files of the database open and its lock accounted
-- for, whatever gdbm and flock answer.
use fusg.Base.{
  ℕ, ◌+◌, ◌%◌, not, ◌&&◌, List, [], ◌∷◌, Option, none, some, ℤ, is_zero, ltb, ◌==◌, if◌then◌else◌,
  ◌≡◌, inl, inr, Bool-cases,
}
use fusg.Word.{u64_mod}
use fusg.Db.Platform.{Platform}
use fusg.Db.State.{OpenFlags, Db, M}
use fusg.Db.Lock.{db_flush}
use fusg.Db.Still.{IsStill, StillAfter, Keeps}
use fusg.Db.Still.Update.{db_flush-Keeps}
use fusg.Events.Store.{store_event}
use fusg.Events.Still.{store_event-Keeps}
use fusg.Daemon.Planned.{daemon_of}
use fusg.Daemon.Same.{wait_input-SameStore, reload_if-SameStore}
use fusg.Daemon.State.{Daemon, Callback, Round, deliver, on_db}
use fusg.Daemon.Work.{
  Progress, waiting, finished, counted, after_store, handle_event, handle_events, fed,
  periodic_db_flush, time_flush_period, wait_input, reload_if, is_positive, after_timeout, process,
  round_end, work_round, shut_down, work,
}

-- the database of a daemon, where it goes on
abbrev pub DbStill : {F X : Type 0} → OpenFlags → (X → Daemon F) → Option X → Type 0
DbStill flags daemon none = Unit
DbStill flags daemon (some x) = IsStill flags (daemon x).db

abbrev pub itself : {F : Type 0} → Daemon F → Daemon F
itself s = s

module _ {F : Type 0} (p : Platform F) (path_max : ℕ) (flags : OpenFlags) where
  handle_event-DbStill :
      (c : Callback) (s : Daemon F)
      → IsStill flags s.db
      → DbStill flags itself (handle_event p path_max c s)
  unfolding handle_event
  handle_event-DbStill c s h = elim (Bool-cases c.ready) [
    | inr e ↦ rw e h
    | inl e ↦ rw e (
        go (store_event p path_max c.audit s.events_stored s.db)
          (store_event-Keeps p path_max flags c.audit s.events_stored s.db h))
  ]
    where
      go :
          (x : Option ((ℤ × ℕ) × Db F))
          → StillAfter flags x
          → DbStill flags itself (
              after_store c.now (elim x as (λ _. Option ((ℤ × ℕ) × Daemon F)) [
                | none ↦ none
                | some (a, d) ↦ some (a, record (counted s) { db = d })
              ]))
      go none k = tt
      go (some ((rc, n), d)) k =
          elim (Bool-cases ((s.events_processed + 1) % u64_mod % 1000 == 0)) [
            | inl z ↦ rw z k
            | inr z ↦ rw z k
          ]

  handle_events-DbStill :
      (cs : List Callback) (s : Daemon F)
      → IsStill flags s.db
      → DbStill flags itself (handle_events p path_max cs s)
  handle_events-DbStill [] s h = h
  handle_events-DbStill (c ∷ cs) s h =
      go (handle_event p path_max c s) (handle_event-DbStill c s h) (handle_events-DbStill cs)
    where
      go :
          (x : Option (Daemon F))
          → DbStill flags itself x
          → ((s' : Daemon F)
              → IsStill flags s'.db
              → DbStill flags itself (handle_events p path_max cs s'))
          → DbStill flags itself (elim x as (λ _. Option (Daemon F)) [
            | none ↦ none
            | some s' ↦ handle_events p path_max cs s'
          ])
      go none k ih = tt
      go (some s') k ih = ih s' k

  fed-DbStill :
      (o : Option (List Callback)) (s : Daemon F)
      → IsStill flags s.db
      → DbStill flags itself (fed p path_max o s)
  fed-DbStill none s h = h
  fed-DbStill (some cs) s h = handle_events-DbStill cs s h

  -- an action of the database, with what follows it
  on_db-DbStill :
      {A X : Type 0} (daemon : X → Daemon F) (f : A → Daemon F → X) (m : M F A) (s : Daemon F)
      → Keeps flags m
      → IsStill flags s.db
      → ((a : A) (s' : Daemon F) → IsStill flags s'.db → IsStill flags (daemon (f a s')).db)
      → DbStill flags daemon
          (elim (on_db m s) as (λ _. Option X) [ none ↦ none | some (a, s') ↦ some (f a s') ])
  on_db-DbStill {A} {X} daemon f m s k h g = go (m s.db) (k s.db h)
    where
      go :
          (x : Option (A × Db F))
          → StillAfter flags x
          → DbStill flags daemon
              (elim (elim x as (λ _. Option (A × Daemon F)) [
                | none ↦ none
                | some (a, d) ↦ some (a, record s { db = d })
              ])
                as (λ _. Option X) [ none ↦ none | some (a, s') ↦ some (f a s') ])
      go none r = tt
      go (some (a, d)) r = g a (record s { db = d }) r

  periodic_db_flush-DbStill :
      (now : ℕ) (s : Daemon F)
      → IsStill flags s.db
      → DbStill flags itself (periodic_db_flush p now s)
  unfolding periodic_db_flush
  periodic_db_flush-DbStill now s h =
      elim (Bool-cases (ltb (s.time_last_flush + time_flush_period) now)) [
        | inr e ↦ rw e h
        | inl e ↦ rw e (
            on_db-DbStill itself (λ _ s'. s') (db_flush p) (record s { time_last_flush = now })
              (db_flush-Keeps p flags) h (λ a s' k. k))
      ]

  after_timeout-DbStill :
      (r : Round) (s : Daemon F)
      → IsStill flags s.db
      → DbStill flags itself (after_timeout p path_max r s)
  after_timeout-DbStill r s h = aged (fed p path_max r.aged s) (fed-DbStill r.aged s h)
    where
      flushed :
          (y : Option (Daemon F))
          → DbStill flags itself y
          → DbStill flags itself (elim y as (λ _. Option (Daemon F)) [
            | none ↦ none
            | some s2 ↦ periodic_db_flush p r.now s2
          ])
      flushed none k = tt
      flushed (some s2) k = periodic_db_flush-DbStill r.now s2 k

      aged :
          (x : Option (Daemon F))
          → DbStill flags itself x
          → DbStill flags itself (elim x as (λ _. Option (Daemon F)) [
            | none ↦ none
            | some s1 ↦ (elim (handle_events p path_max r.flushed s1) [
              | none ↦ none
              | some s2 ↦ periodic_db_flush p r.now s2
            ])
          ])
      aged none k = tt
      aged (some s1) k =
          flushed (handle_events p path_max r.flushed s1) (handle_events-DbStill r.flushed s1 k)

  process-DbStill :
      (v : ℤ) (r : Round) (s : Daemon F)
      → IsStill flags s.db
      → DbStill flags itself (process p path_max v r s)
  unfolding process
  process-DbStill v r s h =
      elim (Bool-cases (not s.stop && not s.received_sighup && is_positive v)) [
        | inl e ↦ rw e (fed-DbStill r.line s h)
        | inr e ↦ rw e (elim (Bool-cases (is_zero v)) [
          | inl z ↦ rw z (after_timeout-DbStill r s h)
          | inr z ↦ rw z h
        ])
      ]

  -- the daemon behind a round, where it goes on
  abbrev RoundStill : Option (Option (Daemon F)) → Type 0
  RoundStill none = Unit
  RoundStill (some none) = Unit
  RoundStill (some (some s)) = IsStill flags s.db

  round_end-RoundStill :
      (r : Round) (x : Option ℤ × Daemon F)
      → IsStill flags x.1.db
      → RoundStill (round_end p path_max r x)
  round_end-RoundStill r (none, s) h = tt
  round_end-RoundStill r (some v, s) h = go (process p path_max v r s) (process-DbStill v r s h)
    where
      go :
          (x : Option (Daemon F))
          → DbStill flags itself x
          → RoundStill (elim x as (λ _. Option (Option (Daemon F))) [
            | none ↦ none
            | some s' ↦ some (some (deliver r.after s'))
          ])
      go none k = tt
      go (some s') k = k

  IsStill-behind : (s s' : Daemon F) → s'.db ≡ s.db → IsStill flags s.db → IsStill flags s'.db
  IsStill-behind s s' e h = rw e h

  work_round-RoundStill :
      (r : Round) (s : Daemon F) → IsStill flags s.db → RoundStill (work_round p path_max r s)
  unfolding work_round
  work_round-RoundStill r s h =
      let s1 = deliver r.before s in
      let s2 = reload_if s1.received_sighup s1 in
      round_end-RoundStill r (wait_input s2.mode r.waits s2) (
        IsStill-behind s2 (wait_input s2.mode r.waits s2).1
          (wait_input-SameStore s2.mode r.waits s2).0
          (IsStill-behind s1 s2 (reload_if-SameStore s1.received_sighup s1).0 h))

  shut_down-DbStill :
      (last : List Callback) (s : Daemon F)
      → IsStill flags s.db
      → DbStill flags daemon_of (shut_down p path_max last s)
  shut_down-DbStill last s h = go (handle_events p path_max last s) (handle_events-DbStill last s h)
    where
      go :
          (x : Option (Daemon F))
          → DbStill flags itself x
          → DbStill flags daemon_of (elim x as (λ _. Option (Progress F)) [
            | none ↦ none
            | some s' ↦ (elim (on_db (db_flush p) s') [
              | none ↦ none
              | some (rc, s2) ↦ some (finished s2)
            ])
          ])
      go none k = tt
      go (some s') k =
          on_db-DbStill daemon_of (λ _ s2. finished s2) (db_flush p) s' (db_flush-Keeps p flags) k
            (λ a s2 m. m)

  -- also where the loop waits for input
  pub work-DbStill :
      (rs : List Round) (last : List Callback) (s : Daemon F)
      → IsStill flags s.db
      → DbStill flags daemon_of (work p path_max rs last s)
  unfolding work
  work-DbStill [] last s h = h
  work-DbStill (r ∷ rs) last s h =
      go (work_round p path_max r s) (work_round-RoundStill r s h) (work-DbStill rs last)
    where
      go :
          (x : Option (Option (Daemon F)))
          → RoundStill x
          → ((s' : Daemon F)
              → IsStill flags s'.db
              → DbStill flags daemon_of (work p path_max rs last s'))
          → DbStill flags daemon_of (elim x as (λ _. Option (Progress F)) [
            | none ↦ none
            | some none ↦ some (waiting s)
            | some (some s') ↦
                let rest = work p path_max rs last s' in
                if not r.eof && not s'.stop then rest else shut_down p path_max last s'
          ])
      go none k ih = tt
      go (some none) k ih = h
      go (some (some s')) k ih = elim (Bool-cases (not r.eof && not s'.stop)) [
        | inl e ↦ rw e (ih s' k)
        | inr e ↦ rw e (shut_down-DbStill last s' k)
      ]
