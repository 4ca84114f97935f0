-- ===== src/Search/Visits.antt =====
-- The loop of a search visits the keys of the events in the order of the iteration.
use fusg.Base.{
  ℕ, zero, suc, ◌<◌, List, [], ◌∷◌, Option, none, some, Bytes, length, ◌≡◌, refl, arith, All,
}
use fusg.Db.Platform.{Platform}
use fusg.Db.State.{Db, M, ◌>>=◌}
use fusg.Db.Iterator.{Iterator, more, db_iterator_next}
use fusg.Search.Entries.{Found, each_entry}

-- the keys from `at` on, as `gdbm_firstkey` and `gdbm_nextkey` step through them
abbrev pub IsListing : {F : Type 0} → Platform F → F → List Bytes → Option Bytes → Type 0
IsListing p f [] at = at ≡ none
IsListing p f (k ∷ ks) at = (at ≡ some k) × IsListing p f ks (p.next_key f k)

-- the keys in a row
abbrev pub visited : (Bytes → Found → Found) → List Bytes → Found → Found
visited add [] acc = acc
visited add (k ∷ ks) acc = visited add ks (add k acc)

module _ {F : Type 0} (p : Platform F) (f : F) (visit : Bytes → Found → M F Found)
    (add : Bytes → Found → Found) (P : Bytes → Db F → Type 0)
    (kept : (d : Db F) (k : Bytes) (acc : Found)
      → P k d
      → d.evnt_db ≡ f
      → (d' : Db F) × (visit k acc d ≡ some (add k acc, d'))
        × (d'.evnt_db ≡ f)
        × ((j : Bytes) → P j d → P j d')) where
  next_step :
      (it : Iterator) (k : Bytes) (d : Db F)
      → d.evnt_db ≡ f
      → db_iterator_next p it k d
        ≡ some ((more (p.next_key f k), record it { db_key = p.next_key f k }), d)
  unfolding db_iterator_next
  next_step it k d h = rw h refl

  keys_kept :
      (ks : List Bytes) (d d' : Db F)
      → ((j : Bytes) → P j d → P j d')
      → All (λ k. P k d) ks
      → All (λ k. P k d') ks
  keys_kept [] d d' h q = tt
  keys_kept (k ∷ ks) d d' h q = (h k q.0, keys_kept ks d d' h q.1)

  -- Where the body of a search succeeds on each key of a listing and keeps the event table, the loop
  -- ends with the results of the keys in the order of the listing, each visited once, on any fuel
  -- above the number of keys.
  pub each_entry-visited :
      (ks : List Bytes) (fuel : ℕ) (it : Iterator) (acc : Found) (d : Db F)
      → length ks < fuel
      → IsListing p f ks it.db_key
      → d.evnt_db ≡ f
      → All (λ k. P k d) ks
      → (d' : Db F) × (each_entry p visit fuel it acc d ≡ some (visited add ks acc, d'))
        × (d'.evnt_db ≡ f)
  unfolding each_entry
  each_entry-visited ks zero it acc d lt l h q = absurd (omega arith)
  each_entry-visited [] (suc fuel) it acc d lt l h q = (d, rw (l, each_entry) refl, h)
  each_entry-visited (k ∷ ks) (suc fuel) it acc d lt l h q =
      let (d1, run, same, keep) = kept d k acc q.0 h in
      let (d2, rest, done) =
        each_entry-visited ks fuel (record it { db_key = p.next_key f k }) (add k acc) d1
          (omega arith) l.1 same (keys_kept ks d d1 keep q.1) in
      (d2, rw (l.0, each_entry) (rw (run, ◌>>=◌) (rw (next_step it k d1 same, ◌>>=◌) rest)), done)
