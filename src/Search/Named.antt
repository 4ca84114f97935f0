-- ===== src/Search/Named.antt =====
-- The loop of a search that prints one name of each matching entry: what the searches for files
-- and for executables share.
use fusg.Base.{
  ℕ, ◌<◌, ◌≤◌, ◌==◌, List, [], ◌∷◌, some, Bytes, success, length, if◌then◌else◌, ◌≡◌, refl, ap, ◌∙◌,
  inl, inr, arith, All, Bool-cases,
}
use fusg.Word.{u64}
use fusg.Db.Platform.{Fetched, found, missing, failed, Platform, IsReliable}
use fusg.Db.State.{Db, M, pure, Table, table, ◌>>=◌, gdbm_fetch}
use fusg.Db.Records.{StatsKey, Stats, stats_of}
use fusg.Db.Ids.{locked_name}
use fusg.Db.View.{view}
use fusg.Db.Iterator.{Iterator, stats_key_of, db_iterator_fetch}
use fusg.Db.Locking.{locked, unlocked, SameTables-locked, SameTables-unlocked}
use fusg.Db.Lookup.{copied, locked_name-found}
use fusg.Search.Entries.{Found, add_line, buffer_size, asserted, fetched, each_entry}
use fusg.Search.Visits.{IsListing, visited, each_entry-visited}

abbrev content_of : Fetched → Bytes
content_of (found b) = b
content_of missing = []
content_of failed = []

copied_whole :
    (name : Bytes) → length name ≤ buffer_size → copied buffer_size name ≡ (success, some name)
copied_whole name h = ground arith

module _ {F : Type 0} (p : Platform F) (ok : IsReliable p) (f r : F) (t : Table)
    (name_id match_id : StatsKey → ℕ) (id : ℕ) where
  abbrev pub stats_at : Bytes → Stats
  stats_at key = stats_of (content_of (p.fetch f key))

  abbrev pub name_at : Bytes → Bytes
  name_at key = content_of (p.fetch r (u64 (name_id (stats_key_of key))))

  -- a matching entry is a line, and another one is passed over
  abbrev pub add_entry : Bytes → Found → Found
  add_entry key acc =
      if match_id (stats_key_of key) == id
      then add_line (stats_at key) (name_at key ∷ []) acc
      else record acc { stats = stats_at key }

  -- the entry of a key is there, and its name fits the buffer
  pub record IsEntry (key : Bytes) (d : Db F) : Type 0 where
    pub names : table t d ≡ r
    pub content : Bytes
    pub entry : p.fetch f key ≡ found content
    pub size : length content ≡ 48
    pub name : Bytes
    pub named : p.fetch r (u64 (name_id (stats_key_of key))) ≡ found name
    pub fits : length name ≤ buffer_size

  iterator_fetch :
      (key : Bytes) (old : Stats) (d : Db F)
      → d.evnt_db ≡ f
      → IsEntry key d
      → db_iterator_fetch p key old d ≡ some ((success, stats_at key), d)
  unfolding db_iterator_fetch gdbm_fetch
  iterator_fetch key old d h e =
      let at : p.fetch d.evnt_db key ≡ found e.content = rw h e.entry in
      let stats : stats_at key ≡ stats_of e.content = ap (λ x. stats_of (content_of x)) e.entry in
      rw stats (ground (arith, at, e.size))

  entry_name :
      (key : Bytes) (d : Db F)
      → IsEntry key d
      → asserted (locked_name p t (name_id (stats_key_of key)) buffer_size) d
        ≡ some (name_at key, unlocked (locked d))
  unfolding asserted
  entry_name key d e =
      let i = name_id (stats_key_of key) in
      let at : view p (locked d) t (u64 i) ≡ found e.name =
        ap (λ x. p.fetch x (u64 i)) (SameTables-locked d t ∙ e.names) ∙ e.named in
      let whole : copied buffer_size e.name ≡ (success, some e.name) = copied_whole e.name e.fits in
      let run : locked_name p t i buffer_size d
          ≡ some ((success, some e.name), unlocked (locked d)) =
        locked_name-found p ok t i buffer_size e.name d at
        ∙ ap (λ x. some (x, unlocked (locked d))) whole in
      let name : name_at key ≡ e.name = ap content_of e.named in rw name (rw (run, ◌>>=◌) refl)

  fetched_stats :
      (key : Bytes) (acc : Found) (d : Db F)
      → d.evnt_db ≡ f
      → IsEntry key d
      → fetched p key acc d ≡ some (stats_at key, d)
  unfolding fetched
  fetched_stats key acc d h e = rw (iterator_fetch key acc.stats d h e, ◌>>=◌) refl

  -- the body of the loop
  abbrev pub visit_matching : Bytes → Found → M F Found
  visit_matching key acc = do
    stats ← fetched p key acc
    let add : M F Found = do
      name ← asserted (locked_name p t (name_id (stats_key_of key)) buffer_size)
      pure (add_line stats (name ∷ []) acc)
    if match_id (stats_key_of key) == id then add else pure (record acc { stats = stats })

  visit_step :
      (d : Db F) (key : Bytes) (acc : Found)
      → IsEntry key d
      → d.evnt_db ≡ f
      → (d' : Db F) × (visit_matching key acc d ≡ some (add_entry key acc, d'))
        × (d'.evnt_db ≡ f)
        × ((j : Bytes) → IsEntry j d → IsEntry j d')
  visit_step d key acc e h = elim (Bool-cases (match_id (stats_key_of key) == id)) [
    | inl m ↦ (
      unlocked (locked d),
      rw m (rw (fetched_stats key acc d h e, ◌>>=◌) (rw (entry_name key d e, ◌>>=◌) refl)),
      h,
      λ j x. record {
        names = SameTables-unlocked (locked d) t ∙ SameTables-locked d t ∙ x.names;
        content = x.content;
        entry = x.entry;
        size = x.size;
        name = x.name;
        named = x.named;
        fits = x.fits;
      },
    )
    | inr m ↦ (d, rw m (rw (fetched_stats key acc d h e, ◌>>=◌) refl), h, λ j x. x)
  ]

  pub visit_matching-visited :
      (ks : List Bytes) (fuel : ℕ) (it : Iterator) (acc : Found) (d : Db F)
      → length ks < fuel
      → IsListing p f ks it.db_key
      → d.evnt_db ≡ f
      → All (λ k. IsEntry k d) ks
      → (d' : Db F) × (each_entry p visit_matching fuel it acc d
          ≡ some (visited add_entry ks acc, d'))
        × (d'.evnt_db ≡ f)
  visit_matching-visited ks fuel it acc d lt l h q =
      each_entry-visited p f visit_matching add_entry IsEntry visit_step ks fuel it acc d lt l h q
