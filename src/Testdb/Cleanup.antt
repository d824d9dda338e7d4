-- ===== src/Testdb/Cleanup.antt =====
-- What the tests of internal/testdb/testdb.go leave of their databases and connections.
use rag_ai_system.Prelude.{
  ℕ, ◌+◌, ◌-◌, ◌≡◌, refl, ap, ◌∙◌, ◌⊎◌, inl, inr, false, Option, none, some, List, [], ◌∷◌, ◌++◌,
  arith, Bool-cases, Option-cases, All, Result, ok, err, Result-cases,
}
use rag_ai_system.Text.{Text, codes, text_eq}
use rag_ai_system.Text.Url.{Url, show_url, read_credentials}
use rag_ai_system.Backoff.{Err, wrapped}
use rag_ai_system.Text.Utf8.{IsByte}
use rag_ai_system.Text.Url.Credentials.{read_credentials-show_url}
use rag_ai_system.Rag.Unique.{text_eq_refl}
use rag_ai_system.Storage.{in_list}
use rag_ai_system.Embed.{hex}
use rag_ai_system.Storage.Migrate.{Held, MigrateCalls, up}
use rag_ai_system.Testdb.{
  TestState, Setup, skipped, fatal, ready, DbCalls, name_prefix, replace_database, removed,
  create_database, with_pool, with_database, with_name, with_suffix, close_admin, with_admin,
  new_raw, after_up, migrated, new_db, dropped, drop_with, clean_up, clean_all, end_test,
}

removed-absent : (name : Text) (ds : List Text) → in_list name ds ≡ false → removed name ds ≡ ds
unfolding text_eq
removed-absent name [] h = refl
removed-absent name (d ∷ ds) h = elim (Bool-cases (text_eq name d)) [
  | inl e ↦ cc
  | inr e ↦ rw (e, removed-absent name ds (cc))
]

removed-new :
    (name : Text) (ds : List Text) → in_list name ds ≡ false → removed name (name ∷ ds) ≡ ds
removed-new name ds h = rw (text_eq_refl name) (removed-absent name ds h)

-- The connection string of the new database says the user and the password of the given one as they
-- are, whatever bytes they hold.
pub replace_database-credentials :
    (parse : Text → Result Err Url) (dsn name : Text) (u : Url)
    → parse dsn ≡ ok u
    → All IsByte u.user
    → All IsByte u.password
    → All IsByte u.host
    → (dsn' : Text) × (replace_database parse dsn name ≡ ok dsn')
      × (read_credentials dsn' ≡ some (u.user, u.password))
unfolding replace_database
replace_database-credentials parse dsn name u h user password host =
    let moved : Url = record u { path = b'/' ∷ name } in
    (
      show_url moved,
      rw (replace_database, h) refl,
      read_credentials-show_url moved user password host,
    )

module _ (c : DbCalls) where
  -- What is left when the test has ended: everything as before, or one more database.
  abbrev pub AsBefore : TestState → TestState → Type 0
  AsBefore w w' =
      (w'.databases ≡ w.databases)
      × (w'.sessions ≡ w.sessions)
      × (w'.pools ≡ w.pools)
      × (w'.cleanups ≡ [])

  -- The set-up has failed between CREATE DATABASE and the call of t.Cleanup.
  abbrev pub OneMore : TestState → Setup × TestState → Type 0
  OneMore w (s, w') =
      ((x : Err) × ((s ≡ fatal (wrapped (codes "build dsn") x))
          ⊎ (s ≡ fatal (wrapped (codes "connect to") x))))
      × ((name : Text) × ((end_test c w').databases ≡ name ∷ w.databases))

  abbrev pub Ended : TestState → Setup × TestState → Type 0
  Ended w out = AsBefore w (end_test c out.1) ⊎ OneMore w out

  -- What t.Cleanup runs leaves the connections of pgx.Connect alone.
  dropped-sessions :
      (name : Text) (n : ℕ) (w : TestState) (failed : Option Err)
      → dropped c name (record w { sessions = n }) failed
        ≡ record (dropped c name w failed) { sessions = n }
  dropped-sessions name n w (some e) = refl
  dropped-sessions name n w none = refl

  drop_with-sessions :
      (name : Text) (n : ℕ) (w : TestState) (failed : Option Err)
      → drop_with c name (record w { sessions = n }) failed
        ≡ record (drop_with c name w failed) { sessions = n }
  drop_with-sessions name n w (some e) = refl
  drop_with-sessions name n w none = dropped-sessions name n w (c.drop name)

  clean_all-sessions :
      (names : List Text) (n : ℕ) (w : TestState)
      → clean_all c names (record w { sessions = n })
        ≡ record (clean_all c names w) { sessions = n }
  unfolding clean_up
  clean_all-sessions [] n w = refl
  clean_all-sessions (name ∷ names) n w =
      ap (clean_all c names)
        (drop_with-sessions name n (record w { pools = w.pools - 1 }) c.reconnect)
      ∙ clean_all-sessions names n (clean_up c name w)

  end_test-sessions :
      (n : ℕ) (w : TestState)
      → end_test c (record w { sessions = n }) ≡ record (end_test c w) { sessions = n }
  unfolding end_test
  end_test-sessions n w = clean_all-sessions w.cleanups n (record w { cleanups = [] })

  module _ (reconnects : c.reconnect ≡ none) (drops : (name : Text) → c.drop name ≡ none) where
    unchanged-Ended : (s : Setup) (w : TestState) → w.cleanups ≡ [] → Ended w (s, w)
    unfolding end_test
    unchanged-Ended s w none_yet = inl (rw none_yet (refl, refl, refl, refl))

    with_pool-Ended :
        (name dsn : Text) (w : TestState) (failed : Option Err)
        → w.cleanups ≡ []
        → in_list name w.databases ≡ false
        → Ended w (with_pool c name dsn (record w { databases = name ∷ w.databases }) failed)
    unfolding end_test clean_up
    with_pool-Ended name dsn w (some e) none_yet new = inr ((e, inr refl), (name, rw none_yet refl))
    with_pool-Ended name dsn w none none_yet new = inl (
        rw (none_yet, reconnects, drops name, removed-new name w.databases new)
          (refl, refl, omega arith, refl))

    with_database-Ended :
        (admin_dsn name : Text) (w : TestState)
        → w.cleanups ≡ []
        → in_list name w.databases ≡ false
        → Ended w (with_database c admin_dsn name (record w { databases = name ∷ w.databases }))
    unfolding with_database end_test
    with_database-Ended admin_dsn name w none_yet new =
        elim (Result-cases (replace_database c.parse admin_dsn name)) [
          | inl (e, k) ↦ rw (with_database, k) (inr ((e, inl refl), (name, rw none_yet refl)))
          | inr (dsn, k) ↦
              rw (with_database, k) (with_pool-Ended name dsn w (c.new_pool dsn) none_yet new)
        ]

    with_name-Ended :
        (admin_dsn name : Text) (w : TestState)
        → w.cleanups ≡ []
        → Ended w (with_name c admin_dsn name w)
    unfolding with_name create_database
    with_name-Ended admin_dsn name w none_yet = elim (Bool-cases (in_list name w.databases)) [
      | inl taken ↦ rw (with_name, create_database, taken) (unchanged-Ended _ w none_yet)
      | inr new ↦ elim (Option-cases (c.create name)) [
        | inr (e, k) ↦ rw (with_name, create_database, new, k) (unchanged-Ended _ w none_yet)
        | inl k ↦
            rw (with_name, create_database, new, k)
              (with_database-Ended admin_dsn name w none_yet new)
      ]
    ]

    with_suffix-Ended :
        (admin_dsn : Text) (w : TestState) (r : Result Err (List ℕ))
        → w.cleanups ≡ []
        → Ended w (with_suffix c admin_dsn w r)
    with_suffix-Ended admin_dsn w (err e) none_yet = unchanged-Ended _ w none_yet
    with_suffix-Ended admin_dsn w (ok suffix) none_yet =
        with_name-Ended admin_dsn (name_prefix ++ hex suffix) w none_yet

    close_admin-Ended :
        (w : TestState) (out : Setup × TestState)
        → Ended (record w { sessions = w.sessions + 1 }) out
        → Ended w (close_admin c out)
    close_admin-Ended w (s, w') (inl (d, n, p, l)) =
        let same = ap (λ x. x.sessions) (end_test-sessions w'.sessions w') in
        inl (rw (end_test-sessions (w'.sessions - 1) w') (d, omega (arith, n, same), p, l))
    close_admin-Ended w (s, w') (inr (failed, (name, d))) =
        inr (failed, (name, rw (end_test-sessions (w'.sessions - 1) w') d))

    with_admin-Ended :
        (admin_dsn : Text) (w : TestState) (r : Option Err)
        → w.cleanups ≡ []
        → Ended w (with_admin c admin_dsn w r)
    with_admin-Ended admin_dsn w (some e) none_yet = unchanged-Ended _ w none_yet
    with_admin-Ended admin_dsn w none none_yet =
        close_admin-Ended w _
          (with_suffix-Ended admin_dsn (record w { sessions = w.sessions + 1 }) c.random none_yet)

    new_raw-Ended :
        (admin_dsn : Text) (w : TestState) → w.cleanups ≡ [] → Ended w (new_raw c admin_dsn w)
    unfolding new_raw
    new_raw-Ended [] w none_yet = unchanged-Ended skipped w none_yet
    new_raw-Ended (b ∷ dsn) w none_yet = with_admin-Ended (b ∷ dsn) w (c.connect (b ∷ dsn)) none_yet

    after_up-Ended :
        (dsn : Text) (w w' : TestState) (failed : Option Err)
        → Ended w (ready dsn, w')
        → Ended w (after_up c dsn w' failed)
    after_up-Ended dsn w w' failed (inr ((x, inl e), more)) = cc
    after_up-Ended dsn w w' failed (inr ((x, inr e), more)) = cc
    after_up-Ended dsn w w' none (inl same) = inl same
    after_up-Ended dsn w w' (some e) (inl same) = inl same

    migrated-Ended :
        (failed : Option Err) (w : TestState) (out : Setup × TestState)
        → Ended w out
        → Ended w (migrated c failed out)
    migrated-Ended failed w (skipped, w') h = h
    migrated-Ended failed w (fatal e, w') h = h
    migrated-Ended failed w (ready dsn, w') h = after_up-Ended dsn w w' failed h

    -- However New ends, the migrations included: if t.Cleanup connects and drops, then after the test
    -- the server has the databases and the test the connections of before, or New has failed when it
    -- had created its database and t.Cleanup did not know of it yet, and that database stays.
    new_db-Ended :
        {C : Type 0} (m : MigrateCalls C) (h : Held C) (admin_dsn : Text) (w : TestState)
        → w.cleanups ≡ []
        → Ended w (new_db c m h admin_dsn w)
    unfolding new_db
    new_db-Ended m h admin_dsn w none_yet =
        migrated-Ended (up m h).0 w (new_raw c admin_dsn w) (new_raw-Ended admin_dsn w none_yet)
