-- ===== src/Silver/EngineStore/Governance.antt =====
-- How many releases are approved, and which one is.
use metrka_core.Prelude.{
  ◌≤◌, String, ◌≡◌, refl, ◌∙◌, inl, inr, ◌⊎◌, Bool, true, false, some, List, [], ◌∷◌, ◌++◌, eq_iff,
  arith,
}
use metrka_core.Prelude.Tests.{Bool-cases}
use metrka_core.Prelude.Lists.{
  find, count, any, update, count-append, count-update-eq, count-zero_of_any,
}
use metrka_core.Prelude.Text.{is_blank, strip}
use metrka_core.Prelude.Time.{DateTime, is_aware}
use metrka_core.Prelude.Result.{ok, raise}
use metrka_core.Silver.EngineModels.{
  SilverEngineIdentity, SilverEngineRelease, release_id_of, check_release, check_identity,
}
use metrka_core.Silver.EngineStore.{
  Releases, is_approved_release, has_release_id, has_release_hash, row_to_release, Reply,
  new_release, add_release, register_candidate, reply_with, opt_release, find_approved,
  other_approved, retire_release, approve_release, install, approve_engine, reject_release,
  rejectable, reject_engine,
}

-- At most one release is approved, and identifiers and hashes are unique.
pub record IsGoverned (rows : Releases) : Type 0 where
  pub single : count is_approved_release rows ≤ 1
  pub ids : (i : String) → count (has_release_id i) rows ≤ 1
  pub hashes : (h : String) → count (has_release_hash h) rows ≤ 1

abbrev pub IsReadable : SilverEngineRelease → Type 0
IsReadable r = row_to_release r ≡ ok r

-- The table after the two UPDATEs of an approval.
unfoldable pub installed : String → String → DateTime → Releases → Releases
unfolding update
installed i by at rows =
    update (has_release_id i) (approve_release at by)
      (update (other_approved i) retire_release rows)

none_left :
    (i : String) (rows : Releases)
    → any (other_approved i) (update (other_approved i) retire_release rows) ≡ false
unfolding any update
none_left i [] = refl
none_left i (r ∷ rows) = ground (arith, none_left i rows)

install_lem :
    (i by : String) (at : DateTime) (rows : Releases)
    → install i by at rows ≡ ok (installed i by at rows)
unfolding install installed
install_lem i by at rows = rw (none_left i rows)

approved-installed :
    (i by : String) (at : DateTime) (rows : Releases)
    → find is_approved_release (installed i by at rows)
      ≡ find (has_release_id i) (installed i by at rows)
unfolding installed find update
approved-installed i by at [] = refl
approved-installed i by at (r ∷ rows) = ground (arith, approved-installed i by at rows)

count-installed :
    (i by : String) (at : DateTime) (rows : Releases)
    → count is_approved_release (installed i by at rows) ≡ count (has_release_id i) rows
unfolding installed count update
count-installed i by at [] = refl
count-installed i by at (r ∷ rows) = ground (arith, count-installed i by at rows)

-- A test of columns that an approval leaves alone.
count-installed_same :
    (q : SilverEngineRelease → Bool) (i by : String) (at : DateTime) (rows : Releases)
    → ((r : SilverEngineRelease) → q (retire_release r) ≡ q r)
    → ((r : SilverEngineRelease) → q (approve_release at by r) ≡ q r)
    → count q (installed i by at rows) ≡ count q rows
unfolding installed
count-installed_same q i by at rows retires approves =
    count-update-eq q _ (approve_release at by) approves _
    ∙ count-update-eq q _ retire_release retires rows

find-installed :
    (i by : String) (at : DateTime) (rows : Releases) (r : SilverEngineRelease)
    → find (has_release_id i) rows ≡ some r
    → find (has_release_id i) (installed i by at rows) ≡ some (approve_release at by r)
unfolding installed find update
find-installed i by at [] r e = ground arith
find-installed i by at (x ∷ rows) r e = ground (arith, find-installed i by at rows r)

installed-IsGoverned :
    (i by : String) (at : DateTime) (rows : Releases)
    → IsGoverned rows
    → IsGoverned (installed i by at rows)
installed-IsGoverned i by at rows g = record {
  single = rw (count-installed i by at rows) (g.ids i);
  ids = λ j.
      rw (count-installed_same (has_release_id j) i by at rows (λ r. refl) (λ r. refl)) (g.ids j);
  hashes = λ h.
      rw (count-installed_same (has_release_hash h) i by at rows (λ r. refl) (λ r. refl))
        (g.hashes h);
}

approve-IsReadable :
    (at : DateTime) (by : String) (r : SilverEngineRelease)
    → is_aware at ≡ true
    → IsReadable r
    → IsReadable (approve_release at by r)
unfolding row_to_release check_release check_identity
approve-IsReadable at by r aware h = ground arith

any_of_find :
    (p : SilverEngineRelease → Bool) (rows : Releases) (r : SilverEngineRelease)
    → find p rows ≡ some r
    → any p rows ≡ true
unfolding find any
any_of_find p [] r e = ground arith
any_of_find p (x ∷ rows) r e = ground (arith, any_of_find p rows r)

-- On a governed table, the approval of a known release that can be read, by an actor who is not blank
-- at an aware time, succeeds: it returns the release as approved, which from then on is the one that
-- `find_approved` returns, and the table stays governed.
pub approve_engine_lem :
    (i by : String) (at : DateTime) (rows : Releases) (r : SilverEngineRelease)
    → IsGoverned rows
    → find (has_release_id i) rows ≡ some r
    → IsReadable r
    → is_blank by ≡ false
    → is_aware at ≡ true
    → (rows' : Releases) × (approve_engine i by at rows
        ≡ ok (ok (approve_release at (strip by) r), rows'))
      × (find_approved rows' ≡ ok (some (approve_release at (strip by) r)))
      × IsGoverned rows'
unfolding approve_engine find_approved reply_with opt_release
approve_engine_lem i by at rows r g e readable actor aware =
    let found = find-installed i (strip by) at rows r e in
    let read = approve-IsReadable at (strip by) r aware readable in
    (
      installed i (strip by) at rows,
      ground (
        arith,
        any_of_find (has_release_id i) rows r e,
        install_lem i (strip by) at rows,
        found,
        read,
      ),
      ground (arith, approved-installed i (strip by) at rows, found, read),
      installed-IsGoverned i (strip by) at rows g,
    )

-- A client's calls; a call that raises inside its transaction leaves the table as it was.
pub data EngineCommand : Type 0 where
  register_engine : SilverEngineIdentity → String → DateTime → EngineCommand
  approve_engine_by : String → String → DateTime → EngineCommand
  reject_engine_by : String → String → String → DateTime → EngineCommand

abbrev pub committed : Releases → Reply → Releases
committed rows (ok (r, rows')) = rows'
committed rows (raise e) = rows

unfoldable pub govern : EngineCommand → Releases → Releases
govern (register_engine identity sha at) rows =
    committed rows (register_candidate identity sha at rows)
govern (approve_engine_by i by at) rows = committed rows (approve_engine i by at rows)
govern (reject_engine_by i by reason at) rows = committed rows (reject_engine i by reason at rows)

unfoldable pub govern_all : List EngineCommand → Releases → Releases
unfolding govern
govern_all [] rows = rows
govern_all (c ∷ cs) rows = govern_all cs (govern c rows)

govern-approve :
    (i by : String) (at : DateTime) (rows : Releases)
    → (govern (approve_engine_by i by at) rows ≡ rows)
      ⊎ (govern (approve_engine_by i by at) rows ≡ installed i (strip by) at rows)
unfolding govern approve_engine
govern-approve i by at rows = ground (arith, install_lem i (strip by) at rows)

govern-reject :
    (i by reason : String) (at : DateTime) (rows : Releases)
    → (govern (reject_engine_by i by reason at) rows ≡ rows)
      ⊎ (govern (reject_engine_by i by reason at) rows
          ≡ update (rejectable i) (reject_release at (strip by) (strip reason)) rows)
unfolding govern reject_engine
govern-reject i by reason at rows = ground arith

govern-register :
    (identity : SilverEngineIdentity) (sha : String) (at : DateTime) (rows : Releases)
    → (govern (register_engine identity sha at) rows ≡ rows)
      ⊎ ((govern (register_engine identity sha at) rows ≡ rows ++ new_release identity sha at ∷ [])
          × (any (has_release_id (release_id_of identity)) rows ≡ false)
          × (any (has_release_hash identity.release_hash) rows ≡ false))
unfolding govern register_candidate add_release
govern-register identity sha at rows =
    elim (Bool-cases (any (has_release_hash identity.release_hash) rows)) [
      | inl known ↦ inl (ground (arith, known))
      | inr new ↦ ground (arith, new)
    ]

registered-IsGoverned :
    (identity : SilverEngineIdentity) (sha : String) (at : DateTime) (rows : Releases)
    → any (has_release_id (release_id_of identity)) rows ≡ false
    → any (has_release_hash identity.release_hash) rows ≡ false
    → IsGoverned rows
    → IsGoverned (rows ++ new_release identity sha at ∷ [])
unfolding count
registered-IsGoverned identity sha at rows id hash g =
    let added = new_release identity sha at ∷ [] in
    record {
      single = ground (arith, count-append is_approved_release rows added, g.single);
      ids = λ i. ground (
        arith,
        count-append (has_release_id i) rows added,
        count-zero_of_any (has_release_id i) rows,
        eq_iff (release_id_of identity) i,
        g.ids i,
      );
      hashes = λ h. ground (
        arith,
        count-append (has_release_hash h) rows added,
        count-zero_of_any (has_release_hash h) rows,
        eq_iff identity.release_hash h,
        g.hashes h,
      );
    }

count-rejected :
    (i by reason : String) (at : DateTime) (rows : Releases)
    → count is_approved_release (update (rejectable i) (reject_release at by reason) rows)
      ≡ count is_approved_release rows
unfolding count update
count-rejected i by reason at [] = refl
count-rejected i by reason at (r ∷ rows) = ground (arith, count-rejected i by reason at rows)

rejected-IsGoverned :
    (i by reason : String) (at : DateTime) (rows : Releases)
    → IsGoverned rows
    → IsGoverned (update (rejectable i) (reject_release at by reason) rows)
rejected-IsGoverned i by reason at rows g = record {
  single = rw (count-rejected i by reason at rows) g.single;
  ids = λ j.
      rw
        (count-update-eq (has_release_id j) (rejectable i) (reject_release at by reason) (λ r. refl)
          rows)
        (g.ids j);
  hashes = λ h.
      rw
        (count-update-eq (has_release_hash h) (rejectable i) (reject_release at by reason)
          (λ r. refl) rows)
        (g.hashes h);
}

govern-IsGoverned :
    (c : EngineCommand) (rows : Releases) → IsGoverned rows → IsGoverned (govern c rows)
govern-IsGoverned (register_engine identity sha at) rows g =
    elim (govern-register identity sha at rows) [
      | inl same ↦ rw same g
      | inr (added, id, hash) ↦ rw added (registered-IsGoverned identity sha at rows id hash g)
    ]
govern-IsGoverned (approve_engine_by i by at) rows g = elim (govern-approve i by at rows) [
  | inl same ↦ rw same g
  | inr done ↦ rw done (installed-IsGoverned i (strip by) at rows g)
]
govern-IsGoverned (reject_engine_by i by reason at) rows g =
    elim (govern-reject i by reason at rows) [
      | inl same ↦ rw same g
      | inr done ↦ rw done (rejected-IsGoverned i (strip by) (strip reason) at rows g)
    ]

-- From a governed table, every sequence of calls ends in a governed table: at most one release is
-- approved, and identifiers and hashes stay unique.
pub govern_all-IsGoverned :
    (cs : List EngineCommand) (rows : Releases) → IsGoverned rows → IsGoverned (govern_all cs rows)
unfolding govern_all
govern_all-IsGoverned [] rows g = g
govern_all-IsGoverned (c ∷ cs) rows g =
    govern_all-IsGoverned cs (govern c rows) (govern-IsGoverned c rows g)
