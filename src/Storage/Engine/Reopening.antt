-- ===== src/Storage/Engine/Reopening.antt =====
-- What a new engine over the directory of an old one reads.
use jsonpy_sql.Prelude.{◌≡◌, refl, sym, ◌∙◌, ap, subst, String, List, [], ◌∷◌, arith, map}
use jsonpy_sql.Python.Dict as D
use jsonpy_sql.Python.Dict.{Dict, string_key}
use jsonpy_sql.Python.Result.{ok, ok-injective, call_returned}
use jsonpy_sql.Storage.SortedDict.{SortedDict}
use jsonpy_sql.Storage.IndexManager.{IndexManager, IndexSpec}
use jsonpy_sql.Storage.Wal.{WalLine}
use jsonpy_sql.Storage.Engine.State.{Engine, registry, require, lock, get}
use jsonpy_sql.Storage.Engine.Startup.{
  Directory, registered, open_manager, open_all, load_manifest, recover_files, recover_wal,
  open_engine,
}

-- The directory that an engine leaves behind.
abbrev pub directory_of : {S : Type 0} → Engine S → Directory
directory_of e = record {
  jsonl = e.jsonl;
  indexes = map (λ m. (m.0, m.1.files)) e.managers;
  wals = e.wals;
  manifest = e.manifest;
}

module _ {S : Type 0} where
  abbrev pub wals_of : Engine S → Dict String (List WalLine)
  wals_of e = e.wals

  -- Reads depend on the names that are registered and on the document files.
  pub get_alike :
      (c j : String) (a b : Engine S)
      → D.contains c a.managers ≡ D.contains c b.managers
      → a.jsonl ≡ b.jsonl
      → get c j a ≡ get c j b
  unfolding get require lock
  get_alike c j a b h k = rw k (ground (arith, h))

module _ {S : Type 0} ⦃sd : SortedDict S⦄ where
  pub contains-open_all :
      (c : String) (specs : Dict String (List IndexSpec)) (dir : Directory)
      (ims : Dict String (IndexManager S))
      → open_all specs dir ≡ ok ims
      → D.contains c ims ≡ D.contains c specs
  unfolding open_all D.get
  contains-open_all c [] dir ims h = rw (← ok-injective h) refl
  contains-open_all c ((name, specs) ∷ rest) dir ims h =
      let (im, p, q) = call_returned (open_manager name specs dir) _ h in
      let (ims', r, s) = call_returned (open_all rest dir) _ q in
      rw (← ok-injective s) (ground (arith, contains-open_all c rest dir ims' r))

  pub recover_none : (e : Engine S) → e.wals ≡ [] → recover_wal e ≡ e
  unfolding recover_wal recover_files
  recover_none e h = ap (λ w. recover_files (map (λ x. x.0) w) e) h

  -- What a new engine is, where no log is left and the manifest is readable.
  pub open_engine_lem :
      (dir : Directory) (specs : Dict String (List IndexSpec)) (e' : Engine S)
      → dir.wals ≡ []
      → dir.manifest ≡ registry specs
      → open_engine dir ≡ ok e'
      → (ims : Dict String (IndexManager S)) × (open_all specs dir ≡ ok ims)
        × (record {
          managers = ims;
          specs = specs;
          jsonl = dir.jsonl;
          wals = dir.wals;
          manifest = dir.manifest;
        }
            ≡ e')
  unfolding open_engine load_manifest
  open_engine_lem dir specs e' logs saved h =
      let (e0, p, q) = call_returned (load_manifest dir) _ h in
      let (specs', p1, p2) = call_returned (registered dir.manifest) _ p in
      let (ims, p3, p4) = call_returned (open_all specs' dir) _ p2 in
      let same : specs' ≡ specs = ok-injective (sym p1 ∙ ap registered saved) in
      let none_left = ap wals_of (sym (ok-injective p4)) ∙ logs in
      (
        ims,
        ap (λ x. open_all x dir) (sym same) ∙ p3,
        ap
              (λ x. record {
                managers = ims;
                specs = x;
                jsonl = dir.jsonl;
                wals = dir.wals;
                manifest = dir.manifest;
              })
              (sym same)
            ∙ ok-injective p4
            ∙ sym (recover_none e0 none_left)
            ∙ ok-injective q,
      )

  -- A new engine over the directory has the collections for which there are specs.
  pub contains-open_engine :
      (c : String) (e e' : Engine S)
      → e.wals ≡ []
      → e.manifest ≡ registry e.specs
      → open_engine (directory_of e) ≡ ok e'
      → D.contains c e'.managers ≡ D.contains c e.specs
  contains-open_engine c e e' logs saved h =
      let (ims, opened, started) = open_engine_lem (directory_of e) e.specs e' logs saved h in
      subst (λ x. D.contains c x.managers ≡ D.contains c e.specs) started
        (contains-open_all c e.specs (directory_of e) ims opened)

  -- If no log is left, the manifest has what is registered, and a collection has a manager just
  -- where it has specs, then a new engine that opens over the directory reads in that collection
  -- what the old one did.
  pub get-open_engine :
      (c j : String) (e e' : Engine S)
      → e.wals ≡ []
      → e.manifest ≡ registry e.specs
      → D.contains c e.managers ≡ D.contains c e.specs
      → open_engine (directory_of e) ≡ ok e'
      → get c j e' ≡ get c j e
  get-open_engine c j e e' logs saved keyed h =
      let (ims, opened, started) = open_engine_lem (directory_of e) e.specs e' logs saved h in
      subst (λ x. get c j x ≡ get c j e) started
        (get_alike c j _ e (contains-open_all c e.specs (directory_of e) ims opened ∙ sym keyed)
          refl)
