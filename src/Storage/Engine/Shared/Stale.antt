-- ===== src/Storage/Engine/Shared/Stale.antt =====
-- The lookups of a process that has an index, against the writes of others.
use jsonpy_sql.Prelude.{
  ℕ, ◌≡◌, refl, sym, ◌∙◌, ap, String, true, false, some, List, [], ◌∷◌, arith, eqb, if◌then◌else◌,
}
use jsonpy_sql.Python.Dict as D
use jsonpy_sql.Python.Dict.{Dict, string_key}
use jsonpy_sql.Python.Value.{Value, to_str}
use jsonpy_sql.Python.Result.{Result, ok, err}
use jsonpy_sql.Storage.SortedDict.{SortedDict}
use jsonpy_sql.Storage.IndexManager as Im
use jsonpy_sql.Storage.IndexManager.{IndexManager, has_index_for, count}
use jsonpy_sql.Storage.Engine.State.{Engine, require, get, lookup}
use jsonpy_sql.Storage.IndexManager.Queries.{has_text, lookup-IsExact}
use jsonpy_sql.Storage.Engine.Indexed.{IsIndexed, holdings}
use jsonpy_sql.Storage.Engine.Shared.Reads.{IsShared, get-perform_all}
use jsonpy_sql.Storage.Engine.Shared.{
  after_writes, Write, by_others, World, managers_of, view, publish, perform, perform_all,
}

module _ {S : Type 0} ⦃sd : SortedDict S⦄ where
  session-publish :
      (p q : ℕ) (r : Result (Engine S)) (world : World S)
      → eqb q p ≡ false
      → (publish p r world).sessions q ≡ world.sessions q
  session-publish p q (ok e') world apart = rw apart refl
  session-publish p q (err x) world apart = refl

  session-perform_all :
      (col : String) (q : ℕ) (ws : List (ℕ × Write)) (world : World S)
      → by_others q ws ≡ true
      → (perform_all col ws world).sessions q ≡ world.sessions q
  unfolding perform_all
  session-perform_all col q [] world h = refl
  session-perform_all col q ((p, w) ∷ ws) world h =
      session-perform_all col q ws (publish p (perform col w (view p world)) world) (ground arith)
      ∙ session-publish p q (perform col w (view p world)) world (ground arith)

  pub lookup_indexed :
      (col f : String) (v : Value) (e : Engine S) (im : IndexManager S)
      → D.get col e.managers ≡ some im
      → has_index_for f im ≡ true
      → lookup col f v e ≡ ok (Im.lookup f v im)
  unfolding lookup require
  lookup_indexed col f v e im found has = rw (found, has) refl

  lookup-perform_all :
      (col f : String) (v : Value) (q : ℕ) (ws : List (ℕ × Write)) (world : World S)
      (im : IndexManager S)
      → by_others q ws ≡ true
      → D.get col (world.sessions q).managers ≡ some im
      → has_index_for f im ≡ true
      → lookup col f v (view q (perform_all col ws world)) ≡ lookup col f v (view q world)
  lookup-perform_all col f v q ws world im others found has =
      let same : managers_of ((perform_all col ws world).sessions q)
          ≡ managers_of (world.sessions q) =
        ap managers_of (session-perform_all col q ws world others) in
      lookup_indexed col f v (view q (perform_all col ws world)) im (ap (D.get col) same ∙ found)
        has
      ∙ sym (lookup_indexed col f v (view q world) im found has)

  -- Let a collection be readable in every process, and let the indexes of one process be exact, one
  -- of them on a field. After writes of other processes, in whichever order they get the lock, this
  -- process reads of each document what the writes give when they are made in that order, but its
  -- lookup in the field still lists the document, once, if and only if the document that it read
  -- before the writes had the text of the value there: what others inserted is not found, and what
  -- they deleted is still listed.
  pub stale-perform_all :
      (col f j : String) (v : Value) (q : ℕ) (ws : List (ℕ × Write)) (world : World S)
      → by_others q ws ≡ true
      → IsShared col world
      → (x : IsIndexed col (view q world)) → has_index_for f x.0 ≡ true
      → let after : Engine S = view q (perform_all col ws world) in
        (get col j after ≡ after_writes ws j (get col j (view q world)))
        × (ids : List String) × (lookup col f v after ≡ ok ids)
        × (count j ids ≡ (if has_text f (to_str v) (holdings col (view q world) j) then 1 else 0))
  stale-perform_all col f j v q ws world others ready (im, p, exact) has = (
    get-perform_all col j ws world q ready,
    Im.lookup f v im,
    lookup-perform_all col f v q ws world im others p has
        ∙ lookup_indexed col f v (view q world) im p has,
    lookup-IsExact f v (holdings col (view q world)) im exact has j,
  )
