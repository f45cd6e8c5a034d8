-- ===== src/Storage/Engine/Shared/Reads.antt =====
-- The reads of several processes, against their writes made one after the other.
use text.Mathlib.Text.{◌==◌ as str_eq}
use text.Mathlib.TextPositions.{eq_refl}
use jsonpy_sql.Prelude.{
  ℕ, ◌≡◌, refl, sym, ◌∙◌, ap, String, Bool, true, false, some, List, [], ◌∷◌, if◌then◌else◌, eqb,
}
use jsonpy_sql.Python.Dict as D
use jsonpy_sql.Python.Dict.{Dict, string_key}
use jsonpy_sql.Python.Result.{ok}
use jsonpy_sql.Storage.SortedDict.{SortedDict}
use jsonpy_sql.Storage.DocumentStore.{Line}
use jsonpy_sql.Storage.DocumentStore as Store
use jsonpy_sql.Storage.IndexManager as Im
use jsonpy_sql.Storage.IndexManager.{IndexManager, has_index_for}
use jsonpy_sql.Storage.Engine.State.{
  Engine, require, lock, file_of, write_back, with_id, with_id?, get, insert, update, delete,
}
use jsonpy_sql.Storage.Engine.Documents.{
  overwrite, IsReady, opened, get-insert, get-update, get-delete,
}
use jsonpy_sql.Storage.Engine.Reopening.{get_alike}
use jsonpy_sql.Storage.Engine.Shared.{
  Write, inserting, updating, deleting, id_of, shown, after_writes, World, view, publish, perform,
  perform_all,
}

module _ {S : Type 0} ⦃sd : SortedDict S⦄ where
  get-perform :
      (col j : String) (w : Write) (e e' : Engine S)
      → perform col w e ≡ ok e'
      → get col j e' ≡ overwrite (id_of w) (shown w) j (get col j e)
  unfolding perform
  get-perform col j (inserting id d) e e' h =
      get-insert col col id j d e e' h ∙ rw (eq_refl col) refl
  get-perform col j (updating id d) e e' h =
      get-update col col id j d e e' h ∙ rw (eq_refl col) refl
  get-perform col j (deleting id) e e' h = get-delete col col id j e e' h ∙ rw (eq_refl col) refl

  perform_returns :
      (col : String) (w : Write) (e : Engine S)
      → IsReady col e
      → (e' : Engine S) × (perform col w e ≡ ok e')
  unfolding perform insert update delete require lock
  perform_returns col (inserting id d) e ready =
      let (im, ls, p, q, r) = opened col id e (ready id).1 in
      (
        write_back col (Store.append id d (file_of col e)) (Im.on_insert id (with_id id d) im) e,
        rw (p, q) refl,
      )
  perform_returns col (updating id d) e ready =
      let (im, ls, p, q, r) = opened col id e (ready id).1 in
      let read : Store.get id (some ls) ≡ ok (ready id).0 = ap (Store.get id) (sym q) ∙ r in
      (
        write_back col (Store.append id d (file_of col e))
            (Im.on_update id (with_id? id (ready id).0) (with_id id d) im) e,
        rw (p, q, read) refl,
      )
  perform_returns col (deleting id) e ready =
      let (im, ls, p, q, r) = opened col id e (ready id).1 in
      let read : Store.get id (some ls) ≡ ok (ready id).0 = ap (Store.get id) (sym q) ∙ r in
      (
        write_back col (Store.tombstone id (file_of col e))
            (Im.on_delete id (with_id? id (ready id).0) im) e,
        rw (p, q, read) refl,
      )

  perform-IsReady :
      (col : String) (w : Write) (e e' : Engine S)
      → IsReady col e
      → perform col w e ≡ ok e'
      → IsReady col e'
  perform-IsReady col w e e' ready h j = (
    if str_eq (id_of w) j then shown w else (ready j).0,
    get-perform col j w e e' h ∙ rw (ready j).1 refl,
  )

  -- Every process can read the collection.
  abbrev pub IsShared : String → World S → Type 0
  IsShared col world = (p : ℕ) → IsReady col (view p world)

  registered : (col j : String) (e : Engine S) → IsReady col e → D.contains col e.managers ≡ true
  registered col j e ready =
      let (im, ls, p, q, r) = opened col j e (ready j).1 in rw (D.contains, p) refl

  -- After a write of one process, every process reads what the writer reads.
  read_published :
      (col j : String) (p q : ℕ) (w : Write) (world : World S) (e' : Engine S)
      → IsShared col world
      → perform col w (view p world) ≡ ok e'
      → get col j (view q (publish p (ok e') world))
        ≡ overwrite (id_of w) (shown w) j (get col j (view q world))
  read_published col j p q w world e' ready h =
      get_alike col j (view q (publish p (ok e') world)) e'
        (known (eqb q p)
          ∙ sym (registered col j e' (perform-IsReady col w (view p world) e' (ready p) h)))
        refl
      ∙ get-perform col j w (view p world) e' h
      ∙ ap (overwrite (id_of w) (shown w) j) (
          get_alike col j (view p world) (view q world)
            (registered col j (view p world) (ready p)
              ∙ sym (registered col j (view q world) (ready q)))
            refl)
    where
      known : (b : Bool) → D.contains col (if b then e' else world.sessions q).managers ≡ true
      known true = registered col j e' (perform-IsReady col w (view p world) e' (ready p) h)
      known false = registered col j (view q world) (ready q)

  publish-IsShared :
      (col : String) (p : ℕ) (w : Write) (world : World S) (e' : Engine S)
      → IsShared col world
      → perform col w (view p world) ≡ ok e'
      → IsShared col (publish p (ok e') world)
  publish-IsShared col p w world e' ready h q j = (
    if str_eq (id_of w) j then shown w else (ready q j).0,
    read_published col j p q w world e' ready h ∙ rw (ready q j).1 refl,
  )

  -- Let a collection be readable in every process. Whichever processes write to it, in whichever
  -- order they get the lock, every process then reads of each document what the writes give when
  -- they are made one after the other in that order.
  pub get-perform_all :
      (col j : String) (ws : List (ℕ × Write)) (world : World S) (q : ℕ)
      → IsShared col world
      → get col j (view q (perform_all col ws world)) ≡ after_writes ws j (get col j (view q world))
  unfolding perform_all
  get-perform_all col j [] world q ready = refl
  get-perform_all col j ((p, w) ∷ ws) world q ready =
      let (e', h) = perform_returns col w (view p world) (ready p) in
      let step : publish p (perform col w (view p world)) world ≡ publish p (ok e') world =
        ap (λ r. publish p r world) h in
      ap (λ x. get col j (view q (perform_all col ws x))) step
      ∙ get-perform_all col j ws (publish p (ok e') world) q
          (publish-IsShared col p w world e' ready h)
      ∙ ap (after_writes ws j) (read_published col j p q w world e' ready h)
