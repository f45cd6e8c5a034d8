-- ===== src/Storage/Engine/Entries.antt =====
-- What the entries of a log do to the documents, one by one and in a row.
use text.Mathlib.Text.{◌==◌ as str_eq}
use jsonpy_sql.Prelude.{
  ◌≡◌, refl, ◌∙◌, String, Option, none, some, List, [], ◌∷◌, arith, eq_iff, if◌then◌else◌, ◌&&◌,
  All, Bool-cases, inl, inr,
}
use jsonpy_sql.Python.Dict as D
use jsonpy_sql.Python.Dict.{string_key}
use jsonpy_sql.Python.Value.{Document}
use jsonpy_sql.Python.Result.{Result, ok, err, ◌>>=◌}
use jsonpy_sql.Storage.SortedDict.{SortedDict}
use jsonpy_sql.Storage.DocumentStore as Store
use jsonpy_sql.Storage.DocumentStore.{Line}
use jsonpy_sql.Storage.DocumentStore.Reads.{visible}
use jsonpy_sql.Storage.IndexManager as Im
use jsonpy_sql.Storage.IndexManager.{IndexManager}
use jsonpy_sql.Storage.Wal.{Op, WalEntry}
use jsonpy_sql.Storage.Wal.Dedup.{last_for}
use jsonpy_sql.Storage.Engine.State.{Engine, file_of, require, write_back, get, with_id, with_id?}
use jsonpy_sql.Storage.Engine.Transactions.{
  document_of, if_truthy, apply_op, apply_entry, apply_all,
}
use jsonpy_sql.Storage.Engine.Documents.{
  overwrite, IsReady, opened, get-write_back-append, get-write_back-tombstone,
}

-- What a reader sees of a document after an entry for it.
abbrev pub effect_of : Op → WalEntry → Option Document
effect_of Op.insert entry = visible (document_of entry)
effect_of Op.update entry = visible (document_of entry)
effect_of Op.delete entry = none

abbrev pub effect : WalEntry → Option Document
effect entry = effect_of entry.op entry

module _ {S : Type 0} where
  -- `e'` is `e` with one document overwritten.
  abbrev pub IsOverwrite : String → String → Option Document → Engine S → Engine S → Type 0
  IsOverwrite col id v e e' =
      (c j : String)
      → get c j e' ≡ (if str_eq col c then overwrite id v j (get col j e) else get c j e)

  -- Writes leave every collection ready that was.
  pub IsOverwrite-IsReady :
      (col id c : String) (v : Option Document) (e e' : Engine S)
      → IsOverwrite col id v e e'
      → IsReady c e
      → IsReady c e'
  IsOverwrite-IsReady col id c v e e' w h j = elim (Bool-cases (str_eq col c)) [
    | inl q ↦
        let same : col ≡ c = (eq_iff col c).0 q in
        (if str_eq id j then v else (h j).0, rw (w c j, q, same, (h j).1))
    | inr q ↦ ((h j).0, rw (w c j, q, (h j).1))
  ]

module _ {S : Type 0} ⦃sd : SortedDict S⦄ where
  apply_op-IsOverwrite :
      (o : Op) (entry : WalEntry) (e : Engine S) (im : IndexManager S) (ls : List Line)
      {old : Option Document}
      → D.get entry.collection e.managers ≡ some im
      → D.get entry.collection e.jsonl ≡ some ls
      → Store.get entry.doc_id (file_of entry.collection e) ≡ ok old
      → (e' : Engine S) × (apply_op o entry im e ≡ ok e')
        × IsOverwrite entry.collection entry.doc_id (effect_of o entry) e e'
        × (e'.wals ≡ e.wals)
  unfolding apply_op write_back
  apply_op-IsOverwrite Op.insert entry e im ls p q r = (
    _,
    refl,
    λ c j.
        get-write_back-append entry.collection c entry.doc_id j (document_of entry) e im _ ls p q,
    refl,
  )
  apply_op-IsOverwrite Op.update entry e im ls {old} p q r = (
    write_back entry.collection
        (Store.append entry.doc_id (document_of entry) (file_of entry.collection e))
        (Im.on_update entry.doc_id (with_id? entry.doc_id (if_truthy old))
          (with_id entry.doc_id (document_of entry)) im)
        e,
    rw r,
    λ c j.
        get-write_back-append entry.collection c entry.doc_id j (document_of entry) e im _ ls p q,
    refl,
  )
  apply_op-IsOverwrite Op.delete entry e im ls {old} p q r = (
    write_back entry.collection (Store.tombstone entry.doc_id (file_of entry.collection e))
        (Im.on_delete entry.doc_id (with_id? entry.doc_id (if_truthy old)) im) e,
    rw r,
    λ c j. get-write_back-tombstone entry.collection c entry.doc_id j e im _ ls p q,
    refl,
  )

  -- Where its collection is ready, an entry is applied, and overwrites its document.
  pub apply_entry-IsOverwrite :
      (entry : WalEntry) (e : Engine S)
      → IsReady entry.collection e
      → (e' : Engine S) × (apply_entry entry e ≡ ok e')
        × IsOverwrite entry.collection entry.doc_id (effect entry) e e'
        × (e'.wals ≡ e.wals)
  unfolding apply_entry require
  apply_entry-IsOverwrite entry e h =
      let (im, ls, p, q, r) = opened entry.collection entry.doc_id e (h entry.doc_id).1 in
      let (e', a, w, x) = apply_op-IsOverwrite entry.op entry e im ls p q r in (e', rw p a, w, x)

-- The read of one document after a log, by the last entry for it.
abbrev pub decide : Option WalEntry → Result (Option Document) → Result (Option Document)
decide none r = r
decide (some entry) r = r >>= λ old. ok (effect entry)

decide_step :
    (c j : String) (entry : WalEntry) (l : Option WalEntry) (r r' : Result (Option Document))
    → r' ≡ (if str_eq entry.collection c then overwrite entry.doc_id (effect entry) j r else r)
    → decide l r'
      ≡ decide
          (elim l [
            | some x ↦ some x
            | none ↦ if str_eq entry.collection c && str_eq entry.doc_id j then some entry else none
          ])
          r
decide_step c j entry (some l) (ok o) r' h = ground arith
decide_step c j entry (some l) (err x) r' h = ground arith
decide_step c j entry none (ok o) r' h = ground arith
decide_step c j entry none (err x) r' h = ground arith

pub All-IsReady :
    {S : Type 0} (entry : WalEntry) (es : List WalEntry) (e e' : Engine S)
    → IsOverwrite entry.collection entry.doc_id (effect entry) e e'
    → All (λ x. IsReady x.collection e) es
    → All (λ x. IsReady x.collection e') es
All-IsReady entry [] e e' w h = tt
All-IsReady entry (x ∷ es) e e' w h = (
  IsOverwrite-IsReady entry.collection entry.doc_id x.collection (effect entry) e e' w h.0,
  All-IsReady entry es e e' w h.1,
)

module _ {S : Type 0} ⦃sd : SortedDict S⦄ where
  -- Entries for ready collections are all applied, and each document is then decided by the last
  -- entry for it.
  pub apply_all_lem :
      (es : List WalEntry) (e : Engine S)
      → All (λ entry. IsReady entry.collection e) es
      → (e' : Engine S) × (apply_all es e ≡ (ok tt, e'))
        × ((c j : String) → get c j e' ≡ decide (last_for c j es) (get c j e))
        × (e'.wals ≡ e.wals)
  unfolding apply_all
  apply_all_lem [] e h = (e, refl, λ c j. refl, refl)
  apply_all_lem (entry ∷ es) e h =
      let (e1, a, w, x) = apply_entry-IsOverwrite entry e h.0 in
      let (e2, b, v, y) = apply_all_lem es e1 (All-IsReady entry es e e1 w h.1) in
      (
        e2,
        rw (a, apply_all) b,
        λ c j.
            v c j
            ∙ decide_step c j entry (last_for c j es) (get c j e) (get c j e1)
                (step c j e1 (w c j)),
        y ∙ x,
      )
    where
      step :
          (c j : String) (e1 : Engine S)
          → get c j e1 ≡ (
              if str_eq entry.collection c
              then overwrite entry.doc_id (effect entry) j (get entry.collection j e)
              else get c j e)
          → get c j e1 ≡ (
              if str_eq entry.collection c
              then overwrite entry.doc_id (effect entry) j (get c j e)
              else get c j e)
      step c j e1 q = ground (arith, eq_iff entry.collection c)
