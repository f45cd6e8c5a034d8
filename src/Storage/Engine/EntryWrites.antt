-- ===== src/Storage/Engine/EntryWrites.antt =====
-- Where `_apply_entry` makes the write that the operation of the engine would make.
use jsonpy_sql.Prelude.{
  ◌≡◌, refl, sym, ◌∙◌, ap, subst, Bool, true, false, Option, none, some, [], ◌∷◌, arith,
  if◌then◌else◌, ◌&&◌,
}
use jsonpy_sql.Python.Dict as D
use jsonpy_sql.Python.Dict.{string_key, pair_eq, pair_key, get-set}
use jsonpy_sql.Python.Value.{Document, truthy, field}
use jsonpy_sql.Python.Result.{Result, ok, err}
use jsonpy_sql.Storage.SortedDict.{SortedDict}
use jsonpy_sql.Storage.DocumentStore as Store
use jsonpy_sql.Storage.DocumentStore.{deleted_key}
use jsonpy_sql.Storage.IndexManager.{IndexManager}
use jsonpy_sql.Storage.Wal.{Op, WalEntry}
use jsonpy_sql.Storage.Engine.State.{Engine, require, lock, get, insert, update, delete}
use jsonpy_sql.Storage.Engine.Transactions.{document_of, if_truthy, apply_op, apply_entry}
use jsonpy_sql.Storage.Engine.Documents.{IsReady, opened}

abbrev pub is_absent : Result (Option Document) → Bool
is_absent (ok none) = true
is_absent _ = false

abbrev pub is_empty : Result (Option Document) → Bool
is_empty (ok (some [])) = true
is_empty _ = false

abbrev pub is_live : Document → Bool
is_live d = if truthy (field deleted_key d) then false else true

abbrev pub fits_read : Op → WalEntry → Result (Option Document) → Bool
fits_read Op.insert x r = is_absent r && is_live (document_of x)
fits_read Op.update x r = if is_empty r then false else is_live (document_of x)
fits_read Op.delete x r = if is_empty r then false else true

-- The entry inserts a new id, or updates or deletes one under which no empty document is stored;
-- its document is not marked deleted.
abbrev pub fits : {S : Type 0} → Op → WalEntry → Engine S → Bool
fits o x e = fits_read o x (get x.collection x.doc_id e)

full_if_truthy : (o : Option Document) → is_empty (ok o) ≡ false → if_truthy o ≡ o
full_if_truthy none h = refl
full_if_truthy (some []) h = absurd (cc)
full_if_truthy (some (x ∷ d)) h = refl

pub absent : (r : Result (Option Document)) → is_absent r ≡ true → r ≡ ok none
absent (ok none) h = refl
absent (ok (some d)) h = absurd (cc)
absent (err x) h = absurd (cc)

module _ {S : Type 0} ⦃sd : SortedDict S⦄ where
  -- The operation of the engine for an entry
  abbrev pub write : Op → WalEntry → Engine S → Result (Engine S)
  write Op.insert x e = insert x.collection x.doc_id (document_of x) e
  write Op.update x e = update x.collection x.doc_id (document_of x) e
  write Op.delete x e = delete x.collection x.doc_id e

  apply_op-write :
      (o : Op) (x : WalEntry) (e : Engine S) (im : IndexManager S)
      → IsReady x.collection e
      → D.get x.collection e.managers ≡ some im
      → fits o x e ≡ true
      → apply_op o x im e ≡ write o x e
  unfolding apply_op insert update delete require lock
  apply_op-write Op.insert x e im ready p h =
      let (im', ls, p', q, r) = opened x.collection x.doc_id e (ready x.doc_id).1 in rw (p, q) refl
  apply_op-write Op.update x e im ready p h =
      let (im', ls, p', q, r) = opened x.collection x.doc_id e (ready x.doc_id).1 in
      let full : if_truthy (ready x.doc_id).0 ≡ (ready x.doc_id).0 =
        full_if_truthy (ready x.doc_id).0
          (subst (λ r. is_empty r ≡ false) (ready x.doc_id).1 (nonempty h)) in
      let read : Store.get x.doc_id (some ls) ≡ ok (ready x.doc_id).0 =
        ap (Store.get x.doc_id) (sym q) ∙ r in
      rw (p, q, read, full) refl
    where
      nonempty :
          (if is_empty (get x.collection x.doc_id e) then false else is_live (document_of x)) ≡ true
          → is_empty (get x.collection x.doc_id e) ≡ false
      nonempty k = ground arith
  apply_op-write Op.delete x e im ready p h =
      let (im', ls, p', q, r) = opened x.collection x.doc_id e (ready x.doc_id).1 in
      let full : if_truthy (ready x.doc_id).0 ≡ (ready x.doc_id).0 =
        full_if_truthy (ready x.doc_id).0
          (subst (λ r. is_empty r ≡ false) (ready x.doc_id).1 (nonempty h)) in
      let read : Store.get x.doc_id (some ls) ≡ ok (ready x.doc_id).0 =
        ap (Store.get x.doc_id) (sym q) ∙ r in
      rw (p, q, read, full) refl
    where
      nonempty :
          (if is_empty (get x.collection x.doc_id e) then false else true) ≡ true
          → is_empty (get x.collection x.doc_id e) ≡ false
      nonempty k = ground arith

  pub apply_entry-write :
      (x : WalEntry) (e : Engine S)
      → IsReady x.collection e
      → fits x.op x e ≡ true
      → apply_entry x e ≡ write x.op x e
  unfolding apply_entry require
  apply_entry-write x e ready h =
      let (im, ls, p, q, r) = opened x.collection x.doc_id e (ready x.doc_id).1 in
      rw p (apply_op-write x.op x e im ready p h)
