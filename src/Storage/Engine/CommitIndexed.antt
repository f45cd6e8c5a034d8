-- ===== src/Storage/Engine/CommitIndexed.antt =====
-- The indexes of a collection after the commit of a transaction.
use text.Mathlib.Text.{◌==◌ as str_eq}
use jsonpy_sql.Prelude.{
  ◌≡◌, ◌⊎◌, refl, sym, ◌∙◌, ap, subst, fun_ext, String, true, false, List, [], ◌∷◌, arith, eq_iff,
  All, Bool-cases, inl, inr,
}
use jsonpy_sql.Python.Dict as D
use jsonpy_sql.Python.Dict.{string_key, pair_eq, pair_key, get-set}
use jsonpy_sql.Python.Result.{ok, ◌>>=◌, ok-injective, call_returned}
use jsonpy_sql.Storage.SortedDict.{SortedDict}
use jsonpy_sql.Storage.DocumentStore as Store
use jsonpy_sql.Storage.DocumentStore.{deleted_key}
use jsonpy_sql.Storage.IndexManager.{IndexManager}
use jsonpy_sql.Storage.IndexManager.Contents.{IsExact}
use jsonpy_sql.Storage.Wal as Wal
use jsonpy_sql.Storage.Wal.{Op, WalEntry, WalLine, entry_key, iter_raw, values}
use jsonpy_sql.Storage.Wal.Dedup.{dedup, read_entries-iter_raw, All-dedup}
use jsonpy_sql.Storage.Wal.Apart.{IsApart, dedup-IsApart}
use jsonpy_sql.Storage.Engine.State.{Engine, file_of, require, lock, write_back, get}
use jsonpy_sql.Storage.Engine.Transactions.{
  document_of, apply_op, apply_entry, apply_all, wal_of, delete_wal, commit,
}
use jsonpy_sql.Storage.Engine.Documents.{IsReady}
use jsonpy_sql.Storage.Engine.Entries.{
  IsOverwrite, effect, apply_entry-IsOverwrite, apply_all_lem, All-IsReady,
}
use jsonpy_sql.Storage.Engine.Indexed.{
  IsIndexed, holdings, insert-IsIndexed, update-IsIndexed, delete-IsIndexed,
}
use jsonpy_sql.Storage.Engine.EntryWrites.{fits_read, fits, absent, write, apply_entry-write}

module _ {S : Type 0} ⦃sd : SortedDict S⦄ where
  write-IsIndexed :
      (o : Op) (x : WalEntry) (e e' : Engine S)
      → IsReady x.collection e
      → fits o x e ≡ true
      → IsIndexed x.collection e
      → write o x e ≡ ok e'
      → IsIndexed x.collection e'
  write-IsIndexed Op.insert x e e' ready h exact w =
      insert-IsIndexed x.collection x.doc_id (document_of x) e e' ready
        (absent (get x.collection x.doc_id e) (ground arith)) (ground arith) exact w
  write-IsIndexed Op.update x e e' ready h exact w =
      update-IsIndexed x.collection x.doc_id (document_of x) e e' ready (ground arith) exact w
  write-IsIndexed Op.delete x e e' ready h exact w =
      delete-IsIndexed x.collection x.doc_id e e' ready exact w

  -- An entry for another collection
  other_manager :
      (o : Op) (x : WalEntry) (im : IndexManager S) (e e' : Engine S) (c : String)
      → str_eq x.collection c ≡ false
      → apply_op o x im e ≡ ok e'
      → D.get c e'.managers ≡ D.get c e.managers
  unfolding apply_op write_back
  other_manager Op.insert x im e e' c h w = rw (← ok-injective w, get-set, h) refl
  other_manager Op.update x im e e' c h w =
      let (old, q, r) = call_returned (Store.get x.doc_id (file_of x.collection e)) _ w in
      rw (← ok-injective r, get-set, h) refl
  other_manager Op.delete x im e e' c h w =
      let (old, q, r) = call_returned (Store.get x.doc_id (file_of x.collection e)) _ w in
      rw (← ok-injective r, get-set, h) refl

  other-IsIndexed :
      (x : WalEntry) (e e' : Engine S) (c : String)
      → str_eq x.collection c ≡ false
      → apply_entry x e ≡ ok e'
      → IsOverwrite x.collection x.doc_id (effect x) e e'
      → IsIndexed c e
      → IsIndexed c e'
  unfolding apply_entry
  other-IsIndexed x e e' c h w over (im, p, exact) =
      let (im', p', w') = call_returned (require x.collection e) _ w in
      let same : holdings c e ≡ holdings c e' = fun_ext (λ j. rw (over c j, h) refl) in
      (
        im,
        other_manager x.op x im' e e' c h w' ∙ p,
        subst (λ cur. IsExact cur im.indexes) same exact,
      )

  -- Where its collection can be read and it fits the documents, an entry keeps the indexes of every
  -- collection exact.
  apply_entry-IsIndexed :
      (x : WalEntry) (e e' : Engine S) (c : String)
      → IsReady x.collection e
      → fits x.op x e ≡ true
      → apply_entry x e ≡ ok e'
      → IsOverwrite x.collection x.doc_id (effect x) e e'
      → IsIndexed c e
      → IsIndexed c e'
  apply_entry-IsIndexed x e e' c ready h w over exact = elim (Bool-cases (str_eq x.collection c)) [
    | inr q ↦ other-IsIndexed x e e' c q w over exact
    | inl q ↦
        let same : x.collection ≡ c = (eq_iff x.collection c).0 q in
        subst (λ k. IsIndexed k e') same
          (write-IsIndexed x.op x e e' ready h (subst (λ k. IsIndexed k e) (sym same) exact)
            (sym (apply_entry-write x e ready h) ∙ w))
  ]

-- The entry of another document fits as before.
fits_later :
    {S : Type 0} (x y : WalEntry) (e e' : Engine S)
    → pair_eq (entry_key x) (entry_key y) ≡ false
    → IsOverwrite x.collection x.doc_id (effect x) e e'
    → IsReady y.collection e
    → fits y.op y e ≡ true
    → fits y.op y e' ≡ true
fits_later x y e e' apart over ready h =
    subst (λ r. fits_read y.op y r ≡ true)
      (sym (untouched (Bool-cases (str_eq x.collection y.collection)))) h
  where
    untouched :
        (str_eq x.collection y.collection ≡ true) ⊎ (str_eq x.collection y.collection ≡ false)
        → get y.collection y.doc_id e' ≡ get y.collection y.doc_id e
    untouched (inr q) = over y.collection y.doc_id ∙ rw q refl
    untouched (inl q) =
        let same : x.collection ≡ y.collection = (eq_iff x.collection y.collection).0 q in
        let ids : str_eq x.doc_id y.doc_id ≡ false = ground arith in
        over y.collection y.doc_id ∙ rw (q, same, (ready y.doc_id).1, ids) refl

All-fits :
    {S : Type 0} (x : WalEntry) (es : List WalEntry) (e e' : Engine S)
    → All (λ y. pair_eq (entry_key x) (entry_key y) ≡ false) es
    → IsOverwrite x.collection x.doc_id (effect x) e e'
    → All (λ y. IsReady y.collection e) es
    → All (λ y. fits y.op y e ≡ true) es
    → All (λ y. fits y.op y e' ≡ true) es
All-fits x [] e e' apart over ready h = tt
All-fits x (y ∷ es) e e' apart over ready h =
    (fits_later x y e e' apart.0 over ready.0 h.0, All-fits x es e e' apart.1 over ready.1 h.1)

module _ {S : Type 0} ⦃sd : SortedDict S⦄ where
  apply_all-IsIndexed :
      (es : List WalEntry) (e e' : Engine S) (c : String)
      → IsApart es
      → All (λ y. IsReady y.collection e) es
      → All (λ y. fits y.op y e ≡ true) es
      → IsIndexed c e
      → apply_all es e ≡ (ok tt, e')
      → IsIndexed c e'
  unfolding apply_all
  apply_all-IsIndexed [] e e' c apart ready h exact w =
      let same : e ≡ e' = ap (λ r. r.1) w in subst (λ x. IsIndexed c x) same exact
  apply_all-IsIndexed (x ∷ es) e e' c apart ready h exact w =
      let (e1, a, over, logs) = apply_entry-IsOverwrite x e ready.0 in
      apply_all-IsIndexed es e1 e' c apart.1 (All-IsReady x es e e1 over ready.1)
        (All-fits x es e e1 apart.0 over ready.1 h.1)
        (apply_entry-IsIndexed x e e1 c ready.0 h.0 a over exact) (rest e1 a)
    where
      step : (e1 : Engine S) → apply_entry x e ≡ ok e1 → apply_all (x ∷ es) e ≡ apply_all es e1
      step e1 a = rw (apply_all, a) refl

      rest : (e1 : Engine S) → apply_entry x e ≡ ok e1 → apply_all es e1 ≡ (ok tt, e')
      rest e1 a = sym (step e1 a) ∙ w

  delete_wal-IsIndexed :
      (path : String) (e : Engine S) (c : String) → IsIndexed c e → IsIndexed c (delete_wal path e)
  unfolding delete_wal get require lock
  delete_wal-IsIndexed path e c h = h

  -- Let the log of a transaction hold the entries `es`, let their collections be readable, and let
  -- each entry fit the documents as they are: it inserts a new id, or updates or deletes an id
  -- under which no empty document is stored, and its document is not marked deleted. Then `commit`
  -- succeeds and keeps the indexes of every collection exact, also where several entries are for
  -- one document.
  pub commit-IsIndexed :
      (path c : String) (es : List WalEntry) (e : Engine S)
      → iter_raw (wal_of path e) ≡ ok es
      → All (λ x. IsReady x.collection e) es
      → All (λ x. fits x.op x e ≡ true) es
      → IsIndexed c e
      → (e' : Engine S) × (commit path e ≡ (ok tt, e')) × IsIndexed c e'
  unfolding commit
  commit-IsIndexed path c es e r ready h exact =
      let kept = values (dedup [] es) in
      let read : Wal.read_entries (wal_of path e) ≡ ok kept =
        read_entries-iter_raw (wal_of path e) ∙ ap (λ x. x >>= λ l. ok (values (dedup [] l))) r in
      let all = All-dedup (λ x. IsReady x.collection e) [] es ready tt in
      let (e1, a, w, logs) = apply_all_lem kept e all in
      (
        delete_wal path e1,
        rw (read, commit, a),
        delete_wal-IsIndexed path e1 c (
            apply_all-IsIndexed kept e e1 c (dedup-IsApart es) all
              (All-dedup (λ x. fits x.op x e ≡ true) [] es h tt) exact a),
      )
