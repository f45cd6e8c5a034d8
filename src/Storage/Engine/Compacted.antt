-- ===== src/Storage/Engine/Compacted.antt =====
-- The indexes of a collection after its compaction, which rebuilds them from the scan.
use text.Mathlib.Text.{◌==◌ as str_eq}
use jsonpy_sql.Prelude.{
  ◌≡◌, refl, sym, ◌∙◌, ap, subst, String, Bool, true, false, Option, none, some, List, [], ◌∷◌,
  arith, eq_iff, Bool-cases, inl, inr, all_of,
}
use jsonpy_sql.Python.Dict as D
use jsonpy_sql.Python.Dict.{string_key, get-set, get-del, get-cong}
use jsonpy_sql.Python.Value.{Value, str, to_str, value_eq, value_key, Document, field, or_null}
use jsonpy_sql.Python.Result.{ok, ok-injective, call_returned}
use jsonpy_sql.Storage.SortedDict.{SortedDict}
use jsonpy_sql.Storage.DocumentStore as Store
use jsonpy_sql.Storage.DocumentStore.{id_key, strip_id, live_docs, scan_loop, iter_lines}
use jsonpy_sql.Storage.DocumentStore.Scan.{
  Seen, IsSeen, view, find_doc, find_doc-live_docs, IsSeen-scan_loop, get-scan,
}
use jsonpy_sql.Storage.IndexManager as Im
use jsonpy_sql.Storage.IndexManager.{
  IndexManager, IndexSpec, id_or_empty, id_text, key_of, make_key, key_from,
}
use jsonpy_sql.Storage.IndexManager.Contents.{Holdings, IsExact, listed}
use jsonpy_sql.Storage.IndexManager.Rebuild.{doc_at, HasDistinctIds, rebuild-IsExact}
use jsonpy_sql.Storage.Engine.State.{
  Engine, file_of, compact, scan, get, write_back, with_id, with_id?,
}
use jsonpy_sql.Storage.Engine.Documents.{locked, get_opened}
use jsonpy_sql.Storage.Engine.Indexed.{IsIndexed, holdings, key_from_ext, manager-write_back}
use jsonpy_sql.Storage.Engine.Registry.{compact_lem}

abbrev is_text : Value → Bool
is_text (str s) = true
is_text _ = false

-- The `_id` of the document is a string.
abbrev pub has_text_id : Document → Bool
has_text_id d = is_text (field id_key d)

id_is_text : (o : Option Value) → is_text (or_null o) ≡ true → or_null o ≡ str (id_text o)
unfolding to_str
id_is_text none h = absurd (cc)
id_is_text (some (str s)) h = refl
id_is_text (some (Value.null)) h = absurd (cc)
id_is_text (some (Value.bool b)) h = absurd (cc)
id_is_text (some (Value.int n)) h = absurd (cc)

text_id : (d : Document) → has_text_id d ≡ true → field id_key d ≡ str (id_or_empty d)
text_id d h = id_is_text (D.get "_id" d) h

abbrev stripped : Option Document → Option Document
stripped none = none
stripped (some d) = some (strip_id d)

find_doc-doc_at :
    (j : String) (ds : List Document)
    → all_of has_text_id ds ≡ true
    → find_doc j ds ≡ stripped (doc_at ds j)
unfolding find_doc
find_doc-doc_at j [] h = refl
find_doc-doc_at j (d ∷ ds) h =
    let one : has_text_id d ≡ true = ground arith in
    let others : all_of has_text_id ds ≡ true = ground arith in
    rw (text_id d one) (ground (arith, find_doc-doc_at j ds others))

stripped-none : (o : Option Document) → stripped o ≡ none → o ≡ none
stripped-none none h = refl
stripped-none (some d) h = absurd (cc)

live_docs-HasDistinctIds :
    (seen : Seen)
    → IsSeen seen
    → all_of has_text_id (live_docs seen) ≡ true
    → HasDistinctIds (live_docs seen)
unfolding live_docs
live_docs-HasDistinctIds [] h t = tt
live_docs-HasDistinctIds ((k, none) ∷ seen) h t = live_docs-HasDistinctIds seen h.2 t
live_docs-HasDistinctIds ((k, some d) ∷ seen) (new, entry, h) t =
    let one : has_text_id d ≡ true = ground arith in
    let others : all_of has_text_id (live_docs seen) ≡ true = ground arith in
    let at : value_eq (str (id_or_empty d)) k ≡ true =
      subst (λ v. value_eq v k ≡ true) (text_id d one) entry.0 in
    let absent : view (id_or_empty d) seen ≡ none =
      rw (get-cong (str (id_or_empty d)) k seen at, new) refl in
    (
      stripped-none (doc_at (live_docs seen) (id_or_empty d)) (
          sym (find_doc-doc_at (id_or_empty d) (live_docs seen) others)
          ∙ find_doc-live_docs (id_or_empty d) seen h
          ∙ absent),
      live_docs-HasDistinctIds seen h others,
    )

scan-HasDistinctIds :
    (f : Store.File) (ds : List Document)
    → Store.scan f ≡ ok ds
    → all_of has_text_id ds ≡ true
    → HasDistinctIds ds
unfolding Store.scan
scan-HasDistinctIds f ds h t =
    let (ls, _, h1) = call_returned (iter_lines f) _ h in
    let (seen, p, q) = call_returned (scan_loop [] ls) _ h1 in
    let is : live_docs seen ≡ ds = ok-injective q in
    subst HasDistinctIds is (
      live_docs-HasDistinctIds seen (IsSeen-scan_loop [] ls tt p)
        (subst (λ x. all_of has_text_id x ≡ true) (sym is) t))

doc_at_id :
    (j : String) (ds : List Document) (d : Document)
    → all_of has_text_id ds ≡ true
    → doc_at ds j ≡ some d
    → field id_key d ≡ str j
doc_at_id j [] d t h = absurd (cc)
doc_at_id j (x ∷ ds) d t h =
    let one : has_text_id x ≡ true = ground arith in
    let others : all_of has_text_id ds ≡ true = ground arith in
    elim (Bool-cases (str_eq (id_or_empty x) j)) [
      | inl q ↦
          let same : x ≡ d = ground arith in
          subst (λ y. field id_key y ≡ str j) same
            (text_id x one ∙ ap str ((eq_iff (id_or_empty x) j).0 q))
      | inr q ↦ doc_at_id j ds d others (ground arith)
    ]

field_kept :
    (f j : String) (d : Document)
    → field id_key d ≡ str j
    → field f (with_id j (strip_id d)) ≡ field f d
unfolding strip_id
field_kept f j d h = elim (Bool-cases (str_eq id_key f)) [
  | inl q ↦ rw (get-set, q, ← (eq_iff id_key f).0 q, h) refl
  | inr q ↦ rw (get-set, q, get-del, q) refl
]

listed_kept :
    (j k : String) (spec : IndexSpec) (ds : List Document) (o : Option Document)
    → all_of has_text_id ds ≡ true
    → doc_at ds j ≡ o
    → listed spec o k ≡ listed spec (with_id? j (stripped o)) k
unfolding make_key
listed_kept j k spec ds none t h = refl
listed_kept j k spec ds (some d) t h =
    ap (λ key. str_eq (Im.encode_key key) k)
      (key_from_ext spec.fields d (with_id j (strip_id d))
        (λ f. sym (field_kept f j d (doc_at_id j ds d t h))))

module _ {S : Type 0} ⦃sd : SortedDict S⦄ where
  IsExact-listed :
      (cur cur' : Holdings) (xs : List (IndexSpec × S))
      → ((spec : IndexSpec) (j k : String) → listed spec (cur j) k ≡ listed spec (cur' j) k)
      → IsExact cur xs
      → IsExact cur' xs
  IsExact-listed cur cur' [] same h = tt
  IsExact-listed cur cur' ((spec, idx) ∷ xs) same h =
      (λ j k. rw (← same spec j k) (h.0 j k), IsExact-listed cur cur' xs same h.1)

  -- What a rebuild from the scan of a file lists, against the reads of that file.
  pub rebuilt-IsExact :
      (col : String) (f : Store.File) (live : List Document) (im : IndexManager S) (e : Engine S)
      → Store.scan f ≡ ok live
      → all_of has_text_id live ≡ true
      → ((j : String) → get col j e ≡ Store.get j f)
      → IsExact (holdings col e) (Im.rebuild live im).indexes
  rebuilt-IsExact col f live im e s texts read =
      let here : (j : String) → get col j e ≡ ok (stripped (doc_at live j)) =
        λ j. read j ∙ get-scan j f ∙ rw (s, find_doc-doc_at j live texts) refl in
      IsExact-listed (doc_at live) (holdings col e) (Im.rebuild live im).indexes
        (λ spec j k. listed_kept j k spec live (doc_at live j) texts refl ∙ rw (here j) refl)
        (rebuild-IsExact live im (scan-HasDistinctIds f live s texts))

  manager_written :
      (col : String) (f : Store.File) (im : IndexManager S) (e e' : Engine S)
      → write_back col f im e ≡ e'
      → D.get col e'.managers ≡ some im
  manager_written col f im e e' h =
      subst (λ x. D.get col x.managers ≡ some im) h (manager-write_back col f im e)

  -- A successful compaction of a collection, all of whose documents have strings as `_id`, leaves
  -- indexes that list exactly the documents which reads return, whatever was in them before.
  pub compact-IsIndexed :
      (col : String) (docs : List Document) (e e' : Engine S)
      → scan col e ≡ ok docs
      → all_of has_text_id docs ≡ true
      → compact col e ≡ ok e'
      → IsIndexed col e'
  unfolding compact scan Im.save
  compact-IsIndexed col docs e e' scanned texts h =
      let (im, ls, p, q, r) = locked col e _ h in
      let (live, s, t) = call_returned (Store.scan (file_of col e)) _ r in
      let (_, _, _, _, s1) = locked col e (λ m. Store.scan (file_of col e)) scanned in
      let texts1 : all_of has_text_id live ≡ true =
        subst (λ ds. all_of has_text_id ds ≡ true) (ok-injective (sym s1 ∙ s)) texts in
      (
        Im.save (Im.rebuild live im),
        manager_written col (Store.compact live (file_of col e)) (Im.save (Im.rebuild live im)) e e'
            (ok-injective t),
        rebuilt-IsExact col (file_of col e) live im e' s texts1 (λ j.
            compact_lem col col j e e' h ∙ get_opened col j e im ls p q ∙ ap (Store.get j) (sym q)),
      )
