-- ===== src/Storage/IndexManager/Queries.antt =====
-- What `lookup` and `range_scan` return from exact and from complete indexes.
use text.Mathlib.Text.{◌==◌ as str_eq}
use jsonpy_sql.Prelude.{
  ◌<◌, ◌≡◌, refl, ◌∙◌, String, Bool, true, false, Option, none, some, List, [], ◌∷◌, map, ◌&&◌,
  arith, eq_iff, if◌then◌else◌, filter_by, Option-cases, inl, inr,
}
use jsonpy_sql.Python.Dict as D
use jsonpy_sql.Python.Dict.{string_key}
use jsonpy_sql.Python.Value.{Value, to_str, str_le, Document, field}
use jsonpy_sql.Storage.SortedDict.{SortedDict, Postings, IsDistinct, in_range}
use jsonpy_sql.Storage.IndexManager.Keys.{IndexSpec, encode_key, make_key, key_from}
use jsonpy_sql.Storage.IndexManager.Index.{count, ids_at, count-append}
use jsonpy_sql.Storage.IndexManager.Manager.{
  IndexManager, only_field, find_index_for, has_index_for, lookup, all_ids, range_scan,
}
use jsonpy_sql.Storage.IndexManager.Contents.{Holdings, listed, IsExact, IsComplete}

-- Whether there is a document, and the text of its field `f` is `k`.
abbrev pub has_text : String → String → Option Document → Bool
has_text f k none = false
has_text f k (some d) = str_eq (to_str (field f d)) k

key_from_only :
    (f : String) (fs : List String) (d : Document)
    → only_field f fs ≡ true
    → encode_key (key_from fs d) ≡ to_str (field f d)
unfolding encode_key
key_from_only f (g ∷ []) d h = ground (arith, eq_iff g f)
key_from_only f [] d h = absurd (cc)
key_from_only f (g ∷ g' ∷ gs) d h = absurd (cc)

listed_only :
    (f : String) (spec : IndexSpec) (o : Option Document) (k : String)
    → only_field f spec.fields ≡ true
    → listed spec o k ≡ has_text f k o
unfolding make_key
listed_only f spec none k h = refl
listed_only f spec (some d) k h = rw (key_from_only f spec.fields d h)

module _ {S : Type 0} ⦃sd : SortedDict S⦄ where
  found-IsExact :
      (f : String) (cur : Holdings) (xs : List (IndexSpec × S)) (idx : S)
      → IsExact cur xs
      → find_index_for f xs ≡ some idx
      → (j k : String) → count j (ids_at k idx) ≡ (if has_text f k (cur j) then 1 else 0)
  unfolding find_index_for
  found-IsExact f cur [] idx h e j k = absurd (cc)
  found-IsExact f cur ((spec, x) ∷ xs) idx h e j k = ground (
    arith,
    h.0 j k,
    listed_only f spec (cur j) k,
    λ (q : find_index_for f xs ≡ some idx). found-IsExact f cur xs idx h.1 q j k,
  )

  found-IsComplete :
      (f : String) (cur : Holdings) (xs : List (IndexSpec × S)) (idx : S)
      → IsComplete cur xs
      → find_index_for f xs ≡ some idx
      → (j k : String) → has_text f k (cur j) ≡ true
      → 0 < count j (ids_at k idx)
  unfolding find_index_for
  found-IsComplete f cur [] idx h e j k t = absurd (cc)
  found-IsComplete f cur ((spec, x) ∷ xs) idx h e j k t = ground (
    arith,
    h.0 j k,
    listed_only f spec (cur j) k,
    λ (q : find_index_for f xs ≡ some idx). found-IsComplete f cur xs idx h.1 q j k t,
  )

  -- From exact indexes, `lookup` yields each document whose field has the text of the value, once,
  -- and no other id.
  pub lookup-IsExact :
      (f : String) (v : Value) (cur : Holdings) (im : IndexManager S)
      → IsExact cur im.indexes
      → has_index_for f im ≡ true
      → (j : String) → count j (lookup f v im) ≡ (if has_text f (to_str v) (cur j) then 1 else 0)
  unfolding lookup has_index_for encode_key
  lookup-IsExact f v cur im h e j = elim (Option-cases (find_index_for f im.indexes)) [
    | inl q ↦ absurd (ground arith)
    | inr (idx, q) ↦ rw q (found-IsExact f cur im.indexes idx h q j (to_str v))
  ]

  -- From complete indexes, `lookup` yields every document whose field has the text of the value.
  pub lookup-IsComplete :
      (f : String) (v : Value) (cur : Holdings) (im : IndexManager S)
      → IsComplete cur im.indexes
      → has_index_for f im ≡ true
      → (j : String) → has_text f (to_str v) (cur j) ≡ true
      → 0 < count j (lookup f v im)
  unfolding lookup has_index_for encode_key
  lookup-IsComplete f v cur im h e j t = elim (Option-cases (find_index_for f im.indexes)) [
    | inl q ↦ absurd (ground arith)
    | inr (idx, q) ↦ rw q (found-IsComplete f cur im.indexes idx h q j (to_str v) t)
  ]

  -- The ids under a range of the keys `p` of an index that lists `j` under `key` alone.
  count-all_ids :
      (j key low high : String) (idx : S) (p : Postings)
      → IsDistinct p
      → ((k : String) → str_eq key k ≡ false → count j (ids_at k idx) ≡ 0)
      → count j (all_ids (map (λ e. e.0) (filter_by (in_range low high) p)) idx) ≡ (
          if D.contains key p && (str_le low key && str_le key high)
          then count j (ids_at key idx)
          else 0)
  unfolding D.get
  count-all_ids j key low high idx [] h other = refl
  count-all_ids j key low high idx ((k, ids) ∷ p) h other = ground (
    arith,
    other k,
    eq_iff key k,
    eq_iff k key,
    count-all_ids j key low high idx p h.1 other,
    count-append j (ids_at k idx) (all_ids (map (λ e. e.0) (filter_by (in_range low high) p)) idx),
  )

-- Whether there is a document, and the text of its field `f` lies between two texts.
abbrev pub text_between : String → String → String → Option Document → Bool
text_between f low high none = false
text_between f low high (some d) =
    str_le low (to_str (field f d)) && str_le (to_str (field f d)) high

module _ {S : Type 0} ⦃sd : SortedDict S⦄ where
  range_count :
      (f : String) (low high : String) (cur : Holdings) (idx : S) (j : String)
      → ((k : String) → count j (ids_at k idx) ≡ (if has_text f k (cur j) then 1 else 0))
      → count j (all_ids (sd.irange low high idx) idx)
        ≡ (if text_between f low high (cur j) then 1 else 0)
  range_count f low high cur idx j h = rw (sd.irange_lem low high idx) (go (cur j) refl)
    where
      go :
          (o : Option Document)
          → cur j ≡ o
          → count j (all_ids (map (λ e. e.0) (filter_by (in_range low high) (sd.items idx))) idx)
            ≡ (if text_between f low high o then 1 else 0)
      go none e =
          count-all_ids j low low high idx (sd.items idx) (sd.items-IsDistinct idx)
            (λ k q. ground (arith, h k))
          ∙ ground (arith, h low)
      go (some d) e =
          let key = to_str (field f d) in
          count-all_ids j key low high idx (sd.items idx) (sd.items-IsDistinct idx)
            (λ k q. ground (arith, h k))
          ∙ ground (arith, h key, sd.get-items key idx, eq_iff key key)

  -- From exact indexes with one on the field, `range_scan` yields each document whose field's text
  -- lies between the texts of the bounds, once, and no other id: the order is that of texts, also
  -- for numbers.
  pub range_scan-IsExact :
      (f : String) (low high : Value) (cur : Holdings) (im : IndexManager S)
      → IsExact cur im.indexes
      → has_index_for f im ≡ true
      → (j : String)
      → count j (range_scan f low high im)
        ≡ (if text_between f (to_str low) (to_str high) (cur j) then 1 else 0)
  unfolding range_scan has_index_for encode_key
  range_scan-IsExact f low high cur im h e j = elim (Option-cases (find_index_for f im.indexes)) [
    | inl q ↦ absurd (ground arith)
    | inr (idx, q) ↦ rw q (
        range_count f (to_str low) (to_str high) cur idx j
          (found-IsExact f cur im.indexes idx h q j))
  ]
