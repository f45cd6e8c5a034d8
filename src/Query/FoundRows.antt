-- ===== src/Query/FoundRows.antt =====
-- The documents that the reads of a list of ids find, as rows, and a filter on them.
use text.Mathlib.Text.{◌==◌ as str_eq}
use mathlib.Core.List.{Memᴰ}
use jsonpy_sql.Prelude.{
  ◌≡◌, refl, sym, ◌∙◌, ap, subst, String, Bool, true, Option, none, some, List, [], ◌∷◌, arith,
  eq_iff, filter_by, all_of, Bool-cases, inl, inr,
}
use jsonpy_sql.Python.Dict.{string_key}
use jsonpy_sql.Python.Value.{Document}
use jsonpy_sql.Python.Result.{ok, ok-injective}
use jsonpy_sql.Storage.IndexManager.{count}
use jsonpy_sql.Storage.Engine.{Engine, get}
use jsonpy_sql.Storage.Engine.Documents.{IsReady}
use jsonpy_sql.Query.Planner.{Predicate}
use jsonpy_sql.Query.Rows.{of_list}
use jsonpy_sql.Query.Executor.{passes, apply_predicates, fetch}

abbrev pub with_document : Option Document → List Document → List Document
with_document none ds = ds
with_document (some d) ds = d ∷ ds

found_here :
    (o : Option Document) (d : Document) (ds : List Document)
    → o ≡ some d
    → Memᴰ d (with_document o ds)
found_here none d ds h = absurd (cc)
found_here (some c) d ds h = Memᴰ.head (cc)

found_later :
    (o : Option Document) (d : Document) (ds : List Document)
    → Memᴰ d ds
    → Memᴰ d (with_document o ds)
found_later none d ds m = m
found_later (some c) d ds m = Memᴰ.tail m

module _ {S : Type 0} where
  -- The documents that reads of these ids find.
  abbrev pub found : (col : String) (e : Engine S) → IsReady col e → List String → List Document
  found col e ready [] = []
  found col e ready (j ∷ ids) = with_document (ready j).0 (found col e ready ids)

  fetched :
      (col j : String) (o : Option Document) (ids : List String) (ds : List Document) (e : Engine S)
      → get col j e ≡ ok o
      → fetch col ids e ≡ of_list ds
      → fetch col (j ∷ ids) e ≡ of_list (with_document o ds)
  unfolding fetch
  fetched col j none ids ds e h k = ground (arith, h, k)
  fetched col j (some d) ids ds e h k = ground (arith, h, k)

  pub fetch-found :
      (col : String) (ids : List String) (e : Engine S) (ready : IsReady col e)
      → fetch col ids e ≡ of_list (found col e ready ids)
  unfolding fetch
  fetch-found col [] e ready = refl
  fetch-found col (j ∷ ids) e ready =
      fetched col j (ready j).0 ids (found col e ready ids) e (ready j).1
        (fetch-found col ids e ready)

  pub found_Mem :
      (col j : String) (d : Document) (e : Engine S) (ready : IsReady col e) (ids : List String)
      → get col j e ≡ ok (some d)
      → count j ids ≡ 1
      → Memᴰ d (found col e ready ids)
  found_Mem col j d e ready [] h c = absurd (omega (arith, c))
  found_Mem col j d e ready (i ∷ ids) h c = elim (Bool-cases (str_eq i j)) [
    | inl t ↦
        found_here (ready i).0 d (found col e ready ids)
          (ok-injective (sym (ready i).1 ∙ ap (λ k. get col k e) ((eq_iff i j).0 t) ∙ h))
    | inr t ↦
        found_later (ready i).0 d (found col e ready ids)
          (found_Mem col j d e ready ids h (ground (arith, c, t)))
  ]

kept :
    (g : Document → Bool) (c : Document) (ds : List Document) (d : Document)
    → Memᴰ d (filter_by g ds)
    → Memᴰ d (filter_by g (c ∷ ds))
kept g c ds d m = elim (Bool-cases (g c)) [
  | inl t ↦
      let p : c ∷ filter_by g ds ≡ filter_by g (c ∷ ds) = rw (t) refl in
      subst (λ xs. Memᴰ d xs) p (Memᴰ.tail m)
  | inr t ↦
      let p : filter_by g ds ≡ filter_by g (c ∷ ds) = rw (t) refl in subst (λ xs. Memᴰ d xs) p m
]

pub filter_Mem :
    (g : Document → Bool) (d : Document) (ds : List Document)
    → g d ≡ true
    → Memᴰ d ds
    → Memᴰ d (filter_by g ds)
filter_Mem g d [] h m = elim m [ ]
filter_Mem g d (x ∷ ds) h (Memᴰ.head q) =
    let p : d ∷ filter_by g ds ≡ filter_by g (x ∷ ds) = rw (← q, h) refl in
    subst (λ xs. Memᴰ d xs) p (Memᴰ.head refl)
filter_Mem g d (x ∷ ds) h (Memᴰ.tail m) = kept g x ds d (filter_Mem g d ds h m)

pub filter_all : (g : Document → Bool) (ds : List Document) → all_of g (filter_by g ds) ≡ true
filter_all g [] = refl
filter_all g (d ∷ ds) = ground (arith, filter_all g ds)

-- A filter that decides a document keeps it, or not, in front of what it keeps of the others.
filtered :
    (p : Predicate) (g : Document → Bool) (o : Option Document) (ds : List Document)
    → ((c : Document) → o ≡ some c → p.test c ≡ ok (g c))
    → apply_predicates (p ∷ []) (of_list ds) ≡ of_list (filter_by g ds)
    → apply_predicates (p ∷ []) (of_list (with_document o ds))
      ≡ of_list (filter_by g (with_document o ds))
unfolding apply_predicates passes
filtered p g none ds h k = k
filtered p g (some c) ds h k = elim (Bool-cases (g c)) [
  | inl t ↦ rw (h c refl, t, k) refl
  | inr t ↦ rw (h c refl, t, k) refl
]

pub found_filtered :
    {S : Type 0} (p : Predicate) (g : Document → Bool) (col : String) (e : Engine S)
    (ready : IsReady col e) (ids : List String)
    → ((i : String) (c : Document) → get col i e ≡ ok (some c) → p.test c ≡ ok (g c))
    → apply_predicates (p ∷ []) (of_list (found col e ready ids))
      ≡ of_list (filter_by g (found col e ready ids))
unfolding apply_predicates
found_filtered p g col e ready [] h = refl
found_filtered p g col e ready (i ∷ ids) h =
    filtered p g (ready i).0 (found col e ready ids) (λ c q. h i c ((ready i).1 ∙ ap ok q))
      (found_filtered p g col e ready ids h)
