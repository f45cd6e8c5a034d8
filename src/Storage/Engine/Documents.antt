-- ===== src/Storage/Engine/Documents.antt =====
-- What a read returns after each write of one document.
use text.Mathlib.Text.{◌==◌ as str_eq}
use jsonpy_sql.Prelude.{◌≡◌, refl, String, Option, none, some, List, arith, if◌then◌else◌}
use jsonpy_sql.Python.Dict as D
use jsonpy_sql.Python.Dict.{Dict, string_key, get-set, get-del}
use jsonpy_sql.Python.Value.{Document}
use jsonpy_sql.Python.Result.{Result, ok, ◌>>=◌, ok-injective, call_returned}
use jsonpy_sql.Storage.SortedDict.{SortedDict}
use jsonpy_sql.Storage.DocumentStore as Store
use jsonpy_sql.Storage.DocumentStore.{File, Line}
use jsonpy_sql.Storage.DocumentStore.Reads.{visible, get-append, get-tombstone}
use jsonpy_sql.Storage.IndexManager.{IndexManager}
use jsonpy_sql.Storage.Engine.State.{
  Engine, or_storage_error, file_of, put_file, require, lock, write_back, get, insert, update,
  delete,
}

-- A read of one id, changed by a write of `v` under `id`.
abbrev pub overwrite :
    String → Option Document → String → Result (Option Document) → Result (Option Document)
overwrite id v j r = r >>= λ old. ok (if str_eq id j then v else old)

get-put_file :
    (col c : String) (f : File) (fs : Dict String (List Line))
    → D.get c (put_file col f fs) ≡ (if str_eq col c then f else D.get c fs)
get-put_file col c none fs = get-del col c fs
get-put_file col c (some ls) fs = get-set col c ls fs

module _ {S : Type 0} where
  -- The collection is registered, and its file is there and can be read.
  abbrev pub IsReady : String → Engine S → Type 0
  IsReady col e = (j : String) → (o : Option Document) × (get col j e ≡ ok o)

  -- A read from a state into which one collection was written back.
  pub get-write_back :
      (col c j : String) (ls : List Line) (im : IndexManager S) (e : Engine S)
      → get c j (write_back col (some ls) im e)
        ≡ (if str_eq col c then Store.get j (some ls) else get c j e)
  unfolding get write_back require lock
  get-write_back col c j ls im e =
      ground (arith, get-set col c im e.managers, get-set col c ls e.jsonl)

  -- What a call that has got past `_require` and the lock has found.
  pub locked {ℓ} :
      {B : Type ℓ} (col : String) (e : Engine S) (k : IndexManager S → Result B) {b : B}
      → (require col e >>= λ im. lock col e >>= λ u. k im) ≡ ok b
      → (im : IndexManager S) × (ls : List Line) × (D.get col e.managers ≡ some im)
        × (D.get col e.jsonl ≡ some ls)
        × (k im ≡ ok b)
  unfolding require lock
  locked {B} col e k {b} h = go (D.get col e.managers) (D.get col e.jsonl) refl refl h
    where
      go :
          (m : Option (IndexManager S)) (f : File)
          → D.get col e.managers ≡ m
          → D.get col e.jsonl ≡ f
          → (or_storage_error m >>= λ im. (or_storage_error f >>= λ ls. ok (tt {0})) >>= λ u. k im)
            ≡ ok b
          → (im : IndexManager S) × (ls : List Line) × (D.get col e.managers ≡ some im)
            × (D.get col e.jsonl ≡ some ls)
            × (k im ≡ ok b)
      go none f p q r = absurd (cc)
      go (some im) none p q r = absurd (cc)
      go (some im) (some ls) p q r = (im, ls, p, q, r)

  pub get_opened :
      (col j : String) (e : Engine S) (im : IndexManager S) (ls : List Line)
      → D.get col e.managers ≡ some im
      → D.get col e.jsonl ≡ some ls
      → get col j e ≡ Store.get j (some ls)
  unfolding get require lock
  get_opened col j e im ls p q = rw (p, q)

  pub get-write_back-append :
      (col c id j : String) (d : Document) (e : Engine S) (im im' : IndexManager S) (ls : List Line)
      → D.get col e.managers ≡ some im
      → D.get col e.jsonl ≡ some ls
      → get c j (write_back col (Store.append id d (file_of col e)) im' e)
        ≡ (if str_eq col c then overwrite id (visible d) j (get col j e) else get c j e)
  unfolding Store.append Store.write_line
  get-write_back-append col c id j d e im im' ls p q =
      rw (q, get-write_back, get_opened col j e im ls p q, get-append id j d ls)

  pub get-write_back-tombstone :
      (col c id j : String) (e : Engine S) (im im' : IndexManager S) (ls : List Line)
      → D.get col e.managers ≡ some im
      → D.get col e.jsonl ≡ some ls
      → get c j (write_back col (Store.tombstone id (file_of col e)) im' e)
        ≡ (if str_eq col c then overwrite id none j (get col j e) else get c j e)
  unfolding Store.tombstone Store.write_line
  get-write_back-tombstone col c id j e im im' ls p q =
      rw (q, get-write_back, get_opened col j e im ls p q, get-tombstone id j ls)

module _ {S : Type 0} ⦃sd : SortedDict S⦄ where
  -- A successful `insert` changes what is read under its collection and id, and nothing else.
  pub get-insert :
      (col c id j : String) (d : Document) (e e' : Engine S)
      → insert col id d e ≡ ok e'
      → get c j e' ≡ (if str_eq col c then overwrite id (visible d) j (get col j e) else get c j e)
  unfolding insert
  get-insert col c id j d e e' h =
      let (im, ls, p, q, r) = locked col e _ h in
      rw (← ok-injective r) (get-write_back-append col c id j d e im _ ls p q)

  -- A successful `update` changes what is read under its collection and id, whether or not the id
  -- was there, and nothing else.
  pub get-update :
      (col c id j : String) (d : Document) (e e' : Engine S)
      → update col id d e ≡ ok e'
      → get c j e' ≡ (if str_eq col c then overwrite id (visible d) j (get col j e) else get c j e)
  unfolding update
  get-update col c id j d e e' h =
      let (im, ls, p, q, r) = locked col e _ h in
      let (old, s, t) = call_returned (Store.get id (file_of col e)) _ r in
      rw (← ok-injective t) (get-write_back-append col c id j d e im _ ls p q)

  -- After a successful `delete` nothing is read under its id, and other reads are as before.
  pub get-delete :
      (col c id j : String) (e e' : Engine S)
      → delete col id e ≡ ok e'
      → get c j e' ≡ (if str_eq col c then overwrite id none j (get col j e) else get c j e)
  unfolding delete
  get-delete col c id j e e' h =
      let (im, ls, p, q, r) = locked col e _ h in
      let (old, s, t) = call_returned (Store.get id (file_of col e)) _ r in
      rw (← ok-injective t) (get-write_back-tombstone col c id j e im _ ls p q)

module _ {S : Type 0} where
  -- What a successful read has found.
  pub opened :
      (col j : String) (e : Engine S) {o : Option Document}
      → get col j e ≡ ok o
      → (im : IndexManager S) × (ls : List Line) × (D.get col e.managers ≡ some im)
        × (D.get col e.jsonl ≡ some ls)
        × (Store.get j (file_of col e) ≡ ok o)
  unfolding get
  opened col j e h = locked col e (λ im. Store.get j (file_of col e)) h
