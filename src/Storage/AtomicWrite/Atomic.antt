-- ===== src/Storage/AtomicWrite/Atomic.antt =====
-- A write beside the place of a file against the file as it was and the data.
use Prim.Native.String.{len}
use text.Mathlib.Text.{◌==◌ as str_eq}
use text.Mathlib.TextPositions.{len-append, eq_refl}
use mathlib.Core.List.{append-nil, append_assoc}
use jsonpy_sql.Prelude.{
  ℕ, suc, ◌≡◌, ◌⊎◌, inl, inr, refl, ap, subst, String, true, false, Option, none, some, List, [],
  ◌∷◌, ◌++◌, arith, eq_iff, if◌then◌else◌, All, Bool-cases,
}
use jsonpy_sql.Python.Dict as D
use jsonpy_sql.Python.Dict.{Dict, string_key, get-set, get-del}
use jsonpy_sql.Python.Result.{Result, ok, err, storage_error}
use jsonpy_sql.Storage.AtomicWrite.{
  Os, Files, Run, tmp_of, write_piece, move, handler, after, at_end, close_and_move, write_pieces,
  write_beside,
}

pub tmp_apart : (path : String) → str_eq (tmp_of path) path ≡ false
tmp_apart path = elim (Bool-cases (str_eq (tmp_of path) path)) [
  | inl same ↦
      absurd (omega (arith, ap len ((eq_iff (tmp_of path) path).0 same), len-append path ".tmp"))
  | inr apart ↦ apart
]

beq_false : (a b : String) → str_eq b a ≡ false → str_eq a b ≡ false
beq_false a b h = ground (arith, eq_iff a b, eq_iff b a)

module _ {C : Type 0} (path : String) (old : Option (List C)) where
  -- A directory in which the file is as it was, or complete
  abbrev pub IsWhole : List C → Files C → Type 0
  IsWhole cs fs = (D.get path fs ≡ old) ⊎ (D.get path fs ≡ some cs)

  -- The call has returned, the file is complete and the temporary one gone, or it has raised a
  -- StorageError and the file is as it was.
  abbrev pub IsEnd : String → List C → Result (Unit {0}) → Files C → Type 0
  IsEnd tmp cs (ok u) fs = (D.get path fs ≡ some cs) × (D.get tmp fs ≡ none)
  IsEnd tmp cs (err x) fs = (x ≡ storage_error) × (D.get path fs ≡ old)

  abbrev pub IsAtomic : String → List C → Run C → Type 0
  IsAtomic tmp cs r = IsEnd tmp cs r.result r.files × All (IsWhole cs) r.seen

  module _ (os : Os) (tmp : String) (apart : str_eq tmp path ≡ false) where
    kept :
        (fs : Files C)
        → D.get path fs ≡ old
        → D.get path (if os.unlinks then D.del tmp fs else fs) ≡ old
    kept fs h = ground (arith, get-del tmp path fs, h, apart)

    handler-IsAtomic :
        (cs : List C) (fs : Files C) → D.get path fs ≡ old → IsAtomic tmp cs (handler os tmp fs)
    unfolding handler
    handler-IsAtomic cs fs h = let same = kept fs h in ((refl, same), (inl same, tt))

    moved :
        (cs : List C) (fs : Files C)
        → D.get tmp fs ≡ some cs
        → move tmp path fs ≡ D.set path cs (D.del tmp fs)
    unfolding move
    moved cs fs t = rw (move, t)

    moved-IsEnd :
        (cs : List C) (fs : Files C)
        → D.get tmp fs ≡ some cs
        → (D.get path (move tmp path fs) ≡ some cs) × (D.get tmp (move tmp path fs) ≡ none)
    moved-IsEnd cs fs t = rw (moved cs fs t) (
      rw (get-set, eq_refl path) refl,
      rw (get-set, beq_false path tmp apart, get-del, eq_refl tmp) refl,
    )

    move-IsAtomic :
        (cs : List C) (fs : Files C)
        → D.get tmp fs ≡ some cs
        → D.get path fs ≡ old
        → IsAtomic tmp cs (close_and_move os tmp path fs)
    unfolding close_and_move
    move-IsAtomic cs fs t h =
        let r = handler-IsAtomic cs fs h in
        let (there, gone) = moved-IsEnd cs fs t in
        elim os.closes
          as (λ b. IsAtomic tmp cs (elim b [
            | false ↦ handler os tmp fs
            | true ↦ elim os.moves [
              | false ↦ handler os tmp fs
              | true ↦ at_end (ok tt) (move tmp path fs)
            ]
          ])) [
            | false ↦ r
            | true ↦
                elim os.moves
                  as (λ b. IsAtomic tmp cs (elim b [
                    | false ↦ handler os tmp fs
                    | true ↦ at_end (ok tt) (move tmp path fs)
                  ])) [ false ↦ r | true ↦ ((there, gone), (inr there, tt)) ]
          ]

    written :
        (c : C) (done : List C) (fs : Files C)
        → D.get tmp fs ≡ some done
        → D.get path fs ≡ old
        → (D.get tmp (write_piece tmp c fs) ≡ some (done ++ c ∷ []))
          × (D.get path (write_piece tmp c fs) ≡ old)
    unfolding write_piece
    written c done fs t h = (rw (get-set, eq_refl tmp, t) refl, rw (get-set, apart) h)

    pieces-IsAtomic :
        (cs : List C) (i : ℕ) (done : List C) (fs : Files C)
        → D.get tmp fs ≡ some done
        → D.get path fs ≡ old
        → IsAtomic tmp (done ++ cs) (write_pieces os tmp path i cs fs)
    unfolding write_pieces
    pieces-IsAtomic [] i done fs t h = rw append-nil (move-IsAtomic done fs t h)
    pieces-IsAtomic (c ∷ cs) i done fs t h =
        let fs' = write_piece tmp c fs in
        let (t', h') = written c done fs t h in
        let (ends, seen) =
          subst (λ ds. IsAtomic tmp ds (write_pieces os tmp path (suc i) cs fs'))
            (append_assoc done (c ∷ []) cs)
            (pieces-IsAtomic cs (suc i) (done ++ c ∷ []) fs' t' h') in
        elim (os.writes i)
          as (λ b. IsAtomic tmp (done ++ c ∷ cs) (elim b [
            | false ↦ handler os tmp fs
            | true ↦ after fs' (write_pieces os tmp path (suc i) cs fs')
          ])) [ false ↦ handler-IsAtomic (done ++ c ∷ cs) fs h | true ↦ (ends, (inl h', seen)) ]

    pub write_beside-IsAtomic :
        (cs : List C) (fs : Files C)
        → D.get path fs ≡ old
        → IsAtomic tmp cs (write_beside os tmp path cs fs)
    unfolding write_beside
    write_beside-IsAtomic cs fs h =
        let fs' = D.set tmp [] fs in
        let h' : D.get path fs' ≡ old = rw (get-set, apart) h in
        let t' : D.get tmp fs' ≡ some [] = rw (get-set, eq_refl tmp) refl in
        let (ends, seen) = pieces-IsAtomic cs 0 [] fs' t' h' in
        elim os.opens
          as (λ b. IsAtomic tmp cs (elim b [
            | false ↦ handler os tmp fs
            | true ↦ after fs' (write_pieces os tmp path 0 cs fs')
          ])) [ false ↦ handler-IsAtomic cs fs h | true ↦ (ends, (inl h', seen)) ]
