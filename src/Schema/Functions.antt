-- ===== src/Schema/Functions.antt =====
-- schema/functions.py: `FunctionRegistry`. `dill` is not part of the repository: `Dill F B` is what
-- the program uses of it, over the callables `F` and the contents `B` of a file. I/O errors are not
-- modelled, and the temporary file is left out: it is removed or has become the file.
pub mod Persistence
use text.Mathlib.Text.{starts_with}
use jsonpy_sql.Prelude.{
  ◌≡◌, String, Bool, true, false, Option, none, some, List, [], ◌∷◌, map, if◌then◌else◌,
}
use jsonpy_sql.Python.Dict as D
use jsonpy_sql.Python.Dict.{Dict, string_key}
use jsonpy_sql.Python.Result.{Result, ok, err, function_error, attribute_error}
use jsonpy_sql.Schema.Registry.{Call, sorted_names}

-- The dictionary that is saved, whose keys a file may lack.
pub record Saved (F : Type 0) : Type 0 where
  pub functions : Option (Dict String F)
  pub procedures : Option (Dict String F)

-- `dump` and `load` are none where they raise; a dump that succeeds can be loaded again.
pub record Dill (F B : Type 0) : Type 0 where
  pub dump : Saved F → Option B
  pub load : B → Option (Saved F)
  pub load-dump : (entry : Saved F) (b : B) → dump entry ≡ some b → load b ≡ some entry
  -- `fn.__name__`
  pub name_of : F → String

-- The registry, and the content of `functions.pkl`, if it is there.
pub record FunctionRegistry (F B : Type 0) : Type 0 where
  pub functions : Dict String F
  pub procedures : Dict String F
  pub file : Option B

abbrev pub or_empty : {F : Type 0} → Option (Dict String F) → Dict String F
or_empty none = []
or_empty (some d) = d

abbrev pub or_function_error : {F : Type 0} → Option F → Result F
or_function_error none = err function_error
or_function_error (some fn) = ok fn

abbrev pub returning : {F T : Type 0} → F → Call (Unit {0}) T → Call F T
returning fn (ok u, r) = (ok fn, r)
returning fn (err x, r) = (err x, r)

module _ {F B : Type 0} where
  -- `__init__`, over the file that is there
  unfoldable pub function_registry : Option B → FunctionRegistry F B
  function_registry file = record { functions = []; procedures = []; file = file }

  unfoldable pub get_function : String → FunctionRegistry F B → Result F
  get_function name r = or_function_error (D.get name r.functions)

  unfoldable pub get_procedure : String → FunctionRegistry F B → Result F
  get_procedure name r = or_function_error (D.get name r.procedures)

  -- `__getattr__`
  unfoldable pub getattr : String → FunctionRegistry F B → Result F
  getattr name r =
      if starts_with name "_" then err attribute_error else (elim (D.get name r.functions) [
        | some fn ↦ ok fn
        | none ↦ or_function_error (D.get name r.procedures)
      ])

  unfoldable pub list_functions : FunctionRegistry F B → List String
  list_functions r = sorted_names (map (λ f. f.0) r.functions)

  unfoldable pub list_procedures : FunctionRegistry F B → List String
  list_procedures r = sorted_names (map (λ f. f.0) r.procedures)

  abbrev pub saved : FunctionRegistry F B → Saved F
  saved r = record { functions = some r.functions; procedures = some r.procedures }

module _ {F B : Type 0} ⦃dill : Dill F B⦄ where
  abbrev pub written : Option B → FunctionRegistry F B → Call (Unit {0}) (FunctionRegistry F B)
  written none r = (err function_error, r)
  written (some b) r = (ok tt, record r { file = some b })

  -- `_save`
  unfoldable pub save : FunctionRegistry F B → Call (Unit {0}) (FunctionRegistry F B)
  save r = written (dill.dump (saved r)) r

  unfoldable pub register_function : F → FunctionRegistry F B → Call F (FunctionRegistry F B)
  register_function fn r =
      returning fn (save (record r { functions = D.set (dill.name_of fn) fn r.functions }))

  unfoldable pub register_procedure : F → FunctionRegistry F B → Call F (FunctionRegistry F B)
  register_procedure fn r =
      returning fn (save (record r { procedures = D.set (dill.name_of fn) fn r.procedures }))

  abbrev pub loaded :
      Option (Saved F) → FunctionRegistry F B → Call (Unit {0}) (FunctionRegistry F B)
  loaded none r = (err function_error, r)
  loaded (some entry) r = (
    ok tt,
    record r { functions = or_empty entry.functions; procedures = or_empty entry.procedures },
  )

  unfoldable pub load : FunctionRegistry F B → Call (Unit {0}) (FunctionRegistry F B)
  load r = elim r.file [ none ↦ (ok tt, r) | some b ↦ loaded (dill.load b) r ]
