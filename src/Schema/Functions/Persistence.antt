-- ===== src/Schema/Functions/Persistence.antt =====
-- schema/functions.py: what is in the file after several registrations.
use jsonpy_sql.Prelude.{
  ◌≡◌, refl, sym, String, ◌∙◌, ap, Bool, false, Option, none, some, List, [], ◌∷◌, map, All,
}
use text.Mathlib.TextPositions.{eq_refl as str_refl}
use jsonpy_sql.Python.Dict as D
use jsonpy_sql.Python.Dict.{Dict, string_key, get-set, ◌==◌}
use jsonpy_sql.Python.Result.{Result, ok, err, function_error}
use jsonpy_sql.Schema.Registry.{Call}
use jsonpy_sql.Schema.Functions.{
  Dill, FunctionRegistry, function_registry, saved, written, save, returning, register_function,
  register_procedure, load,
}

-- A registration of a function or of a procedure.
pub data Registration (F : Type 0) : Type 0 where
  function procedure : F → Registration F

abbrev pub callable : {F : Type 0} → Registration F → F
callable (function fn) = fn
callable (procedure fn) = fn

-- Whether the first registration takes the place of the second.
abbrev pub replaces : {F : Type 0} → (F → String) → Registration F → Registration F → Bool
replaces name_of (function f) (function g) = name_of f == name_of g
replaces name_of (procedure f) (procedure g) = name_of f == name_of g
replaces name_of (function f) (procedure g) = false
replaces name_of (procedure f) (function g) = false

module _ {F B : Type 0} ⦃dill : Dill F B⦄ where
  abbrev pub register : Registration F → FunctionRegistry F B → Call F (FunctionRegistry F B)
  register (function fn) r = register_function fn r
  register (procedure fn) r = register_procedure fn r

  -- The names that the registry finds, with the registration added.
  abbrev pub add : Registration F → FunctionRegistry F B → FunctionRegistry F B
  add (function fn) r = record r { functions = D.set (dill.name_of fn) fn r.functions }
  add (procedure fn) r = record r { procedures = D.set (dill.name_of fn) fn r.procedures }

  -- A save that returns leaves a file from which everything is read again.
  load-written :
      (o : Option B) (fn : F) (r s : FunctionRegistry F B) {u : F}
      → dill.dump (saved r) ≡ o
      → returning fn (written o r) ≡ (ok u, s)
      → (s.functions ≡ r.functions)
        × (s.procedures ≡ r.procedures)
        × (load (function_registry s.file) ≡ (ok tt, s))
  unfolding load function_registry
  load-written none fn r s q h = absurd (cc)
  load-written (some b) fn r s q h =
      let is : s ≡ record r { file = some b } =
        sym (ap (λ (p : Call F (FunctionRegistry F B)). p.1) h) in
      rw is (refl, refl, rw (dill.load-dump (saved r) b q) refl)

  -- A new registry over the file of a registration that returned is the old one.
  load-register :
      (g : Registration F) (fn : F) (r s : FunctionRegistry F B)
      → register g r ≡ (ok fn, s)
      → (s.functions ≡ (add g r).functions)
        × (s.procedures ≡ (add g r).procedures)
        × (load (function_registry s.file) ≡ (ok tt, s))
  unfolding register_function register_procedure save
  load-register (function f) fn r s h =
      load-written (dill.dump (saved (add (function f) r))) f (add (function f) r) s refl h
  load-register (procedure f) fn r s h =
      load-written (dill.dump (saved (add (procedure f) r))) f (add (procedure f) r) s refl h

  -- What the registry finds under the name of the registration.
  abbrev pub find : Registration F → FunctionRegistry F B → Option F
  find (function fn) r = D.get (dill.name_of fn) r.functions
  find (procedure fn) r = D.get (dill.name_of fn) r.procedures

  -- The results of registrations one after the other, and the registry at the end.
  unfoldable pub register_all :
      List (Registration F) → FunctionRegistry F B → List (Result F) × FunctionRegistry F B
  register_all [] r = ([], r)
  register_all (g ∷ gs) r =
      let now = register g r in let rest = register_all gs now.1 in (now.0 ∷ rest.0, rest.1)

  find-add : (g : Registration F) (r : FunctionRegistry F B) → find g (add g r) ≡ some (callable g)
  find-add (function f) r =
      get-set (dill.name_of f) (dill.name_of f) f r.functions ∙ rw (str_refl (dill.name_of f)) refl
  find-add (procedure f) r =
      get-set (dill.name_of f) (dill.name_of f) f r.procedures ∙ rw (str_refl (dill.name_of f)) refl

  find-add_other :
      (g bad : Registration F) (r : FunctionRegistry F B)
      → replaces dill.name_of g bad ≡ false
      → find bad (add g r) ≡ find bad r
  find-add_other (function f) (function b) r h =
      get-set (dill.name_of f) (dill.name_of b) f r.functions ∙ rw (h) refl
  find-add_other (procedure f) (procedure b) r h =
      get-set (dill.name_of f) (dill.name_of b) f r.procedures ∙ rw (h) refl
  find-add_other (function f) (procedure b) r h = refl
  find-add_other (procedure f) (function b) r h = refl

  add_file : (g : Registration F) (r : FunctionRegistry F B) → (add g r).file ≡ r.file
  add_file (function f) r = refl
  add_file (procedure f) r = refl

  -- Without a dump a registration raises, and stays in the registry.
  register_undumped :
      (g : Registration F) (r : FunctionRegistry F B)
      → dill.dump (saved (add g r)) ≡ none
      → register g r ≡ (err function_error, add g r)
  unfolding register_function register_procedure save
  register_undumped (function f) r h = rw (h) refl
  register_undumped (procedure f) r h = rw (h) refl

  -- While the registry has a callable with which no dump succeeds, registrations raise.
  register_all_raise :
      (bad : Registration F) (gs : List (Registration F)) (r : FunctionRegistry F B)
      → ((s : FunctionRegistry F B) → find bad s ≡ some (callable bad) → dill.dump (saved s) ≡ none)
      → find bad r ≡ some (callable bad)
      → All (λ g. replaces dill.name_of g bad ≡ false) gs
      → ((register_all gs r).0 ≡ map (λ g. err function_error) gs)
        × ((register_all gs r).1.file ≡ r.file)
  unfolding register_all
  register_all_raise bad [] r undumped has others = (refl, refl)
  register_all_raise bad (g ∷ gs) r undumped has others =
      let still = find-add_other g bad r others.0 ∙ has in
      let rest = register_all_raise bad gs (add g r) undumped still others.1 in
      rw (register_undumped g r (undumped (add g r) still))
        (rw (rest.0) refl, rest.1 ∙ add_file g r)

  -- Let every dump of a registry that has a certain callable fail. After a registration that
  -- returned, the callable is registered, and then others, none of them under its name and as its
  -- kind. Then the registrations of the callable and of all of the others raise, the file stays as
  -- the first registration left it, and a new registry over it loads what was registered up to then.
  pub register_all_blocked :
      (g bad : Registration F) (gs : List (Registration F)) (fn : F) (r s : FunctionRegistry F B)
      → register g r ≡ (ok fn, s)
      → ((t : FunctionRegistry F B) → find bad t ≡ some (callable bad) → dill.dump (saved t) ≡ none)
      → All (λ h. replaces dill.name_of h bad ≡ false) gs
      → ((register_all (bad ∷ gs) s).0 ≡ map (λ h. err function_error) (bad ∷ gs))
        × ((register_all (bad ∷ gs) s).1.file ≡ s.file)
        × (load (function_registry (register_all (bad ∷ gs) s).1.file) ≡ (ok tt, s))
  unfolding register_all
  register_all_blocked g bad gs fn r s returned undumped others =
      let there = find-add bad s in
      let rest = register_all_raise bad gs (add bad s) undumped there others in
      let file = rest.1 ∙ add_file bad s in
      rw (register_undumped bad s (undumped (add bad s) there))
        (rw (rest.0) refl, file, rw (file) (load-register g fn r s returned).2)
