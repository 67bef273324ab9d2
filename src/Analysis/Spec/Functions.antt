-- ===== src/Analysis/Spec/Functions.antt =====
-- ParseLineAndInfoSection inside a unit: the loop over the entries of its functions.
use godbg.Common.{
  length, length-append, ℕ, suc, ◌≡◌, refl, sym, ap, ◌∙◌, Option, some, List, [], ◌∷◌, ◌++◌, map,
  arith,
}
use godbg.Common.Result.{Result, ok}
use godbg.Bi.{Sources, Variable, Function, CompileUnit}
use godbg.Dwarf.{Tag, Field, Die, DwarfData}
use godbg.Analysis.{Scan, modify, set_fields, empty_function, add_function, add_variable, dies_loop}
use godbg.Analysis.Spec.{
  Item, local, skipped, FunctionEntry, die_of, body_dies, type_dies, function_dies, variables_of,
  function_of, numbers,
}
use godbg.Analysis.Spec.Fields.{set_fields-described, variable_said, variable_of-said}
use godbg.Frame.{VirtualUnwindFrameInformation}
use mathlib.Core.List.{append_assoc, append-nil}

modify_last :
    {A : Type 0} (g : A → A) (xs : List A) (x : A)
    → modify (length xs) g (xs ++ (x ∷ [])) ≡ xs ++ (g x ∷ [])
unfolding modify
modify_last g [] x = refl
modify_last g (y ∷ ys) x = ap (◌∷◌ y) (modify_last g ys x)

abbrev with_variables : Function → List Variable → Function
with_variables f vs = record f { variables = f.variables ++ vs }

with_variables-function_of :
    (n : ℕ) (e : FunctionEntry)
    → with_variables (set_fields e.fields (empty_function n)) (variables_of e.body)
      ≡ function_of n e
with_variables-function_of n e =
    ap (λ f. with_variables f (variables_of e.body))
      (set_fields-described e.fields (empty_function n))

pub length-snoc : {A : Type 0} (xs : List A) (x : A) → length (xs ++ (x ∷ [])) ≡ suc (length xs)
length-snoc xs x = omega (arith, length-append xs (x ∷ []))

abbrev pub unit_with : List ℕ → CompileUnit
unit_with is = record { functions = is }

module _ (dwarf : DwarfData) where
  -- The loop on entries that are read without an error, where the tables stand at these values.
  abbrev pub from_here :
      List Die
      → Option Sources
      → List Function
      → List CompileUnit
      → List VirtualUnwindFrameInformation
      → Option ℕ
      → Option ℕ
      → Result Scan
  from_here dies ss fs us infos u f = dies_loop dwarf (map ok dies) (record {
    bi = record { sources = ss; functions = fs; compile_units = us; frames_information = infos };
    unit = u;
    function = f;
  })

  module _ (ss : Option Sources) (infos : List VirtualUnwindFrameInformation) where
    body-from_here :
        (items : List Item) (rest : List Die) (fs : List Function) (f : Function)
        (us : List CompileUnit) (u : Option ℕ)
        → from_here (body_dies items rest) ss (fs ++ (f ∷ [])) us infos u (some (length fs))
          ≡ from_here rest ss
              (fs ++ (with_variables f (variables_of items) ∷ []))
              us
              infos
              u
              (some (length fs))
    unfolding dies_loop body_dies variables_of
    body-from_here [] rest fs f us u =
        ap
          (λ vs.
            from_here rest ss (fs ++ (record f { variables = vs } ∷ [])) us infos u
              (some (length fs)))
          (sym (append-nil f.variables))
    body-from_here (local x ∷ items) rest fs f us u =
        let v = variable_said x in
        ap
          (λ v.
            from_here (body_dies items rest) ss
              (modify (length fs) (add_variable v) (fs ++ (f ∷ []))) us infos u (some (length fs)))
          (variable_of-said (die_of Tag.variable x))
        ∙ ap (λ gs. from_here (body_dies items rest) ss gs us infos u (some (length fs)))
            (modify_last (add_variable v) fs f)
        ∙ body-from_here items rest fs (add_variable v f) us u
        ∙ ap
            (λ vs.
              from_here rest ss (fs ++ (record f { variables = vs } ∷ [])) us infos u
                (some (length fs)))
            (append_assoc f.variables (v ∷ []) (variables_of items))
    body-from_here (skipped x ∷ items) rest fs f us u = body-from_here items rest fs f us u

    pub types-from_here :
        (types : List (List Field)) (rest : List Die) (fs : List Function) (us : List CompileUnit)
        (u f : Option ℕ)
        → from_here (type_dies types rest) ss fs us infos u f ≡ from_here rest ss fs us infos u f
    unfolding dies_loop type_dies
    types-from_here [] rest fs us u f = refl
    types-from_here (x ∷ types) rest fs us u f = types-from_here types rest fs us u f

    -- The functions of the unit that was entered last.
    pub functions-from_here :
        (es : List FunctionEntry) (rest : List Die) (fs : List Function) (us : List CompileUnit)
        (is : List ℕ) (p : Option ℕ)
        → (q : Option ℕ) × (from_here
              (function_dies es rest)
              ss
              fs
              (us ++ (unit_with is ∷ []))
              infos
              (some (length us))
              p
            ≡ from_here rest ss
                (fs ++ map (function_of (length us)) es)
                (us ++ (unit_with (is ++ numbers (length fs) (length es)) ∷ []))
                infos
                (some (length us))
                q)
    unfolding dies_loop function_dies numbers
    functions-from_here [] rest fs us is p = (p, rw append-nil (rw append-nil refl))
    functions-from_here (e ∷ es) rest fs us is p =
        let n = length us in
        let f = set_fields e.fields (empty_function n) in
        let after = function_dies es rest in
        let fs' = fs ++ (function_of n e ∷ []) in
        let is' = is ++ (length fs ∷ []) in
        let (q, runs) = functions-from_here es rest fs' us is' (some (length fs)) in
        (
          q,
          ap
                (λ vs.
                  from_here (body_dies e.body after) ss (fs ++ (f ∷ [])) vs infos (some n)
                    (some (length fs)))
                (modify_last (add_function (length fs)) us (unit_with is))
              ∙ body-from_here e.body after fs f (us ++ (unit_with is' ∷ [])) (some n)
              ∙ ap
                  (λ g.
                    from_here after ss (fs ++ (g ∷ [])) (us ++ (unit_with is' ∷ [])) infos (some n)
                      (some (length fs)))
                  (with_variables-function_of n e)
              ∙ runs
              ∙ ap
                  (λ js.
                    from_here rest ss (fs' ++ map (function_of n) es) (us ++ (unit_with js ∷ []))
                      infos (some n) q)
                  (append_assoc is (length fs ∷ []) (numbers (length fs') (length es))
                    ∙ ap (λ m. is ++ (length fs ∷ numbers m (length es)))
                        (length-snoc fs (function_of n e)))
              ∙ ap
                  (λ gs.
                    from_here rest ss gs
                      (us ++ (unit_with (is ++ numbers (length fs) (length (e ∷ es))) ∷ [])) infos
                      (some n) q)
                  (append_assoc fs (function_of n e ∷ []) (map (function_of n) es)),
        )
