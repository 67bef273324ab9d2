-- ===== src/Analysis/Spec/Fields.antt =====
-- What the fields of an entry say: of a function the last field of an attribute that has a value of its
-- type, and of a variable the first field of an attribute.
use godbg.Common.{
  if◌then◌else◌, ◌≡◌, refl, ap, ◌∙◌, arith, Bool, true, false, Option, none, some, List, [], ◌∷◌,
}
use godbg.Common.Bytes.{Bytes}
use godbg.Common.Int.{ℤ}
use godbg.Common.{ℕ}
use godbg.Bi.{Variable, Function}
use godbg.Dwarf.{
  Attr, attr_name, attr_lowpc, attr_highpc, attr_location, attr_frame_base, attr_decl_file,
  attr_external, Value, val_string, val_uint64, val_int64, val_bytes, val_bool, Field, Die, name_in,
  name_of, location_in, location_of, variable_of,
}
use godbg.Analysis.{set_field, set_fields}

-- What a field says of one property.
abbrev pub Says : Type 0 → Type 0
Says A = Attr → Value → Option A

abbrev pub name_said : Says Bytes
name_said attr_name (val_string s) = some s
name_said _ _ = none

abbrev pub lowpc_said : Says ℕ
lowpc_said attr_lowpc (val_uint64 n) = some n
lowpc_said _ _ = none

abbrev pub highpc_said : Says ℕ
highpc_said attr_highpc (val_uint64 n) = some n
highpc_said _ _ = none

abbrev pub frame_base_said : Says Bytes
frame_base_said attr_frame_base (val_bytes bs) = some bs
frame_base_said _ _ = none

abbrev pub decl_file_said : Says ℤ
decl_file_said attr_decl_file (val_int64 z) = some z
decl_file_said _ _ = none

abbrev pub external_said : Says Bool
external_said attr_external (val_bool b) = some b
external_said _ _ = none

abbrev pub or_else : {A : Type 0} → Option A → A → A
or_else none d = d
or_else (some a) d = a

-- The last word on it, or `d` where no field says anything.
unfoldable pub last_said : {A : Type 0} → Says A → A → List Field → A
last_said says d [] = d
last_said says d (x ∷ xs) = last_said says (or_else (says x.attr x.val) d) xs

module _ {A : Type 0} (get : Function → A) (says : Says A)
    (one : (f : Function) (a : Attr) (v : Value)
      → get (set_field f a v) ≡ or_else (says a v) (get f)) where
  set_fields-last_said :
      (xs : List Field) (f : Function) → get (set_fields xs f) ≡ last_said says (get f) xs
  unfolding set_fields last_said
  set_fields-last_said [] f = refl
  set_fields-last_said (x ∷ xs) f =
      set_fields-last_said xs (set_field f x.attr x.val)
      ∙ ap (λ d. last_said says d xs) (one f x.attr x.val)

set_fields-kept :
    {A : Type 0} (get : Function → A)
    → ((f : Function) (a : Attr) (v : Value) → get (set_field f a v) ≡ get f)
    → (xs : List Field) (f : Function) → get (set_fields xs f) ≡ get f
unfolding set_fields
set_fields-kept get one [] f = refl
set_fields-kept get one (x ∷ xs) f =
    set_fields-kept get one xs (set_field f x.attr x.val) ∙ one f x.attr x.val

-- The function that the fields describe, where `f` says what holds without them.
abbrev pub described : List Field → Function → Function
described xs f = record f {
  name = last_said name_said f.name xs;
  lowpc = last_said lowpc_said f.lowpc xs;
  highpc = last_said highpc_said f.highpc xs;
  frame_base = last_said frame_base_said f.frame_base xs;
  decl_file = last_said decl_file_said f.decl_file xs;
  external = last_said external_said f.external xs;
}

pub set_fields-described : (xs : List Field) (f : Function) → set_fields xs f ≡ described xs f
set_fields-described xs f =
    let name = set_fields-last_said (λ g. g.name) name_said (λ g a v. ground arith) xs f in
    let lowpc = set_fields-last_said (λ g. g.lowpc) lowpc_said (λ g a v. ground arith) xs f in
    let highpc = set_fields-last_said (λ g. g.highpc) highpc_said (λ g a v. ground arith) xs f in
    let base =
      set_fields-last_said (λ g. g.frame_base) frame_base_said (λ g a v. ground arith) xs f in
    let file =
      set_fields-last_said (λ g. g.decl_file) decl_file_said (λ g a v. ground arith) xs f in
    let external =
      set_fields-last_said (λ g. g.external) external_said (λ g a v. ground arith) xs f in
    let rest = set_fields-kept (λ g. g.variables) (λ g a v. ground arith) xs f in
    let unit = set_fields-kept (λ g. g.cu) (λ g a v. ground arith) xs f in
    λ i. record {
      name = name i;
      lowpc = lowpc i;
      highpc = highpc i;
      frame_base = base i;
      decl_file = file i;
      external = external i;
      variables = rest i;
      cu = unit i;
    }

-- The first field of an attribute.
unfoldable pub first_value : (Attr → Bool) → List Field → Option Value
first_value is_it [] = none
first_value is_it (x ∷ xs) =
    let rest = first_value is_it xs in if is_it x.attr then some x.val else rest

abbrev pub is_name : Attr → Bool
is_name attr_name = true
is_name _ = false

abbrev pub is_location : Attr → Bool
is_location attr_location = true
is_location _ = false

abbrev pub text : Option Value → Option Bytes
text (some (val_string s)) = some s
text _ = none

abbrev pub block : Option Value → Option Bytes
block (some (val_bytes bs)) = some bs
block _ = none

-- The variable that the fields describe.
abbrev pub variable_said : List Field → Variable
variable_said xs = record {
  name = text (first_value is_name xs);
  location = block (first_value is_location xs);
}

name_in-text :
    (a : Attr) (v : Value) (o : Option Value)
    → name_in a v (text o) ≡ text (if is_name a then some v else o)
name_in-text a v o = ground arith

location_in-block :
    (a : Attr) (v : Value) (o : Option Value)
    → location_in a v (block o) ≡ block (if is_location a then some v else o)
location_in-block a v o = ground arith

name_of-text : (xs : List Field) → name_of xs ≡ text (first_value is_name xs)
unfolding name_of first_value
name_of-text [] = refl
name_of-text (x ∷ xs) =
    ap (name_in x.attr x.val) (name_of-text xs) ∙ name_in-text x.attr x.val (first_value is_name xs)

location_of-block : (xs : List Field) → location_of xs ≡ block (first_value is_location xs)
unfolding location_of first_value
location_of-block [] = refl
location_of-block (x ∷ xs) =
    ap (location_in x.attr x.val) (location_of-block xs)
    ∙ location_in-block x.attr x.val (first_value is_location xs)

pub variable_of-said : (die : Die) → variable_of die ≡ variable_said die.fields
unfolding variable_of
variable_of-said die = rw (name_of-text die.fields, location_of-block die.fields) refl
