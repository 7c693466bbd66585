-- ===== src/Grounded/Output.antt =====
-- _output.py: the strings of a generated output, a text or a tree of JSON values.
use Prim.Native.String.{count}
use text.Mathlib.Text.{starts_with}
use dext.Base.{
  ℕ, zero, suc, ◌-◌, String, List, [], ◌∷◌, ◌++◌, not, keep_if, is_empty, if◌then◌else◌, ◌==◌,
}

-- `atom` is a number, a Boolean or `None`; a tuple is an `arr`.
mutual
  pub data Value : Type 0 where
    str : String → Value
    atom : String → Value
    arr : Values → Value
    obj : Fields → Value

  pub data Values : Type 0 where
    nil : Values
    cons : Value → Values → Values

  pub data Fields : Type 0 where
    end : Fields
    field : String → Value → Fields → Fields

unfoldable mutual
  pub iter_output_strings : Value → List String
  iter_output_strings (str s) = s ∷ []
  iter_output_strings (atom a) = []
  iter_output_strings (arr vs) = iter_values vs
  iter_output_strings (obj fs) = iter_fields fs

  pub iter_values : Values → List String
  iter_values nil = []
  iter_values (cons v vs) = iter_output_strings v ++ iter_values vs

  pub iter_fields : Fields → List String
  iter_fields end = []
  iter_fields (field k v fs) = iter_output_strings v ++ iter_fields fs

unfoldable mutual
  pub map_output_strings : (String → String) → Value → Value
  map_output_strings f (str s) = str (f s)
  map_output_strings f (atom a) = atom a
  map_output_strings f (arr vs) = arr (map_values f vs)
  map_output_strings f (obj fs) = obj (map_fields f fs)

  pub map_values : (String → String) → Values → Values
  map_values f nil = nil
  map_values f (cons v vs) = cons (map_output_strings f v) (map_values f vs)

  pub map_fields : (String → String) → Fields → Fields
  map_fields f end = end
  map_fields f (field k v fs) = field k (map_output_strings f v) (map_fields f fs)

unfoldable pub empty_output : Value → Value
empty_output (obj fs) = obj end
empty_output v = str ""

-- `text.replace(fragment, "")` of a fragment that is not empty: `skip` characters of an occurrence
-- are still to be dropped.
unfoldable pub remove_from : String → ℕ → String → String
remove_from fragment skip String.[] = ""
remove_from fragment (suc skip) (String.◌∷◌ c s) = remove_from fragment skip s
remove_from fragment zero (String.◌∷◌ c s) =
    let rest = remove_from fragment zero s in
    let after = remove_from fragment (count fragment - 1) s in
    if starts_with (String.◌∷◌ c s) fragment then after else String.◌∷◌ c rest

-- The loop of `remove`.
unfoldable pub remove_all : List String → String → String
unfolding remove_from
remove_all [] s = s
remove_all (fragment ∷ more) s = remove_all more (remove_from fragment 0 s)

unfoldable pub remove_output_fragments : Value → List String → Value
unfolding remove_all map_output_strings
remove_output_fragments output fragments =
    let usable = keep_if (λ f. not (f == "")) fragments in
    if is_empty usable then output else map_output_strings (remove_all usable) output
