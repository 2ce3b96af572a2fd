-- ===== src/Examples/Options.antt =====
-- A select element with two options.
use jaws.Base.{List, [], ◌∷◌, true, false, refl}
use jaws.Strconv.{Text}
use jaws.Named.{BoolArray, new_bool_array}
use jaws.Named.Single.{
  Op, adds, sets, selects, toggles, sets_value, only, IsSingle, apply_all, apply_all-IsSingle,
}

-- "a" and "b"
abbrev a : Text
a = b'a' ∷ []

abbrev b : Text
b = b'b' ∷ []

abbrev filling : List Op
filling =
    adds 1 a a ∷ adds 2 b b ∷ selects a ∷ toggles 2 true ∷ sets a false ∷ sets_value 2 false ∷ []

abbrev options : BoolArray
options = apply_all (new_bool_array false) filling

start : IsSingle (new_bool_array false)
unfolding only
start = refl

apply_all-IsSingle_example : IsSingle (apply_all (new_bool_array false) filling)
apply_all-IsSingle_example =
    apply_all-IsSingle (new_bool_array false) filling refl (tt, (tt, (tt, (tt, (tt, (refl, tt))))))
      start
