-- ===== src/Named.antt =====
-- lib/named: a set of named booleans behind a select element or a group of radio buttons. Values that
-- the application reorders or takes out by WriteLocked are not modelled.
pub mod Selection
pub mod Single
use jaws.Base.{
  ℕ, ◌+◌, List, [], ◌∷◌, ◌++◌, Option, none, some, Bool, true, false, not, ◌&&◌, ◌||◌, ◌==◌,
  if◌then◌else◌,
}
use jaws.Strconv.{Text}
use jaws.Bytes.{text_eq}

-- named.Bool. `identity` stands for the pointer.
pub record NamedBool : Type 0 where
  pub identity : ℕ
  pub name : Text
  pub html : Text
  pub checked : Bool

pub record BoolArray : Type 0 where
  pub multi : Bool
  pub values : List NamedBool

-- NewBoolArray.
abbrev pub new_bool_array : Bool → BoolArray
new_bool_array multi = record { multi = multi; values = [] }

-- BoolArray.Add; `identity` is the new pointer.
unfoldable pub add : BoolArray → ℕ → Text → Text → BoolArray
add nba identity name html = record nba {
  values =
      nba.values ++ record { identity = identity; name = name; html = html; checked = false } ∷ [];
}

abbrev pub same : Bool → Bool → Bool
same true b = b
same false b = not b

-- Bool.Set: the value, and the pointer if the value changed.
unfoldable pub set_bool : NamedBool → Bool → NamedBool × List ℕ
set_bool nb state =
    if same nb.checked state then (nb, []) else (record nb { checked = state }, nb.identity ∷ [])

-- The first loop of setChangedLocked: whether a name matched, the values, the changed pointers.
unfoldable pub set_matching : Text → Bool → List NamedBool → Bool × List NamedBool × List ℕ
unfolding set_bool
set_matching name state [] = (false, [], [])
set_matching name state (nb ∷ nbs) =
    let (matched, rest, changed) = set_matching name state nbs in
    let (nb', own) = set_bool nb state in
    if text_eq nb.name name
    then (true, nb' ∷ rest, own ++ changed)
    else (matched, nb ∷ rest, changed)

-- The loop of deselectOthersLocked.
unfoldable pub deselect_loop : Text → List NamedBool → List NamedBool × List ℕ
unfolding set_bool
deselect_loop name [] = ([], [])
deselect_loop name (nb ∷ nbs) =
    let (rest, changed) = deselect_loop name nbs in
    let (nb', own) = set_bool nb false in
    if text_eq nb.name name then (nb ∷ rest, changed) else (nb' ∷ rest, own ++ changed)

-- deselectOthersLocked.
unfoldable pub deselect_others : Bool → Text → Bool → List NamedBool → List NamedBool × List ℕ
deselect_others multi name deselect nbs =
    if deselect && not multi then deselect_loop name nbs else (nbs, [])

-- setChangedLocked.
unfoldable pub set_changed : BoolArray → Text → Bool → BoolArray × List ℕ
set_changed nba name state =
    let (matched, nbs, changed) = set_matching name state nba.values in
    let (nbs', others) = deselect_others nba.multi name (state || not matched) nbs in
    (record nba { values = nbs' }, changed ++ others)

-- What is dirtied: a value, or the array.
pub data Dirtied : Type 0 where
  value : ℕ → Dirtied
  array : Dirtied

unfoldable pub dirtied : List ℕ → List Dirtied
dirtied [] = array ∷ []
dirtied (i ∷ is) = value i ∷ dirtied is

-- The selectors that are dirtied; `none` is ErrValueUnchanged.
abbrev pub report : List ℕ → Option (List Dirtied)
report [] = none
report (i ∷ is) = some (dirtied (i ∷ is))

-- BoolArray.JawsSet.
unfoldable pub jaws_set : BoolArray → Text → BoolArray × Option (List Dirtied)
unfolding set_changed dirtied
jaws_set nba name = let (nba', changed) = set_changed nba name true in (nba', report changed)

-- The value with a pointer is set; its name.
unfoldable pub set_at : ℕ → Bool → List NamedBool → Text × List NamedBool × List ℕ
unfolding set_bool
set_at identity checked [] = ([], [], [])
set_at identity checked (nb ∷ nbs) =
    let (name, rest, changed) = set_at identity checked nbs in
    let (nb', own) = set_bool nb checked in
    if nb.identity == identity then (nb.name, nb' ∷ nbs, own) else (name, nb ∷ rest, changed)

-- Bool.Set, of a value in the array: only this value changes.
unfoldable pub bool_set : BoolArray → ℕ → Bool → BoolArray
unfolding set_at
bool_set nba identity checked = record nba { values = (set_at identity checked nba.values).1 }

is_member : ℕ → List NamedBool → Bool
is_member identity [] = false
is_member identity (nb ∷ nbs) = (nb.identity == identity) || is_member identity nbs

-- Bool.JawsSet, of a value in the array; the documentation excludes a value that was taken out.
unfoldable pub bool_jaws_set : BoolArray → ℕ → Bool → BoolArray × Option (List Dirtied)
unfolding set_at deselect_others is_member
bool_jaws_set nba identity checked =
    if is_member identity nba.values
    then (let (name, nbs, changed) = set_at identity checked nba.values in
        let (nbs', others) = deselect_others nba.multi name checked nbs in
        (record nba { values = nbs' }, report (changed ++ others)))
    else (nba, none)

-- BoolArray.Get: the empty name if nothing is checked.
unfoldable pub get : List NamedBool → Text
get [] = []
get (nb ∷ nbs) = if nb.checked then nb.name else get nbs

-- BoolArray.Count.
unfoldable pub count : Text → List NamedBool → ℕ
count name [] = 0
count name (nb ∷ nbs) = (if text_eq nb.name name then 1 else 0) + count name nbs

-- BoolArray.IsChecked.
unfoldable pub is_checked : Text → List NamedBool → Bool
is_checked name [] = false
is_checked name (nb ∷ nbs) =
    if text_eq nb.name name && nb.checked then true else is_checked name nbs
