-- ===== src/What.antt =====
-- The commands and events of the wire protocol: lib/what/what.go and lib/what/what_string.go.
use jaws.Base.{ℕ, List, [], ◌∷◌, Bool, not, ◌&&◌, ltb, ◌==◌, if◌then◌else◌}
use jaws.Strconv.{Text}
use jaws.Bytes.{codes, text_eq}

-- Constants of type What, in the order of their numbers; `separator` is the internal marker.
pub data What : Type 0 where
  invalid update reload redirect alert order call separator : What
  set inner delete replace remove insert append : What
  s_attr r_attr s_class r_class value input click context_menu hook : What

-- The number of the constant.
abbrev pub number : What → ℕ
number What.invalid = 0
number What.update = 1
number What.reload = 2
number What.redirect = 3
number What.alert = 4
number What.order = 5
number What.call = 6
number What.separator = 7
number What.set = 8
number What.inner = 9
number What.delete = 10
number What.replace = 11
number What.remove = 12
number What.insert = 13
number What.append = 14
number What.s_attr = 15
number What.r_attr = 16
number What.s_class = 17
number What.r_class = 18
number What.value = 19
number What.input = 20
number What.click = 21
number What.context_menu = 22
number What.hook = 23

abbrev pub what_eq : What → What → Bool
what_eq v w = number v == number w

-- String.
abbrev pub what_string : What → Text
what_string What.invalid = codes "Invalid"
what_string What.update = codes "Update"
what_string What.reload = codes "Reload"
what_string What.redirect = codes "Redirect"
what_string What.alert = codes "Alert"
what_string What.order = codes "Order"
what_string What.call = codes "Call"
what_string What.separator = codes "separator"
what_string What.set = codes "Set"
what_string What.inner = codes "Inner"
what_string What.delete = codes "Delete"
what_string What.replace = codes "Replace"
what_string What.remove = codes "Remove"
what_string What.insert = codes "Insert"
what_string What.append = codes "Append"
what_string What.s_attr = codes "SAttr"
what_string What.r_attr = codes "RAttr"
what_string What.s_class = codes "SClass"
what_string What.r_class = codes "RClass"
what_string What.value = codes "Value"
what_string What.input = codes "Input"
what_string What.click = codes "Click"
what_string What.context_menu = codes "ContextMenu"
what_string What.hook = codes "Hook"

-- IsValid.
abbrev pub is_valid_what : What → Bool
is_valid_what w = not (what_eq w What.invalid) && not (what_eq w What.separator)

-- IsCommand.
abbrev pub is_command : What → Bool
is_command w = ltb (number w) (number What.separator) && is_valid_what w

-- All constants, in order.
abbrev pub whats : List What
whats =
    What.invalid ∷ What.update ∷ What.reload ∷ What.redirect ∷ What.alert ∷ What.order ∷ What.call
    ∷ What.separator ∷ What.set ∷ What.inner ∷ What.delete ∷ What.replace ∷ What.remove
    ∷ What.insert ∷ What.append ∷ What.s_attr ∷ What.r_attr ∷ What.s_class ∷ What.r_class
    ∷ What.value ∷ What.input ∷ What.click ∷ What.context_menu ∷ What.hook ∷ []

-- The loop of Parse.
unfoldable pub find_what : Text → List What → What
find_what s [] = What.invalid
find_what s (w ∷ ws) =
    let rest = find_what s ws in if is_valid_what w && text_eq s (what_string w) then w else rest

-- Parse.
unfoldable pub what_parse : Text → What
unfolding find_what
what_parse [] = What.update
what_parse (c ∷ s) = find_what (c ∷ s) whats
