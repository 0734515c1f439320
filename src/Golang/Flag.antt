-- ===== src/Golang/Flag.antt =====
-- Package flag: `FlagSet.Parse` over string, int and bool flags, with `strconv.ParseInt(s, 0, 64)`
-- and `strconv.ParseBool` for the values.
mod Number
use speedtest_go.Base.{
  ℕ, Bool, true, false, ◌&&◌, ◌||◌, Option, none, some, List, [], ◌∷◌, ◌++◌, Str, str, str_eq,
  is_empty, if◌then◌else◌, ◌==◌,
}
use speedtest_go.Base.Int.{ℤ}
unfoldable pub use Number.{parse_int_base0}

pub data Kind : Type 0 where
  string_flag int_flag bool_flag : Kind

-- The flags that are defined, by name.
abbrev pub Formal : Type 0
Formal = List (Str × Kind)

-- `flag.ErrHelp`, or any other failure.
pub data FlagError : Type 0 where
  err_help err_flag : FlagError

-- The settings made, in the order of the arguments, as name and value text.
abbrev pub Settings : Type 0
Settings = List (Str × Str)

pub data Parsed : Type 0 where
  ok : Settings → Parsed
  err : FlagError → Parsed

unfoldable pub kind_of : Str → Formal → Option Kind
unfolding str_eq
kind_of name [] = none
kind_of name ((n, k) ∷ rest) = if str_eq name n then some k else kind_of name rest

-- Splits a name at its first `=` after the first byte.
split_tail : Str → Str × Option Str
split_tail [] = ([], none)
split_tail (c ∷ s) =
    let (name, value) = split_tail s in if c == b'=' then ([], some s) else (c ∷ name, value)

split_value : Str → Str × Option Str
unfolding split_tail
split_value [] = ([], none)
split_value (c ∷ s) = let (name, value) = split_tail s in (c ∷ name, value)

-- What an argument is, before its flag is looked up.
pub data Shape : Type 0 where
  -- it is no flag, and parsing stops
  stop : Shape
  malformed : Shape
  named : Str → Option Str → Shape

named_shape : Str → Shape
unfolding split_value
named_shape [] = malformed
named_shape (c ∷ name) =
    let (n, value) = split_value (c ∷ name) in
    if c == b'-' || c == b'=' then malformed else named n value

unfoldable pub shape : Str → Shape
unfolding named_shape
shape [] = stop
shape (c ∷ []) = stop
shape (c ∷ d ∷ []) = if c == b'-' then if d == b'-' then stop else named_shape (d ∷ []) else stop
shape (c ∷ d ∷ e ∷ s) =
    if c == b'-' then if d == b'-' then named_shape (e ∷ s) else named_shape (d ∷ e ∷ s) else stop

is_bool_text : Str → Bool
unfolding str_eq
is_bool_text v =
    str_eq v (str "1")
    || str_eq v (str "t")
    || str_eq v (str "T")
    || str_eq v (str "TRUE")
    || str_eq v (str "true")
    || str_eq v (str "True")
    || str_eq v (str "0")
    || str_eq v (str "f")
    || str_eq v (str "F")
    || str_eq v (str "FALSE")
    || str_eq v (str "false")
    || str_eq v (str "False")

-- Whether `flag.Value.Set` accepts the text.
unfoldable pub accepts : Kind → Str → Bool
unfolding parse_int_base0 is_bool_text
accepts string_flag v = true
accepts int_flag v = elim (parse_int_base0 v) [ none ↦ false | some _ ↦ true ]
accepts bool_flag v = is_bool_text v

prepend : Str × Str → Parsed → Parsed
prepend s (ok rest) = ok (s ∷ rest)
prepend s (err e) = err e

-- `Set`, and then the rest of the arguments.
set_then : Kind → Str → Str → Parsed → Parsed
unfolding accepts prepend
set_then k name value rest = if accepts k value then prepend (name, value) rest else err err_flag

-- A name that is not defined asks for help, or is an error.
unknown : Str → Parsed
unfolding str_eq
unknown name =
    if str_eq name (str "help") || str_eq name (str "h") then err err_help else err err_flag

-- The step for a flag of known kind: `rest` is the parse of the arguments after it, and
-- `after_next` that of those after the next one, which is taken as a value that was not inline.
unfoldable pub known : Kind → Str → Option Str → Option Str → Parsed → Parsed → Parsed
unfolding set_then
known bool_flag name none next rest after_next = prepend (name, str "true") rest
known bool_flag name (some v) next rest after_next = set_then bool_flag name v rest
known k name (some v) next rest after_next = set_then k name v rest
known k name none none rest after_next = err err_flag
known k name none (some v) rest after_next = set_then k name v after_next

by_shape : Formal → Shape → Option Str → Parsed → Parsed → Parsed
unfolding known unknown
by_shape formal stop next rest after_next = ok []
by_shape formal malformed next rest after_next = err err_flag
by_shape formal (named name value) next rest after_next = elim (kind_of name formal) [
  | none ↦ unknown name
  | some k ↦ known k name value next rest after_next
]

unfoldable pub parse : Formal → List Str → Parsed
unfolding by_shape shape kind_of
parse formal [] = ok []
parse formal (a ∷ []) = by_shape formal (shape a) none (ok []) (ok [])
parse formal (a ∷ b ∷ args) =
    let rest = parse formal (b ∷ args) in
    let after_next = parse formal args in by_shape formal (shape a) (some b) rest after_next

-- The last value that a flag was given; `none` if `Visit` does not meet it.
unfoldable pub last_value : Str → Settings → Option Str
unfolding str_eq
last_value name [] = none
last_value name ((n, v) ∷ rest) = elim (last_value name rest) [
  | some w ↦ some w
  | none ↦ if str_eq name n then some v else none
]
