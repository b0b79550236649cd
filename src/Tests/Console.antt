-- ===== src/Tests/Console.antt =====
-- A small command line parser that keeps to the choices, and a `logging` that knows its levels.
use factoryfleet.Base.{
  ◌≡◌, refl, Bool, true, false, ◌&&◌, ◌||◌, not, String, Option, none, some, List, [], ◌∷◌, All,
  arith, str_eq, if◌then◌else◌, Bool-cases, inl, inr,
}
use factoryfleet.Config.Machine.{log_levels, is_in}
use factoryfleet.Main.CommandLine.{
  Argument, Arguments, Console, IsAmong, IsChosen, IsConsole, parse_args,
}
use factoryfleet.Results.{Error, Result, ok, raised, Ensures, returns, raises, Ensures-ok}
use factoryfleet.Tests.ConfigRuns.{disk}

abbrev usage : Error
usage = record { type_name = "SystemExit"; message = "2"; is_exception = false }

abbrev unknown_level : Error
unknown_level = record { type_name = "ValueError"; message = "Unknown level"; is_exception = true }

abbrev permits : Option (List String) → String → Bool
permits none text = true
permits (some choices) text = is_in text choices

abbrev allows : List Argument → String → String → Bool
allows [] flag text = true
allows (a ∷ declared) flag text =
    (not (str_eq a.flag flag) || permits a.choices text) && allows declared flag text

abbrev with_text : String → String → (String → Option String) → String → Option String
with_text flag text given k = if str_eq k flag then some text else given k

-- Flags and texts by turns.
abbrev parse_words :
    List Argument → (String → Option String) → List String → Result (String → Option String)
parse_words declared given [] = ok given
parse_words declared given (flag ∷ []) = raised usage
parse_words declared given (flag ∷ text ∷ words) =
    let rest = parse_words declared (with_text flag text given) words in
    if allows declared flag text then rest else raised usage

abbrev pub console : Console disk
console = record {
  default_config = "config";
  parse = λ declared argv. parse_words declared (λ flag. none) argv;
  basic_config = λ level. if is_in level log_levels then ok tt else raised unknown_level;
}

IsAmong-permits :
    (choices : Option (List String)) (text : String)
    → permits choices text ≡ true
    → IsAmong choices (some text)
IsAmong-permits none text h = tt
IsAmong-permits (some choices) text h = h

IsAmong-none : (choices : Option (List String)) → IsAmong choices none
IsAmong-none none = tt
IsAmong-none (some choices) = tt

nothing-IsChosen : (declared : List Argument) → All (IsChosen (λ flag. none)) declared
nothing-IsChosen [] = tt
nothing-IsChosen (a ∷ declared) = (IsAmong-none a.choices, nothing-IsChosen declared)

IsChosen-with_text :
    (flag text : String) (given : String → Option String) (declared : List Argument)
    → allows declared flag text ≡ true
    → All (IsChosen given) declared
    → All (IsChosen (with_text flag text given)) declared
IsChosen-with_text flag text given [] h c = tt
IsChosen-with_text flag text given (a ∷ declared) h c = elim (Bool-cases (str_eq a.flag flag)) [
  | inl same ↦ (
    rw same (IsAmong-permits a.choices text (ground (arith, h, same))),
    IsChosen-with_text flag text given declared (ground (arith, h)) c.1,
  )
  | inr other ↦ (rw other c.0, IsChosen-with_text flag text given declared (ground (arith, h)) c.1)
]

parse_words-Ensures :
    (declared : List Argument) (given : String → Option String) (words : List String)
    → All (IsChosen given) declared
    → Ensures (λ found. All (IsChosen found) declared) (parse_words declared given words)
parse_words-Ensures declared given [] c = returns c
parse_words-Ensures declared given (flag ∷ []) c = raises
parse_words-Ensures declared given (flag ∷ text ∷ words) c =
    elim (Bool-cases (allows declared flag text)) [
      | inl fine ↦ rw fine (
          parse_words-Ensures declared (with_text flag text given) words
            (IsChosen-with_text flag text given declared fine c))
      | inr bad ↦ rw bad raises
    ]

pub IsConsole-console : IsConsole console
IsConsole-console = record {
  parse-IsChosen = λ declared argv given e.
      Ensures-ok (parse_words-Ensures declared (λ flag. none) argv (nothing-IsChosen declared)) e;
  basic_config-knows = λ level h. rw h refl;
}

-- A debugging run on the default directory.
abbrev pub argv : List String
argv = "--log-level" ∷ "DEBUG" ∷ []

abbrev pub args : Arguments disk
args = record { config = "config"; log_level = some "DEBUG" }

pub parsed : parse_args disk console argv ≡ ok args
unfolding parse_args is_in
parsed = refl

-- A level that is none of the choices.
refused : parse_args disk console ("--log-level" ∷ "LOUD" ∷ []) ≡ raised usage
unfolding parse_args is_in
refused = refl
