-- ===== src/Library.antt =====
-- What the program takes from Go's standard library without a model of it: texts of numbers, quoted
-- texts and indented documents.
use custom_mcps.Prelude.{String, Option, none, ◌<>◌}
use custom_mcps.Json.{Json}
use custom_mcps.Protocol.Errors.{AnyValue}

-- `parse_float` is `strconv.ParseFloat`, with the number as encoding/json writes it and `none` for
-- an error; `quote` is fmt's `%q`; `marshal_indent` is the text of `json.MarshalIndent` with two
-- spaces.
pub record GoLibrary : Type 0 where
  pub parse_float : String → Option AnyValue
  pub quote : String → String
  pub marshal_indent : Json → String

-- An instance for tests: no text is a number, and documents have no text.
abbrev pub small_library : GoLibrary
small_library = record {
  parse_float = λ s. none;
  quote = λ s. "\"" <> s <> "\"";
  marshal_indent = λ v. "";
}
