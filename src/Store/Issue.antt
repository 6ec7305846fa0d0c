-- ===== src/Store/Issue.antt =====
-- The body of a GitHub issue: make_issue_body_ and parse_issue_entity_ of src/store.cpp.
use Prim.Native.String.{◌++◌, len, slice}
use text.Mathlib.Text.{find?}
use agamemnon.Base.{String, ◌+◌, Option, some}
use agamemnon.Json.{JsonLibrary, find, ◌>>=◌}

abbrev pub open_fence : String
open_fence = "```json\n"

abbrev pub close_fence : String
close_fence = "\n```"

-- The text between the first opening fence and the first closing fence after it.
unfoldable pub fenced : String → Option String
fenced body = find? body open_fence >>= λ start.
    let rest = slice body (start + len open_fence) (len body) in
    find? rest close_fence >>= λ end. some (slice rest 0 end)

module _ (J : JsonLibrary) where
  open J use {Json, dump_indented, as_string, parse}

  unfoldable pub make_issue_body : String → Json → String
  make_issue_body entity_type entity =
      "## AgamemnonEntity: "
      ++ (entity_type ++ ("\n\n" ++ (open_fence ++ (dump_indented entity ++ "\n```\n"))))

  -- `none` is the null that the source returns.
  unfoldable pub parse_issue_entity : Json → Option Json
  unfolding fenced
  parse_issue_entity issue = find J issue "body" >>= as_string >>= fenced >>= parse
