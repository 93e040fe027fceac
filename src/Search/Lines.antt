-- ===== src/Search/Lines.antt =====
-- The fields of a line of meta/index.md (internal/search/search.go): parseLinkedLine,
-- parsePlainLine and what they call.
use llm_wiki_bff.Core.{
  ℕ, zero, suc, ◌+◌, ◌-◌, not, ◌&&◌, Option, none, some, List, [], ◌∷◌, ◌++◌, length, drop, leb,
  ◌==◌, if◌then◌else◌,
}
use llm_wiki_bff.Core.Text.{Text, codes, str_eq, contains, has_prefix, trim_space, split_on}
use llm_wiki_bff.Core.Scan.{cut, replace_all}

-- The em dash U+2014.
abbrev dash : Text
dash = 0xE2 ∷ 0x80 ∷ 0x94 ∷ []

-- The length of the first of some runes with which the text starts, 0 where there is none.
starts_with_one : List Text → Text → ℕ
starts_with_one [] s = 0
starts_with_one (c ∷ cs) s =
    let rest = starts_with_one cs s in if has_prefix s c then length c else rest

-- strings.TrimLeft with a set of runes; the bytes that are skipped first.
trim_left_from : List Text → ℕ → Text → Text
trim_left_from set skip [] = []
trim_left_from set (suc skip) (a ∷ s) = trim_left_from set skip s
trim_left_from set zero (a ∷ s) =
    let n = starts_with_one set (a ∷ s) in
    let rest = trim_left_from set (n - 1) s in if n == 0 then a ∷ s else rest

unfoldable pub trim_left : List Text → Text → Text
unfolding trim_left_from starts_with_one
trim_left set s = trim_left_from set 0 s

-- cleanDescription
unfoldable pub clean_description : Text → Text
unfolding trim_left
clean_description s = trim_space (trim_left (codes "-" ∷ codes ":" ∷ dash ∷ []) (trim_space s))

-- The parts that are not blank, trimmed.
non_blank : List Text → List Text
non_blank [] = []
non_blank (p ∷ ps) =
    let rest = non_blank ps in let t = trim_space p in if not (str_eq t []) then t ∷ rest else rest

count_byte : ℕ → Text → ℕ
count_byte c [] = 0
count_byte c (a ∷ s) = (if a == c then 1 else 0) + count_byte c s

-- splitMetadataFields
unfoldable pub split_metadata_fields : Text → List Text
unfolding non_blank count_byte
split_metadata_fields line =
    let tabs = replace_all line (codes "\t") (codes " | ") in
    let dashes = replace_all tabs (codes " " ++ (dash ++ codes " ")) (codes " | ") in
    let doubles = replace_all dashes (codes " -- ") (codes " | ") in
    let singles = replace_all doubles (codes " - ") (codes " | ") in
    let bars = replace_all singles (codes " | ") (codes "|") in
    let normalized =
      if not (contains bars (codes "|")) && leb 2 (count_byte 58 bars)
      then replace_all bars (codes ":") (codes "|")
      else bars in
    non_blank (split_on 124 normalized)

-- slug, title and rest of a line.
pub record Line : Type 0 where
  pub slug : Text
  pub title : Text
  pub rest : Text

-- strings.Join(fields, " - ")
join_dashes : List Text → Text
join_dashes [] = []
join_dashes (f ∷ []) = f
join_dashes (f ∷ g ∷ fs) = f ++ (codes " - " ++ join_dashes (g ∷ fs))

-- parsePlainLine
plain_fields : List Text → Option Line
unfolding join_dashes
plain_fields [] = none
plain_fields (f ∷ []) = some (record { slug = f; title = f; rest = [] })
plain_fields (f ∷ g ∷ fs) = some (record { slug = f; title = g; rest = join_dashes fs })

unfoldable pub parse_plain_line : Text → Option Line
unfolding plain_fields split_metadata_fields
parse_plain_line line = plain_fields (split_metadata_fields line)

-- A line with a slug that is not empty.
with_slug : Line → Option Line
with_slug l = if not (str_eq l.slug []) then some l else none

-- The target of a wiki link, `slug|title`.
wiki_target : Text → Text → Option Line
unfolding with_slug
wiki_target target rest = elim (cut (codes "|") target) [
  | none ↦ with_slug (record { slug = trim_space target; title = trim_space target; rest = rest })
  | some (slug, title) ↦
      with_slug (record { slug = trim_space slug; title = trim_space title; rest = rest })
]

-- The second form of parseLinkedLine, `[title](slug)`.
unfoldable pub parse_inline_link : Text → Option Line
unfolding with_slug
parse_inline_link line = elim (cut (codes "[") line) [
  | none ↦ none
  | some (before, inner) ↦ elim (cut (codes "](") (91 ∷ inner)) [
    | none ↦ none
    | some (title, target) ↦ elim (cut (codes ")") target) [
      | none ↦ none
      | some (slug, rest) ↦
          with_slug
            (record { slug = trim_space slug; title = trim_space (drop 1 title); rest = rest })
    ]
  ]
]

-- parseLinkedLine
unfoldable pub parse_linked_line : Text → Option Line
unfolding wiki_target parse_inline_link
parse_linked_line line = elim (cut (codes "[[") line) [
  | none ↦ parse_inline_link line
  | some (before, inner) ↦ elim (cut (codes "]]") inner) [
    | none ↦ parse_inline_link line
    | some (target, rest) ↦ wiki_target target rest
  ]
]
