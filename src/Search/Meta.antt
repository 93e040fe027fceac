-- ===== src/Search/Meta.antt =====
-- The reading of meta/index.md (internal/search/search.go): parseIndexLine, parseMetaIndex and
-- Build.
use llm_wiki_bff.Core.{
  Bool, true, false, not, ◌||◌, Option, none, some, List, [], ◌∷◌, ◌++◌, length, drop,
  if◌then◌else◌,
}
use llm_wiki_bff.Core.Text.{Text, codes, str_eq, has_prefix, trim_suffix, trim_space, split_on}
use llm_wiki_bff.Core.Dict.{insert}
use llm_wiki_bff.CloudRun.{trim_prefix}
use llm_wiki_bff.Sources.{WikiPage, given}
use llm_wiki_bff.Search.{Index, IndexedPage, index_key}
use llm_wiki_bff.Search.Lines.{
  Line, trim_left, clean_description, parse_plain_line, parse_linked_line,
}

-- A store.WikiPage with only the fields that parseMetaIndex sets.
page_with : Text → Text → Text → Text → WikiPage
page_with slug title path status = record {
  slug = slug;
  title = title;
  id = [];
  path = path;
  status = status;
  raw_path = [];
  annotation_allowed = false;
  has_annotation = false;
  annotation_dirty = false;
  raw_dirty = false;
  dirty = false;
  lifecycle_status = given [];
  ann_updated_at = [];
}

-- What parseIndexLine returns, with its page type.
pub record Entry : Type 0 where
  pub kind : Text
  pub slug : Text
  pub title : Text
  pub description : Text

-- The prefix of a line that names its type, and the type.
unfoldable pub kind_prefix : Text → Option (Text × Text)
kind_prefix lower =
    if has_prefix lower (codes "source:")
    then some (codes "source:", codes "source")
    else if has_prefix lower (codes "sources:")
    then some (codes "sources:", codes "source")
    else if has_prefix lower (codes "concept:")
    then some (codes "concept:", codes "concept")
    else if has_prefix lower (codes "concepts:")
    then some (codes "concepts:", codes "concept")
    else none

-- The type and the slug that a path of the wiki stands for.
unfoldable pub kind_of_path : Text → Text → Text × Text
kind_of_path kind slug =
    if has_prefix slug (codes "wiki/sources/")
    then (codes "source", trim_suffix (trim_prefix slug (codes "wiki/sources/")) (codes ".md"))
    else if has_prefix slug (codes "sources/")
    then (codes "source", trim_suffix (trim_prefix slug (codes "sources/")) (codes ".md"))
    else if has_prefix slug (codes "wiki/")
    then (codes "concept", trim_suffix (trim_prefix slug (codes "wiki/")) (codes ".md"))
    else (kind, slug)

-- The end of parseIndexLine, from the parsed line on.
unfoldable pub entry_of_line : Text → Line → Option Entry
unfolding kind_of_path clean_description
entry_of_line kind l =
    let (kind', path) = kind_of_path kind l.slug in
    let slug = trim_suffix (trim_space path) (codes ".md") in
    let title = trim_space l.title in
    if str_eq kind' []
    then none
    else some (record {
      kind = kind';
      slug = slug;
      title = if str_eq title [] then slug else title;
      description = clean_description l.rest;
    })

-- The line parsed as a link, and as plain text where it is none.
unfoldable pub parse_line : Text → Option Line
unfolding parse_linked_line parse_plain_line
parse_line line = elim (parse_linked_line line) [ none ↦ parse_plain_line line | some l ↦ some l ]

-- What parseMetaIndex keeps between two lines.
pub record State : Type 0 where
  pub sources : List WikiPage
  pub concepts : List WikiPage
  pub entries : List (Text × IndexedPage)
  pub section : Text
  pub in_frontmatter : Bool

-- The page of an entry.
unfoldable pub page_of : Entry → WikiPage
unfolding page_with
page_of e =
    if str_eq e.kind (codes "source")
    then page_with e.slug e.title (codes "wiki/sources/" ++ (e.slug ++ codes ".md")) []
    else page_with e.slug e.title (codes "wiki/" ++ (e.slug ++ codes ".md")) (codes "published")

unfoldable pub add_entry : Entry → State → State
unfolding index_key page_of
add_entry e st =
    let entries =
      insert (index_key e.kind e.slug) (record { title = e.title; description = e.description })
        st.entries in
    if str_eq e.kind (codes "source")
    then record st { entries = entries; sources = st.sources ++ page_of e ∷ [] }
    else record st { entries = entries; concepts = st.concepts ++ page_of e ∷ [] }

unfoldable pub add_parsed : Option Entry → State → State
unfolding add_entry
add_parsed none st = st
add_parsed (some e) st = add_entry e st

-- The type and the text of a line, given the prefix that it begins with.
unfoldable pub pick_kind : Text → Text → Option (Text × Text) → Text × Text
pick_kind section line none = (section, line)
pick_kind section line (some (prefix, kind)) = (kind, trim_space (drop (length prefix) line))

unfoldable pub entry_of_parsed : Text → Option Line → Option Entry
unfolding entry_of_line
entry_of_parsed kind none = none
entry_of_parsed kind (some l) = entry_of_line kind l

module _ (to_lower : Text → Text) where
  -- parseIndexLine
  unfoldable pub parse_index_line : Text → Text → Option Entry
  unfolding trim_left kind_prefix pick_kind parse_line entry_of_parsed
  parse_index_line raw section =
      let line = trim_space (trim_left (codes "-" ∷ codes "*" ∷ []) raw) in
      let (kind, text) = pick_kind section line (kind_prefix (to_lower line)) in
      entry_of_parsed kind (parse_line text)

  -- The section after a heading.
  unfoldable pub section_after : Text → Text → Text
  unfolding trim_left
  section_after section line =
      let header = to_lower (trim_space (trim_left (codes "#" ∷ []) line)) in
      if str_eq header (codes "sources") || str_eq header (codes "source")
      then codes "source"
      else if str_eq header (codes "concepts") || str_eq header (codes "concept")
      then codes "concept"
      else section

  -- One turn of the loop of parseMetaIndex, on a line that is trimmed.
  unfoldable pub meta_line : Text → State → State
  unfolding parse_index_line section_after add_parsed
  meta_line line st =
      if str_eq line []
      then st
      else if str_eq line (codes "---")
      then record st { in_frontmatter = not st.in_frontmatter }
      else if st.in_frontmatter || has_prefix line (codes "_")
      then st
      else if has_prefix line (codes "#")
      then record st { section = section_after st.section line }
      else add_parsed (parse_index_line line st.section) st

  unfoldable pub meta_lines : List Text → State → State
  unfolding meta_line
  meta_lines [] st = st
  meta_lines (l ∷ ls) st = meta_lines ls (meta_line (trim_space l) st)

  -- parseMetaIndex
  unfoldable pub parse_meta_index : Text → State
  unfolding meta_lines
  parse_meta_index raw =
      meta_lines (split_on 10 raw)
        (record { sources = []; concepts = []; entries = []; section = []; in_frontmatter = false })

  -- Build: the index after it, unchanged where meta/index.md cannot be read, and whether it was
  -- read.
  unfoldable pub build : Option Text → Index → Index × Bool
  unfolding parse_meta_index
  build none idx = (idx, false)
  build (some raw) idx =
      let st = parse_meta_index raw in
      (record idx { sources = st.sources; concepts = st.concepts; entries = st.entries }, true)
