-- ===== src/Wiki/Build.antt =====
-- The concepts of BuildIDMap in internal/wikiindex/wikiindex.go. MD5 and the identifier in a page's
-- YAML are parameters.
use llm_wiki_bff.Core.{
  Bool, not, ◌||◌, Option, none, some, List, [], ◌∷◌, Result, ok, err, ◌>>=◌, any, take,
  if◌then◌else◌,
}
use llm_wiki_bff.Core.Text.{Text, codes, str_eq, trim_space}
use llm_wiki_bff.Core.Dict.{insert, has_key}
use llm_wiki_bff.Publish.Receipts.{valid_source_id}
use llm_wiki_bff.Wiki.{
  Rows, IdMap, IndexError, unparsable, unsafe_mapping, duplicate_id, duplicate_slug,
  valid_concept_slug, preserve_concept_lifecycle,
}

pub record MarkdownFile : Type 0 where
  pub slug : Text
  pub path : Text
  pub data_ : Text

-- IsSyntoRootPage
unfoldable pub is_synto_root_page : Text → Bool
is_synto_root_page path = str_eq path (codes "wiki/index.md") || str_eq path (codes "wiki/log.md")

module _ (md5_hex : Text → Text) (matter_id : Text → Option Text) where
  -- ContentDerivedID
  unfoldable pub content_derived_id : Text → Text
  content_derived_id data_ = take 12 (md5_hex data_)

  -- The identifier of a page, from its frontmatter or its content; `none` where the frontmatter
  -- does not parse.
  unfoldable pub page_id : MarkdownFile → Option Text
  unfolding content_derived_id
  page_id file = elim (matter_id file.data_) [
    | none ↦ none
    | some id ↦
        some (if str_eq (trim_space id) [] then content_derived_id file.data_ else trim_space id)
  ]

  -- The body of the loop of addIDMapEntries.
  unfoldable pub add_page : MarkdownFile → Rows → Result IndexError Rows
  unfolding is_synto_root_page page_id valid_concept_slug
  add_page file entries = if is_synto_root_page file.path then ok entries else elim (page_id file) [
    | none ↦ err unparsable
    | some id ↦
        if not (valid_source_id id) || not (valid_concept_slug file.slug)
        then err unsafe_mapping
        else if has_key id entries
        then err duplicate_id
        else if any (λ e. str_eq e.1 file.slug) entries
        then err duplicate_slug
        else ok (insert id file.slug entries)
  ]

  -- addIDMapEntries, from the files that were listed.
  unfoldable pub add_id_map_entries : List MarkdownFile → Rows → Result IndexError Rows
  unfolding add_page
  add_id_map_entries [] entries = ok entries
  add_id_map_entries (file ∷ files) entries = do
    more ← add_page file entries
    add_id_map_entries files more

  -- BuildIDMap, as far as concepts are concerned.
  unfoldable pub build_id_map : List MarkdownFile → IdMap → Result IndexError IdMap
  unfolding add_id_map_entries
  build_id_map files old = do
    concept ← add_id_map_entries files []
    preserve_concept_lifecycle
        (record {
          concept = concept;
          dormant_concept = [];
          concept_entity_id = [];
          id_redirects = [];
        })
        old
