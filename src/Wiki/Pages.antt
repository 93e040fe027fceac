-- ===== src/Wiki/Pages.antt =====
-- Which pages BuildIDMap of internal/wikiindex/wikiindex.go takes for concepts.
use llm_wiki_bff.Core.{
  ◌≡◌, refl, ap, sym, ◌∙◌, Bool, true, not, ◌&&◌, Option, none, some, is_some, List, [], ◌∷◌, ◌++◌,
  map, keep, any, all, any-append, append_cons, arith, if◌then◌else◌, Bool-cases, Option-cases, inl,
  inr,
}
use mathlib.Core.List.{append-nil}
use llm_wiki_bff.Core.Text.{Text, str_eq}
use llm_wiki_bff.Core.Dict.{lookup, has_key}
use llm_wiki_bff.Wiki.{Rows, IdMap}
use llm_wiki_bff.Wiki.Claims.{
  to_option, distinct_ids, distinct_values, bind_lem, all-true, insert_new, fresh-snoc,
}
use llm_wiki_bff.Wiki.Kept.{is_safe, coherent, preserve_exact}
use llm_wiki_bff.Wiki.Build.{
  MarkdownFile, is_synto_root_page, page_id, add_page, add_id_map_entries, build_id_map,
}

module _ (md5_hex : Text → Text) (matter_id : Text → Option Text) where
  -- The files that are pages.
  abbrev pub pages : List MarkdownFile → List MarkdownFile
  pages files = keep (λ f. not (is_synto_root_page f.path)) files

  abbrev pub id_of : MarkdownFile → Text
  id_of f = elim (page_id md5_hex matter_id f) [ none ↦ [] | some id ↦ id ]

  -- The identifiers and the slugs of the pages.
  abbrev pub page_rows : List MarkdownFile → Rows
  page_rows files = map (λ f. (id_of f, f.slug)) (pages files)

  -- Every page has a frontmatter that parses.
  abbrev pub parse : List MarkdownFile → Bool
  parse files = all (λ f. is_some (page_id md5_hex matter_id f)) (pages files)

  -- The rows that may still be added.
  abbrev addable : Rows → Rows → Bool
  addable rows entries =
      all (λ r. not (has_key r.0 entries)) rows
      && all (λ r. not (any (λ e. str_eq e.1 r.1) entries)) rows
      && distinct_ids rows
      && distinct_values rows

  unused-snoc :
      (k v : Text) (entries rows : Rows)
      → all (λ r. not (any (λ e. str_eq e.1 r.1) (entries ++ (k, v) ∷ []))) rows ≡ (
          all (λ r. not (any (λ e. str_eq e.1 r.1) entries)) rows
          && not (any (λ s. str_eq v s.1) rows))
  unused-snoc k v entries [] = refl
  unused-snoc k v entries (r ∷ rows) =
      ground (
        arith,
        unused-snoc k v entries rows,
        any-append (λ e. str_eq e.1 r.1) entries ((k, v) ∷ []),
      )

  add_id_map_entries_lem :
      (files : List MarkdownFile) (entries : Rows)
      → to_option (add_id_map_entries md5_hex matter_id files entries) ≡ (
          if parse files && all is_safe (page_rows files) && addable (page_rows files) entries
          then some (entries ++ page_rows files)
          else none)
  unfolding add_id_map_entries add_page
  add_id_map_entries_lem [] entries = ap some (sym (append-nil entries))
  add_id_map_entries_lem (f ∷ files) entries = elim (Bool-cases (is_synto_root_page f.path)) [
    | inl root ↦ ground (arith, root, add_id_map_entries_lem files entries)
    | inr page ↦ elim (Option-cases (page_id md5_hex matter_id f)) [
      | inl e ↦ ground (arith, page, e)
      | inr (id, e) ↦ elim (Bool-cases (has_key id entries)) [
        | inl h ↦ ground (arith, page, e, h)
        | inr h ↦ ground (
          arith,
          page,
          e,
          h,
          insert_new id f.slug entries h,
          append_cons entries (id, f.slug) (page_rows files),
          fresh-snoc (λ r. r.0) id f.slug entries (page_rows files),
          unused-snoc id f.slug entries (page_rows files),
          add_id_map_entries_lem files (entries ++ (id, f.slug) ∷ []),
        )
      ]
    ]
  ]

  addable_to_none : (rows : Rows) → addable rows [] ≡ (distinct_ids rows && distinct_values rows)
  unfolding has_key lookup
  addable_to_none rows = ground (arith, all-true rows)

  abbrev pub rebuilt_from : List MarkdownFile → IdMap
  rebuilt_from files = record {
    concept = page_rows files;
    dormant_concept = [];
    concept_entity_id = [];
    id_redirects = [];
  }

  -- Where no identifier stands twice in a map of the earlier index, BuildIDMap succeeds, as far as
  -- concepts are concerned, exactly if the frontmatter of every page parses, no two pages have one
  -- identifier, and the rebuild from the pages is coherent. Then the concepts are the pages, each
  -- under its own identifier, every dormant concept is kept, and of the entities those of a page or
  -- a dormant concept.
  pub build_exact :
      (files : List MarkdownFile) (old : IdMap)
      → distinct_ids old.dormant_concept ≡ true
      → distinct_ids old.concept_entity_id ≡ true
      → to_option (build_id_map md5_hex matter_id files old) ≡ (
          if parse files && distinct_ids (page_rows files) && coherent (rebuilt_from files) old
          then some (record (rebuilt_from files) {
            dormant_concept = old.dormant_concept;
            concept_entity_id =
                keep
                  (λ r. any (λ s. str_eq s.0 r.0) (page_rows files ++ old.dormant_concept))
                  old.concept_entity_id;
          })
          else none)
  unfolding build_id_map
  build_exact files old d e =
      bind_lem _ _ _ (page_rows files) (add_id_map_entries_lem files [])
      ∙ elim (Bool-cases (distinct_ids (page_rows files))) [
        | inl u ↦ ground (
          arith,
          u,
          addable_to_none (page_rows files),
          preserve_exact (rebuilt_from files) old u d e,
        )
        | inr u ↦ ground (arith, u, addable_to_none (page_rows files))
      ]
