-- ===== src/Core/Runes.antt =====
-- The runes of a Go string: UTF-8, where a byte that starts no valid encoding is a rune of its own.
use llm_wiki_bff.Core.{
  ℕ, zero, suc, ◌-◌, ◌≡◌, refl, Bool, false, ◌&&◌, ◌||◌, List, [], ◌∷◌, ◌++◌, leb, ◌==◌, take,
  if◌then◌else◌,
}
use llm_wiki_bff.Core.Text.{Text, space_width}

between : ℕ → ℕ → ℕ → Bool
between lo hi a = leb lo a && leb a hi

continues : ℕ → Bool
unfolding between
continues a = between 0x80 0xBF a

two : ℕ → Text → Bool
unfolding between continues
two a [] = false
two a (b ∷ s) = between 0xC2 0xDF a && continues b

three : ℕ → Text → Bool
unfolding between continues
three a [] = false
three a (b ∷ []) = false
three a (b ∷ c ∷ s) =
    continues c
    && ((a == 0xE0 && between 0xA0 0xBF b)
        || (between 0xE1 0xEC a && continues b)
        || (a == 0xED && between 0x80 0x9F b)
        || (between 0xEE 0xEF a && continues b))

four : ℕ → Text → Bool
unfolding between continues
four a [] = false
four a (b ∷ []) = false
four a (b ∷ c ∷ []) = false
four a (b ∷ c ∷ d ∷ s) =
    continues c
    && continues d
    && ((a == 0xF0 && between 0x90 0xBF b)
        || (between 0xF1 0xF3 a && continues b)
        || (a == 0xF4 && between 0x80 0x8F b))

-- The width of the encoding that starts with `a`, 0 where there is none.
unfoldable pub rune_width : ℕ → Text → ℕ
unfolding two three four
rune_width a s =
    if leb a 0x7F
    then 1
    else if two a s
    then 2
    else if three a s
    then 3
    else if four a s
    then 4
    else 0

-- The runes after some bytes that are skipped, each as its bytes: []rune(s), read as texts. A byte
-- that is no encoding is U+FFFD.
unfoldable pub runes_from : ℕ → Text → List Text
unfolding rune_width
runes_from skip [] = []
runes_from (suc skip) (a ∷ s) = runes_from skip s
runes_from zero (a ∷ s) =
    let w = rune_width a s in
    let rest = runes_from (w - 1) s in
    (if w == 0 then 0xEF ∷ 0xBF ∷ 0xBD ∷ [] else take w (a ∷ s)) ∷ rest

unfoldable pub runes : Text → List Text
unfolding runes_from
runes s = runes_from 0 s

-- The rest of strings.Fields: the bytes to skip and the field that is being read.
fields_from : ℕ → Text → Text → List Text
fields_from skip [] [] = []
fields_from skip (b ∷ w) [] = (b ∷ w) ∷ []
fields_from (suc skip) w (a ∷ s) = fields_from skip w s
fields_from zero [] (a ∷ s) =
    let word = fields_from 0 (a ∷ []) s in
    let space = fields_from (space_width (a ∷ s) - 1) [] s in
    if space_width (a ∷ s) == 0 then word else space
fields_from zero (b ∷ w) (a ∷ s) =
    let word = fields_from 0 (b ∷ (w ++ a ∷ [])) s in
    let space = fields_from (space_width (a ∷ s) - 1) [] s in
    if space_width (a ∷ s) == 0 then word else (b ∷ w) ∷ space

-- strings.Fields
unfoldable pub fields : Text → List Text
unfolding fields_from
fields s = fields_from 0 [] s

two_fields : fields (97 ∷ 98 ∷ 32 ∷ 10 ∷ 99 ∷ []) ≡ (97 ∷ 98 ∷ []) ∷ (99 ∷ []) ∷ []
unfolding fields space_width
two_fields = refl

two_runes : runes (0xE4 ∷ 0xB8 ∷ 0xAD ∷ 0x61 ∷ []) ≡ (0xE4 ∷ 0xB8 ∷ 0xAD ∷ []) ∷ (0x61 ∷ []) ∷ []
unfolding runes
two_runes = refl
