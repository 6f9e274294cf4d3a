-- ===== src/FilePath/Fields.antt =====
-- `strings.Fields`: the words between runs of white space.
use agent_orchestrator_publi.Base.{if◌then◌else◌, List, [], ◌∷◌, reverse, Text, is_empty}
use agent_orchestrator_publi.FilePath.Space.{ascii_space, two_byte_space, three_byte_space}

-- Ends the word that has been read, in reverse.
abbrev flush : Text → List Text → List Text
flush word words = if is_empty word then words else reverse word ∷ words

unfoldable pub fields_from : Text → Text → List Text
fields_from word [] = flush word []
fields_from word (a ∷ []) = if ascii_space a then flush word [] else flush (a ∷ word) []
fields_from word (a ∷ b ∷ []) =
    let cut = flush word (fields_from [] (b ∷ [])) in
    let on = fields_from (a ∷ word) (b ∷ []) in
    if ascii_space a then cut else if two_byte_space a b then flush word [] else on
fields_from word (a ∷ b ∷ c ∷ s) =
    let one = flush word (fields_from [] (b ∷ c ∷ s)) in
    let two = flush word (fields_from [] (c ∷ s)) in
    let three = flush word (fields_from [] s) in
    let on = fields_from (a ∷ word) (b ∷ c ∷ s) in
    if ascii_space a
    then one
    else if two_byte_space a b
    then two
    else if three_byte_space a b c
    then three
    else on

unfoldable pub fields : Text → List Text
unfolding fields_from
fields s = fields_from [] s
