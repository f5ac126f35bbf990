-- ===== src/Analysis/Tests.antt =====
-- A small text, and the theorem at a concrete input.
use baud.Base.{ℕ, ◌≡◌, true, [], ◌∷◌, List}
use baud.Base.Assoc.{lookup}
use baud.Analysis.{Token, TermLocation, TokenFrequencies, token_frequency, merge_all}
use baud.Analysis.Counts.{frequency_of, locations_of, merge_all-token_frequency}

-- The terms a, b, a.
abbrev tokens : List Token
tokens =
    record { start = 0; end = 1; term = 97 ∷ []; position = 1 }
    ∷ record { start = 2; end = 3; term = 98 ∷ []; position = 2 }
    ∷ record { start = 4; end = 5; term = 97 ∷ []; position = 3 }
    ∷ []

abbrev location : ℕ → ℕ → ℕ → TermLocation
location start end position = record { field_id = 8; start = start; end = end; position = position }

-- The frequencies of another field, which has the term a twice.
abbrev known : TokenFrequencies
known = (97 ∷ [], record { term = 97 ∷ []; locations = []; frequency = 2 }) ∷ []

merge_all-token_frequency_example :
    (frequency_of (97 ∷ []) (merge_all 8 (token_frequency true tokens) known) ≡ 4)
    × (locations_of (97 ∷ []) (merge_all 8 (token_frequency true tokens) known)
        ≡ location 0 1 1 ∷ location 4 5 3 ∷ [])
unfolding lookup
merge_all-token_frequency_example = merge_all-token_frequency true 8 tokens known (97 ∷ [])
