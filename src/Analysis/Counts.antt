-- ===== src/Analysis/Counts.antt =====
-- What the frequencies count.
use baud.Base.{
  ℕ, ◌+◌, ◌≡◌, refl, ap, sym, ◌∙◌, Bool, true, false, Bool-cases, inl, inr, Option, none, some,
  Option-cases, List, [], ◌∷◌, ◌++◌, map, arith, if◌then◌else◌, ◌==◌, ==_iff,
}
use mathlib.Core.Path.{subst}
use mathlib.Core.List.{append-nil, append_assoc}
use baud.Base.Bytes.{Bytes, bytes_eq}
use baud.Base.Assoc.{lookup, insert, lookup-insert, KeysDistinct, insert-KeysDistinct}
use baud.Analysis.{
  Token, TermLocation, TokenFreq, TokenFrequencies, location_of, location_if, add_token, add_tokens,
  token_frequency, tag, merge_one, merge_all,
}

abbrev frequency_in : Option TokenFreq → ℕ
frequency_in none = 0
frequency_in (some tf) = tf.frequency

abbrev locations_in : Option TokenFreq → List TermLocation
locations_in none = []
locations_in (some tf) = tf.locations

-- The frequency and the locations of a term, 0 and none when it has no entry.
abbrev pub frequency_of : Bytes → TokenFrequencies → ℕ
frequency_of term tfs = frequency_in (lookup term tfs)

abbrev pub locations_of : Bytes → TokenFrequencies → List TermLocation
locations_of term tfs = locations_in (lookup term tfs)

-- The tokens of a term, counted and listed one by one.
abbrev pub count_term : Bytes → List Token → ℕ
count_term term [] = 0
count_term term (token ∷ tokens) =
    let rest = count_term term tokens in if token.term == term then rest + 1 else rest

abbrev pub term_locations : Bytes → List Token → List TermLocation
term_locations term [] = []
term_locations term (token ∷ tokens) =
    let rest = term_locations term tokens in
    if token.term == term then location_of token ∷ rest else rest

-- A change of the entry of a key.
abbrev change : Bytes → (Option TokenFreq → TokenFreq) → TokenFrequencies → TokenFrequencies
change key f tfs = insert key (f (lookup key tfs)) tfs

lookup-change :
    (key term : Bytes) (f : Option TokenFreq → TokenFreq) (tfs : TokenFrequencies)
    → lookup term (change key f tfs)
      ≡ (if key == term then some (f (lookup term tfs)) else lookup term tfs)
lookup-change key term f tfs =
    let new = lookup-insert key term (f (lookup key tfs)) tfs in
    elim (Bool-cases (key == term)) [
      | inl b ↦
          let same : key ≡ term = (==_iff key term).0 b in
          new ∙ rw b (ap (λ k. some (f (lookup k tfs))) same)
      | inr b ↦ new ∙ rw b refl
    ]

-- The entry after a token of its term.
abbrev with_token : Bool → Token → Option TokenFreq → TokenFreq
with_token include token none = record {
  term = token.term;
  locations = location_if include token;
  frequency = 1;
}
with_token include token (some curr) = record curr {
  locations = curr.locations ++ location_if include token;
  frequency = curr.frequency + 1;
}

add_token-change :
    (include : Bool) (token : Token) (rv : TokenFrequencies)
    → add_token include token rv ≡ change token.term (with_token include token) rv
unfolding add_token
add_token-change include token rv = elim (Option-cases (lookup token.term rv)) [
  | inl e ↦ rw (add_token, e) refl
  | inr (curr, e) ↦ rw (add_token, e) refl
]

abbrev with_entry : ℕ → TokenFreq → Option TokenFreq → TokenFreq
with_entry field_id tf none = record tf { locations = map (tag field_id) tf.locations }
with_entry field_id tf (some existing) = record existing {
  locations = existing.locations ++ map (tag field_id) tf.locations;
  frequency = existing.frequency + tf.frequency;
}

merge_one-change :
    (field_id : ℕ) (term : Bytes) (tf : TokenFreq) (tfs : TokenFrequencies)
    → merge_one field_id (term, tf) tfs ≡ change term (with_entry field_id tf) tfs
unfolding merge_one
merge_one-change field_id term tf tfs = elim (Option-cases (lookup term tfs)) [
  | inl e ↦ rw (merge_one, e) refl
  | inr (existing, e) ↦ rw (merge_one, e) refl
]

with_token-adds :
    (include : Bool) (token : Token) (o : Option TokenFreq)
    → ((with_token include token o).frequency ≡ frequency_in o + 1)
      × ((with_token include token o).locations ≡ locations_in o ++ location_if include token)
with_token-adds include token none = (omega arith, refl)
with_token-adds include token (some curr) = (refl, refl)

with_entry-adds :
    (field_id : ℕ) (tf : TokenFreq) (o : Option TokenFreq)
    → ((with_entry field_id tf o).frequency ≡ frequency_in o + tf.frequency)
      × ((with_entry field_id tf o).locations ≡ locations_in o ++ map (tag field_id) tf.locations)
with_entry-adds field_id tf none = (omega arith, refl)
with_entry-adds field_id tf (some existing) = (refl, refl)

-- What the entry of a term counts after a change that adds to the entry of a key.
change-adds :
    (key term : Bytes) (f : Option TokenFreq → TokenFreq) (n : ℕ) (ls : List TermLocation)
    (tfs : TokenFrequencies)
    → ((o : Option TokenFreq)
        → ((f o).frequency ≡ frequency_in o + n) × ((f o).locations ≡ locations_in o ++ ls))
    → (frequency_of term (change key f tfs)
        ≡ frequency_of term tfs + (if key == term then n else 0))
      × (locations_of term (change key f tfs)
          ≡ locations_of term tfs ++ (if key == term then ls else []))
change-adds key term f n ls tfs adds = elim (Bool-cases (key == term)) [
  | inl b ↦
      let e : lookup term (change key f tfs) ≡ some (f (lookup term tfs)) =
        lookup-change key term f tfs ∙ rw b refl in
      (
        rw b (ap frequency_in e ∙ (adds (lookup term tfs)).0),
        rw b (ap locations_in e ∙ (adds (lookup term tfs)).1),
      )
  | inr b ↦
      let e : lookup term (change key f tfs) ≡ lookup term tfs =
        lookup-change key term f tfs ∙ rw b refl in
      let none_more = append-nil (locations_of term tfs) in
      (rw b (ap frequency_in e ∙ omega arith), rw b (ap locations_in e ∙ sym none_more))
]

-- The tokens of a text.
add_tokens-adds :
    (include : Bool) (term : Bytes) (tokens : List Token) (rv : TokenFrequencies)
    → (frequency_of term (add_tokens include tokens rv)
        ≡ frequency_of term rv + count_term term tokens)
      × (locations_of term (add_tokens include tokens rv)
          ≡ locations_of term rv ++ (if include then term_locations term tokens else []))
unfolding add_tokens
add_tokens-adds true term [] rv = (omega arith, sym (append-nil (locations_of term rv)))
add_tokens-adds false term [] rv = (omega arith, sym (append-nil (locations_of term rv)))
add_tokens-adds include term (token ∷ tokens) rv =
    let next = add_token include token rv in
    let rest = add_tokens-adds include term tokens next in
    let one =
      change-adds token.term term (with_token include token) 1 (location_if include token) rv
        (with_token-adds include token) in
    let same = add_token-change include token rv in
    let counted : frequency_of term next
        ≡ frequency_of term rv + (if token.term == term then 1 else 0) =
      ap (frequency_of term) same ∙ one.0 in
    let listed : locations_of term next
        ≡ locations_of term rv ++ (if token.term == term then location_if include token else []) =
      ap (locations_of term) same ∙ one.1 in
    (
      ground (arith, rest.0, counted),
      rest.1
          ∙ ap (λ ls. ls ++ (if include then term_locations term tokens else [])) listed
          ∙ append_assoc (locations_of term rv)
              (if token.term == term then location_if include token else [])
              (if include then term_locations term tokens else [])
          ∙ ap (λ ls. locations_of term rv ++ ls) (joined include (token.term == term)),
    )
  where
    joined :
        (b c : Bool)
        → (if c then location_if b token else []) ++ (if b then term_locations term tokens else [])
          ≡ (if b
              then (if c
                  then location_of token ∷ term_locations term tokens
                  else term_locations term tokens)
              else [])
    joined true true = refl
    joined true false = refl
    joined false true = refl
    joined false false = refl

add_tokens-KeysDistinct :
    (include : Bool) (tokens : List Token) (rv : TokenFrequencies)
    → KeysDistinct rv
    → KeysDistinct (add_tokens include tokens rv)
unfolding add_tokens
add_tokens-KeysDistinct include [] rv d = d
add_tokens-KeysDistinct include (token ∷ tokens) rv d =
    add_tokens-KeysDistinct include tokens (add_token include token rv)
      (rw (add_token-change include token rv) (insert-KeysDistinct token.term _ rv d))

-- The entries of another map.
merge_all-adds :
    (field_id : ℕ) (term : Bytes) (tf tfs : TokenFrequencies)
    → KeysDistinct tf
    → (frequency_of term (merge_all field_id tf tfs) ≡ frequency_of term tfs + frequency_of term tf)
      × (locations_of term (merge_all field_id tf tfs)
          ≡ locations_of term tfs ++ map (tag field_id) (locations_of term tf))
unfolding merge_all lookup
merge_all-adds field_id term [] tfs d = (omega arith, sym (append-nil (locations_of term tfs)))
merge_all-adds field_id term ((key, tf) ∷ others) tfs d =
    let next = merge_one field_id (key, tf) tfs in
    let rest = merge_all-adds field_id term others next d.1 in
    let one =
      change-adds key term (with_entry field_id tf) tf.frequency (map (tag field_id) tf.locations)
        tfs (with_entry-adds field_id tf) in
    let same = merge_one-change field_id key tf tfs in
    let counted = ap (frequency_of term) same ∙ one.0 in
    let listed = ap (locations_of term) same ∙ one.1 in
    elim (Bool-cases (key == term)) [
      | inl b ↦
          let nothing : lookup term others ≡ none =
            subst (λ k. lookup k others ≡ none) ((==_iff key term).0 b) d.0 in
          (
            rw b (rest.0 ∙ rw (counted, b, nothing) (omega arith)),
            rw b (rest.1 ∙ rw (listed, b, nothing) (append-nil _)),
          )
      | inr b ↦ (
        rw b (rest.0 ∙ rw (counted, b) (omega arith)),
        rw b (
            rest.1
            ∙ rw (listed, b)
                (ap (λ ls. ls ++ map (tag field_id) (locations_of term others))
                  (append-nil (locations_of term tfs)))),
      )
    ]

-- For any tokens of a field and any frequencies. Merged into them, the frequencies of the tokens add
-- to each term the number of its tokens, and their locations in the order of the text, with the field,
-- if term vectors are asked for, and otherwise none.
pub merge_all-token_frequency :
    (include : Bool) (field_id : ℕ) (tokens : List Token) (tfs : TokenFrequencies) (term : Bytes)
    → let merged = merge_all field_id (token_frequency include tokens) tfs in
      (frequency_of term merged ≡ frequency_of term tfs + count_term term tokens)
      × (locations_of term merged
          ≡ locations_of term tfs
            ++ map (tag field_id) (if include then term_locations term tokens else []))
unfolding token_frequency lookup
merge_all-token_frequency include field_id tokens tfs term =
    let counts = add_tokens-adds include term tokens [] in
    let merged =
      merge_all-adds field_id term (add_tokens include tokens []) tfs
        (add_tokens-KeysDistinct include tokens [] tt) in
    (
      merged.0 ∙ ap (λ n. frequency_of term tfs + n) (counts.0 ∙ omega arith),
      merged.1 ∙ ap (λ ls. locations_of term tfs ++ map (tag field_id) ls) counts.1,
    )
