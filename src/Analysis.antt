-- ===== src/Analysis.antt =====
-- engine/kernel/analysis/freq.go and token.go: how often the terms of a text stand in it, and where.
-- A Go map is an association list; the pointers of `locations` are to one value each.
pub mod Counts
mod Tests
use baud.Base.{ℕ, ◌+◌, Bool, Option, none, some, List, [], ◌∷◌, ◌++◌, map, if◌then◌else◌}
use baud.Base.Bytes.{Bytes, bytes_eq}
use baud.Base.Assoc.{lookup, insert}

pub record Token : Type 0 where
  pub start : ℕ
  pub end : ℕ
  pub term : Bytes
  pub position : ℕ

pub record TermLocation : Type 0 where
  pub field_id : ℕ
  pub start : ℕ
  pub end : ℕ
  pub position : ℕ

pub record TokenFreq : Type 0 where
  pub term : Bytes
  pub locations : List TermLocation
  pub frequency : ℕ

abbrev pub TokenFrequencies : Type 0
TokenFrequencies = List (Bytes × TokenFreq)

abbrev pub location_of : Token → TermLocation
location_of token = record {
  field_id = 0;
  start = token.start;
  end = token.end;
  position = token.position;
}

-- The location of a token, when term vectors are asked for.
abbrev pub location_if : Bool → Token → List TermLocation
location_if include token = if include then location_of token ∷ [] else []

unfoldable pub add_token : Bool → Token → TokenFrequencies → TokenFrequencies
add_token include token rv = elim (lookup token.term rv) [
  | some curr ↦
      insert token.term
        (record curr {
          locations = curr.locations ++ location_if include token;
          frequency = curr.frequency + 1;
        })
        rv
  | none ↦
      insert token.term
        (record { term = token.term; locations = location_if include token; frequency = 1 }) rv
]

unfoldable pub add_tokens : Bool → List Token → TokenFrequencies → TokenFrequencies
add_tokens include [] rv = rv
add_tokens include (token ∷ tokens) rv = add_tokens include tokens (add_token include token rv)

unfoldable pub token_frequency : Bool → List Token → TokenFrequencies
unfolding add_tokens
token_frequency include tokens = add_tokens include tokens []

abbrev pub tag : ℕ → TermLocation → TermLocation
tag field_id l = record l { field_id = field_id }

unfoldable pub merge_one : ℕ → Bytes × TokenFreq → TokenFrequencies → TokenFrequencies
merge_one field_id (term, tf) tfs =
    let locations = map (tag field_id) tf.locations in
    elim (lookup term tfs) [
      | some existing ↦
          insert term
            (record existing {
              locations = existing.locations ++ locations;
              frequency = existing.frequency + tf.frequency;
            })
            tfs
      | none ↦ insert term (record tf { locations = locations }) tfs
    ]

-- `MergeAll`, over the entries in the order in which they are ranged over; the locations that it tags
-- in the other map are dropped with it.
unfoldable pub merge_all : ℕ → TokenFrequencies → TokenFrequencies → TokenFrequencies
merge_all field_id [] tfs = tfs
merge_all field_id (entry ∷ token_freq) tfs =
    merge_all field_id token_freq (merge_one field_id entry tfs)
