-- ===== src/Document/Tests.antt =====
-- The theorems on crates/llmbase-core/src/document.rs at a small document.
use llmbase.Prelude.{drop, All, ℕ, String, ◌≡◌, refl, inl, true, List, [], ◌∷◌, arith}
use llmbase.Json.{Value, string, object, end, field}
use llmbase.Errors.{Result, ok}
use llmbase.Document.{
  Document, dashes, null_to_empty, parse, chunks, byte_to_scalar, scalar_to_byte,
}
use llmbase.Document.Spans.{joined, IsSpan, chunks-Cover}
use llmbase.Document.Offsets.{scalar_to_byte-back}
use llmbase.Document.FrontMatter.{flat_lines, ended, lines_of, fronted, parse-fronted}

abbrev any_hash : List ℕ → String
any_hash bytes = "hash"

abbrev sample_metadata : Value
sample_metadata = object (field "title" (string "T") end)

abbrev any_metadata : List ℕ → Result Value
any_metadata front = ok sample_metadata

abbrev title_lines : List (List ℕ)
title_lines = (b't' ∷ b':' ∷ b'T' ∷ []) ∷ []

abbrev close_line : List ℕ
close_line = ended dashes

-- A character of two bytes and one of one byte.
abbrev sample_body : List ℕ
sample_body = 0xC3 ∷ 0xA9 ∷ b'x' ∷ []

abbrev sample_document : Document
sample_document = record {
  original = fronted true title_lines close_line sample_body;
  metadata = sample_metadata;
  body_start = 13;
  hash = "hash";
}

parse-fronted_example :
    (sample_document.original ≡ fronted true title_lines close_line sample_body)
    × (drop sample_document.body_start sample_document.original ≡ sample_body)
    × ((metadata : Value) × (any_metadata (flat_lines (lines_of title_lines)) ≡ ok metadata)
        × (sample_document.metadata ≡ null_to_empty metadata))
unfolding parse
parse-fronted_example =
    parse-fronted any_hash any_metadata true title_lines close_line sample_body sample_document refl
      refl (inl (dashes, refl, refl)) refl refl

chunks-Cover_example :
    (joined sample_document.original ((13, 16) ∷ [])
      ≡ drop sample_document.body_start sample_document.original)
    × All (IsSpan sample_document.original 16) ((13, 16) ∷ [])
unfolding chunks
chunks-Cover_example = chunks-Cover sample_document 16 ((13, 16) ∷ []) (omega arith) refl

scalar_to_byte-back_example : byte_to_scalar sample_body 2 ≡ ok 1
unfolding scalar_to_byte
scalar_to_byte-back_example = scalar_to_byte-back sample_body 1 2 refl
