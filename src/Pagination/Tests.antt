-- ===== src/Pagination/Tests.antt =====
-- The theorems on src/pagination.rs at small inputs.
use sml_mcps.Prelude.{ℕ, ◌≡◌, refl, none, some, [], ◌∷◌, arith}
use sml_mcps.Prelude.Text.{Text}
use sml_mcps.Prelude.Decimal.{show, parse_uint}
use sml_mcps.Line.Utf8.{utf8_valid}
use sml_mcps.Rpc.Json
use sml_mcps.Rpc.Json.{Json, Shape}
use sml_mcps.Error.{err}
use sml_mcps.Pagination.{
  Base64, IsLossless, encode_cursor, decode_cursor, from_cursor, paginate, at_offset, no_item_at,
}
use sml_mcps.Pagination.Walk.{walk, walk_all, fetch}

-- The encoding that changes nothing.
abbrev plain : Base64
plain = record { encode = λ t. t; decode = λ t. some t }

plain-IsLossless : IsLossless plain
plain-IsLossless t = refl

walk_all_example : walk {A = ℕ} ℕ plain (5 ∷ 6 ∷ 7 ∷ []) 2 4 none ≡ some (5 ∷ 6 ∷ 7 ∷ [])
walk_all_example = walk_all ℕ plain (5 ∷ 6 ∷ 7 ∷ []) 2 plain-IsLossless (omega arith)

-- A cursor past the end.
abbrev past_end : Text
past_end = encode_cursor plain 9

past_end_refused :
    fetch {A = ℕ} ℕ plain (5 ∷ []) (from_cursor plain (some past_end) 2)
    ≡ some (err (no_item_at plain 9))
unfolding from_cursor decode_cursor encode_cursor paginate at_offset show parse_uint utf8_valid
past_end_refused = refl

abbrev no_json : Json ℕ
no_json = record {
  shape = λ v. Shape.number;
  field = λ k v. none;
  singleton = λ k v. 0;
  from_str = λ t. Json.Decoded.ok 0;
  decode_id = λ v. none;
  decode_request = λ v. Json.Decoded.err [];
  decode_notification = λ v. Json.Decoded.err [];
  decode_response = λ v. Json.Decoded.err [];
}
