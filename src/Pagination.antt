-- ===== src/Pagination.antt =====
-- src/pagination.rs: cursors of the list operations, and the pages they lead to.
pub mod Walk
mod Tests
use sml_mcps.Prelude.{
  ℕ, ◌+◌, ◌-◌, ◌%◌, ◌≡◌, max, min, Bool, true, false, ◌&&◌, Option, none, some, List, [], ◌++◌, leb,
  ltb, if◌then◌else◌, length, take, drop,
}
use sml_mcps.Prelude.Text.{Text, text}
use sml_mcps.Prelude.Decimal.{show, parse_uint, u64_mod}
use sml_mcps.Line.Utf8.{utf8_valid}
use sml_mcps.Error.{McpError, Result, ok, err, invalid_params_of}

-- `URL_SAFE_NO_PAD` of the crate base64. What it promises is that decoding undoes encoding.
pub record Base64 : Type 0 where
  pub encode : Text → Text
  pub decode : Text → Option Text

abbrev pub IsLossless : Base64 → Type 0
IsLossless b = (t : Text) → b.decode (b.encode t) ≡ some t

pub record PageState : Type 0 where
  pub offset : ℕ
  pub limit : ℕ

-- `PageState::at`
unfoldable pub at_offset : ℕ → ℕ → PageState
at_offset offset page_size = record { offset = offset; limit = max page_size 1 }

-- `usize` is 64 bits wide, and a sum wraps around as in a release build.
abbrev pub plus_usize : ℕ → ℕ → ℕ
plus_usize a b = (a + b) % u64_mod

-- `&items[start..end]`, which panics, the outcome `none`, where the range is not in the slice
unfoldable pub slice : {A : Type 0} → ℕ → ℕ → List A → Option (List A)
slice start end items =
    if leb start end && leb end (length items)
    then some (take (end - start) (drop start items))
    else none

module _ (b : Base64) where
  unfoldable pub encode_cursor : ℕ → Text
  encode_cursor offset = b.encode (show offset)

  abbrev from_bytes : Option Text → Option ℕ
  from_bytes none = none
  from_bytes (some t) = if utf8_valid t then parse_uint u64_mod t else none

  unfoldable pub decode_cursor : Text → Option ℕ
  decode_cursor cursor = from_bytes (b.decode cursor)

  abbrev pub next_from : ℕ → ℕ → Option Text
  next_from next total = if ltb next total then some (encode_cursor next) else none

  -- `PageState::next_cursor`
  unfoldable pub next_cursor : PageState → ℕ → ℕ → Option Text
  next_cursor s total returned = next_from (plus_usize s.offset returned) total

module _ {V : Type 0} (b : Base64) where
  unfoldable pub invalid_cursor : Text → McpError V
  invalid_cursor cursor = invalid_params_of (text "Invalid cursor: " ++ cursor)

  unfoldable pub no_item_at : ℕ → McpError V
  no_item_at offset = invalid_params_of (text "Invalid cursor: no item at offset " ++ show offset)

  abbrev pub from_offset : Text → ℕ → Option ℕ → Result V PageState
  from_offset cursor page_size none = err (invalid_cursor cursor)
  from_offset cursor page_size (some offset) = ok (at_offset offset page_size)

  -- `PageState::from_cursor`
  unfoldable pub from_cursor : Option Text → ℕ → Result V PageState
  from_cursor none page_size = ok (at_offset 0 page_size)
  from_cursor (some cursor) page_size = from_offset cursor page_size (decode_cursor b cursor)

  abbrev pub page_of :
      {A : Type 0} → PageState → ℕ → Option (List A) → Option (Result V (List A × Option Text))
  page_of s total none = none
  page_of s total (some page) = some (ok (page, next_cursor b s total (length page)))

  -- The outcome `none` is a panic.
  unfoldable pub paginate :
      {A : Type 0} → List A → PageState → Option (Result V (List A × Option Text))
  paginate items s =
      let total = length items in
      if ltb 0 s.offset && leb total s.offset
      then some (err (no_item_at s.offset))
      else if leb total s.offset
      then some (ok ([], none))
      else page_of s total (slice s.offset (min (plus_usize s.offset s.limit) total) items)
