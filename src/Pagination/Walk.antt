-- ===== src/Pagination/Walk.antt =====
-- Following the cursors of src/pagination.rs from page to page.
use sml_mcps.Prelude.{
  ℕ, zero, suc, ◌+◌, ◌-◌, ◌≤◌, ◌<◌, ◌≡◌, refl, sym, ◌∙◌, ap, inl, inr, max, min, true, false, ◌&&◌,
  Bool-cases, Option, Option-cases, none, some, List, [], ◌∷◌, ◌++◌, arith, leb, ltb, ltb→lt,
  if◌then◌else◌, length, take, drop, length-take, length-drop, take-append-drop,
}
use sml_mcps.Prelude.Text.{Text}
use sml_mcps.Prelude.Decimal.{show, show-IsAscii, u64_mod, parse_uint-show}
use sml_mcps.Line.Utf8.{utf8_valid-ascii}
use sml_mcps.Prelude.Int.{neg}
use sml_mcps.Rpc.Json.{Json}
use sml_mcps.Error.{McpError, Result, ok, err, to_jsonrpc_error}
use sml_mcps.Pagination.{
  Base64, IsLossless, PageState, at_offset, plus_usize, slice, next_from, encode_cursor,
  decode_cursor, next_cursor, from_cursor, paginate, no_item_at, invalid_cursor,
}

module _ (b : Base64) where
  -- A cursor that is handed out leads back to its offset.
  pub decode_cursor-encode_cursor :
      (n : ℕ) → IsLossless b → n < u64_mod → decode_cursor b (encode_cursor b n) ≡ some n
  unfolding decode_cursor encode_cursor
  decode_cursor-encode_cursor n h k =
      rw (h (show n), utf8_valid-ascii (show n) (show-IsAscii n)) (parse_uint-show u64_mod n k)

module _ {A : Type 0} where
  take_clamped : (n : ℕ) (xs : List A) → take (min n (length xs)) xs ≡ take n xs
  take_clamped zero xs = ap (λ k. take k xs) (min_zero (length xs))
    where
      min_zero : (c : ℕ) → min zero c ≡ zero
      min_zero c = omega arith
  take_clamped (suc n) [] = ap (λ k. take k []) (min_nil (suc n)) ∙ refl
    where
      min_nil : (c : ℕ) → min c 0 ≡ 0
      min_nil c = omega arith
  take_clamped (suc n) (x ∷ xs) =
      ap (λ k. take k (x ∷ xs)) (suc_min n (length xs)) ∙ ap (◌∷◌ x) (take_clamped n xs)
    where
      suc_min : (a c : ℕ) → min (suc a) (suc c) ≡ suc (min a c)
      suc_min a c = omega arith

  -- The slice of a page, and its length.
  slice_page :
      (items : List A) (offset limit : ℕ)
      → offset < length items
      → slice offset (min (offset + limit) (length items)) items
        ≡ some (take limit (drop offset items))
  unfolding slice
  slice_page items offset limit h =
      rw (inside, width) (ap some (take_clamped limit (drop offset items)))
    where
      inside :
          leb offset (min (offset + limit) (length items))
            && leb (min (offset + limit) (length items)) (length items)
          ≡ true
      inside = ground arith

      width : min (offset + limit) (length items) - offset ≡ min limit (length (drop offset items))
      width = omega (arith, length-drop offset items)

  take_all : (n : ℕ) (xs : List A) → length xs ≤ n → take n xs ≡ xs
  take_all zero [] h = refl
  take_all zero (x ∷ xs) h = absurd (omega (arith, h))
  take_all (suc n) [] h = refl
  take_all (suc n) (x ∷ xs) h = ap (◌∷◌ x) (take_all n xs (omega (arith, h)))

  drop-drop : (n m : ℕ) (xs : List A) → drop (n + m) xs ≡ drop m (drop n xs)
  drop-drop zero m xs = ap (λ k. drop k xs) (zero_plus m)
    where
      zero_plus : (c : ℕ) → zero + c ≡ c
      zero_plus c = omega arith
  drop-drop (suc n) m [] = ap (λ k. drop k []) (suc_plus n m) ∙ sym (drop_nil m)
    where
      suc_plus : (a c : ℕ) → suc a + c ≡ suc (a + c)
      suc_plus a c = omega arith

      drop_nil : (a : ℕ) → drop {A = A} a [] ≡ []
      drop_nil zero = refl
      drop_nil (suc a) = refl
  drop-drop (suc n) m (x ∷ xs) = ap (λ k. drop k (x ∷ xs)) (suc_plus n m) ∙ drop-drop n m xs
    where
      suc_plus : (a c : ℕ) → suc a + c ≡ suc (a + c)
      suc_plus a c = omega arith

  abbrev pub prepend : List A → Option (List A) → Option (List A)
  prepend page none = none
  prepend page (some rest) = some (page ++ rest)

module _ (b : Base64) where
  next_from_page :
      (offset limit total returned : ℕ)
      → offset < total
      → total + limit < u64_mod
      → returned ≡ min limit (total - offset)
      → next_from b (plus_usize offset returned) total
        ≡ (if ltb (offset + limit) total then some (encode_cursor b (offset + limit)) else none)
  next_from_page offset limit total returned h k e =
      elim (Bool-cases (ltb (offset + limit) total)) [
        | inl more ↦ rw (more, next (omega (arith, e, ltb→lt _ _ more)), more) refl
        | inr last ↦ rw (last, next_last (ge last)) refl
      ]
    where
      ge : ltb (offset + limit) total ≡ false → total ≤ offset + limit
      ge l = ground arith

      next : returned ≡ limit → plus_usize offset returned ≡ offset + limit
      next l = omega (arith, h, k)

      next_last : total ≤ offset + limit → ltb (plus_usize offset returned) total ≡ false
      next_last l = ground (arith, e, h, k)

module _ {A V : Type 0} (b : Base64) where
  abbrev page_with : List A → Option Text → Option (Result V (List A × Option Text))
  page_with page next = some (ok (page, next))

  -- The page at an offset inside the list, where no sum overflows.
  pub paginate_page :
      (items : List A) (offset limit : ℕ)
      → offset < length items
      → length items + limit < u64_mod
      → paginate {V = V} b items (record { offset = offset; limit = limit })
        ≡ some (
            ok (
              take limit (drop offset items),
              if ltb (offset + limit) (length items)
                  then some (encode_cursor b (offset + limit))
                  else none,
            ))
  unfolding paginate next_cursor
  paginate_page items offset limit h k =
      rw (guard, inside, no_wrap, slice_page items offset limit h)
        (ap (λ n. page_with (take limit (drop offset items)) n)
          (next_from_page b offset limit (length items) _ h k returned))
    where
      guard : ltb 0 offset && leb (length items) offset ≡ false
      guard = ground arith

      inside : leb (length items) offset ≡ false
      inside = ground arith

      no_wrap : plus_usize offset limit ≡ offset + limit
      no_wrap = omega (arith, h, k)

      returned : length (take limit (drop offset items)) ≡ min limit (length items - offset)
      returned = omega (arith, length-take limit (drop offset items), length-drop offset items)

module _ {V : Type 0} (b : Base64) where
  starts : (page_size : ℕ) → from_cursor {V = V} b none page_size ≡ ok (at_offset 0 page_size)
  unfolding from_cursor
  starts page_size = refl

module _ {A : Type 0} (V : Type 0) (b : Base64) where
  -- A client that follows the cursors: what it reads in all, where every page is served. The
  -- fuel bounds the number of pages.
  abbrev visit :
      Option (Result V (List A × Option Text)) → (Text → Option (List A)) → Option (List A)
  visit none continue = none
  visit (some (err e)) continue = none
  visit (some (ok (page, none))) continue = some page
  visit (some (ok (page, some cursor))) continue = prepend page (continue cursor)

  abbrev pub fetch : List A → Result V PageState → Option (Result V (List A × Option Text))
  fetch items (err e) = some (err e)
  fetch items (ok s) = paginate b items s

  pub walk : List A → ℕ → ℕ → Option Text → Option (List A)
  walk items page_size zero cursor = none
  walk items page_size (suc fuel) cursor =
      visit (fetch items (from_cursor b cursor page_size))
        (λ next. walk items page_size fuel (some next))

  walk_from :
      (items : List A) (page_size fuel offset : ℕ) (cursor : Option Text)
      → IsLossless b
      → length items + max page_size 1 < u64_mod
      → from_cursor {V = V} b cursor page_size ≡ ok (at_offset offset page_size)
      → offset < length items
      → length items - offset < fuel
      → walk items page_size fuel cursor ≡ some (drop offset items)
  unfolding walk at_offset from_cursor
  walk_from items page_size zero offset cursor law k e h m = absurd (omega (arith, m))
  walk_from items page_size (suc fuel) offset cursor law k e h m =
      let limit = max page_size 1 in
      rw (e, paginate_page b items offset limit h k)
        (elim (Bool-cases (ltb (offset + limit) (length items))) [
          | inr last ↦ rw last (ap some (take_all limit (drop offset items) (short last)))
          | inl more ↦
              rw
                (
                  more,
                  walk_from items page_size fuel (offset + limit) _ law k (leads more)
                      (ltb→lt _ _ more) (omega (arith, m, h)),
                )
                (ap some (
                  ap (λ rest. take limit (drop offset items) ++ rest) (drop-drop offset limit items)
                  ∙ take-append-drop limit (drop offset items)))
        ])
    where
      short :
          ltb (offset + max page_size 1) (length items) ≡ false
          → length (drop offset items) ≤ max page_size 1
      short l = ground (arith, length-drop offset items)

      leads :
          ltb (offset + max page_size 1) (length items) ≡ true
          → from_cursor {V = V} b (some (encode_cursor b (offset + max page_size 1))) page_size
            ≡ ok (at_offset (offset + max page_size 1) page_size)
      leads l =
          rw
            (decode_cursor-encode_cursor b (offset + max page_size 1) law
              (omega (arith, ltb→lt _ _ l, k)))
            refl

  first_empty : (page_size : ℕ) → walk [] page_size 1 none ≡ some []
  unfolding walk from_cursor at_offset paginate
  first_empty page_size = refl

  -- A client that starts without a cursor and follows each cursor it is given reads the whole
  -- list, each item once and in order, in at most as many pages as there are items and one more,
  -- whatever the page size. Base64 loses nothing, and the list and a page
  -- together are shorter than 2 ^ 64 items.
  pub walk_all :
      (items : List A) (page_size : ℕ)
      → IsLossless b
      → length items + max page_size 1 < u64_mod
      → walk items page_size (suc (length items)) none ≡ some items
  unfolding walk
  walk_all [] page_size law k = first_empty page_size
  walk_all (x ∷ xs) page_size law k =
      walk_from (x ∷ xs) page_size (suc (length (x ∷ xs))) 0 none law k (starts b page_size)
        (omega arith) (omega arith)

  -- Whatever cursor is sent, a refusal is the JSON-RPC error -32602, invalid params.
  pub fetch_refused :
      (j : Json V) (items : List A) (page_size : ℕ) (cursor : Option Text) (e : McpError V)
      → fetch items (from_cursor b cursor page_size) ≡ some (err e)
      → (to_jsonrpc_error j e).code ≡ neg 32602
  unfolding from_cursor paginate slice to_jsonrpc_error invalid_cursor no_item_at
  fetch_refused j items page_size none e h = ground arith
  fetch_refused j items page_size (some cursor) e h =
      ground (arith, Option-cases (decode_cursor b cursor))
