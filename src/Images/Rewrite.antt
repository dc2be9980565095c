-- ===== src/Images/Rewrite.antt =====
-- `rewriteImages` of basispoints/image_upload.go: the inline images of a request are uploaded one after
-- another, and their URLs take their place. What an error leaves of the uploads is returned with it.
pub mod Tally
pub mod Bounded
use cliproxyapi_plugin_basis.Common.{
  ℕ, ◌+◌, ◌*◌, ◌^◌, Bool, true, false, not, ◌&&◌, ◌||◌, Option, none, some, List, [], ◌∷◌, ltb, leb,
  ◌==◌, if◌then◌else◌, length, Result, ok, err,
}
use cliproxyapi_plugin_basis.Common.Int.{ℤ}
use cliproxyapi_plugin_basis.Common.Text.{
  Text, lit, ◌=ᵗ◌, elem, has_prefix, contains, to_lower, trim_space,
}
use cliproxyapi_plugin_basis.Json.{
  Json, null, bool, number, string, array, object, Fields, fields_of, items_of, of_list, text_at,
  get_field, set_field, Coding, object_read,
}
use cliproxyapi_plugin_basis.Config.{Config}
use cliproxyapi_plugin_basis.Images.{Images, Store, Uploaded, upload}
use cliproxyapi_plugin_basis.Images.Urls.{ImageError, decode_data_image}

abbrev pub max_inline_images : ℕ
max_inline_images = 20

abbrev pub max_inline_batch_bytes : ℕ
max_inline_batch_bytes = 32 * 2 ^ 20

-- The errors of `rewriteImages`.
pub data RewriteError : Type 0 where
  storage_fault upload_failed : Text → RewriteError
  unconfigured invalid_request too_many batch_too_large : RewriteError
  bad_image : ImageError → RewriteError

-- The variables of the loops, with what the uploads change.
pub record Rewriting (State : Type 0) : Type 0 where
  pub count : ℕ
  pub total : ℕ
  pub images : Images
  pub state : State

-- What a part of the loops returns, with the variables after it.
abbrev pub Rewritten : Type 0 → Type 0 → Type 0
Rewritten State A = Result RewriteError A × Rewriting State

abbrev pub and_then :
    {State A B : Type 0}
    → Rewritten State A
    → (A → Rewriting State → Rewritten State B)
    → Rewritten State B
and_then (ok a, w) f = f a w
and_then (err e, w) f = (err e, w)

abbrev pub is_inline_image : Fields → Bool
is_inline_image part =
    text_at (lit "type") part =ᵗ lit "input_image"
    && has_prefix (to_lower (trim_space (text_at (lit "image_url") part))) (lit "data:")

abbrev pub has_output : Fields → Bool
has_output item =
    elem (text_at (lit "type") item)
      (lit "function_call_output" ∷ lit "custom_tool_call_output" ∷ [])

-- `bytesContainDataImage`
unfoldable pub bytes_contain_data_image : Text → Bool
bytes_contain_data_image payload = contains (to_lower payload) (lit "data:image/")

-- The decoder is encoding/base64.
module _ (s : Store) (decode : Text → Option Text) (ttl : ℤ) where
  -- The part after its upload.
  abbrev pub placed : Fields → Rewriting s.State → Uploaded s → Rewritten s.State Json
  placed part w (ok url, images, st) = (
    ok (object (set_field (lit "image_url") (string url) part)),
    record w { count = w.count + 1; images = images; state = st },
  )
  placed part w (err e, images, st) =
      (err (upload_failed e), record w { images = images; state = st })

  abbrev pub upload_part :
      Fields → Rewriting s.State → Result ImageError (Text × Text) → Rewritten s.State Json
  upload_part part w (err e) = (err (bad_image e), w)
  upload_part part w (ok (content_type, body)) =
      let w' : Rewriting s.State = record w { total = w.total + length body } in
      if ltb max_inline_batch_bytes w'.total
      then (err batch_too_large, w')
      else placed part w' (upload s w.images content_type body ttl w.state)

  unfoldable pub rewrite_part : Json → Rewriting s.State → Rewritten s.State Json
  rewrite_part raw w =
      let part = fields_of raw in
      if not (is_inline_image part)
      then (ok raw, w)
      else if leb max_inline_images w.count
      then (err too_many, w)
      else upload_part part w (decode_data_image decode (text_at (lit "image_url") part))

  unfoldable pub rewrite_parts : List Json → Rewriting s.State → Rewritten s.State (List Json)
  unfolding rewrite_part
  rewrite_parts [] w = (ok [], w)
  rewrite_parts (raw ∷ rest) w =
      and_then (rewrite_part raw w)
        (λ part w₁. and_then (rewrite_parts rest w₁) (λ parts w₂. (ok (part ∷ parts), w₂)))

  -- A field of an item.
  abbrev pub rewrite_field : Text → Fields → Json → Rewriting s.State → Rewritten s.State Fields
  rewrite_field field item (array xs) w =
      and_then (rewrite_parts (items_of (array xs)) w)
        (λ parts w'. (ok (set_field field (array (of_list parts)) item), w'))
  rewrite_field field item _ w = (ok item, w)

  abbrev pub rewrite_output : Fields → Rewriting s.State → Rewritten s.State Fields
  rewrite_output item w =
      if has_output item
      then rewrite_field (lit "output") item (get_field (lit "output") item) w
      else (ok item, w)

  abbrev pub rewrite_item : Json → Rewriting s.State → Rewritten s.State Json
  rewrite_item (object item) w =
      and_then (rewrite_field (lit "content") item (get_field (lit "content") item) w)
        (λ item₁ w₁. and_then (rewrite_output item₁ w₁) (λ item₂ w₂. (ok (object item₂), w₂)))
  rewrite_item raw w = (ok raw, w)

  unfoldable pub rewrite_items : List Json → Rewriting s.State → Rewritten s.State (List Json)
  unfolding rewrite_parts
  rewrite_items [] w = (ok [], w)
  rewrite_items (raw ∷ rest) w =
      and_then (rewrite_item raw w)
        (λ item w₁. and_then (rewrite_items rest w₁) (λ items w₂. (ok (item ∷ items), w₂)))

  abbrev pub start : Images → s.State → Rewriting s.State
  start images st = record { count = 0; total = 0; images = images; state = st }

  -- The request with its new items, encoded only where an image was uploaded.
  abbrev pub encoded : Coding → Text → Fields → List Json → Rewriting s.State → Text
  encoded k payload source items w =
      if w.count == 0
      then payload
      else k.encode (object (set_field (lit "input") (array (of_list items)) source))

  unfoldable pub rewrite_source :
      Coding → Text → Option Json → Rewriting s.State → Rewritten s.State Text
  unfolding rewrite_items
  rewrite_source k payload (some (object source)) w =
      and_then (rewrite_items (items_of (get_field (lit "input") source)) w)
        (λ items w'. (ok (encoded k payload source items w'), w'))
  rewrite_source k payload _ w = (err invalid_request, w)

  unfoldable pub with_uploader :
      Coding → Text → Result Text Bool → Rewriting s.State → Rewritten s.State Text
  unfolding rewrite_source
  with_uploader k payload (err e) w = (err (storage_fault e), w)
  with_uploader k payload (ok false) w = (err unconfigured, w)
  with_uploader k payload (ok true) w = rewrite_source k payload (object_read (k.decode payload)) w

  -- `rewriteImages`, given what `uploader` answers: an error, or whether there is a store.
  unfoldable pub rewrite_images :
      Coding → Bool → Text → Result Text Bool → Images → s.State → Rewritten s.State Text
  unfolding with_uploader
  rewrite_images k enabled payload uploader images st =
      if not (bytes_contain_data_image payload) || not enabled
      then (ok payload, start images st)
      else with_uploader k payload uploader (start images st)
