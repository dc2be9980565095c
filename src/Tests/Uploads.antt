-- ===== src/Tests/Uploads.antt =====
-- basispoints/image_upload.go and basispoints/envelope.go on concrete inputs.
use cliproxyapi_plugin_basis.Common.Split.{cut_at}
use cliproxyapi_plugin_basis.Common.{
  ◌*◌, ◌^◌, ℕ, ◌≡◌, ◌≤◌, ◌<◌, refl, true, false, Option, none, some, [], ◌∷◌, ◌++◌, length, inl,
  All, ok, arith, if◌then◌else◌, is_nil,
}
use cliproxyapi_plugin_basis.Common.Int.{pos}
use cliproxyapi_plugin_basis.Common.Text.{
  Text, lit, elem, cut_prefix, equal_fold, to_lower, trim_left, trim_right, trim_space, ◌=ᵗ◌,
}
use cliproxyapi_plugin_basis.Images.{
  Images, KeptImage, DeleteJob, Store, upload, sweep, delete_due, due_jobs, pending_jobs,
}
use cliproxyapi_plugin_basis.Images.Schedule.{IsScheduled, sweep-IsScheduled}
use cliproxyapi_plugin_basis.Images.Uploads.{Serves, upload-IsScheduled}
use cliproxyapi_plugin_basis.Images.Urls.Pictures.{IsPicture}
use cliproxyapi_plugin_basis.Images.Urls.Accepted.{Spells, decode_data_image-Accepted}
use cliproxyapi_plugin_basis.Images.Urls.{decode_data_image, image_magic}
use cliproxyapi_plugin_basis.Envelope.{repair_transport_json_strings, repair_from}
use cliproxyapi_plugin_basis.Envelope.Repair.{is_clean}
use cliproxyapi_plugin_basis.Envelope.Repair.Cleaned.{repair_transport_json_strings-clean}
use cliproxyapi_plugin_basis.Envelope.Custom.{
  custom, custom_transport_envelope, text_in, has_bad_rune, custom_transport_prefix,
  custom_transport_envelope-custom,
}
use cliproxyapi_plugin_basis.Envelope.Decode.{
  max_envelope_bytes, Codec, decode_transport_envelope, decode_transport_code, envelope_name,
}
use cliproxyapi_plugin_basis.Envelope.Decode.Plain.{
  IsEnvelope, decode_transport_envelope-IsEnvelope,
}

-- A store whose deletions fail; its state counts them.
abbrev pub full_store : Store
full_store = record {
  State = ℕ;
  put = λ key content_type body n. (none, n);
  presign = λ key ttl n. (ok (lit "https://x/" ++ key), n);
  delete = λ key n. (some (lit "down"), n);
  clock = λ n. (1000, n);
  random_hex = λ n. (lit "00", n);
  digest = λ body. body;
}

-- One image that expires at 2000.
abbrev pub one_image : Images
one_image = record {
  cache = (lit "h", record { url = lit "u"; key = lit "k"; expires = 2000 }) ∷ [];
  jobs = record { key = lit "k"; at_time = 2000; tries = 0 } ∷ [];
}

pub one_image-IsScheduled : IsScheduled one_image
one_image-IsScheduled = record { covered = (inl (refl, refl), tt); tried = (omega arith, tt) }

sweep-IsScheduled_example :
    IsScheduled (sweep full_store 2000 one_image 0).0
    × All
        (λ (entry : Text × KeptImage). 2000 < entry.1.expires)
        (sweep full_store 2000 one_image 0).0.cache
    × All (λ (job : DeleteJob). 2000 < job.at_time) (sweep full_store 2000 one_image 0).0.jobs
sweep-IsScheduled_example = sweep-IsScheduled full_store 2000 one_image 0 one_image-IsScheduled

sweep_retries :
    (sweep full_store 2000 one_image 0).0.jobs
    ≡ record { key = lit "k"; at_time = 30000002000; tries = 1 } ∷ []
unfolding sweep delete_due due_jobs pending_jobs
sweep_retries = refl

upload-IsScheduled_example :
    IsScheduled (upload full_store one_image (lit "image/gif") (lit "b") (pos 5) 0).1
    × Serves full_store
        (lit "b")
        1000
        (upload full_store one_image (lit "image/gif") (lit "b") (pos 5) 0).0
        (upload full_store one_image (lit "image/gif") (lit "b") (pos 5) 0).1
upload-IsScheduled_example =
    upload-IsScheduled full_store one_image (lit "image/gif") (lit "b") (pos 5) 0
      one_image-IsScheduled

abbrev gif_url : Text
gif_url = lit "DATA:image/gif;base64,GIF89a"

decode_gif :
    decode_data_image (λ payload. some payload) gif_url ≡ ok (lit "image/gif", lit "GIF89a")
unfolding decode_data_image trim_space trim_right trim_left lit equal_fold ◌=ᵗ◌ to_lower cut_at
    cut_prefix elem image_magic
decode_gif = refl

decode_data_image-Accepted_example :
    IsPicture (lit "image/gif") (lit "GIF89a")
    × Spells (λ payload. some payload) (trim_space gif_url) (lit "image/gif") (lit "GIF89a")
    × (0 < length (lit "GIF89a"))
    × (length (lit "GIF89a") ≤ 20 * 2 ^ 20)
decode_data_image-Accepted_example =
    decode_data_image-Accepted (λ payload. some payload) gif_url (lit "image/gif") (lit "GIF89a")
      decode_gif

-- A string with a raw line break and an escape that JSON does not have.
abbrev broken : Text
broken = lit "{\"a\":\"x\n\\q\"}"

repair_transport_json_strings-clean_example :
    (is_clean (repair_transport_json_strings broken) ≡ true)
    × (is_clean broken ≡ true → repair_transport_json_strings broken ≡ broken)
    × (repair_transport_json_strings (repair_transport_json_strings broken)
        ≡ repair_transport_json_strings broken)
repair_transport_json_strings-clean_example = repair_transport_json_strings-clean broken

repair_broken : repair_transport_json_strings broken ≡ lit "{\"a\":\"x\\n\\\\q\"}"
unfolding repair_transport_json_strings lit repair_from
repair_broken = refl

-- Values that are texts, or, for `none`, an object whose entries are all `t`; every text holds it.
abbrev pub two_values : Codec
two_values = record {
  Value = Option Text;
  nil_value = some [];
  text_value = some;
  decode = λ raw. some none;
  decode_object = λ raw. none;
  is_object = λ v. elim v [ none ↦ true | some t ↦ false ];
  is_nil_map = λ v. false;
  as_text = λ v. v;
  field = λ name v. elim v [ none ↦ some (some (lit "t")) | some t ↦ none ];
}

decode_object_value : decode_transport_envelope two_values (some (lit "x")) ≡ ok none
unfolding decode_transport_envelope decode_transport_code envelope_name lit ◌=ᵗ◌ trim_space
    trim_right trim_left
decode_object_value = refl

decode_transport_envelope-IsEnvelope_example :
    IsEnvelope two_values none × (decode_transport_envelope two_values none ≡ ok none)
decode_transport_envelope-IsEnvelope_example =
    decode_transport_envelope-IsEnvelope two_values (some (lit "x")) none decode_object_value

-- Values that are texts, or, for `none`, the object of a raw call.
abbrev raw_call : Codec
raw_call = record {
  Value = Option Text;
  nil_value = some [];
  text_value = some;
  decode = λ raw. none;
  decode_object = λ raw. none;
  is_object = λ v. elim v [ none ↦ true | some t ↦ false ];
  is_nil_map = λ v. false;
  as_text = λ v. v;
  field = λ name v.
      if name =ᵗ lit "summary"
      then some (some (lit "codex2api.custom/apply"))
      else some (some (lit "body"));
}

custom_transport_envelope-custom_example :
    (custom_transport_envelope raw_call none ≡ custom (lit "apply") (lit "body")
      → (text_in raw_call (raw_call.field (lit "summary") none)
          ≡ some (custom_transport_prefix ++ lit "apply"))
        × (text_in raw_call (raw_call.field (lit "code") none) ≡ some (lit "body"))
        × (is_nil (lit "apply") ≡ false)
        × (has_bad_rune (lit "apply") ≡ false)
        × (length (lit "body") ≤ max_envelope_bytes))
    × (text_in raw_call (raw_call.field (lit "summary") none)
          ≡ some (custom_transport_prefix ++ lit "apply")
        → text_in raw_call (raw_call.field (lit "code") none) ≡ some (lit "body")
        → is_nil (lit "apply") ≡ false
        → has_bad_rune (lit "apply") ≡ false
        → length (lit "body") ≤ max_envelope_bytes
        → custom_transport_envelope raw_call none ≡ custom (lit "apply") (lit "body"))
custom_transport_envelope-custom_example =
    custom_transport_envelope-custom raw_call none (lit "apply") (lit "body")

custom_transport_envelope_apply :
    custom_transport_envelope raw_call none ≡ custom (lit "apply") (lit "body")
unfolding custom_transport_envelope ◌=ᵗ◌ lit cut_prefix has_bad_rune
custom_transport_envelope_apply = refl

-- A no-break space, a line separator and an ideographic space, and an accented letter.
runes :
    (has_bad_rune (b'a' ∷ 0xc2 ∷ 0xa0 ∷ []) ≡ true)
    × (has_bad_rune (0xe2 ∷ 0x80 ∷ 0xa8 ∷ []) ≡ true)
    × (has_bad_rune (0xe3 ∷ 0x80 ∷ 0x80 ∷ b'a' ∷ []) ≡ true)
    × (has_bad_rune (0xc2 ∷ 0x85 ∷ []) ≡ true)
    × (has_bad_rune (0xc3 ∷ 0xa9 ∷ b'a' ∷ []) ≡ false)
    × (has_bad_rune (0xe2 ∷ 0x80 ∷ 0xa6 ∷ b'a' ∷ []) ≡ false)
unfolding has_bad_rune
runes = (refl, refl, refl, refl, refl, refl)
