-- ===== src/Tools/Calls/RoundTrip.antt =====
-- A call of the client's history, rebuilt as a native item and translated again
-- (`rebuildNativeHistoryCall` and `translateCall` of basispoints/tools.go).
use cliproxyapi_plugin_basis.Common.{
  true, false, ◌&&◌, some, [], ◌∷◌, ◌++◌, is_nil, arith, ◌≡◌, refl, ◌∙◌, subst, ◌⊎◌, inl, inr, ok,
}
use cliproxyapi_plugin_basis.Common.Text.{Text, lit, ◌=ᵗ◌, cut_prefix}
use cliproxyapi_plugin_basis.Common.Assoc.{Assoc, lookup}
use cliproxyapi_plugin_basis.Envelope.Decode.{is_wrapper, envelope_name, envelope_arguments}
use cliproxyapi_plugin_basis.Envelope.Decode.Encoded.{IsCodeOf, decode_transport_envelope-IsCodeOf}
use cliproxyapi_plugin_basis.Envelope.Custom.{custom_transport_envelope}
use cliproxyapi_plugin_basis.Json.{
  Json, string, array, object, nil, fingerprint, Fields, fields_of, ltb_text, text_at, find_field,
  get_field, set_field, object_of, Coding, json_codec,
}
use cliproxyapi_plugin_basis.Tools.{Tool, qualified, has_name, namespace_value}
use cliproxyapi_plugin_basis.Json.Laws.{get_field-set_field_self, get_field-set_field_ne}
use cliproxyapi_plugin_basis.Tools.Collect.{is_client_kind}
use cliproxyapi_plugin_basis.Tools.History.{
  call_payload, call_envelope, transport_arguments, rebuilt_item, rebuild_native_history_call,
}
use cliproxyapi_plugin_basis.Tools.Calls.{
  client_item, finish_client_tool_call, transport_arguments_of, transport_envelope, transport_call,
}
use cliproxyapi_plugin_basis.Tools.Calls.Relayed.{Calls, IfOk, finish-Calls}

-- What the client reads of an argument: the text of an object, or a text.
abbrev pub payload_text : Coding → Json → Text
payload_text k (string s) = s
payload_text k v = k.encode v

-- A function's call or a custom tool's, with its argument.
abbrev pub Matches : Text → Text × Json → Type 0
Matches kind payload =
    ((args : Fields) × (kind ≡ lit "function") × (payload ≡ (lit "arguments", object args)))
    ⊎ ((input : Text) × (kind ≡ lit "custom") × (payload ≡ (lit "input", string input)))

module _ (k : Coding) where
  -- The transport is opened as it was closed.
  arguments_lem :
      (item : Fields) (id code : Text)
      → k.decode (k.encode (transport_arguments code)) ≡ some (transport_arguments code)
      → transport_arguments_of k (
          get_field
            (lit "arguments")
            (rebuilt_item k item id (k.encode (transport_arguments code))))
        ≡ ok (fields_of (transport_arguments code))
  unfolding get_field set_field object_of lit ◌=ᵗ◌ ltb_text
  arguments_lem item id code h = rw h refl

  envelope_lem :
      (tools : Assoc Tool) (code name : Text) (e : Fields)
      → IsCodeOf (json_codec k) code (object e)
      → envelope_name (json_codec k) (object e) ≡ ok name
      → is_wrapper (json_codec k) name ≡ false
      → transport_envelope k tools (fields_of (transport_arguments code)) ≡ ok (e, false)
  unfolding find_field get_field set_field object_of lit ◌=ᵗ◌ ltb_text custom_transport_envelope
      cut_prefix
  envelope_lem tools code name e i q w =
      rw
        (decode_transport_envelope-IsCodeOf (json_codec k) (string code) (object e) code name refl
          refl i q w)
        refl

  -- The envelope of a call has its name.
  name_lem :
      (name : Text) (kind : Text) (payload : Text × Json)
      → is_nil name ≡ false
      → Matches kind payload
      → envelope_name (json_codec k) (call_envelope name payload) ≡ ok name
  unfolding envelope_name find_field set_field object_of lit ◌=ᵗ◌ ltb_text
  name_lem [] kind payload n m = absurd (cc)
  name_lem (c ∷ name) kind payload n (inl (args, _, p)) = rw p refl
  name_lem (c ∷ name) kind payload n (inr (input, _, p)) = rw p refl

  function_item : Fields → Tool → Fields → Fields
  function_item native t args = set_field (lit "arguments") (string (k.encode (object args))) (
      set_field (lit "encrypted_function_args") (array nil)
        (client_item k native t (text_at (lit "call_id") native)))

  custom_item : Fields → Tool → Text → Fields
  custom_item native t input = set_field (lit "type") (string (lit "custom_tool_call")) (
      set_field (lit "id")
        (string (lit "ctc_" ++ fingerprint k (string (text_at (lit "call_id") native))))
        (set_field (lit "input") (string input)
          (client_item k native t (text_at (lit "call_id") native))))

  finish_function :
      (native : Fields) (t : Tool) (name : Text) (args : Fields)
      → is_nil (text_at (lit "call_id") native) ≡ false
      → t.kind ≡ lit "function"
      → finish_client_tool_call k native t
          (fields_of (call_envelope name (lit "arguments", object args)))
          false
        ≡ ok (function_item native t args)
  unfolding finish_client_tool_call envelope_arguments find_field set_field object_of lit ◌=ᵗ◌
      ltb_text function_item
  finish_function native t name args n kind = rw (n, kind) refl

  finish_custom :
      (native : Fields) (t : Tool) (name input : Text)
      → is_nil (text_at (lit "call_id") native) ≡ false
      → t.kind ≡ lit "custom"
      → finish_client_tool_call k native t
          (fields_of (call_envelope name (lit "input", string input)))
          false
        ≡ ok (custom_item native t input)
  unfolding finish_client_tool_call find_field set_field object_of lit ◌=ᵗ◌ ltb_text custom_item
  finish_custom native t name input n kind = rw (n, kind) refl

  -- The client's call is built from the envelope.
  finish_lem :
      (native : Fields) (t : Tool) (name : Text) (payload : Text × Json)
      → is_nil (text_at (lit "call_id") native) ≡ false
      → Matches t.kind payload
      → (result : Fields) × (finish_client_tool_call k native t
            (fields_of (call_envelope name payload))
            false
          ≡ ok result)
        × (get_field payload.0 result ≡ string (payload_text k payload.1))
  unfolding function_item custom_item
  finish_lem native t name payload n (inl (args, kind, p)) = (
    function_item native t args,
    rw p (finish_function native t name args n kind),
    rw p (get_field-set_field_self (lit "arguments") _ _),
  )
  finish_lem native t name payload n (inr (input, kind, p)) = (
    custom_item native t input,
    rw p (finish_custom native t name input n kind),
    rw p (
        get_field-set_field_ne (lit "type") (lit "input") _ _ (unfold lit ◌=ᵗ◌ in refl)
        ∙ get_field-set_field_ne (lit "id") (lit "input") _ _ (unfold lit ◌=ᵗ◌ in refl)
        ∙ get_field-set_field_self (lit "input") _ _),
  )

  call_id_lem :
      (item : Fields) (id arguments : Text)
      → text_at (lit "call_id") (rebuilt_item k item id arguments) ≡ id
  unfolding text_at get_field set_field object_of lit ◌=ᵗ◌ ltb_text
  call_id_lem item id arguments = refl

  rebuild_lem :
      (item : Fields) (ns : Text) (payload : Text × Json)
      → (has_name (text_at (lit "call_id") item) && has_name (text_at (lit "name") item)) ≡ true
      → namespace_value (find_field (lit "namespace") item) ≡ some ns
      → call_payload k item ≡ ok payload
      → rebuild_native_history_call k item
        ≡ ok (
            rebuilt_item k item (text_at (lit "call_id") item) (
              k.encode (
                transport_arguments
                  (k.encode (call_envelope (qualified ns (text_at (lit "name") item)) payload)))))
  unfolding rebuild_native_history_call
  rebuild_lem item ns payload named spaced paid = rw (named, spaced, paid) refl

qualified_nonblank : (ns name : Text) → is_nil name ≡ false → is_nil (qualified ns name) ≡ false
unfolding qualified
qualified_nonblank [] name h = h
qualified_nonblank (c ∷ ns) name h = refl

client_kind :
    (kind : Text) (payload : Text × Json) → Matches kind payload → is_client_kind kind ≡ true
unfolding lit ◌=ᵗ◌
client_kind kind payload (inl (args, h, p)) = rw h refl
client_kind kind payload (inr (input, h, p)) = rw h refl

-- A call of the client's history that is complete and names a tool of the catalog, under its
-- qualified name, with what the tool's kind takes, is rebuilt as a native item, and that item is
-- translated to a call of that tool again: with the name, the namespace and the identifier of the
-- client's call, and with its argument. The name is no wrapper's, and the decoder reads back the
-- two objects that the encoder wrote, of which the inner has at most 1 MiB.
pub rebuild_native_history_call-transport_call :
    (k : Coding) (item : Fields) (tools : Assoc Tool) (t : Tool) (payload : Text × Json)
    → (has_name (text_at (lit "call_id") item) && has_name (text_at (lit "name") item)) ≡ true
    → t.name ≡ text_at (lit "name") item
    → namespace_value (find_field (lit "namespace") item) ≡ some t.namespace
    → call_payload k item ≡ ok payload
    → Matches t.kind payload
    → lookup (qualified t.namespace (text_at (lit "name") item)) tools ≡ some t
    → is_wrapper (json_codec k) (qualified t.namespace (text_at (lit "name") item)) ≡ false
    → IsCodeOf
        (json_codec k)
        (k.encode (call_envelope (qualified t.namespace (text_at (lit "name") item)) payload))
        (call_envelope (qualified t.namespace (text_at (lit "name") item)) payload)
    → k.decode (
        k.encode (
          transport_arguments
            (k.encode (call_envelope (qualified t.namespace (text_at (lit "name") item)) payload))))
      ≡ some (
          transport_arguments
            (k.encode (call_envelope (qualified t.namespace (text_at (lit "name") item)) payload)))
    → (native result : Fields) × (rebuild_native_history_call k item ≡ ok native)
      × (transport_call k native tools ≡ ok result)
      × (text_at (lit "name") result ≡ text_at (lit "name") item)
      × (text_at (lit "namespace") result ≡ t.namespace)
      × (text_at (lit "call_id") result ≡ text_at (lit "call_id") item)
      × (get_field payload.0 result ≡ string (payload_text k payload.1))
rebuild_native_history_call-transport_call k item tools t payload named same spaced paid m found
      plain code read =
    let (result, p, q) = finish_lem k native t name payload named_id m in
    let calls =
      subst (IfOk (Calls k native t)) p
        (finish-Calls k native t _ false (client_kind t.kind payload m)) in
    (
      native,
      result,
      rebuild_lem k item t.namespace payload named spaced paid,
      translated result p,
      calls.name ∙ same,
      calls.namespace,
      calls.call_id ∙ call_id_lem k item _ _,
      q,
    )
  where
    name : Text
    name = qualified t.namespace (text_at (lit "name") item)

    wrapped : Text
    wrapped = k.encode (call_envelope name payload)

    native : Fields
    native =
        rebuilt_item k item (text_at (lit "call_id") item) (k.encode (transport_arguments wrapped))

    named_id : is_nil (text_at (lit "call_id") native) ≡ false
    named_id = rw (call_id_lem k item _ _) (ground (arith, named))

    translated :
        (result : Fields)
        → finish_client_tool_call k native t (fields_of (call_envelope name payload)) false
          ≡ ok result
        → transport_call k native tools ≡ ok result
    translated result p =
        rw
          (
            arguments_lem k item (text_at (lit "call_id") item) wrapped read,
            envelope_lem k tools wrapped name (fields_of (call_envelope name payload)) code
                (name_lem k name t.kind payload
                  (qualified_nonblank t.namespace _ (ground (arith, named))) m)
                plain,
            name_lem k name t.kind payload
                (qualified_nonblank t.namespace _ (ground (arith, named))) m,
            found,
          )
          p
