-- ===== src/Tests/Hosts.antt =====
-- host_client.go on a host that answers everything with one envelope.
use cliproxyapi_plugin_basis.Common.{ℕ, ◌+◌, ◌≡◌, refl, true, false, ◌∷◌, none, some, [], ok}
use cliproxyapi_plugin_basis.Common.Text.{lit}
use cliproxyapi_plugin_basis.Json.{end, Coding}
use cliproxyapi_plugin_basis.Upstream.{UpstreamRequest}
use cliproxyapi_plugin_basis.Callbacks.{Bridge, call_host, http_call}
use cliproxyapi_plugin_basis.Callbacks.Client.{
  Methods, Wire, arguments, list_auth, get_auth, do_call, pulling_from, do_stream, emit_frame,
  close_host_stream, log_message,
}
use cliproxyapi_plugin_basis.Callbacks.Client.Answered.{Asks, Tells, call_host-Asks}

-- The state counts the calls.
abbrev one_answer : Bridge
one_answer = record {
  State = ℕ;
  call_raw = λ method payload n. (ok (lit "{}", 0), n + 1);
  read_envelope = λ raw. some (record { is_ok = true; result = raw; message = none });
  read_response = λ raw. some (record { payload = raw; error = []; done = false });
  stream_read = lit "read";
  stream_close = lit "close";
  stream_arguments = λ callback stream. stream;
}

call_host_one : (call_host one_answer (lit "m") (lit "p") 0).0 ≡ ok (lit "{}")
unfolding call_host lit
call_host_one = refl

-- An encoder that keeps nothing, and decoders that take every answer.
abbrev plain_coding : Coding
plain_coding = record {
  decode = λ t. none;
  decode_first = λ t. none;
  encode = λ v. lit "{}";
  digest = λ t. t;
}

abbrev method_names : Methods
method_names = record {
  auth_list = lit "list";
  auth_get = lit "get";
  http_do = lit "do";
  http_do_stream = lit "do_stream";
  stream_emit = lit "emit";
  stream_close = lit "close";
  log = lit "log";
}

abbrev loose_wire : Wire
loose_wire = record {
  auth_request = λ index. index;
  http_request = λ call. call.url;
  base64 = λ bytes. bytes;
  read_files = λ raw. some [];
  read_credential = some;
  read_http = λ raw. some (record { status_code = 200; headers = []; body = raw });
  read_stream_answer = λ raw. some (record { status_code = 200; headers = []; stream_id = raw });
}

abbrev posted : UpstreamRequest
posted = record {
  method = lit "POST";
  url = lit "https://x";
  headers = [];
  body = [];
  header_profile = [];
}

call_host-Asks_example :
    Asks one_answer
      (lit "list")
      (arguments one_answer plain_coding method_names loose_wire (lit "c") [])
      0
      loose_wire.read_files
      (list_auth one_answer plain_coding method_names loose_wire (lit "c") 0)
    × Asks one_answer
        (lit "get")
        (lit "i")
        0
        loose_wire.read_credential
        (get_auth one_answer plain_coding method_names loose_wire (lit "c") (lit "i") 0)
    × Asks one_answer
        (lit "do")
        (loose_wire.http_request (http_call (lit "c") posted))
        0
        loose_wire.read_http
        (do_call one_answer plain_coding method_names loose_wire (lit "c") posted 0)
    × Asks one_answer
        (lit "do_stream")
        (loose_wire.http_request (http_call (lit "c") posted))
        0
        (λ raw.
          pulling_from one_answer plain_coding method_names loose_wire
            (lit "c")
            (loose_wire.read_stream_answer raw))
        (do_stream one_answer plain_coding method_names loose_wire (lit "c") posted 0)
    × Tells one_answer
        (lit "emit")
        (arguments one_answer plain_coding method_names loose_wire
          (lit "c")
          ((lit "stream_id", lit "s") ∷ (lit "payload", lit "t") ∷ []))
        0
        (emit_frame one_answer plain_coding method_names loose_wire (lit "c") (lit "s") (lit "t") 0)
    × Tells one_answer
        (lit "close")
        (arguments one_answer plain_coding method_names loose_wire
          (lit "c")
          ((lit "stream_id", lit "s") ∷ (lit "error", lit "t") ∷ []))
        0
        (close_host_stream one_answer plain_coding method_names loose_wire
          (lit "c")
          (lit "s")
          (lit "t")
          0)
    × (log_message one_answer plain_coding method_names loose_wire
          (lit "c")
          (lit "warn")
          (lit "m")
          end
          0
        ≡ 1)
call_host-Asks_example =
    call_host-Asks one_answer plain_coding method_names loose_wire (lit "c") (lit "i") (lit "s")
      (lit "t") (lit "warn") (lit "m") end posted 0

-- A stream is opened with the identifier that the host gives.
stream_opened :
    (do_stream one_answer plain_coding method_names loose_wire (lit "c") posted 0).0
    ≡ ok (record {
      status_code = 200;
      headers = [];
      stream = record { callback_id = lit "c"; stream_id = lit "{}"; closed = false };
    })
unfolding do_stream call_host http_call lit
stream_opened = refl
