-- ===== src/Tests/Shapes.antt =====
-- `transportShape` of basispoints/envelope.go on a text with an unknown escape.
use cliproxyapi_plugin_basis.Common.{
  ℕ, ◌≡◌, refl, ap, false, Option, none, some, length, min, arith,
}
use cliproxyapi_plugin_basis.Common.Text.{
  Text, lit, trim_space, trim_right, trim_left, has_prefix, cut_prefix,
}
use cliproxyapi_plugin_basis.Prepare.Describe.{decimal_digits}
use cliproxyapi_plugin_basis.Envelope.Shape.{
  transport_shape, text_format, json_failure_kind, at_control, after_backslash, byte_at,
  message_kind,
}
use cliproxyapi_plugin_basis.Envelope.Shape.Structural.{Reports, transport_shape-Reports}
use cliproxyapi_plugin_basis.Tests.Uploads.{two_values}

-- A parser that always stops behind the eighth byte, or at the end.
abbrev eighth : Text → Option (ℕ × Text)
eighth raw = some (min 8 (length raw), lit "invalid character 'q' in string escape code")

abbrev stop_of : Option (ℕ × Text) → ℕ
stop_of none = 0
stop_of (some (offset, message)) = offset

transport_shape-Reports_example :
    (report : Text) × (transport_shape two_values eighth
        (λ v. false)
        (λ v. lit "object")
        (some (lit "{\"a\":\"\\q\"}"))
      ≡ some report)
    × Reports two_values eighth
        (λ v. false)
        (λ v. lit "object")
        (some (lit "{\"a\":\"\\q\"}"))
        (some (lit "{\"a\":\"\\q\"}"))
        report
transport_shape-Reports_example =
    transport_shape-Reports two_values eighth (λ v. false) (λ v. lit "object")
      (λ raw offset message e. omega (arith, ap stop_of e)) (some (lit "{\"a\":\"\\q\"}"))

shape_of_escape :
    transport_shape two_values eighth
      (λ v. false)
      (λ v. lit "object")
      (some (lit "{\"a\":\"\\q\"}"))
    ≡ some (lit "format=json_object; bytes=10; json_offset=8; json_failure=invalid_escape")
unfolding transport_shape lit text_format trim_space trim_right trim_left has_prefix cut_prefix
    json_failure_kind at_control after_backslash byte_at message_kind decimal_digits
shape_of_escape = refl
