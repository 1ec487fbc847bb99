-- ===== src/Tests/Texts.antt =====
-- Conversions of strings at concrete inputs.
use quick_js_swift.Base.{ℕ, ◌≤◌, ◌≡◌, refl, List, [], ◌∷◌, true, false, some, length, arith}
use quick_js_swift.Strings.Buffer.{JsString}
use quick_js_swift.Strings.Buffer.Finish.{Gives}
use quick_js_swift.Strings.Text.{
  js_new_string_len, js_to_cstring_len2, skip_continuations, string_getc, utf8_loop,
}
use quick_js_swift.Strings.Text.Decode.{utf8_loop_fuel}
use quick_js_swift.Strings.Text.Encode.{decoded}
use quick_js_swift.Strings.Text.RoundTrip.{
  js_new_string_len-js_to_cstring_len2, js_to_cstring_len2-le,
}
use quick_js_swift.Strings.Text.Read.{IsRead, string_getc_lem}
use quick_js_swift.Strings.Text.Stray.{decoded_stray}
use quick_js_swift.Strings.Compare.{
  memcmp16, js_string_compare, sign, by_units, Compares, memcmp16_lem, js_string_compare_lem,
}
use quick_js_swift.Tests.StringBuffers.{plenty, plenty-Serves}

-- "a", U+1F600 and a low surrogate that stands alone.
abbrev smile : JsString
smile = record { is_wide_char = true; chars = 97 ∷ 0xd83d ∷ 0xde00 ∷ 0xdc00 ∷ [] }

abbrev smile_bytes : List ℕ
smile_bytes = 97 ∷ 0xf0 ∷ 0x9f ∷ 0x98 ∷ 0x80 ∷ 0xed ∷ 0xb0 ∷ 0x80 ∷ []

smile_written : js_to_cstring_len2 plenty 0 smile false ≡ (1, some (smile_bytes, 12))
unfolding js_to_cstring_len2 quick_js_swift.Unicode.Utf8.unicode_to_utf8
smile_written = refl

utf8_loop_fuel_example : utf8_loop 20 smile_bytes ≡ utf8_loop (length smile_bytes) smile_bytes
utf8_loop_fuel_example = utf8_loop_fuel 20 smile_bytes (omega arith)

js_new_string_len-js_to_cstring_len2_example :
    Gives (97 ∷ 0xd83d ∷ 0xde00 ∷ 0xdc00 ∷ []) (js_new_string_len plenty 5 smile_bytes).1
js_new_string_len-js_to_cstring_len2_example =
    js_new_string_len-js_to_cstring_len2 plenty 0 1 5 smile false smile_bytes 12 plenty-Serves
      (omega arith) (omega arith) smile_written

js_to_cstring_len2-le_example : 8 ≤ 12
js_to_cstring_len2-le_example =
    js_to_cstring_len2-le plenty 0 1 smile false smile_bytes 12 (omega arith) (omega arith)
      smile_written

string_getc_lem_example : IsRead smile.chars 1 (string_getc smile 1)
string_getc_lem_example = string_getc_lem smile 1 (omega arith) (omega arith)

decoded_stray_example :
    decoded (0x80 ∷ 97 ∷ 98 ∷ []) ≡ 0xfffd ∷ decoded (skip_continuations (98 ∷ []))
decoded_stray_example = decoded_stray 0x80 97 (98 ∷ []) (omega arith) (omega arith) (omega arith)

-- A `memcmp` by the loop for 16-bit units, and strings of both widths with a common start.
plain_memcmp-Compares : Compares memcmp16
plain_memcmp-Compares p q len h k = memcmp16_lem len p q h k

js_string_compare_lem_example :
    sign (js_string_compare memcmp16 (record { is_wide_char = false; chars = 97 ∷ 98 ∷ [] }) smile)
    ≡ by_units (97 ∷ 98 ∷ []) (97 ∷ 0xd83d ∷ 0xde00 ∷ 0xdc00 ∷ [])
js_string_compare_lem_example =
    js_string_compare_lem memcmp16 (record { is_wide_char = false; chars = 97 ∷ 98 ∷ [] }) smile
      plain_memcmp-Compares
