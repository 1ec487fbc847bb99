-- ===== src/Tests/StringBuffers.antt =====
-- A string buffer at concrete inputs.
use quick_js_swift.Base.{
  ℕ, ◌+◌, ◌≡◌, ◌⊎◌, refl, inr, List, [], ◌∷◌, true, false, none, some, length, arith,
}
use quick_js_swift.Strings.Buffer.{JsString, Memory, StringBuffer}
use quick_js_swift.Strings.Buffer.Writes.{Serves, IsValid, Leaves}
use quick_js_swift.Strings.Buffer.Copy.{utf16}
use quick_js_swift.Strings.Buffer.Finish.{
  Write, putc8, putc, write8, fill, all_units, Gives, build, build_lem, build_served,
}
use quick_js_swift.Strings.Buffer.Values.{
  Values, string_buffer_concat_value, string_buffer_concat_value_free, concat_value-Leaves,
}

-- Memory that counts the calls.
abbrev pub plenty : Memory ℕ
plenty = record {
  header = 24;
  alloc_string = λ w n wide. (w + 1, true);
  realloc2 = λ w n. (w + 1, some 3);
  realloc_rt = λ w n. (w + 1, true);
  free = λ w. w;
  throw_internal_error = λ w. w;
}

pub plenty-Serves : Serves plenty
plenty-Serves = record { alloc_served = λ w n wide. refl; realloc_served = λ w n. (3, refl) }

-- "a", U+1F600, "bc" and three times "d": the emoji makes the buffer wide.
abbrev greeting : List Write
greeting = putc8 97 ∷ putc 0x1f600 ∷ write8 (98 ∷ 99 ∷ []) ∷ fill 100 3 ∷ []

greeting_total : length (all_units greeting) ≡ 8
unfolding utf16
greeting_total = refl

build_lem_example :
    Gives (all_units greeting) (build plenty 0 1 false greeting)
    ⊎ (build plenty 0 1 false greeting ≡ none)
build_lem_example = build_lem plenty 0 1 false greeting (omega arith)

build_served_example : Gives (all_units greeting) (build plenty 0 1 false greeting)
build_served_example =
    build_served plenty 0 1 false greeting plenty-Serves (omega arith)
      (omega (arith, greeting_total))

-- A number converts to one digit.
abbrev digits : Values ℕ ℕ
digits = record {
  get_string = λ v. none;
  to_string = λ w v. (w + 1, some (record { is_wide_char = false; chars = (v + 48) ∷ [] }));
  to_string_free = λ w v. (w + 1, some (record { is_wide_char = false; chars = (v + 48) ∷ [] }));
  free_string = λ w p. w;
  free_value = λ w v. w;
}

abbrev half_full : StringBuffer ℕ
half_full = record {
  ctx = 0;
  has_str = true;
  chars = 97 ∷ [];
  size = 2;
  is_wide_char = false;
  error_status = false;
}

seven : JsString
seven = record { is_wide_char = false; chars = 55 ∷ [] }

half_full-IsValid : IsValid half_full
half_full-IsValid = record {
  has_block = refl;
  no_error = refl;
  within = omega arith;
  fits = omega arith;
}

concat_value-Leaves_example :
    Leaves plenty (97 ∷ 55 ∷ []) (string_buffer_concat_value plenty digits half_full 7)
    × Leaves plenty (97 ∷ 55 ∷ []) (string_buffer_concat_value_free plenty digits half_full 7)
unfolding seven
concat_value-Leaves_example =
    concat_value-Leaves plenty digits half_full 7 seven half_full-IsValid (omega arith)
      (inr (refl, refl, refl))
