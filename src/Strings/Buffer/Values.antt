-- ===== src/Strings/Buffer/Values.antt =====
-- Values written to a string buffer as the strings that they convert to:
-- `string_buffer_concat_value` and `string_buffer_concat_value_free` of Sources/QuickJSC/quickjs.c.
use quick_js_swift.Base.{
  ℕ, ◌-◌, ◌≡◌, ◌⊎◌, refl, sym, ap, ◌∙◌, inl, inr, List, [], ◌∷◌, ◌++◌, Bool, false, Option, none,
  some, if◌then◌else◌, length, take, arith,
}
use mathlib.Core.Path.{subst}
use quick_js_swift.Strings.Buffer.{
  JsString, Memory, StringBuffer, Outcome, string_buffer_set_error, string_buffer_concat,
}
use quick_js_swift.Strings.Buffer.Writes.{IsValid, Leaves}
use quick_js_swift.Strings.Buffer.Copy.{IsString, concat-Leaves}

-- What is called on a value: the test of its tag with `JS_VALUE_GET_STRING`, `JS_ToString`, where
-- `none` is an exception and which may run any code, `JS_ToStringFree`, and `JS_FreeValue`.
pub record Values (W V : Type 0) : Type 0 where
  pub get_string : V → Option JsString
  pub to_string : W → V → W × Option JsString
  pub to_string_free : W → V → W × Option JsString
  pub free_string : W → JsString → W
  pub free_value : W → V → W

module _ {W V : Type 0} (mem : Memory W) (values : Values W V) where
  -- A string that was made is written, and freed.
  pub concat_made : StringBuffer W → W × Option JsString → Outcome W
  concat_made s (ctx, none) = string_buffer_set_error mem (record s { ctx = ctx })
  concat_made s (ctx, some p) =
      let (t, res) = string_buffer_concat mem (record s { ctx = ctx }) p 0 (length p.chars) in
      (record t { ctx = values.free_string t.ctx p }, res)

  -- The value is a string, or it is not.
  pub concat_by_tag : StringBuffer W → V → Option JsString → Outcome W
  unfolding concat_made
  concat_by_tag s v none = concat_made s (values.to_string s.ctx v)
  concat_by_tag s v (some p) = string_buffer_concat mem s p 0 (length p.chars)

  unfoldable pub string_buffer_concat_value : StringBuffer W → V → Outcome W
  unfolding concat_by_tag
  string_buffer_concat_value s v =
      let written = concat_by_tag s v (values.get_string v) in
      if s.error_status then (s, false) else written

  pub concat_free_by_tag : StringBuffer W → V → Option JsString → Outcome W
  unfolding concat_made
  concat_free_by_tag s v none = concat_made s (values.to_string_free s.ctx v)
  concat_free_by_tag s v (some p) =
      let (t, res) = string_buffer_concat mem s p 0 (length p.chars) in
      (record t { ctx = values.free_value t.ctx v }, res)

  unfoldable pub string_buffer_concat_value_free : StringBuffer W → V → Outcome W
  unfolding concat_free_by_tag
  string_buffer_concat_value_free s v =
      let written = concat_free_by_tag s v (values.get_string v) in
      let freed = record s { ctx = values.free_value s.ctx v } in
      if s.error_status then (freed, false) else written

  take_all : (l : List ℕ) → take (length l) l ≡ l
  take_all [] = refl
  take_all (x ∷ l) = ap (◌∷◌ x) (take_all l)

  -- The context may change behind a write.
  in_context :
      (cs : List ℕ) (r : Outcome W) (w : W)
      → Leaves mem cs r
      → Leaves mem cs (record r.0 { ctx = w }, r.1)
  in_context cs r w (inl (result, valid, same)) = inl (
    result,
    record {
      has_block = valid.has_block;
      no_error = valid.no_error;
      within = valid.within;
      fits = valid.fits;
    },
    same,
  )
  in_context cs r w (inr (result, failed, why)) = inr (
    result,
    record {
      no_block = failed.no_block;
      is_error = failed.is_error;
      no_units = failed.no_units;
      no_room = failed.no_room;
    },
    why,
  )

  no_error :
      (cs : List ℕ) (b : Bool) (before after : Outcome W)
      → b ≡ false
      → Leaves mem cs after
      → Leaves mem cs (if b then before else after)
  no_error cs b before after e l =
      subst (λ (x : Bool). Leaves mem cs (if x then before else after)) (sym e) l

  -- A whole string is written.
  whole-Leaves :
      (s : StringBuffer W) (p : JsString)
      → IsValid s
      → IsString p
      → Leaves mem (s.chars ++ p.chars) (string_buffer_concat mem s p 0 (length p.chars))
  whole-Leaves s p valid string =
      let all : take (length p.chars - 0) p.chars ≡ p.chars =
        ap (λ (n : ℕ). take n p.chars) (omega arith) ∙ take_all p.chars in
      subst
        (λ (l : List ℕ).
          Leaves mem (s.chars ++ l) (string_buffer_concat mem s p 0 (length p.chars)))
        all (concat-Leaves mem s p 0 (length p.chars) valid string)

  made-Leaves :
      (s : StringBuffer W) (made : W × Option JsString) (p : JsString)
      → IsValid s
      → IsString p
      → made.1 ≡ some p
      → Leaves mem (s.chars ++ p.chars) (concat_made s made)
  unfolding concat_made
  made-Leaves s (ctx, none) p valid string e = absurd (none_some e)
    where
      none_some : none ≡ some p → ⊥
      none_some h = cc
  made-Leaves s (ctx, some q) p valid string e =
      let same : q ≡ p = cc in
      let t : StringBuffer W = record s { ctx = ctx } in
      let valid' : IsValid t = record {
        has_block = valid.has_block;
        no_error = valid.no_error;
        within = valid.within;
        fits = valid.fits;
      } in
      subst (λ (x : JsString). Leaves mem (s.chars ++ p.chars) (concat_made s (ctx, some x)))
        (sym same) (in_context _ _ _ (whole-Leaves t p valid' string))

  -- A value that is a string, or that converts to one, is appended as that string, by both
  -- functions; or the buffer fails, which with memory that is never refused happens only where the
  -- string would be too long.
  pub concat_value-Leaves :
      (s : StringBuffer W) (v : V) (p : JsString)
      → IsValid s
      → IsString p
      → (values.get_string v ≡ some p)
        ⊎ ((values.get_string v ≡ none)
            × ((values.to_string s.ctx v).1 ≡ some p)
            × ((values.to_string_free s.ctx v).1 ≡ some p))
      → Leaves mem (s.chars ++ p.chars) (string_buffer_concat_value s v)
        × Leaves mem (s.chars ++ p.chars) (string_buffer_concat_value_free s v)
  unfolding string_buffer_concat_value string_buffer_concat_value_free concat_by_tag
      concat_free_by_tag
  concat_value-Leaves s v p valid string (inl e) = (
    no_error _ _ _ _ valid.no_error (
        subst (λ (o : Option JsString). Leaves mem (s.chars ++ p.chars) (concat_by_tag s v o))
          (sym e) (whole-Leaves s p valid string)),
    no_error _ _ _ _ valid.no_error (
        subst (λ (o : Option JsString). Leaves mem (s.chars ++ p.chars) (concat_free_by_tag s v o))
          (sym e)
          (in_context _ (string_buffer_concat mem s p 0 (length p.chars)) _
            (whole-Leaves s p valid string))),
  )
  concat_value-Leaves s v p valid string (inr (e, made, made_free)) = (
    no_error _ _ _ _ valid.no_error (
        subst (λ (o : Option JsString). Leaves mem (s.chars ++ p.chars) (concat_by_tag s v o))
          (sym e) (made-Leaves s (values.to_string s.ctx v) p valid string made)),
    no_error _ _ _ _ valid.no_error (
        subst (λ (o : Option JsString). Leaves mem (s.chars ++ p.chars) (concat_free_by_tag s v o))
          (sym e) (made-Leaves s (values.to_string_free s.ctx v) p valid string made_free)),
  )
