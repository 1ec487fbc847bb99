-- ===== src/Tests/CStrings.antt =====
-- Strings of C at concrete inputs.
use quick_js_swift.Base.{ℕ, ◌≡◌, List, [], ◌∷◌, some, arith}
use quick_js_swift.Bytes.CString.{pstrcat}
use quick_js_swift.Bytes.CString.Copy.{pstrcat_lem}

-- "cd" behind "ab", in four bytes.
pstrcat_lem_example :
    pstrcat (97 ∷ 98 ∷ 0 ∷ 9 ∷ []) 4 (99 ∷ 100 ∷ 0 ∷ []) ≡ some (97 ∷ 98 ∷ 99 ∷ 0 ∷ [])
pstrcat_lem_example =
    pstrcat_lem (97 ∷ 98 ∷ []) (99 ∷ 100 ∷ []) (9 ∷ []) [] 4 (omega arith) (omega arith)
      (omega arith) (omega arith)

abbrev abc : List ℕ
abc = 97 ∷ 98 ∷ 99 ∷ 0 ∷ []
