-- ===== src/Retrieval/SourceLease/Detail.antt =====
-- shared/procuresignal/retrieval/audit.py: `_SAFE_DETAIL`, what may stand in a stored detail.
-- With IGNORECASE Python's `[a-z]` also matches the four other letters whose case variants are
-- among a to z: U+0130, U+0131, U+017F and U+212A.
use Prim.Native.Char.{code}
use procuresignal.Prelude.{
  Bool, List, Option, String, [], all, if◌then◌else◌, leb, length, ltb, none, some, ℕ, ◌&&◌, ◌==◌,
  ◌||◌, ◌∷◌,
}

abbrev pub codes : String → List ℕ
codes String.[] = []
codes (String.◌∷◌ c s) = code c ∷ codes s

abbrev pub is_letter : ℕ → Bool
is_letter c =
    (leb b'a' c && leb c b'z')
    || ((leb b'A' c && leb c b'Z')
        || ((c == 0x130) || ((c == 0x131) || ((c == 0x17f) || (c == 0x212a)))))

abbrev pub is_safe_char : ℕ → Bool
is_safe_char c =
    is_letter c
    || ((leb b'0' c && leb c b'9')
        || ((c == b'_') || ((c == b'.') || ((c == b':') || (c == b'-')))))

-- _SAFE_DETAIL.fullmatch(detail)
unfoldable pub is_safe : String → Bool
is_safe detail =
    ltb 0 (length (codes detail))
    && leb (length (codes detail)) 100
    && all is_safe_char (codes detail)

unfoldable pub safe_detail : Option String → Option String
unfolding is_safe
safe_detail none = none
safe_detail (some detail) = if is_safe detail then some detail else none
