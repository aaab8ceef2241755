-- ===== src/Models/Recovery.antt =====
-- `_validate_recovery_command` of codex_worker/models.py, and `str.strip` as far as it is used.
use Prim.Native.Char.{code}
use text.Mathlib.Text.{starts_with}
use superdev.Base.{
  leb, nat_eq, string_eq, pair_eq, option_string_eq, any, contains, ℕ, String, Bool, not, ◌&&◌,
  ◌||◌, List, [], ◌∷◌,
}

-- The code points for which `str.isspace` holds.
abbrev pub is_space : ℕ → Bool
is_space c =
    leb 9 c && leb c 13
    || leb 28 c && leb c 32
    || leb 8192 c && leb c 8202
    || contains c (133 ∷ 160 ∷ 5760 ∷ 8232 ∷ 8233 ∷ 8239 ∷ 8287 ∷ 12288 ∷ [])

-- The code points of a text, in order.
abbrev pub codes : String → List ℕ
codes String.[] = []
codes (String.◌∷◌ c s) = code c ∷ codes s

-- `command.strip()` is not empty
pub has_visible : String → Bool
has_visible s = any (λ c. not (is_space c)) (codes s)

unfoldable pub is_recovery_command : String → Bool
unfolding has_visible
is_recovery_command command =
    has_visible command
    && not (contains b'<' (codes command))
    && not (contains b'>' (codes command))
    && (starts_with command "codex-worker " || starts_with command "codex ")
