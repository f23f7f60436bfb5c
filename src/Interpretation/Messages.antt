-- ===== src/Interpretation/Messages.antt =====
-- The texts of exceptions, in which pke/src/pke/interpretation/retry.py looks for words: as the
-- codes of their characters.
use Prim.Native.Char.{code}
use Prim.Native.String.{String}
use jamesbrain.Common.{ℕ, Bool, true, false, ◌&&◌, ◌||◌, List, [], ◌∷◌, ◌==◌}

abbrev pub Message : Type 0
Message = List ℕ

abbrev pub codes : String → Message
codes String.[] = []
codes (String.◌∷◌ c s) = code c ∷ codes s

-- `text.startswith(word)`
unfoldable pub starts_with : Message → Message → Bool
starts_with [] text = true
starts_with (c ∷ word) [] = false
starts_with (c ∷ word) (d ∷ text) = c == d && starts_with word text

-- `word in text`
unfoldable pub contains : Message → Message → Bool
unfolding starts_with
contains word [] = starts_with word []
contains word (d ∷ text) = starts_with word (d ∷ text) || contains word text

-- `any(word in text for word in words)`
unfoldable pub contains_any : List Message → Message → Bool
unfolding contains
contains_any [] text = false
contains_any (word ∷ words) text = contains word text || contains_any words text

-- `any(text.startswith(word) for word in words)`
unfoldable pub starts_with_any : List Message → Message → Bool
unfolding starts_with
starts_with_any [] text = false
starts_with_any (word ∷ words) text = starts_with word text || starts_with_any words text
