-- ===== src/People/Texts.antt =====
-- `sorted` on texts.
use Prim.Native.String.{String}
use orgmetra.Base.{List, [], ◌∷◌, if◌then◌else◌, str_eq}
use orgmetra.Base.Regex.{codes, codes_lt}

unfoldable pub add_text : String → List String → List String
add_text t [] = t ∷ []
add_text t (s ∷ texts) =
    if str_eq t s
    then s ∷ texts
    else if codes_lt (codes t) (codes s)
    then t ∷ s ∷ texts
    else s ∷ add_text t texts

-- `sorted(texts)` of a set: each text once.
unfoldable pub sorted_texts : List String → List String
unfolding add_text
sorted_texts [] = []
sorted_texts (t ∷ texts) = add_text t (sorted_texts texts)
