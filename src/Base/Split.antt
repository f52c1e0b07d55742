-- ===== src/Base/Split.antt =====
-- Python's `s.split(d)` and `d.join(parts)` for a delimiter of one character.
use Prim.Native.Char.{Char, code}
use Prim.Native.String.{String, ◌++◌ as ◌<>◌}
use mathlib.Core.Path.{◌≡◌, refl, sym, ap, ◌∙◌}
use mathlib.Core.Logic.{◌≢◌}
use mathlib.Core.Bool.{Bool, false, ◌||◌}
use mathlib.Core.List.{List, [], ◌∷◌}
use native.Mathlib.Omega.{arith}
use text.Mathlib.TextLemmas.{nil-append, cons-append, cons≢nil}
use tapis_workflows.Base.Equality.{◌==◌, nat_eq, if◌then◌else◌}
use tapis_workflows.Base.Lists.{All}

abbrev is_same : Char → Char → Bool
is_same d c = code c == code d

-- `d in s`
abbrev pub occurs : Char → String → Bool
occurs d String.[] = false
occurs d (String.◌∷◌ c s) = is_same d c || occurs d s

-- A character in front of the first part
abbrev extend : Char → List String → List String
extend c [] = String.◌∷◌ c "" ∷ []
extend c (part ∷ parts) = String.◌∷◌ c part ∷ parts

unfoldable pub split : Char → String → List String
split d String.[] = "" ∷ []
split d (String.◌∷◌ c s) = let rest = split d s in if is_same d c then "" ∷ rest else extend c rest

unfoldable pub join : Char → List String → String
join d [] = ""
join d (part ∷ []) = part
join d (part ∷ (q ∷ parts)) = part <> (String.◌∷◌ d (join d (q ∷ parts)))

pub split-absent : (d : Char) (s : String) → occurs d s ≡ false → split d s ≡ s ∷ []
unfolding split
split-absent d String.[] h = refl
split-absent d (String.◌∷◌ c s) h = rw (split-absent d s (ground arith)) (ground arith)

pub split-append :
    (d : Char) (s t : String) → occurs d s ≡ false → split d (s <> (String.◌∷◌ d t)) ≡ s ∷ split d t
unfolding split
split-append d String.[] t h = rw (nil-append (String.◌∷◌ d t)) (ground arith)
split-append d (String.◌∷◌ b s) t h =
    rw (cons-append b s (String.◌∷◌ d t), split, split-append d s t (ground arith)) (ground arith)

-- Parts without the delimiter come back from the text that joins them.
pub split-join :
    (d : Char) (part : String) (parts : List String)
    → All (λ p. occurs d p ≡ false) (part ∷ parts)
    → split d (join d (part ∷ parts)) ≡ part ∷ parts
unfolding join
split-join d part [] h = split-absent d part h.0
split-join d part (q ∷ parts) h =
    split-append d part (join d (q ∷ parts)) h.0 ∙ ap (λ l. part ∷ l) (split-join d q parts h.1)

pub join_injective :
    (d : Char) (p q : String) (ps qs : List String)
    → All (λ p. occurs d p ≡ false) (p ∷ ps)
    → All (λ p. occurs d p ≡ false) (q ∷ qs)
    → join d (p ∷ ps) ≡ join d (q ∷ qs)
    → ◌≡◌ {A = List String} (p ∷ ps) (q ∷ qs)
join_injective d p q ps qs hp hq e =
    sym (split-join d p ps hp) ∙ ap (λ s. split d s) e ∙ split-join d q qs hq

pub occurs-append :
    (d : Char) (s t : String) → occurs d s ≡ false → occurs d t ≡ false → occurs d (s <> t) ≡ false
occurs-append d String.[] t hs ht = rw (nil-append t) ht
occurs-append d (String.◌∷◌ c s) t hs ht =
    let rest = occurs-append d s t (ground arith) ht in rw (cons-append c s t) (ground arith)

pub append-ne-nil : (s t : String) → s ≢ "" → s <> t ≢ ""
append-ne-nil String.[] t n e = n refl
append-ne-nil (String.◌∷◌ c s) t n e = cons≢nil (sym (cons-append c s t) ∙ e)
