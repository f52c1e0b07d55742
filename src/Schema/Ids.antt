-- ===== src/Schema/Ids.antt =====
-- What an accepted id can be.
use text.Mathlib.TextLemmas.{cons≢nil}
use tapis_workflows.Base.{String, true, false, ◌≡◌, ◌≢◌, refl, arith, nat_eq}
use tapis_workflows.Base.Split.{occurs}
use tapis_workflows.Schema.{is_id_char, all_chars, is_id}

no_dot : (s : String) → all_chars is_id_char s ≡ true → occurs "." s ≡ false
no_dot String.[] h = refl
no_dot (String.◌∷◌ c s) h = let rest = no_dot s (ground arith) in ground arith

-- An id is not empty and holds no dot.
pub is_id-plain : (s : String) → is_id s ≡ true → (s ≢ "") × (occurs "." s ≡ false)
unfolding is_id
is_id-plain String.[] h = cc
is_id-plain (String.◌∷◌ c s) h =
    let rest = no_dot s (ground arith) in (λ e. cons≢nil e, ground arith)
