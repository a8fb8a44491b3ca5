-- ===== src/Guards/Splitting.antt =====
-- What `split` finds in a text of words.
use distributed_nestjs_event.Base.{[], ℕ, ◌≡◌, refl, false, ◌∷◌, ◌++◌, arith, includes}
use distributed_nestjs_event.Guards.{Text, split}

pub split-word :
    (separator : ℕ) (word rest : Text)
    → includes word separator ≡ false
    → split separator (word ++ (separator ∷ rest)) ≡ word ∷ split separator rest
unfolding split
split-word separator [] rest h = ground arith
split-word separator (c ∷ word) rest h = ground (arith, h, split-word separator word rest)

pub split-last :
    (separator : ℕ) (word : Text)
    → includes word separator ≡ false
    → split separator word ≡ word ∷ []
unfolding split
split-last separator [] h = refl
split-last separator (c ∷ word) h = ground (arith, h, split-last separator word)
