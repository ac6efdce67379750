-- ===== src/Strings/Trims.antt =====
-- Trimming white space.
use mango_agent.Base.{ℕ, true, false, [], ◌∷◌, ◌++◌, Text, ◌≡◌, ◌≢◌, refl, arith}
use mango_agent.Strings.Defs.{is_space, is_nil, trim_left, trim_right, trim_space, has_prefix}
use mango_agent.Strings.Affixes.{has_prefix-append}

is_nil-append : (p s : Text) → s ≢ [] → is_nil (p ++ s) ≡ false
is_nil-append [] [] h = absurd (h refl)
is_nil-append [] (c ∷ s) h = refl
is_nil-append (c ∷ p) s h = refl

trim_right-append : (p s : Text) → trim_right s ≢ [] → trim_right (p ++ s) ≡ p ++ trim_right s
unfolding trim_right
trim_right-append [] s h = refl
trim_right-append (c ∷ p) s h =
    ground (arith, trim_right-append p s h, is_nil-append p (trim_right s) h)

-- A text that begins with no white space keeps a prefix under trimming, if something that is
-- not white space follows it.
pub has_prefix-trim_space :
    (c : ℕ) (p s : Text)
    → is_space c ≡ false
    → trim_right s ≢ []
    → has_prefix (trim_space ((c ∷ p) ++ s)) (c ∷ p) ≡ true
unfolding trim_space trim_left
has_prefix-trim_space c p s h k =
    rw (h, trim_right-append (c ∷ p) s k) (has_prefix-append (c ∷ p) (trim_right s))
